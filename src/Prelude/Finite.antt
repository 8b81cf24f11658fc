-- ===== src/Prelude/Finite.antt =====
-- A list has no more distinct members than elements.
use Prim.Native.Nat.{ℕ, zero, suc, ◌+◌, ◌≤◌, ◌<◌}
use mathlib.Core.Path.{◌≡◌, ap}
use mathlib.Core.Bool.{true, not}
use mathlib.Core.List.{List, [], ◌∷◌}
use native.Mathlib.Omega.{arith}
use aimpremote_control.Prelude.Tests.{◌==◌}
use aimpremote_control.Prelude.Text.{Bytes, bytes_eq, bytes_beq_iff}
use aimpremote_control.Prelude.Lists.{length, contains, filter}

others : Bytes → List Bytes → List Bytes
others a xs = filter (λ x. not (x == a)) xs

contains-others :
    (a x : Bytes) (xs : List Bytes)
    → contains x xs ≡ true
    → ((x ≡ a) → ⊥)
    → contains x (others a xs) ≡ true
unfolding others
contains-others a x [] h d = cc
contains-others a x (y ∷ ys) h d =
    ground (arith, contains-others a x ys, bytes_beq_iff y x, bytes_beq_iff y a)

length-others-le : (a : Bytes) (xs : List Bytes) → length (others a xs) ≤ length xs
unfolding others
length-others-le a [] = omega arith
length-others-le a (y ∷ ys) = ground (arith, length-others-le a ys)

length-others-lt :
    (a : Bytes) (xs : List Bytes) → contains a xs ≡ true → length (others a xs) + 1 ≤ length xs
unfolding others
length-others-lt a [] h = cc
length-others-lt a (y ∷ ys) h = ground (arith, length-others-le a ys, length-others-lt a ys)

-- `c n`, …, `c (n + k - 1)` are different members of the list.
pub distinct_members :
    (c : ℕ → Bytes)
    → ((i j : ℕ) → c i ≡ c j → i ≡ j)
    → (k n : ℕ) (xs : List Bytes) → ((i : ℕ) → i < k → contains (c (n + i)) xs ≡ true)
    → k ≤ length xs
distinct_members c inj zero n xs h = omega arith
distinct_members c inj (suc k) n xs h = omega (
  arith,
  length-others-lt (c n) xs (rw plus_zero at (h 0 (omega arith))),
  distinct_members c inj k (suc n) (others (c n) xs) later,
)
  where
    plus_zero : n + 0 ≡ n
    plus_zero = omega arith

    later : (i : ℕ) → i < k → contains (c (suc n + i)) (others (c n) xs) ≡ true
    later i lt =
        contains-others (c n) (c (suc n + i)) xs (rw (ap c (shift i)) (h (suc i) (omega arith)))
          (λ same. ahead i (inj (suc n + i) n same))
      where
        shift : (j : ℕ) → suc n + j ≡ n + suc j
        shift j = omega arith

        ahead : (j : ℕ) → suc n + j ≡ n → ⊥
        ahead j e = omega arith
