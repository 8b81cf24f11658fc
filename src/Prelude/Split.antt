-- ===== src/Prelude/Split.antt =====
-- std::string::find of a byte, with the two substrings around it.
use Prim.Native.Nat.{ℕ}
use mathlib.Core.Path.{◌≡◌, refl}
use mathlib.Core.Bool.{Bool, true, false}
use mathlib.Core.List.{[], ◌∷◌, ◌++◌}
use mathlib.Core.Option.{Option, none, some}
use mathlib.Core.Logic.{◌⊎◌, inl, inr}
use native.Mathlib.Omega.{arith}
use aimpremote_control.Prelude.Tests.{◌==◌, nat_eq, nat_beq_iff, if◌then◌else◌}
use aimpremote_control.Prelude.Lists.{contains}
use aimpremote_control.Prelude.Text.{Bytes}

abbrev pub prefixed : ℕ → Option (Bytes × Bytes) → Option (Bytes × Bytes)
prefixed b none = none
prefixed b (some (before, after)) = some (b ∷ before, after)

-- `none` is npos.
unfoldable pub split_first : ℕ → Bytes → Option (Bytes × Bytes)
split_first c [] = none
split_first c (b ∷ bs) =
    let rest = split_first c bs in if b == c then some ([], bs) else prefixed b rest

-- A byte that is not in the first part is found right after it.
pub split_first-append :
    (c : ℕ) (xs ys : Bytes) → contains c xs ≡ false → split_first c (xs ++ c ∷ ys) ≡ some (xs, ys)
unfolding split_first
split_first-append c [] ys h = ground (arith, nat_beq_iff c c)
split_first-append c (x ∷ xs) ys h = ground (arith, split_first-append c xs ys)

pub split_first-none : (c : ℕ) (bs : Bytes) → contains c bs ≡ false → split_first c bs ≡ none
unfolding split_first
split_first-none c [] h = refl
split_first-none c (b ∷ bs) h = ground (arith, split_first-none c bs)

prefixed-some :
    (b : ℕ) (o : Option (Bytes × Bytes)) (xs ys : Bytes)
    → prefixed b o ≡ some (xs, ys)
    → (zs : Bytes) × (o ≡ some (zs, ys)) × (xs ≡ b ∷ zs)
prefixed-some b none xs ys h = cc
prefixed-some b (some (zs, ws)) xs ys h = (zs, cc, cc)

-- What is found splits the text at the first such byte.
pub split_first-some :
    (c : ℕ) (bs xs ys : Bytes)
    → split_first c bs ≡ some (xs, ys)
    → (bs ≡ xs ++ c ∷ ys) × (contains c xs ≡ false)
unfolding split_first
split_first-some c [] xs ys h = cc
split_first-some c (b ∷ bs) xs ys h = elim (found_at (b == c) h) [
  | inl (here, head, tail) ↦ ground (arith, nat_beq_iff b c)
  | inr (later, there) ↦
      let (zs, found, first) = prefixed-some b (split_first c bs) xs ys there in
      let (whole, absent) = split_first-some c bs zs ys found in
      rw (first, whole) (ground (arith, absent))
]
  where
    found_at :
        (t : Bool)
        → (if t then some ([], bs) else prefixed b (split_first c bs)) ≡ some (xs, ys)
        → ((t ≡ true) × (xs ≡ []) × (ys ≡ bs))
          ⊎ ((t ≡ false) × (prefixed b (split_first c bs) ≡ some (xs, ys)))
    found_at true e = inl (refl, cc, cc)
    found_at false e = inr (refl, e)
