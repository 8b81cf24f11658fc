-- ===== src/Prelude/Dict.antt =====
-- std::unordered_map with unique keys, as an association list. Its order is not observed.
use Prim.Native.Nat.{◌+◌, ◌≤◌}
use mathlib.Core.Path.{◌≡◌, refl}
use mathlib.Core.Logic.{inl, inr}
use mathlib.Core.Bool.{Bool, true, false, ◌||◌}
use mathlib.Core.List.{List, [], ◌∷◌}
use mathlib.Core.Option.{Option, none, some}
use native.Mathlib.Omega.{arith}
use aimpremote_control.Prelude.Tests.{EqTest, Option-cases, ◌==◌, if◌then◌else◌}
use aimpremote_control.Prelude.Lists.{length}

abbrev pub Dict {ℓ κ} : Type ℓ → Type κ → Type (ℓ ⊔ κ)
Dict K V = List (K × V)

module _ {ℓ κ} {K : Type ℓ} {V : Type κ} ⦃e : EqTest K⦄ where
  -- find
  unfoldable pub get : K → Dict K V → Option V
  get k [] = none
  get k ((j, v) ∷ m) = if j == k then some v else get k m

  -- count, as a test
  unfoldable pub has : K → Dict K V → Bool
  unfolding get
  has k m = elim (get k m) [ none ↦ false | some _ ↦ true ]

  -- emplace: an entry that is there stays
  unfoldable pub emplace : K → V → Dict K V → Dict K V
  unfolding get
  emplace k v m = elim (get k m) [ none ↦ (k, v) ∷ m | some _ ↦ m ]

  -- operator[] with an assignment
  unfoldable pub put : K → V → Dict K V → Dict K V
  put k v [] = (k, v) ∷ []
  put k v ((j, w) ∷ m) = if j == k then (k, v) ∷ m else (j, w) ∷ put k v m

  unfoldable pub erase : K → Dict K V → Dict K V
  erase k [] = []
  erase k ((j, v) ∷ m) = if j == k then erase k m else (j, v) ∷ erase k m

  pub get-emplace_new :
      (k j : K) (v : V) (m : Dict K V)
      → get k m ≡ none
      → get j (emplace k v m) ≡ (if k == j then some v else get j m)
  unfolding get emplace
  get-emplace_new k j v m h = rw (h, emplace)

  pub has-emplace_new :
      (k j : K) (v : V) (m : Dict K V)
      → get k m ≡ none
      → has j (emplace k v m) ≡ (k == j || has j m)
  unfolding has
  has-emplace_new k j v m h = ground (arith, get-emplace_new k j v m h)

  pub get-put :
      (k j : K) (v : V) (m : Dict K V) → get j (put k v m) ≡ (if k == j then some v else get j m)
  unfolding get put
  get-put k j v [] = refl
  get-put k j v ((i, w) ∷ m) =
      ground (arith, e.beq_iff k j, e.beq_iff i k, e.beq_iff i j, get-put k j v m)

  pub get-erase : (k j : K) (m : Dict K V) → get j (erase k m) ≡ (if k == j then none else get j m)
  unfolding get erase
  get-erase k j [] = ground arith
  get-erase k j ((i, w) ∷ m) =
      ground (arith, e.beq_iff k j, e.beq_iff i k, e.beq_iff i j, get-erase k j m)

  pub length-erase-le : (k : K) (m : Dict K V) → length (erase k m) ≤ length m
  unfolding erase
  length-erase-le k [] = omega arith
  length-erase-le k ((i, w) ∷ m) = ground (arith, length-erase-le k m)

  -- Erasing a key that is there makes the map smaller.
  pub length-erase-lt :
      (k : K) (m : Dict K V) (v : V) → get k m ≡ some v → length (erase k m) + 1 ≤ length m
  unfolding get erase
  length-erase-lt k [] v h = cc
  length-erase-lt k ((i, w) ∷ m) v h = ground (arith, length-erase-le k m, length-erase-lt k m v)

  pub has-some : (k : K) (m : Dict K V) → has k m ≡ true → (v : V) × (get k m ≡ some v)
  unfolding has
  has-some k m h = elim (Option-cases (get k m)) [
    | inl e ↦ absurd (missing (rw (e, has) at h))
    | inr found ↦ found
  ]
    where
      missing : false ≡ true → ⊥
      missing e = cc

  pub some-has : (k : K) (v : V) (m : Dict K V) → get k m ≡ some v → has k m ≡ true
  unfolding has
  some-has k v m h = rw (h, has)
