-- ===== src/IdManager/Probes.antt =====
-- The search for a free id: what it finds, and that its fuel is enough.
use aimpremote_control.Prelude.{
  ℕ, zero, suc, ◌+◌, ◌≤◌, ◌<◌, ◌≡◌, ◌≢◌, refl, arith, length, nat_eq, nat_beq_iff, Bool, true,
  false, ◌||◌, ◌⊎◌, inl, inr, ◌==◌, Bool-cases,
}
use native.Mathlib.Nat.{add-zero}
use aimpremote_control.Prelude.Dict.{Dict, has, erase, get-erase, length-erase-lt, has-some}
use aimpremote_control.IdManager.{int32_max, Probe, free, overflow, out_of_fuel, probe}

module _ {ℓ} {V : Type ℓ} where
  abbrev busy : Dict ℕ V → ℕ → Bool
  busy taken id = id == 0 || has id taken

  has-erase_ne : (p q : ℕ) (m : Dict ℕ V) → p ≢ q → has q m ≡ true → has q (erase p m) ≡ true
  unfolding has
  has-erase_ne p q m ne h = ground (arith, get-erase p q m, nat_beq_iff p q)

  -- What is found is not 0, is not taken, and is the first such id from the start on.
  pub record IsFirstFree (start id : ℕ) (taken : Dict ℕ V) : Type 0 where
    pub not_before : start ≤ id
    pub positive : 0 < id
    pub small : id ≤ int32_max
    pub unused : has id taken ≡ false
    pub first : (j : ℕ) → start ≤ j → j < id → busy taken j ≡ true

  IsFirstFree-later :
      (start id : ℕ) (taken : Dict ℕ V)
      → busy taken start ≡ true
      → IsFirstFree (start + 1) id taken
      → IsFirstFree start id taken
  IsFirstFree-later start id taken used f = record {
    not_before = omega (arith, f.not_before);
    positive = f.positive;
    small = f.small;
    unused = f.unused;
    first = λ j from to. elim (start_or_later j from) [
      | inl e ↦ rw e used
      | inr later ↦ f.first j later to
    ];
  }
    where
      start_or_later : (j : ℕ) → start ≤ j → (j ≡ start) ⊎ (start + 1 ≤ j)
      start_or_later j h = omega arith

  pub probe-IsFirstFree :
      (fuel start id : ℕ) (taken : Dict ℕ V)
      → start ≤ int32_max
      → probe fuel start taken ≡ free id
      → IsFirstFree start id taken
  unfolding probe
  probe-IsFirstFree zero start id taken s h = cc
  probe-IsFirstFree (suc fuel) start id taken s h = elim (Bool-cases (busy taken start)) [
    | inl used ↦ elim (Bool-cases (start == int32_max)) [
      | inl top ↦ absurd (ends (rw (used, top) at h))
      | inr below ↦
          IsFirstFree-later start id taken used
            (probe-IsFirstFree fuel (start + 1) id taken (ground arith) (rw (used, below) at h))
    ]
    | inr unused ↦ here id (rw unused at h) unused
  ]
    where
      ends : overflow ≡ free id → ⊥
      ends e = cc

      here : (j : ℕ) → free start ≡ free j → busy taken start ≡ false → IsFirstFree start j taken
      here j e u = record {
        not_before = ground arith;
        positive = ground arith;
        small = ground arith;
        unused = ground arith;
        first = λ k from to. absurd (ground arith);
      }

  probe-out_of_fuel :
      (fuel start : ℕ) (taken : Dict ℕ V)
      → probe fuel start taken ≡ out_of_fuel
      → (i : ℕ) → i < fuel
      → busy taken (start + i) ≡ true
  unfolding probe
  probe-out_of_fuel zero start taken h i lt = absurd (omega arith)
  probe-out_of_fuel (suc fuel) start taken h i lt = elim (Bool-cases (busy taken start)) [
    | inl used ↦ elim (Bool-cases (start == int32_max)) [
      | inl top ↦ cc (rw (used, top) at h)
      | inr below ↦
          later i used (λ k. probe-out_of_fuel fuel (start + 1) taken (rw (used, below) at h) k) lt
    ]
    | inr unused ↦ cc (rw unused at h)
  ]
    where
      later :
          (i : ℕ)
          → busy taken start ≡ true
          → ((k : ℕ) → k < fuel → busy taken (start + 1 + k) ≡ true)
          → i < suc fuel
          → busy taken (start + i) ≡ true
      later zero used e below = rw add-zero used
      later (suc i) used e below = rw (shift i) (e i (omega arith))
        where
          shift : (k : ℕ) → start + suc k ≡ start + 1 + k
          shift k = omega arith

  -- A map that holds a run of ids holds at least as many entries.
  run-le-length :
      (n start : ℕ) (taken : Dict ℕ V)
      → ((i : ℕ) → i < n → has (start + i) taken ≡ true)
      → n ≤ length taken
  run-le-length zero start taken h = omega arith
  run-le-length (suc n) start taken h =
      let (v, there) = has-some (start + n) taken (h n (omega arith)) in
      let rest =
        run-le-length n start (erase (start + n) taken)
          (λ i lt. has-erase_ne (start + n) (start + i) taken (omega arith) (h i (omega arith))) in
      omega (arith, length-erase-lt (start + n) taken v there, rest)

  -- The fuel that the operations give is enough.
  pub probe-ne-out_of_fuel :
      (start : ℕ) (taken : Dict ℕ V) → probe (length taken + 2) start taken ≢ out_of_fuel
  probe-ne-out_of_fuel start taken h = absurd (
      omega (
        arith,
        run-le-length (length taken + 1) (start + 1) taken λ i lt.
            used (start + 1 + i) (omega arith) (
              rw (shift i)
                (probe-out_of_fuel (length taken + 2) start taken h (1 + i) (omega arith))),
      ))
    where
      shift : (i : ℕ) → start + 1 + i ≡ start + (1 + i)
      shift i = omega arith

      used : (j : ℕ) → 0 < j → busy taken j ≡ true → has j taken ≡ true
      used j p b = ground arith

  -- The overflow is reached only if every id from the start to the largest is taken.
  pub probe-overflow :
      (fuel start : ℕ) (taken : Dict ℕ V)
      → probe fuel start taken ≡ overflow
      → (j : ℕ) → start ≤ j
      → j ≤ int32_max
      → busy taken j ≡ true
  unfolding probe
  probe-overflow zero start taken h j from to = cc
  probe-overflow (suc fuel) start taken h j from to = elim (Bool-cases (busy taken start)) [
    | inl used ↦ elim (Bool-cases (start == int32_max)) [
      | inl top ↦ rw (only top) used
      | inr below ↦ elim (start_or_later j) [
        | inl e ↦ rw e used
        | inr later ↦ probe-overflow fuel (start + 1) taken (rw (used, below) at h) j later to
      ]
    ]
    | inr unused ↦ cc (rw unused at h)
  ]
    where
      only : (start == int32_max) ≡ true → j ≡ start
      only top = ground arith

      start_or_later : (k : ℕ) → (j ≡ start) ⊎ (start + 1 ≤ j)
      start_or_later k = omega arith

  -- So it is not, while the start and the number of entries leave room.
  pub probe-finds :
      (start : ℕ) (taken : Dict ℕ V)
      → start + length taken + 1 ≤ int32_max
      → (id : ℕ) × (probe (length taken + 2) start taken ≡ free id)
  probe-finds start taken room = cases (probe (length taken + 2) start taken) refl
    where
      cases :
          (r : Probe)
          → probe (length taken + 2) start taken ≡ r
          → (id : ℕ) × (probe (length taken + 2) start taken ≡ free id)
      cases (free id) e = (id, e)
      cases out_of_fuel e = absurd (probe-ne-out_of_fuel start taken e)
      cases overflow e = absurd (
          omega (
            arith,
            run-le-length (length taken + 1) (start + 1) taken λ i lt.
                used (start + 1 + i) (omega arith) (
                  probe-overflow (length taken + 2) start taken e (start + 1 + i) (omega arith)
                    (omega arith)),
          ))
        where
          used : (j : ℕ) → 0 < j → busy taken j ≡ true → has j taken ≡ true
          used j p b = ground arith
