-- ===== src/Digest/Compare.antt =====
-- The comparison whose time does not depend on where two texts differ.
use Prim.Native.Nat.{max, bit_or-bitwise}
use aimpremote_control.Prelude.{
  ℕ, zero, suc, ◌+◌, ◌*◌, ◌/◌, ◌%◌, ◌≤◌, bit_xor, bit_or, ◌≡◌, refl, sym, ap, ◌∙◌, ◌↔◌, arith, true,
  [], ◌∷◌, length, ◌==◌, nat_eq, nat_beq_iff, if◌then◌else◌, Bool-cases, inl, inr,
}
use aimpremote_control.Prelude.Text.{Bytes, bytes_eq}
use aimpremote_control.Hash.Bits.{last_digit, bit_xor_self, eq_of_bit_xor}
use aimpremote_control.Digest.{differences, equal_constant_time}

bit_or_step :
    (a b : ℕ) → bit_or (suc a) b ≡ bit_or (suc a / 2) (b / 2) * 2 + max (suc a % 2) (b % 2)
bit_or_step a b =
    bit_or-bitwise (suc a) b
    ∙ last_digit (λ c. c) max a b
    ∙ ap (λ t. t * 2 + max (suc a % 2) (b % 2)) (sym (bit_or-bitwise (suc a / 2) (b / 2)))

max_zero : (a b : ℕ) → max a b ≡ 0 → (a ≡ 0) × (b ≡ 0)
max_zero a b h = ground arith

bit_or_fuel : (n a b : ℕ) → a ≤ n → bit_or a b ≡ 0 → (a ≡ 0) × (b ≡ 0)
bit_or_fuel n zero b p h = (refl, sym (bit_or-bitwise 0 b) ∙ h)
bit_or_fuel zero (suc a) b p h = absurd (omega arith)
bit_or_fuel (suc n) (suc a) b p h =
    let halves = bit_or_fuel n (suc a / 2) (b / 2) (omega arith) (omega (arith, bit_or_step a b)) in
    let lasts = max_zero (suc a % 2) (b % 2) (omega (arith, bit_or_step a b)) in
    (omega (arith, halves.0, lasts.0), omega (arith, halves.1, lasts.1))

bit_or_zero : (a b : ℕ) → bit_or a b ≡ 0 → (a ≡ 0) × (b ≡ 0)
bit_or_zero a b h = bit_or_fuel a a b (omega arith) h

differences_zero :
    (d : ℕ) (xs ys : Bytes) → length xs ≡ length ys → differences d xs ys ≡ 0 → (d ≡ 0) × (xs ≡ ys)
unfolding differences
differences_zero d [] [] e h = (h, refl)
differences_zero d [] (y ∷ ys) e h = absurd (omega arith)
differences_zero d (x ∷ xs) [] e h = absurd (omega arith)
differences_zero d (x ∷ xs) (y ∷ ys) e h =
    let (both, rest) = differences_zero (bit_or d (bit_xor x y)) xs ys (omega arith) h in
    let (before, here) = bit_or_zero d (bit_xor x y) both in
    (before, rw (eq_of_bit_xor x y here, rest))

differences_same : (xs : Bytes) → differences 0 xs xs ≡ 0
unfolding differences
differences_same [] = refl
differences_same (x ∷ xs) = rw bit_xor_self (differences_same xs)

differences_one : (xs ys : Bytes) (d : ℕ) → (d ≡ 0 → ⊥) → differences d xs ys ≡ 0 → ⊥
unfolding differences
differences_one [] ys d n h = n h
differences_one (x ∷ xs) [] d n h = n h
differences_one (x ∷ xs) (y ∷ ys) d n h =
    differences_one xs ys (bit_or d (bit_xor x y)) (λ e. n (bit_or_zero d (bit_xor x y) e).0) h

-- The comparison returns true exactly for equal texts.
pub equal_constant_time_iff : (a b : Bytes) → (equal_constant_time a b ≡ true) ↔ (a ≡ b)
unfolding equal_constant_time
equal_constant_time_iff a b = (forth, back)
  where
    forth : (differences (if length a == length b then 0 else 1) a b == 0) ≡ true → a ≡ b
    forth h = elim (Bool-cases (length a == length b)) [
      | inl same ↦
          (differences_zero 0 a b ((nat_beq_iff (length a) (length b)).0 same)
            ((nat_beq_iff _ 0).0 (rw same at h))).1
      | inr differ ↦
          absurd (differences_one a b 1 (λ e. omega arith) ((nat_beq_iff _ 0).0 (rw differ at h)))
    ]

    back : a ≡ b → (differences (if length a == length b then 0 else 1) a b == 0) ≡ true
    back e = rw (← e) (ground (arith, nat_beq_iff (length a) (length a), differences_same a))
