-- ===== src/Hash/Crc32/Laws.antt =====
-- What the table stands for, and the update over a message in parts.
use aimpremote_control.Prelude.{
  ℕ, zero, suc, ◌+◌, ◌*◌, ◌/◌, ◌%◌, ◌<◌, ◌^◌, bit_xor, ◌≡◌, refl, sym, ap, ◌∙◌, arith, [], ◌∷◌,
  ◌++◌, get_or, nat_eq, inl, inr, ◌⊎◌,
}
use aimpremote_control.Prelude.Text.{Bytes, AreBytes}
use native.Mathlib.Nat.{pow-suc}
use aimpremote_control.Hash.Bits.{
  bit_xor_cancel, bit_xor_comm, bit_xor_assoc, bit_xor_self, bit_xor-zero, zero-bit_xor,
  half-bit_xor, digit-bit_xor, bit_xor-lt, bit_and_low_byte, bit_xor_fields, shift_byte-bit_xor,
}
use aimpremote_control.Hash.Crc32.{
  polynomial, all_ones, shift_once, shift_times, table_from, k_table, absorb, absorb_all,
  crc32_update,
}

-- The reference: CRC-32 by polynomial division, one binary digit at a time, with no table.
abbrev pub divide_byte : ℕ → ℕ → ℕ
divide_byte crc byte = shift_times 8 (bit_xor crc byte)

abbrev pub divide : ℕ → Bytes → ℕ
divide crc [] = crc
divide crc (b ∷ bs) = divide (divide_byte crc b) bs

abbrev pub crc32_reference : ℕ → Bytes → ℕ
crc32_reference crc input = bit_xor (divide (bit_xor crc all_ones) input) all_ones

-- a ^ b ^ (c ^ d) in another order.
bit_xor_middle :
    (a b c d : ℕ) → bit_xor (bit_xor a b) (bit_xor c d) ≡ bit_xor (bit_xor a c) (bit_xor b d)
bit_xor_middle a b c d =
    bit_xor_assoc a b (bit_xor c d)
    ∙ ap (bit_xor a)
        (sym (bit_xor_assoc b c d) ∙ ap (λ t. bit_xor t d) (bit_xor_comm b c) ∙ bit_xor_assoc c b d)
    ∙ sym (bit_xor_assoc a c (bit_xor b d))

bit_xor_swap : (a b c : ℕ) → bit_xor a (bit_xor b c) ≡ bit_xor b (bit_xor a c)
bit_xor_swap a b c =
    sym (bit_xor_assoc a b c) ∙ ap (λ t. bit_xor t c) (bit_xor_comm a b) ∙ bit_xor_assoc b a c

last_digit : (a : ℕ) → (a % 2 ≡ 0) ⊎ (a % 2 ≡ 1)
last_digit a = omega arith

shift_once_even : (a : ℕ) → a % 2 ≡ 0 → shift_once a ≡ a / 2
unfolding shift_once
shift_once_even a h = rw h

shift_once_odd : (a : ℕ) → a % 2 ≡ 1 → shift_once a ≡ bit_xor polynomial (a / 2)
unfolding shift_once
shift_once_odd a h = rw h

-- A round is linear over exclusive or.
shift_once-bit_xor : (a b : ℕ) → shift_once (bit_xor a b) ≡ bit_xor (shift_once a) (shift_once b)
shift_once-bit_xor a b = elim (last_digit a) [
  | inl p ↦ elim (last_digit b) [
    | inl q ↦
        shift_once_even (bit_xor a b) (omega (arith, digit-bit_xor a b))
        ∙ rw (shift_once_even a p, shift_once_even b q) (half-bit_xor a b)
    | inr q ↦
        shift_once_odd (bit_xor a b) (omega (arith, digit-bit_xor a b))
        ∙ rw (shift_once_even a p, shift_once_odd b q, half-bit_xor a b)
            (bit_xor_swap polynomial (a / 2) (b / 2))
  ]
  | inr p ↦ elim (last_digit b) [
    | inl q ↦
        shift_once_odd (bit_xor a b) (omega (arith, digit-bit_xor a b))
        ∙ rw (shift_once_odd a p, shift_once_even b q, half-bit_xor a b)
            (sym (bit_xor_assoc polynomial (a / 2) (b / 2)))
    | inr q ↦
        shift_once_even (bit_xor a b) (omega (arith, digit-bit_xor a b))
        ∙ rw (shift_once_odd a p, shift_once_odd b q, half-bit_xor a b)
            (sym (
              bit_xor_middle polynomial (a / 2) polynomial (b / 2)
              ∙ rw bit_xor_self (zero-bit_xor _)))
  ]
]

shift_times-bit_xor :
    (k a b : ℕ) → shift_times k (bit_xor a b) ≡ bit_xor (shift_times k a) (shift_times k b)
shift_times-bit_xor zero a b = refl
shift_times-bit_xor (suc k) a b =
    ap (shift_times k) (shift_once-bit_xor a b)
    ∙ shift_times-bit_xor k (shift_once a) (shift_once b)

-- Rounds over zeros shift them out.
shift_times_zeros : (k n : ℕ) → shift_times k (n * 2 ^ k) ≡ n
shift_times_zeros zero n = omega arith
shift_times_zeros (suc k) n =
    ap (shift_times k) (rw (double k) (shift_once_even (n * 2 ^ k * 2) (omega arith) ∙ omega arith))
    ∙ shift_times_zeros k n
  where
    double : (k : ℕ) → n * 2 ^ suc k ≡ n * 2 ^ k * 2
    double k = omega (arith, ap (λ (t : ℕ). n * t) (pow-suc 2 k))

get_or-table_from : (n i j : ℕ) → j < n → get_or (table_from n i) j 0 ≡ shift_times 8 (i + j)
unfolding table_from
get_or-table_from zero i j h = absurd (omega arith)
get_or-table_from (suc n) i zero h = ap (shift_times 8) (omega arith)
get_or-table_from (suc n) i (suc j) h =
    get_or-table_from n (i + 1) j (omega arith) ∙ ap (shift_times 8) (omega arith)

rest_of_word : (crc b : ℕ) → b < 256 → bit_xor crc b / 256 ≡ crc / 256
rest_of_word crc b h =
    shift_byte-bit_xor crc b ∙ ap (bit_xor (crc / 256)) (none_left b h) ∙ bit_xor-zero (crc / 256)
  where
    none_left : (d : ℕ) → d < 256 → d / 256 ≡ 0
    none_left d k = omega arith

-- The rounds over a word divide its low byte, and shift the other bytes down.
shift_times-word : (w : ℕ) → shift_times 8 w ≡ bit_xor (shift_times 8 (w % 256)) (w / 256)
shift_times-word w =
    ap (shift_times 8) (sym (bit_xor_fields (w % 256) (w / 256) (omega arith) ∙ omega arith))
    ∙ shift_times-bit_xor 8 (w % 256) (w / 256 * 256)
    ∙ ap (bit_xor (shift_times 8 (w % 256))) (shift_times_zeros 8 (w / 256))

-- The table holds what the division of each index leaves.
table_entry : (i : ℕ) → i < 256 → get_or k_table i 0 ≡ shift_times 8 i
unfolding k_table
table_entry i h = get_or-table_from 256 0 i h ∙ ap (shift_times 8) (omega arith)

absorb-divide_byte : (crc b : ℕ) → b < 256 → absorb crc b ≡ divide_byte crc b
unfolding absorb
absorb-divide_byte crc b small =
    rw
      (
        bit_and_low_byte (bit_xor crc b),
        table_entry (bit_xor crc b % 256) (omega arith),
        ← rest_of_word crc b small,
      )
      (sym (shift_times-word (bit_xor crc b)))

absorb_all-divide : (crc : ℕ) (bs : Bytes) → AreBytes bs → absorb_all crc bs ≡ divide crc bs
unfolding absorb_all
absorb_all-divide crc [] h = refl
absorb_all-divide crc (b ∷ bs) h =
    ap (λ c. absorb_all c bs) (absorb-divide_byte crc b h.0)
    ∙ absorb_all-divide (divide_byte crc b) bs h.1

-- On a text of bytes, the table-driven update computes what the division by the polynomial, bit by bit,
-- computes.
pub crc32_update-eq-reference :
    (crc : ℕ) (input : Bytes) → AreBytes input → crc32_update crc input ≡ crc32_reference crc input
unfolding crc32_update
crc32_update-eq-reference crc input h =
    ap (λ c. bit_xor c all_ones) (absorb_all-divide (bit_xor crc all_ones) input h)

absorb_all-append :
    (c : ℕ) (xs ys : Bytes) → absorb_all c (xs ++ ys) ≡ absorb_all (absorb_all c xs) ys
unfolding absorb_all
absorb_all-append c [] ys = refl
absorb_all-append c (x ∷ xs) ys = absorb_all-append (absorb c x) xs ys

-- An update that continues from an earlier result is the update over both parts in one.
pub crc32_update-append :
    (crc : ℕ) (xs ys : Bytes) → crc32_update crc (xs ++ ys) ≡ crc32_update (crc32_update crc xs) ys
unfolding crc32_update
crc32_update-append crc xs ys = rw (bit_xor_cancel, absorb_all-append)

shift_once-lt : (c : ℕ) → c < 2 ^ 32 → shift_once c < 2 ^ 32
unfolding shift_once
shift_once-lt c h = ground (arith, bit_xor-lt 32 polynomial (c / 2) (omega arith) (omega arith))

shift_times-lt : (k c : ℕ) → c < 2 ^ 32 → shift_times k c < 2 ^ 32
shift_times-lt zero c h = h
shift_times-lt (suc k) c h = shift_times-lt k (shift_once c) (shift_once-lt c h)

divide-lt : (crc : ℕ) (bs : Bytes) → AreBytes bs → crc < 2 ^ 32 → divide crc bs < 2 ^ 32
divide-lt crc [] h w = w
divide-lt crc (b ∷ bs) h w =
    divide-lt (divide_byte crc b) bs h.1
      (shift_times-lt 8 (bit_xor crc b) (bit_xor-lt 32 crc b w (small b h.0)))
  where
    small : (d : ℕ) → d < 256 → d < 2 ^ 32
    small d k = omega arith

-- From a 32-bit word and a text of bytes, the update makes a 32-bit word.
pub crc32_update-lt :
    (crc : ℕ) (input : Bytes) → AreBytes input → crc < 2 ^ 32 → crc32_update crc input < 2 ^ 32
crc32_update-lt crc input h w = rw (crc32_update-eq-reference crc input h) (
    bit_xor-lt 32 (divide (bit_xor crc all_ones) input) all_ones
      (divide-lt _ input h (bit_xor-lt 32 crc all_ones w (omega arith))) (omega arith))
