-- ===== src/Hash/Crc32.antt =====
-- helpers/crc32.cpp: the table of 256 words, and the update that goes byte by byte.
pub mod Laws
mod Tests
use aimpremote_control.Prelude.{
  ℕ, zero, suc, ◌+◌, ◌*◌, ◌/◌, ◌%◌, ◌≤◌, ◌<◌, ◌^◌, bit_xor, bit_and, ◌≡◌, refl, sym, ap, ◌∙◌, arith,
  List, [], ◌∷◌, ◌++◌, length, get_or, get_elem?, if◌then◌else◌, ◌==◌, nat_eq, some,
}
use aimpremote_control.Prelude.Text.{Bytes, bytes}
use aimpremote_control.Hash.Bits.{bit_xor_cancel}

abbrev pub polynomial : ℕ
polynomial = 0xEDB88320

abbrev pub all_ones : ℕ
all_ones = 0xFFFFFFFF

-- One round of the loop over `k`: `c & 1` is the last binary digit, and `c >> 1` the half.
unfoldable pub shift_once : ℕ → ℕ
shift_once c = if c % 2 == 1 then bit_xor polynomial (c / 2) else c / 2

abbrev pub shift_times : ℕ → ℕ → ℕ
shift_times zero c = c
shift_times (suc k) c = shift_times k (shift_once c)

-- The entries from `i` on, with `n` left.
unfoldable pub table_from : ℕ → ℕ → List ℕ
unfolding shift_once
table_from zero i = []
table_from (suc n) i = shift_times 8 i ∷ table_from n (i + 1)

unfoldable pub k_table : List ℕ
unfolding table_from
k_table = table_from 256 0

-- A byte is `uint8_t`; the index is below 256, so that the read never goes out of the table.
unfoldable pub absorb : ℕ → ℕ → ℕ
unfolding k_table
absorb crc byte = bit_xor (get_or k_table (bit_and (bit_xor crc byte) 0xFF) 0) (crc / 2 ^ 8)

unfoldable pub absorb_all : ℕ → Bytes → ℕ
unfolding absorb
absorb_all crc [] = crc
absorb_all crc (b ∷ bs) = absorb_all (absorb crc b) bs

unfoldable pub crc32_update : ℕ → Bytes → ℕ
unfolding absorb_all
crc32_update crc input = bit_xor (absorb_all (bit_xor crc all_ones) input) all_ones

check_value : crc32_update 0 (bytes "123456789") ≡ 0xCBF43926
unfolding crc32_update
check_value = refl
