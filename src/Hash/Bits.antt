-- ===== src/Hash/Bits.antt =====
-- Laws of exclusive or at every width, from its recursion on binary digits.
use Prim.Native.Nat.{differ, min, digits, bitwise, bit_xor-bitwise, bit_and-bitwise}
use native.Mathlib.Nat.{le_refl, pow-suc}
use aimpremote_control.Prelude.{
  ℕ, zero, suc, ◌+◌, ◌*◌, ◌/◌, ◌%◌, ◌≤◌, ◌<◌, ◌^◌, bit_xor, bit_and, ◌≡◌, refl, sym, ◌∙◌, ap, arith,
}

-- The exclusive or of two binary digits.
abbrev pub flip : ℕ → ℕ → ℕ
flip a b = (a + b) % 2

-- More fuel than there are digits changes nothing.
spare_fuel :
    (rest : ℕ → ℕ) (op : ℕ → ℕ → ℕ) (x y least most : ℕ)
    → x ≤ least
    → least ≤ most
    → digits rest op most x y ≡ digits rest op least x y
spare_fuel rest op zero y zero zero _ _ = refl
spare_fuel rest op zero y zero (suc most) _ _ = refl
spare_fuel rest op zero y (suc least) zero _ few = absurd (omega arith)
spare_fuel rest op zero y (suc least) (suc most) _ _ = refl
spare_fuel rest op (suc x) y zero most low _ = absurd (omega arith)
spare_fuel rest op (suc x) y (suc least) zero _ few = absurd (omega arith)
spare_fuel rest op (suc x) y (suc least) (suc most) low few =
    ap (λ t. t * 2 + op (suc x % 2) (y % 2))
      (spare_fuel rest op (suc x / 2) (y / 2) least most (omega arith) (omega arith))

-- The operation on a positive number, by its last digit.
pub last_digit :
    (rest : ℕ → ℕ) (op : ℕ → ℕ → ℕ) (x y : ℕ)
    → bitwise rest op (suc x) y ≡ bitwise rest op (suc x / 2) (y / 2) * 2 + op (suc x % 2) (y % 2)
last_digit rest op x y =
    ap (λ t. t * 2 + op (suc x % 2) (y % 2))
      (spare_fuel rest op (suc x / 2) (y / 2) (suc x / 2) x (omega arith) (omega arith))

pub zero-bit_xor : (b : ℕ) → bit_xor 0 b ≡ b
zero-bit_xor b = bit_xor-bitwise 0 b

differ-flip : (a b : ℕ) → a < 2 → b < 2 → differ a b ≡ flip a b
differ-flip zero b p q = omega arith
differ-flip (suc zero) zero p q = refl
differ-flip (suc zero) (suc zero) p q = refl
differ-flip (suc zero) (suc (suc b)) p q = absurd (omega arith)
differ-flip (suc (suc a)) b p q = absurd (omega arith)

-- The law for the lowest digit.
pub bit_xor_step : (a b : ℕ) → bit_xor a b ≡ bit_xor (a / 2) (b / 2) * 2 + flip (a % 2) (b % 2)
bit_xor_step zero b = omega (arith, zero-bit_xor b, zero-bit_xor (b / 2))
bit_xor_step (suc a) b = omega (
  arith,
  bit_xor-bitwise (suc a) b,
  bit_xor-bitwise (suc a / 2) (b / 2),
  last_digit (λ y. y) differ a b,
  differ-flip (suc a % 2) (b % 2) (omega arith) (omega arith),
)

pub half-bit_xor : (a b : ℕ) → bit_xor a b / 2 ≡ bit_xor (a / 2) (b / 2)
half-bit_xor a b = omega (arith, bit_xor_step a b)

pub digit-bit_xor : (a b : ℕ) → bit_xor a b % 2 ≡ flip (a % 2) (b % 2)
digit-bit_xor a b = omega (arith, bit_xor_step a b)

-- Two numbers with the same last digit and the same rest are equal.
eq_of_half : (a b : ℕ) → a / 2 ≡ b / 2 → a % 2 ≡ b % 2 → a ≡ b
eq_of_half a b h d = omega arith

zero_of : (k : ℕ) → k ≤ 0 → k ≡ 0
zero_of k h = omega arith

comm_fuel : (n a b : ℕ) → a ≤ n → b ≤ n → bit_xor a b ≡ bit_xor b a
comm_fuel zero a b p q = rw (zero_of a p, zero_of b q)
comm_fuel (suc n) a b p q = omega (
  arith,
  bit_xor_step a b,
  bit_xor_step b a,
  comm_fuel n (a / 2) (b / 2) (omega arith) (omega arith),
)

pub bit_xor_comm : (a b : ℕ) → bit_xor a b ≡ bit_xor b a
bit_xor_comm a b = comm_fuel (a + b) a b (omega arith) (omega arith)

assoc_fuel :
    (n a b c : ℕ) → a ≤ n → b ≤ n → c ≤ n → bit_xor (bit_xor a b) c ≡ bit_xor a (bit_xor b c)
assoc_fuel zero a b c p q r = rw (zero_of a p, zero_of b q, zero_of c r)
assoc_fuel (suc n) a b c p q r =
    let ih = assoc_fuel n (a / 2) (b / 2) (c / 2) (omega arith) (omega arith) (omega arith) in
    eq_of_half _ _ (simp half-bit_xor ih) (
      omega (
        arith,
        digit-bit_xor (bit_xor a b) c,
        digit-bit_xor a b,
        digit-bit_xor a (bit_xor b c),
        digit-bit_xor b c,
      ))

pub bit_xor_assoc : (a b c : ℕ) → bit_xor (bit_xor a b) c ≡ bit_xor a (bit_xor b c)
bit_xor_assoc a b c = assoc_fuel (a + b + c) a b c (omega arith) (omega arith) (omega arith)

self_fuel : (n a : ℕ) → a ≤ n → bit_xor a a ≡ 0
self_fuel zero a p =
    omega (arith, bit_xor_step a a, zero-bit_xor (a / 2), ap (λ k. bit_xor k k) (zero_of a p))
self_fuel (suc n) a p = omega (arith, bit_xor_step a a, self_fuel n (a / 2) (omega arith))

pub bit_xor_self : (a : ℕ) → bit_xor a a ≡ 0
bit_xor_self a = self_fuel a a (le_refl a)

pub bit_xor-zero : (a : ℕ) → bit_xor a 0 ≡ a
bit_xor-zero a = rw bit_xor_comm (zero-bit_xor a)

-- Applying a mask twice changes nothing.
pub bit_xor_cancel : (a b : ℕ) → bit_xor (bit_xor a b) b ≡ a
bit_xor_cancel a b = rw (bit_xor_assoc, bit_xor_self) (bit_xor-zero a)

-- A number of k digits stays one.
pub bit_xor-lt : (k a b : ℕ) → a < 2 ^ k → b < 2 ^ k → bit_xor a b < 2 ^ k
bit_xor-lt zero a b p q = rw (zero_of a (omega arith), zero_of b (omega arith)) (omega arith)
bit_xor-lt (suc k) a b p q = omega (
  arith,
  bit_xor_step a b,
  pow-suc 2 k,
  bit_xor-lt k (a / 2) (b / 2) (omega (arith, pow-suc 2 k)) (omega (arith, pow-suc 2 k)),
)

-- A difference is 0 only between equal numbers.
pub eq_of_bit_xor : (a b : ℕ) → bit_xor a b ≡ 0 → a ≡ b
eq_of_bit_xor a b h = sym (bit_xor_cancel a b) ∙ (rw h (zero-bit_xor b))

-- `&` with a mask of low digits is a remainder.
masked_digit :
    (word mask : ℕ)
    → bit_and word mask ≡ bit_and (word / 2) (mask / 2) * 2 + min (word % 2) (mask % 2)
masked_digit (suc word) mask =
    bit_and-bitwise (suc word) mask
    ∙ last_digit (λ y. 0) min word mask
    ∙ ap (λ t. t * 2 + min (suc word % 2) (mask % 2))
        (sym (bit_and-bitwise (suc word / 2) (mask / 2)))
masked_digit zero mask = omega (arith, bit_and-bitwise 0 mask, bit_and-bitwise 0 (mask / 2))

bit_and-zero_fuel : (n a : ℕ) → a ≤ n → bit_and a 0 ≡ 0
bit_and-zero_fuel zero a h = rw (zero_of a h)
bit_and-zero_fuel (suc n) a h =
    omega (arith, masked_digit a 0, bit_and-zero_fuel n (a / 2) (omega arith))

-- A mask that ends in a one keeps the last digit.
bit_and_odd : (a m : ℕ) → bit_and a (m * 2 + 1) ≡ bit_and (a / 2) m * 2 + a % 2
bit_and_odd a m =
    let halved = ap (bit_and (a / 2)) (half_odd m) in
    omega (arith, masked_digit a (m * 2 + 1), halved)
  where
    half_odd : (k : ℕ) → (k * 2 + 1) / 2 ≡ k
    half_odd k = omega arith

pub bit_and_low_byte : (a : ℕ) → bit_and a 0xFF ≡ a % 256
bit_and_low_byte a = omega (
  arith,
  bit_and_odd a 127,
  bit_and_odd (a / 2) 63,
  bit_and_odd (a / 2 / 2) 31,
  bit_and_odd (a / 2 / 2 / 2) 15,
  bit_and_odd (a / 2 / 2 / 2 / 2) 7,
  bit_and_odd (a / 2 / 2 / 2 / 2 / 2) 3,
  bit_and_odd (a / 2 / 2 / 2 / 2 / 2 / 2) 1,
  bit_and_odd (a / 2 / 2 / 2 / 2 / 2 / 2 / 2) 0,
  bit_and-zero_fuel _ (a / 2 / 2 / 2 / 2 / 2 / 2 / 2 / 2) (le_refl _),
)

-- The low byte of a number beside the other digits.
fields_suc :
    (lo hi q : ℕ)
    → bit_xor (lo / 2) (hi * q) ≡ lo / 2 + hi * q
    → bit_xor lo (hi * (q * 2)) ≡ lo + hi * (q * 2)
fields_suc lo hi q h =
    omega (arith, bit_xor_step lo (hi * (q * 2)), ap (bit_xor (lo / 2)) (half_even (hi * q)))
  where
    half_even : (k : ℕ) → (hi * (q * 2)) / 2 ≡ hi * q
    half_even k = omega arith

fields_fuel : (k lo hi q : ℕ) → lo < 2 ^ k → q ≡ 2 ^ k → bit_xor lo (hi * q) ≡ lo + hi * q
fields_fuel zero lo hi q h e = rw (zero_of lo (omega arith)) (omega (arith, zero-bit_xor (hi * q)))
fields_fuel (suc k) lo hi q h e =
    let ih =
      fields_suc lo hi (2 ^ k)
        (fields_fuel k (lo / 2) hi (2 ^ k) (omega (arith, pow-suc 2 k)) refl) in
    rw (double (2 ^ k) (omega (arith, pow-suc 2 k))) ih
  where
    double : (r : ℕ) → q ≡ 2 * r → q ≡ r * 2
    double r h' = omega arith

pub bit_xor_fields : (lo hi : ℕ) → lo < 256 → bit_xor lo (hi * 256) ≡ lo + hi * 256
bit_xor_fields lo hi h = fields_fuel 8 lo hi 256 h refl

pub shift_byte-bit_xor : (a b : ℕ) → bit_xor a b / 256 ≡ bit_xor (a / 256) (b / 256)
shift_byte-bit_xor a b = simp (eight_halves, half-bit_xor)
  where
    eight_halves : (n : ℕ) → n / 256 ≡ n / 2 / 2 / 2 / 2 / 2 / 2 / 2 / 2
    eight_halves n = omega arith
