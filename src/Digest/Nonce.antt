-- ===== src/Digest/Nonce.antt =====
-- A nonce of the server's own is recognised, with the time at which it was made.
use aimpremote_control.Prelude.{
  ℕ, zero, suc, ◌+◌, ◌*◌, ◌/◌, ◌%◌, ◌^◌, ◌≤◌, ◌<◌, ◌≡◌, refl, ap, ◌∙◌, arith, false, some, [], ◌∷◌,
  nat_eq, contains, leb, if◌then◌else◌, beq_refl, is_empty,
}
use aimpremote_control.Prelude.Text.{Bytes, bytes_eq, digits, decimal}
use aimpremote_control.Prelude.Int.{pos}
use aimpremote_control.Prelude.Split.{split_first-append}
use aimpremote_control.Digest.{
  AuthSettings, digits_value, unsigned_value, signed_value, skip_space, stoll, valid, expired,
  age_state, nonce_tag, make_nonce, check_nonce, judge_nonce, non_negative,
}

abbrev pub AreDigits : Bytes → Type 0
AreDigits [] = Unit
AreDigits (b ∷ bs) = (b'0' ≤ b) × (b ≤ b'9') × AreDigits bs

digits-AreDigits : (fuel n : ℕ) (out : Bytes) → AreDigits out → AreDigits (digits fuel n out)
unfolding digits
digits-AreDigits zero n out h = h
digits-AreDigits (suc fuel) n out h =
    ground (arith, digits-AreDigits fuel (n / 10) ((b'0' + n % 10) ∷ out))

AreDigits-contains : (c : ℕ) (bs : Bytes) → b'9' < c → AreDigits bs → contains c bs ≡ false
AreDigits-contains c [] p h = refl
AreDigits-contains c (b ∷ bs) p h = ground (arith, AreDigits-contains c bs p h.2)

value-digits :
    (fuel n : ℕ) (out : Bytes) → n < fuel → digits_value 0 (digits fuel n out) ≡ digits_value n out
unfolding digits digits_value
value-digits zero n out h = absurd (omega arith)
value-digits (suc fuel) n out h = ground (arith, value-digits fuel (n / 10) ((b'0' + n % 10) ∷ out))

digits-is_empty : (fuel n b : ℕ) (out : Bytes) → is_empty (digits fuel n (b ∷ out)) ≡ false
unfolding digits
digits-is_empty zero n b out = refl
digits-is_empty (suc fuel) n b out =
    ground (arith, digits-is_empty fuel (n / 10) (b'0' + n % 10) (b ∷ out))

decimal-is_empty : (n : ℕ) → is_empty (decimal n) ≡ false
unfolding decimal
decimal-is_empty n = ground (arith, digits-is_empty n (n / 10) (b'0' + n % 10) [])

decimal-AreDigits : (n : ℕ) → AreDigits (decimal n)
unfolding decimal
decimal-AreDigits n = digits-AreDigits (suc n) n [] tt

pub decimal_value : (n : ℕ) → digits_value 0 (decimal n) ≡ n
unfolding decimal
decimal_value n = value-digits (suc n) n [] (omega arith) ∙ unfold digits_value in refl

stoll_of_digits :
    (bs : Bytes)
    → is_empty bs ≡ false
    → AreDigits bs
    → stoll bs ≡ non_negative (some (digits_value 0 bs))
unfolding stoll skip_space signed_value unsigned_value
stoll_of_digits [] e h = cc
stoll_of_digits (c ∷ rest) e h = ground arith

-- std::stoll reads back what std::to_string wrote.
pub stoll-decimal : (n : ℕ) → n < 2 ^ 63 → stoll (decimal n) ≡ some (pos n)
stoll-decimal n h =
    stoll_of_digits (decimal n) (decimal-is_empty n) (decimal-AreDigits n)
    ∙ rw (decimal_value n) (ground arith)

-- A nonce that the server made is valid for 15 minutes, and expired after them, at any time of the
-- check and whatever the hash function is.
pub check_nonce-make_nonce :
    (md5_hex : Bytes → Bytes) (s : AuthSettings) (made now : ℕ)
    → made < 2 ^ 63
    → check_nonce md5_hex s now (make_nonce md5_hex s made)
      ≡ (if leb now (made + 15 * 60) then valid else expired)
unfolding check_nonce make_nonce judge_nonce
check_nonce-make_nonce md5_hex s made now h =
    ap (judge_nonce md5_hex s now) (
      split_first-append b':' (decimal made) (nonce_tag md5_hex s (decimal made))
        (AreDigits-contains b':' (decimal made) (omega arith) (decimal-AreDigits made)))
    ∙ rw (judge_nonce, beq_refl (nonce_tag md5_hex s (decimal made)), stoll-decimal made h)
        (unfold age_state in refl)
