-- ===== src/Digest.antt =====
-- digestAuthenticator.h and digestAuthenticator.cpp: HTTP digest authentication with nonces that carry
-- their own time. MD5 (helpers/md5.cpp hands it to a library) and the parser of the Authorization
-- header (the HTTP library's) are parameters. The settings are read once per request here.
pub mod Compare
pub mod Nonce
pub mod Admission
pub mod Signed
mod Tests
use aimpremote_control.Prelude.{
  ℕ, zero, suc, ◌+◌, ◌-◌, ◌*◌, ◌^◌, ◌≤◌, bit_xor, bit_or, Bool, true, false, not, ◌&&◌, ◌||◌,
  Option, none, some, List, [], ◌∷◌, ◌++◌, if◌then◌else◌, ◌==◌, nat_eq, ltb, leb, is_empty, length,
}
use aimpremote_control.Prelude.Text.{Bytes, bytes, bytes_eq, bytes_beq, decimal}
use aimpremote_control.Prelude.Int.{ℤ, pos, negsuc}
use aimpremote_control.Prelude.Dict.{Dict, get}
use aimpremote_control.Prelude.Split.{split_first}

abbrev pub realm : Bytes
realm = bytes "AIMP Remote Control"

pub record AuthSettings : Type 0 where
  pub enabled : Bool
  pub username : Bytes
  pub ha1 : Bytes

unfoldable pub is_active : AuthSettings → Bool
is_active s = s.enabled && not (is_empty s.username) && not (is_empty s.ha1)

-- What `Authorize` reads of a request.
pub record Request : Type 0 where
  pub method : Bytes
  pub path : Bytes
  pub target : Bytes
  pub authorization : Option Bytes

pub record Response : Type 0 where
  pub status : ℕ
  pub www_authenticate : Bytes
  pub body : Bytes
  pub content_type : Bytes

-- The text from the first `/` on, or `/`.
unfoldable pub from_slash : Bytes → Bytes
from_slash [] = bytes "/"
from_slash (b ∷ bs) = if b == b'/' then b ∷ bs else from_slash bs

-- What follows the first `://`.
unfoldable pub after_scheme : Bytes → Option Bytes
after_scheme (a ∷ b ∷ c ∷ bs) =
    let later = after_scheme (b ∷ c ∷ bs) in
    if (a == b':') && (b == b'/') && (c == b'/') then some bs else later
after_scheme _ = none

unfoldable pub request_path_of : Bytes → Bytes
unfolding from_slash after_scheme
request_path_of uri = elim (after_scheme uri) [ none ↦ uri | some rest ↦ from_slash rest ]

-- The loop over the common length.
unfoldable pub differences : ℕ → Bytes → Bytes → ℕ
differences diff (a ∷ xs) (b ∷ ys) = differences (bit_or diff (bit_xor a b)) xs ys
differences diff _ _ = diff

unfoldable pub equal_constant_time : Bytes → Bytes → Bool
unfolding differences
equal_constant_time a b = differences (if length a == length b then 0 else 1) a b == 0

-- std::stoll: white space, a sign, the digits as far as they go. `none` is an exception: no digit, or
-- a value out of the range of 64 bits.
abbrev pub is_digit : ℕ → Bool
is_digit b = leb b'0' b && leb b b'9'

abbrev pub is_space : ℕ → Bool
is_space b = b == 32 || (leb 9 b && leb b 13)

unfoldable pub skip_space : Bytes → Bytes
skip_space [] = []
skip_space (b ∷ bs) = if is_space b then skip_space bs else b ∷ bs

unfoldable pub digits_value : ℕ → Bytes → ℕ
digits_value acc [] = acc
digits_value acc (b ∷ bs) =
    let more = digits_value (acc * 10 + (b - b'0')) bs in if is_digit b then more else acc

unfoldable pub unsigned_value : Bytes → Option ℕ
unfolding digits_value
unsigned_value [] = none
unsigned_value (b ∷ bs) = if is_digit b then some (digits_value 0 (b ∷ bs)) else none

abbrev pub non_negative : Option ℕ → Option ℤ
non_negative none = none
non_negative (some n) = if ltb n (2 ^ 63) then some (pos n) else none

abbrev pub negated : Option ℕ → Option ℤ
negated none = none
negated (some zero) = some (pos 0)
negated (some (suc n)) = if ltb n (2 ^ 63) then some (negsuc n) else none

unfoldable pub signed_value : Bytes → Option ℤ
unfolding unsigned_value
signed_value [] = none
signed_value (b ∷ bs) =
    if b == b'-'
    then negated (unsigned_value bs)
    else if b == b'+'
    then non_negative (unsigned_value bs)
    else non_negative (unsigned_value (b ∷ bs))

unfoldable pub stoll : Bytes → Option ℤ
unfolding skip_space signed_value
stoll bs = signed_value (skip_space bs)

-- The 0, 1 and 2 of `CheckNonce`; `overflows` is a difference of times past the range of 64 bits,
-- which C++ leaves undefined.
pub data NonceState : Type 0 where
  invalid valid expired overflows : NonceState

-- NonceLifetime in seconds
abbrev pub nonce_lifetime : ℕ
nonce_lifetime = 15 * 60

unfoldable pub age_state : ℕ → ℤ → NonceState
age_state now (pos issued) = if leb now (issued + nonce_lifetime) then valid else expired
age_state now (negsuc n) =
    if ltb (now + n + 1) (2 ^ 63)
    then (if leb (now + n + 1) nonce_lifetime then valid else expired)
    else overflows

-- What `Authorize` returns, with the response where it refuses.
pub data Verdict : Type 0 where
  allowed : Verdict
  refused : Response → Verdict
  undefined : Verdict

abbrev pub text_of : Option Bytes → Bytes
text_of none = []
text_of (some v) = v

-- The lambda `field`: a field that is missing is empty.
unfoldable pub field : Bytes → Dict Bytes Bytes → Bytes
unfolding get
field k fields = text_of (get k fields)

module _ (md5_hex : Bytes → Bytes) where
  unfoldable pub compute_ha1 : Bytes → Bytes → Bytes
  compute_ha1 username password = md5_hex (username ++ bytes ":" ++ realm ++ bytes ":" ++ password)

  unfoldable pub nonce_secret : AuthSettings → Bytes
  nonce_secret s = md5_hex (bytes "nonce:" ++ s.ha1)

  -- The part of a nonce after the colon.
  unfoldable pub nonce_tag : AuthSettings → Bytes → Bytes
  unfolding nonce_secret
  nonce_tag s ts = md5_hex (ts ++ bytes ":" ++ nonce_secret s)

  unfoldable pub make_nonce : AuthSettings → ℕ → Bytes
  make_nonce s now = let ts = decimal now in ts ++ (bytes ":" ++ nonce_tag s ts)

  -- `CheckNonce` once the colon is looked for.
  unfoldable pub judge_nonce : AuthSettings → ℕ → Option (Bytes × Bytes) → NonceState
  judge_nonce s now none = invalid
  judge_nonce s now (some (ts, tag)) =
      if tag == nonce_tag s ts
      then elim (stoll ts) [ none ↦ invalid | some issued ↦ age_state now issued ]
      else invalid

  unfoldable pub check_nonce : AuthSettings → ℕ → Bytes → NonceState
  check_nonce s now nonce = judge_nonce s now (split_first b':' nonce)

  unfoldable pub challenge : AuthSettings → ℕ → Bool → Response
  unfolding make_nonce
  challenge s now stale =
      let header =
        bytes "Digest realm=\""
        ++ realm
        ++ bytes "\", qop=\"auth\", algorithm=MD5, nonce=\""
        ++ make_nonce s now
        ++ bytes "\"" in
      record {
        status = 401;
        www_authenticate = if stale then header ++ bytes ", stale=true" else header;
        body = bytes "Unauthorized";
        content_type = bytes "text/plain";
      }

  -- The response that the client must have computed; `none` for a `qop` that is not known.
  unfoldable pub expected_response : AuthSettings → Bytes → Dict Bytes Bytes → Option Bytes
  unfolding field bytes_beq
  expected_response s method fields =
      let ha2 = md5_hex (method ++ bytes ":" ++ field (bytes "uri") fields) in
      if is_empty (field (bytes "qop") fields)
      then some (md5_hex (s.ha1 ++ bytes ":" ++ field (bytes "nonce") fields ++ bytes ":" ++ ha2))
      else if field (bytes "qop") fields == bytes "auth"
      then some (
          md5_hex (
            s.ha1
            ++ bytes ":"
            ++ field (bytes "nonce") fields
            ++ bytes ":"
            ++ field (bytes "nc") fields
            ++ bytes ":"
            ++ field (bytes "cnonce") fields
            ++ bytes ":auth:"
            ++ ha2))
      else none

  -- The end of `Authorize`, once the response is compared.
  abbrev pub admit : AuthSettings → ℕ → NonceState → Verdict
  admit s now invalid = refused (challenge s now false)
  admit s now valid = allowed
  admit s now expired = refused (challenge s now true)
  admit s now overflows = undefined

  -- From the check of the digest on, for a nonce that is not refused.
  unfoldable pub check_response : AuthSettings → ℕ → NonceState → Bytes → Option Bytes → Verdict
  check_response s now state response none = refused (challenge s now false)
  check_response s now state response (some expected) =
      if equal_constant_time expected response
      then admit s now state
      else refused (challenge s now false)

  -- From the check of the nonce on.
  unfoldable pub check_state : AuthSettings → ℕ → Request → Dict Bytes Bytes → NonceState → Verdict
  check_state s now req fields invalid = refused (challenge s now false)
  check_state s now req fields overflows = undefined
  check_state s now req fields state =
      check_response s now state (field (bytes "response") fields)
        (expected_response s req.method fields)

  unfoldable pub check_fields : AuthSettings → ℕ → Request → Dict Bytes Bytes → Verdict
  check_fields s now req fields =
      let refusal = refused (challenge s now false) in
      let signed_uri = request_path_of (field (bytes "uri") fields) in
      if not (field (bytes "username") fields == s.username)
        || not (field (bytes "realm") fields == realm)
      then refusal
      else if not (signed_uri == req.path) && not (signed_uri == req.target)
      then refusal
      else check_state s now req fields (check_nonce s now (field (bytes "nonce") fields))

  module _ (parse_digest_header : Bytes → Dict Bytes Bytes) where
    unfoldable pub authorize : AuthSettings → ℕ → Request → Verdict
    unfolding check_fields
    authorize s now req =
        if is_active s
        then elim req.authorization [
          | none ↦ refused (challenge s now false)
          | some header ↦ check_fields s now req (parse_digest_header header)
        ]
        else allowed
