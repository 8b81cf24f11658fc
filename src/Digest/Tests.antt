-- ===== src/Digest/Tests.antt =====
-- Authentication at concrete requests, with a checksum in the place of MD5.
use aimpremote_control.Prelude.{
  ◌≡◌, ◌+◌, ◌*◌, ◌↔◌, refl, arith, true, some, [], ◌∷◌, ◌++◌, leb, if◌then◌else◌, nat_eq,
}
use aimpremote_control.Prelude.Text.{Bytes, bytes, bytes_beq, decimal}
use aimpremote_control.Prelude.Int.{negsuc}
use aimpremote_control.Prelude.Dict.{Dict}
use aimpremote_control.Hash.Crc32.{crc32_update}
use aimpremote_control.Digest.{
  AuthSettings, Request, realm, allowed, refused, valid, expired, make_nonce, check_nonce,
  challenge, authorize, equal_constant_time, request_path_of, stoll, field, expected_response,
  is_active, nonce_tag, nonce_secret,
}
use aimpremote_control.Digest.Compare.{equal_constant_time_iff}
use aimpremote_control.Digest.Nonce.{check_nonce-make_nonce}
use aimpremote_control.Digest.Admission.{authorize-answer}
use aimpremote_control.Digest.Signed.{IsLetIn, authorize_iff}

unfoldable checksum : Bytes → Bytes
checksum s = decimal (crc32_update 0 s)

abbrev admin : AuthSettings
admin = record { enabled = true; username = bytes "admin"; ha1 = bytes "5f4dcc3b" }

abbrev signed_answer : Bytes → Dict Bytes Bytes
signed_answer response =
    (bytes "username", bytes "admin")
    ∷ (bytes "realm", realm)
    ∷ (bytes "uri", bytes "http://pc:3333/RPC_JSON")
    ∷ (bytes "nonce", make_nonce checksum admin 1000)
    ∷ (bytes "qop", bytes "auth")
    ∷ (bytes "nc", bytes "00000001")
    ∷ (bytes "cnonce", bytes "xyz")
    ∷ (bytes "response", response)
    ∷ []

abbrev response : Bytes
response = checksum (
    bytes "5f4dcc3b:"
    ++ make_nonce checksum admin 1000
    ++ bytes ":00000001:xyz:auth:"
    ++ checksum (bytes "POST:http://pc:3333/RPC_JSON"))

abbrev parse : Bytes → Dict Bytes Bytes
parse header = signed_answer header

abbrev post : Request
post = record {
  method = bytes "POST";
  path = bytes "/RPC_JSON";
  target = bytes "/RPC_JSON";
  authorization = some response;
}

equal_constant_time_iff_example :
    (equal_constant_time (bytes "ab") (bytes "ac") ≡ true) ↔ (bytes "ab" ≡ bytes "ac")
equal_constant_time_iff_example = equal_constant_time_iff (bytes "ab") (bytes "ac")

check_nonce-make_nonce_example :
    check_nonce checksum admin 1901 (make_nonce checksum admin 1000)
    ≡ (if leb 1901 (1000 + 15 * 60) then valid else expired)
check_nonce-make_nonce_example = check_nonce-make_nonce checksum admin 1000 1901 (omega arith)

authorize_iff_example :
    (authorize checksum parse admin 1500 post ≡ allowed) ↔ IsLetIn checksum parse admin 1500 post
authorize_iff_example = authorize_iff checksum parse admin 1500 post

authorize-answer_example :
    authorize checksum parse admin 1500 post
    ≡ (if leb 1500 (1000 + 15 * 60) then allowed else refused (challenge checksum admin 1500 true))
unfolding field bytes_beq request_path_of is_active checksum make_nonce expected_response nonce_tag
    nonce_secret decimal crc32_update
authorize-answer_example =
    authorize-answer checksum parse admin 1000 1500 post response refl (omega arith) refl refl refl
      refl refl refl

-- The number that a text begins with, and what follows the host of an absolute address.
reads_prefix : stoll (bytes " -12x") ≡ some (negsuc 11)
unfolding stoll
reads_prefix = refl

cuts_host : request_path_of (bytes "http://pc:3333/RPC_JSON") ≡ bytes "/RPC_JSON"
unfolding request_path_of
cuts_host = refl
