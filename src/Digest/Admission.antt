-- ===== src/Digest/Admission.antt =====
-- Which requests are let in.
use aimpremote_control.Prelude.{
  ℕ, ◌+◌, ◌*◌, ◌^◌, ◌<◌, ◌≡◌, ◌≢◌, refl, ap, ◌∙◌, ◌↔◌, ◌⊎◌, inl, inr, arith, Bool, true, false,
  Option, some, none, leb, if◌then◌else◌, Option-cases, Bool-cases,
}
use aimpremote_control.Prelude.Text.{Bytes, bytes, bytes_eq, bytes_beq_iff}
use aimpremote_control.Prelude.Dict.{Dict}
use aimpremote_control.Digest.{
  AuthSettings, is_active, Request, realm, request_path_of, NonceState, invalid, valid, expired,
  overflows, allowed, refused, make_nonce, check_nonce, challenge, expected_response, field, admit,
  check_fields, check_state, check_response, authorize, check_nonce,
}
use aimpremote_control.Digest.Compare.{equal_constant_time_iff}
use aimpremote_control.Digest.Nonce.{check_nonce-make_nonce}

-- The fields of a header that answer the server's challenge, with a nonce in the given state.
pub record IsAnswer (md5_hex : Bytes → Bytes) (s : AuthSettings) (now : ℕ) (req : Request)
    (fields : Dict Bytes Bytes) (state : NonceState) : Type 0 where
  pub user : field (bytes "username") fields ≡ s.username
  pub in_realm : field (bytes "realm") fields ≡ realm
  pub signs :
      (request_path_of (field (bytes "uri") fields) ≡ req.path)
      ⊎ (request_path_of (field (bytes "uri") fields) ≡ req.target)
  pub nonce : check_nonce md5_hex s now (field (bytes "nonce") fields) ≡ state
  pub digest :
      expected_response md5_hex s req.method fields ≡ some (field (bytes "response") fields)

module _ (md5_hex : Bytes → Bytes) (s : AuthSettings) (now : ℕ) (req : Request)
    (fields : Dict Bytes Bytes) where
  gate :
      (field (bytes "username") fields ≡ s.username)
      → (field (bytes "realm") fields ≡ realm)
      → (request_path_of (field (bytes "uri") fields) ≡ req.path)
        ⊎ (request_path_of (field (bytes "uri") fields) ≡ req.target)
      → check_fields md5_hex s now req fields
        ≡ check_state md5_hex s now req fields
            (check_nonce md5_hex s now (field (bytes "nonce") fields))
  unfolding check_fields
  gate user in_realm signs = ground (
    arith,
    bytes_beq_iff (field (bytes "username") fields) s.username,
    bytes_beq_iff (field (bytes "realm") fields) realm,
    bytes_beq_iff (request_path_of (field (bytes "uri") fields)) req.path,
    bytes_beq_iff (request_path_of (field (bytes "uri") fields)) req.target,
  )

  accepted :
      (state : NonceState) (response : Bytes)
      → check_response md5_hex s now state response (some response) ≡ admit md5_hex s now state
  unfolding check_response
  accepted state response = rw ((equal_constant_time_iff response response).1 refl)

  answered :
      (state : NonceState)
      → state ≢ invalid
      → state ≢ overflows
      → expected_response md5_hex s req.method fields ≡ some (field (bytes "response") fields)
      → check_state md5_hex s now req fields state ≡ admit md5_hex s now state
  unfolding check_state
  answered invalid known small e = absurd (known refl)
  answered overflows known small e = absurd (small refl)
  answered valid known small e =
      ap (check_response md5_hex s now valid (field (bytes "response") fields)) e ∙ accepted valid _
  answered expired known small e =
      ap (check_response md5_hex s now expired (field (bytes "response") fields)) e
      ∙ accepted expired _

  check_fields-answer :
      (state : NonceState)
      → state ≢ invalid
      → state ≢ overflows
      → IsAnswer md5_hex s now req fields state
      → check_fields md5_hex s now req fields ≡ admit md5_hex s now state
  check_fields-answer state known small a =
      gate a.user a.in_realm a.signs
      ∙ ap (check_state md5_hex s now req fields) a.nonce
      ∙ answered state known small a.digest

  passed_gate :
      check_fields md5_hex s now req fields ≡ allowed
      → (field (bytes "username") fields ≡ s.username)
        × (field (bytes "realm") fields ≡ realm)
        × ((request_path_of (field (bytes "uri") fields) ≡ req.path)
            ⊎ (request_path_of (field (bytes "uri") fields) ≡ req.target))
        × (check_state md5_hex s now req fields
              (check_nonce md5_hex s now (field (bytes "nonce") fields))
            ≡ allowed)
  unfolding check_fields
  passed_gate h = ground (
    arith,
    bytes_beq_iff (field (bytes "username") fields) s.username,
    bytes_beq_iff (field (bytes "realm") fields) realm,
    bytes_beq_iff (request_path_of (field (bytes "uri") fields)) req.path,
    bytes_beq_iff (request_path_of (field (bytes "uri") fields)) req.target,
  )

  passed_response :
      (state : NonceState) (response : Bytes) (o : Option Bytes)
      → check_response md5_hex s now state response o ≡ allowed
      → (o ≡ some response) × (admit md5_hex s now state ≡ allowed)
  unfolding check_response
  passed_response state response none h = cc
  passed_response state response (some expected) h =
      ground (arith, equal_constant_time_iff expected response)

  passed_state :
      (state : NonceState)
      → check_state md5_hex s now req fields state ≡ allowed
      → (state ≡ valid)
        × (expected_response md5_hex s req.method fields ≡ some (field (bytes "response") fields))
  unfolding check_state
  passed_state invalid h = cc
  passed_state overflows h = cc
  passed_state valid h = (refl, (passed_response valid _ _ h).0)
  passed_state expired h = absurd (refusal (passed_response expired _ _ h).1)
    where
      refusal : refused (challenge md5_hex s now true) ≡ allowed → ⊥
      refusal e = cc

  check_fields-allowed :
      check_fields md5_hex s now req fields ≡ allowed → IsAnswer md5_hex s now req fields valid
  check_fields-allowed h =
      let (user, in_realm, signs, rest) = passed_gate h in
      let (fresh, digest) = passed_state _ rest in
      record { user = user; in_realm = in_realm; signs = signs; nonce = fresh; digest = digest }

module _ (md5_hex : Bytes → Bytes) (parse : Bytes → Dict Bytes Bytes) (s : AuthSettings) (now : ℕ)
    (req : Request) where
  -- Why a request may be let in: authentication is off, or its header answers the challenge with a
  -- nonce that is valid.
  abbrev pub MayEnter : Type 0
  MayEnter =
      (is_active s ≡ false)
      ⊎ ((header : Bytes) × (req.authorization ≡ some header)
          × IsAnswer md5_hex s now req (parse header) valid)

-- A request is let in exactly if authentication is off, or its Authorization header passes the tests of
-- `IsAnswer`.
pub authorize-MayEnter :
    (md5_hex : Bytes → Bytes) (parse : Bytes → Dict Bytes Bytes) (s : AuthSettings) (now : ℕ)
    (req : Request)
    → (authorize md5_hex parse s now req ≡ allowed) ↔ MayEnter md5_hex parse s now req
unfolding authorize
authorize-MayEnter md5_hex parse s now req = (forth, back)
  where
    forth : authorize md5_hex parse s now req ≡ allowed → MayEnter md5_hex parse s now req
    forth h = elim (Bool-cases (is_active s)) [
      | inr off ↦ inl off
      | inl on ↦ elim (Option-cases req.authorization) [
        | inl missing ↦ cc (rw (on, missing, authorize) at h)
        | inr (header, there) ↦ inr (
          header,
          there,
          check_fields-allowed md5_hex s now req (parse header) (rw (on, there, authorize) at h),
        )
      ]
    ]

    back : MayEnter md5_hex parse s now req → authorize md5_hex parse s now req ≡ allowed
    back (inl off) = rw (off, authorize)
    back (inr (header, there, a)) = elim (Bool-cases (is_active s)) [
      | inr off ↦ rw (off, authorize)
      | inl on ↦
          rw (on, there, authorize)
            (check_fields-answer md5_hex s now req (parse header) valid (λ e. cc) (λ e. cc) a)
    ]

-- A client that answers a challenge of the server, made before 2 ^ 63 seconds, is let in for 15 minutes
-- from the challenge; after them it is refused with a new nonce that is marked stale.
pub authorize-answer :
    (md5_hex : Bytes → Bytes) (parse : Bytes → Dict Bytes Bytes) (s : AuthSettings) (made now : ℕ)
    (req : Request) (header : Bytes)
    → is_active s ≡ true
    → made < 2 ^ 63
    → req.authorization ≡ some header
    → field (bytes "username") (parse header) ≡ s.username
    → field (bytes "realm") (parse header) ≡ realm
    → request_path_of (field (bytes "uri") (parse header)) ≡ req.path
    → field (bytes "nonce") (parse header) ≡ make_nonce md5_hex s made
    → expected_response md5_hex s req.method (parse header)
      ≡ some (field (bytes "response") (parse header))
    → authorize md5_hex parse s now req
      ≡ (if leb now (made + 15 * 60) then allowed else refused (challenge md5_hex s now true))
unfolding authorize
authorize-answer md5_hex parse s made now req header on small there user in_realm path nonce
      digest =
    rw (on, there, authorize)
      (by_time (leb now (made + 15 * 60))
        (ap (check_nonce md5_hex s now) nonce ∙ check_nonce-make_nonce md5_hex s made now small))
  where
    by_time :
        (b : Bool)
        → check_nonce md5_hex s now (field (bytes "nonce") (parse header))
          ≡ (if b then valid else expired)
        → check_fields md5_hex s now req (parse header)
          ≡ (if b then allowed else refused (challenge md5_hex s now true))
    by_time true e =
        check_fields-answer md5_hex s now req (parse header) valid (λ h. cc) (λ h. cc)
          (record {
            user = user;
            in_realm = in_realm;
            signs = inl path;
            nonce = e;
            digest = digest;
          })
    by_time false e =
        check_fields-answer md5_hex s now req (parse header) expired (λ h. cc) (λ h. cc)
          (record {
            user = user;
            in_realm = in_realm;
            signs = inl path;
            nonce = e;
            digest = digest;
          })
