-- ===== src/Digest/Signed.antt =====
-- Which requests are let in, by the texts that a client must send.
use aimpremote_control.Prelude.{
  ℕ, ◌+◌, ◌*◌, ◌≤◌, ◌≡◌, refl, ap, ◌∙◌, ◌↔◌, ◌⊎◌, inl, inr, arith, true, false, Option, some, none,
  [], ◌∷◌, ◌++◌, ◌==◌, contains, is_empty, nat_eq, Bool-cases, beq_refl,
}
use aimpremote_control.Prelude.Text.{Bytes, bytes, bytes_eq, bytes_beq_iff}
use aimpremote_control.Prelude.Int.{ℤ, pos, negsuc}
use aimpremote_control.Prelude.Dict.{Dict}
use aimpremote_control.Prelude.Split.{split_first, split_first-append, split_first-some}
use aimpremote_control.Digest.{
  AuthSettings, is_active, Request, request_path_of, NonceState, valid, stoll, allowed, nonce_tag,
  nonce_secret, judge_nonce, check_nonce, age_state, expected_response, field, authorize,
}
use aimpremote_control.Digest.Admission.{authorize-MayEnter}

-- At most 15 minutes from the issue of a nonce.
abbrev pub IsFresh : ℕ → ℤ → Type 0
IsFresh now (pos issued) = now ≤ issued + 15 * 60
IsFresh now (negsuc n) = now + n + 1 ≤ 15 * 60

module _ (md5_hex : Bytes → Bytes) (s : AuthSettings) (now : ℕ) where
  -- A nonce that the server made: the time of its issue, and the digest of that time with the server's
  -- secret.
  pub record IsOwnNonce (nonce : Bytes) : Type 0 where
    pub stamp : Bytes
    pub issued : ℤ
    pub one_colon : contains b':' stamp ≡ false
    pub text :
        nonce ≡ stamp ++ (b':' ∷ md5_hex (stamp ++ bytes ":" ++ md5_hex (bytes "nonce:" ++ s.ha1)))
    pub time : stoll stamp ≡ some issued
    pub fresh : IsFresh now issued

  age-IsFresh : (z : ℤ) → (age_state now z ≡ valid) ↔ IsFresh now z
  unfolding age_state
  age-IsFresh (pos n) = (λ h. ground arith, λ h. ground arith)
  age-IsFresh (negsuc n) = (λ h. ground arith, λ h. ground arith)

  judged :
      (o : Option (Bytes × Bytes))
      → judge_nonce md5_hex s now o ≡ valid
      → (stamp : Bytes) × (issued : ℤ) × (o ≡ some (stamp, nonce_tag md5_hex s stamp))
        × (stoll stamp ≡ some issued)
        × (age_state now issued ≡ valid)
  unfolding judge_nonce
  judged none h = cc
  judged (some (stamp, tag)) h = elim (Bool-cases (tag == nonce_tag md5_hex s stamp)) [
    | inr other ↦ cc (rw other at h)
    | inl same ↦
        timed ((bytes_beq_iff tag (nonce_tag md5_hex s stamp)).0 same) (stoll stamp) refl
          (rw same at h)
  ]
    where
      timed :
          tag ≡ nonce_tag md5_hex s stamp
          → (o : Option ℤ) → stoll stamp ≡ o
          → elim o [ none ↦ NonceState.invalid | some issued ↦ age_state now issued ] ≡ valid
          → (stamp' : Bytes) × (issued : ℤ) × ◌≡◌ {A = Option (Bytes × Bytes)}
              (some (stamp, tag))
              (some (stamp', nonce_tag md5_hex s stamp'))
            × (stoll stamp' ≡ some issued)
            × (age_state now issued ≡ valid)
      timed same none e k = cc
      timed same (some issued) e k = (stamp, issued, ap (λ t. some (stamp, t)) same, e, k)

  judge_own :
      (stamp : Bytes) (issued : ℤ)
      → stoll stamp ≡ some issued
      → age_state now issued ≡ valid
      → judge_nonce md5_hex s now (some (stamp, nonce_tag md5_hex s stamp)) ≡ valid
  unfolding judge_nonce
  judge_own stamp issued read young =
      rw (judge_nonce, beq_refl (nonce_tag md5_hex s stamp), read) young

  nonce_iff : (nonce : Bytes) → (check_nonce md5_hex s now nonce ≡ valid) ↔ IsOwnNonce nonce
  unfolding check_nonce nonce_tag nonce_secret
  nonce_iff nonce = (forth, back)
    where
      forth : check_nonce md5_hex s now nonce ≡ valid → IsOwnNonce nonce
      forth h =
          let (stamp, issued, parts, read, young) = judged (split_first b':' nonce) h in
          let (whole, absent) = split_first-some b':' nonce stamp _ parts in
          record {
            stamp = stamp;
            issued = issued;
            one_colon = absent;
            text = whole;
            time = read;
            fresh = (age-IsFresh issued).0 young;
          }

      back : IsOwnNonce nonce → check_nonce md5_hex s now nonce ≡ valid
      back own =
          ap (judge_nonce md5_hex s now)
            (ap (split_first b':') own.text ∙ split_first-append b':' own.stamp _ own.one_colon)
          ∙ judge_own own.stamp own.issued own.time ((age-IsFresh own.issued).1 own.fresh)

module _ (md5_hex : Bytes → Bytes) (s : AuthSettings) (method : Bytes)
    (fields : Dict Bytes Bytes) where
  -- `H(method:uri)` of the fields.
  abbrev pub signed_request : Bytes
  signed_request = md5_hex (method ++ bytes ":" ++ field (bytes "uri") fields)

  -- The response of RFC 7616 with `qop=auth`, and that of RFC 2069 without a `qop`.
  abbrev pub IsResponse : Bytes → Type 0
  IsResponse response =
      ((field (bytes "qop") fields ≡ bytes "auth")
        × (response
            ≡ md5_hex (
                s.ha1
                ++ bytes ":"
                ++ field (bytes "nonce") fields
                ++ bytes ":"
                ++ field (bytes "nc") fields
                ++ bytes ":"
                ++ field (bytes "cnonce") fields
                ++ bytes ":auth:"
                ++ signed_request)))
      ⊎ ((field (bytes "qop") fields ≡ [])
          × (response
              ≡ md5_hex (
                  s.ha1
                  ++ bytes ":"
                  ++ field (bytes "nonce") fields
                  ++ bytes ":"
                  ++ signed_request)))

  response_iff :
      (response : Bytes)
      → (expected_response md5_hex s method fields ≡ some response) ↔ IsResponse response
  unfolding expected_response
  response_iff response = (forth, back)
    where
      forth : expected_response md5_hex s method fields ≡ some response → IsResponse response
      forth h = elim (Bool-cases (is_empty (field (bytes "qop") fields))) [
        | inl bare ↦ inr (empty_of (field (bytes "qop") fields) bare, cc (rw bare at h))
        | inr full ↦ elim (Bool-cases (field (bytes "qop") fields == bytes "auth")) [
          | inl auth ↦ inl (
            (bytes_beq_iff (field (bytes "qop") fields) (bytes "auth")).0 auth,
            cc (rw (full, auth) at h),
          )
          | inr odd ↦ cc (rw (full, odd) at h)
        ]
      ]
        where
          empty_of : (bs : Bytes) → is_empty bs ≡ true → bs ≡ []
          empty_of [] e = refl
          empty_of (b ∷ bs) e = cc

      back : IsResponse response → expected_response md5_hex s method fields ≡ some response
      back (inl (auth, same)) = rw (auth, same, expected_response) refl
      back (inr (bare, same)) = rw (bare, same, expected_response) refl

-- The fields of a header that a client may be let in with.
pub record IsSigned (md5_hex : Bytes → Bytes) (s : AuthSettings) (now : ℕ) (req : Request)
    (fields : Dict Bytes Bytes) : Type 0 where
  pub user : field (bytes "username") fields ≡ s.username
  pub in_realm : field (bytes "realm") fields ≡ bytes "AIMP Remote Control"
  pub signs :
      (request_path_of (field (bytes "uri") fields) ≡ req.path)
      ⊎ (request_path_of (field (bytes "uri") fields) ≡ req.target)
  pub own : IsOwnNonce md5_hex s now (field (bytes "nonce") fields)
  pub response : IsResponse md5_hex s req.method fields (field (bytes "response") fields)

module _ (md5_hex : Bytes → Bytes) (parse : Bytes → Dict Bytes Bytes) (s : AuthSettings) (now : ℕ)
    (req : Request) where
  -- Authentication is off, or the Authorization header has the texts that let a client in.
  abbrev pub IsLetIn : Type 0
  IsLetIn =
      (is_active s ≡ false)
      ⊎ ((header : Bytes) × (req.authorization ≡ some header)
          × IsSigned md5_hex s now req (parse header))

  -- A request is let in exactly if authentication is off, or its Authorization header names the user and
  -- the realm, signs the request's path or target, carries a nonce that consists of a time at most 15
  -- minutes ago and the digest of that time with the server's secret, and holds the response of RFC 7616
  -- with `auth` as its qop, or that of RFC 2069 without a qop.
  pub authorize_iff : (authorize md5_hex parse s now req ≡ allowed) ↔ IsLetIn
  authorize_iff = (forth, back)
    where
      forth : authorize md5_hex parse s now req ≡ allowed → IsLetIn
      forth h = elim ((authorize-MayEnter md5_hex parse s now req).0 h) [
        | inl off ↦ inl off
        | inr (header, there, a) ↦ inr (
          header,
          there,
          record {
            user = a.user;
            in_realm = a.in_realm;
            signs = a.signs;
            own = (nonce_iff md5_hex s now _).0 a.nonce;
            response = (response_iff md5_hex s req.method (parse header) _).0 a.digest;
          },
        )
      ]

      back : IsLetIn → authorize md5_hex parse s now req ≡ allowed
      back (inl off) = (authorize-MayEnter md5_hex parse s now req).1 (inl off)
      back (inr (header, there, a)) = (authorize-MayEnter md5_hex parse s now req).1 (
          inr (
            header,
            there,
            record {
              user = a.user;
              in_realm = a.in_realm;
              signs = a.signs;
              nonce = (nonce_iff md5_hex s now _).1 a.own;
              digest = (response_iff md5_hex s req.method (parse header) _).1 a.response;
            },
          ))
