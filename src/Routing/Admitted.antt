-- ===== src/Routing/Admitted.antt =====
-- Which requests reach a method.
use aimpremote_control.Prelude.{
  ℕ, ◌*◌, ◌≤◌, ◌≡◌, ◌⊎◌, inl, inr, refl, arith, Bool, true, false, not, ◌&&◌, Option, some, none,
  List, [], ◌∷◌, ◌++◌, if◌then◌else◌, ◌==◌, any, ltb, nat_eq, nat_beq_iff, Bool-cases,
}
use aimpremote_control.Prelude.Text.{Bytes, bytes, bytes_eq, bytes_beq_iff}
use aimpremote_control.Prelude.Dict.{Dict}
use aimpremote_control.Digest.{AuthSettings, Request, Verdict, allowed, refused, undefined}
use aimpremote_control.Digest.Signed.{IsLetIn, authorize_iff}
use aimpremote_control.Routing.{
  Incoming, Files, passes, entry_of, begins_with, without_first, is_static_file_request,
  is_upload_request, payload_too_large, pre_route,
}

-- The path below the web root that a request asks for.
abbrev pub relative_path : Request → Bytes
relative_path req = without_first (if req.path == bytes "/" then bytes "/index.html" else req.path)

-- A request that reads a regular file whose canonical path is the web root's, a separator and more.
pub record ReadsWebRoot (fs : Files) (req : Request) : Type 0 where
  pub reads : (req.method ≡ bytes "GET") ⊎ (req.method ≡ bytes "HEAD")
  pub root : Bytes
  pub file : Bytes
  pub rest : Bytes
  pub rooted : fs.root ≡ some root
  pub regular : fs.regular_file root (relative_path req) ≡ some file
  pub below : file ≡ fs.with_separator root ++ rest

-- A request to one of the upload routes.
abbrev pub IsUpload : List (Bytes → Bool) → Request → Type 0
IsUpload patterns req =
    (req.method ≡ bytes "POST") × (any (λ matches. matches req.path) patterns ≡ true)

-- No length that is told, or one of at most 16 MiB.
abbrev pub IsWithin : Option ℕ → Type 0
IsWithin none = Unit
IsWithin (some n) = n ≤ 16 * 1024 * 1024

-- A request that is not chunked and tells of no length past the limit.
abbrev pub IsSmall : Incoming → Type 0
IsSmall r = (r.is_chunked ≡ false) × IsWithin r.content_length

begins-append :
    (prefix text : Bytes)
    → begins_with prefix text ≡ true
    → (rest : Bytes) × (text ≡ prefix ++ rest)
unfolding begins_with
begins-append [] text h = (text, refl)
begins-append (p ∷ ps) [] h = cc
begins-append (p ∷ ps) (c ∷ cs) h = elim (Bool-cases (p == c)) [
  | inr other ↦ cc (rw other at h)
  | inl same ↦ let (rest, tail) = begins-append ps cs (rw same at h) in (rest, cons rest same tail)
]
  where
    cons : (rest : Bytes) → (p == c) ≡ true → cs ≡ ps ++ rest → (c ∷ cs) ≡ (p ∷ ps) ++ rest
    cons rest same tail = ground (arith, nat_beq_iff p c)

static-ReadsWebRoot :
    (fs : Files) (req : Request) → is_static_file_request fs req ≡ true → ReadsWebRoot fs req
unfolding is_static_file_request
static-ReadsWebRoot fs req h =
    elim (Bool-cases (not (req.method == bytes "GET") && not (req.method == bytes "HEAD"))) [
      | inl other ↦ cc (rw other at h)
      | inr reads ↦ rooted reads fs.root refl (rw reads at h)
    ]
  where
    method_of :
        (not (req.method == bytes "GET") && not (req.method == bytes "HEAD")) ≡ false
        → (req.method ≡ bytes "GET") ⊎ (req.method ≡ bytes "HEAD")
    method_of e =
        ground
          (arith, bytes_beq_iff req.method (bytes "GET"), bytes_beq_iff req.method (bytes "HEAD"))

    found :
        (not (req.method == bytes "GET") && not (req.method == bytes "HEAD")) ≡ false
        → (root : Bytes) → fs.root ≡ some root
        → (o : Option Bytes) → fs.regular_file root (relative_path req) ≡ o
        → elim o [ none ↦ false | some file ↦ begins_with (fs.with_separator root) file ] ≡ true
        → ReadsWebRoot fs req
    found reads root there none e k = cc
    found reads root there (some file) e k =
        let (rest, below) = begins-append (fs.with_separator root) file k in
        record {
          reads = method_of reads;
          root = root;
          file = file;
          rest = rest;
          rooted = there;
          regular = e;
          below = below;
        }

    rooted :
        (not (req.method == bytes "GET") && not (req.method == bytes "HEAD")) ≡ false
        → (o : Option Bytes) → fs.root ≡ o
        → elim o [
          | none ↦ false
          | some root ↦ elim (fs.regular_file root (relative_path req)) [
            | none ↦ false
            | some file ↦ begins_with (fs.with_separator root) file
          ]
        ]
          ≡ true
        → ReadsWebRoot fs req
    rooted reads none there k = cc
    rooted reads (some root) there k = found reads root there _ refl k

small_lem : (r : Incoming) → payload_too_large r ≡ false → IsSmall r
unfolding payload_too_large
small_lem r h = elim (Bool-cases r.is_chunked) [
  | inl chunked ↦ cc (rw chunked at h)
  | inr whole ↦ (whole, told r.content_length (rw whole at h))
]
  where
    told :
        (o : Option ℕ)
        → elim o [ none ↦ false | some n ↦ ltb (16 * 1024 * 1024) n ] ≡ false
        → IsWithin o
    told none e = tt
    told (some n) e = ground arith

upload_lem :
    (patterns : List (Bytes → Bool)) (req : Request)
    → is_upload_request patterns req ≡ true
    → IsUpload patterns req
unfolding is_upload_request
upload_lem patterns req h = ground (arith, bytes_beq_iff req.method (bytes "POST"))

module _ (md5_hex : Bytes → Bytes) (parse : Bytes → Dict Bytes Bytes) where
  entry_allowed : (v : Verdict) → entry_of v ≡ passes → v ≡ allowed
  entry_allowed allowed h = refl
  entry_allowed (refused r) h = cc
  entry_allowed undefined h = cc

  -- What has passed the handler before the routes reads a file of the web root, for which no credentials
  -- are asked; or it is an upload or at most 16 MiB long, and authentication is off or it is signed with
  -- a nonce of the server's.
  pub pre_route-Guards :
      (fs : Files) (patterns : List (Bytes → Bool)) (s : AuthSettings) (now : ℕ) (r : Incoming)
      → pre_route md5_hex parse fs patterns s now r ≡ passes
      → ReadsWebRoot fs r.request
        ⊎ ((IsUpload patterns r.request ⊎ IsSmall r) × IsLetIn md5_hex parse s now r.request)
  unfolding pre_route
  pre_route-Guards fs patterns s now r h = elim (Bool-cases (is_static_file_request fs r.request)) [
    | inl static ↦ inl (static-ReadsWebRoot fs r.request static)
    | inr dynamic ↦
        elim (Bool-cases (not (is_upload_request patterns r.request) && payload_too_large r)) [
          | inl big ↦ cc (rw (dynamic, big) at h)
          | inr small ↦ inr (
            either (Bool-cases (is_upload_request patterns r.request)) small,
            (authorize_iff md5_hex parse s now r.request).0
                (entry_allowed _ (rw (dynamic, small) at h)),
          )
        ]
  ]
    where
      either :
          (is_upload_request patterns r.request ≡ true)
            ⊎ (is_upload_request patterns r.request ≡ false)
          → (not (is_upload_request patterns r.request) && payload_too_large r) ≡ false
          → IsUpload patterns r.request ⊎ IsSmall r
      either (inl up) small = inl (upload_lem patterns r.request up)
      either (inr plain) small = inr (small_lem r (rw plain at small))
