-- ===== src/Routing.antt =====
-- remoteControlServer.cpp: what happens to a request before a method sees it. The HTTP library's regular
-- expressions and the file system are parameters.
pub mod Admitted
pub mod Normal
mod Tests
use aimpremote_control.Prelude.{
  ℕ, ◌*◌, Bool, true, false, not, ◌&&◌, ◌||◌, Option, none, some, List, [], ◌∷◌, ◌++◌,
  if◌then◌else◌, ◌==◌, nat_eq, any, ltb, leb,
}
use aimpremote_control.Prelude.Text.{Bytes, bytes, bytes_eq}
use aimpremote_control.Prelude.Dict.{Dict}
use aimpremote_control.Rpc.{
  Json, null, object, array, items_of_one, Items, Fields, no_fields, find_field,
}
use aimpremote_control.Rpc
use aimpremote_control.Digest.{
  AuthSettings, Request, Response, Verdict, allowed, refused, undefined, authorize,
}

-- A request with the headers that the check of its length reads; `content_length` is what strtoull
-- makes of the header.
pub record Incoming : Type 0 where
  pub request : Request
  pub is_chunked : Bool
  pub content_length : Option ℕ

abbrev pub max_json_payload : ℕ
max_json_payload = 16 * 1024 * 1024

unfoldable pub payload_too_large : Incoming → Bool
payload_too_large r =
    if r.is_chunked
    then true
    else elim r.content_length [ none ↦ false | some n ↦ ltb max_json_payload n ]

-- What std::filesystem tells: the canonical root, or an error; the canonical file of a path below the
-- root, if it is a regular file; and a folder's text with the separator after it (`root / L""`).
pub record Files : Type 0 where
  pub root : Option Bytes
  pub regular_file : (root relative : Bytes) → Option Bytes
  pub with_separator : Bytes → Bytes

-- `file.compare(0, prefix.size(), prefix) == 0`: whether a text begins with another.
unfoldable pub begins_with : (prefix text : Bytes) → Bool
begins_with [] text = true
begins_with (p ∷ ps) [] = false
begins_with (p ∷ ps) (c ∷ cs) = let rest = begins_with ps cs in if p == c then rest else false

abbrev pub without_first : Bytes → Bytes
without_first [] = []
without_first (b ∷ bs) = bs

unfoldable pub is_static_file_request : Files → Request → Bool
unfolding begins_with
is_static_file_request fs req =
    let relative =
      without_first (if req.path == bytes "/" then bytes "/index.html" else req.path) in
    if not (req.method == bytes "GET") && not (req.method == bytes "HEAD")
    then false
    else elim fs.root [
      | none ↦ false
      | some root ↦ elim (fs.regular_file root relative) [
        | none ↦ false
        | some file ↦ begins_with (fs.with_separator root) file
      ]
    ]

-- The patterns of the upload routes, each with its test.
unfoldable pub is_upload_request : List (Bytes → Bool) → Request → Bool
is_upload_request patterns req =
    (req.method == bytes "POST") && any (λ matches. matches req.path) patterns

-- What the handler before the routes does: pass the request on, or answer it.
pub data Entry : Type 0 where
  passes : Entry
  too_large : Entry
  unauthorized : Response → Entry
  entry_undefined : Entry

abbrev pub entry_of : Verdict → Entry
entry_of allowed = passes
entry_of (refused r) = unauthorized r
entry_of undefined = entry_undefined

module _ (md5_hex : Bytes → Bytes) (parse : Bytes → Dict Bytes Bytes) where
  unfoldable pub pre_route : Files → List (Bytes → Bool) → AuthSettings → ℕ → Incoming → Entry
  unfolding is_static_file_request is_upload_request payload_too_large
  pre_route fs patterns s now r =
      if is_static_file_request fs r.request
      then passes
      else if not (is_upload_request patterns r.request) && payload_too_large r
      then too_large
      else entry_of (authorize md5_hex parse s now r.request)

-- `request["params"] = …` of an object.
unfoldable pub put_field : Bytes → Json → Fields → Fields
put_field k v no_fields = Rpc.field k v no_fields
put_field k v (Rpc.field j w fs) =
    let rest = put_field k v fs in if j == k then Rpc.field j v fs else Rpc.field j w rest

abbrev pub params_of : Option Json → Json
params_of none = object no_fields
params_of (some null) = object no_fields
params_of (some v) = v

abbrev pub wrap_params : Json → Fields → Fields
wrap_params (object ps) fs = put_field (bytes "params") (array (items_of_one (object ps))) fs
wrap_params _ fs = fs

-- NormalizeParams, of a request that is an object.
unfoldable pub normalize_params : Fields → Fields
unfolding put_field find_field
normalize_params fs = wrap_params (params_of (find_field (bytes "params") fs)) fs
