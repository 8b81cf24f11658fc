-- ===== src/Rpc.antt =====
-- JSON values as the commands read and build them, and the results of a command
-- (remoteControlCommand.h, helpers/jsonHelper.h). Parsing and printing JSON is a third-party library's.
use aimpremote_control.Prelude.{
  ℕ, ◌-◌, ◌%◌, ◌^◌, Bool, Option, none, some, List, [], ◌∷◌, if◌then◌else◌, ◌==◌, ltb,
}
use aimpremote_control.Prelude.Text.{Bytes, bytes_eq}
use aimpremote_control.Prelude.Int.{ℤ, pos, negsuc}

-- A finite double is a dyadic fraction: `real n k` is n / 2 ^ k.
mutual
  pub data Json : Type 0 where
    null : Json
    boolean : Bool → Json
    integer : ℤ → Json
    real : ℤ → ℕ → Json
    text : Bytes → Json
    array : Items → Json
    object : Fields → Json

  pub data Items : Type 0 where
    no_items : Items
    item : Json → Items → Items

  pub data Fields : Type 0 where
    no_fields : Fields
    field : Bytes → Json → Fields → Fields

-- The first field of a name; an object of the JSON library has each name once.
unfoldable pub find_field : Bytes → Fields → Option Json
find_field k no_fields = none
find_field k (field j v fs) = if j == k then some v else find_field k fs

-- `contains` with `operator[]`: what is no object contains nothing.
unfoldable pub lookup : Bytes → Json → Option Json
unfolding find_field
lookup k (object fs) = find_field k fs
lookup k _ = none

unfoldable pub texts : List Bytes → Items
texts [] = no_items
texts (t ∷ ts) = item (text t) (texts ts)

-- `json::array({v})`
abbrev pub items_of_one : Json → Items
items_of_one v = item v no_items

unfoldable pub append_field : Bytes → Json → Fields → Fields
append_field k v no_fields = field k v no_fields
append_field k v (field j w fs) = field j w (append_field k v fs)

-- PickFields: the named fields that the source has, in the order of the names.
unfoldable pub pick_fields : Json → List Bytes → Fields
unfolding lookup
pick_fields source [] = no_fields
pick_fields source (k ∷ ks) =
    let rest = pick_fields source ks in
    elim (lookup k source) [ some v ↦ field k v rest | none ↦ rest ]

-- What a method of the server returns: a value, an `RpcError` with its code and message, or the JSON
-- library's exception for a value of the wrong type.
pub data Rpc {ℓ} (A : Type ℓ) : Type ℓ where
  ok : A → Rpc A
  rpc_error : ℤ → Bytes → Rpc A
  type_error : Rpc A

infixl 5 ◌>>=◌
abbrev pub ◌>>=◌ {ℓ κ} : {A : Type ℓ} {B : Type κ} → Rpc A → (A → Rpc B) → Rpc B
ok a >>= f = f a
rpc_error c m >>= f = rpc_error c m
type_error >>= f = type_error

-- -32602
abbrev pub invalid_params : ℤ
invalid_params = negsuc 32601

-- `params.value(key, fallback)` of a text: only an object may be asked, and only a text may stand there.
unfoldable pub text_or : Bytes → Bytes → Json → Rpc Bytes
unfolding find_field
text_or k fallback (object fs) = elim (find_field k fs) [
  | none ↦ ok fallback
  | some (text t) ↦ ok t
  | some _ ↦ type_error
]
text_or k fallback _ = type_error

-- `params.value(key, fallback)` of a truth value.
unfoldable pub boolean_or : Bytes → Bool → Json → Rpc Bool
unfolding find_field
boolean_or k fallback (object fs) = elim (find_field k fs) [
  | none ↦ ok fallback
  | some (boolean b) ↦ ok b
  | some _ ↦ type_error
]
boolean_or k fallback _ = type_error

-- `get<std::int32_t>()` keeps the low 32 bits.
unfoldable pub to_int32 : ℤ → ℤ
to_int32 (pos n) = let r = n % 2 ^ 32 in if ltb r (2 ^ 31) then pos r else negsuc (2 ^ 32 - 1 - r)
to_int32 (negsuc n) =
    let r = n % 2 ^ 32 in if ltb r (2 ^ 31) then negsuc r else pos (2 ^ 32 - 1 - r)

-- `contains(key) && is_number_integer()`, and the value.
unfoldable pub integer_field : Bytes → Json → Option ℤ
unfolding lookup to_int32
integer_field k params = elim (lookup k params) [ some (integer z) ↦ some (to_int32 z) | _ ↦ none ]

-- The command's error for a field that must be an integer.
unfoldable pub require_integer : Bytes → Bytes → Json → Rpc ℤ
unfolding integer_field
require_integer k message params = elim (integer_field k params) [
  | some z ↦ ok z
  | none ↦ rpc_error invalid_params message
]
