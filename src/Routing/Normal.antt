-- ===== src/Routing/Normal.antt =====
-- The parameters that a method is called with.
use aimpremote_control.Prelude.{◌≡◌, refl, arith, Option, none, some, if◌then◌else◌, ◌==◌}
use aimpremote_control.Prelude.Text.{Bytes, bytes, bytes_eq, bytes_beq_iff}
use aimpremote_control.Rpc.{
  Json, null, boolean, integer, real, text, object, array, items_of_one, Fields, no_fields,
  find_field,
}
use aimpremote_control.Rpc
use aimpremote_control.Routing.{put_field, params_of, wrap_params, normalize_params}

find_field-put_field :
    (k j : Bytes) (v : Json) (fs : Fields)
    → find_field j (put_field k v fs) ≡ (if k == j then some v else find_field j fs)
unfolding find_field put_field
find_field-put_field k j v Rpc.no_fields = refl
find_field-put_field k j v (Rpc.field i w fs) =
    ground (
      arith,
      find_field-put_field k j v fs,
      bytes_beq_iff k j,
      bytes_beq_iff i k,
      bytes_beq_iff i j,
    )

kept :
    (j : Bytes) (v : Json) (fs : Fields)
    → find_field (bytes "params") fs ≡ some v
    → find_field j fs ≡ (if bytes "params" == j then some v else find_field j fs)
kept j v fs h = ground (arith, bytes_beq_iff (bytes "params") j)

-- What a method gets as its parameters: an object, or nothing, is wrapped in an array of one.
abbrev pub normal : Option Json → Option Json
normal none = some (array (items_of_one (object Rpc.no_fields)))
normal (some null) = some (array (items_of_one (object Rpc.no_fields)))
normal (some (object ps)) = some (array (items_of_one (object ps)))
normal (some v) = some v

wrapped :
    (j : Bytes) (o : Option Json) (fs : Fields)
    → find_field (bytes "params") fs ≡ o
    → find_field j (wrap_params (params_of o) fs)
      ≡ (if bytes "params" == j then normal o else find_field j fs)
wrapped j none fs h = find_field-put_field (bytes "params") j _ fs
wrapped j (some null) fs h = find_field-put_field (bytes "params") j _ fs
wrapped j (some (object ps)) fs h = find_field-put_field (bytes "params") j _ fs
wrapped j (some (boolean b)) fs h = kept j (boolean b) fs h
wrapped j (some (integer z)) fs h = kept j (integer z) fs h
wrapped j (some (real z k)) fs h = kept j (real z k) fs h
wrapped j (some (text t)) fs h = kept j (text t) fs h
wrapped j (some (array vs)) fs h = kept j (array vs) fs h

-- After the parameters of a request are normalised, they are an array of one object if they were an
-- object, null or missing, and as they were otherwise; and no other field is changed.
pub normalize_params_lem :
    (j : Bytes) (fs : Fields)
    → find_field j (normalize_params fs)
      ≡ (if bytes "params" == j then normal (find_field (bytes "params") fs) else find_field j fs)
unfolding normalize_params
normalize_params_lem j fs = wrapped j (find_field (bytes "params") fs) fs refl
