-- ===== src/Status/Methods.antt =====
-- The methods Status and Equalizer.
use aimpremote_control.Prelude.{
  ℕ, zero, suc, Bool, false, not, ◌&&◌, Option, none, some, List, [], ◌∷◌, ◌++◌, if◌then◌else◌,
  ◌==◌, nat_eq, is_empty, length,
}
use aimpremote_control.Prelude.Text.{bytes}
use aimpremote_control.Prelude.Int.{ℤ, pos, negsuc, int_eq, int_text}
use aimpremote_control.Rpc.{
  Json, boolean, integer, real, array, object, Items, no_items, item, Fields, no_fields, lookup,
  integer_field, to_int32, Rpc, ok, rpc_error, type_error, invalid_params,
}
use aimpremote_control.Rpc
use aimpremote_control.Commands.Scheduler.{number_of, rounded}
use aimpremote_control.Player.{truncate}
use aimpremote_control.Status.{
  equalizer, equalizer_band, Floats, Dispatcher, or_default, bool_int, is_set, number, access,
  equalizer_db_to_percent, equalizer_percent_to_db,
}

-- std::lround and the cast to `int`, which keeps the low 32 bits.
unfoldable pub nearest : ℤ × ℕ → ℤ
unfolding rounded to_int32
nearest (pos n, k) = to_int32 (pos (rounded n k))
nearest (negsuc n, k) = elim (rounded (suc n) k) [ zero ↦ pos 0 | suc m ↦ to_int32 (negsuc m) ]

abbrev pub map_option {ℓ κ} : {A : Type ℓ} {B : Type κ} → (A → B) → Option A → Option B
map_option f none = none
map_option f (some a) = some (f a)

-- EqualizerBandCount
abbrev pub band_count : ℕ
band_count = 18

-- `get<std::vector<int>>` of an array: a number of any kind is cast to `int`.
abbrev pub band_json : Json → Option ℤ
band_json (integer z) = some (to_int32 z)
band_json (real z k) = some (to_int32 (truncate (z, k)))
band_json (boolean b) = some (bool_int b)
band_json _ = none

abbrev pub cons_band : Option ℤ → Rpc (List ℤ) → Rpc (List ℤ)
cons_band (some z) (ok zs) = ok (z ∷ zs)
cons_band _ _ = type_error

unfoldable pub bands_of : Items → Rpc (List ℤ)
unfolding truncate to_int32
bands_of no_items = ok []
bands_of (item v rest) = cons_band (band_json v) (bands_of rest)

abbrev pub bands_in : Option Json → Rpc (List ℤ)
bands_in (some (array items)) = bands_of items
bands_in _ = ok []

abbrev pub active_in : Option Json → Option Bool
active_in (some (boolean b)) = some b
active_in _ = none

module _ {R S : Type 0} (floats : Floats R) (dispatcher : Dispatcher S R) where
  abbrev pub value_answer : ℤ → Option ℤ × S → Rpc Json × S
  value_answer id (some v, s) = (ok (object (Rpc.field (bytes "value") (integer v) no_fields)), s)
  value_answer id (none, s) =
      (rpc_error invalid_params (bytes "unknown status_id " ++ int_text id), s)

  unfoldable pub status : Json → S → Rpc Json × S
  unfolding access nearest lookup number_of integer_field int_text
  status params s = elim (integer_field (bytes "status_id") params) [
    | none ↦ (rpc_error invalid_params (bytes "status_id is required"), s)
    | some id ↦ value_answer id (
        access floats dispatcher id (map_option nearest (number_of (lookup (bytes "value") params)))
          s)
  ]

  -- The loop that sets the bands, from the band `i` on.
  unfoldable pub set_bands : ℕ → List ℤ → S → S
  unfolding equalizer_percent_to_db
  set_bands i [] s = s
  set_bands i (percent ∷ percents) s =
      set_bands (suc i) percents
        (dispatcher.set_float (equalizer_band i) (equalizer_percent_to_db floats percent) s)

  -- The loop that asks for them, with `n` rounds left.
  unfoldable pub ask_bands : (n i : ℕ) → S → Items
  unfolding equalizer_db_to_percent
  ask_bands zero i s = no_items
  ask_bands (suc n) i s =
      item
        (integer (
          equalizer_db_to_percent floats
            (or_default (number floats 0) (dispatcher.get_float (equalizer_band i) s))))
        (ask_bands n (suc i) s)

  abbrev pub activate : Option Bool → S → S
  activate none s = s
  activate (some b) s = dispatcher.set_int equalizer (bool_int b) s

  unfoldable pub equalizer_json : S → Json
  unfolding ask_bands
  equalizer_json s = object (
      Rpc.field (bytes "active")
        (boolean (is_set (or_default (pos 0) (dispatcher.get_int equalizer s))))
        (Rpc.field (bytes "bands") (array (ask_bands band_count 0 s)) no_fields))

  -- Without a dispatcher there are no bands to show.
  abbrev pub no_equalizer : Json
  no_equalizer = object (
      Rpc.field (bytes "active") (boolean false)
        (Rpc.field (bytes "bands") (array no_items) no_fields))

  abbrev pub answered : S → Rpc Json × S
  answered s = (ok (equalizer_json s), s)

  unfoldable pub equalize : (has_dispatcher : Bool) → Option Bool → Rpc (List ℤ) → S → Rpc Json × S
  unfolding equalizer_json set_bands
  equalize has_dispatcher active (ok bands) s =
      if not (is_empty bands) && not (length bands == band_count)
      then (rpc_error invalid_params (bytes "bands must contain 18 values"), s)
      else if has_dispatcher
      then answered (set_bands 0 bands (activate active s))
      else (ok no_equalizer, s)
  equalize has_dispatcher active (rpc_error c e) s = (rpc_error c e, s)
  equalize has_dispatcher active type_error s = (type_error, s)

  unfoldable pub equalizer_method : (has_dispatcher : Bool) → Json → S → Rpc Json × S
  unfolding equalize lookup bands_of
  equalizer_method has_dispatcher params s =
      equalize has_dispatcher (active_in (lookup (bytes "active") params))
        (bands_in (lookup (bytes "bands") params)) s
