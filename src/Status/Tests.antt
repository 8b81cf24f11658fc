-- ===== src/Status/Tests.antt =====
-- States over a dispatcher that keeps the last message that sets a property, with whole numbers for floats.
use aimpremote_control.Prelude.{◌≡◌, refl, false, some, none, List, [], ◌∷◌, nat_eq}
use aimpremote_control.Prelude.Int.{ℤ, pos, negsuc, ◌+ℤ◌}
use aimpremote_control.Aimp.{less}
use aimpremote_control.Status.{
  Property, Floats, Dispatcher, access, range_for, bool_property_for, access_bool, shuffle,
}
use aimpremote_control.Status.Ids.{is_some, is_status, access-is_status, access-quiet}

abbrev whole : Floats ℤ
whole = record {
  literal = λ z k. z;
  of_int = λ z. z;
  plus = ◌+ℤ◌;
  minus = λ a b. a;
  times = λ a b. a;
  over = λ a b. a;
  is_less = less;
  floor = λ z. z;
  truncate = λ z. z;
  ceil = λ z. z;
}

abbrev last_set : Dispatcher (List (Property × ℤ)) ℤ
last_set = record {
  get_float = λ p s. none;
  set_float = λ p v s. (p, v) ∷ s;
  get_int = λ p s. none;
  set_int = λ p v s. (p, v) ∷ s;
  bitrate = λ s. pos 320;
  samplerate = λ s. pos 44100;
}

turns_shuffle_on : (access whole last_set (pos 41) (some (pos 7)) []).1 ≡ (shuffle, pos 1) ∷ []
unfolding access range_for bool_property_for access_bool
turns_shuffle_on = refl

access-is_status_example :
    (is_some (access whole last_set (pos 36) none []).0 ≡ is_status 36)
    × (is_some (access whole last_set (negsuc 36) none []).0 ≡ false)
access-is_status_example = access-is_status whole last_set 36 none []

access-quiet_example :
    ((access whole last_set (pos 39) none []).1 ≡ [])
    × ((access whole last_set (pos 4) (some (pos 1)) []).1 ≡ [])
    × ((access whole last_set (pos 37) (some (pos 1)) []).1 ≡ [])
    × ((access whole last_set (pos 32) (some (pos 1)) []).1 ≡ [])
    × ((access whole last_set (pos 35) (some (pos 1)) []).1 ≡ [])
    × ((access whole last_set (pos 36) (some (pos 1)) []).1 ≡ [])
    × (is_status 39 ≡ false → (access whole last_set (pos 39) (some (pos 1)) []).1 ≡ [])
access-quiet_example = access-quiet whole last_set 39 (pos 1) []
