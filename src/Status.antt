-- ===== src/Status.antt =====
-- statusCommand.cpp, equalizerCommand.cpp and helpers/equalizerBands.h: the numbered states of the player.
-- The dispatcher of AIMP's messages and the arithmetic on single floats are parameters.
pub mod Methods
pub mod Ids
mod Tests
use aimpremote_control.Prelude.{
  ℕ, zero, suc, ◌+◌, ◌-◌, ◌*◌, ◌/◌, ◌^◌, Bool, true, false, not, ◌&&◌, ◌||◌, Option, none, some,
  List, [], ◌∷◌, ◌++◌, if◌then◌else◌, ◌==◌, nat_eq, ltb, leb, is_empty, length,
}
use aimpremote_control.Prelude.Text.{Bytes, bytes}
use aimpremote_control.Prelude.Int.{ℤ, pos, negsuc, int_eq, int_text}
use aimpremote_control.Rpc.{
  Json, integer, object, no_fields, lookup, integer_field, to_int32, Rpc, ok, rpc_error,
  invalid_params,
}
use aimpremote_control.Rpc
use aimpremote_control.Aimp.{less}
use aimpremote_control.Commands.Scheduler.{number_of, rounded}

-- AIMP_MSG_PROPERTY_XXX
pub data Property : Type 0 where
  volume balance speed reverb echo chorus flanger true_bass enhancer tempo pitch preamp : Property
  mute equalizer repeat stop_after_track repeat_single_file_playlists radio_capture shuffle :
      Property
  minimized_to_tray player_state player_position player_duration action_on_end_of_playlist :
      Property
  equalizer_band : (band : ℕ) → Property

-- Single floats: the literals are n / 2 ^ k. `floor`, `truncate` and `ceil` end in a cast to `int`.
pub record Floats (R : Type 0) : Type 0 where
  pub literal : ℤ → ℕ → R
  pub of_int : ℤ → R
  pub plus : R → R → R
  pub minus : R → R → R
  pub times : R → R → R
  pub over : R → R → R
  pub is_less : R → R → Bool
  pub floor : R → ℤ
  pub truncate : R → ℤ
  pub ceil : R → ℤ

-- The dispatcher: a message that fails, or none to send it, gives `none`, and no effect. `bitrate` and
-- `samplerate` are those of the file that is played, 0 without one.
pub record Dispatcher (S R : Type 0) : Type 0 where
  pub get_float : Property → S → Option R
  pub set_float : Property → R → S → S
  pub get_int : Property → S → Option ℤ
  pub set_int : Property → ℤ → S → S
  pub bitrate : S → ℤ
  pub samplerate : S → ℤ

abbrev pub or_default {ℓ} : {A : Type ℓ} → A → Option A → A
or_default d none = d
or_default d (some a) = a

-- `BoolPropertyFor`, of an id that is not negative.
unfoldable pub bool_property_for : ℕ → Option Property
bool_property_for id =
    if id == 5
    then some mute
    else if id == 10
    then some equalizer
    else if id == 29
    then some repeat
    else if id == 30
    then some stop_after_track
    else if id == 34
    then some repeat_single_file_playlists
    else if id == 38
    then some radio_capture
    else if id == 41
    then some shuffle
    else if id == 45
    then some minimized_to_tray
    else none

-- The cases of the switch at the end of Access.
pub data Other : Type 0 where
  playback_state position track_length repeat_playlist kbps khz : Other

unfoldable pub other_for : ℕ → Option Other
other_for id =
    if (id == 4) || (id == 37)
    then some playback_state
    else if id == 31
    then some position
    else if id == 32
    then some track_length
    else if id == 33
    then some repeat_playlist
    else if id == 35
    then some kbps
    else if id == 36
    then some khz
    else none

abbrev pub bool_int : Bool → ℤ
bool_int true = pos 1
bool_int false = pos 0

abbrev pub is_set : ℤ → Bool
is_set z = not (z == pos 0)

-- The quotient of C++, for a divisor of 1000.
abbrev pub thousandth : ℤ → ℤ
thousandth (pos n) = pos (n / 1000)
thousandth (negsuc n) = elim (suc n / 1000) [ zero ↦ pos 0 | suc m ↦ negsuc m ]

pub record Range (R : Type 0) : Type 0 where
  pub property : Property
  pub low : R
  pub high : R
  pub pivot_percent : ℕ
  pub pivot_value : R

module _ {R : Type 0} (floats : Floats R) where
  abbrev pub number : ℕ → R
  number n = floats.literal (pos n) 0

  -- `value`, below 0.
  abbrev pub opposite : ℕ → R
  opposite n = floats.literal (negsuc (n - 1)) 0

  abbrev pub half : R
  half = floats.literal (pos 1) 1

  -- A range without a pivot has it at its start.
  abbrev pub plain : Property → R → R → Range R
  plain property low high = record {
    property = property;
    low = low;
    high = high;
    pivot_percent = 0;
    pivot_value = low;
  }

  unfoldable pub range_for : ℕ → Option (Range R)
  range_for id =
      if id == 1
      then some (plain volume (number 0) (number 1))
      else if id == 2
      then some (plain balance (opposite 1) (number 1))
      else if id == 3
      then some (record {
        property = speed;
        low = half;
        high = number 3;
        pivot_percent = 50;
        pivot_value = number 1;
      })
      else if id == 6
      then some (plain reverb (number 0) (number 1))
      else if id == 7
      then some (plain echo (number 0) (number 1))
      else if id == 8
      then some (plain chorus (number 0) (number 1))
      else if id == 9
      then some (plain flanger (number 0) (number 1))
      else if id == 48
      then some (plain true_bass (number 0) (number 2))
      else if id == 49
      then some (plain enhancer (number 1) (number 5))
      else if id == 50
      then some (record {
        property = tempo;
        low = half;
        high = number 3;
        pivot_percent = 28;
        pivot_value = number 1;
      })
      else if id == 51
      then some (plain pitch (opposite 10) (number 10))
      else if id == 52
      then some (plain preamp (opposite 15) (number 15))
      else none

  -- The segment of a range: its ends, and their percents.
  pub record Segment : Type 0 where
    pub from : R
    pub to : R
    pub from_percent : R
    pub to_percent : R

  abbrev pub segment : (lower : Bool) → Range R → Segment
  segment true r = record {
    from = r.low;
    to = r.pivot_value;
    from_percent = number 0;
    to_percent = floats.of_int (pos r.pivot_percent);
  }
  segment false r = record {
    from = r.pivot_value;
    to = r.high;
    from_percent = floats.of_int (pos r.pivot_percent);
    to_percent = number 100;
  }

  unfoldable pub to_percent : R → Range R → ℤ
  to_percent value r =
      let s = segment (floats.is_less value r.pivot_value && ltb 0 r.pivot_percent) r in
      floats.floor (
        floats.plus s.from_percent (
          floats.times (floats.over (floats.minus value s.from) (floats.minus s.to s.from))
            (floats.minus s.to_percent s.from_percent)))

  unfoldable pub from_percent : ℤ → Range R → R
  from_percent percent r =
      let s = segment (less percent (pos r.pivot_percent) && ltb 0 r.pivot_percent) r in
      floats.plus s.from (
        floats.over
          (floats.times (floats.minus s.to s.from)
            (floats.minus (floats.of_int percent) s.from_percent))
          (floats.minus s.to_percent s.from_percent))

  unfoldable pub equalizer_db_to_percent : R → ℤ
  equalizer_db_to_percent db = floats.floor (
      floats.times (floats.over (floats.plus db (number 15)) (floats.times (number 2) (number 15)))
        (number 100))

  unfoldable pub equalizer_percent_to_db : ℤ → R
  equalizer_percent_to_db percent = floats.plus (opposite 15) (
      floats.over (floats.times (floats.times (number 2) (number 15)) (floats.of_int percent))
        (number 100))

  module _ {S : Type 0} (dispatcher : Dispatcher S R) where
    -- What is asked after what is set.
    abbrev pub then_asked : (S → ℤ) → S → Option ℤ × S
    then_asked ask s = (some (ask s), s)

    abbrev pub set_if : (ℤ → S → S) → Option ℤ → S → S
    set_if f none s = s
    set_if f (some v) s = f v s

    unfoldable pub access_range : Range R → Option ℤ → S → Option ℤ × S
    unfolding to_percent from_percent
    access_range r value s =
        then_asked (λ t. to_percent (or_default r.low (dispatcher.get_float r.property t)) r)
          (set_if (λ v. dispatcher.set_float r.property (from_percent v r)) value s)

    unfoldable pub access_bool : Property → Option ℤ → S → Option ℤ × S
    access_bool property value s =
        then_asked (λ t. bool_int (is_set (or_default (pos 0) (dispatcher.get_int property t))))
          (set_if (λ v. dispatcher.set_int property (bool_int (is_set v))) value s)

    unfoldable pub access_band : ℕ → Option ℤ → S → Option ℤ × S
    unfolding equalizer_db_to_percent equalizer_percent_to_db
    access_band band value s =
        then_asked
          (λ t.
            equalizer_db_to_percent
              (or_default (number 0) (dispatcher.get_float (equalizer_band band) t)))
          (set_if (λ v. dispatcher.set_float (equalizer_band band) (equalizer_percent_to_db v))
            value s)

    -- The switch at the end.
    unfoldable pub access_other : Option Other → Option ℤ → S → Option ℤ × S
    access_other none value s = (none, s)
    access_other (some playback_state) value s =
        then_asked (λ t. or_default (pos 0) (dispatcher.get_int player_state t)) s
    access_other (some position) value s =
        then_asked
          (λ t. floats.truncate (or_default (number 0) (dispatcher.get_float player_position t)))
          (set_if (λ v. dispatcher.set_float player_position (floats.of_int v)) value s)
    access_other (some track_length) value s =
        then_asked
          (λ t. floats.ceil (or_default (number 0) (dispatcher.get_float player_duration t))) s
    access_other (some repeat_playlist) value s =
        then_asked
          (λ t.
            bool_int (or_default (pos 0) (dispatcher.get_int action_on_end_of_playlist t) == pos 1))
          (set_if (λ v. dispatcher.set_int action_on_end_of_playlist (bool_int (is_set v))) value s)
    access_other (some kbps) value s = then_asked dispatcher.bitrate s
    access_other (some khz) value s = then_asked (λ t. thousandth (dispatcher.samplerate t)) s

    abbrev pub access_known : ℕ → Option (Range R) → Option Property → Option ℤ → S → Option ℤ × S
    access_known id (some r) property value s = access_range r value s
    access_known id none (some property) value s = access_bool property value s
    access_known id none none value s =
        if leb 11 id && leb id 28
        then access_band (id - 11) value s
        else access_other (other_for id) value s

    unfoldable pub access : ℤ → Option ℤ → S → Option ℤ × S
    unfolding access_range access_bool access_band access_other range_for bool_property_for
        other_for
    access (pos id) value s = access_known id (range_for id) (bool_property_for id) value s
    access (negsuc id) value s = (none, s)
