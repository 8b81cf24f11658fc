-- ===== src/Player.antt =====
-- getPlayerControlPanelStateCommand.cpp, playCommand.cpp, pauseCommand.cpp, stopCommand.cpp,
-- playNextCommand.cpp, playPreviousCommand.cpp, and MoveFocus of helpers/aimpHelper.cpp.
-- The player of AIMP is a parameter. Numbers that AIMP gives as floating point are rounded as the code
-- rounds them.
pub mod Controls
pub mod Laws
mod Tests
use aimpremote_control.Prelude.{
  ℕ, zero, suc, ◌+◌, ◌-◌, ◌*◌, ◌/◌, ◌^◌, Bool, true, false, not, ◌&&◌, ◌||◌, Option, none, some,
  List, [], ◌∷◌, if◌then◌else◌, ◌==◌, is_empty,
}
use aimpremote_control.Prelude.Text.{Bytes, bytes, bytes_eq}
use aimpremote_control.Prelude.Int.{ℤ, pos, negsuc, int_eq, ◌+ℤ◌}
use aimpremote_control.Rpc.{
  Json, null, boolean, integer, text, object, Fields, no_fields, lookup, pick_fields, append_field,
  integer_field, Rpc, ok, rpc_error, invalid_params,
}
use aimpremote_control.Rpc
use aimpremote_control.Entries.{ceiling}
use aimpremote_control.IdManager.{
  IdManager, PlaylistItemKey, playlist_get_or_generate_plugin_id,
  playlist_item_get_or_generate_plugin_id,
}
use aimpremote_control.Aimp.{Aimp, find_playlist_item, focus_target, less}
use aimpremote_control.Listing.{Given, given, undefined_id, starved_id, with_id, and_then}
use aimpremote_control.Commands.Tracks.{error_track_not_found}

-- AIMP_PLAYER_STATE_XXX: what is neither playing nor paused counts as stopped.
pub data Playback : Type 0 where
  playing paused stopped : Playback

abbrev pub is_stopped : Playback → Bool
is_stopped stopped = true
is_stopped _ = false

unfoldable pub playback_state_name : Playback → Bytes
playback_state_name playing = bytes "playing"
playback_state_name paused = bytes "paused"
playback_state_name stopped = bytes "stopped"

-- The flags that the dispatcher of messages is asked for.
pub data Mode : Type 0 where
  repeat_mode shuffle_mode radio_capture_mode : Mode

-- A call that fails, or a service that cannot be had, gives `none`, and no effect. The volume is in
-- percent, rounded. Durations and positions are fractions n / 2 ^ k of seconds, 0 where AIMP fails;
-- the index of an item too. The text of an id is empty if it cannot be had.
pub record Player (S P I : Type 0) : Type 0 where
  pub has_player : S → Bool
  pub playback : S → Playback
  pub volume : S → ℤ
  pub is_mute : S → Bool
  pub mode : Mode → S → Option Bool
  pub player_item : S → Option I
  pub has_manager : S → Bool
  pub playing_playlist : S → Option P
  pub active_playlist : S → Option P
  pub focused_item : P → S → Option I
  pub cursor_item : P → S → Option I
  pub playlist_of : I → S → Option P
  pub id_of : P → S → Bytes
  pub duration : S → ℤ × ℕ
  pub position : S → ℤ × ℕ
  pub file_name_is_url : I → S → Option Bool
  pub play_item : I → S → S
  pub pause : S → S
  pub resume : S → S
  pub stop : S → S
  pub go_to_next : S → S
  pub go_to_previous : S → S
  pub has_properties : P → S → Bool
  pub set_focus : P → ℤ → S → Bool × S

-- A cast to an integer drops the fraction.
unfoldable pub truncate : ℤ × ℕ → ℤ
truncate (pos n, k) = pos (n / 2 ^ k)
truncate (negsuc n, k) = elim (suc n / 2 ^ k) [ zero ↦ pos 0 | suc m ↦ negsuc m ]

abbrev pub or_false : Option Bool → Bool
or_false none = false
or_false (some b) = b

abbrev pub or_else {ℓ} : {A : Type ℓ} → Option A → Option A → Option A
or_else none other = other
or_else (some a) other = some a

module _ {S P I : Type 0} (aimp : Aimp S P I) (player : Player S P I) where
  -- The first item of a playlist that has items.
  abbrev pub first_item : P → S → Option I
  first_item playlist s =
      if less (pos 0) (aimp.item_count playlist s) then aimp.get_item playlist (pos 0) s else none

  abbrev pub item_in : Option P → S → Option I
  item_in none s = none
  item_in (some playlist) s =
      or_else (player.focused_item playlist s)
        (or_else (player.cursor_item playlist s) (first_item playlist s))

  unfoldable pub current_item_of : S → Option I
  current_item_of s = or_else (player.player_item s) (
      if player.has_manager s
      then item_in (or_else (player.playing_playlist s) (player.active_playlist s)) s
      else none)

  -- `CurrentItem`
  unfoldable pub current_item : S → Option I
  unfolding current_item_of
  current_item s = if player.has_player s then current_item_of s else none

  abbrev pub id_of_owner : Option P → S → Bytes
  id_of_owner none s = []
  id_of_owner (some playlist) s = player.id_of playlist s

  -- What is added to the fields of a player that does not stand still.
  unfoldable pub position_fields : I → S → Fields → Fields
  unfolding ceiling truncate append_field
  position_fields it s so_far =
      if is_stopped (player.playback s)
      then so_far
      else append_field (bytes "current_track_source_radio")
          (boolean (or_false (player.file_name_is_url it s)))
          (append_field (bytes "track_position") (integer (truncate (player.position s)))
            (append_field (bytes "track_length") (integer (ceiling (player.duration s))) so_far))

  unfoldable pub add_current_track : Option I → S → Fields → IdManager → Given Fields
  unfolding position_fields playlist_get_or_generate_plugin_id
      playlist_item_get_or_generate_plugin_id append_field
  add_current_track none s so_far m = given so_far m
  add_current_track (some it) s so_far m =
      let aimp_id = id_of_owner (player.playlist_of it s) s in
      with_id (playlist_get_or_generate_plugin_id aimp_id m) λ playlist_id m1.
        with_id
          (playlist_item_get_or_generate_plugin_id
            (record { aimp_playlist_id = aimp_id; index = aimp.index_of it s }) m1)
          λ track_id m2.
            given
              (position_fields it s (
                append_field (bytes "track_id") (integer (pos track_id))
                  (append_field (bytes "playlist_id") (integer (pos playlist_id)) so_far)))
              m2

  abbrev pub mode_field : Bytes → Mode → S → Fields → Fields
  mode_field name mode s rest = Rpc.field name (boolean (or_false (player.mode mode s))) rest

  unfoldable pub player_fields : S → Fields
  unfolding playback_state_name
  player_fields s =
      Rpc.field (bytes "playback_state") (text (playback_state_name (player.playback s))) (
        Rpc.field (bytes "volume") (integer (player.volume s)) (
          Rpc.field (bytes "mute_mode_on") (boolean (player.is_mute s)) (
            mode_field (bytes "repeat_mode_on") repeat_mode s (
              mode_field (bytes "shuffle_mode_on") shuffle_mode s
                (mode_field (bytes "radio_capture_mode_on") radio_capture_mode s no_fields)))))

  unfoldable pub build_state : S → IdManager → Given Json
  unfolding player_fields add_current_track current_item_of
  build_state s m =
      if player.has_player s
      then and_then (add_current_track (current_item_of s) s (player_fields s) m)
          (λ fields m'. given (object fields) m')
      else given (object (Rpc.field (bytes "playback_state") (text (bytes "stopped")) no_fields)) m
