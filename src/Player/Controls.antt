-- ===== src/Player/Controls.antt =====
-- The methods that make the player play, pause, stop and go on.
use aimpremote_control.Prelude.{
  ℕ, zero, suc, Bool, false, Option, none, some, List, [], ◌∷◌, if◌then◌else◌,
}
use aimpremote_control.Prelude.Text.{Bytes, bytes, bytes_eq}
use aimpremote_control.Prelude.Int.{ℤ, pos, negsuc, ◌+ℤ◌}
use aimpremote_control.Rpc.{
  Json, integer, object, pick_fields, append_field, integer_field, Fields, find_field, Rpc, ok,
  rpc_error, invalid_params,
}
use aimpremote_control.IdManager.{IdManager, playlist_get_or_generate_plugin_id}
use aimpremote_control.Events.{Events, notify, control_panel}
use aimpremote_control.Aimp.{Aimp, find_playlist_item, focus_target}
use aimpremote_control.Listing.{Given, given, with_id, and_then}
use aimpremote_control.Commands.Tracks.{error_track_not_found}
use aimpremote_control.Player.{
  Playback, playing, paused, stopped, is_stopped, Player, build_state, current_item,
}

abbrev pub track_names : List Bytes
track_names = bytes "playlist_id" ∷ bytes "track_id" ∷ []

abbrev pub state_name : List Bytes
state_name = bytes "playback_state" ∷ []

abbrev pub play_names : List Bytes
play_names = bytes "playback_state" ∷ bytes "playlist_id" ∷ bytes "track_id" ∷ []

module _ {S P I : Type 0} (aimp : Aimp S P I) (player : Player S P I) where
  -- The named fields of the state before the call.
  abbrev pub picked : List Bytes → Given Json → Given Json
  picked names before = and_then before λ state m. given (object (pick_fields state names)) m

  abbrev pub set_to : P → Option ℤ → S → Option (Bool × S)
  set_to playlist none s = none
  set_to playlist (some target) s = some (player.set_focus playlist target s)

  abbrev pub focus_at : P → ℤ → ℤ → S → Option (Bool × S)
  focus_at playlist sum (pos zero) s = some (false, s)
  focus_at playlist sum (pos (suc n)) s =
      if player.has_properties playlist s
      then set_to playlist (focus_target sum (suc n)) s
      else some (false, s)
  focus_at playlist sum (negsuc n) s = some (false, s)

  -- Whether the focus was moved, and the state after; `none` is an overflow of the index.
  unfoldable pub move_focus : ℤ → I → S → Option (Bool × S)
  unfolding focus_target
  move_focus delta it s = elim (player.playlist_of it s) [
    | none ↦ some (false, s)
    | some playlist ↦ focus_at playlist (aimp.index_of it s +ℤ delta) (aimp.item_count playlist s) s
  ]

  abbrev pub move_from : ℤ → Option I → S → Option (Bool × S)
  move_from delta none s = some (false, s)
  move_from delta (some it) s = move_focus delta it s

  -- The call on the main thread: a player that stands still moves its focus instead.
  unfoldable pub step_playback : ℤ → (S → S) → S → Option (Bool × S)
  unfolding move_focus current_item
  step_playback delta go s =
      if player.has_player s
      then (if is_stopped (player.playback s)
          then move_from delta (current_item aimp player s) s
          else some (false, go s))
      else some (false, s)

  abbrev pub told : Events → Option (Bool × S) → Option (Events × S)
  told events none = none
  told events (some (moved, s)) = some (if moved then notify control_panel events else events, s)

  unfoldable pub play_next : S → IdManager → Events → Given Json × Option (Events × S)
  unfolding step_playback build_state pick_fields notify
  play_next s m events = (
    picked track_names (build_state aimp player s m),
    told events (step_playback (pos 1) player.go_to_next s),
  )

  unfoldable pub play_previous : S → IdManager → Events → Given Json × Option (Events × S)
  unfolding step_playback build_state pick_fields notify
  play_previous s m events = (
    picked track_names (build_state aimp player s m),
    told events (step_playback (negsuc 0) player.go_to_previous s),
  )

  abbrev pub play_if : Option I → S → S
  play_if none s = s
  play_if (some it) s = player.play_item it s

  abbrev pub toggled : Playback → S → S
  toggled playing s = player.pause s
  toggled paused s = player.resume s
  toggled stopped s = play_if (current_item aimp player s) s

  unfoldable pub toggle : S → S
  unfolding current_item
  toggle s = if player.has_player s then toggled (player.playback s) s else s

  unfoldable pub pause_playing : S → IdManager → Given Json × S
  unfolding toggle build_state pick_fields
  pause_playing s m = (picked state_name (build_state aimp player s m), toggle s)

  unfoldable pub stop_playing : S → IdManager → Given Json × S
  unfolding build_state pick_fields
  stop_playing s m = (
    picked state_name (build_state aimp player s m),
    if player.has_player s then player.stop s else s,
  )

  abbrev pub with_track : ℤ → ℕ → Fields → Fields
  with_track track_id playlist_id before =
      append_field (bytes "track_id") (integer track_id)
        (append_field (bytes "playlist_id") (integer (pos playlist_id)) before)

  -- The answer to Play: the fields before it, with the track that is asked for if there was none.
  unfoldable pub played_before : P → ℤ → S → Fields → IdManager → Given (Rpc Json)
  unfolding playlist_get_or_generate_plugin_id find_field append_field
  played_before owner track_id s before m = elim (find_field (bytes "playlist_id") before) [
    | some playlist_id ↦ given (ok (object before)) m
    | none ↦
        with_id (playlist_get_or_generate_plugin_id (player.id_of owner s) m)
          λ playlist_id m'. given (ok (object (with_track track_id playlist_id before))) m'
  ]

  unfoldable pub play_found : ℤ → Option (P × I) → S → IdManager → Given (Rpc Json) × S
  unfolding played_before build_state pick_fields
  play_found track_id none s m =
      (given (rpc_error error_track_not_found (bytes "Track not found.")) m, s)
  play_found track_id (some (owner, it)) s m = (
    and_then (build_state aimp player s m)
        (λ state m'. played_before owner track_id s (pick_fields state play_names) m'),
    if player.has_player s then player.play_item it s else s,
  )

  unfoldable pub play : Json → S → IdManager → Given (Rpc Json) × S
  unfolding play_found find_playlist_item integer_field
  play params s m = elim (integer_field (bytes "track_id") params) [
    | none ↦ (given (rpc_error invalid_params (bytes "track_id is required")) m, s)
    | some track_id ↦ play_found track_id (find_playlist_item aimp m track_id s) s m
  ]
