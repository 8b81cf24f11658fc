-- ===== src/Player/Laws.antt =====
-- What the controls may do, and that no id is lost.
use aimpremote_control.Prelude.{
  ℕ, suc, ◌≡◌, ◌⊎◌, Bool, true, false, Option, none, some, List, if◌then◌else◌,
}
use aimpremote_control.Prelude.Text.{Bytes, bytes, bytes_eq}
use aimpremote_control.Prelude.Int.{ℤ, pos, ◌+ℤ◌}
use aimpremote_control.Rpc.{
  Json, text, object, Fields, no_fields, field, find_field, pick_fields, integer_field, Rpc, ok,
  rpc_error, invalid_params,
}
use aimpremote_control.IdManager.{
  IdManager, PlaylistItemKey, playlist_get_or_generate_plugin_id,
  playlist_item_get_or_generate_plugin_id,
}
use aimpremote_control.IdManager.Invariant.{IsValid}
use aimpremote_control.Events.{Events}
use aimpremote_control.Aimp.{Aimp, find_playlist_item, focus_target, less}
use aimpremote_control.Listing.{Given, given, with_id, and_then}
use aimpremote_control.Listing.Laws.{AfterGiven, Extends-refl, item_published, playlist_published}
use aimpremote_control.Listing.Kept.{Keeps, id-Keeps, then-Keeps}
use aimpremote_control.Player.{
  is_stopped, Player, build_state, add_current_track, current_item_of, current_item, player_fields,
  id_of_owner,
}
use aimpremote_control.Player.Controls.{
  picked, play_next, play_previous, pause_playing, stop_playing, played_before, play_found, play,
  play_names, state_name, track_names, with_track,
}

module _ {S P I : Type 0} (aimp : Aimp S P I) (player : Player S P I) where
  -- What a step by `delta` does, where `go` is the player's own step; each case with all that it takes.
  pub data Moves (delta : ℤ) (go : S → S) (s : S) (r : Option (Bool × S)) : Type 0 where
    without_player : player.has_player s ≡ false → r ≡ some (false, s) → Moves delta go s r
    goes :
        player.has_player s ≡ true
        → is_stopped (player.playback s) ≡ false
        → r ≡ some (false, go s)
        → Moves delta go s r
    without_item :
        player.has_player s ≡ true
        → is_stopped (player.playback s) ≡ true
        → current_item aimp player s ≡ none
        → r ≡ some (false, s)
        → Moves delta go s r
    without_playlist :
        (it : I)
        → player.has_player s ≡ true
        → is_stopped (player.playback s) ≡ true
        → current_item aimp player s ≡ some it
        → player.playlist_of it s ≡ none
        → r ≡ some (false, s)
        → Moves delta go s r
    without_place :
        (it : I) (playlist : P)
        → player.has_player s ≡ true
        → is_stopped (player.playback s) ≡ true
        → current_item aimp player s ≡ some it
        → player.playlist_of it s ≡ some playlist
        → (less (pos 0) (aimp.item_count playlist s) ≡ false)
          ⊎ (player.has_properties playlist s ≡ false)
        → r ≡ some (false, s)
        → Moves delta go s r
    focuses :
        (it : I) (playlist : P) (n : ℕ) (target : ℤ)
        → player.has_player s ≡ true
        → is_stopped (player.playback s) ≡ true
        → current_item aimp player s ≡ some it
        → player.playlist_of it s ≡ some playlist
        → aimp.item_count playlist s ≡ pos (suc n)
        → player.has_properties playlist s ≡ true
        → focus_target (aimp.index_of it s +ℤ delta) (suc n) ≡ some target
        → r ≡ some (player.set_focus playlist target s)
        → Moves delta go s r
    overflows :
        (it : I) (playlist : P) (n : ℕ)
        → player.has_player s ≡ true
        → is_stopped (player.playback s) ≡ true
        → current_item aimp player s ≡ some it
        → player.playlist_of it s ≡ some playlist
        → aimp.item_count playlist s ≡ pos (suc n)
        → focus_target (aimp.index_of it s +ℤ delta) (suc n) ≡ none
        → r ≡ none
        → Moves delta go s r

  added_keep :
      (o : Option I) (s : S) (so_far : Fields) (m : IdManager)
      → IsValid m
      → AfterGiven (Keeps m) (add_current_track aimp player o s so_far m)
  unfolding add_current_track
  added_keep none s so_far m v = Extends-refl m v
  added_keep (some it) s so_far m v =
      id-Keeps _ m (playlist_get_or_generate_plugin_id owner m) _ (playlist_published owner m v)
        λ playlist_id m1 v1.
          id-Keeps _ m1 (playlist_item_get_or_generate_plugin_id key m1) _
            (item_published key m1 v1) λ track_id m2 v2. Extends-refl m2 v2
    where
      owner : Bytes
      owner = id_of_owner aimp player (player.playlist_of it s) s

      key : PlaylistItemKey
      key = record { aimp_playlist_id = owner; index = aimp.index_of it s }

  built_keep :
      (s : S) (m : IdManager) → IsValid m → AfterGiven (Keeps m) (build_state aimp player s m)
  unfolding build_state
  built_keep s m v = either (player.has_player s)
    where
      either :
          (b : Bool)
          → AfterGiven (Keeps m) (
              if b
              then and_then
                  (add_current_track aimp player
                    (current_item_of aimp player s)
                    s
                    (player_fields aimp player s)
                    m)
                  (λ fields m'. given (object fields) m')
              else given
                  (object (field (bytes "playback_state") (text (bytes "stopped")) no_fields))
                  m)
      either false = Extends-refl m v
      either true =
          then-Keeps m _ _
            (added_keep (current_item_of aimp player s) s (player_fields aimp player s) m v)
            λ fields m1 v1. Extends-refl m1 v1

  picked_keep :
      (names : List Bytes) (m : IdManager) (g : Given Json)
      → AfterGiven (Keeps m) g
      → AfterGiven (Keeps m) (picked aimp player names g)
  picked_keep names m g h = then-Keeps m g _ h λ state m1 v1. Extends-refl m1 v1

  answered_keep :
      (owner : P) (track_id : ℤ) (s : S) (before : Fields) (m : IdManager)
      → IsValid m
      → AfterGiven (Keeps m) (played_before aimp player owner track_id s before m)
  unfolding played_before
  answered_keep owner track_id s before m v = known (find_field (bytes "playlist_id") before)
    where
      known :
          (o : Option Json)
          → AfterGiven (Keeps m) (elim o [
            | some playlist_id ↦ given (ok (object before)) m
            | none ↦
                with_id
                  (playlist_get_or_generate_plugin_id (player.id_of owner s) m)
                  λ playlist_id m'.
                    given (ok (object (with_track aimp player track_id playlist_id before))) m'
          ])
      known (some id) = Extends-refl m v
      known none =
          id-Keeps _ m (playlist_get_or_generate_plugin_id (player.id_of owner s) m) _
            (playlist_published (player.id_of owner s) m v) λ id m1 v1. Extends-refl m1 v1

  found_keep :
      (track_id : ℤ) (o : Option (P × I)) (s : S) (m : IdManager)
      → IsValid m
      → AfterGiven (Keeps m) (play_found aimp player track_id o s m).0
  unfolding play_found
  found_keep track_id none s m v = Extends-refl m v
  found_keep track_id (some (owner, it)) s m v =
      then-Keeps m (build_state aimp player s m) _ (built_keep s m v)
        λ state m1 v1. answered_keep owner track_id s (pick_fields state play_names) m1 v1

  -- The state of the player, Play, Pause, Stop, PlayNext and PlayPrevious leave a valid manager valid,
  -- with every id that it had, and their searches for ids do not run out of fuel; unless a search
  -- overflows.
  pub controls-Keeps :
      (params : Json) (s : S) (m : IdManager) (events : Events)
      → IsValid m
      → AfterGiven (Keeps m) (build_state aimp player s m)
        × AfterGiven (Keeps m) (play aimp player params s m).0
        × AfterGiven (Keeps m) (pause_playing aimp player s m).0
        × AfterGiven (Keeps m) (stop_playing aimp player s m).0
        × AfterGiven (Keeps m) (play_next aimp player s m events).0
        × AfterGiven (Keeps m) (play_previous aimp player s m events).0
  unfolding play pause_playing stop_playing play_next play_previous
  controls-Keeps params s m events v = (
    built_keep s m v,
    asked (integer_field (bytes "track_id") params),
    picked_keep state_name m _ (built_keep s m v),
    picked_keep state_name m _ (built_keep s m v),
    picked_keep track_names m _ (built_keep s m v),
    picked_keep track_names m _ (built_keep s m v),
  )
    where
      asked :
          (o : Option ℤ)
          → AfterGiven
              (Keeps m)
              (elim o as (λ o. Given (Rpc Json) × S) [
                | none ↦ (given (rpc_error invalid_params (bytes "track_id is required")) m, s)
                | some track_id ↦
                    play_found aimp player track_id (find_playlist_item aimp m track_id s) s m
              ]).0
      asked none = Extends-refl m v
      asked (some track_id) = found_keep track_id (find_playlist_item aimp m track_id s) s m v
