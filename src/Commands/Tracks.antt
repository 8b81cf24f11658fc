-- ===== src/Commands/Tracks.antt =====
-- removeTrackCommand.cpp, enqueueTrackCommand.cpp, removeTrackFromPlayQueueCommand.cpp and
-- playlistRenameCommand.cpp, over the interface of AIMP.
use aimpremote_control.Prelude.{
  Bool, true, false, not, ◌&&◌, Option, none, some, if◌then◌else◌, ◌==◌,
}
use aimpremote_control.Prelude.Text.{Bytes, bytes, bytes_eq}
use aimpremote_control.Prelude.Int.{ℤ, pos, int_eq}
use aimpremote_control.Rpc.{
  Json, null, boolean, text, object, no_fields, lookup, boolean_or, require_integer, integer_field,
  Rpc, ok, rpc_error, type_error, invalid_params,
}
use aimpremote_control.Rpc
use aimpremote_control.IdManager.{IdManager}
use aimpremote_control.Aimp.{Aimp, find_playlist_item, find_playlist, succeeded, e_invalidarg}

-- The errors' codes.
abbrev pub error_track_not_found : ℤ
error_track_not_found = pos 21

abbrev pub error_remove_failed : ℤ
error_remove_failed = pos 28

abbrev pub error_enqueue_failed : ℤ
error_enqueue_failed = pos 18

abbrev pub error_dequeue_failed : ℤ
error_dequeue_failed = pos 19

abbrev pub error_playlist_not_found : ℤ
error_playlist_not_found = pos 20

abbrev pub error_rename_failed : ℤ
error_rename_failed = pos 29

abbrev pub success : Json
success = object (Rpc.field (bytes "success") (boolean true) no_fields)

-- The two `throw`s after the call, and the result.
unfoldable pub check_result : (missing failed : Rpc Json) → Json → ℤ → Rpc Json
check_result missing failed done hr =
    if hr == e_invalidarg then missing else if succeeded hr then ok done else failed

module _ {S P I : Type 0} (aimp : Aimp S P I) where
  -- The call on the main thread: what it returns, and the state that it leaves.
  unfoldable pub on_item : (P × I → S → ℤ × S) → Option (P × I) → S → ℤ × S
  on_item act none s = (e_invalidarg, s)
  on_item act (some found) s = act found s

  abbrev pub finish : (ℤ → Rpc Json) → ℤ × S → Rpc Json × S
  finish check (hr, s) = (check hr, s)

  -- The callback of Delete3, with the index that is its data.
  unfoldable pub delete_only_index : ℤ → I → S → Bool
  delete_only_index index item s = aimp.index_of item s == index

  unfoldable pub delete_track : (physically : Bool) → P × I → S → ℤ × S
  unfolding delete_only_index
  delete_track physically (owner, item) s =
      if physically
      then aimp.delete_physically owner (delete_only_index (aimp.index_of item s)) s
      else aimp.delete_item owner item s

  abbrev pub remove_checked : Bytes → Bytes → ℤ → Rpc Json
  remove_checked missing failed hr =
      check_result (rpc_error error_track_not_found missing) (rpc_error error_remove_failed failed)
        success hr

  -- Once the parameters are read.
  unfoldable pub remove_track_of : IdManager → (allowed : Bool) → ℤ → Rpc Bool → S → Rpc Json × S
  unfolding on_item delete_track find_playlist_item
  remove_track_of ids allowed track_id (ok physically) s =
      if physically && not allowed
      then (
        rpc_error error_remove_failed (
            bytes
              "Removing track failed. Reason: physical deletion is disabled in the plugin settings."),
        s,
      )
      else finish
          (remove_checked (bytes "Removing track failed. Reason: track not found.")
            (bytes "Removing track failed."))
          (on_item (delete_track physically) (find_playlist_item aimp ids track_id s) s)
  remove_track_of ids allowed track_id (rpc_error c m) s = (rpc_error c m, s)
  remove_track_of ids allowed track_id type_error s = (type_error, s)

  unfoldable pub remove_track : IdManager → (physical_deletion : Bool) → Json → S → Rpc Json × S
  unfolding remove_track_of require_integer boolean_or
  remove_track ids physical_deletion params s = elim (integer_field (bytes "track_id") params) [
    | none ↦ (rpc_error invalid_params (bytes "track_id is required"), s)
    | some track_id ↦
        remove_track_of ids physical_deletion track_id
          (boolean_or (bytes "physically") false params) s
  ]

  unfoldable pub enqueue_track_of : IdManager → ℤ → Rpc Bool → S → Rpc Json × S
  unfolding on_item find_playlist_item
  enqueue_track_of ids track_id (ok at_beginning) s =
      finish
        (check_result
          (rpc_error error_track_not_found (bytes "Enqueue track failed. Reason: track not found."))
          (rpc_error error_enqueue_failed (bytes "Enqueue track failed.")) null)
        (on_item (λ found. aimp.queue_add found.1 at_beginning)
          (find_playlist_item aimp ids track_id s) s)
  enqueue_track_of ids track_id (rpc_error c m) s = (rpc_error c m, s)
  enqueue_track_of ids track_id type_error s = (type_error, s)

  unfoldable pub enqueue_track : IdManager → Json → S → Rpc Json × S
  unfolding enqueue_track_of boolean_or
  enqueue_track ids params s = elim (integer_field (bytes "track_id") params) [
    | none ↦ (rpc_error invalid_params (bytes "track_id is required"), s)
    | some track_id ↦
        enqueue_track_of ids track_id (boolean_or (bytes "insert_at_queue_beginning") false params)
          s
  ]

  unfoldable pub remove_track_from_play_queue : IdManager → Json → S → Rpc Json × S
  unfolding on_item find_playlist_item
  remove_track_from_play_queue ids params s = elim (integer_field (bytes "track_id") params) [
    | none ↦ (rpc_error invalid_params (bytes "track_id is required"), s)
    | some track_id ↦
        finish
          (check_result
            (rpc_error error_track_not_found
              (bytes "Removing track from queue failed. Reason: track not found."))
            (rpc_error error_dequeue_failed (bytes "Removing track from queue failed.")) null)
          (on_item (λ found. aimp.queue_delete found.1) (find_playlist_item aimp ids track_id s) s)
  ]

  abbrev pub rename_found : Bytes → Option P → S → ℤ × S
  rename_found name none s = (e_invalidarg, s)
  rename_found name (some playlist) s = aimp.rename playlist name s

  unfoldable pub rename_to : IdManager → ℤ → Option Json → S → Rpc Json × S
  unfolding find_playlist
  rename_to ids playlist_id (some (text name)) s =
      finish
        (check_result
          (rpc_error error_playlist_not_found
            (bytes "Renaming playlist failed. Reason: playlist not found."))
          (rpc_error error_rename_failed (bytes "Renaming playlist failed.")) success)
        (rename_found name (find_playlist aimp ids playlist_id s) s)
  rename_to ids playlist_id _ s = (rpc_error invalid_params (bytes "new_name is required"), s)

  unfoldable pub playlist_rename : IdManager → Json → S → Rpc Json × S
  unfolding rename_to
  playlist_rename ids params s = elim (integer_field (bytes "playlist_id") params) [
    | none ↦ (rpc_error invalid_params (bytes "playlist_id is required"), s)
    | some playlist_id ↦ rename_to ids playlist_id (lookup (bytes "new_name") params) s
  ]
