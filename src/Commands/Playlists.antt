-- ===== src/Commands/Playlists.antt =====
-- playlistRemoveCommand.cpp, createPlaylistCommand.cpp, addFilesCommand.cpp, addUrlToPlaylistCommand.cpp,
-- setTrackEnabledCommand.cpp, showMessageCommand.cpp, versionCommand.cpp, pluginCapabilitiesCommand.cpp
-- and getFormatsCommand.cpp.
use aimpremote_control.Prelude.{
  Bool, true, Option, none, some, List, [], ◌∷◌, if◌then◌else◌, is_empty,
}
use aimpremote_control.Prelude.Text.{Bytes, bytes}
use aimpremote_control.Prelude.Int.{ℤ, pos}
use aimpremote_control.Rpc.{
  Json, null, boolean, integer, text, array, object, no_fields, lookup, texts, text_or,
  integer_field, Rpc, ok, rpc_error, type_error, invalid_params,
}
use aimpremote_control.Rpc
use aimpremote_control.Settings.{FeatureSettings}
use aimpremote_control.IdManager.{IdManager, playlist_get_or_generate_plugin_id}
use aimpremote_control.Aimp.{
  Aimp, find_playlist, find_playlist_item, add_files_to_playlist, supported_audio_extensions,
  e_invalidarg,
}
use aimpremote_control.Listing.{Given, given, with_id, texts_of}
use aimpremote_control.Commands.Tracks.{
  error_playlist_not_found, error_track_not_found, success, check_result, finish,
}

abbrev pub error_playlist_remove_failed : ℤ
error_playlist_remove_failed = pos 31

abbrev pub error_playlist_creation_failed : ℤ
error_playlist_creation_failed = pos 30

abbrev pub error_add_failed : ℤ
error_add_failed = pos 27

-- What else AIMP does. `create_playlist` gives the id of the playlist that it makes, the empty text if it
-- makes none; a name that is `none` is AIMP's to choose. `show_notification` tells whether it was shown.
pub record Edits (S P I : Type 0) : Type 0 where
  pub close : P → S → ℤ × S
  pub set_playing_switch : I → ℤ → S → S
  pub create_playlist : Option Bytes → S → Bytes × S
  pub show_notification : Bytes → S → Bool × S
  pub version_text : S → Bytes

-- The object of one truth value.
abbrev pub success_of : Bool → Json
success_of b = object (Rpc.field (bytes "success") (boolean b) no_fields)

module _ {S P I : Type 0} (aimp : Aimp S P I) (edits : Edits S P I) where
  abbrev pub close_found : Option P → S → ℤ × S
  close_found none s = (e_invalidarg, s)
  close_found (some playlist) s = edits.close playlist s

  unfoldable pub playlist_remove : IdManager → Json → S → Rpc Json × S
  unfolding find_playlist integer_field
  playlist_remove ids params s = elim (integer_field (bytes "playlist_id") params) [
    | none ↦ (rpc_error invalid_params (bytes "playlist_id is required"), s)
    | some playlist_id ↦
        finish aimp
          (check_result
            (rpc_error error_playlist_not_found
              (bytes "Removing playlist failed. Reason: playlist not found."))
            (rpc_error error_playlist_remove_failed (bytes "Removing playlist failed.")) success)
          (close_found (find_playlist aimp ids playlist_id s) s)
  ]

  unfoldable pub add_files_for : IdManager → ℤ → Rpc (List Bytes) → S → Rpc Json × S
  unfolding add_files_to_playlist
  add_files_for ids playlist_id (ok files) s =
      finish aimp
        (check_result
          (rpc_error error_playlist_not_found
            (bytes "Adding files failed. Reason: playlist not found."))
          (rpc_error error_add_failed (bytes "Adding files failed.")) success)
        (add_files_to_playlist aimp ids playlist_id files s)
  add_files_for ids playlist_id (rpc_error c e) s = (rpc_error c e, s)
  add_files_for ids playlist_id type_error s = (type_error, s)

  unfoldable pub add_files_of : IdManager → ℤ → Option Json → S → Rpc Json × S
  unfolding add_files_for texts_of
  add_files_of ids playlist_id (some (array files)) s =
      add_files_for ids playlist_id (texts_of files) s
  add_files_of ids playlist_id _ s = (rpc_error invalid_params (bytes "files is required"), s)

  unfoldable pub add_files : IdManager → Json → S → Rpc Json × S
  unfolding add_files_of integer_field lookup
  add_files ids params s = elim (integer_field (bytes "playlist_id") params) [
    | none ↦ (rpc_error invalid_params (bytes "playlist_id is required"), s)
    | some playlist_id ↦ add_files_of ids playlist_id (lookup (bytes "files") params) s
  ]

  unfoldable pub add_url_of : IdManager → ℤ → Option Json → S → Rpc Json × S
  unfolding add_files_to_playlist
  add_url_of ids playlist_id (some (text url)) s =
      finish aimp
        (check_result
          (rpc_error error_playlist_not_found
            (bytes "Adding URL failed. Reason: playlist not found."))
          (rpc_error error_add_failed (bytes "Adding URL failed.")) null)
        (add_files_to_playlist aimp ids playlist_id (url ∷ []) s)
  add_url_of ids playlist_id _ s = (rpc_error invalid_params (bytes "url is required"), s)

  unfoldable pub add_url_to_playlist : IdManager → Json → S → Rpc Json × S
  unfolding add_url_of integer_field lookup
  add_url_to_playlist ids params s = elim (integer_field (bytes "playlist_id") params) [
    | none ↦ (rpc_error invalid_params (bytes "playlist_id is required"), s)
    | some playlist_id ↦ add_url_of ids playlist_id (lookup (bytes "url") params) s
  ]

  unfoldable pub enable_found : Bool → Option (P × I) → S → Rpc Json × S
  enable_found enabled none s = (
    rpc_error error_track_not_found (bytes "Setting track state failed. Reason: track not found."),
    s,
  )
  enable_found enabled (some (owner, it)) s =
      (ok success, edits.set_playing_switch it (if enabled then pos 1 else pos 0) s)

  unfoldable pub enable_of : IdManager → ℤ → Option Json → S → Rpc Json × S
  unfolding enable_found find_playlist_item
  enable_of ids track_id (some (boolean enabled)) s =
      enable_found enabled (find_playlist_item aimp ids track_id s) s
  enable_of ids track_id _ s = (rpc_error invalid_params (bytes "enabled is required"), s)

  unfoldable pub set_track_enabled : IdManager → Json → S → Rpc Json × S
  unfolding enable_of integer_field lookup
  set_track_enabled ids params s = elim (integer_field (bytes "track_id") params) [
    | none ↦ (rpc_error invalid_params (bytes "track_id is required"), s)
    | some track_id ↦ enable_of ids track_id (lookup (bytes "enabled") params) s
  ]

  abbrev pub name_of : Bytes → Option Bytes
  name_of title = if is_empty title then none else some title

  unfoldable pub created : IdManager → Bytes × S → Given (Rpc Json) × S
  unfolding playlist_get_or_generate_plugin_id
  created ids (aimp_id, s) =
      if is_empty aimp_id
      then (
        given (rpc_error error_playlist_creation_failed (bytes "Playlist creation failed.")) ids,
        s,
      )
      else (
        with_id (playlist_get_or_generate_plugin_id aimp_id ids) (λ id ids'.
            given (ok (object (Rpc.field (bytes "playlist_id") (integer (pos id)) no_fields)))
              ids'),
        s,
      )

  unfoldable pub create_playlist_of : IdManager → Rpc Bytes → S → Given (Rpc Json) × S
  unfolding created
  create_playlist_of ids (ok title) s = created ids (edits.create_playlist (name_of title) s)
  create_playlist_of ids (rpc_error c e) s = (given (rpc_error c e) ids, s)
  create_playlist_of ids type_error s = (given type_error ids, s)

  unfoldable pub create_playlist : IdManager → Json → S → Given (Rpc Json) × S
  unfolding create_playlist_of text_or
  create_playlist ids params s = create_playlist_of ids (text_or (bytes "title") [] params) s

  abbrev pub shown : Bool × S → Rpc Json × S
  shown (b, s) = (ok (success_of b), s)

  unfoldable pub show_message_of : Rpc Bytes → S → Rpc Json × S
  show_message_of (ok message) s = shown (edits.show_notification message s)
  show_message_of (rpc_error c e) s = (rpc_error c e, s)
  show_message_of type_error s = (type_error, s)

  unfoldable pub show_message : Json → S → Rpc Json × S
  unfolding show_message_of text_or
  show_message params s = show_message_of (text_or (bytes "message") [] params) s

  unfoldable pub version_info : (plugin_version : Bytes) → S → Json
  version_info plugin_version s = object (
      Rpc.field (bytes "aimp_version") (text (edits.version_text s))
        (Rpc.field (bytes "plugin_version") (text plugin_version) no_fields))

  unfoldable pub get_formats : S → Json
  unfolding supported_audio_extensions texts
  get_formats s = object (
      Rpc.field (bytes "formats")
        (array (texts (supported_audio_extensions (aimp.audio_formats s)))) no_fields)

-- PluginCapabilities
unfoldable pub plugin_capabilities : FeatureSettings → Json
plugin_capabilities f = object (
    Rpc.field (bytes "physical_track_deletion") (boolean f.physical_deletion) (
      Rpc.field (bytes "upload_track") (boolean f.upload_tracks) (
        Rpc.field (bytes "scheduler")
          (object (
            Rpc.field (bytes "supported") (boolean true)
              (Rpc.field (bytes "allowed") (boolean f.scheduler) no_fields)))
          no_fields)))
