-- ===== src/Commands/MissingTests.antt =====
-- The methods of a player without playlists.
use aimpremote_control.Prelude.{ℕ, ◌≡◌, suc, refl, true, false, none, [], ◌∷◌}
use aimpremote_control.Prelude.Text.{Bytes, bytes}
use aimpremote_control.Prelude.Int.{ℤ, pos}
use aimpremote_control.Rpc.{
  Json, integer, text, array, boolean, real, object, no_fields, no_items, item, find_field, lookup,
  boolean_or, to_int32, integer_field,
}
use aimpremote_control.Rpc
use aimpremote_control.IdManager.{playlist_get_key, playlist_item_get_key}
use aimpremote_control.IdManager.RoundTrip.{empty}
use aimpremote_control.Aimp.{
  Aimp, find_playlist, find_playlist_item, loaded_playlist_by_aimp_id, item_of,
}
use aimpremote_control.Commands.Ratings.{Marks, set_track_rating}
use aimpremote_control.Commands.Tracks.{
  error_remove_failed, remove_track, enqueue_track, remove_track_from_play_queue, playlist_rename,
}
use aimpremote_control.Commands.Playlists.{
  Edits, playlist_remove, add_files, add_url_to_playlist, set_track_enabled,
}
use aimpremote_control.Commands.Missing.{
  Refuses, playlist_codes, track_codes, unknown_playlist-Refuses, unknown_track-Refuses,
}

-- The state counts the calls.
abbrev bare : Aimp ℕ ℕ ℕ
bare = record {
  loaded_playlist_by_id = λ id s. none;
  item_count = λ p s. pos 0;
  get_item = λ p i s. none;
  index_of = λ i s. pos 0;
  delete_item = λ p i s. (pos 0, suc s);
  delete_physically = λ p chosen s. (pos 0, suc s);
  queue_add = λ i b s. (pos 0, suc s);
  queue_delete = λ i s. (pos 0, suc s);
  rename = λ p n s. (pos 0, suc s);
  add_list = λ p uris s. (pos 0, suc s);
  audio_formats = λ s. [];
}

abbrev edits : Edits ℕ ℕ ℕ
edits = record {
  close = λ p s. (pos 0, suc s);
  set_playing_switch = λ i v s. suc s;
  create_playlist = λ name s. ([], suc s);
  show_notification = λ message s. (true, suc s);
  version_text = λ s. [];
}

abbrev marks : Marks ℕ ℕ
marks = record { set_mark = λ i r s. suc s; get_mark = λ i s. (pos 0, 0) }

no_playlist : (key : Bytes) → loaded_playlist_by_aimp_id bare key 0 ≡ none
unfolding loaded_playlist_by_aimp_id
no_playlist [] = refl
no_playlist (b ∷ bs) = refl

finds_none : (id : ℤ) → find_playlist bare empty id 0 ≡ none
unfolding find_playlist
finds_none id = no_playlist (playlist_get_key id empty)

finds_no_item : (id : ℤ) → find_playlist_item bare empty id 0 ≡ none
unfolding find_playlist_item item_of
finds_no_item id = rw (no_playlist (playlist_item_get_key id empty).aimp_playlist_id) refl

-- Only the id: PlaylistRemove needs no more, and the others miss a parameter.
abbrev for_playlist : Json
for_playlist = object (Rpc.field (bytes "playlist_id") (integer (pos 4)) no_fields)

unknown_playlist-Refuses_example :
    Refuses playlist_codes 0 (playlist_remove bare edits empty for_playlist 0)
    × Refuses playlist_codes 0 (playlist_rename bare empty for_playlist 0)
    × Refuses playlist_codes 0 (add_files bare edits empty for_playlist 0)
    × Refuses playlist_codes 0 (add_url_to_playlist bare edits empty for_playlist 0)
unknown_playlist-Refuses_example =
    unknown_playlist-Refuses bare edits empty for_playlist 0 (λ id asked. finds_none id)

abbrev for_track : Json
for_track = object (
    Rpc.field (bytes "track_id") (integer (pos 4)) (
      Rpc.field (bytes "physically") (boolean true)
        (Rpc.field (bytes "enabled") (boolean false) no_fields)))

unknown_track-Refuses_example :
    Refuses (error_remove_failed ∷ track_codes) 0 (remove_track bare empty true for_track 0)
    × Refuses track_codes 0 (enqueue_track bare empty for_track 0)
    × Refuses track_codes 0 (remove_track_from_play_queue bare empty for_track 0)
    × Refuses track_codes 0 (set_track_enabled bare edits empty for_track 0)
    × Refuses track_codes 0 (set_track_rating bare marks empty for_track 0)
unknown_track-Refuses_example =
    unknown_track-Refuses bare edits empty for_track 0 marks true (λ id asked. finds_no_item id)
