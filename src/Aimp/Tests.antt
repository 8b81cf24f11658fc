-- ===== src/Aimp/Tests.antt =====
-- The lookups, the focus and the removal of a track, over a player with one playlist of two items.
use aimpremote_control.Prelude.{
  ◌+◌, ◌^◌, ◌≡◌, refl, arith, true, none, some, List, [], ◌∷◌, ltb, if◌then◌else◌,
}
use aimpremote_control.Prelude.Text.{Bytes, bytes}
use aimpremote_control.Prelude.Int.{ℤ, pos, negsuc}
use aimpremote_control.Rpc.{Json, boolean, integer, object, no_fields}
use aimpremote_control.Rpc
use aimpremote_control.IdManager.{
  IdManager, PlaylistItemKey, playlist_item_get_or_generate_plugin_id,
}
use aimpremote_control.IdManager.Invariant.{After}
use aimpremote_control.IdManager.RoundTrip.{empty, empty-IsValid}
use aimpremote_control.Aimp.{
  Aimp, focus_target, plus, remainder, supported_audio_extensions, extensions_of, without_star,
}
use aimpremote_control.Settings.Lists.{AreItems}
use aimpremote_control.Aimp.Extensions.{supported_audio_extensions-AreItems}
use aimpremote_control.Aimp.Focus.{focus_target_lem}
use aimpremote_control.Aimp.Lookup.{LeadsTo, find_playlist_item-published}
use aimpremote_control.Commands.Tracks.{remove_track}
use aimpremote_control.Commands.TrackLaws.{Deletes, remove_track-Deletes}
use aimpremote_control.Prelude.Split.{split_first}

-- The state is the indices that are left; a playlist has no more to it here.
abbrev two_tracks : Aimp (List ℤ) Bytes ℤ
two_tracks = record {
  loaded_playlist_by_id = λ id s. some id;
  item_count = λ p s. pos 2;
  get_item = λ p i s. some i;
  index_of = λ i s. i;
  delete_item = λ p i s. (pos 0, i ∷ s);
  delete_physically = λ p chosen s. (pos 0, if chosen (pos 1) s then pos 1 ∷ s else s);
  queue_add = λ i b s. (pos 0, s);
  queue_delete = λ i s. (pos 0, s);
  rename = λ p n s. (pos 0, s);
  add_list = λ p uris s. (pos 0, s);
  audio_formats = λ s. bytes "*.mp3;*.FLAC;";
}

abbrev track : PlaylistItemKey
track = record { aimp_playlist_id = bytes "A"; index = pos 1 }

find_playlist_item-published_run :
    After (LeadsTo two_tracks track []) (playlist_item_get_or_generate_plugin_id track empty)
find_playlist_item-published_run =
    find_playlist_item-published two_tracks track empty [] empty-IsValid

abbrev request : Json
request = object (
    Rpc.field (bytes "track_id") (integer (pos 7))
      (Rpc.field (bytes "physically") (boolean true) no_fields))

-- A manager that has handed out 7 for the track.
abbrev with_seven : IdManager
with_seven = record empty { item_by_plugin_id = (7, track) ∷ [] }

remove_track-Deletes_example :
    Deletes two_tracks with_seven true [] request
      (remove_track two_tracks with_seven true request []).1
remove_track-Deletes_example = remove_track-Deletes two_tracks with_seven true [] request

focus_target_lem_run :
    focus_target (pos (2 + 1)) 3 ≡ some (pos (if ltb (2 + 1) 3 then 2 + 1 else 0))
focus_target_lem_run = focus_target_lem 2 3 (omega arith) (omega arith)

-- Back from the first item, and past the largest index.
wraps_back : focus_target (negsuc 0) 3 ≡ some (pos 2)
unfolding focus_target plus remainder
wraps_back = refl

overflows : focus_target (pos (2 ^ 31)) 3 ≡ none
unfolding focus_target plus remainder
overflows = refl

extensions : supported_audio_extensions (bytes "*.mp3;*.FLAC;") ≡ (bytes "mp3" ∷ bytes "flac" ∷ [])
unfolding supported_audio_extensions extensions_of split_first without_star
extensions = refl

supported_audio_extensions-AreItems_run :
    AreItems b';' (supported_audio_extensions (bytes "*.mp3;;*.FLAC"))
supported_audio_extensions-AreItems_run =
    supported_audio_extensions-AreItems (bytes "*.mp3;;*.FLAC")
