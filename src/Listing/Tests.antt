-- ===== src/Listing/Tests.antt =====
-- The listings of a player with one playlist of two items, the second of which cannot be had.
use aimpremote_control.Prelude.{ℕ, zero, ◌≡◌, refl, true, Option, some, none, List, [], ◌∷◌}
use aimpremote_control.Prelude.Text.{Bytes, bytes, bytes_beq}
use aimpremote_control.Prelude.Int.{ℤ, pos}
use aimpremote_control.Prelude.Dict.{get}
use aimpremote_control.Rpc.{
  Json, integer, text, array, object, no_fields, no_items, find_field, lookup, to_int32, text_or,
  integer_field,
}
use aimpremote_control.Rpc
use aimpremote_control.Entries.{EntryContext}
use aimpremote_control.IdManager.{
  IdManager, PlaylistItemKey, playlist_get_or_generate_plugin_id,
  playlist_item_get_or_generate_plugin_id, seed_id, item_seed, key_eq,
}
use aimpremote_control.IdManager.RoundTrip.{
  empty, empty-IsValid, history-Valid, after_history, publish_playlist, publish_item,
}
use aimpremote_control.IdManager.Invariant.{IsValid}
use aimpremote_control.Aimp.{Aimp, find_playlist_item, loaded_playlist_by_aimp_id}
use aimpremote_control.Listing.{
  Library, given, collect_entries, rows_json, items_of, fields_or_none,
}
use aimpremote_control.Listing.Methods.{
  get_playlists, get_playlist_entries, get_queued_entries, get_playlist_entry_info, queued_for,
  queue_from,
}
use aimpremote_control.Listing.Laws.{AfterGiven}
use aimpremote_control.Listing.Entries.{RowsOf, collect_entries-RowsOf, find_playlist_item-listed}
use aimpremote_control.Listing.Kept.{Keeps, listings-Keeps}

abbrev first : ℤ → Option ℕ
first (pos zero) = some 0
first _ = none

-- The state is no more than the number of the items.
abbrev player : Aimp ℕ Bytes ℕ
player = record {
  loaded_playlist_by_id = λ id s. some id;
  item_count = λ p s. pos s;
  get_item = λ p i s. first i;
  index_of = λ i s. pos i;
  delete_item = λ p i s. (pos 0, s);
  delete_physically = λ p chosen s. (pos 0, s);
  queue_add = λ i b s. (pos 0, s);
  queue_delete = λ i s. (pos 0, s);
  rename = λ p n s. (pos 0, s);
  add_list = λ p uris s. (pos 0, s);
  audio_formats = λ s. [];
}

abbrev untold : EntryContext
untold = record {
  entry_id = pos 0;
  playlist_id = pos 0;
  queue_index = pos 0;
  file_info = none;
  file_uri = none;
  file_name = some (bytes "song");
  parent_dir_name = none;
  mark = none;
  playing_switch = none;
}

abbrev library : Library ℕ Bytes ℕ
library = record {
  has_manager = λ s. true;
  loaded = λ s. some (bytes "A") ∷ [];
  has_properties = λ p s. true;
  id_of = λ p s. p;
  title_of = λ p s. p;
  read_only = λ p s. pos 0;
  files_of = λ p s. none;
  playlist_of = λ i s. some (bytes "A");
  has_queue = λ s. true;
  queue_count = λ s. pos s;
  queue_item = λ i s. none;
  facts = λ i s. untold;
  finder = λ t. none;
  stem = λ t. t;
}

abbrev asked : List Bytes
asked = bytes "title" ∷ bytes "id" ∷ []

collect_entries-RowsOf_example :
    AfterGiven
      (RowsOf player library 2 asked (bytes "A") none empty)
      (collect_entries player library 2 asked (bytes "A") none empty)
collect_entries-RowsOf_example =
    collect_entries-RowsOf player library 2 asked (bytes "A") none empty empty-IsValid

abbrev no_params : Json
no_params = object no_fields

listings-Keeps_example :
    AfterGiven (Keeps empty) (get_playlists player library 2 no_params empty)
    × AfterGiven (Keeps empty) (get_playlist_entries player library 2 no_params empty)
    × AfterGiven (Keeps empty) (get_queued_entries player library 2 no_params empty)
    × AfterGiven (Keeps empty) (get_playlist_entry_info player library 2 no_params empty)
listings-Keeps_example = listings-Keeps player library 2 no_params empty empty-IsValid

-- The count of the queue is the queue's, even where none of its items can be had.
queue_count_of_no_rows :
    get_queued_entries player library 2 no_params empty
    ≡ given
        (Rpc.ok (
          object (
            Rpc.field
              (bytes "count_of_found_entries")
              (integer (pos 2))
              (Rpc.field (bytes "entries") (array no_items) no_fields))))
        empty
unfolding get_queued_entries queued_for fields_or_none find_field queue_from rows_json items_of
queue_count_of_no_rows = refl

abbrev first_track : PlaylistItemKey
first_track = record { aimp_playlist_id = bytes "A"; index = pos 0 }

-- The manager after the playlist and its first item were listed.
abbrev published : IdManager
published = record {
  playlist_by_aimp_id = (bytes "A", 1406770827) ∷ [];
  playlist_by_plugin_id = (1406770827, bytes "A") ∷ [];
  item_by_aimp_key = (first_track, 225038384) ∷ [];
  item_by_plugin_id = (225038384, first_track) ∷ [];
  items_by_playlist = (bytes "A", 225038384 ∷ []) ∷ [];
}

published-IsValid : IsValid published
unfolding after_history playlist_get_or_generate_plugin_id playlist_item_get_or_generate_plugin_id
    seed_id item_seed bytes_beq
published-IsValid = history-Valid (publish_playlist (bytes "A") ∷ publish_item first_track ∷ [])

find_playlist_item-listed_example :
    find_playlist_item player published (pos 225038384) 2 ≡ some (bytes "A", 0)
unfolding loaded_playlist_by_aimp_id bytes_beq get
find_playlist_item-listed_example =
    find_playlist_item-listed player published 2 (bytes "A") 0 225038384 (bytes "A") 0
      published-IsValid refl refl refl refl
