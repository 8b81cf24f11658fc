-- ===== src/Listing.antt =====
-- getPlaylistsCommand.cpp, getPlaylistEntriesCommand.cpp, getQueuedEntriesCommand.cpp and
-- getPlaylistEntryInfoCommand.cpp: what AIMP holds, as JSON with the plugin's ids.
-- The order of an object's fields is not observed.
pub mod Methods
pub mod Laws
pub mod Entries
pub mod Kept
mod Tests
use aimpremote_control.Prelude.{
  ℕ, zero, suc, Bool, true, false, not, Option, none, some, List, [], ◌∷◌, map, if◌then◌else◌, ◌==◌,
  contains, length, is_empty,
}
use aimpremote_control.Prelude.Text.{Bytes, bytes, bytes_eq}
use aimpremote_control.Prelude.Int.{ℤ, pos, negsuc, int_eq, ◌+ℤ◌}
use aimpremote_control.Hash.Crc32.{crc32_update}
use aimpremote_control.Rpc.{
  Json, boolean, integer, text, array, object, Items, no_items, item, Fields, no_fields, find_field,
  Rpc, ok, rpc_error, type_error, text_or, integer_field, invalid_params, append_field,
}
use aimpremote_control.Rpc
use aimpremote_control.Entries.{EntryContext, playlist_entry_field, playlist_entry_matches}
use aimpremote_control.IdManager.{
  IdManager, PlaylistItemKey, Assigned, assigned, undefined, starved,
  playlist_get_or_generate_plugin_id, playlist_item_get_or_generate_plugin_id,
}
use aimpremote_control.Aimp.{Aimp, find_playlist, find_playlist_item}
use aimpremote_control.Commands.Tracks.{error_track_not_found}

-- A result with the manager that its ids come from, or the overflow of a search for an id.
pub data Given (A : Type 0) : Type 0 where
  given : A → IdManager → Given A
  undefined_id : Given A
  starved_id : Given A

module _ {A : Type 0} where
  abbrev pub with_id : Assigned → (ℕ → IdManager → Given A) → Given A
  with_id (assigned id m) f = f id m
  with_id undefined f = undefined_id
  with_id starved f = starved_id

  abbrev pub and_then : {B : Type 0} → Given A → (A → IdManager → Given B) → Given B
  and_then (given a m) f = f a m
  and_then undefined_id f = undefined_id
  and_then starved_id f = starved_id

-- What the services for playlists and the queue tell. The list has an entry for each number below the
-- count of loaded playlists, `none` where the playlist cannot be had. A text that cannot be had is
-- empty. `facts` has what the constructor of a context asks of an item; its ids are set by the caller.
-- `finder` makes AIMP's text to search for, if it can.
pub record Library (S P I : Type 0) : Type 0 where
  pub has_manager : S → Bool
  pub loaded : S → List (Option P)
  pub has_properties : P → S → Bool
  pub id_of : P → S → Bytes
  pub title_of : P → S → Bytes
  pub read_only : P → S → ℤ
  pub files_of : P → S → Option (List (Option Bytes))
  pub playlist_of : I → S → Option P
  pub has_queue : S → Bool
  pub queue_count : S → ℤ
  pub queue_item : ℕ → S → Option I
  pub facts : I → S → EntryContext
  pub finder : Bytes → Option (Bytes → Bool)
  pub stem : Bytes → Bytes

-- `params.value("fields", std::vector<std::string>{})`
unfoldable pub texts_of : Items → Rpc (List Bytes)
texts_of no_items = ok []
texts_of (item (text t) rest) = elim (texts_of rest) [
  | ok ts ↦ ok (t ∷ ts)
  | rpc_error c m ↦ rpc_error c m
  | type_error ↦ type_error
]
texts_of (item _ rest) = type_error

unfoldable pub fields_or_none : Json → Rpc (List Bytes)
unfolding texts_of find_field
fields_or_none (object fs) = elim (find_field (bytes "fields") fs) [
  | none ↦ ok []
  | some (array ts) ↦ texts_of ts
  | some _ ↦ type_error
]
fields_or_none _ = type_error

-- The rounds of a loop from 0 up to a count.
abbrev pub rounds : ℤ → ℕ
rounds (pos n) = n
rounds (negsuc n) = 0

unfoldable pub items_of : List Json → Items
items_of [] = no_items
items_of (v ∷ vs) = item v (items_of vs)

abbrev pub Row : Type 0
Row = List Json

unfoldable pub rows_json : List Row → Json
unfolding items_of
rows_json rows = array (items_of (map (λ row. array (items_of row)) rows))

-- `ComputePlaylistCrc32`, over the names of the files.
unfoldable pub crc_of_names : ℕ → List (Option Bytes) → ℕ
unfolding crc32_update
crc_of_names crc [] = crc
crc_of_names crc (none ∷ names) = crc_of_names crc names
crc_of_names crc (some name ∷ names) =
    crc_of_names (if is_empty name then crc else crc32_update crc name) names

unfoldable pub compute_playlist_crc32 : Option (List (Option Bytes)) → ℕ
unfolding crc_of_names
compute_playlist_crc32 none = 0
compute_playlist_crc32 (some names) = crc_of_names 0 names

module _ {S P I : Type 0} (aimp : Aimp S P I) (library : Library S P I) where
  abbrev pub context : I → S → (entry_id playlist_id queue_index : ℤ) → EntryContext
  context it s entry_id playlist_id queue_index = record (library.facts it s) {
    entry_id = entry_id;
    playlist_id = playlist_id;
    queue_index = queue_index;
  }

  unfoldable pub row_of : List Bytes → EntryContext → Row
  unfolding playlist_entry_field
  row_of fields ctx = map (λ field. playlist_entry_field library.stem field ctx) fields

  -- No text to search for, or one that the entry has.
  unfoldable pub is_wanted : Option (Bytes → Bool) → EntryContext → Bool
  unfolding playlist_entry_matches
  is_wanted none ctx = true
  is_wanted (some found) ctx = playlist_entry_matches found ctx

  abbrev pub add_row : Bool → Row → Given (List Row) → Given (List Row)
  add_row b row (given rows m) = given (if b then row ∷ rows else rows) m
  add_row b row undefined_id = undefined_id
  add_row b row starved_id = starved_id

  module _ (s : S) (fields : List Bytes) where
    -- The loop of CollectEntries, with `n` rounds left, at the index `i`.
    unfoldable pub collect_from :
        (playlist : P)
        → Option (Bytes → Bool)
        → (playlist_id : ℕ) → (n i : ℕ) → IdManager
        → Given (List Row)
    unfolding row_of is_wanted playlist_item_get_or_generate_plugin_id
    collect_from playlist search playlist_id zero i m = given [] m
    collect_from playlist search playlist_id (suc n) i m = elim (aimp.get_item playlist (pos i) s) [
      | none ↦ collect_from playlist search playlist_id n (suc i) m
      | some it ↦
          with_id
            (playlist_item_get_or_generate_plugin_id
              (record { aimp_playlist_id = library.id_of playlist s; index = pos i }) m)
            λ id m'.
              let ctx = context it s (pos id) (pos playlist_id) (negsuc 0) in
              add_row (is_wanted search ctx) (row_of fields ctx)
                (collect_from playlist search playlist_id n (suc i) m')
    ]

    unfoldable pub collect_entries :
        (playlist : P) → Option (Bytes → Bool) → IdManager → Given (List Row)
    unfolding collect_from playlist_get_or_generate_plugin_id
    collect_entries playlist search m =
        with_id (playlist_get_or_generate_plugin_id (library.id_of playlist s) m) λ playlist_id.
          collect_from playlist search playlist_id (rounds (aimp.item_count playlist s)) 0
