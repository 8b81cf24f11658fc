-- ===== src/Listing/Methods.antt =====
-- The methods that list playlists, entries and the queue.
use aimpremote_control.Prelude.{
  ℕ, zero, suc, Bool, not, Option, none, some, List, [], ◌∷◌, ◌++◌, if◌then◌else◌, ◌==◌, contains,
  length, is_empty,
}
use aimpremote_control.Prelude.Text.{Bytes, bytes, bytes_eq}
use aimpremote_control.Prelude.Int.{ℤ, pos, negsuc, int_eq, ◌+ℤ◌}
use aimpremote_control.Rpc.{
  Json, boolean, integer, text, array, object, Fields, no_fields, Rpc, ok, rpc_error, type_error,
  text_or, integer_field, invalid_params, append_field,
}
use aimpremote_control.Rpc
use aimpremote_control.Entries.{EntryContext, playlist_entry_field}
use aimpremote_control.IdManager.{
  IdManager, playlist_get_or_generate_plugin_id, playlist_item_get_or_generate_plugin_id,
}
use aimpremote_control.Aimp.{Aimp, find_playlist, find_playlist_item}
use aimpremote_control.Commands.Tracks.{error_track_not_found}
use aimpremote_control.Listing.{
  Given, given, with_id, and_then, Library, fields_or_none, rounds, items_of, Row, rows_json,
  compute_playlist_crc32, context, row_of, collect_entries,
}

-- The fields of GetPlaylistEntryInfo.
abbrev pub info_fields : List Bytes
info_fields =
    bytes "album"
    ∷ bytes "artist"
    ∷ bytes "bitrate"
    ∷ bytes "channels_count"
    ∷ bytes "date"
    ∷ bytes "duration"
    ∷ bytes "filesize"
    ∷ bytes "genre"
    ∷ bytes "id"
    ∷ bytes "playlist_id"
    ∷ bytes "rating"
    ∷ bytes "samplerate"
    ∷ bytes "title"
    ∷ []

-- An object with the fields that are asked for.
abbrev pub if_asked : Bytes → List Bytes → Json → Fields → Fields
if_asked name fields value rest = if contains name fields then Rpc.field name value rest else rest

module _ {S P I : Type 0} (aimp : Aimp S P I) (library : Library S P I) (s : S) where
  -- The rows so far, with the count of the entries that were gone through.
  abbrev pub Found : Type 0
  Found = List Row × ℤ

  -- The loop over the loaded playlists.
  unfoldable pub collect_all :
      List Bytes → Option (Bytes → Bool) → List (Option P) → Found → IdManager → Given Found
  unfolding collect_entries
  collect_all fields search [] found m = given found m
  collect_all fields search (none ∷ playlists) found m = collect_all fields search playlists found m
  collect_all fields search (some playlist ∷ playlists) found m =
      and_then (collect_entries aimp library s fields playlist search m) λ rows m'.
        collect_all fields search playlists (found.0 ++ rows, found.1 +ℤ aimp.item_count playlist s)
          m'

  abbrev pub collect_of : List Bytes → Option (Bytes → Bool) → Option P → IdManager → Given Found
  collect_of fields search none m = given ([], pos 0) m
  collect_of fields search (some playlist) m =
      and_then (collect_entries aimp library s fields playlist search m)
        λ rows m'. given (rows, aimp.item_count playlist s) m'

  -- The entries of a playlist, or of all.
  unfoldable pub find_entries :
      List Bytes → Option (Bytes → Bool) → Option ℤ → IdManager → Given Found
  unfolding collect_all collect_entries find_playlist
  find_entries fields search which m =
      if library.has_manager s
      then elim which [
        | some playlist_id ↦ collect_of fields search (find_playlist aimp m playlist_id s) m
        | none ↦ collect_all fields search (library.loaded s) ([], pos 0) m
      ]
      else given ([], pos 0) m

  abbrev pub total_field : Option ℤ → ℤ → Fields
  total_field none total = no_fields
  total_field (some playlist_id) total =
      Rpc.field (bytes "total_entries_count") (integer total) no_fields

  unfoldable pub entries_json : Option ℤ → Found → Json
  unfolding rows_json
  entries_json which (rows, total) = object (
      Rpc.field (bytes "count_of_found_entries") (integer (pos (length rows)))
        (Rpc.field (bytes "entries") (rows_json rows) (total_field which total)))

  abbrev pub search_of : Bytes → Option (Bytes → Bool)
  search_of search = if is_empty search then none else library.finder search

  unfoldable pub entries_for :
      Rpc (List Bytes) → Rpc Bytes → Option ℤ → IdManager → Given (Rpc Json)
  unfolding find_entries entries_json
  entries_for (ok fields) (ok search) which m =
      and_then (find_entries fields (search_of search) which m)
        λ found m'. given (ok (entries_json which found)) m'
  entries_for (ok fields) (rpc_error c e) which m = given (rpc_error c e) m
  entries_for (ok fields) type_error which m = given type_error m
  entries_for (rpc_error c e) search which m = given (rpc_error c e) m
  entries_for type_error search which m = given type_error m

  unfoldable pub get_playlist_entries : Json → IdManager → Given (Rpc Json)
  unfolding entries_for fields_or_none text_or integer_field
  get_playlist_entries params m =
      entries_for (fields_or_none params) (text_or (bytes "search_string") [] params)
        (integer_field (bytes "playlist_id") params) m

  abbrev pub id_of_owner : Option P → Bytes
  id_of_owner none = []
  id_of_owner (some playlist) = library.id_of playlist s

  abbrev pub push_row : Row → List Row → IdManager → Given (List Row)
  push_row row rows m = given (row ∷ rows) m

  -- The loop over the queue, with `n` rounds left, at the index `i`. C++ leaves open which of the two
  -- ids is handed out first; they are in different maps.
  unfoldable pub queue_from : List Bytes → (n i : ℕ) → IdManager → Given (List Row)
  unfolding row_of playlist_get_or_generate_plugin_id playlist_item_get_or_generate_plugin_id
  queue_from fields zero i m = given [] m
  queue_from fields (suc n) i m = elim (library.queue_item i s) [
    | none ↦ queue_from fields n (suc i) m
    | some it ↦
        let aimp_id = id_of_owner (library.playlist_of it s) in
        with_id
          (playlist_item_get_or_generate_plugin_id
            (record { aimp_playlist_id = aimp_id; index = aimp.index_of it s }) m)
          λ id m1. with_id (playlist_get_or_generate_plugin_id aimp_id m1) λ playlist_id m2.
            and_then (queue_from fields n (suc i) m2) (
              push_row (
                row_of aimp library fields
                  (context aimp library it s (pos id) (pos playlist_id) (pos i))))
  ]

  abbrev pub queue_json : ℤ → List Row → Json
  queue_json count rows = object (
      Rpc.field (bytes "count_of_found_entries") (integer count)
        (Rpc.field (bytes "entries") (rows_json rows) no_fields))

  unfoldable pub queued_for : Rpc (List Bytes) → IdManager → Given (Rpc Json)
  unfolding queue_from rows_json
  queued_for (ok fields) m =
      if library.has_queue s
      then and_then (queue_from fields (rounds (library.queue_count s)) 0 m)
          (λ rows m'. given (ok (queue_json (library.queue_count s) rows)) m')
      else given (ok (queue_json (pos 0) [])) m
  queued_for (rpc_error c e) m = given (rpc_error c e) m
  queued_for type_error m = given type_error m

  unfoldable pub get_queued_entries : Json → IdManager → Given (Rpc Json)
  unfolding queued_for fields_or_none
  get_queued_entries params m = queued_for (fields_or_none params) m

  unfoldable pub info_json : List Bytes → EntryContext → Fields
  unfolding playlist_entry_field
  info_json [] ctx = no_fields
  info_json (field ∷ fields) ctx =
      Rpc.field field (playlist_entry_field library.stem field ctx) (info_json fields ctx)

  unfoldable pub info_of : ℤ → Option (P × I) → IdManager → Given (Rpc Json)
  unfolding info_json playlist_get_or_generate_plugin_id
  info_of track_id none m =
      given
        (rpc_error error_track_not_found
          (bytes "Getting info about track failed. Reason: track not found."))
        m
  info_of track_id (some (owner, it)) m =
      with_id (playlist_get_or_generate_plugin_id (library.id_of owner s) m) λ playlist_id m'.
        given
          (ok (
            object (
              info_json info_fields
                (context aimp library it s track_id (pos playlist_id) (negsuc 0)))))
          m'

  unfoldable pub get_playlist_entry_info : Json → IdManager → Given (Rpc Json)
  unfolding info_of find_playlist_item integer_field
  get_playlist_entry_info params m = elim (integer_field (bytes "track_id") params) [
    | none ↦ given (rpc_error invalid_params (bytes "track_id is required")) m
    | some track_id ↦ info_of track_id (find_playlist_item aimp m track_id s) m
  ]

  -- The fields after `id`.
  unfoldable pub playlist_facts : P → List Bytes → Fields
  unfolding compute_playlist_crc32
  playlist_facts playlist fields =
      if_asked (bytes "title") fields (text (library.title_of playlist s)) (
        if_asked (bytes "readonly") fields (boolean (not (library.read_only playlist s == pos 0))) (
          if_asked (bytes "entries_count") fields (integer (aimp.item_count playlist s)) (
            if_asked (bytes "crc32") fields
              (integer (pos (compute_playlist_crc32 (library.files_of playlist s)))) no_fields)))

  unfoldable pub build_playlist_json : P → List Bytes → IdManager → Given Json
  unfolding playlist_facts playlist_get_or_generate_plugin_id
  build_playlist_json playlist fields m =
      if not (library.has_properties playlist s)
      then given (object no_fields) m
      else if contains (bytes "id") fields
      then with_id (playlist_get_or_generate_plugin_id (library.id_of playlist s) m) (λ id m'.
        given (object (Rpc.field (bytes "id") (integer (pos id)) (playlist_facts playlist fields)))
          m')
      else given (object (playlist_facts playlist fields)) m

  abbrev pub push_json : Json → List Json → IdManager → Given (List Json)
  push_json v vs m = given (v ∷ vs) m

  unfoldable pub build_all : List Bytes → List (Option P) → IdManager → Given (List Json)
  unfolding build_playlist_json
  build_all fields [] m = given [] m
  build_all fields (none ∷ playlists) m = build_all fields playlists m
  build_all fields (some playlist ∷ playlists) m =
      and_then (build_playlist_json playlist fields m)
        λ v m'. and_then (build_all fields playlists m') (push_json v)

  unfoldable pub build_playlists : List Bytes → IdManager → Given (List Json)
  unfolding build_all
  build_playlists fields m =
      if library.has_manager s then build_all fields (library.loaded s) m else given [] m

  unfoldable pub playlists_for : Rpc (List Bytes) → IdManager → Given (Rpc Json)
  unfolding build_playlists items_of
  playlists_for (ok fields) m =
      and_then (build_playlists fields m) λ vs m'. given (ok (array (items_of vs))) m'
  playlists_for (rpc_error c e) m = given (rpc_error c e) m
  playlists_for type_error m = given type_error m

  unfoldable pub get_playlists : Json → IdManager → Given (Rpc Json)
  unfolding playlists_for fields_or_none
  get_playlists params m = playlists_for (fields_or_none params) m
