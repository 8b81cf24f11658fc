-- ===== src/Listing/Kept.antt =====
-- No listing takes an id away or changes one.
use aimpremote_control.Prelude.{
  ℕ, zero, suc, Bool, true, false, not, inl, inr, none, some, Option, List, [], ◌∷◌, ◌++◌,
  Option-cases, contains, if◌then◌else◌,
}
use aimpremote_control.Prelude.Text.{Bytes, bytes, bytes_eq}
use aimpremote_control.Prelude.Int.{ℤ, pos, ◌+ℤ◌}
use aimpremote_control.Rpc.{
  Json, Rpc, ok, rpc_error, type_error, integer_field, text_or, invalid_params,
}
use aimpremote_control.IdManager.{
  IdManager, PlaylistItemKey, Assigned, playlist_get_or_generate_plugin_id,
  playlist_item_get_or_generate_plugin_id,
}
use aimpremote_control.IdManager.Invariant.{IsValid, After}
use aimpremote_control.Aimp.{Aimp, find_playlist, find_playlist_item}
use aimpremote_control.Listing.{
  Given, given, undefined_id, starved_id, with_id, and_then, Library, rounds, Row, collect_entries,
  fields_or_none,
}
use aimpremote_control.Listing.Methods.{
  Found, collect_all, collect_of, find_entries, search_of, entries_for, get_playlist_entries,
  id_of_owner, queue_from, queued_for, get_queued_entries, info_of, get_playlist_entry_info,
  build_playlist_json, build_all, build_playlists, playlists_for, get_playlists,
}
use aimpremote_control.Listing.Laws.{
  AfterGiven, Extends, Extends-refl, Extends-trans, item_published, playlist_published,
  with_id-AfterGiven, and_then-AfterGiven,
}
use aimpremote_control.Listing.Entries.{RowsOf, collect_entries-RowsOf}

-- The manager that is left has what `m` had.
abbrev pub Keeps : {A : Type 0} → IdManager → A → IdManager → Type 0
Keeps m a m' = Extends m m'

earlier :
    {A : Type 0} (m m1 : IdManager) (g : Given A)
    → Extends m m1
    → AfterGiven (Keeps m1) g
    → AfterGiven (Keeps m) g
earlier m m1 (given a m2) e h = Extends-trans m m1 m2 e h
earlier m m1 undefined_id e h = tt
earlier m m1 starved_id e h = h

-- To go on with an id, and with a result.
pub id-Keeps :
    {A : Type 0} (R : ℕ → IdManager → Type 0) (m : IdManager) (r : Assigned)
    (f : ℕ → IdManager → Given A)
    → After (λ id m1. Extends m m1 × R id m1) r
    → ((id : ℕ) (m1 : IdManager) → IsValid m1 → AfterGiven (Keeps m1) (f id m1))
    → AfterGiven (Keeps m) (with_id r f)
id-Keeps R m r f h k =
    with_id-AfterGiven _ (Keeps m) r f h λ id m1 p. earlier m m1 (f id m1) p.0 (k id m1 p.0.valid)

pub then-Keeps :
    {A B : Type 0} (m : IdManager) (g : Given A) (f : A → IdManager → Given B)
    → AfterGiven (Keeps m) g
    → ((a : A) (m1 : IdManager) → IsValid m1 → AfterGiven (Keeps m1) (f a m1))
    → AfterGiven (Keeps m) (and_then g f)
then-Keeps m g f h k =
    and_then-AfterGiven (Keeps m) (Keeps m) g f h λ a m1 e. earlier m m1 (f a m1) e (k a m1 e.valid)

module _ {S P I : Type 0} (aimp : Aimp S P I) (library : Library S P I) (s : S) where
  rows_keep :
      (m : IdManager) (g : Given (List Row)) (fields : List Bytes) (playlist : P)
      (search : Option (Bytes → Bool))
      → AfterGiven (RowsOf aimp library s fields playlist search m) g
      → AfterGiven (Keeps m) g
  rows_keep m (given rows m') fields playlist search h = h.0
  rows_keep m undefined_id fields playlist search h = tt
  rows_keep m starved_id fields playlist search h = h

  entries_keep :
      (fields : List Bytes) (playlist : P) (search : Option (Bytes → Bool)) (m : IdManager)
      → IsValid m
      → AfterGiven (Keeps m) (collect_entries aimp library s fields playlist search m)
  entries_keep fields playlist search m v =
      rows_keep m _ fields playlist search
        (collect_entries-RowsOf aimp library s fields playlist search m v)

  all_keep :
      (fields : List Bytes) (search : Option (Bytes → Bool)) (playlists : List (Option P))
      (found : Found aimp library s) (m : IdManager)
      → IsValid m
      → AfterGiven (Keeps m) (collect_all aimp library s fields search playlists found m)
  unfolding collect_all
  all_keep fields search [] found m v = Extends-refl m v
  all_keep fields search (none ∷ playlists) found m v = all_keep fields search playlists found m v
  all_keep fields search (some playlist ∷ playlists) found m v =
      then-Keeps m (collect_entries aimp library s fields playlist search m) _
        (entries_keep fields playlist search m v)
        λ rows m1 v1.
          all_keep fields search playlists (found.0 ++ rows, found.1 +ℤ aimp.item_count playlist s)
            m1 v1

  of_keep :
      (fields : List Bytes) (search : Option (Bytes → Bool)) (o : Option P) (m : IdManager)
      → IsValid m
      → AfterGiven (Keeps m) (collect_of aimp library s fields search o m)
  of_keep fields search none m v = Extends-refl m v
  of_keep fields search (some playlist) m v =
      then-Keeps m (collect_entries aimp library s fields playlist search m) _
        (entries_keep fields playlist search m v) λ rows m1 v1. Extends-refl m1 v1

  branch :
      {A : Type 0} (b : Bool) (m : IdManager) (x y : Given A)
      → AfterGiven (Keeps m) x
      → AfterGiven (Keeps m) y
      → AfterGiven (Keeps m) (if b then x else y)
  branch true m x y h k = h
  branch false m x y h k = k

  found_keep :
      (fields : List Bytes) (search : Option (Bytes → Bool)) (which : Option ℤ) (m : IdManager)
      → IsValid m
      → AfterGiven (Keeps m) (find_entries aimp library s fields search which m)
  unfolding find_entries
  found_keep fields search none m v =
      branch (library.has_manager s) m _ _
        (all_keep fields search (library.loaded s) ([], pos 0) m v) (Extends-refl m v)
  found_keep fields search (some id) m v =
      branch (library.has_manager s) m _ _ (of_keep fields search (find_playlist aimp m id s) m v)
        (Extends-refl m v)

  answered_keep :
      (fields : Rpc (List Bytes)) (search : Rpc Bytes) (which : Option ℤ) (m : IdManager)
      → IsValid m
      → AfterGiven (Keeps m) (entries_for aimp library s fields search which m)
  unfolding entries_for
  answered_keep (ok fields) (ok search) which m v =
      then-Keeps m (find_entries aimp library s fields (search_of aimp library s search) which m) _
        (found_keep fields (search_of aimp library s search) which m v)
        λ found m1 v1. Extends-refl m1 v1
  answered_keep (ok fields) (rpc_error c e) which m v = Extends-refl m v
  answered_keep (ok fields) type_error which m v = Extends-refl m v
  answered_keep (rpc_error c e) search which m v = Extends-refl m v
  answered_keep type_error search which m v = Extends-refl m v

  queue-Keeps :
      (fields : List Bytes) (n i : ℕ) (m : IdManager)
      → IsValid m
      → AfterGiven (Keeps m) (queue_from aimp library s fields n i m)
  unfolding queue_from
  queue-Keeps fields zero i m v = Extends-refl m v
  queue-Keeps fields (suc n) i m v = elim (Option-cases (library.queue_item i s)) [
    | inl gone ↦ rw (gone, queue_from) (queue-Keeps fields n (suc i) m v)
    | inr (it, there) ↦
        rw (there, queue_from)
          (id-Keeps _ m (playlist_item_get_or_generate_plugin_id (key it) m) _
            (item_published (key it) m v)
            λ id m1 v1.
              id-Keeps _ m1 (playlist_get_or_generate_plugin_id (owner it) m1) _
                (playlist_published (owner it) m1 v1)
                λ playlist_id m2 v2.
                  then-Keeps m2 (queue_from aimp library s fields n (suc i) m2) _
                    (queue-Keeps fields n (suc i) m2 v2) λ rows m3 v3. Extends-refl m3 v3)
  ]
    where
      owner : I → Bytes
      owner it = id_of_owner aimp library s (library.playlist_of it s)

      key : I → PlaylistItemKey
      key it = record { aimp_playlist_id = owner it; index = aimp.index_of it s }

  queued_keep :
      (fields : Rpc (List Bytes)) (m : IdManager)
      → IsValid m
      → AfterGiven (Keeps m) (queued_for aimp library s fields m)
  unfolding queued_for
  queued_keep (ok fields) m v =
      branch (library.has_queue s) m _ _
        (then-Keeps m (queue_from aimp library s fields (rounds (library.queue_count s)) 0 m) _
          (queue-Keeps fields (rounds (library.queue_count s)) 0 m v)
          λ rows m1 v1. Extends-refl m1 v1)
        (Extends-refl m v)
  queued_keep (rpc_error c e) m v = Extends-refl m v
  queued_keep type_error m v = Extends-refl m v

  info-Keeps :
      (track_id : ℤ) (o : Option (P × I)) (m : IdManager)
      → IsValid m
      → AfterGiven (Keeps m) (info_of aimp library s track_id o m)
  unfolding info_of
  info-Keeps track_id none m v = Extends-refl m v
  info-Keeps track_id (some (owner, it)) m v =
      id-Keeps _ m (playlist_get_or_generate_plugin_id (library.id_of owner s) m) _
        (playlist_published (library.id_of owner s) m v) λ id m1 v1. Extends-refl m1 v1

  json-Keeps :
      (playlist : P) (fields : List Bytes) (m : IdManager)
      → IsValid m
      → AfterGiven (Keeps m) (build_playlist_json aimp library s playlist fields m)
  unfolding build_playlist_json
  json-Keeps playlist fields m v =
      branch (not (library.has_properties playlist s)) m _ _ (Extends-refl m v) (
        branch (contains (bytes "id") fields) m _ _
          (id-Keeps _ m (playlist_get_or_generate_plugin_id (library.id_of playlist s) m) _
            (playlist_published (library.id_of playlist s) m v) λ id m1 v1. Extends-refl m1 v1)
          (Extends-refl m v))

  build-Keeps :
      (fields : List Bytes) (playlists : List (Option P)) (m : IdManager)
      → IsValid m
      → AfterGiven (Keeps m) (build_all aimp library s fields playlists m)
  unfolding build_all
  build-Keeps fields [] m v = Extends-refl m v
  build-Keeps fields (none ∷ playlists) m v = build-Keeps fields playlists m v
  build-Keeps fields (some playlist ∷ playlists) m v =
      then-Keeps m (build_playlist_json aimp library s playlist fields m) _
        (json-Keeps playlist fields m v)
        λ value m1 v1.
          then-Keeps m1 (build_all aimp library s fields playlists m1) _
            (build-Keeps fields playlists m1 v1) λ values m2 v2. Extends-refl m2 v2

  playlists_keep :
      (fields : Rpc (List Bytes)) (m : IdManager)
      → IsValid m
      → AfterGiven (Keeps m) (playlists_for aimp library s fields m)
  unfolding playlists_for build_playlists
  playlists_keep (ok fields) m v =
      then-Keeps m (build_playlists aimp library s fields m) _
        (branch (library.has_manager s) m _ _ (build-Keeps fields (library.loaded s) m v)
          (Extends-refl m v))
        λ values m1 v1. Extends-refl m1 v1
  playlists_keep (rpc_error c e) m v = Extends-refl m v
  playlists_keep type_error m v = Extends-refl m v

  -- GetPlaylists, GetPlaylistEntries, GetQueuedEntries and GetPlaylistEntryInfo, with any parameters,
  -- leave a valid manager valid, with every id that it had, and their searches for ids do not run out
  -- of fuel; unless a search overflows.
  pub listings-Keeps :
      (params : Json) (m : IdManager)
      → IsValid m
      → AfterGiven (Keeps m) (get_playlists aimp library s params m)
        × AfterGiven (Keeps m) (get_playlist_entries aimp library s params m)
        × AfterGiven (Keeps m) (get_queued_entries aimp library s params m)
        × AfterGiven (Keeps m) (get_playlist_entry_info aimp library s params m)
  unfolding get_playlists get_playlist_entries get_queued_entries get_playlist_entry_info
  listings-Keeps params m v = (
    playlists_keep (fields_or_none params) m v,
    answered_keep (fields_or_none params) (text_or (bytes "search_string") [] params)
        (integer_field (bytes "playlist_id") params) m v,
    queued_keep (fields_or_none params) m v,
    info_known (integer_field (bytes "track_id") params),
  )
    where
      info_known :
          (o : Option ℤ)
          → AfterGiven (Keeps m) (elim o [
            | none ↦ given (rpc_error invalid_params (bytes "track_id is required")) m
            | some track_id ↦
                info_of aimp library s track_id (find_playlist_item aimp m track_id s) m
          ])
      info_known none = Extends-refl m v
      info_known (some track_id) = info-Keeps track_id (find_playlist_item aimp m track_id s) m v
