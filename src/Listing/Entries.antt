-- ===== src/Listing/Entries.antt =====
-- The rows of a playlist: those of its entries, with ids that lead back to them.
use aimpremote_control.Prelude.{
  ℕ, zero, suc, ◌≡◌, refl, ap, ◌∙◌, arith, inl, inr, none, some, Option, Bool, true, List, [], ◌∷◌,
  Option-cases, if◌then◌else◌,
}
use aimpremote_control.Prelude.Text.{Bytes, bytes_eq}
use aimpremote_control.Prelude.Int.{ℤ, pos, negsuc}
use aimpremote_control.Prelude.Dict.{get}
use aimpremote_control.IdManager.{
  IdManager, PlaylistItemKey, key_eq, playlist_item_get_key, playlist_get_or_generate_plugin_id,
  playlist_item_get_or_generate_plugin_id,
}
use aimpremote_control.IdManager.Invariant.{IsValid}
use aimpremote_control.Aimp.{Aimp, loaded_playlist_by_aimp_id, find_playlist_item, item_of, less}
use aimpremote_control.Listing.{
  Given, given, undefined_id, starved_id, Library, rounds, Row, context, row_of, is_wanted, add_row,
  collect_from, collect_entries,
}
use aimpremote_control.Listing.Laws.{
  AfterGiven, Extends, Extends-refl, Extends-trans, ItemPublished, item_published,
  PlaylistPublished, playlist_published, with_id-AfterGiven,
}

-- The id under which a manager has an item, and a playlist.
abbrev pub known_id : Option ℕ → ℤ
known_id none = pos 0
known_id (some id) = pos id

module _ {S P I : Type 0} (aimp : Aimp S P I) (library : Library S P I) (s : S)
    (fields : List Bytes) (playlist : P) (search : Option (Bytes → Bool)) where
  abbrev pub key_at : ℕ → PlaylistItemKey
  key_at i = record { aimp_playlist_id = library.id_of playlist s; index = pos i }

  abbrev pub row_at : I → ℕ → (playlist_id : ℤ) → IdManager → List Row → List Row
  row_at it i playlist_id m rest =
      let ctx =
        context aimp library it s (known_id (get (key_at i) m.item_by_aimp_key)) playlist_id
          (negsuc 0) in
      if is_wanted aimp library search ctx then row_of aimp library fields ctx ∷ rest else rest

  -- The rows as a manager's ids give them: of the items from an index on that AIMP gives and that are
  -- searched for, in their order.
  pub rows_with : (playlist_id : ℤ) → (n i : ℕ) → IdManager → List Row
  rows_with playlist_id zero i m = []
  rows_with playlist_id (suc n) i m = elim (aimp.get_item playlist (pos i) s) [
    | none ↦ rows_with playlist_id n (suc i) m
    | some it ↦ row_at it i playlist_id m (rows_with playlist_id n (suc i) m)
  ]

  -- What `collect_from` gives, and the manager that it leaves.
  abbrev Collected : ℕ → ℕ → ℕ → IdManager → List Row → IdManager → Type 0
  Collected playlist_id n i m rows m' = Extends m m' × (rows ≡ rows_with (pos playlist_id) n i m')

  added :
      (playlist_id n i id : ℕ) (it : I) (m m1 : IdManager) (r : Given (List Row))
      → aimp.get_item playlist (pos i) s ≡ some it
      → ItemPublished (key_at i) m id m1
      → AfterGiven (Collected playlist_id n (suc i) m1) r
      → AfterGiven (Collected playlist_id (suc n) i m) (
          let ctx = context aimp library it s (pos id) (pos playlist_id) (negsuc 0) in
          add_row aimp library
            (is_wanted aimp library search ctx)
            (row_of aimp library fields ctx)
            r)
  unfolding rows_with
  added playlist_id n i id it m m1 undefined_id there p h = tt
  added playlist_id n i id it m m1 starved_id there p h = h
  added playlist_id n i id it m m1 (given rows m2) there p h =
      (Extends-trans m m1 m2 p.0 h.0, rw (there, rows_with, known, h.1) refl)
    where
      known : get (key_at i) m2.item_by_aimp_key ≡ some id
      known = h.0.items_kept (key_at i) id p.1

  skipped :
      (playlist_id n i : ℕ) (m : IdManager) (r : Given (List Row))
      → aimp.get_item playlist (pos i) s ≡ none
      → AfterGiven (Collected playlist_id n (suc i) m) r
      → AfterGiven (Collected playlist_id (suc n) i m) r
  unfolding rows_with
  skipped playlist_id n i m undefined_id gone h = tt
  skipped playlist_id n i m starved_id gone h = h
  skipped playlist_id n i m (given rows m') gone h = (h.0, rw (gone, rows_with, h.1) refl)

  collected :
      (playlist_id n i : ℕ) (m : IdManager)
      → IsValid m
      → AfterGiven
          (Collected playlist_id n i m)
          (collect_from aimp library s fields playlist search playlist_id n i m)
  unfolding collect_from rows_with
  collected playlist_id zero i m v = (Extends-refl m v, refl)
  collected playlist_id (suc n) i m v = elim (Option-cases (aimp.get_item playlist (pos i) s)) [
    | inl gone ↦
        rw (gone, collect_from)
          (skipped playlist_id n i m _ gone (collected playlist_id n (suc i) m v))
    | inr (it, there) ↦
        rw (there, collect_from)
          (with_id-AfterGiven (ItemPublished (key_at i) m) (Collected playlist_id (suc n) i m)
            (playlist_item_get_or_generate_plugin_id (key_at i) m) _ (item_published (key_at i) m v)
            λ id m1 p.
              added playlist_id n i id it m m1 _ there p
                (collected playlist_id n (suc i) m1 p.0.valid))
  ]

  -- The rows are those of the manager that is left, which has an id for the playlist.
  abbrev pub RowsOf : IdManager → List Row → IdManager → Type 0
  RowsOf m rows m' =
      Extends m m'
      × ((playlist_id : ℕ) × (get (library.id_of playlist s) m'.playlist_by_aimp_id
            ≡ some playlist_id)
          × (rows ≡ rows_with (pos playlist_id) (rounds (aimp.item_count playlist s)) 0 m'))

  with_playlist :
      (playlist_id : ℕ) (m m1 : IdManager) (r : Given (List Row))
      → PlaylistPublished (library.id_of playlist s) m playlist_id m1
      → AfterGiven (Collected playlist_id (rounds (aimp.item_count playlist s)) 0 m1) r
      → AfterGiven (RowsOf m) r
  with_playlist playlist_id m m1 undefined_id p h = tt
  with_playlist playlist_id m m1 starved_id p h = h
  with_playlist playlist_id m m1 (given rows m2) p h = (
    Extends-trans m m1 m2 p.0 h.0,
    (playlist_id, h.0.playlists_kept (library.id_of playlist s) playlist_id p.1, h.1),
  )

  -- From a valid manager, and unless the search for an id overflows, the rows of a playlist are, in
  -- their order, those of the items that AIMP gives and that are searched for, with the ids under
  -- which the manager has them afterwards; it is valid and has kept every id that it had.
  pub collect_entries-RowsOf :
      (m : IdManager)
      → IsValid m
      → AfterGiven (RowsOf m) (collect_entries aimp library s fields playlist search m)
  unfolding collect_entries
  collect_entries-RowsOf m v =
      with_id-AfterGiven (PlaylistPublished (library.id_of playlist s) m) (RowsOf m)
        (playlist_get_or_generate_plugin_id (library.id_of playlist s) m) _
        (playlist_published (library.id_of playlist s) m v)
        λ playlist_id m1 p.
          with_playlist playlist_id m m1 _ p
            (collected playlist_id (rounds (aimp.item_count playlist s)) 0 m1 p.0.valid)

module _ {S P I : Type 0} (aimp : Aimp S P I) (m : IdManager) (s : S) (aimp_id : Bytes)
    (n id : ℕ) where
  abbrev pub key_of_item : PlaylistItemKey
  key_of_item = record { aimp_playlist_id = aimp_id; index = pos n }

  key_found :
      IsValid m
      → get key_of_item m.item_by_aimp_key ≡ some id
      → playlist_item_get_key (pos id) m ≡ key_of_item
  unfolding playlist_item_get_key
  key_found v known = rw (v.items.key_of key_of_item id known, playlist_item_get_key) refl

  item_found :
      (playlist : P) (it : I)
      → less (pos n) (aimp.item_count playlist s) ≡ true
      → aimp.get_item playlist (pos n) s ≡ some it
      → item_of aimp key_of_item (some playlist) s ≡ some (playlist, it)
  unfolding item_of
  item_found playlist it inside there = rw (there, inside) (ground arith)

  -- The id that a valid manager has for an item, as a listing gives it, leads a later command to that
  -- item, while AIMP has the playlist under its id and the item at its place.
  pub find_playlist_item-listed :
      (playlist : P) (it : I)
      → IsValid m
      → get key_of_item m.item_by_aimp_key ≡ some id
      → loaded_playlist_by_aimp_id aimp aimp_id s ≡ some playlist
      → less (pos n) (aimp.item_count playlist s) ≡ true
      → aimp.get_item playlist (pos n) s ≡ some it
      → find_playlist_item aimp m (pos id) s ≡ some (playlist, it)
  unfolding find_playlist_item
  find_playlist_item-listed playlist it v known loaded inside there =
      ap (λ k. item_of aimp k (loaded_playlist_by_aimp_id aimp k.aimp_playlist_id s) s)
        (key_found v known)
      ∙ ap (λ o. item_of aimp key_of_item o s) loaded
      ∙ item_found playlist it inside there
