-- ===== src/Commands/TrackLaws.antt =====
-- What removing a track may touch.
use aimpremote_control.Prelude.{
  ◌≡◌, ◌↔◌, ◌==◌, refl, ap, ◌⊎◌, inl, inr, arith, Bool, true, false, not, ◌&&◌, some, if◌then◌else◌,
  Option-cases,
}
use aimpremote_control.Prelude.Text.{bytes}
use aimpremote_control.Prelude.Int.{ℤ, int_eq, int_beq_iff}
use aimpremote_control.Rpc.{Json, boolean_or, integer_field, Rpc, ok, rpc_error, type_error}
use aimpremote_control.IdManager.{IdManager}
use aimpremote_control.Aimp.{Aimp, find_playlist_item}
use aimpremote_control.Commands.Tracks.{
  remove_track, remove_track_of, on_item, delete_track, delete_only_index,
}

module _ {S P I : Type 0} (aimp : Aimp S P I) (ids : IdManager) (permitted : Bool) (s : S) where
  -- The state after a call that deletes files: it chooses, whatever the state it is asked in, exactly the
  -- items at the index that the item had.
  pub record DeletesFile (owner : P) (item : I) (s' : S) : Type 0 where
    pub chosen : I → S → Bool
    pub called : s' ≡ (aimp.delete_physically owner chosen s).1
    pub chosen_iff :
        (i : I) (u : S) → (chosen i u ≡ true) ↔ (aimp.index_of i u ≡ aimp.index_of item s)

  -- The state after a call that deletes at most the item of an id, and its file only if that is
  -- permitted.
  abbrev pub DeletesAt : ℤ → S → Type 0
  DeletesAt track_id s' =
      (s' ≡ s)
      ⊎ ((owner : P) × (item : I) × (find_playlist_item aimp ids track_id s ≡ some (owner, item))
          × ((s' ≡ (aimp.delete_item owner item s).1)
              ⊎ ((permitted ≡ true) × DeletesFile owner item s')))

  abbrev pub Deletes : Json → S → Type 0
  Deletes params s' =
      (s' ≡ s)
      ⊎ ((track_id : ℤ) × (integer_field (bytes "track_id") params ≡ some track_id)
          × DeletesAt track_id s')

  -- How the item was deleted.
  ByMode : P → I → S → Type 0
  ByMode owner item s' =
      (s' ≡ (aimp.delete_item owner item s).1) ⊎ ((permitted ≡ true) × DeletesFile owner item s')

  by_mode :
      (owner : P) (item : I) (physically : Bool)
      → (physically && not permitted) ≡ false
      → ByMode owner item (delete_track aimp physically (owner, item) s).1
  unfolding ByMode delete_track delete_only_index
  by_mode owner item false may = inl refl
  by_mode owner item true may = inr (
    ground arith,
    record {
      chosen = λ i u. aimp.index_of i u == aimp.index_of item s;
      called = refl;
      chosen_iff = λ i u. int_beq_iff (aimp.index_of i u) (aimp.index_of item s);
    },
  )

  deleted :
      (track_id : ℤ) (physically : Bool)
      → (physically && not permitted) ≡ false
      → DeletesAt track_id
          (on_item aimp (delete_track aimp physically) (find_playlist_item aimp ids track_id s) s).1
  unfolding on_item ByMode
  deleted track_id physically may = elim (Option-cases (find_playlist_item aimp ids track_id s)) [
    | inl missing ↦ inl (ap (λ o. (on_item aimp (delete_track aimp physically) o s).1) missing)
    | inr ((owner, item), found) ↦
        inr (owner, item, found, moved owner item found (by_mode owner item physically may))
  ]
    where
      moved :
          (owner : P) (item : I)
          → find_playlist_item aimp ids track_id s ≡ some (owner, item)
          → ByMode owner item (delete_track aimp physically (owner, item) s).1
          → ByMode owner item
              (on_item aimp
                (delete_track aimp physically)
                (find_playlist_item aimp ids track_id s)
                s).1
      moved owner item found h = rw found h

  either :
      (b : Bool) (x y : Rpc Json × S) (Q : S → Type 0)
      → (b ≡ true → Q x.1)
      → (b ≡ false → Q y.1)
      → Q (if b then x else y).1
  either true x y Q f g = f refl
  either false x y Q f g = g refl

  removed :
      (track_id : ℤ) (physically : Rpc Bool)
      → DeletesAt track_id (remove_track_of aimp ids permitted track_id physically s).1
  unfolding remove_track_of
  removed track_id (rpc_error c m) = inl refl
  removed track_id type_error = inl refl
  removed track_id (ok physically) =
      either (physically && not permitted) _ _ (DeletesAt track_id) (λ forbidden. inl refl)
        (λ may. deleted track_id physically may)

  -- Whatever a client sends, RemoveTrack leaves AIMP as it is, or makes one call: it deletes the item that
  -- the id leads to; or, only if the settings permit it, it deletes with their files those items of the
  -- item's playlist that stand at the item's index, and no others.
  pub remove_track-Deletes :
      (params : Json) → Deletes params (remove_track aimp ids permitted params s).1
  unfolding remove_track
  remove_track-Deletes params = elim (Option-cases (integer_field (bytes "track_id") params)) [
    | inl missing ↦ rw (remove_track, missing) (inl refl)
    | inr (track_id, there) ↦
        rw (remove_track, there)
          (inr (track_id, refl, removed track_id (boolean_or (bytes "physically") false params)))
  ]
