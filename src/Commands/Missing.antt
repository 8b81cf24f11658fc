-- ===== src/Commands/Missing.antt =====
-- What a client is answered that names a playlist or a track that is not there.
use aimpremote_control.Prelude.{
  ℕ, Bool, ◌≡◌, refl, inl, inr, true, false, Option, none, some, List, [], ◌∷◌, contains,
  Option-cases,
}
use aimpremote_control.Prelude.Text.{Bytes, bytes}
use aimpremote_control.Prelude.Int.{ℤ, int_eq}
use aimpremote_control.Rpc.{
  Json, null, boolean, integer, real, text, array, object, Items, no_items, item, find_field,
  lookup, boolean_or, integer_field, Rpc, ok, rpc_error, type_error, invalid_params,
}
use aimpremote_control.IdManager.{IdManager}
use aimpremote_control.Listing.{texts_of}
use aimpremote_control.Aimp.{Aimp, find_playlist, find_playlist_item, add_files_to_playlist}
use aimpremote_control.Commands.Ratings.{Marks, set_track_rating, rate, rate_item}
use aimpremote_control.Commands.Tracks.{
  error_track_not_found, error_playlist_not_found, error_remove_failed, remove_track,
  remove_track_of, enqueue_track, enqueue_track_of, remove_track_from_play_queue, playlist_rename,
  rename_to, on_item, check_result,
}
use aimpremote_control.Commands.Playlists.{
  Edits, playlist_remove, add_files, add_files_of, add_files_for, add_url_to_playlist, add_url_of,
  set_track_enabled, enable_of, enable_found,
}

-- An error with one of the codes, or about the type of a parameter.
abbrev pub IsError : List ℤ → Rpc Json → Type 0
IsError codes (ok a) = ⊥
IsError codes (rpc_error code message) = contains code codes ≡ true
IsError codes type_error = Unit

-- Such an error, and AIMP as it was.
abbrev pub Refuses {ℓ} : {S : Type ℓ} → List ℤ → S → Rpc Json × S → Type ℓ
Refuses codes s r = IsError codes r.0 × (r.1 ≡ s)

-- The codes of a call that names a playlist, or a track, that is not there.
abbrev pub playlist_codes : List ℤ
playlist_codes = error_playlist_not_found ∷ invalid_params ∷ []

abbrev pub track_codes : List ℤ
track_codes = error_track_not_found ∷ invalid_params ∷ []

-- A parameter is read, or is of a wrong type.
abbrev IsRead : {A : Type 0} → Rpc A → Type 0
IsRead (ok a) = Unit
IsRead (rpc_error code message) = ⊥
IsRead type_error = Unit

boolean_or-IsRead :
    (key : Bytes) (fallback : Bool) (params : Json) → IsRead (boolean_or key fallback params)
unfolding boolean_or
boolean_or-IsRead key fallback null = tt
boolean_or-IsRead key fallback (boolean b) = tt
boolean_or-IsRead key fallback (integer z) = tt
boolean_or-IsRead key fallback (real z k) = tt
boolean_or-IsRead key fallback (text t) = tt
boolean_or-IsRead key fallback (array vs) = tt
boolean_or-IsRead key fallback (object fs) = found (find_field key fs)
  where
    found :
        (o : Option Json)
        → IsRead (elim o as (λ o. Rpc Bool) [
          | none ↦ ok fallback
          | some (boolean b) ↦ ok b
          | some _ ↦ type_error
        ])
    found none = tt
    found (some null) = tt
    found (some (boolean b)) = tt
    found (some (integer z)) = tt
    found (some (real z k)) = tt
    found (some (text t)) = tt
    found (some (array vs)) = tt
    found (some (object fs)) = tt

texts_of-IsRead : (vs : Items) → IsRead (texts_of vs)
unfolding texts_of
texts_of-IsRead no_items = tt
texts_of-IsRead (item null rest) = tt
texts_of-IsRead (item (boolean b) rest) = tt
texts_of-IsRead (item (integer z) rest) = tt
texts_of-IsRead (item (real z k) rest) = tt
texts_of-IsRead (item (array vs) rest) = tt
texts_of-IsRead (item (object fs) rest) = tt
texts_of-IsRead (item (text t) rest) = more (texts_of rest) (texts_of-IsRead rest)
  where
    more :
        (r : Rpc (List Bytes))
        → IsRead r
        → IsRead (elim r as (λ r. Rpc (List Bytes)) [
          | ok ts ↦ ok (t ∷ ts)
          | rpc_error c m ↦ rpc_error c m
          | type_error ↦ type_error
        ])
    more (ok ts) h = tt
    more type_error h = tt
    more (rpc_error c m) h = elim h [ ]

module _ {S P I : Type 0} (aimp : Aimp S P I) (edits : Edits S P I) (ids : IdManager)
    (params : Json) (s : S) where
  module _ (playlist_id : ℤ) (gone : find_playlist aimp ids playlist_id s ≡ none) where
    rename-Refuses :
        (o : Option Json) → Refuses playlist_codes s (rename_to aimp ids playlist_id o s)
    unfolding rename_to check_result
    rename-Refuses (some (text name)) = rw (gone, rename_to) (refl, refl)
    rename-Refuses none = (refl, refl)
    rename-Refuses (some null) = (refl, refl)
    rename-Refuses (some (boolean b)) = (refl, refl)
    rename-Refuses (some (integer z)) = (refl, refl)
    rename-Refuses (some (real z k)) = (refl, refl)
    rename-Refuses (some (array vs)) = (refl, refl)
    rename-Refuses (some (object fs)) = (refl, refl)

    files-Refuses :
        (r : Rpc (List Bytes))
        → IsRead r
        → Refuses playlist_codes s (add_files_for aimp edits ids playlist_id r s)
    unfolding add_files_for add_files_to_playlist check_result
    files-Refuses (ok files) h = rw (add_files_for, add_files_to_playlist, gone) (refl, refl)
    files-Refuses type_error h = (tt, refl)
    files-Refuses (rpc_error c m) h = elim h [ ]

    add_files-Refuses :
        (o : Option Json) → Refuses playlist_codes s (add_files_of aimp edits ids playlist_id o s)
    unfolding add_files_of
    add_files-Refuses (some (array vs)) = files-Refuses (texts_of vs) (texts_of-IsRead vs)
    add_files-Refuses none = (refl, refl)
    add_files-Refuses (some null) = (refl, refl)
    add_files-Refuses (some (boolean b)) = (refl, refl)
    add_files-Refuses (some (integer z)) = (refl, refl)
    add_files-Refuses (some (real z k)) = (refl, refl)
    add_files-Refuses (some (text t)) = (refl, refl)
    add_files-Refuses (some (object fs)) = (refl, refl)

    add_url-Refuses :
        (o : Option Json) → Refuses playlist_codes s (add_url_of aimp edits ids playlist_id o s)
    unfolding add_url_of add_files_to_playlist check_result
    add_url-Refuses (some (text url)) = rw (add_url_of, add_files_to_playlist, gone) (refl, refl)
    add_url-Refuses none = (refl, refl)
    add_url-Refuses (some null) = (refl, refl)
    add_url-Refuses (some (boolean b)) = (refl, refl)
    add_url-Refuses (some (integer z)) = (refl, refl)
    add_url-Refuses (some (real z k)) = (refl, refl)
    add_url-Refuses (some (array vs)) = (refl, refl)
    add_url-Refuses (some (object fs)) = (refl, refl)

  -- Whatever else a client sends, a call of PlaylistRemove, PlaylistRename, AddFiles or AddURLToPlaylist
  -- that names no playlist that can be found changes nothing, and is answered with an error: that of a
  -- playlist that is not found, or one about its parameters.
  pub unknown_playlist-Refuses :
      ((playlist_id : ℤ)
        → integer_field (bytes "playlist_id") params ≡ some playlist_id
        → find_playlist aimp ids playlist_id s ≡ none)
      → Refuses playlist_codes s (playlist_remove aimp edits ids params s)
        × Refuses playlist_codes s (playlist_rename aimp ids params s)
        × Refuses playlist_codes s (add_files aimp edits ids params s)
        × Refuses playlist_codes s (add_url_to_playlist aimp edits ids params s)
  unfolding playlist_remove playlist_rename add_files add_url_to_playlist check_result
  unknown_playlist-Refuses unknown =
      elim (Option-cases (integer_field (bytes "playlist_id") params)) [
        | inl missing ↦ (
          rw (missing, playlist_remove) (refl, refl),
          rw (missing, playlist_rename) (refl, refl),
          rw (missing, add_files) (refl, refl),
          rw (missing, add_url_to_playlist) (refl, refl),
        )
        | inr (id, there) ↦ (
          rw (there, playlist_remove, unknown id there) (refl, refl),
          rw (there, playlist_rename)
              (rename-Refuses id (unknown id there) (lookup (bytes "new_name") params)),
          rw (there, add_files)
              (add_files-Refuses id (unknown id there) (lookup (bytes "files") params)),
          rw (there, add_url_to_playlist)
              (add_url-Refuses id (unknown id there) (lookup (bytes "url") params)),
        )
      ]

  module _ (track_id : ℤ) (gone : find_playlist_item aimp ids track_id s ≡ none) where
    remove-Refuses :
        (permitted : Bool) (r : Rpc Bool)
        → IsRead r
        → Refuses
            (error_remove_failed ∷ track_codes)
            s
            (remove_track_of aimp ids permitted track_id r s)
    unfolding remove_track_of on_item check_result
    remove-Refuses permitted type_error h = (tt, refl)
    remove-Refuses permitted (rpc_error c m) h = elim h [ ]
    remove-Refuses true (ok true) h = rw (remove_track_of, gone) (refl, refl)
    remove-Refuses false (ok true) h = (refl, refl)
    remove-Refuses permitted (ok false) h = rw (remove_track_of, gone) (refl, refl)

    enqueue-Refuses :
        (r : Rpc Bool) → IsRead r → Refuses track_codes s (enqueue_track_of aimp ids track_id r s)
    unfolding enqueue_track_of on_item check_result
    enqueue-Refuses type_error h = (tt, refl)
    enqueue-Refuses (rpc_error c m) h = elim h [ ]
    enqueue-Refuses (ok first) h = rw (enqueue_track_of, gone) (refl, refl)

    enable-Refuses :
        (o : Option Json) → Refuses track_codes s (enable_of aimp edits ids track_id o s)
    unfolding enable_of enable_found
    enable-Refuses (some (boolean b)) = rw (enable_of, gone) (refl, refl)
    enable-Refuses none = (refl, refl)
    enable-Refuses (some null) = (refl, refl)
    enable-Refuses (some (integer z)) = (refl, refl)
    enable-Refuses (some (real z k)) = (refl, refl)
    enable-Refuses (some (text t)) = (refl, refl)
    enable-Refuses (some (array vs)) = (refl, refl)
    enable-Refuses (some (object fs)) = (refl, refl)

    rate-Refuses :
        (marks : Marks S I) (o : Option (ℤ × ℕ))
        → Refuses track_codes s (rate aimp marks ids track_id o s)
    unfolding rate rate_item
    rate-Refuses marks none = (refl, refl)
    rate-Refuses marks (some rating) = rw (rate, gone) (refl, refl)

  -- Whatever else a client sends, a call of RemoveTrack, EnqueueTrack, RemoveTrackFromPlayQueue,
  -- SetTrackEnabled or SetTrackRating that names no track that can be found changes nothing, and is
  -- answered with an error: that of a track that is not found, or one about its parameters; or, of
  -- RemoveTrack, that of a removal that fails or is not permitted.
  pub unknown_track-Refuses :
      (marks : Marks S I) (permitted : Bool)
      → ((track_id : ℤ)
          → integer_field (bytes "track_id") params ≡ some track_id
          → find_playlist_item aimp ids track_id s ≡ none)
      → Refuses (error_remove_failed ∷ track_codes) s (remove_track aimp ids permitted params s)
        × Refuses track_codes s (enqueue_track aimp ids params s)
        × Refuses track_codes s (remove_track_from_play_queue aimp ids params s)
        × Refuses track_codes s (set_track_enabled aimp edits ids params s)
        × Refuses track_codes s (set_track_rating aimp marks ids params s)
  unfolding remove_track enqueue_track remove_track_from_play_queue set_track_enabled
      set_track_rating on_item check_result
  unknown_track-Refuses marks permitted unknown =
      elim (Option-cases (integer_field (bytes "track_id") params)) [
        | inl missing ↦ (
          rw (missing, remove_track) (refl, refl),
          rw (missing, enqueue_track) (refl, refl),
          rw (missing, remove_track_from_play_queue) (refl, refl),
          rw (missing, set_track_enabled) (refl, refl),
          rw (missing, set_track_rating) (refl, refl),
        )
        | inr (id, there) ↦ (
          rw (there, remove_track)
              (remove-Refuses id (unknown id there) permitted _
                (boolean_or-IsRead (bytes "physically") false params)),
          rw (there, enqueue_track)
              (enqueue-Refuses id (unknown id there) _
                (boolean_or-IsRead (bytes "insert_at_queue_beginning") false params)),
          rw (there, remove_track_from_play_queue, unknown id there) (refl, refl),
          rw (there, set_track_enabled)
              (enable-Refuses id (unknown id there) (lookup (bytes "enabled") params)),
          rw (there, set_track_rating) (rate-Refuses id (unknown id there) marks _),
        )
      ]
