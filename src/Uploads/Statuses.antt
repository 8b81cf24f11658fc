-- ===== src/Uploads/Statuses.antt =====
-- What an upload that is answered with 200 has done.
use aimpremote_control.Prelude.{
  ℕ, suc, ◌≡◌, refl, arith, Bool, true, false, Option, some, none, List, [], ◌∷◌, length, ◌==◌,
}
use aimpremote_control.Prelude.Text.{Bytes}
use aimpremote_control.Prelude.Int.{ℤ, int_eq}
use aimpremote_control.Rpc.{to_int32}
use aimpremote_control.Digest.{stoll}
use aimpremote_control.IdManager.{IdManager}
use aimpremote_control.Aimp.{Aimp, find_playlist, add_files_to_playlist, succeeded, e_invalidarg}
use aimpremote_control.Uploads.{
  Paths, Disk, UploadedFile, store_file, store_files, add_target, Saved, saved, not_written,
  overflowed, Answer, status, added_status, status_for, with_disk, add_saved, upload_to, upload_for,
  upload_matched, upload_track,
}

module _ {F S P I : Type 0} (paths : Paths) (disk : Disk F) (aimp : Aimp S P I)
    (tags : Bytes → S → Bytes × Bytes) (ids : IdManager) (folder : Bytes) (s s' : S)
    (f f' : F) where
  -- Every file was saved, and the paths went to the playlist, which took them.
  pub record Done (matches : List Bytes) (files : List UploadedFile) : Type 0 where
    pub playlist_id : ℤ
    pub playlist : P
    pub targets : List Bytes
    pub code : ℤ
    pub number : ℤ
    pub first_match : Bytes
    pub other_matches : List Bytes
    pub matches_eq : matches ≡ first_match ∷ other_matches
    pub number_eq : stoll first_match ≡ some number
    pub id_eq : playlist_id ≡ to_int32 number
    pub found : find_playlist aimp ids playlist_id s ≡ some playlist
    pub all_saved :
        store_files paths disk aimp tags folder files s (disk.create_directories folder f)
        ≡ saved targets f'
    pub same_length : length targets ≡ length files
    pub added : add_files_to_playlist aimp ids playlist_id targets s ≡ (code, s')
    pub code_ok : succeeded code ≡ true

  longer :
      (target : Bytes) (files : List UploadedFile) (r : Saved (List Bytes) F) (targets : List Bytes)
      (g : F)
      → ((ts : List Bytes) → r ≡ saved ts g → length ts ≡ length files)
      → add_target paths disk aimp tags target r ≡ saved targets g
      → length targets ≡ suc (length files)
  longer target files (not_written h) targets g rest e = cc
  longer target files (overflowed h) targets g rest e = cc
  longer target files (saved ts h) targets g rest e = omega (arith, lengths, rest ts cc)
    where
      lengths : length targets ≡ suc (length ts)
      lengths = cc

  length-store_files :
      (files : List UploadedFile) (g h : F) (targets : List Bytes)
      → store_files paths disk aimp tags folder files s g ≡ saved targets h
      → length targets ≡ length files
  unfolding store_files
  length-store_files [] g h targets e = cc
  length-store_files (file ∷ files) g h targets e =
      split (store_file paths disk aimp tags folder file s g)
        (λ g' ts. length-store_files files g' h ts) e
    where
      split :
          (r : Saved Bytes F)
          → ((g' : F) (ts : List Bytes)
              → store_files paths disk aimp tags folder files s g' ≡ saved ts h
              → length ts ≡ length files)
          → elim r [
            | saved target g' ↦
                add_target paths disk aimp tags target
                  (store_files paths disk aimp tags folder files s g')
            | not_written g' ↦ not_written g'
            | overflowed g' ↦ overflowed g'
          ]
            ≡ saved targets h
          → length targets ≡ suc (length files)
      split (not_written g') rest e = cc
      split (overflowed g') rest e = cc
      split (saved target g') rest e =
          longer target files (store_files paths disk aimp tags folder files s g') targets h
            (rest g') e

  taken :
      (r : ℤ × S) (g : F)
      → with_disk paths disk aimp tags (added_status paths disk aimp tags r) g
        ≡ (status 200, s', f')
      → (r.1 ≡ s') × (g ≡ f') × (succeeded r.0 ≡ true)
  taken (hr, s1) g e = (cc, cc, of_code (hr == e_invalidarg) (succeeded hr) cc)
    where
      of_code : (missing good : Bool) → status_for missing good ≡ 200 → good ≡ true
      of_code true good e = absurd (omega arith)
      of_code false true e = refl
      of_code false false e = absurd (omega arith)

  module _ (matches : List Bytes) (files : List UploadedFile) where
    saved_all :
        (m : Bytes) (ms : List Bytes) (number : ℤ) (playlist : P)
        → matches ≡ m ∷ ms
        → stoll m ≡ some number
        → find_playlist aimp ids (to_int32 number) s ≡ some playlist
        → (r : Saved (List Bytes) F)
        → store_files paths disk aimp tags folder files s (disk.create_directories folder f) ≡ r
        → add_saved paths disk aimp tags ids (to_int32 number) s r ≡ (status 200, s', f')
        → Done matches files
    unfolding add_saved
    saved_all m ms number playlist first read there (not_written g) r e = absurd (bad cc)
      where
        bad : ◌≡◌ {A = ℕ} 500 200 → ⊥
        bad q = omega arith
    saved_all m ms number playlist first read there (overflowed g) r e = cc
    saved_all m ms number playlist first read there (saved targets g) r e = record {
      playlist_id = to_int32 number;
      playlist = playlist;
      targets = targets;
      code = call.0;
      number = number;
      first_match = m;
      other_matches = ms;
      matches_eq = first;
      number_eq = read;
      id_eq = refl;
      found = there;
      all_saved = cc;
      same_length = length-store_files files _ g targets r;
      added = cc;
      code_ok = facts.2;
    }
      where
        call : ℤ × S
        call = add_files_to_playlist aimp ids (to_int32 number) targets s

        facts : (call.1 ≡ s') × (g ≡ f') × (succeeded call.0 ≡ true)
        facts = taken call g e

    found_playlist :
        (m : Bytes) (ms : List Bytes) (number : ℤ)
        → matches ≡ m ∷ ms
        → stoll m ≡ some number
        → (o : Option P) → find_playlist aimp ids (to_int32 number) s ≡ o
        → upload_to paths disk aimp tags ids folder (to_int32 number) o files s f
          ≡ (status 200, s', f')
        → Done matches files
    unfolding upload_to
    found_playlist m ms number first read none there e = absurd (bad cc)
      where
        bad : ◌≡◌ {A = ℕ} 404 200 → ⊥
        bad q = omega arith
    found_playlist m ms number first read (some playlist) there e =
        saved_all m ms number playlist first read there _ refl e

    read_number :
        (m : Bytes) (ms : List Bytes)
        → matches ≡ m ∷ ms
        → (o : Option ℤ) → stoll m ≡ o
        → upload_for paths disk aimp tags ids folder o files s f ≡ (status 200, s', f')
        → Done matches files
    unfolding upload_for
    read_number m ms first none read e = cc
    read_number m ms first (some number) read e = found_playlist m ms number first read _ refl e

  no_match :
      (code : ℕ) (a : S) (b : F)
      → ((code ≡ 200) → ⊥)
      → ◌≡◌ {A = Answer × S × F} (status code, a, b) (status 200, s', f')
      → ⊥
  no_match code a b other e = other cc

  matched :
      (matches : List Bytes) (files : List UploadedFile)
      → upload_matched paths disk aimp tags ids folder matches files s f ≡ (status 200, s', f')
      → Done matches files
  matched [] files e = absurd (no_match 400 s f (λ q. omega arith) e)
  matched (m ∷ ms) [] e = absurd (no_match 400 s f (λ q. omega arith) e)
  matched (m ∷ ms) (file ∷ files) e = read_number (m ∷ ms) (file ∷ files) m ms refl _ refl e

  -- An upload that is answered with 200 was permitted; its number is the id of a playlist that AIMP
  -- has; every file was saved, and the paths, one for each file in their order, were added to that
  -- playlist with a code that is no failure.
  pub upload_track-Done :
      (allowed : Bool) (matches : List Bytes) (files : List UploadedFile)
      → upload_track paths disk aimp tags allowed ids folder matches files s f
        ≡ (status 200, s', f')
      → (allowed ≡ true) × Done matches files
  unfolding upload_track
  upload_track-Done true matches files e = (refl, matched matches files e)
  upload_track-Done false matches files e = absurd (no_match 403 s f (λ q. omega arith) e)
