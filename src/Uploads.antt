-- ===== src/Uploads.antt =====
-- remoteControlCommands/uploadTrackCommand.cpp: the handler of an upload, as it is built for Linux.
-- The file system, the paths of std::filesystem and the tags of a file are parameters.
pub mod Names
pub mod Targets
pub mod Kept
pub mod Statuses
mod Tests
use aimpremote_control.Prelude.{
  ℕ, zero, suc, ◌+◌, Bool, true, false, not, ◌||◌, Option, none, some, List, [], ◌∷◌, ◌++◌,
  if◌then◌else◌, ◌==◌, nat_eq, contains, is_empty, length,
}
use aimpremote_control.Prelude.Text.{Bytes, bytes, bytes_eq, decimal}
use aimpremote_control.Prelude.Int.{ℤ, int_eq}
use aimpremote_control.Rpc.{to_int32}
use aimpremote_control.Settings.{FeatureSettings}
use aimpremote_control.Digest.{stoll}
use aimpremote_control.IdManager.{IdManager, int32_max}
use aimpremote_control.Aimp.{Aimp, find_playlist, add_files_to_playlist, e_invalidarg, succeeded}

-- std::filesystem::path, as its bytes. `join` is `/`.
pub record Paths : Type 0 where
  pub file_name : Bytes → Bytes
  pub stem : Bytes → Bytes
  pub extension : Bytes → Bytes
  pub join : Bytes → Bytes → Bytes

-- The paths of which `exists` is true are finitely many. `write` opens, truncates and writes a file,
-- and tells whether it could; `rename` whether there was no error.
pub record Disk (F : Type 0) : Type 0 where
  pub existing : F → List Bytes
  pub content : Bytes → F → Option Bytes
  pub create_directories : Bytes → F → F
  pub write : Bytes → Bytes → F → Bool × F
  pub rename : Bytes → Bytes → F → Bool × F

pub record UploadedFile : Type 0 where
  pub name : Bytes
  pub file_name : Bytes
  pub content : Bytes

-- A file name of Linux has no slash and no NUL.
abbrev pub sanitize_byte : ℕ → ℕ
sanitize_byte c = if (c == b'/') || (c == 0) then b'_' else c

unfoldable pub sanitize_file_name : Bytes → Bytes
sanitize_file_name [] = []
sanitize_file_name (c ∷ cs) = sanitize_byte c ∷ sanitize_file_name cs

-- The artist and the title of a file, each empty if AIMP does not give it.
unfoldable pub tag_based_name : Bytes × Bytes → Bytes
unfolding sanitize_file_name
tag_based_name (artist, title) =
    if is_empty title
    then []
    else sanitize_file_name (if is_empty artist then title else artist ++ bytes " - " ++ title)

-- The response's status; a number that is out of range is an exception of `stol`, and an overflow of the
-- number of a name is undefined.
pub data Answer : Type 0 where
  status : ℕ → Answer
  out_of_range : Answer
  undefined : Answer

abbrev pub status_for : (missing good : Bool) → ℕ
status_for missing good = if missing then 404 else if good then 200 else 500

module _ (paths : Paths) where
  abbrev pub named : Bytes → Bytes
  named name =
      if is_empty name || (name == bytes ".") || (name == bytes "..") then bytes "track" else name

  unfoldable pub client_file_name : Bytes → Bytes
  unfolding sanitize_file_name
  client_file_name client_name = named (paths.file_name (sanitize_file_name client_name))

  unfoldable pub numbered : Bytes → ℕ → Bytes
  unfolding decimal
  numbered name n = paths.stem name ++ bytes " (" ++ decimal n ++ bytes ")" ++ paths.extension name

  -- The loop of UniqueTarget; `n` is the number of the next name. `none` is the overflow of `++n`
  -- at the largest `int`. The rounds that are given are enough: see Uploads/Targets.
  unfoldable pub free_target : List Bytes → Bytes → Bytes → ℕ → ℕ → Bytes → Option Bytes
  unfolding numbered
  free_target existing folder name zero n target = some target
  free_target existing folder name (suc rounds) n target =
      let next =
        free_target existing folder name rounds (n + 1) (paths.join folder (numbered name n)) in
      if contains target existing then (if n == int32_max then none else next) else some target

  -- One round more than there are files.
  unfoldable pub unique_target : Bytes → Bytes → List Bytes → Option Bytes
  unfolding free_target
  unique_target folder name existing =
      free_target existing folder name (suc (length existing)) 2 (paths.join folder name)

-- What becomes of one file, and of all: the paths that are saved, a file that cannot be written, or
-- an overflow in the search for a path.
pub data Saved (A F : Type 0) : Type 0 where
  saved : A → F → Saved A F
  not_written : F → Saved A F
  overflowed : F → Saved A F

module _ {F S P I : Type 0} (paths : Paths) (disk : Disk F) (aimp : Aimp S P I)
    (tags : Bytes → S → Bytes × Bytes) where
  abbrev pub renamed : Bytes → Bytes → Bool × F → Bytes × F
  renamed kept target (moved, f) = (if moved then target else kept, f)

  abbrev pub as_saved : Bytes × F → Saved Bytes F
  as_saved (target, f) = saved target f

  abbrev pub restored_as : Bytes → F → Option Bytes → Saved Bytes F
  restored_as kept f none = overflowed f
  restored_as kept f (some target) = as_saved (renamed kept target (disk.rename kept target f))

  unfoldable pub restore_name : Bytes → Bytes → S → F → Saved Bytes F
  unfolding tag_based_name unique_target
  restore_name folder kept s f =
      let tag_name = tag_based_name (tags kept s) in
      if is_empty tag_name
      then saved kept f
      else restored_as kept f
          (unique_target paths folder (tag_name ++ paths.extension kept) (disk.existing f))

  abbrev pub client_name : UploadedFile → Bytes
  client_name file = if is_empty file.file_name then file.name else file.file_name

  unfoldable pub settle : Bytes → Bytes → Bytes → S → Bool × F → Saved Bytes F
  unfolding restore_name
  settle folder client target s (false, f) = not_written f
  settle folder client target s (true, f) =
      if contains b'?' client then restore_name folder target s f else saved target f

  abbrev pub stored_at : (folder client content : Bytes) → S → F → Option Bytes → Saved Bytes F
  stored_at folder client content s f none = overflowed f
  stored_at folder client content s f (some target) =
      settle folder client target s (disk.write target content f)

  -- The body of the loop over the files.
  unfoldable pub store_file : Bytes → UploadedFile → S → F → Saved Bytes F
  unfolding settle client_file_name unique_target
  store_file folder file s f =
      let client = client_name file in
      stored_at folder client file.content s f
        (unique_target paths folder (client_file_name paths client) (disk.existing f))

  abbrev pub add_target : Bytes → Saved (List Bytes) F → Saved (List Bytes) F
  add_target target (saved targets f) = saved (target ∷ targets) f
  add_target target (not_written f) = not_written f
  add_target target (overflowed f) = overflowed f

  unfoldable pub store_files : Bytes → List UploadedFile → S → F → Saved (List Bytes) F
  unfolding store_file
  store_files folder [] s f = saved [] f
  store_files folder (file ∷ files) s f = elim (store_file folder file s f) [
    | saved target f' ↦ add_target target (store_files folder files s f')
    | not_written f' ↦ not_written f'
    | overflowed f' ↦ overflowed f'
  ]

  abbrev pub added_status : ℤ × S → Answer × S
  added_status (hr, s) = (status (status_for (hr == e_invalidarg) (succeeded hr)), s)

  abbrev pub with_disk : Answer × S → F → Answer × S × F
  with_disk (a, s) f = (a, s, f)

  unfoldable pub add_saved : IdManager → ℤ → S → Saved (List Bytes) F → Answer × S × F
  unfolding add_files_to_playlist
  add_saved ids playlist_id s (not_written f) = (status 500, s, f)
  add_saved ids playlist_id s (overflowed f) = (undefined, s, f)
  add_saved ids playlist_id s (saved targets f) =
      with_disk (added_status (add_files_to_playlist aimp ids playlist_id targets s)) f

  unfoldable pub upload_to :
      IdManager → (folder : Bytes) → ℤ → Option P → List UploadedFile → S → F → Answer × S × F
  unfolding add_saved store_files
  upload_to ids folder playlist_id none files s f = (status 404, s, f)
  upload_to ids folder playlist_id (some playlist) files s f =
      add_saved ids playlist_id s (store_files folder files s (disk.create_directories folder f))

  unfoldable pub upload_for :
      IdManager → (folder : Bytes) → Option ℤ → List UploadedFile → S → F → Answer × S × F
  unfolding upload_to find_playlist to_int32
  upload_for ids folder none files s f = (out_of_range, s, f)
  upload_for ids folder (some number) files s f =
      let playlist_id = to_int32 number in
      upload_to ids folder playlist_id (find_playlist aimp ids playlist_id s) files s f

  abbrev pub upload_matched :
      IdManager
      → (folder : Bytes) → (matches : List Bytes) → List UploadedFile
      → S
      → F
      → Answer × S × F
  upload_matched ids folder [] files s f = (status 400, s, f)
  upload_matched ids folder (m ∷ ms) [] s f = (status 400, s, f)
  upload_matched ids folder (m ∷ ms) (file ∷ files) s f =
      upload_for ids folder (stoll m) (file ∷ files) s f

  -- The handler; `folder` is the effective upload folder.
  unfoldable pub upload_track :
      (allowed : Bool)
      → IdManager
      → (folder : Bytes) → (matches : List Bytes) → List UploadedFile
      → S
      → F
      → Answer × S × F
  unfolding upload_for stoll
  upload_track allowed ids folder matches files s f =
      if allowed then upload_matched ids folder matches files s f else (status 403, s, f)
