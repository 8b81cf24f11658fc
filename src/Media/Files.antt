-- ===== src/Media/Files.antt =====
-- Downloads and the listing of folders.
use aimpremote_control.Prelude.{
  Bool, true, false, not, ◌&&◌, ◌||◌, Option, none, some, List, [], ◌∷◌, ◌++◌, if◌then◌else◌, ◌==◌,
  nat_eq, ltb, contains, is_empty,
}
use aimpremote_control.Prelude.Text.{Bytes, bytes, bytes_eq}
use aimpremote_control.Prelude.Int.{ℤ, pos}
use aimpremote_control.Rpc.{
  Json, array, object, no_fields, texts, text_or, to_int32, Rpc, ok, rpc_error, type_error,
}
use aimpremote_control.Rpc
use aimpremote_control.Digest.{stoll}
use aimpremote_control.IdManager.{IdManager}
use aimpremote_control.Aimp.{Aimp, find_playlist_item, lower, lower_all, supported_audio_extensions}
use aimpremote_control.Uploads.{Paths}
use aimpremote_control.Media.{
  HttpContent, Found, not_found, number_out_of_range, answer_of, Tracks, content_type_for,
}

-- An entry of a folder, by the last part of its path.
pub record Entry : Type 0 where
  pub name : Bytes
  pub is_directory : Bool

-- `std::tolower(x) < std::tolower(y)`, byte by byte.
unfoldable pub less_ignore_case : Bytes → Bytes → Bool
less_ignore_case a [] = false
less_ignore_case [] (y ∷ ys) = true
less_ignore_case (x ∷ xs) (y ∷ ys) =
    ltb (lower x) (lower y) || (lower x == lower y) && less_ignore_case xs ys

-- std::sort; the order of names that differ only in their case is the library's.
unfoldable pub insert_name : Bytes → List Bytes → List Bytes
unfolding less_ignore_case
insert_name x [] = x ∷ []
insert_name x (y ∷ ys) =
    let rest = insert_name x ys in if less_ignore_case y x then y ∷ rest else x ∷ y ∷ ys

unfoldable pub sort_names : List Bytes → List Bytes
unfolding insert_name
sort_names [] = []
sort_names (x ∷ xs) = insert_name x (sort_names xs)

-- `IsHiddenOrSystemFile`
unfoldable pub is_hidden : Bytes → Bool
is_hidden [] = false
is_hidden (b ∷ bs) = b == b'.'

abbrev pub without_dot : Bytes → Bytes
without_dot [] = []
without_dot (b ∷ bs) = bs

abbrev pub error_path_inaccessible : ℤ
error_path_inaccessible = pos 33

unfoldable pub roots : Json
unfolding texts
roots = object (
    Rpc.field (bytes "labels") (array (texts ([] ∷ [])))
      (Rpc.field (bytes "paths") (array (texts (bytes "/" ∷ []))) no_fields))

module _ (paths : Paths) where
  unfoldable pub has_extension_from : Bytes → List Bytes → Bool
  has_extension_from name extensions =
      let ext = paths.extension name in
      if is_empty ext then false else contains (lower_all (without_dot ext)) extensions

  -- The loop over the entries: the names of the folders, and those of the files to show.
  unfoldable pub folders_of : List Entry → List Bytes
  folders_of [] = []
  folders_of (e ∷ es) = let rest = folders_of es in if e.is_directory then e.name ∷ rest else rest

  unfoldable pub is_shown : List Bytes → Entry → Bool
  unfolding is_hidden has_extension_from
  is_shown extensions e =
      not e.is_directory && not (is_hidden e.name) && has_extension_from e.name extensions

  unfoldable pub files_of : List Bytes → List Entry → List Bytes
  unfolding is_shown
  files_of extensions [] = []
  files_of extensions (e ∷ es) =
      let rest = files_of extensions es in if is_shown extensions e then e.name ∷ rest else rest

  unfoldable pub listing : Option (List Entry) → List Bytes → Rpc Json
  unfolding folders_of files_of sort_names texts
  listing none extensions = rpc_error error_path_inaccessible (bytes "Path inaccessible")
  listing (some entries) extensions = ok (
      object (
        Rpc.field (bytes "files") (array (texts (sort_names (files_of extensions entries)))) (
          Rpc.field (bytes "folders") (array (texts (sort_names (folders_of entries)))) no_fields)))

  -- `open_folder` gives the entries of a folder, or nothing if it cannot be read.
  abbrev pub browse :
      (open_folder : Bytes → Option (List Entry)) → List Bytes → Rpc Bytes → Rpc Json
  browse open_folder extensions (ok path) =
      if is_empty path then ok roots else listing (open_folder path) extensions
  browse open_folder extensions (rpc_error c e) = rpc_error c e
  browse open_folder extensions type_error = type_error

  unfoldable pub browse_files :
      (allowed : Bool)
      → (open_folder : Bytes → Option (List Entry)) → (formats : Bytes) → Json
      → Rpc Json
  unfolding roots listing text_or supported_audio_extensions
  browse_files allowed open_folder formats params =
      if allowed
      then browse open_folder (supported_audio_extensions formats)
          (text_or (bytes "path") [] params)
      else rpc_error error_path_inaccessible
          (bytes "Path inaccessible. Reason: file browsing is disabled in the plugin settings.")

  module _ {S P I : Type 0} (aimp : Aimp S P I) (tracks : Tracks S I)
      (is_regular_file : Bytes → Bool) (ids : IdManager) (s : S) where
    unfoldable pub local_file_name : ℤ → Bytes
    unfolding find_playlist_item
    local_file_name track_id = elim (find_playlist_item aimp ids track_id s) [
      | none ↦ []
      | some (owner, it) ↦ tracks.local_file it s
    ]

    unfoldable pub file_content : Bytes → Option HttpContent
    unfolding content_type_for
    file_content file =
        if is_empty file || not (is_regular_file file)
        then none
        else some (record {
          content_type = content_type_for (paths.extension file);
          body = [];
          file_path = file;
          disposition =
              some (bytes "attachment; filename=\"" ++ paths.file_name file ++ bytes "\"");
        })

    abbrev pub download_numbered : Option ℤ → Found
    download_numbered none = number_out_of_range
    download_numbered (some number) = answer_of (file_content (local_file_name (to_int32 number)))

    -- The address of a download, with the matches of its pattern.
    unfoldable pub download_track : List Bytes → Found
    unfolding file_content local_file_name stoll to_int32
    download_track [] = not_found
    download_track (m ∷ ms) = download_numbered (stoll m)
