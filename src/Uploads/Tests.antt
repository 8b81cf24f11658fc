-- ===== src/Uploads/Tests.antt =====
-- An upload to a folder with one file, of a file with the same name.
use aimpremote_control.Prelude.{
  ◌≡◌, refl, Bool, true, false, Option, some, none, List, [], ◌∷◌, ◌++◌,
}
use aimpremote_control.Prelude.Text.{Bytes, bytes, bytes_eq, bytes_beq, decimal, digits}
use aimpremote_control.Prelude.Dict.{Dict, get, put, erase}
use aimpremote_control.Prelude.Int.{pos}
use aimpremote_control.Rpc.{to_int32}
use aimpremote_control.Digest.{stoll, skip_space, signed_value, unsigned_value, digits_value}
use aimpremote_control.IdManager.{IdManager, playlist_get_key}
use aimpremote_control.IdManager.RoundTrip.{empty}
use aimpremote_control.Aimp.{Aimp, add_files_to_playlist, find_playlist, loaded_playlist_by_aimp_id}
use aimpremote_control.Uploads.{
  Paths, Disk, UploadedFile, unique_target, free_target, numbered, client_file_name,
  sanitize_file_name, store_file, store_files, settle, restore_name, tag_based_name, add_saved,
  upload_to, upload_for, upload_track, status,
}
use aimpremote_control.Uploads.Names.{IsFileName, client_file_name-IsFileName}
use aimpremote_control.Uploads.Kept.{Kept}
use aimpremote_control.Uploads.Statuses.{Done, upload_track-Done}

abbrev slashes : Paths
slashes = record {
  file_name = λ p. p;
  stem = λ p. p;
  extension = λ p. [];
  join = λ folder name. (folder ++ bytes "/") ++ name;
}

abbrev keys : Dict Bytes Bytes → List Bytes
keys [] = []
keys ((k, v) ∷ f) = k ∷ keys f

abbrev move : Bytes → Bytes → Option Bytes → Dict Bytes Bytes → Bool × Dict Bytes Bytes
move source target none f = (false, f)
move source target (some bs) f = (true, put target bs (erase source f))

abbrev folder_disk : Disk (Dict Bytes Bytes)
folder_disk = record {
  existing = keys;
  content = λ p f. get p f;
  create_directories = λ folder f. f;
  write = λ target bs f. (true, put target bs f);
  rename = λ source target f. move source target (get source f) f;
}

client_file_name-IsFileName_example : IsFileName (client_file_name slashes (bytes "../a?"))
client_file_name-IsFileName_example =
    client_file_name-IsFileName slashes (λ p plain. refl) (bytes "../a?")

abbrev song : Bytes
song = bytes "/music/song"

-- A player whose state is the texts that were added to a playlist.
abbrev player : Aimp (List Bytes) Bytes Bytes
player = record {
  loaded_playlist_by_id = λ id s. some id;
  item_count = λ p s. pos 0;
  get_item = λ p i s. none;
  index_of = λ i s. pos 0;
  delete_item = λ p i s. (pos 0, s);
  delete_physically = λ p chosen s. (pos 0, s);
  queue_add = λ i b s. (pos 0, s);
  queue_delete = λ i s. (pos 0, s);
  rename = λ p n s. (pos 0, s);
  add_list = λ p uris s. (pos 0, s ++ uris);
  audio_formats = λ s. [];
}

abbrev ids : IdManager
ids = record empty { playlist_by_plugin_id = (5, bytes "A") ∷ [] }

abbrev file : UploadedFile
file = record { name = bytes "file"; file_name = bytes "so?g"; content = 7 ∷ [] }

abbrev before : Dict Bytes Bytes
before = (song, 1 ∷ []) ∷ []

abbrev title : Bytes → List Bytes → Bytes × Bytes
title path s = ([], bytes "song")

answer :
    upload_track slashes folder_disk player title true ids
      (bytes "/music")
      (bytes "5" ∷ [])
      (file ∷ [])
      []
      before
    ≡ (
      status 200,
      bytes "/music/song (2)" ∷ [],
      (song, 1 ∷ []) ∷ (bytes "/music/song (2)", 7 ∷ []) ∷ [],
    )
unfolding upload_track upload_for upload_to add_saved store_files store_file settle restore_name
    tag_based_name unique_target free_target numbered client_file_name sanitize_file_name stoll
    skip_space signed_value unsigned_value digits_value to_int32 find_playlist
    loaded_playlist_by_aimp_id playlist_get_key add_files_to_playlist decimal digits get put erase
    bytes_beq
answer = refl

upload_track-Done_example :
    (true ≡ true)
    × Done slashes folder_disk player title ids
        (bytes "/music")
        []
        (bytes "/music/song (2)" ∷ [])
        before
        ((song, 1 ∷ []) ∷ (bytes "/music/song (2)", 7 ∷ []) ∷ [])
        (bytes "5" ∷ [])
        (file ∷ [])
upload_track-Done_example =
    upload_track-Done slashes folder_disk player title ids (bytes "/music") []
      (bytes "/music/song (2)" ∷ []) before
      ((song, 1 ∷ []) ∷ (bytes "/music/song (2)", 7 ∷ []) ∷ []) true (bytes "5" ∷ []) (file ∷ [])
      answer
