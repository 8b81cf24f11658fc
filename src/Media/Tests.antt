-- ===== src/Media/Tests.antt =====
-- A folder with two files and a folder, and the address of a cover.
use aimpremote_control.Prelude.{ℕ, ◌≡◌, refl, true, false, some, none, List, [], ◌∷◌}
use aimpremote_control.Prelude.Text.{Bytes, bytes, bytes_eq, bytes_beq, decimal, digits}
use aimpremote_control.Prelude.Int.{pos, int_text}
use aimpremote_control.Prelude.Dict.{get}
use aimpremote_control.Rpc.{to_int32}
use aimpremote_control.Digest.{stoll, skip_space, signed_value, unsigned_value, digits_value}
use aimpremote_control.IdManager.{IdManager, playlist_item_get_key}
use aimpremote_control.Aimp.{Aimp, find_playlist_item, item_of, loaded_playlist_by_aimp_id}
use aimpremote_control.Hash.Crc32.{crc32_update}
use aimpremote_control.Uploads.{Paths}
use aimpremote_control.Media.{
  on_cover_received, raw_content, image_content, cover_uri, extension_for, other_format,
  ImageContainer, Tracks, content_type_for,
}
use aimpremote_control.Media.Files.{
  Entry, sort_names, insert_name, less_ignore_case, files_of, is_shown, is_hidden,
  has_extension_from, download_track, file_content, local_file_name,
}
use aimpremote_control.Media.Serving.{OfTrack, get_route, reply_of, download_track-OfTrack}

-- Every file is an MP3.
abbrev all_music : Paths
all_music = record {
  file_name = λ p. p;
  stem = λ p. p;
  extension = λ p. bytes ".MP3";
  join = λ folder name. name;
}

abbrev entries : List Entry
entries =
    record { name = bytes "b"; is_directory = false }
    ∷ record { name = bytes ".a"; is_directory = false }
    ∷ record { name = bytes "A"; is_directory = false }
    ∷ record { name = bytes "d"; is_directory = true }
    ∷ []

files : sort_names (files_of all_music (bytes "mp3" ∷ []) entries) ≡ (bytes "A" ∷ bytes "b" ∷ [])
unfolding sort_names insert_name less_ignore_case files_of is_shown is_hidden has_extension_from
    bytes_beq
files = refl

abbrev bitmap : ImageContainer
bitmap = record { format = other_format; content = 1 ∷ []; as_png = some (2 ∷ []) }

encodes_bitmap :
    on_cover_received none (some bitmap) ≡ some (image_content (bytes "image/png") (2 ∷ []))
unfolding on_cover_received raw_content
encodes_bitmap = refl

uri :
    cover_uri (pos 7) (image_content (bytes "image/jpeg") (bytes "abc"))
    ≡ bytes "album_covers_cache/cover_0_7_0x0_68578.jpg"
unfolding cover_uri extension_for int_text decimal digits crc32_update bytes_beq
uri = refl

-- A player with one playlist of one item, whose id is 7.
abbrev player : Aimp ℕ Bytes ℕ
player = record {
  loaded_playlist_by_id = λ id s. some id;
  item_count = λ p s. pos 1;
  get_item = λ p i s. some s;
  index_of = λ i s. pos 0;
  delete_item = λ p i s. (pos 0, s);
  delete_physically = λ p chosen s. (pos 0, s);
  queue_add = λ i b s. (pos 0, s);
  queue_delete = λ i s. (pos 0, s);
  rename = λ p n s. (pos 0, s);
  add_list = λ p uris s. (pos 0, s);
  audio_formats = λ s. [];
}

abbrev songs : Tracks ℕ ℕ
songs = record {
  has_info = λ i s. true;
  album_art = λ i s. none;
  lyrics_in_tags = λ i s. [];
  lyrics_in_file = λ i s. [];
  lyrics_of_service = λ i s. [];
  local_file = λ i s. bytes "song.mp3";
}

abbrev published : IdManager
published = record {
  playlist_by_aimp_id = [];
  playlist_by_plugin_id = [];
  item_by_aimp_key = [];
  item_by_plugin_id = (7, record { aimp_playlist_id = bytes "A"; index = pos 0 }) ∷ [];
  items_by_playlist = [];
}

download_track-OfTrack_example :
    OfTrack all_music player songs (λ p. true) published 0 (bytes "song.mp3")
unfolding get_route reply_of download_track file_content local_file_name find_playlist_item item_of
    playlist_item_get_key loaded_playlist_by_aimp_id stoll skip_space signed_value unsigned_value
    digits_value to_int32 get content_type_for bytes_beq
download_track-OfTrack_example =
    download_track-OfTrack all_music player songs (λ p. true) published 0
      (bytes "/downloadTrack/7" ∷ bytes "7" ∷ []) (some (bytes "attachment; filename=\"song.mp3\""))
      (bytes "song.mp3") (bytes "audio/mpeg") refl
