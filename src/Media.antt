-- ===== src/Media.antt =====
-- getCoverCommand.cpp, lyricsCommand.cpp, downloadTrackCommand.cpp and browseFilesCommand.cpp (as it is
-- built for Linux): covers, lyrics, files and folders.
-- What AIMP's services and the file system give is a parameter.
pub mod Files
pub mod Browsing
pub mod Serving
mod Tests
use aimpremote_control.Prelude.{
  ℕ, zero, suc, ◌%◌, Bool, true, false, not, ◌&&◌, ◌||◌, Option, none, some, List, [], ◌∷◌, ◌++◌,
  map, if◌then◌else◌, ◌==◌, nat_eq, ltb, contains, is_empty, length,
}
use aimpremote_control.Prelude.Text.{Bytes, bytes, bytes_eq, decimal}
use aimpremote_control.Prelude.Int.{ℤ, pos, negsuc, int_text}
use aimpremote_control.Hash.Crc32.{crc32_update}
use aimpremote_control.Rpc.{
  Json, text, array, object, no_fields, texts, text_or, integer_field, to_int32, Rpc, ok, rpc_error,
  type_error, invalid_params,
}
use aimpremote_control.Rpc
use aimpremote_control.Digest.{stoll}
use aimpremote_control.IdManager.{IdManager}
use aimpremote_control.Aimp.{Aimp, find_playlist_item, lower, lower_all, supported_audio_extensions}

-- HttpContent: a body, or the file that has it, and what goes with it.
pub record HttpContent : Type 0 where
  pub content_type : Bytes
  pub body : Bytes
  pub file_path : Bytes
  pub disposition : Option Bytes

-- A response that is found or not, or a number in the address that is out of range.
pub data Found : Type 0 where
  found : HttpContent → Found
  not_found : Found
  number_out_of_range : Found

abbrev pub answer_of : Option HttpContent → Found
answer_of none = not_found
answer_of (some content) = found content

-- AIMP_IMAGE_FORMAT_XXX
pub data ImageFormat : Type 0 where
  jpg png gif other_format : ImageFormat

-- IAIMPImageContainer: its format, its data, and the image that can be made of it as PNG.
pub record ImageContainer : Type 0 where
  pub format : ImageFormat
  pub content : Bytes
  pub as_png : Option Bytes

abbrev pub image_content : Bytes → Bytes → HttpContent
image_content content_type body = record {
  content_type = content_type;
  body = body;
  file_path = [];
  disposition = none;
}

abbrev pub type_of_format : ImageFormat → Option Bytes
type_of_format jpg = some (bytes "image/jpeg")
type_of_format png = some (bytes "image/png")
type_of_format gif = some (bytes "image/gif")
type_of_format other_format = none

unfoldable pub raw_content : ImageContainer → Option HttpContent
raw_content c = elim (type_of_format c.format) [
  | none ↦ none
  | some content_type ↦
      if is_empty c.content then none else some (image_content content_type c.content)
]

-- `EncodePng`, of what the image is as PNG.
abbrev pub encode_png : Option Bytes → Option HttpContent
encode_png none = none
encode_png (some b) = if is_empty b then none else some (image_content (bytes "image/png") b)

-- What is made of the image, or if there is none of the container.
abbrev pub encoded : Option Bytes → Option ImageContainer → Option HttpContent
encoded (some image) container = encode_png (some image)
encoded none none = none
encoded none (some container) = encode_png container.as_png

abbrev pub raw_of : Option ImageContainer → Option HttpContent
raw_of none = none
raw_of (some container) = raw_content container

-- What AIMP gives of an album's art: an image, as PNG if it can be encoded, and a container.
unfoldable pub on_cover_received : Option Bytes → Option ImageContainer → Option HttpContent
unfolding raw_content
on_cover_received image container = elim (raw_of container) [
  | some content ↦ some content
  | none ↦ encoded image container
]

unfoldable pub extension_for : HttpContent → Bytes
extension_for content =
    if content.content_type == bytes "image/jpeg"
    then bytes "jpg"
    else if content.content_type == bytes "image/gif"
    then bytes "gif"
    else bytes "png"

unfoldable pub cover_uri : ℤ → HttpContent → Bytes
unfolding crc32_update extension_for decimal int_text
cover_uri track_id content =
    bytes "album_covers_cache/cover_0_"
    ++ int_text track_id
    ++ bytes "_0x0_"
    ++ decimal (crc32_update 0 content.body % 100000)
    ++ bytes "."
    ++ extension_for content

abbrev pub error_cover_not_found : ℤ
error_cover_not_found = pos 22

abbrev pub error_lyrics_not_available : ℤ
error_lyrics_not_available = pos 35

-- AIMP's services for a track: the art of its album, if its information can be had and the service is
-- there; the lyrics in its tags, in the information that is read from its file, and of the service; and
-- the local file of an item that is no URL. A text that cannot be had is empty.
pub record Tracks (S I : Type 0) : Type 0 where
  pub has_info : I → S → Bool
  pub album_art : I → S → Option (Option Bytes × Option ImageContainer)
  pub lyrics_in_tags : I → S → Bytes
  pub lyrics_in_file : I → S → Bytes
  pub lyrics_of_service : I → S → Bytes
  pub local_file : I → S → Bytes

module _ {S P I : Type 0} (aimp : Aimp S P I) (tracks : Tracks S I) (ids : IdManager) (s : S) where
  abbrev pub received : Option (Option Bytes × Option ImageContainer) → Option HttpContent
  received none = none
  received (some (image, container)) = on_cover_received image container

  abbrev pub cover_of : Option (P × I) → Option HttpContent
  cover_of none = none
  cover_of (some (owner, it)) =
      if tracks.has_info it s then received (tracks.album_art it s) else none

  unfoldable pub load_cover : ℤ → Option HttpContent
  unfolding on_cover_received find_playlist_item
  load_cover track_id = cover_of (find_playlist_item aimp ids track_id s)

  abbrev pub cover_answer : ℤ → Option HttpContent → Rpc Json
  cover_answer track_id none =
      rpc_error error_cover_not_found
        (bytes "Getting cover failed. Reason: album cover is not found.")
  cover_answer track_id (some cover) =
      ok (object (Rpc.field (bytes "album_cover_uri") (text (cover_uri track_id cover)) no_fields))

  unfoldable pub get_cover : Json → Rpc Json
  unfolding load_cover cover_uri integer_field
  get_cover params = elim (integer_field (bytes "track_id") params) [
    | none ↦ rpc_error invalid_params (bytes "track_id is required")
    | some track_id ↦ cover_answer track_id (load_cover track_id)
  ]

  abbrev pub cover_numbered : Option ℤ → Found
  cover_numbered none = number_out_of_range
  cover_numbered (some number) = answer_of (load_cover (to_int32 number))

  -- The address of a cover, with the matches of its pattern.
  unfoldable pub serve_cover : List Bytes → Found
  unfolding load_cover stoll to_int32
  serve_cover [] = not_found
  serve_cover (m ∷ ms) = cover_numbered (stoll m)

  abbrev pub or_text : Bytes → Bytes → Bytes
  or_text a b = if is_empty a then b else a

  unfoldable pub lyrics_of : Option (P × I) → Bytes
  lyrics_of none = []
  lyrics_of (some (owner, it)) =
      let tagged = or_text (tracks.lyrics_in_tags it s) (tracks.lyrics_in_file it s) in
      if tracks.has_info it s then or_text tagged (tracks.lyrics_of_service it s) else tagged

  unfoldable pub lyrics : Json → Rpc Json
  unfolding lyrics_of find_playlist_item integer_field
  lyrics params = elim (integer_field (bytes "track_id") params) [
    | none ↦ rpc_error invalid_params (bytes "track_id is required")
    | some track_id ↦
        let words = lyrics_of (find_playlist_item aimp ids track_id s) in
        if is_empty words
        then rpc_error error_lyrics_not_available (bytes "Lyrics not available")
        else ok (object (Rpc.field (bytes "text") (text words) no_fields))
  ]

-- `ContentTypeFor`, of the extension with its dot.
unfoldable pub content_type_for : Bytes → Bytes
content_type_for extension =
    let ext = lower_all extension in
    if ext == bytes ".mp3"
    then bytes "audio/mpeg"
    else if ext == bytes ".flac"
    then bytes "audio/flac"
    else if (ext == bytes ".ogg") || (ext == bytes ".oga") || (ext == bytes ".opus")
    then bytes "audio/ogg"
    else if (ext == bytes ".m4a") || (ext == bytes ".mp4") || (ext == bytes ".aac")
    then bytes "audio/mp4"
    else if ext == bytes ".wav"
    then bytes "audio/wav"
    else if ext == bytes ".wma"
    then bytes "audio/x-ms-wma"
    else if ext == bytes ".ape"
    then bytes "audio/x-ape"
    else bytes "application/octet-stream"
