-- ===== src/Entries.antt =====
-- helpers/playlistEntryJson.cpp: the fields of a playlist entry, and the search.
-- What AIMP tells of the item is the context. A text that AIMP does not give is `none`.
use aimpremote_control.Prelude.{
  ℕ, zero, suc, ◌+◌, ◌-◌, ◌*◌, ◌/◌, ◌^◌, Bool, true, false, not, ◌||◌, Option, none, some, [],
  if◌then◌else◌, ◌==◌, is_empty,
}
use aimpremote_control.Prelude.Text.{Bytes, bytes, bytes_eq}
use aimpremote_control.Prelude.Int.{ℤ, pos, negsuc, int_eq}
use aimpremote_control.Rpc.{Json, null, boolean, integer, real, text}

-- IAIMPFileInfo; the duration is the fraction n / 2 ^ k of seconds.
pub record FileInfo : Type 0 where
  pub title : Option Bytes
  pub artist : Option Bytes
  pub album : Option Bytes
  pub genre : Option Bytes
  pub date : Option Bytes
  pub bitrate : ℤ
  pub channels : ℤ
  pub samplerate : ℤ
  pub filesize : ℤ
  pub duration : ℤ × ℕ

-- PlaylistEntryContext, with what the service for file names makes of the URI.
pub record EntryContext : Type 0 where
  pub entry_id : ℤ
  pub playlist_id : ℤ
  pub queue_index : ℤ
  pub file_info : Option FileInfo
  pub file_uri : Option Bytes
  pub file_name : Option Bytes
  pub parent_dir_name : Option Bytes
  pub mark : Option (ℤ × ℕ)
  pub playing_switch : Option ℤ

abbrev pub or_empty : Option Bytes → Bytes
or_empty none = []
or_empty (some t) = t

-- GetPropertyAsString and FileInfoString, and FileInfoInt32.
abbrev pub info_text : (FileInfo → Option Bytes) → Option FileInfo → Option Bytes
info_text f none = none
info_text f (some i) = f i

abbrev pub info_number : (FileInfo → ℤ) → Option FileInfo → ℤ
info_number f none = pos 0
info_number f (some i) = f i

-- A title that is there and not empty.
abbrev pub full_title : Option Bytes → Option Bytes
full_title none = none
full_title (some t) = if is_empty t then none else some t

unfoldable pub title_or_file_name : EntryContext → Option Bytes
title_or_file_name ctx = elim (full_title (info_text (λ i. i.title) ctx.file_info)) [
  | some t ↦ some t
  | none ↦ ctx.file_name
]

-- Whether a text is found; `found` is AIMP's search without regard to case.
abbrev pub matches : (Bytes → Bool) → Option Bytes → Bool
matches found none = false
matches found (some t) = found t

unfoldable pub playlist_entry_matches : (found : Bytes → Bool) → EntryContext → Bool
unfolding title_or_file_name
playlist_entry_matches found ctx =
    matches found (title_or_file_name ctx)
    || matches found (info_text (λ i. i.artist) ctx.file_info)
    || matches found (info_text (λ i. i.album) ctx.file_info)
    || matches found (info_text (λ i. i.genre) ctx.file_info)
    || matches found ctx.parent_dir_name

-- std::ceil of n / 2 ^ k.
unfoldable pub ceiling : ℤ × ℕ → ℤ
ceiling (pos n, k) = pos ((n + 2 ^ k - 1) / 2 ^ k)
ceiling (negsuc n, k) = elim (suc n / 2 ^ k) [ zero ↦ pos 0 | suc m ↦ negsuc m ]

abbrev pub times_thousand : ℤ → ℤ
times_thousand (pos n) = pos (n * 1000)
times_thousand (negsuc n) = negsuc (suc n * 1000 - 1)

abbrev pub info_duration : Option FileInfo → ℤ × ℕ
info_duration none = (pos 0, 0)
info_duration (some i) = i.duration

abbrev pub mark_json : Option (ℤ × ℕ) → Json
mark_json none = real (pos 0) 0
mark_json (some (z, k)) = real z k

abbrev pub is_enabled : Option ℤ → Bool
is_enabled none = true
is_enabled (some v) = not (v == pos 0)

abbrev pub info_json : (FileInfo → Option Bytes) → EntryContext → Json
info_json f ctx = text (or_empty (info_text f ctx.file_info))

-- The title, or the stem of the file's name, which std::filesystem cuts.
unfoldable pub title_field : (stem : Bytes → Bytes) → EntryContext → Bytes
title_field stem ctx = elim (full_title (info_text (λ i. i.title) ctx.file_info)) [
  | some t ↦ t
  | none ↦ stem (or_empty ctx.file_name)
]

unfoldable pub playlist_entry_field : (stem : Bytes → Bytes) → Bytes → EntryContext → Json
unfolding title_field ceiling
playlist_entry_field stem field ctx =
    if field == bytes "id"
    then integer ctx.entry_id
    else if field == bytes "playlist_id"
    then integer ctx.playlist_id
    else if field == bytes "queue_index"
    then integer ctx.queue_index
    else if field == bytes "title"
    then text (title_field stem ctx)
    else if field == bytes "artist"
    then info_json (λ i. i.artist) ctx
    else if field == bytes "album"
    then info_json (λ i. i.album) ctx
    else if field == bytes "genre"
    then info_json (λ i. i.genre) ctx
    else if field == bytes "filename"
    then text (or_empty ctx.file_uri)
    else if field == bytes "foldername"
    then text (or_empty ctx.parent_dir_name)
    else if field == bytes "bitrate"
    then integer (info_number (λ i. i.bitrate) ctx.file_info)
    else if field == bytes "channels_count"
    then integer (info_number (λ i. i.channels) ctx.file_info)
    else if field == bytes "samplerate"
    then integer (info_number (λ i. i.samplerate) ctx.file_info)
    else if field == bytes "date"
    then info_json (λ i. i.date) ctx
    else if field == bytes "filesize"
    then integer (info_number (λ i. i.filesize) ctx.file_info)
    else if field == bytes "duration"
    then integer (times_thousand (ceiling (info_duration ctx.file_info)))
    else if field == bytes "rating"
    then mark_json ctx.mark
    else if field == bytes "enabled"
    then boolean (is_enabled ctx.playing_switch)
    else null
