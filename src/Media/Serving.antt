-- ===== src/Media/Serving.antt =====
-- remoteControlServer.cpp: the routes that AddGet adds; and whose files a download may give away.
use aimpremote_control.Prelude.{
  ◌≡◌, refl, inl, inr, Bool, true, false, not, ◌||◌, Option, none, some, List, [], ◌∷◌,
  if◌then◌else◌, is_empty, Bool-cases,
}
use aimpremote_control.Prelude.Text.{Bytes}
use aimpremote_control.Prelude.Int.{ℤ}
use aimpremote_control.Rpc.{to_int32}
use aimpremote_control.Digest.{stoll}
use aimpremote_control.IdManager.{IdManager}
use aimpremote_control.Aimp.{Aimp, find_playlist_item}
use aimpremote_control.Uploads.{Paths}
use aimpremote_control.Media.{
  HttpContent, Found, found, not_found, number_out_of_range, answer_of, Tracks,
}
use aimpremote_control.Media.Files.{
  local_file_name, file_content, download_numbered, download_track,
}

-- What the library is told to send. An exception of the handler is the library's to answer.
pub data Reply : Type 0 where
  missing : Reply
  sends_file : (disposition : Option Bytes) → (path content_type : Bytes) → Reply
  sends_body : (disposition : Option Bytes) → (body content_type : Bytes) → Reply
  failed : Reply

-- The groups of a match, after the whole.
abbrev pub groups : List Bytes → List Bytes
groups [] = []
groups (whole ∷ rest) = rest

unfoldable pub reply_of : Found → Reply
reply_of not_found = missing
reply_of number_out_of_range = failed
reply_of (found content) =
    if is_empty content.file_path
    then sends_body content.disposition content.body content.content_type
    else sends_file content.disposition content.file_path content.content_type

unfoldable pub get_route : (handler : List Bytes → Found) → (matches : List Bytes) → Reply
unfolding reply_of
get_route handler matches = reply_of (handler (groups matches))

module _ {S P I : Type 0} (paths : Paths) (aimp : Aimp S P I) (tracks : Tracks S I)
    (is_regular_file : Bytes → Bool) (ids : IdManager) (s : S) where
  -- The file is a regular one, and that of an item which AIMP has in a playlist and which is no URL.
  pub record OfTrack (path : Bytes) : Type 0 where
    pub regular : is_regular_file path ≡ true
    pub owner : P
    pub it : I
    pub track_id : ℤ
    pub listed : find_playlist_item aimp ids track_id s ≡ some (owner, it)
    pub local : tracks.local_file it s ≡ path

  -- What a file that is sent is, from the two tests of the handler.
  opened :
      (blank regular : Bool) (content : HttpContent) (path : Bytes) (disposition : Option Bytes)
      (content_type : Bytes)
      → reply_of (answer_of (if blank || not regular then none else some content))
        ≡ sends_file disposition path content_type
      → (blank ≡ false) × (regular ≡ true) × (content.file_path ≡ path)
  unfolding reply_of
  opened true regular content path disposition content_type e = cc
  opened false false content path disposition content_type e = cc
  opened false true content path disposition content_type e =
      elim (Bool-cases (is_empty content.file_path)) [
        | inl bare ↦ cc (rw bare at e)
        | inr full ↦ (refl, refl, path_of (rw full at e))
      ]
    where
      path_of :
          sends_file content.disposition content.file_path content.content_type
            ≡ sends_file disposition path content_type
          → content.file_path ≡ path
      path_of q = cc

  sent :
      (track_id : ℤ) (o : Option (P × I)) (path : Bytes)
      → find_playlist_item aimp ids track_id s ≡ o
      → (is_empty (elim o [ none ↦ [] | some (owner, it) ↦ tracks.local_file it s ]) ≡ false)
        × (is_regular_file (elim o [ none ↦ [] | some (owner, it) ↦ tracks.local_file it s ])
            ≡ true)
        × (elim o [ none ↦ [] | some (owner, it) ↦ tracks.local_file it s ] ≡ path)
      → OfTrack path
  sent track_id none path there (full, regular, same) = cc
  sent track_id (some (owner, it)) path there (full, regular, same) = record {
    regular = rw (← same) regular;
    owner = owner;
    it = it;
    track_id = track_id;
    listed = there;
    local = same;
  }

  numbered_sent :
      (o : Option ℤ) (disposition : Option Bytes) (path content_type : Bytes)
      → reply_of (download_numbered paths aimp tracks is_regular_file ids s o)
        ≡ sends_file disposition path content_type
      → OfTrack path
  unfolding reply_of file_content local_file_name
  numbered_sent none disposition path content_type e = cc
  numbered_sent (some number) disposition path content_type e =
      sent (to_int32 number) _ path refl (opened _ _ _ path disposition content_type e)

  -- The route of the downloads sends only files that are regular and that AIMP itself names: the local
  -- file of an item that it has in a playlist, whatever address a client asks for.
  pub download_track-OfTrack :
      (matches : List Bytes) (disposition : Option Bytes) (path content_type : Bytes)
      → get_route (download_track paths aimp tracks is_regular_file ids s) matches
        ≡ sends_file disposition path content_type
      → OfTrack path
  unfolding get_route reply_of download_track
  download_track-OfTrack [] disposition path content_type e = cc
  download_track-OfTrack (whole ∷ []) disposition path content_type e = cc
  download_track-OfTrack (whole ∷ m ∷ ms) disposition path content_type e =
      numbered_sent (stoll m) disposition path content_type e
