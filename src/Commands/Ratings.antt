-- ===== src/Commands/Ratings.antt =====
-- setTrackRatingCommand.cpp, over the interface of AIMP.
use aimpremote_control.Prelude.{ℕ, ◌*◌, ◌^◌, Option, none, some, if◌then◌else◌, ltb}
use aimpremote_control.Prelude.Text.{bytes}
use aimpremote_control.Prelude.Int.{ℤ, pos, negsuc}
use aimpremote_control.Rpc.{
  Json, real, object, no_fields, lookup, integer_field, Rpc, ok, rpc_error, invalid_params,
}
use aimpremote_control.Rpc
use aimpremote_control.IdManager.{IdManager}
use aimpremote_control.Aimp.{Aimp, find_playlist_item}
use aimpremote_control.Commands.Scheduler.{number_of}
use aimpremote_control.Commands.Tracks.{error_track_not_found}

-- AIMP_PLAYLISTITEM_PROPID_MARK; a mark that cannot be read is 0.
pub record Marks (S I : Type 0) : Type 0 where
  pub set_mark : I → ℤ × ℕ → S → S
  pub get_mark : I → S → ℤ × ℕ

-- std::clamp of n / 2 ^ k between 0 and 5.
unfoldable pub clamp_rating : ℤ × ℕ → ℤ × ℕ
clamp_rating (negsuc n, k) = (pos 0, 0)
clamp_rating (pos n, k) = if ltb (5 * 2 ^ k) n then (pos 5, 0) else (pos n, k)

module _ {S P I : Type 0} (aimp : Aimp S P I) (marks : Marks S I) where
  abbrev pub rating_json : ℤ × ℕ → Json
  rating_json (z, k) = object (Rpc.field (bytes "rating") (real z k) no_fields)

  unfoldable pub rate_item : ℤ × ℕ → Option (P × I) → S → Rpc Json × S
  unfolding clamp_rating
  rate_item rating none s =
      (rpc_error error_track_not_found (bytes "Setting rating failed. Reason: track not found."), s)
  rate_item rating (some (owner, item)) s =
      let s' = marks.set_mark item (clamp_rating rating) s in
      (ok (rating_json (marks.get_mark item s')), s')

  unfoldable pub rate : IdManager → ℤ → Option (ℤ × ℕ) → S → Rpc Json × S
  unfolding rate_item find_playlist_item
  rate ids track_id none s = (rpc_error invalid_params (bytes "rating is required"), s)
  rate ids track_id (some rating) s = rate_item rating (find_playlist_item aimp ids track_id s) s

  unfoldable pub set_track_rating : IdManager → Json → S → Rpc Json × S
  unfolding rate number_of
  set_track_rating ids params s = elim (integer_field (bytes "track_id") params) [
    | none ↦ (rpc_error invalid_params (bytes "track_id is required"), s)
    | some track_id ↦ rate ids track_id (number_of (lookup (bytes "rating") params)) s
  ]
