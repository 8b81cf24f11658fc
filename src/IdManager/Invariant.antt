-- ===== src/IdManager/Invariant.antt =====
-- What holds of the id manager between two operations.
use aimpremote_control.Prelude.{ℕ, ◌≤◌, ◌≡◌, none, some, arith, contains, nat_eq, true, false}
use aimpremote_control.Prelude.Text.{Bytes, bytes_eq}
use aimpremote_control.Prelude.Dict.{Dict, get, has}
use aimpremote_control.IdManager.Link.{IsLinked}
use aimpremote_control.IdManager.{
  IdManager, PlaylistItemKey, key_eq, Assigned, assigned, undefined, starved, seed_id, int32_max,
  group_of,
}

-- Both pairs of maps are inverse to each other, with ids from 1 to the largest `std::int32_t`, and
-- each group holds exactly the ids of the items of its playlist.
pub record IsValid (m : IdManager) : Type 0 where
  pub playlists : IsLinked m.playlist_by_aimp_id m.playlist_by_plugin_id
  pub items : IsLinked m.item_by_aimp_key m.item_by_plugin_id
  pub grouped :
      (p : ℕ) (k : PlaylistItemKey)
      → get p m.item_by_plugin_id ≡ some k
      → contains p (group_of k.aimp_playlist_id m.items_by_playlist) ≡ true
  pub owned :
      (p : ℕ) (a : Bytes) (k : PlaylistItemKey)
      → contains p (group_of a m.items_by_playlist) ≡ true
      → get p m.item_by_plugin_id ≡ some k
      → k.aimp_playlist_id ≡ a
  pub live :
      (p : ℕ) (a : Bytes)
      → contains p (group_of a m.items_by_playlist) ≡ true
      → has p m.item_by_plugin_id ≡ true

-- What holds of an operation that hands out an id, whatever it does.
abbrev pub After : (ℕ → IdManager → Type 0) → Assigned → Type 0
After P (assigned id m) = P id m
After P undefined = Unit
After P starved = ⊥

pub unused_get : {V : Type 0} (p : ℕ) (m : Dict ℕ V) → has p m ≡ false → get p m ≡ none
unfolding has
unused_get p m h = ground arith

pub seed_id-le : (s : Bytes) → seed_id s ≤ int32_max
unfolding seed_id
seed_id-le s = omega arith
