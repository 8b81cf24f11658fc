-- ===== src/IdManager.antt =====
-- remoteControlIdManager.h and remoteControlIdManager.cpp: the ids under which the plugin publishes
-- AIMP's playlists and their items.
-- An id that the code stores is an `std::int32_t` that is never negative, and a number here; an id
-- that a client sends is any integer. The locks make each operation one step, so the second look-up,
-- under the write lock, finds what the first found.
pub mod Link
pub mod Probes
pub mod Invariant
pub mod Playlists
pub mod Items
pub mod Removal
pub mod RoundTrip
mod Tests
use aimpremote_control.Prelude.{
  ℕ, zero, suc, ◌+◌, ◌-◌, ◌%◌, ◌^◌, Bool, true, false, ◌&&◌, ◌||◌, Option, none, some, List, [],
  ◌∷◌, ◌++◌, length, if◌then◌else◌, ◌==◌, nat_eq, contains, EqTest, ◌≡◌, ◌↔◌, arith, get_or,
}
use aimpremote_control.Prelude.Text.{Bytes, bytes, bytes_eq, bytes_beq_iff, decimal}
use aimpremote_control.Prelude.Int.{ℤ, pos, negsuc, int_eq, int_beq_iff, int_text}
use aimpremote_control.Prelude.Dict.{Dict, get, has, emplace, put, erase}
use aimpremote_control.Hash.Crc32.{crc32_update}

pub record PlaylistItemKey : Type 0 where
  pub aimp_playlist_id : Bytes
  pub index : ℤ

abbrev pub key_beq : PlaylistItemKey → PlaylistItemKey → Bool
key_beq a b = (a.aimp_playlist_id == b.aimp_playlist_id) && (a.index == b.index)

pub key_beq_iff : (a b : PlaylistItemKey) → (key_beq a b ≡ true) ↔ (a ≡ b)
key_beq_iff a b = (
  λ h.
      ground
        (arith, bytes_beq_iff a.aimp_playlist_id b.aimp_playlist_id, int_beq_iff a.index b.index),
  λ h.
      ground
        (arith, bytes_beq_iff a.aimp_playlist_id b.aimp_playlist_id, int_beq_iff a.index b.index),
)

instance abbrev pub key_eq : EqTest PlaylistItemKey
key_eq = record { beq = key_beq; beq_iff = key_beq_iff }

-- `FItemsByPlaylist` holds for each playlist a set of item ids, in no order that is observed.
pub record IdManager : Type 0 where
  pub playlist_by_aimp_id : Dict Bytes ℕ
  pub playlist_by_plugin_id : Dict ℕ Bytes
  pub item_by_aimp_key : Dict PlaylistItemKey ℕ
  pub item_by_plugin_id : Dict ℕ PlaylistItemKey
  pub items_by_playlist : Dict Bytes (List ℕ)

abbrev pub int32_max : ℕ
int32_max = 2 ^ 31 - 1

-- How the search for a free id ends. `++pluginId` at the largest `std::int32_t` is an overflow, whose
-- behaviour C++ leaves undefined.
pub data Probe : Type 0 where
  free : ℕ → Probe
  overflow : Probe
  out_of_fuel : Probe

-- `while (pluginId == 0 || byPluginId.count(pluginId)) ++pluginId;`
unfoldable pub probe {ℓ} : {V : Type ℓ} → ℕ → ℕ → Dict ℕ V → Probe
unfolding has
probe zero id taken = out_of_fuel
probe (suc fuel) id taken =
    let next = probe fuel (id + 1) taken in
    if id == 0 || has id taken then (if id == int32_max then overflow else next) else free id

-- The first id that is tried: the checksum without its top bit.
unfoldable pub seed_id : Bytes → ℕ
unfolding crc32_update
seed_id seed = crc32_update 0 seed % 2 ^ 31

-- What an operation that may hand out a new id does.
pub data Assigned : Type 0 where
  assigned : ℕ → IdManager → Assigned
  undefined : Assigned
  starved : Assigned

abbrev pub assign : Probe → (ℕ → IdManager) → Assigned
assign (free id) f = assigned id (f id)
assign overflow f = undefined
assign out_of_fuel f = starved

unfoldable pub playlist_get_or_generate_plugin_id : Bytes → IdManager → Assigned
unfolding probe get emplace
playlist_get_or_generate_plugin_id aimp_id m = elim (get aimp_id m.playlist_by_aimp_id) [
  | some id ↦ assigned id m
  | none ↦
      assign (probe (length m.playlist_by_plugin_id + 2) (seed_id aimp_id) m.playlist_by_plugin_id)
        λ id. record m {
          playlist_by_aimp_id = emplace aimp_id id m.playlist_by_aimp_id;
          playlist_by_plugin_id = emplace id aimp_id m.playlist_by_plugin_id;
        }
]

-- A stored id is never negative.
abbrev pub find_id {ℓ} : {V : Type ℓ} → ℤ → Dict ℕ V → Option V
find_id (pos id) m = get id m
find_id (negsuc n) m = none

-- An unknown id has the empty key.
unfoldable pub playlist_get_key : ℤ → IdManager → Bytes
playlist_get_key id m = elim (find_id id m.playlist_by_plugin_id) [ some key ↦ key | none ↦ [] ]

-- `aimpPlaylistId + ":" + std::to_string(aimpPlaylistIndex)`
unfoldable pub item_seed : PlaylistItemKey → Bytes
unfolding int_text
item_seed key = key.aimp_playlist_id ++ bytes ":" ++ int_text key.index

abbrev pub group_of : Bytes → Dict Bytes (List ℕ) → List ℕ
group_of aimp_id groups = elim (get aimp_id groups) [ some ids ↦ ids | none ↦ [] ]

-- `insert` of a set.
unfoldable pub set_insert : ℕ → List ℕ → List ℕ
set_insert id ids = if contains id ids then ids else id ∷ ids

unfoldable pub playlist_item_get_or_generate_plugin_id : PlaylistItemKey → IdManager → Assigned
unfolding probe get emplace put set_insert
playlist_item_get_or_generate_plugin_id key m = elim (get key m.item_by_aimp_key) [
  | some id ↦ assigned id m
  | none ↦
      assign (probe (length m.item_by_plugin_id + 2) (seed_id (item_seed key)) m.item_by_plugin_id)
        λ id. record m {
          item_by_aimp_key = emplace key id m.item_by_aimp_key;
          item_by_plugin_id = emplace id key m.item_by_plugin_id;
          items_by_playlist =
              put key.aimp_playlist_id
                (set_insert id (group_of key.aimp_playlist_id m.items_by_playlist))
                m.items_by_playlist;
        }
]

abbrev pub no_key : PlaylistItemKey
no_key = record { aimp_playlist_id = []; index = pos 0 }

unfoldable pub playlist_item_get_key : ℤ → IdManager → PlaylistItemKey
playlist_item_get_key id m = elim (find_id id m.item_by_plugin_id) [
  | some key ↦ key
  | none ↦ no_key
]

unfoldable pub playlist_remove_by_key_unlocked : Bytes → IdManager → IdManager
unfolding get erase
playlist_remove_by_key_unlocked aimp_id m = elim (get aimp_id m.playlist_by_aimp_id) [
  | none ↦ m
  | some id ↦ record m {
    playlist_by_plugin_id = erase id m.playlist_by_plugin_id;
    playlist_by_aimp_id = erase aimp_id m.playlist_by_aimp_id;
  }
]

-- The body of the loop over a group.
unfoldable pub forget_item :
    ℕ
    → Dict PlaylistItemKey ℕ × Dict ℕ PlaylistItemKey
    → Dict PlaylistItemKey ℕ × Dict ℕ PlaylistItemKey
unfolding get erase
forget_item id (ids, keys) = elim (get id keys) [
  | none ↦ (ids, keys)
  | some key ↦ (erase key ids, erase id keys)
]

unfoldable pub forget_items :
    List ℕ
    → Dict PlaylistItemKey ℕ × Dict ℕ PlaylistItemKey
    → Dict PlaylistItemKey ℕ × Dict ℕ PlaylistItemKey
unfolding forget_item
forget_items [] maps = maps
forget_items (id ∷ ids) maps = forget_items ids (forget_item id maps)

unfoldable pub playlist_items_remove_by_playlist_key_unlocked : Bytes → IdManager → IdManager
unfolding forget_items get erase
playlist_items_remove_by_playlist_key_unlocked aimp_id m = elim (get aimp_id m.items_by_playlist) [
  | none ↦ m
  | some group ↦
      let maps = forget_items group (m.item_by_aimp_key, m.item_by_plugin_id) in
      record m {
        item_by_aimp_key = maps.0;
        item_by_plugin_id = maps.1;
        items_by_playlist = erase aimp_id m.items_by_playlist;
      }
]

unfoldable pub playlist_items_remove_by_playlist_key : Bytes → IdManager → IdManager
unfolding playlist_items_remove_by_playlist_key_unlocked
playlist_items_remove_by_playlist_key aimp_id m =
    playlist_items_remove_by_playlist_key_unlocked aimp_id m

unfoldable pub playlist_remove_by_key : Bytes → IdManager → IdManager
unfolding playlist_items_remove_by_playlist_key_unlocked playlist_remove_by_key_unlocked
playlist_remove_by_key aimp_id m =
    playlist_remove_by_key_unlocked aimp_id
      (playlist_items_remove_by_playlist_key_unlocked aimp_id m)
