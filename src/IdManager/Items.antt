-- ===== src/IdManager/Items.antt =====
-- Handing out item ids.
use aimpremote_control.Prelude.{
  ℕ, ◌+◌, ◌≡◌, ◌≢◌, refl, inl, inr, none, some, List, length, arith, ◌==◌, contains, nat_eq,
  nat_beq_iff, if◌then◌else◌, ◌||◌, ◌&&◌, false, Option-cases,
}
use aimpremote_control.Prelude.Text.{Bytes, bytes_eq, bytes_beq_iff}
use aimpremote_control.Prelude.Dict.{
  Dict, get, has, put, emplace, get-put, get-emplace_new, has-emplace_new,
}
use aimpremote_control.IdManager.Link.{IsLinked-emplace}
use aimpremote_control.IdManager.Probes.{probe-IsFirstFree, probe-ne-out_of_fuel, IsFirstFree}
use aimpremote_control.IdManager.{
  IdManager, PlaylistItemKey, key_eq, key_beq_iff, assign, Probe, free, overflow, out_of_fuel,
  probe, seed_id, item_seed, group_of, set_insert, playlist_item_get_or_generate_plugin_id,
}
use aimpremote_control.IdManager.Invariant.{IsValid, After, unused_get, seed_id-le}

contains-set_insert :
    (id p : ℕ) (g : List ℕ) → contains p (set_insert id g) ≡ (id == p || contains p g)
unfolding set_insert
contains-set_insert id p g = ground (arith, nat_beq_iff id p)

group_of-put :
    (a b : Bytes) (g : List ℕ) (groups : Dict Bytes (List ℕ))
    → group_of b (put a g groups) ≡ (if a == b then g else group_of b groups)
group_of-put a b g groups = ground (arith, get-put a b g groups)

-- An item id that is handed out is the one under which the item is registered; the manager stays
-- valid; and what was registered stays so.
pub record ItemAssigned (k : PlaylistItemKey) (m : IdManager) (id : ℕ) (m' : IdManager)
    : Type 0 where
  pub valid : IsValid m'
  pub registered : get k m'.item_by_aimp_key ≡ some id
  pub kept :
      (j : PlaylistItemKey) (q : ℕ)
      → get j m.item_by_aimp_key ≡ some q
      → get j m'.item_by_aimp_key ≡ some q
  pub others : (j : PlaylistItemKey) → k ≢ j → get j m'.item_by_aimp_key ≡ get j m.item_by_aimp_key

module _ (k : PlaylistItemKey) (m : IdManager) (id : ℕ) (v : IsValid m) where
  open m use {item_by_aimp_key, item_by_plugin_id, items_by_playlist}

  abbrev grown : Dict Bytes (List ℕ)
  grown =
      put k.aimp_playlist_id (set_insert id (group_of k.aimp_playlist_id items_by_playlist))
        items_by_playlist

  contains-grown :
      (p : ℕ) (a : Bytes)
      → contains p (group_of a grown)
        ≡ ((k.aimp_playlist_id == a) && id == p || contains p (group_of a items_by_playlist))
  contains-grown p a =
      let here = contains-set_insert id p (group_of k.aimp_playlist_id items_by_playlist) in
      ground (
        arith,
        group_of-put k.aimp_playlist_id a
            (set_insert id (group_of k.aimp_playlist_id items_by_playlist)) items_by_playlist,
        bytes_beq_iff k.aimp_playlist_id a,
        here,
      )

  item_fresh :
      get k item_by_aimp_key ≡ none
      → IsFirstFree (seed_id (item_seed k)) id item_by_plugin_id
      → ItemAssigned k m id (record m {
        item_by_aimp_key = emplace k id item_by_aimp_key;
        item_by_plugin_id = emplace id k item_by_plugin_id;
        items_by_playlist = grown;
      })
  item_fresh new f = record {
    valid = record {
      playlists = v.playlists;
      items =
          IsLinked-emplace item_by_aimp_key item_by_plugin_id v.items k id new free f.positive
            f.small;
      grouped = λ p j h. ground (
        arith,
        contains-grown p j.aimp_playlist_id,
        get-emplace_new id p k item_by_plugin_id free,
        bytes_beq_iff k.aimp_playlist_id j.aimp_playlist_id,
        v.grouped p j,
      );
      owned = λ p a j c h. ground (
        arith,
        contains-grown p a,
        get-emplace_new id p k item_by_plugin_id free,
        bytes_beq_iff k.aimp_playlist_id a,
        nat_beq_iff id p,
        not_live p,
        v.live p a,
        v.owned p a j,
      );
      live = λ p a c.
          ground
            (arith, contains-grown p a, has-emplace_new id p k item_by_plugin_id free, v.live p a);
    };
    registered = ground (arith, get-emplace_new k k id item_by_aimp_key new, key_beq_iff k k);
    kept = λ j q h. ground (arith, get-emplace_new k j id item_by_aimp_key new, key_beq_iff k j);
    others = λ j ne. ground (arith, get-emplace_new k j id item_by_aimp_key new, key_beq_iff k j);
  }
    where
      free : get id item_by_plugin_id ≡ none
      free = unused_get id item_by_plugin_id f.unused

      not_live : (p : ℕ) → id ≡ p → has p item_by_plugin_id ≡ false
      not_live p e = rw (← e) f.unused

-- Handing out an item id in a valid manager, unless it overflows, keeps the manager valid, registers the
-- item under the id, and changes the id of no other item.
pub playlist_item_get_or_generate_lem :
    (k : PlaylistItemKey) (m : IdManager)
    → IsValid m
    → After (ItemAssigned k m) (playlist_item_get_or_generate_plugin_id k m)
unfolding playlist_item_get_or_generate_plugin_id
playlist_item_get_or_generate_lem k m v = elim (Option-cases (get k m.item_by_aimp_key)) [
  | inr (id, old) ↦
      rw (old, playlist_item_get_or_generate_plugin_id)
        (record { valid = v; registered = old; kept = λ j q h. h; others = λ j ne. refl })
  | inl new ↦ rw (new, playlist_item_get_or_generate_plugin_id) (searched new _ refl)
]
  where
    searched :
        get k m.item_by_aimp_key ≡ none
        → (r : Probe)
        → probe (length m.item_by_plugin_id + 2) (seed_id (item_seed k)) m.item_by_plugin_id ≡ r
        → After (ItemAssigned k m) (
            assign r λ id. record m {
              item_by_aimp_key = emplace k id m.item_by_aimp_key;
              item_by_plugin_id = emplace id k m.item_by_plugin_id;
              items_by_playlist =
                  put k.aimp_playlist_id
                    (set_insert id (group_of k.aimp_playlist_id m.items_by_playlist))
                    m.items_by_playlist;
            })
    searched new (free id) e = item_fresh k m id v new (
        probe-IsFirstFree _ (seed_id (item_seed k)) id m.item_by_plugin_id
          (seed_id-le (item_seed k)) e)
    searched new overflow e = tt
    searched new out_of_fuel e = probe-ne-out_of_fuel (seed_id (item_seed k)) m.item_by_plugin_id e
