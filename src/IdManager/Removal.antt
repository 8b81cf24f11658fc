-- ===== src/IdManager/Removal.antt =====
-- Forgetting a playlist's items, and a playlist.
use aimpremote_control.Prelude.{
  ℕ, ◌≡◌, refl, sym, ap, ◌∙◌, inl, inr, none, some, List, [], ◌∷◌, arith, ◌==◌, contains, nat_eq,
  nat_beq_iff, if◌then◌else◌, true, false, Option-cases, Bool-cases,
}
use aimpremote_control.Prelude.Text.{Bytes, bytes_eq, bytes_beq_iff}
use aimpremote_control.Prelude.Dict.{Dict, get, has, erase, get-erase, has-some, some-has}
use aimpremote_control.IdManager.Link.{IsLinked, IsLinked-erase}
use aimpremote_control.IdManager.Invariant.{IsValid}
use aimpremote_control.IdManager.{
  IdManager, PlaylistItemKey, key_eq, group_of, forget_item, forget_items,
  playlist_remove_by_key_unlocked, playlist_items_remove_by_playlist_key_unlocked,
  playlist_items_remove_by_playlist_key, playlist_remove_by_key,
}

abbrev Maps : Type 0
Maps = Dict PlaylistItemKey ℕ × Dict ℕ PlaylistItemKey

abbrev Linked : Maps → Type 0
Linked maps = IsLinked maps.0 maps.1

-- One round of the loop keeps the maps inverse and takes its own id out.
forget_item-Linked : (id : ℕ) (maps : Maps) → Linked maps → Linked (forget_item id maps)
unfolding forget_item
forget_item-Linked id (ids, keys) l = elim (Option-cases (get id keys)) [
  | inl e ↦ rw (e, forget_item) l
  | inr (k, e) ↦ rw (e, forget_item) (IsLinked-erase ids keys l k id e)
]

get-forget_item :
    (id q : ℕ) (maps : Maps)
    → get q (forget_item id maps).1 ≡ (if id == q then none else get q maps.1)
unfolding forget_item
get-forget_item id q (ids, keys) = ground (arith, get-erase id q keys, nat_beq_iff id q)

forget_items-Linked :
    (group : List ℕ) (maps : Maps) → Linked maps → Linked (forget_items group maps)
unfolding forget_items
forget_items-Linked [] maps l = l
forget_items-Linked (id ∷ group) maps l =
    forget_items-Linked group (forget_item id maps) (forget_item-Linked id maps l)

get-forget_items :
    (group : List ℕ) (q : ℕ) (maps : Maps)
    → get q (forget_items group maps).1 ≡ (if contains q group then none else get q maps.1)
unfolding forget_items
get-forget_items [] q maps = refl
get-forget_items (id ∷ group) q maps =
    ground (arith, get-forget_items group q (forget_item id maps), get-forget_item id q maps)

-- Every item of the playlist is forgotten in all three maps, and nothing else changes.
pub record ItemsForgotten (a : Bytes) (m m' : IdManager) : Type 0 where
  pub valid : IsValid m'
  pub by_key :
      (k : PlaylistItemKey)
      → get k m'.item_by_aimp_key
        ≡ (if k.aimp_playlist_id == a then none else get k m.item_by_aimp_key)
  pub group : get a m'.items_by_playlist ≡ none
  pub playlists_kept : m'.playlist_by_aimp_id ≡ m.playlist_by_aimp_id
  pub playlist_ids_kept : m'.playlist_by_plugin_id ≡ m.playlist_by_plugin_id

module _ (a : Bytes) (m : IdManager) (v : IsValid m) where
  open m use {item_by_aimp_key, item_by_plugin_id, items_by_playlist}

  contains-erase :
      (p : ℕ) (b : Bytes)
      → contains p (group_of b (erase a items_by_playlist))
        ≡ (if a == b then false else contains p (group_of b items_by_playlist))
  contains-erase p b = ground (arith, get-erase a b items_by_playlist)

  -- Without a group the playlist has no item.
  no_group :
      get a items_by_playlist ≡ none
      → (k : PlaylistItemKey) → k.aimp_playlist_id ≡ a
      → get k item_by_aimp_key ≡ none
  no_group missing k e = elim (Option-cases (get k item_by_aimp_key)) [
    | inl unknown ↦ unknown
    | inr (p, known) ↦ absurd (
        empty p (v.grouped p k (v.items.key_of k p known))
          (ap (λ b. get b items_by_playlist) e ∙ missing))
  ]
    where
      empty :
          (p : ℕ)
          → contains p (group_of k.aimp_playlist_id items_by_playlist) ≡ true
          → get k.aimp_playlist_id items_by_playlist ≡ none
          → ⊥
      empty p c h = ground arith

  module _ (group : List ℕ) (known : get a items_by_playlist ≡ some group) where
    after : Maps
    after = forget_items group (item_by_aimp_key, item_by_plugin_id)

    after-Linked : Linked after
    unfolding after
    after-Linked = forget_items-Linked group (item_by_aimp_key, item_by_plugin_id) v.items

    get-after :
        (q : ℕ) → get q after.1 ≡ (if contains q group then none else get q item_by_plugin_id)
    unfolding after
    get-after q = get-forget_items group q (item_by_aimp_key, item_by_plugin_id)

    member : (q : ℕ) → contains q (group_of a items_by_playlist) ≡ contains q group
    member q = ground (arith, known)

    in_group :
        (q : ℕ) (k : PlaylistItemKey)
        → get q item_by_plugin_id ≡ some k
        → contains q group ≡ (k.aimp_playlist_id == a)
    in_group q k h = elim (Bool-cases (k.aimp_playlist_id == a)) [
      | inl same ↦ rw same (
          sym (member q)
          ∙ ap (λ b. contains q (group_of b items_by_playlist))
              (sym ((bytes_beq_iff k.aimp_playlist_id a).0 same))
          ∙ v.grouped q k h)
      | inr differs ↦ rw differs (not_in differs)
    ]
      where
        not_in : (k.aimp_playlist_id == a) ≡ false → contains q group ≡ false
        not_in d = ground (arith, member q, v.owned q a k, bytes_beq_iff k.aimp_playlist_id a)

    by_key_after :
        (k : PlaylistItemKey)
        → get k after.0 ≡ (if k.aimp_playlist_id == a then none else get k item_by_aimp_key)
    by_key_after k = elim (Option-cases (get k after.0)) [
      | inr (p, found) ↦
          let there = after-Linked.key_of k p found in
          found ∙ ground (arith, there, get-after p, in_group p k, v.items.id_of p k)
      | inl gone ↦ gone ∙ absent gone
    ]
      where
        absent :
            get k after.0 ≡ none
            → none ≡ (if k.aimp_playlist_id == a then none else get k item_by_aimp_key)
        absent gone = elim (Option-cases (get k item_by_aimp_key)) [
          | inl never ↦ ground arith
          | inr (p, was) ↦
              let key = v.items.key_of k p was in
              ground (arith, key, get-after p, in_group p k, after-Linked.id_of p k)
        ]

    forgotten : ItemsForgotten a m (record m {
      item_by_aimp_key = after.0;
      item_by_plugin_id = after.1;
      items_by_playlist = erase a items_by_playlist;
    })
    forgotten = record {
      valid = record {
        playlists = v.playlists;
        items = after-Linked;
        grouped = λ p k h. ground (
          arith,
          get-after p,
          in_group p k,
          contains-erase p k.aimp_playlist_id,
          bytes_beq_iff a k.aimp_playlist_id,
          bytes_beq_iff k.aimp_playlist_id a,
          v.grouped p k,
        );
        owned = λ p b k c h. ground (arith, get-after p, contains-erase p b, v.owned p b k);
        live = λ p b c. still_live p b c;
      };
      by_key = by_key_after;
      group = ground (arith, get-erase a a items_by_playlist, bytes_beq_iff a a);
      playlists_kept = refl;
      playlist_ids_kept = refl;
    }
      where
        still_live :
            (p : ℕ) (b : Bytes)
            → contains p (group_of b (erase a items_by_playlist)) ≡ true
            → has p after.1 ≡ true
        still_live p b c =
            let (k, key) =
              has-some p item_by_plugin_id (v.live p b (ground (arith, contains-erase p b))) in
            some-has p k after.1 (
              ground (
                arith,
                key,
                get-after p,
                in_group p k key,
                contains-erase p b,
                v.owned p b k,
                bytes_beq_iff a b,
                bytes_beq_iff k.aimp_playlist_id a,
              ))

-- Forgetting the items of a playlist, in a valid manager, keeps the manager valid, forgets every item of
-- the playlist and no other, and keeps the playlists.
pub playlist_items_remove_lem :
    (a : Bytes) (m : IdManager)
    → IsValid m
    → ItemsForgotten a m (playlist_items_remove_by_playlist_key a m)
unfolding playlist_items_remove_by_playlist_key
playlist_items_remove_lem a m v = elim (Option-cases (get a m.items_by_playlist)) [
  | inr (group, known) ↦
      rw (known, playlist_items_remove_by_playlist_key_unlocked)
        (unfold after in forgotten a m v group known)
  | inl missing ↦
      rw (missing, playlist_items_remove_by_playlist_key_unlocked)
        (record {
          valid = v;
          by_key =
              λ k. ground (arith, no_group a m v missing k, bytes_beq_iff k.aimp_playlist_id a);
          group = missing;
          playlists_kept = refl;
          playlist_ids_kept = refl;
        })
]

-- Removing a playlist forgets its items and its own id, and nothing of the other playlists.
pub record PlaylistForgotten (a : Bytes) (m m' : IdManager) : Type 0 where
  pub valid : IsValid m'
  pub playlist :
      (b : Bytes)
      → get b m'.playlist_by_aimp_id ≡ (if a == b then none else get b m.playlist_by_aimp_id)
  pub items :
      (k : PlaylistItemKey)
      → get k m'.item_by_aimp_key
        ≡ (if k.aimp_playlist_id == a then none else get k m.item_by_aimp_key)

remove_playlist :
    (a : Bytes) (m m' : IdManager)
    → ItemsForgotten a m m'
    → PlaylistForgotten a m (playlist_remove_by_key_unlocked a m')
unfolding playlist_remove_by_key_unlocked
remove_playlist a m m' f = elim (Option-cases (get a m'.playlist_by_aimp_id)) [
  | inl unknown ↦
      rw (unknown, playlist_remove_by_key_unlocked)
        (record {
          valid = f.valid;
          playlist = λ b. ground (arith, f.playlists_kept, bytes_beq_iff a b, unknown_at b unknown);
          items = f.by_key;
        })
  | inr (id, known) ↦
      rw (known, playlist_remove_by_key_unlocked)
        (record {
          valid = record {
            playlists =
                IsLinked-erase m'.playlist_by_aimp_id m'.playlist_by_plugin_id f.valid.playlists a
                  id (f.valid.playlists.key_of a id known);
            items = f.valid.items;
            grouped = f.valid.grouped;
            owned = f.valid.owned;
            live = f.valid.live;
          };
          playlist = λ b.
              get-erase a b m'.playlist_by_aimp_id
              ∙ ap (λ d. if a == b then none else get b d) f.playlists_kept;
          items = f.by_key;
        })
]
  where
    unknown_at :
        (b : Bytes)
        → get a m'.playlist_by_aimp_id ≡ none
        → a ≡ b
        → get b m'.playlist_by_aimp_id ≡ none
    unknown_at b h e = ap (λ c. get c m'.playlist_by_aimp_id) (sym e) ∙ h

-- Removing a playlist from a valid manager keeps it valid, forgets the playlist and its items, and keeps
-- what is known of the other playlists.
pub playlist_remove_lem :
    (a : Bytes) (m : IdManager) → IsValid m → PlaylistForgotten a m (playlist_remove_by_key a m)
unfolding playlist_remove_by_key playlist_items_remove_by_playlist_key
playlist_remove_lem a m v = remove_playlist a m _ (playlist_items_remove_lem a m v)
