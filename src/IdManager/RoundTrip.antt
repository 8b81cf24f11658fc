-- ===== src/IdManager/RoundTrip.antt =====
-- Ids lead back to their keys, whatever operations came before.
use aimpremote_control.Prelude.{
  ℕ, ◌+◌, ◌≤◌, ◌≡◌, refl, inl, inr, none, some, List, [], ◌∷◌, length, Option-cases, ◌==◌, ◌||◌,
  true, nat_eq,
}
use aimpremote_control.Prelude.Text.{Bytes, bytes_eq}
use aimpremote_control.Prelude.Int.{pos}
use aimpremote_control.Prelude.Dict.{get, has}
use aimpremote_control.IdManager.Probes.{probe-finds, probe-overflow}
use aimpremote_control.IdManager.Invariant.{IsValid, After}
use aimpremote_control.IdManager.Playlists.{PlaylistAssigned, playlist_get_or_generate_lem}
use aimpremote_control.IdManager.Items.{ItemAssigned, playlist_item_get_or_generate_lem}
use aimpremote_control.IdManager.Removal.{playlist_remove_lem, playlist_items_remove_lem}
use aimpremote_control.IdManager.{
  IdManager, PlaylistItemKey, key_eq, Assigned, assigned, undefined, starved, assign, Probe, free,
  overflow, out_of_fuel, seed_id, item_seed, int32_max, playlist_get_or_generate_plugin_id,
  playlist_item_get_or_generate_plugin_id, playlist_get_key, playlist_item_get_key,
  playlist_remove_by_key, playlist_items_remove_by_playlist_key,
}

known_playlist :
    (a : Bytes) (id : ℕ) (m : IdManager)
    → IsValid m
    → get a m.playlist_by_aimp_id ≡ some id
    → (playlist_get_key (pos id) m ≡ a) × (playlist_get_or_generate_plugin_id a m ≡ assigned id m)
unfolding playlist_get_key playlist_get_or_generate_plugin_id
known_playlist a id m v h =
    (rw (v.playlists.key_of a id h, playlist_get_key), rw (h, playlist_get_or_generate_plugin_id))

abbrev pub PlaylistRoundTrip : Bytes → ℕ → IdManager → Type 0
PlaylistRoundTrip a id m =
    (playlist_get_key (pos id) m ≡ a) × (playlist_get_or_generate_plugin_id a m ≡ assigned id m)

playlist_of_assigned :
    (a : Bytes) (m : IdManager) (r : Assigned)
    → After (PlaylistAssigned a m) r
    → After (PlaylistRoundTrip a) r
playlist_of_assigned a m (assigned id m') h = known_playlist a id m' h.valid h.registered
playlist_of_assigned a m undefined h = tt
playlist_of_assigned a m starved h = h

-- In a valid manager, and unless the search overflows, the id that a playlist gets leads back to the
-- playlist, and asking again returns the same id and changes nothing; the search never runs out of fuel.
pub playlist_round_trip :
    (a : Bytes) (m : IdManager)
    → IsValid m
    → After (PlaylistRoundTrip a) (playlist_get_or_generate_plugin_id a m)
playlist_round_trip a m v = playlist_of_assigned a m _ (playlist_get_or_generate_lem a m v)

known_item :
    (k : PlaylistItemKey) (id : ℕ) (m : IdManager)
    → IsValid m
    → get k m.item_by_aimp_key ≡ some id
    → (playlist_item_get_key (pos id) m ≡ k)
      × (playlist_item_get_or_generate_plugin_id k m ≡ assigned id m)
unfolding playlist_item_get_key playlist_item_get_or_generate_plugin_id
known_item k id m v h = (
  rw (v.items.key_of k id h, playlist_item_get_key),
  rw (h, playlist_item_get_or_generate_plugin_id),
)

abbrev pub ItemRoundTrip : PlaylistItemKey → ℕ → IdManager → Type 0
ItemRoundTrip k id m =
    (playlist_item_get_key (pos id) m ≡ k)
    × (playlist_item_get_or_generate_plugin_id k m ≡ assigned id m)

item_of_assigned :
    (k : PlaylistItemKey) (m : IdManager) (r : Assigned)
    → After (ItemAssigned k m) r
    → After (ItemRoundTrip k) r
item_of_assigned k m (assigned id m') h = known_item k id m' h.valid h.registered
item_of_assigned k m undefined h = tt
item_of_assigned k m starved h = h

-- In a valid manager, and unless the search overflows, the id that an item gets leads back to the item,
-- and asking again returns the same id and changes nothing; the search never runs out of fuel.
pub item_round_trip :
    (k : PlaylistItemKey) (m : IdManager)
    → IsValid m
    → After (ItemRoundTrip k) (playlist_item_get_or_generate_plugin_id k m)
item_round_trip k m v = item_of_assigned k m _ (playlist_item_get_or_generate_lem k m v)

assigned_of :
    (r : Probe) (f : ℕ → IdManager) (id : ℕ)
    → r ≡ free id
    → (p : ℕ) × (m' : IdManager) × (assign r f ≡ assigned p m')
assigned_of r f id h = (id, f id, rw h)

-- While the first id that is tried and the number of registered items leave room below the largest
-- `std::int32_t`, an item gets an id.
pub item_assigned :
    (k : PlaylistItemKey) (m : IdManager)
    → seed_id (item_seed k) + length m.item_by_plugin_id + 1 ≤ int32_max
    → (id : ℕ) × (m' : IdManager) × (playlist_item_get_or_generate_plugin_id k m ≡ assigned id m')
unfolding playlist_item_get_or_generate_plugin_id
item_assigned k m room = elim (Option-cases (get k m.item_by_aimp_key)) [
  | inr (id, old) ↦ (id, m, rw (old, playlist_item_get_or_generate_plugin_id))
  | inl new ↦
      let (id, found) = probe-finds (seed_id (item_seed k)) m.item_by_plugin_id room in
      rw (new, playlist_item_get_or_generate_plugin_id) (assigned_of _ _ id found)
]

overflow_busy :
    (k : PlaylistItemKey) (m : IdManager) (r : Probe) (f : ℕ → IdManager)
    → assign r f ≡ undefined
    → r ≡ overflow
overflow_busy k m (free id) f h = cc
overflow_busy k m overflow f h = refl
overflow_busy k m out_of_fuel f h = cc

-- Handing out an item id overflows only for an item that is not registered, and only if every id
-- from the first that is tried to the largest `std::int32_t` is 0 or taken.
pub item_undefined :
    (k : PlaylistItemKey) (m : IdManager)
    → playlist_item_get_or_generate_plugin_id k m ≡ undefined
    → (get k m.item_by_aimp_key ≡ none)
      × ((j : ℕ)
          → seed_id (item_seed k) ≤ j
          → j ≤ int32_max
          → (j == 0 || has j m.item_by_plugin_id) ≡ true)
unfolding playlist_item_get_or_generate_plugin_id
item_undefined k m h = elim (Option-cases (get k m.item_by_aimp_key)) [
  | inr (id, old) ↦ cc (rw (old, playlist_item_get_or_generate_plugin_id) at h)
  | inl new ↦ (
    new,
    probe-overflow _ (seed_id (item_seed k)) m.item_by_plugin_id
        (overflow_busy k m _ _ (rw (new, playlist_item_get_or_generate_plugin_id) at h)),
  )
]

-- The calls that the commands make.
pub data Operation : Type 0 where
  publish_playlist : Bytes → Operation
  publish_item : PlaylistItemKey → Operation
  forget_playlist : Bytes → Operation
  forget_playlist_items : Bytes → Operation

unfoldable pub perform : Operation → IdManager → Assigned
perform (publish_playlist a) m = playlist_get_or_generate_plugin_id a m
perform (publish_item k) m = playlist_item_get_or_generate_plugin_id k m
perform (forget_playlist a) m = assigned 0 (playlist_remove_by_key a m)
perform (forget_playlist_items a) m = assigned 0 (playlist_items_remove_by_playlist_key a m)

-- A history ends at an overflow, after which nothing is defined.
unfoldable pub after_history : List Operation → Assigned → Assigned
unfolding perform
after_history [] r = r
after_history (op ∷ ops) (assigned id m) = after_history ops (perform op m)
after_history (op ∷ ops) undefined = undefined
after_history (op ∷ ops) starved = starved

abbrev pub empty : IdManager
empty = record {
  playlist_by_aimp_id = [];
  playlist_by_plugin_id = [];
  item_by_aimp_key = [];
  item_by_plugin_id = [];
  items_by_playlist = [];
}

pub empty-IsValid : IsValid empty
unfolding get has
empty-IsValid = record {
  playlists = record { id_of = λ p k h. cc; key_of = λ k p h. cc; range = λ p k h. cc };
  items = record { id_of = λ p k h. cc; key_of = λ k p h. cc; range = λ p k h. cc };
  grouped = λ p k h. cc;
  owned = λ p a k c h. cc;
  live = λ p a c. cc;
}

abbrev pub Valid : ℕ → IdManager → Type 0
Valid id m = IsValid m

playlist-Valid :
    (a : Bytes) (m : IdManager) (r : Assigned) → After (PlaylistAssigned a m) r → After Valid r
playlist-Valid a m (assigned id m') h = h.valid
playlist-Valid a m undefined h = tt
playlist-Valid a m starved h = h

item-Valid :
    (k : PlaylistItemKey) (m : IdManager) (r : Assigned)
    → After (ItemAssigned k m) r
    → After Valid r
item-Valid k m (assigned id m') h = h.valid
item-Valid k m undefined h = tt
item-Valid k m starved h = h

perform-Valid : (op : Operation) (m : IdManager) → IsValid m → After Valid (perform op m)
unfolding perform
perform-Valid (publish_playlist a) m v = playlist-Valid a m _ (playlist_get_or_generate_lem a m v)
perform-Valid (publish_item k) m v = item-Valid k m _ (playlist_item_get_or_generate_lem k m v)
perform-Valid (forget_playlist a) m v = (playlist_remove_lem a m v).valid
perform-Valid (forget_playlist_items a) m v = (playlist_items_remove_lem a m v).valid

after_history-Valid :
    (ops : List Operation) (r : Assigned) → After Valid r → After Valid (after_history ops r)
unfolding after_history
after_history-Valid [] r v = v
after_history-Valid (op ∷ ops) (assigned id m) v =
    after_history-Valid ops (perform op m) (perform-Valid op m v)
after_history-Valid (op ∷ ops) undefined v = tt
after_history-Valid (op ∷ ops) starved v = v

-- From the empty manager, any history of operations that meets no overflow ends in a valid manager.
pub history-Valid : (ops : List Operation) → After Valid (after_history ops (assigned 0 empty))
history-Valid ops = after_history-Valid ops (assigned 0 empty) empty-IsValid
