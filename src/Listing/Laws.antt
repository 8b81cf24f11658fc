-- ===== src/Listing/Laws.antt =====
-- What holds of a result with ids, and of the manager that handed them out.
use aimpremote_control.Prelude.{ℕ, ◌≡◌, refl, inl, inr, some, Option-cases}
use aimpremote_control.Prelude.Text.{Bytes, bytes_eq}
use aimpremote_control.Prelude.Dict.{get}
use aimpremote_control.IdManager.{
  IdManager, PlaylistItemKey, key_eq, Assigned, assigned, undefined, starved, assign, Probe, free,
  overflow, out_of_fuel, playlist_get_or_generate_plugin_id,
  playlist_item_get_or_generate_plugin_id,
}
use aimpremote_control.IdManager.Invariant.{IsValid, After}
use aimpremote_control.IdManager.Playlists.{PlaylistAssigned, playlist_get_or_generate_lem}
use aimpremote_control.IdManager.Items.{ItemAssigned, playlist_item_get_or_generate_lem}
use aimpremote_control.Listing.{Given, given, undefined_id, starved_id, with_id, and_then}

abbrev pub AfterGiven : {A : Type 0} → (A → IdManager → Type 0) → Given A → Type 0
AfterGiven Q (given a m) = Q a m
AfterGiven Q undefined_id = Unit
AfterGiven Q starved_id = ⊥

-- A later manager: valid, with every id of the earlier one.
pub record Extends (m m' : IdManager) : Type 0 where
  pub valid : IsValid m'
  pub items_kept :
      (k : PlaylistItemKey) (id : ℕ)
      → get k m.item_by_aimp_key ≡ some id
      → get k m'.item_by_aimp_key ≡ some id
  pub playlists_kept :
      (a : Bytes) (id : ℕ)
      → get a m.playlist_by_aimp_id ≡ some id
      → get a m'.playlist_by_aimp_id ≡ some id

pub Extends-refl : (m : IdManager) → IsValid m → Extends m m
Extends-refl m v = record { valid = v; items_kept = λ k id h. h; playlists_kept = λ a id h. h }

pub Extends-trans : (a b c : IdManager) → Extends a b → Extends b c → Extends a c
Extends-trans a b c x y = record {
  valid = y.valid;
  items_kept = λ k id h. y.items_kept k id (x.items_kept k id h);
  playlists_kept = λ k id h. y.playlists_kept k id (x.playlists_kept k id h);
}

-- What holds of the manager that is left, if there is one.
abbrev IfAssigned : (ℕ → IdManager → Type 0) → Assigned → Type 0
IfAssigned Q (assigned id m) = Q id m
IfAssigned Q undefined = Unit
IfAssigned Q starved = Unit

module _ (k : PlaylistItemKey) (m : IdManager) where
  abbrev SamePlaylists : ℕ → IdManager → Type 0
  SamePlaylists id m' = m'.playlist_by_aimp_id ≡ m.playlist_by_aimp_id

  searched :
      (r : Probe) (f : ℕ → IdManager)
      → ((id : ℕ) → (f id).playlist_by_aimp_id ≡ m.playlist_by_aimp_id)
      → IfAssigned SamePlaylists (assign r f)
  searched (free id) f h = h id
  searched overflow f h = tt
  searched out_of_fuel f h = tt

  same_playlists : IfAssigned SamePlaylists (playlist_item_get_or_generate_plugin_id k m)
  unfolding playlist_item_get_or_generate_plugin_id
  same_playlists = elim (Option-cases (get k m.item_by_aimp_key)) [
    | inr (id, old) ↦ rw (old, playlist_item_get_or_generate_plugin_id) refl
    | inl new ↦ rw (new, playlist_item_get_or_generate_plugin_id) (searched _ _ (λ id. refl))
  ]

  -- An item is registered in a later manager.
  abbrev pub ItemPublished : ℕ → IdManager → Type 0
  ItemPublished id m' = Extends m m' × (get k m'.item_by_aimp_key ≡ some id)

  published :
      (r : Assigned)
      → After (ItemAssigned k m) r
      → IfAssigned SamePlaylists r
      → After ItemPublished r
  published (assigned id m') h same = (
    record { valid = h.valid; items_kept = h.kept; playlists_kept = λ a id e. rw same e },
    h.registered,
  )
  published undefined h same = tt
  published starved h same = h

  pub item_published : IsValid m → After ItemPublished (playlist_item_get_or_generate_plugin_id k m)
  item_published v = published _ (playlist_item_get_or_generate_lem k m v) same_playlists

module _ (a : Bytes) (m : IdManager) where
  abbrev SameItems : ℕ → IdManager → Type 0
  SameItems id m' = m'.item_by_aimp_key ≡ m.item_by_aimp_key

  probed :
      (r : Probe) (f : ℕ → IdManager)
      → ((id : ℕ) → (f id).item_by_aimp_key ≡ m.item_by_aimp_key)
      → IfAssigned SameItems (assign r f)
  probed (free id) f h = h id
  probed overflow f h = tt
  probed out_of_fuel f h = tt

  same_items : IfAssigned SameItems (playlist_get_or_generate_plugin_id a m)
  unfolding playlist_get_or_generate_plugin_id
  same_items = elim (Option-cases (get a m.playlist_by_aimp_id)) [
    | inr (id, old) ↦ rw (old, playlist_get_or_generate_plugin_id) refl
    | inl new ↦ rw (new, playlist_get_or_generate_plugin_id) (probed _ _ (λ id. refl))
  ]

  abbrev pub PlaylistPublished : ℕ → IdManager → Type 0
  PlaylistPublished id m' = Extends m m' × (get a m'.playlist_by_aimp_id ≡ some id)

  announced :
      (r : Assigned)
      → After (PlaylistAssigned a m) r
      → IfAssigned SameItems r
      → After PlaylistPublished r
  announced (assigned id m') h same = (
    record { valid = h.valid; items_kept = λ k id e. rw same e; playlists_kept = h.kept },
    h.registered,
  )
  announced undefined h same = tt
  announced starved h same = h

  pub playlist_published :
      IsValid m → After PlaylistPublished (playlist_get_or_generate_plugin_id a m)
  playlist_published v = announced _ (playlist_get_or_generate_lem a m v) same_items

-- To go through `with_id` and `and_then`.
pub with_id-AfterGiven :
    {A : Type 0} (R : ℕ → IdManager → Type 0) (Q : A → IdManager → Type 0) (r : Assigned)
    (f : ℕ → IdManager → Given A)
    → After R r
    → ((id : ℕ) (m : IdManager) → R id m → AfterGiven Q (f id m))
    → AfterGiven Q (with_id r f)
with_id-AfterGiven R Q (assigned id m) f h k = k id m h
with_id-AfterGiven R Q undefined f h k = tt
with_id-AfterGiven R Q starved f h k = h

pub and_then-AfterGiven :
    {A B : Type 0} (R : A → IdManager → Type 0) (Q : B → IdManager → Type 0) (g : Given A)
    (f : A → IdManager → Given B)
    → AfterGiven R g
    → ((a : A) (m : IdManager) → R a m → AfterGiven Q (f a m))
    → AfterGiven Q (and_then g f)
and_then-AfterGiven R Q (given a m) f h k = k a m h
and_then-AfterGiven R Q undefined_id f h k = tt
and_then-AfterGiven R Q starved_id f h k = h
