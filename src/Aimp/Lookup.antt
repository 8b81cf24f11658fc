-- ===== src/Aimp/Lookup.antt =====
-- The ids that the plugin publishes lead to the objects that they were published for.
use aimpremote_control.Prelude.{ℕ, ◌≡◌, ap}
use aimpremote_control.Prelude.Int.{pos}
use aimpremote_control.IdManager.{
  IdManager, PlaylistItemKey, Assigned, assigned, undefined, starved,
  playlist_item_get_or_generate_plugin_id,
}
use aimpremote_control.IdManager.Invariant.{IsValid, After}
use aimpremote_control.IdManager.RoundTrip.{ItemRoundTrip, item_round_trip}
use aimpremote_control.Aimp.{Aimp, loaded_playlist_by_aimp_id, item_of, find_playlist_item}

module _ {S P I : Type 0} (aimp : Aimp S P I) where
  -- What an id leads to, with the manager that handed it out.
  abbrev pub LeadsTo : PlaylistItemKey → S → ℕ → IdManager → Type 0
  LeadsTo key s id ids =
      find_playlist_item aimp ids (pos id) s
      ≡ item_of aimp key (loaded_playlist_by_aimp_id aimp key.aimp_playlist_id s) s

  leads_of_round_trip :
      (key : PlaylistItemKey) (s : S) (r : Assigned)
      → After (ItemRoundTrip key) r
      → After (LeadsTo key s) r
  unfolding find_playlist_item
  leads_of_round_trip key s (assigned id ids) h =
      ap (λ k. item_of aimp k (loaded_playlist_by_aimp_id aimp k.aimp_playlist_id s) s) h.0
  leads_of_round_trip key s undefined h = tt
  leads_of_round_trip key s starved h = h

  -- The id that a valid manager hands out for an item, unless its search overflows, leads to the item at its place in its playlist, as
  -- AIMP has it when it is asked, and to nothing if the playlist is gone or shorter.
  pub find_playlist_item-published :
      (key : PlaylistItemKey) (ids : IdManager) (s : S)
      → IsValid ids
      → After (LeadsTo key s) (playlist_item_get_or_generate_plugin_id key ids)
  find_playlist_item-published key ids s v =
      leads_of_round_trip key s (playlist_item_get_or_generate_plugin_id key ids)
        (item_round_trip key ids v)
