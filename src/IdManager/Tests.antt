-- ===== src/IdManager/Tests.antt =====
-- Runs of the id manager, and its theorems at concrete inputs.
use aimpremote_control.Prelude.{
  ℕ, ◌≡◌, refl, List, [], ◌∷◌, arith, none, Option, ◌==◌, ◌||◌, true, nat_eq, ◌≤◌, some,
}
use aimpremote_control.Prelude.Text.{bytes, bytes_beq}
use aimpremote_control.Prelude.Int.{pos}
use aimpremote_control.Prelude.Dict.{get, has}
use aimpremote_control.IdManager.Invariant.{IsValid, After}
use aimpremote_control.IdManager.Playlists.{PlaylistAssigned, playlist_get_or_generate_lem}
use aimpremote_control.IdManager.Items.{ItemAssigned, playlist_item_get_or_generate_lem}
use aimpremote_control.IdManager.Removal.{
  ItemsForgotten, PlaylistForgotten, playlist_items_remove_lem, playlist_remove_lem,
}
use aimpremote_control.IdManager.RoundTrip.{
  PlaylistRoundTrip, ItemRoundTrip, playlist_round_trip, item_round_trip, item_assigned,
  item_undefined, history-Valid, after_history, publish_item, publish_playlist, forget_playlist,
  empty, empty-IsValid, Valid, Operation,
}
use aimpremote_control.IdManager.{
  IdManager, PlaylistItemKey, key_eq, Assigned, assigned, undefined, seed_id, item_seed, int32_max,
  playlist_get_or_generate_plugin_id, playlist_item_get_or_generate_plugin_id,
  playlist_remove_by_key, playlist_items_remove_by_playlist_key,
}

abbrev first_track : PlaylistItemKey
first_track = record { aimp_playlist_id = bytes "A"; index = pos 0 }

abbrev one_item : IdManager
one_item = record {
  playlist_by_aimp_id = [];
  playlist_by_plugin_id = [];
  item_by_aimp_key = (first_track, int32_max) ∷ [];
  item_by_plugin_id = (int32_max, first_track) ∷ [];
  items_by_playlist = (bytes "A", int32_max ∷ []) ∷ [];
}

first_id : ℕ
first_id = seed_id (item_seed first_track)

published_leads_back :
    After (PlaylistRoundTrip (bytes "A")) (playlist_get_or_generate_plugin_id (bytes "A") empty)
published_leads_back = playlist_round_trip (bytes "A") empty empty-IsValid

item_round_trip_example :
    After (ItemRoundTrip first_track) (playlist_item_get_or_generate_plugin_id first_track empty)
item_round_trip_example = item_round_trip first_track empty empty-IsValid

item_assigned_run :
    (id : ℕ) × (m' : IdManager) × (playlist_item_get_or_generate_plugin_id first_track one_item
      ≡ assigned id m')
item_assigned_run = item_assigned first_track one_item (unfold seed_id item_seed in omega arith)

abbrev script : List Operation
script =
    publish_playlist (bytes "A")
    ∷ publish_item first_track
    ∷ forget_playlist (bytes "A")
    ∷ publish_item first_track
    ∷ []

history-Valid_example : After Valid (after_history script (assigned 0 empty))
history-Valid_example = history-Valid script

abbrev id_of : Assigned → Option ℕ
id_of (assigned id m) = some id
id_of _ = none

-- The end of that history, by evaluation.
script_ends : id_of (after_history script (assigned 0 empty)) ≡ some 225038384
unfolding after_history playlist_get_or_generate_plugin_id playlist_item_get_or_generate_plugin_id
    playlist_remove_by_key seed_id item_seed bytes_beq
script_ends = refl

-- A seed whose checksum, without its top bit, is the largest id.
abbrev last_track : PlaylistItemKey
last_track = record { aimp_playlist_id = bytes "26A266E0"; index = pos 0 }

runs_over : playlist_item_get_or_generate_plugin_id last_track one_item ≡ undefined
unfolding playlist_item_get_or_generate_plugin_id seed_id item_seed bytes_beq
runs_over = refl

item_undefined_example :
    (get last_track one_item.item_by_aimp_key ≡ none)
    × ((j : ℕ)
        → seed_id (item_seed last_track) ≤ j
        → j ≤ int32_max
        → (j == 0 || has j one_item.item_by_plugin_id) ≡ true)
item_undefined_example = item_undefined last_track one_item runs_over

-- A playlist with an item, both published.
abbrev published : IdManager
published = record {
  playlist_by_aimp_id = (bytes "A", 1406770827) ∷ [];
  playlist_by_plugin_id = (1406770827, bytes "A") ∷ [];
  item_by_aimp_key = (first_track, 225038384) ∷ [];
  item_by_plugin_id = (225038384, first_track) ∷ [];
  items_by_playlist = (bytes "A", 225038384 ∷ []) ∷ [];
}

published-IsValid : IsValid published
unfolding after_history playlist_get_or_generate_plugin_id playlist_item_get_or_generate_plugin_id
    seed_id item_seed bytes_beq
published-IsValid = history-Valid (publish_playlist (bytes "A") ∷ publish_item first_track ∷ [])

playlist_remove_lem_example :
    PlaylistForgotten (bytes "A") published (playlist_remove_by_key (bytes "A") published)
playlist_remove_lem_example = playlist_remove_lem (bytes "A") published published-IsValid

playlist_items_remove_lem_run :
    ItemsForgotten
      (bytes "A")
      published
      (playlist_items_remove_by_playlist_key (bytes "A") published)
playlist_items_remove_lem_run = playlist_items_remove_lem (bytes "A") published published-IsValid

playlist_get_or_generate_lem_run :
    After
      (PlaylistAssigned (bytes "A") empty)
      (playlist_get_or_generate_plugin_id (bytes "A") empty)
playlist_get_or_generate_lem_run = playlist_get_or_generate_lem (bytes "A") empty empty-IsValid

playlist_item_get_or_generate_lem_run :
    After
      (ItemAssigned first_track empty)
      (playlist_item_get_or_generate_plugin_id first_track empty)
playlist_item_get_or_generate_lem_run =
    playlist_item_get_or_generate_lem first_track empty empty-IsValid
