-- ===== src/IdManager/Playlists.antt =====
-- Handing out playlist ids.
use aimpremote_control.Prelude.{
  ℕ, ◌+◌, ◌≡◌, ◌≢◌, refl, inl, inr, none, some, length, arith, nat_eq, Option-cases,
}
use aimpremote_control.Prelude.Text.{Bytes, bytes_eq, bytes_beq_iff}
use aimpremote_control.Prelude.Dict.{get, emplace, get-emplace_new}
use aimpremote_control.IdManager.Link.{IsLinked-emplace}
use aimpremote_control.IdManager.Probes.{probe-IsFirstFree, probe-ne-out_of_fuel, IsFirstFree}
use aimpremote_control.IdManager.{
  IdManager, key_eq, assign, Probe, free, overflow, out_of_fuel, probe, seed_id,
  playlist_get_or_generate_plugin_id,
}
use aimpremote_control.IdManager.Invariant.{IsValid, After, unused_get, seed_id-le}

-- A playlist id that is handed out is the one under which the playlist is registered; the manager
-- stays valid; and what was registered stays so, in both directions.
pub record PlaylistAssigned (a : Bytes) (m : IdManager) (id : ℕ) (m' : IdManager) : Type 0 where
  pub valid : IsValid m'
  pub registered : get a m'.playlist_by_aimp_id ≡ some id
  pub kept :
      (b : Bytes) (q : ℕ)
      → get b m.playlist_by_aimp_id ≡ some q
      → get b m'.playlist_by_aimp_id ≡ some q
  pub others : (b : Bytes) → a ≢ b → get b m'.playlist_by_aimp_id ≡ get b m.playlist_by_aimp_id

playlist_fresh :
    (a : Bytes) (m : IdManager) (id : ℕ)
    → IsValid m
    → get a m.playlist_by_aimp_id ≡ none
    → IsFirstFree (seed_id a) id m.playlist_by_plugin_id
    → PlaylistAssigned a m id (record m {
      playlist_by_aimp_id = emplace a id m.playlist_by_aimp_id;
      playlist_by_plugin_id = emplace id a m.playlist_by_plugin_id;
    })
playlist_fresh a m id v new f = record {
  valid = record {
    playlists =
        IsLinked-emplace m.playlist_by_aimp_id m.playlist_by_plugin_id v.playlists a id new
          (unused_get id m.playlist_by_plugin_id f.unused) f.positive f.small;
    items = v.items;
    grouped = v.grouped;
    owned = v.owned;
    live = v.live;
  };
  registered = ground (arith, get-emplace_new a a id m.playlist_by_aimp_id new, bytes_beq_iff a a);
  kept =
      λ b q h. ground (arith, get-emplace_new a b id m.playlist_by_aimp_id new, bytes_beq_iff a b);
  others =
      λ b ne. ground (arith, get-emplace_new a b id m.playlist_by_aimp_id new, bytes_beq_iff a b);
}

pub playlist_get_or_generate_lem :
    (a : Bytes) (m : IdManager)
    → IsValid m
    → After (PlaylistAssigned a m) (playlist_get_or_generate_plugin_id a m)
unfolding playlist_get_or_generate_plugin_id
playlist_get_or_generate_lem a m v = elim (Option-cases (get a m.playlist_by_aimp_id)) [
  | inr (id, old) ↦
      rw (old, playlist_get_or_generate_plugin_id)
        (record { valid = v; registered = old; kept = λ b q h. h; others = λ b ne. refl })
  | inl new ↦ rw (new, playlist_get_or_generate_plugin_id) (searched new _ refl)
]
  where
    searched :
        get a m.playlist_by_aimp_id ≡ none
        → (r : Probe)
        → probe (length m.playlist_by_plugin_id + 2) (seed_id a) m.playlist_by_plugin_id ≡ r
        → After (PlaylistAssigned a m) (
            assign r λ id. record m {
              playlist_by_aimp_id = emplace a id m.playlist_by_aimp_id;
              playlist_by_plugin_id = emplace id a m.playlist_by_plugin_id;
            })
    searched new (free id) e =
        playlist_fresh a m id v new
          (probe-IsFirstFree _ (seed_id a) id m.playlist_by_plugin_id (seed_id-le a) e)
    searched new overflow e = tt
    searched new out_of_fuel e = probe-ne-out_of_fuel (seed_id a) m.playlist_by_plugin_id e
