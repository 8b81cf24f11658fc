-- ===== src/Network/Tests.antt =====
-- The listeners at concrete addresses: one can be bound, one cannot.
use aimpremote_control.Prelude.{
  ◌≡◌, refl, Bool, true, false, not, ◌&&◌, ◌||◌, List, [], ◌∷◌, contains, ◌==◌, any,
}
use aimpremote_control.Prelude.Text.{Bytes, bytes, bytes_eq, bytes_beq}
use aimpremote_control.Network.{
  NetworkAddress, wanted, allowed_addresses, ServerState, reconcile, discovery_reconcile,
}
use aimpremote_control.Network.Listeners.{wanted-allowed_addresses, discovery_reconcile-listeners}
use aimpremote_control.Network.Server.{
  reconcile-listeners, reconcile-reported, reconcile_complete, reconcile-quiet, all_listened,
}

abbrev at : Bytes → Bytes → NetworkAddress
at interface address = record {
  interface_id = interface;
  interface_name = interface;
  address = address;
  is_loopback = false;
}

abbrev home : Bytes
home = bytes "192.168.1.2"

abbrev busy : Bytes
busy = bytes "10.0.0.2"

abbrev listed : List NetworkAddress
listed = at (bytes "eth0") home ∷ at (bytes "tun0") busy ∷ []

abbrev opens : Bytes → Bool
opens a = a == home

abbrev running_server : ServerState
running_server = record {
  listeners = [];
  reported = [];
  port = 3333;
  running = true;
  has_handler = true;
  failures = [];
}

wanted-allowed_addresses_run :
    wanted (allowed_addresses (bytes "tun0" ∷ []) listed) busy
    ≡ any (λ a. not (contains a.interface_id (bytes "tun0" ∷ [])) && (a.address == busy)) listed
wanted-allowed_addresses_run = wanted-allowed_addresses (bytes "tun0" ∷ []) listed busy

discovery_reconcile-listeners_run :
    contains home (discovery_reconcile opens listed (busy ∷ [])).listeners
    ≡ (wanted listed home && (contains home (busy ∷ []) || opens home))
discovery_reconcile-listeners_run = discovery_reconcile-listeners opens listed (busy ∷ []) home

reconcile-listeners_example :
    contains home (reconcile opens listed running_server).1.listeners
    ≡ (wanted listed home && (contains home running_server.listeners || opens home))
reconcile-listeners_example = reconcile-listeners opens listed running_server home refl

reconcile-reported_run : contains busy (reconcile opens listed running_server).1.reported ≡ (
    wanted listed busy
    && not (contains busy running_server.listeners || opens busy)
    && (contains busy running_server.reported || running_server.has_handler))
reconcile-reported_run = reconcile-reported opens listed running_server busy refl

reconcile_complete_run :
    (reconcile opens listed running_server).0
    ≡ all_listened opens listed (reconcile opens listed running_server).1
reconcile_complete_run = reconcile_complete opens listed running_server refl

reconcile-quiet_run :
    (reconcile opens listed (reconcile opens listed running_server).1).1.failures
    ≡ (reconcile opens listed running_server).1.failures
reconcile-quiet_run = reconcile-quiet opens listed running_server

reports_once : (reconcile opens listed running_server).1.failures ≡ ((busy, 3333) ∷ [])
unfolding reconcile bytes_beq
reports_once = refl
