-- ===== src/Network.antt =====
-- helpers/networkWatcher.cpp, the listeners of remoteControlServer.cpp and of serviceDiscoveryServer.cpp:
-- which addresses are served. What the system does with a socket is a parameter: `opens a` tells
-- whether the address `a` can be bound, which
-- does not change during a reconciliation. The mutexes make each reconciliation one step.
pub mod Listeners
pub mod Server
pub mod Watcher
mod Tests
use aimpremote_control.Prelude.{
  ℕ, Bool, true, false, not, ◌&&◌, ◌||◌, Option, none, some, List, [], ◌∷◌, ◌++◌, if◌then◌else◌,
  ◌==◌, contains, any, filter,
}
use aimpremote_control.Prelude.Text.{Bytes, bytes_eq}

pub record NetworkAddress : Type 0 where
  pub interface_id : Bytes
  pub interface_name : Bytes
  pub address : Bytes
  pub is_loopback : Bool

-- `AllowedAddresses`, of the addresses that the system lists.
unfoldable pub allowed_addresses : List Bytes → List NetworkAddress → List NetworkAddress
allowed_addresses excluded listed = filter (λ a. not (contains a.interface_id excluded)) listed

-- The lambda `wanted`.
unfoldable pub wanted : List NetworkAddress → Bytes → Bool
wanted allowed address = any (λ a. a.address == address) allowed

-- What the rounds over the allowed addresses leave.
pub record Opened : Type 0 where
  pub listeners : List Bytes
  pub complete : Bool

-- serviceDiscoveryServer.cpp: the map of sockets by address.
unfoldable pub discovery_round : (Bytes → Bool) → List NetworkAddress → Opened → Opened
discovery_round opens [] o = o
discovery_round opens (a ∷ rest) o = discovery_round opens rest (
    if contains a.address o.listeners
    then o
    else if opens a.address
    then record o { listeners = a.address ∷ o.listeners }
    else record o { complete = false })

unfoldable pub discovery_reconcile : (Bytes → Bool) → List NetworkAddress → List Bytes → Opened
unfolding discovery_round wanted
discovery_reconcile opens allowed listeners =
    discovery_round opens allowed
      (record { listeners = filter (wanted allowed) listeners; complete = true })

-- remoteControlServer.cpp: the state of the server's listeners; `reported` is `ReportedBindFailures`,
-- and `failures` the calls of the handler, newest first.
pub record ServerState : Type 0 where
  pub listeners : List Bytes
  pub reported : List Bytes
  pub port : ℕ
  pub running : Bool
  pub has_handler : Bool
  pub failures : List (Bytes × ℕ)

abbrev pub without : Bytes → List Bytes → List Bytes
without a xs = filter (λ x. not (x == a)) xs

-- The body of the loop over the allowed addresses, for an address that is bound.
unfoldable pub serve_bound : Bytes → ServerState → ServerState
serve_bound a s = record s { reported = without a s.reported }

-- And for one that cannot be: the handler is called the first time.
unfoldable pub report_failure : Bytes → ServerState → ServerState
report_failure a s =
    if s.has_handler && not (contains a s.reported)
    then record s { reported = a ∷ s.reported; failures = (a, s.port) ∷ s.failures }
    else s

unfoldable pub server_round : (Bytes → Bool) → Bytes → ServerState → ServerState
unfolding serve_bound report_failure
server_round opens a s =
    if contains a s.listeners
    then serve_bound a s
    else if opens a
    then serve_bound a (record s { listeners = s.listeners ++ a ∷ [] })
    else report_failure a s

unfoldable pub server_rounds : (Bytes → Bool) → List NetworkAddress → ServerState → ServerState
unfolding server_round
server_rounds opens [] s = s
server_rounds opens (a ∷ rest) s = server_rounds opens rest (server_round opens a.address s)

-- `complete`: whether no round failed.
unfoldable pub rounds_complete : (Bytes → Bool) → List NetworkAddress → ServerState → Bool
unfolding server_round
rounds_complete opens [] s = true
rounds_complete opens (a ∷ rest) s =
    (contains a.address s.listeners || opens a.address)
    && rounds_complete opens rest (server_round opens a.address s)

-- The listeners and the reports of addresses that are not wanted any more go.
unfoldable pub drop_unwanted : List NetworkAddress → ServerState → ServerState
unfolding wanted
drop_unwanted allowed s = record s {
  listeners = filter (wanted allowed) s.listeners;
  reported = filter (wanted allowed) s.reported;
}

unfoldable pub reconcile : (Bytes → Bool) → List NetworkAddress → ServerState → Bool × ServerState
unfolding server_rounds rounds_complete drop_unwanted
reconcile opens allowed s =
    if s.running
    then (
      rounds_complete opens allowed (drop_unwanted allowed s),
      server_rounds opens allowed (drop_unwanted allowed s),
    )
    else (true, s)

unfoldable pub close_all : ServerState → ServerState
close_all s = record s { running = false; listeners = [] }

unfoldable pub start : ℕ → ServerState → ServerState
start port s = record s { port = port; running = true }
