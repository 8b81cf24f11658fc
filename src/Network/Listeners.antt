-- ===== src/Network/Listeners.antt =====
-- The addresses that the discovery server listens on.
use aimpremote_control.Prelude.{
  ◌≡◌, refl, arith, Bool, true, false, not, ◌&&◌, ◌||◌, List, [], ◌∷◌, ◌++◌, ◌==◌, contains, any,
  filter,
}
use aimpremote_control.Prelude.Text.{Bytes, bytes_eq, bytes_beq_iff}
use aimpremote_control.Network.{
  NetworkAddress, allowed_addresses, wanted, Opened, discovery_round, discovery_reconcile,
}

pub contains-filter :
    (p : Bytes → Bool) (x : Bytes) (xs : List Bytes)
    → contains x (filter p xs) ≡ (p x && contains x xs)
contains-filter p x [] = ground arith
contains-filter p x (y ∷ ys) = ground (arith, contains-filter p x ys, bytes_beq_iff y x)

pub contains-append :
    (x : Bytes) (xs ys : List Bytes) → contains x (xs ++ ys) ≡ (contains x xs || contains x ys)
contains-append x [] ys = refl
contains-append x (z ∷ zs) ys = ground (arith, contains-append x zs ys)

-- An address is allowed exactly if the system lists it on an interface that is not excluded.
pub wanted-allowed_addresses :
    (excluded : List Bytes) (listed : List NetworkAddress) (address : Bytes)
    → wanted (allowed_addresses excluded listed) address
      ≡ any (λ a. not (contains a.interface_id excluded) && (a.address == address)) listed
unfolding wanted allowed_addresses
wanted-allowed_addresses excluded [] address = refl
wanted-allowed_addresses excluded (a ∷ rest) address =
    ground (arith, wanted-allowed_addresses excluded rest address)

round_listeners :
    (opens : Bytes → Bool) (allowed : List NetworkAddress) (o : Opened) (x : Bytes)
    → contains x (discovery_round opens allowed o).listeners
      ≡ (contains x o.listeners || (wanted allowed x && opens x))
unfolding discovery_round wanted
round_listeners opens [] o x = ground arith
round_listeners opens (a ∷ rest) o x = ground (
  arith,
  round_listeners opens rest o x,
  round_listeners opens rest (record o { listeners = a.address ∷ o.listeners }) x,
  round_listeners opens rest (record o { complete = false }) x,
  bytes_beq_iff a.address x,
)

-- After a reconciliation the discovery server listens on an address exactly if it is allowed, and was
-- listened on before or can be bound.
pub discovery_reconcile-listeners :
    (opens : Bytes → Bool) (allowed : List NetworkAddress) (listeners : List Bytes) (x : Bytes)
    → contains x (discovery_reconcile opens allowed listeners).listeners
      ≡ (wanted allowed x && (contains x listeners || opens x))
unfolding discovery_reconcile
discovery_reconcile-listeners opens allowed listeners x = ground (
  arith,
  round_listeners opens allowed
      (record { listeners = filter (wanted allowed) listeners; complete = true }) x,
  contains-filter (wanted allowed) x listeners,
)
