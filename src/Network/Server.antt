-- ===== src/Network/Server.antt =====
-- The server's listeners, and the reports of addresses that cannot be bound.
use aimpremote_control.Prelude.{
  ◌≡◌, refl, sym, ap, ◌∙◌, arith, Bool, true, false, not, ◌&&◌, ◌||◌, List, [], ◌∷◌, if◌then◌else◌,
  ◌==◌, contains, Bool-cases, inl, inr,
}
use aimpremote_control.Prelude.Text.{Bytes, bytes_eq, bytes_beq_iff}
use aimpremote_control.Network.{
  NetworkAddress, wanted, ServerState, without, serve_bound, report_failure, server_round,
  server_rounds, rounds_complete, drop_unwanted, reconcile,
}
use aimpremote_control.Network.Listeners.{contains-filter, contains-append}

contains-without :
    (a x : Bytes) (xs : List Bytes) → contains x (without a xs) ≡ (not (a == x) && contains x xs)
contains-without a x xs =
    ground (arith, contains-filter (λ y. not (y == a)) x xs, bytes_beq_iff a x, bytes_beq_iff x a)

module _ (opens : Bytes → Bool) where
  -- Whether an address is listened on once its round is over.
  abbrev served : Bytes → ServerState → Bool
  served x s = contains x s.listeners || opens x

  round_listeners :
      (a x : Bytes) (s : ServerState)
      → contains x (server_round opens a s).listeners
        ≡ (contains x s.listeners || ((a == x) && opens x))
  unfolding server_round serve_bound report_failure
  round_listeners a x s = ground (arith, contains-append x s.listeners (a ∷ []), bytes_beq_iff a x)

  round_reported :
      (a x : Bytes) (s : ServerState)
      → contains x (server_round opens a s).reported ≡ (
          if a == x
          then (if served x s then false else contains x s.reported || s.has_handler)
          else contains x s.reported)
  unfolding server_round serve_bound report_failure
  round_reported a x s = ground (arith, contains-without a x s.reported, bytes_beq_iff a x)

  round_handler :
      (a : Bytes) (s : ServerState) → (server_round opens a s).has_handler ≡ s.has_handler
  unfolding server_round serve_bound report_failure
  round_handler a s = ground arith

  rounds_listeners :
      (allowed : List NetworkAddress) (x : Bytes) (s : ServerState)
      → contains x (server_rounds opens allowed s).listeners
        ≡ (contains x s.listeners || (wanted allowed x && opens x))
  unfolding server_rounds wanted
  rounds_listeners [] x s = ground arith
  rounds_listeners (a ∷ rest) x s = ground (
    arith,
    rounds_listeners rest x (server_round opens a.address s),
    round_listeners a.address x s,
  )

  rounds_reported :
      (allowed : List NetworkAddress) (x : Bytes) (s : ServerState)
      → contains x (server_rounds opens allowed s).reported ≡ (
          if wanted allowed x
          then (if served x s then false else contains x s.reported || s.has_handler)
          else contains x s.reported)
  unfolding server_rounds wanted
  rounds_reported [] x s = refl
  rounds_reported (a ∷ rest) x s = ground (
    arith,
    rounds_reported rest x (server_round opens a.address s),
    round_reported a.address x s,
    round_listeners a.address x s,
    round_handler a.address s,
  )

  -- Every allowed address that cannot be served has been reported, if there is a handler.
  abbrev pub AllReported : List NetworkAddress → ServerState → Type 0
  AllReported allowed s =
      (x : Bytes)
      → wanted allowed x ≡ true
      → served x s ≡ false
      → (contains x s.reported || not s.has_handler) ≡ true

  round_quiet :
      (a : Bytes) (s : ServerState)
      → (served a s ≡ false → (contains a s.reported || not s.has_handler) ≡ true)
      → (server_round opens a s).failures ≡ s.failures
  unfolding server_round serve_bound report_failure
  round_quiet a s h = ground arith

  rounds_quiet :
      (allowed : List NetworkAddress) (s : ServerState)
      → AllReported allowed s
      → (server_rounds opens allowed s).failures ≡ s.failures
  unfolding server_rounds wanted
  rounds_quiet [] s h = refl
  rounds_quiet (a ∷ rest) s h =
      rounds_quiet rest (server_round opens a.address s) later
      ∙ round_quiet a.address s (h a.address (ground (arith, bytes_beq_iff a.address a.address)))
    where
      later : AllReported rest (server_round opens a.address s)
      later x w n = ground (
        arith,
        h x,
        round_reported a.address x s,
        round_listeners a.address x s,
        round_handler a.address s,
        bytes_beq_iff a.address x,
      )

  -- After a reconciliation of a running server, it listens on an address exactly if the address is
  -- allowed, and was listened on before or can be bound.
  pub reconcile-listeners :
      (allowed : List NetworkAddress) (s : ServerState) (x : Bytes)
      → s.running ≡ true
      → contains x (reconcile opens allowed s).1.listeners
        ≡ (wanted allowed x && (contains x s.listeners || opens x))
  unfolding reconcile drop_unwanted
  reconcile-listeners allowed s x run = ground (
    arith,
    run,
    rounds_listeners allowed x (drop_unwanted allowed s),
    contains-filter (wanted allowed) x s.listeners,
  )

  -- After a reconciliation of a running server, what it has reported are exactly the allowed addresses
  -- that it does not listen on, if it has a handler or they were reported before.
  pub reconcile-reported :
      (allowed : List NetworkAddress) (s : ServerState) (x : Bytes)
      → s.running ≡ true
      → contains x (reconcile opens allowed s).1.reported ≡ (
          wanted allowed x
          && not (contains x s.listeners || opens x)
          && (contains x s.reported || s.has_handler))
  unfolding reconcile drop_unwanted
  reconcile-reported allowed s x run = ground (
    arith,
    run,
    rounds_reported allowed x (drop_unwanted allowed s),
    contains-filter (wanted allowed) x s.listeners,
    contains-filter (wanted allowed) x s.reported,
  )

  abbrev every_served : List NetworkAddress → ServerState → Bool
  every_served [] s = true
  every_served (a ∷ rest) s = served a.address s && every_served rest s

  every_served-round :
      (a : Bytes) (rest : List NetworkAddress) (s : ServerState)
      → every_served rest (server_round opens a s) ≡ every_served rest s
  every_served-round a [] s = refl
  every_served-round a (b ∷ rest) s =
      ground (arith, every_served-round a rest s, round_listeners a b.address s)

  rounds_complete-every_served :
      (allowed : List NetworkAddress) (s : ServerState)
      → rounds_complete opens allowed s ≡ every_served allowed s
  unfolding rounds_complete
  rounds_complete-every_served [] s = refl
  rounds_complete-every_served (a ∷ rest) s = ground (
    arith,
    rounds_complete-every_served rest (server_round opens a.address s),
    every_served-round a.address rest s,
  )

  -- Whether each of the addresses is listened on.
  abbrev pub all_listened : List NetworkAddress → ServerState → Bool
  all_listened [] s = true
  all_listened (a ∷ rest) s = contains a.address s.listeners && all_listened rest s

  every_served-all_listened :
      (some_allowed : List NetworkAddress) (s t : ServerState)
      → ((x : Bytes) → wanted some_allowed x ≡ true → served x s ≡ contains x t.listeners)
      → every_served some_allowed s ≡ all_listened some_allowed t
  unfolding wanted
  every_served-all_listened [] s t h = refl
  every_served-all_listened (a ∷ rest) s t h = ground (
    arith,
    every_served-all_listened rest s t (λ x w. h x (ground arith)),
    h a.address (ground (arith, bytes_beq_iff a.address a.address)),
  )

  rounds_of : List NetworkAddress → ServerState → Bool × ServerState
  rounds_of allowed s = (
    rounds_complete opens allowed (drop_unwanted allowed s),
    server_rounds opens allowed (drop_unwanted allowed s),
  )

  reconcile-running :
      (allowed : List NetworkAddress) (s : ServerState)
      → s.running ≡ true
      → reconcile opens allowed s ≡ rounds_of allowed s
  unfolding reconcile rounds_of
  reconcile-running allowed s run = ap (λ b. if b then rounds_of allowed s else (true, s)) run

  reconcile_off :
      (allowed : List NetworkAddress) (s : ServerState)
      → s.running ≡ false
      → reconcile opens allowed s ≡ (true, s)
  unfolding reconcile rounds_of
  reconcile_off allowed s off = ap (λ b. if b then rounds_of allowed s else (true, s)) off

  -- A reconciliation of a running server is complete, so that it is not retried, exactly if every
  -- allowed address is listened on after it.
  pub reconcile_complete :
      (allowed : List NetworkAddress) (s : ServerState)
      → s.running ≡ true
      → (reconcile opens allowed s).0 ≡ all_listened allowed (reconcile opens allowed s).1
  unfolding rounds_of
  reconcile_complete allowed s run = rw (reconcile-running allowed s run) (
      rounds_complete-every_served allowed (drop_unwanted allowed s)
      ∙ every_served-all_listened allowed (drop_unwanted allowed s)
          (server_rounds opens allowed (drop_unwanted allowed s))
          (λ x w. ground (arith, rounds_listeners allowed x (drop_unwanted allowed s))))

  rounds_handler :
      (allowed : List NetworkAddress) (s : ServerState)
      → (server_rounds opens allowed s).has_handler ≡ s.has_handler
  unfolding server_rounds
  rounds_handler [] s = refl
  rounds_handler (a ∷ rest) s =
      ground
        (arith, rounds_handler rest (server_round opens a.address s), round_handler a.address s)

  rounds_running :
      (allowed : List NetworkAddress) (s : ServerState)
      → (server_rounds opens allowed s).running ≡ s.running
  unfolding server_rounds server_round serve_bound report_failure
  rounds_running [] s = refl
  rounds_running (a ∷ rest) s = ground (arith, rounds_running rest (server_round opens a.address s))

  AllReported-after :
      (allowed : List NetworkAddress) (s : ServerState)
      → AllReported allowed (drop_unwanted allowed (server_rounds opens allowed s))
  unfolding drop_unwanted
  AllReported-after allowed s x w n = ground (
    arith,
    rounds_reported allowed x s,
    rounds_listeners allowed x s,
    rounds_handler allowed s,
    contains-filter (wanted allowed) x (server_rounds opens allowed s).listeners,
    contains-filter (wanted allowed) x (server_rounds opens allowed s).reported,
  )

  -- A second reconciliation with the same addresses, while the same ones can be bound, calls the handler
  -- for no failure again.
  pub reconcile-quiet :
      (allowed : List NetworkAddress) (s : ServerState)
      → (reconcile opens allowed (reconcile opens allowed s).1).1.failures
        ≡ (reconcile opens allowed s).1.failures
  unfolding rounds_of drop_unwanted
  reconcile-quiet allowed s = elim (Bool-cases s.running) [
    | inl run ↦
        ap (λ r. (reconcile opens allowed r.1).1.failures) (reconcile-running allowed s run)
        ∙ again run
        ∙ sym (ap (λ r. r.1.failures) (reconcile-running allowed s run))
    | inr off ↦ ap (λ r. (reconcile opens allowed r.1).1.failures) (reconcile_off allowed s off)
  ]
    where
      still : s.running ≡ true → (rounds_of allowed s).1.running ≡ true
      still run = rounds_running allowed (drop_unwanted allowed s) ∙ run

      again :
          s.running ≡ true
          → (reconcile opens allowed (rounds_of allowed s).1).1.failures
            ≡ (rounds_of allowed s).1.failures
      again run =
          ap (λ r. r.1.failures) (reconcile-running allowed (rounds_of allowed s).1 (still run))
          ∙ rounds_quiet allowed (drop_unwanted allowed (rounds_of allowed s).1)
              (AllReported-after allowed (drop_unwanted allowed s))
