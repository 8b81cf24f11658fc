-- ===== src/Network/Watcher/Tests.antt =====
-- A watcher with two handlers.
use aimpremote_control.Prelude.{◌+◌, ◌≡◌, refl, arith, true, false, [], ◌∷◌}
use aimpremote_control.Prelude.Text.{bytes}
use aimpremote_control.Network.{allowed_addresses}
use aimpremote_control.Network.Watcher.{
  Watcher, Watch, Meets, head, listing, calling, ended, thread_turn, watch_started, begun, further,
  turns, sets_excluded, raises_refresh, enter, set_excluded_interfaces, excludes, goes_on,
}
use aimpremote_control.Network.Watcher.Owed.{is_due, Watched-due}
use aimpremote_control.Network.Watcher.Rounds.{
  thread_run, state_at, Lists, fails_in, tell, stopping_thread_ends, owed_round_comes,
  round_calls_handlers,
}

abbrev two : Watcher
two = record {
  stopping = false;
  refresh_requested = false;
  excluded_ids = [];
  handlers = 1 ∷ 2 ∷ [];
}

abbrev failing : Meets
failing = record { interval_over = true; listed = []; handled = false }

-- The thread has had its first turn when a call sets the excluded interfaces, and its refresh is left.
abbrev asked : Watch
asked = record (thread_turn failing (watch_started two)) {
  caller = set_excluded_interfaces (bytes "eth0" ∷ []);
}

abbrev excluded : Watch
excluded = record asked {
  watcher = enter (sets_excluded (bytes "eth0" ∷ [])) asked.watcher;
  caller = raises_refresh ∷ [];
  owed = true;
}

Watched-due_example : is_due excluded ≡ true
unfolding set_excluded_interfaces thread_turn watch_started
Watched-due_example = Watched-due {w = two} {s = excluded} (
    further
      (further (further begun (turns (watch_started two) failing))
        (excludes (thread_turn failing (watch_started two)) (bytes "eth0" ∷ []) refl))
      (goes_on asked (sets_excluded (bytes "eth0" ∷ [])) (raises_refresh ∷ []) refl))

owed_round_comes_example :
    Lists (λ i. failing) (1 + 3) (state_at two (calling (2 ∷ []) [] true) true [])
owed_round_comes_example =
    owed_round_comes (λ i. failing) two (calling (2 ∷ []) [] true) [] refl (λ e. cc) refl
      (λ i. refl)

round_calls_handlers_example :
    thread_run (λ i. failing) 4 (state_at two (listing two.handlers) true [])
    ≡ state_at two
        (head (fails_in (λ i. failing) two.handlers))
        (fails_in (λ i. failing) two.handlers)
        (tell (allowed_addresses [] []) two.handlers [])
round_calls_handlers_example = round_calls_handlers (λ i. failing) two two.handlers true []

stopping_thread_ends_example :
    (thread_run
      (λ i. failing)
      3
      (state_at (record two { stopping = true }) (calling (2 ∷ []) [] true) true [])).spot
    ≡ ended
stopping_thread_ends_example =
    stopping_thread_ends (λ i. failing) (record two { stopping = true }) (calling (2 ∷ []) [] true)
      true [] 3 refl (omega arith)
