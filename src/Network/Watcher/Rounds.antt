-- ===== src/Network/Watcher/Rounds.antt =====
-- The thread by itself: it comes to its next round, a round calls every handler, and a stop ends it.
use aimpremote_control.Prelude.{
  ℕ, zero, suc, ◌+◌, ◌≤◌, ◌≡◌, ◌≢◌, refl, arith, Bool, true, false, not, ◌||◌, List, [], ◌∷◌,
  length,
}
use aimpremote_control.Network.{NetworkAddress, allowed_addresses}
use aimpremote_control.Network.Watcher.{
  Watcher, Watch, Meets, Spot, head, waiting, listing, calling, ended, watch_turn, thread_turn,
  awake, owed_after, told_after,
}
use aimpremote_control.Network.Watcher.Owed.{will_list, is_due}

-- Turns of the thread alone; `ms i` is what the turn `i` meets.
unfoldable pub thread_run : (ℕ → Meets) → ℕ → Watch → Watch
unfolding thread_turn
thread_run ms zero s = s
thread_run ms (suc n) s = thread_run (λ i. ms (suc i)) n (thread_turn (ms 0) s)

abbrev pub Told : Type 0
Told = List (ℕ × List NetworkAddress)

abbrev pub state_at : Watcher → Spot → Bool → Told → Watch
state_at w p owed told = record { watcher = w; spot = p; caller = []; owed = owed; told = told }

abbrev pub turns_to_end : Spot → ℕ
turns_to_end (head retry) = 1
turns_to_end (waiting retry) = 1
turns_to_end (listing hs) = length hs + 3
turns_to_end (calling hs allowed retry) = length hs + 2
turns_to_end ended = 0

end_nearer :
    (m : Meets) (w : Watcher) (p : Spot) (n : ℕ)
    → w.stopping ≡ true
    → turns_to_end p ≤ suc n
    → (turns_to_end (watch_turn m w p).1 ≤ n) × ((watch_turn m w p).0.stopping ≡ true)
unfolding watch_turn awake
end_nearer m w (head retry) n h le = ground arith
end_nearer m w (waiting retry) n h le = ground arith
end_nearer m w (listing hs) n h le = ground arith
end_nearer m w (calling [] allowed retry) n h le = ground arith
end_nearer m w (calling (a ∷ hs) allowed retry) n h le = ground arith
end_nearer m w ended n h le = ground arith

-- Once `Stop` has raised the flag, the thread ends, wherever it stands and whatever it meets: after at
-- most one call of each handler that is left in its round, and three turns.
pub stopping_thread_ends :
    (ms : ℕ → Meets) (w : Watcher) (p : Spot) (owed : Bool) (told : Told) (n : ℕ)
    → w.stopping ≡ true
    → turns_to_end p ≤ n
    → (thread_run ms n (state_at w p owed told)).spot ≡ ended
unfolding thread_run
stopping_thread_ends ms w (head retry) owed told zero h le = absurd (omega arith)
stopping_thread_ends ms w (waiting retry) owed told zero h le = absurd (omega arith)
stopping_thread_ends ms w (listing hs) owed told zero h le = absurd (omega arith)
stopping_thread_ends ms w (calling hs allowed retry) owed told zero h le = absurd (omega arith)
stopping_thread_ends ms w ended owed told zero h le = refl
stopping_thread_ends ms w p owed told (suc n) h le =
    let (nearer, still) = end_nearer (ms 0) w p n h le in
    stopping_thread_ends (λ i. ms (suc i)) (watch_turn (ms 0) w p).0 (watch_turn (ms 0) w p).1
      (owed_after (ms 0) p owed) (told_after p told) n still nearer

abbrev pub turns_to_listing : Spot → ℕ
turns_to_listing (waiting retry) = 1
turns_to_listing (head retry) = 2
turns_to_listing (calling hs allowed retry) = length hs + 3
turns_to_listing _ = 0

-- Within `n` turns the thread is about to ask for the addresses, for the handlers that it then has.
abbrev pub Lists : (ℕ → Meets) → ℕ → Watch → Type 0
Lists ms n s = (k : ℕ) × (k ≤ n) × (hs : List ℕ) × ((thread_run ms k s).spot ≡ listing hs)

one_more :
    (ms : ℕ → Meets) (n : ℕ) (s : Watch)
    → Lists (λ i. ms (suc i)) n (thread_turn (ms 0) s)
    → Lists ms (suc n) s
unfolding thread_run
one_more ms n s (k, le, hs, e) = (suc k, omega arith, hs, e)

wait_over :
    (m : Meets) (w : Watcher) (retry : Bool)
    → w.stopping ≡ false
    → m.interval_over ≡ true
    → (w.refresh_requested || retry) ≡ true
    → (watch_turn m w (waiting retry)).1 ≡ listing w.handlers
unfolding watch_turn awake
wait_over m w retry running over again = ground arith

still_again :
    (w : Watcher) (retry failed : Bool)
    → (w.refresh_requested || retry) ≡ true
    → (w.refresh_requested || (retry || failed)) ≡ true
still_again w retry failed h = ground arith

head_turn :
    (m : Meets) (w : Watcher) (retry owed : Bool) (told : Told)
    → w.stopping ≡ false
    → thread_turn m (state_at w (head retry) owed told) ≡ state_at w (waiting retry) owed told
unfolding thread_turn watch_turn
head_turn m w retry owed told r = rw r refl

again-Lists :
    (n : ℕ) (ms : ℕ → Meets) (w : Watcher) (p : Spot) (owed : Bool) (told : Told)
    → w.stopping ≡ false
    → ((i : ℕ) → (ms i).interval_over ≡ true)
    → (w.refresh_requested || will_list p) ≡ true
    → turns_to_listing p ≤ n
    → p ≢ ended
    → Lists ms n (state_at w p owed told)
unfolding thread_run thread_turn watch_turn
again-Lists n ms w (listing hs) owed told running over again le alive = (0, omega arith, hs, refl)
again-Lists n ms w ended owed told running over again le alive = absurd (alive refl)
again-Lists zero ms w (waiting retry) owed told running over again le alive = absurd (omega arith)
again-Lists zero ms w (head retry) owed told running over again le alive = absurd (omega arith)
again-Lists zero ms w (calling hs allowed retry) owed told running over again le alive =
    absurd (omega arith)
again-Lists (suc n) ms w (waiting retry) owed told running over again le alive =
    (1, omega arith, w.handlers, wait_over (ms 0) w retry running (over 0) again)
again-Lists (suc n) ms w (head retry) owed told running over again le alive =
    one_more ms n (state_at w (head retry) owed told) (
      rw (head_turn (ms 0) w retry owed told running) (
        again-Lists n (λ i. ms (suc i)) w (waiting retry) owed told running (λ i. over (suc i))
          again (omega arith) (λ e. cc)))
again-Lists (suc n) ms w (calling [] allowed retry) owed told running over again le alive =
    one_more ms n (state_at w (calling [] allowed retry) owed told) (
      again-Lists n (λ i. ms (suc i)) w (head retry) owed told running (λ i. over (suc i)) again
        (omega arith) (λ e. cc))
again-Lists (suc n) ms w (calling (h ∷ hs) allowed retry) owed told running over again le alive =
    one_more ms n (state_at w (calling (h ∷ hs) allowed retry) owed told) (
      again-Lists n (λ i. ms (suc i)) w (calling hs allowed (retry || not (ms 0).handled))
        (owed || not (ms 0).handled) ((h, allowed) ∷ told) running (λ i. over (suc i))
        (still_again w retry (not (ms 0).handled) again) (omega arith) (λ e. cc))

abbrev pub calls_left : Spot → ℕ
calls_left (calling hs allowed retry) = length hs
calls_left _ = 0

turns_bounded : (p : Spot) → turns_to_listing p ≤ calls_left p + 3
turns_bounded (waiting retry) = omega arith
turns_bounded (head retry) = omega arith
turns_bounded (listing hs) = omega arith
turns_bounded (calling hs allowed retry) = omega arith
turns_bounded ended = omega arith

again_of_due :
    (w : Watcher) (p : Spot) (told : Told)
    → w.stopping ≡ false
    → is_due (state_at w p true told) ≡ true
    → (w.refresh_requested || will_list p) ≡ true
again_of_due w p told running due = ground arith

-- A watcher that is not stopping and owes a round (a refresh was requested, or a handler failed, since
-- the addresses were last asked for) asks for them after at most one turn for each handler that is left
-- in the present round and three more, if the intervals of its waits end.
pub owed_round_comes :
    (ms : ℕ → Meets) (w : Watcher) (p : Spot) (told : Told)
    → w.stopping ≡ false
    → p ≢ ended
    → is_due (state_at w p true told) ≡ true
    → ((i : ℕ) → (ms i).interval_over ≡ true)
    → Lists ms (calls_left p + 3) (state_at w p true told)
owed_round_comes ms w p told running alive due over =
    again-Lists (calls_left p + 3) ms w p true told running over (again_of_due w p told running due)
      (turns_bounded p) alive

-- Whether a handler of the round fails.
abbrev pub fails_in : (ℕ → Meets) → List ℕ → Bool
fails_in ms [] = false
fails_in ms (h ∷ hs) = not (ms 0).handled || fails_in (λ i. ms (suc i)) hs

-- The calls of a round, the last one first.
abbrev pub tell : List NetworkAddress → List ℕ → Told → Told
tell allowed [] told = told
tell allowed (h ∷ hs) told = tell allowed hs ((h, allowed) ∷ told)

calls_all :
    (ms : ℕ → Meets) (w : Watcher) (hs : List ℕ) (allowed : List NetworkAddress) (retry owed : Bool)
    (told : Told)
    → thread_run ms (length hs + 1) (state_at w (calling hs allowed retry) owed told)
      ≡ state_at w (head (retry || fails_in ms hs)) (owed || fails_in ms hs) (tell allowed hs told)
unfolding thread_run thread_turn watch_turn
calls_all ms w [] allowed retry owed told = ground arith
calls_all ms w (h ∷ hs) allowed retry owed told = ground (
  arith,
  calls_all (λ i. ms (suc i)) w hs allowed (retry || not (ms 0).handled)
      (owed || not (ms 0).handled) ((h, allowed) ∷ told),
)

-- A round calls every handler that was subscribed when it began once, in their order, with the
-- addresses that are allowed of those that the system then lists; the thread comes back to the head of
-- its loop, to go round again after the interval exactly if a handler failed, and then owes it.
pub round_calls_handlers :
    (ms : ℕ → Meets) (w : Watcher) (hs : List ℕ) (owed : Bool) (told : Told)
    → thread_run ms (length hs + 2) (state_at w (listing hs) owed told)
      ≡ state_at w
          (head (fails_in (λ i. ms (suc i)) hs))
          (fails_in (λ i. ms (suc i)) hs)
          (tell (allowed_addresses w.excluded_ids (ms 0).listed) hs told)
unfolding thread_run thread_turn watch_turn
round_calls_handlers ms w hs owed told = rw (two_more (length hs)) (
    calls_all (λ i. ms (suc i)) w hs (allowed_addresses w.excluded_ids (ms 0).listed) false false
      told)
  where
    two_more : (n : ℕ) → n + 2 ≡ suc (n + 1)
    two_more n = omega arith
