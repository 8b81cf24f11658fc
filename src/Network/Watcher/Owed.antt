-- ===== src/Network/Watcher/Owed.antt =====
-- No change of the addresses and no failed handler is forgotten.
use aimpremote_control.Prelude.{
  ℕ, ◌≡◌, refl, arith, Bool, true, false, not, ◌&&◌, ◌||◌, List, [], ◌∷◌,
}
use aimpremote_control.Network.{NetworkAddress}
use aimpremote_control.Network.Watcher.{
  Watcher, Watch, Meets, Spot, head, waiting, listing, calling, ended, watch_turn, thread_turn,
  Section, sets_excluded, raises_refresh, enter, goes_on, awake, refresh, set_excluded_interfaces,
  subscribe_handler, raise_stopping, start_flags, watch_started, WatchStep, refreshes, excludes,
  subscribes, stops, turns, Watched, begun, further,
}

-- Whether the thread is going to ask for the addresses by itself.
abbrev pub will_list : Spot → Bool
will_list (head retry) = retry
will_list (waiting retry) = retry
will_list (listing hs) = true
will_list (calling hs allowed retry) = retry
will_list ended = false

-- Whether a call has its refresh still to make.
abbrev pub will_refresh : List Section → Bool
will_refresh [] = false
will_refresh (sets_excluded ids ∷ cs) = will_refresh cs
will_refresh (raises_refresh ∷ cs) = true

-- A round that is owed is due: the flag asks for it, or a call is about to raise the flag, or the thread
-- is about to go round again, or the watcher is stopping.
abbrev pub is_due : Watch → Bool
is_due s =
    not s.owed
    || s.watcher.stopping
    || s.watcher.refresh_requested
    || will_list s.spot
    || will_refresh s.caller

-- Whether every change of the excluded interfaces that a call has left comes before a refresh.
is_orderly : List Section → Bool
is_orderly [] = true
is_orderly (sets_excluded ids ∷ cs) = will_refresh cs && is_orderly cs
is_orderly (raises_refresh ∷ cs) = is_orderly cs

turn_due :
    (m : Meets) (w : Watcher) (p : Spot) (cs : List Section) (owed : Bool)
    (told : List (ℕ × List NetworkAddress))
    → is_due (record { watcher = w; spot = p; caller = cs; owed = owed; told = told }) ≡ true
    → is_due
        (thread_turn m (record { watcher = w; spot = p; caller = cs; owed = owed; told = told }))
      ≡ true
unfolding thread_turn watch_turn awake
turn_due m w (head retry) cs owed told h = ground arith
turn_due m w (waiting retry) cs owed told h = ground arith
turn_due m w (listing hs) cs owed told h = ground arith
turn_due m w (calling [] allowed retry) cs owed told h = ground arith
turn_due m w (calling (a ∷ hs) allowed retry) cs owed told h = ground arith
turn_due m w ended cs owed told h = ground arith

Sound : Watch → Type 0
Sound s = (is_due s ≡ true) × (is_orderly s.caller ≡ true)

enter_due :
    (s : Watch) (c : Section) (cs : List Section)
    → is_orderly (c ∷ cs) ≡ true
    → Sound (record s { watcher = enter c s.watcher; caller = cs; owed = true })
unfolding Sound is_orderly enter refresh
enter_due s (sets_excluded ids) cs h = (ground arith, ground arith)
enter_due s raises_refresh cs h = (ground arith, h)

step_due : {s t : Watch} → WatchStep s t → Sound s → Sound t
unfolding Sound is_orderly refresh set_excluded_interfaces subscribe_handler raise_stopping
    thread_turn
step_due (refreshes s) (h, o) = (ground arith, o)
step_due (excludes s ids idle) (h, o) = (ground arith, refl)
step_due (goes_on s c cs left) (h, o) = enter_due s c cs (rw left at o)
step_due (subscribes s n) (h, o) = (ground arith, o)
step_due (stops s) (h, o) = (ground arith, o)
step_due (turns s m) (h, o) = (turn_due m s.watcher s.spot s.caller s.owed s.told h, o)

Watched-Sound : {w : Watcher} {s : Watch} → Watched w s → Sound s
unfolding Sound is_orderly watch_started start_flags
Watched-Sound begun = (refl, refl)
Watched-Sound (further r st) = step_due st (Watched-Sound r)

-- In every state that the watcher reaches, with any calls from outside at any time: if since the thread
-- last asked for the addresses a refresh was requested, the excluded interfaces were set or a handler
-- failed, then the flag asks for another round, or the call that set them is about to raise the flag, or
-- the thread is about to start a round by itself, or the watcher is stopping.
pub Watched-due : {w : Watcher} {s : Watch} → Watched w s → is_due s ≡ true
unfolding Sound
Watched-due r = (Watched-Sound r).0
