-- ===== src/Network/Watcher.antt =====
-- helpers/networkWatcher.cpp: the thread that tells the handlers which addresses are allowed, with the
-- calls from outside. The mutex makes each critical section one step; the handlers are numbered.
pub mod Owed
pub mod Rounds
mod Tests
use aimpremote_control.Prelude.{
  ℕ, zero, suc, ◌≡◌, Bool, true, false, not, ◌&&◌, ◌||◌, List, [], ◌∷◌, ◌++◌, if◌then◌else◌,
}
use aimpremote_control.Prelude.Text.{Bytes}
use aimpremote_control.Network.{NetworkAddress, allowed_addresses}

pub record Watcher : Type 0 where
  pub stopping : Bool
  pub refresh_requested : Bool
  pub excluded_ids : List Bytes
  pub handlers : List ℕ

unfoldable pub refresh : Watcher → Watcher
refresh w = record w { refresh_requested = true }

-- The critical sections that a call has left to enter.
pub data Section : Type 0 where
  sets_excluded : List Bytes → Section
  raises_refresh : Section

unfoldable pub enter : Section → Watcher → Watcher
unfolding refresh
enter (sets_excluded ids) w = record w { excluded_ids = ids }
enter raises_refresh w = refresh w

-- SetExcludedInterfaces: its own critical section, and then that of Refresh; others may come between.
unfoldable pub set_excluded_interfaces : List Bytes → List Section
set_excluded_interfaces ids = sets_excluded ids ∷ raises_refresh ∷ []

unfoldable pub subscribe_handler : ℕ → Watcher → Watcher
subscribe_handler h w = record w { handlers = w.handlers ++ h ∷ [] }

-- The critical section of `Stop`.
unfoldable pub raise_stopping : Watcher → Watcher
raise_stopping w = record w { stopping = true }

-- The flags as `Start` sets them.
unfoldable pub start_flags : Watcher → Watcher
start_flags w = record w { stopping = false; refresh_requested = true }

-- Where the thread of `Run` stands, with its variable `retry`: at the head of the loop, in the wait,
-- before it asks for the addresses, in the loop over the handlers that are left, or at the end.
pub data Spot : Type 0 where
  head : (retry : Bool) → Spot
  waiting : (retry : Bool) → Spot
  listing : (to_call : List ℕ) → Spot
  calling : (to_call : List ℕ) → (allowed : List NetworkAddress) → (retry : Bool) → Spot
  ended : Spot

-- What a turn of the thread meets: whether the interval of a wait is over, the addresses of the
-- system, and what the handler returns.
pub record Meets : Type 0 where
  pub interval_over : Bool
  pub listed : List NetworkAddress
  pub handled : Bool

unfoldable pub awake : Watcher → Watcher × Spot
awake w =
    if w.stopping then (w, ended) else (record w { refresh_requested = false }, listing w.handlers)

unfoldable pub watch_turn : Meets → Watcher → Spot → Watcher × Spot
unfolding awake allowed_addresses
watch_turn m w (head retry) = (w, if w.stopping then ended else waiting retry)
watch_turn m w (waiting retry) =
    if w.stopping || w.refresh_requested || (retry && m.interval_over)
    then awake w
    else (w, waiting retry)
watch_turn m w (listing hs) = (w, calling hs (allowed_addresses w.excluded_ids m.listed) false)
watch_turn m w (calling [] allowed retry) = (w, head retry)
watch_turn m w (calling (h ∷ hs) allowed retry) = (w, calling hs allowed (retry || not m.handled))
watch_turn m w ended = (w, ended)

-- `owed` is the history: whether the allowed addresses may have changed, or a handler has failed, since
-- the thread last asked for the addresses; and `told`: which handler was called with which addresses,
-- newest first. `caller` is what the main thread, which alone calls SetExcludedInterfaces, has left of a
-- call.
pub record Watch : Type 0 where
  pub watcher : Watcher
  pub spot : Spot
  pub caller : List Section
  pub owed : Bool
  pub told : List (ℕ × List NetworkAddress)

abbrev pub owed_after : Meets → Spot → Bool → Bool
owed_after m (listing hs) owed = false
owed_after m (calling (h ∷ hs) allowed retry) owed = owed || not m.handled
owed_after m _ owed = owed

abbrev pub told_after : Spot → List (ℕ × List NetworkAddress) → List (ℕ × List NetworkAddress)
told_after (calling (h ∷ hs) allowed retry) told = (h, allowed) ∷ told
told_after _ told = told

unfoldable pub thread_turn : Meets → Watch → Watch
unfolding watch_turn
thread_turn m s =
    let (w, p) = watch_turn m s.watcher s.spot in
    record {
      watcher = w;
      spot = p;
      caller = s.caller;
      owed = owed_after m s.spot s.owed;
      told = told_after s.spot s.told;
    }

unfoldable pub watch_started : Watcher → Watch
unfolding start_flags
watch_started w = record {
  watcher = start_flags w;
  spot = head false;
  caller = [];
  owed = true;
  told = [];
}

pub data WatchStep : Watch → Watch → Type 0 where
  refreshes : (s : Watch) → WatchStep s (record s { watcher = refresh s.watcher; owed = true })
  excludes :
      (s : Watch) (ids : List Bytes)
      → s.caller ≡ []
      → WatchStep s (record s { caller = set_excluded_interfaces ids })
  goes_on :
      (s : Watch) (c : Section) (cs : List Section)
      → s.caller ≡ c ∷ cs
      → WatchStep s (record s { watcher = enter c s.watcher; caller = cs; owed = true })
  subscribes :
      (s : Watch) (h : ℕ) → WatchStep s (record s { watcher = subscribe_handler h s.watcher })
  stops : (s : Watch) → WatchStep s (record s { watcher = raise_stopping s.watcher })
  turns : (s : Watch) (m : Meets) → WatchStep s (thread_turn m s)

pub data Watched (w : Watcher) : Watch → Type 0 where
  begun : Watched w (watch_started w)
  further : {s t : Watch} → Watched w s → WatchStep s t → Watched w t
