-- ===== src/SleepTimer/System/Refines.antt =====
-- The timer as an alarm: the specification that the thread, the flags and the generations implement.
use aimpremote_control.Prelude.{
  ℕ, ◌+◌, ◌*◌, ◌≤◌, ◌≡◌, refl, arith, Option, none, some, List, [], ◌∷◌, if◌then◌else◌,
}
use aimpremote_control.Prelude.Text.{Bytes}
use aimpremote_control.SleepTimer.{Timer, set, cancel, raise_stop, Turn, turn, second}
use aimpremote_control.SleepTimer.System.{
  Firing, System, started, wake, log_begun, accept, cancelled, stopped, Step, sets, cancels, stops,
  ticks, wakes, Reach, here, next,
}
use aimpremote_control.SleepTimer.System.Safety.{Turns, idles, begins, turn-Turns}

-- An alarm: at most one action that waits for its time, and what it has done, newest first.
pub record Alarm : Type 0 where
  pub waiting : Option (Bytes × ℕ)
  pub clock : ℕ
  pub done : List Firing

abbrev pub off : ℕ → Alarm
off clock = record { waiting = none; clock = clock; done = [] }

-- What happens, seen from outside: the calls, the passing of time, and a turn of the thread.
pub data Event : Type 0 where
  set_called : Bytes → (delay : ℕ) → Event
  cancel_called : Event
  stop_called : Event
  time_passes : ℕ → Event
  thread_turns : Event

-- What an alarm does at each event: a call of Set arms it, in the place of what waited; Cancel and Stop
-- disarm it; time passes on its clock; and by itself it executes what waits once its time has come, after
-- which nothing waits, or does nothing.
pub data AlarmStep : Event → Alarm → Alarm → Type 0 where
  arms :
      (a : Alarm) (action : Bytes) (delay : ℕ)
      → AlarmStep
          (set_called action delay)
          a
          (record a { waiting = some (action, a.clock + delay * second) })
  is_cancelled : (a : Alarm) → AlarmStep cancel_called a (record a { waiting = none })
  is_stopped : (a : Alarm) → AlarmStep stop_called a (record a { waiting = none })
  passes : (a : Alarm) (n : ℕ) → AlarmStep (time_passes n) a (record a { clock = a.clock + n })
  rings :
      (a : Alarm) (action : Bytes) (due : ℕ)
      → a.waiting ≡ some (action, due)
      → due ≤ a.clock
      → AlarmStep thread_turns a (record {
        waiting = none;
        clock = a.clock;
        done = record { what = action; due = due; at = a.clock } ∷ a.done;
      })
  rests : (a : Alarm) → AlarmStep thread_turns a a

-- The events of a run of an alarm, the newest first.
pub data AlarmReach (a : Alarm) : List Event → Alarm → Type 0 where
  at_once : AlarmReach a [] a
  after :
      {b c : Alarm} {es : List Event} {e : Event}
      → AlarmReach a es b
      → AlarmStep e b c
      → AlarmReach a (e ∷ es) c

-- The event that a step of the system is.
abbrev pub event_of : {s t : System} → Step s t → Event
event_of (sets s action delay t e) = set_called action delay
event_of (cancels s) = cancel_called
event_of (stops s) = stop_called
event_of (ticks s n) = time_passes n
event_of (wakes s w) = thread_turns

abbrev pub events_of : {s t : System} → Reach s t → List Event
events_of here = []
events_of (next r st) = event_of st ∷ events_of r

-- What the flags of a timer stand for.
abbrev pub waiting_of : Timer → Option (Bytes × ℕ)
waiting_of t = if t.active then some (t.action, t.deadline) else none

abbrev pub view : System → Alarm
view s = record { waiting = waiting_of s.timer; clock = s.now; done = s.fired }

set_lem :
    (action : Bytes) (delay now : ℕ) (t u : Timer)
    → set action delay now t ≡ some u
    → waiting_of u ≡ some (action, now + delay * second)
unfolding set
set_lem action delay now t u e = ground arith

wakes_view :
    (s : System) (t : Turn)
    → Turns s.now s.timer t
    → AlarmStep thread_turns (view s) (record {
      waiting = waiting_of t.turned;
      clock = s.now;
      done = log_begun t.begun s.timer.deadline s.now s.fired;
    })
wakes_view s t (idles same quiet) = rw (same, quiet) (rests (view s))
wakes_view s t (begins active running due inactive begun) =
    rw (inactive, begun) (rings (view s) s.timer.action s.timer.deadline (rw active refl) due)

-- Each step of the system is a step of the alarm that it stands for.
Step-view : {s t : System} (st : Step s t) → AlarmStep (event_of st) (view s) (view t)
unfolding accept cancelled stopped wake cancel raise_stop
Step-view (sets s action delay t e) =
    rw (set_lem action delay s.now s.timer t e) (arms (view s) action delay)
Step-view (cancels s) = is_cancelled (view s)
Step-view (stops s) = is_stopped (view s)
Step-view (ticks s n) = passes (view s) n
Step-view (wakes s w) =
    wakes_view s (turn w s.now s.timer s.place) (turn-Turns w s.now s.timer s.place)

-- The timer refines an alarm: after any events, in any order and with any wake-ups, what the system has
-- executed and what its flags say is waiting is what an alarm comes to by the same events: one that a call
-- of Set arms for its delay, that Cancel and Stop disarm, and that, in a turn of the thread and at no other
-- event, executes the one action that waits when its time has come, once.
pub Reach-refines :
    {now : ℕ} {s : System} (r : Reach (started now) s) → AlarmReach (off now) (events_of r) (view s)
unfolding started
Reach-refines here = at_once
Reach-refines (next r st) = after (Reach-refines r) (Step-view st)
