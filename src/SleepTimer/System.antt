-- ===== src/SleepTimer/System.antt =====
-- The timer with its thread, its clients and the clock, as a step relation. `accepted` and `fired` are
-- the history: what was set, and what the thread began to execute, newest first.
pub mod Safety
pub mod Progress
pub mod Refines
use aimpremote_control.Prelude.{
  ℕ, suc, ◌+◌, ◌≤◌, ◌≡◌, Bool, true, false, Option, none, some, List, [], ◌∷◌, ◌⊎◌,
}
use aimpremote_control.Prelude.Text.{Bytes}
use aimpremote_control.SleepTimer.{
  Timer, set, cancel, raise_stop, Place, loop_head, Wake, Turn, turn,
}

pub record Firing : Type 0 where
  pub what : Bytes
  pub due : ℕ
  pub at : ℕ

pub record System : Type 0 where
  pub timer : Timer
  pub place : Place
  pub now : ℕ
  pub accepted : List (Bytes × ℕ)
  pub fired : List Firing

-- The member initialisers, as `Start` leaves them.
unfoldable pub started : ℕ → System
started now = record {
  timer = record { stopped = false; active = false; action = []; deadline = 0; generation = 0 };
  place = loop_head;
  now = now;
  accepted = [];
  fired = [];
}

abbrev pub log_begun : Option Bytes → ℕ → ℕ → List Firing → List Firing
log_begun none due now fired = fired
log_begun (some a) due now fired = record { what = a; due = due; at = now } ∷ fired

-- One turn of the thread.
unfoldable pub wake : Wake → System → System
unfolding turn
wake w s =
    let t = turn w s.now s.timer s.place in
    record s {
      timer = t.turned;
      place = t.place;
      fired = log_begun t.begun s.timer.deadline s.now s.fired;
    }

unfoldable pub accept : Bytes → Timer → System → System
accept action t s = record s { timer = t; accepted = (action, t.deadline) ∷ s.accepted }

unfoldable pub cancelled : System → System
unfolding cancel
cancelled s = record s { timer = cancel s.timer }

unfoldable pub stopped : System → System
unfolding raise_stop
stopped s = record s { timer = raise_stop s.timer }

pub data Step : System → System → Type 0 where
  sets :
      (s : System) (action : Bytes) (delay : ℕ) (t : Timer)
      → set action delay s.now s.timer ≡ some t
      → Step s (accept action t s)
  cancels : (s : System) → Step s (cancelled s)
  stops : (s : System) → Step s (stopped s)
  ticks : (s : System) (n : ℕ) → Step s (record s { now = s.now + n })
  wakes : (s : System) (w : Wake) → Step s (wake w s)

pub data Reach (s : System) : System → Type 0 where
  here : Reach s s
  next : {t u : System} → Reach s t → Step t u → Reach s u

-- The steps that set no timer.
pub data Quiet (s : System) : System → Type 0 where
  still : Quiet s s
  cancelling : {t : System} → Quiet s t → Quiet s (cancelled t)
  stopping : {t : System} → Quiet s t → Quiet s (stopped t)
  ticking : {t : System} → Quiet s t → (n : ℕ) → Quiet s (record t { now = t.now + n })
  waking : {t : System} → Quiet s t → (w : Wake) → Quiet s (wake w t)
