-- ===== src/SleepTimer/System/Progress.antt =====
-- The thread gets on: a due timer fires, and a stop ends the thread.
use aimpremote_control.Prelude.{
  ℕ, zero, suc, ◌≤◌, ◌≡◌, ◌≢◌, refl, true, false, ◌∷◌, arith, nat_beq_iff,
}
use aimpremote_control.SleepTimer.{
  Place, loop_head, sleeping, finished, armed, executing, timed_out,
}
use aimpremote_control.SleepTimer.System.{System, wake}

abbrev pub wake_times : ℕ → System → System
wake_times zero s = s
wake_times (suc n) s = wake_times n (wake timed_out s)

fires_from :
    (s : System) (p : Place)
    → s.place ≡ p
    → p ≢ finished
    → s.timer.active ≡ true
    → s.timer.stopped ≡ false
    → s.timer.deadline ≤ s.now
    → (wake_times 3 s).fired
      ≡ (record { what = s.timer.action; due = s.timer.deadline; at = s.now } ∷ s.fired)
unfolding wake
fires_from s finished e alive on run due = absurd (alive refl)
fires_from s loop_head e alive on run due =
    ground (arith, nat_beq_iff s.timer.generation s.timer.generation)
fires_from s sleeping e alive on run due =
    ground (arith, nat_beq_iff s.timer.generation s.timer.generation)
fires_from s (armed seen) e alive on run due =
    ground (arith, nat_beq_iff s.timer.generation s.timer.generation)
fires_from s (executing a) e alive on run due =
    ground (arith, nat_beq_iff s.timer.generation s.timer.generation)

-- A timer that is active and due is begun within three turns of a thread that has not ended, wherever
-- the thread stands, if nothing disturbs it; and it is begun once.
pub due_timer_fires :
    (s : System)
    → s.place ≢ finished
    → s.timer.active ≡ true
    → s.timer.stopped ≡ false
    → s.timer.deadline ≤ s.now
    → (wake_times 3 s).fired
      ≡ (record { what = s.timer.action; due = s.timer.deadline; at = s.now } ∷ s.fired)
due_timer_fires s alive on run due = fires_from s s.place refl alive on run due

stops_from :
    (s : System) (p : Place)
    → s.place ≡ p
    → s.timer.stopped ≡ true
    → ((wake_times 2 s).place ≡ finished) × ((wake_times 2 s).fired ≡ s.fired)
unfolding wake
stops_from s finished e halt = ground arith
stops_from s loop_head e halt = ground arith
stops_from s sleeping e halt = ground arith
stops_from s (armed seen) e halt = ground arith
stops_from s (executing a) e halt = ground arith

-- Once the timer is stopped, the thread ends within two turns, so that the join in `Stop` returns, and
-- it begins nothing more.
pub stopped_thread_ends :
    (s : System)
    → s.timer.stopped ≡ true
    → ((wake_times 2 s).place ≡ finished) × ((wake_times 2 s).fired ≡ s.fired)
stopped_thread_ends s halt = stops_from s s.place refl halt
