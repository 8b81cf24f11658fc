-- ===== src/SleepTimer/Tests.antt =====
-- The timer's theorems at a concrete run.
use aimpremote_control.Prelude.{◌*◌, ◌≡◌, ◌≢◌, refl, arith, true, false, some, [], ◌∷◌}
use aimpremote_control.SleepTimer.{Timer, set, pause_playback, second, armed, finished, timed_out}
use aimpremote_control.SleepTimer.System.{
  System, started, here, next, sets, wakes, still, waking, wake, accept,
}
use aimpremote_control.SleepTimer.System.Safety.{IsSafe, Reach-IsSafe, Quiet-fired}
use aimpremote_control.SleepTimer.System.Refines.{
  AlarmReach, set_called, thread_turns, off, view, Reach-refines,
}
use aimpremote_control.SleepTimer.System.Progress.{wake_times, due_timer_fires, stopped_thread_ends}

abbrev armed_timer : Timer
armed_timer = record {
  stopped = false;
  active = true;
  action = pause_playback;
  deadline = 5 * second;
  generation = 1;
}

was_set : set pause_playback 5 0 (started 0).timer ≡ some armed_timer
unfolding set started
was_set = refl

abbrev after_set : System
after_set = accept pause_playback armed_timer (started 0)

Reach-IsSafe_example : IsSafe (wake timed_out after_set)
unfolding started
Reach-IsSafe_example = Reach-IsSafe 0 (
    next (next here (sets (started 0) pause_playback 5 armed_timer was_set))
      (wakes after_set timed_out))

Reach-refines_example :
    AlarmReach
      (off 0)
      (thread_turns ∷ set_called pause_playback 5 ∷ [])
      (view (wake timed_out after_set))
unfolding started
Reach-refines_example = Reach-refines (
    next (next here (sets (started 0) pause_playback 5 armed_timer was_set))
      (wakes after_set timed_out))

abbrev cancelled_state : System
cancelled_state = record {
  timer = record {
    stopped = false;
    active = false;
    action = pause_playback;
    deadline = 5 * second;
    generation = 1;
  };
  place = armed 1;
  now = 5 * second;
  accepted = (pause_playback, 5 * second) ∷ [];
  fired = [];
}

Quiet-fired_run :
    ((wake timed_out cancelled_state).timer.active ≡ false)
    × ((wake timed_out cancelled_state).fired ≡ cancelled_state.fired)
Quiet-fired_run = Quiet-fired cancelled_state refl (waking still timed_out)

abbrev due_state : System
due_state = record {
  timer = armed_timer;
  place = armed 1;
  now = 5 * second;
  accepted = (pause_playback, 5 * second) ∷ [];
  fired = [];
}

alive : armed 1 ≢ finished
alive = λ e. cc

due_timer_fires_example :
    (wake_times 3 due_state).fired
    ≡ (record { what = pause_playback; due = 5 * second; at = 5 * second } ∷ [])
due_timer_fires_example = due_timer_fires due_state alive refl refl (omega arith)

abbrev stopped_state : System
stopped_state = record {
  timer = record {
    stopped = true;
    active = false;
    action = pause_playback;
    deadline = 5 * second;
    generation = 1;
  };
  place = armed 1;
  now = 5 * second;
  accepted = [];
  fired = [];
}

stopped_thread_ends_example :
    ((wake_times 2 stopped_state).place ≡ finished)
    × ((wake_times 2 stopped_state).fired ≡ stopped_state.fired)
stopped_thread_ends_example = stopped_thread_ends stopped_state refl
