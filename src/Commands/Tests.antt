-- ===== src/Commands/Tests.antt =====
-- The methods at concrete calls.
use aimpremote_control.Prelude.{
  ℕ, ◌+◌, ◌/◌, ◌≡◌, ◌↔◌, ◌⊎◌, refl, arith, true, false, not, ◌&&◌, ◌||◌, List, [], ◌∷◌, ◌*◌, ltb,
  if◌then◌else◌,
}
use aimpremote_control.Prelude.Text.{bytes, bytes_beq}
use aimpremote_control.Prelude.Int.{pos}
use aimpremote_control.Rpc.{
  Json, integer, text, array, object, no_fields, texts, Rpc, ok, rpc_error, null, lookup,
  find_field, Fields,
}
use aimpremote_control.Rpc
use aimpremote_control.SleepTimer.{
  PowerStates, Timer, set, get, pause_playback, second, is_supported,
}
use aimpremote_control.Events.{queue, initial, Signal, message, playback_queue, stop, kind_of}
use aimpremote_control.Events.Waiting.{count_about, has_stop}
use aimpremote_control.Commands.Scheduler.{
  scheduler, scheduler_change, request_action, set_timer, report, current_timer, number_of, rounded,
  answered, undefined, changes, refuses, overflows,
}
use aimpremote_control.Commands.SchedulerLaws.{Does, scheduler_change-Does}
use aimpremote_control.Commands.SchedulerResults.{Tells, scheduler-Tells, result, told_of}
use aimpremote_control.Commands.Subscribe.{Present, subscribe, kind_for, payload, server_stopping}
use aimpremote_control.Commands.SubscribeLaws.{kind_for_iff, event_name, subscribe_lem}

abbrev no_sleep : PowerStates
no_sleep = record { suspend_allowed = false; hibernate_allowed = false }

abbrev idle : Timer
idle = record { stopped = false; active = false; action = []; deadline = 0; generation = 0 }

abbrev set_idle : Timer
set_idle = record {
  stopped = false;
  active = true;
  action = pause_playback;
  deadline = 61 * second;
  generation = 1;
}

abbrev call : Json
call = object (
    Rpc.field (bytes "action") (text pause_playback)
      (Rpc.field (bytes "expiration_delay") (integer (pos 60)) no_fields))

scheduler_change-Does_example :
    Does no_sleep true second call idle (scheduler_change no_sleep true second call idle)
scheduler_change-Does_example = scheduler_change-Does no_sleep true second call idle

-- The method reads the timer a second and a half later.
abbrev later : Timer → ℕ × Timer
later t = (2 * second + second / 2, t)

scheduler-Tells_example :
    ((u : Timer) × (scheduler_change no_sleep true second call idle ≡ changes u)
      × Tells no_sleep (later u).0 (later u).1 (scheduler no_sleep true second later call idle))
    ⊎ ((e : Rpc Json) × (scheduler_change no_sleep true second call idle ≡ refuses e idle)
        × (scheduler no_sleep true second later call idle ≡ answered e idle))
    ⊎ ((scheduler_change no_sleep true second call idle ≡ overflows)
        × (scheduler no_sleep true second later call idle ≡ undefined))
scheduler-Tells_example = scheduler-Tells no_sleep true second later call idle

-- Half a second is rounded up.
answer :
    scheduler no_sleep true second later call idle
    ≡ answered (result no_sleep (told_of pause_playback 59)) set_idle
unfolding scheduler scheduler_change request_action set_timer report current_timer number_of rounded
    lookup find_field bytes_beq is_supported set get
answer = refl

kind_for_iff_run : (kind_for (bytes "timer") ≡ ok queue) ↔ (bytes "timer" ≡ event_name queue)
kind_for_iff_run = kind_for_iff (bytes "timer") queue

abbrev present : Present
present = record {
  control_panel_state = null;
  playlists_of = λ fields. null;
  timer_state = record { is_active = false; state_action = []; expires_in_seconds = 0 };
}

abbrev poll : Fields
poll = Rpc.field (bytes "event") (text (event_name queue)) no_fields

abbrev queue_change : List Signal
queue_change = message playback_queue ∷ []

subscribe_lem_example : subscribe present initial queue_change (stop ∷ []) (object poll) ≡ (
    if has_stop queue_change || not (ltb 0 (count_about queue queue_change)) && has_stop (stop ∷ [])
    then rpc_error server_stopping (bytes "server is stopping")
    else ok (payload present queue))
unfolding find_field bytes_beq initial kind_of
subscribe_lem_example =
    subscribe_lem present initial queue_change (stop ∷ []) poll queue refl refl (omega arith)
      (omega arith)
