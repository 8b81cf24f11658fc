-- ===== src/Events/Tests.antt =====
-- The waits at concrete signals.
use aimpremote_control.Prelude.{◌≡◌, refl, arith, true, false, List, [], ◌∷◌, ltb, ◌&&◌, ◌||◌, not}
use aimpremote_control.Events.{
  queue, initial, version, ready, wait_result, Signal, message, stop, focus_moved, playback_queue,
  receive_all, kind_of,
}
use aimpremote_control.Events.Waiting.{count_about, has_stop, wait_result_iff, ready_iff}

abbrev signals : List Signal
signals = focus_moved ∷ message playback_queue ∷ []

wait_result_iff_example :
    wait_result queue (version queue initial) (receive_all signals initial)
    ≡ (ltb 0 (count_about queue signals) && not (has_stop signals))
unfolding initial kind_of
wait_result_iff_example = wait_result_iff queue signals initial refl (omega arith) (omega arith)

ready_iff_run :
    ready queue (version queue initial) (receive_all (stop ∷ []) initial)
    ≡ (has_stop (stop ∷ []) || ltb 0 (count_about queue (stop ∷ [])))
unfolding initial kind_of
ready_iff_run = ready_iff queue (stop ∷ []) initial refl (omega arith) (omega arith)

-- The poll of the queue wakes for the queue's message and not for the focus.
wakes : wait_result queue 0 (receive_all signals initial) ≡ true
unfolding wait_result receive_all initial
wakes = refl

sleeps : wait_result queue 0 (receive_all (focus_moved ∷ []) initial) ≡ false
unfolding wait_result receive_all initial
sleeps = refl
