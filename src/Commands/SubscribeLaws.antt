-- ===== src/Commands/SubscribeLaws.antt =====
-- What a long poll answers.
use aimpremote_control.Prelude.{
  ◌≡◌, ◌↔◌, ◌<◌, ◌^◌, refl, ap, ◌∙◌, arith, false, not, ◌&&◌, ◌||◌, some, List, [], if◌then◌else◌,
  ltb,
}
use aimpremote_control.Prelude.Text.{Bytes, bytes, bytes_eq, bytes_beq, bytes_beq_iff}
use aimpremote_control.Rpc.{text, object, text_or, find_field, ok, rpc_error, Fields, ◌>>=◌}
use aimpremote_control.Events.{
  Kind, control_panel, playlists, queue, timer, Events, version, is_stopped, Signal, receive_all,
}
use aimpremote_control.Events.Waiting.{count_about, has_stop, wait_result_iff, stopped-receive_all}
use aimpremote_control.Commands.Subscribe.{
  kind_for, server_stopping, Present, payload, await, subscribe,
}

-- The name under which a client asks for a kind.
abbrev pub event_name : Kind → Bytes
event_name control_panel = bytes "control_panel_state_change"
event_name playlists = bytes "playlists_content_change"
event_name queue = bytes "queue_content_change"
event_name timer = bytes "timer_state_change"

kind_for-event_name : (k : Kind) → kind_for (event_name k) ≡ ok k
unfolding kind_for bytes_beq
kind_for-event_name control_panel = refl
kind_for-event_name playlists = refl
kind_for-event_name queue = refl
kind_for-event_name timer = refl

event_name-kind_for : (event : Bytes) (k : Kind) → kind_for event ≡ ok k → event ≡ event_name k
unfolding kind_for
event_name-kind_for event k h = ground (
  arith,
  bytes_beq_iff event (bytes "control_panel_state_change"),
  bytes_beq_iff event (bytes "playlists_content_change"),
  bytes_beq_iff event (bytes "queue_content_change"),
  bytes_beq_iff event (bytes "timer_state_change"),
)

-- Each kind has exactly one event name.
pub kind_for_iff : (event : Bytes) (k : Kind) → (kind_for event ≡ ok k) ↔ (event ≡ event_name k)
kind_for_iff event k = (event_name-kind_for event k, λ e. ap kind_for e ∙ kind_for-event_name k)

await_lem :
    (now : Present) (e : Events) (waiting after : List Signal) (k : Kind)
    → e.stopped ≡ false
    → version k e < 2 ^ 64
    → count_about k waiting < 2 ^ 64
    → await now e waiting after k ≡ (
        if not (ltb 0 (count_about k waiting)) && (has_stop waiting || has_stop after)
          || has_stop waiting
        then rpc_error server_stopping (bytes "server is stopping")
        else ok (payload now k))
unfolding await is_stopped
await_lem now e waiting after k run small few = ground (
  arith,
  wait_result_iff k waiting e run small few,
  stopped-receive_all waiting e,
  stopped-receive_all after (receive_all waiting e),
)

text_or-found :
    (k fallback t : Bytes) (object_fields : Fields)
    → find_field k object_fields ≡ some (text t)
    → text_or k fallback (object object_fields) ≡ ok t
unfolding text_or
text_or-found k fallback t object_fields h = rw (text_or, h)

-- A poll of a known event, begun before the stop, tells what is there when its wait ends, be it for a
-- signal of its kind or for the timeout; but it fails with the code for a stopping server if the stop
-- came during the wait, or right after a wait that ended with no signal of the kind.
pub subscribe_lem :
    (now : Present) (e : Events) (waiting after : List Signal) (object_fields : Fields) (k : Kind)
    → find_field (bytes "event") object_fields ≡ some (text (event_name k))
    → e.stopped ≡ false
    → version k e < 2 ^ 64
    → count_about k waiting < 2 ^ 64
    → subscribe now e waiting after (object object_fields) ≡ (
        if has_stop waiting || not (ltb 0 (count_about k waiting)) && has_stop after
        then rpc_error server_stopping (bytes "server is stopping")
        else ok (payload now k))
unfolding subscribe
subscribe_lem now e waiting after object_fields k named run small few =
    ap (λ r. r >>= kind_for >>= await now e waiting after)
      (text_or-found (bytes "event") [] (event_name k) object_fields named)
    ∙ ap (λ r. r >>= await now e waiting after) (kind_for-event_name k)
    ∙ await_lem now e waiting after k run small few
    ∙ ground arith
