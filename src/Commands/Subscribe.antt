-- ===== src/Commands/Subscribe.antt =====
-- subscribeOnAIMPStateUpdateEventCommand.cpp: the long poll.
-- What AIMP tells of the player and of the playlists is a parameter.
use aimpremote_control.Prelude.{true, not, ◌&&◌, List, [], ◌∷◌, ◌++◌, if◌then◌else◌, ◌==◌}
use aimpremote_control.Prelude.Text.{Bytes, bytes, bytes_eq}
use aimpremote_control.Prelude.Int.{ℤ, negsuc}
use aimpremote_control.Rpc.{
  Json, boolean, text, object, no_fields, text_or, Rpc, ok, rpc_error, ◌>>=◌, invalid_params,
}
use aimpremote_control.Rpc
use aimpremote_control.Events.{
  Kind, control_panel, playlists, queue, timer, Events, version, wait_result, is_stopped, Signal,
  receive_all,
}
use aimpremote_control.SleepTimer.{State}
use aimpremote_control.Commands.Scheduler.{build_timer_state}

unfoldable pub kind_for : Bytes → Rpc Kind
kind_for event =
    if event == bytes "control_panel_state_change"
    then ok control_panel
    else if event == bytes "playlists_content_change"
    then ok playlists
    else if event == bytes "queue_content_change"
    then ok queue
    else if event == bytes "timer_state_change"
    then ok timer
    else rpc_error invalid_params (bytes "unknown event: " ++ event)

-- -32000
abbrev pub server_stopping : ℤ
server_stopping = negsuc 31999

-- What is there to tell when the wait is over.
pub record Present : Type 0 where
  pub control_panel_state : Json
  pub playlists_of : List Bytes → Json
  pub timer_state : State

-- The switch over the kinds.
unfoldable pub payload : Present → Kind → Json
unfolding build_timer_state
payload now control_panel = now.control_panel_state
payload now playlists = object (
    Rpc.field (bytes "event") (text (bytes "playlists_changed")) (
      Rpc.field (bytes "playlists") (now.playlists_of (bytes "id" ∷ bytes "crc32" ∷ [])) no_fields))
payload now timer = build_timer_state now.timer_state
payload now queue = object (Rpc.field (bytes "changed") (boolean true) no_fields)

-- The poll of a kind, from the events `e` that it starts at, through the signals that come until its
-- wait ends, and those that come until `IsStopped` is asked.
unfoldable pub await : Present → Events → (waiting after : List Signal) → Kind → Rpc Json
unfolding wait_result is_stopped receive_all payload
await now e waiting after kind =
    let then_events = receive_all waiting e in
    if not (wait_result kind (version kind e) then_events)
      && is_stopped (receive_all after then_events)
    then rpc_error server_stopping (bytes "server is stopping")
    else ok (payload now kind)

unfoldable pub subscribe : Present → Events → (waiting after : List Signal) → Json → Rpc Json
unfolding kind_for await text_or
subscribe now e waiting after params =
    text_or (bytes "event") [] params >>= kind_for >>= await now e waiting after
