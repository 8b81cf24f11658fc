-- ===== src/Events.antt =====
-- stateUpdateEvents.h and stateUpdateEvents.cpp: the versions that long polls wait on, and which of
-- AIMP's messages raise them.
-- AIMP's message numbers are the SDK's: the ones that the code tests are constructors here.
pub mod Waiting
mod Tests
use aimpremote_control.Prelude.{
  ℕ, suc, ◌+◌, ◌%◌, ◌^◌, Bool, true, false, not, ◌&&◌, ◌||◌, Option, none, some, List, [], ◌∷◌,
  if◌then◌else◌, ◌==◌, nat_eq,
}

pub data Kind : Type 0 where
  control_panel playlists queue timer : Kind

-- `FVersions` and `FStopped`; a version is an `std::uint64_t`.
pub record Events : Type 0 where
  pub control_panel_version : ℕ
  pub playlists_version : ℕ
  pub queue_version : ℕ
  pub timer_version : ℕ
  pub stopped : Bool

unfoldable pub initial : Events
initial = record {
  control_panel_version = 0;
  playlists_version = 0;
  queue_version = 0;
  timer_version = 0;
  stopped = false;
}

-- `FVersions[kind]`
abbrev pub version : Kind → Events → ℕ
version control_panel e = e.control_panel_version
version playlists e = e.playlists_version
version queue e = e.queue_version
version timer e = e.timer_version

abbrev pub next_version : ℕ → ℕ
next_version v = (v + 1) % 2 ^ 64

unfoldable pub notify : Kind → Events → Events
notify control_panel e = record e { control_panel_version = next_version e.control_panel_version }
notify playlists e = record e { playlists_version = next_version e.playlists_version }
notify queue e = record e { queue_version = next_version e.queue_version }
notify timer e = record e { timer_version = next_version e.timer_version }

-- The part of `Stop` under the lock.
unfoldable pub raise_stop : Events → Events
raise_stop e = record e { stopped = true }

unfoldable pub is_stopped : Events → Bool
is_stopped e = e.stopped

-- The predicate of `Wait`, for the version that was seen at its start.
unfoldable pub ready : Kind → ℕ → Events → Bool
ready k seen e = e.stopped || not (version k e == seen)

-- What `Wait` returns at the moment its wait ends, be it by the predicate or by the timeout.
unfoldable pub wait_result : Kind → ℕ → Events → Bool
unfolding ready
wait_result k seen e = ready k seen e && not e.stopped

-- The messages that `CoreMessage` tells apart, and the properties of `AIMP_MSG_EVENT_PROPERTY_VALUE`.
pub data Property : Type 0 where
  volume mute repeat shuffle radio_capture player_position other_property : Property

pub data Message : Type 0 where
  player_state stream_start stream_start_subtrack stream_end playing_file_info : Message
  property_value : Property → Message
  playback_queue other_message : Message

-- Whose version a message raises.
unfoldable pub core_message : Message → Option Kind
core_message player_state = some control_panel
core_message stream_start = some control_panel
core_message stream_start_subtrack = some control_panel
core_message stream_end = some control_panel
core_message playing_file_info = some control_panel
core_message (property_value volume) = some control_panel
core_message (property_value mute) = some control_panel
core_message (property_value repeat) = some control_panel
core_message (property_value shuffle) = some control_panel
core_message (property_value radio_capture) = some control_panel
core_message (property_value player_position) = some control_panel
core_message (property_value other_property) = none
core_message playback_queue = some queue
core_message other_message = none

-- The bits of `flags` in `Changed`; `others` stands for the bits that are not tested.
pub record ChangeFlags : Type 0 where
  pub name : Bool
  pub content : Bool
  pub file_info : Bool
  pub readonly : Bool
  pub playing_switches : Bool
  pub others : Bool

unfoldable pub playlist_changed : ChangeFlags → Option Kind
playlist_changed f =
    if f.name || f.content || f.file_info || f.readonly || f.playing_switches
    then some playlists
    else none

-- What reaches the object from outside: AIMP's calls, the sleep timer's, and the plugin's stop.
pub data Signal : Type 0 where
  message : Message → Signal
  changed : ChangeFlags → Signal
  playlist_added playlist_removed : Signal
  timer_event : Signal
  focus_moved : Signal
  stop : Signal

-- Which kind a signal notifies.
unfoldable pub kind_of : Signal → Option Kind
unfolding core_message playlist_changed
kind_of (message m) = core_message m
kind_of (changed f) = playlist_changed f
kind_of playlist_added = some playlists
kind_of playlist_removed = some playlists
kind_of timer_event = some timer
kind_of focus_moved = some control_panel
kind_of stop = none

abbrev pub notify_if : Option Kind → Events → Events
notify_if none e = e
notify_if (some k) e = notify k e

unfoldable pub receive : Signal → Events → Events
unfolding kind_of notify raise_stop
receive stop e = raise_stop e
receive s e = notify_if (kind_of s) e

unfoldable pub receive_all : List Signal → Events → Events
unfolding receive
receive_all [] e = e
receive_all (s ∷ ss) e = receive_all ss (receive s e)
