-- ===== src/Plugin.antt =====
-- plugin.cpp: the order in which the parts start and stop.
-- Whether AIMP has a service, and whether it takes the options dialog, are parameters.
pub mod Lifecycle
mod Tests
use aimpremote_control.Prelude.{
  Bool, true, false, not, ◌&&◌, ◌||◌, List, [], ◌∷◌, ◌++◌, if◌then◌else◌, filter,
}

pub data Part : Type 0 where
  options events timer discovery server watcher : Part

abbrev pub same_part : Part → Part → Bool
same_part options options = true
same_part events events = true
same_part timer timer = true
same_part discovery discovery = true
same_part server server = true
same_part watcher watcher = true
same_part _ _ = false

-- The parts that run, the newest first, and whether `FCore` is set.
pub record Plugin : Type 0 where
  pub has_core : Bool
  pub running : List Part

abbrev pub start : Part → Plugin → Plugin
start p s = record s { running = p ∷ s.running }

-- Stopping what does not run does nothing.
abbrev pub stop : Part → Plugin → Plugin
stop p s = record s { running = filter (λ q. not (same_part p q)) s.running }

-- The services that Initialize looks for.
pub record Services : Type 0 where
  pub player : Bool
  pub playlist_manager : Bool
  pub message_dispatcher : Bool
  pub takes_options : Bool

-- Whether it returns S_OK, and the plugin after it.
unfoldable pub initialize : Services → Plugin → Bool × Plugin
initialize v s =
    if not v.player || not v.playlist_manager || not v.message_dispatcher
    then (false, s)
    else if not v.takes_options
    then (false, stop options (start options (record s { has_core = true })))
    else (
      true,
      start watcher (
          start server (
            start discovery
              (start timer (start events (start options (record s { has_core = true })))))),
    )

unfoldable pub finalize : Plugin → Plugin
finalize s =
    record (stop options
      (stop discovery (stop server (stop events (stop timer (stop watcher s)))))) {
        has_core = false;
      }
