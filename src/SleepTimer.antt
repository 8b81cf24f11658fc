-- ===== src/SleepTimer.antt =====
-- sleepTimer.h and sleepTimer.cpp: the timer's state, its thread, and what it does when it fires.
-- The steady clock counts nanoseconds in a signed 64-bit word; a deadline past its end is an overflow,
-- which C++ leaves undefined. The mutex makes each critical section one step.
pub mod System
mod Tests
use aimpremote_control.Prelude.{
  ℕ, suc, ◌+◌, ◌-◌, ◌*◌, ◌/◌, ◌%◌, ◌^◌, Bool, true, false, not, ◌&&◌, ◌||◌, Option, none, some,
  List, [], ◌∷◌, ◌++◌, if◌then◌else◌, ◌==◌, nat_eq, contains, ltb, leb,
}
use aimpremote_control.Prelude.Text.{Bytes, bytes, bytes_eq, bytes_beq}

abbrev pub player_shutdown : Bytes
player_shutdown = bytes "player_shutdown"

abbrev pub pause_playback : Bytes
pause_playback = bytes "pause_playback"

abbrev pub machine_shutdown : Bytes
machine_shutdown = bytes "machine_shutdown"

abbrev pub machine_sleep : Bytes
machine_sleep = bytes "machine_sleep"

abbrev pub machine_hibernate : Bytes
machine_hibernate = bytes "machine_hibernate"

-- What Windows says of itself (`IsPwrSuspendAllowed`, `IsPwrHibernateAllowed`); elsewhere both are false.
pub record PowerStates : Type 0 where
  pub suspend_allowed : Bool
  pub hibernate_allowed : Bool

unfoldable pub supported_actions : PowerStates → List Bytes
supported_actions p =
    player_shutdown
    ∷ pause_playback
    ∷ machine_shutdown
    ∷ ((if p.suspend_allowed then machine_sleep ∷ [] else [])
        ++ (if p.hibernate_allowed then machine_hibernate ∷ [] else []))

unfoldable pub is_supported : PowerStates → Bytes → Bool
unfolding supported_actions bytes_beq
is_supported p action = contains action (supported_actions p)

-- The calls of AIMP that `Execute` makes, with the flags of the shutdown service; `pauses_playback`
-- pauses a player that plays.
pub data Effect : Type 0 where
  pauses_playback : Effect
  shuts_down : (close_app power_off sleep hibernate no_confirm : Bool) → Effect
  no_effect : Effect

unfoldable pub execute : Bytes → Effect
unfolding bytes_beq
execute action =
    if action == pause_playback
    then pauses_playback
    else if action == player_shutdown
    then shuts_down true false false false false
    else if action == machine_shutdown
    then shuts_down false true false false false
    else if action == machine_sleep
    then shuts_down false false true false true
    else if action == machine_hibernate
    then shuts_down false false false true true
    else no_effect

pub record Timer : Type 0 where
  pub stopped : Bool
  pub active : Bool
  pub action : Bytes
  pub deadline : ℕ
  pub generation : ℕ

abbrev pub second : ℕ
second = 1000000000

abbrev pub clock_limit : ℕ
clock_limit = 2 ^ 63

-- `none` is the overflow of `now() + delay`.
unfoldable pub set : Bytes → ℕ → ℕ → Timer → Option Timer
set action delay now t =
    if ltb (now + delay * second) clock_limit
    then some (record t {
      active = true;
      action = action;
      deadline = now + delay * second;
      generation = (t.generation + 1) % 2 ^ 64;
    })
    else none

unfoldable pub cancel : Timer → Timer
cancel t = record t { active = false }

-- The critical section of `Stop`.
unfoldable pub raise_stop : Timer → Timer
raise_stop t = record t { stopped = true; active = false }

pub record State : Type 0 where
  pub is_active : Bool
  pub state_action : Bytes
  pub expires_in_seconds : ℕ

-- The seconds that are left, rounded half up and not below 0; `none` is a value past the range of
-- `int`, to which the cast is undefined. The double that carries the seconds is taken as exact.
unfoldable pub get : ℕ → Timer → Option State
get now t =
    let left = (t.deadline - now + second / 2) / second in
    if t.active
    then (if ltb left (2 ^ 31)
        then some (record { is_active = true; state_action = t.action; expires_in_seconds = left })
        else none)
    else some (record { is_active = false; state_action = []; expires_in_seconds = 0 })

-- Where the thread of `Run` stands: at the head of the loop, in the wait without a timer, in the wait
-- for the deadline with the generation that it saw, in `Execute`, or at the end.
pub data Place : Type 0 where
  loop_head sleeping finished : Place
  armed : ℕ → Place
  executing : Bytes → Place

-- Why a wait ends: a notification or for no reason, or its deadline.
pub data Wake : Type 0 where
  notified timed_out : Wake

-- What the thread does next: the new state and place, and the action that it begins to execute.
pub record Turn : Type 0 where
  pub turned : Timer
  pub place : Place
  pub begun : Option Bytes

abbrev pub stay : Timer → Place → Turn
stay t p = record { turned = t; place = p; begun = none }

-- The predicate of the wait for the deadline.
abbrev pub disturbed : ℕ → Timer → Bool
disturbed seen t = t.stopped || not t.active || not (t.generation == seen)

unfoldable pub turn : Wake → ℕ → Timer → Place → Turn
turn w now t loop_head =
    if t.stopped
    then stay t finished
    else if not t.active
    then stay t sleeping
    else stay t (armed t.generation)
turn w now t sleeping = if t.stopped || t.active then stay t loop_head else stay t sleeping
turn notified now t (armed seen) =
    if disturbed seen t then stay t loop_head else stay t (armed seen)
turn timed_out now t (armed seen) =
    if disturbed seen t
    then stay t loop_head
    else if ltb now t.deadline
    then stay t loop_head
    else record {
      turned = record t { active = false };
      place = executing t.action;
      begun = some t.action;
    }
turn w now t (executing action) = stay t loop_head
turn w now t finished = stay t finished
