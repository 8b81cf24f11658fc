-- ===== src/Commands/Scheduler.antt =====
-- schedulerCommand.cpp: clients set, cancel and read the sleep timer.
-- A number of JSON is taken as exact. As a double it could differ above 2 ^ 53 only, where the deadline
-- overflows in any case.
use aimpremote_control.Prelude.{
  ℕ, suc, ◌+◌, ◌*◌, ◌/◌, ◌^◌, Bool, true, false, Option, none, some, [], ◌∷◌, ◌++◌, if◌then◌else◌,
  ◌==◌,
}
use aimpremote_control.Prelude.Text.{Bytes, bytes, bytes_eq}
use aimpremote_control.Prelude.Int.{ℤ, pos, negsuc}
use aimpremote_control.Rpc.{
  Json, boolean, integer, real, text, array, object, Items, no_items, Fields, no_fields, texts,
  lookup, Rpc, ok, rpc_error, invalid_params,
}
use aimpremote_control.SleepTimer.{
  PowerStates, supported_actions, is_supported, Timer, set, cancel, State, get,
}
use aimpremote_control.Rpc

-- The method enters the timer's mutex twice, and reads the clock each time: for what it is asked to do,
-- and for its result. Others may come between.

-- What the method does at first: it goes on with the timer, is an error, or overflows the clock, which
-- C++ leaves undefined.
pub data Change : Type 0 where
  changes : Timer → Change
  refuses : Rpc Json → Timer → Change
  overflows : Change

-- What the method does: its result with the timer that it leaves, or behaviour that C++ leaves undefined.
pub data Answer : Type 0 where
  answered : Rpc Json → Timer → Answer
  undefined : Answer

unfoldable pub is_true : Json → Bool
is_true (boolean b) = b
is_true (text t) = t == bytes "true"
is_true _ = false

-- -1
abbrev pub scheduler_unavailable : ℤ
scheduler_unavailable = negsuc 0

-- The `actions` and the `expires_in` of a timer.
abbrev pub timer_fields : State → Fields
timer_fields s =
    Rpc.field (bytes "actions") (array (texts (s.state_action ∷ [])))
      (Rpc.field (bytes "expires_in") (integer (pos s.expires_in_seconds)) no_fields)

unfoldable pub build_timer_state : State → Json
build_timer_state s =
    if s.is_active
    then object (Rpc.field (bytes "active") (boolean true) (timer_fields s))
    else object (Rpc.field (bytes "active") (boolean false) no_fields)

-- `is_number()` with `get<double>()`: the seconds as a fraction n / 2 ^ k.
unfoldable pub number_of : Option Json → Option (ℤ × ℕ)
number_of (some (integer z)) = some (z, 0)
number_of (some (real z k)) = some (z, k)
number_of _ = none

-- std::llround of a positive number.
unfoldable pub rounded : ℕ → ℕ → ℕ
rounded n k = (2 * n + 2 ^ k) / (2 * 2 ^ k)

abbrev pub action_text : Json → Bytes
action_text (text t) = t
action_text _ = []

unfoldable pub current_timer : State → Fields
current_timer s =
    if s.is_active
    then Rpc.field (bytes "current_timer") (object (timer_fields s)) no_fields
    else no_fields

-- The end of the method: the result of the state that the timer is in.
unfoldable pub report : PowerStates → ℕ → Timer → Answer
unfolding get current_timer
report p now t = elim (get now t) [
  | none ↦ undefined
  | some s ↦
      answered
        (ok (
          object (
            Rpc.field (bytes "supported_actions") (array (texts (supported_actions p)))
              (current_timer s))))
        t
]

abbrev pub change_of : Option Timer → Change
change_of none = overflows
change_of (some t) = changes t

-- From the check of the delay on.
unfoldable pub set_timer : ℕ → Timer → Bytes → Option (ℤ × ℕ) → Change
unfolding rounded set
set_timer now t action none =
    refuses (rpc_error invalid_params (bytes "expiration_delay is required")) t
set_timer now t action (some (pos (suc n), k)) = change_of (set action (rounded (suc n) k) now t)
set_timer now t action (some _) =
    refuses (rpc_error invalid_params (bytes "expiration_delay must be positive")) t

-- The method with an `action`.
unfoldable pub request_action : PowerStates → ℕ → Timer → Json → Bytes → Change
unfolding is_supported set_timer number_of
request_action p now t params action =
    if is_supported p action
    then set_timer now t action (number_of (lookup (bytes "expiration_delay") params))
    else refuses (rpc_error invalid_params (bytes "unsupported action: " ++ action)) t

abbrev pub is_cancel : Option Json → Bool
is_cancel none = false
is_cancel (some v) = is_true v

abbrev pub request_action_of : PowerStates → ℕ → Timer → Json → Option Json → Change
request_action_of p now t params none = changes t
request_action_of p now t params (some a) = request_action p now t params (action_text a)

-- The method until its result is made.
unfoldable pub scheduler_change : PowerStates → (enabled : Bool) → ℕ → Json → Timer → Change
unfolding request_action cancel is_true
scheduler_change p enabled now params t =
    if enabled
    then (if is_cancel (lookup (bytes "cancel") params)
        then changes (cancel t)
        else request_action_of p now t params (lookup (bytes "action") params))
    else refuses (rpc_error scheduler_unavailable (bytes "Scheduler service unavailable")) t

-- `between` is what becomes of the timer until the method reads it, and the time at which it does.
abbrev pub report_after : PowerStates → (between : Timer → ℕ × Timer) → Change → Answer
report_after p between (changes t) = report p (between t).0 (between t).1
report_after p between (refuses e t) = answered e t
report_after p between overflows = undefined

unfoldable pub scheduler :
    PowerStates → (enabled : Bool) → ℕ → (between : Timer → ℕ × Timer) → Json → Timer → Answer
unfolding scheduler_change report
scheduler p enabled now between params t =
    report_after p between (scheduler_change p enabled now params t)
