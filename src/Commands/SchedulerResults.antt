-- ===== src/Commands/SchedulerResults.antt =====
-- What a call of the scheduler tells of the timer.
use aimpremote_control.Prelude.{
  ℕ, ◌+◌, ◌-◌, ◌*◌, ◌/◌, ◌^◌, ◌<◌, ◌≤◌, ◌≡◌, refl, ap, ◌∙◌, ◌⊎◌, inl, inr, arith, Bool, true, false,
  none, some, ltb, [], ◌∷◌, Bool-cases,
}
use aimpremote_control.Prelude.Text.{Bytes, bytes}
use aimpremote_control.Prelude.Int.{pos}
use aimpremote_control.Rpc.{
  Json, integer, array, object, Fields, no_fields, texts, lookup, Rpc, ok, rpc_error, type_error,
}
use aimpremote_control.Rpc
use aimpremote_control.SleepTimer.{PowerStates, supported_actions, Timer, get, second}
use aimpremote_control.Commands.Scheduler.{
  Answer, answered, undefined, Change, changes, refuses, overflows, report, scheduler_change,
  scheduler, report_after, current_timer,
}
use aimpremote_control.Commands.SchedulerLaws.{Does, is_off, is_wrong, scheduler_change-Does}

-- The result of a call, with what is told of the timer.
abbrev pub result : PowerStates → Fields → Rpc Json
result p told =
    ok (object (Rpc.field (bytes "supported_actions") (array (texts (supported_actions p))) told))

abbrev pub told_of : Bytes → ℕ → Fields
told_of action seconds =
    Rpc.field (bytes "current_timer")
      (object (
        Rpc.field (bytes "actions") (array (texts (action ∷ [])))
          (Rpc.field (bytes "expires_in") (integer (pos seconds)) no_fields)))
      no_fields

-- What a call tells at a time of a timer as it then is: nothing of one that is not active; or its action
-- and the seconds until its deadline, none after it, rounded half up, if they are within `int`.
pub data Tells (p : PowerStates) (later : ℕ) (u : Timer) : Answer → Type 0 where
  nothing : u.active ≡ false → Tells p later u (answered (result p no_fields) u)
  the_rest :
      (seconds : ℕ)
      → u.active ≡ true
      → 2 * second * seconds ≤ 2 * (u.deadline - later) + second
      → 2 * (u.deadline - later) + second < 2 * second * seconds + 2 * second
      → seconds < 2 ^ 31
      → Tells p later u (answered (result p (told_of u.action seconds)) u)
  too_much :
      u.active ≡ true
      → (2 * 2 ^ 31 - 1) * second ≤ 2 * (u.deadline - later)
      → Tells p later u undefined

abbrev pub seconds_left : ℕ → Timer → ℕ
seconds_left later u = (u.deadline - later + second / 2) / second

get_idle :
    (later : ℕ) (u : Timer)
    → u.active ≡ false
    → get later u ≡ some (record { is_active = false; state_action = []; expires_in_seconds = 0 })
unfolding get
get_idle later u idle = ground arith

get_within :
    (later : ℕ) (u : Timer)
    → u.active ≡ true
    → ltb (seconds_left later u) (2 ^ 31) ≡ true
    → get later u
      ≡ some (record {
        is_active = true;
        state_action = u.action;
        expires_in_seconds = seconds_left later u;
      })
unfolding get
get_within later u on small = ground arith

get_beyond :
    (later : ℕ) (u : Timer)
    → u.active ≡ true
    → ltb (seconds_left later u) (2 ^ 31) ≡ false
    → get later u ≡ none
unfolding get
get_beyond later u on big = ground arith

report-Tells : (p : PowerStates) (later : ℕ) (u : Timer) → Tells p later u (report p later u)
unfolding report current_timer
report-Tells p later u = elim (Bool-cases u.active) [
  | inr idle ↦ rw (report, get_idle later u idle) (nothing idle)
  | inl on ↦ elim (Bool-cases (ltb (seconds_left later u) (2 ^ 31))) [
    | inl small ↦
        rw (report, get_within later u on small)
          (the_rest (seconds_left later u) on (omega arith) (omega arith) (ground arith))
    | inr big ↦ rw (report, get_beyond later u on big) (too_much on (most big))
  ]
]
  where
    most :
        ltb (seconds_left later u) (2 ^ 31) ≡ false
        → (2 * 2 ^ 31 - 1) * second ≤ 2 * (u.deadline - later)
    most big = omega (arith, at_least big)
      where
        at_least : ltb (seconds_left later u) (2 ^ 31) ≡ false → 2 ^ 31 ≤ seconds_left later u
        at_least e = ground arith

-- A call that goes on answers, whatever becomes of the timer in between, with the supported actions and
-- what is left of the timer as it then is: nothing of one that is not active; or its action and the
-- seconds until its deadline, none after it, rounded half up; which are undefined past the range of
-- `int`. A call that fails answers with its error, and one that overflows the clock is undefined.
pub scheduler-Tells :
    (p : PowerStates) (enabled : Bool) (now : ℕ) (between : Timer → ℕ × Timer) (params : Json)
    (t : Timer)
    → ((u : Timer) × (scheduler_change p enabled now params t ≡ changes u)
        × Tells p (between u).0 (between u).1 (scheduler p enabled now between params t))
      ⊎ ((e : Rpc Json) × (scheduler_change p enabled now params t ≡ refuses e t)
          × (scheduler p enabled now between params t ≡ answered e t))
      ⊎ ((scheduler_change p enabled now params t ≡ overflows)
          × (scheduler p enabled now between params t ≡ undefined))
unfolding scheduler
scheduler-Tells p enabled now between params t =
    by_change _ refl (scheduler_change-Does p enabled now params t)
  where
    by_change :
        (c : Change)
        → scheduler_change p enabled now params t ≡ c
        → Does p enabled now params t c
        → ((u : Timer) × (scheduler_change p enabled now params t ≡ changes u)
            × Tells p
                (between u).0
                (between u).1
                (report_after p between (scheduler_change p enabled now params t)))
          ⊎ ((e : Rpc Json) × (scheduler_change p enabled now params t ≡ refuses e t)
              × (report_after p between (scheduler_change p enabled now params t) ≡ answered e t))
          ⊎ ((scheduler_change p enabled now params t ≡ overflows)
              × (report_after p between (scheduler_change p enabled now params t) ≡ undefined))
    by_change (changes u) e d = inl (u, e, rw e (report-Tells p (between u).0 (between u).1))
    by_change overflows e d = inr (inr (e, rw e refl))
    by_change (refuses r u) e d =
        inr (inl (r, e ∙ ap (refuses r) (left d), rw e (ap (answered r) (left d))))
      where
        left : {r : Rpc Json} {u : Timer} → Does p enabled now params t (refuses r u) → u ≡ t
        left (is_off code message off) = refl
        left (is_wrong value code message on keep named wrong) = refl
