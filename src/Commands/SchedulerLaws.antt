-- ===== src/Commands/SchedulerLaws.antt =====
-- What a call of the scheduler does to the timer.
use native.Mathlib.Nat.{div-add-mod, mod-lt}
use aimpremote_control.Prelude.{
  ℕ, zero, suc, ◌+◌, ◌*◌, ◌/◌, ◌%◌, ◌^◌, ◌<◌, ◌≤◌, ◌≡◌, refl, ◌⊎◌, inl, inr, arith, Bool, true,
  false, Option, none, some, Bool-cases, Option-cases,
}
use aimpremote_control.Prelude.Text.{Bytes, bytes}
use aimpremote_control.Prelude.Int.{ℤ, pos, negsuc}
use aimpremote_control.Rpc.{Json, lookup, rpc_error}
use aimpremote_control.SleepTimer.{PowerStates, is_supported, Timer, set, cancel}
use aimpremote_control.Commands.Scheduler.{
  Change, changes, refuses, overflows, change_of, set_timer, request_action, request_action_of,
  is_cancel, number_of, rounded, scheduler_change, action_text,
}

-- `seconds` is the fraction n / 2 ^ k rounded half up: at most a half above it, and more than a half
-- below it nowhere.
abbrev pub IsNearest : (n k seconds : ℕ) → Type 0
IsNearest n k seconds =
    (2 * 2 ^ k * seconds ≤ 2 * n + 2 ^ k) × (2 * n + 2 ^ k < 2 * 2 ^ k * seconds + 2 * 2 ^ k)

-- A call that asks for an action that the machine supports, with a positive number of seconds.
pub record AsksFor (p : PowerStates) (params : Json) (action : Bytes) (seconds : ℕ) : Type 0 where
  pub no_cancel : is_cancel (lookup (bytes "cancel") params) ≡ false
  pub value : Json
  pub named : lookup (bytes "action") params ≡ some value
  pub action_eq : action ≡ action_text value
  pub supported : is_supported p action ≡ true
  pub number : ℕ
  pub exponent : ℕ
  pub delay :
      number_of (lookup (bytes "expiration_delay") params) ≡ some (pos (suc number), exponent)
  pub nearest : IsNearest (suc number) exponent seconds

abbrev pub IsPositive : Option (ℤ × ℕ) → Type 0
IsPositive (some (pos (suc n), k)) = Unit
IsPositive _ = ⊥

-- A call that asks for an action that is not supported, or without a positive number of seconds.
abbrev pub AsksWrongly : PowerStates → Json → Json → Type 0
AsksWrongly p params value =
    (is_supported p (action_text value) ≡ false)
    ⊎ (IsPositive (number_of (lookup (bytes "expiration_delay") params)) → ⊥)

-- What a call does to the timer, each case with all that it takes.
pub data Does (p : PowerStates) (enabled : Bool) (now : ℕ) (params : Json) (t : Timer)
    : Change → Type 0 where
  is_off :
      (code : ℤ) (message : Bytes)
      → enabled ≡ false
      → Does p enabled now params t (refuses (rpc_error code message) t)
  cancels :
      enabled ≡ true
      → is_cancel (lookup (bytes "cancel") params) ≡ true
      → Does p enabled now params t (changes (cancel t))
  reads :
      enabled ≡ true
      → is_cancel (lookup (bytes "cancel") params) ≡ false
      → lookup (bytes "action") params ≡ none
      → Does p enabled now params t (changes t)
  sets :
      (action : Bytes) (seconds : ℕ) (u : Timer)
      → enabled ≡ true
      → AsksFor p params action seconds
      → set action seconds now t ≡ some u
      → Does p enabled now params t (changes u)
  sets_late :
      (action : Bytes) (seconds : ℕ)
      → enabled ≡ true
      → AsksFor p params action seconds
      → set action seconds now t ≡ none
      → Does p enabled now params t overflows
  is_wrong :
      (value : Json) (code : ℤ) (message : Bytes)
      → enabled ≡ true
      → is_cancel (lookup (bytes "cancel") params) ≡ false
      → lookup (bytes "action") params ≡ some value
      → AsksWrongly p params value
      → Does p enabled now params t (refuses (rpc_error code message) t)

power_positive : (k : ℕ) → 0 < 2 ^ k
power_positive zero = omega arith
power_positive (suc k) = omega (arith, power_positive k)

rounded-IsNearest : (n k : ℕ) → IsNearest n k (rounded n k)
unfolding rounded
rounded-IsNearest n k = (omega (arith, whole), omega (arith, whole, rest))
  where
    whole :
        2 * 2 ^ k * ((2 * n + 2 ^ k) / (2 * 2 ^ k)) + (2 * n + 2 ^ k) % (2 * 2 ^ k) ≡ 2 * n + 2 ^ k
    whole = div-add-mod (2 * n + 2 ^ k) (2 * 2 ^ k)

    rest : (2 * n + 2 ^ k) % (2 * 2 ^ k) < 2 * 2 ^ k
    rest = mod-lt (2 * n + 2 ^ k) (omega (arith, power_positive k))

module _ (p : PowerStates) (now : ℕ) (params : Json) (t : Timer)
    (keep : is_cancel (lookup (bytes "cancel") params) ≡ false) (value : Json)
    (named : lookup (bytes "action") params ≡ some value) where
  set-Does :
      (seconds : ℕ)
      → AsksFor p params (action_text value) seconds
      → Does p true now params t (change_of (set (action_text value) seconds now t))
  set-Does seconds asks = elim (Option-cases (set (action_text value) seconds now t)) [
    | inl over ↦ rw over (sets_late (action_text value) seconds refl asks over)
    | inr (u, there) ↦ rw there (sets (action_text value) seconds u refl asks there)
  ]

  set_timer-Does :
      is_supported p (action_text value) ≡ true
      → (o : Option (ℤ × ℕ)) → number_of (lookup (bytes "expiration_delay") params) ≡ o
      → Does p true now params t (set_timer now t (action_text value) o)
  unfolding set_timer
  set_timer-Does granted none e = is_wrong value _ _ refl keep named (inr (λ h. rw e at h))
  set_timer-Does granted (some (pos zero, k)) e =
      is_wrong value _ _ refl keep named (inr (λ h. rw e at h))
  set_timer-Does granted (some (negsuc n, k)) e =
      is_wrong value _ _ refl keep named (inr (λ h. rw e at h))
  set_timer-Does granted (some (pos (suc n), k)) e = set-Does (rounded (suc n) k) (record {
    no_cancel = keep;
    value = value;
    named = named;
    action_eq = refl;
    supported = granted;
    number = n;
    exponent = k;
    delay = e;
    nearest = rounded-IsNearest (suc n) k;
  })

  action-Does : Does p true now params t (request_action p now t params (action_text value))
  unfolding request_action
  action-Does = elim (Bool-cases (is_supported p (action_text value))) [
    | inl granted ↦ rw (granted, request_action) (set_timer-Does granted _ refl)
    | inr denied ↦ rw (denied, request_action) (is_wrong value _ _ refl keep named (inl denied))
  ]

-- What a call does to the timer when it is asked, whatever a client sends: it cancels the timer, if that
-- is asked; it leaves it, if no action is named; it sets it to the named action, if the machine supports
-- it, with the positive number of seconds rounded half up, or overflows the clock with them; and it
-- fails and leaves it in every other case, as where the feature is off.
pub scheduler_change-Does :
    (p : PowerStates) (enabled : Bool) (now : ℕ) (params : Json) (t : Timer)
    → Does p enabled now params t (scheduler_change p enabled now params t)
unfolding scheduler_change
scheduler_change-Does p false now params t = is_off _ _ refl
scheduler_change-Does p true now params t =
    elim (Bool-cases (is_cancel (lookup (bytes "cancel") params))) [
      | inl asked ↦ rw (scheduler_change, asked) (cancels refl asked)
      | inr keep ↦ rw (scheduler_change, keep) (named_or_not keep _ refl)
    ]
  where
    named_or_not :
        is_cancel (lookup (bytes "cancel") params) ≡ false
        → (o : Option Json) → lookup (bytes "action") params ≡ o
        → Does p true now params t (request_action_of p now t params o)
    named_or_not keep none e = reads refl keep e
    named_or_not keep (some value) e = action-Does p now params t keep value e
