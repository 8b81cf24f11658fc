-- ===== src/SleepTimer/System/Safety.antt =====
-- What can fire, and when.
use aimpremote_control.Prelude.{
  ℕ, ◌+◌, ◌≤◌, ◌≡◌, refl, ◌∙◌, Bool, true, false, none, some, List, [], ◌∷◌, ◌⊎◌, inl, inr, length,
  arith, Bool-cases, ltb,
}
use aimpremote_control.Prelude.Text.{Bytes}
use aimpremote_control.SleepTimer.{
  Timer, set, Place, loop_head, sleeping, finished, armed, executing, Wake, notified, timed_out,
  Turn, turn, disturbed,
}
use aimpremote_control.SleepTimer.System.{
  Firing, System, started, wake, log_begun, accept, cancelled, stopped, Step, sets, cancels, stops,
  ticks, wakes, Reach, here, next, Quiet, still, cancelling, stopping, ticking, waking,
}

abbrev pub Elem : {A : Type 0} → A → List A → Type 0
Elem a [] = ⊥
Elem a (x ∷ xs) = (a ≡ x) ⊎ Elem a xs

-- Each firing is of something that was set, and not before its deadline.
abbrev pub AllDue : List (Bytes × ℕ) → List Firing → Type 0
AllDue accepted [] = Unit
AllDue accepted (f ∷ fs) = Elem (f.what, f.due) accepted × (f.due ≤ f.at) × AllDue accepted fs

abbrev pub pending : Bool → ℕ
pending true = 1
pending false = 0

pub record IsSafe (s : System) : Type 0 where
  pub current : s.timer.active ≡ true → Elem (s.timer.action, s.timer.deadline) s.accepted
  pub due : AllDue s.accepted s.fired
  pub once : length s.fired + pending s.timer.active ≤ length s.accepted

AllDue-cons :
    (x : Bytes × ℕ) (accepted : List (Bytes × ℕ)) (fs : List Firing)
    → AllDue accepted fs
    → AllDue (x ∷ accepted) fs
AllDue-cons x accepted [] h = tt
AllDue-cons x accepted (f ∷ fs) h = (inr h.0, h.1, AllDue-cons x accepted fs h.2)

sets-IsSafe :
    (s : System) (action : Bytes) (delay : ℕ) (t : Timer)
    → set action delay s.now s.timer ≡ some t
    → IsSafe s
    → IsSafe (accept action t s)
unfolding accept set
sets-IsSafe s action delay t e v = record {
  current = λ _. inl (ground arith);
  due = AllDue-cons _ s.accepted s.fired v.due;
  once = ground arith;
}

-- A turn either begins nothing and leaves the timer as it is, or begins the action of a timer that is
-- active, not stopped and due, and makes it inactive.
pub data Turns (now : ℕ) (t : Timer) (r : Turn) : Type 0 where
  idles : r.turned ≡ t → r.begun ≡ none → Turns now t r
  begins :
      t.active ≡ true
      → t.stopped ≡ false
      → t.deadline ≤ now
      → r.turned ≡ record t { active = false }
      → r.begun ≡ some t.action
      → Turns now t r

pub turn-Turns : (w : Wake) (now : ℕ) (t : Timer) (p : Place) → Turns now t (turn w now t p)
unfolding turn
turn-Turns w now t loop_head = idles (ground arith) (ground arith)
turn-Turns w now t sleeping = idles (ground arith) (ground arith)
turn-Turns w now t (executing a) = idles refl refl
turn-Turns w now t finished = idles refl refl
turn-Turns notified now t (armed seen) = idles (ground arith) (ground arith)
turn-Turns timed_out now t (armed seen) = elim (Bool-cases (disturbed seen t)) [
  | inl d ↦ rw d (idles refl refl)
  | inr d ↦ rw d (elim (Bool-cases (ltb now t.deadline)) [
    | inl early ↦ rw early (idles refl refl)
    | inr due ↦ rw due (begins (ground arith) (ground arith) (ground arith) refl refl)
  ])
]

Turns-IsSafe :
    (s : System) (r : Turn)
    → IsSafe s
    → Turns s.now s.timer r
    → IsSafe (record s {
      timer = r.turned;
      place = r.place;
      fired = log_begun r.begun s.timer.deadline s.now s.fired;
    })
Turns-IsSafe s r v (idles same none_begun) =
    rw (same, none_begun) (record { current = v.current; due = v.due; once = v.once })
Turns-IsSafe s r v (begins active running due turned begun) =
    rw (turned, begun)
      (record {
        current = λ e. cc;
        due = (v.current active, due, v.due);
        once = ground (arith, v.once);
      })

Step-IsSafe : {s t : System} → Step s t → IsSafe s → IsSafe t
unfolding cancelled stopped wake
Step-IsSafe (sets s action delay t e) v = sets-IsSafe s action delay t e v
Step-IsSafe (cancels s) v = record { current = λ e. cc; due = v.due; once = omega (arith, v.once) }
Step-IsSafe (stops s) v = record { current = λ e. cc; due = v.due; once = omega (arith, v.once) }
Step-IsSafe (ticks s n) v = record { current = v.current; due = v.due; once = v.once }
Step-IsSafe (wakes s w) v =
    Turns-IsSafe s (turn w s.now s.timer s.place) v (turn-Turns w s.now s.timer s.place)

started-IsSafe : (now : ℕ) → IsSafe (started now)
unfolding started
started-IsSafe now = record { current = λ e. cc; due = tt; once = omega arith }

-- In every state that the timer reaches from its start, by any interleaving of its thread with calls
-- and time: whatever was begun had been set, and was not begun before its deadline; and no more was
-- begun than was set, not counting a timer that is still active.
pub Reach-IsSafe : (now : ℕ) {s : System} → Reach (started now) s → IsSafe s
Reach-IsSafe now here = started-IsSafe now
Reach-IsSafe now (next r st) = Step-IsSafe st (Reach-IsSafe now r)

Turns-quiet :
    (s : System) (r : Turn)
    → s.timer.active ≡ false
    → Turns s.now s.timer r
    → (r.turned.active ≡ false) × (log_begun r.begun s.timer.deadline s.now s.fired ≡ s.fired)
Turns-quiet s r off (idles same none_begun) = rw (same, none_begun) (off, refl)
Turns-quiet s r off (begins active running due turned begun) = cc

-- From a state with no active timer, as a cancel or a stop leaves it, nothing more is begun until a timer
-- is set again, however long the thread runs and whatever cancels and stops come.
pub Quiet-fired :
    (s : System) {t : System}
    → s.timer.active ≡ false
    → Quiet s t
    → (t.timer.active ≡ false) × (t.fired ≡ s.fired)
unfolding cancelled stopped wake
Quiet-fired s off still = (off, refl)
Quiet-fired s off (cancelling q) = (refl, (Quiet-fired s off q).1)
Quiet-fired s off (stopping q) = (refl, (Quiet-fired s off q).1)
Quiet-fired s off (ticking q n) = Quiet-fired s off q
Quiet-fired s off (waking {t} q w) =
    let (inactive, same) = Quiet-fired s off q in
    let (after, kept) =
      Turns-quiet t (turn w t.now t.timer t.place) inactive (turn-Turns w t.now t.timer t.place) in
    (after, kept ∙ same)
