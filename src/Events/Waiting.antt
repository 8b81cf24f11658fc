-- ===== src/Events/Waiting.antt =====
-- A long poll wakes for the signals that come while it waits, and for no others.
use aimpremote_control.Prelude.{
  ℕ, suc, ◌+◌, ◌%◌, ◌^◌, ◌<◌, ◌≡◌, refl, Bool, true, false, not, ◌&&◌, ◌||◌, Option, none, some,
  List, [], ◌∷◌, if◌then◌else◌, nat_eq, arith, ltb,
}
use aimpremote_control.Events.{
  Kind, control_panel, playlists, queue, timer, Events, version, next_version, notify, ready,
  wait_result, Signal, stop, kind_of, notify_if, receive, receive_all,
}

abbrev pub same_kind : Kind → Kind → Bool
same_kind control_panel control_panel = true
same_kind playlists playlists = true
same_kind queue queue = true
same_kind timer timer = true
same_kind _ _ = false

abbrev pub is_of : Kind → Option Kind → Bool
is_of k none = false
is_of k (some j) = same_kind k j

-- A signal of the kind that the poll waits for.
abbrev pub is_about : Kind → Signal → Bool
is_about k s = is_of k (kind_of s)

abbrev pub is_stop : Signal → Bool
is_stop stop = true
is_stop _ = false

-- How many of the signals are of the kind.
abbrev pub count_about : Kind → List Signal → ℕ
count_about k [] = 0
count_about k (s ∷ ss) = let rest = count_about k ss in if is_about k s then suc rest else rest

abbrev pub has_stop : List Signal → Bool
has_stop [] = false
has_stop (s ∷ ss) = is_stop s || has_stop ss

version-notify :
    (k j : Kind) (e : Events)
    → version k (notify j e) ≡ (if same_kind k j then next_version (version k e) else version k e)
unfolding notify
version-notify control_panel control_panel e = refl
version-notify control_panel playlists e = refl
version-notify control_panel queue e = refl
version-notify control_panel timer e = refl
version-notify playlists control_panel e = refl
version-notify playlists _ e = refl
version-notify queue control_panel e = refl
version-notify queue playlists e = refl
version-notify queue queue e = refl
version-notify queue _ e = refl
version-notify timer control_panel e = refl
version-notify timer playlists e = refl
version-notify timer queue e = refl
version-notify timer _ e = refl

version-notify_if :
    (k : Kind) (o : Option Kind) (e : Events)
    → version k (notify_if o e) ≡ (if is_of k o then next_version (version k e) else version k e)
version-notify_if k none e = refl
version-notify_if k (some j) e = version-notify k j e

version-receive :
    (k : Kind) (s : Signal) (e : Events)
    → version k (receive s e) ≡ (if is_about k s then next_version (version k e) else version k e)
unfolding receive
version-receive control_panel stop e = refl
version-receive playlists stop e = refl
version-receive queue stop e = refl
version-receive timer stop e = refl
version-receive k s e = version-notify_if k (kind_of s) e

stopped-notify_if : (o : Option Kind) (e : Events) → (notify_if o e).stopped ≡ e.stopped
unfolding notify
stopped-notify_if none e = refl
stopped-notify_if (some control_panel) e = refl
stopped-notify_if (some _) e = refl

stopped-receive : (s : Signal) (e : Events) → (receive s e).stopped ≡ (is_stop s || e.stopped)
unfolding receive
stopped-receive stop e = refl
stopped-receive s e = stopped-notify_if (kind_of s) e

pub stopped-receive_all :
    (ss : List Signal) (e : Events) → (receive_all ss e).stopped ≡ (has_stop ss || e.stopped)
unfolding receive_all
stopped-receive_all [] e = refl
stopped-receive_all (s ∷ ss) e =
    ground (arith, stopped-receive_all ss (receive s e), stopped-receive s e)

version-receive_all :
    (k : Kind) (ss : List Signal) (e : Events)
    → version k e < 2 ^ 64
    → version k (receive_all ss e) ≡ (version k e + count_about k ss) % 2 ^ 64
unfolding receive_all
version-receive_all k [] e h = omega arith
version-receive_all k (s ∷ ss) e h =
    rw
      (
        version-receive_all k ss (receive s e) (rw (version-receive k s e) (kept (is_about k s))),
        version-receive k s e,
      )
      (counted (is_about k s))
  where
    kept : (b : Bool) → (if b then next_version (version k e) else version k e) < 2 ^ 64
    kept true = omega arith
    kept false = h

    counted :
        (b : Bool)
        → ((if b then next_version (version k e) else version k e) + count_about k ss) % 2 ^ 64
          ≡ (version k e + (if b then suc (count_about k ss) else count_about k ss)) % 2 ^ 64
    counted true = omega arith
    counted false = refl

-- A poll of a kind that starts in a state that is not stopped returns true, whenever its wait ends,
-- exactly if among the signals since its start one is of its kind and none is the stop; fewer than
-- 2 ^ 64 signals of the kind are assumed.
pub wait_result_iff :
    (k : Kind) (ss : List Signal) (e : Events)
    → e.stopped ≡ false
    → version k e < 2 ^ 64
    → count_about k ss < 2 ^ 64
    → wait_result k (version k e) (receive_all ss e)
      ≡ (ltb 0 (count_about k ss) && not (has_stop ss))
unfolding wait_result
wait_result_iff k ss e run small few =
    ground (arith, version-receive_all k ss e small, stopped-receive_all ss e)

-- The wait of a poll of a kind that starts in a state that is not stopped is over exactly if among the
-- signals since its start one is the stop or of its kind, so that none of them is lost; fewer than
-- 2 ^ 64 signals of the kind are assumed.
pub ready_iff :
    (k : Kind) (ss : List Signal) (e : Events)
    → e.stopped ≡ false
    → version k e < 2 ^ 64
    → count_about k ss < 2 ^ 64
    → ready k (version k e) (receive_all ss e) ≡ (has_stop ss || ltb 0 (count_about k ss))
unfolding ready
ready_iff k ss e run small few =
    ground (arith, version-receive_all k ss e small, stopped-receive_all ss e)
