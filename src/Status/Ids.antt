-- ===== src/Status/Ids.antt =====
-- Which numbers are states, and which of them can be set.
use aimpremote_control.Prelude.{
  ℕ, ◌≡◌, refl, sym, ◌∙◌, arith, Bool, true, false, ◌&&◌, ◌||◌, Option, none, some, if◌then◌else◌,
  ◌==◌, nat_eq, leb,
}
use aimpremote_control.Prelude.Int.{ℤ, pos, negsuc, int_eq}
use aimpremote_control.Status.{
  Property, Floats, Dispatcher, Range, range_for, bool_property_for, access_known, access_range,
  access_bool, access_band, access_other, access, Other, other_for, playback_state, position,
  track_length, repeat_playlist, kbps, khz,
}

abbrev pub is_some {ℓ} : {A : Type ℓ} → Option A → Bool
is_some none = false
is_some (some a) = true

-- The numbers of StatusId.
abbrev pub is_status : ℕ → Bool
is_status n = (leb 1 n && leb n 38) || (n == 41) || (n == 45) || (leb 48 n && leb n 52)

module _ {R S : Type 0} (floats : Floats R) (dispatcher : Dispatcher S R) where
  ranged :
      (n : ℕ)
      → is_some (range_for floats n)
        ≡ ((leb 1 n && leb n 3) || (leb 6 n && leb n 9) || (leb 48 n && leb n 52))
  unfolding range_for
  ranged n = ground arith

  switched :
      (n : ℕ)
      → is_some (bool_property_for n) ≡ (
          (n == 5)
          || (n == 10)
          || (n == 29)
          || (n == 30)
          || (n == 34)
          || (n == 38)
          || (n == 41)
          || (n == 45))
  unfolding bool_property_for
  switched n = ground arith

  remaining :
      (n : ℕ)
      → is_some (other_for n)
        ≡ ((n == 4) || (n == 37) || (n == 31) || (n == 32) || (n == 33) || (n == 35) || (n == 36))
  unfolding other_for
  remaining n = ground arith

  other_found :
      (o : Option Other) (value : Option ℤ) (s : S)
      → (is_some (access_other floats dispatcher o value s).0 ≡ is_some o)
        × ((access_other floats dispatcher o none s).1 ≡ s)
        × (is_some o ≡ false → (access_other floats dispatcher o value s).1 ≡ s)
  unfolding access_other
  other_found none value s = (refl, refl, λ e. refl)
  other_found (some playback_state) value s = (refl, refl, λ e. cc)
  other_found (some position) value s = (refl, refl, λ e. cc)
  other_found (some track_length) value s = (refl, refl, λ e. cc)
  other_found (some repeat_playlist) value s = (refl, refl, λ e. cc)
  other_found (some kbps) value s = (refl, refl, λ e. cc)
  other_found (some khz) value s = (refl, refl, λ e. cc)

  either :
      (b : Bool) (x y : Option ℤ × S) (Q : Option ℤ × S → Type 0)
      → (b ≡ true → Q x)
      → (b ≡ false → Q y)
      → Q (if b then x else y)
  either true x y Q h k = h refl
  either false x y Q h k = k refl

  found :
      (n : ℕ) (value : Option ℤ) (s : S) (r : Option (Range R)) (p : Option Property)
      → is_some (access_known floats dispatcher n r p value s).0
        ≡ (is_some r || is_some p || (leb 11 n && leb n 28) || is_some (other_for n))
  unfolding access_range access_bool access_band
  found n value s (some r) p = refl
  found n value s none (some p) = refl
  found n value s none none =
      either (leb 11 n && leb n 28) _ _
        (λ q. is_some q.0 ≡ ((leb 11 n && leb n 28) || is_some (other_for n))) (λ e. ground arith)
        λ e. (other_found (other_for n) value s).0 ∙ ground arith

  all_ids :
      (n : ℕ) (a b c : Bool)
      → a ≡ ((leb 1 n && leb n 3) || (leb 6 n && leb n 9) || (leb 48 n && leb n 52))
      → b ≡ (
          (n == 5)
          || (n == 10)
          || (n == 29)
          || (n == 30)
          || (n == 34)
          || (n == 38)
          || (n == 41)
          || (n == 45))
      → c ≡ ((n == 4) || (n == 37) || (n == 31) || (n == 32) || (n == 33) || (n == 35) || (n == 36))
      → (a || b || (leb 11 n && leb n 28) || c) ≡ is_status n
  all_ids n a b c ea eb ec = ground arith

  -- Status has a value for a number exactly if the number is one of the states: from 1 to 38, 41, 45, and
  -- from 48 to 52; for none that is negative.
  pub access-is_status :
      (n : ℕ) (value : Option ℤ) (s : S)
      → (is_some (access floats dispatcher (pos n) value s).0 ≡ is_status n)
        × (is_some (access floats dispatcher (negsuc n) value s).0 ≡ false)
  unfolding access
  access-is_status n value s = (
    found n value s (range_for floats n) (bool_property_for n)
        ∙ all_ids n _ _ _ (ranged n) (switched n) (remaining n),
    refl,
  )

  asked :
      (n : ℕ) (s : S) (r : Option (Range R)) (p : Option Property)
      → (access_known floats dispatcher n r p none s).1 ≡ s
  unfolding access_range access_bool access_band
  asked n s (some r) p = refl
  asked n s none (some p) = refl
  asked n s none none =
      either (leb 11 n && leb n 28) _ _ (λ q. q.1 ≡ s) (λ e. refl)
        λ e. (other_found (other_for n) none s).1

  unanswered :
      (n : ℕ) (value : Option ℤ) (s : S) (r : Option (Range R)) (p : Option Property)
      → is_some (access_known floats dispatcher n r p value s).0 ≡ false
      → (access_known floats dispatcher n r p value s).1 ≡ s
  unfolding access_range access_bool access_band
  unanswered n value s (some r) p e = cc
  unanswered n value s none (some p) e = cc
  unanswered n value s none none h =
      either (leb 11 n && leb n 28) _ _ (λ q. is_some q.0 ≡ false → q.1 ≡ s) (λ e q. cc)
        (λ e q.
          (other_found (other_for n) value s).2 (sym (other_found (other_for n) value s).0 ∙ q))
        h

  -- Nothing is set without a value, and with one neither the state of playback (4, 37), the length (32),
  -- the bit rate (35) nor the sample rate (36), nor anything by a number that is no state.
  pub access-quiet :
      (n : ℕ) (v : ℤ) (s : S)
      → ((access floats dispatcher (pos n) none s).1 ≡ s)
        × ((access floats dispatcher (pos 4) (some v) s).1 ≡ s)
        × ((access floats dispatcher (pos 37) (some v) s).1 ≡ s)
        × ((access floats dispatcher (pos 32) (some v) s).1 ≡ s)
        × ((access floats dispatcher (pos 35) (some v) s).1 ≡ s)
        × ((access floats dispatcher (pos 36) (some v) s).1 ≡ s)
        × (is_status n ≡ false → (access floats dispatcher (pos n) (some v) s).1 ≡ s)
  unfolding access range_for bool_property_for other_for access_other
  access-quiet n v s = (
    asked n s (range_for floats n) (bool_property_for n),
    refl,
    refl,
    refl,
    refl,
    refl,
    λ other.
        unanswered n (some v) s (range_for floats n) (bool_property_for n)
          ((access-is_status n (some v) s).0 ∙ other),
  )
