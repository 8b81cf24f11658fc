-- ===== src/Aimp/Focus.antt =====
-- Moving the focus wraps around the playlist.
use native.Mathlib.Nat.{mod-eq_of_lt, mod_self, add-mod_right, mod-mod, mod-lt}
use aimpremote_control.Prelude.{
  ℕ, ◌+◌, ◌%◌, ◌^◌, ◌<◌, ◌≤◌, ◌≡◌, refl, ◌∙◌, arith, ltb, some, true, if◌then◌else◌, Bool-cases,
  inl, inr,
}
use aimpremote_control.Prelude.Int.{pos}
use aimpremote_control.Aimp.{remainder, plus, focus_target}

around : (n count : ℕ) → n < count → (n % count + count) % count ≡ n
around n count h = add-mod_right (n % count) count ∙ mod-mod n count ∙ mod-eq_of_lt h

past_end : (count : ℕ) → (count % count + count) % count ≡ 0
past_end count = add-mod_right (count % count) count ∙ mod-mod count count ∙ mod_self count

fits : (n : ℕ) → n < 2 ^ 31 → ltb n (2 ^ 31) ≡ true
fits n h = ground arith

-- A sum that is not negative, below twice the largest count.
forward :
    (n count r : ℕ)
    → n < 2 ^ 31
    → n % count + count < 2 ^ 31
    → (n % count + count) % count ≡ r
    → focus_target (pos n) count ≡ some (pos r)
unfolding focus_target plus remainder
forward n count r small sum e =
    rw (focus_target, fits n small, fits (n % count + count) sum, e) refl

-- A step of one from an index of a playlist of at most 2 ^ 30 items leads to the next index or, from the
-- last one, to the first.
pub focus_target_lem :
    (index count : ℕ)
    → index < count
    → count ≤ 2 ^ 30
    → focus_target (pos (index + 1)) count
      ≡ some (pos (if ltb (index + 1) count then index + 1 else 0))
focus_target_lem index count h few =
    forward (index + 1) count _ (omega arith) (room (index + 1) count (omega arith) few)
      (elim (Bool-cases (ltb (index + 1) count)) [
        | inl inside ↦ rw inside (around (index + 1) count (ground arith))
        | inr last ↦ rw last (ends (index + 1) count (ground arith))
      ])
  where
    ends : (n c : ℕ) → n ≡ c → (n % c + c) % c ≡ 0
    ends n c e = rw e (past_end c)

    room : (n c : ℕ) → 0 < c → c ≤ 2 ^ 30 → n % c + c < 2 ^ 31
    room n c some_items bound = omega (arith, mod-lt n some_items)
