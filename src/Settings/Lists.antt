-- ===== src/Settings/Lists.antt =====
-- Lists that are kept as one text.
use aimpremote_control.Prelude.{
  ℕ, zero, suc, ◌<◌, ◌≡◌, refl, sym, ap, ◌∙◌, arith, false, Option, none, some, List, [], ◌∷◌, ◌++◌,
  ◌==◌, length, length-append, is_empty, contains, nat_eq, inl, inr, Option-cases, Bool-cases,
}
use aimpremote_control.Prelude.Text.{Bytes}
use aimpremote_control.Prelude.Split.{
  prefixed, split_first, split_first-append, split_first-none, split_first-some,
}
use aimpremote_control.Settings.{push_item, split_rounds, split_list, join_onto, join_list}

-- The items that a text can keep: not empty, and without the separator.
abbrev pub AreItems : ℕ → List Bytes → Type 0
AreItems c [] = Unit
AreItems c (x ∷ xs) = (is_empty x ≡ false) × (contains c x ≡ false) × AreItems c xs

-- The text of a list that is not empty, with the separator before each item but the first.
abbrev joined_after : ℕ → List Bytes → Bytes
joined_after c [] = []
joined_after c (x ∷ xs) = c ∷ (x ++ joined_after c xs)

append_nil : (xs : Bytes) → xs ++ [] ≡ xs
append_nil [] = refl
append_nil (x ∷ xs) = ap (λ t. x ∷ t) (append_nil xs)

append_assoc : (xs ys zs : Bytes) → (xs ++ ys) ++ zs ≡ xs ++ (ys ++ zs)
append_assoc [] ys zs = refl
append_assoc (x ∷ xs) ys zs = ap (λ t. x ∷ t) (append_assoc xs ys zs)

is_empty-append : (xs ys : Bytes) → is_empty xs ≡ false → is_empty (xs ++ ys) ≡ false
is_empty-append [] ys h = cc
is_empty-append (x ∷ xs) ys h = refl

join_onto_after :
    (c : ℕ) (t : Bytes) (xs : List Bytes)
    → is_empty t ≡ false
    → join_onto c t xs ≡ t ++ joined_after c xs
unfolding join_onto
join_onto_after c t [] h = sym (append_nil t)
join_onto_after c t (x ∷ xs) h = rw h (
    join_onto_after c (t ++ (c ∷ x)) xs (is_empty-append t (c ∷ x) h)
    ∙ append_assoc t (c ∷ x) (joined_after c xs))

join_list-cons :
    (c : ℕ) (x : Bytes) (xs : List Bytes)
    → is_empty x ≡ false
    → join_list c (x ∷ xs) ≡ x ++ joined_after c xs
unfolding join_list join_onto
join_list-cons c x xs h = join_onto_after c x xs h

last_round :
    (c n : ℕ) (x : Bytes)
    → is_empty x ≡ false
    → contains c x ≡ false
    → split_rounds (suc n) c x ≡ x ∷ []
unfolding split_rounds
last_round c n x h k = rw (split_rounds, split_first-none c x k, h)

split_rounds-after :
    (c : ℕ) (n : ℕ) (x : Bytes) (xs : List Bytes)
    → AreItems c (x ∷ xs)
    → length (x ++ joined_after c xs) < n
    → split_rounds n c (x ++ joined_after c xs) ≡ x ∷ xs
unfolding split_rounds
split_rounds-after c zero x xs h enough = absurd (omega arith)
split_rounds-after c (suc n) x [] h enough =
    ap (split_rounds (suc n) c) (append_nil x) ∙ last_round c n x h.0 h.1
split_rounds-after c (suc n) x (y ∷ ys) h enough =
    rw (split_rounds, split_first-append c x (y ++ joined_after c ys) h.1, h.0)
      (ap (λ t. x ∷ t)
        (split_rounds-after c n y ys h.2
          (omega (arith, length-append x (c ∷ (y ++ joined_after c ys))))))

-- Splitting what was joined gives the items back, if none is empty or holds the separator.
pub split_list-join_list :
    (c : ℕ) (items : List Bytes) → AreItems c items → split_list c (join_list c items) ≡ items
unfolding split_list
split_list-join_list c [] h = unfold join_list join_onto split_rounds split_first in refl
split_list-join_list c (x ∷ xs) h =
    rw (join_list-cons c x xs h.0) (split_rounds-after c _ x xs h (omega arith))

AreItems-push_item :
    (c : ℕ) (x : Bytes) (xs : List Bytes)
    → contains c x ≡ false
    → AreItems c xs
    → AreItems c (push_item x xs)
AreItems-push_item c [] xs h rest = rest
AreItems-push_item c (b ∷ bs) xs h rest = (refl, h, rest)

pub absent-split_first : (c : ℕ) (bs : Bytes) → split_first c bs ≡ none → contains c bs ≡ false
unfolding split_first
absent-split_first c [] h = refl
absent-split_first c (b ∷ bs) h = elim (Bool-cases (b == c)) [
  | inl here ↦ cc (rw here at h)
  | inr later ↦ rw later (absent-split_first c bs (unprefixed (split_first c bs) (rw later at h)))
]
  where
    unprefixed : (o : Option (Bytes × Bytes)) → prefixed b o ≡ none → o ≡ none
    unprefixed none e = refl
    unprefixed (some p) e = cc

split_rounds-AreItems : (c n : ℕ) (bs : Bytes) → AreItems c (split_rounds n c bs)
unfolding split_rounds
split_rounds-AreItems c zero bs = tt
split_rounds-AreItems c (suc n) bs = elim (Option-cases (split_first c bs)) [
  | inl whole ↦
      rw (split_rounds, whole) (AreItems-push_item c bs [] (absent-split_first c bs whole) tt)
  | inr ((x, after), found) ↦
      rw (split_rounds, found)
        (AreItems-push_item c x (split_rounds n c after) (split_first-some c bs x after found).1
          (split_rounds-AreItems c n after))
]

-- Whatever text is split, its items can be kept: joining and splitting them again changes nothing.
pub split_list_stable :
    (c : ℕ) (text : Bytes) → split_list c (join_list c (split_list c text)) ≡ split_list c text
split_list_stable c text =
    split_list-join_list c (split_list c text)
      (unfold split_list in split_rounds-AreItems c (suc (length text)) text)
