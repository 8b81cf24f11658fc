-- ===== src/Media/Browsing.antt =====
-- What a listing shows, and in which order.
use aimpremote_control.Prelude.{ℕ, ◌<◌, ◌≡◌, Bool, false, List, [], ◌∷◌, ◌==◌, nat_eq, contains}
use aimpremote_control.Prelude.Text.{Bytes, bytes_eq}
use aimpremote_control.Aimp.{lower, lower_all}
use aimpremote_control.Media.Files.{less_ignore_case}

-- The order of dictionaries, without regard to the case of letters; names that differ only in their case
-- come in either order.
pub data Precedes : Bytes → Bytes → Type 0 where
  ends_first : (b : Bytes) → Precedes [] b
  has_less : (x y : ℕ) (a b : Bytes) → lower x < lower y → Precedes (x ∷ a) (y ∷ b)
  has_same : (x y : ℕ) (a b : Bytes) → lower x ≡ lower y → Precedes a b → Precedes (x ∷ a) (y ∷ b)

-- Each name precedes the one right after it.
abbrev pub IsSorted : List Bytes → Type 0
IsSorted [] = Unit
IsSorted (x ∷ []) = Unit
IsSorted (x ∷ y ∷ ys) = Precedes x y × IsSorted (y ∷ ys)

abbrev pub begins_with_dot : Bytes → Bool
begins_with_dot [] = false
begins_with_dot (b ∷ bs) = b == b'.'

-- Whether an extension, which begins with its dot, is one of those that AIMP plays.
abbrev pub is_played : List Bytes → Bytes → Bool
is_played extensions [] = false
is_played extensions (dot ∷ letters) = contains (lower_all letters) extensions

-- The same by the test of the code.
IsOrdered : List Bytes → Type 0
IsOrdered [] = Unit
IsOrdered (x ∷ []) = Unit
IsOrdered (x ∷ y ∷ ys) = (less_ignore_case y x ≡ false) × IsOrdered (y ∷ ys)
