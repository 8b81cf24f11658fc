-- ===== src/Aimp.antt =====
-- helpers/aimpHelper.cpp: how ids lead to AIMP's objects.
-- AIMP is a parameter: an interface with a state `S` of the player, its playlists `P` and items `I`. A
-- call that can fail returns its HRESULT. An interface of AIMP that cannot be had is a call that fails.
pub mod Extensions
pub mod Focus
pub mod Lookup
mod Tests
use aimpremote_control.Prelude.{
  ℕ, zero, suc, ◌+◌, ◌-◌, ◌*◌, ◌%◌, ◌^◌, Bool, true, false, not, ◌&&◌, ◌||◌, Option, none, some,
  List, [], ◌∷◌, ◌++◌, if◌then◌else◌, ◌==◌, nat_eq, ltb, leb, is_empty, length,
}
use aimpremote_control.Prelude.Text.{Bytes, bytes, bytes_eq}
use aimpremote_control.Prelude.Int.{ℤ, pos, negsuc}
use aimpremote_control.Prelude.Split.{split_first}
use aimpremote_control.IdManager.{
  IdManager, PlaylistItemKey, playlist_get_key, playlist_item_get_key,
}

-- `Succeeded` is a code that is not negative.
abbrev pub succeeded : ℤ → Bool
succeeded (pos n) = true
succeeded (negsuc n) = false

-- 0x80070057 and 0x80004005 as signed words.
abbrev pub e_invalidarg : ℤ
e_invalidarg = negsuc 2147024808

abbrev pub e_fail : ℤ
e_fail = negsuc 2147467258

pub record Aimp (S P I : Type 0) : Type 0 where
  pub loaded_playlist_by_id : Bytes → S → Option P
  pub item_count : P → S → ℤ
  pub get_item : P → ℤ → S → Option I
  -- AIMP_PLAYLISTITEM_PROPID_INDEX
  pub index_of : I → S → ℤ
  pub delete_item : P → I → S → ℤ × S
  -- Delete3 with the flags for files and for no confirmation: the items for which the callback is true.
  pub delete_physically : P → (chosen : I → S → Bool) → S → ℤ × S
  pub queue_add : I → (at_beginning : Bool) → S → ℤ × S
  pub queue_delete : I → S → ℤ × S
  pub rename : P → Bytes → S → ℤ × S
  -- AddList at the end, with a list that AIMP makes of the texts.
  pub add_list : P → List Bytes → S → ℤ × S
  pub audio_formats : S → Bytes

abbrev pub less : ℤ → ℤ → Bool
less (pos a) (pos b) = ltb a b
less (pos a) (negsuc b) = false
less (negsuc a) (pos b) = true
less (negsuc a) (negsuc b) = ltb b a

module _ {S P I : Type 0} (aimp : Aimp S P I) where
  unfoldable pub loaded_playlist_by_aimp_id : Bytes → S → Option P
  loaded_playlist_by_aimp_id aimp_id s =
      if is_empty aimp_id then none else aimp.loaded_playlist_by_id aimp_id s

  unfoldable pub find_playlist : IdManager → ℤ → S → Option P
  unfolding loaded_playlist_by_aimp_id
  find_playlist ids playlist_id s = loaded_playlist_by_aimp_id (playlist_get_key playlist_id ids) s

  abbrev pub append_to : Option P → List Bytes → S → ℤ × S
  append_to none uris s = (e_invalidarg, s)
  append_to (some playlist) uris s = aimp.add_list playlist uris s

  unfoldable pub add_files_to_playlist : IdManager → ℤ → List Bytes → S → ℤ × S
  unfolding find_playlist
  add_files_to_playlist ids playlist_id uris s = append_to (find_playlist ids playlist_id s) uris s

  abbrev pub with_owner : P → Option I → Option (P × I)
  with_owner owner none = none
  with_owner owner (some item) = some (owner, item)

  -- The item of a key, with its playlist.
  unfoldable pub item_of : PlaylistItemKey → Option P → S → Option (P × I)
  item_of key none s = none
  item_of key (some owner) s =
      if less key.index (pos 0) || not (less key.index (aimp.item_count owner s))
      then none
      else with_owner owner (aimp.get_item owner key.index s)

  unfoldable pub find_playlist_item : IdManager → ℤ → S → Option (P × I)
  unfolding item_of loaded_playlist_by_aimp_id
  find_playlist_item ids track_id s =
      let key = playlist_item_get_key track_id ids in
      item_of key (loaded_playlist_by_aimp_id key.aimp_playlist_id s) s

-- std::tolower of a byte, in the locale of C.
abbrev pub lower : ℕ → ℕ
lower b = if leb b'A' b && leb b b'Z' then b + 32 else b

abbrev pub lower_all : Bytes → Bytes
lower_all [] = []
lower_all (b ∷ bs) = lower b ∷ lower_all bs

unfoldable pub without_star : Bytes → Bytes
without_star (a ∷ b ∷ bs) = if (a == b'*') && (b == b'.') then bs else a ∷ b ∷ bs
without_star bs = bs

abbrev pub push_extension : Bytes → List Bytes → List Bytes
push_extension mask rest =
    let ext = lower_all (without_star mask) in if is_empty ext then rest else ext ∷ rest

-- The loop over the masks that are left; a round uses up at least one byte.
unfoldable pub extensions_of : ℕ → Bytes → List Bytes
unfolding split_first without_star
extensions_of zero masks = []
extensions_of (suc n) masks = elim (split_first b';' masks) [
  | none ↦ push_extension masks []
  | some (mask, after) ↦ push_extension mask (extensions_of n after)
]

unfoldable pub supported_audio_extensions : Bytes → List Bytes
unfolding extensions_of
supported_audio_extensions masks = extensions_of (suc (length masks)) masks

abbrev pub minus : ℕ → ℤ
minus zero = pos 0
minus (suc r) = negsuc r

-- `%` of C++, whose sign is the dividend's; the divisor is positive.
unfoldable pub remainder : ℤ → ℕ → ℤ
remainder (pos n) d = pos (n % d)
remainder (negsuc n) d = minus (suc n % d)

unfoldable pub plus : ℤ → ℕ → ℤ
plus (pos n) m = pos (n + m)
plus (negsuc n) m = if ltb n m then pos (m - suc n) else negsuc (n - m)

-- A value of `std::int32_t`.
abbrev pub in_int32 : ℤ → Bool
in_int32 (pos n) = ltb n (2 ^ 31)
in_int32 (negsuc n) = ltb n (2 ^ 31)

-- MoveFocus: the index that gets the focus, from the sum of the item's index and the step; `none` where
-- a sum overflows.
unfoldable pub focus_target : ℤ → ℕ → Option ℤ
unfolding remainder plus
focus_target sum count =
    let moved = plus (remainder sum count) count in
    if in_int32 sum && in_int32 moved then some (remainder moved count) else none
