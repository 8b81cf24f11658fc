-- ===== src/Aimp/Extensions.antt =====
-- The extensions that the masks of AIMP's formats name.
use aimpremote_control.Prelude.{
  ℕ, zero, suc, ◌≡◌, refl, arith, false, List, [], ◌∷◌, nat_eq, is_empty, contains, length,
  Bool-cases, Option-cases, inl, inr,
}
use aimpremote_control.Prelude.Text.{Bytes}
use aimpremote_control.Prelude.Split.{split_first, split_first-some}
use aimpremote_control.Settings.Lists.{absent-split_first, AreItems}
use aimpremote_control.Aimp.{
  lower_all, without_star, push_extension, extensions_of, supported_audio_extensions,
}

contains-lower_all : (bs : Bytes) → contains b';' bs ≡ false → contains b';' (lower_all bs) ≡ false
contains-lower_all [] h = refl
contains-lower_all (b ∷ bs) h = ground (arith, contains-lower_all bs)

contains-without_star :
    (bs : Bytes) → contains b';' bs ≡ false → contains b';' (without_star bs) ≡ false
unfolding without_star
contains-without_star [] h = refl
contains-without_star (a ∷ []) h = h
contains-without_star (a ∷ b ∷ bs) h = ground arith

push_extension-AreItems :
    (mask : Bytes) (rest : List Bytes)
    → contains b';' mask ≡ false
    → AreItems b';' rest
    → AreItems b';' (push_extension mask rest)
push_extension-AreItems mask rest h r =
    elim (Bool-cases (is_empty (lower_all (without_star mask)))) [
      | inl nothing ↦ rw nothing r
      | inr extension ↦
          rw extension
            (extension, contains-lower_all (without_star mask) (contains-without_star mask h), r)
    ]

extensions_of-AreItems : (n : ℕ) (masks : Bytes) → AreItems b';' (extensions_of n masks)
unfolding extensions_of
extensions_of-AreItems zero masks = tt
extensions_of-AreItems (suc n) masks = elim (Option-cases (split_first b';' masks)) [
  | inl whole ↦
      rw (extensions_of, whole)
        (push_extension-AreItems masks [] (absent-split_first b';' masks whole) tt)
  | inr ((mask, after), found) ↦
      rw (extensions_of, found)
        (push_extension-AreItems mask (extensions_of n after)
          (split_first-some b';' masks mask after found).1 (extensions_of-AreItems n after))
]

-- Whatever masks AIMP tells, no supported extension is empty or holds the separator of masks.
pub supported_audio_extensions-AreItems :
    (masks : Bytes) → AreItems b';' (supported_audio_extensions masks)
unfolding supported_audio_extensions
supported_audio_extensions-AreItems masks = extensions_of-AreItems (suc (length masks)) masks
