-- ===== src/Uploads/Targets.antt =====
-- The search for a path that is free.
use aimpremote_control.Prelude.{
  ℕ, ◌+◌, ◌<◌, ◌≤◌, ◌≡◌, true, false, Option, some, none, List, contains, length, nat_eq, ◌-◌, ◌^◌,
}
use aimpremote_control.Prelude.Text.{Bytes, bytes_eq}
use aimpremote_control.IdManager.{int32_max}
use aimpremote_control.Uploads.{Paths, numbered}

-- In one folder, different names make different paths.
abbrev pub KeepsNames : Paths → Type 0
KeepsNames paths = (folder a b : Bytes) → paths.join folder a ≡ paths.join folder b → a ≡ b

module _ (paths : Paths) where
  module _ (existing : List Bytes) (folder name : Bytes) where
    -- A search whose end is not a free path has met taken ones only, or overflows past the last number.
    data Ends (rounds n : ℕ) (target : Bytes) : Option Bytes → Type 0 where
      on_free : {t : Bytes} → contains t existing ≡ false → Ends rounds n target (some t)
      on_taken :
          {t : Bytes}
          → contains target existing ≡ true
          → ((i : ℕ)
              → i < rounds
              → contains (paths.join folder (numbered paths name (n + i))) existing ≡ true)
          → Ends rounds n target (some t)
      on_overflow :
          (k : ℕ)
          → n + k ≡ int32_max
          → contains target existing ≡ true
          → ((i : ℕ)
              → i < k
              → contains (paths.join folder (numbered paths name (n + i))) existing ≡ true)
          → Ends rounds n target none

  module _ (keeps : KeepsNames paths) (folder name : Bytes) (existing : List Bytes) where
    -- A path at which there is no file; or the numbers have run out.
    abbrev pub FreeOrFull : Option Bytes → Type 0
    FreeOrFull (some target) = contains target existing ≡ false
    FreeOrFull none = 2 ^ 31 - 3 ≤ length existing
