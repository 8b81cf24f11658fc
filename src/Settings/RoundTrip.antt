-- ===== src/Settings/RoundTrip.antt =====
-- What is saved is what is loaded.
use aimpremote_control.Prelude.{
  ◌≡◌, ap, ◌∙◌, arith, Bool, false, none, some, List, [], ◌∷◌, ◌==◌, if◌then◌else◌,
}
use aimpremote_control.Prelude.Text.{Bytes, bytes_eq, bytes_beq, bytes_beq_iff}
use aimpremote_control.Prelude.Int.{ℤ, pos, int_eq}
use aimpremote_control.Prelude.Split.{split_first}
use aimpremote_control.Settings.Lists.{AreItems, split_list-join_list}
use aimpremote_control.Settings.{
  Settings, ConfigStore, load, save, save_excluded, get_flag, get_text, set_flag, split_list,
  split_rounds, join_list, interface_list_separator, upload_folder_for_storage,
  key_excluded_interfaces,
}

-- What the configuration service promises: a write is read back, leaves the other keys as they are,
-- and a key that is deleted holds nothing.
pub record IsStore {ℓ} {C : Type ℓ} (store : ConfigStore C) : Type ℓ where
  pub string_string :
      (k j v : Bytes) (c : C)
      → store.get_string k (store.set_string j v c)
        ≡ (if j == k then some v else store.get_string k c)
  pub string_int :
      (k j : Bytes) (v : ℤ) (c : C)
      → (j == k) ≡ false
      → store.get_string k (store.set_int j v c) ≡ store.get_string k c
  pub int_int :
      (k j : Bytes) (v : ℤ) (c : C)
      → store.get_int k (store.set_int j v c) ≡ (if j == k then some v else store.get_int k c)
  pub int_string :
      (k j v : Bytes) (c : C)
      → (j == k) ≡ false
      → store.get_int k (store.set_string j v c) ≡ store.get_int k c
  pub string_delete :
      (k j : Bytes) (c : C)
      → store.get_string k (store.delete j c) ≡ (if j == k then none else store.get_string k c)
  pub int_delete :
      (k j : Bytes) (c : C)
      → (j == k) ≡ false
      → store.get_int k (store.delete j c) ≡ store.get_int k c

module _ {ℓ} {C : Type ℓ} (store : ConfigStore C) (laws : IsStore store) where
  get_flag-set_flag : (k : Bytes) (b : Bool) (c : C) → get_flag store k (set_flag store k b c) ≡ b
  unfolding get_flag
  get_flag-set_flag k b c =
      ground (arith, laws.int_int k k (if b then pos 1 else pos 0) c, bytes_beq_iff k k)

  get_flag-set_flag_other :
      (k j : Bytes) (b : Bool) (c : C)
      → (j == k) ≡ false
      → get_flag store k (set_flag store j b c) ≡ get_flag store k c
  unfolding get_flag
  get_flag-set_flag_other k j b c h =
      rw (get_flag, laws.int_int k j (if b then pos 1 else pos 0) c, h)

  get_flag-set_string :
      (k j v : Bytes) (c : C)
      → (j == k) ≡ false
      → get_flag store k (store.set_string j v c) ≡ get_flag store k c
  unfolding get_flag
  get_flag-set_string k j v c h = rw (get_flag, laws.int_string k j v c h)

  get_text-set_string : (k v : Bytes) (c : C) → get_text store k (store.set_string k v c) ≡ v
  unfolding get_text
  get_text-set_string k v c = ground (arith, laws.string_string k k v c, bytes_beq_iff k k)

  get_text-set_string_other :
      (k j v : Bytes) (c : C)
      → (j == k) ≡ false
      → get_text store k (store.set_string j v c) ≡ get_text store k c
  unfolding get_text
  get_text-set_string_other k j v c h = rw (get_text, laws.string_string k j v c, h)

  get_text-set_flag :
      (k j : Bytes) (b : Bool) (c : C)
      → (j == k) ≡ false
      → get_text store k (set_flag store j b c) ≡ get_text store k c
  unfolding get_text
  get_text-set_flag k j b c h = rw (get_text, laws.string_int k j (if b then pos 1 else pos 0) c h)

  get_text-save_excluded :
      (k : Bytes) (items : List Bytes) (c : C)
      → (key_excluded_interfaces == k) ≡ false
      → get_text store k (save_excluded store items c) ≡ get_text store k c
  unfolding save_excluded get_text
  get_text-save_excluded k [] c h = rw (get_text, laws.string_delete k key_excluded_interfaces c, h)
  get_text-save_excluded k (x ∷ xs) c h = rw (
    get_text,
    laws.string_string k key_excluded_interfaces (join_list interface_list_separator (x ∷ xs)) c,
    h,
  )

  get_flag-save_excluded :
      (k : Bytes) (items : List Bytes) (c : C)
      → (key_excluded_interfaces == k) ≡ false
      → get_flag store k (save_excluded store items c) ≡ get_flag store k c
  unfolding save_excluded get_flag
  get_flag-save_excluded k [] c h = rw (get_flag, laws.int_delete k key_excluded_interfaces c h)
  get_flag-save_excluded k (x ∷ xs) c h = rw (
    get_flag,
    laws.int_string k key_excluded_interfaces (join_list interface_list_separator (x ∷ xs)) c h,
  )

  get_text-delete : (k : Bytes) (c : C) → get_text store k (store.delete k c) ≡ []
  unfolding get_text
  get_text-delete k c = ground (arith, laws.string_delete k k c, bytes_beq_iff k k)

  excluded-save_excluded :
      (items : List Bytes) (c : C)
      → AreItems interface_list_separator items
      → split_list interface_list_separator
          (get_text store key_excluded_interfaces (save_excluded store items c))
        ≡ items
  unfolding save_excluded split_list split_rounds split_first
  excluded-save_excluded [] c h = ap (split_list interface_list_separator) deleted
    where
      deleted : get_text store key_excluded_interfaces (store.delete key_excluded_interfaces c) ≡ []
      deleted = get_text-delete key_excluded_interfaces c
  excluded-save_excluded (x ∷ xs) c h =
      ap (split_list interface_list_separator) (
        get_text-set_string key_excluded_interfaces (join_list interface_list_separator (x ∷ xs)) c)
      ∙ split_list-join_list interface_list_separator (x ∷ xs) h

  module _ (canonical_folder : Bytes → Bytes) (default_upload_folder : Bytes) where
    abbrev stored_folder : Bytes → Bytes
    stored_folder = upload_folder_for_storage store canonical_folder default_upload_folder

    stored_folder_stable : (f : Bytes) → stored_folder (stored_folder f) ≡ stored_folder f
    unfolding upload_folder_for_storage
    stored_folder_stable f = ground arith

    -- The settings as they are after a save: an upload folder that is the default one is forgotten.
    abbrev pub as_saved : Settings → Settings
    as_saved s = record s {
      features = record s.features { upload_folder = stored_folder s.features.upload_folder };
    }

    -- Settings whose excluded interfaces have names, without the separator, are loaded as they were
    -- saved, but for an upload folder that names the default one, which is kept as no folder.
    pub load-save :
        (s : Settings) (c : C)
        → AreItems interface_list_separator s.excluded_interfaces
        → load store canonical_folder default_upload_folder
            (save store canonical_folder default_upload_folder s c)
          ≡ as_saved s
    unfolding load save bytes_beq
    load-save s c h = simp (
      get_text-save_excluded, get_flag-save_excluded, get_text-set_string,
      get_text-set_string_other, get_text-set_flag, get_flag-set_flag, get_flag-set_flag_other,
      get_flag-set_string, excluded-save_excluded, stored_folder_stable, h,
    )
