-- ===== src/Settings.antt =====
-- settings.h and settings.cpp: the settings, and how they are kept in AIMP's configuration.
-- AIMP's configuration service is a parameter: an interface with the laws of a store of texts and
-- numbers. So are the canonical form of a folder's name (std::filesystem) and the default folder.
pub mod Lists
pub mod RoundTrip
mod Tests
use aimpremote_control.Prelude.{
  ℕ, zero, suc, Bool, true, false, not, ◌||◌, Option, none, some, List, [], ◌∷◌, ◌++◌, ◌≡◌,
  if◌then◌else◌, ◌==◌, length, is_empty,
}
use aimpremote_control.Prelude.Text.{Bytes, bytes, bytes_eq}
use aimpremote_control.Prelude.Int.{ℤ, pos, int_eq}
use aimpremote_control.Prelude.Split.{split_first}
use aimpremote_control.Digest.{AuthSettings}

pub record FeatureSettings : Type 0 where
  pub physical_deletion : Bool
  pub upload_tracks : Bool
  pub scheduler : Bool
  pub browse_files : Bool
  pub upload_folder : Bytes

pub record Settings : Type 0 where
  pub auth : AuthSettings
  pub features : FeatureSettings
  pub excluded_interfaces : List Bytes

abbrev pub defaults : Settings
defaults = record {
  auth = record { enabled = false; username = []; ha1 = [] };
  features = record {
    physical_deletion = false;
    upload_tracks = false;
    scheduler = false;
    browse_files = false;
    upload_folder = [];
  };
  excluded_interfaces = [];
}

abbrev pub key_auth_enabled : Bytes
key_auth_enabled = bytes "AIMPRemoteControl\\Auth\\Enabled"

abbrev pub key_auth_username : Bytes
key_auth_username = bytes "AIMPRemoteControl\\Auth\\Username"

abbrev pub key_auth_ha1 : Bytes
key_auth_ha1 = bytes "AIMPRemoteControl\\Auth\\HA1"

abbrev pub key_physical_deletion : Bytes
key_physical_deletion = bytes "AIMPRemoteControl\\Features\\PhysicalDeletion"

abbrev pub key_upload_tracks : Bytes
key_upload_tracks = bytes "AIMPRemoteControl\\Features\\UploadTracks"

abbrev pub key_upload_folder : Bytes
key_upload_folder = bytes "AIMPRemoteControl\\Features\\UploadFolder"

abbrev pub key_scheduler : Bytes
key_scheduler = bytes "AIMPRemoteControl\\Features\\Scheduler"

abbrev pub key_browse_files : Bytes
key_browse_files = bytes "AIMPRemoteControl\\Features\\BrowseFiles"

abbrev pub key_excluded_interfaces : Bytes
key_excluded_interfaces = bytes "AIMPRemoteControl\\Network\\ExcludedInterfaces"

abbrev pub interface_list_separator : ℕ
interface_list_separator = b'|'

abbrev pub push_item : Bytes → List Bytes → List Bytes
push_item item items = if is_empty item then items else item ∷ items

-- The loop over the rest of the text; a round uses up at least one byte, so that one round more than
-- there are bytes is enough.
unfoldable pub split_rounds : ℕ → ℕ → Bytes → List Bytes
split_rounds zero separator rest = []
split_rounds (suc n) separator rest = elim (split_first separator rest) [
  | none ↦ push_item rest []
  | some (item, after) ↦ push_item item (split_rounds n separator after)
]

unfoldable pub split_list : ℕ → Bytes → List Bytes
split_list separator joined = split_rounds (suc (length joined)) separator joined

-- The loop of `JoinList`, with what is joined so far.
unfoldable pub join_onto : ℕ → Bytes → List Bytes → Bytes
join_onto separator joined [] = joined
join_onto separator joined (item ∷ items) =
    join_onto separator (joined ++ ((if is_empty joined then [] else separator ∷ []) ++ item)) items

unfoldable pub join_list : ℕ → List Bytes → Bytes
join_list separator items = join_onto separator [] items

-- AIMP's configuration: `none` is a read that fails.
pub record ConfigStore {ℓ} (C : Type ℓ) : Type ℓ where
  pub get_string : Bytes → C → Option Bytes
  pub get_int : Bytes → C → Option ℤ
  pub set_string : Bytes → Bytes → C → C
  pub set_int : Bytes → ℤ → C → C
  pub delete : Bytes → C → C

module _ {ℓ} {C : Type ℓ} (store : ConfigStore C) where
  -- `store.GetInt(key, 0) != 0`
  unfoldable pub get_flag : Bytes → C → Bool
  get_flag key c = elim (store.get_int key c) [ none ↦ false | some v ↦ not (v == pos 0) ]

  unfoldable pub get_text : Bytes → C → Bytes
  get_text key c = elim (store.get_string key c) [ none ↦ [] | some v ↦ v ]

  abbrev pub set_flag : Bytes → Bool → C → C
  set_flag key b = store.set_int key (if b then pos 1 else pos 0)

  unfoldable pub save_excluded : List Bytes → C → C
  save_excluded [] c = store.delete key_excluded_interfaces c
  save_excluded items c =
      store.set_string key_excluded_interfaces (join_list interface_list_separator items) c

  module _ (canonical_folder : Bytes → Bytes) (default_upload_folder : Bytes) where
    unfoldable pub upload_folder_for_storage : Bytes → Bytes
    upload_folder_for_storage folder =
        if is_empty folder || canonical_folder folder == canonical_folder default_upload_folder
        then []
        else folder

    -- With the configuration service at hand.
    unfoldable pub load : C → Settings
    load c = record {
      auth = record {
        enabled = get_flag key_auth_enabled c;
        username = get_text key_auth_username c;
        ha1 = get_text key_auth_ha1 c;
      };
      features = record {
        physical_deletion = get_flag key_physical_deletion c;
        upload_tracks = get_flag key_upload_tracks c;
        scheduler = get_flag key_scheduler c;
        browse_files = get_flag key_browse_files c;
        upload_folder = upload_folder_for_storage (get_text key_upload_folder c);
      };
      excluded_interfaces =
          split_list interface_list_separator (get_text key_excluded_interfaces c);
    }

    -- `Load` with or without the service.
    unfoldable pub load_settings : Option C → Settings
    load_settings none = defaults
    load_settings (some c) = load c

    -- The writes, the first innermost.
    unfoldable pub save : Settings → C → C
    save s c = save_excluded s.excluded_interfaces (
        set_flag key_browse_files s.features.browse_files (
          set_flag key_scheduler s.features.scheduler (
            store.set_string key_upload_folder (upload_folder_for_storage s.features.upload_folder)
              (set_flag key_upload_tracks s.features.upload_tracks (
                set_flag key_physical_deletion s.features.physical_deletion (
                  store.set_string key_auth_ha1 s.auth.ha1 (
                    store.set_string key_auth_username s.auth.username
                      (set_flag key_auth_enabled s.auth.enabled c))))))))

    -- `EffectiveUploadFolder`
    unfoldable pub effective_upload_folder : FeatureSettings → Bytes
    effective_upload_folder f =
        if is_empty f.upload_folder then default_upload_folder else f.upload_folder
