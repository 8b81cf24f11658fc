-- ===== src/Settings/Tests.antt =====
-- The settings in a concrete store: a map of texts and a map of numbers.
use aimpremote_control.Prelude.{◌≡◌, refl, arith, true, false, [], ◌∷◌}
use aimpremote_control.Prelude.Text.{Bytes, bytes, bytes_eq}
use aimpremote_control.Prelude.Int.{ℤ}
use aimpremote_control.Prelude.Dict.{Dict, get, put, erase, get-put, get-erase}
use aimpremote_control.Prelude.Split.{split_first}
use aimpremote_control.Settings.{
  Settings, ConfigStore, load, save, split_list, join_list, interface_list_separator, split_rounds,
}
use aimpremote_control.Settings.Lists.{AreItems, split_list-join_list, split_list_stable}
use aimpremote_control.Settings.RoundTrip.{IsStore, as_saved, load-save}

abbrev Kept : Type 0
Kept = Dict Bytes Bytes × Dict Bytes ℤ

abbrev kept_store : ConfigStore Kept
kept_store = record {
  get_string = λ k c. get k c.0;
  get_int = λ k c. get k c.1;
  set_string = λ k v c. (put k v c.0, c.1);
  set_int = λ k v c. (c.0, put k v c.1);
  delete = λ k c. (erase k c.0, erase k c.1);
}

kept_store-IsStore : IsStore kept_store
kept_store-IsStore = record {
  string_string = λ k j v c. get-put j k v c.0;
  string_int = λ k j v c h. refl;
  int_int = λ k j v c. get-put j k v c.1;
  int_string = λ k j v c h. refl;
  string_delete = λ k j c. get-erase j k c.0;
  int_delete = λ k j c h. ground (arith, get-erase j k c.1);
}

abbrev sample : Settings
sample = record {
  auth = record { enabled = true; username = bytes "admin"; ha1 = bytes "5f4dcc3b" };
  features = record {
    physical_deletion = false;
    upload_tracks = true;
    scheduler = true;
    browse_files = false;
    upload_folder = bytes "/home/a/Music";
  };
  excluded_interfaces = bytes "eth0" ∷ bytes "docker0" ∷ [];
}

abbrev same_folder : Bytes → Bytes
same_folder f = f

sample-AreItems : AreItems interface_list_separator sample.excluded_interfaces
sample-AreItems = (refl, refl, (refl, refl, tt))

load-save_example :
    load kept_store same_folder
      (bytes "/home/a/Music")
      (save kept_store same_folder (bytes "/home/a/Music") sample ([], []))
    ≡ as_saved kept_store kept_store-IsStore same_folder (bytes "/home/a/Music") sample
load-save_example =
    load-save kept_store kept_store-IsStore same_folder (bytes "/home/a/Music") sample ([], [])
      sample-AreItems

split_list-join_list_run :
    split_list interface_list_separator
      (join_list interface_list_separator sample.excluded_interfaces)
    ≡ sample.excluded_interfaces
split_list-join_list_run =
    split_list-join_list interface_list_separator sample.excluded_interfaces sample-AreItems

split_list_stable_run :
    split_list interface_list_separator
      (join_list interface_list_separator (split_list interface_list_separator (bytes "|a||b|")))
    ≡ split_list interface_list_separator (bytes "|a||b|")
split_list_stable_run = split_list_stable interface_list_separator (bytes "|a||b|")

drops_empty : split_list interface_list_separator (bytes "|a||b|") ≡ (bytes "a" ∷ bytes "b" ∷ [])
unfolding split_list split_rounds split_first
drops_empty = refl
