-- ===== src/Uploads/Kept.antt =====
-- An upload changes no file that is there.
use aimpremote_control.Prelude.{◌≡◌, ◌≢◌, true, contains, nat_eq}
use aimpremote_control.Prelude.Text.{Bytes, bytes_eq}
use aimpremote_control.IdManager.{IdManager}
use aimpremote_control.Aimp.{Aimp}
use aimpremote_control.Uploads.{Disk, Saved, saved, not_written, overflowed, Answer}

module _ {F : Type 0} (disk : Disk F) where
  -- The file at `p` is still there, with its content.
  abbrev pub Kept : Bytes → F → F → Type 0
  Kept p f f' = (contains p (disk.existing f') ≡ true) × (disk.content p f' ≡ disk.content p f)

  -- A call changes no path but those that it is given.
  pub record IsLocal : Type 0 where
    pub create_keeps :
        (folder p : Bytes) (f : F)
        → contains p (disk.existing f) ≡ true
        → Kept p f (disk.create_directories folder f)
    pub write_keeps :
        (target bs p : Bytes) (f : F)
        → contains p (disk.existing f) ≡ true
        → p ≢ target
        → Kept p f (disk.write target bs f).1
    pub rename_keeps :
        (source target p : Bytes) (f : F)
        → contains p (disk.existing f) ≡ true
        → p ≢ source
        → p ≢ target
        → Kept p f (disk.rename source target f).1

  abbrev pub disk_of : {A : Type 0} → Saved A F → F
  disk_of (saved a f) = f
  disk_of (not_written f) = f
  disk_of (overflowed f) = f

  abbrev pub disk_after : {S : Type 0} → Answer × S × F → F
  disk_after (a, s, f) = f
