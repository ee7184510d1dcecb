-- ===== src/Update/Flash.antt =====
-- tools/update-boot.py: the script that flashes a unit, on the unit's files and its partition.
use techo5_dot.Prelude.{
  ℕ, [], ◌++◌, Bytes, codes, same, take, if◌then◌else◌, Bool, Option, none, some,
}

-- The boot images in the store of the unit, and its boot partition.
pub record Disk : Type 0 where
  pub next : Option Bytes
  pub linux : Option Bytes
  pub prev : Option Bytes
  pub partition : Bytes

-- What `cp` and `dd` make of an image, and whether they end well: a full store or a worn partition
-- leave what they like. `write` gets the image and what the partition holds.
pub record Hardware : Type 0 where
  pub copy : Bytes → Bool × Bytes
  pub write : Bytes → Bytes → Bool × Bytes

-- How the script ends; `stopped` is `set -e` at a command that fails.
pub data Ending : Type 0 where
  mismatch stopped : Ending
  restored flashed : Bytes → Ending

-- What it prints.
unfoldable pub printed : Ending → Bytes
printed mismatch = codes "transfer mismatch\n"
printed stopped = []
printed (restored got) = codes "read back " ++ (got ++ codes "; previous image restored\n")
printed (flashed got) = codes "flashed " ++ (got ++ codes "\n")

abbrev pub with_prev : Disk → Bytes → Disk
with_prev d prev = record {
  next = d.next;
  linux = d.linux;
  prev = some prev;
  partition = d.partition;
}

abbrev pub with_partition : Disk → Bytes → Disk
with_partition d part = record { next = d.next; linux = d.linux; prev = d.prev; partition = part }

-- `md5sum < file`: nothing where there is no file.
abbrev pub sum_of : (Bytes → Bytes) → Option Bytes → Bytes
sum_of md5 none = []
sum_of md5 (some content) = md5 content

module _ (md5 : Bytes → Bytes) (hw : Hardware) (want : Bytes) (size : ℕ) where
  -- The image before is written back.
  abbrev pub write_back_prev : Bytes → Bytes → Disk → Ending × Disk
  write_back_prev got prev d =
      let w = hw.write prev d.partition in
      (if w.0 then restored got else stopped, with_partition d w.1)

  abbrev pub read_back : Bytes → Disk → Ending × Disk
  read_back prev d =
      let got = md5 (take size d.partition) in
      if same got want then (flashed got, d) else write_back_prev got prev d

  abbrev pub write_next : Bytes → Bytes → Disk → Ending × Disk
  write_next image prev d =
      let w = hw.write image d.partition in
      if w.0 then read_back prev (with_partition d w.1) else (stopped, with_partition d w.1)

  abbrev pub copy_linux : Bytes → Option Bytes → Disk → Ending × Disk
  copy_linux image none d = (stopped, d)
  copy_linux image (some old) d =
      let c = hw.copy old in
      if c.0 then write_next image c.1 (with_prev d c.1) else (stopped, with_prev d c.1)

  abbrev pub checked_next : Option Bytes → Disk → Ending × Disk
  checked_next none d = (mismatch, d)
  checked_next (some image) d = copy_linux image d.linux d

  -- The script as a whole. A sum that is looked for is never empty, so a missing file is a mismatch.
  unfoldable pub flash : Disk → Ending × Disk
  flash d = if same (sum_of md5 d.next) want then checked_next d.next d else (mismatch, d)
