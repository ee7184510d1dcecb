-- ===== src/Backups/Copies.antt =====
-- tools/install-dot.py, step 2 of main: one copy of each partition, checked against the device.
use techo5_dot.Prelude.{
  List, [], ◌∷◌, ◌++◌, Bytes, codes, same, starts_with, if◌then◌else◌, Bool, true, false, not, ◌&&◌,
  ◌||◌, Option, none, some, Result, ok, err, init,
}
use techo5_dot.Release.World.{put, path_join}

-- Why the step stops.
pub data BackupError : Type 0 where
  decoy_only : Bytes → BackupError
  read_failed : Bytes → BackupError
  copy_differs : Bytes → BackupError

abbrev pub Files : Type 0
Files = Bytes → Option Bytes

-- The step ends in the error or goes on; the files are what they are by then.
abbrev pub Outcome : Type 0
Outcome = Result BackupError (Unit {0}) × Files

-- What `cat` sent, and whether it ended well.
pub record Pulled : Type 0 where
  pub content : Bytes
  pub succeeded : Bool

-- `head_is_android(path)`
abbrev pub head_is_android : Option Bytes → Bool
head_is_android none = false
head_is_android (some content) = starts_with content (codes "ANDROID!")

abbrev pub is_there : Option Bytes → Bool
is_there none = false
is_there (some _) = true

-- `PARTS` and `PARTS_DONUT`
abbrev pub parts : List Bytes
parts =
    codes "preloader"
    ∷ codes "kb"
    ∷ codes "dkb"
    ∷ codes "lk_a"
    ∷ codes "lk_b"
    ∷ codes "tee1"
    ∷ codes "tee2"
    ∷ codes "expdb"
    ∷ codes "misc"
    ∷ codes "persist"
    ∷ codes "boot_a"
    ∷ codes "boot_b"
    ∷ codes "recovery"
    ∷ []

abbrev pub parts_donut : List Bytes
parts_donut = init parts ++ codes "swdl" ∷ []

-- The unit: whether a partition has a source that is no decoy, its md5 there, and what a read of it
-- gives; then the computer: its md5, the paths of the dated copies of a partition, and the path of
-- the next one.
pub record Setting : Type 0 where
  pub has_source : Bytes → Bool
  pub device_md5 : Bytes → Bytes
  pub pull : Bytes → Pulled
  pub md5 : Bytes → Bytes
  pub dated : Bytes → List Bytes
  pub next_dated : Bytes → Bytes

abbrev pub image_path : Bytes → Bytes → Bytes
image_path unit p = path_join unit (p ++ codes ".img")

abbrev pub then_parts : Outcome → (Files → Outcome) → Outcome
then_parts (ok _, files) rest = rest files
then_parts (err e, files) rest = (err e, files)

module _ (s : Setting) where
  -- `md5(path) == dev`, for a file that is there.
  abbrev pub matches : Files → Bytes → Bytes → Bool
  matches files path dev = elim (files path) [
    | none ↦ false
    | some content ↦ same (s.md5 content) dev
  ]

  unfoldable pub any_matches : Files → List Bytes → Bytes → Bool
  any_matches files [] dev = false
  any_matches files (path ∷ paths) dev = matches files path dev || any_matches files paths dev

  -- The transfer: kept only once its md5 is the device's.
  unfoldable pub copy_to : Bytes → Bytes → Files → Outcome
  copy_to p dest files =
      let tmp = dest ++ codes ".partial" in
      let arrived = put files tmp (some (s.pull p).content) in
      if not (s.pull p).succeeded
      then (err (read_failed p), arrived)
      else if same (s.md5 (s.pull p).content) (s.device_md5 p)
      then (ok tt, put (put arrived dest (some (s.pull p).content)) tmp none)
      else (err (copy_differs p), put arrived tmp none)

  abbrev pub destination : Bytes → Bytes → Files → Bytes
  destination unit p files =
      if is_there (files (image_path unit p)) then s.next_dated p else image_path unit p

  -- One round of the loop; `target` is the partition that the Linux image goes into.
  unfoldable pub backup_part : Bytes → Bytes → Bytes → Files → Outcome
  backup_part unit target p files =
      if not (s.has_source p)
      then (err (decoy_only p), files)
      else if matches files (image_path unit p) (s.device_md5 p)
      then (ok tt, files)
      else if any_matches files (s.dated p) (s.device_md5 p)
      then (ok tt, files)
      else if same p target && head_is_android (files (image_path unit p))
      then (ok tt, files)
      else copy_to p (destination unit p files) files

  unfoldable pub backup_parts : Bytes → Bytes → List Bytes → Files → Outcome
  backup_parts unit target [] files = (ok tt, files)
  backup_parts unit target (p ∷ ps) files =
      then_parts (backup_part unit target p files) (backup_parts unit target ps)
