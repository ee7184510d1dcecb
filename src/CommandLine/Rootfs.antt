-- ===== src/CommandLine/Rootfs.antt =====
-- tools/linux/build-dot-rootfs.py: its checks, and the command line of tools/linux/mkrootfs.py.
use techo5_dot.Prelude.{
  List, [], ◌∷◌, ◌++◌, Bytes, codes, split, strip, starts_with, ends_with, contains, map,
  if◌then◌else◌, Bool, true, false, not, ◌&&◌, ◌||◌, Option, none, some, Result, ok, err, ◌>>=◌,
}
use techo5_dot.Release.World.{path_join, base_name}
use techo5_dot.Asking.Units.{spaces}
use techo5_dot.CommandLine.BootImage.{sorted}
use techo5_dot.CommandLine.Options.{words_of, options_for}

-- The arguments, with the folder of the program.
pub record Switches : Type 0 where
  pub here : Bytes
  pub daemon : Bytes
  pub donut : Bool
  pub wpa_supplicant : Bytes
  pub bt_modules : Bytes
  pub release : Bytes
  pub wmtup : Bytes
  pub btbridge : Bytes
  pub librespot : Bytes
  pub shairport : Bytes
  pub nqptp : Bytes
  pub bluealsa : Bytes
  pub inputs : Bytes
  pub out : Bytes

-- What the computer holds: whether a path exists, the names in a folder, what a pattern in a folder
-- finds, in any order, and the text of a file; the commit that git names, and the folder made for
-- the overlay.
pub record Computer : Type 0 where
  pub exists : Bytes → Bool
  pub listdir : Bytes → Option (List Bytes)
  pub glob : Bytes → Bytes → List Bytes
  pub text : Bytes → Bytes
  pub commit : Bytes
  pub tmp : Bytes

pub data Refusal : Type 0 where
  missing_file : Bytes → Refusal
  no_models no_alpine many_alpines : Refusal
  packages_differ : Bytes → Refusal

abbrev pub busybox : Switches → Bytes
busybox a = path_join a.inputs (codes "busybox.static")

abbrev pub modules : Switches → List Bytes
modules a =
    map (λ m. path_join a.bt_modules (m ++ codes ".ko"))
      (codes "cmac" ∷ codes "bluetooth" ∷ codes "hci_vhci" ∷ [])

abbrev pub needs : Switches → List Bytes
needs a =
    (a.daemon ∷ a.btbridge ∷ a.bluealsa ∷ busybox a ∷ [])
    ++ (if a.donut then a.wpa_supplicant ∷ modules a else a.wmtup ∷ [])

unfoldable pub any_ends_with : Bytes → List Bytes → Bool
any_ends_with suffix [] = false
any_ends_with suffix (s ∷ ss) = ends_with s suffix || any_ends_with suffix ss

-- The lines of a list of packages that name one.
unfoldable pub listed : List Bytes → List Bytes
listed [] = []
listed (line ∷ lines) =
    let rest = listed lines in
    if ends_with (strip spaces line) (codes ".apk") && not (starts_with line (codes "#"))
    then strip spaces line ∷ rest
    else rest

unfoldable pub only_apks : List Bytes → List Bytes
only_apks [] = []
only_apks (n ∷ ns) =
    let rest = only_apks ns in if ends_with n (codes ".apk") then n ∷ rest else rest

abbrev pub names_in : Option (List Bytes) → List Bytes
names_in none = []
names_in (some names) = only_apks names

unfoldable pub all_in : List Bytes → List Bytes → Bool
all_in [] ys = true
all_in (x ∷ xs) ys = contains ys x && all_in xs ys

-- `set(xs) == set(ys)`
abbrev pub same_set : List Bytes → List Bytes → Bool
same_set xs ys = all_in xs ys && all_in ys xs

module _ (c : Computer) (a : Switches) where
  unfoldable pub check_needs : List Bytes → Result Refusal (Unit {0})
  check_needs [] = ok tt
  check_needs (f ∷ fs) =
      let rest = check_needs fs in if c.exists f then rest else err (missing_file f)

  -- `models`, sorted.
  abbrev pub models : List Bytes
  models = sorted (
      c.glob (path_join a.inputs (codes "models")) (codes "*.tflite")
      ++ c.glob (path_join a.inputs (codes "models")) (codes "*.json"))

  abbrev pub check_models : Result Refusal (Unit {0})
  check_models = if any_ends_with (codes ".tflite") models then ok tt else err no_models

  abbrev pub only_one : List Bytes → Result Refusal Bytes
  only_one [] = err no_alpine
  only_one (base ∷ []) = ok base
  only_one (base ∷ _ ∷ _) = err many_alpines

  abbrev pub alpines : List Bytes
  alpines = sorted (c.glob a.inputs (codes "alpine-minirootfs-*-armv7.tar.gz"))

  abbrev pub wanted_packages : Bytes → List Bytes
  wanted_packages lst =
      listed (split 10 (c.text (path_join a.here (codes "packages-" ++ (lst ++ codes ".txt")))))

  abbrev pub packages_there : Bytes → List Bytes
  packages_there d = names_in (c.listdir (path_join a.inputs d))

  abbrev pub package_folders : List (Bytes × Bytes)
  package_folders =
      (codes "rescue", codes "apks-dot")
      ∷ (codes "bt", codes "apks-bt-dot")
      ∷ (codes "rootfs", codes "apks-rootfs-dot")
      ∷ []

  unfoldable pub check_packages : List (Bytes × Bytes) → Result Refusal (Unit {0})
  check_packages [] = ok tt
  check_packages ((lst, d) ∷ folders) =
      let rest = check_packages folders in
      if same_set (wanted_packages lst) (packages_there d) then rest else err (packages_differ d)

  abbrev pub overlay : Bytes
  overlay = if a.donut then path_join c.tmp (codes "overlay") else path_join a.here (codes "rootfs")

  -- `'%s %s (%s)' % ...`
  abbrev pub release_text : Bytes
  release_text =
      (if a.donut then codes "techo5-donut" else codes "techo5-dot")
      ++ (codes " " ++ (a.release ++ (codes " (" ++ (c.commit ++ codes ")"))))

  abbrev pub module_spec : Bytes → Bytes
  module_spec m = m ++ (codes "=/usr/lib/techo5/modules/" ++ base_name m)

  abbrev pub license_spec : Bytes → Bytes → Bytes
  license_spec name f = f ++ (codes "=/usr/share/licenses/" ++ (name ++ (codes "/" ++ base_name f)))

  abbrev pub license_files : Bytes → List Bytes
  license_files name =
      map (license_spec name)
        (sorted (c.glob (path_join (path_join a.here (codes "licenses")) name) (codes "*")))

  abbrev pub model_spec : Bytes → Bytes
  model_spec m = m ++ (codes "=/usr/share/techo5/models/" ++ base_name m)

  -- The command line, as options with their values, in the order of the words.
  abbrev pub fixed_options : Bytes → List (Bytes × Bytes)
  fixed_options base =
      (codes "--rootfs", base)
      ∷ (codes "--apkdir", path_join a.inputs (codes "apks-dot"))
      ∷ (codes "--apkdir", path_join a.inputs (codes "apks-bt-dot"))
      ∷ (codes "--apkdir", path_join a.inputs (codes "apks-rootfs-dot"))
      ∷ (codes "--add", busybox a ++ codes "=/bin/busybox.static")
      ∷ (codes "--add", a.daemon ++ codes "=/usr/local/bin/echod")
      ∷ (codes "--add", a.btbridge ++ codes "=/usr/local/bin/btbridge")
      ∷ (codes "--add", a.bluealsa ++ codes "=/usr/bin/bluealsa")
      ∷ (codes "--overlay", overlay)
      ∷ (codes "--drop", codes "etc/avahi/services/ssh.service")
      ∷ (codes "--drop", codes "etc/avahi/services/sftp-ssh.service")
      ∷ (codes "--release", release_text)
      ∷ (codes "-o", a.out)
      ∷ []

  abbrev pub board_options : Bool → List (Bytes × Bytes)
  board_options donut =
      if donut
      then (codes "--add", a.wpa_supplicant ++ codes "=/sbin/wpa_supplicant")
        ∷ options_for (codes "--data") (map module_spec (modules a))
      else (codes "--add", a.wmtup ++ codes "=/usr/local/bin/wmtup") ∷ []

  abbrev pub spotify_options : Bool → List (Bytes × Bytes)
  spotify_options there =
      if there
      then (codes "--add", a.librespot ++ codes "=/usr/local/bin/techo5-librespot")
        ∷ options_for (codes "--data") (license_files (codes "librespot"))
      else []

  abbrev pub airplay_options : Bool → List (Bytes × Bytes)
  airplay_options there =
      if there
      then (codes "--add", a.shairport ++ codes "=/usr/local/bin/techo5-shairport-sync")
        ∷ (codes "--add", a.nqptp ++ codes "=/usr/local/bin/techo5-nqptp")
        ∷ options_for (codes "--data") (
            license_files (codes "shairport-sync")
            ++ (license_files (codes "ffmpeg") ++ license_files (codes "nqptp")))
      else []

  abbrev pub rootfs_options : Bytes → List (Bytes × Bytes)
  rootfs_options base =
      fixed_options base
      ++ (board_options a.donut
          ++ (spotify_options (c.exists a.librespot)
              ++ (airplay_options (c.exists a.shairport && c.exists a.nqptp)
                  ++ options_for (codes "--data") (map model_spec models))))

  -- The words for mkrootfs.py, after all checks.
  unfoldable pub mkrootfs_words : Result Refusal (List Bytes)
  mkrootfs_words = do
    none_missing ← check_needs (needs a)
    has_models ← check_models
    base ← only_one alpines
    exact ← check_packages package_folders
    ok (words_of (rootfs_options base))
