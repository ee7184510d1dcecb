-- ===== src/CommandLine/RootfsBuild.antt =====
-- tools/linux/build-dot-rootfs.py: what holds once mkrootfs.py runs, and what it is given.
use techo5_dot.Prelude.{◌≡◌, List, [], ◌∷◌, Bytes, codes, contains, Bool, true, false, ok}
use techo5_dot.Release.World.{path_join}
use techo5_dot.CommandLine.Rootfs.{
  Switches, Computer, models, alpines, wanted_packages, packages_there, any_ends_with,
}
use techo5_dot.CommandLine.MkrootfsArgs.{mkrootfs_args}
use techo5_dot.CommandLine.RootfsReads.{rootfs_meant}

abbrev AllThere : Computer → List Bytes → Type 0
AllThere c [] = Unit
AllThere c (f ∷ fs) = (c.exists f ≡ true) × AllThere c fs

-- The files that are there: those of every board, and those of the Echo Dot 3 or of the others.
pub record CommonFiles (c : Computer) (a : Switches) : Type 0 where
  pub has_daemon : c.exists a.daemon ≡ true
  pub has_btbridge : c.exists a.btbridge ≡ true
  pub has_bluealsa : c.exists a.bluealsa ≡ true
  pub has_busybox : c.exists (path_join a.inputs (codes "busybox.static")) ≡ true

abbrev pub BoardFiles : Computer → Switches → Bool → Type 0
BoardFiles c a true =
    (c.exists a.wpa_supplicant ≡ true)
    × (c.exists (path_join a.bt_modules (codes "cmac.ko")) ≡ true)
    × (c.exists (path_join a.bt_modules (codes "bluetooth.ko")) ≡ true)
    × (c.exists (path_join a.bt_modules (codes "hci_vhci.ko")) ≡ true)
BoardFiles c a false = c.exists a.wmtup ≡ true

-- A folder of packages has exactly the packages of its list.
abbrev pub Exact : Computer → Switches → Bytes → Bytes → Type 0
Exact c a lst d =
    (n : Bytes) → contains (wanted_packages c a lst) n ≡ contains (packages_there c a d) n

-- What is known once mkrootfs.py runs with these words.
pub record Checked (c : Computer) (a : Switches) (words : List Bytes) : Type 0 where
  pub common : CommonFiles c a
  pub of_board : BoardFiles c a a.donut
  pub has_model : any_ends_with (codes ".tflite") (models c a) ≡ true
  pub alpine_base : Bytes
  pub only_base : alpines c a ≡ alpine_base ∷ []
  pub rescue : Exact c a (codes "rescue") (codes "apks-dot")
  pub bluetooth : Exact c a (codes "bt") (codes "apks-bt-dot")
  pub rootfs : Exact c a (codes "rootfs") (codes "apks-rootfs-dot")
  pub read : mkrootfs_args words ≡ ok (rootfs_meant c a alpine_base)
