-- ===== src/Tests/Installs.antt =====
-- tools/dotimage.py, update-boot.py and install-dot.py on small inputs.
use techo5_dot.Prelude.{
  err, ℕ, ◌≡◌, refl, [], ◌∷◌, ◌++◌, Bytes, codes, true, false, Bool, same, if◌then◌else◌, Option,
  some, none, ok, starts_with, split,
}
use techo5_dot.Release.World.{no_kernel_61, Response, served, World, path_join}
use techo5_dot.Release.Manifest.{Entry}
use techo5_dot.Release.Fetching.{Release, asset}
use techo5_dot.Release.Download.{save, keep_checked, download_checked}
use techo5_dot.Boards.Kernels.{
  radar, donut, quoted_name, project_of_line, project_of_lines, kernel_board, kernel_for,
  kernel_named, kernel_61_asset,
}
use techo5_dot.Boards.Choice.{
  Switches, check_switches, wants_61, check_kernel, wanted_kernel, refuse_missing_61, choose_kernel,
}
use techo5_dot.Console.Unit.{includes}
use techo5_dot.Boards.Matching.{
  choose_kernel-no_bluetooth_kernel, choose_kernel-board, choose_kernel-61, choose_kernel-donut,
}
use techo5_dot.Backups.Copies.{Setting, Files, any_matches, copy_to, backup_part, backup_parts}
use techo5_dot.Backups.Kept.{Backed, backup_parts-keeps, backup_part-Backed}

abbrev kernel_entry : Entry
kernel_entry = record { url = some (codes "u/k"); sha256 = some (codes "zImage") }

abbrev radar_release : Release
radar_release = record {
  repo = codes "a/b";
  tag = codes "latest";
  dl = codes "d";
  manifest = record {
    version = some (codes "v9");
    rootfs = λ _. none;
    assets = λ name.
        if same name (codes "techo5-dot-kernel-61-radar.zImage-dtb")
        then some kernel_entry
        else none;
  };
  version = codes "v9";
  dir = codes "w";
}

abbrev serve : ℕ → Bytes → Response
serve n url = served (codes "zImage")

abbrev own_hash : Bytes → Bytes
own_hash b = b

abbrev config_of : Bytes → World → Option Bytes
config_of path w =
    some
      (codes "# config\nCONFIG_ARCH_MTK_PROJECT=\"radar\"\nCONFIG_LOCALVERSION=\"-techo5-radar\"\n")

abbrev is_file : Bytes → World → Bool
is_file path w = elim (w.files path) [ none ↦ false | some _ ↦ true ]

abbrev no_switches : Switches
no_switches = record {
  kernel = none;
  no_bluetooth_kernel = false;
  linux_61 = false;
  linux_318 = false;
}

abbrev fresh : World
fresh = record { files = λ _. none; requests = 0 }

abbrev kernel_path : Bytes
kernel_path = codes "w/techo5-dot-kernel-61-radar.zImage-dtb"

radar_kernel :
    (choose_kernel serve own_hash config_of is_file radar_release none radar no_switches true
      fresh).0
    ≡ ok (some kernel_path)
unfolding choose_kernel wanted_kernel refuse_missing_61 check_kernel kernel_for kernel_board
    project_of_lines project_of_line quoted_name asset download_checked keep_checked save path_join
    same starts_with split
radar_kernel = refl

choose_kernel-board_example :
    (v : World) × (is_file kernel_path v ≡ true)
    × (kernel_board (config_of kernel_path v) ≡ some (codes "radar"))
choose_kernel-board_example =
    choose_kernel-board serve own_hash config_of is_file radar_release none radar no_switches true
      fresh radar_kernel

choose_kernel-61_example :
    (path : Bytes) × (some kernel_path ≡ some path)
    × ((kernel_named serve own_hash radar_release (kernel_61_asset radar) fresh).0 ≡ ok (some path))
choose_kernel-61_example =
    choose_kernel-61 serve own_hash config_of is_file radar_release none radar no_switches fresh
      refl radar_kernel

choose_kernel-donut_example :
    choose_kernel serve own_hash config_of is_file radar_release none donut no_switches
      (wants_61 donut no_switches (codes "4.4.22"))
      fresh
    ≡ (ok none, fresh)
choose_kernel-donut_example =
    choose_kernel-donut serve own_hash config_of is_file radar_release none no_switches
      (codes "4.4.22") fresh (unfold check_switches in refl)

-- A computer with an older copy of `kb`, and a unit whose `kb` has changed.
abbrev old_files : Files
old_files q = if same q (codes "b/kb.img") then some (codes "old") else none

abbrev setting : Setting
setting = record {
  has_source = λ p. true;
  device_md5 = λ p. codes "new";
  pull = λ p. record { content = codes "new"; succeeded = true };
  md5 = λ b. b;
  dated = λ p. [];
  next_dated = λ p. codes "b/" ++ (p ++ codes "-1.img");
}

backup_parts-keeps_example :
    (backup_parts setting
        (codes "b")
        (codes "recovery")
        (codes "kb" ∷ codes "dkb" ∷ [])
        old_files).1
      (codes "b/kb.img")
    ≡ some (codes "old")
unfolding same path_join starts_with
backup_parts-keeps_example =
    backup_parts-keeps setting (codes "b") (codes "recovery") (codes "kb" ∷ codes "dkb" ∷ [])
      old_files (codes "b/kb.img") (codes "old") refl refl

kb_backed_up : (backup_part setting (codes "b") (codes "recovery") (codes "kb") old_files).0 ≡ ok tt
unfolding backup_part copy_to any_matches same path_join starts_with
kb_backed_up = refl

backup_part-Backed_example :
    Backed setting
      (codes "b")
      (codes "recovery")
      (codes "kb")
      old_files
      (backup_part setting (codes "b") (codes "recovery") (codes "kb") old_files).1
backup_part-Backed_example =
    backup_part-Backed setting (codes "b") (codes "recovery") (codes "kb") old_files kb_backed_up

abbrev keeping : Switches
keeping = record { kernel = none; no_bluetooth_kernel = true; linux_61 = false; linux_318 = false }

choose_kernel-no_bluetooth_kernel_example :
    choose_kernel serve own_hash config_of is_file radar_release none radar keeping
      (wants_61 radar keeping (codes "6.1.178-techo5-radar"))
      fresh
    ≡ (err no_kernel_61, fresh)
unfolding includes starts_with
choose_kernel-no_bluetooth_kernel_example =
    choose_kernel-no_bluetooth_kernel serve own_hash config_of is_file radar_release none radar
      keeping (codes "6.1.178-techo5-radar") (codes "-techo5-radar") fresh
      (unfold check_switches in refl) refl refl refl
