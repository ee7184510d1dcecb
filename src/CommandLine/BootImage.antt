-- ===== src/CommandLine/BootImage.antt =====
-- tools/dotimage.py: build_boot_image, and the command line of tools/linux/mkimage.py.
use techo5_dot.Prelude.{
  List, [], ◌∷◌, ◌++◌, Bytes, codes, starts_with, ends_with, if◌then◌else◌, Bool, not, ◌&&◌, Option,
  none, some, Result, ok, err, ◌>>=◌,
}
use techo5_dot.Release.World.{path_join}
use techo5_dot.Rootfs.Build.{before}
use techo5_dot.Cpio.Tree.{Member}
use techo5_dot.CommandLine.Packages.{SwapError, with_member}

-- The arguments of `build_boot_image`, with the folder of mkimage.py; `wpa_supplicant` is what the
-- file at that path holds.
pub record Inputs : Type 0 where
  pub linux : Bytes
  pub recovery : Bytes
  pub out : Bytes
  pub alpine_tgz : Bytes
  pub busybox : Bytes
  pub wmtup : Option Bytes
  pub apks : Bytes
  pub kernel : Option Bytes
  pub donut : Bool
  pub wpa_supplicant : Bytes

unfoldable pub insert_name : Bytes → List Bytes → List Bytes
insert_name n [] = n ∷ []
insert_name n (m ∷ ms) = let rest = insert_name n ms in if before m n then m ∷ rest else n ∷ m ∷ ms

-- `sorted(names)`
unfoldable pub sorted : List Bytes → List Bytes
sorted [] = []
sorted (n ∷ ns) = insert_name n (sorted ns)

-- `DONUT_RAMDISK_ADDR`
abbrev pub donut_ramdisk_addr : Bytes
donut_ramdisk_addr = codes "0x43478000"

abbrev pub init_path : Inputs → Bytes
init_path i = path_join i.linux (if i.donut then codes "init-donut" else codes "init")

abbrev pub swapped_path : Inputs → Bytes
swapped_path i = i.out ++ codes ".wpa_supplicant.tar.gz"

-- The words up to the packages.
abbrev pub first_words : Inputs → List Bytes
first_words i =
    codes "--kernel-image"
    ∷ i.recovery
    ∷ codes "--rootfs"
    ∷ i.alpine_tgz
    ∷ codes "--init"
    ∷ init_path i
    ∷ codes "--add"
    ∷ (i.busybox ++ codes "=/bin/busybox.static")
    ∷ codes "--cmdline-drop"
    ∷ codes "skip_initramfs"
    ∷ codes "--cmdline-drop"
    ∷ codes "root="
    ∷ codes "--cmdline-drop"
    ∷ codes "dm="
    ∷ codes "--cmdline-append"
    ∷ codes "techo5.stay_minutes=15"
    ∷ codes "-o"
    ∷ i.out
    ∷ []

abbrev pub wmtup_words : Option Bytes → List Bytes
wmtup_words none = []
wmtup_words (some wmtup) = codes "--add" ∷ (wmtup ++ codes "=/usr/local/bin/wmtup") ∷ []

abbrev pub address_words : Bool → List Bytes
address_words donut = if donut then codes "--ramdisk-addr" ∷ donut_ramdisk_addr ∷ [] else []

abbrev pub kernel_words : Option Bytes → List Bytes
kernel_words none = []
kernel_words (some kernel) = codes "--kernel" ∷ kernel ∷ []

abbrev pub tools : List Bytes
tools =
    codes "slotctl"
    ∷ codes "techo5-net"
    ∷ codes "wifi-set"
    ∷ codes "to-twrp"
    ∷ codes "techo5-firewall"
    ∷ []

-- `j(linux, 'rootfs', 'usr', 'local', 'sbin', t) + '=/usr/local/sbin/' + t`
abbrev pub tool_spec : Bytes → Bytes → Bytes
tool_spec linux t =
    path_join
      (path_join
        (path_join (path_join (path_join linux (codes "rootfs")) (codes "usr")) (codes "local"))
        (codes "sbin"))
      t
    ++ (codes "=/usr/local/sbin/" ++ t)

unfoldable pub tool_words : Bytes → List Bytes → List Bytes
tool_words linux [] = []
tool_words linux (t ∷ ts) = codes "--script" ∷ tool_spec linux t ∷ tool_words linux ts

abbrev pub behind : List Bytes → Result SwapError (List Bytes) → Result SwapError (List Bytes)
behind words (ok more) = ok (words ++ more)
behind words (err e) = err e

-- `packages` gives the members of the data in a package's file.
module _ (packages : Bytes → List Member) (i : Inputs) where
  abbrev pub is_swapped : Bytes → Bool
  is_swapped apk = i.donut && starts_with apk (codes "wpa_supplicant-")

  abbrev pub swap_package : Bytes → Result SwapError (List Member)
  swap_package apk =
      with_member (packages (path_join i.apks apk)) (codes "sbin/wpa_supplicant") i.wpa_supplicant

  -- One package, and those behind it.
  abbrev pub after_swap :
      Result SwapError (List Member) → Result SwapError (List Bytes) → Result SwapError (List Bytes)
  after_swap (ok members) more = behind (codes "--apk" ∷ swapped_path i ∷ []) more
  after_swap (err e) more = err e

  unfoldable pub apk_words : List Bytes → Result SwapError (List Bytes)
  apk_words [] = ok []
  apk_words (apk ∷ names) =
      let rest = apk_words names in
      if not (ends_with apk (codes ".apk"))
      then rest
      else if is_swapped apk
      then after_swap (swap_package apk) rest
      else behind (codes "--apk" ∷ path_join i.apks apk ∷ []) rest

  -- The command line; `listing` is what `os.listdir(apks)` gives.
  unfoldable pub mkimage_words : List Bytes → Result SwapError (List Bytes)
  mkimage_words listing = do
    apks ← apk_words (sorted listing)
    ok (
        first_words i
        ++ (wmtup_words i.wmtup
            ++ (address_words i.donut
                ++ (kernel_words i.kernel ++ (apks ++ tool_words i.linux tools)))))
