-- ===== src/Tests/Building.antt =====
-- tools/dotimage.py and tools/linux/build-dot-rootfs.py: the command lines that they make.
use techo5_dot.Prelude.{
  join, not, ◌≡◌, refl, [], ◌∷◌, List, Bytes, codes, same, split, starts_with, ends_with, true,
  false, if◌then◌else◌, some, none, ok,
}
use techo5_dot.Release.World.{path_join}
use techo5_dot.Rootfs.Build.{before}
use techo5_dot.Cpio.Tree.{Member, regular, hard_link}
use techo5_dot.CommandLine.Options.{all_values}
use techo5_dot.CommandLine.Packages.{
  norm_parts, same_path, last_under, has_member, all_regular, swap_members, with_member,
}
use techo5_dot.CommandLine.BootImage.{
  Inputs, sorted, insert_name, tool_words, apk_words, mkimage_words,
}
use techo5_dot.CommandLine.MkimageArgs.{mkimage_args}
use techo5_dot.CommandLine.Reads.{HasPaths, meant, mkimage_args-mkimage_words}
use techo5_dot.CommandLine.Rootfs.{Switches, Computer}
use techo5_dot.CommandLine.RootfsPaths as RootfsPaths

abbrev supplicant : Member
supplicant = record {
  name = codes "sbin/wpa_supplicant";
  kind = regular;
  mode = 0o755;
  linkname = [];
  content = some (codes "old");
  devmajor = 0;
  devminor = 0;
}

abbrev license : Member
license = record {
  name = codes "LICENSE";
  kind = regular;
  mode = 0o644;
  linkname = [];
  content = some (codes "text");
  devmajor = 0;
  devminor = 0;
}

abbrev package_members : List Member
package_members = license ∷ supplicant ∷ []

swapped_package :
    with_member package_members (codes "sbin/wpa_supplicant") (codes "new")
    ≡ ok (license ∷ record supplicant { content = some (codes "new") } ∷ [])
unfolding with_member has_member all_regular swap_members same
swapped_package = refl

-- A hard link to the member that is replaced leads to the new content.
linked_package :
    with_member
      (supplicant
        ∷ record supplicant {
          name = codes "sbin/wpa";
          kind = hard_link;
          linkname = codes "./sbin/wpa_supplicant";
        }
        ∷ [])
      (codes "sbin/wpa_supplicant")
      (codes "new")
    ≡ ok (
        record supplicant { content = some (codes "new") }
        ∷ record supplicant {
          name = codes "sbin/wpa";
          kind = hard_link;
          linkname = codes "./sbin/wpa_supplicant";
          content = some (codes "new");
        }
        ∷ [])
unfolding with_member has_member all_regular swap_members last_under same_path norm_parts split join
    starts_with same
linked_package = refl

abbrev donut_inputs : Inputs
donut_inputs = record {
  linux = codes "/r/tools/linux";
  recovery = codes "/b/boot_a.img";
  out = codes "/b/linux.img";
  alpine_tgz = codes "/w/alpine.tar.gz";
  busybox = codes "/w/busybox.static";
  wmtup = none;
  apks = codes "/w/apks";
  kernel = none;
  donut = true;
  wpa_supplicant = codes "new";
}

abbrev donut_listing : List Bytes
donut_listing = codes "wpa_supplicant-2.11.apk" ∷ codes "README" ∷ codes "iw-6.apk" ∷ []

donut_paths : HasPaths donut_inputs
unfolding starts_with all_values
donut_paths = record {
  linux = refl;
  recovery = refl;
  out = refl;
  alpine_tgz = refl;
  busybox = refl;
  apks = refl;
  wmtup = refl;
  kernel = refl;
}

abbrev donut_command : List Bytes
donut_command =
    codes "--kernel-image"
    ∷ codes "/b/boot_a.img"
    ∷ codes "--rootfs"
    ∷ codes "/w/alpine.tar.gz"
    ∷ codes "--init"
    ∷ codes "/r/tools/linux/init-donut"
    ∷ codes "--add"
    ∷ codes "/w/busybox.static=/bin/busybox.static"
    ∷ codes "--cmdline-drop"
    ∷ codes "skip_initramfs"
    ∷ codes "--cmdline-drop"
    ∷ codes "root="
    ∷ codes "--cmdline-drop"
    ∷ codes "dm="
    ∷ codes "--cmdline-append"
    ∷ codes "techo5.stay_minutes=15"
    ∷ codes "-o"
    ∷ codes "/b/linux.img"
    ∷ codes "--ramdisk-addr"
    ∷ codes "0x43478000"
    ∷ codes "--apk"
    ∷ codes "/w/apks/iw-6.apk"
    ∷ codes "--apk"
    ∷ codes "/b/linux.img.wpa_supplicant.tar.gz"
    ∷ codes "--script"
    ∷ codes "/r/tools/linux/rootfs/usr/local/sbin/slotctl=/usr/local/sbin/slotctl"
    ∷ codes "--script"
    ∷ codes "/r/tools/linux/rootfs/usr/local/sbin/techo5-net=/usr/local/sbin/techo5-net"
    ∷ codes "--script"
    ∷ codes "/r/tools/linux/rootfs/usr/local/sbin/wifi-set=/usr/local/sbin/wifi-set"
    ∷ codes "--script"
    ∷ codes "/r/tools/linux/rootfs/usr/local/sbin/to-twrp=/usr/local/sbin/to-twrp"
    ∷ codes "--script"
    ∷ codes "/r/tools/linux/rootfs/usr/local/sbin/techo5-firewall=/usr/local/sbin/techo5-firewall"
    ∷ []

donut_words : mkimage_words (λ f. package_members) donut_inputs donut_listing ≡ ok donut_command
unfolding mkimage_words apk_words tool_words sorted insert_name before path_join with_member
    has_member all_regular swap_members same starts_with ends_with
donut_words = refl

mkimage_args-mkimage_words_example :
    mkimage_args donut_command ≡ ok (meant donut_inputs (sorted donut_listing))
mkimage_args-mkimage_words_example =
    mkimage_args-mkimage_words (λ f. package_members) donut_inputs donut_listing donut_paths
      donut_words

abbrev dot_switches : Switches
dot_switches = record {
  here = codes "/r/tools/linux";
  daemon = codes "/r/bin/echod-dot";
  donut = false;
  wpa_supplicant = codes "/r/build/wpa_supplicant";
  bt_modules = codes "/r/build/bt-modules";
  release = codes "v0.6.0";
  wmtup = codes "/r/bin/wmtup";
  btbridge = codes "/r/bin/btbridge";
  librespot = codes "/r/bin/techo5-librespot";
  shairport = codes "/r/bin/techo5-shairport-sync";
  nqptp = codes "/r/bin/techo5-nqptp";
  bluealsa = codes "/r/build/bluealsa";
  inputs = codes "/r/inputs";
  out = codes "/r/bin/rootfs.tar.gz";
}

-- Every file is there but those of AirPlay 2, and each package folder has one package.
abbrev builder : Computer
builder = record {
  exists = λ f. not (same f (codes "/r/bin/techo5-nqptp"));
  listdir = λ d. some (codes "iw-6.apk" ∷ codes "README" ∷ []);
  glob = λ d pattern.
      if same pattern (codes "*.tflite")
      then codes "/r/inputs/models/alexa.tflite" ∷ []
      else if starts_with pattern (codes "alpine")
      then codes "/r/inputs/alpine-minirootfs-3.21-armv7.tar.gz" ∷ []
      else if same pattern (codes "*")
      then codes "/r/tools/linux/licenses/LICENSE" ∷ []
      else [];
  text = λ f. codes "# the packages\n iw-6.apk \n";
  commit = codes "abc1234";
  tmp = codes "/tmp/x";
}
