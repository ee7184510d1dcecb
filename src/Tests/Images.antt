-- ===== src/Tests/Images.antt =====
-- tools/linux/mkrootfs.py and mkimage.py on small inputs.
use techo5_dot.Prelude.{
  ◌≡◌, refl, [], ◌∷◌, ◌++◌, Bytes, codes, false, same, if◌then◌else◌, Option, some, none, replicate,
  Result, ok, err, contains, starts_with, lstrip, rstrip, among, split, join, partition,
  replace_crlf,
}
use techo5_dot.Cpio.Archive.{Cpio, dir, file, symlink, chardev, empty}
use techo5_dot.Cpio.Tree.{Member, regular, symbolic, directory, add_tar}
use techo5_dot.Cpio.Archive
use techo5_dot.Cpio.Tree
use techo5_dot.BootImage.Words
use techo5_dot.BootImage.Format
use techo5_dot.BootImage.Format.{ImageError, Parts, write_bootimg, magic}
use techo5_dot.Initramfs.Build.{Args, add_spec, add_specs}
use techo5_dot.Rootfs.Root
use techo5_dot.Rootfs.Build
use techo5_dot.Rootfs.Written.{build-release}

abbrev member : Bytes → Member
member name = record {
  name = name;
  kind = regular;
  mode = 0o755;
  linkname = [];
  content = some (codes "elf");
  devmajor = 0;
  devminor = 0;
}

abbrev small_page : Bytes
small_page = codes "ANDROID!" ++ (replicate 28 0 ++ (96 ∷ 2 ∷ 0 ∷ 0 ∷ replicate 568 0))

abbrev small_args : Args
small_args = record {
  kernel_image = small_page;
  kernel = some (codes "kernel");
  rootfs = some (member (codes "bin/busybox") ∷ member (codes "bin/busybox.static") ∷ []);
  minimal = false;
  init = codes "#!/bin/sh";
  add = codes "x=/sbin/x" ∷ [];
  apk = [];
  copied = [];
  script = [];
  cmdline_append = none;
  cmdline_drop = [];
  ramdisk_addr = none;
  max_size = 10000;
  ramdisk_file = none;
}

abbrev sha1 : Bytes → Bytes
sha1 b = replicate 20 7

abbrev compress : Bytes → Bytes
compress b = codes "small"

abbrev read_file : Bytes → Option Bytes
read_file path = if same path (codes "x") then some (codes "elf") else none

abbrev image_of : Result ImageError Bytes → Bytes
image_of (ok img) = img
image_of (err e) = []

abbrev small_parts : Parts
small_parts = record { hdr = small_page; kernel = []; ramdisk = []; page_size = 608 }

abbrev small_image : Bytes
small_image = image_of (write_bootimg sha1 small_page (codes "kernel") (codes "small") 608 none [])

-- A base with a link and a folder, a file over the link, and a folder dropped.
abbrev linked : Member
linked = record {
  name = codes "./sbin/init";
  kind = symbolic;
  mode = 0o777;
  linkname = codes "/bin/busybox";
  content = none;
  devmajor = 0;
  devminor = 0;
}

abbrev root_args : techo5_dot.Rootfs.Build.Args
root_args = record {
  rootfs = linked ∷ member (codes ".PKGINFO") ∷ member (codes "etc/motd") ∷ [];
  apkdir = [];
  add = codes "x=/sbin/init" ∷ [];
  add_data = [];
  overlay = some ((codes "etc/run.sh", codes "#!/bin/sh") ∷ []);
  dropped = [];
  release = codes "v9";
}

abbrev root_of :
    Result techo5_dot.Rootfs.Build.BuildError techo5_dot.Rootfs.Root.Root
    → techo5_dot.Rootfs.Root.Root
root_of (ok r) = r
root_of (err e) = techo5_dot.Rootfs.Root.new_root

abbrev small_root : techo5_dot.Rootfs.Root.Root
small_root = root_of (techo5_dot.Rootfs.Build.build read_file (codes "now") root_args)

small_root_built : techo5_dot.Rootfs.Build.build read_file (codes "now") root_args ≡ ok small_root
unfolding techo5_dot.Rootfs.Build.build techo5_dot.Rootfs.Root.add_tar
    techo5_dot.Rootfs.Root.add_members techo5_dot.Rootfs.Root.add_member
    techo5_dot.Rootfs.Root.add_kind techo5_dot.Rootfs.Root.dir_loop techo5_dot.Rootfs.Root.dir
    techo5_dot.Rootfs.Root.parents techo5_dot.Rootfs.Root.put techo5_dot.Rootfs.Root.prefixes
    techo5_dot.Rootfs.Root.assign techo5_dot.Rootfs.Root.pop techo5_dot.Rootfs.Root.add_dir
    techo5_dot.Rootfs.Build.add_packages techo5_dot.Rootfs.Build.add_apkdirs
    techo5_dot.Rootfs.Build.add_spec techo5_dot.Rootfs.Build.add_specs
    techo5_dot.Rootfs.Build.drop_paths techo5_dot.Rootfs.Build.add_dirs
    techo5_dot.Rootfs.Build.add_fixed techo5_dot.Rootfs.Build.destination
    techo5_dot.Cpio.Tree.read_member rstrip lstrip among same partition starts_with split join
    contains replace_crlf
small_root_built = refl

build-release_example :
    techo5_dot.Rootfs.Root.lookup (small_root.entries) (codes "etc/techo5-release")
    ≡ some (techo5_dot.Rootfs.Root.content 0o644 (codes "v9" ++ codes "\n"))
build-release_example = build-release read_file (codes "now") root_args small_root_built
