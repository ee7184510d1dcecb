-- ===== src/Tests/Releasing.antt =====
-- tools/dotimage.py: a small release of the Echo Dot 2nd gen, opened.
use techo5_dot.Prelude.{
  ℕ, [], ◌∷◌, List, Bytes, codes, same, Bool, if◌then◌else◌, Option, some, none,
}
use techo5_dot.Cpio.Tree.{Member, regular}
use techo5_dot.Release.World.{Response, served, M, return}
use techo5_dot.Release.Manifest.{Entry, Manifest}
use techo5_dot.Release.Fetching.{rootfs}
use techo5_dot.Boards.Kernels.{biscuit}
use techo5_dot.DotRelease.Archives.{alpine, alpine_url, alpine_sha256}
use techo5_dot.DotRelease.Opening.{DotRelease}
use techo5_dot.DotRelease.Trusted.{Trusted}

abbrev data_entry : Entry
data_entry = record { url = some (codes "u/data"); sha256 = some (codes "data") }

abbrev dot_manifest : Manifest
dot_manifest = record {
  version = some (codes "v9");
  rootfs = λ arch. if same arch (codes "arm-dot") then some data_entry else none;
  assets = λ name. some data_entry;
}

abbrev dot_parse : Bytes → Option Manifest
dot_parse raw = if same raw [] then some dot_manifest else none

-- Alpine's base is content that hashes to what the program wants.
abbrev dot_serve : ℕ → Bytes → Response
dot_serve n url =
    if same url (codes "u/data")
    then served (codes "data")
    else if same url alpine_url
    then served alpine_sha256
    else served []

abbrev program_member : Bytes → Member
program_member name = record {
  name = name;
  kind = regular;
  mode = 0o755;
  linkname = [];
  content = some name;
  devmajor = 0;
  devminor = 0;
}

abbrev dot_members : Bytes → Option (List Member)
dot_members content = some (
    program_member (codes "./bin/busybox.static")
    ∷ program_member (codes "./usr/local/bin/wmtup")
    ∷ [])

abbrev no_unpack : Bytes → List Member → Bool → M (Unit {0})
no_unpack dest ms filtered = return tt

abbrev dot_release : DotRelease
dot_release = record {
  rel = record {
    repo = codes "HuskerMinion/techo5-dot";
    tag = codes "latest";
    dl = codes "https://github.com/HuskerMinion/techo5-dot/releases/latest/download";
    manifest = dot_manifest;
    version = codes "v9";
    dir = codes "work/release-techo5-dot-v9";
  };
  board = biscuit;
  rootfs = codes "work/release-techo5-dot-v9/data";
  kernel = some (codes "work/release-techo5-dot-v9/techo5-dot-kernel-bt.zImage-dtb");
  apks = codes "work/release-techo5-dot-v9/apks-dot";
  busybox = codes "work/release-techo5-dot-v9/busybox.static";
  wmtup = some (codes "work/release-techo5-dot-v9/wmtup");
  wpa_supplicant = none;
  alpine = codes "work/alpine-minirootfs-3.24.2-armv7.tar.gz";
}
