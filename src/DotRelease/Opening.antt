-- ===== src/DotRelease/Opening.antt =====
-- tools/dotimage.py: DotRelease.__init__.
use techo5_dot.Prelude.{
  ℕ, List, [], ◌∷◌, Bytes, codes, if◌then◌else◌, Bool, true, false, Option, none, some,
}
use techo5_dot.Cpio.Tree.{Member}
use techo5_dot.Release.World.{
  Response, not_in_rootfs, M, ◌>>=◌, ◌>>◌, return, stop, write, path_join,
}
use techo5_dot.Release.Manifest.{Manifest}
use techo5_dot.Release.Fetching.{Release, open_release, rootfs, asset}
use techo5_dot.Boards.Kernels.{Board, biscuit, radar, donut}
use techo5_dot.DotRelease.Archives.{tar_read, tar_extract_all, alpine}

-- What the constructor keeps.
pub record DotRelease : Type 0 where
  pub rel : Release
  pub board : Board
  pub rootfs : Bytes
  pub kernel : Option Bytes
  pub apks : Bytes
  pub busybox : Bytes
  pub wmtup : Option Bytes
  pub wpa_supplicant : Option Bytes
  pub alpine : Bytes

abbrev pub is_donut : Board → Bool
is_donut donut = true
is_donut _ = false

-- `ROOTFS_KEYS[board]`
abbrev pub rootfs_key : Board → Bytes
rootfs_key biscuit = codes "arm-dot"
rootfs_key radar = codes "arm-dot"
rootfs_key donut = codes "arm-donut"

abbrev pub dot_repo : Bytes
dot_repo = codes "HuskerMinion/techo5-dot"

abbrev pub apks_asset : Bytes
apks_asset = codes "techo5-dot-rescue-apks.tar"

-- `KERNEL_ASSET`
abbrev pub biscuit_kernel : Bytes
biscuit_kernel = codes "techo5-dot-kernel-bt.zImage-dtb"

-- `wants`: members of the root filesystem, and the files that they go to.
abbrev pub wants : Board → Bytes → List (Bytes × Bytes)
wants board dir =
    (codes "bin/busybox.static", path_join dir (codes "busybox.static"))
    ∷ (if is_donut board
        then (codes "sbin/wpa_supplicant", path_join dir (codes "wpa_supplicant-donut")) ∷ []
        else (codes "usr/local/bin/wmtup", path_join dir (codes "wmtup")) ∷ [])

module _ (members : Bytes → Option (List Member)) where
  abbrev pub write_or_stop : Bytes → Bytes → Option Bytes → M (Unit {0})
  write_or_stop member out none = stop (not_in_rootfs member)
  write_or_stop member out (some content) = write out content

  unfoldable pub take_members : Bytes → List (Bytes × Bytes) → M (Unit {0})
  take_members path [] = return tt
  take_members path ((member, out) ∷ rest) = do
    content ← tar_read members path member
    write_or_stop member out content
    take_members path rest

module _ (serve : ℕ → Bytes → Response) (hash sha512 : Bytes → Bytes)
    (b64decode : Bytes → Option Bytes) (parse_json : Bytes → Option Manifest)
    (members : Bytes → Option (List Member)) (unpack : Bytes → List Member → Bool → M (Unit {0}))
    (has_filter : Bool) where
  abbrev pub some_asset : Release → Bytes → M (Option Bytes)
  some_asset rel name = do path ← asset serve hash rel name; return (some path)

  abbrev pub kernel_asset_for : Release → Board → M (Option Bytes)
  kernel_asset_for rel board = if is_donut board then return none else some_asset rel biscuit_kernel

  -- `DotRelease(workdir, tag, board)`
  unfoldable pub open_dot_release : Bytes → Bytes → Board → M DotRelease
  open_dot_release workdir tag board = do
    rel ← open_release serve hash sha512 b64decode parse_json dot_repo tag workdir
    rootfs_path ← rootfs serve hash rel (rootfs_key board)
    kernel ← kernel_asset_for rel board
    packages ← asset serve hash rel apks_asset
    tar_extract_all members unpack has_filter packages (path_join rel.dir (codes "apks-dot"))
    take_members members rootfs_path (wants board rel.dir)
    base ← alpine serve hash workdir
    return (record {
      rel = rel;
      board = board;
      rootfs = rootfs_path;
      kernel = kernel;
      apks = path_join rel.dir (codes "apks-dot");
      busybox = path_join rel.dir (codes "busybox.static");
      wmtup = if is_donut board then none else some (path_join rel.dir (codes "wmtup"));
      wpa_supplicant =
          if is_donut board then some (path_join rel.dir (codes "wpa_supplicant-donut")) else none;
      alpine = base;
    })
