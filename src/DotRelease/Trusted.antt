-- ===== src/DotRelease/Trusted.antt =====
-- tools/dotimage.py: what DotRelease keeps is what a signed manifest names.
use techo5_dot.Prelude.{
  ℕ, ◌≡◌, ◌⊎◌, List, [], ◌∷◌, ◌++◌, Bytes, codes, Bool, true, false, Option, none, some, ok,
}
use techo5_dot.Cpio.Tree.{Member}
use techo5_dot.Release.World.{Response, World, M, write}
use techo5_dot.Release.Download.{has_hash}
use techo5_dot.Release.Manifest.{Manifest}
use techo5_dot.Release.Fetching.{Release, rootfs}
use techo5_dot.Release.Trust.{Signed, Vouched}
use techo5_dot.Boards.Kernels.{Board}
use techo5_dot.DotRelease.Archives.{tar_read, tar_extract_all, alpine, alpine_sha256}
use techo5_dot.DotRelease.Opening.{DotRelease, is_donut, rootfs_key, apks_asset, biscuit_kernel}

module _ (serve : ℕ → Bytes → Response) (hash sha512 : Bytes → Bytes)
    (b64decode : Bytes → Option Bytes) (parse_json : Bytes → Option Manifest)
    (members : Bytes → Option (List Member)) (unpack : Bytes → List Member → Bool → M (Unit {0}))
    (has_filter : Bool) where
  -- A file that the manifest of a release vouches for, at some time while the release is opened.
  abbrev pub VouchedAsset : Release → Bytes → Bytes → Type 0
  VouchedAsset rel name path = (v : World) × Vouched hash (rel.manifest.assets name) path v

  -- The file is unpacked into the folder at a time when the manifest vouches for it.
  abbrev pub Unpacked : Release → Bytes → Bytes → Type 0
  Unpacked rel name dest =
      (path : Bytes) × ((v : World) × (Vouched hash (rel.manifest.assets name) path v
          × ((tar_extract_all members unpack has_filter path dest v).0 ≡ ok tt)))

  -- Each member is read from the archive, and what is read is written to its file.
  abbrev pub Taken : Bytes → List (Bytes × Bytes) → World → Type 0
  Taken path [] v = Unit
  Taken path ((member, out) ∷ rest) v =
      (content : Bytes) × (((tar_read members path member v).0 ≡ ok (some content))
        × Taken path rest (write out content (tar_read members path member v).1).1)

  abbrev pub tool_at : Bytes → Option Bytes → List (Bytes × Bytes)
  tool_at member none = []
  tool_at member (some out) = (member, out) ∷ []

  -- The tools that a DotRelease keeps, with the members that they should be.
  abbrev pub kept_tools : DotRelease → List (Bytes × Bytes)
  kept_tools d =
      (codes "bin/busybox.static", d.busybox)
      ∷ (tool_at (codes "usr/local/bin/wmtup") d.wmtup
          ++ tool_at (codes "sbin/wpa_supplicant") d.wpa_supplicant)

  -- The Echo Dot 3 has wpa_supplicant, the other boards have wmtup.
  abbrev pub OfBoard : Bool → DotRelease → Type 0
  OfBoard true d = (d.wmtup ≡ none) × ((out : Bytes) × (d.wpa_supplicant ≡ some out))
  OfBoard false d = (d.wpa_supplicant ≡ none) × ((out : Bytes) × (d.wmtup ≡ some out))

  pub record Trusted (board : Board) (d : DotRelease) : Type 0 where
    pub by_key : Signed sha512 b64decode parse_json d.rel.manifest
    pub same_board : d.board ≡ board
    pub rootfs_vouched :
        (v : World) × Vouched hash (d.rel.manifest.rootfs (rootfs_key board)) d.rootfs v
    pub kernel_vouched :
        ((is_donut board ≡ true) × (d.kernel ≡ none))
        ⊎ ((is_donut board ≡ false)
            × ((path : Bytes) × ((d.kernel ≡ some path) × VouchedAsset d.rel biscuit_kernel path)))
    pub apks_unpacked : Unpacked d.rel apks_asset d.apks
    pub tools_taken : (v : World) × Taken d.rootfs (kept_tools d) v
    pub tools_of_board : OfBoard (is_donut board) d
    pub alpine_hashed : (v : World) × (has_hash hash d.alpine alpine_sha256 v ≡ true)
