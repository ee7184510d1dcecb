-- ===== src/DotRelease/Archives.antt =====
-- tools/techo5lib.py: _member, tar_read, tar_extract_all and alpine.
use techo5_dot.Prelude.{
  ℕ, List, [], ◌∷◌, Bytes, codes, same, contains, split, lstrip, starts_with, if◌then◌else◌, Bool,
  true, false, ◌||◌, Option, none, some, ok, err,
}
use techo5_dot.Cpio.Tree.{Member, Kind, regular}
use techo5_dot.Release.World.{
  Response, bad_tar, unsafe_path, M, ◌>>=◌, ◌>>◌, return, stop, path_join, base_name,
}
use techo5_dot.Release.Download.{download_checked}

-- `_member`: the first member of that name, both without their leading dots and slashes.
unfoldable pub first_member : List Member → Bytes → Option Member
first_member [] name = none
first_member (m ∷ ms) name =
    let later = first_member ms name in
    if same (lstrip (codes "./") m.name) (lstrip (codes "./") name) then some m else later

abbrev pub is_file : Kind → Bool
is_file regular = true
is_file _ = false

abbrev pub file_bytes : Option Member → Option Bytes
file_bytes none = none
file_bytes (some m) = if is_file m.kind then m.content else none

-- `tar_read` on the members of the archive.
abbrev pub read_from : List Member → Bytes → Option Bytes
read_from members name = file_bytes (first_member members name)

-- A member whose path leads out of the folder that it is unpacked into.
abbrev pub is_unsafe : Bytes → Bool
is_unsafe name = starts_with name (codes "/") || contains (split b'/' name) (codes "..")

unfoldable pub first_unsafe : List Member → Option Bytes
first_unsafe [] = none
first_unsafe (m ∷ ms) =
    let later = first_unsafe ms in if is_unsafe m.name then some m.name else later

-- `members` reads an archive, `none` where tarfile raises; `unpack dest` is what `extractall` does to
-- the files, with its filter and without.
module _ (members : Bytes → Option (List Member)) where
  abbrev pub opened : Bytes → Option Bytes → M (List Member)
  opened path none w = (err (bad_tar path), w)
  opened path (some content) w = elim (members content) [
    | none ↦ (err (bad_tar path), w)
    | some ms ↦ (ok ms, w)
  ]

  abbrev pub open_tar : Bytes → M (List Member)
  open_tar path w = opened path (w.files path) w

  unfoldable pub tar_read : Bytes → Bytes → M (Option Bytes)
  tar_read path name = do ms ← open_tar path; return (read_from ms name)

  module _ (unpack : Bytes → List Member → Bool → M (Unit {0})) where
    abbrev pub unpack_checked : Bytes → List Member → Option Bytes → M (Unit {0})
    unpack_checked dest ms none = unpack dest ms false
    unpack_checked dest ms (some name) = stop (unsafe_path name)

    -- `tar_extract_all`; `has_filter` tells whether this Python's tarfile has one.
    unfoldable pub tar_extract_all : Bool → Bytes → Bytes → M (Unit {0})
    tar_extract_all has_filter path dest = do
      ms ← open_tar path
      if has_filter then unpack dest ms true else unpack_checked dest ms (first_unsafe ms)

abbrev pub alpine_url : Bytes
alpine_url =
    codes
      "https://dl-cdn.alpinelinux.org/alpine/v3.24/releases/armv7/alpine-minirootfs-3.24.2-armv7.tar.gz"

abbrev pub alpine_sha256 : Bytes
alpine_sha256 = codes "5552f1ef2398cee46ef2cf733f8f1258f39a77ad065dfd47282fc0df9fe1976c"

module _ (serve : ℕ → Bytes → Response) (hash : Bytes → Bytes) where
  unfoldable pub alpine : Bytes → M Bytes
  alpine workdir = do
    download_checked serve hash alpine_url (path_join workdir (base_name alpine_url)) alpine_sha256
    return (path_join workdir (base_name alpine_url))
