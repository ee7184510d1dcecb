-- ===== src/Tests/Techo5lib.antt =====
-- tools/techo5lib.py on small worlds and on a published signature.
use techo5_dot.Prelude.{
  ℕ, ◌≡◌, ◌≢◌, refl, ◌<◌, [], ◌∷◌, Bytes, codes, true, same, rstrip, lstrip, starts_with, split,
  if◌then◌else◌, Option, some, none, take, drop, length, from_le, ok, arith, mod_ℤ, ◌*ℤ◌,
}
use techo5_dot.Ed25519.Field.{
  order, pow_loop, pow_mod, curve_d, sqrt_m1, is_root, x_squared, candidate, recover_root,
  recover_x,
}
use techo5_dot.Ed25519.Curve.{
  point_add, ladder, point_mul, point_equal, point_decompress, base_y, base_x, base, challenge,
  check_points, ed25519_verify,
}
use techo5_dot.Release.World.{Response, served, World, path_join, base_name}
use techo5_dot.Release.Download.{download_checked, keep_checked, save, fetch}
use techo5_dot.Release.Manifest.{verify_manifest, release_key, Entry, Manifest}
use techo5_dot.Release.Fetching.{Release, open_release, asset, rootfs}
use techo5_dot.Release.Trust.{
  Safe, Signed, Vouched, download_checked-Safe, download_checked-files, asset_trusted,
  rootfs_trusted,
}
use techo5_dot.Ed25519.Accepts.{AreBytes, ed25519_verify_shape, ed25519_verify_unique}

-- The first vector of RFC 8032, 7.1: the key, the signature of the empty message, and the digest
-- that the verification asks for.
abbrev pub vector_key : Bytes
vector_key =
    215 ∷ 90 ∷ 152 ∷ 1 ∷ 130 ∷ 177 ∷ 10 ∷ 183 ∷ 213 ∷ 75 ∷ 254 ∷ 211 ∷ 201 ∷ 100 ∷ 7 ∷ 58 ∷ 14 ∷ 225
    ∷ 114 ∷ 243 ∷ 218 ∷ 166 ∷ 35 ∷ 37 ∷ 175 ∷ 2 ∷ 26 ∷ 104 ∷ 247 ∷ 7 ∷ 81 ∷ 26 ∷ []

abbrev pub vector_signature : Bytes
vector_signature =
    229 ∷ 86 ∷ 67 ∷ 0 ∷ 195 ∷ 96 ∷ 172 ∷ 114 ∷ 144 ∷ 134 ∷ 226 ∷ 204 ∷ 128 ∷ 110 ∷ 130 ∷ 138 ∷ 132
    ∷ 135 ∷ 127 ∷ 30 ∷ 184 ∷ 229 ∷ 217 ∷ 116 ∷ 216 ∷ 115 ∷ 224 ∷ 101 ∷ 34 ∷ 73 ∷ 1 ∷ 85 ∷ 95 ∷ 184
    ∷ 130 ∷ 21 ∷ 144 ∷ 163 ∷ 59 ∷ 172 ∷ 198 ∷ 30 ∷ 57 ∷ 112 ∷ 28 ∷ 249 ∷ 180 ∷ 107 ∷ 210 ∷ 91 ∷ 245
    ∷ 240 ∷ 89 ∷ 91 ∷ 190 ∷ 36 ∷ 101 ∷ 81 ∷ 65 ∷ 67 ∷ 142 ∷ 122 ∷ 16 ∷ 11 ∷ []

abbrev pub vector_digest : Bytes → Bytes
vector_digest _ =
    39 ∷ 113 ∷ 6 ∷ 43 ∷ 107 ∷ 83 ∷ 111 ∷ 231 ∷ 255 ∷ 189 ∷ 218 ∷ 3 ∷ 32 ∷ 195 ∷ 130 ∷ 123 ∷ 3 ∷ 93
    ∷ 241 ∷ 13 ∷ 40 ∷ 77 ∷ 243 ∷ 240 ∷ 130 ∷ 34 ∷ 240 ∷ 77 ∷ 188 ∷ 167 ∷ 164 ∷ 194 ∷ 14 ∷ 241 ∷ 91
    ∷ 220 ∷ 152 ∷ 138 ∷ 34 ∷ 199 ∷ 32 ∷ 116 ∷ 17 ∷ 55 ∷ 124 ∷ 51 ∷ 242 ∷ 172 ∷ 9 ∷ 177 ∷ 232 ∷ 106
    ∷ 4 ∷ 98 ∷ 52 ∷ 40 ∷ 55 ∷ 104 ∷ 238 ∷ 123 ∷ 160 ∷ 60 ∷ 14 ∷ 159 ∷ []

vector_accepted : ed25519_verify vector_digest vector_key [] vector_signature ≡ true
unfolding ed25519_verify check_points challenge point_decompress point_equal point_mul ladder
    point_add base base_x base_y recover_x recover_root candidate x_squared is_root sqrt_m1 curve_d
    pow_mod pow_loop from_le mod_ℤ ◌*ℤ◌
vector_accepted = refl

ed25519_verify_shape_example :
    (length vector_key ≡ 32)
    × (length vector_signature ≡ 64)
    × (point_decompress vector_key ≢ none)
    × (point_decompress (take 32 vector_signature) ≢ none)
    × (from_le (drop 32 vector_signature) < order)
ed25519_verify_shape_example =
    ed25519_verify_shape vector_digest vector_key [] vector_signature vector_accepted

vector_signature-AreBytes : AreBytes vector_signature
vector_signature-AreBytes = ground arith

ed25519_verify_unique_example : vector_signature ≡ vector_signature
ed25519_verify_unique_example =
    ed25519_verify_unique vector_digest vector_key [] vector_signature vector_signature
      vector_signature-AreBytes vector_signature-AreBytes vector_accepted vector_accepted refl refl

-- A release whose manifest is the signed message of the vector and names one file and one rootfs,
-- served with content that hashes to what is recorded; a file's hash is the file itself.
abbrev entry_of_file : Entry
entry_of_file = record { url = some (codes "u/boot.img"); sha256 = some (codes "data") }

abbrev small_manifest : Manifest
small_manifest = record {
  version = some (codes "v9");
  rootfs = λ arch. if same arch (codes "armv7") then some entry_of_file else none;
  assets = λ name. if same name (codes "boot.img") then some entry_of_file else none;
}

abbrev small_serve : ℕ → Bytes → Response
small_serve n url = if same url (codes "u/boot.img") then served (codes "data") else served []

abbrev pub small_b64decode : Bytes → Option Bytes
small_b64decode s = if same s release_key then some vector_key else some vector_signature

abbrev small_parse : Bytes → Option Manifest
small_parse raw = if same raw [] then some small_manifest else none

abbrev pub own_hash : Bytes → Bytes
own_hash b = b

abbrev pub fresh : World
fresh = record { files = λ _. none; requests = 0 }

abbrev small_release : Release
small_release = record {
  repo = codes "a/b";
  tag = codes "latest";
  dl = codes "https://github.com/a/b/releases/latest/download";
  manifest = small_manifest;
  version = codes "v9";
  dir = codes "work/release-b-v9";
}

small_release_opened :
    (open_release small_serve own_hash vector_digest small_b64decode small_parse
      (codes "a/b")
      (codes "latest")
      (codes "work")
      fresh).0
    ≡ ok small_release
unfolding same rstrip lstrip starts_with split open_release verify_manifest fetch path_join
    base_name ed25519_verify check_points challenge point_decompress point_equal point_mul ladder
    point_add base base_x base_y recover_x recover_root candidate x_squared is_root sqrt_m1 curve_d
    pow_mod pow_loop from_le mod_ℤ ◌*ℤ◌
small_release_opened = refl

small_asset :
    (asset small_serve own_hash small_release (codes "boot.img") fresh).0
    ≡ ok (codes "work/release-b-v9/boot.img")
unfolding same starts_with asset download_checked keep_checked save path_join
small_asset = refl

small_rootfs :
    (rootfs small_serve own_hash small_release (codes "armv7") fresh).0
    ≡ ok (codes "work/release-b-v9/boot.img")
unfolding same starts_with split rootfs download_checked keep_checked save path_join base_name
small_rootfs = refl

asset_trusted_example :
    Signed vector_digest small_b64decode small_parse small_manifest
    × Vouched own_hash
        (some entry_of_file)
        (codes "work/release-b-v9/boot.img")
        (asset small_serve own_hash small_release (codes "boot.img") fresh).1
unfolding same
asset_trusted_example =
    asset_trusted small_serve own_hash vector_digest small_b64decode small_parse (codes "a/b")
      (codes "latest") (codes "work") fresh (codes "boot.img") fresh small_release_opened
      small_asset

rootfs_trusted_example :
    Signed vector_digest small_b64decode small_parse small_manifest
    × Vouched own_hash
        (some entry_of_file)
        (codes "work/release-b-v9/boot.img")
        (rootfs small_serve own_hash small_release (codes "armv7") fresh).1
unfolding same
rootfs_trusted_example =
    rootfs_trusted small_serve own_hash vector_digest small_b64decode small_parse (codes "a/b")
      (codes "latest") (codes "work") fresh (codes "armv7") fresh small_release_opened small_rootfs

-- A download of other content than expected, over an old file.
abbrev with_old : World
with_old = record {
  files = λ p. if same p (codes "out") then some (codes "old") else none;
  requests = 0;
}

download_checked-Safe_example : Safe own_hash (codes "out") (codes "new") with_old (
    download_checked small_serve own_hash (codes "u/boot.img") (codes "out") (codes "new") with_old)
download_checked-Safe_example =
    download_checked-Safe small_serve own_hash (codes "u/boot.img") (codes "out") (codes "new")
      with_old

download_checked-files_example :
    (download_checked small_serve own_hash
        (codes "u/boot.img")
        (codes "out")
        (codes "new")
        with_old).1.files
      (codes "kept")
    ≡ none
unfolding same
download_checked-files_example =
    download_checked-files small_serve own_hash (codes "u/boot.img") (codes "out") (codes "new")
      (codes "kept") with_old refl refl
