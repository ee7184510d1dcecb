-- ===== src/Initramfs/Build.antt =====
-- tools/linux/mkimage.py: main.
use techo5_dot.Prelude.{
  ℕ, ◌^◌, List, [], ◌∷◌, ◌++◌, Bytes, codes, contains, strip, split, partition, among, replace_crlf,
  length, map, if◌then◌else◌, ltb, leb, Bool, true, false, not, ◌&&◌, Option, none, some, Result,
  ok, err, ◌>>=◌, ◌>>◌, guard,
}
use techo5_dot.Cpio.Archive.{Cpio, Call, dir, file, symlink, chardev, blockdev, run, empty, finish}
use techo5_dot.Cpio.Tree.{TarError, Member, add_parents, add_tar}
use techo5_dot.Cpio.Walk.{Reason, verify_cpio}
use techo5_dot.BootImage.Fields.{le32, splice}
use techo5_dot.BootImage.Format.{
  ImageError, size_overflow, short_header, read_bootimg, write_bootimg,
}

-- Why the program stops. An image that is too large is on the disk by then.
pub data MakeError : Type 0 where
  tar_error : TarError → MakeError
  not_a_spec : Bytes → MakeError
  no_file : Bytes → MakeError
  no_busybox : MakeError
  bad_archive : Reason → MakeError
  incomplete : MakeError
  bad_image : ImageError → MakeError
  does_not_fit : Bytes → MakeError

-- The arguments; `rootfs`, `apk`, `init`, `kernel_image`, `kernel` and `ramdisk_file` hold what
-- is in the files that the source opens.
pub record Args : Type 0 where
  pub kernel_image : Bytes
  pub kernel : Option Bytes
  pub rootfs : Option (List Member)
  pub minimal : Bool
  pub init : Bytes
  pub add : List Bytes
  pub apk : List (List Member)
  pub copied : List Bytes
  pub script : List Bytes
  pub cmdline_append : Option Bytes
  pub cmdline_drop : List Bytes
  pub ramdisk_addr : Option ℕ
  pub max_size : ℕ
  pub ramdisk_file : Option Bytes

abbrev pub of_tar {ℓ} : {A : Type ℓ} → Result TarError A → Result MakeError A
of_tar (ok a) = ok a
of_tar (err e) = err (tar_error e)

abbrev pub of_image {ℓ} : {A : Type ℓ} → Result ImageError A → Result MakeError A
of_image (ok a) = ok a
of_image (err e) = err (bad_image e)

abbrev pub of_walk {ℓ} : {A : Type ℓ} → Result Reason A → Result MakeError A
of_walk (ok a) = ok a
of_walk (err e) = err (bad_archive e)

-- The devices and the mount points.
abbrev pub first_calls : List Call
first_calls =
    dir (codes "dev") 0o755
    ∷ chardev (codes "dev/console") 5 1 0o600
    ∷ chardev (codes "dev/null") 1 3 0o666
    ∷ chardev (codes "dev/kmsg") 1 11 0o600
    ∷ chardev (codes "dev/fb0") 29 0 0o600
    ∷ blockdev (codes "dev/mmcblk0p8") 179 8 0o600
    ∷ blockdev (codes "dev/mmcblk0p12") 179 12 0o600
    ∷ blockdev (codes "dev/mmcblk0p16") 179 16 0o600
    ∷ dir (codes "proc") 0o755
    ∷ dir (codes "sys") 0o755
    ∷ dir (codes "tmp") 0o1777
    ∷ dir (codes "run") 0o755
    ∷ dir (codes "data") 0o755
    ∷ dir (codes "android") 0o755
    ∷ []

abbrev pub applets : List Bytes
applets = split b' ' (
    codes
      "sh mount umount mkdir ln ls wc cat echo sleep dd printf uname mdev mknod tee head tail grep cut date dmesg ip insmod sync cp reboot setsid ifconfig tr od free cttyhack")

-- What `--minimal` puts in: the directories, busybox and its applets, and the accounts.
abbrev pub minimal_calls : List Call
minimal_calls =
    map (λ d. dir d 0o755)
      (codes "bin"
        ∷ codes "sbin"
        ∷ codes "usr/bin"
        ∷ codes "usr/sbin"
        ∷ codes "etc"
        ∷ codes "lib"
        ∷ codes "root"
        ∷ codes "usr/local/bin"
        ∷ [])
    ++ symlink (codes "bin/busybox") (codes "busybox.static")
      ∷ map (λ app. symlink (codes "bin/" ++ app) (codes "busybox")) applets
    ++ file (codes "etc/passwd") (codes "root:*:0:0:root:/root:/bin/sh" ++ 10 ∷ []) 0o644 ∷ []

abbrev pub add_rootfs : Option (List Member) → Cpio → Result MakeError Cpio
add_rootfs none c = ok c
add_rootfs (some members) c = of_tar (add_tar members false c)

unfoldable pub add_apks : List (List Member) → Cpio → Result MakeError Cpio
add_apks [] c = ok c
add_apks (members ∷ apks) c = do c' ← of_tar (add_tar members true c); add_apks apks c'

abbrev pub is_given {ℓ} : {A : Type ℓ} → Option A → Bool
is_given none = false
is_given (some _) = true

-- `dest.strip("/")` of a specification.
abbrev pub spec_dest : Bytes → Bytes
spec_dest spec = strip (codes "/") (partition b'=' spec).1

-- `open(path, "rb").read()` is a parameter, `none` where it raises.
module _ (read_file : Bytes → Option Bytes) where
  -- One specification of `--copy`, `--script` or `--add`; `change` is what is done to the content.
  unfoldable pub add_spec : (Bytes → Bytes) → ℕ → Bytes → Cpio → Result MakeError Cpio
  add_spec change mode spec c =
      if among b'=' spec
      then elim (read_file (partition b'=' spec).0) [
        | none ↦ err (no_file (partition b'=' spec).0)
        | some bytes ↦
            ok (
              run (file (spec_dest spec) (change bytes) mode ∷ []) (add_parents (spec_dest spec) c))
      ]
      else err (not_a_spec spec)

  unfoldable pub add_specs : (Bytes → Bytes) → ℕ → List Bytes → Cpio → Result MakeError Cpio
  add_specs change mode [] c = ok c
  add_specs change mode (spec ∷ specs) c = do
    c' ← add_spec change mode spec c
    add_specs change mode specs c'

  -- The `--minimal` part; `adds` has the destinations of `--add`.
  unfoldable pub add_minimal : Args → Cpio → Result MakeError Cpio
  add_minimal a c =
      if a.minimal
      then if not (is_given a.rootfs)
          && not (contains (map spec_dest a.add) (codes "bin/busybox.static"))
        then err no_busybox
        else ok (run minimal_calls c)
      else ok c

  -- The archive, complete.
  unfoldable pub build_archive : Args → Result MakeError Bytes
  build_archive a = do
    c1 ← add_rootfs a.rootfs (run first_calls empty)
    c2 ← add_apks a.apk c1
    c3 ← add_specs replace_crlf 0o644 a.copied c2
    c4 ← add_specs replace_crlf 0o755 a.script c3
    c5 ←
        add_specs (λ b. b) 0o755 a.add
          (run (file (codes "init") (replace_crlf a.init) 0o755 ∷ []) c4)
    c6 ← add_minimal a c5
    ok (finish c6)

abbrev pub has_required : List Bytes → Bool
has_required names =
    contains names (codes "init")
    && contains names (codes "bin/busybox")
    && contains names (codes "bin/busybox.static")

abbrev pub with_ramdisk_addr : Option ℕ → Bytes → Result ImageError Bytes
with_ramdisk_addr none hdr = ok hdr
with_ramdisk_addr (some addr) hdr = do
  guard (leb 24 (length hdr)) short_header
  guard (ltb addr (2 ^ 32)) size_overflow
  ok (splice hdr 20 (le32 addr))

abbrev pub kernel_or : Option Bytes → Bytes → Bytes
kernel_or none kernel = kernel
kernel_or (some given) kernel = given

-- `compress` is the xz or gzip compression that the arguments choose.
module _ (sha1 compress : Bytes → Bytes) (read_file : Bytes → Option Bytes) where
  -- From the ramdisk to the image, over the header of `--kernel-image`.
  unfoldable pub make_image : Args → Bytes → Result MakeError Bytes
  make_image a rd = do
    parts ← of_image (read_bootimg a.kernel_image)
    hdr ← of_image (with_ramdisk_addr a.ramdisk_addr parts.hdr)
    of_image (
        write_bootimg sha1 hdr (kernel_or a.kernel parts.kernel) rd parts.page_size a.cmdline_append
          a.cmdline_drop)

  -- The part behind the early return: the image that is left on the disk when it succeeds.
  unfoldable pub make_initramfs : Args → Result MakeError Bytes
  make_initramfs a = do
    raw ← build_archive read_file a
    names ← of_walk (verify_cpio raw)
    guard (has_required names) incomplete
    image ← make_image a (compress raw)
    guard (leb (length image) a.max_size) (does_not_fit image)
    ok image

  -- `main`
  unfoldable pub make : Args → Result MakeError Bytes
  make a = elim a.ramdisk_file [ some rd ↦ make_image a rd | none ↦ make_initramfs a ]
