-- ===== src/Rootfs/Build.antt =====
-- tools/linux/mkrootfs.py: main.
use techo5_dot.Prelude.{
  ℕ, zero, suc, List, [], ◌∷◌, ◌++◌, Bytes, codes, contains, if◌then◌else◌, ltb, ◌==◌, Bool, true,
  false, ◌&&◌, ◌||◌, strip, is_empty, ends_with, among, partition, Option, none, some, Result, ok,
  err, ◌>>=◌,
}
use techo5_dot.Cpio.Tree.{TarError, Member}
use techo5_dot.Rootfs.Root.{Root, new_root, keys, pop, dir, file, symlink, add_tar, add_dir}

-- Why the program stops.
pub data BuildError : Type 0 where
  tar_error : TarError → BuildError
  no_package_directory : Bytes → BuildError
  not_a_spec : Bytes → BuildError
  no_file : Bytes → BuildError
  not_in_image : Bytes → BuildError

-- The arguments, with what the files that they name hold: the members of a tar, the files of a
-- directory in the order of `os.listdir`, those of the overlay in the order of `os.walk`. The
-- members of a package are empty where it is none.
pub record Args : Type 0 where
  pub rootfs : List Member
  pub apkdir : List (Bytes × Option (List (Bytes × List Member)))
  pub add : List Bytes
  pub add_data : List Bytes
  pub overlay : Option (List (Bytes × Bytes))
  pub dropped : List Bytes
  pub release : Bytes

abbrev pub of_tar {ℓ} : {A : Type ℓ} → Result TarError A → Result BuildError A
of_tar (ok a) = ok a
of_tar (err e) = err (tar_error e)

-- `a < b` for texts.
unfoldable pub before : Bytes → Bytes → Bool
before s [] = false
before [] (y ∷ ys) = true
before (x ∷ xs) (y ∷ ys) = ltb x y || x == y && before xs ys

unfoldable pub insert_sorted :
    Bytes × List Member → List (Bytes × List Member) → List (Bytes × List Member)
insert_sorted (f, ms) [] = (f, ms) ∷ []
insert_sorted (f, ms) ((g, ns) ∷ rest) =
    if before g f then (g, ns) ∷ insert_sorted (f, ms) rest else (f, ms) ∷ (g, ns) ∷ rest

-- `sorted(os.listdir(d))`
unfoldable pub sorted_files : List (Bytes × List Member) → List (Bytes × List Member)
sorted_files [] = []
sorted_files (f ∷ fs) = insert_sorted f (sorted_files fs)

unfoldable pub add_packages : List (Bytes × List Member) → Root → Result BuildError Root
add_packages [] r = ok r
add_packages ((f, members) ∷ rest) r =
    if ends_with f (codes ".apk")
    then (do r' ← of_tar (add_tar members true r); add_packages rest r')
    else add_packages rest r

-- `for d in a.apkdir`
unfoldable pub add_apkdirs :
    List (Bytes × Option (List (Bytes × List Member))) → Root → Result BuildError Root
add_apkdirs [] r = ok r
add_apkdirs ((d, none) ∷ ds) r = err (no_package_directory d)
add_apkdirs ((d, some listing) ∷ ds) r = do
  r' ← add_packages (sorted_files listing) r
  add_apkdirs ds r'

-- `s.split("/", n)[-1]`
unfoldable pub last_of_split : ℕ → Bytes → Bytes
last_of_split zero s = s
last_of_split (suc n) s = if among b'/' s then last_of_split n (partition b'/' s).1 else s

-- The destination, taken back from a shell that rewrote it.
unfoldable pub destination : Bytes → Bytes
destination dest = if among b':' dest then b'/' ∷ last_of_split 3 (partition b':' dest).1 else dest

-- `open(path, "rb").read()` is a parameter, `none` where it raises.
module _ (read_file : Bytes → Option Bytes) where
  unfoldable pub add_spec : ℕ → Bytes → Root → Result BuildError Root
  add_spec mode spec r =
      let (src, dest) = partition b'=' spec in
      if is_empty dest then err (not_a_spec spec) else elim (read_file src) [
        | none ↦ err (no_file src)
        | some bytes ↦ ok (file (destination dest) bytes mode r)
      ]

  unfoldable pub add_specs : ℕ → List Bytes → Root → Result BuildError Root
  add_specs mode [] r = ok r
  add_specs mode (spec ∷ specs) r = do r' ← add_spec mode spec r; add_specs mode specs r'

abbrev pub add_overlay : Option (List (Bytes × Bytes)) → Root → Root
add_overlay none r = r
add_overlay (some files) r = add_dir files 0o755 r

-- `for path in a.drop`
unfoldable pub drop_paths : List Bytes → Root → Result BuildError Root
drop_paths [] r = ok r
drop_paths (path ∷ paths) r =
    if contains (keys r.entries) (strip (codes "/") path)
    then drop_paths paths (record r { entries = pop (strip (codes "/") path) r.entries })
    else err (not_in_image path)

abbrev pub mount_points : List Bytes
mount_points =
    codes "proc"
    ∷ codes "sys"
    ∷ codes "dev"
    ∷ codes "dev/pts"
    ∷ codes "run"
    ∷ codes "tmp"
    ∷ codes "data"
    ∷ codes "android"
    ∷ codes "store"
    ∷ codes "mnt"
    ∷ []

unfoldable pub add_dirs : List Bytes → Root → Root
add_dirs [] r = r
add_dirs (d ∷ ds) r = add_dirs ds (dir d 0o755 r)

-- What `main` adds at the end.
unfoldable pub add_fixed : Bytes → Root → Root
add_fixed release r = file (codes "etc/techo5-release") (release ++ codes "\n") 0o644 (
    symlink (codes "etc/timezone") (codes "/data/misc/echolocal/timezone") (
      symlink (codes "etc/localtime") (codes "/data/misc/echolocal/localtime")
        (add_dirs mount_points r)))

-- `build_time` is what `time.strftime` gives.
module _ (read_file : Bytes → Option Bytes) (build_time : Bytes) where
  -- `main`, up to the tree that it writes out.
  unfoldable pub build : Args → Result BuildError Root
  build a = do
    r1 ← of_tar (add_tar a.rootfs true new_root)
    r2 ← add_apkdirs a.apkdir r1
    r3 ← add_specs read_file 0o755 a.add r2
    r4 ← add_specs read_file 0o644 a.add_data r3
    r5 ← drop_paths a.dropped (add_overlay a.overlay r4)
    ok (add_fixed (if is_empty a.release then build_time else a.release) r5)
