-- ===== src/CommandLine/MkrootfsArgs.antt =====
-- tools/linux/mkrootfs.py: the arguments of main, from its command line.
use techo5_dot.Prelude.{List, [], ◌∷◌, Bytes, codes, Option, none, some, Result, ok, err, ◌>>=◌}
use techo5_dot.CommandLine.Options.{Parser, UsageError, missing, read_options, all_of, last_of}

-- The arguments of mkrootfs.py, by their names.
pub record RootfsGiven : Type 0 where
  pub rootfs : Bytes
  pub apkdir : List Bytes
  pub add : List Bytes
  pub add_data : List Bytes
  pub overlay : Option Bytes
  pub dropped : List Bytes
  pub release : Option Bytes
  pub output : Bytes

abbrev pub mkrootfs_parser : Parser
mkrootfs_parser = record {
  valued =
      codes "--rootfs"
      ∷ codes "--apkdir"
      ∷ codes "--add"
      ∷ codes "--data"
      ∷ codes "--overlay"
      ∷ codes "--drop"
      ∷ codes "--release"
      ∷ codes "-o"
      ∷ [];
  switches = [];
}

unfoldable pub rootfs_given_with :
    List (Bytes × Bytes) → Option Bytes → Option Bytes → Result UsageError RootfsGiven
rootfs_given_with options none output = err (missing (codes "--rootfs"))
rootfs_given_with options (some rootfs) none = err (missing (codes "-o"))
rootfs_given_with options (some rootfs) (some output) = ok (record {
  rootfs = rootfs;
  apkdir = all_of (codes "--apkdir") options;
  add = all_of (codes "--add") options;
  add_data = all_of (codes "--data") options;
  overlay = last_of (codes "--overlay") options;
  dropped = all_of (codes "--drop") options;
  release = last_of (codes "--release") options;
  output = output;
})

unfoldable pub mkrootfs_given : List (Bytes × Bytes) → Result UsageError RootfsGiven
mkrootfs_given options =
    rootfs_given_with options (last_of (codes "--rootfs") options) (last_of (codes "-o") options)

-- What `ap.parse_args()` gives mkrootfs.py.
unfoldable pub mkrootfs_args : List Bytes → Result UsageError RootfsGiven
mkrootfs_args words = do options ← read_options mkrootfs_parser words; mkrootfs_given options
