-- ===== src/CommandLine/MkimageArgs.antt =====
-- tools/linux/mkimage.py: the arguments of main, from its command line.
use techo5_dot.Prelude.{
  List, [], ◌∷◌, Bytes, codes, Bool, Option, none, some, Result, ok, err, ◌>>=◌,
}
use techo5_dot.Initramfs.Build.{is_given}
use techo5_dot.CommandLine.Options.{Parser, UsageError, missing, read_options, all_of, last_of}

-- The arguments of mkimage.py, by their names.
pub record Given : Type 0 where
  pub kernel_image : Bytes
  pub kernel : Option Bytes
  pub rootfs : Option Bytes
  pub minimal : Bool
  pub init : Bytes
  pub add : List Bytes
  pub apk : List Bytes
  pub copied : List Bytes
  pub script : List Bytes
  pub cmdline_append : Option Bytes
  pub cmdline_drop : List Bytes
  pub ramdisk_addr : Option Bytes
  pub max_size : Option Bytes
  pub compress : Option Bytes
  pub ramdisk_file : Option Bytes
  pub output : Bytes
  pub ramdisk_out : Option Bytes

abbrev pub mkimage_parser : Parser
mkimage_parser = record {
  valued =
      codes "--kernel-image"
      ∷ codes "--kernel"
      ∷ codes "--rootfs"
      ∷ codes "--init"
      ∷ codes "--add"
      ∷ codes "--apk"
      ∷ codes "--copy"
      ∷ codes "--script"
      ∷ codes "--cmdline-append"
      ∷ codes "--cmdline-drop"
      ∷ codes "--ramdisk-addr"
      ∷ codes "--max-size"
      ∷ codes "--compress"
      ∷ codes "--ramdisk-file"
      ∷ codes "-o"
      ∷ codes "--ramdisk-out"
      ∷ [];
  switches = codes "--minimal" ∷ [];
}

-- The three that are required, and the rest of the options.
unfoldable pub given_with :
    List (Bytes × Bytes) → Option Bytes → Option Bytes → Option Bytes → Result UsageError Given
given_with options none init output = err (missing (codes "--kernel-image"))
given_with options (some kernel_image) none output = err (missing (codes "--init"))
given_with options (some kernel_image) (some init) none = err (missing (codes "-o"))
given_with options (some kernel_image) (some init) (some output) = ok (record {
  kernel_image = kernel_image;
  kernel = last_of (codes "--kernel") options;
  rootfs = last_of (codes "--rootfs") options;
  minimal = is_given (last_of (codes "--minimal") options);
  init = init;
  add = all_of (codes "--add") options;
  apk = all_of (codes "--apk") options;
  copied = all_of (codes "--copy") options;
  script = all_of (codes "--script") options;
  cmdline_append = last_of (codes "--cmdline-append") options;
  cmdline_drop = all_of (codes "--cmdline-drop") options;
  ramdisk_addr = last_of (codes "--ramdisk-addr") options;
  max_size = last_of (codes "--max-size") options;
  compress = last_of (codes "--compress") options;
  ramdisk_file = last_of (codes "--ramdisk-file") options;
  output = output;
  ramdisk_out = last_of (codes "--ramdisk-out") options;
})

unfoldable pub mkimage_given : List (Bytes × Bytes) → Result UsageError Given
mkimage_given options =
    given_with options (last_of (codes "--kernel-image") options) (last_of (codes "--init") options)
      (last_of (codes "-o") options)

-- What `ap.parse_args()` gives mkimage.py.
unfoldable pub mkimage_args : List Bytes → Result UsageError Given
mkimage_args words = do options ← read_options mkimage_parser words; mkimage_given options
