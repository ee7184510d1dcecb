-- ===== src/CommandLine/Reads.antt =====
-- tools/dotimage.py and tools/linux/mkimage.py: mkimage.py reads what build_boot_image means.
use techo5_dot.Prelude.{
  ◌≡◌, refl, ap, ◌∙◌, List, [], ◌∷◌, ◌++◌, append-nil, Bytes, codes, same, contains, starts_with,
  ends_with, map, if◌then◌else◌, if_both, Bool, true, false, not, ◌&&◌, none, some, ok, arith,
}
use techo5_dot.Initramfs.Build.{is_given}
use techo5_dot.Cpio.Tree.{Member}
use techo5_dot.CommandLine.Options.{
  is_value, all_of, last_of, fits, list_of, all_values, or_else, or_else-none,
  read_options-words_of, fits_both, fits_first, fits_none, all_of-append, last_of-append,
  all_of-options_for, last_of-options_for, last_of-option_if, all_of-option_if, fits-options_for,
  fits-option_if,
}
use techo5_dot.CommandLine.BootImage.{Inputs, sorted, init_path, tools, tool_spec, mkimage_words}
use techo5_dot.CommandLine.MkimageArgs.{
  Given, mkimage_parser, mkimage_given, given_with, mkimage_args,
}
use techo5_dot.CommandLine.Paths.{is_path, append-is_path, is_path_value, path_join-is_path}
use techo5_dot.CommandLine.Meant.{
  wmtup_spec, address, chosen_apks, first_options, mkimage_options, mkimage_words-options,
}

tool_spec-is_value : (linux t : Bytes) → is_path linux ≡ true → is_value (tool_spec linux t) ≡ true
tool_spec-is_value linux t h = is_path_value _ (
    append-is_path _ _ (
      path_join-is_path _ t (
        path_join-is_path _ _
          (path_join-is_path _ _ (path_join-is_path _ _ (path_join-is_path linux _ h))))))

-- The paths that the program is given are paths.
pub record HasPaths (i : Inputs) : Type 0 where
  pub linux : is_path i.linux ≡ true
  pub recovery : is_path i.recovery ≡ true
  pub out : is_path i.out ≡ true
  pub alpine_tgz : is_path i.alpine_tgz ≡ true
  pub busybox : is_path i.busybox ≡ true
  pub apks : is_path i.apks ≡ true
  pub wmtup : all_values (list_of (wmtup_spec i.wmtup)) ≡ true
  pub kernel : all_values (list_of i.kernel) ≡ true

chosen_apks-values :
    (i : Inputs) → HasPaths i → (names : List Bytes) → all_values (chosen_apks i names) ≡ true
unfolding chosen_apks all_values
chosen_apks-values i ok_i [] = refl
chosen_apks-values i ok_i (apk ∷ names) =
    let later = chosen_apks-values i ok_i names in
    if_both (λ vs. all_values vs ≡ true) (not (ends_with apk (codes ".apk"))) _ _ (λ e. later)
      (λ e.
        if_both (λ vs. all_values vs ≡ true) (i.donut && starts_with apk (codes "wpa_supplicant-"))
          _ _
          (λ s.
            let here =
              is_path_value _ (append-is_path i.out (codes ".wpa_supplicant.tar.gz") ok_i.out) in
            ground arith)
          (λ s.
            let here = is_path_value _ (path_join-is_path i.apks apk ok_i.apks) in ground arith))

address-values : (donut : Bool) → all_values (list_of (address donut)) ≡ true
unfolding all_values starts_with
address-values true = refl
address-values false = refl

tools-values :
    (linux : Bytes) (ts : List Bytes)
    → is_path linux ≡ true
    → all_values (map (tool_spec linux) ts) ≡ true
unfolding all_values
tools-values linux [] h = refl
tools-values linux (t ∷ ts) h =
    let here = tool_spec-is_value linux t h in let later = tools-values linux ts h in ground arith

first_options-fits : (i : Inputs) → HasPaths i → fits mkimage_parser (first_options i) ≡ true
unfolding contains same starts_with
first_options-fits i ok_i =
    fits_first mkimage_parser _ _ _ refl (is_path_value i.recovery ok_i.recovery) (
      fits_first mkimage_parser _ _ _ refl (is_path_value i.alpine_tgz ok_i.alpine_tgz) (
        fits_first mkimage_parser _ _ _ refl
          (is_path_value (init_path i) (
            path_join-is_path i.linux (if i.donut then codes "init-donut" else codes "init")
              ok_i.linux))
          (fits_first mkimage_parser _ _ _ refl
            (is_path_value (i.busybox ++ codes "=/bin/busybox.static")
              (append-is_path i.busybox (codes "=/bin/busybox.static") ok_i.busybox))
            (fits_first mkimage_parser _ _ _ refl refl (
              fits_first mkimage_parser _ _ _ refl refl (
                fits_first mkimage_parser _ _ _ refl refl (
                  fits_first mkimage_parser _ _ _ refl refl (
                    fits_first mkimage_parser _ _ _ refl (is_path_value i.out ok_i.out)
                      (fits_none mkimage_parser)))))))))

mkimage_options-fits :
    (i : Inputs)
    → HasPaths i
    → (names : List Bytes) → fits mkimage_parser (mkimage_options i names) ≡ true
unfolding contains same
mkimage_options-fits i ok_i names =
    fits_both mkimage_parser (first_options i) _ (first_options-fits i ok_i) (
      fits_both mkimage_parser _ _ (fits-option_if mkimage_parser (codes "--add") _ refl ok_i.wmtup)
        (fits_both mkimage_parser _ _
          (fits-option_if mkimage_parser (codes "--ramdisk-addr") _ refl (address-values i.donut))
          (fits_both mkimage_parser _ _
            (fits-option_if mkimage_parser (codes "--kernel") _ refl ok_i.kernel)
            (fits_both mkimage_parser _ _
              (fits-options_for mkimage_parser (codes "--apk") _ refl
                (chosen_apks-values i ok_i names))
              (fits-options_for mkimage_parser (codes "--script") _ refl
                (tools-values i.linux tools ok_i.linux))))))

last_of-mkimage_options :
    (i : Inputs) (names : List Bytes) (flag : Bytes)
    → same (codes "--apk") flag ≡ false
    → same (codes "--script") flag ≡ false
    → last_of flag (mkimage_options i names)
      ≡ or_else
          (or_else
            (or_else
              (if same (codes "--kernel") flag then i.kernel else none)
              (if same (codes "--ramdisk-addr") flag then address i.donut else none))
            (if same (codes "--add") flag then wmtup_spec i.wmtup else none))
          (last_of flag (first_options i))
last_of-mkimage_options i names flag no_apk no_script =
    let a = last_of-options_for flag (codes "--apk") (chosen_apks i names) no_apk in
    let s = last_of-options_for flag (codes "--script") (map (tool_spec i.linux) tools) no_script in
    simp (last_of-append, last_of-option_if, a, s)

all_of-mkimage_options :
    (i : Inputs) (names : List Bytes) (flag : Bytes)
    → all_of flag (mkimage_options i names)
      ≡ all_of flag (first_options i)
        ++ ((if same (codes "--add") flag then list_of (wmtup_spec i.wmtup) else [])
            ++ ((if same (codes "--ramdisk-addr") flag then list_of (address i.donut) else [])
                ++ ((if same (codes "--kernel") flag then list_of i.kernel else [])
                    ++ ((if same (codes "--apk") flag then chosen_apks i names else [])
                        ++ (if same (codes "--script") flag
                            then map (tool_spec i.linux) tools
                            else [])))))
all_of-mkimage_options i names flag = simp (all_of-append, all_of-option_if, all_of-options_for)

-- What each option of a list has says what its arguments are.
mkimage_given-fields :
    (options : List (Bytes × Bytes)) (g : Given)
    → last_of (codes "--kernel-image") options ≡ some g.kernel_image
    → last_of (codes "--init") options ≡ some g.init
    → last_of (codes "-o") options ≡ some g.output
    → last_of (codes "--kernel") options ≡ g.kernel
    → last_of (codes "--rootfs") options ≡ g.rootfs
    → last_of (codes "--cmdline-append") options ≡ g.cmdline_append
    → last_of (codes "--ramdisk-addr") options ≡ g.ramdisk_addr
    → last_of (codes "--max-size") options ≡ g.max_size
    → last_of (codes "--compress") options ≡ g.compress
    → last_of (codes "--ramdisk-file") options ≡ g.ramdisk_file
    → last_of (codes "--ramdisk-out") options ≡ g.ramdisk_out
    → is_given (last_of (codes "--minimal") options) ≡ g.minimal
    → all_of (codes "--add") options ≡ g.add
    → all_of (codes "--apk") options ≡ g.apk
    → all_of (codes "--copy") options ≡ g.copied
    → all_of (codes "--script") options ≡ g.script
    → all_of (codes "--cmdline-drop") options ≡ g.cmdline_drop
    → mkimage_given options ≡ ok g
unfolding mkimage_given given_with
mkimage_given-fields options g h0 h1 h2 h3 h4 h5 h6 h7 h8 h9 h10 h11 h12 h13 h14 h15 h16 =
    rw (h0, h1, h2, h3, h4, h5, h6, h7, h8, h9, h10, h11, h12, h13, h14, h15, h16) refl

-- What build_boot_image means mkimage.py to get.
abbrev pub meant : Inputs → List Bytes → Given
meant i names = record {
  kernel_image = i.recovery;
  kernel = i.kernel;
  rootfs = some i.alpine_tgz;
  minimal = false;
  init = init_path i;
  add = (i.busybox ++ codes "=/bin/busybox.static") ∷ list_of (wmtup_spec i.wmtup);
  apk = chosen_apks i names;
  copied = [];
  script = map (tool_spec i.linux) tools;
  cmdline_append = some (codes "techo5.stay_minutes=15");
  cmdline_drop = codes "skip_initramfs" ∷ codes "root=" ∷ codes "dm=" ∷ [];
  ramdisk_addr = address i.donut;
  max_size = none;
  compress = none;
  ramdisk_file = none;
  output = i.out;
  ramdisk_out = none;
}

mkimage_given-options :
    (i : Inputs) (names : List Bytes) → mkimage_given (mkimage_options i names) ≡ ok (meant i names)
unfolding all_of last_of same chosen_apks
mkimage_given-options i names =
    let l = last_of-mkimage_options i names in
    let a = all_of-mkimage_options i names in
    mkimage_given-fields (mkimage_options i names) (meant i names)
      (l (codes "--kernel-image") refl refl) (l (codes "--init") refl refl)
      (l (codes "-o") refl refl)
      (l (codes "--kernel") refl refl ∙ or_else-none _ ∙ or_else-none _ ∙ or_else-none i.kernel)
      (l (codes "--rootfs") refl refl) (l (codes "--cmdline-append") refl refl)
      (l (codes "--ramdisk-addr") refl refl ∙ or_else-none _ ∙ or_else-none (address i.donut))
      (l (codes "--max-size") refl refl) (l (codes "--compress") refl refl)
      (l (codes "--ramdisk-file") refl refl) (l (codes "--ramdisk-out") refl refl)
      (ap is_given (l (codes "--minimal") refl refl))
      (a (codes "--add") ∙ ap (λ x. (i.busybox ++ codes "=/bin/busybox.static") ∷ x) (append-nil _))
      (a (codes "--apk") ∙ append-nil _) (a (codes "--copy")) (a (codes "--script"))
      (a (codes "--cmdline-drop"))

-- mkimage.py reads the command line that build_boot_image makes as it is meant: the header and kernel
-- of the unit's backup or the kernel given, the packages in order with the Echo Dot 3's own
-- wpa_supplicant in the place of Alpine's, the tools, and the address only on the Echo Dot 3.
pub mkimage_args-mkimage_words :
    (packages : Bytes → List Member) (i : Inputs) (listing : List Bytes) {words : List Bytes}
    → HasPaths i
    → mkimage_words packages i listing ≡ ok words
    → mkimage_args words ≡ ok (meant i (sorted listing))
unfolding mkimage_args
mkimage_args-mkimage_words packages i listing {words} paths h =
    let e = mkimage_words-options packages i listing words h in
    let r =
      read_options-words_of mkimage_parser (mkimage_options i (sorted listing))
        (mkimage_options-fits i paths (sorted listing)) in
    rw (e, r) (mkimage_given-options i (sorted listing))
