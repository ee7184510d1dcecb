-- ===== src/CommandLine/Meant.antt =====
-- tools/dotimage.py: the command line that build_boot_image makes, as options with their values.
use techo5_dot.Prelude.{
  ◌≡◌, refl, sym, ◌∙◌, List, [], ◌∷◌, ◌++◌, Bytes, codes, starts_with, ends_with, map,
  if◌then◌else◌, Bool, true, false, not, ◌&&◌, Option, none, some, Result, ok, err, ok_injective,
  ◌>>=◌, arith,
}
use techo5_dot.Release.World.{path_join}
use techo5_dot.Cpio.Tree.{Member}
use techo5_dot.CommandLine.Options.{words_of, options_for, option_if, words_both}
use techo5_dot.CommandLine.Packages.{SwapError}
use techo5_dot.CommandLine.BootImage.{
  Inputs, sorted, donut_ramdisk_addr, init_path, swapped_path, first_words, wmtup_words,
  address_words, kernel_words, tools, tool_spec, tool_words, behind, is_swapped, swap_package,
  after_swap, apk_words, mkimage_words,
}

abbrev pub wmtup_spec : Option Bytes → Option Bytes
wmtup_spec none = none
wmtup_spec (some wmtup) = some (wmtup ++ codes "=/usr/local/bin/wmtup")

abbrev pub address : Bool → Option Bytes
address donut = if donut then some donut_ramdisk_addr else none

-- The packages that go into the image: on the Echo Dot 3 its own copy in the place of wpa_supplicant's.
unfoldable pub chosen_apks : Inputs → List Bytes → List Bytes
chosen_apks i [] = []
chosen_apks i (apk ∷ names) =
    let rest = chosen_apks i names in
    if not (ends_with apk (codes ".apk"))
    then rest
    else if i.donut && starts_with apk (codes "wpa_supplicant-")
    then swapped_path i ∷ rest
    else path_join i.apks apk ∷ rest

abbrev pub first_options : Inputs → List (Bytes × Bytes)
first_options i =
    (codes "--kernel-image", i.recovery)
    ∷ (codes "--rootfs", i.alpine_tgz)
    ∷ (codes "--init", init_path i)
    ∷ (codes "--add", i.busybox ++ codes "=/bin/busybox.static")
    ∷ (codes "--cmdline-drop", codes "skip_initramfs")
    ∷ (codes "--cmdline-drop", codes "root=")
    ∷ (codes "--cmdline-drop", codes "dm=")
    ∷ (codes "--cmdline-append", codes "techo5.stay_minutes=15")
    ∷ (codes "-o", i.out)
    ∷ []

-- The options that the command line stands for.
abbrev pub mkimage_options : Inputs → List Bytes → List (Bytes × Bytes)
mkimage_options i names =
    first_options i
    ++ (option_if (codes "--add") (wmtup_spec i.wmtup)
        ++ (option_if (codes "--ramdisk-addr") (address i.donut)
            ++ (option_if (codes "--kernel") i.kernel
                ++ (options_for (codes "--apk") (chosen_apks i names)
                    ++ options_for (codes "--script") (map (tool_spec i.linux) tools)))))

wmtup_words-options :
    (o : Option Bytes) → wmtup_words o ≡ words_of (option_if (codes "--add") (wmtup_spec o))
unfolding words_of
wmtup_words-options none = refl
wmtup_words-options (some wmtup) = refl

address_words-options :
    (donut : Bool)
    → address_words donut ≡ words_of (option_if (codes "--ramdisk-addr") (address donut))
unfolding words_of
address_words-options true = refl
address_words-options false = refl

kernel_words-options :
    (o : Option Bytes) → kernel_words o ≡ words_of (option_if (codes "--kernel") o)
unfolding words_of
kernel_words-options none = refl
kernel_words-options (some kernel) = refl

tool_words-options :
    (linux : Bytes) (ts : List Bytes)
    → tool_words linux ts ≡ words_of (options_for (codes "--script") (map (tool_spec linux) ts))
unfolding words_of options_for tool_words
tool_words-options linux [] = refl
tool_words-options linux (t ∷ ts) = cc (tool_words-options linux ts)

module _ (packages : Bytes → List Member) (i : Inputs) where
  behind-ok :
      (v : Bytes) (r : Result SwapError (List Bytes)) (words vs : List Bytes)
      → behind (codes "--apk" ∷ v ∷ []) r ≡ ok words
      → ((more : List Bytes) → r ≡ ok more → more ≡ words_of (options_for (codes "--apk") vs))
      → words ≡ words_of (options_for (codes "--apk") (v ∷ vs))
  unfolding words_of options_for
  behind-ok v (ok more) words vs h later = let e = later more refl in cc
  behind-ok v (err e) words vs h later = absurd (ground arith)

  after_swap-ok :
      (s : Result SwapError (List Member)) (r : Result SwapError (List Bytes))
      (words vs : List Bytes)
      → after_swap packages i s r ≡ ok words
      → ((more : List Bytes) → r ≡ ok more → more ≡ words_of (options_for (codes "--apk") vs))
      → words ≡ words_of (options_for (codes "--apk") (swapped_path i ∷ vs))
  after_swap-ok (ok members) r words vs h later = behind-ok (swapped_path i) r words vs h later
  after_swap-ok (err e) r words vs h later = absurd (ground arith)

  one_package :
      (skipped swapped : Bool) (apk : Bytes) (r : Result SwapError (List Bytes))
      (words vs : List Bytes)
      → (if skipped
          then r
          else if swapped
          then after_swap packages i (swap_package packages i apk) r
          else behind (codes "--apk" ∷ path_join i.apks apk ∷ []) r)
        ≡ ok words
      → ((more : List Bytes) → r ≡ ok more → more ≡ words_of (options_for (codes "--apk") vs))
      → words
        ≡ words_of (
            options_for (codes "--apk") (
              if skipped
              then vs
              else if swapped
              then swapped_path i ∷ vs
              else path_join i.apks apk ∷ vs))
  one_package true swapped apk r words vs h later = later words h
  one_package false true apk r words vs h later =
      after_swap-ok (swap_package packages i apk) r words vs h later
  one_package false false apk r words vs h later =
      behind-ok (path_join i.apks apk) r words vs h later

  apk_words-options :
      (names words : List Bytes)
      → apk_words packages i names ≡ ok words
      → words ≡ words_of (options_for (codes "--apk") (chosen_apks i names))
  unfolding apk_words chosen_apks words_of options_for
  apk_words-options [] words h = sym (ok_injective h)
  apk_words-options (apk ∷ names) words h =
      one_package (not (ends_with apk (codes ".apk"))) (is_swapped packages i apk) apk
        (apk_words packages i names) words (chosen_apks i names) h
        (λ more e. apk_words-options names more e)

bind_ok :
    (r : Result SwapError (List Bytes)) (f : List Bytes → List Bytes) {words : List Bytes}
    → (r >>= λ apks. ok (f apks)) ≡ ok words
    → (apks : List Bytes) × ((r ≡ ok apks) × (f apks ≡ words))
bind_ok (ok apks) f h = (apks, (refl, ok_injective h))
bind_ok (err e) f h = absurd (ground arith)

first_words-options : (i : Inputs) → first_words i ≡ words_of (first_options i)
unfolding words_of
first_words-options i = refl

pub mkimage_words-options :
    (packages : Bytes → List Member) (i : Inputs) (listing words : List Bytes)
    → mkimage_words packages i listing ≡ ok words
    → words ≡ words_of (mkimage_options i (sorted listing))
unfolding mkimage_words
mkimage_words-options packages i listing words h =
    let b = bind_ok (apk_words packages i (sorted listing)) _ h in
    let s = apk_words-options packages i (sorted listing) b.0 b.1.0 in
    let w = wmtup_words-options i.wmtup in
    let d = address_words-options i.donut in
    let k = kernel_words-options i.kernel in
    let t = tool_words-options i.linux tools in
    sym b.1.1
    ∙ words_both (first_options i) _ (first_words-options i)
        (words_both _ _ w (words_both _ _ d (words_both _ _ k (words_both _ _ s t))))
