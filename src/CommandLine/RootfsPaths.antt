-- ===== src/CommandLine/RootfsPaths.antt =====
-- tools/linux/build-dot-rootfs.py: its options are ones that argparse reads.
use techo5_dot.Prelude.{
  ◌≡◌, refl, ap, List, [], ◌∷◌, ◌++◌, Bytes, codes, same, contains, starts_with, map, if◌then◌else◌,
  Bool, true, false, ok, ok_injective, arith,
}
use techo5_dot.Release.World.{path_join}
use techo5_dot.CommandLine.Options.{
  fits, all_values, all_values_both, is_value, fits-options_for, fits_both, fits_first, fits_none,
}
use techo5_dot.CommandLine.Paths.{is_path, append-is_path, is_path_value, path_join-is_path}
use techo5_dot.CommandLine.Rootfs.{
  Switches, Computer, busybox, modules, models, overlay, module_spec, license_files, model_spec,
  fixed_options, board_options, spotify_options, airplay_options, rootfs_options, only_one, alpines,
}
use techo5_dot.CommandLine.MkrootfsArgs.{mkrootfs_parser}
use techo5_dot.CommandLine.RootfsReads.{has_airplay}

-- The paths that the program is given are paths, and no file that it finds has one that starts with
-- a dash.
pub record HasPaths (c : Computer) (a : Switches) : Type 0 where
  pub here : is_path a.here ≡ true
  pub daemon : is_path a.daemon ≡ true
  pub wpa_supplicant : is_path a.wpa_supplicant ≡ true
  pub bt_modules : is_path a.bt_modules ≡ true
  pub wmtup : is_path a.wmtup ≡ true
  pub btbridge : is_path a.btbridge ≡ true
  pub librespot : is_path a.librespot ≡ true
  pub shairport : is_path a.shairport ≡ true
  pub nqptp : is_path a.nqptp ≡ true
  pub bluealsa : is_path a.bluealsa ≡ true
  pub inputs : is_path a.inputs ≡ true
  pub out : is_path a.out ≡ true
  pub tmp : is_path c.tmp ≡ true
  pub found_alpines : all_values (alpines c a) ≡ true
  pub found_models : all_values (map (model_spec c a) (models c a)) ≡ true
  pub found_licenses : (name : Bytes) → all_values (license_files c a name) ≡ true

module _ (c : Computer) (a : Switches) (paths : HasPaths c a) where
  module_spec-is_value : (m : Bytes) → is_value (module_spec c a (path_join a.bt_modules m)) ≡ true
  module_spec-is_value m = is_path_value (module_spec c a (path_join a.bt_modules m)) (
      append-is_path (path_join a.bt_modules m) _
        (path_join-is_path a.bt_modules m paths.bt_modules))

  modules-values : all_values (map (module_spec c a) (modules a)) ≡ true
  unfolding all_values
  modules-values =
      let x = module_spec-is_value (codes "cmac.ko") in
      let y = module_spec-is_value (codes "bluetooth.ko") in
      let z = module_spec-is_value (codes "hci_vhci.ko") in rw (x, y, z) refl

  board-fits : (donut : Bool) → fits mkrootfs_parser (board_options c a donut) ≡ true
  unfolding contains same
  board-fits true =
      fits_first mkrootfs_parser _ _ _ refl
        (is_path_value (a.wpa_supplicant ++ codes "=/sbin/wpa_supplicant")
          (append-is_path a.wpa_supplicant _ paths.wpa_supplicant))
        (fits-options_for mkrootfs_parser (codes "--data") _ refl modules-values)
  board-fits false =
      fits_first mkrootfs_parser _ _ _ refl
        (is_path_value (a.wmtup ++ codes "=/usr/local/bin/wmtup")
          (append-is_path a.wmtup _ paths.wmtup))
        (fits_none mkrootfs_parser)

  spotify-fits : (there : Bool) → fits mkrootfs_parser (spotify_options c a there) ≡ true
  unfolding contains same
  spotify-fits true =
      fits_first mkrootfs_parser _ _ _ refl
        (is_path_value (a.librespot ++ codes "=/usr/local/bin/techo5-librespot")
          (append-is_path a.librespot _ paths.librespot))
        (fits-options_for mkrootfs_parser (codes "--data") _ refl
          (paths.found_licenses (codes "librespot")))
  spotify-fits false = fits_none mkrootfs_parser

  airplay-fits : (there : Bool) → fits mkrootfs_parser (airplay_options c a there) ≡ true
  unfolding contains same
  airplay-fits true =
      fits_first mkrootfs_parser _ _ _ refl
        (is_path_value (a.shairport ++ codes "=/usr/local/bin/techo5-shairport-sync")
          (append-is_path a.shairport _ paths.shairport))
        (fits_first mkrootfs_parser _ _ _ refl
          (is_path_value (a.nqptp ++ codes "=/usr/local/bin/techo5-nqptp")
            (append-is_path a.nqptp _ paths.nqptp))
          (fits-options_for mkrootfs_parser (codes "--data") _ refl (
            all_values_both (license_files c a (codes "shairport-sync")) _
              (paths.found_licenses (codes "shairport-sync"))
              (all_values_both (license_files c a (codes "ffmpeg")) _
                (paths.found_licenses (codes "ffmpeg")) (paths.found_licenses (codes "nqptp"))))))
  airplay-fits false = fits_none mkrootfs_parser

  overlay-is_path :
      (donut : Bool)
      → is_path
          (if donut then path_join c.tmp (codes "overlay") else path_join a.here (codes "rootfs"))
        ≡ true
  overlay-is_path true = path_join-is_path c.tmp (codes "overlay") paths.tmp
  overlay-is_path false = path_join-is_path a.here (codes "rootfs") paths.here

  release_text-is_value :
      (donut : Bool) (rest : Bytes)
      → is_value ((if donut then codes "techo5-donut" else codes "techo5-dot") ++ rest) ≡ true
  unfolding starts_with
  release_text-is_value true rest = refl
  release_text-is_value false rest = refl

  fixed-fits :
      (base : Bytes) → is_value base ≡ true → fits mkrootfs_parser (fixed_options c a base) ≡ true
  unfolding contains same starts_with
  fixed-fits base found =
      let folder = λ (d : Bytes).
        is_path_value (path_join a.inputs d) (path_join-is_path a.inputs d paths.inputs) in
      fits_first mkrootfs_parser _ _ _ refl found (
        fits_first mkrootfs_parser _ _ _ refl (folder (codes "apks-dot")) (
          fits_first mkrootfs_parser _ _ _ refl (folder (codes "apks-bt-dot")) (
            fits_first mkrootfs_parser _ _ _ refl (folder (codes "apks-rootfs-dot")) (
              fits_first mkrootfs_parser _ _ _ refl
                (is_path_value (busybox a ++ codes "=/bin/busybox.static") (
                  append-is_path (busybox a) _
                    (path_join-is_path a.inputs (codes "busybox.static") paths.inputs)))
                (fits_first mkrootfs_parser _ _ _ refl
                  (is_path_value (a.daemon ++ codes "=/usr/local/bin/echod")
                    (append-is_path a.daemon _ paths.daemon))
                  (fits_first mkrootfs_parser _ _ _ refl
                    (is_path_value (a.btbridge ++ codes "=/usr/local/bin/btbridge")
                      (append-is_path a.btbridge _ paths.btbridge))
                    (fits_first mkrootfs_parser _ _ _ refl
                      (is_path_value (a.bluealsa ++ codes "=/usr/bin/bluealsa")
                        (append-is_path a.bluealsa _ paths.bluealsa))
                      (fits_first mkrootfs_parser _ _ _ refl
                        (is_path_value (overlay c a) (overlay-is_path a.donut))
                        (fits_first mkrootfs_parser _ _ _ refl refl (
                          fits_first mkrootfs_parser _ _ _ refl refl (
                            fits_first mkrootfs_parser _ _ _ refl (release_text-is_value a.donut _)
                              (fits_first mkrootfs_parser _ _ _ refl (is_path_value a.out paths.out)
                                (fits_none mkrootfs_parser)))))))))))))

  pub rootfs_options-fits :
      (base : Bytes) → is_value base ≡ true → fits mkrootfs_parser (rootfs_options c a base) ≡ true
  unfolding contains same
  rootfs_options-fits base found =
      fits_both mkrootfs_parser (fixed_options c a base) _ (fixed-fits base found) (
        fits_both mkrootfs_parser (board_options c a a.donut) _ (board-fits a.donut) (
          fits_both mkrootfs_parser (spotify_options c a (c.exists a.librespot)) _
            (spotify-fits (c.exists a.librespot))
            (fits_both mkrootfs_parser (airplay_options c a (has_airplay c a)) _
              (airplay-fits (has_airplay c a))
              (fits-options_for mkrootfs_parser (codes "--data") _ refl paths.found_models))))

  pub one_base :
      (bases : List Bytes) {base : Bytes} → only_one c a bases ≡ ok base → bases ≡ base ∷ []
  one_base [] h = absurd (ground arith)
  one_base (b ∷ []) h = ap (λ x. x ∷ []) (ok_injective h)
  one_base (b ∷ b' ∷ bs) h = absurd (ground arith)
