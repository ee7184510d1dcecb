-- ===== src/CommandLine/RootfsReads.antt =====
-- tools/linux/build-dot-rootfs.py and tools/linux/mkrootfs.py: what mkrootfs.py reads.
use techo5_dot.Prelude.{
  ◌≡◌, refl, ap, ◌∙◌, List, [], ◌∷◌, ◌++◌, append-nil, Bytes, codes, same, map, if◌then◌else◌, Bool,
  true, false, ◌&&◌, none, some, ok, arith,
}
use techo5_dot.Release.World.{path_join}
use techo5_dot.CommandLine.Options.{
  all_of, last_of, all_of-append, last_of-append, all_of-options_for, last_of-options_for,
}
use techo5_dot.CommandLine.Rootfs.{
  Switches, Computer, busybox, modules, models, overlay, release_text, module_spec, license_files,
  model_spec, fixed_options, board_options, spotify_options, airplay_options, rootfs_options,
}
use techo5_dot.CommandLine.MkrootfsArgs.{RootfsGiven, mkrootfs_given, rootfs_given_with}

without_nils : (x y z : List Bytes) → (x ++ []) ++ ((y ++ []) ++ ((z ++ []) ++ [])) ≡ x ++ (y ++ z)
without_nils x y z = simp (append-nil)

module _ (c : Computer) (a : Switches) where
  abbrev pub has_airplay : Bool
  has_airplay = c.exists a.shairport && c.exists a.nqptp

  abbrev pub board_adds : Bool → List Bytes
  board_adds donut =
      if donut
      then (a.wpa_supplicant ++ codes "=/sbin/wpa_supplicant") ∷ []
      else (a.wmtup ++ codes "=/usr/local/bin/wmtup") ∷ []

  abbrev pub spotify_adds : Bool → List Bytes
  spotify_adds there =
      if there then (a.librespot ++ codes "=/usr/local/bin/techo5-librespot") ∷ [] else []

  abbrev pub airplay_adds : Bool → List Bytes
  airplay_adds there =
      if there
      then (a.shairport ++ codes "=/usr/local/bin/techo5-shairport-sync")
        ∷ (a.nqptp ++ codes "=/usr/local/bin/techo5-nqptp")
        ∷ []
      else []

  abbrev pub board_data : Bool → List Bytes
  board_data donut = if donut then map (module_spec c a) (modules a) else []

  abbrev pub spotify_data : Bool → List Bytes
  spotify_data there = if there then license_files c a (codes "librespot") else []

  abbrev pub airplay_data : Bool → List Bytes
  airplay_data there =
      if there
      then license_files c a (codes "shairport-sync")
        ++ (license_files c a (codes "ffmpeg") ++ license_files c a (codes "nqptp"))
      else []

  abbrev pub rootfs_meant : Bytes → RootfsGiven
  rootfs_meant base = record {
    rootfs = base;
    apkdir =
        path_join a.inputs (codes "apks-dot")
        ∷ path_join a.inputs (codes "apks-bt-dot")
        ∷ path_join a.inputs (codes "apks-rootfs-dot")
        ∷ [];
    add =
        (busybox a ++ codes "=/bin/busybox.static")
        ∷ (a.daemon ++ codes "=/usr/local/bin/echod")
        ∷ (a.btbridge ++ codes "=/usr/local/bin/btbridge")
        ∷ (a.bluealsa ++ codes "=/usr/bin/bluealsa")
        ∷ (board_adds a.donut ++ (spotify_adds (c.exists a.librespot) ++ airplay_adds has_airplay));
    add_data =
        board_data a.donut
        ++ (spotify_data (c.exists a.librespot)
            ++ (airplay_data has_airplay ++ map (model_spec c a) (models c a)));
    overlay = some (overlay c a);
    dropped =
        codes "etc/avahi/services/ssh.service" ∷ codes "etc/avahi/services/sftp-ssh.service" ∷ [];
    release = some (release_text c a);
    output = a.out;
  }

  -- What the options of the parts have under a name.
  all_of-board :
      (flag : Bytes) (donut : Bool)
      → all_of flag (board_options c a donut)
        ≡ (if same (codes "--add") flag then board_adds donut else [])
          ++ (if same (codes "--data") flag then board_data donut else [])
  unfolding all_of
  all_of-board flag true =
      let e = all_of-options_for flag (codes "--data") (map (module_spec c a) (modules a)) in
      ground arith
  all_of-board flag false = ground arith

  all_of-spotify :
      (flag : Bytes) (there : Bool)
      → all_of flag (spotify_options c a there)
        ≡ (if same (codes "--add") flag then spotify_adds there else [])
          ++ (if same (codes "--data") flag then spotify_data there else [])
  unfolding all_of
  all_of-spotify flag true =
      let e = all_of-options_for flag (codes "--data") (license_files c a (codes "librespot")) in
      ground arith
  all_of-spotify flag false = ground arith

  all_of-airplay :
      (flag : Bytes) (there : Bool)
      → all_of flag (airplay_options c a there)
        ≡ (if same (codes "--add") flag then airplay_adds there else [])
          ++ (if same (codes "--data") flag then airplay_data there else [])
  unfolding all_of
  all_of-airplay flag true =
      let e = all_of-options_for flag (codes "--data") (airplay_data true) in ground arith
  all_of-airplay flag false = ground arith

  last_of-board :
      (flag : Bytes) (donut : Bool)
      → same (codes "--add") flag ≡ false
      → same (codes "--data") flag ≡ false
      → last_of flag (board_options c a donut) ≡ none
  unfolding last_of
  last_of-board flag true no_add no_data =
      let e =
        last_of-options_for flag (codes "--data") (map (module_spec c a) (modules a)) no_data in
      ground arith
  last_of-board flag false no_add no_data = ground arith

  last_of-spotify :
      (flag : Bytes) (there : Bool)
      → same (codes "--add") flag ≡ false
      → same (codes "--data") flag ≡ false
      → last_of flag (spotify_options c a there) ≡ none
  unfolding last_of
  last_of-spotify flag true no_add no_data =
      let e =
        last_of-options_for flag (codes "--data") (license_files c a (codes "librespot")) no_data in
      ground arith
  last_of-spotify flag false no_add no_data = refl

  last_of-airplay :
      (flag : Bytes) (there : Bool)
      → same (codes "--add") flag ≡ false
      → same (codes "--data") flag ≡ false
      → last_of flag (airplay_options c a there) ≡ none
  unfolding last_of
  last_of-airplay flag true no_add no_data =
      let e = last_of-options_for flag (codes "--data") (airplay_data true) no_data in ground arith
  last_of-airplay flag false no_add no_data = refl

  last_of-rootfs_options :
      (base flag : Bytes)
      → same (codes "--add") flag ≡ false
      → same (codes "--data") flag ≡ false
      → last_of flag (rootfs_options c a base) ≡ last_of flag (fixed_options c a base)
  last_of-rootfs_options base flag no_add no_data =
      let b = last_of-board flag a.donut no_add no_data in
      let s = last_of-spotify flag (c.exists a.librespot) no_add no_data in
      let p = last_of-airplay flag has_airplay no_add no_data in
      let m =
        last_of-options_for flag (codes "--data") (map (model_spec c a) (models c a)) no_data in
      simp (last_of-append, b, s, p, m)

  all_of-rootfs_options :
      (base flag : Bytes)
      → all_of flag (rootfs_options c a base)
        ≡ all_of flag (fixed_options c a base)
          ++ (((if same (codes "--add") flag then board_adds a.donut else [])
                ++ (if same (codes "--data") flag then board_data a.donut else []))
              ++ (((if same (codes "--add") flag then spotify_adds (c.exists a.librespot) else [])
                    ++ (if same (codes "--data") flag
                        then spotify_data (c.exists a.librespot)
                        else []))
                  ++ (((if same (codes "--add") flag then airplay_adds has_airplay else [])
                        ++ (if same (codes "--data") flag then airplay_data has_airplay else []))
                      ++ (if same (codes "--data") flag
                          then map (model_spec c a) (models c a)
                          else []))))
  all_of-rootfs_options base flag =
      simp (all_of-append, all_of-board, all_of-spotify, all_of-airplay, all_of-options_for)

  mkrootfs_given-fields :
      (options : List (Bytes × Bytes)) (g : RootfsGiven)
      → last_of (codes "--rootfs") options ≡ some g.rootfs
      → last_of (codes "-o") options ≡ some g.output
      → last_of (codes "--overlay") options ≡ g.overlay
      → last_of (codes "--release") options ≡ g.release
      → all_of (codes "--apkdir") options ≡ g.apkdir
      → all_of (codes "--add") options ≡ g.add
      → all_of (codes "--data") options ≡ g.add_data
      → all_of (codes "--drop") options ≡ g.dropped
      → mkrootfs_given options ≡ ok g
  unfolding mkrootfs_given rootfs_given_with
  mkrootfs_given-fields options g h0 h1 h2 h3 h4 h5 h6 h7 = rw (h0, h1, h2, h3, h4, h5, h6, h7) refl

  -- The options stand for what they are meant for.
  pub mkrootfs_given-options :
      (base : Bytes) → mkrootfs_given (rootfs_options c a base) ≡ ok (rootfs_meant base)
  unfolding all_of last_of same
  mkrootfs_given-options base =
      let l = last_of-rootfs_options base in
      let f = all_of-rootfs_options base in
      mkrootfs_given-fields (rootfs_options c a base) (rootfs_meant base)
        (l (codes "--rootfs") refl refl) (l (codes "-o") refl refl)
        (l (codes "--overlay") refl refl) (l (codes "--release") refl refl) (f (codes "--apkdir"))
        (f (codes "--add")
          ∙ ap (λ t. all_of (codes "--add") (fixed_options c a base) ++ t)
              (without_nils (board_adds a.donut) (spotify_adds (c.exists a.librespot))
                (airplay_adds has_airplay)))
        (f (codes "--data")) (f (codes "--drop"))
