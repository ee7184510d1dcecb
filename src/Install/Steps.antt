-- ===== src/Install/Steps.antt =====
-- tools/install-dot.py, steps 5 to 7 of main.
use techo5_dot.Prelude.{
  ℕ, ◌*◌, List, [], ◌∷◌, ◌++◌, Bytes, codes, if◌then◌else◌, ltb, same, starts_with, is_empty, Bool,
  true, false, not, ◌&&◌, Option, none, some, get_elem?,
}
use techo5_dot.Console.Unit.{includes}
use techo5_dot.Asking.Units.{words_from}
use techo5_dot.Release.World.{path_join, base_name}
use techo5_dot.Install.Commands.{
  Plan, make_dirs, write_back, install_slot, twrp_md5, make_ssh_dir, read_keys, make_wifi_dir,
  make_models_dir, make_state_dir, forget_owner, make_model_dir, chmod_models, reset_tries,
  clean_up, chmod, write_local, remove_local, make_local_dir, remove_local_dir,
}
use techo5_dot.Install.Session.{
  too_large, read_back_differs, slot_failed, twrp_differs, tries_not_reset, Device, M, ◌>>=◌, ◌>>◌,
  return, require, sh, do_sh, push_file, reboot, first_word,
}
use techo5_dot.Install.Script.{slot_script}

abbrev pub swdl_size : ℕ
swdl_size = 32 * 1024 * 1024

abbrev pub read_back_fits : Plan → Bytes → Bool
read_back_fits p got = same (first_word got) p.image_md5

abbrev pub slot_installed : Bytes → Bool
slot_installed result = includes result (codes "slot a: ")

abbrev pub twrp_fits : Plan → Bytes → Bool
twrp_fits p got = same (first_word got) p.recovery_md5

abbrev pub tries_reset : Bytes → Bool
tries_reset tries = starts_with tries (codes "TECHO5-TRIES 0")

abbrev pub second_word : Bytes → Bytes
second_word s = elim (get_elem? (words_from [] s) 1) [ none ↦ [] | some w ↦ w ]

-- `'\n'.join(x for x in (have, key) if x) + '\n'`
abbrev pub with_key : Bytes → Bytes → Bytes
with_key have key = (if is_empty have then key else have ++ (10 ∷ key)) ++ 10 ∷ []

abbrev pub keys_path : Bytes
keys_path = codes "/data/misc/echolocal/ssh/authorized_keys"

abbrev pub models_path : Bytes
models_path = codes "/data/misc/echolocal/models/"

module _ (u : Device) (p : Plan) where
  -- Step 5: the image into the store and the partition, and back.
  unfoldable pub write_image : M (Unit {0})
  write_image = do
    require (not (p.donut && ltb swdl_size p.image_size)) too_large
    do_sh u make_dirs
    push_file u p.image (p.store ++ codes "/linux.img")
    push_file u p.busybox (p.stage ++ codes "/busybox")
    got ← sh u write_back
    require (read_back_fits p got) read_back_differs

  -- Step 6: the root filesystem into slot a, and the way back to TWRP.
  unfoldable pub fill_slot : M (Unit {0})
  fill_slot = do
    push_file u p.rootfs (p.stage ++ codes "/rootfs.tar.gz")
    do_sh u (write_local (path_join p.work (codes "techo5-dot-slot.sh")) slot_script)
    push_file u (path_join p.work (codes "techo5-dot-slot.sh")) (p.stage ++ codes "/slot.sh")
    do_sh u (remove_local (path_join p.work (codes "techo5-dot-slot.sh")))
    result ← sh u install_slot
    require (slot_installed result) slot_failed

  unfoldable pub keep_twrp : M (Unit {0})
  keep_twrp = do
    push_file u p.recovery (p.store ++ codes "/twrp.img")
    got ← sh u twrp_md5
    require (twrp_fits p got) twrp_differs
    push_file u p.back_script (p.store ++ codes "/back-to-linux.sh")

  -- `push_text`, with its default mode.
  unfoldable pub push_text : Bytes → Bytes → M (Unit {0})
  push_text text remote = do
    do_sh u (write_local (path_join p.provision_dir (base_name remote)) text)
    push_file u (path_join p.provision_dir (base_name remote)) remote
    do_sh u (remove_local (path_join p.provision_dir (base_name remote)))
    do_sh u (chmod (codes "600") remote)

  unfoldable pub allow_key : Option Bytes → M (Unit {0})
  allow_key none = return tt
  allow_key (some key) = do
    have ← sh u read_keys
    if includes have (second_word key) then return tt else push_text (with_key have key) keys_path

  unfoldable pub join_wifi : Option Bytes → M (Unit {0})
  join_wifi none = return tt
  join_wifi (some conf) = do
    do_sh u make_wifi_dir
    push_text conf (codes "/data/techo5-linux/wifi.conf")

  unfoldable pub name_it : Option (Bytes × Bytes) → M (Unit {0})
  name_it none = return tt
  name_it (some (name, psk)) = do
    do_sh u make_models_dir
    push_text name (codes "/data/misc/echolocal/name")
    push_text psk (codes "/data/misc/echolocal/psk")

  unfoldable pub give_away : Bool → M (Unit {0})
  give_away false = return tt
  give_away true = do
    do_sh u make_state_dir
    push_text [] (codes "/data/misc/echolocal/firstrun")
    do_sh u forget_owner
    do_sh u make_wifi_dir
    push_text (codes "ctrl_interface=/run/wpa\nupdate_config=0\n")
        (codes "/data/techo5-linux/wpa_supplicant.conf")

  unfoldable pub push_models : List Bytes → M (Unit {0})
  push_models [] = return tt
  push_models (m ∷ ms) = do
    push_file u (path_join (path_join p.work (codes "models")) m) (models_path ++ m)
    push_models ms

  unfoldable pub add_models : Option (List Bytes) → M (Unit {0})
  add_models none = return tt
  add_models (some ms) = do do_sh u make_model_dir; push_models ms; do_sh u chmod_models

  -- What goes to userdata.
  unfoldable pub provision : M (Unit {0})
  provision = do
    do_sh u (make_local_dir p.provision_dir)
    do_sh u make_ssh_dir
    allow_key p.ssh_key
    join_wifi p.wifi_conf
    name_it p.identity
    give_away p.for_someone_else
    add_models p.models
    do_sh u (remove_local_dir p.provision_dir)

  -- Step 7: the boot count, and the reboot.
  unfoldable pub arm : M (Unit {0})
  arm = do
    tries ← sh u reset_tries
    require (tries_reset tries) tries_not_reset
    do_sh u clean_up
    reboot u

  -- Steps 5 to 7, which a dry run leaves out.
  unfoldable pub install : M (Unit {0})
  install = if p.dry_run then return tt else (do write_image; fill_slot; keep_twrp; provision; arm)
