-- ===== src/Install/Commands.antt =====
-- tools/install-dot.py, steps 5 to 7 of main: the commands for the unit, and their text.
use techo5_dot.Prelude.{
  ℕ, zero, suc, ◌+◌, ◌/◌, ◌%◌, ◌==◌, List, [], ◌∷◌, ◌++◌, Bytes, codes, if◌then◌else◌, Option, none,
  some, Bool,
}

-- Where things are on the unit, and what goes there. The images and scripts are paths on the
-- computer; `image_md5` and `recovery_md5` are what `md5` gives of two of them.
pub record Plan : Type 0 where
  pub donut : Bool
  pub stage : Bytes
  pub store : Bytes
  pub by_name : Bytes
  pub target : Bytes
  pub image : Bytes
  pub image_size : ℕ
  pub image_md5 : Bytes
  pub busybox : Bytes
  pub rootfs : Bytes
  pub work : Bytes
  pub recovery : Bytes
  pub recovery_md5 : Bytes
  pub back_script : Bytes
  pub provision_dir : Bytes
  pub ssh_key : Option Bytes
  pub wifi_conf : Option Bytes
  pub identity : Option (Bytes × Bytes)
  pub for_someone_else : Bool
  pub models : Option (List Bytes)
  pub dry_run : Bool

-- A shell command by its purpose, a push or the reboot over adb, or a change of a local file.
pub data Command : Type 0 where
  make_dirs write_back install_slot twrp_md5 make_ssh_dir read_keys : Command
  make_wifi_dir make_models_dir make_state_dir forget_owner make_model_dir chmod_models : Command
  reset_tries clean_up : Command
  chmod : Bytes → Bytes → Command
  push : Bytes → Bytes → Command
  reboot_recovery : Command
  write_local : Bytes → Bytes → Command
  remove_local : Bytes → Command
  make_local_dir remove_local_dir : Bytes → Command

infixr 66 ◌<>◌
abbrev pub ◌<>◌ : Bytes → Bytes → Bytes
a <> b = a ++ b

-- `'%d' % n`
unfoldable pub digits : ℕ → ℕ → Bytes → Bytes
digits zero n out = out
digits (suc fuel) n out =
    let more = digits fuel (n / 10) ((b'0' + n % 10) ∷ out) in
    if n / 10 == 0 then (b'0' + n % 10) ∷ out else more

unfoldable pub format_d : ℕ → Bytes
unfolding digits
format_d n = digits (suc n) n []

-- What `adb.sh` is given; the other commands are not for the shell.
unfoldable pub shell_text : Plan → Command → Option Bytes
shell_text p make_dirs = some (codes "mkdir -p " <> p.stage <> codes " " <> p.store)
shell_text p write_back = some (
    codes "chmod 755 "
    <> p.stage
    <> codes "/busybox; dd if="
    <> p.store
    <> codes "/linux.img of="
    <> p.by_name
    <> codes "/"
    <> p.target
    <> codes " bs=1048576 2>/dev/null; sync; "
    <> p.stage
    <> codes "/busybox head -c "
    <> format_d p.image_size
    <> codes " "
    <> p.by_name
    <> codes "/"
    <> p.target
    <> codes " | md5sum")
shell_text p install_slot = some (
    codes "sh " <> p.stage <> codes "/slot.sh " <> p.stage <> codes " " <> p.store <> codes " 2>&1")
shell_text p twrp_md5 = some (codes "md5sum " <> p.store <> codes "/twrp.img")
shell_text p make_ssh_dir =
    some (codes "mkdir -p /data/misc/echolocal/ssh; chmod 700 /data/misc/echolocal/ssh")
shell_text p read_keys = some (
    codes "cat /data/misc/echolocal/ssh/authorized_keys "
    <> codes "/data/techo5-linux/ssh/authorized_keys 2>/dev/null")
shell_text p make_wifi_dir = some (codes "mkdir -p /data/techo5-linux")
shell_text p make_models_dir =
    some (codes "mkdir -p /data/misc/echolocal/models; chmod 700 /data/misc/echolocal")
shell_text p make_state_dir =
    some (codes "mkdir -p /data/misc/echolocal; chmod 700 /data/misc/echolocal")
shell_text p forget_owner = some (
    codes "rm -f /data/misc/echolocal/name /data/misc/echolocal/psk "
    <> codes "/data/techo5-linux/wifi.conf")
shell_text p make_model_dir = some (codes "mkdir -p /data/misc/echolocal/models")
shell_text p chmod_models = some (codes "chmod 644 /data/misc/echolocal/models/*")
shell_text p reset_tries = some (
    codes "printf 'TECHO5-TRIES 0 installed\\n' | "
    <> p.stage
    <> codes "/busybox dd of="
    <> p.by_name
    <> codes "/misc bs=512 seek=14 count=1 2>/dev/null; sync; "
    <> p.stage
    <> codes "/busybox dd if="
    <> p.by_name
    <> codes "/misc bs=512 skip=14 count=1 2>/dev/null | "
    <> p.stage
    <> codes "/busybox tr -d '\\000' | "
    <> p.stage
    <> codes "/busybox head -n 1")
shell_text p clean_up = some (
    codes "rm -f "
    <> p.stage
    <> codes "/rootfs.tar.gz "
    <> p.stage
    <> codes "/busybox "
    <> p.stage
    <> codes "/slot.sh; sync")
shell_text p (chmod mode path) = some (codes "chmod " <> mode <> codes " " <> path)
shell_text p (push here there) = none
shell_text p reboot_recovery = none
shell_text p (write_local path text) = none
shell_text p (remove_local path) = none
shell_text p (make_local_dir path) = none
shell_text p (remove_local_dir path) = none
