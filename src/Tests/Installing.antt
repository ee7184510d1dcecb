-- ===== src/Tests/Installing.antt =====
-- tools/install-dot.py, steps 5 to 7 of main: an installation of a made-up unit.
use techo5_dot.Prelude.{
  ap, partition, ◌≡◌, ◌≤◌, refl, [], ◌∷◌, Bytes, codes, true, false, some, none, ok, same,
  starts_with,
}
use techo5_dot.Console.Unit.{includes}
use techo5_dot.Install.Commands.{
  Plan, Command, write_back, install_slot, twrp_md5, reset_tries, reboot_recovery, shell_text,
  digits, format_d,
}
use techo5_dot.Install.Session.{Device, History}
use techo5_dot.Install.Steps.{read_back_fits, install}
use techo5_dot.Install.Protocol.{Ordered}
use techo5_dot.Install.Whole.{
  install-Ordered, install-Confirmed, Confirmed, Given, Replied-Given, write_back-bound,
}
use techo5_dot.Install.Progress.{AnswersWell, install_reboots}

abbrev kitchen_plan : Plan
kitchen_plan = record {
  donut = true;
  stage = codes "/cache/techo5";
  store = codes "/cache/store";
  by_name = codes "/dev/by-name";
  target = codes "swdl";
  image = codes "linux.img";
  image_size = 13000000;
  image_md5 = codes "0123abcd";
  busybox = codes "busybox";
  rootfs = codes "rootfs.tar.gz";
  work = codes "work";
  recovery = codes "recovery.img";
  recovery_md5 = codes "4567ef00";
  back_script = codes "back-to-linux.sh";
  provision_dir = codes "work/provision-one";
  ssh_key = none;
  wifi_conf = none;
  identity = none;
  for_someone_else = false;
  models = some (codes "alexa.tflite" ∷ []);
  dry_run = false;
}

kitchen_reply : Command → Bytes
kitchen_reply write_back = codes "0123abcd  -"
kitchen_reply install_slot = codes "slot a: techo5 1.0"
kitchen_reply twrp_md5 = codes "4567ef00  /cache/store/twrp.img"
kitchen_reply reset_tries = codes "TECHO5-TRIES 0 installed"
kitchen_reply _ = []

abbrev kitchen_unit : Device
kitchen_unit = record { reply = λ h c. kitchen_reply c; takes = λ h c. true }

kitchen_well : AnswersWell kitchen_unit kitchen_plan
unfolding includes starts_with same partition kitchen_reply
kitchen_well = record {
  taken = λ h c. refl;
  written = λ h. refl;
  slotted = λ h. refl;
  kept = λ h. refl;
  counted = λ h. refl;
}

kitchen_done : (install kitchen_unit kitchen_plan []).0 ≡ ok tt
kitchen_done = ap (λ r. r.0) (install_reboots kitchen_unit kitchen_plan kitchen_well refl refl).1

install-Ordered_example : Ordered kitchen_unit kitchen_plan (install kitchen_unit kitchen_plan []).1
install-Ordered_example = install-Ordered kitchen_unit kitchen_plan

install-Confirmed_example :
    Confirmed kitchen_unit kitchen_plan (install kitchen_unit kitchen_plan []).1
install-Confirmed_example = install-Confirmed kitchen_unit kitchen_plan refl kitchen_done

install_reboots_example :
    (before : History) × (install kitchen_unit kitchen_plan [] ≡ (ok tt, reboot_recovery ∷ before))
install_reboots_example = install_reboots kitchen_unit kitchen_plan kitchen_well refl refl

kitchen_written :
    Given kitchen_unit kitchen_plan write_back (install kitchen_unit kitchen_plan []).1
kitchen_written =
    Replied-Given kitchen_unit kitchen_plan write_back (read_back_fits kitchen_plan) _
      (install-Confirmed kitchen_unit kitchen_plan refl kitchen_done).0

write_back-bound_example : 13000000 ≤ 33554432
write_back-bound_example = write_back-bound kitchen_unit kitchen_plan refl kitchen_written

written_text :
    shell_text kitchen_plan write_back
    ≡ some (
        codes
          "chmod 755 /cache/techo5/busybox; dd if=/cache/store/linux.img of=/dev/by-name/swdl bs=1048576 2>/dev/null; sync; /cache/techo5/busybox head -c 13000000 /dev/by-name/swdl | md5sum")
unfolding shell_text format_d digits
written_text = refl
