-- ===== src/Tests/Updating.antt =====
-- tools/update-boot.py: an update of a made-up unit.
use techo5_dot.Prelude.{
  ◌+◌, ◌≡◌, ◌≢◌, refl, [], Bytes, codes, length, drop, ◌++◌, true, if◌then◌else◌, if_both, some,
  none, ok, lstrip, rstrip, among, starts_with, ltb, arith,
}
use techo5_dot.Console.Unit.{includes}
use techo5_dot.Waits.Loops.{watch_boot, wait_for, wait_loop}
use techo5_dot.Update.Flash.{Disk, Hardware, flash}
use techo5_dot.Update.Session.{Remote, find_uuid, hex_run, update}
use techo5_dot.Update.BootId.{find_uuid-Found}
use techo5_dot.Update.Heard.{all_hex}
use techo5_dot.Update.Outcomes.{Outcome, flash-Outcome}
use techo5_dot.Update.Safe.{Finished, update-Finished}
use techo5_dot.Update.Progress.{GoesWell, update_works}

-- A sum that tells the images apart by their first letter.
abbrev toy_sum : Bytes → Bytes
toy_sum image = if starts_with image (codes "N") then codes "a1" else codes "b2"

abbrev good_hardware : Hardware
good_hardware = record {
  copy = λ image. (true, image);
  write = λ image part. (true, image ++ drop (length image) part);
}

abbrev old_id : Bytes
old_id = codes "01234567-89ab-cdef-0123-456789abcdef"

abbrev healthy_remote : Remote
healthy_remote = record {
  id_answer = (true, codes "01234567-89ab-cdef-0123-456789abcdef\n");
  sent = λ before. (true, some (codes "NEW"));
  hardware = good_hardware;
  elapsed = λ n. n + n;
  reply = λ n.
      if ltb n 2
      then codes "01234567-89ab-cdef-0123-456789abcdef healthy"
      else codes "fedcba98- healthy";
  moves = true;
}

abbrev kitchen_disk : Disk
kitchen_disk = record {
  next = none;
  linux = some (codes "OLD");
  prev = none;
  partition = codes "OLD....";
}

toy_sum_hex : (bs : Bytes) → all_hex (toy_sum bs) ≡ true
unfolding all_hex
toy_sum_hex bs =
    if_both (λ s. all_hex s ≡ true) (starts_with bs (codes "N")) (codes "a1") (codes "b2")
      (λ _. refl) (λ _. refl)

toy_sum_full : codes "a1" ≢ []
toy_sum_full e = absurd (ground arith)

flash-Outcome_example :
    Outcome toy_sum good_hardware
      (codes "a1")
      3
      kitchen_disk
      (flash toy_sum good_hardware (codes "a1") 3 kitchen_disk)
flash-Outcome_example = flash-Outcome toy_sum good_hardware (codes "a1") 3 kitchen_disk

update-Finished_example :
    Finished toy_sum healthy_remote
      (codes "a1")
      3
      kitchen_disk
      (update toy_sum healthy_remote (codes "a1") 3 kitchen_disk)
update-Finished_example =
    update-Finished toy_sum healthy_remote (codes "a1") 3 toy_sum_hex toy_sum_full kitchen_disk

found_id : find_uuid (codes "id: 01234567-89ab-cdef-0123-456789abcdef.") ≡ some old_id
unfolding find_uuid hex_run
found_id = refl

find_uuid-Found_example :
    (length old_id ≡ 36)
    × (includes (codes "id: 01234567-89ab-cdef-0123-456789abcdef.") old_id ≡ true)
find_uuid-Found_example =
    find_uuid-Found (codes "id: 01234567-89ab-cdef-0123-456789abcdef.") old_id found_id

kitchen_well :
    GoesWell toy_sum healthy_remote (codes "a1") (codes "NEW") (codes "OLD") old_id kitchen_disk
unfolding find_uuid hex_run all_hex starts_with watch_boot wait_for wait_loop includes lstrip rstrip
    among
kitchen_well = record {
  works = record { copies = λ image. refl; writes = λ image part. refl };
  known = refl;
  arrives = refl;
  before = refl;
  sum = refl;
  hex = refl;
  full = refl;
  healthy = refl;
  moved = refl;
}

update_works_example : update toy_sum healthy_remote (codes "a1") 3 kitchen_disk ≡ (
  ok tt,
  record {
    next = none;
    linux = some (codes "NEW");
    prev = some (codes "OLD");
    partition = codes "NEW....";
  },
)
update_works_example =
    update_works toy_sum healthy_remote (codes "a1") (codes "NEW") (codes "OLD") old_id kitchen_disk
      kitchen_well
