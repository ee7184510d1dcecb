-- ===== src/Tests/Booting.antt =====
-- tools/install-dot.py, the end of main: the first boot of a made-up unit.
use techo5_dot.Prelude.{
  ℕ, ◌&&◌, ◌*◌, ◌≤◌, ◌≡◌, refl, [], Bytes, codes, ltb, leb, split, lstrip, rstrip, among, same,
  starts_with, false, Bool, if◌then◌else◌, arith,
}
use techo5_dot.Asking.Units.{decimal}
use techo5_dot.Console.Unit.{includes}
use techo5_dot.Network.Wifi.{in_rescue, find_tries, number_behind_space, leading_digits}
use techo5_dot.FirstBoot.Answers.{word_then, last_value, kv_get, kv_or_empty}
use techo5_dot.FirstBoot.Watch.{done, stays_in_rescue, watch_loop, watch, port_loop, first_boot}
use techo5_dot.FirstBoot.Ends.{WatchEnd, watch-WatchEnd}
use techo5_dot.FirstBoot.Verdicts.{Justified, first_boot-Justified}

abbrev no_letter : ℕ → Bool
no_letter c = false

abbrev fifths : ℕ → ℕ
fifths n = 5 * n

-- Silent at first, then booting, then healthy.
abbrev boot_answers : ℕ → Bytes
boot_answers n =
    if ltb n 1
    then []
    else if ltb n 3
    then codes "slot=a\nip=\nechod=\ntries=TECHO5-TRIES 1 a"
    else codes "slot=a\nip=10.0.0.7 \nechod=812\ntries=TECHO5-TRIES 0 healthy"

abbrev port_answers : Bytes → ℕ → Bool
port_answers a n = same a (codes "10.0.0.7") && leb 2 n

abbrev stuck_answers : ℕ → Bytes
stuck_answers n = codes "slot=\ntries=TECHO5-TRIES 5 a"

fifths-le : (n : ℕ) → n ≤ fifths n
fifths-le n = omega arith

first_boot-Justified_example :
    Justified no_letter fifths boot_answers fifths port_answers []
      (first_boot no_letter fifths boot_answers fifths port_answers [])
first_boot-Justified_example =
    first_boot-Justified no_letter fifths boot_answers fifths port_answers [] fifths-le fifths-le

watch-WatchEnd_example :
    WatchEnd no_letter fifths boot_answers [] 0 (watch no_letter fifths boot_answers [])
watch-WatchEnd_example = watch-WatchEnd no_letter fifths boot_answers fifths-le []

boot_done :
    first_boot no_letter fifths boot_answers fifths port_answers [] ≡ done (codes "10.0.0.7")
unfolding first_boot watch watch_loop port_loop kv_or_empty kv_get last_value word_then split
    in_rescue find_tries number_behind_space leading_digits decimal includes starts_with among
    lstrip rstrip same
boot_done = refl

boot_stuck : first_boot no_letter fifths stuck_answers fifths port_answers [] ≡ stays_in_rescue
unfolding first_boot watch watch_loop port_loop kv_or_empty kv_get last_value word_then split
    in_rescue find_tries number_behind_space leading_digits decimal includes starts_with among
    lstrip rstrip same
boot_stuck = refl
