-- ===== src/Tests/Consoles.antt =====
-- tools/techo5lib.py: questions and consoles on small inputs.
use techo5_dot.Prelude.{
  ℕ, ◌≡◌, ◌↔◌, ◌⊎◌, ◌≤◌, refl, List, [], ◌∷◌, ◌++◌, Bytes, codes, true, false, Bool, same,
  if◌then◌else◌, Option, some, none, length, Result, ok, err, arith, contains, starts_with, lstrip,
  rstrip, strip, among, split, join, is_empty, inl,
}
use techo5_dot.Asking.Units.{
  Device, words_from, descriptions, units_of, adb_devices, ready_units, pick_loop, pick_unit,
  decimal, spaces,
}
use techo5_dot.Asking.Questions.{is_bad_name, name_loop, ask_name, confirm, hex}
use techo5_dot.Asking.Answers.{
  Offered, pick_unit-Offered, ask_name-valid, confirm_iff, from_hex, from_hex-hex,
}
use techo5_dot.Console.Exchange.{
  console_exchange, quiet, Exchange, answered, unanswered, gone, chunk, lines_of, without_returns,
  without_escapes, after_escape, after_parameters,
}
use techo5_dot.Console.Unit.{Console, find, by_serial, by_asking, is_unit, run, includes}
use techo5_dot.Console.Output.{received, console_exchange-answered}
use techo5_dot.Console.Session.{IsUnits, find-IsUnits, run-IsUnits}

abbrev devices : List Device
devices =
    record { serial = codes "AA1"; state = codes "device"; what = codes "biscuit" }
    ∷ record { serial = codes "BB2"; state = codes "unauthorized"; what = [] }
    ∷ record { serial = codes "CC3"; state = codes "device"; what = [] }
    ∷ []

printed_devices :
    adb_devices (codes "List of devices attached\nAA1  device model:biscuit\n\n")
    ≡ record { serial = codes "AA1"; state = codes "device"; what = codes "biscuit" } ∷ []
unfolding adb_devices units_of words_from descriptions split among starts_with join
    techo5_dot.Prelude.partition
printed_devices = refl

picked :
    (pick_unit [] devices (codes "device" ∷ []) true (codes "7" ∷ codes " 2 " ∷ [])).0
    ≡ ok (codes "CC3")
unfolding pick_unit ready_units pick_loop decimal lstrip rstrip among contains same
picked = refl

pick_unit-Offered_example :
    ((is_empty {A = ℕ} [] ≡ false) × ([] ≡ codes "CC3"))
    ⊎ Offered devices (codes "device" ∷ []) (codes "CC3")
pick_unit-Offered_example =
    pick_unit-Offered [] devices (codes "device" ∷ []) true (codes "7" ∷ codes " 2 " ∷ []) picked

named : (ask_name none (codes "Dot") true ([] ∷ [])).0 ≡ ok (codes "Dot")
unfolding ask_name name_loop is_bad_name lstrip rstrip among
named = refl

ask_name-valid_example :
    (among 10 (codes "Dot") ≡ false)
    × (is_empty (strip spaces (codes "Dot")) ≡ false)
    × (length (codes "Dot") ≤ 31)
ask_name-valid_example = ask_name-valid none (codes "Dot") true ([] ∷ []) named

confirm_iff_example : ((confirm false (codes "ERASE") true (codes " ERASE " ∷ [])).0 ≡ ok tt) ↔ (
    (false ≡ true)
    ⊎ ((true ≡ true)
        × ((line : Bytes) × (rest : List Bytes) × (codes " ERASE " ∷ [] ≡ line ∷ rest)
            × (strip spaces line ≡ codes "ERASE"))))
confirm_iff_example = confirm_iff false (codes "ERASE") true (codes " ERASE " ∷ [])

from_hex-hex_example : from_hex (hex (104 ∷ 0 ∷ 255 ∷ [])) ≡ 104 ∷ 0 ∷ 255 ∷ []
from_hex-hex_example =
    from_hex-hex (104 ∷ 0 ∷ 255 ∷ []) (omega arith, (omega arith, (omega arith, tt)))

abbrev own_text : Bytes → Bytes
own_text b = b

-- The echo of the typed line, an escape sequence and a line of output, cut in the end marker.
abbrev first_part : Bytes
first_part =
    codes "b=__T5BEGINab__; m=__T5ENDab__; echo $b\r\n__T5BEGINab__\r\n"
    ++ (27 ∷ codes "[1;32mup\r\n__T5")

abbrev second_part : Bytes
second_part = codes "ENDab__\r\n$ "

console_exchange-answered_example :
    console_exchange own_text true (codes "ab") (chunk first_part ∷ quiet ∷ chunk second_part ∷ [])
    ≡ answered (join (10 ∷ []) (codes "up" ∷ []))
unfolding received lines_of without_returns without_escapes after_escape after_parameters split
    contains same
console_exchange-answered_example =
    console_exchange-answered own_text (codes "ab") second_part (chunk first_part ∷ quiet ∷ []) []
      (codes "b=__T5BEGINab__; m=__T5ENDab__; echo $b" ∷ []) (codes "up" ∷ []) (codes "$ " ∷ [])
      (refl, tt) refl refl refl

abbrev two_ports : List (Bytes × Bytes)
two_ports = (codes "ttyACM0", []) ∷ (codes "ttyACM1", []) ∷ []

abbrev asked : Bytes → Exchange
asked p = if same p (codes "ttyACM1") then answered (codes "IS-THE-UNIT") else unanswered

abbrev executed : Bytes → Exchange
executed p = if same p (codes "ttyACM1") then answered (codes "v9") else gone

abbrev fresh_console : Console
fresh_console = record { port = none; went = false; blocked = none }

found : (find (codes "G0A") two_ports asked executed fresh_console).0 ≡ some (codes "ttyACM1")
unfolding find by_serial by_asking is_unit includes starts_with same
found = refl

find-IsUnits_example : IsUnits (codes "G0A") asked two_ports (codes "ttyACM1")
find-IsUnits_example =
    find-IsUnits (codes "G0A") two_ports asked executed fresh_console (codes "ttyACM1") found

ran : (run (codes "G0A") two_ports asked executed none fresh_console).0 ≡ some (codes "v9")
unfolding run find by_serial by_asking is_unit includes starts_with same
ran = refl

run-IsUnits_example :
    (port : Bytes) × IsUnits (codes "G0A") asked two_ports port
    × (executed port ≡ answered (codes "v9"))
run-IsUnits_example = run-IsUnits (codes "G0A") two_ports asked executed fresh_console refl ran
