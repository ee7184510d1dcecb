-- ===== src/Console/Unit.antt =====
-- tools/techo5lib.py: class Console.
use techo5_dot.Prelude.{
  ℕ, ◌-◌, List, [], ◌∷◌, ◌++◌, Bytes, codes, same, starts_with, rstrip, leb, if◌then◌else◌, map,
  is_empty, Bool, true, false, not, ◌&&◌, ◌||◌, Option, none, some,
}
use techo5_dot.Console.Exchange.{Exchange, answered, unanswered, gone, unopened}

-- `self.port`, `self.gone` and `self.blocked`, the last with the port that it names.
pub record Console : Type 0 where
  pub port : Option Bytes
  pub went : Bool
  pub blocked : Option Bytes

-- What `waiting_hint` says.
pub data Hint : Type 0 where
  cannot_be_opened : Bytes → Hint
  not_appeared no_hint : Hint

-- `sub in text`
unfoldable pub includes : Bytes → Bytes → Bool
includes [] sub = is_empty sub
includes (c ∷ cs) sub = starts_with (c ∷ cs) sub || includes cs sub

abbrev upper_code : ℕ → ℕ
upper_code c = if leb b'a' c && leb c b'z' then c - 32 else c

abbrev pub upper : Bytes → Bytes
upper s = map upper_code s

-- `ports.sort(key=lambda ps: ps[0] != self.port)`, where that port is among them.
unfoldable pub first_of : Bytes → List (Bytes × Bytes) → List (Bytes × Bytes)
first_of port [] = []
first_of port ((p, s) ∷ ports) =
    if same p port then (p, s) ∷ first_of port ports else first_of port ports

unfoldable pub others_of : Bytes → List (Bytes × Bytes) → List (Bytes × Bytes)
others_of port [] = []
others_of port ((p, s) ∷ ports) =
    if same p port then others_of port ports else (p, s) ∷ others_of port ports

abbrev pub arranged : Option Bytes → List (Bytes × Bytes) → List (Bytes × Bytes)
arranged none ports = ports
arranged (some port) ports = first_of port ports ++ others_of port ports

-- `usb_serial and usb_serial.upper().startswith(self.serial.upper())`
abbrev pub has_serial : Bytes → Bytes → Bool
has_serial serial usb_serial =
    not (is_empty usb_serial) && starts_with (upper usb_serial) (upper serial)

unfoldable pub by_serial : Bytes → List (Bytes × Bytes) → Option Bytes
by_serial serial [] = none
by_serial serial ((p, s) ∷ ports) = if has_serial serial s then some p else by_serial serial ports

abbrev pub says_is_unit : Exchange → Bool
says_is_unit (answered out) = not (is_empty out) && includes out (codes "IS-THE-UNIT")
says_is_unit _ = false

-- What an exchange says of the port, for `blocked`.
abbrev note_opened : Bytes → Exchange → Console → Console
note_opened p unopened c = record c { blocked = some p }
note_opened p gone c = c
note_opened p _ c = record c { blocked = none }

-- `asked port` is what the question for the unit's serial number is answered with there, `executed
-- port` what comes of the command that `run` was given, behind the same question.
module _ (serial : Bytes) (ports : List (Bytes × Bytes)) (asked executed : Bytes → Exchange) where
  -- `_is_unit`
  unfoldable pub is_unit : Bytes → Console → Bool × Console
  is_unit p c = (says_is_unit (asked p), note_opened p (asked p) c)

  unfoldable pub by_asking : List (Bytes × Bytes) → Console → Option Bytes × Console
  by_asking [] c = (none, c)
  by_asking ((p, s) ∷ rest) c =
      let (found, c') = is_unit p c in
      let later = by_asking rest c' in
      if found then (some p, record c' { port = some p }) else later

  -- `find`
  unfoldable pub find : Console → Option Bytes × Console
  find c = elim (by_serial serial (arranged c.port ports)) [
    | some p ↦ (some p, record c { port = some p })
    | none ↦ by_asking (arranged c.port ports) c
  ]

  -- What `run` makes of the exchange on a port.
  abbrev pub after_exchange : Bytes → Exchange → Console → Option Bytes × Console
  after_exchange p (answered out) c = (some out, record c { blocked = none })
  after_exchange p unanswered c = (none, record c { blocked = none })
  after_exchange p gone c = (none, record c { went = true; port = none })
  after_exchange p unopened c = (none, record c { blocked = some p; port = none })

  abbrev pub run_on : Option Bytes × Console → Option Bytes × Console
  run_on (none, c) = (none, c)
  run_on (some p, c) = after_exchange p (executed p) (record c { went = false })

  abbrev pub known_or_found : Option Bytes → Console → Option Bytes × Console
  known_or_found (some p) c = (some p, c)
  known_or_found none c = find c

  -- `run` on a unit, and on the simulated one of a rehearsal: what that printed, or none.
  unfoldable pub run : Option (Option Bytes) → Console → Option Bytes × Console
  run none c = run_on (known_or_found c.port c)
  run (some none) c = (none, c)
  run (some (some text)) c = (some (rstrip (10 ∷ []) text), record c { port = some (codes "SIM") })

  -- `waiting_hint`, without its words.
  unfoldable pub waiting_hint : Console → Hint
  waiting_hint c = elim c.blocked [
    | some p ↦ cannot_be_opened p
    | none ↦ if is_empty ports then not_appeared else no_hint
  ]
