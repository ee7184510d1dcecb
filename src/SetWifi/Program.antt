-- ===== src/SetWifi/Program.antt =====
-- tools/set-wifi.py: main.
use techo5_dot.Prelude.{
  ℕ, List, [], ◌∷◌, ◌++◌, Bytes, codes, split, starts_with, is_empty, length, drop, if◌then◌else◌,
  Bool, true, false, not, ◌&&◌, Option, none, some, Result, ok, err, ◌>>=◌,
}
use techo5_dot.Asking.Questions.{wifi_conf}
use techo5_dot.Asking.Units as Units
use techo5_dot.Console.Exchange.{Exchange}
use techo5_dot.Console.Unit.{Console, find, run}
use techo5_dot.Update.Heard.{all_hex}

-- A kind of console: the ports of its USB ids, what a port answers to the question for the serial
-- number, and what comes of a command there.
pub record Usb : Type 0 where
  pub ports : List (Bytes × Bytes)
  pub asked : Bytes → Exchange
  pub executed : Bytes → Bytes → Exchange

pub data Refusal : Type 0 where
  nothing_given no_console : Refusal
  not_asked : Units.Refusal → Refusal
  no_key : Bytes → Refusal

-- What the program prints at the end.
pub data Joined : Type 0 where
  joined : Bytes → Joined
  no_address : Joined

abbrev pub new_console : Console
new_console = record { port = none; went = false; blocked = none }

-- What a line has behind the equals sign, where it begins with the key.
abbrev pub behind_key : Bytes → Bytes → Option Bytes
behind_key key line =
    if starts_with line (key ++ codes "=")
    then some (drop (length (key ++ codes "=")) line)
    else none

abbrev pub if_hex : Option Bytes → Option Bytes
if_hex none = none
if_hex (some value) = if not (is_empty value) && all_hex value then some value else none

-- `conf.get(key)`, of the pairs that `^(ssid|psk)=([0-9a-f]+)$` finds: the last one counts.
unfoldable pub last_hex : Bytes → List Bytes → Option Bytes
last_hex key [] = none
last_hex key (line ∷ lines) = elim (last_hex key lines) [
  | none ↦ if_hex (behind_key key line)
  | some v ↦ some v
]

abbrev pub hex_words : Option Bytes → Option Bytes → Result Refusal Bytes
hex_words none psk = err (no_key (codes "ssid"))
hex_words (some ssid) none = err (no_key (codes "psk"))
hex_words (some ssid) (some psk) = ok (codes "wifi-set --hex " ++ (ssid ++ (codes " " ++ psk)))

-- `'wifi-set --hex %s %s' % (conf['ssid'], conf['psk'])`
unfoldable pub hex_command : Bytes → Result Refusal Bytes
hex_command text =
    hex_words (last_hex (codes "ssid") (split 10 text)) (last_hex (codes "psk") (split 10 text))

abbrev pub asked_wifi : Result Units.Refusal Bytes → Result Refusal Bytes
asked_wifi (ok conf) = hex_command conf
asked_wifi (err e) = err (not_asked e)

-- `^\d+\.\d+\.\d+\.\d+$`; `digit` is `\d`, which has no dot.
module _ (digit : ℕ → Bool) where
  unfoldable pub all_digits : Bytes → Bool
  all_digits [] = true
  all_digits (c ∷ cs) = digit c && all_digits cs

  abbrev pub number : Bytes → Bool
  number cs = not (is_empty cs) && all_digits cs

  abbrev pub four_numbers : List Bytes → Bool
  four_numbers (a ∷ b ∷ c ∷ d ∷ []) = number a && number b && number c && number d
  four_numbers _ = false

  abbrev pub is_address : Bytes → Bool
  is_address line = four_numbers (split b'.' line)

  -- The last line that is an address; the lines that are only noted cannot be one.
  unfoldable pub last_address : List Bytes → Option Bytes
  last_address [] = none
  last_address (line ∷ lines) = elim (last_address lines) [
    | none ↦ if is_address line then some line else none
    | some ip ↦ some ip
  ]

  abbrev pub joined_at : Option Bytes → Joined
  joined_at none = no_address
  joined_at (some ip) = joined ip

  -- What the answer tells; nothing where the console gave none.
  abbrev pub told : Option Bytes → Joined
  told none = no_address
  told (some out) = joined_at (last_address (split 10 out))

  module _ (serial : Bytes) (dot techo5 : Usb) (encode : Bytes → Bytes)
      (pbkdf2 : Bytes → Bytes → Bytes) where
    abbrev pub find_on : Usb → Console → Option Bytes × Console
    find_on usb c = find serial usb.ports usb.asked (usb.executed []) c

    -- The console of one kind or, where that has none of the unit, a new one of the other.
    abbrev pub picked : Option Bytes × Console → Usb × Console
    picked (some p, c) = (dot, c)
    picked (none, c) = (techo5, new_console)

    abbrev pub command_for : Bool → Bytes → Bytes → Result Refusal Bytes
    command_for forget ssid passphrase =
        if forget
        then ok (codes "wifi-set --forget")
        else asked_wifi (wifi_conf encode pbkdf2 ssid passphrase)

    abbrev pub run_command : Usb → Console → Bytes → Joined
    run_command usb c command =
        told (run serial usb.ports usb.asked (usb.executed command) none c).0

    abbrev pub on_console :
        Bool → Bytes → Bytes → Usb → Option Bytes × Console → Result Refusal Joined
    on_console forget ssid passphrase usb (none, c) = err no_console
    on_console forget ssid passphrase usb (some p, c) = do
      command ← command_for forget ssid passphrase
      ok (run_command usb c command)

    abbrev pub on_picked : Bool → Bytes → Bytes → Usb × Console → Result Refusal Joined
    on_picked forget ssid passphrase (usb, c) =
        on_console forget ssid passphrase usb (find_on usb c)

    -- `main`; `ssid` is empty where none is given, and `passphrase` is what is typed.
    unfoldable pub set_wifi : Bool → Bytes → Bytes → Result Refusal Joined
    set_wifi forget ssid passphrase =
        if not forget && is_empty ssid
        then err nothing_given
        else on_picked forget ssid passphrase (picked (find_on dot new_console))
