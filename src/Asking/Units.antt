-- ===== src/Asking/Units.antt =====
-- tools/techo5lib.py: `adb_devices` and `pick_unit`.
use techo5_dot.Prelude.{
  ℕ, ◌+◌, ◌-◌, ◌*◌, List, [], ◌∷◌, ◌++◌, Bytes, codes, contains, starts_with, partition, join,
  among, split, strip, is_empty, drop, get_elem?, map, leb, if◌then◌else◌, Bool, true, not, ◌&&◌,
  ◌||◌, none, some, Result, ok, err,
}

-- Why a question ends the tool: the reasons of `fail`, and a terminal that was closed.
pub data Refusal : Type 0 where
  no_unit : Refusal
  several_units : List Bytes → Refusal
  bad_name name_needed : Refusal
  gift_clash : List Bytes → Refusal
  nobody_to_confirm not_confirmed : Refusal
  no_serial_access not_gone_on : Refusal
  bad_ssid bad_passphrase : Refusal
  end_of_input : Refusal
  no_saved_wifi : Refusal
  bad_key_file : Refusal

-- A question's outcome, with the lines that are still to be typed.
abbrev pub Answer : Type 0 → Type 0
Answer A = Result Refusal A × List Bytes

-- The white space of ASCII, as `str.split()` and `str.strip()` see it.
abbrev pub spaces : Bytes
spaces = b' ' ∷ 9 ∷ 10 ∷ 11 ∷ 12 ∷ 13 ∷ 28 ∷ 29 ∷ 30 ∷ 31 ∷ []

abbrev add_word : Bytes → List Bytes → List Bytes
add_word word rest = if is_empty word then rest else word ∷ rest

-- `s.split()`, with the word read so far.
unfoldable pub words_from : Bytes → Bytes → List Bytes
words_from word [] = add_word word []
words_from word (x ∷ xs) =
    let stop = words_from [] xs in
    let more = words_from (word ++ x ∷ []) xs in if among x spaces then add_word word stop else more

pub record Device : Type 0 where
  pub serial : Bytes
  pub state : Bytes
  pub what : Bytes

unfoldable pub descriptions : List Bytes → List Bytes
descriptions [] = []
descriptions (x ∷ xs) =
    if starts_with x (codes "model:") || starts_with x (codes "device:")
    then (partition b':' x).1 ∷ descriptions xs
    else descriptions xs

abbrev with_line : List Bytes → List Device → List Device
with_line (serial ∷ state ∷ rest) units =
    if starts_with serial (codes "*")
    then units
    else record { serial = serial; state = state; what = join (codes " ") (descriptions rest) }
      ∷ units
with_line _ units = units

unfoldable pub units_of : List Bytes → List Device
units_of [] = []
units_of (line ∷ lines) = with_line (words_from [] line) (units_of lines)

-- `adb_devices`, from what `adb devices -l` printed; its first line is a title.
unfoldable pub adb_devices : Bytes → List Device
adb_devices output = units_of (drop 1 (split 10 output))

-- `[u for u in units if u[1] in states]`
unfoldable pub ready_units : List Device → List Bytes → List Device
ready_units [] states = []
ready_units (u ∷ us) states =
    if contains states u.state then u ∷ ready_units us states else ready_units us states

abbrev is_digit : ℕ → Bool
is_digit c = leb b'0' c && leb c b'9'

abbrev all_digits : Bytes → Bool
all_digits [] = true
all_digits (c ∷ cs) = is_digit c && all_digits cs

-- `s.isdigit()`
abbrev pub isdigit : Bytes → Bool
isdigit s = not (is_empty s) && all_digits s

-- `int(s)` for digits, after those read so far.
unfoldable pub decimal : ℕ → Bytes → ℕ
decimal n [] = n
decimal n (c ∷ cs) = decimal (10 * n + (c - b'0')) cs

-- `while True: choice = input(...)`
unfoldable pub pick_loop : List Device → List Bytes → Answer Bytes
pick_loop ready [] = (err end_of_input, [])
pick_loop ready (line ∷ lines) =
    let again = pick_loop ready lines in
    let choice = strip spaces line in
    if isdigit choice && leb 1 (decimal 0 choice)
    then elim (get_elem? ready (decimal 0 choice - 1)) [
      | none ↦ again
      | some u ↦ (ok u.serial, lines)
    ]
    else again

abbrev serials : List Device → List Bytes
serials us = map (λ u. u.serial) us

abbrev pub pick_ready : Bool → List Device → List Bytes → Answer Bytes
pick_ready interactive [] lines = (err no_unit, lines)
pick_ready interactive (u ∷ []) lines = (ok u.serial, lines)
pick_ready interactive (u ∷ v ∷ us) lines =
    if interactive
    then pick_loop (u ∷ v ∷ us) lines
    else (err (several_units (serials (u ∷ v ∷ us))), lines)

-- `pick_unit`; `units` is what `adb_devices` sees, `lines` what will be typed.
unfoldable pub pick_unit : Bytes → List Device → List Bytes → Bool → List Bytes → Answer Bytes
pick_unit given units states interactive lines =
    if is_empty given
    then pick_ready interactive (ready_units units states) lines
    else (ok given, lines)
