-- ===== src/Network/Wifi.antt =====
-- tools/install-dot.py: which Wi-Fi network the unit joins, and two readings of what it says.
use techo5_dot.Prelude.{
  ℕ, List, [], ◌∷◌, Bytes, codes, strip, rstrip, starts_with, slice, take, drop, is_empty, leb,
  if◌then◌else◌, Bool, false, not, ◌&&◌, ◌||◌, Option, none, some, Result, ok, err, among,
}
use techo5_dot.Console.Unit.{includes}
use techo5_dot.Asking.Units.{Refusal, end_of_input, no_saved_wifi, Answer, spaces, decimal}
use techo5_dot.Asking.Questions.{wifi_conf}

-- `ask`: lines until one is not blank.
unfoldable pub ask_loop : List Bytes → Answer Bytes
ask_loop [] = (err end_of_input, [])
ask_loop (line ∷ lines) =
    let again = ask_loop lines in
    if is_empty (strip spaces line) then again else (ok (strip spaces line), lines)

-- `getpass.getpass`: the next line as it is typed.
abbrev pub typed_secret : List Bytes → Answer Bytes
typed_secret [] = (err end_of_input, [])
typed_secret (line ∷ lines) = (ok line, lines)

abbrev pub and_then : {A B : Type 0} → Answer A → (A → List Bytes → Answer B) → Answer B
and_then (ok a, lines) f = f a lines
and_then (err e, lines) f = (err e, lines)

abbrev pub ssid_or_asked : Bytes → Bool → List Bytes → Answer Bytes
ssid_or_asked ssid interactive lines =
    if not (is_empty ssid)
    then (ok ssid, lines)
    else if interactive
    then ask_loop lines
    else (err no_saved_wifi, lines)

-- The passphrase of the file, without its line's end, or the one that is typed.
abbrev pub passphrase_of : Option Bytes → List Bytes → Answer Bytes
passphrase_of none lines = typed_secret lines
passphrase_of (some content) lines = (ok (rstrip (10 ∷ 13 ∷ []) content), lines)

abbrev pub some_conf : Result Refusal Bytes → Result Refusal (Option Bytes)
some_conf (ok conf) = ok (some conf)
some_conf (err e) = err e

module _ (encode : Bytes → Bytes) (pbkdf2 : Bytes → Bytes → Bytes) where
  abbrev pub join_network : Option Bytes → Bytes → List Bytes → Answer (Option Bytes)
  join_network passphrase_file name rest =
      and_then (passphrase_of passphrase_file rest)
        λ passphrase rest'. (some_conf (wifi_conf encode pbkdf2 name passphrase), rest')

  -- The lines for wifi.conf, or none where the unit keeps the network that it has or, as a gift,
  -- gets none. `saved` is the network that Fire OS saved, `own` whether one was set before.
  unfoldable pub wifi_choice :
      Bool → Bytes → Bytes → Bool → Bool → Option Bytes → List Bytes → Answer (Option Bytes)
  wifi_choice for_someone_else ssid saved own interactive passphrase_file lines =
      if for_someone_else
      then (ok none, lines)
      else if not (is_empty ssid) || is_empty saved && not own
      then and_then (ssid_or_asked ssid interactive lines) (join_network passphrase_file)
      else (ok none, lines)

-- `is_techo5_image`, from the file's content.
unfoldable pub is_techo5_image : Bytes → Bool
is_techo5_image content =
    let head = take 576 content in
    starts_with head (codes "ANDROID!") && includes (slice head 64 576) (codes "techo5")

abbrev is_digit : ℕ → Bool
is_digit c = leb b'0' c && leb c b'9'

unfoldable pub leading_digits : Bytes → Bytes
leading_digits [] = []
leading_digits (c ∷ cs) = let rest = leading_digits cs in if is_digit c then c ∷ rest else []

-- `\s+(\d+)`: the number behind some white space, or none.
unfoldable pub number_behind_space : Bytes → Option ℕ
number_behind_space [] = none
number_behind_space (c ∷ cs) =
    let later = number_behind_space cs in
    if among c spaces
    then if is_empty (leading_digits cs) then later else some (decimal 0 (leading_digits cs))
    else none

abbrev pub or_later : Option ℕ → Option ℕ → Option ℕ
or_later none later = later
or_later (some n) later = some n

-- `re.search(r'TECHO5-TRIES\s+(\d+)', text)`
unfoldable pub find_tries : Bytes → Option ℕ
find_tries [] = none
find_tries (c ∷ cs) =
    let later = find_tries cs in
    if starts_with (c ∷ cs) (codes "TECHO5-TRIES")
    then or_later (number_behind_space (drop 12 (c ∷ cs))) later
    else later

-- `in_rescue`; a missing answer is the empty one, as `kv.get` with its default has it.
unfoldable pub in_rescue : Bytes → Bytes → Bool
in_rescue slot tries =
    if not (is_empty (strip spaces slot))
    then false
    else elim (find_tries tries) [ none ↦ false | some n ↦ leb 5 n ]
