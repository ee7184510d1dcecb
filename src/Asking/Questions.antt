-- ===== src/Asking/Questions.antt =====
-- tools/techo5lib.py: `ask_name`, `check_gift`, `confirm`, `check_serial_access`, `valid_api_key`
-- and `wifi_conf`.
use techo5_dot.Prelude.{
  ℕ, ◌+◌, ◌/◌, ◌%◌, List, [], ◌∷◌, ◌++◌, Bytes, codes, same, among, strip, is_empty, length, ltb,
  leb, ◌==◌, if◌then◌else◌, Bool, true, false, not, ◌&&◌, ◌||◌, Option, none, some, Result, ok, err,
  ◌>>◌, guard, map,
}
use techo5_dot.Asking.Units.{
  Refusal, bad_name, name_needed, gift_clash, nobody_to_confirm, not_confirmed, no_serial_access,
  not_gone_on, bad_ssid, bad_passphrase, end_of_input, Answer, spaces,
}

-- `bad`
unfoldable pub is_bad_name : Bytes → Bool
is_bad_name n = among 10 n || is_empty (strip spaces n) || ltb 31 (length n)

abbrev pub or_default : Bytes → Bytes → Bytes
or_default default n = if is_empty n then default else n

unfoldable pub name_loop : Bytes → List Bytes → Answer Bytes
name_loop default [] = (err end_of_input, [])
name_loop default (line ∷ lines) =
    let again = name_loop default lines in
    let n = or_default default (strip spaces line) in if is_bad_name n then again else (ok n, lines)

-- `ask_name`
unfoldable pub ask_name : Option Bytes → Bytes → Bool → List Bytes → Answer Bytes
ask_name (some n) default interactive lines = (if is_bad_name n then err bad_name else ok n, lines)
ask_name none default interactive lines =
    if interactive then name_loop default lines else (err name_needed, lines)

-- The switches that were given, in the order of their names; `given` comes sorted.
unfoldable pub clashes : List (Bytes × Bytes) → List Bytes
clashes [] = []
clashes ((switch, v) ∷ given) = if is_empty v then clashes given else switch ∷ clashes given

-- `check_gift`
unfoldable pub check_gift : Bool → List (Bytes × Bytes) → Result Refusal (Unit {0})
check_gift for_someone_else given =
    if not for_someone_else
    then ok tt
    else guard (is_empty (clashes given)) (gift_clash (clashes given))

-- `confirm`; `lines` is what will be typed.
unfoldable pub confirm : Bool → Bytes → Bool → List Bytes → Answer (Unit {0})
confirm true word interactive lines = (ok tt, lines)
confirm false word false lines = (err nobody_to_confirm, lines)
confirm false word true [] = (err end_of_input, [])
confirm false word true (line ∷ lines) =
    (if same (strip spaces line) word then ok tt else err not_confirmed, lines)

abbrev pub lower : ℕ → ℕ
lower c = if leb b'A' c && leb c b'Z' then c + 32 else c

-- `answer.strip().lower() in ('y', 'yes')`
abbrev pub says_yes : Bytes → Bool
says_yes line =
    let answer = map lower (strip spaces line) in
    same answer (codes "y") || same answer (codes "yes")

-- `check_serial_access`; `skip` is the environment's switch, `problems` what was found.
unfoldable pub check_serial_access :
    Bool → List Bytes → Bool → Bool → List Bytes → Answer (Unit {0})
check_serial_access true problems must interactive lines = (ok tt, lines)
check_serial_access false [] must interactive lines = (ok tt, lines)
check_serial_access false (p ∷ ps) false interactive lines = (ok tt, lines)
check_serial_access false (p ∷ ps) true false lines = (err no_serial_access, lines)
check_serial_access false (p ∷ ps) true true [] = (err end_of_input, [])
check_serial_access false (p ∷ ps) true true (line ∷ lines) =
    (if says_yes line then ok tt else err not_gone_on, lines)

-- `valid_api_key`; `b64decode` is that of base64 with `validate`, `none` where it raises.
unfoldable pub valid_api_key : (Bytes → Option Bytes) → Bytes → Bool
valid_api_key b64decode key = elim (b64decode key) [ none ↦ false | some raw ↦ length raw == 32 ]

abbrev pub hex_digit : ℕ → ℕ
hex_digit n = if ltb n 10 then n + b'0' else n + 87

-- `b.hex()`
unfoldable pub hex : Bytes → Bytes
hex [] = []
hex (x ∷ xs) = hex_digit (x / 16) ∷ hex_digit (x % 16) ∷ hex xs

-- `wifi_conf`; `pbkdf2 passphrase salt` is the 32 bytes that `hashlib.pbkdf2_hmac` gives with
-- SHA1 and 4096 rounds, and `encode` is UTF-8.
module _ (encode : Bytes → Bytes) (pbkdf2 : Bytes → Bytes → Bytes) where
  unfoldable pub wifi_conf : Bytes → Bytes → Result Refusal Bytes
  wifi_conf ssid passphrase = do
    guard (leb 1 (length (encode ssid)) && leb (length (encode ssid)) 32) bad_ssid
    guard (leb 8 (length passphrase) && leb (length passphrase) 63) bad_passphrase
    ok (
        codes "ssid="
        ++ (hex (encode ssid)
            ++ (10 ∷ codes "psk=" ++ (hex (pbkdf2 (encode passphrase) (encode ssid)) ++ 10 ∷ []))))
