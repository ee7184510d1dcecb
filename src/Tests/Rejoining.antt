-- ===== src/Tests/Rejoining.antt =====
-- tools/set-wifi.py: the network of a made-up unit.
use techo5_dot.Prelude.{
  arith, ℕ, ◌≡◌, ◌++◌, refl, [], ◌∷◌, Bytes, codes, leb, split, same, starts_with, is_empty, false,
  Bool, ◌&&◌, if◌then◌else◌, ok,
}
use techo5_dot.Ed25519.Accepts.{AreBytes}
use techo5_dot.Asking.Questions.{hex, wifi_conf}
use techo5_dot.Console.Exchange.{answered, unanswered}
use techo5_dot.Console.Unit.{first_of, others_of, by_serial, find, by_asking, is_unit, run}
use techo5_dot.Update.Heard.{all_hex}
use techo5_dot.SetWifi.Program.{
  Usb, joined, last_hex, hex_command, all_digits, last_address, set_wifi,
}
use techo5_dot.SetWifi.Reach.{hex_command-wifi_conf}
use techo5_dot.SetWifi.Joins.{Reached, set_wifi-Reached}

abbrev ascii_digit : ℕ → Bool
ascii_digit c = leb b'0' c && leb c b'9'

abbrev one_byte : Bytes → Bytes → Bytes
one_byte passphrase salt = 171 ∷ []

-- UTF-8 of a name that is always the same.
abbrev cafe : Bytes → Bytes
cafe name = 99 ∷ 97 ∷ []

cafe-AreBytes : (s : Bytes) → AreBytes (cafe s)
cafe-AreBytes s = ground arith

one_byte-AreBytes :
    (s salt : Bytes) → AreBytes (one_byte s salt) × (is_empty (one_byte s salt) ≡ false)
one_byte-AreBytes s salt = ground arith

cafe_conf :
    wifi_conf cafe one_byte (codes "ca") (codes "password") ≡ ok (codes "ssid=6361\npsk=ab\n")
unfolding wifi_conf hex
cafe_conf = refl

hex_command-wifi_conf_example :
    hex_command (codes "ssid=6361\npsk=ab\n")
    ≡ ok (
        codes "wifi-set --hex "
        ++ (hex (cafe (codes "ca"))
            ++ (codes " " ++ hex (one_byte (cafe (codes "password")) (cafe (codes "ca"))))))
hex_command-wifi_conf_example =
    hex_command-wifi_conf cafe one_byte cafe-AreBytes one_byte-AreBytes (codes "ca")
      (codes "password") (codes "ssid=6361\npsk=ab\n") cafe_conf

abbrev no_ports : Usb
no_ports = record { ports = []; asked = λ p. unanswered; executed = λ c p. unanswered }

abbrev dot3_console : Usb
dot3_console = record {
  ports = (codes "COM7", codes "G0912345") ∷ [];
  asked = λ p. unanswered;
  executed = λ c p.
      if same c (codes "wifi-set --hex 6361 ab")
      then answered (codes "wifi-set: joining\n10.0.0.9")
      else unanswered;
}

rejoined :
    set_wifi ascii_digit
      (codes "G091")
      no_ports
      dot3_console
      cafe
      one_byte
      false
      (codes "ca")
      (codes "password")
    ≡ ok (joined (codes "10.0.0.9"))
unfolding set_wifi find by_serial by_asking is_unit run first_of others_of wifi_conf hex hex_command
    last_hex last_address all_digits all_hex split same starts_with
rejoined = refl

set_wifi-Reached_example :
    Reached ascii_digit
      (codes "G091")
      no_ports
      dot3_console
      cafe
      one_byte
      false
      (codes "ca")
      (codes "password")
      (codes "10.0.0.9")
set_wifi-Reached_example =
    set_wifi-Reached ascii_digit (codes "G091") no_ports dot3_console cafe one_byte false
      (codes "ca") (codes "password") (codes "10.0.0.9") rejoined
