-- ===== src/SetWifi/Reach.antt =====
-- tools/set-wifi.py: what the unit is told, and where.
use techo5_dot.Prelude.{
  ℕ, ◌<◌, ◌/◌, ◌%◌, ◌==◌, ◌≡◌, refl, sym, ap, ◌∙◌, [], ◌∷◌, ◌++◌, Bytes, codes, split, starts_with,
  starts_with-append, among, is_empty, length, drop-append, leb, Bool, true, false, ◌&&◌, some, ok,
  ok_injective, ◌>>◌, guard, arith,
}
use techo5_dot.Asking.Units as Units
use techo5_dot.Asking.Questions.{wifi_conf, hex, hex_digit}
use techo5_dot.Ed25519.Accepts.{AreBytes}
use techo5_dot.Update.Session.{is_hex}
use techo5_dot.Update.Heard.{all_hex}
use techo5_dot.SetWifi.Program.{behind_key, last_hex, hex_command}

split_line : (a rest : Bytes) → among 10 a ≡ false → split 10 (a ++ 10 ∷ rest) ≡ a ∷ split 10 rest
unfolding split among
split_line [] rest h = refl
split_line (x ∷ a) rest h =
    let later = split_line a rest (ground arith) in
    let other : x == 10 ≡ false = ground arith in rw (other, later) refl

is_hex-hex_digit : (n : ℕ) → n < 16 → is_hex (hex_digit n) ≡ true
is_hex-hex_digit n h = ground arith

all_hex-hex : (b : Bytes) → AreBytes b → all_hex (hex b) ≡ true
unfolding all_hex hex
all_hex-hex [] h = refl
all_hex-hex (x ∷ xs) (small, hs) =
    let high = is_hex-hex_digit (x / 16) (omega arith) in
    let low = is_hex-hex_digit (x % 16) (omega arith) in
    let later = all_hex-hex xs hs in ground arith

no_newline : (bs : Bytes) → all_hex bs ≡ true → among 10 bs ≡ false
unfolding all_hex among
no_newline [] h = refl
no_newline (c ∷ cs) h = ground (arith, no_newline cs)

behind_key-line : (key value : Bytes) → behind_key key ((key ++ codes "=") ++ value) ≡ some value
behind_key-line key value =
    let s = starts_with-append (key ++ codes "=") value in
    let d = drop-append (key ++ codes "=") value {n = length (key ++ codes "=")} refl in
    rw (s, d) refl

two_lines :
    (h k : Bytes)
    → among 10 h ≡ false
    → among 10 k ≡ false
    → split 10 (codes "ssid=" ++ (h ++ (10 ∷ codes "psk=" ++ (k ++ 10 ∷ []))))
      ≡ (codes "ssid=" ++ h) ∷ (codes "psk=" ++ k) ∷ [] ∷ []
unfolding among split
two_lines h k no_h no_k =
    split_line (codes "ssid=" ++ h) (codes "psk=" ++ (k ++ 10 ∷ [])) no_h
    ∙ ap (λ t. (codes "ssid=" ++ h) ∷ t) (split_line (codes "psk=" ++ k) [] no_k)

last_hex-two_lines :
    (h k : Bytes)
    → is_empty h ≡ false
    → all_hex h ≡ true
    → is_empty k ≡ false
    → all_hex k ≡ true
    → (last_hex (codes "ssid") ((codes "ssid=" ++ h) ∷ (codes "psk=" ++ k) ∷ [] ∷ []) ≡ some h)
      × (last_hex (codes "psk") ((codes "ssid=" ++ h) ∷ (codes "psk=" ++ k) ∷ [] ∷ []) ≡ some k)
unfolding last_hex starts_with
last_hex-two_lines h k full_h hex_h full_k hex_k =
    (rw (full_h, hex_h) refl, rw (full_k, hex_k) refl)

full_hex : (b : Bytes) → is_empty b ≡ false → is_empty (hex b) ≡ false
unfolding hex
full_hex [] h = h
full_hex (x ∷ xs) h = refl

both_guards :
    (b c : Bool) (e f : Units.Refusal) (x conf : Bytes)
    → (guard b e >> (guard c f >> ok x)) ≡ ok conf
    → (b ≡ true) × (conf ≡ x)
both_guards true true e f x conf h = (refl, sym (ok_injective h))
both_guards true false e f x conf h = absurd (ground arith)
both_guards false c e f x conf h = absurd (ground arith)

filled_by_length :
    (s : Bytes) (short : Bool) → leb 1 (length s) && short ≡ true → is_empty s ≡ false
filled_by_length [] short h = absurd (ground arith)
filled_by_length (c ∷ s) short h = refl

module _ (encode : Bytes → Bytes) (pbkdf2 : Bytes → Bytes → Bytes)
    (encodes : (s : Bytes) → AreBytes (encode s))
    (derives : (s salt : Bytes)
      → AreBytes (pbkdf2 s salt) × (is_empty (pbkdf2 s salt) ≡ false)) where
  wifi_conf-lines :
      (ssid passphrase conf : Bytes)
      → wifi_conf encode pbkdf2 ssid passphrase ≡ ok conf
      → (is_empty (encode ssid) ≡ false)
        × (conf
            ≡ codes "ssid="
              ++ (hex (encode ssid)
                  ++ (10 ∷ codes "psk="
                      ++ (hex (pbkdf2 (encode passphrase) (encode ssid)) ++ 10 ∷ []))))
  unfolding wifi_conf
  wifi_conf-lines ssid passphrase conf h =
      let g =
        both_guards (leb 1 (length (encode ssid)) && leb (length (encode ssid)) 32)
          (leb 8 (length passphrase) && leb (length passphrase) 63) _ _ _ conf h in
      (filled_by_length (encode ssid) (leb (length (encode ssid)) 32) g.0, g.1)

  -- The command for the console has the name of the network and its key, in hexadecimal digits.
  pub hex_command-wifi_conf :
      (ssid passphrase conf : Bytes)
      → wifi_conf encode pbkdf2 ssid passphrase ≡ ok conf
      → hex_command conf
        ≡ ok (
            codes "wifi-set --hex "
            ++ (hex (encode ssid) ++ (codes " " ++ hex (pbkdf2 (encode passphrase) (encode ssid)))))
  unfolding hex_command
  hex_command-wifi_conf ssid passphrase conf h =
      let w = wifi_conf-lines ssid passphrase conf h in
      let key = pbkdf2 (encode passphrase) (encode ssid) in
      let d = derives (encode passphrase) (encode ssid) in
      let hs = all_hex-hex (encode ssid) (encodes ssid) in
      let hk = all_hex-hex key d.0 in
      let l = two_lines (hex (encode ssid)) (hex key) (no_newline _ hs) (no_newline _ hk) in
      let v =
        last_hex-two_lines (hex (encode ssid)) (hex key) (full_hex (encode ssid) w.0) hs
          (full_hex key d.1) hk in
      rw (w.1, l, v.0, v.1) refl
