-- ===== src/SetWifi/Joins.antt =====
-- tools/set-wifi.py: an address that is printed comes from the unit.
use mathlib.Core.Path.{subst}
use techo5_dot.Prelude.{
  ℕ, ◌≡◌, ◌⊎◌, inl, inr, refl, List, [], ◌∷◌, Bytes, same_refl, contains, split, is_empty,
  if◌then◌else◌, if_both, Bool, true, false, not, ◌&&◌, Option, none, some, ok, ok_injective,
  bind-eq_ok, arith,
}
use techo5_dot.Console.Exchange.{Exchange, answered, unanswered, gone, unopened}
use techo5_dot.Console.Unit.{
  Console, find, by_asking, by_serial, arranged, is_unit, says_is_unit, run, run_on, known_or_found,
  after_exchange,
}
use techo5_dot.Console.Session.{IsUnits, find-IsUnits}
use techo5_dot.SetWifi.Program.{
  Usb, joined, new_console, last_address, joined_at, told, is_address, picked, command_for,
  on_console, on_picked, set_wifi,
}

line_here :
    (digit : ℕ → Bool) (line : Bytes) (lines : List Bytes) (good : Bool) (ip : Bytes)
    → is_address digit line ≡ good
    → (if good then some line else none) ≡ some ip
    → (is_address digit ip ≡ true) × (contains (line ∷ lines) ip ≡ true)
unfolding contains
line_here digit line lines true ip e h =
    let s : line ≡ ip = cc in
    let r = same_refl line in
    subst (λ x. (is_address digit x ≡ true) × (contains (line ∷ lines) x ≡ true)) s
      (e, ground arith)
line_here digit line lines false ip e h = absurd (ground arith)

here_or_later :
    (digit : ℕ → Bool) (line : Bytes) (lines : List Bytes) (later : Option Bytes) (ip : Bytes)
    → (later ≡ some ip → (is_address digit ip ≡ true) × (contains lines ip ≡ true))
    → (elim later [ none ↦ if is_address digit line then some line else none | some a ↦ some a ])
      ≡ some ip
    → (is_address digit ip ≡ true) × (contains (line ∷ lines) ip ≡ true)
unfolding contains
here_or_later digit line lines (some a) ip known h = let k = known h in (k.0, ground arith)
here_or_later digit line lines none ip known h =
    line_here digit line lines (is_address digit line) ip refl h

last_address-line :
    (digit : ℕ → Bool) (lines : List Bytes) (ip : Bytes)
    → last_address digit lines ≡ some ip
    → (is_address digit ip ≡ true) × (contains lines ip ≡ true)
unfolding last_address contains
last_address-line digit [] ip h = absurd (ground arith)
last_address-line digit (line ∷ lines) ip h =
    here_or_later digit line lines (last_address digit lines) ip (last_address-line digit lines ip)
      h

module _ (serial : Bytes) (ports : List (Bytes × Bytes)) (asked executed : Bytes → Exchange) where
  -- A port that is found is the one that the console keeps.
  abbrev pub KeepsPort : Option Bytes × Console → Type 0
  KeepsPort r = (p : Bytes) → r.0 ≡ some p → r.1.port ≡ some p

  by_asking-KeepsPort :
      (list : List (Bytes × Bytes)) (c : Console)
      → KeepsPort (by_asking serial ports asked executed list c)
  unfolding by_asking is_unit
  by_asking-KeepsPort [] c = λ p h. absurd (ground arith)
  by_asking-KeepsPort ((q, s) ∷ rest) c =
      if_both KeepsPort (says_is_unit (asked q)) _ _ (λ found p h. h)
        (λ other. by_asking-KeepsPort rest _)

  known_or_asked :
      (o : Option Bytes) (c : Console)
      → KeepsPort (elim o [
        | some p ↦ (some p, record c { port = some p })
        | none ↦ by_asking serial ports asked executed (arranged c.port ports) c
      ])
  known_or_asked none c = by_asking-KeepsPort (arranged c.port ports) c
  known_or_asked (some q) c = λ p h. h

  find-KeepsPort : (c : Console) → KeepsPort (find serial ports asked executed c)
  unfolding find
  find-KeepsPort c = known_or_asked (by_serial serial (arranged c.port ports)) c

  after_exchange-answered :
      (p : Bytes) (x : Exchange) (c : Console) (out : Bytes)
      → (after_exchange serial ports asked executed p x c).0 ≡ some out
      → x ≡ answered out
  after_exchange-answered p (answered text) c out h = cc
  after_exchange-answered p unanswered c out h = absurd (ground arith)
  after_exchange-answered p gone c out h = absurd (ground arith)
  after_exchange-answered p unopened c out h = absurd (ground arith)

  run-answered :
      (c : Console) (p out : Bytes)
      → c.port ≡ some p
      → (run serial ports asked executed none c).0 ≡ some out
      → executed p ≡ answered out
  unfolding run
  run-answered c p out e h = after_exchange-answered p (executed p) _ out (
      subst
        (λ o.
          (run_on serial ports asked executed (known_or_found serial ports asked executed o c)).0
          ≡ some out)
        e h)

module _ (digit : ℕ → Bool) (serial : Bytes) (dot techo5 : Usb) (encode : Bytes → Bytes)
    (pbkdf2 : Bytes → Bytes → Bytes) where
  -- The command went to a port of one of the two kinds that is the unit's, and the address is a line
  -- of what came back.
  pub record Reached (forget : Bool) (ssid passphrase ip : Bytes) : Type 0 where
    pub usb : Usb
    pub one_of : (usb ≡ dot) ⊎ (usb ≡ techo5)
    pub port : Bytes
    pub of_unit : IsUnits serial usb.asked usb.ports port
    pub command : Bytes
    pub meant :
        command_for digit serial dot techo5 encode pbkdf2 forget ssid passphrase ≡ ok command
    pub out : Bytes
    pub ran : usb.executed command port ≡ answered out
    pub proper : is_address digit ip ≡ true
    pub said : contains (split 10 out) ip ≡ true

  joined_line : (o : Option Bytes) (ip : Bytes) → joined_at digit o ≡ joined ip → o ≡ some ip
  joined_line none ip h = absurd (ground arith)
  joined_line (some a) ip h = cc

  told-joined :
      (o : Option Bytes) (ip : Bytes)
      → told digit o ≡ joined ip
      → (out : Bytes) × ((o ≡ some out) × (last_address digit (split 10 out) ≡ some ip))
  told-joined none ip h = absurd (ground arith)
  told-joined (some out) ip h = (out, (refl, joined_line (last_address digit (split 10 out)) ip h))

  on_console-Reached :
      (forget : Bool) (ssid passphrase ip : Bytes) (usb : Usb)
      → (usb ≡ dot) ⊎ (usb ≡ techo5)
      → (r : Option Bytes × Console) → KeepsPort serial usb.ports usb.asked (usb.executed []) r
      → ((p : Bytes) → r.0 ≡ some p → IsUnits serial usb.asked usb.ports p)
      → on_console digit serial dot techo5 encode pbkdf2 forget ssid passphrase usb r
        ≡ ok (joined ip)
      → Reached forget ssid passphrase ip
  on_console-Reached forget ssid passphrase ip usb kind (none, c) keeps unit h =
      absurd (ground arith)
  on_console-Reached forget ssid passphrase ip usb kind (some p, c) keeps unit h =
      let b =
        bind-eq_ok (command_for digit serial dot techo5 encode pbkdf2 forget ssid passphrase) _ h in
      let o = told-joined _ ip (ok_injective b.2) in
      let l = last_address-line digit (split 10 o.0) ip o.1.1 in
      record {
        usb = usb;
        one_of = kind;
        port = p;
        of_unit = unit p refl;
        command = b.0;
        meant = b.1;
        out = o.0;
        ran =
            run-answered serial usb.ports usb.asked (usb.executed b.0) c p o.0 (keeps p refl) o.1.0;
        proper = l.0;
        said = l.1;
      }

  found-Reached :
      (forget : Bool) (ssid passphrase ip : Bytes) (usb : Usb) (c : Console)
      → (usb ≡ dot) ⊎ (usb ≡ techo5)
      → on_picked digit serial dot techo5 encode pbkdf2 forget ssid passphrase (usb, c)
        ≡ ok (joined ip)
      → Reached forget ssid passphrase ip
  found-Reached forget ssid passphrase ip usb c kind h =
      on_console-Reached forget ssid passphrase ip usb kind _
        (find-KeepsPort serial usb.ports usb.asked (usb.executed []) c)
        (λ p found. find-IsUnits serial usb.ports usb.asked (usb.executed []) c p found) h

  picked-Reached :
      (forget : Bool) (ssid passphrase ip : Bytes) (r : Option Bytes × Console)
      → on_picked digit serial dot techo5 encode pbkdf2 forget ssid passphrase
          (picked digit serial dot techo5 encode pbkdf2 r)
        ≡ ok (joined ip)
      → Reached forget ssid passphrase ip
  picked-Reached forget ssid passphrase ip (none, c) h =
      found-Reached forget ssid passphrase ip techo5 new_console (inr refl) h
  picked-Reached forget ssid passphrase ip (some p, c) h =
      found-Reached forget ssid passphrase ip dot c (inl refl) h

  -- An address is printed only when the command went to a port that is there, with the unit's serial or
  -- an answer that says it is the unit, and the address is a line of what the command printed there.
  pub set_wifi-Reached :
      (forget : Bool) (ssid passphrase ip : Bytes)
      → set_wifi digit serial dot techo5 encode pbkdf2 forget ssid passphrase ≡ ok (joined ip)
      → Reached forget ssid passphrase ip
  unfolding set_wifi
  set_wifi-Reached forget ssid passphrase ip =
      if_both (λ r. r ≡ ok (joined ip) → Reached forget ssid passphrase ip)
        (not forget && is_empty ssid) _ _ (λ nothing h. absurd (ground arith))
        (λ given h. picked-Reached forget ssid passphrase ip _ h)
