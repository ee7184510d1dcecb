-- ===== src/Asking/Answers.antt =====
-- tools/techo5lib.py: what the answers are held to.
use mathlib.Core.Path.{subst}
use techo5_dot.Prelude.{
  ℕ, zero, suc, ◌+◌, ◌-◌, ◌*◌, ◌/◌, ◌%◌, ◌<◌, ◌≤◌, ◌≡◌, ◌↔◌, ◌⊎◌, refl, sym, ap, ◌∙◌, List, [], ◌∷◌,
  Bytes, contains, same_iff, among, strip, is_empty, length, get_elem?, ltb, leb, if◌then◌else◌,
  Bool, true, false, ◌&&◌, Bool-cases, inl, inr, Option, Option-cases, none, some, ok, ok_injective,
  arith,
}
use techo5_dot.Ed25519.Accepts.{AreBytes}
use techo5_dot.Asking.Units.{
  Device, ready_units, pick_loop, pick_ready, pick_unit, isdigit, decimal, spaces,
}
use techo5_dot.Asking.Questions.{
  is_bad_name, name_loop, ask_name, confirm, hex, hex_digit, or_default,
}

-- A unit of the list has this serial, and is in one of the states.
abbrev pub Offered : List Device → List Bytes → Bytes → Type 0
Offered [] states serial = ⊥
Offered (u ∷ us) states serial =
    ((contains states u.state ≡ true) × (u.serial ≡ serial)) ⊎ Offered us states serial

ready-Offered :
    (units : List Device) (states : List Bytes) (i : ℕ) (u : Device)
    → get_elem? (ready_units units states) i ≡ some u
    → Offered units states (u.serial)
unfolding ready_units
ready-Offered [] states i u h = absurd (ground arith)
ready-Offered (v ∷ us) states i u h = elim (Bool-cases (contains states v.state)) [
  | inl ready ↦
      at i
        (ap (λ b. get_elem? (if b then v ∷ ready_units us states else ready_units us states) i)
            (sym ready)
          ∙ h)
        ready (λ k e. ready-Offered us states k u e)
  | inr out ↦ inr (
      ready-Offered us states i u (
        ap (λ b. get_elem? (if b then v ∷ ready_units us states else ready_units us states) i)
          (sym out)
        ∙ h))
]
  where
    at :
        (i : ℕ)
        → get_elem? (v ∷ ready_units us states) i ≡ some u
        → contains states v.state ≡ true
        → ((k : ℕ) → get_elem? (ready_units us states) k ≡ some u → Offered us states (u.serial))
        → Offered (v ∷ us) states (u.serial)
    at zero h ready rest = inl (ready, (let e : v ≡ u = cc in ap (λ d. d.serial) e))
    at (suc i) h ready rest = inr (rest i h)

pick_loop-listed :
    (ready : List Device) (lines : List Bytes) {serial : Bytes}
    → (pick_loop ready lines).0 ≡ ok serial
    → (i : ℕ) × (u : Device) × (get_elem? ready i ≡ some u) × (u.serial ≡ serial)
unfolding pick_loop
pick_loop-listed ready [] h = absurd (ground arith)
pick_loop-listed ready (line ∷ lines) {serial} h =
    let choice = strip spaces line in
    let i = decimal 0 choice - 1 in
    elim (Bool-cases (isdigit choice && leb 1 (decimal 0 choice))) [
      | inr bad ↦ pick_loop-listed ready lines (ground arith)
      | inl number ↦ elim (Option-cases (get_elem? ready i)) [
        | inl out ↦ pick_loop-listed ready lines (ground arith)
        | inr (u, found) ↦ (i, u, found, ground arith)
      ]
    ]

-- `pick_unit` answers with the serial it was given, or with that of a unit that adb sees in one
-- of the states asked for; nothing typed can name another.
pub pick_unit-Offered :
    (given : Bytes) (units : List Device) (states : List Bytes) (interactive : Bool)
    (lines : List Bytes) {serial : Bytes}
    → (pick_unit given units states interactive lines).0 ≡ ok serial
    → ((is_empty given ≡ false) × (given ≡ serial)) ⊎ Offered units states serial
unfolding pick_unit
pick_unit-Offered given units states interactive lines {serial} h =
    elim (Bool-cases (is_empty given)) [
      | inr named ↦ inl (named, ground arith)
      | inl asked ↦ inr (
          from (ready_units units states) (λ i u e. ready-Offered units states i u e)
            (ground arith))
    ]
  where
    from :
        (ready : List Device)
        → ((i : ℕ) (u : Device) → get_elem? ready i ≡ some u → Offered units states (u.serial))
        → (pick_ready interactive ready lines).0 ≡ ok serial
        → Offered units states serial
    from [] offered h = absurd (ground arith)
    from (u ∷ []) offered h = subst (Offered units states) (ok_injective h) (offered 0 u refl)
    from (u ∷ v ∷ us) offered h = elim (Bool-cases interactive) [
      | inr nobody ↦ absurd (ground arith)
      | inl somebody ↦
          let (i, d, found, e) =
            pick_loop-listed (u ∷ v ∷ us) lines
              (let k : (pick_loop (u ∷ v ∷ us) lines).0 ≡ ok serial = ground arith in k) in
          subst (Offered units states) e (offered i d found)
    ]

name_loop-valid :
    (default : Bytes) (lines : List Bytes) {n : Bytes}
    → (name_loop default lines).0 ≡ ok n
    → is_bad_name n ≡ false
unfolding name_loop
name_loop-valid default [] h = absurd (ground arith)
name_loop-valid default (line ∷ lines) {n} h =
    elim (Bool-cases (is_bad_name (or_default default (strip spaces line)))) [
      | inl bad ↦ name_loop-valid default lines (ground arith)
      | inr good ↦
          let e : or_default default (strip spaces line) ≡ n = ground arith in rw (← e) good
    ]

-- Whatever name `ask_name` gives back, from a switch, a default or the terminal, is one line of at
-- most 31 characters that are not all blank.
pub ask_name-valid :
    (given : Option Bytes) (default : Bytes) (interactive : Bool) (lines : List Bytes) {n : Bytes}
    → (ask_name given default interactive lines).0 ≡ ok n
    → (among 10 n ≡ false) × (is_empty (strip spaces n) ≡ false) × (length n ≤ 31)
unfolding ask_name is_bad_name
ask_name-valid (some n) default interactive lines h = ground arith
ask_name-valid none default interactive lines h =
    let good : is_bad_name _ ≡ false = asked interactive h in ground arith
  where
    asked :
        (b : Bool) {n : Bytes} → (ask_name none default b lines).0 ≡ ok n → is_bad_name n ≡ false
    asked true h = name_loop-valid default lines h
    asked false h = absurd (ground arith)

-- `confirm` lets the tool go on exactly when --force was given, or somebody is at the terminal and
-- types the word, white space around it aside.
pub confirm_iff :
    (force : Bool) (word : Bytes) (interactive : Bool) (lines : List Bytes)
    → ((confirm force word interactive lines).0 ≡ ok tt) ↔ (
        (force ≡ true)
        ⊎ ((interactive ≡ true)
            × ((line : Bytes) × (rest : List Bytes) × (lines ≡ line ∷ rest)
                × (strip spaces line ≡ word))))
unfolding confirm
confirm_iff true word interactive lines = (λ h. inl refl, λ h. refl)
confirm_iff false word false lines = (λ h. absurd (ground arith), λ h. absurd (ground arith))
confirm_iff false word true [] = (λ h. absurd (ground arith), λ h. absurd (ground arith))
confirm_iff false word true (line ∷ lines) = (
  λ h. inr (refl, (line, lines, refl, (same_iff (strip spaces line) word).0 (ground arith))),
  λ h. elim h [
    | inl forced ↦ absurd (ground arith)
    | inr (_, (typed, rest, e, word_typed)) ↦
        let typed_line : line ≡ typed = cc in
        let e2 =
          (same_iff (strip spaces line) word).1 (ap (strip spaces) typed_line ∙ word_typed) in
        rw e2
  ],
)

abbrev pub hex_value : ℕ → ℕ
hex_value d = if ltb d 97 then d - b'0' else d - 87

-- `bytes.fromhex`
unfoldable pub from_hex : Bytes → Bytes
from_hex (a ∷ b ∷ s) = (16 * hex_value a + hex_value b) ∷ from_hex s
from_hex _ = []

hex_value-hex_digit : (n : ℕ) → n < 16 → hex_value (hex_digit n) ≡ n
hex_value-hex_digit n h = ground arith

-- The hexadecimal digits that go into wifi.conf stand for the bytes they were made of.
pub from_hex-hex : (b : Bytes) → AreBytes b → from_hex (hex b) ≡ b
unfolding from_hex hex
from_hex-hex [] h = refl
from_hex-hex (x ∷ xs) (small, hs) =
    let high = hex_value-hex_digit (x / 16) (omega arith) in
    let low = hex_value-hex_digit (x % 16) (omega arith) in
    let head : 16 * hex_value (hex_digit (x / 16)) + hex_value (hex_digit (x % 16)) ≡ x =
      rw (high, low) (omega arith) in
    let tail = from_hex-hex xs hs in cc
