-- ===== src/Console/Session.antt =====
-- tools/techo5lib.py: the ports that class Console takes for its unit's.
use mathlib.Core.Path.{subst}
use techo5_dot.Prelude.{
  ◌≡◌, ◌⊎◌, refl, sym, ap, ◌∙◌, List, [], ◌∷◌, ◌++◌, Bytes, same, if◌then◌else◌, true, false,
  Bool-cases, inl, inr, Option, Option-cases, none, some, arith,
}
use techo5_dot.Console.Exchange.{Exchange, answered, unanswered, gone, unopened}
use techo5_dot.Console.Unit.{
  Console, first_of, others_of, arranged, has_serial, by_serial, says_is_unit, is_unit, by_asking,
  find, known_or_found, run, run_on, after_exchange,
}

-- The port is on the list with a USB serial that is the unit's, or the unit's command line there
-- names it.
abbrev pub IsUnits : Bytes → (Bytes → Exchange) → List (Bytes × Bytes) → Bytes → Type 0
IsUnits serial asked [] port = ⊥
IsUnits serial asked ((p, s) ∷ ports) port =
    ((p ≡ port) × ((has_serial serial s ≡ true) ⊎ (says_is_unit (asked p) ≡ true)))
    ⊎ IsUnits serial asked ports port

module _ (serial : Bytes) (ports : List (Bytes × Bytes)) (asked executed : Bytes → Exchange) where
  by_serial-IsUnits :
      (list : List (Bytes × Bytes)) {port : Bytes}
      → by_serial serial list ≡ some port
      → IsUnits serial asked list port
  unfolding by_serial
  by_serial-IsUnits [] h = absurd (ground arith)
  by_serial-IsUnits ((p, s) ∷ list) {port} h = elim (Bool-cases (has_serial serial s)) [
    | inl good ↦ inl ((let e : p ≡ port = ground arith in e), inl good)
    | inr bad ↦ inr (by_serial-IsUnits list (ground arith))
  ]

  by_asking-IsUnits :
      (list : List (Bytes × Bytes)) (c : Console) {port : Bytes}
      → (by_asking serial ports asked executed list c).0 ≡ some port
      → IsUnits serial asked list port
  unfolding by_asking is_unit
  by_asking-IsUnits [] c h = absurd (ground arith)
  by_asking-IsUnits ((p, s) ∷ list) c {port} h = elim (Bool-cases (says_is_unit (asked p))) [
    | inl good ↦ inl ((let e : p ≡ port = ground arith in e), inr good)
    | inr bad ↦ inr (
        let e : (by_asking serial ports asked executed list
              (is_unit serial ports asked executed p c).1).0
            ≡ some port =
          ground arith in
        by_asking-IsUnits list (is_unit serial ports asked executed p c).1 e)
  ]

  append-IsUnits :
      (xs ys : List (Bytes × Bytes)) (port : Bytes)
      → IsUnits serial asked (xs ++ ys) port
      → IsUnits serial asked xs port ⊎ IsUnits serial asked ys port
  append-IsUnits [] ys port h = inr h
  append-IsUnits ((p, s) ∷ xs) ys port (inl h) = inl (inl h)
  append-IsUnits ((p, s) ∷ xs) ys port (inr h) = elim (append-IsUnits xs ys port h) [
    | inl a ↦ inl (inr a)
    | inr b ↦ inr b
  ]

  first_of-IsUnits :
      (known : Bytes) (list : List (Bytes × Bytes)) (port : Bytes)
      → IsUnits serial asked (first_of known list) port
      → IsUnits serial asked list port
  unfolding first_of
  first_of-IsUnits known [] port h = h
  first_of-IsUnits known ((p, s) ∷ list) port h = elim (Bool-cases (same p known)) [
    | inl hit ↦
        add
          (subst
            (λ b.
              IsUnits serial asked (if b then (p, s) ∷ first_of known list else first_of known list)
                port)
            hit h)
          (λ k. first_of-IsUnits known list port k)
    | inr miss ↦ inr (
        first_of-IsUnits known list port (
          subst
            (λ b.
              IsUnits serial asked (if b then (p, s) ∷ first_of known list else first_of known list)
                port)
            miss h))
  ]
    where
      add :
          IsUnits serial asked ((p, s) ∷ first_of known list) port
          → (IsUnits serial asked (first_of known list) port → IsUnits serial asked list port)
          → IsUnits serial asked ((p, s) ∷ list) port
      add (inl a) rest = inl a
      add (inr b) rest = inr (rest b)

  others_of-IsUnits :
      (known : Bytes) (list : List (Bytes × Bytes)) (port : Bytes)
      → IsUnits serial asked (others_of known list) port
      → IsUnits serial asked list port
  unfolding others_of
  others_of-IsUnits known [] port h = h
  others_of-IsUnits known ((p, s) ∷ list) port h = elim (Bool-cases (same p known)) [
    | inr miss ↦
        add
          (subst
            (λ b.
              IsUnits serial asked
                (if b then others_of known list else (p, s) ∷ others_of known list) port)
            miss h)
          (λ k. others_of-IsUnits known list port k)
    | inl hit ↦ inr (
        others_of-IsUnits known list port (
          subst
            (λ b.
              IsUnits serial asked
                (if b then others_of known list else (p, s) ∷ others_of known list) port)
            hit h))
  ]
    where
      add :
          IsUnits serial asked ((p, s) ∷ others_of known list) port
          → (IsUnits serial asked (others_of known list) port → IsUnits serial asked list port)
          → IsUnits serial asked ((p, s) ∷ list) port
      add (inl a) rest = inl a
      add (inr b) rest = inr (rest b)

  arranged-IsUnits :
      (known : Option Bytes) (port : Bytes)
      → IsUnits serial asked (arranged known ports) port
      → IsUnits serial asked ports port
  arranged-IsUnits none port h = h
  arranged-IsUnits (some k) port h =
      elim (append-IsUnits (first_of k ports) (others_of k ports) port h) [
        | inl a ↦ first_of-IsUnits k ports port a
        | inr b ↦ others_of-IsUnits k ports port b
      ]

  -- A port that `find` settles on is one that is there now, with a USB serial that begins with the
  -- unit's or with an answer that says it is the unit.
  pub find-IsUnits :
      (c : Console) (port : Bytes)
      → (find serial ports asked executed c).0 ≡ some port
      → IsUnits serial asked ports port
  unfolding find
  find-IsUnits c port h = elim (Option-cases (by_serial serial (arranged c.port ports))) [
    | inr (p, found) ↦
        let e : p ≡ port = ground arith in
        arranged-IsUnits c.port port (by_serial-IsUnits (arranged c.port ports) (found ∙ ap some e))
    | inl missing ↦
        arranged-IsUnits c.port port (by_asking-IsUnits (arranged c.port ports) c (ground arith))
  ]

  after_exchange-eq_some :
      (p : Bytes) (x : Exchange) (c : Console) {out : Bytes}
      → (after_exchange serial ports asked executed p x c).0 ≡ some out
      → x ≡ answered out
  after_exchange-eq_some p (answered t) c h = ground arith
  after_exchange-eq_some p unanswered c h = absurd (ground arith)
  after_exchange-eq_some p gone c h = absurd (ground arith)
  after_exchange-eq_some p unopened c h = absurd (ground arith)

  run_on-eq_some :
      (f : Option Bytes × Console) {out : Bytes}
      → (run_on serial ports asked executed f).0 ≡ some out
      → (port : Bytes) × (f.0 ≡ some port) × (executed port ≡ answered out)
  run_on-eq_some (none, c) h = absurd (ground arith)
  run_on-eq_some (some p, c) h =
      (p, refl, after_exchange-eq_some p (executed p) (record c { went = false }) h)

  -- A console that has no port yet answers a command with what the command printed on a port that
  -- is the unit's, and with nothing else.
  pub run-IsUnits :
      (c : Console) {out : Bytes}
      → c.port ≡ none
      → (run serial ports asked executed none c).0 ≡ some out
      → (port : Bytes) × IsUnits serial asked ports port × (executed port ≡ answered out)
  unfolding run
  run-IsUnits c e h =
      let k =
        ap
          (λ o.
            (run_on serial ports asked executed (known_or_found serial ports asked executed o c)).0)
          (sym e)
        ∙ h in
      let (port, found, ran) = run_on-eq_some (find serial ports asked executed c) k in
      (port, find-IsUnits c port found, ran)
