-- ===== src/Cpio/Hex.antt =====
-- The number fields of a newc header: `b"%08X" % v` writes one, `int(field, 16)` reads it.
use techo5_dot.Prelude.{
  ℕ, zero, suc, ◌+◌, ◌-◌, ◌*◌, ◌/◌, ◌%◌, ◌^◌, ◌<◌, ◌≡◌, ◌≢◌, refl, ap, ◌∙◌, sym, [], ◌∷◌, ◌++◌,
  ◌&&◌, Option, none, some, arith, ltb, leb, ◌==◌, ◌||◌, Bool, true, false, ℤ, pos, negsuc,
  if◌then◌else◌, Bool-cases, inl, inr, Bytes, length, replicate, length-append, append_assoc,
  append-nil, ltb→lt, lt→ltb,
}
use native.Mathlib.Nat.{pow-suc}

-- An upper-case hexadecimal digit.
hex_digit : ℕ → ℕ
hex_digit d = if ltb d 10 then b'0' + d else (b'A' - 10) + d

-- The digits of `v` with no leading zero; the fuel is one more than `v`, which no number of
-- divisions by 16 uses up.
hex_digits : ℕ → ℕ → Bytes
hex_digits zero v = []
hex_digits (suc fuel) v =
    let rest = hex_digits fuel (v / 16) in
    if ltb v 16 then hex_digit v ∷ [] else rest ++ hex_digit (v % 16) ∷ []

-- `b"%08X" % v`: at least eight digits.
unfoldable pub format_08x : ℕ → Bytes
unfolding hex_digits hex_digit
format_08x v = let digits = hex_digits (suc v) v in replicate (8 - length digits) b'0' ++ digits

hex_value : ℕ → Option ℕ
hex_value c =
    if leb b'0' c && leb c b'9'
    then some (c - b'0')
    else if leb b'A' c && leb c b'F'
    then some (c - (b'A' - 10))
    else if leb b'a' c && leb c b'f'
    then some (c - (b'a' - 10))
    else none

is_space : ℕ → Bool
is_space c = leb 9 c && leb c 13 || c == b' '

only_spaces : Bytes → Bool
only_spaces [] = true
only_spaces (c ∷ cs) = is_space c && only_spaces cs

skip_spaces : Bytes → Bytes
skip_spaces [] = []
skip_spaces (c ∷ cs) = if is_space c then skip_spaces cs else c ∷ cs

-- The digits from here on, with at most one underscore between two of them; `wanted` tells that a
-- digit has to come next. Blanks may stand behind the last.
hex_fold : Bool → ℕ → Bytes → Option ℕ
hex_fold wanted acc [] = if wanted then none else some acc
hex_fold wanted acc (c ∷ cs) = elim (hex_value c) [
  | some d ↦ hex_fold false (acc * 16 + d) cs
  | none ↦
      let more = hex_fold true acc cs in
      if wanted
      then none
      else if c == b'_'
      then more
      else if only_spaces (c ∷ cs)
      then some acc
      else none
]

-- One underscore may stand behind `0x`.
behind_prefix : Bytes → Option ℕ
behind_prefix [] = none
behind_prefix (c ∷ cs) = if c == b'_' then hex_fold true 0 cs else hex_fold true 0 (c ∷ cs)

without_sign : Bytes → Option ℕ
without_sign (a ∷ x ∷ cs) =
    if a == b'0' && (x == b'x' || x == b'X') then behind_prefix cs else hex_fold true 0 (a ∷ x ∷ cs)
without_sign s = hex_fold true 0 s

abbrev positive : Option ℕ → Option ℤ
positive none = none
positive (some n) = some (pos n)

abbrev negative : Option ℕ → Option ℤ
negative none = none
negative (some zero) = some (pos 0)
negative (some (suc n)) = some (negsuc n)

with_sign : Bytes → Option ℤ
with_sign [] = none
with_sign (c ∷ cs) =
    if c == b'-'
    then negative (without_sign cs)
    else if c == b'+'
    then positive (without_sign cs)
    else positive (without_sign (c ∷ cs))

-- `int(field, 16)`; `none` is its ValueError. It takes blanks around the number, a sign, `0x`, and
-- underscores between digits.
unfoldable pub parse_hex : Bytes → Option ℤ
unfolding hex_fold hex_value is_space only_spaces skip_spaces behind_prefix without_sign with_sign
parse_hex s = with_sign (skip_spaces s)

-- The last `n` digits of `v`.
pub fixed : ℕ → ℕ → Bytes
fixed zero v = []
fixed (suc n) v = fixed n (v / 16) ++ hex_digit (v % 16) ∷ []

pub length-fixed : (n v : ℕ) → length (fixed n v) ≡ n
unfolding fixed
length-fixed zero v = refl
length-fixed (suc n) v =
    omega (
      arith,
      length-append {0} (fixed n (v / 16)) (hex_digit (v % 16) ∷ []),
      length-fixed n (v / 16),
    )

replicate-snoc : (n : ℕ) (c : ℕ) → c ∷ replicate n c ≡ replicate n c ++ c ∷ []
replicate-snoc zero c = refl
replicate-snoc (suc n) c = ap (◌∷◌ c) (replicate-snoc n c)

fixed_zero : (n : ℕ) → fixed n 0 ≡ replicate n b'0'
unfolding fixed hex_digit
fixed_zero zero = refl
fixed_zero (suc n) = rw (fixed_zero n) (sym (replicate-snoc n b'0'))

pad_step :
    (n c d : ℕ) (xs : Bytes)
    → replicate (suc n - length (xs ++ d ∷ [])) c ++ (xs ++ d ∷ [])
      ≡ (replicate (n - length xs) c ++ xs) ++ d ∷ []
pad_step n c d xs =
    let e : suc n - length (xs ++ d ∷ []) ≡ n - length xs =
      omega (arith, length-append {0} xs (d ∷ [])) in
    rw e (sym (append_assoc (replicate (n - length xs) c) xs (d ∷ [])))

pad_small : (n v : ℕ) → v < 16 → replicate (suc n - 1) b'0' ++ hex_digit v ∷ [] ≡ fixed (suc n) v
unfolding fixed
pad_small n v lt =
    let m : v % 16 ≡ v = omega arith in
    let q : v / 16 ≡ 0 = omega arith in
    let e : suc n - 1 ≡ n = omega arith in
    rw (e, m, q) (ap (λ t. t ++ hex_digit v ∷ []) (sym (fixed_zero n)))

-- Padding to a width that the number fits gives exactly the last digits.
pad-fixed :
    (n fuel v : ℕ)
    → v < fuel
    → v < 16 ^ suc n
    → replicate (suc n - length (hex_digits fuel v)) b'0' ++ hex_digits fuel v ≡ fixed (suc n) v
unfolding hex_digits
pad-fixed n zero v h k = absurd (omega arith)
pad-fixed zero (suc fuel) v h k =
    let lt : v < 16 = omega (arith, pow-suc 16 0) in rw (lt→ltb v 16 lt) (pad_small 0 v lt)
pad-fixed (suc n) (suc fuel) v h k = elim (Bool-cases (ltb v 16)) [
  | inl small ↦ rw small (pad_small (suc n) v (ltb→lt v 16 small))
  | inr large ↦
      let bound : v / 16 < 16 ^ suc n = omega (arith, pow-suc 16 (suc n)) in
      rw large (
        pad_step (suc n) b'0' (hex_digit (v % 16)) (hex_digits fuel (v / 16))
        ∙ ap (λ t. t ++ hex_digit (v % 16) ∷ []) (pad-fixed n fuel (v / 16) (ground arith) bound)
        ∙ (unfold fixed in refl))
]

-- A field of a number below 2 ^ 32 is its eight last digits.
pub format_08x-fixed : (v : ℕ) → v < 2 ^ 32 → format_08x v ≡ fixed 8 v
unfolding format_08x
format_08x-fixed v h = pad-fixed 7 (suc v) v (omega arith) h

pub length-format_08x : (v : ℕ) → v < 2 ^ 32 → length (format_08x v) ≡ 8
length-format_08x v h = rw (format_08x-fixed v h) (length-fixed 8 v)

hex_value-hex_digit : (d : ℕ) → d < 16 → hex_value (hex_digit d) ≡ some d
unfolding hex_value hex_digit
hex_value-hex_digit d h = ground arith

hex_fold-hex_digit :
    (wanted : Bool) (acc d : ℕ) (cs : Bytes)
    → d < 16
    → hex_fold wanted acc (hex_digit d ∷ cs) ≡ hex_fold false (acc * 16 + d) cs
unfolding hex_fold
hex_fold-hex_digit wanted acc d cs h = ground (arith, hex_value-hex_digit d h)

hex_digit_plain :
    (d : ℕ)
    → d < 16
    → (is_space (hex_digit d) ≡ false)
      × ((hex_digit d == b'-') ≡ false)
      × ((hex_digit d == b'+') ≡ false)
      × ((hex_digit d == b'x') ≡ false)
      × ((hex_digit d == b'X') ≡ false)
unfolding hex_digit is_space
hex_digit_plain d h = (ground arith, ground arith, ground arith, ground arith, ground arith)

no_prefix : (b : Bool) → (b && (false || false)) ≡ false
no_prefix true = refl
no_prefix false = refl

-- Digits in front are taken for no blank, sign or prefix.
parse_hex-digits :
    (a b : ℕ) (cs : Bytes)
    → a < 16
    → b < 16
    → parse_hex (hex_digit a ∷ hex_digit b ∷ cs)
      ≡ positive (hex_fold true 0 (hex_digit a ∷ hex_digit b ∷ cs))
unfolding parse_hex with_sign skip_spaces without_sign
parse_hex-digits a b cs h k =
    let (space, minus, plus, _, _) = hex_digit_plain a h in
    let (_, _, _, x, upper_x) = hex_digit_plain b k in
    rw space (rw (minus, plus) (rw (x, upper_x) (rw (no_prefix (hex_digit a == b'0')) refl)))

hex_fold-fixed :
    (n v : ℕ) (rest : Bytes)
    → v < 16 ^ suc n
    → hex_fold true 0 (fixed (suc n) v ++ rest) ≡ hex_fold false v rest
unfolding fixed
hex_fold-fixed zero v rest h =
    hex_fold-hex_digit true 0 (v % 16) rest (omega arith)
    ∙ ap (λ t. hex_fold false t rest) (omega (arith, pow-suc 16 0))
hex_fold-fixed (suc n) v rest h =
    let bound : v / 16 < 16 ^ suc n = omega (arith, pow-suc 16 (suc n)) in
    let back : v / 16 * 16 + v % 16 ≡ v = omega arith in
    ap (hex_fold true 0) (append_assoc (fixed (suc n) (v / 16)) (hex_digit (v % 16) ∷ []) rest)
    ∙ hex_fold-fixed n (v / 16) (hex_digit (v % 16) ∷ rest) bound
    ∙ hex_fold-hex_digit false (v / 16) (v % 16) rest (omega arith)
    ∙ ap (λ t. hex_fold false t rest) back

digits_value : (v : ℕ) → v < 2 ^ 32 → hex_fold true 0 (fixed 8 v) ≡ some v
digits_value v h =
    ap (hex_fold true 0) (sym (append-nil (fixed 8 v)))
    ∙ hex_fold-fixed 7 v [] (omega arith)
    ∙ (unfold hex_fold in refl)

-- Reading back a field gives the number.
pub parse_hex-format_08x : (v : ℕ) → v < 2 ^ 32 → parse_hex (format_08x v) ≡ some (pos v)
unfolding fixed
parse_hex-format_08x v h =
    rw (format_08x-fixed v h)
      (parse_hex-digits _ _ _ (omega arith) (omega arith) ∙ ap positive (digits_value v h))

-- No byte is a minus sign.
abbrev pub NoMinus : Bytes → Type 0
NoMinus [] = Unit
NoMinus (c ∷ cs) = (c ≢ b'-') × NoMinus cs

abbrev pub IsPos : ℤ → Type 0
IsPos z = (n : ℕ) × (z ≡ pos n)

skip_spaces-NoMinus : (s : Bytes) → NoMinus s → NoMinus (skip_spaces s)
unfolding skip_spaces
skip_spaces-NoMinus [] h = tt
skip_spaces-NoMinus (c ∷ cs) (ne, h) = elim (Bool-cases (is_space c)) [
  | inl blank ↦ rw blank (skip_spaces-NoMinus cs h)
  | inr other ↦ rw other (ne, h)
]

positive-IsPos : (o : Option ℕ) (z : ℤ) → positive o ≡ some z → IsPos z
positive-IsPos none z e = absurd (ground arith)
positive-IsPos (some n) z e = (n, ground arith)

with_sign-IsPos : (s : Bytes) (z : ℤ) → NoMinus s → with_sign s ≡ some z → IsPos z
unfolding with_sign
with_sign-IsPos [] z h e = absurd (ground arith)
with_sign-IsPos (c ∷ cs) z (ne, h) e = elim (Bool-cases (c == b'+')) [
  | inl signed ↦ positive-IsPos (without_sign cs) z (ground arith)
  | inr plain ↦ positive-IsPos (without_sign (c ∷ cs)) z (ground arith)
]

-- Without a minus sign no negative number is read.
pub parse_hex-IsPos : (s : Bytes) (z : ℤ) → NoMinus s → parse_hex s ≡ some z → IsPos z
unfolding parse_hex
parse_hex-IsPos s z h e = with_sign-IsPos (skip_spaces s) z (skip_spaces-NoMinus s h) e
