-- ===== src/CommandLine/Options.antt =====
-- The command lines of tools/linux/mkimage.py and tools/linux/mkrootfs.py, as argparse reads them.
use techo5_dot.Prelude.{
  ◌≡◌, refl, ap, sym, ◌∙◌, List, [], ◌∷◌, ◌++◌, Bytes, codes, contains, same, starts_with,
  if◌then◌else◌, Bool, true, false, not, ◌&&◌, Option, none, some, Result, ok, err, arith,
}

-- The options that take a value, and those that take none.
pub record Parser : Type 0 where
  pub valued : List Bytes
  pub switches : List Bytes

pub data UsageError : Type 0 where
  no_value unknown missing : Bytes → UsageError

-- A word that is no option: it does not start with a dash.
abbrev pub is_value : Bytes → Bool
is_value word = not (starts_with word (codes "-"))

abbrev pub with_option :
    Bytes × Bytes
    → Result UsageError (List (Bytes × Bytes))
    → Result UsageError (List (Bytes × Bytes))
with_option o (ok options) = ok (o ∷ options)
with_option o (err e) = err e

-- The options in order, each with its value.
unfoldable pub read_options : Parser → List Bytes → Result UsageError (List (Bytes × Bytes))
read_options p [] = ok []
read_options p (word ∷ []) =
    if contains p.switches word
    then ok ((word, []) ∷ [])
    else if contains p.valued word
    then err (no_value word)
    else err (unknown word)
read_options p (word ∷ value ∷ rest) =
    let behind_switch = read_options p (value ∷ rest) in
    let behind_value = read_options p rest in
    if contains p.switches word
    then with_option (word, []) behind_switch
    else if contains p.valued word
    then if is_value value then with_option (word, value) behind_value else err (no_value word)
    else err (unknown word)

-- The values of an option that may be given several times, and the last value of another.
unfoldable pub all_of : Bytes → List (Bytes × Bytes) → List Bytes
all_of flag [] = []
all_of flag ((f, value) ∷ options) =
    let rest = all_of flag options in if same f flag then value ∷ rest else rest

unfoldable pub last_of : Bytes → List (Bytes × Bytes) → Option Bytes
last_of flag [] = none
last_of flag ((f, value) ∷ options) = elim (last_of flag options) [
  | none ↦ if same f flag then some value else none
  | some v ↦ some v
]

-- The words that give the options.
unfoldable pub words_of : List (Bytes × Bytes) → List Bytes
words_of [] = []
words_of ((f, value) ∷ options) = f ∷ value ∷ words_of options

unfoldable pub fits : Parser → List (Bytes × Bytes) → Bool
fits p [] = true
fits p ((f, value) ∷ options) =
    (not (contains p.switches f) && contains p.valued f && is_value value) && fits p options

-- Options that fit are read back from the words that give them.
pub read_options-words_of :
    (p : Parser) (options : List (Bytes × Bytes))
    → fits p options ≡ true
    → read_options p (words_of options) ≡ ok options
unfolding read_options words_of fits
read_options-words_of p [] h = refl
read_options-words_of p ((f, value) ∷ options) h =
    let later = read_options-words_of p options (ground arith) in
    let no_switch : contains p.switches f ≡ false = ground arith in
    let known : contains p.valued f ≡ true = ground arith in
    let proper : is_value value ≡ true = ground arith in rw (no_switch, known, proper, later) refl

pub words_of-append : (a b : List (Bytes × Bytes)) → words_of (a ++ b) ≡ words_of a ++ words_of b
unfolding words_of
words_of-append [] b = refl
words_of-append ((f, value) ∷ a) b = cc (words_of-append a b)

pub words_both :
    (x y : List (Bytes × Bytes)) {a b : List Bytes}
    → a ≡ words_of x
    → b ≡ words_of y
    → a ++ b ≡ words_of (x ++ y)
words_both x y {b = b} e f =
    ap (λ t. t ++ b) e ∙ ap (λ t. words_of x ++ t) f ∙ sym (words_of-append x y)

pub fits-append :
    (p : Parser) (a b : List (Bytes × Bytes)) → fits p (a ++ b) ≡ (fits p a && fits p b)
unfolding fits
fits-append p [] b = refl
fits-append p ((f, value) ∷ a) b = ground (arith, fits-append p a b)

pub fits_first :
    (p : Parser) (f value : Bytes) (options : List (Bytes × Bytes))
    → not (contains p.switches f) && contains p.valued f ≡ true
    → is_value value ≡ true
    → fits p options ≡ true
    → fits p ((f, value) ∷ options) ≡ true
unfolding fits
fits_first p f value options known proper h = ground arith

pub fits_none : (p : Parser) → fits p [] ≡ true
unfolding fits
fits_none p = refl

pub fits_both :
    (p : Parser) (a b : List (Bytes × Bytes))
    → fits p a ≡ true
    → fits p b ≡ true
    → fits p (a ++ b) ≡ true
fits_both p a b f g = let e = fits-append p a b in ground arith

pub all_of-append :
    (flag : Bytes) (a b : List (Bytes × Bytes))
    → all_of flag (a ++ b) ≡ all_of flag a ++ all_of flag b
unfolding all_of
all_of-append flag [] b = refl
all_of-append flag ((f, value) ∷ a) b = ground (arith, all_of-append flag a b)

abbrev pub or_else : Option Bytes → Option Bytes → Option Bytes
or_else none b = b
or_else (some v) b = some v

pub or_else-none : (o : Option Bytes) → or_else o none ≡ o
or_else-none none = refl
or_else-none (some v) = refl

pub last_of-append :
    (flag : Bytes) (a b : List (Bytes × Bytes))
    → last_of flag (a ++ b) ≡ or_else (last_of flag b) (last_of flag a)
unfolding last_of
last_of-append flag [] b = ground arith
last_of-append flag ((f, value) ∷ a) b = ground (arith, last_of-append flag a b)

-- One option with several values, and one that may be left out.
unfoldable pub options_for : Bytes → List Bytes → List (Bytes × Bytes)
options_for flag [] = []
options_for flag (v ∷ vs) = (flag, v) ∷ options_for flag vs

abbrev pub option_if : Bytes → Option Bytes → List (Bytes × Bytes)
option_if flag none = []
option_if flag (some v) = (flag, v) ∷ []

abbrev pub list_of : Option Bytes → List Bytes
list_of none = []
list_of (some v) = v ∷ []

unfoldable pub all_values : List Bytes → Bool
all_values [] = true
all_values (v ∷ vs) = is_value v && all_values vs

pub all_of-options_for :
    (flag f : Bytes) (vs : List Bytes)
    → all_of flag (options_for f vs) ≡ (if same f flag then vs else [])
unfolding all_of options_for
all_of-options_for flag f [] = ground arith
all_of-options_for flag f (v ∷ vs) = ground (arith, all_of-options_for flag f vs)

pub last_of-options_for :
    (flag f : Bytes) (vs : List Bytes)
    → same f flag ≡ false
    → last_of flag (options_for f vs) ≡ none
unfolding last_of options_for
last_of-options_for flag f [] h = refl
last_of-options_for flag f (v ∷ vs) h = ground (arith, last_of-options_for flag f vs)

pub last_of-option_if :
    (flag f : Bytes) (o : Option Bytes)
    → last_of flag (option_if f o) ≡ (if same f flag then o else none)
unfolding last_of
last_of-option_if flag f none = ground arith
last_of-option_if flag f (some v) = refl

pub all_of-option_if :
    (flag f : Bytes) (o : Option Bytes)
    → all_of flag (option_if f o) ≡ (if same f flag then list_of o else [])
unfolding all_of
all_of-option_if flag f none = ground arith
all_of-option_if flag f (some v) = refl

pub fits-options_for :
    (p : Parser) (f : Bytes) (vs : List Bytes)
    → not (contains p.switches f) && contains p.valued f ≡ true
    → all_values vs ≡ true
    → fits p (options_for f vs) ≡ true
unfolding fits options_for all_values
fits-options_for p f [] h v = refl
fits-options_for p f (x ∷ vs) h v = ground (arith, fits-options_for p f vs)

pub fits-option_if :
    (p : Parser) (f : Bytes) (o : Option Bytes)
    → not (contains p.switches f) && contains p.valued f ≡ true
    → all_values (list_of o) ≡ true
    → fits p (option_if f o) ≡ true
unfolding fits all_values
fits-option_if p f none h v = refl
fits-option_if p f (some x) h v = ground arith

pub all_values_both :
    (xs ys : List Bytes)
    → all_values xs ≡ true
    → all_values ys ≡ true
    → all_values (xs ++ ys) ≡ true
unfolding all_values
all_values_both [] ys h k = k
all_values_both (x ∷ xs) ys h k = ground (arith, all_values_both xs ys)
