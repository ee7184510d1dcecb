-- ===== src/Prelude/Strings.antt =====
-- The methods of Python's `str` and `bytes` that the tools use.
use Prim.Native.Nat.{ℕ, zero, suc, ◌+◌}
use mathlib.Core.Path.{◌≡◌, refl}
use mathlib.Core.Logic.{◌⊎◌, inl, inr}
use mathlib.Core.Bool.{Bool, true, false, ◌&&◌, ◌||◌}
use mathlib.Core.List.{List, [], ◌∷◌, ◌++◌}
use native.Mathlib.Omega.{arith}
use techo5_dot.Prelude.Tests.{◌==◌, if◌then◌else◌, Bool-cases}
use techo5_dot.Prelude.Texts.{Bytes, starts_with}

abbrev pub is_empty {ℓ} : {A : Type ℓ} → List A → Bool
is_empty [] = true
is_empty (x ∷ xs) = false

-- `c in chars`, for one character.
unfoldable pub among : ℕ → Bytes → Bool
among c [] = false
among c (x ∷ xs) = c == x || among c xs

-- `s.lstrip(chars)`
unfoldable pub lstrip : Bytes → Bytes → Bytes
lstrip chars [] = []
lstrip chars (x ∷ xs) = let rest = lstrip chars xs in if among x chars then rest else x ∷ xs

-- `s.rstrip(chars)`
unfoldable pub rstrip : Bytes → Bytes → Bytes
rstrip chars [] = []
rstrip chars (x ∷ xs) =
    let rest = rstrip chars xs in if among x chars && is_empty rest then [] else x ∷ rest

-- `s.strip(chars)`
abbrev pub strip : Bytes → Bytes → Bytes
strip chars s = rstrip chars (lstrip chars s)

abbrev pub cons_first : ℕ → List Bytes → List Bytes
cons_first x [] = (x ∷ []) ∷ []
cons_first x (w ∷ ws) = (x ∷ w) ∷ ws

-- `s.split(c)`, for one character.
unfoldable pub split : ℕ → Bytes → List Bytes
split c [] = [] ∷ []
split c (x ∷ xs) = let rest = split c xs in if x == c then [] ∷ rest else cons_first x rest

-- `s.partition(c)` without the separator.
unfoldable pub partition : ℕ → Bytes → Bytes × Bytes
partition c [] = ([], [])
partition c (x ∷ xs) = let (a, b) = partition c xs in if x == c then ([], xs) else (x ∷ a, b)

-- `sep.join(parts)`
unfoldable pub join : Bytes → List Bytes → Bytes
join sep [] = []
join sep (w ∷ []) = w
join sep (w ∷ v ∷ ws) = w ++ (sep ++ join sep (v ∷ ws))

-- `xs[:-1]`
abbrev pub init {ℓ} : {A : Type ℓ} → List A → List A
init [] = []
init (x ∷ []) = []
init (x ∷ y ∷ ys) = x ∷ init (y ∷ ys)

-- `range(i, i + n)`
abbrev pub range_from : ℕ → ℕ → List ℕ
range_from i zero = []
range_from i (suc n) = i ∷ range_from (i + 1) n

-- `s.replace(b"\r\n", b"\n")`
unfoldable pub replace_crlf : Bytes → Bytes
replace_crlf [] = []
replace_crlf (x ∷ []) = x ∷ []
replace_crlf (x ∷ y ∷ ys) =
    let short = replace_crlf ys in
    let long = replace_crlf (y ∷ ys) in if x == b'\r' && y == b'\n' then b'\n' ∷ short else x ∷ long

-- A text that is stripped of some leading characters does not begin with one of them.
pub starts_with-lstrip :
    (chars s : Bytes) (c : ℕ) → among c chars ≡ true → starts_with (lstrip chars s) (c ∷ []) ≡ false
unfolding lstrip starts_with
starts_with-lstrip chars [] c h = refl
starts_with-lstrip chars (x ∷ xs) c h = ground (arith, starts_with-lstrip chars xs c h)

rstrip-cases :
    (chars s : Bytes) (x : ℕ)
    → (rstrip chars (x ∷ s) ≡ []) ⊎ ((t : Bytes) × (rstrip chars (x ∷ s) ≡ x ∷ t))
unfolding rstrip
rstrip-cases chars s x = elim (Bool-cases (among x chars && is_empty (rstrip chars s))) [
  | inl h ↦ inl (ground arith)
  | inr h ↦ inr (rstrip chars s, ground arith)
]

-- Nor does it once characters are taken off its end.
pub starts_with-rstrip :
    (chars s : Bytes) (c : ℕ)
    → starts_with s (c ∷ []) ≡ false
    → starts_with (rstrip chars s) (c ∷ []) ≡ false
unfolding starts_with
starts_with-rstrip chars [] c h = unfold rstrip in refl
starts_with-rstrip chars (x ∷ xs) c h = elim (rstrip-cases chars xs x) [
  | inl e ↦ rw e
  | inr (t, e) ↦ rw e (ground arith)
]

-- Stripping a character that a text does not begin with.
pub lstrip_fixed : (c : ℕ) (s : Bytes) → starts_with s (c ∷ []) ≡ false → lstrip (c ∷ []) s ≡ s
unfolding lstrip starts_with among
lstrip_fixed c [] h = refl
lstrip_fixed c (x ∷ xs) h = ground arith
