-- ===== src/FirstBoot/Answers.antt =====
-- tools/install-dot.py: what the unit's console answers, read as names and values.
use techo5_dot.Prelude.{
  ℕ, List, [], ◌∷◌, Bytes, same, split, leb, is_empty, if◌then◌else◌, ◌==◌, Bool, ◌&&◌, ◌||◌,
  Option, none, some,
}

-- `\w` on the ASCII characters; `wide` tells which of the others are letters or digits.
abbrev pub is_word : (ℕ → Bool) → ℕ → Bool
is_word wide c =
    leb b'0' c && leb c b'9'
    || leb b'a' c && leb c b'z'
    || leb b'A' c && leb c b'Z'
    || c == b'_'
    || leb 128 c && wide c

abbrev pub with_first : ℕ → Option (Bytes × Bytes) → Option (Bytes × Bytes)
with_first c none = none
with_first c (some (key, value)) = some (c ∷ key, value)

module _ (wide : ℕ → Bool) where
  -- What a line has behind its word, at the equals sign.
  unfoldable pub word_then : Bytes → Option (Bytes × Bytes)
  word_then [] = none
  word_then (c ∷ cs) =
      let rest = word_then cs in
      if is_word wide c then with_first c rest else if c == b'=' then some ([], cs) else none

  -- `^(\w+)=(.*)$` on one line.
  abbrev pub pair_of : Bytes → Option (Bytes × Bytes)
  pair_of line = elim (word_then line) [
    | none ↦ none
    | some kv ↦ if is_empty kv.0 then none else some kv
  ]

  abbrev pub value_in : Bytes → Option (Bytes × Bytes) → Option Bytes
  value_in key none = none
  value_in key (some kv) = if same kv.0 key then some kv.1 else none

  -- The value of the last line that has the key, as a dictionary made of all of them gives it.
  unfoldable pub last_value : Bytes → List Bytes → Option Bytes
  last_value key [] = none
  last_value key (line ∷ lines) = elim (last_value key lines) [
    | none ↦ value_in key (pair_of line)
    | some v ↦ some v
  ]

  -- `kv.get(key)`
  unfoldable pub kv_get : Bytes → Bytes → Option Bytes
  kv_get out key = last_value key (split 10 out)

  -- `kv.get(key, '')`; where only the truth of the value counts, also `kv.get(key)`.
  unfoldable pub kv_or_empty : Bytes → Bytes → Bytes
  kv_or_empty out key = elim (kv_get out key) [ none ↦ [] | some v ↦ v ]
