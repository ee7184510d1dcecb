-- ===== src/BootImage/Words.antt =====
-- tools/linux/mkimage.py: `cmdline_words`, and the words that `write_bootimg` drops.
use techo5_dot.Prelude.{
  ℕ, List, [], ◌∷◌, ◌++◌, Bytes, Bool, false, not, ◌&&◌, ◌||◌, ◌==◌, leb, if◌then◌else◌, is_empty,
  starts_with,
}

-- `c.isspace()` of one byte: blank, tab, newline, vertical tab, form feed, carriage return.
unfoldable pub is_space : ℕ → Bool
is_space b = b == b' ' || leb 9 b && leb b 13

-- The loop over the bytes, with the words found, the word in hand and the quote state.
unfoldable pub words_loop : List Bytes → Bytes → Bool → Bytes → List Bytes
words_loop words word quoted [] = if is_empty word then words else words ++ word ∷ []
words_loop words word quoted (b ∷ bs) =
    let opened = words_loop words (word ++ b ∷ []) (not quoted) bs in
    let ended = words_loop (if is_empty word then words else words ++ word ∷ []) [] quoted bs in
    let grown = words_loop words (word ++ b ∷ []) quoted bs in
    if b == b'"' then opened else if is_space b && not quoted then ended else grown

unfoldable pub cmdline_words : Bytes → List Bytes
unfolding words_loop is_space
cmdline_words cmd = words_loop [] [] false cmd

-- `any(w.startswith(d) for d in cmdline_drop)`
unfoldable pub is_dropped : List Bytes → Bytes → Bool
is_dropped [] w = false
is_dropped (d ∷ ds) w = starts_with w d || is_dropped ds w

unfoldable pub drop_words : List Bytes → List Bytes → List Bytes
drop_words ds [] = []
drop_words ds (w ∷ ws) = let rest = drop_words ds ws in if is_dropped ds w then rest else w ∷ rest
