-- ===== src/BootImage/Quotes.antt =====
-- tools/linux/mkimage.py: how `cmdline_words` treats quotes and blanks.
use techo5_dot.Prelude.{
  ℕ, List, [], ◌∷◌, ◌++◌, Bytes, codes, Bool, true, false, not, ◌&&◌, ◌||◌, ◌==◌, if◌then◌else◌,
  is_empty, join, append_assoc, append-nil, ◌≡◌, refl, ap, ◌∙◌, sym, arith,
}
use techo5_dot.BootImage.Words.{is_space, words_loop}

abbrev pub flip : Bool → ℕ → Bool
flip quoted b = if b == b'"' then not quoted else quoted

-- Whether the bytes end inside quotes.
unfoldable pub quotes : Bool → Bytes → Bool
quotes quoted [] = quoted
quotes quoted (b ∷ bs) = quotes (flip quoted b) bs

-- Whether every blank stands inside quotes.
unfoldable pub solid : Bool → Bytes → Bool
solid quoted [] = true
solid quoted (b ∷ bs) =
    let rest = solid (flip quoted b) bs in (b == b'"' || not (is_space b && not quoted)) && rest

-- A word of a command line: not empty, its quotes closed and its blanks inside quotes.
pub record IsWord (w : Bytes) : Type 0 where
  pub solid_word : solid false w ≡ true
  pub closed : quotes false w ≡ false
  pub filled : is_empty w ≡ false

abbrev pub AllWords : List Bytes → Type 0
AllWords [] = Unit
AllWords (w ∷ ws) = IsWord w × AllWords ws

pub quotes-append : (q : Bool) (a b : Bytes) → quotes q (a ++ b) ≡ quotes (quotes q a) b
unfolding quotes
quotes-append q [] b = refl
quotes-append q (x ∷ a) b = quotes-append (flip q x) a b

pub solid-append : (q : Bool) (a b : Bytes) → solid q (a ++ b) ≡ (solid q a && solid (quotes q a) b)
unfolding solid quotes
solid-append q [] b = refl
solid-append q (x ∷ a) b = ground (arith, solid-append (flip q x) a b)

-- A solid stretch goes into the word in hand.
loop_solid :
    (w : Bytes) (ws : List Bytes) (word : Bytes) (q : Bool) (rest : Bytes)
    → solid q w ≡ true
    → words_loop ws word q (w ++ rest) ≡ words_loop ws (word ++ w) (quotes q w) rest
unfolding words_loop solid quotes
loop_solid [] ws word q rest h = ap (λ t. words_loop ws t q rest) (sym (append-nil word))
loop_solid (b ∷ w) ws word q rest h =
    rw (sym (append_assoc word (b ∷ []) w))
      (ground (arith, loop_solid w ws (word ++ b ∷ []) (flip q b) rest))

-- A word and the blank behind it.
loop_word :
    (w : Bytes) (ws : List Bytes) (rest : Bytes)
    → IsWord w
    → words_loop ws [] false (w ++ (b' ' ∷ rest)) ≡ words_loop (ws ++ w ∷ []) [] false rest
loop_word w ws rest h =
    loop_solid w ws [] false (b' ' ∷ rest) h.solid_word
    ∙ rw h.closed (unfold words_loop is_space in rw h.filled)

loop_last : (w : Bytes) (ws : List Bytes) → IsWord w → words_loop ws [] false w ≡ ws ++ w ∷ []
loop_last w ws h =
    ap (words_loop ws [] false) (sym (append-nil w))
    ∙ loop_solid w ws [] false [] h.solid_word
    ∙ rw h.closed (unfold words_loop in rw h.filled)

-- Words joined by blanks are split into the same words.
pub words-join :
    (ws acc : List Bytes) → AllWords ws → words_loop acc [] false (join (codes " ") ws) ≡ acc ++ ws
unfolding join
words-join [] acc h = unfold words_loop in sym (append-nil acc)
words-join (w ∷ []) acc (h, _) = loop_last w acc h
words-join (w ∷ v ∷ ws) acc (h, hs) =
    loop_word w acc (join (codes " ") (v ∷ ws)) h
    ∙ words-join (v ∷ ws) (acc ++ w ∷ []) hs
    ∙ append_assoc acc (w ∷ []) (v ∷ ws)

-- So they are in front of more text.
pub words-join-append :
    (ws acc : List Bytes) (extra : Bytes)
    → AllWords ws
    → words_loop acc [] false (join (codes " ") ws ++ (b' ' ∷ extra))
      ≡ words_loop (acc ++ ws) [] false extra
unfolding join
words-join-append [] acc extra h =
    unfold words_loop is_space in ap (λ t. words_loop t [] false extra) (sym (append-nil acc))
words-join-append (w ∷ []) acc extra (h, _) = loop_word w acc extra h
words-join-append (w ∷ v ∷ ws) acc extra (h, hs) =
    let rest = join (codes " ") (v ∷ ws) in
    ap (words_loop acc [] false) (append_assoc w (b' ' ∷ rest) (b' ' ∷ extra))
    ∙ loop_word w acc (rest ++ (b' ' ∷ extra)) h
    ∙ words-join-append (v ∷ ws) (acc ++ w ∷ []) extra hs
    ∙ ap (λ t. words_loop t [] false extra) (append_assoc acc (w ∷ []) (v ∷ ws))
