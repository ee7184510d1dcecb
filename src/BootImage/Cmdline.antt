-- ===== src/BootImage/Cmdline.antt =====
-- tools/linux/mkimage.py: the words of the command line that `write_bootimg` writes.
use techo5_dot.Prelude.{
  ℕ, List, [], ◌∷◌, ◌++◌, Bytes, Bool, true, false, not, ◌&&◌, ◌||◌, ◌==◌, if◌then◌else◌, is_empty,
  append_assoc, ◌≡◌, refl, ◌∙◌, sym, arith, Bool-cases, inl, inr, among, lstrip, rstrip,
}
use techo5_dot.BootImage.Words.{is_space, words_loop, cmdline_words, drop_words}
use techo5_dot.BootImage.Quotes.{flip, quotes, solid, IsWord, AllWords, quotes-append, solid-append}
use techo5_dot.BootImage.Format.{whitespace}

AllWords-append : (ws : List Bytes) (w : Bytes) → AllWords ws → IsWord w → AllWords (ws ++ w ∷ [])
AllWords-append [] w h k = (k, tt)
AllWords-append (v ∷ ws) w (h, hs) k = (h, AllWords-append ws w hs k)

-- The loop's invariant: the words found are words, and the one in hand may become one.
record Inv (ws : List Bytes) (word : Bytes) (q : Bool) : Type 0 where
  found : AllWords ws
  in_hand : solid false word ≡ true
  state : quotes false word ≡ q

Inv-ended :
    (ws : List Bytes) (word : Bytes)
    → Inv ws word false
    → AllWords (if is_empty word then ws else ws ++ word ∷ [])
Inv-ended ws word v = elim (Bool-cases (is_empty word)) [
  | inl none_yet ↦ rw none_yet v.found
  | inr some_word ↦ rw some_word (
      AllWords-append ws word v.found
        (record { solid_word = v.in_hand; closed = v.state; filled = some_word }))
]

Inv-grown :
    (ws : List Bytes) (word : Bytes) (q : Bool) (b : ℕ)
    → Inv ws word q
    → (b == b'"' || not (is_space b && not q)) ≡ true
    → Inv ws (word ++ b ∷ []) (flip q b)
Inv-grown ws word q b v fine = record {
  found = v.found;
  in_hand = solid-append false word (b ∷ []) ∙ rw (v.in_hand, v.state) (unfold solid in rw fine);
  state = quotes-append false word (b ∷ []) ∙ rw v.state (unfold quotes in refl);
}

words_loop-AllWords :
    (s : Bytes) (ws : List Bytes) (word : Bytes) (q : Bool)
    → Inv ws word q
    → quotes q s ≡ false
    → AllWords (words_loop ws word q s)
unfolding words_loop quotes
words_loop-AllWords [] ws word q v h = Inv-ended ws word (rw h at v)
words_loop-AllWords (b ∷ s) ws word q v h = elim (Bool-cases (b == b'"')) [
  | inl quote ↦
      let v' = rw quote at (Inv-grown ws word q b v (rw quote)) in
      rw quote (words_loop-AllWords s ws (word ++ b ∷ []) (not q) v' (rw quote at h))
  | inr plain ↦ elim (Bool-cases (is_space b && not q)) [
    | inl blank ↦
        let open_no : q ≡ false = ground arith in
        let v' : Inv (if is_empty word then ws else ws ++ word ∷ []) [] q = record {
          found = Inv-ended ws word (rw open_no at v);
          in_hand = unfold solid in refl;
          state = sym open_no;
        } in
        rw (plain, blank)
          (words_loop-AllWords s (if is_empty word then ws else ws ++ word ∷ []) [] q v'
            (rw plain at h))
    | inr other ↦
        let v' = rw plain at (Inv-grown ws word q b v (rw (plain, other))) in
        rw (plain, other) (words_loop-AllWords s ws (word ++ b ∷ []) q v' (rw plain at h))
  ]
]

-- The words of a command line whose quotes are closed.
pub cmdline_words-AllWords : (cmd : Bytes) → quotes false cmd ≡ false → AllWords (cmdline_words cmd)
unfolding cmdline_words
cmdline_words-AllWords cmd h =
    words_loop-AllWords cmd [] [] false
      (record { found = tt; in_hand = unfold solid in refl; state = unfold quotes in refl }) h

pub drop_words-AllWords : (ds ws : List Bytes) → AllWords ws → AllWords (drop_words ds ws)
unfolding drop_words
drop_words-AllWords ds [] h = tt
drop_words-AllWords ds (w ∷ ws) (h, hs) = ground (arith, drop_words-AllWords ds ws hs)

pub loop-append :
    (s : Bytes) (a ws : List Bytes) (word : Bytes) (q : Bool)
    → words_loop (a ++ ws) word q s ≡ a ++ words_loop ws word q s
unfolding words_loop
loop-append [] a ws word q = ground (arith, append_assoc a ws (word ∷ []))
loop-append (b ∷ s) a ws word q = ground (
  arith,
  append_assoc a ws (word ∷ []),
  loop-append s a ws (word ++ b ∷ []) (not q),
  loop-append s a ws (word ++ b ∷ []) q,
  loop-append s a ws [] q,
  loop-append s a (ws ++ word ∷ []) [] q,
)

-- Blanks at the front begin no word.
pub loop-lstrip :
    (s : Bytes) (ws : List Bytes)
    → words_loop ws [] false (lstrip whitespace s) ≡ words_loop ws [] false s
unfolding words_loop lstrip among is_space
loop-lstrip [] ws = refl
loop-lstrip (b ∷ s) ws = ground (arith, loop-lstrip s ws)

pub quotes-lstrip : (s : Bytes) → quotes false (lstrip whitespace s) ≡ quotes false s
unfolding quotes lstrip among
quotes-lstrip [] = refl
quotes-lstrip (b ∷ s) = ground (arith, quotes-lstrip s)

pub quotes_blank : (s : Bytes) (q : Bool) → is_empty (rstrip whitespace s) ≡ true → quotes q s ≡ q
unfolding quotes rstrip among
quotes_blank [] q h = refl
quotes_blank (b ∷ s) q h = ground (arith, quotes_blank s q)
