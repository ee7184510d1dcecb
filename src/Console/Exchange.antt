-- ===== src/Console/Exchange.antt =====
-- tools/techo5lib.py: `console_exchange`, over what the port gives at each round of its loop.
use techo5_dot.Prelude.{
  ℕ, zero, suc, List, [], ◌∷◌, ◌++◌, Bytes, codes, contains, same, join, split, leb, if◌then◌else◌,
  Bool, true, false, ◌&&◌, ◌||◌, ◌==◌, Option, none, some, length,
}

-- What one command ends in: the text that it printed, no answer within the time, a console that
-- went away, or a port that could not be opened.
pub data Exchange : Type 0 where
  answered : Bytes → Exchange
  unanswered : Exchange
  gone : Exchange
  unopened : Exchange

-- One round of the loop: what `read` returned; or nothing, with what `alive` answers when it is
-- asked, which it is when two seconds have passed since the last time.
pub data Round : Type 0 where
  chunk : Bytes → Round
  quiet : Round
  checked : Bool → Round

-- `ESC [` with digits, `;` and `?`, and a letter: the rest of the text behind one, or none.
abbrev is_parameter : ℕ → Bool
is_parameter c = leb b'0' c && leb c b'9' || c == b';' || c == b'?'

abbrev is_letter : ℕ → Bool
is_letter c = leb b'A' c && leb c b'Z' || leb b'a' c && leb c b'z'

unfoldable pub after_parameters : Bytes → Option Bytes
after_parameters [] = none
after_parameters (c ∷ cs) =
    let rest = after_parameters cs in
    if is_letter c then some cs else if is_parameter c then rest else none

unfoldable pub after_escape : Bytes → Option Bytes
after_escape (a ∷ b ∷ s) = if a == 27 && b == b'[' then after_parameters s else none
after_escape _ = none

-- `_ESCAPES.sub('', text)`; the fuel is the length of the text, and every step makes it shorter.
unfoldable pub without_escapes : ℕ → Bytes → Bytes
without_escapes zero s = s
without_escapes (suc fuel) [] = []
without_escapes (suc fuel) (c ∷ cs) = elim (after_escape (c ∷ cs)) [
  | none ↦ c ∷ without_escapes fuel cs
  | some rest ↦ without_escapes fuel rest
]

unfoldable pub without_returns : Bytes → Bytes
without_returns [] = []
without_returns (c ∷ cs) = if c == 13 then without_returns cs else c ∷ without_returns cs

-- `_ESCAPES.sub('', text).replace('\r', '').split('\n')`
unfoldable pub lines_of : Bytes → List Bytes
lines_of text = split 10 (without_returns (without_escapes (length text) text))

-- The loop over `lines` behind the exchange, once the command's output has started.
unfoldable pub collect_started : Bytes → List Bytes → List Bytes
collect_started finish [] = []
collect_started finish (line ∷ lines) =
    let rest = collect_started finish lines in if same line finish then [] else line ∷ rest

unfoldable pub collect : Bytes → Bytes → List Bytes → List Bytes
collect begin finish [] = []
collect begin finish (line ∷ lines) =
    let rest = collect begin finish lines in
    if same line begin then collect_started finish lines else rest

abbrev pub begin_marker : Bytes → Bytes
begin_marker tag = codes "__T5BEGIN" ++ (tag ++ codes "__")

abbrev pub end_marker : Bytes → Bytes
end_marker tag = codes "__T5END" ++ (tag ++ codes "__")

-- What is written to the port.
abbrev pub typed_line : Bytes → Bytes → Bytes
typed_line tag command =
    codes "b="
    ++ (begin_marker tag
        ++ (codes "; m="
            ++ (end_marker tag
                ++ (codes "; echo $b; " ++ (command ++ codes "; echo $m" ++ 10 ∷ [])))))

abbrev pub outcome : Bytes → List Bytes → Exchange
outcome tag lines =
    if contains lines (end_marker tag)
    then answered (join (10 ∷ []) (collect (begin_marker tag) (end_marker tag) lines))
    else unanswered

-- The loop until the time is over, with what arrived so far and its lines; `decode` is UTF-8.
module _ (decode : Bytes → Bytes) where
  unfoldable pub exchange_loop : Bytes → List Round → Bytes → List Bytes → Exchange
  exchange_loop tag [] buf lines = outcome tag lines
  exchange_loop tag (chunk part ∷ rounds) buf lines =
      let more = exchange_loop tag rounds (buf ++ part) (lines_of (decode (buf ++ part))) in
      if contains (lines_of (decode (buf ++ part))) (end_marker tag)
      then outcome tag (lines_of (decode (buf ++ part)))
      else more
  exchange_loop tag (quiet ∷ rounds) buf lines = exchange_loop tag rounds buf lines
  exchange_loop tag (checked false ∷ rounds) buf lines = gone
  exchange_loop tag (checked true ∷ rounds) buf lines = exchange_loop tag rounds buf lines

  -- `console_exchange`; `opens` tells whether the port could be opened.
  unfoldable pub console_exchange : Bool → Bytes → List Round → Exchange
  console_exchange opens tag rounds = if opens then exchange_loop tag rounds [] [] else unopened
