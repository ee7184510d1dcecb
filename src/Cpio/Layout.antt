-- ===== src/Cpio/Layout.antt =====
-- The archive as one description of its bytes: each kept entry's header, name and contents,
-- every part padded to a multiple of four.
use techo5_dot.Prelude.{
  ℕ, zero, suc, ◌+◌, ◌-◌, ◌%◌, ◌≤◌, ◌≡◌, ◌≢◌, ap, ◌∙◌, sym, List, [], ◌∷◌, ◌++◌, Bytes, length,
  replicate, length-append, length-replicate, append_assoc, append-nil, arith, contains,
  if◌then◌else◌, true, false, Bool-cases, inl, inr, ◌==◌, ==_iff,
}
use techo5_dot.Cpio.Archive.{Cpio, Entry, header, pad_loop, pad, entry, run_entries}
use techo5_dot.Cpio.Walk.{align4}

abbrev pub padding : ℕ → Bytes
padding n = replicate (align4 n - n) 0

-- The entries whose names are new, in order.
unfoldable pub kept : List Bytes → List Entry → List Entry
kept seen [] = []
kept seen (e ∷ es) =
    let rest = kept (e.name ∷ seen) es in if contains seen e.name then kept seen es else e ∷ rest

abbrev pub front : ℕ → Entry → Bytes
front ino e = header ino e ++ (e.name ++ 0 ∷ [])

unfoldable pub piece : ℕ → Entry → Bytes
piece ino e =
    (front ino e ++ padding (length (front ino e))) ++ (e.content ++ padding (length e.content))

unfoldable pub image : ℕ → List Entry → Bytes
image ino [] = []
image ino (e ∷ es) = piece ino e ++ image (ino + 1) es

pad_loop-padding :
    (fuel : ℕ) (b : Bytes)
    → align4 (length b) - length b ≤ fuel
    → pad_loop fuel b ≡ b ++ padding (length b)
unfolding pad_loop
pad_loop-padding zero b h =
    let e : align4 (length b) - length b ≡ 0 = omega arith in rw e (sym (append-nil b))
pad_loop-padding (suc fuel) b h = elim (Bool-cases (length b % 4 == 0)) [
  | inl done ↦
      let z = (==_iff _ _).0 done in
      let e : align4 (length b) - length b ≡ 0 = omega arith in rw (done, e) (sym (append-nil b))
  | inr more ↦
      let ne : length b % 4 ≢ 0 = ground arith in
      let len = length-append b (0 ∷ []) in
      let e : align4 (length b) - length b
          ≡ suc (align4 (length (b ++ 0 ∷ [])) - length (b ++ 0 ∷ [])) =
        omega arith in
      rw more (
        pad_loop-padding fuel (b ++ 0 ∷ []) (omega arith)
        ∙ append_assoc b (0 ∷ []) _
        ∙ ap (λ k. b ++ replicate k 0) (sym e))
]

pub pad-padding : (b : Bytes) → pad b ≡ b ++ padding (length b)
unfolding pad
pad-padding b = pad_loop-padding 3 b (omega arith)

pub length-padding : (b : Bytes) → length (b ++ padding (length b)) ≡ align4 (length b)
length-padding b = omega (
  arith,
  length-append b (padding (length b)),
  length-replicate {A = ℕ} (align4 (length b) - length b) 0,
)

-- Behind an aligned part, padding is that of the new part alone.
pad-append : (a b : Bytes) → length a % 4 ≡ 0 → pad (a ++ b) ≡ a ++ (b ++ padding (length b))
pad-append a b h =
    let e : align4 (length (a ++ b)) - length (a ++ b) ≡ align4 (length b) - length b =
      omega (arith, length-append a b) in
    pad-padding (a ++ b) ∙ ap (λ k. (a ++ b) ++ replicate k 0) e ∙ append_assoc a b _

-- The buffer after one new entry.
entry-piece :
    (e : Entry) (c : Cpio)
    → length c.buf % 4 ≡ 0
    → contains c.seen e.name ≡ false
    → (entry e c).buf ≡ c.buf ++ piece c.ino e
unfolding entry piece
entry-piece e c h fresh =
    let head = front c.ino e ++ padding (length (front c.ino e)) in
    let aligned : length (c.buf ++ head) % 4 ≡ 0 =
      omega (arith, length-append c.buf head, length-padding (front c.ino e)) in
    rw fresh (
      ap (λ t. pad (t ++ e.content)) (pad-append c.buf (front c.ino e) h)
      ∙ pad-append (c.buf ++ head) e.content aligned
      ∙ append_assoc c.buf head _)

pub length-piece : (ino : ℕ) (e : Entry) → length (piece ino e) % 4 ≡ 0
unfolding piece
length-piece ino e = omega (
  arith,
  length-append (front ino e ++ padding (length (front ino e)))
      (e.content ++ padding (length e.content)),
  length-padding (front ino e),
  length-padding e.content,
)

pub entry_old : (e : Entry) (c : Cpio) → contains c.seen e.name ≡ true → entry e c ≡ c
unfolding entry
entry_old e c old = rw old

pub entry-seen :
    (e : Entry) (c : Cpio)
    → contains c.seen e.name ≡ false
    → ((entry e c).ino ≡ c.ino + 1) × ((entry e c).seen ≡ e.name ∷ c.seen)
unfolding entry
entry-seen e c fresh = (rw fresh, rw fresh)

entry-aligned : (e : Entry) (c : Cpio) → length c.buf % 4 ≡ 0 → length (entry e c).buf % 4 ≡ 0
entry-aligned e c h = elim (Bool-cases (contains c.seen e.name)) [
  | inl old ↦ rw (entry_old e c old) h
  | inr fresh ↦
      rw (entry-piece e c h fresh)
        (omega (arith, length-append c.buf (piece c.ino e), length-piece c.ino e))
]

pub run_entries-aligned :
    (es : List Entry) (c : Cpio) → length c.buf % 4 ≡ 0 → length (run_entries es c).buf % 4 ≡ 0
unfolding run_entries
run_entries-aligned [] c h = h
run_entries-aligned (e ∷ es) c h = run_entries-aligned es (entry e c) (entry-aligned e c h)

-- The buffer after any sequence of entries.
pub run_entries-image :
    (es : List Entry) (c : Cpio)
    → length c.buf % 4 ≡ 0
    → (run_entries es c).buf ≡ c.buf ++ image c.ino (kept c.seen es)
unfolding run_entries kept image
run_entries-image [] c h = sym (append-nil c.buf)
run_entries-image (e ∷ es) c h = elim (Bool-cases (contains c.seen e.name)) [
  | inl old ↦
      rw old (ap (λ t. (run_entries es t).buf) (entry_old e c old) ∙ run_entries-image es c h)
  | inr fresh ↦
      let (ino, seen) = entry-seen e c fresh in
      rw fresh (
        run_entries-image es (entry e c) (entry-aligned e c h)
        ∙ rw (entry-piece e c h fresh, ino, seen) (append_assoc c.buf (piece c.ino e) _))
]
