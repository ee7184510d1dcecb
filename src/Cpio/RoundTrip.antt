-- ===== src/Cpio/RoundTrip.antt =====
-- Walking an archive that the writer finished.
use techo5_dot.Prelude.{
  ℕ, zero, suc, ◌+◌, ◌-◌, ◌*◌, ◌%◌, ◌^◌, ◌<◌, ◌≡◌, ◌≢◌, refl, ap, ◌∙◌, sym, List, [], ◌∷◌, ◌++◌,
  Bytes, length, length-append, append_assoc, append-nil, arith, true, false, some, drop, slice,
  slice_at, drop_at, Bool-ne, map, pos, sub_ℕ, sub_ℕ-pos, same, same_iff, same_refl, ok,
}
use techo5_dot.Cpio.Hex.{format_08x, parse_hex, length-format_08x, parse_hex-format_08x}
use techo5_dot.Cpio.Archive.{Entry, newc, header_values, join_fields, header, trailer_name}
use techo5_dot.Cpio.Walk.{align4, read_fields, utf8_from, is_utf8, walk}
use techo5_dot.Cpio.Layout.{piece, image, front, padding, length-padding, length-piece}

-- Every number fits its field.
abbrev pub AllFit : List ℕ → Type 0
AllFit [] = Unit
AllFit (v ∷ vs) = (v < 2 ^ 32) × AllFit vs

length-join_fields : (vs : List ℕ) → AllFit vs → length (join_fields vs) ≡ length vs * 8
unfolding join_fields
length-join_fields [] h = omega arith
length-join_fields (v ∷ vs) (h, hs) = omega (
  arith,
  length-append (format_08x v) (join_fields vs),
  length-format_08x v h,
  length-join_fields vs hs,
)

read_fields_step :
    (n i off v : ℕ) (vs d : Bytes)
    → parse_hex (slice d (off + (6 + i * 8)) (off + (14 + i * 8))) ≡ some (pos v)
    → read_fields n (i + 1) (pos off) d ≡ some (map pos vs)
    → read_fields (suc n) i (pos off) d ≡ some (pos v ∷ map pos vs)
unfolding read_fields
read_fields_step n i off v vs d h k = ground arith

read_fields-join_fields :
    (vs : List ℕ) (d rest : Bytes) (off i : ℕ)
    → AllFit vs
    → drop (off + (6 + i * 8)) d ≡ join_fields vs ++ rest
    → read_fields (length vs) i (pos off) d ≡ some (map pos vs)
read_fields-join_fields [] d rest off i h e = unfold read_fields in refl
read_fields-join_fields (v ∷ vs) d rest off i (h, hs) e =
    let start = off + (6 + i * 8) in
    let more = join_fields vs ++ rest in
    let len = length-format_08x v h in
    let at : drop start d ≡ format_08x v ++ more =
      e ∙ (unfold join_fields in append_assoc (format_08x v) (join_fields vs) rest) in
    let here = slice_at d (format_08x v) more start (off + (14 + i * 8)) at (omega arith) in
    let next = drop_at d (format_08x v) more start (off + (6 + (i + 1) * 8)) at (omega arith) in
    read_fields_step (length vs) i off v vs d (ap parse_hex here ∙ parse_hex-format_08x v h)
      (read_fields-join_fields vs d rest off (i + 1) hs next)

-- The numbers of an entry's header fit.
abbrev pub Fits : ℕ → Entry → Type 0
Fits ino e = AllFit (header_values ino e)

length-header : (ino : ℕ) (e : Entry) → Fits ino e → length (header ino e) ≡ 110
unfolding header
length-header ino e h = omega (
  arith,
  length-append newc (join_fields (header_values ino e)),
  length-join_fields (header_values ino e) h,
)

-- What the walk reads at an entry.
module _ (ino : ℕ) (e : Entry) (d rest : Bytes) (off : ℕ) (fits : Fits ino e)
    (aligned : off % 4 ≡ 0) (at : drop off d ≡ piece ino e ++ rest) where
  after_name : Bytes
  after_name = padding (length (front ino e)) ++ ((e.content ++ padding (length e.content)) ++ rest)

  at_header : drop off d ≡ header ino e ++ ((e.name ++ 0 ∷ []) ++ after_name)
  unfolding piece after_name
  at_header = at ∙ simp append_assoc

  at_magic : slice d off (off + 6) ≡ newc
  unfolding header
  at_magic = slice_at d newc _ off (off + 6) at_header refl

  at_fields : read_fields 13 0 (pos off) d ≡ some (map pos (header_values ino e))
  unfolding header
  at_fields =
      let fields = join_fields (header_values ino e) in
      read_fields-join_fields (header_values ino e) d ((e.name ++ 0 ∷ []) ++ after_name) off 0 fits
        (drop_at d newc (fields ++ ((e.name ++ 0 ∷ []) ++ after_name)) off (off + (6 + 0 * 8))
          at_header (omega arith))

  at_name : slice d (off + 110) (off + 110 + length (e.name ++ 0 ∷ []) - 1) ≡ e.name
  at_name =
      let named =
        drop_at d (header ino e) ((e.name ++ 0 ∷ []) ++ after_name) off (off + 110) at_header
          (omega (arith, length-header ino e fits)) in
      slice_at d e.name (0 ∷ after_name) (off + 110) _
        (named ∙ append_assoc e.name (0 ∷ []) after_name)
        (omega (arith, length-append e.name (0 ∷ [])))

  at_name_end :
      sub_ℕ (off + 110 + length (e.name ++ 0 ∷ [])) 1
      ≡ pos (off + 110 + length (e.name ++ 0 ∷ []) - 1)
  at_name_end = sub_ℕ-pos _ 1 (omega arith)

  at_end :
      align4 (align4 (off + 110 + length (e.name ++ 0 ∷ [])) + length e.content)
      ≡ off + length (piece ino e)
  unfolding piece
  at_end = omega (
    arith,
    length-append (front ino e ++ padding (length (front ino e)))
        (e.content ++ padding (length e.content)),
    length-padding (front ino e),
    length-padding e.content,
    length-append (header ino e) (e.name ++ 0 ∷ []),
    length-header ino e fits,
  )

  magic : same (slice d off (off + 6)) newc ≡ true
  magic = ap (λ t. same t newc) at_magic ∙ same_refl newc

  -- One round of the walk, for an entry and for the trailer.
  walk-piece :
      (fuel : ℕ) (names : List Bytes)
      → is_utf8 e.name ≡ true
      → same e.name trailer_name ≡ false
      → walk (suc fuel) d (pos off) names
        ≡ walk fuel d (pos (off + length (piece ino e))) (names ++ e.name ∷ [])
  unfolding walk
  walk-piece fuel names u h =
      rw (magic, at_fields) (rw (at_name_end, at_name, at_end) (rw (u, h) refl))

  walk_trailer :
      (fuel : ℕ) (names : List Bytes)
      → is_utf8 e.name ≡ true
      → same e.name trailer_name ≡ true
      → walk (suc fuel) d (pos off) names ≡ ok names
  unfolding walk
  walk_trailer fuel names u h = rw (magic, at_fields) (rw (at_name_end, at_name) (rw (u, h) refl))

-- The names are texts, encoded in UTF-8.
abbrev pub AllUtf8 : List Entry → Type 0
AllUtf8 [] = Unit
AllUtf8 (e ∷ es) = (is_utf8 e.name ≡ true) × AllUtf8 es

-- The numbers of a sequence of entries fit; the entries are numbered from `ino`.
abbrev pub AllFits : ℕ → List Entry → Type 0
AllFits ino [] = Unit
AllFits ino (e ∷ es) = Fits ino e × AllFits (ino + 1) es

abbrev pub NoTrailer : List Entry → Type 0
NoTrailer [] = Unit
NoTrailer (e ∷ es) = (e.name ≢ trailer_name) × NoTrailer es

pub walk-image :
    (es : List Entry) (ino : ℕ) (last : Entry) (d : Bytes) (off fuel : ℕ) (names : List Bytes)
    → AllFits ino (es ++ last ∷ [])
    → NoTrailer es
    → AllUtf8 es
    → last.name ≡ trailer_name
    → off % 4 ≡ 0
    → length es < fuel
    → drop off d ≡ image ino (es ++ last ∷ [])
    → walk fuel d (pos off) names ≡ ok (names ++ map (λ e. e.name) es)
unfolding image
walk-image es ino last d off zero names fits fine texts tr al lt at = absurd (omega arith)
walk-image [] ino last d off (suc fuel) names (fit, _) fine texts tr al lt at =
    walk_trailer ino last d [] off fit al at fuel names (rw tr (unfold utf8_from in refl))
      (rw tr (same_refl trailer_name))
    ∙ ap ok (sym (append-nil names))
walk-image (e ∷ es) ino last d off (suc fuel) names (fit, fits) (ne, fine) (text, texts) tr al lt
      at =
    let named : same e.name trailer_name ≡ false =
      Bool-ne (λ h. ne ((same_iff e.name trailer_name).0 h)) in
    let rest = image (ino + 1) (es ++ last ∷ []) in
    walk-piece ino e d rest off fit al at fuel names text named
    ∙ walk-image es (ino + 1) last d (off + length (piece ino e)) fuel (names ++ e.name ∷ []) fits
        fine texts tr (omega (arith, length-piece ino e)) (omega arith)
        (drop_at d (piece ino e) rest off (off + length (piece ino e)) at refl)
    ∙ ap ok (append_assoc names (e.name ∷ []) (map (λ x. x.name) es))
