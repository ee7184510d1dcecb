-- ===== src/Cpio/Walk.antt =====
-- tools/linux/mkimage.py, `verify_cpio`: walks an archive and returns its entries' names.
use techo5_dot.Prelude.{
  ℕ, zero, suc, ◌+◌, ◌*◌, ◌-◌, ◌/◌, ℤ, pos, negsuc, sub_ℕ, List, [], ◌∷◌, ◌++◌, Bytes, length, same,
  slice, ltb, leb, Bool, true, false, ◌&&◌, Option, none, some, if◌then◌else◌, Result, ok, err,
  get_elem?,
}
use techo5_dot.Cpio.Hex.{parse_hex}
use techo5_dot.Cpio.Archive.{newc, trailer_name}

-- The ValueErrors of the walk; the last is no outcome of the source.
pub data Reason : Type 0 where
  bad_magic : ℤ → Reason
  bad_number : ℤ → Reason
  bad_name : ℤ → Reason
  out_of_fuel : Reason

-- `(n + 3) & ~3`
abbrev pub align4 : ℕ → ℕ
align4 n = (n + 3) / 4 * 4

abbrev pub opposite : ℕ → ℤ
opposite zero = pos 0
opposite (suc n) = negsuc n

abbrev pub align4_ℤ : ℤ → ℤ
align4_ℤ (pos n) = pos (align4 n)
align4_ℤ (negsuc n) = opposite (suc n / 4 * 4)

-- Sizes that are read may be negative, and so may be the position.
abbrev pub plus : ℤ → ℕ → ℤ
plus (pos a) n = pos (a + n)
plus (negsuc a) n = if ltb a n then pos (n - suc a) else negsuc (a - n)

abbrev pub minus : ℤ → ℕ → ℤ
minus (pos a) n = sub_ℕ a n
minus (negsuc a) n = negsuc (a + n)

abbrev pub plus_ℤ : ℤ → ℤ → ℤ
plus_ℤ a (pos n) = plus a n
plus_ℤ a (negsuc n) = minus a (suc n)

-- Where a slice's end stands: a negative one counts from the end of the data.
abbrev pub place : Bytes → ℤ → ℕ
place d (pos n) = n
place d (negsuc n) = length d - suc n

-- `data[i:j]`
abbrev pub slice_ℤ : Bytes → ℤ → ℤ → Bytes
slice_ℤ d i j = slice d (place d i) (place d j)

-- `[int(data[off + 6 + i * 8 : off + 14 + i * 8], 16) for i in range(i, i + n)]`
unfoldable pub read_fields : ℕ → ℕ → ℤ → Bytes → Option (List ℤ)
read_fields zero i off d = some []
read_fields (suc n) i off d =
    let rest = read_fields n (i + 1) off d in
    elim (parse_hex (slice_ℤ d (plus off (6 + i * 8)) (plus off (14 + i * 8)))) [
      | none ↦ none
      | some v ↦ elim rest [ none ↦ none | some vs ↦ some (v ∷ vs) ]
    ]

abbrev pub field : List ℤ → ℕ → ℤ
field f i = elim (get_elem? f i) [ none ↦ pos 0 | some v ↦ v ]

-- What the first byte of a character asks for: how many bytes more, and the bounds of the next.
abbrev pub utf8_lead : ℕ → Option (ℕ × (ℕ × ℕ))
utf8_lead c =
    if ltb c 128
    then some (0, (128, 191))
    else if leb 194 c && leb c 223
    then some (1, (128, 191))
    else if leb 224 c && leb c 239
    then some (2, (if leb c 224 then 160 else 128, if leb 237 c && leb c 237 then 159 else 191))
    else if leb 240 c && leb c 244
    then some (3, (if leb c 240 then 144 else 128, if leb 244 c then 143 else 191))
    else none

-- `.decode()` takes the bytes; `more` of them belong to a character that has begun.
unfoldable pub utf8_from : ℕ → ℕ → ℕ → Bytes → Bool
utf8_from zero lo hi [] = true
utf8_from (suc more) lo hi [] = false
utf8_from (suc more) lo hi (c ∷ cs) = leb lo c && leb c hi && utf8_from more 128 191 cs
utf8_from zero lo hi (c ∷ cs) = elim (utf8_lead c) [
  | none ↦ false
  | some (more, (least, most)) ↦ utf8_from more least most cs
]

abbrev pub is_utf8 : Bytes → Bool
is_utf8 = utf8_from 0 128 191

-- Where the name ends, and where the next entry starts.
abbrev pub name_end : ℤ → ℤ → ℤ
name_end off namesize = minus (plus_ℤ (plus off 110) namesize) 1

abbrev pub next_entry : ℤ → ℤ → ℤ → ℤ
next_entry off namesize filesize =
    align4_ℤ (plus_ℤ (align4_ℤ (plus_ℤ (plus off 110) namesize)) filesize)

-- A name is kept as the bytes that it is decoded from.
unfoldable pub walk : ℕ → Bytes → ℤ → List Bytes → Result Reason (List Bytes)
walk zero d off names = err out_of_fuel
walk (suc fuel) d off names =
    if same (slice_ℤ d off (plus off 6)) newc
    then elim (read_fields 13 0 off d) [
      | none ↦ err (bad_number off)
      | some f ↦
          let name = slice_ℤ d (plus off 110) (name_end off (field f 11)) in
          let next = next_entry off (field f 11) (field f 6) in
          let rest = walk fuel d next (names ++ name ∷ []) in
          if is_utf8 name
          then if same name trailer_name then ok names else rest
          else err (bad_name off)
    ]
    else err (bad_magic off)

-- An entry takes 110 bytes at least, so the walk ends within this fuel if it never goes back.
unfoldable pub verify_cpio : Bytes → Result Reason (List Bytes)
verify_cpio d = walk (suc (length d)) d (pos 0) []
