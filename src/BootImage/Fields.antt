-- ===== src/BootImage/Fields.antt =====
-- The little-endian fields of a boot image's header: `struct.pack_into("<I", ...)` and
-- `struct.unpack("<9I", ...)`, and the slice assignments on a bytearray.
use native.Mathlib.Nat.{le_refl}
use techo5_dot.Prelude.{
  from_le, ℕ, zero, suc, ◌+◌, ◌-◌, ◌/◌, ◌%◌, ◌^◌, ◌≤◌, ◌<◌, ◌≡◌, refl, ap, ◌∙◌, sym, [], ◌∷◌, ◌++◌,
  Bytes, length, take, drop, take-append, drop-append, drop-append_add, length-append, length-take,
  length-drop, arith, take_all, drop-drop, ◌⊎◌, inl, inr,
}

-- `struct.pack("<I", v)` for `v < 2 ** 32`.
unfoldable pub le32 : ℕ → Bytes
le32 v = v % 256 ∷ v / 256 % 256 ∷ v / 65536 % 256 ∷ v / 16777216 % 256 ∷ []

-- `hdr[i : i + len(new)] = new`: a slice assignment of the slice's own length.
unfoldable pub splice : Bytes → ℕ → Bytes → Bytes
splice hdr i new = take i hdr ++ (new ++ drop (i + length new) hdr)

-- The `k`-th number of `struct.unpack("<9I", d[8:44])`.
unfoldable pub word_at : Bytes → ℕ → ℕ
word_at d i = from_le (take 4 (drop i d))

pub from_le-le32 : (v : ℕ) → v < 2 ^ 32 → from_le (le32 v) ≡ v
unfolding from_le le32
from_le-le32 v h = omega arith

pub length-splice :
    (hdr : Bytes) (i : ℕ) (new : Bytes)
    → i + length new ≤ length hdr
    → length (splice hdr i new) ≡ length hdr
unfolding splice
length-splice hdr i new h = omega (
  arith,
  length-append {A = ℕ} (take i hdr) (new ++ drop (i + length new) hdr),
  length-append {A = ℕ} new (drop (i + length new) hdr),
  length-take {A = ℕ} i hdr,
  length-drop {A = ℕ} (i + length new) hdr,
)

-- Reading at the place of a splice gives what was written.
pub splice_here :
    (hdr : Bytes) (i : ℕ) (new : Bytes)
    → i ≤ length hdr
    → take (length new) (drop i (splice hdr i new)) ≡ new
unfolding splice
splice_here hdr i new h =
    ap (take (length new)) (
      drop-append (take i hdr) (new ++ drop (i + length new) hdr)
        (omega (arith, length-take {A = ℕ} i hdr)))
    ∙ take-append new (drop (i + length new) hdr) refl

take-drop-append :
    (i j n : ℕ) (xs ys : Bytes)
    → j + n ≤ i
    → i ≤ length xs
    → take n (drop j (take i xs ++ ys)) ≡ take n (drop j xs)
take-drop-append zero zero zero xs ys k h = refl
take-drop-append zero zero (suc n) xs ys k h = absurd (omega arith)
take-drop-append zero (suc j) n xs ys k h = absurd (omega arith)
take-drop-append (suc i) j n [] ys k h = absurd (omega arith)
take-drop-append (suc i) zero zero (x ∷ xs) ys k h = refl
take-drop-append (suc i) zero (suc n) (x ∷ xs) ys k h =
    ap (◌∷◌ x) (take-drop-append i zero n xs ys (omega arith) (omega arith))
take-drop-append (suc i) (suc j) n (x ∷ xs) ys k h =
    take-drop-append i j n xs ys (omega arith) (omega arith)

-- Reading within the first of two parts.
pub take-drop_left :
    (j n : ℕ) (xs ys : Bytes) → j + n ≤ length xs → take n (drop j (xs ++ ys)) ≡ take n (drop j xs)
take-drop_left j n xs ys h =
    ap (λ t. take n (drop j (t ++ ys))) (sym (take_all xs (le_refl (length xs))))
    ∙ take-drop-append (length xs) j n xs ys h (le_refl (length xs))

pub word_at_left : (j : ℕ) (xs ys : Bytes) → j + 4 ≤ length xs → word_at (xs ++ ys) j ≡ word_at xs j
unfolding word_at
word_at_left j xs ys h = ap from_le (take-drop_left j 4 xs ys h)

-- Reading before or behind it gives what was there.
pub splice_before :
    (hdr : Bytes) (i : ℕ) (new : Bytes) (j n : ℕ)
    → i ≤ length hdr
    → j + n ≤ i
    → take n (drop j (splice hdr i new)) ≡ take n (drop j hdr)
unfolding splice
splice_before hdr i new j n h k = take-drop-append i j n hdr _ k h

pub splice_behind :
    (hdr : Bytes) (i : ℕ) (new : Bytes) (j n : ℕ)
    → i + length new ≤ length hdr
    → i + length new ≤ j
    → take n (drop j (splice hdr i new)) ≡ take n (drop j hdr)
unfolding splice
splice_behind hdr i new j n h k =
    let rest = drop (i + length new) hdr in
    let over = j - (i + length new) in
    ap (take n) (
      drop-append_add (take i hdr) (new ++ rest) j (j - i)
        (omega (arith, length-take {A = ℕ} i hdr))
      ∙ drop-append_add new rest (j - i) over (omega arith)
      ∙ sym (drop-drop (i + length new) over hdr)
      ∙ ap (λ t. drop t hdr) (let e : i + length new + over ≡ j = omega arith in e))

pub splice_apart :
    (hdr : Bytes) (i : ℕ) (new : Bytes) (j n : ℕ)
    → i + length new ≤ length hdr
    → (j + n ≤ i) ⊎ (i + length new ≤ j)
    → take n (drop j (splice hdr i new)) ≡ take n (drop j hdr)
splice_apart hdr i new j n h (inl k) = splice_before hdr i new j n (omega arith) k
splice_apart hdr i new j n h (inr k) = splice_behind hdr i new j n h k
