-- ===== src/BootImage/Header.antt =====
-- tools/linux/mkimage.py: what `write_bootimg` changes in the header.
use techo5_dot.Prelude.{
  from_le, ℕ, ◌+◌, ◌-◌, ◌^◌, ◌≤◌, ◌<◌, ◌≡◌, ap, ◌∙◌, List, ◌++◌, Bytes, leb, length, take, drop,
  replicate, Option, ok, Result-cases, length-append, length-replicate, Bool-cases, inl, inr, ◌⊎◌,
  arith, leb→le,
}
use techo5_dot.BootImage.Fields.{
  le32, from_le-le32, splice, word_at, splice_here, splice_apart, length-splice,
}
use techo5_dot.BootImage.Format.{
  magic, new_cmdline, wants_cmdline, with_cmdline, image_id, sized, new_header,
}

-- The bytes that no header update touches: before the kernel's size, the load addresses
-- between the sizes, what lies between the second stage's size and the command line, and what
-- lies behind the id.
abbrev pub Untouched : ℕ → ℕ → Type 0
Untouched j n =
    (j + n ≤ 8)
    ⊎ ((12 ≤ j) × (j + n ≤ 16))
    ⊎ ((20 ≤ j) × (j + n ≤ 24))
    ⊎ ((28 ≤ j) × (j + n ≤ 64))
    ⊎ (608 ≤ j)

-- The header of an image that the reader accepts.
pub record IsHeader (hdr : Bytes) (ps : ℕ) : Type 0 where
  pub whole : length hdr ≡ ps
  pub room : 608 ≤ ps
  pub android : take 8 hdr ≡ magic
  pub page_word : word_at hdr 36 ≡ ps
  pub version : word_at hdr 40 ≡ 0

-- What a new header `h` keeps of the old one, and what it says.
pub record Updates (hdr h kernel ramdisk : Bytes) : Type 0 where
  pub same_length : length h ≡ length hdr
  pub kernel_size : word_at h 8 ≡ length kernel
  pub ramdisk_size : word_at h 16 ≡ length ramdisk
  pub no_second : word_at h 24 ≡ 0
  pub kept : (j n : ℕ) → Untouched j n → take n (drop j h) ≡ take n (drop j hdr)

with_cmdline-eq_ok :
    (hdr : Bytes) (append : Option Bytes) (drops : List Bytes) {h : Bytes}
    → with_cmdline hdr append drops ≡ ok h
    → (h ≡ hdr) ⊎ ((new : Bytes) × (length new ≡ 512) × (h ≡ splice hdr 64 new))
unfolding with_cmdline
with_cmdline-eq_ok hdr append drops e =
    let cmd = new_cmdline hdr append drops in
    let new = cmd ++ replicate (512 - length cmd) 0 in
    elim (Bool-cases (wants_cmdline append drops)) [
      | inr kept ↦ inl (ground arith)
      | inl changed ↦ elim (Bool-cases (leb (length cmd) 511)) [
        | inr long ↦ absurd (ground arith)
        | inl fits ↦ inr (
          new,
          omega (
            arith,
            leb→le (length cmd) 511 fits,
            length-append cmd (replicate (512 - length cmd) 0),
            length-replicate {A = ℕ} (512 - length cmd) 0,
          ),
          ground arith,
        )
      ]
    ]

module _ (hdr kernel ramdisk : Bytes) (room : 608 ≤ length hdr) where
  word_apart :
      (h : Bytes) (i : ℕ) (new : Bytes) (j : ℕ)
      → i + length new ≤ length h
      → (j + 4 ≤ i) ⊎ (i + length new ≤ j)
      → word_at (splice h i new) j ≡ word_at h j
  unfolding word_at
  word_apart h i new j k a = ap from_le (splice_apart h i new j 4 k a)

  word_here :
      (h : Bytes) (i v : ℕ) → i ≤ length h → v < 2 ^ 32 → word_at (splice h i (le32 v)) i ≡ v
  unfolding word_at le32
  word_here h i v k lt = ap from_le (splice_here h i (le32 v) k) ∙ from_le-le32 v lt

  -- A write behind the sizes and before the second half of the page.
  Updates-splice :
      (h new : Bytes) (i : ℕ)
      → Updates hdr h kernel ramdisk
      → 64 ≤ i
      → i + length new ≤ 608
      → Updates hdr (splice h i new) kernel ramdisk
  Updates-splice h new i u lo hi = record {
    same_length = length-splice h i new (omega arith) ∙ u.same_length;
    kernel_size = word_apart h i new 8 (omega arith) (inl (omega arith)) ∙ u.kernel_size;
    ramdisk_size = word_apart h i new 16 (omega arith) (inl (omega arith)) ∙ u.ramdisk_size;
    no_second = word_apart h i new 24 (omega arith) (inl (omega arith)) ∙ u.no_second;
    kept = λ j n away. splice_apart h i new j n (omega arith) (omega arith) ∙ u.kept j n away;
  }

  sized-Updates :
      length kernel < 2 ^ 32
      → length ramdisk < 2 ^ 32
      → Updates hdr (sized hdr kernel ramdisk) kernel ramdisk
  unfolding sized le32
  sized-Updates kl rl =
      let k = le32 (length kernel) in
      let r = le32 (length ramdisk) in
      let h1 = splice hdr 8 k in
      let h2 = splice h1 16 r in
      let l1 : length h1 ≡ length hdr = length-splice hdr 8 k (omega arith) in
      let l2 : length h2 ≡ length hdr = length-splice h1 16 r (omega arith) ∙ l1 in
      record {
        same_length = length-splice h2 24 (le32 0) (omega arith) ∙ l2;
        kernel_size =
            word_apart h2 24 (le32 0) 8 (omega arith) (inl (omega arith))
            ∙ word_apart h1 16 r 8 (omega arith) (inl (omega arith))
            ∙ word_here hdr 8 (length kernel) (omega arith) kl;
        ramdisk_size =
            word_apart h2 24 (le32 0) 16 (omega arith) (inl (omega arith))
            ∙ word_here h1 16 (length ramdisk) (omega arith) rl;
        no_second = word_here h2 24 0 (omega arith) (omega arith);
        kept = λ j n away.
            splice_apart h2 24 (le32 0) j n (omega arith) (omega arith)
            ∙ splice_apart h1 16 r j n (omega arith) (omega arith)
            ∙ splice_apart hdr 8 k j n (omega arith) (omega arith);
      }

  with_cmdline-Updates :
      (h : Bytes) {h' : Bytes} (append : Option Bytes) (drops : List Bytes)
      → Updates hdr h kernel ramdisk
      → with_cmdline h append drops ≡ ok h'
      → Updates hdr h' kernel ramdisk
  with_cmdline-Updates h append drops u e = elim (with_cmdline-eq_ok h append drops e) [
    | inl kept ↦ rw kept u
    | inr (new, len, changed) ↦ rw changed (Updates-splice h new 64 u (omega arith) (omega arith))
  ]

module _ (sha1 : Bytes → Bytes) (digest : (b : Bytes) → length (sha1 b) ≡ 20) where
  length-image_id :
      (kernel ramdisk : Bytes) → length (image_id sha1 kernel ramdisk ++ replicate 12 0) ≡ 32
  unfolding image_id
  length-image_id kernel ramdisk =
      length-append (image_id sha1 kernel ramdisk) (replicate 12 0) ∙ ap (λ n. n + 12) (digest _)

  new_header-eq_ok :
      (hdr kernel ramdisk : Bytes) (append : Option Bytes) (drops : List Bytes) {h : Bytes}
      → new_header sha1 hdr kernel ramdisk append drops ≡ ok h
      → (length kernel < 2 ^ 32)
        × (length ramdisk < 2 ^ 32)
        × (mid : Bytes) × (with_cmdline (sized hdr kernel ramdisk) append drops ≡ ok mid)
        × (h ≡ splice mid 576 (image_id sha1 kernel ramdisk ++ replicate 12 0))
  unfolding new_header
  new_header-eq_ok hdr kernel ramdisk append drops e =
      elim (Result-cases (with_cmdline (sized hdr kernel ramdisk) append drops)) [
        | inl (why, bad) ↦ absurd (ground arith)
        | inr (mid, good) ↦ (ground arith, ground arith, mid, good, ground arith)
      ]

  pub new_header-Updates :
      (hdr kernel ramdisk : Bytes) (append : Option Bytes) (drops : List Bytes) {h : Bytes}
      → 608 ≤ length hdr
      → new_header sha1 hdr kernel ramdisk append drops ≡ ok h
      → Updates hdr h kernel ramdisk
  new_header-Updates hdr kernel ramdisk append drops room e =
      let (kl, rl, mid, made, final) = new_header-eq_ok hdr kernel ramdisk append drops e in
      let u =
        with_cmdline-Updates hdr kernel ramdisk room (sized hdr kernel ramdisk) append drops
          (sized-Updates hdr kernel ramdisk room kl rl) made in
      let id = image_id sha1 kernel ramdisk ++ replicate 12 0 in
      rw final (
        Updates-splice hdr kernel ramdisk room mid id 576 u (omega arith)
          (omega (arith, length-image_id kernel ramdisk)))
