-- ===== src/BootImage/RoundTrip.antt =====
-- tools/linux/mkimage.py: reading back what `write_bootimg` wrote.
use techo5_dot.Prelude.{
  from_le, ℕ, ◌+◌, ◌-◌, ◌≤◌, ◌<◌, ◌≡◌, refl, ap, ◌∙◌, sym, List, ◌++◌, Bytes, true, not, ◌==◌, leb,
  same, same_refl, length, take, drop, slice, slice_at, drop_at, Option, ok, Result-cases,
  length-append, length-replicate, take-append, drop-append, append_assoc, inl, inr, arith,
}
use techo5_dot.BootImage.Fields.{word_at, take-drop_left, word_at_left}
use techo5_dot.BootImage.Header.{IsHeader, Updates, new_header-Updates}
use techo5_dot.BootImage.Format.{
  magic, pages, read_bootimg, new_header, page_padding, write_bootimg,
}

pages-le : (ps n : ℕ) → 0 < ps → n ≤ pages ps n
pages-le ps n h = omega arith

-- The reader on an image put together from its parts.
module _ (h kernel ramdisk : Bytes) (ps : ℕ) (whole : length h ≡ ps) (room : 608 ≤ ps)
    (android : take 8 h ≡ magic) (ks : word_at h 8 ≡ length kernel)
    (rs : word_at h 16 ≡ length ramdisk) (page : word_at h 36 ≡ ps)
    (version : word_at h 40 ≡ 0) where
  body : Bytes
  body = kernel ++ (page_padding ps kernel ++ (ramdisk ++ page_padding ps ramdisk))

  kernel_read : slice (h ++ body) ps (ps + length kernel) ≡ kernel
  unfolding body
  kernel_read =
      slice_at (h ++ body) kernel _ ps (ps + length kernel) (drop-append h body (sym whole)) refl

  ramdisk_read :
      slice
        (h ++ body)
        (ps + pages ps (length kernel))
        (ps + pages ps (length kernel) + length ramdisk)
      ≡ ramdisk
  unfolding body
  ramdisk_read =
      let skip = kernel ++ page_padding ps kernel in
      let rest = ramdisk ++ page_padding ps ramdisk in
      let at : drop ps (h ++ body) ≡ skip ++ rest =
        drop-append h body (sym whole) ∙ sym (append_assoc kernel (page_padding ps kernel) rest) in
      let len : length skip ≡ pages ps (length kernel) = omega (
        arith,
        pages-le ps (length kernel),
        length-append kernel (page_padding ps kernel),
        length-replicate {A = ℕ} (pages ps (length kernel) - length kernel) 0,
      ) in
      slice_at (h ++ body) ramdisk (page_padding ps ramdisk) (ps + pages ps (length kernel)) _
        (drop_at (h ++ body) skip rest ps (ps + pages ps (length kernel)) at (omega arith)) refl

  read_parts :
      read_bootimg (h ++ body)
      ≡ ok (record { hdr = h; kernel = kernel; ramdisk = ramdisk; page_size = ps })
  unfolding read_bootimg
  read_parts =
      let w8 = word_at_left 8 h body (omega arith) ∙ ks in
      let w16 = word_at_left 16 h body (omega arith) ∙ rs in
      let w36 = word_at_left 36 h body (omega arith) ∙ page in
      let w40 = word_at_left 40 h body (omega arith) ∙ version in
      let m : same (take 8 (h ++ body)) magic ≡ true =
        ap (λ t. same t magic) (take-drop_left 0 8 h body (omega arith) ∙ android)
        ∙ same_refl magic in
      let l : leb 44 (length (h ++ body)) ≡ true = ground (arith, length-append h body) in
      let z : not (ps == 0) ≡ true = ground arith in
      let whole' = take-append h body (sym whole) in
      rw (w8, w16, w36, w40) (rw (m, l, z, whole', kernel_read, ramdisk_read))

module _ (sha1 : Bytes → Bytes) (digest : (b : Bytes) → length (sha1 b) ≡ 20) where
  write_bootimg-eq_ok :
      (hdr kernel ramdisk : Bytes) (ps : ℕ) (append : Option Bytes) (drops : List Bytes)
      {img : Bytes}
      → write_bootimg sha1 hdr kernel ramdisk ps append drops ≡ ok img
      → (h : Bytes) × (new_header sha1 hdr kernel ramdisk append drops ≡ ok h)
        × (img ≡ h ++ (kernel ++ (page_padding ps kernel ++ (ramdisk ++ page_padding ps ramdisk))))
  unfolding write_bootimg
  write_bootimg-eq_ok hdr kernel ramdisk ps append drops e =
      elim (Result-cases (new_header sha1 hdr kernel ramdisk append drops)) [
        | inl (why, bad) ↦ absurd (ground arith)
        | inr (h, good) ↦ (h, good, ground arith)
      ]

  -- An image that `write_bootimg` writes over a header that the reader accepts is read back as
  -- its parts: the kernel, the ramdisk and the page size given, and the new header. That one
  -- differs from the old header in the two sizes, the second stage's size, the command line and
  -- the id alone, so the load addresses and the page size stay.
  pub read_bootimg-write_bootimg :
      (hdr kernel ramdisk : Bytes) (ps : ℕ) (append : Option Bytes) (drops : List Bytes)
      {img : Bytes}
      → IsHeader hdr ps
      → write_bootimg sha1 hdr kernel ramdisk ps append drops ≡ ok img
      → (h : Bytes) × (read_bootimg img
          ≡ ok (record { hdr = h; kernel = kernel; ramdisk = ramdisk; page_size = ps }))
        × Updates hdr h kernel ramdisk
  unfolding body
  read_bootimg-write_bootimg hdr kernel ramdisk ps append drops header e =
      let (h, made, img) = write_bootimg-eq_ok hdr kernel ramdisk ps append drops e in
      let u =
        new_header-Updates sha1 digest hdr kernel ramdisk append drops
          (omega (arith, header.whole, header.room)) made in
      let android : take 8 h ≡ magic = u.kept 0 8 (inl (omega arith)) ∙ header.android in
      let word : (j : ℕ) → (28 ≤ j) × (j + 4 ≤ 64) → word_at h j ≡ word_at hdr j =
        λ j near. unfold word_at in ap from_le (u.kept j 4 (inr (inr (inr (inl near))))) in
      (
        h,
        ap read_bootimg img
            ∙ read_parts h kernel ramdisk ps (u.same_length ∙ header.whole) header.room android
                u.kernel_size u.ramdisk_size (word 36 (omega arith) ∙ header.page_word)
                (word 40 (omega arith) ∙ header.version),
        u,
      )
