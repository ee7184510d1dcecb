-- ===== src/Backups/Kept.antt =====
-- tools/install-dot.py: what the backup step keeps, and what it makes sure of.
use mathlib.Core.Path.{subst}
use techo5_dot.Prelude.{
  ◌≡◌, refl, ap, List, [], ◌∷◌, ◌++◌, Bytes, codes, same, same_iff, same_refl, if◌then◌else◌, Bool,
  Bool-ne, true, false, ◌&&◌, ◌||◌, Bool-cases, inl, inr, some, ok, err, length, length-append,
  arith,
}
use techo5_dot.Backups.Copies.{
  Setting, Files, Outcome, head_is_android, is_there, matches, any_matches, image_path, copy_to,
  destination, backup_part, backup_parts, then_parts,
}

module _ (s : Setting) where
  -- The path is that of a new dated copy of one of the partitions, or of a transfer under way.
  abbrev pub is_fresh : Bytes → List Bytes → Bytes → Bool
  is_fresh unit [] q = false
  is_fresh unit (p ∷ ps) q =
      same q (s.next_dated p)
      || same q (s.next_dated p ++ codes ".partial")
      || same q (image_path unit p ++ codes ".partial")
      || is_fresh unit ps q

  backup_part-keeps :
      (unit target p : Bytes) (ps : List Bytes) (files : Files) (q content : Bytes)
      → is_fresh unit (p ∷ ps) q ≡ false
      → files q ≡ some content
      → (backup_part s unit target p files).1 q ≡ some content
  unfolding backup_part copy_to
  backup_part-keeps unit target p ps files q content fresh h =
      ground (arith, (same_iff q (image_path unit p)).0)

  then_parts-keeps :
      (o : Outcome) (rest : Files → Outcome) (q content : Bytes)
      → o.1 q ≡ some content
      → ((files : Files) → files q ≡ some content → (rest files).1 q ≡ some content)
      → (then_parts o rest).1 q ≡ some content
  then_parts-keeps (ok u, files) rest q content h keeps = keeps files h
  then_parts-keeps (err e, files) rest q content h keeps = h

  -- The backup step never changes or removes a file that is there, such as a backup from an earlier
  -- run, whether it ends well or stops: of the files, only those of transfers under way and of new
  -- dated copies of the partitions may be written over.
  pub backup_parts-keeps :
      (unit target : Bytes) (ps : List Bytes) (files : Files) (q content : Bytes)
      → is_fresh unit ps q ≡ false
      → files q ≡ some content
      → (backup_parts s unit target ps files).1 q ≡ some content
  unfolding backup_parts
  backup_parts-keeps unit target [] files q content fresh h = h
  backup_parts-keeps unit target (p ∷ ps) files q content fresh h =
      then_parts-keeps (backup_part s unit target p files) _ q content
        (backup_part-keeps unit target p ps files q content fresh h)
        (λ later k. backup_parts-keeps unit target ps later q content (ground arith) k)

  -- A partition is backed up: an image of it or a dated copy has the device's md5, or the image of
  -- the target is an Android boot image that was there before.
  pub data Backed (unit target p : Bytes) (before after : Files) : Type 0 where
    as_image :
        matches s after (image_path unit p) (s.device_md5 p) ≡ true
        → Backed unit target p before after
    as_dated :
        any_matches s after (s.dated p) (s.device_md5 p) ≡ true → Backed unit target p before after
    as_new :
        matches s after (s.next_dated p) (s.device_md5 p) ≡ true → Backed unit target p before after
    as_earlier :
        p ≡ target
        → head_is_android (after (image_path unit p)) ≡ true
        → after (image_path unit p) ≡ before (image_path unit p)
        → Backed unit target p before after

  ne-partial : (path : Bytes) → same path (path ++ codes ".partial") ≡ false
  ne-partial path = Bool-ne λ h.
      let e : length path ≡ length (path ++ codes ".partial") =
        ap length ((same_iff path (path ++ codes ".partial")).0 h) in
      absurd (omega (arith, length-append path (codes ".partial")))

  copy_to-matches :
      (p dest : Bytes) (files : Files)
      → (copy_to s p dest files).0 ≡ ok tt
      → matches s (copy_to s p dest files).1 dest (s.device_md5 p) ≡ true
  unfolding copy_to
  copy_to-matches p dest files h = ground (arith, ne-partial dest, same_refl dest)

  -- A round of the backup step that ends well leaves its partition backed up.
  pub backup_part-Backed :
      (unit target p : Bytes) (files : Files)
      → (backup_part s unit target p files).0 ≡ ok tt
      → Backed unit target p files (backup_part s unit target p files).1
  unfolding backup_part
  backup_part-Backed unit target p files h = elim (Bool-cases (s.has_source p)) [
    | inr decoy ↦ absurd (ground arith)
    | inl real ↦ elim (Bool-cases (matches s files (image_path unit p) (s.device_md5 p))) [
      | inl good ↦ rw (real, good) (as_image good)
      | inr changed ↦ elim (Bool-cases (any_matches s files (s.dated p) (s.device_md5 p))) [
        | inl good ↦ rw (real, changed, good) (as_dated good)
        | inr none_dated ↦
            elim (Bool-cases (same p target && head_is_android (files (image_path unit p)))) [
              | inl earlier ↦
                  let is_target : same p target ≡ true = ground arith in
                  let android : head_is_android (files (image_path unit p)) ≡ true = ground arith in
                  rw (real, changed, none_dated, earlier)
                    (as_earlier ((same_iff p target).0 is_target) android refl)
              | inr copied ↦
                  let done : (copy_to s p (destination s unit p files) files).0 ≡ ok tt =
                    ground arith in
                  rw (real, changed, none_dated, copied)
                    (placed (copy_to-matches p (destination s unit p files) files done))
            ]
      ]
    ]
  ]
    where
      placed :
          matches s
              (copy_to s p (destination s unit p files) files).1
              (destination s unit p files)
              (s.device_md5 p)
            ≡ true
          → Backed unit target p files (copy_to s p (destination s unit p files) files).1
      placed m = elim (Bool-cases (is_there (files (image_path unit p)))) [
        | inl there ↦ as_new (
            subst
              (λ b.
                matches s (copy_to s p (destination s unit p files) files).1
                  (if b then s.next_dated p else image_path unit p) (s.device_md5 p)
                ≡ true)
              there m)
        | inr missing ↦ as_image (
            subst
              (λ b.
                matches s (copy_to s p (destination s unit p files) files).1
                  (if b then s.next_dated p else image_path unit p) (s.device_md5 p)
                ≡ true)
              missing m)
      ]
