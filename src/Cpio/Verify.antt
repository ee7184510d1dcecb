-- ===== src/Cpio/Verify.antt =====
-- tools/linux/mkimage.py: what `verify_cpio` answers about `finish`.
use techo5_dot.Prelude.{
  ℕ, suc, ◌+◌, ◌^◌, ◌≤◌, ◌<◌, ◌≡◌, refl, ap, ◌∙◌, sym, List, [], ◌∷◌, ◌++◌, Bytes, length,
  length-append, arith, contains, false, map, same, same_iff, ok, Bool-cases, inl, inr, Bool-ne,
  pos,
}
use techo5_dot.Cpio.Archive.{
  Cpio, Entry, Call, header, entry, entry_of, run_entries, run, finish, empty, trailer_name,
  plain_entry,
}
use techo5_dot.Cpio.Walk.{walk, verify_cpio}
use techo5_dot.Cpio.Layout.{kept, piece, image, run_entries-image}
use techo5_dot.Cpio.RoundTrip.{AllFits, Fits, NoTrailer, AllUtf8, walk-image}

-- The numbers of an entry, its inode number apart, fit the header's fields.
pub record IsSmall (e : Entry) : Type 0 where
  pub mode_fits : e.mode < 2 ^ 32
  pub nlink_fits : e.nlink < 2 ^ 32
  pub mtime_fits : e.mtime < 2 ^ 32
  pub size_fits : length e.content < 2 ^ 32
  pub major_fits : e.rdev_major < 2 ^ 32
  pub minor_fits : e.rdev_minor < 2 ^ 32
  pub name_fits : length e.name + 1 < 2 ^ 32

abbrev pub AllSmall : List Entry → Type 0
AllSmall [] = Unit
AllSmall (e ∷ es) = IsSmall e × AllSmall es

abbrev trailer : Entry
trailer = plain_entry trailer_name 0

IsSmall-Fits : (ino : ℕ) (e : Entry) → ino < 2 ^ 32 → IsSmall e → Fits ino e
IsSmall-Fits ino e h s = omega (arith, length-append {0} e.name (0 ∷ []))

run_entries-append :
    (es : List Entry) (e : Entry) (c : Cpio)
    → run_entries (es ++ e ∷ []) c ≡ entry e (run_entries es c)
unfolding run_entries
run_entries-append [] e c = refl
run_entries-append (x ∷ es) e c = run_entries-append es e (entry x c)

kept-append :
    (seen : List Bytes) (es : List Entry)
    → NoTrailer es
    → contains seen trailer_name ≡ false
    → kept seen (es ++ trailer ∷ []) ≡ kept seen es ++ trailer ∷ []
unfolding kept
kept-append seen [] fine h = rw h
kept-append seen (e ∷ es) (ne, fine) h = elim (Bool-cases (contains seen e.name)) [
  | inl old ↦ rw old (kept-append seen es fine h)
  | inr new ↦
      let apart : same trailer_name e.name ≡ false =
        Bool-ne (λ s. ne (sym ((same_iff trailer_name e.name).0 s))) in
      rw new (ap (◌∷◌ e) (kept-append (e.name ∷ seen) es fine (unfold contains in rw (apart, h))))
]

kept-NoTrailer : (seen : List Bytes) (es : List Entry) → NoTrailer es → NoTrailer (kept seen es)
unfolding kept
kept-NoTrailer seen [] fine = tt
kept-NoTrailer seen (e ∷ es) (ne, fine) =
    ground (arith, kept-NoTrailer seen es fine, kept-NoTrailer (e.name ∷ seen) es fine)

kept-AllUtf8 : (seen : List Bytes) (es : List Entry) → AllUtf8 es → AllUtf8 (kept seen es)
unfolding kept
kept-AllUtf8 seen [] texts = tt
kept-AllUtf8 seen (e ∷ es) (text, texts) =
    ground (arith, kept-AllUtf8 seen es texts, kept-AllUtf8 (e.name ∷ seen) es texts)

length-kept : (seen : List Bytes) (es : List Entry) → length (kept seen es) ≤ length es
unfolding kept
length-kept seen [] = omega arith
length-kept seen (e ∷ es) = ground (arith, length-kept seen es, length-kept (e.name ∷ seen) es)

kept-AllFits :
    (seen : List Bytes) (es : List Entry) (ino : ℕ)
    → AllSmall es
    → ino + length es < 2 ^ 32
    → AllFits ino (kept seen es ++ trailer ∷ [])
unfolding kept
kept-AllFits seen [] ino s h = (IsSmall-Fits ino trailer (omega arith) (omega arith), tt)
kept-AllFits seen (e ∷ es) ino (s, ss) h = elim (Bool-cases (contains seen e.name)) [
  | inl old ↦ rw old (kept-AllFits seen es ino ss (omega arith))
  | inr new ↦ rw new (
    IsSmall-Fits ino e (omega arith) s,
    kept-AllFits (e.name ∷ seen) es (ino + 1) ss (omega arith),
  )
]

length-image : (es : List Entry) (ino : ℕ) → length es ≤ length (image ino es)
unfolding image piece header
length-image [] ino = omega arith
length-image (e ∷ es) ino =
    omega (arith, length-append (piece ino e) (image (ino + 1) es), length-image es (ino + 1))

finish-image :
    (es : List Entry)
    → NoTrailer es
    → finish (run_entries es empty) ≡ image 1 (kept [] es ++ trailer ∷ [])
unfolding finish
finish-image es fine =
    ap (λ t. t.buf) (sym (run_entries-append es trailer empty))
    ∙ run_entries-image (es ++ trailer ∷ []) empty refl
    ∙ ap (image 1) (kept-append [] es fine (unfold contains in refl))

verify_cpio-entries :
    (es : List Entry)
    → AllSmall es
    → NoTrailer es
    → AllUtf8 es
    → length es + 1 < 2 ^ 32
    → verify_cpio (finish (run_entries es empty)) ≡ ok (map (λ e. e.name) (kept [] es))
unfolding verify_cpio
verify_cpio-entries es small fine texts h =
    let d = image 1 (kept [] es ++ trailer ∷ []) in
    let fuel : length (kept [] es) < suc (length d) = omega (
      arith,
      length-image (kept [] es ++ trailer ∷ []) 1,
      length-append (kept [] es) (trailer ∷ []),
    ) in
    ap (λ t. walk (suc (length t)) t (pos 0) []) (finish-image es fine)
    ∙ walk-image (kept [] es) 1 trailer d 0 (suc (length d)) []
        (kept-AllFits [] es 1 small (omega arith)) (kept-NoTrailer [] es fine)
        (kept-AllUtf8 [] es texts) refl refl fuel refl

-- Whatever sequence of `dir`, `file`, `symlink`, `chardev` and `blockdev` calls builds an
-- archive, walking what `finish` returns gives the names of the calls, each name once, in the
-- order of their first calls. The numbers must fit their 32-bit fields, the names are encoded
-- in UTF-8, and no call is named as the trailer is.
pub verify_cpio-finish :
    (calls : List Call)
    → AllSmall (map entry_of calls)
    → NoTrailer (map entry_of calls)
    → AllUtf8 (map entry_of calls)
    → length (map entry_of calls) + 1 < 2 ^ 32
    → verify_cpio (finish (run calls empty)) ≡ ok (map (λ e. e.name) (kept [] (map entry_of calls)))
unfolding run
verify_cpio-finish calls small fine texts h =
    verify_cpio-entries (map entry_of calls) small fine texts h
