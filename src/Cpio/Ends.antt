-- ===== src/Cpio/Ends.antt =====
-- tools/linux/mkimage.py: where `verify_cpio` ends on bytes that nothing is known of.
use mathlib.Core.Path.{subst}
use techo5_dot.Prelude.{
  ℕ, zero, suc, ◌+◌, ◌-◌, ◌*◌, ◌<◌, ◌≤◌, ◌≡◌, ◌≢◌, refl, ap, List, [], ◌∷◌, ◌++◌, Bytes, length,
  take, drop, slice, length-take, length-drop, true, Bool-cases, inl, inr, Option-cases, some, same,
  same_iff, ℤ, pos, err, arith,
}
use techo5_dot.Cpio.Archive.{newc}
use techo5_dot.Cpio.Hex.{parse_hex, NoMinus, IsPos, parse_hex-IsPos}
use techo5_dot.Cpio.Walk.{
  field, out_of_fuel, read_fields, slice_ℤ, name_end, align4, walk, verify_cpio,
}

drop-NoMinus : (n : ℕ) (d : Bytes) → NoMinus d → NoMinus (drop n d)
drop-NoMinus zero d h = h
drop-NoMinus (suc n) [] h = tt
drop-NoMinus (suc n) (c ∷ cs) (ne, h) = drop-NoMinus n cs h

take-NoMinus : (n : ℕ) (d : Bytes) → NoMinus d → NoMinus (take n d)
take-NoMinus zero d h = tt
take-NoMinus (suc n) [] h = tt
take-NoMinus (suc n) (c ∷ cs) (ne, h) = (ne, take-NoMinus n cs h)

slice-NoMinus : (d : Bytes) (i j : ℕ) → NoMinus d → NoMinus (slice d i j)
slice-NoMinus d i j h = take-NoMinus (j - i) (drop i d) (drop-NoMinus i d h)

abbrev AllPos : List ℤ → Type 0
AllPos [] = Unit
AllPos (z ∷ zs) = IsPos z × AllPos zs

read_fields-AllPos :
    (n i off : ℕ) (d : Bytes) (f : List ℤ)
    → NoMinus d
    → read_fields n i (pos off) d ≡ some f
    → AllPos f
unfolding read_fields
read_fields-AllPos zero i off d [] h e = tt
read_fields-AllPos zero i off d (z ∷ zs) h e = absurd (ground arith)
read_fields-AllPos (suc n) i off d f h e =
    let digits = slice d (off + (6 + i * 8)) (off + (14 + i * 8)) in
    elim (Option-cases (parse_hex digits)) [
      | inl bad ↦ absurd (ground arith)
      | inr (v, good) ↦ elim (Option-cases (read_fields n (i + 1) (pos off) d)) [
        | inl bad ↦ absurd (ground arith)
        | inr (vs, read) ↦
            let all : AllPos (v ∷ vs) = (
              parse_hex-IsPos digits v (slice-NoMinus d _ _ h) good,
              read_fields-AllPos n (i + 1) off d vs h read,
            ) in
            let same_list : v ∷ vs ≡ f = ground arith in subst AllPos same_list all
      ]
    ]

field-IsPos : (f : List ℤ) (k : ℕ) → AllPos f → IsPos (field f k)
field-IsPos [] k all = (0, refl)
field-IsPos (z ∷ zs) zero (p, all) = p
field-IsPos (z ∷ zs) (suc k) (p, all) = field-IsPos zs k all

magic-le : (d : Bytes) (off : ℕ) → same (slice d off (off + 6)) newc ≡ true → off + 6 ≤ length d
magic-le d off h =
    let e : length (slice d off (off + 6)) ≡ 6 = ap length ((same_iff _ newc).0 h) in
    omega (arith, length-take {A = ℕ} (off + 6 - off) (drop off d), length-drop {A = ℕ} off d)

walk-ne-out_of_fuel :
    (fuel : ℕ) (d : Bytes) (off : ℕ) (names : List Bytes)
    → 0 < fuel
    → length d < off + fuel
    → NoMinus d
    → walk fuel d (pos off) names ≢ err out_of_fuel
unfolding walk
walk-ne-out_of_fuel zero d off names p h m = absurd (omega arith)
walk-ne-out_of_fuel (suc fuel) d off names p h m =
    elim (Bool-cases (same (slice d off (off + 6)) newc)) [
      | inr bad ↦ rw bad (ground arith)
      | inl good ↦ rw good (elim (Option-cases (read_fields 13 0 (pos off) d)) [
        | inl bad ↦ rw bad (ground arith)
        | inr (f, read) ↦
            let le = magic-le d off good in
            let all = read_fields-AllPos 13 0 off d f m read in
            let (size, e) = field-IsPos f 11 all in
            let (file_size, k) = field-IsPos f 6 all in
            let later =
              walk-ne-out_of_fuel fuel d (align4 (align4 (off + 110 + size) + file_size))
                (names ++ slice_ℤ d (pos (off + 110)) (name_end (pos off) (pos size)) ∷ [])
                (omega arith) (omega arith) m in
            rw read (rw (e, k) (ground arith))
      ])
    ]

-- The walk of any bytes among which there is no minus sign ends: in the names, or in one of the
-- errors of the source. (A size that is read as negative may lead back to an entry that was read.)
pub verify_cpio-ne-out_of_fuel : (d : Bytes) → NoMinus d → verify_cpio d ≢ err out_of_fuel
unfolding verify_cpio
verify_cpio-ne-out_of_fuel d m =
    walk-ne-out_of_fuel (suc (length d)) d 0 [] (omega arith) (omega arith) m
