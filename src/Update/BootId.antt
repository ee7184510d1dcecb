-- ===== src/Update/BootId.antt =====
-- tools/update-boot.py: the id of a boot, as it is read out of the unit's answer.
use mathlib.Core.Path.{subst}
use techo5_dot.Prelude.{
  ℕ, zero, suc, ◌+◌, ◌≡◌, refl, [], ◌∷◌, Bytes, length, length-take, take, starts_with, is_empty,
  true, Option, none, some, arith,
}
use techo5_dot.Console.Unit.{includes}
use techo5_dot.Update.Session.{hex_run, behind_dash, hex_then, starts_uuid, find_uuid}

length-hex_run :
    (n : ℕ) (cs : Bytes) {rest : Bytes} → hex_run n cs ≡ some rest → length cs ≡ n + length rest
unfolding hex_run
length-hex_run zero cs {rest} h = ground arith
length-hex_run (suc n) [] {rest} h = absurd (ground arith)
length-hex_run (suc n) (c ∷ cs) {rest} h =
    let e : hex_run n cs ≡ some rest = ground arith in let l = length-hex_run n cs e in omega arith

length-hex_then :
    (n k : ℕ) (o : Option Bytes) {rest : Bytes} (whole : ℕ)
    → ((cs : Bytes) → o ≡ some cs → whole ≡ k + length cs)
    → hex_then n o ≡ some rest
    → whole ≡ k + n + length rest
length-hex_then n k none whole before h = absurd (ground arith)
length-hex_then n k (some cs) whole before h =
    let e = length-hex_run n cs h in let b = before cs refl in omega arith

length-behind_dash :
    (k : ℕ) (o : Option Bytes) (whole : ℕ)
    → ((cs : Bytes) → o ≡ some cs → whole ≡ k + length cs)
    → (rest : Bytes) → behind_dash o ≡ some rest
    → whole ≡ k + 1 + length rest
length-behind_dash k none whole before rest h = absurd (ground arith)
length-behind_dash k (some []) whole before rest h = absurd (ground arith)
length-behind_dash k (some (c ∷ cs)) whole before rest h =
    let b = before (c ∷ cs) refl in ground arith

length-starts_uuid :
    (cs : Bytes) {rest : Bytes} → starts_uuid cs ≡ some rest → length cs ≡ 36 + length rest
length-starts_uuid cs h =
    length-hex_then 12 24 _ (length cs)
      (length-behind_dash 23 _ (length cs) (λ r4. length-hex_then 4 19 _ (length cs) (
        length-behind_dash 18 _ (length cs) (λ r3. length-hex_then 4 14 _ (length cs) (
          length-behind_dash 13 _ (length cs) (λ r2.
            length-hex_then 4 9 _ (length cs)
              (length-behind_dash 8 _ (length cs) (λ r1. length-hex_run 8 cs))))))))
      h

starts_with-take : (n : ℕ) (cs : Bytes) → starts_with cs (take n cs) ≡ true
unfolding starts_with
starts_with-take zero cs = ground arith
starts_with-take (suc n) [] = ground arith
starts_with-take (suc n) (c ∷ cs) = ground (arith, starts_with-take n cs)

starts_nothing : (sub : Bytes) → starts_with [] sub ≡ true → is_empty sub ≡ true
unfolding starts_with
starts_nothing [] h = refl
starts_nothing (y ∷ ys) h = h

includes_start : (s sub : Bytes) → starts_with s sub ≡ true → includes s sub ≡ true
unfolding includes
includes_start [] sub h = ground (arith, starts_nothing sub)
includes_start (c ∷ cs) sub h = ground arith

found_or_later :
    (c : ℕ) (cs : Bytes) (o : Option Bytes) {boot_id : Bytes}
    → starts_uuid (c ∷ cs) ≡ o
    → ((id : Bytes) → find_uuid cs ≡ some id → (length id ≡ 36) × (includes cs id ≡ true))
    → elim o [ none ↦ find_uuid cs | some rest ↦ some (take 36 (c ∷ cs)) ] ≡ some boot_id
    → (length boot_id ≡ 36) × (includes (c ∷ cs) boot_id ≡ true)
unfolding includes
found_or_later c cs none {boot_id} e later h = let l = later boot_id h in (l.0, ground arith)
found_or_later c cs (some rest) {boot_id} e later h =
    let long = length-starts_uuid (c ∷ cs) e in
    let fits = length-take 36 (c ∷ cs) in
    let at_start = includes_start (c ∷ cs) (take 36 (c ∷ cs)) (starts_with-take 36 (c ∷ cs)) in
    let same_id = (let e : take 36 (c ∷ cs) ≡ boot_id = cc in e) in
    subst (λ id. (length id ≡ 36) × (includes (c ∷ cs) id ≡ true)) same_id (omega arith, at_start)

-- A boot id is 36 bytes of the text, so it is not empty.
pub find_uuid-Found :
    (text boot_id : Bytes)
    → find_uuid text ≡ some boot_id
    → (length boot_id ≡ 36) × (includes text boot_id ≡ true)
unfolding find_uuid includes
find_uuid-Found [] boot_id h = absurd (ground arith)
find_uuid-Found (c ∷ cs) boot_id h =
    found_or_later c cs (starts_uuid (c ∷ cs)) refl (find_uuid-Found cs) h
