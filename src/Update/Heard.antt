-- ===== src/Update/Heard.antt =====
-- tools/update-boot.py: what the script prints says `flashed` only where it has flashed.
use techo5_dot.Prelude.{
  ℕ, ◌≡◌, refl, [], ◌∷◌, ◌++◌, Bytes, codes, strip, lstrip, rstrip, starts_with, among, Bool, true,
  false, ◌&&◌, ◌||◌, arith,
}
use techo5_dot.Asking.Units.{spaces}
use techo5_dot.Console.Unit.{includes}
use techo5_dot.Update.Flash.{Ending, mismatch, stopped, restored, flashed, printed}
use techo5_dot.Update.Session.{is_hex}

among-lstrip : (c : ℕ) (chars s : Bytes) → among c (lstrip chars s) ≡ true → among c s ≡ true
unfolding among lstrip
among-lstrip c chars [] h = h
among-lstrip c chars (x ∷ xs) h = ground (arith, among-lstrip c chars xs)

among-rstrip : (c : ℕ) (chars s : Bytes) → among c (rstrip chars s) ≡ true → among c s ≡ true
unfolding among rstrip
among-rstrip c chars [] h = h
among-rstrip c chars (x ∷ xs) h = ground (arith, among-rstrip c chars xs)

among-starts_with :
    (c : ℕ) (s sub : Bytes) → starts_with s sub ≡ true → among c sub ≡ true → among c s ≡ true
unfolding among starts_with
among-starts_with c s [] h m = absurd (ground arith)
among-starts_with c [] (y ∷ ys) h m = absurd (ground arith)
among-starts_with c (x ∷ xs) (y ∷ ys) h m = ground (arith, among-starts_with c xs ys)

-- A text has each letter of what it includes.
pub among-includes :
    (c : ℕ) (s sub : Bytes) → includes s sub ≡ true → among c sub ≡ true → among c s ≡ true
unfolding includes among starts_with
among-includes c [] [] h m = m
among-includes c [] (y ∷ ys) h m = absurd (ground arith)
among-includes c (x ∷ xs) sub h m =
    ground (arith, among-includes c xs sub, among-starts_with c (x ∷ xs) sub)

among_append : (c : ℕ) (a b : Bytes) → among c (a ++ b) ≡ (among c a || among c b)
unfolding among
among_append c [] b = refl
among_append c (x ∷ xs) b = ground (arith, among_append c xs b)

-- `md5sum` prints hexadecimal digits.
unfoldable pub all_hex : Bytes → Bool
all_hex [] = true
all_hex (c ∷ cs) = let rest = all_hex cs in is_hex c && rest

no_l-hex : (bs : Bytes) → all_hex bs ≡ true → among b'l' bs ≡ false
unfolding all_hex among
no_l-hex [] h = refl
no_l-hex (c ∷ cs) h = ground (arith, no_l-hex cs)

abbrev pub sum_restored : Ending → Bool
sum_restored (restored got) = all_hex got
sum_restored _ = true

printed_l :
    (e : Ending)
    → sum_restored e ≡ true
    → among b'l' (printed e) ≡ true
    → (got : Bytes) × (e ≡ flashed got)
unfolding printed among
printed_l mismatch hex l = absurd (ground arith)
printed_l stopped hex l = absurd (ground arith)
printed_l (restored got) hex l =
    let no = no_l-hex got hex in
    let e = among_append b'l' got (codes "; previous image restored\n") in absurd (ground arith)
printed_l (flashed got) hex l = (got, refl)

-- The test of what the script prints is passed only where the script has flashed.
pub heard_flashed :
    (e : Ending) (want : Bytes)
    → sum_restored e ≡ true
    → includes (strip spaces (printed e)) (codes "flashed " ++ want) ≡ true
    → (got : Bytes) × (e ≡ flashed got)
unfolding among
heard_flashed e want hex h = printed_l e hex (
    among-lstrip b'l' spaces (printed e) (
      among-rstrip b'l' spaces (lstrip spaces (printed e))
        (among-includes b'l' (strip spaces (printed e)) (codes "flashed " ++ want) h refl)))
