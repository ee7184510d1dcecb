-- ===== src/Ed25519/Accepts.antt =====
-- tools/techo5lib.py: the signatures that `ed25519_verify` accepts.
use native.Mathlib.Nat.{mod-eq_of_lt}
use techo5_dot.Prelude.{
  ℕ, zero, suc, ◌%◌, ◌<◌, ◌≡◌, ◌≢◌, refl, sym, ◌∙◌, [], ◌∷◌, ◌++◌, Bytes, length, take, drop,
  take-drop, from_le, none, true, arith, length-drop,
}
use techo5_dot.Ed25519.Field.{order}
use techo5_dot.Ed25519.Curve.{point_decompress, check_points, ed25519_verify}

-- The numbers are bytes.
abbrev pub AreBytes : Bytes → Type 0
AreBytes [] = Unit
AreBytes (x ∷ xs) = (x < 256) × AreBytes xs

drop-AreBytes : (n : ℕ) (b : Bytes) → AreBytes b → AreBytes (drop n b)
drop-AreBytes zero b h = h
drop-AreBytes (suc n) [] h = h
drop-AreBytes (suc n) (x ∷ b) (h, hs) = drop-AreBytes n b hs

-- Equally long bytes that make the same number are the same bytes.
from_le_injective :
    (a b : Bytes) → AreBytes a → AreBytes b → length a ≡ length b → from_le a ≡ from_le b → a ≡ b
unfolding from_le
from_le_injective [] [] ha hb l e = refl
from_le_injective [] (y ∷ b) ha hb l e = absurd (omega arith)
from_le_injective (x ∷ a) [] ha hb l e = absurd (omega arith)
from_le_injective (x ∷ a) (y ∷ b) (hx, ha) (hy, hb) l e =
    let same_head : x ≡ y = omega arith in
    let same_tail = from_le_injective a b ha hb (omega arith) (omega arith) in cc

module _ (sha512 : Bytes → Bytes) where
  -- A signature is accepted only with a key of 32 bytes that is a point, a signature of 64 bytes
  -- whose first half is a point, and a second half below the order of the base point.
  pub ed25519_verify_shape :
      (public_key message signature : Bytes)
      → ed25519_verify sha512 public_key message signature ≡ true
      → (length public_key ≡ 32)
        × (length signature ≡ 64)
        × (point_decompress public_key ≢ none)
        × (point_decompress (take 32 signature) ≢ none)
        × (from_le (drop 32 signature) < order)
  unfolding ed25519_verify check_points
  ed25519_verify_shape public_key message signature h = ground arith

  -- Of the signatures that share their first half and whose second halves agree modulo the
  -- order, one at most is accepted for a key and a message: an accepted signature cannot be
  -- turned into another one by adding the order to its second half.
  pub ed25519_verify_unique :
      (public_key message s1 s2 : Bytes)
      → AreBytes s1
      → AreBytes s2
      → ed25519_verify sha512 public_key message s1 ≡ true
      → ed25519_verify sha512 public_key message s2 ≡ true
      → take 32 s1 ≡ take 32 s2
      → from_le (drop 32 s1) % order ≡ from_le (drop 32 s2) % order
      → s1 ≡ s2
  ed25519_verify_unique public_key message s1 s2 b1 b2 v1 v2 first second =
      let k1 = ed25519_verify_shape public_key message s1 v1 in
      let k2 = ed25519_verify_shape public_key message s2 v2 in
      let number : from_le (drop 32 s1) ≡ from_le (drop 32 s2) =
        sym (mod-eq_of_lt k1.4) ∙ second ∙ mod-eq_of_lt k2.4 in
      let rest : drop 32 s1 ≡ drop 32 s2 =
        from_le_injective (drop 32 s1) (drop 32 s2) (drop-AreBytes 32 s1 b1)
          (drop-AreBytes 32 s2 b2)
          (omega (arith, length-drop {A = ℕ} 32 s1, length-drop {A = ℕ} 32 s2, k1.1, k2.1))
          number in
      sym (take-drop 32 s1) ∙ (λ i. first i ++ rest i) ∙ take-drop 32 s2
