-- ===== src/Ed25519/Curve.antt =====
-- tools/techo5lib.py: points in extended coordinates, and the verification of a signature.
use techo5_dot.Prelude.{
  ℕ, zero, suc, ◌+◌, ◌-◌, ◌*◌, ◌/◌, ◌%◌, ◌^◌, Option, none, some, ◌==◌, leb, if◌then◌else◌, pos,
  sub_ℕ, ◌*ℤ◌, mod_ℤ, Bool, false, ◌&&◌, ◌||◌, not, ◌++◌, Bytes, length, take, drop, from_le,
}
use techo5_dot.Ed25519.Field.{prime, order, curve_d, pow_mod, recover_x}

-- (x, y, z, t)
pub record Point : Type 0 where
  pub x : ℕ
  pub y : ℕ
  pub z : ℕ
  pub t : ℕ

abbrev pub identity : Point
identity = record { x = 0; y = 1; z = 1; t = 0 }

-- `_point_add`
unfoldable pub point_add : Point → Point → Point
point_add p q =
    let a = mod_ℤ (sub_ℕ p.y p.x *ℤ sub_ℕ q.y q.x) prime in
    let b = (p.y + p.x) * (q.y + q.x) % prime in
    let c = 2 * p.t * q.t * curve_d % prime in
    let d = 2 * p.z * q.z % prime in
    let e = sub_ℕ b a in
    let f = sub_ℕ d c in
    let g = d + c in
    let h = b + a in
    record {
      x = mod_ℤ (e *ℤ f) prime;
      y = g * h % prime;
      z = mod_ℤ (f *ℤ pos g) prime;
      t = mod_ℤ (e *ℤ pos h) prime;
    }

-- The loop of `_point_mul`: the point to double, and the sum so far. The fuel is above `n`,
-- which every round halves.
unfoldable pub ladder : ℕ → ℕ → Point → Point → Point
ladder zero n p out = out
ladder (suc fuel) n p out =
    let rest = ladder fuel (n / 2) (point_add p p) (if n % 2 == 1 then point_add out p else out) in
    if n == 0 then out else rest

-- `_point_mul`
unfoldable pub point_mul : ℕ → Point → Point
point_mul n p = ladder (suc n) n p identity

-- `_point_equal`
unfoldable pub point_equal : Point → Point → Bool
point_equal p q =
    mod_ℤ (sub_ℕ (p.x * q.z) (q.x * p.z)) prime == 0
    && mod_ℤ (sub_ℕ (p.y * q.z) (q.y * p.z)) prime == 0

-- `_point_decompress`
unfoldable pub point_decompress : Bytes → Option Point
point_decompress b =
    let n = from_le b in
    let y = n % 2 ^ 255 in
    if not (length b == 32) then none else elim (recover_x y (n / 2 ^ 255)) [
      | none ↦ none
      | some x ↦ some (record { x = x; y = y; z = 1; t = x * y % prime })
    ]

-- `_G_Y` and `_G`
unfoldable pub base_y : ℕ
base_y = 4 * pow_mod 5 (prime - 2) prime % prime

unfoldable pub base_x : ℕ
base_x = elim (recover_x base_y 0) [ none ↦ 0 | some x ↦ x ]

unfoldable pub base : Point
base = record { x = base_x; y = base_y; z = 1; t = base_x * base_y % prime }

-- `hashlib.sha512` is a parameter.
module _ (sha512 : Bytes → Bytes) where
  unfoldable pub challenge : Bytes → Bytes → Bytes → ℕ
  challenge public_key message signature =
      from_le (sha512 (take 32 signature ++ (public_key ++ message))) % order

  -- The comparison of [S]B with R + [h]A, and what comes before it.
  unfoldable pub check_points : Option Point → Option Point → ℕ → ℕ → Bool
  check_points none r s h = false
  check_points (some a) none s h = false
  check_points (some a) (some r) s h =
      if leb order s then false else point_equal (point_mul s base) (point_add r (point_mul h a))

  -- `ed25519_verify`
  unfoldable pub ed25519_verify : Bytes → Bytes → Bytes → Bool
  ed25519_verify public_key message signature =
      if not (length public_key == 32) || not (length signature == 64)
      then false
      else check_points (point_decompress public_key) (point_decompress (take 32 signature))
          (from_le (drop 32 signature)) (challenge public_key message signature)
