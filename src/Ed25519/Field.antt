-- ===== src/Ed25519/Field.antt =====
-- tools/techo5lib.py: the constants of the curve, modular powers, and `_recover_x`.
use techo5_dot.Prelude.{
  ℕ, zero, suc, ◌+◌, ◌-◌, ◌*◌, ◌/◌, ◌%◌, ◌^◌, Option, none, some, ◌==◌, leb, if◌then◌else◌, pos,
  negsuc, sub_ℕ, ◌*ℤ◌, mod_ℤ, Bool,
}

-- `_P`, the field, and `_L`, the order of the base point.
abbrev pub prime : ℕ
prime = 2 ^ 255 - 19

abbrev pub order : ℕ
order = 2 ^ 252 + 27742317777372353535851937790883648493

-- `pow(b, e, m)` by squaring; the fuel is above `e`, which every round halves.
unfoldable pub pow_loop : ℕ → ℕ → ℕ → ℕ → ℕ → ℕ
pow_loop zero b e m acc = acc
pow_loop (suc fuel) b e m acc =
    let rest = pow_loop fuel (b * b % m) (e / 2) m (if e % 2 == 1 then acc * b % m else acc) in
    if e == 0 then acc else rest

unfoldable pub pow_mod : ℕ → ℕ → ℕ → ℕ
unfolding pow_loop
pow_mod b e m = pow_loop (suc e) (b % m) e m (1 % m)

-- `_D` and `_SQRT_M1`
unfoldable pub curve_d : ℕ
unfolding pow_mod mod_ℤ ◌*ℤ◌
curve_d = mod_ℤ (negsuc 121664 *ℤ pos (pow_mod 121666 (prime - 2) prime)) prime

unfoldable pub sqrt_m1 : ℕ
unfolding pow_mod
sqrt_m1 = pow_mod 2 ((prime - 1) / 4) prime

-- `(x * x - x2) % _P == 0`
unfoldable pub is_root : ℕ → ℕ → Bool
unfolding mod_ℤ
is_root x x2 = mod_ℤ (sub_ℕ (x * x) x2) prime == 0

-- The square that goes with a point's y.
unfoldable pub x_squared : ℕ → ℕ
unfolding mod_ℤ ◌*ℤ◌ pow_mod curve_d
x_squared y = mod_ℤ (sub_ℕ (y * y) 1 *ℤ pos (pow_mod (curve_d * y * y + 1) (prime - 2) prime)) prime

-- The candidate root, multiplied by a root of -1 when it is not one.
unfoldable pub candidate : ℕ → ℕ
candidate x2 =
    let x = pow_mod x2 ((prime + 3) / 8) prime in if is_root x x2 then x else x * sqrt_m1 % prime

unfoldable pub recover_root : ℕ → ℕ → Option ℕ
recover_root x2 sign =
    if x2 == 0
    then if sign == 0 then some 0 else none
    else if is_root (candidate x2) x2
    then some (if candidate x2 % 2 == sign then candidate x2 else prime - candidate x2)
    else none

-- `_recover_x`
unfoldable pub recover_x : ℕ → ℕ → Option ℕ
recover_x y sign = if leb prime y then none else recover_root (x_squared y) sign
