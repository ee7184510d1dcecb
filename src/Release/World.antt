-- ===== src/Release/World.antt =====
-- tools/techo5lib.py: what the downloads see of the computer: its files, and a network that may
-- answer differently at each request.
use techo5_dot.Prelude.{
  ℕ, List, [], ◌∷◌, ◌++◌, Bytes, codes, same, Bool, true, false, if◌then◌else◌, Option, none, some,
  Result, ok, err, starts_with, split, ◌≡◌, refl, arith,
}

-- What a request leads to: an exception before anything arrives, one after some bytes, or the whole.
pub data Response : Type 0 where
  refused : Response
  broken : Bytes → Response
  served : Bytes → Response

pub record World : Type 0 where
  pub files : Bytes → Option Bytes
  pub requests : ℕ

-- Why a tool stops: the reasons of `fail`, and the exceptions that nothing catches.
pub data Stop : Type 0 where
  network_error : Bytes → Stop
  checksum_mismatch : Bytes → Stop
  no_release_key malformed_signature not_signed no_manifest no_signature unreadable_manifest : Stop
  missing_key : Bytes → Stop
  no_rootfs : Bytes → Stop
  not_in_manifest : Bytes → Stop
  no_kernel_61 : Stop
  no_kernel_at : Bytes → Stop
  other_board : Option Bytes → Stop
  bad_tar not_in_rootfs unsafe_path : Bytes → Stop

-- A step that may change the world and may stop; what it changed stays changed.
abbrev pub M : Type 0 → Type 0
M A = World → Result Stop A × World

abbrev pub continue : {A B : Type 0} → Result Stop A × World → (A → M B) → Result Stop B × World
continue (ok a, w) f = f a w
continue (err e, w) f = (err e, w)

infixl 5 ◌>>=◌ ◌>>◌
abbrev pub ◌>>=◌ : {A B : Type 0} → M A → (A → M B) → M B
◌>>=◌ m f w = continue (m w) f

abbrev pub ◌>>◌ : {B : Type 0} → M (Unit {0}) → M B → M B
◌>>◌ m k = m >>= λ _. k

abbrev pub return : {A : Type 0} → A → M A
return a w = (ok a, w)

abbrev pub stop : {A : Type 0} → Stop → M A
stop e w = (err e, w)

abbrev pub require : Bool → Stop → M (Unit {0})
require true e w = (ok tt, w)
require false e w = (err e, w)

-- `d[key]`
abbrev pub key_of : {A : Type 0} → Bytes → Option A → M A
key_of name none w = (err (missing_key name), w)
key_of name (some a) w = (ok a, w)

-- The files after `path` is written, or removed.
abbrev pub put : (Bytes → Option Bytes) → Bytes → Option Bytes → Bytes → Option Bytes
put files path content p = if same p path then content else files p

abbrev pub write : Bytes → Bytes → M (Unit {0})
write path content w = (ok tt, record w { files = put w.files path (some content) })

abbrev pub remove : Bytes → M (Unit {0})
remove path w = (ok tt, record w { files = put w.files path none })

-- `os.replace(src, dst)`
abbrev pub replace : Bytes → Bytes → M (Unit {0})
replace src dst w = (ok tt, record w { files = put (put w.files dst (w.files src)) src none })

-- `os.path.join(a, b)` on POSIX.
abbrev ends_in_slash : Bytes → Bool
ends_in_slash [] = true
ends_in_slash (c ∷ []) = same (c ∷ []) (codes "/")
ends_in_slash (c ∷ d ∷ s) = ends_in_slash (d ∷ s)

unfoldable pub path_join : Bytes → Bytes → Bytes
path_join a b =
    if starts_with b (codes "/") then b else if ends_in_slash a then a ++ b else a ++ (b'/' ∷ b)

abbrev pub last_or : Bytes → List Bytes → Bytes
last_or d [] = d
last_or d (x ∷ xs) = last_or x xs

-- `s.rsplit('/', 1)[-1]`
unfoldable pub base_name : Bytes → Bytes
base_name s = last_or [] (split b'/' s)

-- Inversion of a step that was followed by another.
pub continue-eq_ok :
    {A B : Type 0} (r : Result Stop A × World) (f : A → M B) {b : B}
    → (continue r f).0 ≡ ok b
    → (a : A) × (r.0 ≡ ok a) × ((f a r.1).0 ≡ ok b) × ((continue r f).1 ≡ (f a r.1).1)
continue-eq_ok (ok a, w) f h = (a, refl, h, refl)
continue-eq_ok (err e, w) f h = cc

pub bind-eq_ok :
    {A B : Type 0} (m : M A) (f : A → M B) (w : World) {b : B}
    → ((m >>= f) w).0 ≡ ok b
    → (a : A) × ((m w).0 ≡ ok a) × ((f a (m w).1).0 ≡ ok b) × (((m >>= f) w).1 ≡ (f a (m w).1).1)
bind-eq_ok m f w h = continue-eq_ok (m w) f h

pub key_of-eq_ok :
    {A : Type 0} (name : Bytes) (o : Option A) (w : World) {a : A}
    → (key_of name o w).0 ≡ ok a
    → (o ≡ some a) × ((key_of name o w).1 ≡ w)
key_of-eq_ok name none w h = cc
key_of-eq_ok name (some a) w h = (ground arith, refl)
