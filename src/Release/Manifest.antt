-- ===== src/Release/Manifest.antt =====
-- tools/techo5lib.py: `verify_manifest`, and the parts of a manifest that the tools read.
use techo5_dot.Prelude.{
  Bytes, codes, ◌==◌, length, Option, none, some, strip, [], Result, ok, ◌>>◌, guard,
}
use techo5_dot.BootImage.Format.{whitespace}
use techo5_dot.Ed25519.Curve.{ed25519_verify}
use techo5_dot.Release.World.{Stop, no_release_key, malformed_signature, not_signed}

-- `RELEASE_KEY`
abbrev pub release_key : Bytes
release_key = codes "KVUuQUbhyKwPBbIneqFEvXYSI+3Hkfu/heCTy5YNVMk="

-- The value of a `try: ... except: b''` around a decoding.
abbrev pub or_empty : Option Bytes → Bytes
or_empty none = []
or_empty (some b) = b

abbrev pub trusted_key : (Bytes → Option Bytes) → Bytes
trusted_key b64decode = or_empty (b64decode release_key)

abbrev pub raw_signature : (Bytes → Option Bytes) → Bytes → Bytes
raw_signature b64decode signature = or_empty (b64decode (strip whitespace signature))

-- `sha512` is hashlib's, `b64decode` that of base64 with `validate`, `none` where it raises.
module _ (sha512 : Bytes → Bytes) (b64decode : Bytes → Option Bytes) where
  -- `verify_manifest`
  unfoldable pub verify_manifest : Bytes → Bytes → Result Stop (Unit {0})
  verify_manifest manifest signature = do
    guard (length (trusted_key b64decode) == 32) no_release_key
    guard (length (raw_signature b64decode signature) == 64) malformed_signature
    guard
        (ed25519_verify sha512 (trusted_key b64decode) manifest (raw_signature b64decode signature))
        not_signed
    ok tt

-- An entry of the manifest, with the keys that it has.
pub record Entry : Type 0 where
  pub url : Option Bytes
  pub sha256 : Option Bytes

-- `manifest['version']`, and what `(manifest.get('rootfs') or {}).get(arch)` and
-- `(manifest.get('assets') or {}).get(name)` give; an empty entry counts as none.
pub record Manifest : Type 0 where
  pub version : Option Bytes
  pub rootfs : Bytes → Option Entry
  pub assets : Bytes → Option Entry
