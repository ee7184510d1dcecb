-- ===== src/Release/Trust.antt =====
-- tools/techo5lib.py: what a checked download leaves on disk, and what the signature covers.
use techo5_dot.Prelude.{
  ℕ, ◌++◌, Bytes, codes, same, same_iff, same_refl, Bool-ne, true, false, Option, Option-cases,
  none, some, Result, Result-cases, ok, err, ◌≡◌, refl, sym, ap, ◌∙◌, inl, inr, arith, length,
  length-append,
}
use techo5_dot.Ed25519.Curve.{ed25519_verify}
use techo5_dot.Release.World.{
  Response, World, Stop, no_manifest, no_signature, ◌>>=◌, ◌>>◌, return, M, key_of, path_join,
  base_name, bind-eq_ok,
}
use techo5_dot.Release.Download.{partial_of, has_hash, fetch, download_checked}
use techo5_dot.Release.Manifest.{verify_manifest, trusted_key, raw_signature, Entry, Manifest}
use techo5_dot.Release.Fetching.{
  Release, or_stop, lift, download_base, or_unreadable, with_manifest, open_release, rootfs_from,
  rootfs, asset_from, asset,
}

ne-partial : (out : Bytes) → same out (partial_of out) ≡ false
ne-partial out = Bool-ne λ h.
    let e : length out ≡ length (partial_of out) =
      ap length ((same_iff out (partial_of out)).0 h) in
    absurd (omega (arith, length-append out (codes ".partial")))

-- How a download ends: `out` has the expected content, or it is what it was.
pub data Safe (hash : Bytes → Bytes) (out sha256 : Bytes) (w : World)
    (r : Result Stop (Unit {0}) × World) : Type 0 where
  done : r.0 ≡ ok tt → has_hash hash out sha256 r.1 ≡ true → Safe hash out sha256 w r
  stopped : (e : Stop) → r.0 ≡ err e → r.1.files out ≡ w.files out → Safe hash out sha256 w r

module _ (serve : ℕ → Bytes → Response) (hash : Bytes → Bytes) where
  -- `download_checked` ends in one of two ways, whatever the network answers: it returns and the
  -- file `out` has the checksum asked for, or it stops and `out` is what it was before.
  pub download_checked-Safe :
      (url out sha256 : Bytes) (w : World)
      → Safe hash out sha256 w (download_checked serve hash url out sha256 w)
  unfolding download_checked
  download_checked-Safe url out sha256 w =
      elim (Result-cases (download_checked serve hash url out sha256 w).0) [
        | inl (e, is_err) ↦
            stopped e is_err
              (ground (arith, ne-partial out, same_refl out, same_refl (partial_of out)))
        | inr (tt, is_ok) ↦
            done is_ok (ground (arith, ne-partial out, same_refl out, same_refl (partial_of out)))
      ]

  -- `download_checked` changes no other file than `out` and the partial file beside it.
  pub download_checked-files :
      (url out sha256 p : Bytes) (w : World)
      → same p out ≡ false
      → same p (partial_of out) ≡ false
      → (download_checked serve hash url out sha256 w).1.files p ≡ w.files p
  unfolding download_checked
  download_checked-files url out sha256 p w a b =
      ground (arith, ne-partial out, same_refl out, same_refl (partial_of out))

-- The bytes that a release's manifest was read from, with the signature over them.
pub record Signed (sha512 : Bytes → Bytes) (b64decode : Bytes → Option Bytes)
    (parse_json : Bytes → Option Manifest) (manifest : Manifest) : Type 0 where
  pub raw : Bytes
  pub signature : Bytes
  pub verified :
      ed25519_verify sha512 (trusted_key b64decode) raw (raw_signature b64decode signature) ≡ true
  pub parsed : parse_json raw ≡ some manifest

-- A file that hashes to what an entry of the manifest says.
pub record Vouched (hash : Bytes → Bytes) (entry : Option Entry) (path : Bytes) (w : World)
    : Type 0 where
  pub found : Entry
  pub sha256 : Bytes
  pub named : entry ≡ some found
  pub recorded : found.sha256 ≡ some sha256
  pub hashed : has_hash hash path sha256 w ≡ true

module _ (serve : ℕ → Bytes → Response) (hash : Bytes → Bytes) where
  pub download_checked-has_hash :
      (url out sha256 : Bytes) (w : World) {u : Unit {0}}
      → (download_checked serve hash url out sha256 w).0 ≡ ok u
      → has_hash hash out sha256 (download_checked serve hash url out sha256 w).1 ≡ true
  download_checked-has_hash url out sha256 w h =
      elim (download_checked-Safe serve hash url out sha256 w) [
        | done is_ok hashed ↦ hashed
        | stopped e is_err same_file ↦ absurd (ground arith)
      ]

  -- The end that `rootfs` and `asset` share.
  download-Vouched :
      (entry : Entry) (url out sha256 : Bytes) (w : World) {path : Bytes}
      → entry.sha256 ≡ some sha256
      → ((download_checked serve hash url out sha256 >> return out) w).0 ≡ ok path
      → Vouched hash
          (some entry)
          path
          ((download_checked serve hash url out sha256 >> return out) w).1
  download-Vouched entry url out sha256 w {path} recorded h =
      let (u, e1, h1, e2) =
        bind-eq_ok (download_checked serve hash url out sha256) (λ _. return out) w h in
      let eo : out ≡ path = ground arith in
      record {
        found = entry;
        sha256 = sha256;
        named = refl;
        recorded = recorded;
        hashed =
            ap
              (λ v.
                has_hash hash v sha256
                  ((download_checked serve hash url out sha256 >> return out) w).1)
              (sym eo)
            ∙ ap (has_hash hash out sha256) e2
            ∙ download_checked-has_hash url out sha256 w e1;
      }

  -- What `rootfs` and `asset` do with an entry, by the values of its keys.
  abbrev take_entry : Option Bytes → Option Bytes → (Bytes → Bytes) → M Bytes
  take_entry url_key sha256_key out_of = do
    url ← key_of (codes "url") url_key
    sha256 ← key_of (codes "sha256") sha256_key
    download_checked serve hash url (out_of url) sha256
    return (out_of url)

  take_entry-Vouched :
      (entry : Entry) (url_key sha256_key : Option Bytes) (out_of : Bytes → Bytes) (w : World)
      {path : Bytes}
      → entry.sha256 ≡ sha256_key
      → (take_entry url_key sha256_key out_of w).0 ≡ ok path
      → Vouched hash (some entry) path (take_entry url_key sha256_key out_of w).1
  take_entry-Vouched entry none s out_of w e h = absurd (ground arith)
  take_entry-Vouched entry (some url) none out_of w e h = absurd (ground arith)
  take_entry-Vouched entry (some url) (some sha256) out_of w e h =
      download-Vouched entry url (out_of url) sha256 w e h

  -- A file that `asset` hands back is there, with the checksum that the manifest records for it.
  pub asset-Vouched :
      (rel : Release) (name : Bytes) (w : World) {path : Bytes}
      → (asset serve hash rel name w).0 ≡ ok path
      → Vouched hash (rel.manifest.assets name) path (asset serve hash rel name w).1
  unfolding asset
  asset-Vouched rel name w h = from (rel.manifest.assets name) h
    where
      from :
          (o : Option Entry) {path : Bytes}
          → (asset_from serve hash rel name o w).0 ≡ ok path
          → Vouched hash o path (asset_from serve hash rel name o w).1
      from none h = absurd (ground arith)
      from (some entry) h =
          take_entry-Vouched entry entry.url entry.sha256 (λ _. path_join rel.dir name) w refl h

  -- The same for `rootfs`.
  pub rootfs-Vouched :
      (rel : Release) (arch : Bytes) (w : World) {path : Bytes}
      → (rootfs serve hash rel arch w).0 ≡ ok path
      → Vouched hash (rel.manifest.rootfs arch) path (rootfs serve hash rel arch w).1
  unfolding rootfs
  rootfs-Vouched rel arch w h = from (rel.manifest.rootfs arch) h
    where
      from :
          (o : Option Entry) {path : Bytes}
          → (rootfs_from serve hash rel arch o w).0 ≡ ok path
          → Vouched hash o path (rootfs_from serve hash rel arch o w).1
      from none h = absurd (ground arith)
      from (some entry) h =
          take_entry-Vouched entry entry.url entry.sha256 (λ url. path_join rel.dir (base_name url))
            w refl h

lift-eq_ok : {A : Type 0} (r : Result Stop A) (w : World) {a : A} → (lift r w).0 ≡ ok a → r ≡ ok a
lift-eq_ok r w h = h

or_unreadable-eq_ok :
    (o : Option Manifest) (w : World) {manifest : Manifest}
    → (or_unreadable o w).0 ≡ ok manifest
    → o ≡ some manifest
or_unreadable-eq_ok none w h = absurd (ground arith)
or_unreadable-eq_ok (some m) w h = ground arith

with_manifest-manifest :
    (repo tag workdir : Bytes) (manifest : Manifest) (w : World) {rel : Release}
    → (with_manifest repo tag workdir manifest w).0 ≡ ok rel
    → manifest ≡ rel.manifest
with_manifest-manifest repo tag workdir manifest w h = elim (Option-cases manifest.version) [
  | inl missing ↦ absurd (ground arith)
  | inr (version, is_version) ↦ ground arith
]

module _ (serve : ℕ → Bytes → Response) (hash sha512 : Bytes → Bytes)
    (b64decode : Bytes → Option Bytes) (parse_json : Bytes → Option Manifest) where
  verify_manifest-ed25519_verify :
      (raw sig : Bytes) {u : Unit {0}}
      → verify_manifest sha512 b64decode raw sig ≡ ok u
      → ed25519_verify sha512 (trusted_key b64decode) raw (raw_signature b64decode sig) ≡ true
  unfolding verify_manifest
  verify_manifest-ed25519_verify raw sig h = ground arith

  open_release-Signed :
      (repo tag workdir : Bytes) (w : World) {rel : Release}
      → (open_release serve hash sha512 b64decode parse_json repo tag workdir w).0 ≡ ok rel
      → Signed sha512 b64decode parse_json rel.manifest
  unfolding open_release
  open_release-Signed repo tag workdir w h =
      let (raw, e1, h1, _) =
        bind-eq_ok
          (or_stop (fetch serve hash (download_base repo tag ++ codes "/manifest.json"))
            no_manifest)
          _ w h in
      let (sig, e2, h2, _) =
        bind-eq_ok
          (or_stop (fetch serve hash (download_base repo tag ++ codes "/manifest.json.sig"))
            no_signature)
          _ _ h1 in
      let (_, e3, h3, _) = bind-eq_ok (lift (verify_manifest sha512 b64decode raw sig)) _ _ h2 in
      let (manifest, e4, h4, _) = bind-eq_ok (or_unreadable (parse_json raw)) _ _ h3 in
      record {
        raw = raw;
        signature = sig;
        verified = verify_manifest-ed25519_verify raw sig e3;
        parsed =
            or_unreadable-eq_ok (parse_json raw) _ e4
            ∙ ap some (with_manifest-manifest repo tag workdir manifest _ h4);
      }

  -- A path that `asset` returns on an opened release is trusted: the manifest that `Release(repo,
  -- tag, workdir)` kept is read from bytes whose signature checks under the key built in, and the
  -- path is a file whose hash that manifest records under the name asked for, in whatever state
  -- `v` the computer was when `asset` was called.
  pub asset_trusted :
      (repo tag workdir : Bytes) (w : World) {rel : Release} (name : Bytes) (v : World)
      {path : Bytes}
      → (open_release serve hash sha512 b64decode parse_json repo tag workdir w).0 ≡ ok rel
      → (asset serve hash rel name v).0 ≡ ok path
      → Signed sha512 b64decode parse_json rel.manifest
        × Vouched hash (rel.manifest.assets name) path (asset serve hash rel name v).1
  asset_trusted repo tag workdir w {rel} name v h e =
      (open_release-Signed repo tag workdir w h, asset-Vouched serve hash rel name v e)

  -- The same of a path that `rootfs` returns, for the architecture asked for.
  pub rootfs_trusted :
      (repo tag workdir : Bytes) (w : World) {rel : Release} (arch : Bytes) (v : World)
      {path : Bytes}
      → (open_release serve hash sha512 b64decode parse_json repo tag workdir w).0 ≡ ok rel
      → (rootfs serve hash rel arch v).0 ≡ ok path
      → Signed sha512 b64decode parse_json rel.manifest
        × Vouched hash (rel.manifest.rootfs arch) path (rootfs serve hash rel arch v).1
  rootfs_trusted repo tag workdir w {rel} arch v h e =
      (open_release-Signed repo tag workdir w h, rootfs-Vouched serve hash rel arch v e)
