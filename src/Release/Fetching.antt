-- ===== src/Release/Fetching.antt =====
-- tools/techo5lib.py: class Release.
use techo5_dot.Prelude.{
  ℕ, ◌++◌, Bytes, codes, same, if◌then◌else◌, Option, none, some, Result, ok, err,
}
use techo5_dot.Release.World.{
  Response, Stop, no_manifest, no_signature, unreadable_manifest, no_rootfs, not_in_manifest, M,
  ◌>>=◌, ◌>>◌, return, stop, key_of, path_join, base_name,
}
use techo5_dot.Release.Download.{fetch, download_checked}
use techo5_dot.Release.Manifest.{verify_manifest, Entry, Manifest}

pub record Release : Type 0 where
  pub repo : Bytes
  pub tag : Bytes
  pub dl : Bytes
  pub manifest : Manifest
  pub version : Bytes
  pub dir : Bytes

-- `try: m() except Exception: fail(e)`
abbrev pub or_stop : {A : Type 0} → M A → Stop → M A
or_stop m e w = let (r, w') = m w in elim r [ ok a ↦ (ok a, w') | err _ ↦ (err e, w') ]

abbrev pub lift : {A : Type 0} → Result Stop A → M A
lift r w = (r, w)

abbrev pub download_base : Bytes → Bytes → Bytes
download_base repo tag =
    (codes "https://github.com/" ++ (repo ++ codes "/releases"))
    ++ (if same tag (codes "latest") then codes "/latest/download" else codes "/download/" ++ tag)

-- `json.loads(raw.decode('utf-8'))`, which is `none` where it raises, under its `try`.
abbrev pub or_unreadable : Option Manifest → M Manifest
or_unreadable none w = (err unreadable_manifest, w)
or_unreadable (some manifest) w = (ok manifest, w)

-- What `__init__` keeps of a manifest that it trusts.
abbrev pub with_manifest : Bytes → Bytes → Bytes → Manifest → M Release
with_manifest repo tag workdir manifest = do
  version ← key_of (codes "version") manifest.version
  return (record {
    repo = repo;
    tag = tag;
    dl = download_base repo tag;
    manifest = manifest;
    version = version;
    dir = path_join workdir (codes "release-" ++ (base_name repo ++ (codes "-" ++ version)));
  })

module _ (serve : ℕ → Bytes → Response) (hash sha512 : Bytes → Bytes)
    (b64decode : Bytes → Option Bytes) (parse_json : Bytes → Option Manifest) where
  -- `Release(repo, tag, workdir)`
  unfoldable pub open_release : Bytes → Bytes → Bytes → M Release
  open_release repo tag workdir = do
    raw ← or_stop (fetch serve hash (download_base repo tag ++ codes "/manifest.json")) no_manifest
    sig ←
        or_stop (fetch serve hash (download_base repo tag ++ codes "/manifest.json.sig"))
          no_signature
    lift (verify_manifest sha512 b64decode raw sig)
    manifest ← or_unreadable (parse_json raw)
    with_manifest repo tag workdir manifest

-- `signed`
abbrev pub signed : Release → Bytes → Option Entry
signed rel name = rel.manifest.assets name

module _ (serve : ℕ → Bytes → Response) (hash : Bytes → Bytes) where
  abbrev pub rootfs_from : Release → Bytes → Option Entry → M Bytes
  rootfs_from rel arch none = stop (no_rootfs arch)
  rootfs_from rel arch (some entry) = do
    url ← key_of (codes "url") entry.url
    let out = path_join rel.dir (base_name url)
    sha256 ← key_of (codes "sha256") entry.sha256
    download_checked serve hash url out sha256
    return out

  -- `rootfs`
  unfoldable pub rootfs : Release → Bytes → M Bytes
  rootfs rel arch = rootfs_from rel arch (rel.manifest.rootfs arch)

  abbrev pub asset_from : Release → Bytes → Option Entry → M Bytes
  asset_from rel name none = stop (not_in_manifest name)
  asset_from rel name (some entry) = do
    let out = path_join rel.dir name
    url ← key_of (codes "url") entry.url
    sha256 ← key_of (codes "sha256") entry.sha256
    download_checked serve hash url out sha256
    return out

  -- `asset`
  unfoldable pub asset : Release → Bytes → M Bytes
  asset rel name = asset_from rel name (signed rel name)
