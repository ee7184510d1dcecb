-- ===== src/Release/Download.antt =====
-- tools/techo5lib.py: `fetch`, `download` and `download_checked`.
use techo5_dot.Prelude.{
  ℕ, ◌+◌, ◌++◌, Bytes, codes, same, Bool, false, if◌then◌else◌, none, some, ok, err,
}
use techo5_dot.Release.World.{
  Response, refused, broken, served, World, network_error, checksum_mismatch, M, ◌>>◌, stop, write,
  remove, replace,
}

abbrev pub partial_of : Bytes → Bytes
partial_of out = out ++ codes ".partial"

-- `hash_file(path) == sha256`, for a file that is there.
abbrev pub has_hash : (Bytes → Bytes) → Bytes → Bytes → World → Bool
has_hash hash path sha256 w = elim (w.files path) [
  | none ↦ false
  | some content ↦ same (hash content) sha256
]

abbrev pub count_request : World → World
count_request w = record w { requests = w.requests + 1 }

-- `serve n url` is the answer to the n-th request; `hash` is the SHA-256 in hexadecimal.
module _ (serve : ℕ → Bytes → Response) (hash : Bytes → Bytes) where
  -- `fetch`
  unfoldable pub fetch : Bytes → M Bytes
  fetch url w = elim (serve w.requests url) [
    | refused ↦ (err (network_error url), count_request w)
    | broken part ↦ (err (network_error url), count_request w)
    | served content ↦ (ok content, count_request w)
  ]

  -- `with _open(url) as r, open(path, 'wb') as f: shutil.copyfileobj(r, f)`
  unfoldable pub save : Bytes → Bytes → M (Unit {0})
  save url path w = elim (serve w.requests url) [
    | refused ↦ (err (network_error url), count_request w)
    | broken part ↦ (write path part >> stop (network_error url)) (count_request w)
    | served content ↦ write path content (count_request w)
  ]

  -- `download`
  unfoldable pub download : Bytes → Bytes → M (Unit {0})
  unfolding save
  download url out = save url (partial_of out) >> replace (partial_of out) out

  -- The comparison behind the transfer.
  unfoldable pub keep_checked : Bytes → Bytes → Bytes → M (Unit {0})
  keep_checked url out sha256 w =
      if has_hash hash (partial_of out) sha256 w
      then replace (partial_of out) out w
      else (remove (partial_of out) >> stop (checksum_mismatch url)) w

  -- `download_checked`
  unfoldable pub download_checked : Bytes → Bytes → Bytes → M (Unit {0})
  unfolding save keep_checked
  download_checked url out sha256 w =
      if has_hash hash out sha256 w
      then (ok tt, w)
      else (save url (partial_of out) >> keep_checked url out sha256) w
