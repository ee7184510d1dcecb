-- ===== src/BootImage/Format.antt =====
-- tools/linux/mkimage.py: `read_bootimg` and `write_bootimg`.
use techo5_dot.Prelude.{
  ℕ, ◌+◌, ◌-◌, ◌*◌, ◌/◌, ◌^◌, List, [], ◌∷◌, ◌++◌, Bytes, codes, Bool, not, ◌||◌, ◌==◌, ltb, leb,
  if◌then◌else◌, is_empty, same, length, take, slice, replicate, join, strip, Option, none, some,
  Result, ok, ◌>>=◌, ◌>>◌, guard,
}
use techo5_dot.BootImage.Fields.{le32, splice, word_at}
use techo5_dot.BootImage.Words.{cmdline_words, drop_words}

-- The `sys.exit` messages, and the `struct.error` and ZeroDivisionError of a damaged header.
pub data ImageError : Type 0 where
  not_android short_header zero_page size_overflow cmdline_too_long : ImageError
  bad_version : ℕ → ImageError

pub record Parts : Type 0 where
  pub hdr : Bytes
  pub kernel : Bytes
  pub ramdisk : Bytes
  pub page_size : ℕ

abbrev pub magic : Bytes
magic = codes "ANDROID!"

-- `pg = lambda n: ((n + ps - 1) // ps) * ps`
abbrev pub pages : ℕ → ℕ → ℕ
pages ps n = (n + ps - 1) / ps * ps

unfoldable pub read_bootimg : Bytes → Result ImageError Parts
read_bootimg d =
    let ks = word_at d 8 in
    let rs = word_at d 16 in
    let ps = word_at d 36 in
    let hv = word_at d 40 in
    do
      guard (same (take 8 d) magic) not_android
      guard (leb 44 (length d)) short_header
      guard (hv == 0) (bad_version hv)
      guard (not (ps == 0)) zero_page
      ok (record {
        hdr = take ps d;
        kernel = slice d ps (ps + ks);
        ramdisk = slice d (ps + pages ps ks) (ps + pages ps ks + rs);
        page_size = ps;
      })

-- `bytes(b).split(b"\0")[0]`
unfoldable pub until_zero : Bytes → Bytes
until_zero [] = []
until_zero (x ∷ xs) = let rest = until_zero xs in if x == 0 then [] else x ∷ rest

-- What `bytes.strip()` strips.
abbrev pub whitespace : Bytes
whitespace = b' ' ∷ 9 ∷ 10 ∷ 11 ∷ 12 ∷ 13 ∷ []

-- `cmdline_append` as the source tests it: an empty text counts as none.
abbrev pub appended : Option Bytes → Bytes → Bytes
appended none cmd = cmd
appended (some extra) cmd = if is_empty extra then cmd else strip whitespace (cmd ++ (b' ' ∷ extra))

abbrev pub wants_cmdline : Option Bytes → List Bytes → Bool
wants_cmdline none drops = not (is_empty drops)
wants_cmdline (some extra) drops = not (is_empty extra) || not (is_empty drops)

-- The new command line, before its length is checked.
unfoldable pub new_cmdline : Bytes → Option Bytes → List Bytes → Bytes
unfolding until_zero
new_cmdline hdr append drops =
    let cmd = until_zero (slice hdr 64 576) in
    appended append (join (codes " ") (drop_words drops (cmdline_words cmd)))

unfoldable pub with_cmdline : Bytes → Option Bytes → List Bytes → Result ImageError Bytes
with_cmdline hdr append drops =
    let cmd = new_cmdline hdr append drops in
    if wants_cmdline append drops
    then guard (leb (length cmd) 511) cmdline_too_long
      >> ok (splice hdr 64 (cmd ++ replicate (512 - length cmd) 0))
    else ok hdr

-- The sizes of the kernel, of the ramdisk and of the second stage, which there is none of.
unfoldable pub sized : Bytes → Bytes → Bytes → Bytes
sized hdr kernel ramdisk =
    splice (splice (splice hdr 8 (le32 (length kernel))) 16 (le32 (length ramdisk))) 24 (le32 0)

abbrev pub page_padding : ℕ → Bytes → Bytes
page_padding ps blob = replicate (pages ps (length blob) - length blob) 0

-- `hashlib.sha1`; its digests have 20 bytes.
module _ (sha1 : Bytes → Bytes) where
  -- SHA1 over the kernel, the ramdisk and two empty blobs, each followed by its size.
  unfoldable pub image_id : Bytes → Bytes → Bytes
  image_id kernel ramdisk = sha1 (
      kernel
      ++ (le32 (length kernel) ++ (ramdisk ++ (le32 (length ramdisk) ++ (le32 0 ++ le32 0)))))

  -- The header that goes in front.
  unfoldable pub new_header :
      Bytes → Bytes → Bytes → Option Bytes → List Bytes → Result ImageError Bytes
  new_header hdr kernel ramdisk append drops = do
    guard (leb 28 (length hdr)) short_header
    guard (ltb (length kernel) (2 ^ 32)) size_overflow
    guard (ltb (length ramdisk) (2 ^ 32)) size_overflow
    h ← with_cmdline (sized hdr kernel ramdisk) append drops
    ok (splice h 576 (image_id kernel ramdisk ++ replicate 12 0))

  -- The image's bytes; the source writes them to `out` and returns their number.
  unfoldable pub write_bootimg :
      Bytes → Bytes → Bytes → ℕ → Option Bytes → List Bytes → Result ImageError Bytes
  write_bootimg hdr kernel ramdisk ps append drops = do
    h ← new_header hdr kernel ramdisk append drops
    guard (not (ps == 0)) zero_page
    ok (h ++ (kernel ++ (page_padding ps kernel ++ (ramdisk ++ page_padding ps ramdisk))))
