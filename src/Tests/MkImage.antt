-- ===== src/Tests/MkImage.antt =====
-- tools/linux/mkimage.py on small archives, headers and command lines.
use techo5_dot.Prelude.{
  from_le, ℕ, zero, suc, pos, negsuc, none, ◌-◌, ◌≡◌, ◌≢◌, refl, List, [], ◌∷◌, ◌++◌, Bytes, codes,
  true, false, some, length, replicate, contains, same, Result, ok, err, arith, join, among, lstrip,
  rstrip, split, starts_with,
}
use techo5_dot.Cpio.Hex.{format_08x, parse_hex}
use techo5_dot.Cpio.Archive.{
  Cpio, Call, dir, file, symlink, chardev, entry, entry_of, header, join_fields, pad, run, finish,
  empty,
}
use techo5_dot.Cpio.Walk.{bad_magic, out_of_fuel, read_fields, utf8_from, walk, verify_cpio}
use techo5_dot.Cpio.Layout.{kept}
use techo5_dot.Cpio.Verify.{verify_cpio-finish}
use techo5_dot.Cpio.Ends.{verify_cpio-ne-out_of_fuel}
use techo5_dot.Cpio.Tree.{
  TarError, Member, regular, add_parents, add_tar, add_members, add_member, member_name,
  member_call, read_member,
}
use techo5_dot.Cpio.Skipping.{add_tar_skip}
use techo5_dot.Cpio.Parents.{add_parents-contains}
use techo5_dot.BootImage.Fields.{word_at, le32, splice}
use techo5_dot.BootImage.Words.{cmdline_words, drop_words, is_dropped}
use techo5_dot.BootImage.Format.{
  ImageError, read_bootimg, write_bootimg, new_header, with_cmdline, new_cmdline, image_id, sized,
  until_zero,
}
use techo5_dot.BootImage.Header.{IsHeader, Updates}
use techo5_dot.BootImage.RoundTrip.{read_bootimg-write_bootimg}

abbrev calls : List Call
calls =
    dir (codes "dev") 0o755
    ∷ chardev (codes "dev/null") 1 3 0o666
    ∷ file (codes "init") (codes "#!/bin/sh") 0o755
    ∷ file (codes "init") (codes "late") 0o644
    ∷ symlink (codes "bin") (codes "usr/bin")
    ∷ []

abbrev names : List Bytes
names = codes "dev" ∷ codes "dev/null" ∷ codes "init" ∷ codes "bin" ∷ []

archive_runs : verify_cpio (finish (run calls empty)) ≡ ok names
unfolding verify_cpio walk read_fields parse_hex utf8_from same finish entry run header join_fields
    format_08x pad contains
archive_runs = refl

verify_cpio-finish_example : verify_cpio (finish (run calls empty)) ≡ ok names
unfolding kept entry_of contains utf8_from
verify_cpio-finish_example =
    verify_cpio-finish calls (omega arith)
      (ground arith, (ground arith, (ground arith, (ground arith, (ground arith, tt)))))
      (refl, (refl, (refl, (refl, (refl, tt))))) (omega arith)

verify_cpio-ne-out_of_fuel_example : verify_cpio (codes "07070") ≢ err out_of_fuel
verify_cpio-ne-out_of_fuel_example =
    verify_cpio-ne-out_of_fuel (codes "07070")
      (ground arith, (ground arith, (ground arith, (ground arith, (ground arith, tt)))))

number_tests :
    (parse_hex (codes "-0000070") ≡ some (negsuc 111))
    × (parse_hex (codes " 0x_1f\n ") ≡ some (pos 31))
    × (parse_hex (codes "1__f") ≡ none)
    × (parse_hex (codes "0x") ≡ none)
unfolding parse_hex
number_tests = (refl, refl, refl, refl)

-- An entry whose size leads back to the entry itself.
abbrev backwards : Bytes
backwards =
    codes
      "070701000000010000000000000000000000000000000000000000-0000070000000000000000000000000000000000000000200000000x\0"

-- The walk of it never ends.
walk-backwards : (fuel : ℕ) (seen : List Bytes) → walk fuel backwards (pos 0) seen ≡ err out_of_fuel
unfolding walk read_fields parse_hex utf8_from same
walk-backwards zero seen = refl
walk-backwards (suc fuel) seen = walk-backwards fuel (seen ++ codes "x" ∷ [])

short_archive : verify_cpio (codes "07070") ≡ err (bad_magic (pos 0))
unfolding verify_cpio walk same
short_archive = refl

abbrev apk : List Member
apk =
    record {
      name = codes ".PKGINFO";
      kind = regular;
      mode = 0o644;
      linkname = [];
      content = some (codes "pkgname");
      devmajor = 0;
      devminor = 0;
    }
    ∷ []

seen_names : Result TarError Cpio → List Bytes
seen_names (ok c) = c.seen
seen_names (err e) = []

-- A package's metadata lands in the root of the initramfs, under its name without the dot.
metadata_kept : seen_names (add_tar apk true empty) ≡ codes "PKGINFO" ∷ []
unfolding seen_names add_tar add_members add_member member_name member_call read_member run entry
    lstrip rstrip among starts_with contains
metadata_kept = refl

add_tar_skip_example : add_tar apk true empty ≡ add_tar apk false empty
add_tar_skip_example = add_tar_skip apk true empty

add_parents-contains_example :
    contains (add_parents (codes "/usr/local/bin/wmtup") empty).seen (codes "usr/local") ≡ true
unfolding split lstrip rstrip among join
add_parents-contains_example =
    add_parents-contains (codes "/usr/local/bin/wmtup") empty 2 (omega arith) (omega arith)

abbrev cmdline : Bytes
cmdline = codes "root=/dev/dm-0 dm=\"system none ro,0 1\" quiet"

-- A header of one page of 608 bytes.
abbrev page : Bytes
page =
    codes "ANDROID!"
    ++ (replicate 28 0
        ++ (96 ∷ 2 ∷ 0 ∷ 0 ∷ replicate 24 0)
        ++ (cmdline ++ replicate (544 - length cmdline) 0))

abbrev drops : List Bytes
drops = codes "root=" ∷ codes "dm=" ∷ []

abbrev digest : Bytes → Bytes
digest b = replicate 20 7

abbrev image_of : Result ImageError Bytes → Bytes
image_of (ok img) = img
image_of (err e) = []

abbrev image : Bytes
image = image_of (
    write_bootimg digest page (codes "kernel") (codes "ramdisk") 608 (some (codes "stay=15")) drops)

page-IsHeader : IsHeader page 608
unfolding word_at from_le
page-IsHeader = record {
  whole = refl;
  room = omega arith;
  android = refl;
  page_word = refl;
  version = refl;
}

read_bootimg-write_bootimg_example :
    (h : Bytes) × (read_bootimg image
      ≡ ok
          (record { hdr = h; kernel = codes "kernel"; ramdisk = codes "ramdisk"; page_size = 608 }))
    × Updates page h (codes "kernel") (codes "ramdisk")
unfolding write_bootimg
read_bootimg-write_bootimg_example =
    read_bootimg-write_bootimg digest (λ b. refl) page (codes "kernel") (codes "ramdisk") 608
      (some (codes "stay=15")) drops page-IsHeader
      (unfold write_bootimg new_header sized with_cmdline splice le32 image_id new_cmdline
          until_zero cmdline_words drop_words is_dropped starts_with join lstrip rstrip among in
        refl)

cmdline_runs : new_cmdline page (some (codes "stay=15")) drops ≡ codes "quiet stay=15"
unfolding new_cmdline until_zero cmdline_words drop_words is_dropped starts_with join lstrip rstrip
    among
cmdline_runs = refl
