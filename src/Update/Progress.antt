-- ===== src/Update/Progress.antt =====
-- tools/update-boot.py: an update of a unit whose parts do what they should.
use techo5_dot.Prelude.{
  ℕ, ◌≡◌, refl, ap, ◌∙◌, [], ◌∷◌, ◌++◌, Bytes, codes, same, same_refl, starts_with-append,
  append-nil, length, take-append, drop, among, strip, lstrip, rstrip, is_empty, true, false,
  Option, none, some, ok, arith,
}
use techo5_dot.Asking.Units.{spaces}
use techo5_dot.Console.Unit.{includes}
use techo5_dot.Waits.Loops.{watch_boot}
use techo5_dot.Update.Flash.{
  Disk, Hardware, flashed, printed, sum_of, flash, copy_linux, checked_next,
}
use techo5_dot.Update.Session.{is_hex, Remote, boot_id_of, with_next, update}
use techo5_dot.Update.Heard.{all_hex}

-- `cp` copies, and `dd` writes the image over the first bytes of the partition.
pub record Works (hw : Hardware) : Type 0 where
  pub copies : (image : Bytes) → hw.copy image ≡ (true, image)
  pub writes :
      (image part : Bytes) → hw.write image part ≡ (true, image ++ drop (length image) part)

hex-spaces : (c : ℕ) → is_hex c ≡ true → among c spaces ≡ false
unfolding among
hex-spaces c h = ground arith

rstrip_line : (bs : Bytes) → all_hex bs ≡ true → rstrip spaces (bs ++ codes "\n") ≡ bs
unfolding rstrip all_hex among
rstrip_line [] h = refl
rstrip_line (c ∷ cs) h = ground (arith, rstrip_line cs, hex-spaces c)

filled : (a b : Bytes) → is_empty b ≡ false → is_empty (a ++ b) ≡ false
filled [] b h = h
filled (x ∷ xs) b h = refl

rstrip_behind :
    (a b : Bytes)
    → is_empty (rstrip spaces b) ≡ false
    → rstrip spaces (a ++ b) ≡ a ++ rstrip spaces b
unfolding rstrip
rstrip_behind [] b h = refl
rstrip_behind (x ∷ xs) b h =
    let e = rstrip_behind xs b h in let f = filled xs (rstrip spaces b) h in ground arith

heard_line :
    (want : Bytes)
    → all_hex want ≡ true
    → is_empty want ≡ false
    → strip spaces (printed (flashed want)) ≡ codes "flashed " ++ want
unfolding printed lstrip among
heard_line want hex full =
    let line = rstrip_line want hex in
    rstrip_behind (codes "flashed ") (want ++ codes "\n") (ap is_empty line ∙ full)
    ∙ ap (λ x. codes "flashed " ++ x) line

includes_whole : (s : Bytes) → is_empty s ≡ false → includes s s ≡ true
unfolding includes
includes_whole [] h = refl
includes_whole (c ∷ cs) h =
    let e = starts_with-append (c ∷ cs) [] in let n = append-nil (c ∷ cs) in ground arith

module _ (md5 : Bytes → Bytes) (hw : Hardware) (works : Works hw) where
  -- What a unit whose parts work holds after the script.
  abbrev pub flashed_disk : Bytes → Bytes → Disk → Disk
  flashed_disk image old d = record {
    next = d.next;
    linux = d.linux;
    prev = some old;
    partition = image ++ drop (length image) d.partition;
  }

  copied :
      (want image old : Bytes) (d : Disk) (linux : Option Bytes)
      → linux ≡ some old
      → md5 image ≡ want
      → copy_linux md5 hw want (length image) image linux d
        ≡ (flashed want, flashed_disk image old d)
  copied want image old d none e sum = absurd (ground arith)
  copied want image old d (some other) e sum =
      let o : other ≡ old = cc in
      let c = works.copies other in
      let w = works.writes image d.partition in
      let t = take-append image (drop (length image) d.partition) {n = length image} refl in
      let s = same_refl want in rw (c, w, t, sum, s, o) refl

  checked :
      (want image old : Bytes) (d : Disk) (next : Option Bytes)
      → next ≡ some image
      → d.linux ≡ some old
      → md5 image ≡ want
      → checked_next md5 hw want (length image) next d ≡ (flashed want, flashed_disk image old d)
  checked want image old d none e l sum = absurd (ground arith)
  checked want image old d (some other) e l sum =
      let o : other ≡ image = cc in rw o (copied want image old d d.linux l sum)

  -- Where the copy and the writes work, the script flashes an image that has arrived.
  pub flash_works :
      (want image old : Bytes) (d : Disk)
      → d.next ≡ some image
      → d.linux ≡ some old
      → md5 image ≡ want
      → flash md5 hw want (length image) d ≡ (flashed want, flashed_disk image old d)
  unfolding flash
  flash_works want image old d n l sum =
      let s = same_refl want in
      let c = checked want image old d d.next n l sum in
      let m : same (sum_of md5 d.next) want ≡ true = rw (n, sum, s) refl in rw m c

-- The conditions under which a new boot image comes up on the unit.
pub record GoesWell (md5 : Bytes → Bytes) (r : Remote) (want image old boot_id : Bytes) (d : Disk)
    : Type 0 where
  pub works : Works r.hardware
  pub known : boot_id_of r.id_answer ≡ some boot_id
  pub arrives : r.sent d.next ≡ (true, some image)
  pub before : d.linux ≡ some old
  pub sum : md5 image ≡ want
  pub hex : all_hex want ≡ true
  pub full : is_empty want ≡ false
  pub healthy : watch_boot r.elapsed r.reply boot_id ≡ true
  pub moved : r.moves ≡ true

-- The update then ends well: linux.img is the new image, linux-prev.img the one before, and the
-- partition begins with the new image.
pub update_works :
    (md5 : Bytes → Bytes) (r : Remote) (want image old boot_id : Bytes) (d : Disk)
    → GoesWell md5 r want image old boot_id d
    → update md5 r want (length image) d ≡ (
      ok tt,
      record {
        next = none;
        linux = some image;
        prev = some old;
        partition = image ++ drop (length image) d.partition;
      },
    )
unfolding update
update_works md5 r want image old boot_id d g =
    let f =
      flash_works md5 r.hardware g.works want image old (with_next d (some image)) refl g.before
        g.sum in
    let h = heard_line want g.hex g.full in
    let w = includes_whole (codes "flashed " ++ want) refl in
    rw (g.known, g.arrives, f, h, w, g.healthy, g.moved) refl
