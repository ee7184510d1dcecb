-- ===== src/Update/Outcomes.antt =====
-- tools/update-boot.py: how the script leaves the unit, at each of its ends.
use techo5_dot.Prelude.{
  ℕ, ◌≡◌, refl, ap, ◌∙◌, Bytes, same, same_iff, take, if_both, true, false, Option, none, some,
}
use techo5_dot.Update.Flash.{
  Disk, Hardware, Ending, mismatch, stopped, restored, flashed, with_prev, with_partition, sum_of,
  write_back_prev, read_back, write_next, copy_linux, checked_next, flash,
}

module _ (md5 : Bytes → Bytes) (hw : Hardware) (want : Bytes) (size : ℕ) where
  -- The copy of the image before ended well and is what linux-prev.img holds.
  abbrev pub Copied : Disk → Disk → Type 0
  Copied d after =
      (old : Bytes) × ((d.linux ≡ some old)
        × ((hw.copy old).0 ≡ true)
        × (after.prev ≡ some (hw.copy old).1))

  -- At a mismatch nothing has changed. `flashed` tells that the partition reads back with the sum
  -- that is wanted; `restored` that the copy is written over a partition that does not.
  abbrev pub Ended : Disk → Ending → Disk → Type 0
  Ended d mismatch after = after ≡ d
  Ended d stopped after = Unit
  Ended d (restored got) after =
      Copied d after
      × ((part : Bytes) × (prev : Bytes) × ((got ≡ md5 (take size part))
            × (same got want ≡ false)
            × (after.prev ≡ some prev)
            × ((hw.write prev part).0 ≡ true)
            × (after.partition ≡ (hw.write prev part).1)))
  Ended d (flashed got) after =
      Copied d after
      × ((got ≡ want) × (md5 (take size after.partition) ≡ want) × (sum_of md5 d.next ≡ want))

  -- Whatever happens, linux.img and linux-next.img stay as they were.
  abbrev pub Outcome : Disk → Ending × Disk → Type 0
  Outcome d (e, after) = (after.linux ≡ d.linux) × (after.next ≡ d.next) × Ended d e after

  -- `d` is the unit at first, `mid` once the copy is made.
  abbrev pub Midway : Disk → Bytes → Disk → Type 0
  Midway d prev mid =
      (mid.linux ≡ d.linux)
      × (mid.next ≡ d.next)
      × (mid.prev ≡ some prev)
      × ((old : Bytes) × ((d.linux ≡ some old)
            × ((hw.copy old).0 ≡ true)
            × (prev ≡ (hw.copy old).1)))

  Midway-Copied :
      (d mid after : Disk) (prev : Bytes)
      → Midway d prev mid
      → after.prev ≡ mid.prev
      → Copied d after
  Midway-Copied d mid after prev (l, n, q, (old, (o, good, c))) same_prev =
      (old, (o, good, same_prev ∙ q ∙ ap some c))

  write_back_prev-Outcome :
      (d mid : Disk) (prev : Bytes)
      → Midway d prev mid
      → same (md5 (take size mid.partition)) want ≡ false
      → Outcome d (write_back_prev md5 hw want size (md5 (take size mid.partition)) prev mid)
  write_back_prev-Outcome d mid prev m differs =
      let w = hw.write prev mid.partition in
      if_both (λ e. Outcome d (e, with_partition mid w.1)) w.0 _ _
        (λ good. (
          m.0,
          m.1,
          (
            Midway-Copied d mid (with_partition mid w.1) prev m refl,
            (mid.partition, prev, (refl, differs, m.2, good, refl)),
          ),
        ))
        (λ bad. (m.0, m.1, tt))

  read_back-Outcome :
      (d mid : Disk) (prev : Bytes)
      → Midway d prev mid
      → sum_of md5 d.next ≡ want
      → Outcome d (read_back md5 hw want size prev mid)
  read_back-Outcome d mid prev m sum =
      let got = md5 (take size mid.partition) in
      if_both (Outcome d) (same got want) _ _
        (λ e.
          let fits = (same_iff got want).0 e in
          (m.0, m.1, (Midway-Copied d mid mid prev m refl, (fits, fits, sum))))
        (λ differs. write_back_prev-Outcome d mid prev m differs)

  write_next-Outcome :
      (d mid : Disk) (image prev : Bytes)
      → Midway d prev mid
      → sum_of md5 d.next ≡ want
      → Outcome d (write_next md5 hw want size image prev mid)
  write_next-Outcome d mid image prev m sum =
      let w = hw.write image mid.partition in
      if_both (Outcome d) w.0 _ _ (λ good. read_back-Outcome d (with_partition mid w.1) prev m sum)
        (λ bad. (m.0, m.1, tt))

  copy_linux-Outcome :
      (d : Disk) (image : Bytes) (linux : Option Bytes)
      → d.linux ≡ linux
      → sum_of md5 d.next ≡ want
      → Outcome d (copy_linux md5 hw want size image linux d)
  copy_linux-Outcome d image none e sum = (refl, refl, tt)
  copy_linux-Outcome d image (some old) e sum =
      let c = hw.copy old in
      if_both (Outcome d) c.0 _ _
        (λ good.
          write_next-Outcome d (with_prev d c.1) image c.1
            (refl, refl, refl, (old, (e, good, refl))) sum)
        (λ bad. (refl, refl, tt))

  checked_next-Outcome :
      (d : Disk) (next : Option Bytes)
      → sum_of md5 d.next ≡ want
      → Outcome d (checked_next md5 hw want size next d)
  checked_next-Outcome d none sum = (refl, refl, refl)
  checked_next-Outcome d (some image) sum = copy_linux-Outcome d image d.linux refl sum

  -- The script never touches linux.img or linux-next.img. At a mismatch it has changed nothing; where
  -- it says `flashed`, the new image and the partition both have the sum that is wanted and
  -- linux-prev.img is the copy of linux.img; where it says `restored`, the partition read back with
  -- another sum and the copy was written over it.
  pub flash-Outcome : (d : Disk) → Outcome d (flash md5 hw want size d)
  unfolding flash
  flash-Outcome d =
      if_both (Outcome d) (same (sum_of md5 d.next) want) _ _
        (λ e. checked_next-Outcome d d.next ((same_iff (sum_of md5 d.next) want).0 e))
        (λ differs. (refl, refl, refl))
