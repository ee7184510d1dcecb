-- ===== src/Update/Safe.antt =====
-- tools/update-boot.py: how an update leaves the unit, at each of its ends.
use mathlib.Core.Path.{subst}
use techo5_dot.Prelude.{
  ℕ, ◌≢◌, ◌≡◌, refl, sym, ap, ◌∙◌, [], ◌++◌, Bytes, codes, strip, take, if◌then◌else◌, if_both,
  Bool, true, false, Option, none, some, Result, ok, err, arith,
}
use techo5_dot.Asking.Units.{spaces}
use techo5_dot.Console.Unit.{includes}
use techo5_dot.Waits.Loops.{watch_boot}
use techo5_dot.Update.Flash.{
  Disk, Ending, mismatch, stopped, restored, flashed, printed, sum_of, flash,
}
use techo5_dot.Update.Session.{
  Remote, Refusal, no_boot_id, sending_failed, flashing_failed, not_healthy, with_next, move_next,
  boot_id_of, confirm_boot, after_flash, with_id, update,
}
use techo5_dot.Update.Heard.{all_hex, heard_flashed, sum_restored}
use techo5_dot.Update.Outcomes.{Ended, Outcome, flash-Outcome}

module _ (md5 : Bytes → Bytes) (r : Remote) (want : Bytes) (size : ℕ) where
  -- The new image, with the sum that is wanted, and the boot that came up healthy with it.
  abbrev pub BootedHealthy : Bytes → Type 0
  BootedHealthy image =
      (md5 image ≡ want)
      × ((boot_id : Bytes) × ((boot_id_of r.id_answer ≡ some boot_id)
            × (watch_boot r.elapsed r.reply boot_id ≡ true)))

  abbrev pub Finished : Disk → Result Refusal (Unit {0}) × Disk → Type 0
  Finished d (ok tt, after) =
      (md5 (take size after.partition) ≡ want)
      × ((image : Bytes) × (BootedHealthy image
            × (after.linux ≡ (if r.moves then some image else d.linux))))
  Finished d (err no_boot_id, after) = after ≡ d
  Finished d (err sending_failed, after) =
      (after.linux ≡ d.linux) × (after.prev ≡ d.prev) × (after.partition ≡ d.partition)
  Finished d (err flashing_failed, after) = after.linux ≡ d.linux
  Finished d (err not_healthy, after) =
      (after.linux ≡ d.linux) × (md5 (take size after.partition) ≡ want)

  -- `d` is the unit at first, `mid` once the script has flashed.
  record Flashed (d mid : Disk) : Type 0 where
    same_linux : mid.linux ≡ d.linux
    reads_back : md5 (take size mid.partition) ≡ want
    image : Bytes
    sent : mid.next ≡ some image
    sum : md5 image ≡ want

  move_next-linux :
      (moves : Bool) (d mid : Disk) (next : Option Bytes) (image : Bytes)
      → next ≡ some image
      → mid.linux ≡ d.linux
      → (move_next moves next mid).linux ≡ (if moves then some image else d.linux)
  move_next-linux true d mid none image e same_linux = absurd (ground arith)
  move_next-linux true d mid (some content) image e same_linux = e
  move_next-linux false d mid next image e same_linux = same_linux

  move_next-partition :
      (moves : Bool) (next : Option Bytes) (mid : Disk)
      → (move_next moves next mid).partition ≡ mid.partition
  move_next-partition true none mid = refl
  move_next-partition true (some content) mid = refl
  move_next-partition false next mid = refl

  confirm_boot-Finished :
      (boot_id : Bytes) (d mid : Disk)
      → boot_id_of r.id_answer ≡ some boot_id
      → Flashed d mid
      → Finished d (confirm_boot md5 r want size boot_id mid)
  confirm_boot-Finished boot_id d mid known f =
      if_both (Finished d) (watch_boot r.elapsed r.reply boot_id) _ _
        (λ healthy. (
          ap (λ x. md5 (take size x)) (move_next-partition r.moves mid.next mid) ∙ f.reads_back,
          (
            f.image,
            (
              (f.sum, (boot_id, (known, healthy))),
              move_next-linux r.moves d mid mid.next f.image f.sent f.same_linux,
            ),
          ),
        ))
        (λ late. (f.same_linux, f.reads_back))

  next_image :
      (next : Option Bytes)
      → (want ≢ [])
      → sum_of md5 next ≡ want
      → (image : Bytes) × ((next ≡ some image) × (md5 image ≡ want))
  next_image none full e = absurd (full (sym e))
  next_image (some image) full e = (image, (refl, e))

  ended_flashed :
      (d1 d mid : Disk) (got : Bytes)
      → want ≢ []
      → d1.linux ≡ d.linux
      → Outcome md5 r.hardware want size d1 (flashed got, mid)
      → Flashed d mid
  ended_flashed d1 d mid got full l o =
      let i = next_image d1.next full o.2.1.2 in
      record {
        same_linux = o.0 ∙ l;
        reads_back = o.2.1.1;
        image = i.0;
        sent = o.1 ∙ i.1.0;
        sum = i.1.1;
      }

  restored_hex :
      (d1 mid : Disk) (e : Ending)
      → ((bs : Bytes) → all_hex (md5 bs) ≡ true)
      → Ended md5 r.hardware want size d1 e mid
      → sum_restored e ≡ true
  restored_hex d1 mid mismatch hex o = refl
  restored_hex d1 mid stopped hex o = refl
  restored_hex d1 mid (restored got) hex o = subst (λ x. all_hex x ≡ true) (sym o.1.2.0) (hex _)
  restored_hex d1 mid (flashed got) hex o = refl

  after_flash-Finished :
      (boot_id : Bytes) (d1 d mid : Disk) (e : Ending)
      → ((bs : Bytes) → all_hex (md5 bs) ≡ true)
      → want ≢ []
      → boot_id_of r.id_answer ≡ some boot_id
      → d1.linux ≡ d.linux
      → Outcome md5 r.hardware want size d1 (e, mid)
      → Finished d (after_flash md5 r want size boot_id (e, mid))
  after_flash-Finished boot_id d1 d mid e hex full known l o =
      if_both (Finished d) (includes (strip spaces (printed e)) (codes "flashed " ++ want)) _ _
        (λ heard.
          let g = heard_flashed e want (restored_hex d1 mid e hex o.2) heard in
          confirm_boot-Finished boot_id d mid known (
            ended_flashed d1 d mid g.0 full l
              (subst (λ x. Outcome md5 r.hardware want size d1 (x, mid)) g.1 o)))
        (λ unheard. o.0 ∙ l)

  with_id-Finished :
      (known : Option Bytes) (d : Disk)
      → ((bs : Bytes) → all_hex (md5 bs) ≡ true)
      → want ≢ []
      → boot_id_of r.id_answer ≡ known
      → Finished d (with_id md5 r want size known d)
  with_id-Finished none d hex full e = refl
  with_id-Finished (some boot_id) d hex full e =
      let sent = r.sent d.next in
      let d1 = with_next d sent.1 in
      let f = flash md5 r.hardware want size d1 in
      if_both (Finished d) sent.0 _ _
        (λ good.
          after_flash-Finished boot_id d1 d f.1 f.0 hex full e refl
            (flash-Outcome md5 r.hardware want size d1))
        (λ bad. (refl, refl, refl))

  -- An update that ends well leaves the partition and the new image with the sum that is wanted, after
  -- a boot that came up healthy with an id other than the one before, and linux.img is then the new
  -- image unless the last `mv` failed. At each refusal linux.img is what it was; without a boot id
  -- nothing has changed, and a transfer that fails leaves the partition and linux-prev.img alone.
  pub update-Finished :
      ((bs : Bytes) → all_hex (md5 bs) ≡ true)
      → want ≢ []
      → (d : Disk) → Finished d (update md5 r want size d)
  unfolding update
  update-Finished hex full d = with_id-Finished (boot_id_of r.id_answer) d hex full refl
