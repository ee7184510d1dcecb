-- ===== src/Install/Whole.antt =====
-- tools/install-dot.py, steps 5 to 7 of main: the steps together.
use mathlib.Core.Path.{subst}
use techo5_dot.Prelude.{
  ℕ, ◌≤◌, ltb, not, ◌&&◌, ◌⊎◌, inl, inr, ◌≡◌, [], ◌∷◌, Bytes, if◌then◌else◌, Bool, true, false, ok,
  arith,
}
use techo5_dot.Install.Commands.{Plan, Command, write_back, install_slot, twrp_md5}
use techo5_dot.Install.Session.{History, Device, M, ◌>>◌, return}
use techo5_dot.Install.Steps.{
  swdl_size, write_image, fill_slot, keep_twrp, provision, arm, install, read_back_fits, twrp_fits,
  slot_installed,
}
use techo5_dot.Install.Protocol.{
  Allowed, Replied, Verified, Slotted, TwrpKept, Counted, Ordered, Extends, Replied-Extends, Runs,
  >>-Runs,
}
use techo5_dot.Install.Ordered.{write_image-Runs, fill_slot-Runs, keep_twrp-Runs, arm-Runs}
use techo5_dot.Install.Quiet.{provision-Runs}

module _ (u : Device) (p : Plan) where
  -- All that a finished installation has seen the unit confirm.
  abbrev pub Confirmed : History → Type 0
  Confirmed h = Verified u p h × Slotted u p h × TwrpKept u p h × Counted u p h

  Verified-still : (h h' : History) → Extends u p h h' → Verified u p h → Verified u p h'
  Verified-still = Replied-Extends u p write_back (read_back_fits p)

  Slotted-still : (h h' : History) → Extends u p h h' → Slotted u p h → Slotted u p h'
  Slotted-still = Replied-Extends u p install_slot slot_installed

  kept_still : (h h' : History) → Extends u p h h' → TwrpKept u p h → TwrpKept u p h'
  kept_still = Replied-Extends u p twrp_md5 (twrp_fits p)

  armed :
      (h : History)
      → Runs u p (arm u p) h (Counted u p)
      → Verified u p h
      → Slotted u p h
      → TwrpKept u p h
      → Runs u p (arm u p) h Confirmed
  armed h r verified slotted kept =
      let x = r.extends in
      record {
        ordered = r.ordered;
        extends = x;
        after = λ done. (
          Verified-still h _ x verified,
          Slotted-still h _ x slotted,
          kept_still h _ x kept,
          r.after done,
        );
      }

  steps-Runs :
      Runs u p
        (do write_image u p; fill_slot u p; keep_twrp u p; provision u p; arm u p)
        []
        (Confirmed)
  steps-Runs = >>-Runs u p _ _ [] _ _ (write_image-Runs u p [] tt) λ o1 x1 verified.
      >>-Runs u p _ _ _ _ _ (fill_slot-Runs u p _ o1 verified) λ o2 x2 slotted.
        let verified2 = Verified-still _ _ x2 verified in
        >>-Runs u p _ _ _ _ _ (keep_twrp-Runs u p _ o2 slotted) λ o3 x3 kept.
          let verified3 = Verified-still _ _ x3 verified2 in
          let slotted3 = Slotted-still _ _ x3 slotted in
          >>-Runs u p _ _ _ _ _ (provision-Runs u p _ o3 slotted3 kept) λ o4 x4 _.
            let verified4 = Verified-still _ _ x4 verified3 in
            let slotted4 = Slotted-still _ _ x4 slotted3 in
            let kept4 = kept_still _ _ x4 kept in
            armed _ (arm-Runs u p _ o4 verified4 slotted4 kept4) verified4 slotted4 kept4

  chosen :
      (b : Bool) (m : M (Unit {0}))
      → Runs u p m [] Confirmed
      → Ordered u p ((if b then return tt else m) []).1
  chosen true m r = tt
  chosen false m r = r.ordered

  -- Whatever the unit answers, each command that the installer gives comes after all that it needs:
  -- the partition is written only with an image that fits and that has been pushed, the slot is
  -- filled only once the partition has read back as the image, the copy of TWRP is checked only
  -- once the slot is there, the settings on userdata are changed, and files pushed elsewhere than
  -- to the store and the staging folder, only once both are, and the unit is rebooted only once its
  -- boot count reads back as 0.
  pub install-Ordered : Ordered u p (install u p []).1
  unfolding install
  install-Ordered = chosen p.dry_run _ steps-Runs

  finished :
      (b : Bool) (m : M (Unit {0}))
      → Runs u p m [] Confirmed
      → b ≡ false
      → ((if b then return tt else m) []).0 ≡ ok tt
      → Confirmed ((if b then return tt else m) []).1
  finished true m r wet done = absurd (ground arith)
  finished false m r wet done = r.after done

  -- An installation that is no dry run and does not fail has had the image read back as it is, the
  -- slot installed, the copy of TWRP checked and the boot count set back.
  pub install-Confirmed :
      p.dry_run ≡ false → (install u p []).0 ≡ ok tt → Confirmed (install u p []).1
  unfolding install
  install-Confirmed wet done = finished p.dry_run _ steps-Runs wet done

  abbrev pub Given : Command → History → Type 0
  Given c [] = ⊥
  Given c (d ∷ h) = (d ≡ c) ⊎ Given c h

  pub Replied-Given :
      (c : Command) (good : Bytes → Bool) (h : History) → Replied u p c good h → Given c h
  Replied-Given c good [] none_given = elim none_given [ ]
  Replied-Given c good (d ∷ h) (inl (e, g)) = inl e
  Replied-Given c good (d ∷ h) (inr r) = inr (Replied-Given c good h r)

  Given-allowed :
      (h : History)
      → Ordered u p h
      → Given write_back h
      → not (p.donut && ltb swdl_size p.image_size) ≡ true
  Given-allowed [] o given = elim given [ ]
  Given-allowed (d ∷ h) (a, o) (inl e) = (subst (λ c. Allowed u p c h) e a).0
  Given-allowed (d ∷ h) (a, o) (inr g) = Given-allowed h o g

  fits_swdl :
      (donut : Bool) (size : ℕ)
      → donut ≡ true
      → not (donut && ltb swdl_size size) ≡ true
      → size ≤ 33554432
  fits_swdl true size is_donut fits = ground arith
  fits_swdl false size is_donut fits = absurd (ground arith)

  -- When the partition of a donut is written, the image is at most 32 MiB.
  pub write_back-bound :
      p.donut ≡ true → Given write_back (install u p []).1 → p.image_size ≤ 33554432
  write_back-bound is_donut given =
      fits_swdl p.donut p.image_size is_donut
        (Given-allowed (install u p []).1 install-Ordered given)
