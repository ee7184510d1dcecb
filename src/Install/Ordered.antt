-- ===== src/Install/Ordered.antt =====
-- tools/install-dot.py, steps 5 to 7 of main: each part keeps the history in order.
use techo5_dot.Prelude.{
  ◌≡◌, ◌⊎◌, refl, inl, inr, [], ◌∷◌, ◌++◌, Bytes, codes, ltb, Bool, true, false, not, ◌&&◌, ok,
  arith,
}
use techo5_dot.Install.Commands.{
  Plan, Command, make_dirs, write_back, install_slot, twrp_md5, reset_tries, clean_up, push,
  reboot_recovery, write_local, remove_local,
}
use techo5_dot.Install.Session.{
  Failure, too_large, read_back_differs, slot_failed, twrp_differs, tries_not_reset, push_failed,
  History, Device, M, ◌>>=◌, return, require, sh, do_sh, push_file, reboot,
}
use techo5_dot.Install.Script.{slot_script}
use techo5_dot.Install.Steps.{
  swdl_size, read_back_fits, slot_installed, twrp_fits, tries_reset, write_image, fill_slot,
  keep_twrp, arm,
}
use techo5_dot.Install.Protocol.{
  Replied, Pushed, Verified, Slotted, TwrpKept, Counted, Ready, InOwn, Allowed, Ordered,
  Extends-refl, Replied-Extends, Runs, >>-Runs,
}
use techo5_dot.Release.World.{path_join}

module _ (u : Device) (p : Plan) where
  -- A test that stops the steps issues nothing.
  pub require-Runs :
      (b : Bool) (e : Failure) (h : History)
      → Ordered u p h
      → Runs u p (require b e) h (λ _. b ≡ true)
  require-Runs true e h o = record { ordered = o; extends = Extends-refl u p h; after = λ _. refl }
  require-Runs false e h o = record {
    ordered = o;
    extends = Extends-refl u p h;
    after = λ done. absurd (ground arith);
  }

  pub return-Runs : (h : History) → Ordered u p h → Runs u p (return tt) h (λ _. Unit)
  return-Runs h o = record { ordered = o; extends = Extends-refl u p h; after = λ _. tt }

  pub do_sh-Runs :
      (c : Command) (h : History)
      → Ordered u p h
      → Allowed u p c h
      → Runs u p (do_sh u c) h (λ _. Unit)
  do_sh-Runs c h o a = record { ordered = (a, o); extends = (c ∷ [], refl); after = λ _. tt }

  taken : (b : Bool) (e : Failure) → (require b e []).0 ≡ ok tt → b ≡ true
  taken true e done = refl
  taken false e done = absurd (ground arith)

  pub push_file-Runs :
      (here there : Bytes) (h : History)
      → Ordered u p h
      → InOwn u p there ⊎ Ready u p h
      → Runs u p (push_file u here there) h (Pushed u p here there)
  push_file-Runs here there h o a = record {
    ordered = (a, o);
    extends = (push here there ∷ [], refl);
    after = λ done. inl (refl, taken (u.takes h (push here there)) (push_failed here) done);
  }

  pub reboot-Runs :
      (h : History) → Ordered u p h → Counted u p h → Runs u p (reboot u) h (λ _. Unit)
  reboot-Runs h o counted = record {
    ordered = (counted, o);
    extends = (reboot_recovery ∷ [], refl);
    after = λ _. tt;
  }

  -- A question, and the test of its answer.
  pub ask-Runs :
      (c : Command) (good : Bytes → Bool) (e : Failure) (h : History)
      → Ordered u p h
      → Allowed u p c h
      → Runs u p (sh u c >>= λ got. require (good got) e) h (Replied u p c good)
  ask-Runs c good e h o a = record {
    ordered = (a, o);
    extends = (c ∷ [], refl);
    after = λ done. inl (refl, taken (good (u.reply h c)) e done);
  }

  -- What held before a part still holds after it.
  pub keep :
      (m : M (Unit {0})) (h : History) (Q : History → Type 0) (c : Command) (good : Bytes → Bool)
      → Runs u p m h Q
      → Replied u p c good h
      → Runs u p m h (Replied u p c good)
  keep m h Q c good r before = record {
    ordered = r.ordered;
    extends = r.extends;
    after = λ _. Replied-Extends u p c good h (m h).1 r.extends before;
  }

  -- Write the partition.
  pub write_image-Runs : (h : History) → Ordered u p h → Runs u p (write_image u p) h (Verified u p)
  unfolding write_image
  write_image-Runs h o =
      >>-Runs u p _ _ h _ _
        (require-Runs (not (p.donut && ltb swdl_size p.image_size)) too_large h o)
        λ o1 x1 fits. >>-Runs u p _ _ h _ _ (do_sh-Runs make_dirs h o1 tt) λ o2 x2 _.
          >>-Runs u p _ _ _ _ _
            (push_file-Runs p.image (p.store ++ codes "/linux.img") _ o2
              (inl (codes "linux.img", inl refl)))
            λ o3 x3 image.
              >>-Runs u p _ _ _ _ _
                (push_file-Runs p.busybox (p.stage ++ codes "/busybox") _ o3
                  (inl (codes "busybox", inr refl)))
                λ o4 x4 busybox.
                  ask-Runs write_back (read_back_fits p) read_back_differs _ o4
                    (fits, inr image, busybox)

  -- Fill the slot, which a verified partition allows.
  pub fill_slot-Runs :
      (h : History) → Ordered u p h → Verified u p h → Runs u p (fill_slot u p) h (Slotted u p)
  unfolding fill_slot
  fill_slot-Runs h o verified =
      >>-Runs u p _ _ h _ _
        (push_file-Runs p.rootfs (p.stage ++ codes "/rootfs.tar.gz") h o
          (inl (codes "rootfs.tar.gz", inr refl)))
        λ o1 x1 rootfs.
          >>-Runs u p _ _ _ _ _
            (do_sh-Runs (write_local (path_join p.work (codes "techo5-dot-slot.sh")) slot_script) _
              o1 tt)
            λ o2 x2 _.
              >>-Runs u p _ _ _ _ _
                (push_file-Runs (path_join p.work (codes "techo5-dot-slot.sh"))
                  (p.stage ++ codes "/slot.sh") _ o2 (inl (codes "slot.sh", inr refl)))
                λ o3 x3 _.
                  >>-Runs u p _ _ _ _ _
                    (do_sh-Runs (remove_local (path_join p.work (codes "techo5-dot-slot.sh"))) _ o3
                      tt)
                    λ o4 x4 _.
                      ask-Runs install_slot slot_installed slot_failed _ o4
                        (inr (inr (inr (inr verified))), inr (inr (inr rootfs)))

  pub keep_twrp-Runs :
      (h : History) → Ordered u p h → Slotted u p h → Runs u p (keep_twrp u p) h (TwrpKept u p)
  unfolding keep_twrp
  keep_twrp-Runs h o slotted =
      >>-Runs u p _ _ h _ _
        (push_file-Runs p.recovery (p.store ++ codes "/twrp.img") h o
          (inl (codes "twrp.img", inl refl)))
        λ o1 x1 recovery.
          >>-Runs u p (sh u twrp_md5 >>= λ got. require (twrp_fits p got) twrp_differs) _ _
            (TwrpKept u p) _
            (ask-Runs twrp_md5 (twrp_fits p) twrp_differs _ o1 (inr slotted, recovery))
            λ o2 x2 kept.
              keep _ _ _ twrp_md5 (twrp_fits p)
                (push_file-Runs p.back_script (p.store ++ codes "/back-to-linux.sh") _ o2
                  (inl (codes "back-to-linux.sh", inl refl)))
                kept

  -- Set the count back and reboot.
  pub arm-Runs :
      (h : History)
      → Ordered u p h
      → Verified u p h
      → Slotted u p h
      → TwrpKept u p h
      → Runs u p (arm u p) h (Counted u p)
  unfolding arm
  arm-Runs h o verified slotted kept =
      >>-Runs u p (sh u reset_tries >>= λ tries. require (tries_reset tries) tries_not_reset) _ h
        (Counted u p) _
        (ask-Runs reset_tries tries_reset tries_not_reset h o (verified, slotted, kept))
        λ o1 x1 counted. >>-Runs u p _ _ _ _ _ (do_sh-Runs clean_up _ o1 tt) λ o2 x2 _.
          keep _ _ _ reset_tries tries_reset (reboot-Runs _ o2 (inr counted)) (inr counted)
