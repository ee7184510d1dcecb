-- ===== src/Install/Protocol.antt =====
-- tools/install-dot.py, steps 5 to 7 of main: what has to come before each command.
use mathlib.Core.Path.{subst}
use techo5_dot.Prelude.{
  ◌≡◌, ◌⊎◌, refl, sym, ap, ◌∙◌, inr, List, [], ◌∷◌, ◌++◌, append_assoc, Bytes, codes, ltb, Bool,
  true, not, ◌&&◌, Result, ok, err, arith,
}
use techo5_dot.Install.Commands.{
  Plan, Command, write_back, install_slot, twrp_md5, make_ssh_dir, make_wifi_dir, make_models_dir,
  make_state_dir, forget_owner, make_model_dir, chmod_models, chmod, reset_tries, push,
  reboot_recovery,
}
use techo5_dot.Install.Session.{Failure, History, Device, M, continue, ◌>>◌}
use techo5_dot.Install.Steps.{swdl_size, read_back_fits, slot_installed, twrp_fits, tries_reset}

module _ (u : Device) (p : Plan) where
  -- The command was given, and its answer passes the test.
  abbrev pub Replied : Command → (Bytes → Bool) → History → Type 0
  Replied c good [] = ⊥
  Replied c good (d ∷ h) = ((d ≡ c) × (good (u.reply h d) ≡ true)) ⊎ Replied c good h

  -- The push was given, and taken.
  abbrev pub Pushed : Bytes → Bytes → History → Type 0
  Pushed here there [] = ⊥
  Pushed here there (d ∷ h) = ((d ≡ push here there) × (u.takes h d ≡ true)) ⊎ Pushed here there h

  abbrev pub Verified : History → Type 0
  Verified h = Replied write_back (read_back_fits p) h

  abbrev pub Slotted : History → Type 0
  Slotted h = Replied install_slot slot_installed h

  abbrev pub TwrpKept : History → Type 0
  TwrpKept h = Replied twrp_md5 (twrp_fits p) h

  abbrev pub Counted : History → Type 0
  Counted h = Replied reset_tries tries_reset h

  -- The slot is filled and the way back to TWRP is there.
  abbrev pub Ready : History → Type 0
  Ready h = Slotted h × TwrpKept h

  -- A path in the store or in the staging folder.
  abbrev pub InOwn : Bytes → Type 0
  InOwn there =
      (name : Bytes) × ((there ≡ p.store ++ b'/' ∷ name) ⊎ (there ≡ p.stage ++ b'/' ∷ name))

  -- The partition is written only with an image that fits and is in the store; the slot is filled
  -- only once the partition has read back as the image; the TWRP copy is checked once it is pushed;
  -- a file goes elsewhere than to the store and the staging folder, and a folder, a file or a mode
  -- of the settings is changed, only once slot and copy are there; the boot is armed after that,
  -- and the unit is rebooted only once the count reads back as 0.
  abbrev pub Allowed : Command → History → Type 0
  Allowed write_back h =
      (not (p.donut && ltb swdl_size p.image_size) ≡ true)
      × Pushed p.image (p.store ++ codes "/linux.img") h
      × Pushed p.busybox (p.stage ++ codes "/busybox") h
  Allowed install_slot h = Verified h × Pushed p.rootfs (p.stage ++ codes "/rootfs.tar.gz") h
  Allowed twrp_md5 h = Slotted h × Pushed p.recovery (p.store ++ codes "/twrp.img") h
  Allowed make_ssh_dir h = Ready h
  Allowed make_wifi_dir h = Ready h
  Allowed make_models_dir h = Ready h
  Allowed make_state_dir h = Ready h
  Allowed forget_owner h = Ready h
  Allowed make_model_dir h = Ready h
  Allowed chmod_models h = Ready h
  Allowed (chmod mode path) h = Ready h
  Allowed (push here there) h = InOwn there ⊎ Ready h
  Allowed reset_tries h = Verified h × Slotted h × TwrpKept h
  Allowed reboot_recovery h = Counted h
  Allowed _ h = Unit

  abbrev pub Ordered : History → Type 0
  Ordered [] = Unit
  Ordered (c ∷ h) = Allowed c h × Ordered h

  abbrev pub Extends : History → History → Type 0
  Extends h h' = (cs : List Command) × (h' ≡ cs ++ h)

  pub Extends-refl : (h : History) → Extends h h
  Extends-refl h = ([], refl)

  pub Extends-trans : (h h1 h2 : History) → Extends h h1 → Extends h1 h2 → Extends h h2
  Extends-trans h h1 h2 (cs, e) (ds, d) =
      (ds ++ cs, d ∙ ap (λ t. ds ++ t) e ∙ sym (append_assoc ds cs h))

  Replied-append :
      (c : Command) (good : Bytes → Bool) (cs h : History)
      → Replied c good h
      → Replied c good (cs ++ h)
  Replied-append c good [] h r = r
  Replied-append c good (d ∷ cs) h r = inr (Replied-append c good cs h r)

  pub Replied-Extends :
      (c : Command) (good : Bytes → Bool) (h h' : History)
      → Extends h h'
      → Replied c good h
      → Replied c good h'
  Replied-Extends c good h h' (cs, e) r =
      subst (Replied c good) (sym e) (Replied-append c good cs h r)

  -- What a part of the installer does to a history that is in order.
  pub record Runs (m : M (Unit {0})) (h : History) (After : History → Type 0) : Type 0 where
    pub ordered : Ordered (m h).1
    pub extends : Extends h (m h).1
    pub after : (m h).0 ≡ ok tt → After (m h).1

  continue-Runs :
      (r : Result Failure (Unit {0}) × History) (k : M (Unit {0})) (h : History)
      (Q R : History → Type 0)
      → Ordered r.1
      → Extends h r.1
      → (r.0 ≡ ok tt → Q r.1)
      → (Q r.1 → Runs k r.1 R)
      → Runs (λ _. continue r (λ _. k)) h R
  continue-Runs (err e, h1) k h Q R o x q next = record {
    ordered = o;
    extends = x;
    after = λ done. absurd (ground arith);
  }
  continue-Runs (ok tt, h1) k h Q R o x q next =
      let n = next (q refl) in
      record {
        ordered = n.ordered;
        extends = Extends-trans h h1 (k h1).1 x n.extends;
        after = n.after;
      }

  pub >>-Runs :
      (m k : M (Unit {0})) (h : History) (Q R : History → Type 0)
      → Runs m h Q
      → (Ordered (m h).1 → Extends h (m h).1 → Q (m h).1 → Runs k (m h).1 R)
      → Runs (m >> k) h R
  >>-Runs m k h Q R a next =
      let r = continue-Runs (m h) k h Q R a.ordered a.extends a.after (next a.ordered a.extends) in
      record { ordered = r.ordered; extends = r.extends; after = r.after }
