-- ===== src/Install/Progress.antt =====
-- tools/install-dot.py, steps 5 to 7 of main: a unit that answers well is installed and rebooted.
use techo5_dot.Prelude.{
  ◌≡◌, refl, ap, List, [], ◌∷◌, Bytes, if◌then◌else◌, ltb, Bool, true, false, not, ◌&&◌, Result, ok,
  err, Option, none, some, arith,
}
use techo5_dot.Console.Unit.{includes}
use techo5_dot.Install.Commands.{
  Plan, Command, write_back, install_slot, twrp_md5, reset_tries, reboot_recovery, read_keys, push,
}
use techo5_dot.Install.Session.{
  Failure, push_failed, reboot_failed, History, Device, M, continue, ◌>>=◌, ◌>>◌, return, require,
  sh, do_sh, push_file, reboot,
}
use techo5_dot.Install.Steps.{
  swdl_size, write_image, fill_slot, keep_twrp, push_text, allow_key, join_wifi, name_it, give_away,
  push_models, add_models, provision, arm, install, read_back_fits, twrp_fits, slot_installed,
  tries_reset, second_word, with_key, keys_path,
}

-- The unit takes each push and the reboot, and answers each question the way the installer wants.
pub record AnswersWell (u : Device) (p : Plan) : Type 0 where
  pub taken : (h : History) (c : Command) → u.takes h c ≡ true
  pub written : (h : History) → read_back_fits p (u.reply h write_back) ≡ true
  pub slotted : (h : History) → slot_installed (u.reply h install_slot) ≡ true
  pub kept : (h : History) → twrp_fits p (u.reply h twrp_md5) ≡ true
  pub counted : (h : History) → tries_reset (u.reply h reset_tries) ≡ true

-- A part that does not fail.
record IsDone (m : M (Unit {0})) : Type 0 where
  done : (h : History) → (m h).0 ≡ ok tt

continue_done :
    (r : Result Failure (Unit {0}) × History) (k : M (Unit {0}))
    → r.0 ≡ ok tt
    → IsDone k
    → (continue r (λ _. k)).0 ≡ ok tt
continue_done (ok tt, h1) k e b = b.done h1
continue_done (err f, h1) k e b = absurd (ground arith)

then-IsDone : (m k : M (Unit {0})) → IsDone m → IsDone k → IsDone (m >> k)
then-IsDone m k a b = record { done = λ h. continue_done (m h) k (a.done h) b }

require-IsDone : (b : Bool) (e : Failure) → b ≡ true → IsDone (require b e)
require-IsDone b e t = record { done = λ h. ap (λ x. (require x e h).0) t }

return-IsDone : IsDone (return tt)
return-IsDone = record { done = λ h. refl }

sh-IsDone : (u : Device) (c : Command) → IsDone (do_sh u c)
sh-IsDone u c = record { done = λ h. refl }

if_IsDone : (b : Bool) (m k : M (Unit {0})) → IsDone m → IsDone k → IsDone (if b then m else k)
if_IsDone true m k a b = a
if_IsDone false m k a b = b

-- A part that does not fail and gives the reboot as its last command.
record Reboots (m : M (Unit {0})) : Type 0 where
  ended : (h : History) → (before : History) × (m h ≡ (ok tt, reboot_recovery ∷ before))

continue-Reboots :
    (r : Result Failure (Unit {0}) × History) (k : M (Unit {0}))
    → r.0 ≡ ok tt
    → Reboots k
    → (before : History) × (continue r (λ _. k) ≡ (ok tt, reboot_recovery ∷ before))
continue-Reboots (ok tt, h1) k e b = b.ended h1
continue-Reboots (err f, h1) k e b = absurd (ground arith)

then-Reboots : (m k : M (Unit {0})) → IsDone m → Reboots k → Reboots (m >> k)
then-Reboots m k a b = record { ended = λ h. continue-Reboots (m h) k (a.done h) b }

module _ (u : Device) (p : Plan) (w : AnswersWell u p) where
  push-IsDone : (here there : Bytes) → IsDone (push_file u here there)
  push-IsDone here there = record {
    done = λ h. ap (λ x. (require x (push_failed here) h).0) (w.taken h (push here there));
  }

  reboot-IsDone : IsDone (reboot u)
  reboot-IsDone = record {
    done = λ h. ap (λ x. (require x reboot_failed h).0) (w.taken h reboot_recovery);
  }

  ask-IsDone :
      (c : Command) (good : Bytes → Bool) (e : Failure)
      → ((h : History) → good (u.reply h c) ≡ true)
      → IsDone (sh u c >>= λ got. require (good got) e)
  ask-IsDone c good e g = record {
    done = λ h. (require-IsDone (good (u.reply h c)) e (g h)).done (c ∷ h);
  }

  write_image-IsDone : not (p.donut && ltb swdl_size p.image_size) ≡ true → IsDone (write_image u p)
  unfolding write_image
  write_image-IsDone fits = then-IsDone _ _ (require-IsDone _ _ fits) (
      then-IsDone _ _ (sh-IsDone u _) (
        then-IsDone _ _ (push-IsDone _ _) (
          then-IsDone _ _ (push-IsDone _ _)
            (ask-IsDone write_back (read_back_fits p) _ w.written))))

  fill_slot-IsDone : IsDone (fill_slot u p)
  unfolding fill_slot
  fill_slot-IsDone = then-IsDone _ _ (push-IsDone _ _) (
      then-IsDone _ _ (sh-IsDone u _) (
        then-IsDone _ _ (push-IsDone _ _)
          (then-IsDone _ _ (sh-IsDone u _) (ask-IsDone install_slot slot_installed _ w.slotted))))

  keep_twrp-IsDone : IsDone (keep_twrp u p)
  unfolding keep_twrp
  keep_twrp-IsDone =
      then-IsDone _ _ (push-IsDone _ _)
        (then-IsDone _ _ (ask-IsDone twrp_md5 (twrp_fits p) _ w.kept) (push-IsDone _ _))

  push_text-IsDone : (text remote : Bytes) → IsDone (push_text u p text remote)
  unfolding push_text
  push_text-IsDone text remote =
      then-IsDone _ _ (sh-IsDone u _)
        (then-IsDone _ _ (push-IsDone _ remote) (then-IsDone _ _ (sh-IsDone u _) (sh-IsDone u _)))

  allow_key-IsDone : (key : Option Bytes) → IsDone (allow_key u p key)
  unfolding allow_key
  allow_key-IsDone none = return-IsDone
  allow_key-IsDone (some key) = record {
    done = λ h.
        let have = u.reply h read_keys in
        (if_IsDone (includes have (second_word key)) _ _ return-IsDone
            (push_text-IsDone (with_key have key) keys_path)).done
          (read_keys ∷ h);
  }

  join_wifi-IsDone : (conf : Option Bytes) → IsDone (join_wifi u p conf)
  unfolding join_wifi
  join_wifi-IsDone none = return-IsDone
  join_wifi-IsDone (some conf) = then-IsDone _ _ (sh-IsDone u _) (push_text-IsDone conf _)

  name_it-IsDone : (identity : Option (Bytes × Bytes)) → IsDone (name_it u p identity)
  unfolding name_it
  name_it-IsDone none = return-IsDone
  name_it-IsDone (some (name, psk)) =
      then-IsDone _ _ (sh-IsDone u _)
        (then-IsDone _ _ (push_text-IsDone name _) (push_text-IsDone psk _))

  give_away-IsDone : (gift : Bool) → IsDone (give_away u p gift)
  unfolding give_away
  give_away-IsDone false = return-IsDone
  give_away-IsDone true = then-IsDone _ _ (sh-IsDone u _) (
      then-IsDone _ _ (push_text-IsDone [] _)
        (then-IsDone _ _ (sh-IsDone u _) (then-IsDone _ _ (sh-IsDone u _) (push_text-IsDone _ _))))

  push_models-IsDone : (ms : List Bytes) → IsDone (push_models u p ms)
  unfolding push_models
  push_models-IsDone [] = return-IsDone
  push_models-IsDone (m ∷ ms) = then-IsDone _ _ (push-IsDone _ _) (push_models-IsDone ms)

  add_models-IsDone : (ms : Option (List Bytes)) → IsDone (add_models u p ms)
  unfolding add_models
  add_models-IsDone none = return-IsDone
  add_models-IsDone (some ms) =
      then-IsDone _ _ (sh-IsDone u _) (then-IsDone _ _ (push_models-IsDone ms) (sh-IsDone u _))

  provision-IsDone : IsDone (provision u p)
  unfolding provision
  provision-IsDone = then-IsDone _ _ (sh-IsDone u _) (
      then-IsDone _ _ (sh-IsDone u _) (
        then-IsDone _ _ (allow_key-IsDone p.ssh_key) (
          then-IsDone _ _ (join_wifi-IsDone p.wifi_conf) (
            then-IsDone _ _ (name_it-IsDone p.identity) (
              then-IsDone _ _ (give_away-IsDone p.for_someone_else)
                (then-IsDone _ _ (add_models-IsDone p.models) (sh-IsDone u _)))))))

  reboot_last : Reboots (reboot u)
  reboot_last = record {
    ended = λ h.
        (h, ap (λ x. require x reboot_failed (reboot_recovery ∷ h)) (w.taken h reboot_recovery));
  }

  arm-Reboots : Reboots (arm u p)
  unfolding arm
  arm-Reboots =
      then-Reboots _ _ (ask-IsDone reset_tries tries_reset _ w.counted)
        (then-Reboots _ _ (sh-IsDone u _) reboot_last)

  wet-Reboots :
      (b : Bool) (m : M (Unit {0})) → b ≡ false → Reboots m → Reboots (if b then return tt else m)
  wet-Reboots true m wet r = absurd (ground arith)
  wet-Reboots false m wet r = r

  -- With a unit that answers well and an image that fits its partition, an installation that is no
  -- dry run does not fail, and its last command is the reboot.
  pub install_reboots :
      p.dry_run ≡ false
      → not (p.donut && ltb swdl_size p.image_size) ≡ true
      → (before : History) × (install u p [] ≡ (ok tt, reboot_recovery ∷ before))
  unfolding install
  install_reboots wet fits =
      (wet-Reboots p.dry_run _ wet (
          then-Reboots _ _ (write_image-IsDone fits) (
            then-Reboots _ _ fill_slot-IsDone (
              then-Reboots _ _ keep_twrp-IsDone
                (then-Reboots _ _ provision-IsDone arm-Reboots))))).ended
        []
