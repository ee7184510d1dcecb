-- ===== src/Install/Session.antt =====
-- tools/install-dot.py, steps 5 to 7 of main: a session with the unit, which answers as it likes.
use techo5_dot.Prelude.{List, ◌∷◌, Bytes, if◌then◌else◌, Bool, Result, ok, err, partition}
use techo5_dot.Install.Commands.{Command, push, reboot_recovery}

-- Why the steps stop.
pub data Failure : Type 0 where
  too_large read_back_differs slot_failed twrp_differs tries_not_reset reboot_failed : Failure
  push_failed : Bytes → Failure

-- The commands so far, the last one first.
abbrev pub History : Type 0
History = List Command

-- How the unit and adb answer a command, which may hang on all that came before: what a shell
-- command prints, and whether a push or a reboot is taken.
pub record Device : Type 0 where
  pub reply : History → Command → Bytes
  pub takes : History → Command → Bool

abbrev pub M : Type 0 → Type 0
M A = History → Result Failure A × History

abbrev pub continue :
    {A B : Type 0} → Result Failure A × History → (A → M B) → Result Failure B × History
continue (ok a, h) f = f a h
continue (err e, h) f = (err e, h)

infixl 5 ◌>>=◌ ◌>>◌
abbrev pub ◌>>=◌ : {A B : Type 0} → M A → (A → M B) → M B
◌>>=◌ m f h = continue (m h) f

abbrev pub ◌>>◌ : {B : Type 0} → M (Unit {0}) → M B → M B
◌>>◌ m k = m >>= λ _. k

abbrev pub return : {A : Type 0} → A → M A
return a h = (ok a, h)

abbrev pub require : Bool → Failure → M (Unit {0})
require b e h = (if b then ok tt else err e, h)

module _ (u : Device) where
  -- `adb.sh`, and changes of local files.
  abbrev pub sh : Command → M Bytes
  sh c h = (ok (u.reply h c), c ∷ h)

  abbrev pub do_sh : Command → M (Unit {0})
  do_sh c h = (ok tt, c ∷ h)

  -- `adb.push`, with its tries.
  abbrev pub push_file : Bytes → Bytes → M (Unit {0})
  push_file here there h =
      (if u.takes h (push here there) then ok tt else err (push_failed here), push here there ∷ h)

  -- `adb.reboot('recovery')`
  abbrev pub reboot : M (Unit {0})
  reboot h = (if u.takes h reboot_recovery then ok tt else err reboot_failed, reboot_recovery ∷ h)

-- `s.split(' ')[0]`
abbrev pub first_word : Bytes → Bytes
first_word s = (partition b' ' s).0
