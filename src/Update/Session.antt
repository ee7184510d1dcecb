-- ===== src/Update/Session.antt =====
-- tools/update-boot.py: the steps from the boot's id to the new linux.img.
use techo5_dot.Prelude.{
  ℕ, zero, suc, ◌==◌, [], ◌∷◌, ◌++◌, Bytes, codes, strip, take, leb, if◌then◌else◌, Bool, true,
  ◌&&◌, ◌||◌, Option, none, some, Result, ok, err,
}
use techo5_dot.Asking.Units.{spaces}
use techo5_dot.Console.Unit.{includes}
use techo5_dot.Waits.Loops.{watch_boot}
use techo5_dot.Update.Flash.{Disk, Hardware, Ending, printed, flash}

-- `[0-9a-f]`
abbrev pub is_hex : ℕ → Bool
is_hex c = leb b'0' c && leb c b'9' || leb b'a' c && leb c b'f'

-- What is left behind `n` hexadecimal digits.
unfoldable pub hex_run : ℕ → Bytes → Option Bytes
hex_run zero cs = some cs
hex_run (suc n) [] = none
hex_run (suc n) (c ∷ cs) = let rest = hex_run n cs in if is_hex c then rest else none

abbrev pub behind_dash : Option Bytes → Option Bytes
behind_dash none = none
behind_dash (some []) = none
behind_dash (some (c ∷ cs)) = if c == b'-' then some cs else none

abbrev pub hex_then : ℕ → Option Bytes → Option Bytes
hex_then n none = none
hex_then n (some cs) = hex_run n cs

abbrev pub starts_uuid : Bytes → Option Bytes
starts_uuid cs = hex_then 12 (
    behind_dash (
      hex_then 4
        (behind_dash (hex_then 4 (behind_dash (hex_then 4 (behind_dash (hex_run 8 cs))))))))

-- The first boot id in a text.
unfoldable pub find_uuid : Bytes → Option Bytes
find_uuid [] = none
find_uuid (c ∷ cs) =
    let later = find_uuid cs in
    elim (starts_uuid (c ∷ cs)) [ none ↦ later | some rest ↦ some (take 36 (c ∷ cs)) ]

pub data Refusal : Type 0 where
  no_boot_id sending_failed flashing_failed not_healthy : Refusal

-- What the unit does over SSH: the answer to the question for the boot's id, with whether it ends
-- well; what sending the image makes of linux-next.img; the clock's and the unit's answers while the boot is
-- watched; and whether the last `mv` is done.
pub record Remote : Type 0 where
  pub id_answer : Bool × Bytes
  pub sent : Option Bytes → Bool × Option Bytes
  pub hardware : Hardware
  pub elapsed : ℕ → ℕ
  pub reply : ℕ → Bytes
  pub moves : Bool

abbrev pub with_next : Disk → Option Bytes → Disk
with_next d image = record { next = image; linux = d.linux; prev = d.prev; partition = d.partition }

-- `mv -f linux-next.img linux.img`
abbrev pub move_next : Bool → Option Bytes → Disk → Disk
move_next true (some image) d = record {
  next = none;
  linux = some image;
  prev = d.prev;
  partition = d.partition;
}
move_next _ _ d = d

abbrev pub boot_id_of : Bool × Bytes → Option Bytes
boot_id_of (done, out) = if done then find_uuid (strip spaces out) else none

module _ (md5 : Bytes → Bytes) (r : Remote) (want : Bytes) (size : ℕ) where
  -- The wait for the boot, and the image that booted in the place of the one before.
  abbrev pub confirm_boot : Bytes → Disk → Result Refusal (Unit {0}) × Disk
  confirm_boot boot_id d =
      if watch_boot r.elapsed r.reply boot_id
      then (ok tt, move_next r.moves d.next d)
      else (err not_healthy, d)

  abbrev pub after_flash : Bytes → Ending × Disk → Result Refusal (Unit {0}) × Disk
  after_flash boot_id (ending, d) =
      if includes (strip spaces (printed ending)) (codes "flashed " ++ want)
      then confirm_boot boot_id d
      else (err flashing_failed, d)

  abbrev pub send : Bytes → Disk → Result Refusal (Unit {0}) × Disk
  send boot_id d =
      if (r.sent d.next).0
      then after_flash boot_id (flash md5 r.hardware want size (with_next d (r.sent d.next).1))
      else (err sending_failed, with_next d (r.sent d.next).1)

  abbrev pub with_id : Option Bytes → Disk → Result Refusal (Unit {0}) × Disk
  with_id none d = (err no_boot_id, d)
  with_id (some boot_id) d = send boot_id d

  -- The rest of `main`, from the boot's id on.
  unfoldable pub update : Disk → Result Refusal (Unit {0}) × Disk
  update d = with_id (boot_id_of r.id_answer) d
