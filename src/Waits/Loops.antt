-- ===== src/Waits/Loops.antt =====
-- tools/techo5lib.py: `wait_for`, `Adb.push` and `collect_evidence`; tools/update-boot.py: the wait
-- for a healthy boot.
use techo5_dot.Prelude.{
  ℕ, zero, suc, ◌+◌, [], ◌∷◌, ◌++◌, Bytes, codes, ltb, ◌==◌, if◌then◌else◌, Bool, true, false, not,
  ◌&&◌, Option, none, some,
}
use techo5_dot.Console.Unit.{includes}
use techo5_dot.Release.World.{path_join}

pub data Waited : Type 0 where
  passed : ℕ → Waited
  timed_out : Waited
  out_of_fuel : Waited

-- `elapsed n` is how many seconds after the start the n-th round looks at the clock, and `passes n`
-- what the test answers in that round.
module _ (elapsed : ℕ → ℕ) (passes : ℕ → Bool) where
  unfoldable pub wait_loop : ℕ → ℕ → ℕ → Waited
  wait_loop seconds zero n = out_of_fuel
  wait_loop seconds (suc fuel) n =
      let later = wait_loop seconds fuel (n + 1) in
      if ltb (elapsed n) seconds then if passes n then passed n else later else timed_out

  -- `wait_for`, without what it says while it waits. A round sleeps for a second at least.
  unfoldable pub wait_for : ℕ → Waited
  wait_for seconds = wait_loop seconds (suc seconds) 0

-- What `collect_evidence` answers: the file that it wrote, with its text, or what to do by hand.
pub data Evidence : Type 0 where
  saved : Bytes → Bytes → Evidence
  by_hand : Evidence

-- `printed n` is what the n-th run on the console gives.
module _ (elapsed : ℕ → ℕ) (printed : ℕ → Option Bytes) where
  unfoldable pub evidence_loop : Bytes → ℕ → ℕ → ℕ → Evidence
  evidence_loop out seconds zero n = by_hand
  evidence_loop out seconds (suc fuel) n =
      let later = evidence_loop out seconds fuel (n + 1) in
      if ltb (elapsed n) seconds
      then elim (printed n) [ none ↦ later | some text ↦ saved out (text ++ 10 ∷ []) ]
      else by_hand

  -- `collect_evidence`
  unfoldable pub collect_evidence : Bytes → Bytes → ℕ → Evidence
  collect_evidence folder name seconds =
      evidence_loop (path_join folder name) seconds (suc seconds) 0

-- How a push ends: at some attempt, or in the failure of the last one or of a wait in between.
pub data Pushed : Type 0 where
  pushed_at : ℕ → Pushed
  push_failed adb_not_back not_ready : Pushed

-- `sent n` tells whether the n-th `adb push` ends well, `back n` and `ready n` whether the waits
-- behind it do; where no `ready` is given, the second is true.
module _ (sent back ready : ℕ → Bool) where
  -- The attempts from `attempt` on, `left` of them.
  unfoldable pub push_loop : ℕ → ℕ → Pushed
  push_loop zero attempt = push_failed
  push_loop (suc left) attempt =
      let later = push_loop left (attempt + 1) in
      if sent attempt
      then pushed_at attempt
      else if left == 0
      then push_failed
      else if not (back attempt)
      then adb_not_back
      else if not (ready attempt)
      then not_ready
      else later

  -- `Adb.push`
  unfoldable pub push : ℕ → Pushed
  push tries = push_loop tries 1

-- `'healthy' in text and boot_id not in text`
abbrev pub is_healthy : Bytes → Bytes → Bool
is_healthy boot_id text = includes text (codes "healthy") && not (includes text boot_id)

abbrev pub has_passed : Waited → Bool
has_passed (passed n) = true
has_passed _ = false

-- `reply n` is what the n-th question over SSH prints.
module _ (elapsed : ℕ → ℕ) (reply : ℕ → Bytes) where
  -- The wait of `update-boot.py`, six minutes.
  unfoldable pub watch_boot : Bytes → Bool
  watch_boot boot_id = has_passed (wait_for elapsed (λ n. is_healthy boot_id (reply n)) 360)
