-- ===== src/Waits/Ends.antt =====
-- tools/techo5lib.py and tools/update-boot.py: how the waits and the tries end.
use techo5_dot.Prelude.{
  ◌++◌, [], ◌∷◌, Option, some, ℕ, zero, suc, ◌+◌, ◌-◌, ◌<◌, ◌≤◌, ◌≡◌, ◌⊎◌, refl, sym, ap, ◌∙◌,
  Bytes, codes, ltb, ltb→lt, ◌==◌, Bool, true, false, ◌&&◌, Bool-cases, inl, inr, ℕ_discrete, arith,
}
use techo5_dot.Console.Unit.{includes}
use techo5_dot.Waits.Loops.{
  Evidence, saved, by_hand, Waited, passed, timed_out, wait_loop, wait_for, pushed_at, push_loop,
  push, is_healthy, has_passed, watch_boot,
}

-- How a wait ends: in the first round that passes, before the time is over; or once it is over,
-- after rounds that all failed.
pub data Ended (elapsed : ℕ → ℕ) (passes : ℕ → Bool) (seconds start : ℕ) (w : Waited) : Type 0 where
  in_time :
      (n : ℕ)
      → w ≡ passed n
      → passes n ≡ true
      → elapsed n < seconds
      → ((k : ℕ) → start ≤ k → k < n → passes k ≡ false)
      → Ended elapsed passes seconds start w
  too_late :
      (n : ℕ)
      → w ≡ timed_out
      → seconds ≤ elapsed n
      → ((k : ℕ) → start ≤ k → k < n → passes k ≡ false)
      → Ended elapsed passes seconds start w

module _ (elapsed : ℕ → ℕ) (passes : ℕ → Bool) (sleeps : (n : ℕ) → n ≤ elapsed n) where
  Ended-later :
      (seconds start : ℕ) (w : Waited)
      → passes start ≡ false
      → Ended elapsed passes seconds (start + 1) w
      → Ended elapsed passes seconds start w
  Ended-later seconds start w h (in_time n e p t before) = in_time n e p t λ k lo hi.
      elim (ℕ_discrete start k) [
        | yes same_round ↦ ap passes (sym same_round) ∙ h
        | no other ↦ before k (omega arith) hi
      ]
  Ended-later seconds start w h (too_late n e t before) = too_late n e t λ k lo hi.
      elim (ℕ_discrete start k) [
        | yes same_round ↦ ap passes (sym same_round) ∙ h
        | no other ↦ before k (omega arith) hi
      ]

  wait_loop-Ended :
      (seconds fuel start : ℕ)
      → 0 < fuel
      → seconds < start + fuel
      → Ended elapsed passes seconds start (wait_loop elapsed passes seconds fuel start)
  unfolding wait_loop
  wait_loop-Ended seconds zero start some_fuel h = absurd (omega arith)
  wait_loop-Ended seconds (suc fuel) start some_fuel h =
      elim (Bool-cases (ltb (elapsed start) seconds)) [
        | inr over ↦ rw over (too_late start refl (ground arith) (λ k lo hi. absurd (omega arith)))
        | inl time_left ↦ elim (Bool-cases (passes start)) [
          | inl good ↦
              rw (time_left, good)
                (in_time start refl good (ground arith) (λ k lo hi. absurd (omega arith)))
          | inr bad ↦
              let early : elapsed start < seconds = ltb→lt (elapsed start) seconds time_left in
              let slept = sleeps start in
              rw (time_left, bad)
                (Ended-later seconds start _ bad (
                  wait_loop-Ended seconds fuel (start + 1) (omega (arith, early, slept))
                    (omega arith)))
        ]
      ]

  -- `wait_for` ends, since every round takes a second at least: in the first round whose test passes,
  -- with time left, or once the time is over, after rounds whose tests all failed.
  pub wait_for-Ended :
      (seconds : ℕ) → Ended elapsed passes seconds 0 (wait_for elapsed passes seconds)
  unfolding wait_for
  wait_for-Ended seconds = wait_loop-Ended seconds (suc seconds) 0 (omega arith) (omega arith)

module _ (elapsed : ℕ → ℕ) (reply : ℕ → Bytes) (sleeps : (n : ℕ) → n ≤ elapsed n) where
  -- A boot is taken for healthy only on a reply, within the six minutes, that says so and does not
  -- come from the boot before.
  pub watch_boot-healthy :
      (boot_id : Bytes)
      → watch_boot elapsed reply boot_id ≡ true
      → (n : ℕ) × (elapsed n < 360)
        × (includes (reply n) (codes "healthy") ≡ true)
        × (includes (reply n) boot_id ≡ false)
  unfolding watch_boot
  watch_boot-healthy boot_id h =
      elim (wait_for-Ended elapsed (λ n. is_healthy boot_id (reply n)) sleeps 360) [
        | in_time n e good t before ↦ (n, t, ground arith, ground arith)
        | too_late n e t before ↦ absurd (let k = ap has_passed (sym e) ∙ h in ground arith)
      ]

module _ (sent back ready : ℕ → Bool) where
  push_loop-pushed_at :
      (left attempt : ℕ) {n : ℕ}
      → push_loop sent back ready left attempt ≡ pushed_at n
      → (sent n ≡ true)
        × (attempt ≤ n)
        × (n < attempt + left)
        × ((attempt ≡ n) ⊎ ((back (n - 1) ≡ true) × (ready (n - 1) ≡ true)))
  unfolding push_loop
  push_loop-pushed_at zero attempt h = absurd (ground arith)
  push_loop-pushed_at (suc left) attempt {n} h = elim (Bool-cases (sent attempt)) [
    | inl good ↦
        let e : attempt ≡ n = ground arith in
        (ap sent (sym e) ∙ good, omega arith, omega arith, inl e)
    | inr bad ↦ elim (Bool-cases (left == 0)) [
      | inl last ↦ absurd (ground arith)
      | inr more ↦ elim (Bool-cases (back attempt && ready attempt)) [
        | inr away ↦ absurd (ground arith)
        | inl there ↦
            let is_back : back attempt ≡ true = ground arith in
            let is_ready : ready attempt ≡ true = ground arith in
            let again : push_loop sent back ready left (attempt + 1) ≡ pushed_at n = ground arith in
            let (s, lo, hi, why) = push_loop-pushed_at left (attempt + 1) again in
            (
              s,
              omega arith,
              omega arith,
              inr (elim why [
                | inl e ↦
                    let before : n - 1 ≡ attempt = omega (arith, e) in
                    (ap back before ∙ is_back, ap ready before ∙ is_ready)
                | inr r ↦ r
              ]),
            )
      ]
    ]
  ]

  -- A push that ends well was one of the tries; and unless it was the first, adb and the unit were
  -- found ready again after the try before it.
  pub push-pushed_at :
      (tries : ℕ) {n : ℕ}
      → push sent back ready tries ≡ pushed_at n
      → (sent n ≡ true)
        × (1 ≤ n)
        × (n ≤ tries)
        × ((1 ≡ n) ⊎ ((back (n - 1) ≡ true) × (ready (n - 1) ≡ true)))
  unfolding push
  push-pushed_at tries h =
      let (s, lo, hi, why) = push_loop-pushed_at tries 1 h in (s, lo, omega arith, why)

-- How the collection of evidence ends: with the first text that the console printed in time, or,
-- once the time is over, by hand.
pub data Collected (elapsed : ℕ → ℕ) (printed : ℕ → Option Bytes) (seconds start : ℕ) (out : Bytes)
    (e : Evidence) : Type 0 where
  printed_in_time :
      (n : ℕ) (text : Bytes)
      → printed n ≡ some text
      → elapsed n < seconds
      → e ≡ saved out (text ++ 10 ∷ [])
      → Collected elapsed printed seconds start out e
  nothing_printed :
      (n : ℕ)
      → start ≤ n
      → seconds ≤ elapsed n
      → e ≡ by_hand
      → Collected elapsed printed seconds start out e
