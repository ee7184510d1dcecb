-- ===== src/FirstBoot/Verdicts.antt =====
-- tools/install-dot.py: what stands behind each verdict at the end of main.
use techo5_dot.Prelude.{
  ℕ, zero, suc, ◌+◌, ◌<◌, ◌≤◌, ◌≡◌, ◌≢◌, ◌⊎◌, inl, inr, refl, sym, ap, ◌∙◌, ltb, Bytes, is_empty,
  if_both, Bool, true, false, not, ◌&&◌, ℕ_discrete, arith,
}
use techo5_dot.FirstBoot.Watch.{
  Watched, rescue, healthy, unseen, out_of_fuel, Verdict, stays_in_rescue, done, answers, not_up,
  watch, port_loop, port_open, verdict_of, after_watch, first_boot,
}
use techo5_dot.FirstBoot.Ends.{WatchEnd, watch-WatchEnd}

module _ (checked : ℕ → ℕ) (opens : ℕ → Bool) where
  -- The port is open at some check, or closed at all of them until a minute is over.
  abbrev pub PortEnd : ℕ → Bool → Type 0
  PortEnd start true = (n : ℕ) × ((start ≤ n) × (opens n ≡ true))
  PortEnd start false =
      (n : ℕ) × ((60 ≤ checked n) × ((k : ℕ) → start ≤ k → k ≤ n → opens k ≡ false))

  port_later :
      (start : ℕ) (up : Bool) → opens start ≡ false → PortEnd (start + 1) up → PortEnd start up
  port_later start true closed (n, (le, e)) = (n, (omega arith, e))
  port_later start false closed (n, (over, all)) = (
    n,
    (
      over,
      λ k lo hi. elim (ℕ_discrete start k) [
        | yes same_round ↦ ap opens (sym same_round) ∙ closed
        | no other ↦ all k (omega arith) hi
      ],
    ),
  )

  port_loop-PortEnd :
      (sleeps : (n : ℕ) → n ≤ checked n) (fuel start : ℕ)
      → 0 < fuel
      → 60 < start + fuel
      → PortEnd start (port_loop checked opens fuel start)
  unfolding port_loop
  port_loop-PortEnd sleeps zero start some_fuel enough = absurd (omega arith)
  port_loop-PortEnd sleeps (suc fuel) start some_fuel enough =
      let slept = sleeps start in
      if_both (PortEnd start) (opens start) _ _ (λ open_now. (start, (omega arith, open_now)))
        (λ closed.
          if_both (PortEnd start) (ltb (checked start) 60) _ _
            (λ in_time.
              let early : checked start < 60 = ground arith in
              port_later start _ closed
                (port_loop-PortEnd sleeps fuel (start + 1) (omega arith) (omega arith)))
            (λ over.
              let late : 60 ≤ checked start = ground arith in
              (
                start,
                (late, λ k lo hi. let e : start ≡ k = omega arith in ap opens (sym e) ∙ closed),
              )))

module _ (wide : ℕ → Bool) (elapsed : ℕ → ℕ) (answer : ℕ → Bytes) (checked : ℕ → ℕ)
    (opens : Bytes → ℕ → Bool) (ip : Bytes) where
  abbrev pub IsOpen : Bytes → Type 0
  IsOpen a = (is_empty a ≡ false) × ((m : ℕ) × (opens a m ≡ true))

  -- Every check of the port for a minute found it closed.
  abbrev pub IsClosed : Bytes → Type 0
  IsClosed a = (n : ℕ) × ((60 ≤ checked n) × ((k : ℕ) → 0 ≤ k → k ≤ n → opens a k ≡ false))

  -- What the end of the watch, with its address, and the port say for a verdict.
  abbrev pub Backed : Watched × Bytes → Verdict → Type 0
  Backed (end, at) stays_in_rescue = end ≡ rescue
  Backed (end, at) (done a) = (end ≡ healthy) × (at ≡ a) × IsOpen a
  Backed (end, at) (answers a) = (end ≡ unseen) × (at ≡ a) × IsOpen a
  Backed (end, at) not_up = (end ≢ rescue) × ((is_empty at ≡ true) ⊎ IsClosed at)

  abbrev pub Justified : Verdict → Type 0
  Justified v =
      (end : Watched) × ((at : Bytes) × (WatchEnd wide elapsed answer ip 0 (end, at)
          × Backed (end, at) v))

  module _ (sleeps : (n : ℕ) → n ≤ elapsed n) (waits : (n : ℕ) → n ≤ checked n) where
    -- The port's check, on an address that may be empty.
    abbrev PortSays : Bytes → Bool → Type 0
    PortSays a true = IsOpen a
    PortSays a false = (is_empty a ≡ true) ⊎ IsClosed a

    checked_port :
        (a : Bytes) (up : Bool)
        → is_empty a ≡ false
        → PortEnd checked (opens a) 0 up
        → PortSays a up
    checked_port a true known (n, (le, e)) = (known, (n, e))
    checked_port a false known e = inr e

    port_cases :
        (a : Bytes) (unknown : Bool)
        → is_empty a ≡ unknown
        → PortSays a (not unknown && port_loop checked (opens a) 61 0)
    port_cases a true e = inl e
    port_cases a false e =
        checked_port a _ e
          (port_loop-PortEnd checked (opens a) waits 61 0 (omega arith) (omega arith))

    verdict-Backed :
        (end : Watched) (is_healthy up : Bool) (a : Bytes)
        → (is_healthy ≡ true → end ≡ healthy)
        → (is_healthy ≡ false → end ≡ unseen)
        → PortSays a up
        → Backed (end, a) (verdict_of is_healthy up a)
    verdict-Backed end true true a well late open_port = (well refl, refl, open_port)
    verdict-Backed end false true a well late open_port = (late refl, refl, open_port)
    verdict-Backed end true false a well late closed =
        let e = well refl in (rw e (ground arith), closed)
    verdict-Backed end false false a well late closed =
        let e = late refl in (rw e (ground arith), closed)

    after_watch-Justified :
        (r : Watched × Bytes)
        → WatchEnd wide elapsed answer ip 0 r
        → Justified (after_watch (λ at. port_open checked (opens at) at) r)
    after_watch-Justified (rescue, a) w = (rescue, (a, (w, refl)))
    after_watch-Justified (healthy, a) w = (
      healthy,
      (
        a,
        (
          w,
          verdict-Backed healthy true _ a (λ e. refl) (λ e. absurd (ground arith))
              (port_cases a (is_empty a) refl),
        ),
      ),
    )
    after_watch-Justified (unseen, a) w = (
      unseen,
      (
        a,
        (
          w,
          verdict-Backed unseen false _ a (λ e. absurd (ground arith)) (λ e. refl)
              (port_cases a (is_empty a) refl),
        ),
      ),
    )
    after_watch-Justified (out_of_fuel, a) w = elim w.told [ ]

    -- The verdict follows from the first round that settles the boot within eight minutes, or from there
    -- being none, and from the last address that the answers have told by then, or the one known before:
    -- stuck in rescue only if that round tells of rescue; `Done` only if it tells of a healthy boot and
    -- a port of that address is open; an address that answers only if no round settled the boot and the
    -- port is open; and not up only if the boot is not in rescue and that address is empty or its port
    -- was closed at every check for a minute.
    pub first_boot-Justified : Justified (first_boot wide elapsed answer checked opens ip)
    unfolding first_boot
    first_boot-Justified =
        after_watch-Justified (watch wide elapsed answer ip)
          (watch-WatchEnd wide elapsed answer sleeps ip)
