-- ===== src/FirstBoot/Ends.antt =====
-- tools/install-dot.py: how the watch of the first boot ends, and what the exit status tells.
use mathlib.Core.Path.{subst}
use techo5_dot.Prelude.{
  ℕ, zero, suc, ◌+◌, ◌<◌, [], ◌∷◌, split, if◌then◌else◌, ◌≤◌, ◌≡◌, refl, sym, ap, ◌∙◌, ltb, Bytes,
  codes, strip, is_empty, if_both, Bool, true, false, not, ◌&&◌, ◌||◌, ℕ_discrete, arith,
}
use techo5_dot.Asking.Units.{spaces}
use techo5_dot.FirstBoot.Answers.{word_then, last_value, kv_get, kv_or_empty}
use techo5_dot.FirstBoot.Watch.{
  Watched, rescue, healthy, unseen, out_of_fuel, says_rescue, says_healthy, address_of, watch_loop,
  watch,
}

module _ (wide : ℕ → Bool) (elapsed : ℕ → ℕ) (answer : ℕ → Bytes) where
  -- The answer of a round settles nothing.
  abbrev pub unclear : ℕ → Bool
  unclear k =
      is_empty (answer k) || not (says_rescue wide (answer k)) && not (says_healthy wide (answer k))

  -- What the round in which the watch ends has told.
  abbrev pub Told : ℕ → Watched → Type 0
  Told n rescue =
      (elapsed n < 480) × (is_empty (answer n) ≡ false) × (says_rescue wide (answer n) ≡ true)
  Told n healthy =
      (elapsed n < 480)
      × (says_rescue wide (answer n) ≡ false)
      × (says_healthy wide (answer n) ≡ true)
  Told n unseen = 480 ≤ elapsed n
  Told n out_of_fuel = ⊥

  -- The address after `n` rounds: the last one that an answer has told, or else `ip`.
  unfoldable pub last_address : Bytes → ℕ → Bytes
  last_address ip zero = ip
  last_address ip (suc n) =
      let before = last_address ip n in
      let told = kv_or_empty wide (answer n) (codes "ip") in
      if is_empty told then before else strip spaces told

  -- How many answers have been taken when the watch ends in round `n`.
  abbrev pub answers_taken : Watched → ℕ → ℕ
  answers_taken unseen n = n
  answers_taken _ n = n + 1

  pub record WatchEnd (ip : Bytes) (start : ℕ) (r : Watched × Bytes) : Type 0 where
    pub round : ℕ
    pub from_start : start ≤ round
    pub before : (k : ℕ) → start ≤ k → k < round → (unclear k ≡ true) × (elapsed k < 480)
    pub told : Told round r.0
    pub address : r.1 ≡ last_address ip (answers_taken r.0 round)

  silence_tells :
      (out key : Bytes) → is_empty out ≡ true → is_empty (kv_or_empty wide out key) ≡ true
  unfolding kv_or_empty kv_get last_value word_then split
  silence_tells [] key silent = refl
  silence_tells (c ∷ cs) key silent = absurd (ground arith)

  next_address :
      (ip : Bytes) (n : ℕ)
      → last_address ip (n + 1) ≡ address_of wide (answer n) (last_address ip n)
  unfolding last_address
  next_address ip n = ap (last_address ip) (let e : n + 1 ≡ suc n = omega arith in e)

  silent_address :
      (ip : Bytes) (n : ℕ)
      → is_empty (answer n) ≡ true
      → last_address ip (n + 1) ≡ last_address ip n
  silent_address ip n silent =
      next_address ip n ∙ rw (silence_tells (answer n) (codes "ip") silent) refl

  ends_here :
      (ip : Bytes) (n : ℕ) (r : Watched × Bytes)
      → Told n r.0
      → r.1 ≡ last_address ip (answers_taken r.0 n)
      → WatchEnd ip n r
  ends_here ip n r told address = record {
    round = n;
    from_start = omega arith;
    before = λ k lo hi. absurd (omega arith);
    told = told;
    address = address;
  }

  ends_later :
      (ip : Bytes) (n : ℕ) (r : Watched × Bytes)
      → unclear n ≡ true
      → elapsed n < 480
      → WatchEnd ip (n + 1) r
      → WatchEnd ip n r
  ends_later ip n r u early w = record {
    round = w.round;
    from_start = let le = w.from_start in omega arith;
    before = λ k lo hi. elim (ℕ_discrete n k) [
      | yes same_round ↦ subst (λ i. (unclear i ≡ true) × (elapsed i < 480)) same_round (u, early)
      | no other ↦ w.before k (omega arith) hi
    ];
    told = w.told;
    address = w.address;
  }

  module _ (sleeps : (n : ℕ) → n ≤ elapsed n) where
    -- From a round on, with the address that the rounds before have told.
    watch_loop-WatchEnd :
        (fuel start : ℕ) (ip at : Bytes)
        → at ≡ last_address ip start
        → 0 < fuel
        → 480 < start + fuel
        → WatchEnd ip start (watch_loop wide elapsed answer fuel start at)
    unfolding watch_loop
    watch_loop-WatchEnd zero start ip at known some_fuel enough = absurd (omega arith)
    watch_loop-WatchEnd (suc fuel) start ip at known some_fuel enough =
        let out = answer start in
        let slept = sleeps start in
        let now : address_of wide out at ≡ last_address ip (start + 1) =
          ap (address_of wide out) known ∙ sym (next_address ip start) in
        if_both (WatchEnd ip start) (not (ltb (elapsed start) 480)) _ _
          (λ over. ends_here ip start _ (ground arith) known)
          (λ in_time.
            let early : elapsed start < 480 = ground arith in
            if_both (WatchEnd ip start) (is_empty out) _ _
              (λ silent. ends_later ip start _ (ground arith) early (
                watch_loop-WatchEnd fuel (start + 1) ip at
                  (known ∙ sym (silent_address ip start silent)) (omega arith) (omega arith)))
              (λ heard.
                if_both (WatchEnd ip start) (says_rescue wide out) _ _
                  (λ stuck. ends_here ip start _ (early, heard, stuck) now)
                  (λ booting.
                    if_both (WatchEnd ip start) (says_healthy wide out) _ _
                      (λ well. ends_here ip start _ (early, booting, well) now)
                      (λ unwell. ends_later ip start _ (ground arith) early (
                        watch_loop-WatchEnd fuel (start + 1) ip _ now (omega arith)
                          (omega arith))))))

    -- The watch ends within its rounds: on an answer that tells of rescue, or of a healthy boot, before
    -- eight minutes are over, or once they are over, and every round before was in time and settled
    -- nothing; the address is the last one told.
    pub watch-WatchEnd : (ip : Bytes) → WatchEnd ip 0 (watch wide elapsed answer ip)
    unfolding watch
    watch-WatchEnd ip =
        watch_loop-WatchEnd 481 0 ip ip (unfold last_address in refl) (omega arith) (omega arith)
