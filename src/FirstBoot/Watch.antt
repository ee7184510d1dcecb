-- ===== src/FirstBoot/Watch.antt =====
-- tools/install-dot.py: the watch of the first boot, the check of the API port, and the exit.
use techo5_dot.Prelude.{
  ℕ, zero, suc, ◌+◌, ltb, Bytes, codes, strip, is_empty, if◌then◌else◌, Bool, true, false, not,
  ◌&&◌,
}
use techo5_dot.Asking.Units.{spaces}
use techo5_dot.Console.Unit.{includes}
use techo5_dot.Network.Wifi.{in_rescue}
use techo5_dot.FirstBoot.Answers.{kv_or_empty}

-- How the watch ends.
pub data Watched : Type 0 where
  rescue healthy unseen out_of_fuel : Watched

-- What the program ends with. `done` and `answers` name the address.
pub data Verdict : Type 0 where
  stays_in_rescue : Verdict
  done answers : Bytes → Verdict
  not_up : Verdict

abbrev pub exit_status : Verdict → ℕ
exit_status stays_in_rescue = 1
exit_status (done ip) = 0
exit_status (answers ip) = 0
exit_status not_up = 1

module _ (wide : ℕ → Bool) where
  abbrev pub says_rescue : Bytes → Bool
  says_rescue out =
      in_rescue (kv_or_empty wide out (codes "slot")) (kv_or_empty wide out (codes "tries"))

  abbrev pub says_healthy : Bytes → Bool
  says_healthy out = includes (kv_or_empty wide out (codes "tries")) (codes "healthy")

  abbrev pub address_of : Bytes → Bytes → Bytes
  address_of out ip =
      let value = kv_or_empty wide out (codes "ip") in
      if is_empty value then ip else strip spaces value

  module _ (elapsed : ℕ → ℕ) (answer : ℕ → Bytes) where
    -- The rounds from the `n`-th on; `answer n` is what the console gives, empty for nothing.
    unfoldable pub watch_loop : ℕ → ℕ → Bytes → Watched × Bytes
    watch_loop zero n ip = (out_of_fuel, ip)
    watch_loop (suc fuel) n ip =
        let out = answer n in
        let now = address_of out ip in
        let silent = watch_loop fuel (n + 1) ip in
        let unclear = watch_loop fuel (n + 1) now in
        if not (ltb (elapsed n) 480)
        then (unseen, ip)
        else if is_empty out
        then silent
        else if says_rescue out
        then (rescue, now)
        else if says_healthy out
        then (healthy, now)
        else unclear

    -- Eight minutes, of rounds that sleep for five seconds each.
    unfoldable pub watch : Bytes → Watched × Bytes
    watch ip = watch_loop 481 0 ip

-- `checked n` is how many seconds after the watch the n-th check looks at the clock, and `opens n`
-- whether the port was open before it.
module _ (checked : ℕ → ℕ) (opens : ℕ → Bool) where
  unfoldable pub port_loop : ℕ → ℕ → Bool
  port_loop zero n = false
  port_loop (suc fuel) n =
      let later = port_loop fuel (n + 1) in
      if opens n then true else if ltb (checked n) 60 then later else false

  abbrev pub port_open : Bytes → Bool
  port_open ip = not (is_empty ip) && port_loop 61 0

abbrev pub verdict_of : Bool → Bool → Bytes → Verdict
verdict_of is_healthy up ip =
    if is_healthy && up then done ip else if up then answers ip else not_up

abbrev pub after_watch : (Bytes → Bool) → Watched × Bytes → Verdict
after_watch port (rescue, ip) = stays_in_rescue
after_watch port (healthy, ip) = verdict_of true (port ip) ip
after_watch port (_, ip) = verdict_of false (port ip) ip

-- The end of `main`: `opens ip n` asks the address.
unfoldable pub first_boot :
    (ℕ → Bool) → (ℕ → ℕ) → (ℕ → Bytes) → (ℕ → ℕ) → (Bytes → ℕ → Bool) → Bytes → Verdict
first_boot wide elapsed answer checked opens ip =
    after_watch (λ at. port_open checked (opens at) at) (watch wide elapsed answer ip)
