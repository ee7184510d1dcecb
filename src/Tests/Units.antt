-- ===== src/Tests/Units.antt =====
-- tools/techo5lib.py, update-boot.py and install-dot.py: waits, names and keys on small inputs.
use techo5_dot.Prelude.{
  ℕ, ◌+◌, ◌≡◌, ◌⊎◌, ◌≤◌, ◌<◌, refl, [], ◌∷◌, Bytes, codes, true, false, if◌then◌else◌, Option, some,
  none, ok, ltb, leb, starts_with, among, lstrip, rstrip, arith, replicate, ◌==◌,
}
use techo5_dot.Console.Unit.{includes}
use techo5_dot.Asking.Units.{decimal}
use techo5_dot.Asking.Questions.{ask_name, is_bad_name, valid_api_key}
use techo5_dot.Waits.Loops.{wait_loop, wait_for, push_loop, push, pushed_at, watch_boot, passed}
use techo5_dot.Waits.Ends.{Ended, wait_for-Ended, push-pushed_at, watch_boot-healthy}
use techo5_dot.Network.Wifi.{in_rescue, find_tries, number_behind_space, leading_digits}
use techo5_dot.Network.Identity.{Identity, Known, readable_name, identity, key_for}
use techo5_dot.Network.Provisioned.{Provisioned, identity-Provisioned}

abbrev ten_each : ℕ → ℕ
ten_each n = n + n

double-le : (n : ℕ) → n ≤ ten_each n
double-le n = omega arith

wait_for-Ended_example : Ended ten_each (λ n. leb 3 n) 60 0 (wait_for ten_each (λ n. leb 3 n) 60)
wait_for-Ended_example = wait_for-Ended ten_each (λ n. leb 3 n) double-le 60

fourth_round : wait_for ten_each (λ n. leb 3 n) 60 ≡ passed 3
unfolding wait_for wait_loop
fourth_round = refl

second_try : push (λ n. n == 2) (λ n. true) (λ n. true) 4 ≡ pushed_at 2
unfolding push push_loop
second_try = refl

push-pushed_at_example :
    (2 == 2 ≡ true) × (1 ≤ 2) × (2 ≤ 4) × ((◌≡◌ {A = ℕ} 1 2) ⊎ ((true ≡ true) × (true ≡ true)))
push-pushed_at_example = push-pushed_at (λ n. n == 2) (λ n. true) (λ n. true) 4 second_try

-- The first reply comes from the boot before.
abbrev replies : ℕ → Bytes
replies n = if ltb n 2 then codes "old-id healthy" else codes "new-id healthy"

seen_healthy : watch_boot ten_each replies (codes "old-id") ≡ true
unfolding watch_boot wait_for wait_loop includes starts_with
seen_healthy = refl

watch_boot-healthy_example :
    (n : ℕ) × (ten_each n < 360)
    × (includes (replies n) (codes "healthy") ≡ true)
    × (includes (replies n) (codes "old-id") ≡ false)
watch_boot-healthy_example =
    watch_boot-healthy ten_each replies double-le (codes "old-id") seen_healthy

rescued : in_rescue [] (codes "TECHO5-TRIES 5 unhealthy") ≡ true
unfolding in_rescue find_tries number_behind_space leading_digits decimal starts_with among lstrip
    rstrip
rescued = refl

not_rescued : in_rescue [] (codes "TECHO5-TRIES 2 booting") ≡ false
unfolding in_rescue find_tries number_behind_space leading_digits decimal starts_with among lstrip
    rstrip
not_rescued = refl

slot_booted : in_rescue (codes "a") (codes "TECHO5-TRIES 5 x") ≡ false
unfolding in_rescue among lstrip rstrip
slot_booted = refl

abbrev no_utf8 : Bytes → Option Bytes
no_utf8 b = none

abbrev as_is : Bytes → Bytes
as_is b = b

-- A name written in Windows-1252: an e with an accent, and a euro sign.
old_name : readable_name no_utf8 as_is true (0xE9 ∷ 0x80 ∷ 0x81 ∷ []) ≡ 0xE9 ∷ 0x20AC ∷ 0x81 ∷ []
unfolding readable_name
old_name = refl

abbrev any_key : Bytes → Option Bytes
any_key b = some (replicate 32 1)

abbrev nothing_known : Known
nothing_known = record { name = []; raw_name = []; has_key = false; key = [] }

abbrev new_identity : Identity
new_identity = record {
  name = some (codes "Kitchen");
  psk = some (codes "stored");
  key_file = some (codes "stored\n");
  shown = some (codes "Kitchen", codes "stored");
}

provisioned :
    (identity no_utf8 as_is true any_key
      (codes "new")
      false
      nothing_known
      (some (codes "Kitchen"))
      (some (codes "stored\n"))
      false
      []).0
    ≡ ok new_identity
unfolding identity ask_name is_bad_name key_for valid_api_key among lstrip rstrip
provisioned = refl

identity-Provisioned_example :
    Provisioned no_utf8 as_is true any_key (codes "new") (some (codes "stored\n")) new_identity
unfolding valid_api_key
identity-Provisioned_example =
    identity-Provisioned no_utf8 as_is true any_key (codes "new") false nothing_known
      (some (codes "Kitchen")) (some (codes "stored\n")) false [] refl provisioned

-- A console that answers in the third round.
abbrev third_round : ℕ → Option Bytes
third_round n = if ltb n 2 then none else some (codes "panic")
