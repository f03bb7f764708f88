-- ===== src/UiStore/Tests.antt =====
-- A lock, attempts at it, and the theorems at them.
use facenox.Base.{ℕ, ◌+◌, ◌≡◌, refl, true, false, List, [], ◌∷◌, none, some}
use facenox.Base.Text.{Text, codes}
use facenox.Base.Keys.{same_list}
use facenox.UiStore.{
  Lock, Attempt, requests_settings, asks_for, enters_pin, enters_recovery_key, attempt, attempt_all,
  verify_pin, verify_recovery_key, request_open_settings, open_pin_prompt, close_pin_prompt,
  reset_pin_lockout, record_failed_pin_attempt,
}
use facenox.UiStore.RecoveryKey.{
  generate_recovery_key, normalize_recovery_key, compare_recovery_keys,
}

abbrev as_is : Text → Text
as_is key = key

drawn_key : generate_recovery_key (0 ∷ 8 ∷ 18 ∷ 31 ∷ []) (1 ∷ 1 ∷ 1 ∷ 1 ∷ []) ≡ codes "2ALZ-3333"
unfolding generate_recovery_key
drawn_key = refl

without_hyphen : compare_recovery_keys as_is (codes " 2ALZ3333") (codes "2ALZ-3333") ≡ true
unfolding compare_recovery_keys normalize_recovery_key same_list
without_hyphen = refl

abbrev lock : Lock
lock = record {
  admin_pin_enabled = true;
  admin_pin = "9876";
  recovery_key = codes "2ALZ-3333";
  pin_lockout_until = 0;
  pin_failed_attempts = 0;
  is_pin_prompt_open = false;
  pending_settings_section = none;
  pending_group_section = none;
  pending_pin_callback = none;
  show_settings = false;
  group_initial_section = none;
  settings_initial_section = none;
  called = [];
}

-- The third wrong PIN locks, so that the right one is refused, until half a minute has passed.
abbrev guesses : List Attempt
guesses =
    requests_settings (some "security") none
    ∷ enters_pin "0000" 1000
    ∷ enters_pin "0001" 2000
    ∷ enters_pin "0002" 3000
    ∷ asks_for 7
    ∷ enters_recovery_key (codes "AAAA-AAAA")
    ∷ []

locked : (verify_pin "9876" 32999 (attempt_all as_is guesses lock)).0 ≡ false
unfolding attempt_all attempt verify_pin verify_recovery_key request_open_settings open_pin_prompt
    record_failed_pin_attempt compare_recovery_keys normalize_recovery_key same_list
locked = refl

unlocked : (verify_pin "9876" 33000 (attempt_all as_is guesses lock)).1.called ≡ 7 ∷ []
unfolding attempt_all attempt verify_pin verify_recovery_key request_open_settings open_pin_prompt
    record_failed_pin_attempt close_pin_prompt reset_pin_lockout compare_recovery_keys
    normalize_recovery_key same_list
unlocked = refl

-- Eleven wrong PINs, a quarter of an hour and a minute after one another.
abbrev first_moment : ℕ
first_moment = 1700000000000

abbrev last_moment : ℕ
last_moment = first_moment + 9600000

abbrev patient_guesses : List Attempt
patient_guesses =
    enters_pin "0000" (first_moment + 0)
    ∷ enters_pin "0001" (first_moment + 960000)
    ∷ enters_pin "0002" (first_moment + 1920000)
    ∷ enters_pin "0003" (first_moment + 2880000)
    ∷ enters_pin "0004" (first_moment + 3840000)
    ∷ enters_pin "0005" (first_moment + 4800000)
    ∷ enters_pin "0006" (first_moment + 5760000)
    ∷ enters_pin "0007" (first_moment + 6720000)
    ∷ enters_pin "0008" (first_moment + 7680000)
    ∷ enters_pin "0009" (first_moment + 8640000)
    ∷ enters_pin "0010" (first_moment + 9600000)
    ∷ []

eleven_failed : (attempt_all as_is patient_guesses lock).pin_failed_attempts ≡ 11
unfolding attempt_all attempt verify_pin record_failed_pin_attempt
eleven_failed = refl
