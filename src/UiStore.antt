-- ===== src/UiStore.antt =====
-- app/src/components/main/stores/uiStore.ts: the lock of the settings by an administrator's PIN, with
-- its prompt, its lockout and its recovery key. A moment is the milliseconds of `Date.now()`; a
-- callback is its number, and the store notes which callbacks it has called.
pub mod RecoveryKey
pub mod Lockout
pub mod Guesses
pub mod Tests
use facenox.Base.{
  ℕ, ◌+◌, ◌*◌, Bool, true, false, not, ◌&&◌, List, [], ◌∷◌, Option, none, some, String, ltb, leb,
  if◌then◌else◌,
}
use facenox.Base.Keys.{◌===◌, string_eq}
use facenox.Base.Text.{Text}
use facenox.UiStore.RecoveryKey.{compare_recovery_keys}

pub record Lock : Type 0 where
  pub admin_pin_enabled : Bool
  pub admin_pin : String
  pub recovery_key : Text
  pub pin_lockout_until : ℕ
  pub pin_failed_attempts : ℕ
  pub is_pin_prompt_open : Bool
  pub pending_settings_section : Option String
  pub pending_group_section : Option String
  pub pending_pin_callback : Option ℕ
  pub show_settings : Bool
  pub group_initial_section : Option String
  pub settings_initial_section : Option String
  pub called : List ℕ

-- `section || (groupSection ? "group" : undefined)`; the section of a group is not empty.
abbrev pub group_or_none : Option String → Option String
group_or_none none = none
group_or_none (some group_section) = some "group"

abbrev pub section_or_group : Option String → Option String → Option String
section_or_group none group_section = group_or_none group_section
section_or_group (some section) group_section =
    if section === "" then group_or_none group_section else some section

unfoldable pub request_open_settings : Option String → Option String → Lock → Lock
request_open_settings section group_section s =
    if s.admin_pin_enabled
    then record s {
      is_pin_prompt_open = true;
      pending_settings_section = section_or_group section group_section;
      pending_group_section = group_section;
      pending_pin_callback = none;
    }
    else record s {
      settings_initial_section = section_or_group section group_section;
      group_initial_section = group_section;
      show_settings = true;
    }

abbrev pub run_callback : ℕ → Lock → Lock
run_callback on_success s = record s { called = on_success ∷ s.called }

unfoldable pub open_pin_prompt : ℕ → Lock → Lock
open_pin_prompt on_success s =
    if s.admin_pin_enabled
    then record s {
      is_pin_prompt_open = true;
      pending_pin_callback = some on_success;
      pending_settings_section = none;
      pending_group_section = none;
    }
    else run_callback on_success s

unfoldable pub close_pin_prompt : Lock → Lock
close_pin_prompt s = record s {
  is_pin_prompt_open = false;
  pending_settings_section = none;
  pending_group_section = none;
  pending_pin_callback = none;
}

unfoldable pub reset_pin_lockout : Lock → Lock
reset_pin_lockout s = record s { pin_lockout_until = 0; pin_failed_attempts = 0 }

abbrev pub lockout_seconds : ℕ → ℕ
lockout_seconds attempts =
    if leb 10 attempts
    then 900
    else if leb 5 attempts
    then 120
    else if leb 3 attempts
    then 30
    else 0

unfoldable pub record_failed_pin_attempt : ℕ → Lock → Lock
record_failed_pin_attempt now s =
    let attempts = s.pin_failed_attempts + 1 in
    let seconds = lockout_seconds attempts in
    record s {
      pin_failed_attempts = attempts;
      pin_lockout_until = if ltb 0 seconds then now + seconds * 1000 else 0;
    }

abbrev pub is_locked_out : ℕ → Lock → Bool
is_locked_out now s = ltb 0 s.pin_lockout_until && ltb now s.pin_lockout_until

-- The callback that is pending, or else the settings at the pending section.
abbrev pub proceed : Option ℕ → Lock → Lock
proceed (some on_success) s = run_callback on_success s
proceed none s = record s {
  settings_initial_section = section_or_group s.pending_settings_section s.pending_group_section;
  group_initial_section = s.pending_group_section;
  show_settings = true;
}

unfoldable pub verify_pin : String → ℕ → Lock → Bool × Lock
unfolding close_pin_prompt reset_pin_lockout record_failed_pin_attempt
verify_pin entered now s =
    if is_locked_out now s
    then (false, s)
    else if entered === s.admin_pin
    then (true, close_pin_prompt (proceed s.pending_pin_callback (reset_pin_lockout s)))
    else (false, record_failed_pin_attempt now s)

unfoldable pub verify_recovery_key : (Text → Text) → Text → Lock → Bool × Lock
verify_recovery_key to_upper_case entered s =
    if compare_recovery_keys to_upper_case entered s.recovery_key
    then (
      true,
      record s {
        admin_pin = "1234";
        admin_pin_enabled = false;
        pin_lockout_until = 0;
        pin_failed_attempts = 0;
        is_pin_prompt_open = false;
        show_settings = true;
      },
    )
    else (false, s)

abbrev pub given_or {ℓ} : {A : Type ℓ} → Option A → A → A
given_or none old = old
given_or (some new) old = new

unfoldable pub set_admin_pin_settings : Option Bool → Option String → Option Text → Lock → Lock
set_admin_pin_settings enabled pin key s = record s {
  admin_pin_enabled = given_or enabled s.admin_pin_enabled;
  admin_pin = given_or pin s.admin_pin;
  recovery_key = given_or key s.recovery_key;
}

-- A reset of the PIN that comes from the Cloud.
unfoldable pub on_pin_reset : Option String → Option Bool → Lock → Lock
unfolding close_pin_prompt
on_pin_reset pin enabled s = close_pin_prompt (record s {
  admin_pin = given_or pin "1234";
  admin_pin_enabled = given_or enabled false;
  pin_lockout_until = 0;
  pin_failed_attempts = 0;
})

-- What somebody in front of the device can do.
pub data Attempt : Type 0 where
  requests_settings : Option String → Option String → Attempt
  asks_for : ℕ → Attempt
  closes_prompt : Attempt
  enters_pin : String → ℕ → Attempt
  enters_recovery_key : Text → Attempt

module _ (to_upper_case : Text → Text) where
  unfoldable pub attempt : Attempt → Lock → Lock
  unfolding request_open_settings open_pin_prompt close_pin_prompt verify_pin verify_recovery_key
  attempt (requests_settings section group_section) s =
      request_open_settings section group_section s
  attempt (asks_for on_success) s = open_pin_prompt on_success s
  attempt closes_prompt s = close_pin_prompt s
  attempt (enters_pin entered now) s = (verify_pin entered now s).1
  attempt (enters_recovery_key entered) s = (verify_recovery_key to_upper_case entered s).1

  unfoldable pub attempt_all : List Attempt → Lock → Lock
  attempt_all [] s = s
  attempt_all (one ∷ attempts) s = attempt_all attempts (attempt one s)
