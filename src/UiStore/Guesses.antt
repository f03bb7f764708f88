-- ===== src/UiStore/Guesses.antt =====
-- app/src/components/main/stores/uiStore.ts: what wrong guesses of the PIN and of the recovery key
-- lead to.
use facenox.Base.{ℕ, ◌+◌, ◌*◌, ◌-◌, ◌≤◌, ◌≡◌, false}
use facenox.Base.Keys.{◌===◌, string_eq}
use facenox.Base.Text.{Text}
use facenox.UiStore.{Lock, Attempt, enters_pin, enters_recovery_key, lockout_seconds}
use facenox.UiStore.Lockout.{waited}
use facenox.UiStore.RecoveryKey.{compare_recovery_keys}

-- An attempt without the PIN and without the recovery key, at a moment from `start` to `limit`.
abbrev pub Wrong : (Text → Text) → Lock → ℕ → ℕ → Attempt → Type 0
Wrong to_upper_case s start limit (enters_pin entered now) =
    ((entered === s.admin_pin) ≡ false) × (start ≤ now) × (now ≤ limit)
Wrong to_upper_case s start limit (enters_recovery_key entered) =
    compare_recovery_keys to_upper_case entered s.recovery_key ≡ false
Wrong to_upper_case s start limit one = Unit

-- What a wrong attempt does not change, while the lock is on.
abbrev pub Same : Lock → Lock → Type 0
Same s t =
    (t.admin_pin_enabled ≡ s.admin_pin_enabled)
    × (t.admin_pin ≡ s.admin_pin)
    × (t.recovery_key ≡ s.recovery_key)
    × (t.show_settings ≡ s.show_settings)
    × (t.called ≡ s.called)

-- From `start` to the end of the lockout it takes at least as long as all the lockouts together that
-- the wrong PINs have brought.
abbrev Paced : ℕ → ℕ → Lock → Type 0
Paced start limit s =
    (waited s.pin_failed_attempts ≤ s.pin_lockout_until - start)
    × (s.pin_lockout_until ≤ limit + lockout_seconds s.pin_failed_attempts * 1000)
