-- ===== src/ClockWarnings/Laws.antt =====
-- A warning about the clock itself is never taken for one that has been shown.
use facenox.Base.{
  ◌≡◌, refl, Bool, true, false, not, ◌&&◌, List, Option, none, some, String, if_elim, ◌⊎◌, arith,
}
use facenox.Base.Keys.{string_eq, list_eq}
use facenox.ClockWarnings.{
  ClockHealthWarning, DedupeKey, non_empty, is_true, trimmed, clock_message,
  is_legacy_timezone_only, clock_warning_from_health, consume_clock_warning, is_drift_status,
}

-- Trimming a trimmed text changes nothing.
abbrev pub Trims : (String → String) → Type 0
Trims trim = (text : String) → trim (trim text) ≡ trim text

-- The report has a message about the clock, and this is not only that of an older service about the
-- timezone: the operating system warns, a drift has been found, the timezones agree, or the
-- timezones have a message of their own.
abbrev pub Drifts : (String → String) → ClockHealthWarning → Type 0
Drifts trim health =
    (non_empty (clock_message trim health) ≡ true)
    × ((non_empty (trimmed trim health.os_clock_warning) ≡ true)
        ⊎ ((is_drift_status health.online_verification_status ≡ true)
            ⊎ ((is_true health.timezone_mismatch ≡ false)
                ⊎ (non_empty (trimmed trim health.timezone_warning_message) ≡ true))))

one_refuses :
    (mismatch zone os drift : Bool)
    → (os ≡ true) ⊎ ((drift ≡ true) ⊎ ((mismatch ≡ false) ⊎ (zone ≡ true)))
    → (mismatch && (not zone && (not os && not drift))) ≡ false
one_refuses mismatch zone os drift h = ground arith

module _ (trim : String → String) where
  Drifts-new :
      (health : ClockHealthWarning)
      → Drifts trim health
      → is_legacy_timezone_only trim health ≡ false
  unfolding is_legacy_timezone_only
  Drifts-new health (message, reasons) =
      one_refuses (is_true health.timezone_mismatch)
        (non_empty (trimmed trim health.timezone_warning_message))
        (non_empty (trimmed trim health.os_clock_warning))
        (is_drift_status health.online_verification_status) reasons

  trim-trimmed :
      Trims trim
      → (text : Option String) → non_empty (trimmed trim text) ≡ true
      → trim (trimmed trim text) ≡ trimmed trim text
  trim-trimmed trims none h = absurd cc
  trim-trimmed trims (some text) h = trims text

  trim-clock_message :
      (health : ClockHealthWarning)
      → Trims trim
      → non_empty (clock_message trim health) ≡ true
      → trim (clock_message trim health) ≡ clock_message trim health
  unfolding clock_message
  trim-clock_message health trims =
      if_elim (λ (text : String). non_empty text ≡ true → trim text ≡ text)
        (non_empty (trimmed trim health.warning_message))
        (λ _. trim-trimmed trims health.warning_message)
        (λ _. trim-trimmed trims health.os_clock_warning)

  -- A report of a drifting clock is always shown, whatever has been shown before, and leaves the
  -- advisories that have been shown as they are, if a trimmed text has nothing more to trim.
  pub consume_clock_warning-Drifts :
      (health : ClockHealthWarning) (shown : List DedupeKey)
      → Trims trim
      → Drifts trim health
      → consume_clock_warning trim (clock_warning_from_health trim (some health)) shown
        ≡ (some (clock_message trim health), shown)
  unfolding consume_clock_warning clock_warning_from_health
  consume_clock_warning-Drifts health shown trims drifts =
      rw (drifts.0, Drifts-new health drifts, trim-clock_message health trims drifts.0, drifts.0)
        refl
