-- ===== src/ClockWarnings.antt =====
-- app/src/services/clockWarnings.ts: which warnings about the clock are shown.
pub mod Laws
pub mod Tests
use facenox.Base.{
  Bool, true, false, not, ◌&&◌, ◌||◌, List, [], ◌∷◌, ◌++◌, Option, none, some, String, any,
  if◌then◌else◌,
}
use facenox.Base.Keys.{◌===◌, string_eq, list_eq}

pub record ClockHealthWarning : Type 0 where
  pub warning_message : Option String
  pub os_clock_warning : Option String
  pub online_verification_status : Option String
  pub timezone_mismatch : Option Bool
  pub device_time_zone_name : Option String
  pub attendance_time_zone_name : Option String
  pub timezone_warning_message : Option String

-- A key is the array of the texts that `join(":")` puts together, which the joined text tells apart,
-- since the name of a timezone holds no colon. Its texts are trimmed, so that trimming the key
-- changes nothing.
abbrev pub DedupeKey : Type 0
DedupeKey = List String

pub record ClockWarningDetail : Type 0 where
  pub message : String
  pub dedupe_key : Option DedupeKey

abbrev pub non_empty : String → Bool
non_empty text = not (text === "")

abbrev pub is_true : Option Bool → Bool
is_true (some true) = true
is_true _ = false

abbrev pub is_drift_status : Option String → Bool
is_drift_status none = false
is_drift_status (some status) = status === "drift_detected"

abbrev pub has_key : DedupeKey → List DedupeKey → Bool
has_key key shown = any (λ k. k === key) shown

module _ (trim : String → String) where
  -- `text?.trim()`, where a missing text counts as an empty one.
  abbrev pub trimmed : Option String → String
  trimmed none = ""
  trimmed (some text) = trim text

  -- `a?.trim() || b?.trim()`
  unfoldable pub clock_message : ClockHealthWarning → String
  clock_message health =
      if non_empty (trimmed health.warning_message)
      then trimmed health.warning_message
      else trimmed health.os_clock_warning

  -- `[…].filter(Boolean)`
  abbrev present : String → DedupeKey
  present text = if non_empty text then text ∷ [] else []

  unfoldable pub timezone_key : ClockHealthWarning → DedupeKey
  timezone_key health =
      "attendance-timezone-mismatch"
      ∷ (present (trimmed health.device_time_zone_name)
          ++ present (trimmed health.attendance_time_zone_name))

  unfoldable pub is_legacy_timezone_only : ClockHealthWarning → Bool
  is_legacy_timezone_only health =
      is_true health.timezone_mismatch
      && (not (non_empty (trimmed health.timezone_warning_message))
          && (not (non_empty (trimmed health.os_clock_warning))
              && not (is_drift_status health.online_verification_status)))

  unfoldable pub clock_warning_from_health : Option ClockHealthWarning → Option ClockWarningDetail
  unfolding clock_message timezone_key is_legacy_timezone_only
  clock_warning_from_health none = none
  clock_warning_from_health (some health) =
      if non_empty (clock_message health)
      then some (record {
        message = clock_message health;
        dedupe_key = if is_legacy_timezone_only health then some (timezone_key health) else none;
      })
      else if non_empty (trimmed health.timezone_warning_message)
      then some (record {
        message = trimmed health.timezone_warning_message;
        dedupe_key = some (timezone_key health);
      })
      else none

  -- What is shown, and the keys that have been shown.
  abbrev show_once : String → Option DedupeKey → List DedupeKey → Option String × List DedupeKey
  show_once message none shown = (some message, shown)
  show_once message (some key) shown =
      if has_key key shown then (none, shown) else (some message, key ∷ shown)

  unfoldable pub consume_clock_warning :
      Option ClockWarningDetail → List DedupeKey → Option String × List DedupeKey
  consume_clock_warning none shown = (none, shown)
  consume_clock_warning (some detail) shown =
      if non_empty (trim detail.message)
      then show_once (trim detail.message) detail.dedupe_key shown
      else (none, shown)

  -- The warnings of a sequence of reports.
  unfoldable pub show_all : List (Option ClockHealthWarning) → List DedupeKey → List (Option String)
  unfolding clock_warning_from_health consume_clock_warning
  show_all [] shown = []
  show_all (health ∷ reports) shown =
      let next = consume_clock_warning (clock_warning_from_health health) shown in
      next.0 ∷ show_all reports next.1
