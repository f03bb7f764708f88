-- ===== src/ClockWarnings/Tests.antt =====
-- Reports about the clock, one after the other.
use facenox.Base.{◌≡◌, refl, true, [], ◌∷◌, none, some, String}
use facenox.Base.Keys.{same_list}
use facenox.ClockWarnings.{ClockHealthWarning, show_all}

abbrev as_is : String → String
as_is text = text

abbrev advisory : ClockHealthWarning
advisory = record {
  warning_message = none;
  os_clock_warning = none;
  online_verification_status = none;
  timezone_mismatch = some true;
  device_time_zone_name = some "UTC";
  attendance_time_zone_name = some "Asia/Manila";
  timezone_warning_message = some "zones differ";
}

abbrev drift : ClockHealthWarning
drift = record advisory {
  warning_message = some "clock drifts";
  online_verification_status = some "drift_detected";
}

abbrev legacy : ClockHealthWarning
legacy = record advisory { warning_message = some "zones differ"; timezone_warning_message = none }

-- The advisory is shown once, a drift always, and the message of an older service counts as the
-- advisory.
shown_messages :
    show_all as_is
      (some advisory ∷ some drift ∷ some advisory ∷ some drift ∷ some legacy ∷ none ∷ [])
      []
    ≡ some "zones differ" ∷ some "clock drifts" ∷ none ∷ some "clock drifts" ∷ none ∷ none ∷ []
unfolding show_all same_list
shown_messages = refl
