-- ===== src/Sync/Policy/Tests.antt =====
-- A policy update that succeeds and one that is refused, and the theorems at those inputs.
use facenox.Base.{true, false, none, some, ◌≡◌, refl, ◌⊎◌}
use facenox.Sync.Policy.{
  Policy, StoredPolicy, PolicyState, LocalAnswers, applied, failed, PolicyError, liveness_refused,
  apply_remote_policy, restore_cached_policy,
}
use facenox.Sync.Policy.Laws.{taken_over, apply_remote_policy_atomic, restart-keeps_liveness}

abbrev pub site_policy : Policy
site_policy = record {
  timezone = some "Asia/Manila";
  force_liveness = some true;
  track_checkout = none;
  late_threshold_enabled = none;
  late_threshold_minutes = some 15;
  attendance_cooldown_seconds = none;
  min_checkout_delay_minutes = none;
  data_retention_days = none;
  allow_kiosk_directory_management = none;
}

abbrev nothing_stored : StoredPolicy
nothing_stored = record {
  force_liveness = none;
  track_checkout = some false;
  late_threshold_enabled = none;
  late_threshold_minutes = some 5;
  attendance_cooldown_seconds = none;
  min_checkout_delay_minutes = none;
  data_retention_days = none;
  allow_kiosk_directory_management = none;
}

abbrev pub before : PolicyState
before = record {
  stored = nothing_stored;
  local = record { attendance_timezone = none; cloud_force_liveness = false };
}

abbrev pub willing : LocalAnswers
willing = record { timezone_ok = true; liveness_ok = true }

abbrev pub unwilling : LocalAnswers
unwilling = record { timezone_ok = true; liveness_ok = false }

update_taken :
    apply_remote_policy willing (some site_policy) before ≡ applied (taken_over site_policy before)
unfolding apply_remote_policy
update_taken = refl

update_refused :
    apply_remote_policy unwilling (some site_policy) before
    ≡ failed liveness_refused
        (record before { local = record before.local { attendance_timezone = some "Asia/Manila" } })
unfolding apply_remote_policy
update_refused = refl

apply_remote_policy_atomic_example :
    (apply_remote_policy unwilling (some site_policy) before
      ≡ applied (taken_over site_policy before))
    ⊎ ((e : PolicyError) × (s' : PolicyState) × (apply_remote_policy unwilling
            (some site_policy)
            before
          ≡ failed e s')
        × (s'.stored ≡ before.stored)
        × (s'.local.cloud_force_liveness ≡ before.local.cloud_force_liveness))
apply_remote_policy_atomic_example = apply_remote_policy_atomic unwilling site_policy before

abbrev updated : PolicyState
updated = taken_over site_policy before

restored : restore_cached_policy willing true updated ≡ applied updated
unfolding restore_cached_policy
restored = refl

restart-keeps_liveness_example :
    (updated.local.cloud_force_liveness ≡ true) × (updated.stored ≡ updated.stored)
restart-keeps_liveness_example =
    restart-keeps_liveness willing true site_policy before updated updated updated refl update_taken
      refl restored
