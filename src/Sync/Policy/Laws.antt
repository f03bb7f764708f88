-- ===== src/Sync/Policy/Laws.antt =====
-- What a policy update leaves behind, on success and on each failure.
use facenox.Base.{
  Bool, true, ◌&&◌, Option, none, some, String, ◌≡◌, refl, sym, ap, ◌∙◌, ◌⊎◌, inl, inr, arith,
}
use facenox.Sync.Policy.{
  Policy, StoredPolicy, PolicyState, LocalAnswers, applied, failed, PolicyError, timezone_refused,
  liveness_refused, keep_or, apply_remote_policy, restore_cached_policy, is_true, apply_timezone,
  apply_liveness,
}

abbrev pub forced_or : Option Bool → Bool → Bool
forced_or none old = old
forced_or (some forced) old = forced

-- The state in which every field of the policy has been taken over.
abbrev pub taken_over : Policy → PolicyState → PolicyState
taken_over p s = record {
  stored = record {
    force_liveness = keep_or p.force_liveness s.stored.force_liveness;
    track_checkout = keep_or p.track_checkout s.stored.track_checkout;
    late_threshold_enabled = keep_or p.late_threshold_enabled s.stored.late_threshold_enabled;
    late_threshold_minutes = keep_or p.late_threshold_minutes s.stored.late_threshold_minutes;
    attendance_cooldown_seconds =
        keep_or p.attendance_cooldown_seconds s.stored.attendance_cooldown_seconds;
    min_checkout_delay_minutes =
        keep_or p.min_checkout_delay_minutes s.stored.min_checkout_delay_minutes;
    data_retention_days = keep_or p.data_retention_days s.stored.data_retention_days;
    allow_kiosk_directory_management =
        keep_or p.allow_kiosk_directory_management s.stored.allow_kiosk_directory_management;
  };
  local = record {
    attendance_timezone = keep_or p.timezone s.local.attendance_timezone;
    cloud_force_liveness = forced_or p.force_liveness s.local.cloud_force_liveness;
  };
}

abbrev with_timezone : Option String → PolicyState → PolicyState
with_timezone zone s = record s {
  local = record s.local { attendance_timezone = keep_or zone s.local.attendance_timezone };
}

abbrev with_liveness : Option Bool → PolicyState → PolicyState
with_liveness forced s = record {
  stored = record s.stored { force_liveness = keep_or forced s.stored.force_liveness };
  local = record s.local { cloud_force_liveness = forced_or forced s.local.cloud_force_liveness };
}

apply_timezone_cases :
    (answers : LocalAnswers) (zone : Option String) (s : PolicyState)
    → (apply_timezone answers zone s ≡ applied (with_timezone zone s))
      ⊎ (apply_timezone answers zone s ≡ failed timezone_refused s)
unfolding apply_timezone
apply_timezone_cases answers none s = inl refl
apply_timezone_cases answers (some zone) s = ground arith

apply_liveness_cases :
    (answers : LocalAnswers) (forced : Option Bool) (s : PolicyState)
    → (apply_liveness answers forced s ≡ applied (with_liveness forced s))
      ⊎ (apply_liveness answers forced s ≡ failed liveness_refused s)
unfolding apply_liveness
apply_liveness_cases answers none s = inl refl
apply_liveness_cases answers (some forced) s = ground arith

-- A policy is stored whole or not at all: the update either takes over every field that the policy
-- has and keeps the others, or it fails and leaves the stored policy and the liveness requirement
-- of the local service as they were.
pub apply_remote_policy_atomic :
    (answers : LocalAnswers) (p : Policy) (s : PolicyState)
    → (apply_remote_policy answers (some p) s ≡ applied (taken_over p s))
      ⊎ ((e : PolicyError) × (s' : PolicyState) × (apply_remote_policy answers (some p) s
            ≡ failed e s')
          × (s'.stored ≡ s.stored)
          × (s'.local.cloud_force_liveness ≡ s.local.cloud_force_liveness))
unfolding apply_remote_policy
apply_remote_policy_atomic answers p s = elim (apply_timezone_cases answers p.timezone s) [
  | inr refused ↦ inr (timezone_refused, s, rw refused, refl, refl)
  | inl zoned ↦ elim (apply_liveness_cases answers p.force_liveness (with_timezone p.timezone s)) [
    | inr refused ↦
        inr (liveness_refused, with_timezone p.timezone s, rw (zoned, refused), refl, refl)
    | inl forced ↦ inl (rw (zoned, forced))
  ]
]

-- After a restart the local service has the stored liveness requirement if the device is paired,
-- and none otherwise, or it refused and nothing has changed.
pub restore_cached_policy_effect :
    (answers : LocalAnswers) (paired : Bool) (s : PolicyState)
    → (restore_cached_policy answers paired s
        ≡ applied (record s {
          local = record s.local {
            cloud_force_liveness = paired && is_true s.stored.force_liveness;
          };
        }))
      ⊎ (restore_cached_policy answers paired s ≡ failed liveness_refused s)
unfolding restore_cached_policy
restore_cached_policy_effect answers paired s = ground arith

applied_same : {a b : PolicyState} → applied a ≡ applied b → a ≡ b
applied_same h = cc

failed_not : {a b : PolicyState} {e : PolicyError} → failed e a ≡ applied b → ⊥
failed_not h = cc

-- A policy that demands or drops liveness and was taken over holds after a restart of a paired
-- device: if the local service takes the requirement that is stored, it is the one of the policy.
pub restart-keeps_liveness :
    (answers : LocalAnswers) (forced : Bool) (p : Policy) (s s' restarted t : PolicyState)
    → p.force_liveness ≡ some forced
    → apply_remote_policy answers (some p) s ≡ applied s'
    → restarted.stored ≡ s'.stored
    → restore_cached_policy answers true restarted ≡ applied t
    → (t.local.cloud_force_liveness ≡ forced) × (t.stored ≡ s'.stored)
restart-keeps_liveness answers forced p s s' restarted t demanded updated same restored =
    elim (apply_remote_policy_atomic answers p s) [
      | inr (e, s'', h, _, _) ↦ absurd (failed_not (sym h ∙ updated))
      | inl h ↦ elim (restore_cached_policy_effect answers true restarted) [
        | inr h' ↦ absurd (failed_not (sym h' ∙ restored))
        | inl h' ↦
            let taken = applied_same (sym h ∙ updated) in
            let stored : s'.stored.force_liveness ≡ some forced =
              sym (ap (λ (x : PolicyState). x.stored.force_liveness) taken)
              ∙ ap (λ (f : Option Bool). keep_or f s.stored.force_liveness) demanded in
            let effect = applied_same (sym h' ∙ restored) in
            (
              sym (ap (λ (x : PolicyState). x.local.cloud_force_liveness) effect)
                  ∙ ap is_true (ap (λ (x : StoredPolicy). x.force_liveness) same ∙ stored),
              sym (ap (λ (x : PolicyState). x.stored) effect) ∙ same,
            )
      ]
    ]
