-- ===== src/Sync/Policy.antt =====
-- app/src/electron/managers/BackgroundSyncManager.ts: `applyRemotePolicy`, `persistLivenessRequirement`
-- and `restoreCachedPolicy`. A field of the policy is `some` when the `typeof` test of the source
-- holds for it. The local service is seen through the answers to the two PUT requests, and its
-- settings through what those requests leave in it.
pub mod Laws
pub mod Tests
use facenox.Base.{ℕ, Bool, true, false, ◌&&◌, Option, none, some, String, if◌then◌else◌}

pub record Policy : Type 0 where
  pub timezone : Option String
  pub force_liveness : Option Bool
  pub track_checkout : Option Bool
  pub late_threshold_enabled : Option Bool
  pub late_threshold_minutes : Option ℕ
  pub attendance_cooldown_seconds : Option ℕ
  pub min_checkout_delay_minutes : Option ℕ
  pub data_retention_days : Option ℕ
  pub allow_kiosk_directory_management : Option Bool

-- The keys `sync.policy.*` of the persistent store.
pub record StoredPolicy : Type 0 where
  pub force_liveness : Option Bool
  pub track_checkout : Option Bool
  pub late_threshold_enabled : Option Bool
  pub late_threshold_minutes : Option ℕ
  pub attendance_cooldown_seconds : Option ℕ
  pub min_checkout_delay_minutes : Option ℕ
  pub data_retention_days : Option ℕ
  pub allow_kiosk_directory_management : Option Bool

-- What the local service holds: its attendance timezone and the Cloud's liveness requirement.
pub record LocalSettings : Type 0 where
  pub attendance_timezone : Option String
  pub cloud_force_liveness : Bool

pub record PolicyState : Type 0 where
  pub stored : StoredPolicy
  pub local : LocalSettings

-- `response.ok` of the two requests to the local service.
pub record LocalAnswers : Type 0 where
  pub timezone_ok : Bool
  pub liveness_ok : Bool

pub data PolicyError : Type 0 where
  timezone_refused liveness_refused : PolicyError

pub data Applied : Type 0 where
  applied : PolicyState → Applied
  failed : PolicyError → PolicyState → Applied

infixl 5 ◌>>=◌
abbrev pub ◌>>=◌ : Applied → (PolicyState → Applied) → Applied
applied s >>= k = k s
failed e s >>= k = failed e s

-- `persistentStore.set` under the `typeof` test: an absent field keeps the stored value.
abbrev pub keep_or {ℓ} : {A : Type ℓ} → Option A → Option A → Option A
keep_or none old = old
keep_or (some new) old = some new

persist_liveness_requirement : LocalAnswers → Bool → PolicyState → Applied
persist_liveness_requirement answers forced s =
    if answers.liveness_ok
    then applied (record s { local = record s.local { cloud_force_liveness = forced } })
    else failed liveness_refused s

apply_timezone : LocalAnswers → Option String → PolicyState → Applied
apply_timezone answers none s = applied s
apply_timezone answers (some zone) s =
    if answers.timezone_ok
    then applied (record s { local = record s.local { attendance_timezone = some zone } })
    else failed timezone_refused s

apply_liveness : LocalAnswers → Option Bool → PolicyState → Applied
unfolding persist_liveness_requirement
apply_liveness answers none s = applied s
apply_liveness answers (some forced) s = do
  s' ← persist_liveness_requirement answers forced s
  applied (record s' { stored = record s'.stored { force_liveness = some forced } })

store_fields : Policy → StoredPolicy → StoredPolicy
store_fields p old = record {
  force_liveness = old.force_liveness;
  track_checkout = keep_or p.track_checkout old.track_checkout;
  late_threshold_enabled = keep_or p.late_threshold_enabled old.late_threshold_enabled;
  late_threshold_minutes = keep_or p.late_threshold_minutes old.late_threshold_minutes;
  attendance_cooldown_seconds =
      keep_or p.attendance_cooldown_seconds old.attendance_cooldown_seconds;
  min_checkout_delay_minutes = keep_or p.min_checkout_delay_minutes old.min_checkout_delay_minutes;
  data_retention_days = keep_or p.data_retention_days old.data_retention_days;
  allow_kiosk_directory_management =
      keep_or p.allow_kiosk_directory_management old.allow_kiosk_directory_management;
}

unfoldable pub apply_remote_policy : LocalAnswers → Option Policy → PolicyState → Applied
unfolding apply_timezone apply_liveness store_fields
apply_remote_policy answers none s = applied s
apply_remote_policy answers (some p) s = do
  s' ← apply_timezone answers p.timezone s
  s'' ← apply_liveness answers p.force_liveness s'
  applied (record s'' { stored = store_fields p s''.stored })

abbrev is_true : Option Bool → Bool
is_true none = false
is_true (some b) = b

-- `paired` is the test of the two ids in the store.
pub restore_cached_policy : LocalAnswers → Bool → PolicyState → Applied
unfolding persist_liveness_requirement
restore_cached_policy answers paired s =
    persist_liveness_requirement answers (paired && is_true s.stored.force_liveness) s
