-- ===== src/CloudState.antt =====
-- app/src/services/cloudSyncState.ts: the snapshot of the Cloud configuration that the views share,
-- with the requests that refresh it and may be answered late.
--
-- A bridge (`window.electronAPI.sync`) is known by a number, and the answers of `getConfig` are
-- arguments. An `async` function is split at its `await`: `begin_refresh` is the part before it, and
-- `answer_refresh` and `answer_counts` are those behind it. Error texts are left out.
pub mod Laws
mod Tests
use facenox.Base.{
  ℕ, ◌+◌, ◌-◌, Bool, true, false, not, ◌&&◌, ◌||◌, List, [], ◌∷◌, Option, none, some, String, ◌==◌,
  if◌then◌else◌,
}
use facenox.Base.Keys.{◌===◌, string_eq}

pub record SyncConfig : Type 0 where
  pub connected : Bool
  pub organization_id : Option String
  pub site_id : Option String
  pub device_id : Option String
  pub last_synced_at : Option String
  pub credential_error : Bool
  pub unsynced_records_count : Option ℕ
  pub unsynced_sessions_count : Option ℕ

pub data CloudConfigStatus : Type 0 where
  loading ready error : CloudConfigStatus

pub record Snapshot : Type 0 where
  pub config : Option SyncConfig
  pub status : CloudConfigStatus

abbrev pub initial_snapshot : Snapshot
initial_snapshot = record { config = none; status = loading }

-- The variables of the module; `subscribed` says whether `unsubscribe` is set.
pub record CloudState : Type 0 where
  pub snapshot : Snapshot
  pub bridge : Option ℕ
  pub subscribed : Bool
  pub revision : ℕ
  pub listeners : ℕ

-- `await api.getConfig(…)`
pub data ConfigAnswer : Type 0 where
  refused : ConfigAnswer
  config_read : SyncConfig → ConfigAnswer

abbrev pub is_bridge : Option ℕ → ℕ → Bool
is_bridge none api = false
is_bridge (some other) api = other == api

-- `bridge !== api || revision !== request`
abbrev pub is_stale : ℕ → ℕ → CloudState → Bool
is_stale api request s = not (is_bridge s.bridge api) || not (s.revision == request)

abbrev is_error : CloudConfigStatus → Bool
is_error error = true
is_error _ = false

reset_error : CloudState → CloudState
reset_error s =
    if is_error s.snapshot.status
    then record s { snapshot = record s.snapshot { status = loading } }
    else s

attach : ℕ → CloudState → CloudState
attach api s =
    if is_bridge s.bridge api
    then s
    else record s { bridge = some api; snapshot = initial_snapshot; subscribed = true }

-- `refreshCloudSyncConfig` up to its `await`, with the bridge of the window.
pub begin_refresh : Option ℕ → CloudState → CloudState
unfolding attach reset_error
begin_refresh none s = record s {
  revision = s.revision + 1;
  subscribed = false;
  bridge = none;
  snapshot = record s.snapshot { status = error };
}
begin_refresh (some api) s = reset_error (attach api (record s { revision = s.revision + 1 }))

abbrev pub same_text : Option String → Option String → Bool
same_text none none = true
same_text (some a) (some b) = a === b
same_text _ _ = false

abbrev pub same_bool : Bool → Bool → Bool
same_bool true b = b
same_bool false b = not b

-- `sameSnapshot`, for a previous configuration.
pub same_pairing : SyncConfig → SyncConfig → Bool
same_pairing old new =
    same_bool old.connected new.connected
    && (same_text old.organization_id new.organization_id
        && (same_text old.site_id new.site_id
            && (same_text old.device_id new.device_id
                && same_text old.last_synced_at new.last_synced_at)))

abbrev pub first_count : Option ℕ → Option ℕ → Option ℕ
first_count none old = old
first_count (some new) old = some new

pub merge_counts : Option SyncConfig → SyncConfig → SyncConfig
unfolding same_pairing
merge_counts none new = new
merge_counts (some old) new =
    if same_pairing old new
    then record new {
      unsynced_records_count = first_count new.unsynced_records_count old.unsynced_records_count;
      unsynced_sessions_count = first_count new.unsynced_sessions_count old.unsynced_sessions_count;
    }
    else new

take_config : SyncConfig → CloudState → CloudState
unfolding merge_counts
take_config config s =
    if config.credential_error
    then record s { snapshot = record { config = some config; status = error } }
    else record s {
      snapshot = record { config = some (merge_counts s.snapshot.config config); status = ready };
    }

-- The part behind the `await`.
pub answer_refresh : ℕ → ℕ → ConfigAnswer → CloudState → CloudState
unfolding take_config
answer_refresh api request refused s =
    if is_stale api request s
    then s
    else record s { snapshot = record s.snapshot { status = error } }
answer_refresh api request (config_read config) s =
    if is_stale api request s then s else take_config config s

abbrev counts_of : ConfigAnswer → Option ℕ × Option ℕ
counts_of refused = (none, none)
counts_of (config_read c) = (c.unsynced_records_count, c.unsynced_sessions_count)

set_counts : Option ℕ × Option ℕ → Option SyncConfig → CloudState → CloudState
set_counts counts none s = s
set_counts (records, sessions) (some c) s = record s {
  snapshot = record s.snapshot {
    config =
        some (record c { unsynced_records_count = records; unsynced_sessions_count = sessions });
  };
}

-- `loadCounts` behind its `await`.
pub answer_counts : ℕ → ℕ → ConfigAnswer → CloudState → CloudState
unfolding set_counts
answer_counts api request answer s =
    if is_stale api request s then s else set_counts (counts_of answer) s.snapshot.config s

-- `bridge === window.electronAPI?.sync && bridge`
abbrev is_known : Option ℕ → CloudState → Bool
is_known none s = false
is_known (some api) s = is_bridge s.bridge api

-- `getSnapshot`
pub get_snapshot : Option ℕ → CloudState → Snapshot
get_snapshot (some api) s = if is_bridge s.bridge api then s.snapshot else initial_snapshot
get_snapshot none s = elim s.bridge [ none ↦ s.snapshot | some api ↦ initial_snapshot ]

-- `subscribe`: the first listener subscribes to a bridge that is known, and refreshes.
pub subscribe : Option ℕ → CloudState → CloudState
unfolding begin_refresh
subscribe window s =
    let known = is_known window s in
    let joined = record s { listeners = s.listeners + 1 } in
    if s.listeners == 0
    then begin_refresh window (record joined { subscribed = known || s.subscribed })
    else joined

pub unsubscribe : CloudState → CloudState
unsubscribe s =
    let left = record s { listeners = s.listeners - 1 } in
    if s.listeners - 1 == 0
    then record left { subscribed = false; revision = s.revision + 1 }
    else left

-- What happens to the state, one part of a function at a time.
pub data Event : Type 0 where
  refreshes subscribes : Option ℕ → Event
  unsubscribes : Event
  config_answers count_answers : ℕ → ℕ → ConfigAnswer → Event

pub happen : Event → CloudState → CloudState
unfolding begin_refresh answer_refresh answer_counts subscribe unsubscribe
happen (refreshes window) s = begin_refresh window s
happen (subscribes window) s = subscribe window s
happen unsubscribes s = unsubscribe s
happen (config_answers api request answer) s = answer_refresh api request answer s
happen (count_answers api request answer) s = answer_counts api request answer s

pub happen_all : List Event → CloudState → CloudState
unfolding happen
happen_all [] s = s
happen_all (event ∷ events) s = happen_all events (happen event s)
