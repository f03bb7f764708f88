-- ===== src/CloudState/Tests.antt =====
-- Two refreshes of which the first is answered late, and the theorems at them.
use facenox.Base.{ℕ, ◌≡◌, refl, true, false, List, [], ◌∷◌, Option, none, some}
use facenox.CloudState.{
  SyncConfig, CloudState, ready, initial_snapshot, config_read, answer_refresh, answer_counts,
  Event, refreshes, config_answers, happen_all, merge_counts,
}
use facenox.CloudState.Laws.{happen_all-stale}

abbrev config : Option ℕ → SyncConfig
config count = record {
  connected = true;
  organization_id = some "o";
  site_id = some "s";
  device_id = some "d";
  last_synced_at = none;
  credential_error = false;
  unsynced_records_count = count;
  unsynced_sessions_count = none;
}

abbrev empty : CloudState
empty = record {
  snapshot = initial_snapshot;
  bridge = none;
  subscribed = false;
  revision = 1;
  listeners = 1;
}

abbrev events : List Event
events = refreshes (some 3) ∷ config_answers 3 2 (config_read (config (some 5))) ∷ []

answered : (happen_all events empty).snapshot.status ≡ ready
unfolding happen_all
answered = refl

happen_all-stale_example :
    (answer_refresh 3 1 (config_read (config none)) (happen_all events empty)
      ≡ happen_all events empty)
    × (answer_counts 3 1 (config_read (config none)) (happen_all events empty)
        ≡ happen_all events empty)
happen_all-stale_example = happen_all-stale events empty 3 (config_read (config none)) refl

kept : (merge_counts (some (config (some 5))) (config none)).unsynced_records_count ≡ some 5
unfolding merge_counts
kept = refl
