-- ===== src/CloudState/Laws.antt =====
-- Late answers are without effect, and counts stay with their pairing.
use facenox.Base.{
  ℕ, ◌+◌, ◌-◌, ◌≤◌, ◌<◌, ◌≡◌, refl, ◌∙◌, Bool, true, false, List, [], ◌∷◌, Option, none, some,
  arith, ◌==◌, if◌then◌else◌, if_elim, any,
}
use facenox.CloudState.{
  SyncConfig, CloudState, ConfigAnswer, refused, config_read, is_stale, is_bridge, begin_refresh,
  reset_error, attach, answer_refresh, answer_counts, take_config, set_counts, counts_of,
  merge_counts, same_pairing, subscribe, unsubscribe, Event, refreshes, subscribes, unsubscribes,
  config_answers, count_answers, happen, happen_all,
}

reset_error-revision : (s : CloudState) → (reset_error s).revision ≡ s.revision
unfolding reset_error
reset_error-revision s =
    if_elim (λ (t : CloudState). t.revision ≡ s.revision) _ (λ h. refl) (λ h. refl)

begin_refresh-revision :
    (window : Option ℕ) (s : CloudState) → (begin_refresh window s).revision ≡ s.revision + 1
unfolding begin_refresh attach
begin_refresh-revision none s = refl
begin_refresh-revision (some api) s =
    let next = record s { revision = s.revision + 1 } in
    reset_error-revision (attach api next)
    ∙ if_elim (λ (t : CloudState). t.revision ≡ s.revision + 1) (is_bridge next.bridge api)
        (λ h. refl) (λ h. refl)

answer_refresh-revision :
    (api request : ℕ) (answer : ConfigAnswer) (s : CloudState)
    → (answer_refresh api request answer s).revision ≡ s.revision
unfolding answer_refresh take_config
answer_refresh-revision api request refused s =
    if_elim (λ (t : CloudState). t.revision ≡ s.revision) (is_stale api request s) (λ h. refl)
      (λ h. refl)
answer_refresh-revision api request (config_read c) s =
    if_elim (λ (t : CloudState). t.revision ≡ s.revision) (is_stale api request s) (λ h. refl)
      (λ h.
        if_elim (λ (t : CloudState). t.revision ≡ s.revision) c.credential_error (λ h. refl)
          (λ h. refl))

set_counts-revision :
    (counts : Option ℕ × Option ℕ) (config : Option SyncConfig) (s : CloudState)
    → (set_counts counts config s).revision ≡ s.revision
unfolding set_counts
set_counts-revision counts none s = refl
set_counts-revision (records, sessions) (some c) s = refl

answer_counts-revision :
    (api request : ℕ) (answer : ConfigAnswer) (s : CloudState)
    → (answer_counts api request answer s).revision ≡ s.revision
unfolding answer_counts
answer_counts-revision api request answer s =
    if_elim (λ (t : CloudState). t.revision ≡ s.revision) (is_stale api request s) (λ h. refl)
      (λ h. set_counts-revision (counts_of answer) s.snapshot.config s)

abbrev pub is_refresh : Event → Bool
is_refresh (refreshes window) = true
is_refresh _ = false

happen-revision :
    (event : Event) (s : CloudState)
    → s.revision + (if is_refresh event then 1 else 0) ≤ (happen event s).revision
unfolding happen subscribe unsubscribe
happen-revision (refreshes window) s = omega (arith, begin_refresh-revision window s)
happen-revision (subscribes window) s =
    if_elim (λ (t : CloudState). s.revision + 0 ≤ t.revision) (s.listeners == 0)
      (λ first. omega (arith, begin_refresh-revision window _)) (λ later. omega arith)
happen-revision unsubscribes s =
    if_elim (λ (t : CloudState). s.revision + 0 ≤ t.revision) (s.listeners - 1 == 0)
      (λ last. omega arith) (λ others. omega arith)
happen-revision (config_answers api request answer) s =
    omega (arith, answer_refresh-revision api request answer s)
happen-revision (count_answers api request answer) s =
    omega (arith, answer_counts-revision api request answer s)

happen_all-revision :
    (events : List Event) (s : CloudState)
    → s.revision + (if any is_refresh events then 1 else 0) ≤ (happen_all events s).revision
unfolding happen_all
happen_all-revision [] s = omega arith
happen_all-revision (event ∷ events) s =
    ground (arith, happen-revision event s, happen_all-revision events (happen event s))

answered-stale :
    (api request : ℕ) (answer : ConfigAnswer) (s : CloudState)
    → request < s.revision
    → (answer_refresh api request answer s ≡ s) × (answer_counts api request answer s ≡ s)
unfolding answer_refresh answer_counts
answered-stale api request refused s h = (
  if_elim (λ (t : CloudState). t ≡ s) (is_stale api request s) (λ stale. refl)
      (λ current. absurd (ground arith)),
  if_elim (λ (t : CloudState). t ≡ s) (is_stale api request s) (λ stale. refl)
      (λ current. absurd (ground arith)),
)
answered-stale api request (config_read c) s h = (
  if_elim (λ (t : CloudState). t ≡ s) (is_stale api request s) (λ stale. refl)
      (λ current. absurd (ground arith)),
  if_elim (λ (t : CloudState). t ≡ s) (is_stale api request s) (λ stale. refl)
      (λ current. absurd (ground arith)),
)

-- Once another refresh has begun, whatever else has happened in between, an answer to the request
-- that was the last one before has no effect, and neither have the counts that it asked for.
pub happen_all-stale :
    (events : List Event) (s : CloudState) (api : ℕ) (answer : ConfigAnswer)
    → any is_refresh events ≡ true
    → (answer_refresh api s.revision answer (happen_all events s) ≡ happen_all events s)
      × (answer_counts api s.revision answer (happen_all events s) ≡ happen_all events s)
happen_all-stale events s api answer refreshed =
    answered-stale api s.revision answer (happen_all events s)
      (ground (arith, happen_all-revision events s))

-- A count that a new configuration does not have is taken from the old one only if both belong to the
-- same pairing at the same time of synchronisation.
pub merge_counts-pairing :
    (old : Option SyncConfig) (new : SyncConfig) (n : ℕ)
    → new.unsynced_records_count ≡ none
    → (merge_counts old new).unsynced_records_count ≡ some n
    → (c : SyncConfig) × (old ≡ some c)
      × (same_pairing c new ≡ true)
      × (c.unsynced_records_count ≡ some n)
unfolding merge_counts
merge_counts-pairing none new n missing h = absurd cc
merge_counts-pairing (some c) new n missing h = (c, refl, ground arith, ground arith)
