-- ===== src/AutoExport/Schedule.antt =====
-- app/src/electron/managers/AutoExportManager.ts: how often the timer's checks bring a report to its
-- end.
use facenox.Base.{
  ℕ, suc, ◌≡◌, refl, ap, ◌∙◌, Bool, true, false, not, ◌&&◌, List, [], ◌∷◌, none, some, String, ◌≤◌,
  ◌⊎◌, inl, inr, length, All, arith, if◌then◌else◌, if_elim,
}
use facenox.Base.Keys.{===_refl, string_eq, ◌===◌}
use facenox.Base.Text.{Text}
use facenox.AutoExport.{
  Manager, Updates, Event, checked, triggered, ended, updated, Outcome, no_groups, written, failed,
  text_geb, is_success, config_of, get_config, update_config, merge_config, happen, succeeded,
  exports, check, begin_export, end_export, is_due, date_to_export,
}

-- A check on this day, the end of a run, or a change of the settings that leaves the date of the
-- last report alone.
abbrev pub OnDay : String → Event → Type 0
OnDay day (checked today current_time) = today ≡ day
OnDay day (triggered target today) = ⊥
OnDay day (ended outcome) = Unit {0}
OnDay day (updated u) = u.last_exported_date ≡ none

and_false : (b : Bool) → (b && false) ≡ false
and_false true = refl
and_false false = refl

suc_bound : {n : ℕ} → n ≤ 0 → suc n ≤ 1
suc_bound h = omega arith

module _ (dir : String) (day : String) where
  abbrev Idle : Manager → Type 0
  Idle m = (m.is_exporting ≡ false) × (m.running ≡ none)

  abbrev Busy : Manager → Type 0
  Busy m = (m.is_exporting ≡ true) × (m.running ≡ some day)

  abbrev Finished : Manager → Type 0
  Finished m = Idle m × ((get_config dir m).last_exported_date ≡ some day)

  date_to_export-same : date_to_export (some day) day ≡ day
  date_to_export-same = if_elim (λ (d : String). d ≡ day) (day === "") (λ _. refl) (λ _. refl)

  begin_export-Idle : (m : Manager) → Idle m → Busy (begin_export (some day) day m)
  unfolding begin_export
  begin_export-Idle m (e, r) = rw (e) (refl, ap some date_to_export-same)

  check-Idle :
      (t : Text) (m : Manager) → Idle m → Idle (check dir day t m) ⊎ Busy (check dir day t m)
  unfolding check
  check-Idle t m h =
      let P : Manager → Type 0 = λ n. Idle n ⊎ Busy n in
      if_elim P (not (get_config dir m).enabled) (λ _. inl h)
        (λ _.
          if_elim P m.is_exporting (λ _. inl h)
            (λ _. if_elim P (is_due dir day t m) (λ _. inr (begin_export-Idle m h)) (λ _. inl h)))

  check-Busy : (t : Text) (m : Manager) → Busy m → check dir day t m ≡ m
  unfolding check
  check-Busy t m (e, r) =
      if_elim (λ (n : Manager). n ≡ m) (not (get_config dir m).enabled) (λ _. refl) (λ _. rw e refl)

  is_due-Finished : (t : Text) (m : Manager) → Finished m → is_due dir day t m ≡ false
  unfolding is_due
  is_due-Finished t m (h, l) = rw (l, ===_refl day) (and_false (text_geb t (get_config dir m).time))

  check-Finished : (t : Text) (m : Manager) → Finished m → check dir day t m ≡ m
  unfolding check
  check-Finished t m h =
      let P : Manager → Type 0 = λ n. n ≡ m in
      if_elim P (not (get_config dir m).enabled) (λ _. refl)
        (λ _. if_elim P m.is_exporting (λ _. refl) (λ _. rw (is_due-Finished t m h) refl))

  update_config-last :
      (u : Updates) (m : Manager)
      → u.last_exported_date ≡ none
      → (get_config dir (update_config dir u m)).last_exported_date
        ≡ (get_config dir m).last_exported_date
  unfolding update_config merge_config get_config config_of
  update_config-last u m h = rw h refl

  update_config-Idle : (u : Updates) (m : Manager) → Idle m → Idle (update_config dir u m)
  unfolding update_config
  update_config-Idle u m h = h

  update_config-Busy : (u : Updates) (m : Manager) → Busy m → Busy (update_config dir u m)
  unfolding update_config
  update_config-Busy u m h = h

  end_export-Idle : (o : Outcome) (m : Manager) → Idle m → end_export dir o m ≡ m
  unfolding end_export
  end_export-Idle o m (e, r) = rw r refl

  end_export-Busy :
      (o : Outcome) (m : Manager)
      → Busy m
      → ((is_success o ≡ true) × Finished (end_export dir o m))
        ⊎ ((is_success o ≡ false) × Idle (end_export dir o m))
  unfolding end_export update_config merge_config get_config config_of
  end_export-Busy no_groups m (e, r) = rw r (inl (refl, ((refl, refl), refl)))
  end_export-Busy written m (e, r) = rw r (inl (refl, ((refl, refl), refl)))
  end_export-Busy failed m (e, r) = rw r (inr (refl, (refl, refl)))

  succeeded-Idle : (o : Outcome) (m : Manager) → Idle m → succeeded (ended o) m ≡ []
  unfolding succeeded
  succeeded-Idle o m (e, r) = rw r refl

  succeeded-Busy :
      (o : Outcome) (m : Manager)
      → Busy m
      → succeeded (ended o) m ≡ (if is_success o then day ∷ [] else [])
  unfolding succeeded
  succeeded-Busy o m (e, r) = rw r refl

  abbrev Bounded : List Event → Type 0
  Bounded events =
      (m : Manager)
      → (Finished m → length (exports dir events m) ≤ 0)
        × (Idle m → length (exports dir events m) ≤ 1)
        × (Busy m → length (exports dir events m) ≤ 1)

  exports-Bounded : (events : List Event) → All (OnDay day) events → Bounded events
  unfolding exports happen succeeded
  exports-Bounded [] h m = (λ _. omega arith, λ _. omega arith, λ _. omega arith)
  exports-Bounded (checked today t ∷ events) (e, h) m = rw e (
    (λ k. rw (check-Finished t m k) ((exports-Bounded events h m).0 k)),
    (λ k. elim (check-Idle t m k) [
      | inl idle ↦ (exports-Bounded events h (check dir day t m)).1 idle
      | inr busy ↦ (exports-Bounded events h (check dir day t m)).2 busy
    ]),
    (λ k. rw (check-Busy t m k) ((exports-Bounded events h m).2 k)),
  )
  exports-Bounded (triggered target today ∷ events) (e, h) m = absurd e
  exports-Bounded (updated u ∷ events) (e, h) m =
      let (f, i, b) = exports-Bounded events h (update_config dir u m) in
      (
        λ k. f (update_config-Idle u m k.0, update_config-last u m e ∙ k.1),
        λ k. i (update_config-Idle u m k),
        λ k. b (update_config-Busy u m k),
      )
  exports-Bounded (ended o ∷ events) (e, h) m =
      let next = exports-Bounded events h (end_export dir o m) in
      let here = exports-Bounded events h m in
      (
        (λ k. rw (succeeded-Idle o m k.0, end_export-Idle o m k.0) (here.0 k)),
        (λ k. rw (succeeded-Idle o m k, end_export-Idle o m k) (here.1 k)),
        (λ k. elim (end_export-Busy o m k) [
          | inl (s, done) ↦ rw (succeeded-Busy o m k, s) (suc_bound (next.0 done))
          | inr (s, idle) ↦ rw (succeeded-Busy o m k, s) (next.1 idle)
        ]),
      )

-- From a state without a run in progress, the checks of one day bring at most one report to its
-- end with success, at whatever times they come, however the runs end and whatever settings change
-- in between, as long as nothing but a run writes the date of the last report and nobody asks for
-- a report by hand.
pub exports-once :
    (default_directory day : String) (events : List Event) (m : Manager)
    → m.is_exporting ≡ false
    → m.running ≡ none
    → All (OnDay day) events
    → length (exports default_directory events m) ≤ 1
exports-once dir day events m e r h = (exports-Bounded dir day events h m).1 (e, r)
