-- ===== src/BackendProcess/Startup/Tests.antt =====
-- Starts of a service, and the theorems at them.
use facenox.Base.{
  ℕ, ◌+◌, ◌*◌, ◌≤◌, ◌<◌, ◌≡◌, refl, arith, true, false, List, [], ◌∷◌, none, some, ltb,
  if◌then◌else◌,
}
use facenox.BackendProcess.Startup.{
  Round, Outcome, is_ready, has_exited, has_timed_out, round_outcome, wait_for_backend_ready,
  max_hard_ceiling, round_delay, StartupEvent, start_called, stop_called, stop_ended,
  process_exited, start_ended, throws, health_checked, start, startup_events, first_startup,
}
use facenox.BackendProcess.Startup.Laws.{wait_for_backend_ready_ends}
use facenox.BackendProcess.Startup.Promise.{launches-start_running}

-- A service whose last output was at 2000, with a check every 300 ms from 1000 on.
abbrev silent : ℕ → Round
silent i = record {
  now = 1000 + 300 * i;
  exit_code = none;
  is_healthy = false;
  last_startup_activity_time = 2000;
}

abbrev healthy_from : ℕ → ℕ → Round
healthy_from k i = record (silent i) { is_healthy = if ltb i k then false else true }

abbrev exiting_at : ℕ → ℕ → Round
exiting_at k i = record (silent i) { exit_code = if ltb i k then none else some 3 }

silent_times_out : wait_for_backend_ready 60000 1000 210 silent ≡ some has_timed_out
unfolding wait_for_backend_ready
silent_times_out = refl

not_yet : wait_for_backend_ready 60000 1000 200 silent ≡ none
unfolding wait_for_backend_ready
not_yet = refl

becomes_ready : wait_for_backend_ready 60000 1000 210 (healthy_from 12) ≡ some is_ready
unfolding wait_for_backend_ready
becomes_ready = refl

exits : wait_for_backend_ready 60000 1000 210 (exiting_at 7) ≡ some (has_exited 3)
unfolding wait_for_backend_ready
exits = refl

ceiling : max_hard_ceiling 70000 ≡ 140000
unfolding max_hard_ceiling
ceiling = refl

ceiling_reached : max_hard_ceiling 60000 ≤ round_delay * 480
unfolding max_hard_ceiling
ceiling_reached = omega arith

wait_for_backend_ready_ends_example :
    (k : ℕ) × (outcome : Outcome) × (k ≤ 480)
    × (wait_for_backend_ready 60000 1000 481 (healthy_from 12) ≡ some outcome)
    × (round_outcome 60000 1000 (healthy_from 12 k) ≡ some outcome)
    × ((j : ℕ) → j < k → round_outcome 60000 1000 (healthy_from 12 j) ≡ none)
wait_for_backend_ready_ends_example =
    wait_for_backend_ready_ends 60000 1000 480 (healthy_from 12) (omega arith) (λ i. omega arith)
      ceiling_reached

-- The service answers a health check before the program starts it, and goes away later.
abbrev answered_before : List StartupEvent
answered_before = health_checked true ∷ []

abbrev then_gone : List StartupEvent
then_gone = process_exited ∷ start_called ∷ stop_called ∷ stop_ended ∷ start_called ∷ []

usual_launches :
    (startup_events
      (start_called ∷ start_ended (throws is_ready) ∷ process_exited ∷ start_called ∷ [])
      first_startup).launches
    ≡ 2
unfolding startup_events
usual_launches = refl

free : (startup_events answered_before first_startup).startup_promise ≡ false
unfolding startup_events
free = refl

runs : (startup_events answered_before first_startup).is_running ≡ true
unfolding startup_events
runs = refl

launches-start_running_example :
    (startup_events then_gone (start (startup_events answered_before first_startup))).launches
    ≡ (startup_events answered_before first_startup).launches
launches-start_running_example = launches-start_running answered_before then_gone free runs
