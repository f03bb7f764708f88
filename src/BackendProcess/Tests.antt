-- ===== src/BackendProcess/Tests.antt =====
-- A service that keeps crashing, and the theorem at it.
use facenox.Base.{ℕ, ◌≡◌, ◌≤◌, refl, arith, List, [], ◌∷◌, none, some}
use facenox.BackendProcess.{
  first_process, max_crashes_per_window, restart_delay, exited, started, ready, stopped,
  ProcessEvent, restarts,
}
use facenox.BackendProcess.Restarts.{within, within-restarts}

abbrev crash_at : ℕ → ProcessEvent
crash_at now = exited now (some 1)

-- Six crashes within a minute, a clean exit, a stop, and a crash a minute later.
abbrev crashes : List ProcessEvent
crashes =
    crash_at 1000
    ∷ started
    ∷ ready
    ∷ crash_at 4000
    ∷ started
    ∷ crash_at 9000
    ∷ crash_at 18000
    ∷ crash_at 29000
    ∷ crash_at 40000
    ∷ exited 50000 (some 0)
    ∷ crash_at 95000
    ∷ stopped
    ∷ exited 96000 none
    ∷ []

six_crashes : restarts crashes first_process ≡ 1000 ∷ 4000 ∷ 9000 ∷ 18000 ∷ 29000 ∷ 95000 ∷ []
unfolding restarts
six_crashes = refl

delays : restart_delay 1 ≡ 1000
unfolding restart_delay
delays = refl

longest_delay : restart_delay 5 ≡ 10000
unfolding restart_delay
longest_delay = refl

within-restarts_example : within 1000 (restarts crashes first_process) ≤ max_crashes_per_window
within-restarts_example = within-restarts crashes first_process 1000 refl (
  omega arith,
  (
    omega arith,
    (
      omega arith,
      (omega arith, (omega arith, (omega arith, (omega arith, (omega arith, (omega arith, tt)))))),
    ),
  ),
)
