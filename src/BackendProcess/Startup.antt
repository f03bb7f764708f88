-- ===== src/BackendProcess/Startup.antt =====
-- app/src/electron/backend/BackendProcessManager.ts: the start of the local service, with the wait
-- until it answers. Times are milliseconds. What a round of the wait reads is given: the clock, the
-- exit code of the process, the answer of the health check and the time of the last output. A test
-- `a - b >= c` of the code stands as `b + c ≤ a`, which is the same also where `a` is below `b`.
-- The search for processes and the texts of the errors are left out.
pub mod Laws
pub mod Promise
pub mod Tests
use facenox.Base.{
  ℕ, zero, suc, ◌+◌, ◌-◌, ◌*◌, Bool, true, false, not, ◌&&◌, ◌||◌, List, [], ◌∷◌, Option, none,
  some, ltb, leb, ◌==◌, if◌then◌else◌,
}

abbrev pub inactivity_timeout : ℕ
inactivity_timeout = 30000

-- `sleep(250)`
abbrev pub round_delay : ℕ
round_delay = 250

-- `Math.max(safetyTimeout * 2, 120000)`
unfoldable pub max_hard_ceiling : ℕ → ℕ
max_hard_ceiling timeout = if ltb (timeout * 2) 120000 then 120000 else timeout * 2

pub record Round : Type 0 where
  pub now : ℕ
  pub exit_code : Option ℕ
  pub is_healthy : Bool
  pub last_startup_activity_time : ℕ

-- How a wait ends: it returns, or throws one of its two errors.
pub data Outcome : Type 0 where
  is_ready : Outcome
  has_exited : ℕ → Outcome
  has_timed_out : Outcome

module _ (timeout start_time : ℕ) where
  unfoldable pub is_overdue : Round → Bool
  unfolding max_hard_ceiling
  is_overdue r =
      leb (start_time + timeout) r.now
        && leb (r.last_startup_activity_time + inactivity_timeout) r.now
      || leb (start_time + max_hard_ceiling timeout) r.now

  -- A round of the loop; `none` where it sleeps and goes on.
  abbrev pub unless_exited : Option ℕ → Round → Option Outcome
  unless_exited (some code) r = some (has_exited code)
  unless_exited none r =
      if r.is_healthy then some is_ready else if is_overdue r then some has_timed_out else none

  unfoldable pub round_outcome : Round → Option Outcome
  unfolding is_overdue
  round_outcome r = unless_exited r.exit_code r

  -- The loop over the rounds to come; `none` means that the fuel ran out.
  unfoldable pub wait_for_backend_ready : ℕ → (ℕ → Round) → Option Outcome
  unfolding round_outcome
  wait_for_backend_ready zero rounds = none
  wait_for_backend_ready (suc fuel) rounds =
      let rest = wait_for_backend_ready fuel (λ i. rounds (suc i)) in
      elim (round_outcome (rounds 0)) [ some outcome ↦ some outcome | none ↦ rest ]

-- `startup_promise` says whether the field is set, `is_launching` whether a `_start` that has passed
-- its first test has not ended, `error` whether the status holds an error. The processes that have
-- been launched are counted, and the health checks of the timer that are on their way.
pub record Startup : Type 0 where
  pub startup_promise : Bool
  pub is_launching : Bool
  pub is_running : Bool
  pub is_stopping_manually : Bool
  pub error : Bool
  pub launches : ℕ
  pub checks : ℕ

abbrev pub first_startup : Startup
first_startup = record {
  startup_promise = false;
  is_launching = false;
  is_running = false;
  is_stopping_manually = false;
  error = false;
  launches = 0;
  checks = 0;
}

-- `_start` to its first `await`. The return for a running service stands before the `try`.
unfoldable pub begin_start : Startup → Startup
begin_start s =
    if s.is_running
    then record s { is_stopping_manually = false }
    else record s { is_stopping_manually = false; is_launching = true; launches = suc s.launches }

unfoldable pub start : Startup → Startup
unfolding begin_start
start s = if s.startup_promise then s else record (begin_start s) { startup_promise = true }

-- The end of `_start` with its `catch` and its `finally`. It throws where it fails before the wait,
-- or where the wait throws.
abbrev pub throws : Outcome → Bool
throws is_ready = false
throws (has_exited code) = true
throws has_timed_out = true

unfoldable pub settle : Bool → Startup → Startup
settle has_thrown s =
    if s.is_launching
    then record s {
      is_running = if has_thrown then s.is_running else true;
      error = has_thrown;
      startup_promise = false;
      is_launching = false;
    }
    else s

-- What happens: `start`, the end of `_start`, `stop` up to its first `await` and its end, the exit
-- and an error of the process, a run of the timer's callback and the end of its health check, and
-- the end of `checkHealth`. They come in any order; the timer may run at any time.
pub data StartupEvent : Type 0 where
  start_called stop_called stop_ended process_exited process_failed timer_run : StartupEvent
  start_ended timer_answered health_checked : Bool → StartupEvent

unfoldable pub check_health : Bool → Startup → Startup
check_health is_healthy s = if is_healthy then record s { is_running = true; error = false } else s

-- The callback up to its `await`, and what follows it.
unfoldable pub on_health_timer : Startup → Startup
on_health_timer s = if s.is_stopping_manually then s else record s { checks = suc s.checks }

unfoldable pub on_timer_answer : Bool → Startup → Startup
on_timer_answer is_healthy s =
    if s.checks == 0
    then s
    else if is_healthy
    then record s { checks = s.checks - 1; is_running = true; error = false }
    else record s { checks = s.checks - 1; is_running = false }

unfoldable pub startup_event : StartupEvent → Startup → Startup
unfolding start settle check_health on_health_timer on_timer_answer
startup_event start_called s = start s
startup_event stop_called s = record s { is_stopping_manually = true }
startup_event stop_ended s = record s { is_running = false }
startup_event process_exited s = record s { is_running = false }
startup_event process_failed s = record s { is_running = false; error = true }
startup_event (start_ended has_thrown) s = settle has_thrown s
startup_event timer_run s = on_health_timer s
startup_event (timer_answered is_healthy) s = on_timer_answer is_healthy s
startup_event (health_checked is_healthy) s = check_health is_healthy s

unfoldable pub startup_events : List StartupEvent → Startup → Startup
unfolding startup_event
startup_events [] s = s
startup_events (event ∷ events) s = startup_events events (startup_event event s)
