-- ===== src/BackendProcess.antt =====
-- app/src/electron/backend/BackendProcessManager.ts: the automatic restart of the local service after
-- a crash. Times are milliseconds.
pub mod Restarts
pub mod Log
pub mod Output
pub mod Startup
pub mod Tests
use facenox.Base.{
  ℕ, ◌+◌, ◌-◌, ◌*◌, ◌^◌, Bool, true, false, not, ◌&&◌, List, [], ◌∷◌, ◌++◌, Option, none, some, ltb,
  leb, ◌==◌, length, keep, if◌then◌else◌,
}

abbrev pub max_crashes_per_window : ℕ
max_crashes_per_window = 5

abbrev pub crash_window : ℕ
crash_window = 60000

-- The fields that decide about a restart.
pub record Process : Type 0 where
  pub is_stopping_manually : Bool
  pub is_running : Bool
  pub crash_timestamps : List ℕ

abbrev pub first_process : Process
first_process = record { is_stopping_manually = false; is_running = false; crash_timestamps = [] }

-- `this.crashTimestamps.filter((t) => now - t < this.CRASH_WINDOW_MS)`, and `push(now)`
unfoldable pub add_crash : ℕ → List ℕ → List ℕ
add_crash now crashes = keep (λ t. ltb (now - t) crash_window) crashes ++ now ∷ []

-- `Math.min(10000, Math.pow(2, n) * 500)`
unfoldable pub restart_delay : ℕ → ℕ
restart_delay n = if ltb (2 ^ n * 500) 10000 then 2 ^ n * 500 else 10000

-- The handler of `exit`; the exit code is `none` after a signal. With the process stands the delay
-- of the restart, if one is set up.
abbrev pub is_zero : Option ℕ → Bool
is_zero none = false
is_zero (some code) = code == 0

abbrev pub crashed : ℕ → Process → Process
crashed now p = record p { is_running = false; crash_timestamps = add_crash now p.crash_timestamps }

unfoldable pub on_exit : ℕ → Option ℕ → Process → Process × Option ℕ
unfolding add_crash restart_delay
on_exit now code p =
    if not p.is_stopping_manually && not (is_zero code)
    then (
      crashed now p,
      if leb (length (crashed now p).crash_timestamps) max_crashes_per_window
          then some (restart_delay (length (crashed now p).crash_timestamps))
          else none,
    )
    else (record p { is_running = false }, none)

-- The test when the delay is over: whether `start` is called.
unfoldable pub starts_again : Process → Bool
starts_again p = not p.is_stopping_manually && not p.is_running

-- What happens to the process: it exits, is started, has become ready, or is stopped.
pub data ProcessEvent : Type 0 where
  exited : ℕ → Option ℕ → ProcessEvent
  started ready stopped : ProcessEvent

unfoldable pub process_event : ProcessEvent → Process → Process
unfolding on_exit
process_event (exited now code) p = (on_exit now code p).0
process_event started p = record p { is_stopping_manually = false }
process_event ready p = record p { is_running = true }
process_event stopped p = record p { is_stopping_manually = true; is_running = false }

abbrev pub time_if_some : ℕ → Option ℕ → List ℕ
time_if_some now none = []
time_if_some now (some delay) = now ∷ []

-- The time at which an event sets up a restart.
unfoldable pub restart_of : ProcessEvent → Process → List ℕ
unfolding on_exit
restart_of (exited now code) p = time_if_some now (on_exit now code p).1
restart_of started p = []
restart_of ready p = []
restart_of stopped p = []

unfoldable pub restarts : List ProcessEvent → Process → List ℕ
unfolding process_event restart_of
restarts [] p = []
restarts (event ∷ events) p = restart_of event p ++ restarts events (process_event event p)
