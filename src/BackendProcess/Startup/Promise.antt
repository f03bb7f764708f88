-- ===== src/BackendProcess/Startup/Promise.antt =====
-- The promise of the start, which stays set after a start of a service that runs.
use facenox.Base.{◌≡◌, ◌∙◌, refl, arith, true, false, List, [], ◌∷◌}
use facenox.BackendProcess.Startup.{
  Startup, first_startup, StartupEvent, start_called, stop_called, stop_ended, process_exited,
  process_failed, timer_run, start_ended, timer_answered, health_checked, begin_start, start,
  settle, check_health, on_health_timer, on_timer_answer, startup_event, startup_events,
}

-- What is being launched holds the promise.
record Held (s : Startup) : Type 0 where
  held : s.is_launching ≡ true → s.startup_promise ≡ true

event-Held : (event : StartupEvent) {s : Startup} → Held s → Held (startup_event event s)
unfolding startup_event start begin_start settle check_health on_health_timer on_timer_answer
event-Held start_called h = ground arith
event-Held stop_called h = ground arith
event-Held process_exited h = ground arith
event-Held process_failed h = ground arith
event-Held (start_ended has_thrown) h = ground arith
event-Held stop_ended h = ground arith
event-Held timer_run h = ground arith
event-Held (timer_answered is_healthy) h = ground arith
event-Held (health_checked is_healthy) h = ground arith

events-Held : (events : List StartupEvent) {s : Startup} → Held s → Held (startup_events events s)
unfolding startup_events
events-Held [] h = h
events-Held (event ∷ events) h = events-Held events (event-Held event h)

-- Nothing is launched, and the promise is set.
record Stuck (s : Startup) : Type 0 where
  promised : s.startup_promise ≡ true
  idle : s.is_launching ≡ false

event-Stuck : (event : StartupEvent) {s : Startup} → Stuck s → Stuck (startup_event event s)
unfolding startup_event start settle check_health on_health_timer on_timer_answer
event-Stuck start_called h = ground arith
event-Stuck stop_called h = ground arith
event-Stuck process_exited h = ground arith
event-Stuck process_failed h = ground arith
event-Stuck (start_ended has_thrown) h = ground arith
event-Stuck stop_ended h = ground arith
event-Stuck timer_run h = ground arith
event-Stuck (timer_answered is_healthy) h = ground arith
event-Stuck (health_checked is_healthy) h = ground arith

launches-event :
    (event : StartupEvent) {s : Startup} → Stuck s → (startup_event event s).launches ≡ s.launches
unfolding startup_event start settle check_health on_health_timer on_timer_answer
launches-event start_called h = ground arith
launches-event stop_called h = refl
launches-event process_exited h = refl
launches-event process_failed h = refl
launches-event (start_ended has_thrown) h = ground arith
launches-event stop_ended h = ground arith
launches-event timer_run h = ground arith
launches-event (timer_answered is_healthy) h = ground arith
launches-event (health_checked is_healthy) h = ground arith

launches-events :
    (events : List StartupEvent) {s : Startup}
    → Stuck s
    → (startup_events events s).launches ≡ s.launches
unfolding startup_events
launches-events [] h = refl
launches-events (event ∷ events) h =
    launches-events events (event-Stuck event h) ∙ launches-event event h

start-Stuck :
    {s : Startup} → Held s → s.startup_promise ≡ false → s.is_running ≡ true → Stuck (start s)
unfolding start begin_start
start-Stuck h free running = ground arith

launches-start :
    (s : Startup)
    → s.startup_promise ≡ false
    → s.is_running ≡ true
    → (start s).launches ≡ s.launches
unfolding start begin_start
launches-start s free running = ground arith

-- From the first state on, once `start` has been called for a service that is marked as running
-- while no promise was set, no process is launched any more, whatever happens then.
pub launches-start_running :
    (before after : List StartupEvent)
    → (startup_events before first_startup).startup_promise ≡ false
    → (startup_events before first_startup).is_running ≡ true
    → (startup_events after (start (startup_events before first_startup))).launches
      ≡ (startup_events before first_startup).launches
launches-start_running before after free running =
    let reached = events-Held before {s = first_startup} (record { held = cc }) in
    launches-events after (start-Stuck reached free running)
    ∙ launches-start (startup_events before first_startup) free running
