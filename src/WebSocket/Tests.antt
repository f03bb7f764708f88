-- ===== src/WebSocket/Tests.antt =====
-- Runs of the service, and the theorem at one of them.
use facenox.Base.{◌≡◌, refl, true, false, List, [], ◌∷◌, some}
use facenox.WebSocket.{
  first_service, ConfigUpdate, missing, given, connected, disconnected, failed, pending, opened,
  is_web_socket_ready, connection, detection_response,
}
use facenox.WebSocket.Events.{
  Event, connects, disconnects, updates, creates, opens, times_out, closes, receives, has_faces,
  handle, handle_all, connect_web_socket, create_socket, on_open, on_timeout, on_close, on_message,
  disconnect, update_live_config, emit_pending, emit_live_config,
}
use facenox.WebSocket.Config.{InSync, handle_all-InSync}

abbrev group : ConfigUpdate
group = record {
  enable_liveness_detection = missing;
  group_id = given (some "g1");
  max_recognition_faces_per_frame = missing;
  device_id = missing;
}

abbrev liveness : ConfigUpdate
liveness = record group { group_id = missing; enable_liveness_detection = given true }

abbrev run : List Event
run = updates group ∷ connects ∷ creates 0 ∷ opens 0 ∷ updates liveness ∷ receives 0 has_faces ∷ []

is_ready : is_web_socket_ready (handle_all run first_service) ≡ true
unfolding handle_all handle connect_web_socket create_socket on_open on_message update_live_config
    emit_pending emit_live_config is_web_socket_ready
is_ready = refl

what_is_delivered :
    (handle_all run first_service).notices ≡ detection_response ∷ connection connected ∷ []
unfolding handle_all handle connect_web_socket create_socket on_open on_message update_live_config
    emit_pending emit_live_config is_web_socket_ready
what_is_delivered = refl

-- The timer of an attempt that was given up takes the newer connection for failed.
abbrev late_timer : List Event
late_timer = connects ∷ creates 0 ∷ disconnects ∷ connects ∷ creates 1 ∷ opens 1 ∷ times_out 0 ∷ []

late_timer_fails :
    let s = handle_all late_timer first_service in
    (s.ws_status ≡ failed) × (s.ws ≡ some 1) × (s.ready_state 1 ≡ opened)
unfolding handle_all handle connect_web_socket create_socket on_open on_timeout disconnect
    emit_pending is_web_socket_ready
late_timer_fails = (refl, refl, refl)

-- The promise of an attempt whose status an older socket has changed is never settled.
abbrev late_close : List Event
late_close = connects ∷ creates 0 ∷ times_out 0 ∷ connects ∷ closes 0 ∷ creates 1 ∷ closes 1 ∷ []

late_close_hangs :
    let s = handle_all late_close first_service in
    (s.settled 1 ≡ pending) × (s.timer 1 ≡ false) × (s.ws_status ≡ disconnected)
unfolding handle_all handle connect_web_socket create_socket on_timeout on_close
late_close_hangs = (refl, refl, refl)

handle_all-InSync_example : InSync (handle_all run first_service)
handle_all-InSync_example = handle_all-InSync run
