-- ===== src/WebSocket/Events.antt =====
-- app/src/services/WebSocketService.ts: the calls of the service and the events of its sockets and
-- timers. An event that the browser cannot raise in a state leaves it as it is.
use facenox.Base.{
  ℕ, ◌+◌, Bool, true, false, not, ◌&&◌, ◌||◌, List, [], ◌∷◌, Option, none, some, String, put, ltb,
  if◌then◌else◌,
}
use facenox.WebSocket.{
  Service, ReadyState, disconnected, connecting, connected, failed, opening, opened, closing,
  closed, resolved, rejected, LiveConfig, ConfigUpdate, Notice, connection, transport_error, typed,
  detection_response, is_connected, is_connecting, is_disconnected, is_opened, is_opening,
  is_absent, is_pending, is_some, is_current, is_web_socket_ready, merged, or_empty,
}

abbrev pub notify : Notice → Service → Service
notify notice s = record s { notices = notice ∷ s.notices }

-- `settled = true`, `clearTimeout`, `connectPromise = null`
abbrev pub settle_once : Bool → ℕ → Service → Service
settle_once is_resolved a s =
    if is_pending (s.settled a)
    then record s {
      settled = put a (if is_resolved then resolved else rejected) s.settled;
      timer = put a false s.timer;
      connect_promise = none;
    }
    else s

unfoldable pub connect_web_socket : Service → Service
connect_web_socket s =
    if is_connected s.ws_status || is_some s.connect_promise then s else record s {
      ws_status = connecting;
      connect_promise = some s.attempts;
      attempts = s.attempts + 1;
    }

-- An attempt that has been made and has not come to its socket yet.
abbrev pub is_preparing : ℕ → Service → Bool
is_preparing a s = ltb a s.attempts && (is_absent (s.ready_state a) && is_pending (s.settled a))

unfoldable pub create_socket : ℕ → Service → Service
create_socket a s =
    if is_preparing a s
    then record s {
      ws = some a;
      ready_state = put a opening s.ready_state;
      timer = put a true s.timer;
    }
    else s

unfoldable pub fail_preparation : ℕ → Service → Service
fail_preparation a s =
    if is_preparing a s
    then record s { ws_status = failed; connect_promise = none; settled = put a rejected s.settled }
    else s

-- `socket.close()`
abbrev pub after_close : ReadyState → ReadyState
after_close closed = closed
after_close state = closing

unfoldable pub on_timeout : ℕ → Service → Service
on_timeout a s =
    if s.timer a
    then (if is_pending (s.settled a)
        then record s {
          timer = put a false s.timer;
          settled = put a rejected s.settled;
          ws_status = failed;
          connect_promise = none;
          ready_state = put a (after_close (s.ready_state a)) s.ready_state;
        }
        else record s { timer = put a false s.timer })
    else s

abbrev pub sent_to : Option ℕ → LiveConfig → (ℕ → Option LiveConfig) → ℕ → Option LiveConfig
sent_to none config last = last
sent_to (some a) config last = put a (some config) last

unfoldable pub emit_live_config : LiveConfig → Service → Service
unfolding is_web_socket_ready
emit_live_config config s =
    if is_web_socket_ready s
    then record s { last_config = sent_to s.ws config s.last_config }
    else s

unfoldable pub emit_pending : Option LiveConfig → Service → Service
unfolding emit_live_config
emit_pending none s = s
emit_pending (some config) s = emit_live_config config s

-- `onopen` of the current socket.
abbrev pub connection_opened : Service → Service
connection_opened s =
    notify (connection connected) (record s { is_active_instance = true; ws_status = connected })

unfoldable pub on_open : ℕ → Service → Service
unfolding emit_pending
on_open a s =
    let s' = record s { ready_state = put a opened s.ready_state } in
    if is_opening (s.ready_state a)
    then (if is_current a s.ws
        then settle_once true a (emit_pending s.pending_live_config (connection_opened s'))
        else s')
    else s

pub data Frame : Type 0 where
  has_type : String → Frame
  has_faces other unparsable : Frame

abbrev pub deliver : Frame → Service → Service
deliver (has_type topic) s = notify (typed topic) s
deliver has_faces s = notify detection_response s
deliver frame s = s

unfoldable pub on_message : ℕ → Frame → Service → Service
on_message a frame s =
    if is_opened (s.ready_state a) && is_current a s.ws then deliver frame s else s

-- `onclose` of the current socket, without the end of its promise and the notice.
abbrev pub connection_closed : ℕ → Service → Service
connection_closed a s = record s {
  ws_status = disconnected;
  ws = none;
  connect_promise = none;
  timer = put a false s.timer;
}

abbrev pub notify_unless : Bool → Notice → Service → Service
notify_unless quiet notice s = if quiet then s else notify notice s

unfoldable pub on_close : ℕ → Service → Service
on_close a s =
    let s' = record s { ready_state = put a closed s.ready_state } in
    let s'' = connection_closed a s' in
    if is_absent (s.ready_state a)
    then s
    else if is_current a s.ws
    then notify_unless (is_disconnected s.ws_status) (connection disconnected)
        (if is_connecting s.ws_status then settle_once false a s'' else s'')
    else s'

-- `onerror` of the current socket, without the end of its promise.
abbrev pub connection_failed : ℕ → Service → Service
connection_failed a s =
    notify transport_error
      (record s { ws_status = failed; connect_promise = none; timer = put a false s.timer })

unfoldable pub on_error : ℕ → Service → Service
on_error a s =
    if not (is_absent (s.ready_state a)) && is_current a s.ws
    then settle_once false a (connection_failed a s)
    else s

-- The connection is lost, or the other side begins to close it.
unfoldable pub start_closing : ℕ → Service → Service
start_closing a s =
    if is_opened (s.ready_state a)
    then record s { ready_state = put a closing s.ready_state }
    else s

abbrev pub close_current : Option ℕ → Service → Service
close_current none s = s
close_current (some a) s = record s {
  ws_status = disconnected;
  ready_state = put a (after_close (s.ready_state a)) s.ready_state;
  ws = none;
}

unfoldable pub disconnect : Service → Service
disconnect s = close_current s.ws (record s { is_active_instance = false; connect_promise = none })

unfoldable pub update_live_config : ConfigUpdate → Service → Service
unfolding emit_live_config
update_live_config update s =
    let config = merged update (or_empty s.pending_live_config) in
    emit_live_config config (record s { pending_live_config = some config })

unfoldable pub refresh_active_stream : Service → Service
unfolding emit_pending
refresh_active_stream s = emit_pending s.pending_live_config s

pub data Event : Type 0 where
  connects disconnects refreshes : Event
  updates : ConfigUpdate → Event
  creates fails opens times_out loses closes errs : ℕ → Event
  receives : ℕ → Frame → Event

unfoldable pub handle : Event → Service → Service
unfolding connect_web_socket disconnect refresh_active_stream update_live_config create_socket
    fail_preparation on_open on_timeout start_closing on_close on_error on_message
handle connects s = connect_web_socket s
handle disconnects s = disconnect s
handle refreshes s = refresh_active_stream s
handle (updates update) s = update_live_config update s
handle (creates a) s = create_socket a s
handle (fails a) s = fail_preparation a s
handle (opens a) s = on_open a s
handle (times_out a) s = on_timeout a s
handle (loses a) s = start_closing a s
handle (closes a) s = on_close a s
handle (errs a) s = on_error a s
handle (receives a frame) s = on_message a frame s

unfoldable pub handle_all : List Event → Service → Service
handle_all [] s = s
handle_all (event ∷ events) s = handle_all events (handle event s)
