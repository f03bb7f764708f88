-- ===== src/WebSocket/Config.antt =====
-- app/src/services/WebSocketService.ts: the detector that is ready knows the settings of the live
-- view.
use facenox.Base.{
  ℕ, ◌≡◌, refl, sym, ◌∙◌, Bool, true, false, not, ◌&&◌, ◌||◌, ltb, List, [], ◌∷◌, Option, none,
  some, put, if◌then◌else◌, if_elim, and_split,
}
use facenox.WebSocket.{
  Service, ReadyState, opening, opened, closing, closed, LiveConfig, ConfigUpdate, first_service,
  is_connected, is_opened, is_opening, is_current, is_ready_with, is_web_socket_ready, is_some,
  is_absent, is_connecting, is_disconnected, is_pending, merged, or_empty, Notice, connection,
  disconnected,
}
use facenox.WebSocket.Events.{
  Event, connects, disconnects, refreshes, updates, creates, fails, opens, times_out, loses, closes,
  errs, receives, Frame, has_type, has_faces, other, unparsable, deliver, is_preparing,
  connection_failed, connection_closed, connection_opened, close_current, notify_unless, handle,
  handle_all, settle_once, emit_live_config, emit_pending, after_close, connect_web_socket,
  create_socket, fail_preparation, on_timeout, on_open, on_message, on_close, on_error,
  start_closing, disconnect, update_live_config, refresh_active_stream,
}
use facenox.WebSocket.Laws.{
  Unsent, Matches, last_of, Matches-off, Matches-same, and_off, same_number, Unsent-after_close,
  put-Unsent, absent-none, Matches-put, Matches-stale, fresh_current, sent-Matches,
}

-- If the service is ready, the last message of settings on its socket holds the settings that it
-- keeps.
abbrev pub InSync : Service → Type 0
InSync s =
    Matches (is_ready_with s.ws_status s.ready_state s.ws) (last_of s.last_config s.ws)
      s.pending_live_config

abbrev Kept : Service → Type 0
Kept s = InSync s × ((a : ℕ) → Unsent (s.ready_state a) (s.last_config a))

emit-Kept :
    (config : LiveConfig) (s : Service)
    → s.pending_live_config ≡ some config
    → ((a : ℕ) → Unsent (s.ready_state a) (s.last_config a))
    → Kept (emit_live_config config s)
unfolding emit_live_config is_web_socket_ready
emit-Kept config s h unsent =
    if_elim Kept (is_ready_with s.ws_status s.ready_state s.ws)
      (λ ready.
        sent-Matches (is_connected s.ws_status) s.ready_state s.ws s.last_config
          s.pending_live_config config ready h unsent)
      (λ off. (Matches-off _ _ _ off, unsent))

settle_once-Kept : (b : Bool) (a : ℕ) (s : Service) → Kept s → Kept (settle_once b a s)
settle_once-Kept b a s kept = if_elim Kept (is_pending (s.settled a)) (λ _. kept) (λ _. kept)

deliver-Kept : (frame : Frame) (s : Service) → Kept s → Kept (deliver frame s)
deliver-Kept (has_type topic) s kept = kept
deliver-Kept has_faces s kept = kept
deliver-Kept other s kept = kept
deliver-Kept unparsable s kept = kept

emit_pending-Kept :
    (config : Option LiveConfig) (s : Service)
    → s.pending_live_config ≡ config
    → Kept s
    → Kept (emit_pending config s)
unfolding emit_pending
emit_pending-Kept none s h kept = kept
emit_pending-Kept (some config) s h kept = emit-Kept config s h kept.1

connect_web_socket-Kept : (s : Service) → Kept s → Kept (connect_web_socket s)
unfolding connect_web_socket
connect_web_socket-Kept s kept =
    if_elim Kept (is_connected s.ws_status || is_some s.connect_promise) (λ _. kept)
      (λ _. (tt, kept.1))

create_socket-Kept : (a : ℕ) (s : Service) → Kept s → Kept (create_socket a s)
unfolding create_socket
create_socket-Kept a s (sync, unsent) =
    if_elim Kept (is_preparing a s)
      (λ may. (
        rw (same_number a, and_off (is_connected s.ws_status)) tt,
        put-Unsent a opening s.ready_state s.last_config unsent (
            absent-none (s.ready_state a) (s.last_config a)
              (and_split (is_absent (s.ready_state a)) (is_pending (s.settled a))
                (and_split (ltb a s.attempts) _ may).1).0
              (unsent a)),
      ))
      (λ _. (sync, unsent))

fail_preparation-Kept : (a : ℕ) (s : Service) → Kept s → Kept (fail_preparation a s)
unfolding fail_preparation
fail_preparation-Kept a s kept = if_elim Kept (is_preparing a s) (λ _. (tt, kept.1)) (λ _. kept)

on_timeout-Kept : (a : ℕ) (s : Service) → Kept s → Kept (on_timeout a s)
unfolding on_timeout
on_timeout-Kept a s kept =
    if_elim Kept (s.timer a)
      (λ _.
        if_elim Kept (is_pending (s.settled a))
          (λ _. (
            tt,
            put-Unsent a (after_close (s.ready_state a)) s.ready_state s.last_config kept.1
                (Unsent-after_close (s.ready_state a) (s.last_config a)),
          ))
          (λ _. kept))
      (λ _. kept)

on_message-Kept : (a : ℕ) (frame : Frame) (s : Service) → Kept s → Kept (on_message a frame s)
unfolding on_message
on_message-Kept a frame s kept =
    if_elim Kept (is_opened (s.ready_state a) && is_current a s.ws) (λ _. deliver-Kept frame s kept)
      (λ _. kept)

put-Kept :
    (a : ℕ) (state : ReadyState) (s : Service)
    → is_opened state ≡ false
    → Unsent state (s.last_config a)
    → Kept s
    → Kept (record s { ready_state = put a state s.ready_state })
put-Kept a state s h k (sync, unsent) = (
  Matches-put (is_connected s.ws_status) s.ready_state s.ws (last_of s.last_config s.ws)
      s.pending_live_config a state h sync,
  put-Unsent a state s.ready_state s.last_config unsent k,
)

start_closing-Kept : (a : ℕ) (s : Service) → Kept s → Kept (start_closing a s)
unfolding start_closing
start_closing-Kept a s kept =
    if_elim Kept (is_opened (s.ready_state a)) (λ _. put-Kept a closing s refl tt kept) (λ _. kept)

on_error-Kept : (a : ℕ) (s : Service) → Kept s → Kept (on_error a s)
unfolding on_error
on_error-Kept a s kept =
    if_elim Kept (not (is_absent (s.ready_state a)) && is_current a s.ws)
      (λ _. settle_once-Kept false a (connection_failed a s) (tt, kept.1)) (λ _. kept)

notify_unless-Kept :
    (quiet : Bool) (notice : Notice) (s : Service) → Kept s → Kept (notify_unless quiet notice s)
notify_unless-Kept quiet notice s kept = if_elim Kept quiet (λ _. kept) (λ _. kept)

on_close-Kept : (a : ℕ) (s : Service) → Kept s → Kept (on_close a s)
unfolding on_close
on_close-Kept a s kept =
    let s' = record s { ready_state = put a closed s.ready_state } in
    let s'' = connection_closed a s' in
    let unsent = (put-Kept a closed s refl tt kept).1 in
    if_elim Kept (is_absent (s.ready_state a)) (λ _. kept)
      (λ _.
        if_elim Kept (is_current a s.ws)
          (λ _.
            notify_unless-Kept (is_disconnected s.ws_status) (connection disconnected)
              (if is_connecting s.ws_status then settle_once false a s'' else s'')
              (if_elim Kept (is_connecting s.ws_status)
                (λ _. settle_once-Kept false a s'' (tt, unsent)) (λ _. (tt, unsent))))
          (λ _. put-Kept a closed s refl tt kept))

-- Of a socket that has just been opened.
opened-Kept :
    (config : Option LiveConfig) (s : Service)
    → s.pending_live_config ≡ config
    → last_of s.last_config s.ws ≡ none
    → ((a : ℕ) → Unsent (s.ready_state a) (s.last_config a))
    → Kept (emit_pending config s)
unfolding emit_pending
opened-Kept none s h last unsent =
    (Matches-same (is_ready_with s.ws_status s.ready_state s.ws) _ _ (last ∙ sym h), unsent)
opened-Kept (some config) s h last unsent = emit-Kept config s h unsent

on_open-Kept : (a : ℕ) (s : Service) → Kept s → Kept (on_open a s)
unfolding on_open
on_open-Kept a s (sync, unsent) =
    let s' : Service = record s { ready_state = put a opened s.ready_state } in
    let unsent' = put-Unsent a opened s.ready_state s.last_config unsent tt in
    if_elim Kept (is_opening (s.ready_state a))
      (λ was_opening.
        if_elim Kept (is_current a s.ws)
          (λ current.
            settle_once-Kept true a (emit_pending s.pending_live_config (connection_opened s')) (
              opened-Kept s.pending_live_config (connection_opened s') refl
                (fresh_current a s.ws s.ready_state s.last_config current was_opening (unsent a))
                unsent'))
          (λ stale. (
            Matches-stale (is_connected s.ws_status) s.ready_state s.ws (last_of s.last_config s.ws)
                s.pending_live_config a opened stale sync,
            unsent',
          )))
      (λ _. (sync, unsent))

close_current-Kept : (ws : Option ℕ) (s : Service) → Kept s → Kept (close_current ws s)
close_current-Kept none s kept = kept
close_current-Kept (some a) s kept = (
  tt,
  put-Unsent a (after_close (s.ready_state a)) s.ready_state s.last_config kept.1
      (Unsent-after_close (s.ready_state a) (s.last_config a)),
)

update_live_config-Kept :
    (update : ConfigUpdate) (s : Service) → Kept s → Kept (update_live_config update s)
unfolding update_live_config
update_live_config-Kept update s kept =
    emit-Kept (merged update (or_empty s.pending_live_config)) _ refl kept.1

handle-Kept : (event : Event) (s : Service) → Kept s → Kept (handle event s)
unfolding handle refresh_active_stream disconnect
handle-Kept connects s kept = connect_web_socket-Kept s kept
handle-Kept disconnects s kept = close_current-Kept s.ws _ kept
handle-Kept refreshes s kept = emit_pending-Kept s.pending_live_config s refl kept
handle-Kept (updates update) s kept = update_live_config-Kept update s kept
handle-Kept (creates a) s kept = create_socket-Kept a s kept
handle-Kept (fails a) s kept = fail_preparation-Kept a s kept
handle-Kept (opens a) s kept = on_open-Kept a s kept
handle-Kept (times_out a) s kept = on_timeout-Kept a s kept
handle-Kept (loses a) s kept = start_closing-Kept a s kept
handle-Kept (closes a) s kept = on_close-Kept a s kept
handle-Kept (errs a) s kept = on_error-Kept a s kept
handle-Kept (receives a frame) s kept = on_message-Kept a frame s kept

handle_all-Kept : (events : List Event) (s : Service) → Kept s → Kept (handle_all events s)
unfolding handle_all
handle_all-Kept [] s kept = kept
handle_all-Kept (event ∷ events) s kept =
    handle_all-Kept events (handle event s) (handle-Kept event s kept)

-- In whatever order the calls of a new service and the events of its sockets and timers come,
-- whenever it is ready, the last message of settings on its socket holds the settings that it keeps,
-- and none has been sent if it keeps none.
pub handle_all-InSync : (events : List Event) → InSync (handle_all events first_service)
handle_all-InSync events = (handle_all-Kept events first_service (tt, λ a. refl)).0
