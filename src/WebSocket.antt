-- ===== src/WebSocket.antt =====
-- app/src/services/WebSocketService.ts: the connection to the detector. A connection attempt and the
-- socket that it opens have the same number; the browser's sockets and timers are part of the state,
-- with what the handlers of the other modules get.
pub mod Events
pub mod Laws
pub mod Config
pub mod Tests
use facenox.Base.{
  ℕ, Bool, true, false, ◌&&◌, List, [], ◌∷◌, Option, none, some, String, put, ◌==◌, if◌then◌else◌,
}

pub data WebSocketStatus : Type 0 where
  disconnected connecting connected failed : WebSocketStatus

-- `readyState`, and before the socket is created.
pub data ReadyState : Type 0 where
  absent opening opened closing closed : ReadyState

-- The promise of an attempt.
pub data Settled : Type 0 where
  pending resolved rejected : Settled

pub record LiveConfig : Type 0 where
  pub enable_liveness_detection : Option Bool
  pub group_id : Option (Option String)
  pub max_recognition_faces_per_frame : Option ℕ
  pub device_id : Option String

-- A property of an object that is spread: one that is there replaces the other also if it is
-- undefined.
pub data Property (A : Type 0) : Type 0 where
  missing undefined : Property A
  given : A → Property A

pub record ConfigUpdate : Type 0 where
  pub enable_liveness_detection : Property Bool
  pub group_id : Property (Option String)
  pub max_recognition_faces_per_frame : Property ℕ
  pub device_id : Property String

-- What the message handlers get.
pub data Notice : Type 0 where
  connection : WebSocketStatus → Notice
  transport_error : Notice
  typed : String → Notice
  detection_response : Notice

pub record Service : Type 0 where
  pub ws : Option ℕ
  pub ws_status : WebSocketStatus
  pub connect_promise : Option ℕ
  pub pending_live_config : Option LiveConfig
  pub is_active_instance : Bool
  pub notices : List Notice
  pub attempts : ℕ
  pub ready_state : ℕ → ReadyState
  pub settled : ℕ → Settled
  pub timer : ℕ → Bool
  pub last_config : ℕ → Option LiveConfig

abbrev pub first_service : Service
first_service = record {
  ws = none;
  ws_status = disconnected;
  connect_promise = none;
  pending_live_config = none;
  is_active_instance = false;
  notices = [];
  attempts = 0;
  ready_state = λ a. absent;
  settled = λ a. pending;
  timer = λ a. false;
  last_config = λ a. none;
}

abbrev pub is_connected : WebSocketStatus → Bool
is_connected connected = true
is_connected _ = false

abbrev pub is_connecting : WebSocketStatus → Bool
is_connecting connecting = true
is_connecting _ = false

abbrev pub is_disconnected : WebSocketStatus → Bool
is_disconnected disconnected = true
is_disconnected _ = false

abbrev pub is_opened : ReadyState → Bool
is_opened opened = true
is_opened _ = false

abbrev pub is_opening : ReadyState → Bool
is_opening opening = true
is_opening _ = false

abbrev pub is_absent : ReadyState → Bool
is_absent absent = true
is_absent _ = false

abbrev pub is_pending : Settled → Bool
is_pending pending = true
is_pending _ = false

abbrev pub is_some {ℓ} : {A : Type ℓ} → Option A → Bool
is_some none = false
is_some (some a) = true

abbrev pub is_current : ℕ → Option ℕ → Bool
is_current a none = false
is_current a (some b) = a == b

abbrev pub is_opened_socket : (ℕ → ReadyState) → Option ℕ → Bool
is_opened_socket ready none = false
is_opened_socket ready (some a) = is_opened (ready a)

abbrev pub is_ready_with : WebSocketStatus → (ℕ → ReadyState) → Option ℕ → Bool
is_ready_with status ready ws = is_connected status && is_opened_socket ready ws

unfoldable pub is_web_socket_ready : Service → Bool
is_web_socket_ready s = is_ready_with s.ws_status s.ready_state s.ws

abbrev pub spread : {A : Type 0} → Property A → Option A → Option A
spread missing old = old
spread undefined old = none
spread (given a) old = some a

abbrev pub empty_config : LiveConfig
empty_config = record {
  enable_liveness_detection = none;
  group_id = none;
  max_recognition_faces_per_frame = none;
  device_id = none;
}

abbrev pub or_empty : Option LiveConfig → LiveConfig
or_empty none = empty_config
or_empty (some config) = config

-- `{ ...(this.pendingLiveConfig ?? {}), ...config }`
abbrev pub merged : ConfigUpdate → LiveConfig → LiveConfig
merged update old = record {
  enable_liveness_detection = spread update.enable_liveness_detection old.enable_liveness_detection;
  group_id = spread update.group_id old.group_id;
  max_recognition_faces_per_frame =
      spread update.max_recognition_faces_per_frame old.max_recognition_faces_per_frame;
  device_id = spread update.device_id old.device_id;
}
