-- ===== src/Pairing/Handlers.antt =====
-- app/src/electron/ipc/syncHandlers.ts: the handlers that change the connection. A handler returns
-- whether it reports success, with the store; what it throws counts as no success.
pub mod Cases
pub mod Location
pub mod Outcomes
pub mod Tests
use facenox.Base.{
  ℕ, Bool, true, false, not, ◌&&◌, ◌||◌, Option, none, some, List, [], ◌∷◌, String, if◌then◌else◌,
  ltb, length,
}
use facenox.Base.Keys.{◌===◌, string_eq}
use facenox.Base.Text.{Text}
use facenox.Pairing.{
  DataOrigin, PairingStore, PairingPayload, DirectoryAnswer, text_or_empty, non_empty,
  clear_remote_connection, is_connected, complete_pairing, Result,
}

pub record PairInput : Type 0 where
  pub remote_base_url : String
  pub pairing_code : Text
  pub device_name : String

-- The Cloud's answer to `POST /api/device/pair`: an error of the request, a status that is not ok,
-- or a text, parsed when it is JSON.
pub data PairResponse : Type 0 where
  unreachable refused : PairResponse
  answered : Option PairingPayload → PairResponse

-- What the others answer during a pairing.
pub record PairAnswers : Type 0 where
  pub has_secret_storage : Bool
  pub response : PairResponse
  pub export : DirectoryAnswer
  pub is_assigned : Bool

-- `POST /api/device/token`: `status` and `error` are fields of the payload.
pub record TokenPayload : Type 0 where
  pub status : Option String
  pub error : Option String
  pub pairing : PairingPayload

pub data TokenResponse : Type 0 where
  unreachable : TokenResponse
  refused accepted : Option TokenPayload → TokenResponse

pub record TokenAnswers : Type 0 where
  pub response : TokenResponse
  pub export : DirectoryAnswer
  pub is_assigned : Bool

pub data PollStatus : Type 0 where
  pending slow_down expired denied failed network_failed approved : PollStatus
  other : String → PollStatus

pub record ConfigUpdates : Type 0 where
  pub remote_base_url : Option String
  pub device_name : Option String
  pub interval_minutes : Option ℕ
  pub enabled : Option Bool

pub data Request : Type 0 where
  pair : PairInput → PairAnswers → Request
  poll : PairInput → TokenAnswers → Request
  configure : ConfigUpdates → Request
  disconnect : Bool → Request

abbrev error_of : Option TokenPayload → String
error_of none = ""
error_of (some payload) = text_or_empty payload.error

-- The result for a response whose status is not ok.
abbrev refusal : String → PollStatus
refusal error =
    if error === "authorization_pending"
    then pending
    else if error === "slow_down"
    then slow_down
    else if error === "expired_token"
    then expired
    else if error === "access_denied"
    then denied
    else failed

-- `payload?.status || "pending"`
abbrev other_status : String → PollStatus
other_status status = if non_empty status then other status else pending

abbrev approval : Result → PollStatus × PairingStore
approval (true, s) = (approved, s)
approval (false, s) = (network_failed, s)

abbrev is_empty : Text → Bool
is_empty [] = true
is_empty (c ∷ s) = false

-- `Math.max(1, Math.round(intervalMinutes))`, of a rounded number; one below 0 counts as 0.
abbrev set_interval : Option ℕ → PairingStore → PairingStore
set_interval none s = s
set_interval (some minutes) s = record s {
  interval_minutes = some (if ltb minutes 1 then 1 else minutes);
}

abbrev set_enabled : Option Bool → PairingStore → PairingStore
set_enabled none s = s
set_enabled (some enabled) s = record s { enabled = enabled }

abbrev no_failure : PollStatus × PairingStore → Result
no_failure (approved, s) = (true, s)
no_failure (status, s) = (false, s)

-- The texts' helpers: `trim` of a name and of a code, `resolve` and `normalize` of an address, and
-- the test of `sync:update-config` for an address that is not stored.
module _ (trim : String → String) (trim_code : Text → Text) (resolve normalize : String → String)
    (is_default : String → Bool) where
  -- `(input.deviceName || "").trim() || "Facenox Desktop"`
  abbrev name_of_device : String → String
  name_of_device name = if non_empty (trim name) then trim name else "Facenox Desktop"

  abbrev after_response : PairInput → PairAnswers → PairResponse → PairingStore → Result
  after_response input answers unreachable s = (false, s)
  after_response input answers refused s = (false, s)
  after_response input answers (answered none) s = (false, s)
  after_response input answers (answered (some payload)) s =
      complete_pairing resolve (resolve input.remote_base_url) (name_of_device input.device_name)
        payload answers.export answers.is_assigned s

  -- `sync:pair-device`
  unfoldable pub pair_device : PairInput → PairAnswers → PairingStore → Result
  pair_device input answers s =
      if ltb (length (trim_code input.pairing_code)) 6
      then (false, s)
      else if answers.has_secret_storage
      then after_response input answers answers.response s
      else (false, s)

  abbrev after_token :
      PairInput → TokenAnswers → Option TokenPayload → PairingStore → PollStatus × PairingStore
  after_token input answers none s = (pending, s)
  after_token input answers (some payload) s =
      let joined =
        complete_pairing resolve (resolve input.remote_base_url) (name_of_device input.device_name)
          payload.pairing answers.export answers.is_assigned s in
      if text_or_empty payload.status === "pending"
      then (pending, s)
      else if text_or_empty payload.status === "approved"
          && non_empty (text_or_empty payload.pairing.device_token)
      then approval joined
      else (other_status (text_or_empty payload.status), s)

  abbrev after_poll :
      PairInput → TokenAnswers → TokenResponse → PairingStore → PollStatus × PairingStore
  after_poll input answers unreachable s = (network_failed, s)
  after_poll input answers (refused payload) s = (refusal (error_of payload), s)
  after_poll input answers (accepted payload) s = after_token input answers payload s

  -- `sync:poll-device-authorization`; the device code stands in the field `pairing_code`.
  unfoldable pub poll_device_authorization :
      PairInput → TokenAnswers → PairingStore → PollStatus × PairingStore
  poll_device_authorization input answers s =
      if is_empty (trim_code input.pairing_code)
      then (failed, s)
      else after_poll input answers answers.response s

  abbrev set_name : Option String → PairingStore → PairingStore
  set_name none s = s
  set_name (some name) s = record s { device_name = trim name }

  abbrev set_others : ConfigUpdates → PairingStore → PairingStore
  set_others updates s =
      set_enabled updates.enabled
        (set_interval updates.interval_minutes (set_name updates.device_name s))

  abbrev stored_address : String → String
  stored_address address = if is_default (trim address) then "" else normalize (trim address)

  abbrev set_address : Option String → ConfigUpdates → PairingStore → Result
  set_address none updates s = (true, set_others updates s)
  set_address (some address) updates s =
      if non_empty s.device_id && not (resolve address === resolve s.remote_base_url)
      then (false, s)
      else (true, set_others updates (record s { remote_base_url = stored_address address }))

  -- `sync:update-config`
  unfoldable pub update_sync_config : ConfigUpdates → PairingStore → Result
  update_sync_config updates s = set_address updates.remote_base_url updates s

  abbrev keep_origin : PairingStore → PairingStore
  keep_origin s = record s {
    data_origin = some (record {
      organization_id = some s.organization_id;
      site_id = some s.site_id;
      remote_base_url = resolve s.remote_base_url;
    });
  }

  -- `sync:disconnect-device`: `is_local_ok` is the local service's answer. What the Cloud answers
  -- only makes a warning.
  unfoldable pub disconnect_device : Bool → PairingStore → Result
  disconnect_device is_local_ok s =
      if not is_local_ok
      then (false, s)
      else (true, clear_remote_connection (if is_connected resolve s then keep_origin s else s))

  unfoldable pub handle : Request → PairingStore → Result
  unfolding pair_device poll_device_authorization update_sync_config disconnect_device
  handle (pair input answers) s = pair_device input answers s
  handle (poll input answers) s = no_failure (poll_device_authorization input answers s)
  handle (configure updates) s = update_sync_config updates s
  handle (disconnect is_local_ok) s = disconnect_device is_local_ok s

  unfoldable pub handle_all : List Request → PairingStore → PairingStore
  unfolding handle
  handle_all [] s = s
  handle_all (request ∷ requests) s = handle_all requests (handle request s).1
