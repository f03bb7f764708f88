-- ===== src/Pairing.antt =====
-- app/src/electron/ipc/syncHandlers.ts: connecting the computer to a location in the Cloud and
-- disconnecting it. The Cloud and the local service are seen through their answers; a handler runs
-- from its call to its result. The initial synchronisation that follows is in Sync/Session.antt.
pub mod Handlers
use facenox.Base.{
  ℕ, Bool, true, false, not, ◌&&◌, ◌||◌, Option, none, some, List, [], ◌∷◌, String, if◌then◌else◌,
  ltb,
}
use facenox.Base.Keys.{◌===◌, string_eq}
use facenox.Sync.Policy.{StoredPolicy}

-- `sync.dataOrigin`: two of its fields are taken from the Cloud's answer as they are.
pub record DataOrigin : Type 0 where
  pub organization_id : Option String
  pub site_id : Option String
  pub remote_base_url : String

-- The keys `sync.*` of the persistent store. Reading the token may throw, which is `none`.
pub record PairingStore : Type 0 where
  pub remote_base_url : String
  pub organization_id : String
  pub organization_name : String
  pub site_id : String
  pub site_name : String
  pub device_id : String
  pub device_name : String
  pub device_token : Option String
  pub encryption_key : String
  pub enabled : Bool
  pub interval_minutes : Option ℕ
  pub last_synced_at : Option String
  pub pending_acknowledgements : Bool
  pub policy : StoredPolicy
  pub data_origin : Option DataOrigin

-- What the Cloud answers to a pairing request; a missing field is `none`.
pub record PairingPayload : Type 0 where
  pub organization_id : Option String
  pub organization_name : Option String
  pub site_id : Option String
  pub site_name : Option String
  pub device_id : Option String
  pub device_token : Option String
  pub encryption_key : Option String

-- The answer to the export of the local directory: an error, or whether one of its tables has a row.
pub data DirectoryAnswer : Type 0 where
  unverified : DirectoryAnswer
  directory : Bool → DirectoryAnswer

-- `String(value ?? "")`
abbrev pub text_or_empty : Option String → String
text_or_empty none = ""
text_or_empty (some value) = value

abbrev pub non_empty : String → Bool
non_empty value = not (value === "")

-- `a === b`, where each may be undefined.
abbrev pub same_option : Option String → Option String → Bool
same_option none none = true
same_option (some a) (some b) = a === b
same_option _ _ = false

abbrev pub no_policy : StoredPolicy
no_policy = record {
  force_liveness = none;
  track_checkout = none;
  late_threshold_enabled = none;
  late_threshold_minutes = none;
  attendance_cooldown_seconds = none;
  min_checkout_delay_minutes = none;
  data_retention_days = none;
  allow_kiosk_directory_management = none;
}

-- `paired`
unfoldable pub is_paired : PairingStore → Bool
is_paired s = non_empty s.organization_id && (non_empty s.site_id && non_empty s.device_id)

-- `policyReady`
unfoldable pub is_policy_ready : PairingStore → Bool
unfolding is_paired
is_policy_ready s =
    if is_paired s
    then (elim s.policy.force_liveness [ none ↦ false | some forced ↦ true ])
    else true

-- `clearRemoteConnection`
unfoldable pub clear_remote_connection : PairingStore → PairingStore
clear_remote_connection s = record s {
  enabled = false;
  organization_id = "";
  organization_name = "";
  site_id = "";
  site_name = "";
  device_id = "";
  device_token = some "";
  encryption_key = "";
  last_synced_at = none;
  pending_acknowledgements = false;
  policy = no_policy;
}

-- The result of a handler: whether it reports success, and the store.
abbrev pub Result : Type 0
Result = Bool × PairingStore

abbrev pub is_movable : DirectoryAnswer → Bool
is_movable unverified = false
is_movable (directory has_rows) = not has_rows

abbrev pub differs : DataOrigin → String → PairingPayload → Bool
differs origin url payload =
    not (same_option origin.organization_id payload.organization_id)
    || (not (same_option origin.site_id payload.site_id) || not (origin.remote_base_url === url))

abbrev pub elsewhere : Option DataOrigin → String → PairingPayload → Bool
elsewhere none url payload = false
elsewhere (some origin) url payload = differs origin url payload

abbrev pub set_origin : String → PairingPayload → PairingStore → PairingStore
set_origin url payload s = record s {
  data_origin = some (record {
    organization_id = payload.organization_id;
    site_id = payload.site_id;
    remote_base_url = url;
  });
}

abbrev pub connect : String → String → PairingPayload → PairingStore → PairingStore
connect url device_name payload s = record s {
  remote_base_url = url;
  organization_id = text_or_empty payload.organization_id;
  organization_name = text_or_empty payload.organization_name;
  site_id = text_or_empty payload.site_id;
  site_name = text_or_empty payload.site_name;
  device_id = text_or_empty payload.device_id;
  device_name = device_name;
  device_token = some (text_or_empty payload.device_token);
  encryption_key = text_or_empty payload.encryption_key;
  enabled = true;
  last_synced_at = none;
}

abbrev pub disable : PairingStore → PairingStore
disable s = record s { enabled = false }

-- `remoteBaseUrl` of a stored or typed address, whatever the normalisation of addresses is.
module _ (resolve : String → String) where
  -- `connected`
  unfoldable pub is_connected : PairingStore → Bool
  unfolding is_paired
  is_connected s =
      non_empty (resolve s.remote_base_url)
      && (is_paired s && non_empty (text_or_empty s.device_token))

  -- `validatePairingDestination`: the store, or nothing when it throws.
  unfoldable pub validate_pairing_destination :
      String → PairingPayload → DirectoryAnswer → PairingStore → Option PairingStore
  unfolding is_connected
  validate_pairing_destination url payload answer s =
      if is_connected s
      then none
      else if elsewhere s.data_origin url payload && not (is_movable answer)
      then none
      else some (set_origin url payload s)

  -- From the Cloud's answer on: both ways of pairing. `assigned` is the local service's answer to
  -- the request that gives the local rows to the organization.
  unfoldable pub complete_pairing :
      String → String → PairingPayload → DirectoryAnswer → Bool → PairingStore → Result
  unfolding validate_pairing_destination
  complete_pairing url device_name payload answer assigned s =
      elim (validate_pairing_destination url payload answer s) [
        | none ↦ (false, s)
        | some t ↦
            let joined = connect url device_name payload t in
            if assigned then (true, joined) else (false, disable joined)
      ]
