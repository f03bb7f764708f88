-- ===== src/Pairing/Handlers/Tests.antt =====
-- A computer that moves between locations, and the theorems at it.
use facenox.Base.{◌≡◌, refl, Bool, true, false, none, some, List, [], ◌∷◌, String, inr}
use facenox.Base.Text.{Text, codes}
use facenox.Pairing.{
  PairingStore, PairingPayload, directory, no_policy, is_connected, complete_pairing,
  clear_remote_connection,
}
use facenox.Pairing.Handlers.{PairInput, answered, Request, pair, disconnect, handle, handle_all}
use facenox.Pairing.Handlers.Location.{location, handle_all-location}

abbrev as_is : String → String
as_is text = text

abbrev code_as_is : Text → Text
code_as_is text = text

abbrev never : String → Bool
never text = false

abbrev fresh : PairingStore
fresh = record {
  remote_base_url = "";
  organization_id = "";
  organization_name = "";
  site_id = "";
  site_name = "";
  device_id = "";
  device_name = "";
  device_token = some "";
  encryption_key = "";
  enabled = false;
  interval_minutes = none;
  last_synced_at = none;
  pending_acknowledgements = false;
  policy = no_policy;
  data_origin = none;
}

abbrev input : PairInput
input = record {
  remote_base_url = "https://cloud";
  pairing_code = codes "123456";
  device_name = "Door";
}

abbrev payload_of : String → PairingPayload
payload_of organization = record {
  organization_id = some organization;
  organization_name = none;
  site_id = some "site";
  site_name = none;
  device_id = some "device";
  device_token = some "token";
  encryption_key = some "key";
}

abbrev pairing_with : String → Bool → Bool → Request
pairing_with organization has_rows is_assigned = pair input (record {
  has_secret_storage = true;
  response = answered (some (payload_of organization));
  export = directory has_rows;
  is_assigned = is_assigned;
})

-- The store after some requests, and what a request does to it.
abbrev after : List Request → PairingStore
after requests = handle_all as_is code_as_is as_is as_is never requests fresh

abbrev paired : PairingStore
paired = record fresh {
  remote_base_url = "https://cloud";
  organization_id = "a";
  site_id = "site";
  device_id = "device";
  device_name = "Door";
  device_token = some "token";
  encryption_key = "key";
  enabled = true;
  data_origin = some (record {
    organization_id = some "a";
    site_id = some "site";
    remote_base_url = "https://cloud";
  });
}

pairing_connects : after (pairing_with "a" true true ∷ []) ≡ paired
unfolding handle_all complete_pairing
pairing_connects = refl

abbrev moves : List Request
moves = disconnect true ∷ pairing_with "b" true true ∷ pairing_with "a" true true ∷ []

-- An empty directory may move.
may_move :
    location
      (after (pairing_with "a" true true ∷ disconnect true ∷ pairing_with "b" false true ∷ []))
    ≡ some ("b", "site")
unfolding handle_all is_connected complete_pairing clear_remote_connection
may_move = refl

handle_all-location_example :
    location (handle_all as_is code_as_is as_is as_is never moves paired) ≡ some ("a", "site")
handle_all-location_example =
    handle_all-location as_is code_as_is as_is as_is never moves paired ("a", "site")
      (tt, (refl, (refl, tt))) (inr refl) refl

not_assigned :
    (handle as_is code_as_is as_is as_is never (pairing_with "a" false false) fresh).0 ≡ false
unfolding handle is_connected complete_pairing
not_assigned = refl
