-- ===== src/CameraStore.antt =====
-- app/src/components/main/stores/cameraStore.ts: the camera that is used, and the one that the user
-- has chosen. What is written to the settings is part of the state.
pub mod Laws
pub mod Tests
use facenox.Base.{
  Bool, true, false, not, ◌&&◌, List, [], ◌∷◌, Option, none, some, String, any, if◌then◌else◌,
}
use facenox.Base.Keys.{◌===◌, string_eq}

pub record MediaDeviceInfo : Type 0 where
  pub device_id : String
  pub label : String

pub record CameraState : Type 0 where
  pub camera_devices : List MediaDeviceInfo
  pub selected_camera : String
  pub preferred_camera_id : Option String
  pub preferred_camera_label : Option String
  pub is_preferred_camera_missing : Bool
  pub saved_camera : Option String
  pub saved_label : Option String

-- A text that is there and not empty.
abbrev pub truthy : Option String → Option String
truthy none = none
truthy (some text) = if text === "" then none else some text

abbrev pub is_some : Option String → Bool
is_some none = false
is_some (some text) = true

abbrev pub find_by : (MediaDeviceInfo → Bool) → List MediaDeviceInfo → Option MediaDeviceInfo
find_by p [] = none
find_by p (device ∷ devices) =
    let rest = find_by p devices in if p device then some device else rest

abbrev pub has_id : String → MediaDeviceInfo → Bool
has_id id device = device.device_id === id

abbrev pub has_label : String → MediaDeviceInfo → Bool
has_label label device = device.label === label

abbrev pub select_preferred : String → CameraState → CameraState
select_preferred id s = record s { selected_camera = id; is_preferred_camera_missing = false }

-- The device that now has the label of the chosen one is the chosen one.
abbrev pub adopt : MediaDeviceInfo → CameraState → CameraState
adopt device s = record s {
  selected_camera = device.device_id;
  preferred_camera_id = some device.device_id;
  is_preferred_camera_missing = false;
  saved_camera = some device.device_id;
}

abbrev pub fall_back : Option String → MediaDeviceInfo → CameraState → CameraState
fall_back (some preferred) first s = record s {
  selected_camera = first.device_id;
  is_preferred_camera_missing = true;
}
fall_back none first s =
    if s.selected_camera === "" then record s { selected_camera = first.device_id } else s

abbrev pub match_label :
    Option MediaDeviceInfo → Option String → MediaDeviceInfo → CameraState → CameraState
match_label (some device) preferred first s = adopt device s
match_label none preferred first s = fall_back preferred first s

abbrev pub labelled : Option String → List MediaDeviceInfo → Option MediaDeviceInfo
labelled none devices = none
labelled (some label) devices = find_by (has_label label) devices

abbrev pub choose :
    Option String
    → Option String
    → MediaDeviceInfo
    → List MediaDeviceInfo
    → CameraState
    → CameraState
choose (some id) label first devices s =
    if any (has_id id) devices
    then select_preferred id s
    else match_label (labelled label devices) (some id) first s
choose none label first devices s = match_label (labelled label devices) none first s

unfoldable pub set_camera_devices : List MediaDeviceInfo → CameraState → CameraState
set_camera_devices [] s = record s {
  camera_devices = [];
  is_preferred_camera_missing = is_some (truthy s.preferred_camera_id);
}
set_camera_devices (first ∷ devices) s =
    choose (truthy s.preferred_camera_id) (truthy s.preferred_camera_label) first (first ∷ devices)
      (record s { camera_devices = first ∷ devices })

abbrev pub label_of : Option MediaDeviceInfo → Option String
label_of none = none
label_of (some device) = truthy (some device.label)

unfoldable pub set_selected_camera : String → CameraState → CameraState
set_selected_camera id s =
    let label = label_of (find_by (has_id id) s.camera_devices) in
    if id === "" then s else record s {
      selected_camera = id;
      preferred_camera_id = some id;
      preferred_camera_label = label;
      is_preferred_camera_missing = false;
      saved_camera = some id;
      saved_label = label;
    }

-- When the settings have been read.
unfoldable pub load_selected_camera : Option String → Option String → CameraState → CameraState
load_selected_camera saved label s = elim (truthy saved) [
  | none ↦ s
  | some id ↦ record s {
    selected_camera = id;
    preferred_camera_id = some id;
    preferred_camera_label = label;
  }
]
