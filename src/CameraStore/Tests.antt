-- ===== src/CameraStore/Tests.antt =====
-- Devices that are replugged, and the theorem at them.
use facenox.Base.{◌≡◌, refl, true, false, [], ◌∷◌, none, some}
use facenox.CameraStore.{
  MediaDeviceInfo, CameraState, set_camera_devices, set_selected_camera, load_selected_camera,
}

abbrev built_in : MediaDeviceInfo
built_in = record { device_id = "0"; label = "Built-in" }

abbrev desk : MediaDeviceInfo
desk = record { device_id = "7"; label = "Desk" }

-- The same camera after the browser has given it another id.
abbrev desk_again : MediaDeviceInfo
desk_again = record { device_id = "9"; label = "Desk" }

abbrev at_first : CameraState
at_first = record {
  camera_devices = [];
  selected_camera = "";
  preferred_camera_id = none;
  preferred_camera_label = none;
  is_preferred_camera_missing = false;
  saved_camera = none;
  saved_label = none;
}

abbrev chosen : CameraState
unfolding set_camera_devices set_selected_camera
chosen = set_selected_camera "7" (set_camera_devices (built_in ∷ desk ∷ []) at_first)

unplugged :
    let s = set_camera_devices (built_in ∷ []) chosen in
    (s.selected_camera ≡ "0")
    × (s.is_preferred_camera_missing ≡ true)
    × (s.preferred_camera_id ≡ some "7")
unfolding set_camera_devices chosen set_selected_camera
unplugged = (refl, refl, refl)

replugged :
    let s = set_camera_devices (built_in ∷ desk_again ∷ []) (set_camera_devices [] chosen) in
    (s.selected_camera ≡ "9")
    × (s.is_preferred_camera_missing ≡ false)
    × (s.saved_camera ≡ some "9")
unfolding set_camera_devices chosen set_selected_camera
replugged = (refl, refl, refl)

loaded : (load_selected_camera (some "7") (some "Desk") at_first).preferred_camera_id ≡ some "7"
unfolding load_selected_camera
loaded = refl

is_chosen : chosen.preferred_camera_id ≡ some "7"
unfolding chosen set_camera_devices set_selected_camera
is_chosen = refl
