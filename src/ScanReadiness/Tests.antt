-- ===== src/ScanReadiness/Tests.antt =====
-- A state in which scanning may start, and the theorem at it.
use facenox.Base.{◌≡◌, refl, true, false, [], ◌∷◌, some, String}
use facenox.ScanReadiness.{ScanDataState, get_scan_readiness, no_faces, no_camera}

abbrev state_of : String → ScanDataState
state_of group = record {
  is_shell_ready = true;
  shell_bootstrap_error = false;
  is_panel_loading = false;
  is_panel_switch_pending = false;
  panel_data_error = false;
  attendance_groups = "a" ∷ "b" ∷ [];
  current_group = some group;
  group_members = record { group_id = "a"; is_active = true; has_face_data = true } ∷ [];
}

other_group : (get_scan_readiness (state_of "b") true).reason ≡ no_faces
unfolding get_scan_readiness
other_group = refl

all_groups : (get_scan_readiness (state_of "all") false).reason ≡ no_camera
unfolding get_scan_readiness
all_groups = refl
