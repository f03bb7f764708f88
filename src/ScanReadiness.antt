-- ===== src/ScanReadiness.antt =====
-- app/src/components/main/utils/scanReadiness.ts: whether scanning may start, and why not. The texts
-- of the tooltips are left out; an error is `true` where its text is not empty.
pub mod Laws
mod Tests
use facenox.Base.{
  ℕ, Bool, true, false, not, ◌&&◌, ◌||◌, List, [], ◌∷◌, Option, none, some, String, ◌==◌, length,
  any, if◌then◌else◌,
}
use facenox.Base.Keys.{◌===◌, string_eq}

pub record AttendanceMember : Type 0 where
  pub group_id : String
  pub is_active : Bool
  pub has_face_data : Bool

-- A group is known by its id.
pub record ScanDataState : Type 0 where
  pub is_shell_ready : Bool
  pub shell_bootstrap_error : Bool
  pub is_panel_loading : Bool
  pub is_panel_switch_pending : Bool
  pub panel_data_error : Bool
  pub attendance_groups : List String
  pub current_group : Option String
  pub group_members : List AttendanceMember

pub data ScanReadinessReason : Type 0 where
  ready loading error no_groups no_selection no_faces no_camera : ScanReadinessReason

pub record ScanReadiness : Type 0 where
  pub can_start : Bool
  pub reason : ScanReadinessReason

abbrev because : ScanReadinessReason → ScanReadiness
because reason = record { can_start = false; reason = reason }

-- The test of `some` over the members.
abbrev pub is_enrolled : String → AttendanceMember → Bool
is_enrolled group member =
    member.is_active && (member.has_face_data && (group === "all" || member.group_id === group))

in_group : ScanDataState → Bool → Option String → ScanReadiness
in_group s camera none = because no_selection
in_group s camera (some group) =
    if s.is_panel_loading || s.is_panel_switch_pending
    then because loading
    else (if not (any (is_enrolled group) s.group_members)
        then because no_faces
        else (if not camera
            then because no_camera
            else record { can_start = true; reason = ready }))

pub get_scan_readiness : ScanDataState → Bool → ScanReadiness
unfolding in_group
get_scan_readiness s camera =
    if s.shell_bootstrap_error || s.panel_data_error
    then because error
    else (if not s.is_shell_ready
        then because loading
        else (if length s.attendance_groups == 0
            then because no_groups
            else in_group s camera s.current_group))
