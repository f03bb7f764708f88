-- ===== src/ScanReadiness/Laws.antt =====
-- When scanning may start.
use facenox.Base.{
  ◌<◌, ◌≡◌, refl, Bool, true, false, Option, none, some, String, arith, ◌↔◌, length, any,
}
use facenox.ScanReadiness.{ScanDataState, is_enrolled, in_group, get_scan_readiness}

-- What a start needs, stated without the order of the tests.
abbrev pub MayScan : ScanDataState → Bool → Type 0
MayScan s camera =
    (s.shell_bootstrap_error ≡ false)
    × (s.panel_data_error ≡ false)
    × (s.is_shell_ready ≡ true)
    × (0 < length s.attendance_groups)
    × (s.is_panel_loading ≡ false)
    × (s.is_panel_switch_pending ≡ false)
    × (camera ≡ true)
    × ((group : String) × (s.current_group ≡ some group)
        × (any (is_enrolled group) s.group_members ≡ true))

abbrev InGroup : ScanDataState → Bool → Option String → Type 0
InGroup s camera current =
    (s.is_panel_loading ≡ false)
    × (s.is_panel_switch_pending ≡ false)
    × (camera ≡ true)
    × ((group : String) × (current ≡ some group) × (any (is_enrolled group) s.group_members ≡ true))

in_group-may :
    (s : ScanDataState) (camera : Bool) (current : Option String)
    → (in_group s camera current).can_start ≡ true
    → InGroup s camera current
unfolding in_group
in_group-may s camera none h = absurd cc
in_group-may s camera (some group) h =
    (ground arith, ground arith, ground arith, (group, refl, ground arith))

may-in_group :
    (s : ScanDataState) (camera : Bool) (current : Option String)
    → InGroup s camera current
    → (in_group s camera current).can_start ≡ true
unfolding in_group
may-in_group s camera none (a, b, c, (group, e, f)) = absurd cc
may-in_group s camera (some g) (a, b, c, (group, e, f)) =
    let same : group ≡ g = cc in
    let enrolled : any (is_enrolled g) s.group_members ≡ true = rw same at f in ground arith

-- Scanning may start exactly when nothing has failed, the shell and the panel have been loaded, there
-- is a group, one is selected, an active member with a face is in scope and there is a camera.
pub get_scan_readiness_iff :
    (s : ScanDataState) (camera : Bool)
    → ((get_scan_readiness s camera).can_start ≡ true) ↔ MayScan s camera
unfolding get_scan_readiness
get_scan_readiness_iff s camera = (
  (λ h.
      let (loaded, settled, seen, scope) = in_group-may s camera s.current_group (ground arith) in
      (ground arith, ground arith, ground arith, ground arith, loaded, settled, seen, scope)),
  λ (no_error, no_panel_error, shell, groups, loaded, settled, seen, scope).
      let start = may-in_group s camera s.current_group (loaded, settled, seen, scope) in
      ground arith,
)
