-- ===== src/Overlay/Guidance.antt =====
-- app/src/components/main/utils/overlayGuidance.ts: `getOverlayGuidance`, the hint at a face.
use facenox.Base.{Bool, true, false, not, ◌&&◌, ◌||◌, Option, none, some, if◌then◌else◌}
use facenox.Overlay.{
  Face, LivenessStatus, spoof, candidate_real, unsure, center_face, move_closer, glare, too_dark,
  look_at_camera, Recognition, has_person, is_recognized_live,
}

pub data Label : Type 0 where
  verifying centered closer too_bright dark look hold_still poor_lighting : Label

pub data SubLabel : Type 0 where
  low_light_detected avoid_direct_light step_into_light keep_upright turn_head : SubLabel

-- Every hint has the tone `warning`.
pub record OverlayGuidance : Type 0 where
  pub label : Label
  pub sub_label : Option SubLabel
  pub is_low_light : Bool

abbrev plain : Label → Bool → OverlayGuidance
plain label low_light = record {
  label = label;
  sub_label = if low_light then some low_light_detected else none;
  is_low_light = low_light;
}

abbrev hint : Label → SubLabel → Bool → Option OverlayGuidance
hint label sub low_light =
    some (record { label = label; sub_label = some sub; is_low_light = low_light })

-- What follows the test of `holdStillActive`.
abbrev verifying_hint : Option LivenessStatus → Bool → Bool → Bool → Option OverlayGuidance
verifying_hint (some candidate_real) true active low_light = none
verifying_hint (some candidate_real) false active low_light =
    if active then hint verifying turn_head low_light else some (plain verifying low_light)
verifying_hint (some spoof) turn active low_light =
    if active then hint verifying turn_head low_light else some (plain verifying low_light)
verifying_hint (some unsure) turn active low_light =
    if active then hint verifying turn_head low_light else some (plain verifying low_light)
verifying_hint _ turn active low_light =
    if low_light then hint poor_lighting step_into_light true else none

unfoldable pub status_hint :
    Option LivenessStatus → Bool → Bool → Bool → Bool → Option OverlayGuidance
status_hint (some center_face) still turn active low_light = some (plain centered low_light)
status_hint (some move_closer) still turn active low_light = some (plain closer low_light)
status_hint (some glare) still turn active low_light = hint too_bright avoid_direct_light low_light
status_hint (some too_dark) still turn active low_light = hint dark step_into_light true
status_hint (some look_at_camera) still turn active low_light = hint look keep_upright low_light
status_hint status still turn active low_light =
    if still then some (plain hold_still low_light) else verifying_hint status turn active low_light

abbrev unmatched : Option Recognition → Bool
unmatched none = false
unmatched (some r) = not (has_person (some r))

unfoldable pub get_overlay_guidance :
    {Box : Type 0}
    → Face Box
    → Bool
    → Bool
    → Option Recognition
    → Bool
    → Bool
    → Option OverlayGuidance
unfolding is_recognized_live status_hint
get_overlay_guidance face spoof_detection enabled result still active =
    if not spoof_detection || is_recognized_live enabled result face
    then none
    else (if enabled && unmatched result
        then some (plain verifying face.low_light)
        else status_hint face.liveness still face.says_turn active face.low_light)
