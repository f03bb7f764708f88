-- ===== src/Overlay/Hints.antt =====
-- Which faces get a hint.
use facenox.Base.{◌≡◌, Bool, true, false, Option, none, some, arith}
use facenox.Overlay.{
  Face, LivenessStatus, real, spoof, candidate_real, unsure, center_face, move_closer, glare,
  too_dark, look_at_camera, other, Options, is_verifying_hint_candidate, recognition_result,
  is_verifying,
}
use facenox.Overlay.Guidance.{get_overlay_guidance, status_hint}

verifying-shown :
    (status : Option LivenessStatus) (still turn active low_light : Bool)
    → is_verifying status ≡ true
    → status_hint status still turn active low_light ≡ none
    → (status ≡ some candidate_real) × (turn ≡ true) × (still ≡ false)
unfolding is_verifying status_hint
verifying-shown none still turn active low_light v h = absurd cc
verifying-shown (some real) still turn active low_light v h = absurd cc
verifying-shown (some spoof) still turn active low_light v h = absurd (ground arith)
verifying-shown (some candidate_real) still turn active low_light v h = ground arith
verifying-shown (some unsure) still turn active low_light v h = absurd (ground arith)
verifying-shown (some center_face) still turn active low_light v h = absurd cc
verifying-shown (some move_closer) still turn active low_light v h = absurd cc
verifying-shown (some glare) still turn active low_light v h = absurd cc
verifying-shown (some too_dark) still turn active low_light v h = absurd cc
verifying-shown (some look_at_camera) still turn active low_light v h = absurd cc
verifying-shown (some other) still turn active low_light v h = absurd cc

-- A face that is followed in the verifying cache has a hint, whatever the caches say, but for one
-- case: while it is asked to turn its head and is not to hold still.
pub get_overlay_guidance-candidate :
    {Box : Type 0} (o : Options) (face : Face Box) (still active : Bool)
    → is_verifying_hint_candidate o face ≡ true
    → get_overlay_guidance face o.enable_spoof_detection o.recognition_enabled
        (recognition_result o face)
        still
        active
      ≡ none
    → (face.liveness ≡ some candidate_real) × (face.says_turn ≡ true) × (still ≡ false)
unfolding get_overlay_guidance is_verifying_hint_candidate
get_overlay_guidance-candidate o face still active candidate h =
    verifying-shown face.liveness still face.says_turn active face.low_light (ground arith)
      (ground arith)
