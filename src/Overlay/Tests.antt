-- ===== src/Overlay/Tests.antt =====
-- Frames with boxes that are numbers, where two boxes overlap if they are equal.
use facenox.Base.{
  ℕ, ◌≡◌, refl, Bool, true, false, [], ◌∷◌, none, some, ltb, leb, ◌==◌, if◌then◌else◌,
}
use facenox.JsMap.{JsMap}
use facenox.Overlay.{
  Face, candidate_real, CacheKey, anon, Entry, Options, Frame, negsuc, update_hold_still_cache,
}
use facenox.Overlay.Guidance.{get_overlay_guidance}

abbrev overlap : ℕ → ℕ → ℕ
overlap a b = if a == b then 10 else 0

abbrev more : ℕ → ℕ → Bool
more a b = ltb b a

abbrev near : ℕ → Bool
near n = leb 3 n

abbrev face : ℕ → Face ℕ
face box = record {
  bbox = box;
  track_id = some (negsuc 0);
  recognition = none;
  liveness = some candidate_real;
  says_turn = true;
  low_light = false;
}

abbrev options : Options
options = record {
  enable_spoof_detection = true;
  recognition_enabled = true;
  current_results = λ id. none;
  min_frames = 2;
  min_duration_ms = 250;
}

abbrev old : JsMap CacheKey (Entry ℕ)
old =
    (anon 4, record { bbox = 7; first_seen_at = 100; last_seen_at = 100; consecutive_frames = 1 })
    ∷ []

-- Two faces at the place of the old one, and one elsewhere.
abbrev frame : Frame ℕ
frame =
    update_hold_still_cache overlap more near 0 (face 7 ∷ face 7 ∷ face 9 ∷ []) old 130 5 options

keys_given : frame.face_keys ≡ (0, anon 4) ∷ (1, anon 5) ∷ (2, anon 6) ∷ []
unfolding update_hold_still_cache
keys_given = refl

held : frame.active_keys ≡ anon 4 ∷ []
unfolding update_hold_still_cache
held = refl

suppressed : get_overlay_guidance (face 7) true true none false true ≡ none
unfolding get_overlay_guidance
suppressed = refl
