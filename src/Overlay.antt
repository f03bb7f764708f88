-- ===== src/Overlay.antt =====
-- app/src/components/main/utils/overlayGuidance.ts: the hint at a face in the live view, and the two
-- caches that follow faces without a track id from frame to frame.
--
-- Numbers of JavaScript that are fractions are not modelled: the overlap of two boxes is a value of a
-- type `N`, and the section's parameters are `getBoundingBoxIoU` as `iou`, the test `iou > bestIoU`
-- as `above`, the test of the threshold as `reaches`, and 0 as `none_yet`. Times are milliseconds.
pub mod Guidance
pub mod Laws
pub mod Hints
mod Tests
use facenox.Base.{
  ℕ, ◌+◌, ◌≡◌, refl, Bool, true, false, not, ◌&&◌, ◌||◌, List, [], ◌∷◌, ◌++◌, Option, none, some,
  String, ltb, leb, ◌==◌, if◌then◌else◌, any, length, ==_iff, arith, ◌↔◌,
}
use facenox.Base.Keys.{Eq, ◌===◌, string_eq}
use facenox.JsMap.{JsMap, get, set}

-- A number that is a track id.
pub data TrackId : Type 0 where
  pos negsuc : ℕ → TrackId

pub data LivenessStatus : Type 0 where
  real spoof candidate_real unsure center_face move_closer glare too_dark look_at_camera other :
      LivenessStatus

-- `person_id` is `none` where it is missing or empty.
pub record Recognition : Type 0 where
  pub person_id : Option String

-- `liveness` is `none` where the field or its status is missing; `says_turn` is the test of its
-- message.
pub record Face (Box : Type 0) : Type 0 where
  pub bbox : Box
  pub track_id : Option TrackId
  pub recognition : Option Recognition
  pub liveness : Option LivenessStatus
  pub says_turn : Bool
  pub low_light : Bool

-- `track-…`, `anon-…` and `verify-…`
pub data CacheKey : Type 0 where
  track anon verify : ℕ → CacheKey

abbrev pub same_key : CacheKey → CacheKey → Bool
same_key (track a) (track b) = a == b
same_key (anon a) (anon b) = a == b
same_key (verify a) (verify b) = a == b
same_key _ _ = false

pub same_key_iff : (a b : CacheKey) → (same_key a b ≡ true) ↔ (a ≡ b)
same_key_iff (track a) (track b) = ground (arith, ==_iff a b)
same_key_iff (anon a) (anon b) = ground (arith, ==_iff a b)
same_key_iff (verify a) (verify b) = ground (arith, ==_iff a b)
same_key_iff (track a) (anon b) = ((λ h. absurd cc), (λ h. absurd cc))
same_key_iff (track a) (verify b) = ((λ h. absurd cc), (λ h. absurd cc))
same_key_iff (anon a) (track b) = ((λ h. absurd cc), (λ h. absurd cc))
same_key_iff (anon a) (verify b) = ((λ h. absurd cc), (λ h. absurd cc))
same_key_iff (verify a) (track b) = ((λ h. absurd cc), (λ h. absurd cc))
same_key_iff (verify a) (anon b) = ((λ h. absurd cc), (λ h. absurd cc))

instance abbrev pub key_eq : Eq CacheKey
key_eq = record { same = same_key; same_iff = same_key_iff }

pub record Entry (Box : Type 0) : Type 0 where
  pub bbox : Box
  pub first_seen_at : ℕ
  pub last_seen_at : ℕ
  pub consecutive_frames : ℕ

pub positive_track : Option TrackId → Option ℕ
positive_track none = none
positive_track (some (negsuc n)) = none
positive_track (some (pos n)) = if ltb 0 n then some n else none

abbrev or_else : Option Recognition → Option Recognition → Option Recognition
or_else none later = later
or_else (some first) later = some first

abbrev pub has_person : Option Recognition → Bool
has_person none = false
has_person (some r) = elim r.person_id [ none ↦ false | some id ↦ true ]

abbrev is_real : Option LivenessStatus → Bool
is_real (some real) = true
is_real _ = false

pub has_higher_priority : Option LivenessStatus → Bool
has_higher_priority (some center_face) = true
has_higher_priority (some move_closer) = true
has_higher_priority (some look_at_camera) = true
has_higher_priority _ = false

pub is_verifying : Option LivenessStatus → Bool
is_verifying (some spoof) = true
is_verifying (some candidate_real) = true
is_verifying (some unsure) = true
is_verifying _ = false

abbrev is_some : Option ℕ → Bool
is_some none = false
is_some (some n) = true

pub record Options : Type 0 where
  pub enable_spoof_detection : Bool
  pub recognition_enabled : Bool
  pub current_results : TrackId → Option Recognition
  pub min_frames : ℕ
  pub min_duration_ms : ℕ

module _ {Box : Type 0} where
  pub recognition_result : Options → Face Box → Option Recognition
  recognition_result o face = elim face.track_id [
    | none ↦ face.recognition
    | some id ↦ or_else (o.current_results id) face.recognition
  ]

  pub is_recognized_live : Bool → Option Recognition → Face Box → Bool
  is_recognized_live enabled result face = enabled && (has_person result && is_real face.liveness)

  pub is_hold_still_candidate : Options → Face Box → Bool
  unfolding recognition_result is_recognized_live has_higher_priority positive_track
  is_hold_still_candidate o face =
      o.enable_spoof_detection
      && (not (is_recognized_live o.recognition_enabled (recognition_result o face) face)
          && (not (has_higher_priority face.liveness)
              && not (is_some (positive_track face.track_id))))

  pub is_verifying_hint_candidate : Options → Face Box → Bool
  unfolding recognition_result is_recognized_live has_higher_priority is_verifying
  is_verifying_hint_candidate o face =
      o.enable_spoof_detection
      && (not (is_recognized_live o.recognition_enabled (recognition_result o face) face)
          && (not (has_higher_priority face.liveness) && is_verifying face.liveness))

  -- `buildPersistenceCacheEntry`
  pub next_entry : Face Box → Option (Entry Box) → ℕ → Entry Box
  next_entry face none now = record {
    bbox = face.bbox;
    first_seen_at = now;
    last_seen_at = now;
    consecutive_frames = 1;
  }
  next_entry face (some old) now = record {
    bbox = face.bbox;
    first_seen_at = old.first_seen_at;
    last_seen_at = now;
    consecutive_frames = old.consecutive_frames + 1;
  }

-- The variables of a pass over the faces of a frame.
pub record Frame (Box : Type 0) : Type 0 where
  pub next_cache : JsMap CacheKey (Entry Box)
  pub active_keys : List CacheKey
  pub face_keys : List (ℕ × CacheKey)
  pub used_keys : List CacheKey
  pub seed : ℕ

abbrev pub first_frame : {Box : Type 0} → ℕ → Frame Box
first_frame seed = record {
  next_cache = [];
  active_keys = [];
  face_keys = [];
  used_keys = [];
  seed = seed;
}

abbrev pub is_used : List CacheKey → CacheKey → Bool
is_used used key = any (λ other. other === key) used

module _ {Box : Type 0} where
  abbrev pub lasts : ℕ → Options → Entry Box → Bool
  lasts now o entry = leb (entry.first_seen_at + o.min_duration_ms) now

  abbrev pub is_held : ℕ → Options → Entry Box → Bool
  is_held now o entry = leb o.min_frames entry.consecutive_frames || lasts now o entry

module _ {Box N : Type 0} (iou : Box → Box → N) (above : N → N → Bool) (reaches : N → Bool)
    (none_yet : N) where
  -- The loop over the cache, from the best key and overlap so far.
  pub best_match :
      List CacheKey → Box → JsMap CacheKey (Entry Box) → Option CacheKey × N → Option CacheKey × N
  best_match used box [] best = best
  best_match used box ((key, entry) ∷ cache) best =
      let found = iou box entry.bbox in
      let skip = best_match used box cache best in
      let take = best_match used box cache (some key, found) in
      if is_used used key then skip else (if above found best.1 then take else skip)

  pub find_best_key : Face Box → JsMap CacheKey (Entry Box) → List CacheKey → Option CacheKey
  unfolding best_match positive_track
  find_best_key face cache used = elim (positive_track face.track_id) [
    | some id ↦ some (track id)
    | none ↦
        let best = best_match used face.bbox cache (none, none_yet) in
        if reaches best.1 then best.0 else none
  ]

  -- The body of `forEach` for a candidate: `fresh` names the kind of its new keys, and `is_active`
  -- tests its entry.
  take_key :
      (Entry Box → Bool)
      → JsMap CacheKey (Entry Box)
      → ℕ
      → ℕ
      → Face Box
      → CacheKey
      → Option (Entry Box)
      → ℕ
      → Frame Box
      → Frame Box
  unfolding next_entry set
  take_key is_active cache now index face key previous seed f =
      let entry = next_entry face previous now in
      record {
        next_cache = set key entry f.next_cache;
        active_keys = if is_active entry then f.active_keys ++ key ∷ [] else f.active_keys;
        face_keys = f.face_keys ++ (index, key) ∷ [];
        used_keys = f.used_keys ++ key ∷ [];
        seed = seed;
      }

  on_match :
      (ℕ → CacheKey)
      → (Entry Box → Bool)
      → JsMap CacheKey (Entry Box)
      → ℕ
      → ℕ
      → Face Box
      → Option CacheKey
      → Frame Box
      → Frame Box
  unfolding take_key get
  on_match fresh is_active cache now index face none f =
      take_key is_active cache now index face (fresh f.seed) none (f.seed + 1) f
  on_match fresh is_active cache now index face (some key) f =
      take_key is_active cache now index face key (get key cache) f.seed f

  pub all_faces :
      (Face Box → Bool)
      → (ℕ → CacheKey)
      → (Entry Box → Bool)
      → JsMap CacheKey (Entry Box)
      → ℕ
      → ℕ
      → List (Face Box)
      → Frame Box
      → Frame Box
  unfolding on_match find_best_key
  all_faces is_candidate fresh is_active cache now index [] f = f
  all_faces is_candidate fresh is_active cache now index (face ∷ faces) f =
      let next =
        if is_candidate face
        then on_match fresh is_active cache now index face (find_best_key face cache f.used_keys) f
        else f in
      all_faces is_candidate fresh is_active cache now (index + 1) faces next

  pub update_hold_still_cache :
      List (Face Box) → JsMap CacheKey (Entry Box) → ℕ → ℕ → Options → Frame Box
  unfolding all_faces is_hold_still_candidate
  update_hold_still_cache faces cache now seed o =
      if not o.enable_spoof_detection || length faces == 0
      then first_frame seed
      else all_faces (is_hold_still_candidate o) anon (is_held now o) cache now 0 faces
          (first_frame seed)

  pub update_verifying_hint_cache :
      List (Face Box) → JsMap CacheKey (Entry Box) → ℕ → ℕ → Options → Frame Box
  unfolding all_faces is_verifying_hint_candidate
  update_verifying_hint_cache faces cache now seed o =
      if not o.enable_spoof_detection || length faces == 0
      then first_frame seed
      else all_faces (is_verifying_hint_candidate o) verify (lasts now o) cache now 0 faces
          (first_frame seed)
