-- ===== src/Overlay/Laws.antt =====
-- What a pass over the faces of a frame keeps: the cache keys of one frame are distinct, and new ones
-- are not in use.
use facenox.Base.{
  ℕ, ◌+◌, ◌<◌, ◌≡◌, refl, ap, ◌∙◌, Bool, true, false, not, ◌||◌, List, [], ◌∷◌, ◌++◌, Option, none,
  some, arith, length, ◌==◌, All, All-append, if◌then◌else◌, if_elim, inl, inr, Option-cases,
}
use facenox.Base.Keys.{◌===◌}
use facenox.JsMap.{JsMap, get, set}
use facenox.Overlay.{
  Face, CacheKey, track, anon, verify, key_eq, Entry, Options, Frame, first_frame, is_used,
  positive_track, is_some, best_match, find_best_key, take_key, on_match, all_faces,
  is_hold_still_candidate, update_hold_still_cache, is_held, next_entry,
}

-- The numbers of the anonymous keys that have been given out are below the seed.
abbrev pub Below : ℕ → CacheKey → Type 0
Below seed (anon n) = n < seed
Below seed (track n) = Unit {0}
Below seed (verify n) = Unit {0}

abbrev pub keys_of : {Box : Type 0} → JsMap CacheKey (Entry Box) → List CacheKey
keys_of [] = []
keys_of ((key, entry) ∷ cache) = key ∷ keys_of cache

-- The keys of the faces of a frame, in their order.
abbrev pub keys_of_faces : List (ℕ × CacheKey) → List CacheKey
keys_of_faces [] = []
keys_of_faces ((index, key) ∷ faces) = key ∷ keys_of_faces faces

-- No key stands twice.
abbrev pub Distinct : List CacheKey → Type 0
Distinct [] = Unit {0}
Distinct (key ∷ keys) = (is_used keys key ≡ false) × Distinct keys

is_used-append :
    (keys : List CacheKey) (last key : CacheKey)
    → is_used (keys ++ last ∷ []) key ≡ (is_used keys key || last === key)
is_used-append [] last key = ground arith
is_used-append (k ∷ keys) last key = ground (arith, is_used-append keys last key)

Distinct-append :
    (keys : List CacheKey) (last : CacheKey)
    → Distinct keys
    → is_used keys last ≡ false
    → Distinct (keys ++ last ∷ [])
Distinct-append [] last h unused = (refl, tt)
Distinct-append (k ∷ keys) last (apart, h) unused = (
  ground (arith, is_used-append keys last k, key_eq.same_iff k last, key_eq.same_iff last k),
  Distinct-append keys last h (ground arith),
)

keys_of_faces-append :
    (faces : List (ℕ × CacheKey)) (index : ℕ) (key : CacheKey)
    → keys_of_faces (faces ++ (index, key) ∷ []) ≡ keys_of_faces faces ++ key ∷ []
keys_of_faces-append [] index key = refl
keys_of_faces-append ((i, k) ∷ faces) index key = ap (◌∷◌ k) (keys_of_faces-append faces index key)

Below-later : (n : ℕ) (keys : List CacheKey) → All (Below n) keys → All (Below (n + 1)) keys
Below-later n [] h = tt
Below-later n (anon k ∷ keys) (b, h) = (omega arith, Below-later n keys h)
Below-later n (track k ∷ keys) (b, h) = (tt, Below-later n keys h)
Below-later n (verify k ∷ keys) (b, h) = (tt, Below-later n keys h)

fresh_unused : (n : ℕ) (keys : List CacheKey) → All (Below n) keys → is_used keys (anon n) ≡ false
fresh_unused n [] h = refl
fresh_unused n (anon k ∷ keys) (b, h) = ground (arith, fresh_unused n keys h)
fresh_unused n (track k ∷ keys) (b, h) = fresh_unused n keys h
fresh_unused n (verify k ∷ keys) (b, h) = fresh_unused n keys h

set-All :
    {Box : Type 0} (P : CacheKey → Type 0) (key : CacheKey) (entry : Entry Box)
    (cache : JsMap CacheKey (Entry Box))
    → P key
    → All P (keys_of cache)
    → All P (keys_of (set key entry cache))
unfolding set
set-All P key entry [] p h = (p, tt)
set-All P key entry ((k, old) ∷ cache) p (q, h) =
    let rest = set-All P key entry cache p h in
    if_elim (λ (m : JsMap CacheKey (Entry _)). All P (keys_of m)) (k === key) (λ same. (q, h))
      (λ other. (q, rest))

-- A key that may be taken: it satisfies `P` and is not in use.
abbrev Free : (CacheKey → Type 0) → List CacheKey → Option CacheKey → Type 0
Free P used none = Unit {0}
Free P used (some key) = P key × (is_used used key ≡ false)

module _ {Box N : Type 0} (iou : Box → Box → N) (above : N → N → Bool) (reaches : N → Bool)
    (none_yet : N) where
  best_match-Free :
      (P : CacheKey → Type 0) (used : List CacheKey) (box : Box)
      (cache : JsMap CacheKey (Entry Box)) (best : Option CacheKey × N)
      → All P (keys_of cache)
      → Free P used best.0
      → Free P used (best_match iou above reaches none_yet used box cache best).0
  unfolding best_match
  best_match-Free P used box [] best h free = free
  best_match-Free P used box ((key, entry) ∷ cache) best (p, h) free =
      let skip = best_match-Free P used box cache best h free in
      if_elim (λ (b : Option CacheKey × N). Free P used b.0) (is_used used key) (λ taken. skip)
        (λ unused.
          if_elim (λ (b : Option CacheKey × N). Free P used b.0) (above (iou box entry.bbox) best.1)
            (λ better.
              best_match-Free P used box cache (some key, iou box entry.bbox) h (p, unused))
            (λ worse. skip))

  find_best_key-Free :
      (P : CacheKey → Type 0) (face : Face Box) (cache : JsMap CacheKey (Entry Box))
      (used : List CacheKey)
      → All P (keys_of cache)
      → positive_track face.track_id ≡ none
      → Free P used (find_best_key iou above reaches none_yet face cache used)
  unfolding find_best_key
  find_best_key-Free P face cache used h untracked =
      at_track (positive_track face.track_id) untracked
    where
      at_track :
          (id : Option ℕ)
          → id ≡ none
          → Free P used (elim id [
            | some id ↦ some (track id)
            | none ↦
                let best =
                  best_match iou above reaches none_yet used face.bbox cache (none, none_yet) in
                if reaches best.1 then best.0 else none
          ])
      at_track (some id) e = absurd cc
      at_track none e =
          if_elim (Free P used)
            (reaches
              (best_match iou above reaches none_yet used face.bbox cache (none, none_yet)).1)
            (λ near. best_match-Free P used face.bbox cache (none, none_yet) h tt) (λ far. tt)

  -- A pass so far.
  record Good (cache : JsMap CacheKey (Entry Box)) (f : Frame Box) : Type 0 where
    pub apart : Distinct f.used_keys
    pub listed : keys_of_faces f.face_keys ≡ f.used_keys
    pub used_below : All (Below f.seed) f.used_keys
    pub next_below : All (Below f.seed) (keys_of f.next_cache)
    pub cache_below : All (Below f.seed) (keys_of cache)

  on_match-Good :
      (is_active : Entry Box → Bool) (cache : JsMap CacheKey (Entry Box)) (now index : ℕ)
      (face : Face Box) (key : Option CacheKey) (f : Frame Box)
      → Good cache f
      → Free (Below f.seed) f.used_keys key
      → Good cache (on_match iou above reaches none_yet anon is_active cache now index face key f)
  unfolding on_match take_key
  on_match-Good is_active cache now index face none f h free =
      let below : f.seed < f.seed + 1 = omega arith in
      record {
        apart =
            Distinct-append f.used_keys (anon f.seed) h.apart
              (fresh_unused f.seed f.used_keys h.used_below);
        listed =
            keys_of_faces-append f.face_keys index (anon f.seed)
            ∙ ap (λ (ks : List CacheKey). ks ++ anon f.seed ∷ []) h.listed;
        used_below =
            All-append (Below (f.seed + 1)) f.used_keys (anon f.seed ∷ [])
              (Below-later f.seed f.used_keys h.used_below) (below, tt);
        next_below =
            set-All (Below (f.seed + 1)) (anon f.seed) (next_entry face none now) f.next_cache below
              (Below-later f.seed (keys_of f.next_cache) h.next_below);
        cache_below = Below-later f.seed (keys_of cache) h.cache_below;
      }
  on_match-Good is_active cache now index face (some key) f h (below, unused) = record {
    apart = Distinct-append f.used_keys key h.apart unused;
    listed =
        keys_of_faces-append f.face_keys index key
        ∙ ap (λ (ks : List CacheKey). ks ++ key ∷ []) h.listed;
    used_below = All-append (Below f.seed) f.used_keys (key ∷ []) h.used_below (below, tt);
    next_below =
        set-All (Below f.seed) key (next_entry face (get key cache) now) f.next_cache below
          h.next_below;
    cache_below = h.cache_below;
  }

  Good-keys :
      (cache : JsMap CacheKey (Entry Box)) (f : Frame Box)
      → Good cache f
      → Distinct (keys_of_faces f.face_keys) × All (Below f.seed) (keys_of f.next_cache)
  Good-keys cache f h = (rw h.listed h.apart, h.next_below)

  candidate-untracked :
      (o : Options) (face : Face Box)
      → is_hold_still_candidate o face ≡ true
      → positive_track face.track_id ≡ none
  unfolding is_hold_still_candidate
  candidate-untracked o face h = elim (Option-cases (positive_track face.track_id)) [
    | inl absent ↦ absent
    | inr (id, there) ↦ absurd (ground (arith, h, ap is_some there))
  ]

  all_faces-Good :
      (o : Options) (is_active : Entry Box → Bool) (cache : JsMap CacheKey (Entry Box))
      (now index : ℕ) (faces : List (Face Box)) (f : Frame Box)
      → Good cache f
      → Good cache (
          all_faces iou above reaches none_yet
            (is_hold_still_candidate o)
            anon
            is_active
            cache
            now
            index
            faces
            f)
  unfolding all_faces
  all_faces-Good o is_active cache now index [] f h = h
  all_faces-Good o is_active cache now index (face ∷ faces) f h =
      all_faces-Good o is_active cache now (index + 1) faces _ (
        if_elim (Good cache) (is_hold_still_candidate o face)
          (λ candidate. on_match-Good is_active cache now index face _ f h (
            find_best_key-Free (Below f.seed) face cache f.used_keys h.cache_below
              (candidate-untracked o face candidate)))
          (λ passed. h))

  -- If the anonymous keys of the old cache are below the seed, the faces of a frame get distinct
  -- keys in the hold-still cache, so that no two of them share an entry, and the anonymous keys of
  -- the new cache are below the new seed.
  pub update_hold_still_cache-Distinct :
      (faces : List (Face Box)) (cache : JsMap CacheKey (Entry Box)) (now seed : ℕ) (o : Options)
      → All (Below seed) (keys_of cache)
      → let f = update_hold_still_cache iou above reaches none_yet faces cache now seed o in
        Distinct (keys_of_faces f.face_keys) × All (Below f.seed) (keys_of f.next_cache)
  unfolding update_hold_still_cache
  update_hold_still_cache-Distinct faces cache now seed o below =
      let start : Good cache (first_frame seed) = record {
        apart = tt;
        listed = refl;
        used_below = tt;
        next_below = tt;
        cache_below = below;
      } in
      if_elim
        (λ (f : Frame Box).
          Distinct (keys_of_faces f.face_keys) × All (Below f.seed) (keys_of f.next_cache))
        (not o.enable_spoof_detection || length faces == 0) (λ off. (tt, tt))
        (λ on.
          Good-keys cache _
            (all_faces-Good o (is_held now o) cache now 0 faces (first_frame seed) start))
