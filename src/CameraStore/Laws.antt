-- ===== src/CameraStore/Laws.antt =====
-- app/src/components/main/stores/cameraStore.ts: which camera is used when the devices change.
use facenox.Base.{
  ◌≡◌, refl, sym, Bool, true, false, List, [], ◌∷◌, Option, none, some, String, any, if◌then◌else◌,
  if_elim, inl, Elem, arith,
}
use mathlib.Core.Path.{subst}
use facenox.Base.Keys.{string_eq}
use facenox.CameraStore.{
  MediaDeviceInfo, CameraState, truthy, has_id, has_label, find_by, match_label, labelled, choose,
  set_camera_devices,
}

abbrev ids : List MediaDeviceInfo → List String
ids [] = []
ids (device ∷ devices) = device.device_id ∷ ids devices

-- The camera that is used is one of the devices. It is the chosen one, unless it is said to be
-- missing: then no device has its id, and the first device is used.
abbrev pub Chosen : String → MediaDeviceInfo → List MediaDeviceInfo → CameraState → Type 0
Chosen id first devices s =
    Elem s.selected_camera (ids devices)
    × (if s.is_preferred_camera_missing
        then (any (has_id id) devices ≡ false) × (s.selected_camera ≡ first.device_id)
        else (s.preferred_camera_id ≡ some s.selected_camera))

any-ids :
    (id : String) (devices : List MediaDeviceInfo)
    → any (has_id id) devices ≡ true
    → Elem id (ids devices)
any-ids id [] h = absurd cc
any-ids id (device ∷ devices) h =
    ground (arith, any-ids id devices, string_eq.same_iff device.device_id id, h)

find_by-ids :
    (p : MediaDeviceInfo → Bool) (devices : List MediaDeviceInfo) (device : MediaDeviceInfo)
    → find_by p devices ≡ some device
    → Elem device.device_id (ids devices)
find_by-ids p [] device h = absurd cc
find_by-ids p (other ∷ devices) device h = ground (arith, find_by-ids p devices device, h)

truthy-some : (o : Option String) (text : String) → truthy o ≡ some text → o ≡ some text
truthy-some none text h = absurd cc
truthy-some (some other) text h = ground (arith, h)

match_label-Chosen :
    (found : Option MediaDeviceInfo) (id : String) (first : MediaDeviceInfo)
    (devices : List MediaDeviceInfo) (s : CameraState)
    → ((device : MediaDeviceInfo)
        → found ≡ some device
        → Elem device.device_id (ids (first ∷ devices)))
    → any (has_id id) (first ∷ devices) ≡ false
    → Chosen id first (first ∷ devices) (match_label found (some id) first s)
match_label-Chosen none id first devices s finds none_has = (inl refl, (none_has, refl))
match_label-Chosen (some device) id first devices s finds none_has = (finds device refl, refl)

labelled-ids :
    (label : Option String) (devices : List MediaDeviceInfo) (device : MediaDeviceInfo)
    → labelled label devices ≡ some device
    → Elem device.device_id (ids devices)
labelled-ids none devices device h = absurd cc
labelled-ids (some label) devices device h = find_by-ids (has_label label) devices device h

-- When the devices have changed and a camera has been chosen, the camera that is used is one of the
-- devices. It is the chosen one, which a device with the chosen label replaces, unless the chosen one
-- is said to be missing: then no device has its id, and the first device is used.
pub set_camera_devices-Chosen :
    (id : String) (first : MediaDeviceInfo) (devices : List MediaDeviceInfo) (s : CameraState)
    → truthy s.preferred_camera_id ≡ some id
    → Chosen id first (first ∷ devices) (set_camera_devices (first ∷ devices) s)
unfolding set_camera_devices
set_camera_devices-Chosen id first devices s h =
    let s' : CameraState = record s { camera_devices = first ∷ devices } in
    let label = truthy s.preferred_camera_label in
    subst
      (λ (preferred : Option String).
        Chosen id first (first ∷ devices) (choose preferred label first (first ∷ devices) s'))
      (sym h)
      (if_elim (Chosen id first (first ∷ devices)) (any (has_id id) (first ∷ devices))
        (λ has. (any-ids id (first ∷ devices) has, truthy-some s.preferred_camera_id id h))
        (λ none_has.
          match_label-Chosen (labelled label (first ∷ devices)) id first devices s'
            (labelled-ids label (first ∷ devices)) none_has))
