-- ===== src/Pairing/Handlers/Location.antt =====
-- The handlers never take the local data to another location.
use mathlib.Core.Path.{subst}
use facenox.Base.{
  ℕ, ◌≡◌, refl, sym, ap, ◌∙◌, Bool, true, false, not, ◌&&◌, ◌||◌, Option, none, some, List, [], ◌∷◌,
  String, ◌⊎◌, inl, inr, if_elim, All,
}
use facenox.Base.Keys.{◌===◌, string_eq}
use facenox.Base.Text.{Text}
use facenox.Pairing.{
  DataOrigin, PairingStore, PairingPayload, DirectoryAnswer, text_or_empty, non_empty, same_option,
  differs, elsewhere, is_movable, set_origin, clear_remote_connection, is_connected, Result,
}
use facenox.Pairing.Handlers.{
  ConfigUpdates, Request, update_sync_config, disconnect_device, handle, handle_all, set_name,
  set_interval, set_others, set_address, set_enabled, stored_address,
}
use facenox.Pairing.Handlers.Cases.{May, Kept, Occupied, complete_pairing-elim, handle-elim}

-- What is known of the location that the local data belongs to, as the status writes it.
abbrev location_of : DataOrigin → String × String
location_of origin = (text_or_empty origin.organization_id, text_or_empty origin.site_id)

abbrev location_in : Option DataOrigin → Option (String × String)
location_in none = none
location_in (some origin) = some (location_of origin)

abbrev pub location : PairingStore → Option (String × String)
location s = location_in s.data_origin

-- The connection of a store, if it has an organization, is to the location of its local data.
abbrev pub Anchored : PairingStore → Type 0
Anchored s = (s.organization_id ≡ "") ⊎ (location s ≡ some (s.organization_id, s.site_id))

-- What these laws look at.
abbrev View : Type 0
View = String × String × Option DataOrigin

abbrev view : PairingStore → View
view s = (s.organization_id, s.site_id, s.data_origin)

abbrev AnchoredView : View → Type 0
AnchoredView (organization, site, origin) =
    (organization ≡ "") ⊎ (location_in origin ≡ some (organization, site))

same_option→eq : (a b : Option String) → same_option a b ≡ true → a ≡ b
same_option→eq none none h = refl
same_option→eq (some a) (some b) h = ap some ((string_eq.same_iff a b).0 h)
same_option→eq none (some b) h = absurd cc
same_option→eq (some a) none h = absurd cc

not_or : (a b : Bool) → (not a || b) ≡ false → (a ≡ true) × (b ≡ false)
not_or true b h = (refl, h)
not_or false b h = absurd cc

and_false : (b : Bool) → (b && false) ≡ false
and_false true = refl
and_false false = refl

and_true : (a b : Bool) → b ≡ false → (a && not b) ≡ false → a ≡ false
and_true true true h k = absurd cc
and_true true false h k = absurd cc
and_true false b h k = refl

pub is_connected-organization :
    (resolve : String → String) (s : PairingStore)
    → s.organization_id ≡ ""
    → is_connected resolve s ≡ false
unfolding is_connected
is_connected-organization resolve s h = rw h (and_false (non_empty (resolve s.remote_base_url)))

-- A location that a pairing may not leave is the one it connects to.
May-location :
    (resolve : String → String) (url : String) (payload : PairingPayload) (answer : DirectoryAnswer)
    (s : PairingStore) (l : String × String)
    → Kept answer
    → location s ≡ some l
    → May resolve url payload answer s
    → location (set_origin url payload s) ≡ some l
May-location resolve url payload answer s l kept known may = at_origin s.data_origin known may
  where
    at_origin :
        (o : Option DataOrigin)
        → location_in o ≡ some l
        → (elsewhere o url payload && not (is_movable answer)) ≡ false
        → location (set_origin url payload s) ≡ some l
    at_origin none k m = absurd cc
    at_origin (some origin) k m =
        let parts =
          not_or (same_option origin.organization_id payload.organization_id)
            (not (same_option origin.site_id payload.site_id)
              || not (origin.remote_base_url === url))
            (and_true (differs origin url payload) (is_movable answer) kept m) in
        let more =
          not_or (same_option origin.site_id payload.site_id) (not (origin.remote_base_url === url))
            parts.1 in
        ap some (
          ap (λ (o : Option String). (text_or_empty o, text_or_empty payload.site_id))
            (sym (same_option→eq origin.organization_id payload.organization_id parts.0))
          ∙ ap (λ (o : Option String). (text_or_empty origin.organization_id, text_or_empty o))
              (sym (same_option→eq origin.site_id payload.site_id more.0)))
        ∙ k

module _ (trim : String → String) (trim_code : Text → Text) (resolve normalize : String → String)
    (is_default : String → Bool) where
  view-set_name :
      (o : Option String) (s : PairingStore)
      → view (set_name trim trim_code resolve normalize is_default o s) ≡ view s
  view-set_name none s = refl
  view-set_name (some name) s = refl

  view-set_interval : (o : Option ℕ) (s : PairingStore) → view (set_interval o s) ≡ view s
  view-set_interval none s = refl
  view-set_interval (some minutes) s = refl

  view-set_enabled : (o : Option Bool) (s : PairingStore) → view (set_enabled o s) ≡ view s
  view-set_enabled none s = refl
  view-set_enabled (some enabled) s = refl

  view-set_others :
      (u : ConfigUpdates) (s : PairingStore)
      → view (set_others trim trim_code resolve normalize is_default u s) ≡ view s
  view-set_others u s =
      let named = set_name trim trim_code resolve normalize is_default u.device_name s in
      view-set_enabled u.enabled (set_interval u.interval_minutes named)
      ∙ (view-set_interval u.interval_minutes named ∙ view-set_name u.device_name s)

  view-update_sync_config :
      (u : ConfigUpdates) (s : PairingStore)
      → view (update_sync_config trim trim_code resolve normalize is_default u s).1 ≡ view s
  unfolding update_sync_config
  view-update_sync_config u s = address u.remote_base_url
    where
      address :
          (o : Option String)
          → view (set_address trim trim_code resolve normalize is_default o u s).1 ≡ view s
      address none = view-set_others u s
      address (some text) =
          if_elim (λ (r : Result). view r.1 ≡ view s)
            (non_empty s.device_id && not (resolve text === resolve s.remote_base_url)) (λ _. refl)
            (λ _. view-set_others u (record s {
              remote_base_url = stored_address trim trim_code resolve normalize is_default text;
            }))

  handle-Anchored :
      (request : Request) (s : PairingStore)
      → Anchored s
      → Anchored (handle trim trim_code resolve normalize is_default request s).1
  handle-Anchored request s h =
      let P : Result → Type 0 = λ r. Anchored r.1 in
      handle-elim trim trim_code resolve normalize is_default P request s h
        (λ url name payload answer assigned kept.
          complete_pairing-elim resolve P url name payload answer assigned s h (λ _. inr refl)
            (λ _. inr refl))
        (λ u. subst AnchoredView (sym (view-update_sync_config u s)) h)
        (unfold disconnect_device clear_remote_connection in inl refl)

  disconnect_device-location :
      (s : PairingStore) (l : String × String)
      → Anchored s
      → location s ≡ some l
      → location (disconnect_device trim trim_code resolve normalize is_default true s).1 ≡ some l
  unfolding disconnect_device clear_remote_connection
  disconnect_device-location s l (inl no_organization) known =
      rw (is_connected-organization resolve s no_organization) known
  disconnect_device-location s l (inr same) known =
      if_elim (λ (t : PairingStore). location t ≡ some l) (is_connected resolve s)
        (λ _. sym same ∙ known) (λ _. known)

  handle-location :
      (request : Request) (s : PairingStore) (l : String × String)
      → Occupied request
      → Anchored s
      → location s ≡ some l
      → location (handle trim trim_code resolve normalize is_default request s).1 ≡ some l
  handle-location request s l occupied anchored known =
      let P : Result → Type 0 = λ r. location r.1 ≡ some l in
      handle-elim trim trim_code resolve normalize is_default P request s known
        (λ url name payload answer assigned kept.
          complete_pairing-elim resolve P url name payload answer assigned s known
            (May-location resolve url payload answer s l (kept occupied) known)
            (May-location resolve url payload answer s l (kept occupied) known))
        (λ u. ap (λ (v : View). location_in v.2) (view-update_sync_config u s) ∙ known)
        (disconnect_device-location s l anchored known)

  pub handle_all-Anchored :
      (requests : List Request) (s : PairingStore)
      → Anchored s
      → Anchored (handle_all trim trim_code resolve normalize is_default requests s)
  unfolding handle_all
  handle_all-Anchored [] s h = h
  handle_all-Anchored (request ∷ requests) s h =
      handle_all-Anchored requests (handle trim trim_code resolve normalize is_default request s).1
        (handle-Anchored request s h)

  -- From a store that is consistent, a known location of the local data stays what it is through
  -- any requests, as long as the local directory that a pairing exports is not found to be empty.
  pub handle_all-location :
      (requests : List Request) (s : PairingStore) (l : String × String)
      → All Occupied requests
      → Anchored s
      → location s ≡ some l
      → location (handle_all trim trim_code resolve normalize is_default requests s) ≡ some l
  unfolding handle_all
  handle_all-location [] s l occupied h known = known
  handle_all-location (request ∷ requests) s l (o, occupied) h known =
      handle_all-location requests (handle trim trim_code resolve normalize is_default request s).1
        l occupied (handle-Anchored request s h) (handle-location request s l o h known)
