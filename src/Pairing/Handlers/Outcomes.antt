-- ===== src/Pairing/Handlers/Outcomes.antt =====
-- What a failure and a disconnection leave of the connection.
use facenox.Base.{
  ◌≡◌, refl, Bool, true, false, not, ◌&&◌, Option, none, some, String, ◌⊎◌, inl, inr, if_elim,
}
use facenox.Base.Keys.{◌===◌, string_eq}
use facenox.Base.Text.{Text}
use facenox.Pairing.{
  PairingStore, non_empty, is_policy_ready, no_policy, clear_remote_connection, is_connected,
  Result,
}
use facenox.Pairing.Handlers.{
  ConfigUpdates, Request, update_sync_config, disconnect_device, handle, set_address,
}
use facenox.Pairing.Handlers.Location.{is_connected-organization}
use facenox.Pairing.Handlers.Cases.{complete_pairing-elim, handle-elim}

module _ (trim : String → String) (trim_code : Text → Text) (resolve normalize : String → String)
    (is_default : String → Bool) where
  update_sync_config-failure :
      (u : ConfigUpdates) (s : PairingStore)
      → (update_sync_config trim trim_code resolve normalize is_default u s).0 ≡ false
      → ((update_sync_config trim trim_code resolve normalize is_default u s).1 ≡ s)
        ⊎ ((update_sync_config trim trim_code resolve normalize is_default u s).1.enabled ≡ false)
  unfolding update_sync_config
  update_sync_config-failure u s = address u.remote_base_url
    where
      address :
          (o : Option String)
          → (set_address trim trim_code resolve normalize is_default o u s).0 ≡ false
          → ((set_address trim trim_code resolve normalize is_default o u s).1 ≡ s)
            ⊎ ((set_address trim trim_code resolve normalize is_default o u s).1.enabled ≡ false)
      address none = λ e. absurd cc
      address (some text) =
          if_elim (λ (r : Result). r.0 ≡ false → (r.1 ≡ s) ⊎ (r.1.enabled ≡ false))
            (non_empty s.device_id && not (resolve text === resolve s.remote_base_url))
            (λ _ _. inl refl) (λ _ e. absurd cc)

  -- A request that reports no success leaves the store as it was, or leaves synchronisation off.
  pub handle-failure :
      (request : Request) (s : PairingStore)
      → (handle trim trim_code resolve normalize is_default request s).0 ≡ false
      → ((handle trim trim_code resolve normalize is_default request s).1 ≡ s)
        ⊎ ((handle trim trim_code resolve normalize is_default request s).1.enabled ≡ false)
  handle-failure request s =
      let P : Result → Type 0 = λ r. r.0 ≡ false → (r.1 ≡ s) ⊎ (r.1.enabled ≡ false) in
      handle-elim trim trim_code resolve normalize is_default P request s (λ _. inl refl)
        (λ url name payload answer assigned kept.
          complete_pairing-elim resolve P url name payload answer assigned s (λ _. inl refl)
            (λ _ e. absurd cc) (λ _ _. inr refl))
        (λ u. update_sync_config-failure u s) (unfold disconnect_device in λ e. absurd cc)

  -- What a disconnection leaves: no connection, no secrets, no policy and nothing that is required.
  abbrev pub Ended : PairingStore → Type 0
  Ended s =
      (is_connected resolve s ≡ false)
      × (s.enabled ≡ false)
      × (s.device_token ≡ some "")
      × (s.encryption_key ≡ "")
      × (s.policy ≡ no_policy)
      × (is_policy_ready s ≡ true)

  abbrev pub Leaves : Bool → PairingStore → PairingStore → Type 0
  Leaves true before after = Ended after
  Leaves false before after = after ≡ before

  -- A disconnection reports what the local service answers. When it succeeds, neither a connection
  -- nor a secret nor a policy is left, and else the store is as it was.
  pub disconnect_device-Ended :
      (is_local_ok : Bool) (s : PairingStore)
      → ((disconnect_device trim trim_code resolve normalize is_default is_local_ok s).0
          ≡ is_local_ok)
        × Leaves is_local_ok s
            (disconnect_device trim trim_code resolve normalize is_default is_local_ok s).1
  unfolding disconnect_device clear_remote_connection is_policy_ready
  disconnect_device-Ended true s = (
    refl,
    (
      is_connected-organization resolve
          (disconnect_device trim trim_code resolve normalize is_default true s).1 refl,
      refl,
      refl,
      refl,
      refl,
      refl,
    ),
  )
  disconnect_device-Ended false s = (refl, refl)
