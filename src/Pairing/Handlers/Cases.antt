-- ===== src/Pairing/Handlers/Cases.antt =====
-- One principle for the results of all handlers.
use mathlib.Core.Path.{subst}
use facenox.Base.{
  ◌≡◌, refl, sym, Bool, true, false, not, ◌&&◌, Option, none, some, String, if◌then◌else◌, ltb,
  length, if_elim,
}
use facenox.Base.Keys.{◌===◌, string_eq}
use facenox.Base.Text.{Text}
use facenox.Pairing.{
  PairingStore, PairingPayload, DirectoryAnswer, text_or_empty, non_empty, elsewhere, is_movable,
  set_origin, connect, disable, validate_pairing_destination, is_connected, complete_pairing,
  Result,
}
use facenox.Pairing.Handlers.{
  PairInput, PairResponse, PairAnswers, TokenResponse, TokenAnswers, PollStatus, ConfigUpdates,
  Request, pair, poll, configure, disconnect, unreachable, refused, answered, accepted, no_failure,
  pair_device, poll_device_authorization, update_sync_config, disconnect_device, handle,
  name_of_device, after_response, after_poll, approval, refusal, error_of, is_empty,
}

module _ (resolve : String → String) where
  abbrev pub May : String → PairingPayload → DirectoryAnswer → PairingStore → Type 0
  May url payload answer s =
      (elsewhere s.data_origin url payload && not (is_movable answer)) ≡ false

  -- A pairing leaves the store, or its destination is valid and it sets the location.
  pub complete_pairing-elim :
      (P : Result → Type 0) (url name : String) (payload : PairingPayload)
      (answer : DirectoryAnswer) (assigned : Bool) (s : PairingStore)
      → P (false, s)
      → (May url payload answer s → P (true, connect url name payload (set_origin url payload s)))
      → (May url payload answer s
          → P (false, disable (connect url name payload (set_origin url payload s))))
      → P (complete_pairing resolve url name payload answer assigned s)
  unfolding complete_pairing validate_pairing_destination
  complete_pairing-elim P url name payload answer assigned s h k l =
      let finish : Option PairingStore → Result = λ o. elim o [
        | none ↦ (false, s)
        | some t ↦
            if assigned
            then (true, connect url name payload t)
            else (false, disable (connect url name payload t))
      ] in
      let Q : Option PairingStore → Type 0 = λ o. P (finish o) in
      if_elim Q (is_connected resolve s) (λ _. h)
        (λ _.
          if_elim Q (elsewhere s.data_origin url payload && not (is_movable answer)) (λ _. h)
            (λ m. if_elim P assigned (λ _. k m) (λ _. l m)))

no_failure-refusal :
    (error : String) (s : PairingStore) → no_failure (refusal error, s) ≡ (false, s)
no_failure-refusal error s =
    let R : PollStatus → Type 0 = λ status. no_failure (status, s) ≡ (false, s) in
    if_elim R (error === "authorization_pending") (λ _. refl)
      (λ _.
        if_elim R (error === "slow_down") (λ _. refl)
          (λ _.
            if_elim R (error === "expired_token") (λ _. refl)
              (λ _. if_elim R (error === "access_denied") (λ _. refl) (λ _. refl))))

-- The export that a request of either kind takes of the local directory.
abbrev pub Kept : DirectoryAnswer → Type 0
Kept answer = is_movable answer ≡ false

-- Every export that a pairing of these requests takes of the local directory finds a row or fails.
abbrev pub Occupied : Request → Type 0
Occupied (pair input answers) = Kept answers.export
Occupied (poll input answers) = Kept answers.export
Occupied (configure updates) = Unit {0}
Occupied (disconnect is_local_ok) = Unit {0}

module _ (trim : String → String) (trim_code : Text → Text) (resolve normalize : String → String)
    (is_default : String → Bool) where
  -- What holds of an unchanged store and of a pairing holds of the two ways of pairing.
  pair_device-elim :
      (P : Result → Type 0) (input : PairInput) (answers : PairAnswers) (s : PairingStore)
      → P (false, s)
      → ((url name : String) (payload : PairingPayload)
          → P (complete_pairing resolve url name payload answers.export answers.is_assigned s))
      → P (pair_device trim trim_code resolve normalize is_default input answers s)
  unfolding pair_device
  pair_device-elim P input answers s h k =
      if_elim P (ltb (length (trim_code input.pairing_code)) 6) (λ _. h)
        (λ _. if_elim P answers.has_secret_storage (λ _. respond answers.response) (λ _. h))
    where
      respond :
          (r : PairResponse)
          → P (after_response trim trim_code resolve normalize is_default input answers r s)
      respond unreachable = h
      respond refused = h
      respond (answered none) = h
      respond (answered (some payload)) =
          k (resolve input.remote_base_url)
            (name_of_device trim trim_code resolve normalize is_default input.device_name) payload

  poll-elim :
      (P : Result → Type 0) (input : PairInput) (answers : TokenAnswers) (s : PairingStore)
      → P (false, s)
      → ((url name : String) (payload : PairingPayload)
          → P (complete_pairing resolve url name payload answers.export answers.is_assigned s))
      → P (
          no_failure
            (poll_device_authorization trim trim_code resolve normalize is_default input answers s))
  unfolding poll_device_authorization
  poll-elim P input answers s h k =
      let Q : PollStatus × PairingStore → Type 0 = λ r. P (no_failure r) in
      if_elim Q (is_empty (trim_code input.pairing_code)) (λ _. h) (λ _. respond answers.response)
    where
      finish : (r : Result) → P r → P (no_failure (approval r))
      finish (true, t) g = g
      finish (false, t) g = g

      respond :
          (r : TokenResponse)
          → P (
              no_failure (after_poll trim trim_code resolve normalize is_default input answers r s))
      respond unreachable = h
      respond (refused payload) = subst P (sym (no_failure-refusal (error_of payload) s)) h
      respond (accepted none) = h
      respond (accepted (some payload)) =
          let Q : PollStatus × PairingStore → Type 0 = λ r. P (no_failure r) in
          let joined =
            complete_pairing resolve (resolve input.remote_base_url)
              (name_of_device trim trim_code resolve normalize is_default input.device_name)
              payload.pairing answers.export answers.is_assigned s in
          if_elim Q (text_or_empty payload.status === "pending") (λ _. h)
            (λ _.
              if_elim Q
                (text_or_empty payload.status === "approved"
                  && non_empty (text_or_empty payload.pairing.device_token))
                (λ _. finish joined (
                  k (resolve input.remote_base_url)
                    (name_of_device trim trim_code resolve normalize is_default input.device_name)
                    payload.pairing))
                (λ _.
                  if_elim (λ (status : PollStatus). P (no_failure (status, s)))
                    (non_empty (text_or_empty payload.status)) (λ _. h) (λ _. h)))

  -- One principle for all handlers: what holds of an unchanged store, of a pairing, of new settings
  -- and of a disconnection holds of every result.
  pub handle-elim :
      (P : Result → Type 0) (request : Request) (s : PairingStore)
      → P (false, s)
      → ((url name : String) (payload : PairingPayload) (answer : DirectoryAnswer) (assigned : Bool)
          → (Occupied request → Kept answer)
          → P (complete_pairing resolve url name payload answer assigned s))
      → ((updates : ConfigUpdates)
          → P (update_sync_config trim trim_code resolve normalize is_default updates s))
      → P (disconnect_device trim trim_code resolve normalize is_default true s)
      → P (handle trim trim_code resolve normalize is_default request s)
  unfolding handle
  handle-elim P (pair input answers) s h k u d =
      pair_device-elim P input answers s h
        (λ url name payload. k url name payload answers.export answers.is_assigned (λ e. e))
  handle-elim P (poll input answers) s h k u d =
      poll-elim P input answers s h
        (λ url name payload. k url name payload answers.export answers.is_assigned (λ e. e))
  handle-elim P (configure updates) s h k u d = u updates
  handle-elim P (disconnect true) s h k u d = d
  handle-elim P (disconnect false) s h k u d = h
