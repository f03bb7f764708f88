-- ===== src/Sync/Session/Laws.antt =====
-- What a run of `performSync` keeps and promises: whose data it sends, when the time of the last
-- synchronisation moves, and what a batch that is built again holds.
use facenox.Base.{
  ◌≡◌, refl, ap, ◌≢◌, Bool, true, false, not, ◌||◌, Option, none, some, String, arith, ◌⊎◌, inl,
  inr, Bool-cases,
}
use facenox.Base.Keys.{◌===◌, string_eq, ===_ne}
use facenox.Sync.Policy.{PolicyState, keep_or}
use facenox.Sync.Upload.{Acknowledgements, PendingUpload}
use facenox.Sync.Pull.{truthy}
use facenox.Sync.Session.{
  Connection, Store, Run, Pushed, is_foreign, own_pending, is_complete, perform_sync, run_sync,
  prepare, push_stage, first_acknowledged, finish, with_key, KeyResult, key_error, no_key, new_key,
  cleared, pushed_time,
}
use facenox.Sync.Session.Stages.{push_stage-Stage, Fits, Sent, Stage}

or_left : (a : Bool) {b : Bool} → b ≡ true → (not a || b) ≡ true
or_left true h = h
or_left false h = refl

differs-is_foreign :
    (c : Connection) (p : PendingUpload)
    → (p.device_id ≢ c.device_id)
      ⊎ (p.site_id ≢ c.site_id)
      ⊎ (p.remote_base_url ≢ c.remote_base_url)
    → is_foreign c p ≡ true
differs-is_foreign c p (inl device) = rw (===_ne p.device_id c.device_id device)
differs-is_foreign c p (inr (inl site)) =
    or_left (p.device_id === c.device_id) (rw (===_ne p.site_id c.site_id site))
differs-is_foreign c p (inr (inr url)) =
    or_left (p.device_id === c.device_id)
      (or_left (p.site_id === c.site_id) (rw (===_ne p.remote_base_url c.remote_base_url url)))

-- A pending batch that differs from the connection in the device, the location or the address of
-- the server has no influence on a run on a complete connection: the run does what it does with no
-- pending batch at all.
pub perform_sync-foreign :
    (decrypts : String → String → Bool) (key_fits : String → Bool) (run : Run) (c : Connection)
    (pull_only : Bool) (s : Store) (p : PendingUpload)
    → s.pending_upload ≡ some p
    → (p.device_id ≢ c.device_id)
      ⊎ (p.site_id ≢ c.site_id)
      ⊎ (p.remote_base_url ≢ c.remote_base_url)
    → is_complete c ≡ true
    → perform_sync decrypts key_fits run c pull_only s
      ≡ perform_sync decrypts key_fits run c pull_only (record s { pending_upload = none })
unfolding perform_sync run_sync own_pending
perform_sync-foreign decrypts key_fits run c pull_only s p stored differs complete =
    rw (complete, stored, differs-is_foreign c p differs) refl

-- The time of the last synchronisation stands, or it is the export time of the prepared batch, which
-- was sent to its end and is no longer pending.
abbrev Advanced : Run → Option PendingUpload → Option String → PolicyState → Store → Type 0
Advanced run prepared before policy t =
    (t.last_synced_at ≡ before)
    ⊎ ((p : PendingUpload) × (prepared ≡ some p)
        × (t.last_synced_at ≡ some p.exported_at)
        × (t.pending_upload ≡ none)
        × Sent run p policy)

-- The same of the batch that is prepared from a pending one with some key.
abbrev AdvancedFrom :
    Run
    → Connection
    → Option PendingUpload
    → Acknowledgements
    → Option String
    → PolicyState
    → Store
    → Type 0
AdvancedFrom run c pending acknowledged before policy t =
    (t.last_synced_at ≡ before)
    ⊎ ((key : String) × (p : PendingUpload) × (prepare run c key acknowledged pending ≡ some p)
        × (t.last_synced_at ≡ some p.exported_at)
        × (t.pending_upload ≡ none)
        × Sent run p policy)

-- The same of the batch that a run with this store prepares: its own pending one, or one that is built
-- from the export.
abbrev pub Advances : Run → Connection → Store → Store → Type 0
Advances run c s =
    AdvancedFrom run c (own_pending c s.pending_upload)
      (first_acknowledged (own_pending c s.pending_upload) s.pending_acknowledgements)
      s.last_synced_at s.policy

with_some_key :
    (run : Run) (c : Connection) (pending : Option PendingUpload) (acknowledged : Acknowledgements)
    (before : Option String) (policy : PolicyState) (key : String) (t : Store)
    → Advanced run (prepare run c key acknowledged pending) before policy t
    → AdvancedFrom run c pending acknowledged before policy t
with_some_key run c pending acknowledged before policy key t (inl stands) = inl stands
with_some_key run c pending acknowledged before policy key t (inr (p, built, at, gone, sent)) =
    inr (key, p, built, at, gone, sent)

cleared-Fits :
    (at : Option String) (pending : Option PendingUpload) → Fits pending → Fits (cleared at pending)
cleared-Fits none pending h = h
cleared-Fits (some at) pending h = tt

truthy_cases : (text : String) → (truthy (some text) ≡ none) ⊎ (truthy (some text) ≡ some text)
truthy_cases text = ground arith

module _ (decrypts : String → String → Bool) (key_fits : String → Bool) where
  finish-Kept :
      (run : Run) (key_failed : Bool) (prepared : Option PendingUpload) (s : Store) (u : Pushed)
      → Stage run prepared s.last_synced_at s.policy u
      → Fits (finish decrypts key_fits run key_failed u).store.pending_upload
        × Advanced run prepared s.last_synced_at s.policy
            (finish decrypts key_fits run key_failed u).store
  unfolding finish
  finish-Kept run key_failed prepared s u h = elim (Bool-cases run.suspended) [
    | inl halted ↦ rw halted (h.fits, inl h.untouched)
    | inr on ↦
        rw on (cleared-Fits u.pushed_at u.store.pending_upload h.fits, at_time u.pushed_at h.sent)
  ]
    where
      at_time :
          (at : Option String)
          → ((time : String)
              → at ≡ some time
              → (p : PendingUpload) × (prepared ≡ some p)
                × (time ≡ p.exported_at)
                × Sent run p s.policy)
          → (keep_or (pushed_time at) u.store.last_synced_at ≡ s.last_synced_at)
            ⊎ ((p : PendingUpload) × (prepared ≡ some p)
                × (keep_or (pushed_time at) u.store.last_synced_at ≡ some p.exported_at)
                × (cleared at u.store.pending_upload ≡ none)
                × Sent run p s.policy)
      at_time none taken = inl h.untouched
      at_time (some time) taken = elim (truthy_cases time) [
        | inl empty ↦ rw empty (inl h.untouched)
        | inr whole ↦
            let (p, built, same, done) = taken time refl in
            rw whole (inr (p, built, ap some same, refl, done))
      ]

  abbrev KeptFrom :
      Run → Connection → Option PendingUpload → Acknowledgements → Store → Store → Type 0
  KeptFrom run c pending acknowledged s t =
      Fits t.pending_upload × AdvancedFrom run c pending acknowledged s.last_synced_at s.policy t

  stage-Kept :
      (run : Run) (c : Connection) (pull_only : Bool) (pending : Option PendingUpload)
      (acknowledged : Acknowledgements) (s : Store) (key_failed : Bool)
      → Fits s.pending_upload
      → Fits pending
      → KeptFrom run c pending acknowledged s
          (finish decrypts key_fits run key_failed
            (push_stage run c pull_only pending acknowledged s)).store
  stage-Kept run c pull_only pending acknowledged s key_failed old h =
      let u = push_stage run c pull_only pending acknowledged s in
      let (fits, advanced) =
        finish-Kept run key_failed (prepare run c s.encryption_key acknowledged pending) s u
          (push_stage-Stage run c pull_only pending acknowledged s old h) in
      (
        fits,
        with_some_key run c pending acknowledged s.last_synced_at s.policy s.encryption_key
            (finish decrypts key_fits run key_failed u).store advanced,
      )

  with_key-Kept :
      (run : Run) (c : Connection) (pull_only : Bool) (pending : Option PendingUpload)
      (acknowledged : Acknowledgements) (s : Store) (fetched : KeyResult)
      → Fits s.pending_upload
      → Fits pending
      → KeptFrom run c pending acknowledged s
          (with_key decrypts key_fits run c pull_only pending acknowledged s fetched).store
  unfolding with_key
  with_key-Kept run c pull_only pending acknowledged s key_error old h =
      stage-Kept run c pull_only pending acknowledged s true old h
  with_key-Kept run c pull_only pending acknowledged s no_key old h =
      stage-Kept run c pull_only pending acknowledged s false old h
  with_key-Kept run c pull_only pending acknowledged s (new_key key) old h =
      stage-Kept run c pull_only pending acknowledged (record s { encryption_key = key }) false old
        h

  own_pending-Fits : (c : Connection) (o : Option PendingUpload) → Fits o → Fits (own_pending c o)
  unfolding own_pending
  own_pending-Fits c none h = tt
  own_pending-Fits c (some p) h = elim (Bool-cases (is_foreign c p)) [
    | inl foreign ↦ rw foreign tt
    | inr own ↦ rw own h
  ]

  perform_sync-Kept :
      (run : Run) (c : Connection) (pull_only : Bool) (s : Store)
      → Fits s.pending_upload
      → Fits (perform_sync decrypts key_fits run c pull_only s).store.pending_upload
        × Advances run c s (perform_sync decrypts key_fits run c pull_only s).store
  unfolding perform_sync run_sync
  perform_sync-Kept run c pull_only s h = elim (Bool-cases (is_complete c)) [
    | inr incomplete ↦ rw incomplete (h, inl refl)
    | inl complete ↦
        let own = own_pending c s.pending_upload in
        rw complete (
          with_key-Kept run c pull_only own (first_acknowledged own s.pending_acknowledgements)
            (record s { pending_upload = own }) _ (own_pending-Fits c s.pending_upload h)
            (own_pending-Fits c s.pending_upload h))
  ]

  -- The stored position of the pending batch lies within the batch after a run if it did before it.
  pub perform_sync-Fits :
      (run : Run) (c : Connection) (pull_only : Bool) (s : Store)
      → Fits s.pending_upload
      → Fits (perform_sync decrypts key_fits run c pull_only s).store.pending_upload
  perform_sync-Fits run c pull_only s h = (perform_sync-Kept run c pull_only s h).0

  -- If the stored position lies within the pending batch, a run leaves the time of the last
  -- synchronisation as it was, or sets it to the export time of the batch that it has prepared, its
  -- own pending one or one built from the export, and of which it has sent the last chunk: every
  -- chunk of that batch was then recorded as accepted, once and in order, and no batch is pending
  -- any more.
  pub perform_sync-Advances :
      (run : Run) (c : Connection) (pull_only : Bool) (s : Store)
      → Fits s.pending_upload
      → Advances run c s (perform_sync decrypts key_fits run c pull_only s).store
  perform_sync-Advances run c pull_only s h = (perform_sync-Kept run c pull_only s h).1
