-- ===== src/Sync/Upload/Accepted.antt =====
-- What the record of an accepted chunk says.
use facenox.Base.{
  ℕ, ◌+◌, ◌≡◌, refl, true, false, List, [], ◌∷◌, some, String, arith, Elem, inl, inr, Bool-cases,
}
use facenox.Base.Keys.{string_eq}
use facenox.JsMap.{get}
use facenox.JsMap.Laws.{get-set_all, last_value}
use facenox.Sync.Policy.{Applied, applied, failed, apply_remote_policy, LocalAnswers}
use facenox.Sync.Chunks.{Chunk, groups, members, face_embeddings, deleted_sessions}
use facenox.Sync.Upload.{
  versions, ids, Reply, PushError, Answer, answered, unreachable, Exchange, UploadState, finished,
  stopped, is_ok, any_unconfirmed, is_among, acknowledge, on_reply, push_one, after_policy, collect,
  note_retry, advance, network,
}

is_among-Elem : (ids : List String) (id : String) → is_among ids id ≡ true → Elem id ids
is_among-Elem [] id h = cc
is_among-Elem (other ∷ ids) id h = ground (arith, string_eq.same_iff other id, is_among-Elem ids id)

all_confirmed :
    (rows confirmed : List String) (id : String)
    → any_unconfirmed rows confirmed ≡ false
    → Elem id rows
    → Elem id confirmed
all_confirmed [] confirmed id h m = elim m [ ]
all_confirmed (row ∷ rows) confirmed id h (inl e) =
    ground (arith, is_among-Elem confirmed id, string_eq.same_iff row id)
all_confirmed (row ∷ rows) confirmed id h (inr m) = all_confirmed rows confirmed id (ground arith) m

-- The record that an accepted chunk leaves.
pub record Recorded (payload : Chunk) (r : Reply) (i : ℕ) (s s' : UploadState) : Type 0 where
  pub ok : is_ok r.status ≡ true
  pub next : s'.saved.next ≡ i + 1
  pub acknowledged : s'.saved.acknowledged ≡ acknowledge payload r s.pending.acknowledged
  pub counted : s'.conflicts ≡ s.conflicts + r.conflicts
  pub confirmed : any_unconfirmed (ids deleted_sessions payload) r.deleted_session_ids ≡ false

after_policy-finished :
    (payload : Chunk) (i : ℕ) (s : UploadState) (a : Applied) (s' : UploadState)
    → after_policy payload i s a ≡ finished s'
    → (s'.saved.next ≡ i + 1)
      × (s'.saved.acknowledged ≡ s.pending.acknowledged)
      × (s'.conflicts ≡ s.conflicts)
unfolding after_policy advance
after_policy-finished payload i s (applied policy) s' e = ground arith
after_policy-finished payload i s (failed er policy) s' e = cc

note_retry-pending :
    (r : Reply) (s : UploadState)
    → ((note_retry r s).pending ≡ s.pending) × ((note_retry r s).conflicts ≡ s.conflicts)
unfolding note_retry
note_retry-pending r s = ground arith

not_finished : {e : PushError} {s s' : UploadState} → stopped e s ≡ finished s' → ⊥
not_finished h = cc

on_reply-Recorded :
    (payload : Chunk) (r : Reply) (local : LocalAnswers) (i : ℕ) (s s' : UploadState)
    → on_reply r local payload i s ≡ finished s'
    → Recorded payload r i s s'
unfolding on_reply
on_reply-Recorded payload r local i s s' e = elim (Bool-cases (is_ok r.status)) [
  | inr refused ↦ absurd (not_finished (rw refused at e))
  | inl fine ↦
      elim (Bool-cases (any_unconfirmed (ids deleted_sessions payload) r.deleted_session_ids)) [
        | inl missing ↦ absurd (not_finished (rw (fine, missing) at e))
        | inr confirmed ↦
            let taken = collect payload r (note_retry r s) in
            let (next, acks, counted) =
              after_policy-finished payload i taken
                (apply_remote_policy local r.policy (note_retry r s).policy) s'
                (rw (fine, confirmed) at e) in
            let (same, same_count) = note_retry-pending r s in
            record {
              ok = fine;
              next = next;
              acknowledged = unfold collect in (rw same at acks);
              counted = unfold collect in (rw same_count at counted);
              confirmed = confirmed;
            }
      ]
]

push_one-Recorded :
    (ex : Exchange) (payload : Chunk) (i : ℕ) (s s' : UploadState)
    → push_one ex payload i s ≡ finished s'
    → (r : Reply) × (ex.answer ≡ answered r) × Recorded payload r i s s'
unfolding push_one
push_one-Recorded ex payload i s s' e = at_answer ex.answer refl e
  where
    at_answer :
        (answer : Answer)
        → ex.answer ≡ answer
        → elim answer [
          | unreachable ↦ stopped network s
          | answered r ↦ on_reply r ex.local payload i s
        ]
          ≡ finished s'
        → (r : Reply) × (ex.answer ≡ answered r) × Recorded payload r i s s'
    at_answer unreachable a h = absurd (not_finished h)
    at_answer (answered r) a h = (r, a, on_reply-Recorded payload r ex.local i s s' h)

-- A chunk counts as accepted only after a successful response that confirmed each of its removed
-- sessions. The stored batch then points behind the chunk, and the stored acknowledgements hold the
-- version of each group, member and face template that was sent in it.
pub push_one-accepted :
    (ex : Exchange) (payload : Chunk) (i : ℕ) (s s' : UploadState)
    → push_one ex payload i s ≡ finished s'
    → (r : Reply) × (ex.answer ≡ answered r)
      × (is_ok r.status ≡ true)
      × (s'.saved.next ≡ i + 1)
      × ((id : String) → Elem id (ids deleted_sessions payload) → Elem id r.deleted_session_ids)
      × ((id : String) (version : ℕ)
          → last_value id (versions groups payload) ≡ some version
          → get id s'.saved.acknowledged.groups ≡ some version)
      × ((id : String) (version : ℕ)
          → last_value id (versions members payload) ≡ some version
          → get id s'.saved.acknowledged.members ≡ some version)
      × ((id : String) (version : ℕ)
          → last_value id (versions face_embeddings payload) ≡ some version
          → get id s'.saved.acknowledged.faces ≡ some version)
unfolding acknowledge
push_one-accepted ex payload i s s' e =
    let (r, a, h) = push_one-Recorded ex payload i s s' e in
    let old = s.pending.acknowledged in
    (
      r,
      a,
      h.ok,
      h.next,
      λ id m. all_confirmed (ids deleted_sessions payload) r.deleted_session_ids id h.confirmed m,
      λ id version v.
          ground (arith, get-set_all id old.groups (versions groups payload), h.acknowledged),
      λ id version v.
          ground (arith, get-set_all id old.members (versions members payload), h.acknowledged),
      λ id version v.
          ground
            (arith, get-set_all id old.faces (versions face_embeddings payload), h.acknowledged),
    )
