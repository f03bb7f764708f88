-- ===== src/Sync/Upload/Step.antt =====
-- What one exchange with the Cloud, and a pass over the chunks that are left, do to the place where
-- an upload stands.
use facenox.Base.{
  ℕ, ◌+◌, ◌≡◌, sym, ◌∙◌, ap, List, [], ◌∷◌, ◌++◌, arith, append_assoc, append-nil, length,
  length-append, inl, inr, Bool-cases, ◌==◌,
}
use facenox.Sync.Policy.{Applied, applied, failed, apply_remote_policy, LocalAnswers}
use facenox.Sync.Chunks.{Chunk, deleted_sessions}
use facenox.Sync.Upload.{
  ids, Reply, Answer, answered, unreachable, Exchange, UploadState, Outcome, finished, stopped,
  ◌>>=◌, on_reply, push_one, push_all, after_policy, collect, note_retry, reject, advance, is_ok,
  is_rejection, any_unconfirmed, network,
}

-- `done` are the chunks that have been recorded as accepted, `left` those still to be sent.
pub record Stands (chunks done left : List Chunk) (s : UploadState) : Type 0 where
  pub split : chunks ≡ done ++ left
  pub logged : s.pushed ≡ done
  pub saved_chunks : s.saved.chunks ≡ chunks
  pub saved_next : s.saved.next ≡ length done
  pub pending_chunks : s.pending.chunks ≡ chunks
  pub pending_next : s.pending.next ≡ length done

abbrev pub Ends : (UploadState → Type 0) → (UploadState → Type 0) → Outcome → Type 0
Ends P Q (finished s) = P s
Ends P Q (stopped e s) = Q s

after_policy-Stands :
    (chunks done left : List Chunk) (payload : Chunk) (i : ℕ) (s : UploadState) (a : Applied)
    → Stands chunks done (payload ∷ left) s
    → i ≡ length done
    → Ends
        (Stands chunks (done ++ payload ∷ []) left)
        (Stands chunks done (payload ∷ left))
        (after_policy payload i s a)
unfolding after_policy advance
after_policy-Stands chunks done left payload i s (applied policy) h e = record {
  split = h.split ∙ sym (append_assoc done (payload ∷ []) left);
  logged = ap (λ (ps : List Chunk). ps ++ payload ∷ []) h.logged;
  saved_chunks = h.pending_chunks;
  saved_next = omega (arith, length-append done (payload ∷ []));
  pending_chunks = h.pending_chunks;
  pending_next = omega (arith, length-append done (payload ∷ []));
}
after_policy-Stands chunks done left payload i s (failed er policy) h e = record {
  split = h.split;
  logged = h.logged;
  saved_chunks = h.saved_chunks;
  saved_next = h.saved_next;
  pending_chunks = h.pending_chunks;
  pending_next = h.pending_next;
}

note_retry-Stands :
    (chunks done left : List Chunk) (r : Reply) (s : UploadState)
    → Stands chunks done left s
    → Stands chunks done left (note_retry r s)
unfolding note_retry
note_retry-Stands chunks done left r s h = elim (Bool-cases (r.status == 429)) [
  | inl limited ↦ rw limited (record {
    split = h.split;
    logged = h.logged;
    saved_chunks = h.saved_chunks;
    saved_next = h.saved_next;
    pending_chunks = h.pending_chunks;
    pending_next = h.pending_next;
  })
  | inr other ↦ rw other h
]

reject-Stands :
    (chunks done left : List Chunk) (s : UploadState)
    → Stands chunks done left s
    → Stands chunks done left (reject s)
unfolding reject
reject-Stands chunks done left s h = record {
  split = h.split;
  logged = h.logged;
  saved_chunks = h.pending_chunks;
  saved_next = h.pending_next;
  pending_chunks = h.pending_chunks;
  pending_next = h.pending_next;
}

collect-Stands :
    (chunks done left : List Chunk) (payload : Chunk) (r : Reply) (s : UploadState)
    → Stands chunks done left s
    → Stands chunks done left (collect payload r s)
unfolding collect
collect-Stands chunks done left payload r s h = record {
  split = h.split;
  logged = h.logged;
  saved_chunks = h.saved_chunks;
  saved_next = h.saved_next;
  pending_chunks = h.pending_chunks;
  pending_next = h.pending_next;
}

abbrev pub Goes : List Chunk → List Chunk → Chunk → List Chunk → Outcome → Type 0
Goes chunks done payload left =
    Ends (Stands chunks (done ++ payload ∷ []) left) (Stands chunks done (payload ∷ left))

on_reply-Stands :
    (chunks done left : List Chunk) (payload : Chunk) (r : Reply) (local : LocalAnswers) (i : ℕ)
    (s : UploadState)
    → Stands chunks done (payload ∷ left) s
    → i ≡ length done
    → Goes chunks done payload left (on_reply r local payload i s)
unfolding on_reply
on_reply-Stands chunks done left payload r local i s h e =
    let noted = note_retry-Stands chunks done (payload ∷ left) r s h in
    elim (Bool-cases (is_ok r.status)) [
      | inr refused ↦ elim (Bool-cases (is_rejection r.status)) [
        | inl bad ↦
            rw (refused, bad) (reject-Stands chunks done (payload ∷ left) (note_retry r s) noted)
        | inr other ↦ rw (refused, other) noted
      ]
      | inl accepted ↦
          elim (Bool-cases (any_unconfirmed (ids deleted_sessions payload) r.deleted_session_ids)) [
            | inl missing ↦ rw (accepted, missing) noted
            | inr confirmed ↦
                rw (accepted, confirmed)
                  (after_policy-Stands chunks done left payload i
                    (collect payload r (note_retry r s))
                    (apply_remote_policy local r.policy (note_retry r s).policy)
                    (collect-Stands chunks done (payload ∷ left) payload r (note_retry r s) noted)
                    e)
          ]
    ]

push_one-Stands :
    (chunks done left : List Chunk) (payload : Chunk) (ex : Exchange) (i : ℕ) (s : UploadState)
    → Stands chunks done (payload ∷ left) s
    → i ≡ length done
    → Goes chunks done payload left (push_one ex payload i s)
unfolding push_one
push_one-Stands chunks done left payload ex i s h e = at_answer ex.answer
  where
    at_answer :
        (answer : Answer)
        → Goes chunks done payload left (elim answer [
          | unreachable ↦ stopped network s
          | answered r ↦ on_reply r ex.local payload i s
        ])
    at_answer unreachable = h
    at_answer (answered r) = on_reply-Stands chunks done left payload r ex.local i s h e

-- What an attempt can end in: all chunks are recorded, or a prefix of them is.
abbrev pub Reached : List Chunk → Outcome → Type 0
Reached chunks =
    Ends (Stands chunks chunks [])
      (λ s. (done : List Chunk) × (left : List Chunk) × Stands chunks done left s)

next-Reached :
    (chunks done : List Chunk) (payload : Chunk) (left : List Chunk) (o : Outcome)
    (k : UploadState → Outcome)
    → Goes chunks done payload left o
    → ((s : UploadState) → Stands chunks (done ++ payload ∷ []) left s → Reached chunks (k s))
    → Reached chunks (o >>= k)
next-Reached chunks done payload left (finished s) k h go = go s h
next-Reached chunks done payload left (stopped e s) k h go = (done, payload ∷ left, h)

pub push_all-Reached :
    (exchanges : ℕ → Exchange) (chunks done left : List Chunk) (i : ℕ) (s : UploadState)
    → Stands chunks done left s
    → i ≡ length done
    → Reached chunks (push_all exchanges left i s)
unfolding push_all
push_all-Reached exchanges chunks done [] i s h e =
    let all : done ≡ chunks = sym (append-nil done) ∙ sym h.split in rw all at h
push_all-Reached exchanges chunks done (payload ∷ left) i s h e =
    next-Reached chunks done payload left (push_one (exchanges i) payload i s)
      (push_all exchanges left (i + 1))
      (push_one-Stands chunks done left payload (exchanges i) i s h e)
      (λ s' h'.
        push_all-Reached exchanges chunks (done ++ payload ∷ []) left (i + 1) s' h'
          (omega (arith, length-append done (payload ∷ []))))
