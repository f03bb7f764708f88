-- ===== src/Sync/Pull/Chain.antt =====
-- The chain of pages that a download goes through, and what the parts of a round do to it.
use facenox.Base.{
  ℕ, ◌+◌, ◌≤◌, ◌≡◌, refl, sym, ◌∙◌, ap, Bool, true, false, ◌&&◌, List, [], ◌∷◌, ◌++◌, Option, none,
  some, String, arith, append_assoc, append-nil, length, length-append, inl, inr, Bool-cases, ◌==◌,
}
use facenox.Base.Keys.{string_eq}
use facenox.Sync.Policy.{
  Policy, PolicyState, LocalAnswers, Applied, applied, failed, apply_remote_policy,
}
use facenox.Sync.Upload.{Acknowledgements}
use facenox.Sync.Pull.{
  FaceRow, Page, ImportAnswer, imported, FacesAnswer, faces_refused, faces_imported, BatchRow,
  PullState, PullError, PullOutcome, went_on, broke_off, truthy, batch_row, post_batch,
  apply_policy, import_metadata, continue_after, next_page, policy_outcome, first_state, ◌>>=◌,
}

-- The cursors with which a chain of pages is asked for, the first one given.
abbrev pub follows : Option String → List Page → List (Option String)
follows cursor [] = []
follows cursor (p ∷ pages) = cursor ∷ follows (truthy p.next_cursor) pages

-- The cursor behind a chain of pages.
abbrev pub behind : Option String → List Page → Option String
behind cursor [] = cursor
behind cursor (p ∷ pages) = behind (truthy p.next_cursor) pages

follows-append :
    (cursor : Option String) (pages : List Page) (p : Page)
    → follows cursor (pages ++ p ∷ []) ≡ follows cursor pages ++ behind cursor pages ∷ []
follows-append cursor [] p = refl
follows-append cursor (q ∷ pages) p =
    ap (◌∷◌ cursor) (follows-append (truthy q.next_cursor) pages p)

behind-append :
    (cursor : Option String) (pages : List Page) (p : Page)
    → behind cursor (pages ++ p ∷ []) ≡ truthy p.next_cursor
behind-append cursor [] p = refl
behind-append cursor (q ∷ pages) p = behind-append (truthy q.next_cursor) pages p

abbrev is_some : Option String → Bool
is_some none = false
is_some (some text) = true

-- The page says that another one follows it, and where.
abbrev pub continues : Page → Bool
continues p = p.has_more && is_some (truthy p.next_cursor)

-- Whether the last page of a chain says that another one follows; true before the first page.
abbrev pub more_after : List Page → Bool
more_after [] = true
more_after (p ∷ []) = continues p
more_after (p ∷ q ∷ pages) = more_after (q ∷ pages)

more_after-append : (pages : List Page) (p : Page) → more_after (pages ++ p ∷ []) ≡ continues p
more_after-append [] p = refl
more_after-append (q ∷ []) p = refl
more_after-append (q ∷ r ∷ pages) p = more_after-append (r ∷ pages) p

module _ (acks : Acknowledgements) where
  abbrev pub face_batch : List FaceRow → List BatchRow
  face_batch [] = []
  face_batch (fe ∷ rows) = batch_row acks fe ∷ face_batch rows

  -- The batch entries of all faces of the pages.
  abbrev pub all_faces : List Page → List BatchRow
  all_faces [] = []
  all_faces (p ∷ pages) = face_batch p.face_embeddings ++ all_faces pages

  all_faces-append :
      (pages : List Page) (p : Page)
      → all_faces (pages ++ p ∷ []) ≡ all_faces pages ++ face_batch p.face_embeddings
  all_faces-append [] p = append-nil (face_batch p.face_embeddings)
  all_faces-append (q ∷ pages) p =
      ap (◌++◌ (face_batch q.face_embeddings)) (all_faces-append pages p)
      ∙ sym (
          append_assoc (face_batch q.face_embeddings) (all_faces pages)
            (face_batch p.face_embeddings))

abbrev pub flattened : List (List BatchRow) → List BatchRow
flattened [] = []
flattened (batch ∷ batches) = batch ++ flattened batches

flattened-append :
    (batches : List (List BatchRow)) (batch : List BatchRow)
    → flattened (batches ++ batch ∷ []) ≡ flattened batches ++ batch
flattened-append [] batch = append-nil batch
flattened-append (b ∷ batches) batch =
    ap (◌++◌ b) (flattened-append batches batch) ∙ sym (append_assoc b (flattened batches) batch)

pub not_on : {e : PullError} {s t : PullState} → broke_off e s ≡ went_on t → ⊥
not_on h = cc

pub bind_went_on :
    (o : PullOutcome) (k : PullState → PullOutcome) (t : PullState)
    → (o >>= k) ≡ went_on t
    → (s : PullState) × (o ≡ went_on s) × (k s ≡ went_on t)
bind_went_on (went_on s) k t h = (s, refl, h)
bind_went_on (broke_off e s) k t h = absurd (not_on h)

-- Where a download stands before a round or behind the last one.
pub record Chain (acks : Acknowledgements) (s : PullState) : Type 0 where
  pub asked : s.requested ≡ follows none s.pages
  pub counted : s.page_count ≡ length s.pages
  pub onward : s.has_more ≡ true → s.cursor ≡ behind none s.pages
  pub ended : s.has_more ≡ more_after s.pages
  pub delivered : s.failures ≡ 0 → flattened s.batches ≡ all_faces acks s.pages

pub continue_after-facts :
    (p : Page) (s : PullState)
    → let t = continue_after p s in
      (t.has_more ≡ continues p)
      × (t.has_more ≡ true → t.cursor ≡ truthy p.next_cursor)
      × (t.requested ≡ s.requested)
      × (t.page_count ≡ s.page_count)
      × (t.pages ≡ s.pages)
      × (t.failures ≡ s.failures)
      × (t.batches ≡ s.batches)
unfolding continue_after
continue_after-facts p s = at_cursor (truthy p.next_cursor) p.has_more
  where
    at_cursor :
        (cursor : Option String) (has_more : Bool)
        → let t = next_page cursor has_more s in
          (t.has_more ≡ (has_more && is_some cursor))
          × (t.has_more ≡ true → t.cursor ≡ cursor)
          × (t.requested ≡ s.requested)
          × (t.page_count ≡ s.page_count)
          × (t.pages ≡ s.pages)
          × (t.failures ≡ s.failures)
          × (t.batches ≡ s.batches)
    at_cursor none true = (refl, (λ h. cc), refl, refl, refl, refl, refl)
    at_cursor none false = (refl, (λ h. cc), refl, refl, refl, refl, refl)
    at_cursor (some cursor) false = (refl, (λ h. cc), refl, refl, refl, refl, refl)
    at_cursor (some cursor) true = (refl, (λ h. refl), refl, refl, refl, refl, refl)

pub apply_policy-Keeps :
    (local : LocalAnswers) (policy : Option Policy) (s t : PullState)
    → apply_policy local policy s ≡ went_on t
    → (t ≡ record s { policy = t.policy })
unfolding apply_policy
apply_policy-Keeps local policy s t e = elim (Bool-cases (s.page_count == 1)) [
  | inl first ↦ at_outcome (apply_remote_policy local policy s.policy) (rw first at e)
  | inr later ↦ let same : went_on s ≡ went_on t = rw later at e in cc
]
  where
    at_outcome : (a : Applied) → policy_outcome s a ≡ went_on t → t ≡ record s { policy = t.policy }
    at_outcome (applied p) h = cc
    at_outcome (failed er p) h = cc

pub post_batch-facts :
    (answer : FacesAnswer) (batch : List BatchRow) (s : PullState)
    → let t = post_batch answer batch s in
      (t.requested ≡ s.requested)
      × (t.page_count ≡ s.page_count)
      × (t.pages ≡ s.pages)
      × (t.failures ≡ 0 → (s.failures ≡ 0) × (flattened t.batches ≡ flattened s.batches ++ batch))
unfolding post_batch
post_batch-facts answer [] s =
    (refl, refl, refl, (λ h. (h, sym (append-nil (flattened s.batches)))))
post_batch-facts faces_refused (row ∷ rows) s = (refl, refl, refl, (λ h. absurd (omega arith)))
post_batch-facts (faces_imported count refused) (row ∷ rows) s =
    (refl, refl, refl, (λ h. (omega arith, flattened-append s.batches (row ∷ rows))))

pub step-Chain :
    (acks : Acknowledgements) (p : Page) (s t : PullState)
    → Chain acks s
    → s.has_more ≡ true
    → t.pages ≡ s.pages ++ p ∷ []
    → t.requested ≡ s.requested ++ s.cursor ∷ []
    → t.page_count ≡ s.page_count + 1
    → t.has_more ≡ continues p
    → (t.has_more ≡ true → t.cursor ≡ truthy p.next_cursor)
    → (t.failures ≡ 0
        → (s.failures ≡ 0)
          × (flattened t.batches ≡ flattened s.batches ++ face_batch acks p.face_embeddings))
    → Chain acks t
step-Chain acks p s t h more pages requested page_count ended cursor taken = record {
  asked = rw (pages, follows-append none s.pages p, ← h.asked, ← h.onward more) requested;
  counted = omega (arith, h.counted, ap length pages, length-append s.pages (p ∷ []));
  onward = λ on. rw (pages, behind-append none s.pages p) (cursor on);
  ended = rw (pages, more_after-append s.pages p) ended;
  delivered = λ none_failed.
      let (earlier, whole) = taken none_failed in
      rw (pages, all_faces-append acks s.pages p, ← h.delivered earlier) whole;
}

pub import_metadata-Keeps :
    (answer : ImportAnswer) (p : Page) (s t : PullState)
    → import_metadata answer p s ≡ went_on t
    → t ≡ record s { pages = s.pages ++ p ∷ [] }
unfolding import_metadata
import_metadata-Keeps imported p s t e = cc
import_metadata-Keeps _ p s t e = cc

pub finished_at :
    {acks : Acknowledgements} (s t : PullState) (left : ℕ)
    → Chain acks s
    → s.has_more ≡ false
    → went_on s ≡ went_on t
    → Chain acks t × (t.has_more ≡ false) × (t.page_count ≤ s.page_count + left)
finished_at s t left h over e = let same : t ≡ s = cc in rw same (h, over, omega arith)

pub start-Chain : {acks : Acknowledgements} (policy : PolicyState) → Chain acks (first_state policy)
start-Chain policy = record {
  asked = refl;
  counted = refl;
  onward = λ h. refl;
  ended = refl;
  delivered = λ h. refl;
}
