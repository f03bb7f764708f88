-- ===== src/Sync/Gate/Laws.antt =====
-- At most one run is on its way, none begins during a wipe, and a request that arrives during a run
-- is served at its end.
use facenox.Base.{
  ◌+◌, ◌≡◌, refl, ap, Bool, true, false, not, ◌&&◌, ◌||◌, List, [], ◌∷◌, arith, length,
  length-append, any, if◌then◌else◌, if_elim,
}
use facenox.Sync.Gate.{
  Gate, request, queue, begin, finish_run, suspend, start, begin_wipe, end_wipe, Step, requests,
  finishes, suspends, starts, begins_wipe, ends_wipe, Reachable, at_first, after,
}

-- The runs that have begun have ended, but for the one on its way.
abbrev pub Single : Gate → Type 0
Single g =
    (length g.begun ≡ g.ended + (if g.is_syncing then 1 else 0))
    × (g.is_syncing ≡ false → (g.pending_sync ≡ false) × (g.pending_pull ≡ false))

begin-Single :
    (g : Gate)
    → Single g
    → g.is_syncing ≡ false
    → (complete pull_only : Bool) → Single (begin complete pull_only g)
unfolding begin
begin-Single g (count, quiet) off true pull_only =
    (omega (arith, length-append g.begun (pull_only ∷ []), rw off at count), λ h. absurd cc)
begin-Single g (count, quiet) off false pull_only = (count, quiet)

queue-Single :
    (pull_only : Bool) (g : Gate) → Single g → g.is_syncing ≡ true → Single (queue pull_only g)
unfolding queue
queue-Single true g (count, quiet) on = (count, λ off. absurd cc)
queue-Single false g (count, quiet) on = (count, λ off. absurd cc)

request-Single :
    (complete pull_only : Bool) (g : Gate) → Single g → Single (request complete pull_only g)
unfolding request
request-Single complete pull_only g h =
    if_elim Single (g.is_wiping || g.suspended) (λ barred. h)
      (λ free.
        if_elim Single g.is_syncing (queue-Single pull_only g h)
          (λ off. begin-Single g h off complete pull_only))

abbrev ended_run : Gate → Gate
ended_run g = record g {
  is_syncing = false;
  pending_sync = false;
  pending_pull = false;
  ended = g.ended + 1;
}

finish_run-Single :
    (complete : Bool) (g : Gate) → Single g → g.is_syncing ≡ true → Single (finish_run complete g)
unfolding finish_run
finish_run-Single complete g (count, quiet) on =
    let idle : Single (ended_run g) = (omega (arith, rw on at count), λ off. (refl, refl)) in
    if_elim Single (not g.suspended && (g.pending_sync || g.pending_pull))
      (λ waiting. request-Single complete (not g.pending_sync) (ended_run g) idle) (λ none. idle)

Step-Single : {g h : Gate} → Step g h → Single g → Single h
unfolding suspend start begin_wipe end_wipe
Step-Single (requests complete pull_only g) s = request-Single complete pull_only g s
Step-Single (finishes complete g on) s = finish_run-Single complete g s on
Step-Single (suspends g) (count, quiet) = (count, λ off. (refl, (quiet off).1))
Step-Single (starts g) (count, quiet) = (count, λ off. (refl, (quiet off).1))
Step-Single (begins_wipe g) s = s
Step-Single (ends_wipe g) s = s

-- In every state that can be reached, each run that has begun has ended but for the one on its way,
-- and requests wait only while there is one.
pub Reachable-Single :
    (g : Gate)
    → Reachable g
    → (length g.begun ≡ g.ended + (if g.is_syncing then 1 else 0))
      × (g.is_syncing ≡ false → (g.pending_sync ≡ false) × (g.pending_pull ≡ false))
Reachable-Single _ at_first = (refl, λ off. (refl, refl))
Reachable-Single _ (after r step) = Step-Single step (Reachable-Single _ r)

-- The flags that keep a run from beginning.
abbrev pub Barred : Gate → Type 0
Barred g = (g.is_wiping || g.suspended) ≡ true

request-Barred :
    (complete pull_only : Bool) (g : Gate) → Barred g → request complete pull_only g ≡ g
unfolding request
request-Barred complete pull_only g h =
    if_elim (λ (x : Gate). x ≡ g) (g.is_wiping || g.suspended) (λ b. refl) (λ free. absurd cc)

finish_run-Barred :
    (complete : Bool) (g : Gate) → Barred g → (finish_run complete g).begun ≡ g.begun
unfolding finish_run
finish_run-Barred complete g h =
    if_elim (λ (x : Gate). x.begun ≡ g.begun)
      (not g.suspended && (g.pending_sync || g.pending_pull))
      (λ waiting.
        ap (λ (x : Gate). x.begun) (request-Barred complete (not g.pending_sync) (ended_run g) h))
      (λ none. refl)

-- While a wipe is on its way or the manager is suspended, no event begins a run.
pub Step-Barred : (g h : Gate) → Step g h → (g.is_wiping || g.suspended) ≡ true → h.begun ≡ g.begun
unfolding suspend start begin_wipe end_wipe
Step-Barred _ _ (requests complete pull_only g) b =
    ap (λ (x : Gate). x.begun) (request-Barred complete pull_only g b)
Step-Barred _ _ (finishes complete g on) b = finish_run-Barred complete g b
Step-Barred _ _ (suspends g) b = refl
Step-Barred _ _ (starts g) b = refl
Step-Barred _ _ (begins_wipe g) b = refl
Step-Barred _ _ (ends_wipe g) b = refl

-- What the requests of a run come to: a full run serves every request, a download those that ask
-- for no more.
abbrev pub owed : List Bool → List Bool
owed [] = []
owed (pull_only ∷ more) = if any not (pull_only ∷ more) then false ∷ [] else true ∷ []

abbrev Waiting : List Bool → Gate → Gate → Type 0
Waiting rs g h =
    (h.is_syncing ≡ true)
    × (h.is_wiping ≡ false)
    × (h.suspended ≡ false)
    × (h.begun ≡ g.begun)
    × (h.pending_sync ≡ (g.pending_sync || any not rs))
    × (h.pending_pull ≡ (g.pending_pull || any (λ pull_only. pull_only) rs))

-- The run that begins at the end of one, by the flags.
abbrev served : Bool → Bool → List Bool
served full pull = if full || pull then not full ∷ [] else []
