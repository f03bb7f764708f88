-- ===== src/Sync/Gate/Tests.antt =====
-- Requests during a run, and the theorems at that sequence of events.
use facenox.Base.{◌+◌, ◌≡◌, refl, true, false, [], ◌∷◌, length, if◌then◌else◌}
use facenox.Sync.Gate.{Gate, initial, request, finish_run, all_requests, requests, at_first, after}
use facenox.Sync.Gate.Laws.{Reachable-Single}

-- A download is on its way.
abbrev busy : Gate
busy = record initial { is_syncing = true; begun = true ∷ [] }

busy_reached : request true true initial ≡ busy
unfolding request
busy_reached = refl

queued : (finish_run true (all_requests (true ∷ false ∷ []) busy)).begun ≡ true ∷ false ∷ []
unfolding finish_run all_requests
queued = refl

Reachable-Single_example :
    let g = request true true initial in
    (length g.begun ≡ g.ended + (if g.is_syncing then 1 else 0))
    × (g.is_syncing ≡ false → (g.pending_sync ≡ false) × (g.pending_pull ≡ false))
Reachable-Single_example =
    Reachable-Single (request true true initial) (after at_first (requests true true initial))
