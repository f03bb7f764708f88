-- ===== src/Sync/Gate.antt =====
-- app/src/electron/managers/BackgroundSyncManager.ts: the flags that keep runs of `performSync` and
-- data wipes apart, and the requests that wait for the end of a run.
--
-- A handler runs from one `await` to the next without interruption, so that an event of the relation
-- `Step` is one such part: the head of `performSync`, its `finally` block, and the handlers that set
-- a flag. `complete` is the test of the connection.
pub mod Laws
mod Tests
use facenox.Base.{
  ℕ, ◌+◌, ◌≡◌, Bool, true, false, not, ◌&&◌, ◌||◌, List, [], ◌∷◌, ◌++◌, if◌then◌else◌,
}

pub record Gate : Type 0 where
  pub is_syncing : Bool
  pub is_wiping : Bool
  pub suspended : Bool
  pub pending_sync : Bool
  pub pending_pull : Bool
  -- the argument `pullOnly` of each run that has begun, oldest first, and how many have ended
  pub begun : List Bool
  pub ended : ℕ

abbrev pub initial : Gate
initial = record {
  is_syncing = false;
  is_wiping = false;
  suspended = false;
  pending_sync = false;
  pending_pull = false;
  begun = [];
  ended = 0;
}

queue : Bool → Gate → Gate
queue true g = record g { pending_pull = true }
queue false g = record g { pending_sync = true }

begin : Bool → Bool → Gate → Gate
begin complete pull_only g =
    if complete then record g { is_syncing = true; begun = g.begun ++ pull_only ∷ [] } else g

-- The head of `performSync`.
pub request : Bool → Bool → Gate → Gate
unfolding queue begin
request complete pull_only g =
    if g.is_wiping || g.suspended
    then g
    else (if g.is_syncing then queue pull_only g else begin complete pull_only g)

-- The `finally` block of `performSync`.
pub finish_run : Bool → Gate → Gate
unfolding request
finish_run complete g =
    let idle = record g {
      is_syncing = false;
      pending_sync = false;
      pending_pull = false;
      ended = g.ended + 1;
    } in
    if not g.suspended && (g.pending_sync || g.pending_pull)
    then request complete (not g.pending_sync) idle
    else idle

-- `stop`
abbrev pub stop : Gate → Gate
stop g = record g { pending_sync = false }

pub suspend : Gate → Gate
suspend g = stop (record g { suspended = true })

pub start : Gate → Gate
start g = stop (record g { suspended = false })

-- The command `WIPE` sets the flag, and clears it in its `finally` block.
pub begin_wipe : Gate → Gate
begin_wipe g = record g { is_wiping = true }

pub end_wipe : Gate → Gate
end_wipe g = record g { is_wiping = false }

-- Only a run that is on its way can end.
pub data Step : Gate → Gate → Type 0 where
  requests : (complete pull_only : Bool) (g : Gate) → Step g (request complete pull_only g)
  finishes : (complete : Bool) (g : Gate) → g.is_syncing ≡ true → Step g (finish_run complete g)
  suspends : (g : Gate) → Step g (suspend g)
  starts : (g : Gate) → Step g (start g)
  begins_wipe : (g : Gate) → Step g (begin_wipe g)
  ends_wipe : (g : Gate) → Step g (end_wipe g)

pub data Reachable : Gate → Type 0 where
  at_first : Reachable initial
  after : {g h : Gate} → Reachable g → Step g h → Reachable h

-- Requests that come one after another.
pub all_requests : List Bool → Gate → Gate
unfolding request
all_requests [] g = g
all_requests (pull_only ∷ more) g = all_requests more (request true pull_only g)
