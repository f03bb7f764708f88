-- ===== src/Sync/Commands/Tests.antt =====
-- A wipe during which the process dies, and the theorems at these polls.
use facenox.Base.{◌≤◌, ◌≡◌, refl, true, List, [], ◌∷◌, none, some, String, inl, inr}
use facenox.Base.Keys.{string_eq}
use facenox.Sync.Upload.Tests.{batch}
use facenox.Sync.Commands.{
  Command, wipe, reset_pin, completed, interrupted, wiped, up_to_date, Fate, survives, dies_after,
  Answers, Device, polls,
}
use facenox.Sync.Commands.Receipts.{count}
use facenox.Sync.Commands.Laws.{polls-once, polls-agree}

abbrev device : Device
device = record {
  receipts = [];
  pending_upload = some batch;
  pending_acknowledgements = none;
  last_synced_at = some "2026-01-01T00:00:00Z";
  security = record {
    admin_pin = "9876";
    admin_pin_enabled = true;
    lockout_until = 0;
    failed_attempts = 3;
    other = "";
  };
  executed = [];
  acknowledged = [];
}

abbrev services : Fate → String → Answers
services fate id = record { wipe_answer = wiped true; update_info = up_to_date; fate = fate }

abbrev erase : Command
erase = record { id = "w"; command = wipe }

abbrev poll : Fate → (String → Answers) × List Command
poll fate = (services fate, erase ∷ [])

-- The first poll dies, and the second one reports that the outcome is unknown.
abbrev after_death : Device
after_death = polls (poll dies_after ∷ poll survives ∷ []) device

reported : after_death.acknowledged ≡ ("w", interrupted) ∷ []
unfolding polls
reported = refl

no_upload : after_death.pending_upload ≡ none
unfolding polls
no_upload = refl

pin_reset :
    (polls
      ((services survives, record { id = "r"; command = reset_pin } ∷ []) ∷ [])
      device).security.admin_pin
    ≡ "1234"
unfolding polls
pin_reset = refl

polls-once_example : count "w" after_death.executed ≤ 1
polls-once_example = polls-once (poll dies_after ∷ poll survives ∷ []) device "w" refl refl

repeated :
    (polls (poll survives ∷ poll survives ∷ []) device).acknowledged
    ≡ ("w", completed) ∷ ("w", completed) ∷ []
unfolding polls
repeated = refl

polls-agree_example : completed ≡ completed
polls-agree_example =
    polls-agree (poll survives ∷ poll survives ∷ []) device "w" completed completed refl refl
      (rw repeated (inl refl)) (rw repeated (inr (inl refl)))
