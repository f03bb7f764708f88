-- ===== src/Sync/Commands/Laws.antt =====
-- A remote command is started at most once, and the Cloud is never told two outcomes of it, however
-- often it is polled and wherever the process dies.
use facenox.Base.{
  ◌≤◌, ◌≡◌, refl, sym, ap, ◌∙◌, List, [], ◌∷◌, ◌++◌, Option, none, some, String, arith, inl, inr,
  Elem,
}
use facenox.Base.Keys.{string_eq}
use facenox.JsMap.{JsMap, get, set}
use facenox.Sync.Commands.{
  Command, Status, interrupted, Fate, survives, dies_before, dies_after, Answers, Device, Progress,
  alive, died, device_of, run_command, set_receipt, finish_command, start_command, by_receipt,
  execute_command, execute_all, polls, ◌>>=◌,
}
use facenox.Sync.Commands.Receipts.{
  run_command-keeps, acknowledge_command-Safe, started-Safe, finish_command-Safe, count, bound,
  Safe,
}

start_command-Safe :
    (cmd : Command) (a : Answers) (d : Device)
    → Safe d
    → get cmd.id d.receipts ≡ none
    → Safe (device_of (start_command cmd a (set_receipt cmd.id interrupted d)))
unfolding start_command set_receipt
start_command-Safe cmd a d h absent = at_fate a.fate
  where
    noted : Device
    noted = record d { receipts = set cmd.id interrupted d.receipts }

    begun : Device
    begun = record noted { executed = d.executed ++ cmd.id ∷ [] }

    at_fate :
        (fate : Fate)
        → Safe (
            device_of (elim fate [
              | survives ↦ finish_command cmd.id (run_command cmd.command a begun)
              | dies_before ↦ died noted
              | dies_after ↦ died (run_command cmd.command a begun).0
            ]))
    at_fate survives =
        let (receipts, executed, acknowledged) = run_command-keeps cmd.command a begun in
        finish_command-Safe cmd.id (run_command cmd.command a begun).1 d
          (run_command cmd.command a begun).0 h absent receipts executed acknowledged
    at_fate dies_before =
        started-Safe cmd.id interrupted d noted h absent (λ x. refl) (inr refl) refl
    at_fate dies_after =
        let (receipts, executed, acknowledged) = run_command-keeps cmd.command a begun in
        started-Safe cmd.id interrupted d (run_command cmd.command a begun).0 h absent
          (λ x. ap (λ (r : JsMap String Status). get x r) receipts) (inl executed) acknowledged

execute_command-Safe :
    (answers : String → Answers) (cmd : Command) (d : Device)
    → Safe d
    → Safe (device_of (execute_command answers cmd d))
unfolding execute_command by_receipt
execute_command-Safe answers cmd d h = at_receipt (get cmd.id d.receipts) refl
  where
    at_receipt :
        (receipt : Option Status)
        → get cmd.id d.receipts ≡ receipt
        → Safe (device_of (by_receipt cmd (answers cmd.id) receipt d))
    at_receipt none absent = start_command-Safe cmd (answers cmd.id) d h absent
    at_receipt (some status) there = acknowledge_command-Safe cmd.id status d h there

Safe-next :
    (p : Progress) (k : Device → Progress)
    → Safe (device_of p)
    → ((d : Device) → Safe d → Safe (device_of (k d)))
    → Safe (device_of (p >>= k))
Safe-next (alive d) k s go = go d s
Safe-next (died d) k s go = s

execute_all-Safe :
    (answers : String → Answers) (commands : List Command) (d : Device)
    → Safe d
    → Safe (device_of (execute_all answers commands d))
unfolding execute_all
execute_all-Safe answers [] d h = h
execute_all-Safe answers (cmd ∷ more) d h =
    Safe-next (execute_command answers cmd d) (execute_all answers more)
      (execute_command-Safe answers cmd d h) (execute_all-Safe answers more)

polls-Safe :
    (ps : List ((String → Answers) × List Command)) (d : Device) → Safe d → Safe (polls ps d)
unfolding polls
polls-Safe [] d h = h
polls-Safe ((answers, commands) ∷ more) d h =
    polls-Safe more (device_of (execute_all answers commands d))
      (execute_all-Safe answers commands d h)

new_device-Safe : (d : Device) → d.executed ≡ [] → d.acknowledged ≡ [] → Safe d
new_device-Safe d idle silent = record {
  once = λ x. rw idle (omega arith);
  told = λ x status m. absurd (rw silent at m);
}

-- On a device that has not met a command yet, no sequence of polls starts a command twice, whatever
-- the services answer and wherever the process dies.
pub polls-once :
    (ps : List ((String → Answers) × List Command)) (d : Device) (id : String)
    → d.executed ≡ []
    → d.acknowledged ≡ []
    → count id (polls ps d).executed ≤ 1
polls-once ps d id idle silent =
    let h = polls-Safe ps d (new_device-Safe d idle silent) in
    omega (arith, h.once id, bound-le (get id (polls ps d).receipts))
  where
    bound-le : (receipt : Option Status) → bound receipt ≤ 1
    bound-le none = omega arith
    bound-le (some status) = omega arith

-- The Cloud is never told two different outcomes of a command, over any sequence of polls of a
-- device that has not met a command yet.
pub polls-agree :
    (ps : List ((String → Answers) × List Command)) (d : Device) (id : String) (s t : Status)
    → d.executed ≡ []
    → d.acknowledged ≡ []
    → Elem (id, s) (polls ps d).acknowledged
    → Elem (id, t) (polls ps d).acknowledged
    → s ≡ t
polls-agree ps d id s t idle silent m n =
    let h = polls-Safe ps d (new_device-Safe d idle silent) in
    let same : some s ≡ some t = sym (h.told id s m) ∙ h.told id t n in cc
