-- ===== src/Sync/Commands.antt =====
-- app/src/electron/managers/BackgroundSyncManager.ts: the remote commands, `executeCommand` and the
-- loop of `pollCommands`.
--
-- `answers id` is what the local service, the updater and the Cloud answer while the command `id` is
-- executed; it may also say that the process dies in the middle of it. A receipt is known by its
-- status and by whether it reports an unknown outcome; other texts are left out.
pub mod Receipts
pub mod Laws
mod Tests
use facenox.Base.{
  ℕ, ◌+◌, ◌≡◌, Bool, true, false, List, [], ◌∷◌, ◌++◌, Option, none, some, String, if◌then◌else◌,
}
use facenox.Base.Keys.{◌===◌, string_eq}
use facenox.JsMap.{JsMap, get, set}
use facenox.Sync.Upload.{PendingUpload, Acknowledgements}

pub data CommandKind : Type 0 where
  wipe upgrade reset_pin unknown : CommandKind

pub record Command : Type 0 where
  pub id : String
  pub command : CommandKind

pub data Status : Type 0 where
  completed failed interrupted : Status

-- The answer to `/attendance/wipe`: none or an error status, or whether the body confirms the wipe.
pub data WipeAnswer : Type 0 where
  wipe_refused : WipeAnswer
  wiped : Bool → WipeAnswer

-- `checkForUpdates(true)`
pub data UpdateInfo : Type 0 where
  offline update_error update_found up_to_date : UpdateInfo

-- Where the process dies, if it does: before the effect of the command, or after it.
pub data Fate : Type 0 where
  survives dies_before dies_after : Fate

pub record Answers : Type 0 where
  pub wipe_answer : WipeAnswer
  pub update_info : UpdateInfo
  pub fate : Fate

pub record Security : Type 0 where
  pub admin_pin : String
  pub admin_pin_enabled : Bool
  pub lockout_until : ℕ
  pub failed_attempts : ℕ
  -- the other fields, which the spread keeps
  pub other : String

pub record Device : Type 0 where
  pub receipts : JsMap String Status
  pub pending_upload : Option PendingUpload
  pub pending_acknowledgements : Option Acknowledgements
  pub last_synced_at : Option String
  pub security : Security
  -- the commands whose effects were started, and what the Cloud was told, oldest first
  pub executed : List String
  pub acknowledged : List (String × Status)

pub data Progress : Type 0 where
  alive died : Device → Progress

infixl 5 ◌>>=◌
abbrev pub ◌>>=◌ : Progress → (Device → Progress) → Progress
alive d >>= k = k d
died d >>= k = died d

-- The case `WIPE`: the stored upload goes with the data, whether or not the body confirms.
run_wipe : WipeAnswer → Device → Device × Status
run_wipe wipe_refused d = (d, failed)
run_wipe (wiped confirmed) d = (
  record d { pending_upload = none; pending_acknowledgements = none; last_synced_at = none },
  if confirmed then completed else failed,
)

run_upgrade : UpdateInfo → Device → Device × Status
run_upgrade offline d = (d, failed)
run_upgrade update_error d = (d, failed)
run_upgrade _ d = (d, completed)

run_reset_pin : Device → Device × Status
run_reset_pin d = (
  record d {
    security = record d.security {
      admin_pin = "1234";
      admin_pin_enabled = false;
      lockout_until = 0;
      failed_attempts = 0;
    };
  },
  completed,
)

-- The `switch`, in its `try` block.
pub run_command : CommandKind → Answers → Device → Device × Status
unfolding run_wipe run_upgrade run_reset_pin
run_command wipe a d = run_wipe a.wipe_answer d
run_command upgrade a d = run_upgrade a.update_info d
run_command reset_pin a d = run_reset_pin d
run_command unknown a d = (d, failed)

pub acknowledge_command : String → Status → Device → Device
acknowledge_command id status d = record d { acknowledged = d.acknowledged ++ (id, status) ∷ [] }

set_receipt : String → Status → Device → Device
unfolding set
set_receipt id status d = record d { receipts = set id status d.receipts }

pub finish_command : String → Device × Status → Progress
unfolding set_receipt acknowledge_command
finish_command id (d, status) = alive (acknowledge_command id status (set_receipt id status d))

-- The command after its intent has been stored. A failed command has been started, too.
start_command : Command → Answers → Device → Progress
unfolding finish_command run_command
start_command cmd a d =
    let begun = record d { executed = d.executed ++ cmd.id ∷ [] } in
    elim a.fate [
      | survives ↦ finish_command cmd.id (run_command cmd.command a begun)
      | dies_before ↦ died d
      | dies_after ↦ died (run_command cmd.command a begun).0
    ]

by_receipt : Command → Answers → Option Status → Device → Progress
unfolding start_command acknowledge_command set_receipt
by_receipt cmd a (some status) d = alive (acknowledge_command cmd.id status d)
by_receipt cmd a none d = start_command cmd a (set_receipt cmd.id interrupted d)

pub execute_command : (String → Answers) → Command → Device → Progress
unfolding by_receipt get
execute_command answers cmd d = by_receipt cmd (answers cmd.id) (get cmd.id d.receipts) d

-- The loop over the commands that a poll has found; where a suspension breaks it off, the list is
-- shorter.
pub execute_all : (String → Answers) → List Command → Device → Progress
unfolding execute_command
execute_all answers [] d = alive d
execute_all answers (cmd ∷ more) d = do
  d' ← execute_command answers cmd d
  execute_all answers more d'

abbrev pub device_of : Progress → Device
device_of (alive d) = d
device_of (died d) = d

-- Polls one after another; after a death the next one finds what the store holds.
pub polls : List ((String → Answers) × List Command) → Device → Device
unfolding execute_all
polls [] d = d
polls ((answers, commands) ∷ more) d = polls more (device_of (execute_all answers commands d))
