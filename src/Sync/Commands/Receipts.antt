-- ===== src/Sync/Commands/Receipts.antt =====
-- What a change of the receipts does to the record of what was started and what the Cloud was told.
use facenox.Base.{
  ℕ, ◌+◌, ◌≤◌, ◌≡◌, refl, ◌∙◌, List, [], ◌∷◌, ◌++◌, Option, none, some, String, arith, ◌⊎◌, inl,
  inr, if◌then◌else◌, Elem,
}
use facenox.Base.Keys.{◌===◌, string_eq}
use facenox.JsMap.{JsMap, get, set}
use facenox.JsMap.Laws.{get-set, get-set_self}
use facenox.Sync.Commands.{
  CommandKind, wipe, upgrade, reset_pin, unknown, Status, interrupted, WipeAnswer, wipe_refused,
  wiped, UpdateInfo, offline, update_error, update_found, up_to_date, Answers, Device, device_of,
  run_command, run_wipe, run_upgrade, run_reset_pin, acknowledge_command, set_receipt,
  finish_command,
}

-- How often a command stands in a list of ids.
abbrev pub count : String → List String → ℕ
count id [] = 0
count id (other ∷ ids) = (if other === id then 1 else 0) + count id ids

count-append :
    (id : String) (xs : List String) (last : String)
    → count id (xs ++ last ∷ []) ≡ count id xs + (if last === id then 1 else 0)
count-append id [] last = omega arith
count-append id (x ∷ xs) last = omega (arith, count-append id xs last)

abbrev pub bound : Option Status → ℕ
bound none = 0
bound (some status) = 1

-- Only a command with a receipt has been started, and only once; what the Cloud was told is the
-- receipt.
pub record Safe (d : Device) : Type 0 where
  pub once : (id : String) → count id d.executed ≤ bound (get id d.receipts)
  pub told :
      (id : String) (status : Status)
      → Elem (id, status) d.acknowledged
      → get id d.receipts ≡ some status

-- A command has no effect on what the manager remembers of commands.
pub run_command-keeps :
    (kind : CommandKind) (a : Answers) (d : Device)
    → let d' = (run_command kind a d).0 in
      (d'.receipts ≡ d.receipts) × (d'.executed ≡ d.executed) × (d'.acknowledged ≡ d.acknowledged)
unfolding run_command run_wipe run_upgrade run_reset_pin
run_command-keeps wipe a d = at_answer a.wipe_answer
  where
    at_answer :
        (answer : WipeAnswer)
        → let d' = (run_wipe answer d).0 in
          (d'.receipts ≡ d.receipts)
          × (d'.executed ≡ d.executed)
          × (d'.acknowledged ≡ d.acknowledged)
    at_answer wipe_refused = (refl, refl, refl)
    at_answer (wiped confirmed) = (refl, refl, refl)
run_command-keeps upgrade a d = at_info a.update_info
  where
    at_info :
        (info : UpdateInfo)
        → let d' = (run_upgrade info d).0 in
          (d'.receipts ≡ d.receipts)
          × (d'.executed ≡ d.executed)
          × (d'.acknowledged ≡ d.acknowledged)
    at_info offline = (refl, refl, refl)
    at_info update_error = (refl, refl, refl)
    at_info update_found = (refl, refl, refl)
    at_info up_to_date = (refl, refl, refl)
run_command-keeps reset_pin a d = (refl, refl, refl)
run_command-keeps unknown a d = (refl, refl, refl)

-- The receipts after a command was started that had none.
once-set :
    (id x : String) (status : Status) (receipts : JsMap String Status) (executed : List String)
    → get id receipts ≡ none
    → count x executed ≤ bound (get x receipts)
    → count x (executed ++ id ∷ []) ≤ bound (get x (set id status receipts))
once-set id x status receipts executed absent h =
    ground
      (arith, count-append x executed id, get-set id x status receipts, string_eq.same_iff id x)

kept-set :
    (id x : String) (status : Status) (receipts : JsMap String Status) (n : ℕ)
    → n ≤ bound (get x receipts)
    → n ≤ bound (get x (set id status receipts))
kept-set id x status receipts n h = ground (arith, get-set id x status receipts)

told-set :
    (id x : String) (status told : Status) (receipts : JsMap String Status)
    → get id receipts ≡ none
    → get x receipts ≡ some told
    → get x (set id status receipts) ≡ some told
told-set id x status told receipts absent h =
    ground (arith, get-set id x status receipts, string_eq.same_iff id x)

Elem-last :
    (p q : String × Status) (xs : List (String × Status))
    → Elem p (xs ++ q ∷ [])
    → Elem p xs ⊎ (q ≡ p)
Elem-last p q [] (inl e) = inr e
Elem-last p q [] (inr h) = elim h [ ]
Elem-last p q (x ∷ xs) (inl e) = inl (inl e)
Elem-last p q (x ∷ xs) (inr h) = elim (Elem-last p q xs h) [
  | inl earlier ↦ inl (inr earlier)
  | inr last ↦ inr last
]

pub acknowledge_command-Safe :
    (id : String) (status : Status) (d : Device)
    → Safe d
    → get id d.receipts ≡ some status
    → Safe (acknowledge_command id status d)
unfolding acknowledge_command
acknowledge_command-Safe id status d h receipt = record {
  once = h.once;
  told = λ x told m. elim (Elem-last (x, told) (id, status) d.acknowledged m) [
    | inl earlier ↦ h.told x told earlier
    | inr same ↦ cc (receipt, same)
  ];
}

-- The state behind a command that was started: its receipt is there, and nothing else has changed.
pub started-Safe :
    (id : String) (status : Status) (d t : Device)
    → Safe d
    → get id d.receipts ≡ none
    → ((x : String) → get x t.receipts ≡ get x (set id status d.receipts))
    → (t.executed ≡ d.executed ++ id ∷ []) ⊎ (t.executed ≡ d.executed)
    → t.acknowledged ≡ d.acknowledged
    → Safe t
started-Safe id status d t h absent receipts executed acknowledged = record {
  once = λ x. elim executed [
    | inl begun ↦
        rw (receipts x, begun) (once-set id x status d.receipts d.executed absent (h.once x))
    | inr before ↦
        rw (receipts x, before) (kept-set id x status d.receipts (count x d.executed) (h.once x))
  ];
  told = λ x told m.
      rw (receipts x)
        (told-set id x status told d.receipts absent (h.told x told (rw acknowledged at m)));
}

set-set :
    (id x : String) (first second : Status) (receipts : JsMap String Status)
    → get x (set id second (set id first receipts)) ≡ get x (set id second receipts)
set-set id x first second receipts = ground (
  arith,
  get-set id x second (set id first receipts),
  get-set id x second receipts,
  get-set id x first receipts,
)

pub finish_command-Safe :
    (id : String) (status : Status) (d t : Device)
    → Safe d
    → get id d.receipts ≡ none
    → t.receipts ≡ set id interrupted d.receipts
    → t.executed ≡ d.executed ++ id ∷ []
    → t.acknowledged ≡ d.acknowledged
    → Safe (device_of (finish_command id (t, status)))
unfolding finish_command set_receipt
finish_command-Safe id status d t h absent receipts executed acknowledged =
    let pointwise : (x : String)
        → get x (set id status t.receipts) ≡ get x (set id status d.receipts) =
      λ x. rw receipts (set-set id x interrupted status d.receipts) in
    acknowledge_command-Safe id status (set_receipt id status t)
      (started-Safe id status d (set_receipt id status t) h absent pointwise (inl executed)
        acknowledged)
      (pointwise id ∙ get-set_self id status d.receipts)
