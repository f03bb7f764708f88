-- ===== src/AutoExport.antt =====
-- app/src/electron/managers/AutoExportManager.ts: the daily report. Here stands the schedule: the
-- stored configuration, the timer's check, and a run from its start to its end. An event is what
-- happens between two points at which the code waits; the clock's reading is the event's argument.
pub mod Csv
pub mod Xml
pub mod Rows
pub mod Files
pub mod Schedule
pub mod Tests
use facenox.Base.{
  Bool, true, false, not, ◌&&◌, List, [], ◌∷◌, ◌++◌, Option, none, some, ltb, ◌==◌, if◌then◌else◌,
  String,
}
use facenox.Base.Keys.{◌===◌, string_eq}
use facenox.Base.Text.{Text, codes}

pub data Format : Type 0 where
  excel_workbook individual_csvs combined_csv : Format

pub record AutoExportConfig : Type 0 where
  pub enabled : Bool
  pub time : Text
  pub directory : String
  pub format : Format
  pub last_exported_date : Option String

-- `Partial<AutoExportConfig>`; also what the store may hold.
pub record Updates : Type 0 where
  pub enabled : Option Bool
  pub time : Option Text
  pub directory : Option String
  pub format : Option Format
  pub last_exported_date : Option (Option String)

-- The manager: the store's entry, the flag, and the date of the run that waits, when there is one.
pub record Manager : Type 0 where
  pub stored : Option Updates
  pub is_exporting : Bool
  pub running : Option String

-- `a ?? b`
abbrev pub or_else {ℓ} : {A : Type ℓ} → Option A → A → A
or_else none b = b
or_else (some a) b = a

-- `raw?.directory || default`: an empty directory counts as none.
abbrev pub directory_or : Option String → String → String
directory_or none default = default
directory_or (some directory) default = if directory === "" then default else directory

-- `{ ...current, ...updates }`
unfoldable pub merge_config : AutoExportConfig → Updates → AutoExportConfig
merge_config c u = record {
  enabled = or_else u.enabled c.enabled;
  time = or_else u.time c.time;
  directory = or_else u.directory c.directory;
  format = or_else u.format c.format;
  last_exported_date = or_else u.last_exported_date c.last_exported_date;
}

abbrev pub full : AutoExportConfig → Updates
full c = record {
  enabled = some c.enabled;
  time = some c.time;
  directory = some c.directory;
  format = some c.format;
  last_exported_date = some c.last_exported_date;
}

abbrev pub exported_on : String → Updates
exported_on date = record {
  enabled = none;
  time = none;
  directory = none;
  format = none;
  last_exported_date = some (some date);
}

-- `a >= b` of strings: by code units.
abbrev pub text_geb : Text → Text → Bool
text_geb s [] = true
text_geb [] (b ∷ t) = false
text_geb (a ∷ s) (b ∷ t) =
    let rest = text_geb s t in if ltb b a then true else if a == b then rest else false

abbrev pub same_date : Option String → String → Bool
same_date none date = false
same_date (some d) date = d === date

-- `targetDate || getTodayLocalDateString()`
abbrev pub date_to_export : Option String → String → String
date_to_export target today = directory_or target today

-- `triggerExport` up to its first `await`.
unfoldable pub begin_export : Option String → String → Manager → Manager
begin_export target today m = if m.is_exporting then m else record {
  stored = m.stored;
  is_exporting = true;
  running = some (date_to_export target today);
}

-- How the rest of `triggerExport` ends: no group, files written, or an error on the way.
pub data Outcome : Type 0 where
  no_groups written failed : Outcome

abbrev pub is_success : Outcome → Bool
is_success no_groups = true
is_success written = true
is_success failed = false

-- The `finally` block.
abbrev pub release : Manager → Manager
release m = record { stored = m.stored; is_exporting = false; running = none }

pub data Event : Type 0 where
  checked : String → Text → Event
  triggered : Option String → String → Event
  ended : Outcome → Event
  updated : Updates → Event

-- The dates of the runs that an event ends with success.
unfoldable pub succeeded : Event → Manager → List String
succeeded (checked today current_time) m = []
succeeded (triggered target today) m = []
succeeded (updated u) m = []
succeeded (ended outcome) m = elim m.running [
  | none ↦ []
  | some date ↦ if is_success outcome then date ∷ [] else []
]

module _ (default_directory : String) where
  unfoldable pub config_of : Option Updates → AutoExportConfig
  config_of none = record {
    enabled = false;
    time = codes "17:00";
    directory = default_directory;
    format = excel_workbook;
    last_exported_date = none;
  }
  config_of (some raw) = record {
    enabled = or_else raw.enabled false;
    time = or_else raw.time (codes "17:00");
    directory = directory_or raw.directory default_directory;
    format = or_else raw.format excel_workbook;
    last_exported_date = or_else raw.last_exported_date none;
  }

  unfoldable pub get_config : Manager → AutoExportConfig
  get_config m = config_of m.stored

  unfoldable pub update_config : Updates → Manager → Manager
  unfolding get_config merge_config
  update_config u m = record {
    stored = some (full (merge_config (get_config m) u));
    is_exporting = m.is_exporting;
    running = m.running;
  }

  unfoldable pub end_export : Outcome → Manager → Manager
  unfolding update_config
  end_export outcome m = elim m.running [
    | none ↦ m
    | some date ↦
        if is_success outcome then release (update_config (exported_on date) m) else release m
  ]

  unfoldable pub is_due : String → Text → Manager → Bool
  unfolding get_config
  is_due today current_time m =
      text_geb current_time (get_config m).time
      && not (same_date (get_config m).last_exported_date today)

  -- `checkAndRunExport`
  unfoldable pub check : String → Text → Manager → Manager
  unfolding get_config begin_export is_due
  check today current_time m =
      if not (get_config m).enabled
      then m
      else if m.is_exporting
      then m
      else if is_due today current_time m
      then begin_export (some today) today m
      else m

  unfoldable pub happen : Event → Manager → Manager
  unfolding check begin_export end_export update_config
  happen (checked today current_time) m = check today current_time m
  happen (triggered target today) m = begin_export target today m
  happen (ended outcome) m = end_export outcome m
  happen (updated u) m = update_config u m

  -- The dates of the reports that a sequence of events brings to their end, in order.
  unfoldable pub exports : List Event → Manager → List String
  unfolding happen succeeded
  exports [] m = []
  exports (event ∷ events) m = succeeded event m ++ exports events (happen event m)
