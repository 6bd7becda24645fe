-- ===== src/Runhistory/Store.antt =====
-- runhistory/store.go and runid.go: appending to the journals of the days.
pub mod Days
use pm.Daemon.Launch.{TaskRecord}
use pm.Wfengine.State.{StageRecord, WorkflowRecord}
use pm.Runhistory.Retention.{NamedFile, is_expired}
use pm.Prelude.{
  ℕ, ◌+◌, Bool, true, false, not, ◌&&◌, Option, none, some, List, [], ◌∷◌, ◌++◌, ltb, leb, ◌==◌,
  if◌then◌else◌, length, take, Text, codes, same, Dict, get, put,
}

-- The bound of one journal line, and how many days are kept.
abbrev pub max_record_bytes : ℕ
max_record_bytes = 4096

abbrev pub default_keep_days : ℕ
default_keep_days = 30

-- The calendar: the name of a moment's day file, the moment that a file's name means if it is one of a
-- day, and AddDate(0, 0, -days).
pub record Calendar : Type 0 where
  pub day_of : ℕ → Text
  pub day_named : Text → Option ℕ
  pub days_before : ℕ → ℕ → ℕ

-- A journal with the files of its directory: the name of the open file, if there is one.
pub record Journal : Type 0 where
  pub open_day : Option Text
  pub files : Dict Text

-- How the calls of one append go; a file that may not be removed survives a prune.
pub data WriteFault : Type 0 where
  writes : WriteFault
  fails_after : ℕ → WriteFault

pub record AppendFaults : Type 0 where
  pub makes_dir : Bool
  pub opens : Bool
  pub writing : WriteFault
  pub removes : Text → Bool

pub data AppendError : Type 0 where
  marshal_failed dir_failed open_failed append_failed : AppendError

-- What ensureDay returns: whether it left another day's file, and its error.
pub record Ensured : Type 0 where
  pub rotated : Bool
  pub failure : Option AppendError

abbrev pub is_day : Text → Option Text → Bool
is_day day none = false
is_day day (some d) = same d day

abbrev pub has_file : Option Text → Bool
has_file none = false
has_file (some d) = true

abbrev pub text_of : Text → Dict Text → Text
text_of k m = elim (get k m) [ none ↦ [] | some t ↦ t ]

-- ensureDay.
unfoldable pub ensure_day : Text → AppendFaults → Journal → Ensured × Journal
ensure_day day f j =
    let rotated = has_file j.open_day in
    let closed = record j { open_day = none } in
    if is_day day j.open_day
    then (record { rotated = false; failure = none }, j)
    else (if not f.makes_dir
        then (record { rotated = rotated; failure = some dir_failed }, closed)
        else (if not f.opens
            then (record { rotated = rotated; failure = some open_failed }, closed)
            else (
              record { rotated = rotated; failure = none },
              record { open_day = some day; files = put day (text_of day j.files) j.files },
            )))

-- pruneDir on the files of a journal.
unfoldable pub prune_journal : Calendar → (Text → Bool) → ℕ → Dict Text → Dict Text
unfolding is_expired
prune_journal c removes cutoff [] = []
prune_journal c removes cutoff ((name, t) ∷ m) =
    let rest = prune_journal c removes cutoff m in
    if is_expired cutoff (record { name = name; day = c.day_named name }) && removes name
    then rest
    else (name, t) ∷ rest

-- What a raw write adds of a line.
abbrev pub written_part : WriteFault → Text → Text
written_part writes line = line
written_part (fails_after n) line = take n line

abbrev pub write_error : WriteFault → Option AppendError
write_error writes = none
write_error (fails_after n) = some append_failed

abbrev pub has_error : WriteFault → Bool
has_error writes = false
has_error (fails_after n) = true

-- append from the write on: into the file that ensureDay left open. A write without an open file fails;
-- ensureDay gives one whenever it reports no error.
unfoldable pub append_line :
    Calendar → ℕ → AppendFaults → Text → Ensured × Journal → Option AppendError × Journal
unfolding prune_journal
append_line c at f line (e, j) =
    let cutoff = c.days_before at default_keep_days in
    elim e.failure [
      | some x ↦ (some x, j)
      | none ↦ elim j.open_day [
        | none ↦ (some append_failed, j)
        | some name ↦
            let files = put name (text_of name j.files ++ written_part f.writing line) j.files in
            let pruned = prune_journal c f.removes cutoff files in
            (
              write_error f.writing,
              record j { files = if e.rotated && not (has_error f.writing) then pruned else files },
            )
      ]
    ]

-- append, given what json.Marshal makes of the record.
unfoldable pub append_record :
    Calendar → ℕ → AppendFaults → Option Text → Journal → Option AppendError × Journal
unfolding ensure_day append_line
append_record c at f none j = (some marshal_failed, j)
append_record c at f (some line) j =
    append_line c at f (line ++ 10 ∷ []) (ensure_day (c.day_of at) f j)

-- The Store.
pub record Store : Type 0 where
  pub tasks : Journal
  pub workflow : Journal

-- AppendTask; a zero moment is unset.
unfoldable pub append_task :
    Calendar
    → (TaskRecord → Option Text)
    → ℕ
    → AppendFaults
    → TaskRecord
    → Store
    → Option AppendError × Store
unfolding append_record
append_task c marshal now f r s =
    let stamped = record r { ts = if r.ts == 0 then now else r.ts } in
    let t = append_record c stamped.ts f (marshal stamped) s.tasks in
    (t.0, record s { tasks = t.1 })

-- A workflow record with the fields that only the journal has.
pub record StoredWorkflow : Type 0 where
  pub run : WorkflowRecord
  pub params : Dict Text
  pub is_truncated : Bool

unfoldable pub truncate_string : Text → ℕ → Text
truncate_string s max = if leb (length s) max then s else take max s ++ codes "..."

unfoldable pub truncate_stages : List StageRecord → List StageRecord
unfolding truncate_string
truncate_stages [] = []
truncate_stages (s ∷ ss) = record s { error = truncate_string s.error 128 } ∷ truncate_stages ss

-- truncateWorkflow.
unfoldable pub truncate_workflow : StoredWorkflow → StoredWorkflow
unfolding truncate_stages truncate_string
truncate_workflow r = record {
  run = record (r.run) {
    error = truncate_string r.run.error 256;
    stages = truncate_stages r.run.stages;
  };
  params = [];
  is_truncated = true;
}

abbrev pub is_too_long : Option Text → Bool
is_too_long none = false
is_too_long (some line) = ltb max_record_bytes (length line + 1)

-- AppendWorkflow.
unfoldable pub append_workflow :
    Calendar
    → (StoredWorkflow → Option Text)
    → ℕ
    → AppendFaults
    → StoredWorkflow
    → Store
    → Option AppendError × Store
unfolding append_record truncate_workflow
append_workflow c marshal now f r s =
    let finished = if r.run.finished_at == 0 then now else r.run.finished_at in
    let stamped = record r { run = record (r.run) { finished_at = finished } } in
    let sized = if is_too_long (marshal stamped) then truncate_workflow stamped else stamped in
    let t = append_record c finished f (marshal sized) s.workflow in
    (t.0, record s { workflow = t.1 })

-- Close.
unfoldable pub close_store : Store → Store
close_store s = record {
  tasks = record (s.tasks) { open_day = none };
  workflow = record (s.workflow) { open_day = none };
}
