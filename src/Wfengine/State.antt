-- ===== src/Wfengine/State.antt =====
-- workflow/run.go and the state of daemon/wfengine: runs, stages of runs, the engine and the
-- single-flight slots.
use pm.Workflow.Stage.{StageKind, Stage, kind, ref}
use pm.Workflow.Config.{Config, Defs, key, colon}
use pm.Prelude.{
  ℕ, ◌+◌, ◌-◌, Bool, true, false, ◌||◌, Option, none, some, List, [], ◌∷◌, ◌++◌, map, ltb, leb,
  ◌==◌, if◌then◌else◌, length, Text, Dict, get, put, remove, Result, ok, err, ℤ, pos,
}

-- runhistory.Status; `unset` is the empty string, of a run or stage that has not ended.
pub data Status : Type 0 where
  unset success failed skipped cancelled : Status

pub data Trigger : Type 0 where
  manual cron webhook nested : Trigger

pub record StageRun : Type 0 where
  pub index : ℕ
  pub name : Text
  pub kind : StageKind
  pub ref : Text
  pub command : Text
  pub status : Status
  pub exit_code : ℤ
  pub exit_known : Bool
  pub signal : Text
  pub pid : ℕ
  pub started_at : ℕ
  pub ended_at : ℕ
  pub log_name : Text
  pub child_run_id : Text
  pub error : Text

pub record Run : Type 0 where
  pub id : Text
  pub category : Text
  pub name : Text
  pub trigger : Trigger
  pub parent_run_id : Text
  pub depth : ℕ
  pub started_at : ℕ
  pub ended_at : ℕ
  pub status : Status
  pub error : Text
  pub stages : List StageRun

-- The method Key of Run.
unfoldable pub run_key : Run → Text
run_key r = r.category ++ colon ∷ r.name

is_unset : Status → Bool
is_unset unset = true
is_unset _ = false

unfoldable pub first_unset : List StageRun → Text
unfolding is_unset
first_unset [] = []
first_unset (s ∷ ss) = if is_unset s.status then s.name else first_unset ss

-- CurrentStage.
unfoldable pub current_stage : Run → Text
unfolding first_unset
current_stage r = first_unset r.stages

-- One execution in flight. The handle stands for the pointer's identity.
pub record ActiveRun : Type 0 where
  pub handle : ℕ
  pub run : Run
  pub chain : List Text

-- The durable form of a stage: an exit code only where one is known.
pub record StageRecord : Type 0 where
  pub name : Text
  pub kind : StageKind
  pub ref : Text
  pub status : Status
  pub exit_code : Option ℤ
  pub signal : Text
  pub started_at : ℕ
  pub duration : ℕ
  pub log : Text
  pub child_run_id : Text
  pub error : Text

pub record WorkflowRecord : Type 0 where
  pub run_id : Text
  pub workflow : Text
  pub category : Text
  pub name : Text
  pub trigger : Trigger
  pub parent_run_id : Text
  pub depth : ℕ
  pub started_at : ℕ
  pub finished_at : ℕ
  pub duration : ℕ
  pub status : Status
  pub stages : List StageRecord
  pub error : Text

-- runhistory.ExitCodeOf.
unfoldable pub exit_code_of : ℤ → Bool → Option ℤ
exit_code_of code known = if known then some code else none

-- durationMS, on a clock of milliseconds whose zero is the zero time.
unfoldable pub duration_ms : ℕ → ℕ → ℕ
duration_ms start end = if (start == 0 || end == 0) || ltb end start then 0 else end - start

unfoldable pub stage_record : StageRun → StageRecord
stage_record s = record {
  name = s.name;
  kind = s.kind;
  ref = s.ref;
  status = s.status;
  exit_code = exit_code_of s.exit_code s.exit_known;
  signal = s.signal;
  started_at = s.started_at;
  duration = duration_ms s.started_at s.ended_at;
  log = s.log_name;
  child_run_id = s.child_run_id;
  error = s.error;
}

-- The method Record.
unfoldable pub record_of : Run → WorkflowRecord
record_of r = record {
  run_id = r.id;
  workflow = run_key r;
  category = r.category;
  name = r.name;
  trigger = r.trigger;
  parent_run_id = r.parent_run_id;
  depth = r.depth;
  started_at = r.started_at;
  finished_at = r.ended_at;
  duration = duration_ms r.started_at r.ended_at;
  status = r.status;
  stages = map stage_record r.stages;
  error = r.error;
}

-- The engine. `journal` lists the records that the engine hands to the history's AppendWorkflow, in
-- order; whether an append then succeeds changes nothing in the engine, which only logs the error, and
-- what lands in a file is the Store's part. `ticks` counts what was asked of the clock and of the run
-- identifiers, `handles` the runs that were allocated.
pub record Engine : Type 0 where
  pub defs : Defs
  pub inflight : Dict ActiveRun
  pub journal : List WorkflowRecord
  pub ticks : ℕ
  pub handles : ℕ

abbrev pub max_concurrent_runs : ℕ
max_concurrent_runs = 32

pub data RunError : Type 0 where
  run_in_progress : (key : Text) (run_id : Text) → RunError
  too_many_runs : ℕ → RunError
  unknown_workflow : Text → RunError
  ambiguous : Text → List Text → RunError

unfoldable pub fresh_stages : ℕ → List Stage → List StageRun
fresh_stages i [] = []
fresh_stages i (s ∷ ss) =
    record {
      index = i;
      name = s.name;
      kind = kind s;
      ref = ref s;
      command = [];
      status = unset;
      exit_code = pos 0;
      exit_known = false;
      signal = [];
      pid = 0;
      started_at = 0;
      ended_at = 0;
      log_name = [];
      child_run_id = [];
      error = [];
    }
    ∷ fresh_stages (i + 1) ss

-- newActiveRun, at the time `now` and with the identifier drawn for it.
unfoldable pub new_active_run : ℕ → Text → ℕ → Config → Trigger → Option ActiveRun → ActiveRun
unfolding fresh_stages
new_active_run now id handle c t parent = record {
  handle = handle;
  run = record {
    id = id;
    category = c.category;
    name = c.name;
    trigger = t;
    parent_run_id = elim parent [ none ↦ [] | some p ↦ p.run.id ];
    depth = elim parent [ none ↦ 0 | some p ↦ p.run.depth + 1 ];
    started_at = now;
    ended_at = 0;
    status = unset;
    error = [];
    stages = fresh_stages 0 c.stages;
  };
  chain = elim parent [ none ↦ key c ∷ [] | some p ↦ p.chain ++ key c ∷ [] ];
}

-- claim: the single-flight slot of a workflow, or why it cannot be had.
unfoldable pub claim_at :
    ℕ
    → Text
    → Config
    → Trigger
    → Option ActiveRun
    → Engine
    → Option ActiveRun
    → Result RunError ActiveRun × Engine
unfolding new_active_run
claim_at now id c t parent e (some busy) = (err (run_in_progress (key c) busy.run.id), e)
claim_at now id c t parent e none =
    let ar = new_active_run now id e.handles c t parent in
    if leb max_concurrent_runs (length e.inflight)
    then (err (too_many_runs (length e.inflight)), e)
    else (
      ok ar,
      record e {
        inflight = put (key c) ar e.inflight;
        handles = e.handles + 1;
        ticks = e.ticks + 1;
      },
    )

unfoldable pub claim :
    ℕ → Text → Config → Trigger → Option ActiveRun → Engine → Result RunError ActiveRun × Engine
unfolding claim_at
claim now id c t parent e = claim_at now id c t parent e (get (key c) e.inflight)

-- release: only the run that holds the slot frees it.
unfoldable pub release : Text → ActiveRun → Engine → Engine
release k ar e = elim (get k e.inflight) [
  | none ↦ e
  | some holder ↦
      if holder.handle == ar.handle then record e { inflight = remove k e.inflight } else e
]

-- recordRun, of an engine with a history: the record is handed over.
unfoldable pub record_run : Run → Engine → Engine
unfolding record_of
record_run r e = record e { journal = e.journal ++ record_of r ∷ [] }
