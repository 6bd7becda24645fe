-- ===== src/Wfengine/Stages.antt =====
-- daemon/wfengine/stage.go and the parts of execute.go about one stage: running its command and
-- recording how that ended.
use pm.Workflow.Stage.{DurationParser}
use pm.Workflow.Config.{Config, key, itoa}
use pm.Runhistory.Names.{stage_log_name}
use pm.Wfengine.Exit.{ExitInfo, is_success}
use pm.Wfengine.State.{
  Status, unset, success, failed, skipped, cancelled, StageRun, run_key, ActiveRun, Engine,
}
use pm.Prelude.{
  ℕ, zero, suc, ◌+◌, Bool, not, none, some, List, [], ◌∷◌, ◌++◌, ◌==◌, if◌then◌else◌, Text, codes,
  is_empty, Dict, get, put, Result, ℤ, pos, negsuc, is_positive,
}

pub record StageExec : Type 0 where
  pub script : Text
  pub args : List Text
  pub env : Dict Text
  pub base_env : List Text
  pub cwd : Text
  pub timeout : ℤ

-- How the select of execStage was left: the child ended, its deadline passed, or its context was
-- cancelled. In the last two the child is stopped, and its exit is read afterwards.
pub data Ending : Type 0 where
  waited deadline stopped : ExitInfo → Ending

pub data Spawn : Type 0 where
  no_directory no_log no_start : (message : Text) → Spawn
  started : (pid : ℕ) → Ending → Spawn

-- What TaskLookup gives of a task.
pub record TaskCommand : Type 0 where
  pub script : Text
  pub args : List Text
  pub env : Dict Text
  pub base_env : List Text
  pub cwd : Text

-- The outside world: the clock, the run identifiers, cancellation, the operating system, the
-- daemon's tasks, and the formats of Go's library. The first argument is the engine's tick.
pub record World : Type 0 where
  pub now : ℕ → ℕ
  pub run_id : ℕ → ℕ → Text
  pub is_stopped : ℕ → Text → Bool
  pub spawn : ℕ → StageExec → Spawn
  pub lookup_task : Text → Result Text TaskCommand
  pub parse_duration : DurationParser
  pub lowered : Text → List ℕ
  pub show_duration : ℤ → Text
  pub quote : Text → Text

-- fillExit.
unfoldable pub fill_exit : ExitInfo → StageRun → StageRun
fill_exit x r =
    let seen = record r { exit_code = x.code; exit_known = x.known; signal = x.signal } in
    if is_success x then record seen { status = success } else record seen {
      status = failed;
      error = elim x.error [ none ↦ r.error | some message ↦ message ];
    }

-- The cases of the select. A stage without a timeout has a nil timer channel, which never fires.
unfoldable pub end_stage : World → StageExec → StageRun → Ending → StageRun
end_stage w se r (waited x) = fill_exit x r
end_stage w se r (deadline x) =
    if is_positive se.timeout
    then record (fill_exit x r) {
      status = failed;
      error = codes "stage exceeded its " ++ w.show_duration se.timeout ++ codes " timeout";
    }
    else fill_exit x r
end_stage w se r (stopped x) = record (fill_exit x r) {
  status = cancelled;
  error = codes "run cancelled";
}

unfoldable pub command_line : Text → List Text → Text
command_line line [] = line
command_line line (a ∷ args) = command_line (line ++ codes " " ++ a) args

unfoldable pub set_at : ℕ → StageRun → List StageRun → List StageRun
set_at i r [] = []
set_at zero r (s ∷ ss) = r ∷ ss
set_at (suc i) r (s ∷ ss) = s ∷ set_at i r ss

-- What ar.update does to the run's stages.
unfoldable pub with_stage : ℕ → StageRun → ActiveRun → ActiveRun
with_stage i r ar = record ar { run = record (ar.run) { stages = set_at i r ar.run.stages } }

-- The run behind the pointer in the slot: LiveRuns reads what is stored here.
unfoldable pub store : ActiveRun → Engine → Engine
store ar e = elim (get (run_key ar.run) e.inflight) [
  | none ↦ e
  | some holder ↦
      if holder.handle == ar.handle
      then record e { inflight = put (run_key ar.run) ar e.inflight }
      else e
]

unfoldable pub finish_spawn :
    World → StageExec → ActiveRun → ℕ → StageRun → Spawn → Engine → StageRun × ActiveRun × Engine
unfolding end_stage with_stage store
finish_spawn w se ar i r (no_directory m) e =
    (record r { status = failed; error = codes "create workflow log directory: " ++ m }, ar, e)
finish_spawn w se ar i r (no_log m) e =
    (record r { status = failed; error = codes "open stage log: " ++ m }, ar, e)
finish_spawn w se ar i r (no_start m) e = (record r { status = failed; error = m }, ar, e)
finish_spawn w se ar i r (started pid ending) e =
    let live = record r { pid = pid } in
    let published = with_stage i live ar in
    (end_stage w se live ending, published, store published e)

-- execStage.
unfoldable pub exec_stage :
    World → StageExec → Config → ActiveRun → ℕ → StageRun → Engine → StageRun × ActiveRun × Engine
unfolding finish_spawn
exec_stage w se c ar i r e =
    let named = record r {
      log_name = stage_log_name w.lowered (key c) ar.run.id r.name;
      command = command_line se.script se.args;
    } in
    finish_spawn w se ar i named (w.spawn e.ticks se) (record e { ticks = e.ticks + 1 })

-- mergeEnv: the stage's variables over the workflow's.
unfoldable pub merge_env : Dict Text → Dict Text → Dict Text
merge_env base [] = base
merge_env base ((k, v) ∷ over) = merge_env (put k v base) over

itoa_signed : ℤ → Text
itoa_signed (pos n) = itoa n
itoa_signed (negsuc n) = codes "-" ++ itoa (n + 1)

pub status_text : Status → Text
status_text unset = []
status_text success = codes "success"
status_text failed = codes "failed"
status_text skipped = codes "skipped"
status_text cancelled = codes "cancelled"

-- describeStageFailure.
unfoldable pub describe_stage_failure : StageRun → Text
unfolding itoa_signed status_text
describe_stage_failure r =
    if not (is_empty r.signal)
    then codes "was terminated by " ++ r.signal
    else (if r.exit_known
        then codes "exited " ++ itoa_signed r.exit_code
        else (if not (is_empty r.error) then r.error else status_text r.status))
