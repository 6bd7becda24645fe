-- ===== src/Wfengine/Execute.antt =====
-- daemon/wfengine/execute.go: running the stages in order, nested workflows, and the journal.
pub mod Slots
pub mod Nesting
pub mod Concluding
pub mod Settling
pub mod Outcomes
use pm.Workflow.Stage.{StageKind, stage_task, stage_workflow, Stage, kind, ref}
use pm.Workflow.Config.{Config, key, itoa, timeout_duration}
use pm.Workflow.Graph.{resolve, max_nesting_depth, ambiguous_ref}
use pm.Wfengine.State.{
  Status, unset, success, failed, skipped, cancelled, Trigger, nested, StageRun, Run, ActiveRun,
  Engine, RunError, run_in_progress, too_many_runs, unknown_workflow, ambiguous, claim, release,
  record_run,
}
use pm.Wfengine.Stages.{
  StageExec, World, TaskCommand, with_stage, store, exec_stage, merge_env, describe_stage_failure,
}
use pm.Prelude.{
  ℕ, zero, suc, ◌+◌, Bool, true, false, Option, none, some, List, [], ◌∷◌, ◌++◌, ltb, leb,
  if◌then◌else◌, length, Text, codes, contains, join, get, Result, ok, err, pos,
}

abbrev pub is_success_status : Status → Bool
is_success_status success = true
is_success_status _ = false

abbrev pub is_unset_status : Status → Bool
is_unset_status unset = true
is_unset_status _ = false

-- markRemaining, from an index on.
unfoldable pub mark_from : ℕ → Status → List StageRun → List StageRun
mark_from i st [] = []
mark_from zero st (s ∷ ss) =
    (if is_unset_status s.status then record s { status = st } else s) ∷ mark_from zero st ss
mark_from (suc i) st (s ∷ ss) = s ∷ mark_from i st ss

unfoldable pub mark_remaining : ℕ → Status → ActiveRun → ActiveRun
unfolding mark_from
mark_remaining i st ar = record ar {
  run = record (ar.run) { stages = mark_from i st ar.run.stages };
}

pub show_error : World → RunError → Text
show_error w (run_in_progress k id) =
    codes "workflow run already in progress: " ++ k ++ codes " (run " ++ id ++ codes ")"
show_error w (too_many_runs n) =
    codes "too many workflow runs in flight: " ++ itoa n ++ codes " already running"
show_error w (unknown_workflow r) = codes "unknown workflow: " ++ r
show_error w (ambiguous r ks) =
    codes "workflow " ++ w.quote r ++ codes " is ambiguous: [" ++ join (codes " ") ks ++ codes "]"

abbrev pub fail_stage : Text → StageRun → StageRun
fail_stage m r = record r { status = failed; error = m }

-- How a claimed child is run.
abbrev pub RunChild : Type 0
RunChild = Config → ActiveRun → Engine → ActiveRun × Engine

unfoldable pub run_claimed :
    World → RunChild → Config → StageRun → Result RunError ActiveRun → Engine → StageRun × Engine
unfolding show_error
run_claimed w run_child c r (err x) e = (fail_stage (show_error w x) r, e)
run_claimed w run_child c r (ok child) e =
    let (ended, e') = run_child c child e in
    (
      record r { child_run_id = ended.run.id; status = ended.run.status; error = ended.run.error },
      e',
    )

-- The part of runNested that has a target: the cycle guard, the depth guard, the claim and the run.
unfoldable pub enter_child :
    World → RunChild → ActiveRun → StageRun → Text → Option Config → Engine → StageRun × Engine
unfolding run_claimed
enter_child w run_child ar r k none e = (r, e)
enter_child w run_child ar r k (some c) e =
    if contains k ar.chain
    then (fail_stage (codes "workflow cycle: " ++ join (codes " -> ") (ar.chain ++ k ∷ [])) r, e)
    else (if leb max_nesting_depth (length ar.chain)
        then (
          fail_stage
              (codes "workflow nesting depth "
                ++ itoa max_nesting_depth
                ++ codes " exceeded: "
                ++ join (codes " -> ") ar.chain)
              r,
          e,
        )
        else (let time = w.now e.ticks in
            let (claimed, e') = claim time (w.run_id e.ticks time) c nested (some ar) e in
            run_claimed w run_child c r claimed e'))

unfoldable pub follow_reference :
    World → RunChild → Stage → ActiveRun → StageRun → Option Text → Engine → StageRun × Engine
unfolding enter_child
follow_reference w run_child st ar r none e =
    (fail_stage (codes "unknown workflow: " ++ st.workflow) r, e)
follow_reference w run_child st ar r (some k) e = enter_child w run_child ar r k (get k e.defs) e

-- runNested. resolve gives keys of the set only, so the target always has a definition.
unfoldable pub run_nested :
    World → RunChild → Stage → ActiveRun → StageRun → Engine → StageRun × Engine
unfolding follow_reference
run_nested w run_child st ar r e =
    follow_reference w run_child st ar r (resolve e.defs st.workflow) e

-- What a task stage runs: the task's own command, once, under the stage's timeout.
abbrev pub task_exec : World → Config → Stage → TaskCommand → StageExec
task_exec w c st t = record {
  script = t.script;
  args = t.args;
  env = t.env;
  base_env = t.base_env;
  cwd = t.cwd;
  timeout = timeout_duration w.parse_duration c st;
}

abbrev pub script_exec : World → Config → Stage → StageExec
script_exec w c st = record {
  script = st.script;
  args = st.args;
  env = merge_env c.env st.env;
  base_env = c.base_env;
  cwd = st.cwd;
  timeout = timeout_duration w.parse_duration c st;
}

unfoldable pub run_task :
    World
    → Config
    → Stage
    → ActiveRun
    → ℕ
    → StageRun
    → Result Text TaskCommand
    → Engine
    → StageRun × ActiveRun × Engine
run_task w c st ar i r (err m) e = (fail_stage m r, ar, e)
run_task w c st ar i r (ok t) e = exec_stage w (task_exec w c st t) c ar i r e

-- The switch of runStage.
unfoldable pub dispatch :
    World
    → RunChild
    → StageKind
    → Config
    → Stage
    → ActiveRun
    → ℕ
    → StageRun
    → Engine
    → StageRun × ActiveRun × Engine
unfolding run_nested run_task exec_stage
dispatch w run_child stage_workflow c st ar i r e =
    let (r', e') = run_nested w run_child st ar r e in (r', ar, e')
dispatch w run_child stage_task c st ar i r e = run_task w c st ar i r (w.lookup_task st.task) e
dispatch w run_child _ c st ar i r e = exec_stage w (script_exec w c st) c ar i r e

abbrev pub opened_stage : ℕ → Stage → ℕ → StageRun
opened_stage i st time = record {
  index = i;
  name = st.name;
  kind = kind st;
  ref = ref st;
  command = [];
  status = unset;
  exit_code = pos 0;
  exit_known = false;
  signal = [];
  pid = 0;
  started_at = time;
  ended_at = 0;
  log_name = [];
  child_run_id = [];
  error = [];
}

abbrev pub tick : Engine → Engine
tick e = record e { ticks = e.ticks + 1 }

-- runStage.
unfoldable pub run_stage :
    World → RunChild → Config → Stage → ActiveRun → ℕ → Engine → StageRun × ActiveRun × Engine
unfolding dispatch with_stage store
run_stage w run_child c st ar i e =
    let opened = opened_stage i st (w.now e.ticks) in
    let published = with_stage i opened ar in
    let (r, ar', e') =
      dispatch w run_child (kind st) c st published i opened (store published (tick e)) in
    (record r { ended_at = w.now e'.ticks }, ar', tick e')

-- What the loop of execute leaves: the run, its status and its error.
pub record Outcome : Type 0 where
  pub ar : ActiveRun
  pub status : Status
  pub error : Text

abbrev pub StageRunner : Type 0
StageRunner = Stage → ActiveRun → ℕ → Engine → StageRun × ActiveRun × Engine

stage_error : World → ℕ → StageRun → Text
stage_error w i r =
    codes "stage "
    ++ itoa (i + 1)
    ++ codes " ("
    ++ w.quote r.name
    ++ codes ") "
    ++ describe_stage_failure r

-- The loop of execute from stage `i` on.
unfoldable pub run_stages :
    World → StageRunner → ℕ → List Stage → ActiveRun → Engine → Outcome × Engine
unfolding stage_error
run_stages w run i [] ar e = (record { ar = ar; status = success; error = [] }, e)
run_stages w run i (st ∷ sts) ar e =
    let continue = λ (t : StageRun × ActiveRun × Engine).
      let ar' = with_stage i t.0 t.1 in
      let e' = store ar' t.2 in
      let rest = run_stages w run (i + 1) sts ar' e' in
      let marked = mark_remaining (i + 1) skipped ar' in
      if is_success_status t.0.status then rest else (
        record { ar = marked; status = t.0.status; error = stage_error w i t.0 },
        store marked e',
      ) in
    let marked = mark_remaining i cancelled ar in
    if w.is_stopped e.ticks ar.run.id
    then (
      record { ar = marked; status = cancelled; error = codes "run cancelled" },
      store marked (tick e),
    )
    else continue (run st ar i (tick e))

-- execute: what follows the loop, the deferred release and the journal record included.
unfoldable pub conclude : World → Config → Outcome × Engine → ActiveRun × Engine
conclude w c (o, e) =
    let ar = record (o.ar) {
      run = record (o.ar.run) { status = o.status; error = o.error; ended_at = w.now e.ticks };
    } in
    (ar, record_run ar.run (release (key c) ar (store ar (tick e))))

-- execute, by fuel for the nesting.
unfoldable pub execute : ℕ → World → Config → ActiveRun → Engine → ActiveRun × Engine
execute zero w c ar e = (ar, e)
execute (suc fuel) w c ar e = conclude w c (
    run_stages w (λ st a i e'. run_stage w (λ d b x. execute fuel w d b x) c st a i e') 0 c.stages
      ar e)

-- A claimed run with its workflow, as the goroutine of Run gets them.
abbrev pub Started : Type 0
Started = Config × ActiveRun

abbrev pub with_config : Config → Result RunError ActiveRun → Result RunError Started
with_config c (err x) = err x
with_config c (ok ar) = ok (c, ar)

unfoldable pub start_found :
    World → Trigger → Text → Option Config → Engine → Result RunError Started × Engine
unfolding claim
start_found w t r none e = (err (unknown_workflow r), e)
start_found w t r (some c) e =
    let time = w.now e.ticks in
    let (claimed, e') = claim time (w.run_id e.ticks time) c t none e in (with_config c claimed, e')

unfoldable pub start_resolved :
    World → Trigger → Text → Option Text → Engine → Result RunError Started × Engine
unfolding start_found
start_resolved w t r none e =
    let candidates = ambiguous_ref e.defs r in
    (err (if ltb 1 (length candidates) then ambiguous r candidates else unknown_workflow r), e)
start_resolved w t r (some k) e = start_found w t r (get k e.defs) e

-- Run up to its goroutine, which is all of it for a caller who does not wait.
unfoldable pub start_run : World → Text → Trigger → Engine → Result RunError Started × Engine
unfolding start_resolved
start_run w r t e = start_resolved w t r (resolve e.defs r) e

-- The goroutine. MaxNestingDepth bounds the chain, and so the fuel.
unfoldable pub execute_started : World → Started → Engine → ActiveRun × Engine
unfolding execute
execute_started w (c, ar) e = execute max_nesting_depth w c ar e

unfoldable pub await_started :
    World → Result RunError Started × Engine → Result RunError Run × Engine
unfolding execute_started
await_started w (err x, e) = (err x, e)
await_started w (ok s, e) = let (ended, e') = execute_started w s e in (ok ended.run, e')

-- Run, of a caller who waits for the end, with no other run between.
unfoldable pub run : World → Text → Trigger → Engine → Result RunError Run × Engine
unfolding start_run await_started
run w r t e = await_started w (start_run w r t e)
