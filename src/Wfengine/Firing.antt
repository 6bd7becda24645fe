-- ===== src/Wfengine/Firing.antt =====
-- daemon/wfengine/cron.go: cronFire and recordSkip.
use pm.Workflow.Config.{Config, key, parse_key}
use pm.Workflow.Graph.{resolve}
use pm.Wfengine.State.{ActiveRun, Engine, RunError, WorkflowRecord, cron, skipped}
use pm.Wfengine.Stages.{World}
use pm.Wfengine.Execute.{show_error, Started, start_run, execute_started}
use pm.Wfengine.Execute.Settling.{
  Ran, Starts, refused, started, start_run-Starts, execute_started-Ran,
}
use pm.Prelude.{◌+◌, ◌≡◌, refl, Option, none, some, [], ◌∷◌, ◌++◌, Text, get, put, Result, ok, err}

-- recordSkip's record.
unfoldable pub skipped_fire : World → Text → RunError → Engine → WorkflowRecord
unfolding parse_key
skipped_fire w key x e =
    let time = w.now e.ticks in
    let parts = parse_key key in
    record {
      run_id = w.run_id e.ticks time;
      workflow = key;
      category = parts.0;
      name = parts.1;
      trigger = cron;
      parent_run_id = [];
      depth = 0;
      started_at = time;
      finished_at = time;
      duration = 0;
      status = skipped;
      stages = [];
      error = show_error w x;
    }

-- recordSkip, of an engine with a history: the record is handed over.
unfoldable pub record_skip : World → Text → RunError → Engine → Engine
unfolding skipped_fire
record_skip w key x e = record e {
  journal = e.journal ++ skipped_fire w key x e ∷ [];
  ticks = e.ticks + 1;
}

abbrev pub fire_outcome : World → Text → Result RunError Started × Engine → Option Started × Engine
fire_outcome w key (ok s, e) = (some s, e)
fire_outcome w key (err x, e) = (none, record_skip w key x e)

-- cronFire, which does not wait: the run that its goroutine is to execute, if there is one.
unfoldable pub cron_fire : World → Text → Engine → Option Started × Engine
unfolding start_run record_skip
cron_fire w key e = fire_outcome w key (start_run w key cron e)

-- What a fire of the key `k` leaves.
pub data Fired (w : World) (k : Text) (e : Engine) : Option Started × Engine → Type 0 where
  -- A run of the key's workflow holds its slot, nothing is journaled yet, and the goroutine, with no
  -- other run between, executes it to its end.
  fires :
      (j : Text) (c : Config) (ar : ActiveRun) (e' : Engine)
      → resolve e.defs k ≡ some j
      → get j e.defs ≡ some c
      → get (key c) e.inflight ≡ none
      → e'.inflight ≡ put (key c) ar e.inflight
      → e'.journal ≡ e.journal
      → Ran cron c e (execute_started w (c, ar) e').0.run (execute_started w (c, ar) e').1
      → Fired w k e (some (c, ar), e')
  -- Run refused; a skip of that workflow with the reason is handed to the journal, and the slots stay.
  drops :
      (x : RunError) (e' : Engine)
      → start_run w k cron e ≡ (err x, e)
      → e'.inflight ≡ e.inflight
      → e'.journal ≡ e.journal ++ skipped_fire w k x e ∷ []
      → Fired w k e (none, e')

-- A scheduled fire returns with one of two outcomes. Either a run of the workflow that its key resolves
-- to has taken the free slot, with nothing journaled yet, and its goroutine, if no other run comes
-- between, hands the journal the records of the runs nested in it and, last, that of this workflow's
-- run by the cron trigger, with a terminal status and every slot as before the fire. Or Run refused:
-- the slots are as before, and one skip record of the key with Run's reason is handed to the journal.
pub cron_fire-Fired : (w : World) (k : Text) (e : Engine) → Fired w k e (cron_fire w k e)
unfolding cron_fire record_skip
cron_fire-Fired w k e = traced (start_run w k cron e) refl (start_run-Starts w k cron e)
  where
    traced :
        (t : Result RunError Started × Engine)
        → start_run w k cron e ≡ t
        → Starts w k cron e t
        → Fired w k e (fire_outcome w k t)
    traced t q (refused x) = drops x _ q refl refl
    traced t q (started now id j c p d g) =
        fires j c _ _ p d g refl refl (execute_started-Ran w cron e now id c g)
