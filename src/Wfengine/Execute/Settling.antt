-- ===== src/Wfengine/Execute/Settling.antt =====
-- Run: a reference is refused, or its workflow runs to the end.
use pm.Workflow.Config.{Config, key}
use pm.Workflow.Graph.{resolve, max_nesting_depth}
use pm.Wfengine.State.{
  too_many_runs, run_in_progress, unknown_workflow, Trigger, Run, ActiveRun, WorkflowRecord,
  record_of, Engine, RunError, max_concurrent_runs, new_active_run, claim, claim_at,
}
use pm.Wfengine.Stages.{World}
use pm.Wfengine.Execute.{
  is_unset_status, Started, with_config, start_found, start_resolved, start_run, execute_started,
  await_started, run,
}
use pm.Wfengine.Execute.Slots.{Origin, NestedBelow}
use pm.Wfengine.Execute.Concluding.{execute-Settles}
use pm.Wfengine.Execute.Nesting.{IsFuelled, claimed-Holds}
use pm.Prelude.{
  ℕ, suc, ◌+◌, ◌<◌, ◌≡◌, refl, ap, inl, inr, false, Option, none, some, List, [], ◌∷◌, ◌++◌, arith,
  leb, Bool-cases, length, All, Text, get, put, Result, ok, err,
}

-- A run of the workflow `c` by the trigger `t`, from the engine `e` to its end: the slots are as before;
-- the journal has grown by the records of the runs nested in it, one for each run that was claimed
-- meanwhile, and, last, by this run's; and the run is one of `c`, at the root, with a terminal status.
pub record Ran (t : Trigger) (c : Config) (e : Engine) (final : Run) (e' : Engine) : Type 0 where
  pub freed : e'.inflight ≡ e.inflight
  pub before : List WorkflowRecord
  pub journaled : e'.journal ≡ e.journal ++ before ++ record_of final ∷ []
  pub below : All (NestedBelow 0) before
  pub counted : e'.handles ≡ suc e.handles + length before
  pub of_category : final.category ≡ c.category
  pub of_name : final.name ≡ c.name
  pub triggered : final.trigger ≡ t
  pub at_root : final.depth ≡ 0
  pub terminal : is_unset_status final.status ≡ false

root_IsFuelled :
    (now : ℕ) (id : Text) (handle : ℕ) (c : Config) (t : Trigger)
    → IsFuelled max_nesting_depth (new_active_run now id handle c t none).chain
unfolding new_active_run
root_IsFuelled now id handle c t = omega arith

-- The engine in which a run of `c` has just been claimed.
abbrev pub claimed_by : Config → ActiveRun → Engine → Engine
claimed_by c ar e = record e {
  inflight = put (key c) ar e.inflight;
  handles = e.handles + 1;
  ticks = e.ticks + 1;
}

-- A run that was claimed at the root and is executed.
pub execute_started-Ran :
    (w : World) (t : Trigger) (e : Engine) (now : ℕ) (id : Text) (c : Config)
    → get (key c) e.inflight ≡ none
    → let root = new_active_run now id e.handles c t none in
      let r = execute_started w (c, root) (claimed_by c root e) in Ran t c e r.0.run r.1
unfolding execute_started new_active_run
execute_started-Ran w t e now id c g =
    let root = new_active_run now id e.handles c t none in
    let s =
      execute-Settles w max_nesting_depth c root (claimed_by c root e) e.inflight e.journal g
        (claimed-Holds now id c t none e) (root_IsFuelled now id e.handles c t) in
    record {
      freed = s.freed;
      before = s.before;
      journaled = s.journaled;
      below = s.below;
      counted = s.counted;
      of_category = ap (λ (x : Origin). x.category) s.claimed;
      of_name = ap (λ (x : Origin). x.name) s.claimed;
      triggered = ap (λ (x : Origin). x.trigger) s.claimed;
      at_root = ap (λ (x : Origin). x.depth) s.claimed;
      terminal = s.terminal;
    }

-- What Run leaves before its goroutine executes.
pub data Starts (w : World) (r : Text) (t : Trigger) (e : Engine)
    : Result RunError Started × Engine → Type 0 where
  -- Refused: nothing changed.
  refused : (x : RunError) → Starts w r t e (err x, e)
  -- The workflow that the reference resolves to had a free slot, and a fresh run of it holds it.
  started :
      (now : ℕ) (id k : Text) (c : Config)
      → resolve e.defs r ≡ some k
      → get k e.defs ≡ some c
      → get (key c) e.inflight ≡ none
      → Starts w r t e (
        ok (c, new_active_run now id e.handles c t none),
        claimed_by c (new_active_run now id e.handles c t none) e,
      )

module _ (w : World) (r : Text) (t : Trigger) (e : Engine) where
  claim_at-Starts :
      (now : ℕ) (id k : Text) (c : Config) (slot : Option ActiveRun)
      → resolve e.defs r ≡ some k
      → get k e.defs ≡ some c
      → get (key c) e.inflight ≡ slot
      → let p = claim_at now id c t none e slot in Starts w r t e (with_config c p.0, p.1)
  unfolding claim_at
  claim_at-Starts now id k c (some busy) p q g = refused (run_in_progress (key c) busy.run.id)
  claim_at-Starts now id k c none p q g =
      elim (Bool-cases (leb max_concurrent_runs (length e.inflight))) [
        | inl full ↦ rw full (refused (too_many_runs (length e.inflight)))
        | inr room ↦ rw room (started now id k c p q g)
      ]

  start_found-Starts :
      (k : Text) (d : Option Config)
      → resolve e.defs r ≡ some k
      → get k e.defs ≡ d
      → Starts w r t e (start_found w t r d e)
  unfolding start_found claim
  start_found-Starts k none p q = refused (unknown_workflow r)
  start_found-Starts k (some c) p q =
      let time = w.now e.ticks in
      claim_at-Starts time (w.run_id e.ticks time) k c (get (key c) e.inflight) p q refl

  start_resolved-Starts :
      (k : Option Text) → resolve e.defs r ≡ k → Starts w r t e (start_resolved w t r k e)
  unfolding start_resolved
  start_resolved-Starts none p = refused _
  start_resolved-Starts (some k) p = start_found-Starts k (get k e.defs) p refl

  pub start_run-Starts : Starts w r t e (start_run w r t e)
  unfolding start_run
  start_run-Starts = start_resolved-Starts (resolve e.defs r) refl

-- What a waiting caller of Run sees.
pub data RunsOnce (r : Text) (t : Trigger) (e : Engine)
    : Result RunError Run × Engine → Type 0 where
  -- Refused: nothing changed.
  refused : (x : RunError) → RunsOnce r t e (err x, e)
  -- Ended: the workflow that the reference resolves to was run to its end.
  ended :
      (k : Text) (c : Config) (final : Run) (e' : Engine)
      → resolve e.defs r ≡ some k
      → get k e.defs ≡ some c
      → Ran t c e final e'
      → RunsOnce r t e (ok final, e')

-- Run, with a caller who waits and no other run between, either refuses and changes nothing, or the run
-- ends. Then it is a run of the workflow that the reference resolves to, with that trigger and a
-- terminal status; every slot of the engine is as it was before, its own and those of the runs nested
-- in it freed; and the records handed to the journal are those of nested runs, as many as were claimed
-- meanwhile and each by the nested trigger at a depth of at least one, and then, last and once, this
-- run's. Eight rounds of fuel, the nesting limit, are enough for every definition set.
pub run-RunsOnce : (w : World) (r : Text) (t : Trigger) (e : Engine) → RunsOnce r t e (run w r t e)
unfolding run await_started
run-RunsOnce w r t e = awaited (start_run-Starts w r t e)
  where
    awaited :
        {x : Result RunError Started × Engine}
        → Starts w r t e x
        → RunsOnce r t e (await_started w x)
    awaited (refused x) = refused x
    awaited (started now id k c p q g) = ended k c _ _ p q (execute_started-Ran w t e now id c g)

-- A reference that resolves to a workflow whose slot is free, while fewer than 32 runs are in
-- flight, is not refused: the workflow is run to its end, as Ran says.
pub run_starts :
    (w : World) (r k : Text) (t : Trigger) (c : Config) (e : Engine)
    → resolve e.defs r ≡ some k
    → get k e.defs ≡ some c
    → get (key c) e.inflight ≡ none
    → length e.inflight < max_concurrent_runs
    → (final : Run) × ((run w r t e).0 ≡ ok final) × Ran t c e final (run w r t e).1
unfolding run start_run start_resolved start_found claim claim_at await_started
run_starts w r k t c e p q g h =
    let time = w.now e.ticks in
    let id = w.run_id e.ticks time in
    let root = new_active_run time id e.handles c t none in
    (
      (execute_started w (c, root) (claimed_by c root e)).0.run,
      rw (p, q, g, room) refl,
      rw (p, q, g, room) (execute_started-Ran w t e time id c g),
    )
  where
    room : leb max_concurrent_runs (length e.inflight) ≡ false
    room = ground (arith, h)
