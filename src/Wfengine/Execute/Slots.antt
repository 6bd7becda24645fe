-- ===== src/Wfengine/Execute/Slots.antt =====
-- The single-flight slot of a run while the run executes, and what is left when it ends.
use pm.Workflow.Config.{Config}
use pm.Wfengine.State.{
  Trigger, nested, StageRun, Run, run_key, ActiveRun, WorkflowRecord, record_of, Engine,
}
use pm.Wfengine.Stages.{
  StageExec, World, Spawn, no_directory, no_log, no_start, started, Ending, waited, deadline,
  stopped, fill_exit, end_stage, with_stage, store, finish_spawn, exec_stage,
}
use pm.Wfengine.Execute.{is_unset_status, tick}
use pm.Prelude.{
  ℕ, suc, ◌+◌, ◌<◌, ◌≡◌, refl, false, some, List, [], ◌∷◌, ◌++◌, arith, length, All, Text, Dict,
  get, put, put-put, get-put_self,
}

-- What a run is from its claim on.
pub record Origin : Type 0 where
  pub id : Text
  pub category : Text
  pub name : Text
  pub trigger : Trigger
  pub parent_run_id : Text
  pub depth : ℕ
  pub started_at : ℕ

abbrev pub origin : Run → Origin
origin r = record {
  id = r.id;
  category = r.category;
  name = r.name;
  trigger = r.trigger;
  parent_run_id = r.parent_run_id;
  depth = r.depth;
  started_at = r.started_at;
}

abbrev pub SameRun : Run → Run → Type 0
SameRun r a = origin r ≡ origin a

-- A record of a workflow that ran within one of that depth.
abbrev pub NestedBelow : ℕ → WorkflowRecord → Type 0
NestedBelow depth r = (r.trigger ≡ nested) × (depth < r.depth)

-- The run `ar` is the one that was claimed as `a`, with key `k`; it holds the slot of its key beside
-- the slots of `base`; and since `start` the journal has grown by records of deeper runs, one for each
-- run that was claimed since.
pub record Holds (base : Dict ActiveRun) (k : Text) (a : ActiveRun) (start : List WorkflowRecord)
    (ar : ActiveRun) (e : Engine) : Type 0 where
  pub keyed : run_key ar.run ≡ k
  pub handled : ar.handle ≡ a.handle
  pub chained : ar.chain ≡ a.chain
  pub claimed : SameRun ar.run a.run
  pub slot : e.inflight ≡ put k ar base
  pub more : List WorkflowRecord
  pub grown : e.journal ≡ start ++ more
  pub below : All (NestedBelow a.run.depth) more
  pub counted : e.handles ≡ suc a.handle + length more

-- The contract of a run that is executed to its end: the slots are those of `base`; the journal has
-- grown by a record for each deeper run that was claimed and, last, by the run's own; and it is the run
-- that was claimed, with a terminal status.
pub record Settles (base : Dict ActiveRun) (a : ActiveRun) (start : List WorkflowRecord)
    (ended : ActiveRun) (e : Engine) : Type 0 where
  pub freed : e.inflight ≡ base
  pub before : List WorkflowRecord
  pub journaled : e.journal ≡ start ++ before ++ record_of ended.run ∷ []
  pub below : All (NestedBelow a.run.depth) before
  pub counted : e.handles ≡ suc a.handle + length before
  pub claimed : SameRun ended.run a.run
  pub terminal : is_unset_status ended.run.status ≡ false

end_stage_terminal :
    (w : World) (se : StageExec) (r : StageRun) (x : Ending)
    → is_unset_status (end_stage w se r x).status ≡ false
unfolding end_stage fill_exit
end_stage_terminal w se r (waited x) = ground arith
end_stage_terminal w se r (deadline x) = ground arith
end_stage_terminal w se r (stopped x) = refl

module _ (base : Dict ActiveRun) (k : Text) (a : ActiveRun) (start : List WorkflowRecord) where
  abbrev pub Holding : ActiveRun → Engine → Type 0
  Holding = Holds base k a start

  -- Storing a new state of the same run keeps its slot.
  pub store-Holds :
      (old ar : ActiveRun) (e : Engine)
      → Holding old e
      → run_key ar.run ≡ k
      → ar.handle ≡ a.handle
      → ar.chain ≡ a.chain
      → SameRun ar.run a.run
      → Holding ar (store ar e)
  unfolding store
  store-Holds old ar e o p q c d =
      let found : get (run_key ar.run) e.inflight ≡ some old =
        rw (p, o.slot) (get-put_self k old base) in
      record {
        keyed = p;
        handled = q;
        chained = c;
        claimed = d;
        slot = ground (arith, found, p, q, o.slot, o.handled, put-put k old ar base);
        more = o.more;
        grown = ground (arith, found, o.grown);
        below = o.below;
        counted = ground (arith, found, o.counted);
      }

  pub with_stage-Holds :
      (i : ℕ) (r : StageRun) (old ar : ActiveRun) (e : Engine)
      → Holding old e
      → Holding ar e
      → Holding (with_stage i r ar) (store (with_stage i r ar) e)
  unfolding with_stage run_key
  with_stage-Holds i r old ar e o b =
      store-Holds old (with_stage i r ar) e o b.keyed b.handled b.chained b.claimed

  pub tick-Holds : (ar : ActiveRun) (e : Engine) → Holding ar e → Holding ar (tick e)
  tick-Holds ar e o = record {
    keyed = o.keyed;
    handled = o.handled;
    chained = o.chained;
    claimed = o.claimed;
    slot = o.slot;
    more = o.more;
    grown = o.grown;
    below = o.below;
    counted = o.counted;
  }

  -- The contract of one stage.
  abbrev pub StageKeeps : StageRun × ActiveRun × Engine → Type 0
  StageKeeps t = Holding t.1 t.2 × (is_unset_status t.0.status ≡ false)

  finish_spawn-Keeps :
      (w : World) (se : StageExec) (ar : ActiveRun) (i : ℕ) (r : StageRun) (s : Spawn) (e : Engine)
      → Holding ar e
      → StageKeeps (finish_spawn w se ar i r s e)
  unfolding finish_spawn
  finish_spawn-Keeps w se ar i r (no_directory m) e o = (o, refl)
  finish_spawn-Keeps w se ar i r (no_log m) e o = (o, refl)
  finish_spawn-Keeps w se ar i r (no_start m) e o = (o, refl)
  finish_spawn-Keeps w se ar i r (started pid x) e o =
      let live = record r { pid = pid } in
      (with_stage-Holds i live ar ar e o o, end_stage_terminal w se live x)

  pub exec_stage-Keeps :
      (w : World) (se : StageExec) (c : Config) (ar : ActiveRun) (i : ℕ) (r : StageRun) (e : Engine)
      → Holding ar e
      → StageKeeps (exec_stage w se c ar i r e)
  unfolding exec_stage
  exec_stage-Keeps w se c ar i r e o =
      finish_spawn-Keeps w se ar i _ (w.spawn e.ticks se) (tick e) (tick-Holds ar e o)
