-- ===== src/Wfengine/Execute/Nesting.antt =====
-- A nested workflow: its run takes a slot of its own and gives it back before its parent goes on.
use mathlib.Core.List.{append_assoc, append-nil}
use pm.Workflow.Stage.{StageKind, stage_script, stage_task, stage_workflow, no_kind, Stage, kind}
use pm.Workflow.Config.{Config, key, keys}
use pm.Workflow.Graph.{resolve, max_nesting_depth}
use pm.Workflow.Resolve.{resolve-contains}
use pm.Wfengine.State.{
  Trigger, nested, StageRun, run_key, ActiveRun, WorkflowRecord, record_of, Engine,
  max_concurrent_runs, new_active_run, claim, claim_at,
}
use pm.Wfengine.Stages.{World, TaskCommand, with_stage, store}
use pm.Wfengine.Execute.{
  task_exec, script_exec, is_unset_status, RunChild, run_claimed, enter_child, follow_reference,
  run_nested, run_task, dispatch, opened_stage, tick, run_stage,
}
use pm.Wfengine.Execute.Slots.{
  Holds, Settles, NestedBelow, Origin, StageKeeps, with_stage-Holds, tick-Holds, exec_stage-Keeps,
}
use pm.Prelude.{
  ℕ, suc, ◌+◌, ◌≤◌, ◌<◌, ◌≡◌, refl, sym, ap, ◌∙◌, inl, inr, true, false, Option, none, some, List,
  [], ◌∷◌, ◌++◌, arith, leb, Bool-cases, length, length-append, All-append, All-mono, Text,
  contains, contains-sort_texts, Dict, dict_keys, get, put, get_of_contains, Result, ok, err,
}

-- The ancestry and the fuel of a run: the fuel lasts until the depth guard refuses.
abbrev pub IsFuelled : ℕ → List Text → Type 0
IsFuelled fuel chain =
    (length chain ≤ max_nesting_depth) × (max_nesting_depth < fuel + length chain)

-- The contract of a function that executes a claimed run.
abbrev pub ChildSettles : ℕ → RunChild → Type 0
ChildSettles fuel run_child =
    (c : Config) (ar : ActiveRun) (e : Engine) (base : Dict ActiveRun) (start : List WorkflowRecord)
    → get (key c) base ≡ none
    → Holds base (key c) ar start ar e
    → IsFuelled fuel ar.chain
    → Settles base ar start (run_child c ar e).0 (run_child c ar e).1

-- A claim that succeeds found the slot free, and takes it.
pub claimed-Holds :
    (now : ℕ) (id : Text) (c : Config) (t : Trigger) (parent : Option ActiveRun) (e : Engine)
    → let ar = new_active_run now id e.handles c t parent in
      Holds e.inflight (key c) ar e.journal ar (record e {
        inflight = put (key c) ar e.inflight;
        handles = e.handles + 1;
        ticks = e.ticks + 1;
      })
unfolding new_active_run run_key key
claimed-Holds now id c t parent e = record {
  keyed = refl;
  handled = refl;
  chained = refl;
  claimed = refl;
  slot = refl;
  more = [];
  grown = sym (append-nil e.journal);
  below = tt;
  counted = omega arith;
}

module _ (base : Dict ActiveRun) (k : Text) (a : ActiveRun) (start : List WorkflowRecord)
    (w : World) (fuel : ℕ) (run_child : RunChild) (settles : ChildSettles fuel run_child)
    (deep : IsFuelled (suc fuel) a.chain) where
  abbrev Kept : ActiveRun → StageRun × Engine → Type 0
  Kept ar p = Holds base k a start ar p.1 × (is_unset_status p.0.status ≡ false)

  resumed :
      (now : ℕ) (id : Text) (c : Config) (ar ended : ActiveRun) (e e' : Engine)
      → Holds base k a start ar e
      → Settles e.inflight (new_active_run now id e.handles c nested (some ar)) e.journal ended e'
      → Holds base k a start ar e'
  unfolding new_active_run record_of
  resumed now id c ar ended e e' o s =
      let depth : ar.run.depth ≡ a.run.depth = ap (λ (x : Origin). x.depth) o.claimed in
      let deeper : ended.run.depth ≡ ar.run.depth + 1 = ap (λ (x : Origin). x.depth) s.claimed in
      record {
        keyed = o.keyed;
        handled = o.handled;
        chained = o.chained;
        claimed = o.claimed;
        slot = s.freed ∙ o.slot;
        more = o.more ++ s.before ++ record_of ended.run ∷ [];
        grown =
            s.journaled
            ∙ (ap (λ l. l ++ s.before ++ record_of ended.run ∷ []) o.grown ∙ simp append_assoc);
        below =
            All-append (NestedBelow a.run.depth) (o.more ++ s.before) (record_of ended.run ∷ [])
              (All-append (NestedBelow a.run.depth) o.more s.before o.below (
                All-mono (NestedBelow (ar.run.depth + 1)) (NestedBelow a.run.depth)
                  (λ r n. (n.0, omega (arith, n.1, depth))) s.before s.below))
              ((ap (λ (x : Origin). x.trigger) s.claimed, omega (arith, deeper, depth)), tt);
        counted = omega (
          arith,
          o.counted,
          s.counted,
          length-append (o.more ++ s.before) (record_of ended.run ∷ []),
          length-append o.more s.before,
        );
      }

  child_IsFuelled :
      (now : ℕ) (id : Text) (handle : ℕ) (c : Config) (ar : ActiveRun)
      → ar.chain ≡ a.chain
      → length ar.chain < max_nesting_depth
      → IsFuelled fuel (new_active_run now id handle c nested (some ar)).chain
  unfolding new_active_run
  child_IsFuelled now id handle c ar p d =
      omega (arith, length-append ar.chain (key c ∷ []), deep, ap length p)

  nested_claim-Kept :
      (now : ℕ) (id : Text) (c : Config) (r : StageRun) (ar : ActiveRun) (e : Engine)
      (slot : Option ActiveRun)
      → get (key c) e.inflight ≡ slot
      → Holds base k a start ar e
      → length ar.chain < max_nesting_depth
      → let t = claim_at now id c nested (some ar) e slot in
        Kept ar (run_claimed w run_child c r t.0 t.1)
  unfolding claim_at run_claimed
  nested_claim-Kept now id c r ar e (some busy) g o d = (o, refl)
  nested_claim-Kept now id c r ar e none g o d =
      elim (Bool-cases (leb max_concurrent_runs (length e.inflight))) [
        | inl full ↦ rw full (o, refl)
        | inr room ↦
            let child = new_active_run now id e.handles c nested (some ar) in
            let s =
              settles c child
                (record e {
                  inflight = put (key c) child e.inflight;
                  handles = e.handles + 1;
                  ticks = e.ticks + 1;
                })
                e.inflight e.journal g (claimed-Holds now id c nested (some ar) e)
                (child_IsFuelled now id e.handles c ar o.chained d) in
            rw room (resumed now id c ar _ e _ o s, s.terminal)
      ]

  enter_child-Kept :
      (r : StageRun) (ar : ActiveRun) (e : Engine) (j : Text) (c : Config)
      → Holds base k a start ar e
      → Kept ar (enter_child w run_child ar r j (some c) e)
  unfolding enter_child claim
  enter_child-Kept r ar e j c o = elim (Bool-cases (contains j ar.chain)) [
    | inl seen ↦ rw seen (o, refl)
    | inr new ↦ elim (Bool-cases (leb max_nesting_depth (length ar.chain))) [
      | inl deepest ↦ rw (new, deepest) (o, refl)
      | inr above ↦
          let time = w.now e.ticks in
          rw (new, above)
            (nested_claim-Kept time (w.run_id e.ticks time) c r ar e (get (key c) e.inflight) refl o
              (ground arith))
    ]
  ]

  -- resolve gives keys of the set, so a resolved target has a definition.
  with_definition :
      (r : StageRun) (ar : ActiveRun) (e : Engine) (j : Text) (d : Option Config)
      → get j e.defs ≡ d
      → contains j (keys e.defs) ≡ true
      → Holds base k a start ar e
      → Kept ar (enter_child w run_child ar r j d e)
  unfolding keys
  with_definition r ar e j none g m o =
      let (c, found) =
        get_of_contains j e.defs (sym (contains-sort_texts j (dict_keys e.defs)) ∙ m) in
      cc
  with_definition r ar e j (some c) g m o = enter_child-Kept r ar e j c o

  follow_reference-Kept :
      (st : Stage) (r : StageRun) (ar : ActiveRun) (e : Engine) (t : Option Text)
      → resolve e.defs st.workflow ≡ t
      → Holds base k a start ar e
      → Kept ar (follow_reference w run_child st ar r t e)
  unfolding follow_reference
  follow_reference-Kept st r ar e none p o = (o, refl)
  follow_reference-Kept st r ar e (some j) p o =
      with_definition r ar e j (get j e.defs) refl (resolve-contains e.defs st.workflow j p) o

  run_task-Keeps :
      (c : Config) (st : Stage) (ar : ActiveRun) (i : ℕ) (r : StageRun)
      (t : Result Text TaskCommand) (e : Engine)
      → Holds base k a start ar e
      → StageKeeps base k a start (run_task w c st ar i r t e)
  unfolding run_task
  run_task-Keeps c st ar i r (ok t) e o =
      exec_stage-Keeps base k a start w (task_exec w c st t) c ar i r e o
  run_task-Keeps c st ar i r (err m) e o = (o, refl)

  dispatch-Keeps :
      (j : StageKind) (c : Config) (st : Stage) (ar : ActiveRun) (i : ℕ) (r : StageRun) (e : Engine)
      → Holds base k a start ar e
      → StageKeeps base k a start (dispatch w run_child j c st ar i r e)
  unfolding dispatch run_nested
  dispatch-Keeps stage_workflow c st ar i r e o =
      follow_reference-Kept st r ar e (resolve e.defs st.workflow) refl o
  dispatch-Keeps stage_task c st ar i r e o = run_task-Keeps c st ar i r (w.lookup_task st.task) e o
  dispatch-Keeps stage_script c st ar i r e o =
      exec_stage-Keeps base k a start w (script_exec w c st) c ar i r e o
  dispatch-Keeps no_kind c st ar i r e o =
      exec_stage-Keeps base k a start w (script_exec w c st) c ar i r e o

  -- A stage, whatever its kind and however it ends, keeps its run's slot and has a status.
  pub run_stage-Keeps :
      (c : Config) (st : Stage) (ar : ActiveRun) (i : ℕ) (e : Engine)
      → Holds base k a start ar e
      → StageKeeps base k a start (run_stage w run_child c st ar i e)
  unfolding run_stage
  run_stage-Keeps c st ar i e o =
      let opened = opened_stage i st (w.now e.ticks) in
      let published = with_stage i opened ar in
      let o' =
        with_stage-Holds base k a start i opened ar ar (tick e) (tick-Holds base k a start ar e o)
          (tick-Holds base k a start ar e o) in
      let t = dispatch-Keeps (kind st) c st published i opened (store published (tick e)) o' in
      (tick-Holds base k a start _ _ t.0, t.1)
