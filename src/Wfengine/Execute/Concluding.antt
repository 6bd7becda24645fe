-- ===== src/Wfengine/Execute/Concluding.antt =====
-- A run from its claim to its record: the loop over the stages, and what follows it.
use pm.Workflow.Stage.{Stage}
use pm.Workflow.Config.{Config, key}
use pm.Wfengine.State.{
  Status, skipped, cancelled, run_key, ActiveRun, WorkflowRecord, record_of, Engine, release,
  record_run,
}
use pm.Wfengine.Stages.{World, with_stage, store}
use pm.Wfengine.Execute.{
  is_success_status, is_unset_status, mark_remaining, tick, run_stage, Outcome, StageRunner,
  run_stages, conclude, execute,
}
use pm.Wfengine.Execute.Slots.{
  Holds, Settles, StageKeeps, store-Holds, with_stage-Holds, tick-Holds,
}
use pm.Wfengine.Execute.Nesting.{ChildSettles, run_stage-Keeps}
use pm.Prelude.{
  ℕ, zero, suc, ◌+◌, ◌≡◌, refl, ap, ◌∙◌, inl, inr, false, none, some, List, [], ◌∷◌, ◌++◌, arith,
  Bool-cases, Text, Dict, get, remove, remove-put, get-put_self,
}

module _ (base : Dict ActiveRun) (k : Text) (a : ActiveRun) (start : List WorkflowRecord)
    (w : World) (run : StageRunner)
    (keeps : (st : Stage) (ar : ActiveRun) (i : ℕ) (e : Engine)
      → Holds base k a start ar e
      → StageKeeps base k a start (run st ar i e)) where
  abbrev LoopKeeps : Outcome × Engine → Type 0
  LoopKeeps t = Holds base k a start t.0.ar t.1 × (is_unset_status t.0.status ≡ false)

  mark-Holds :
      (i : ℕ) (s : Status) (ar : ActiveRun) (e : Engine)
      → Holds base k a start ar e
      → Holds base k a start (mark_remaining i s ar) (store (mark_remaining i s ar) e)
  unfolding mark_remaining run_key
  mark-Holds i s ar e o =
      store-Holds base k a start ar (mark_remaining i s ar) e o o.keyed o.handled o.chained
        o.claimed

  run_stages-Keeps :
      (i : ℕ) (sts : List Stage) (ar : ActiveRun) (e : Engine)
      → Holds base k a start ar e
      → LoopKeeps (run_stages w run i sts ar e)
  unfolding run_stages
  run_stages-Keeps i [] ar e o = (o, refl)
  run_stages-Keeps i (st ∷ sts) ar e o =
      let o' = tick-Holds base k a start ar e o in
      let t = run st ar i (tick e) in
      let kept = keeps st ar i (tick e) o' in
      let stored = with_stage-Holds base k a start i t.0 t.1 t.1 t.2 kept.0 kept.0 in
      elim (Bool-cases (w.is_stopped e.ticks ar.run.id)) [
        | inl stopped ↦ rw stopped (mark-Holds i cancelled ar (tick e) o', refl)
        | inr goes ↦ elim (Bool-cases (is_success_status t.0.status)) [
          | inl well ↦
              rw (goes, well)
                (run_stages-Keeps (i + 1) sts (with_stage i t.0 t.1)
                  (store (with_stage i t.0 t.1) t.2) stored)
          | inr ill ↦
              rw (goes, ill)
                (
                  mark-Holds (i + 1) skipped (with_stage i t.0 t.1)
                      (store (with_stage i t.0 t.1) t.2) stored,
                  kept.1,
                )
        ]
      ]

module _ (base : Dict ActiveRun) (c : Config) (a : ActiveRun) (start : List WorkflowRecord)
    (w : World) (free : get (key c) base ≡ none) where
  -- Releasing the slot that the run holds leaves the other slots as they were.
  release-freed :
      (ar : ActiveRun) (e : Engine)
      → Holds base (key c) a start ar e
      → (release (key c) ar e).inflight ≡ base
  unfolding release
  release-freed ar e o =
      let found : get (key c) e.inflight ≡ some ar = rw o.slot (get-put_self (key c) ar base) in
      ground (arith, found, remove-put (key c) ar base free, ap (remove (key c)) o.slot)

  release-journal : (ar : ActiveRun) (e : Engine) → (release (key c) ar e).journal ≡ e.journal
  unfolding release
  release-journal ar e = ground arith

  release-handles : (ar : ActiveRun) (e : Engine) → (release (key c) ar e).handles ≡ e.handles
  unfolding release
  release-handles ar e = ground arith

  conclude-Settles :
      (t : Outcome × Engine)
      → Holds base (key c) a start t.0.ar t.1
      → is_unset_status t.0.status ≡ false
      → Settles base a start (conclude w c t).0 (conclude w c t).1
  unfolding conclude record_run run_key
  conclude-Settles t o d =
      let ar = (conclude w c t).0 in
      let o' =
        store-Holds base (key c) a start t.0.ar ar (tick t.1)
          (tick-Holds base (key c) a start t.0.ar t.1 o) o.keyed o.handled o.chained o.claimed in
      record {
        freed = release-freed ar (store ar (tick t.1)) o';
        before = o'.more;
        journaled =
            ap (λ l. l ++ record_of ar.run ∷ [])
              (release-journal ar (store ar (tick t.1)) ∙ o'.grown);
        below = o'.below;
        counted = release-handles ar (store ar (tick t.1)) ∙ o'.counted;
        claimed = o'.claimed;
        terminal = d;
      }

-- Every claimed run settles, however its stages end and whatever they nest.
pub execute-Settles : (w : World) (fuel : ℕ) → ChildSettles fuel (λ c ar e. execute fuel w c ar e)
unfolding execute
execute-Settles w zero c ar e base start free o d = absurd (omega arith)
execute-Settles w (suc fuel) c ar e base start free o d =
    let child = λ (c' : Config) (b : ActiveRun) (x : Engine). execute fuel w c' b x in
    let runner =
      λ (st : Stage) (a : ActiveRun) (i : ℕ) (x : Engine). run_stage w child c st a i x in
    let looped =
      run_stages-Keeps base (key c) ar start w runner
        (λ st a i x.
          run_stage-Keeps base (key c) ar start w fuel child (execute-Settles w fuel) d c st a i x)
        0 c.stages ar e o in
    conclude-Settles base c ar start w free (run_stages w runner 0 c.stages ar e) looped.0 looped.1
