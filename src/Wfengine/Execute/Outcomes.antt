-- ===== src/Wfengine/Execute/Outcomes.antt =====
-- The statuses that the loop of execute leaves on a run and on its stages.
use mathlib.Core.List.{append_assoc}
use pm.Workflow.Stage.{StageKind, stage_script, stage_task, stage_workflow, no_kind, Stage, kind}
use pm.Workflow.Config.{Config}
use pm.Wfengine.State.{
  fresh_stages, Status, unset, success, skipped, cancelled, StageRun, ActiveRun, Engine,
}
use pm.Wfengine.Stages.{
  Spawn, no_directory, no_log, no_start, started, StageExec, TaskCommand, finish_spawn, exec_stage,
  World, set_at, with_stage, store,
}
use pm.Wfengine.Execute.{
  task_exec, script_exec, RunChild, run_task, dispatch, opened_stage, run_stage, execute, conclude,
  is_success_status, mark_from, mark_remaining, tick, Outcome, StageRunner, run_stages,
}
use pm.Prelude.{
  ℕ, zero, suc, ◌+◌, ◌≡◌, refl, sym, ap, ◌∙◌, subst, ◌⊎◌, inl, inr, true, false, List, [], ◌∷◌,
  ◌++◌, arith, Bool-cases, length, length-append, All, Text, Result, ok, err,
}

abbrev pub AllStatus : Status → List StageRun → Type 0
AllStatus s = All (λ (r : StageRun). r.status ≡ s)

-- The status of a run against those of its stages, in order.
pub data Explains : Status → List StageRun → Type 0 where
  -- Every stage was gone through.
  finished : Explains success []
  passed :
      {s : Status} {r : StageRun} {rs : List StageRun}
      → r.status ≡ success
      → Explains s rs
      → Explains s (r ∷ rs)
  -- This stage stopped the run, and none after it was started.
  stopped_here :
      {s : Status} {r : StageRun} {rs : List StageRun}
      → r.status ≡ s
      → is_success_status s ≡ false
      → AllStatus skipped rs
      → Explains s (r ∷ rs)
  -- The run was cancelled before this stage.
  cut :
      {r : StageRun} {rs : List StageRun}
      → AllStatus cancelled (r ∷ rs)
      → Explains cancelled (r ∷ rs)

set_at-append :
    (pre : List StageRun) (r x : StageRun) (rest : List StageRun)
    → set_at (length pre) r (pre ++ x ∷ rest) ≡ pre ++ r ∷ rest
unfolding set_at
set_at-append [] r x rest = refl
set_at-append (p ∷ pre) r x rest = ap (λ l. p ∷ l) (set_at-append pre r x rest)

mark_from-append :
    (pre : List StageRun) (s : Status) (rest : List StageRun)
    → mark_from (length pre) s (pre ++ rest) ≡ pre ++ mark_from 0 s rest
unfolding mark_from
mark_from-append [] s rest = refl
mark_from-append (p ∷ pre) s rest = ap (λ l. p ∷ l) (mark_from-append pre s rest)

mark_from-AllStatus :
    (s : Status) (rest : List StageRun) → AllStatus unset rest → AllStatus s (mark_from 0 s rest)
unfolding mark_from
mark_from-AllStatus s [] h = tt
mark_from-AllStatus s (r ∷ rest) h = (rw h.0 refl, mark_from-AllStatus s rest h.1)

marked :
    (pre rest : List StageRun) {i : ℕ} {l : List StageRun} (s : Status)
    → l ≡ pre ++ rest
    → length pre ≡ i
    → mark_from i s l ≡ pre ++ mark_from 0 s rest
marked pre rest {i} {l} s p n =
    ap (mark_from i s) p
    ∙ (ap (λ m. mark_from m s (pre ++ rest)) (sym n) ∙ mark_from-append pre s rest)

succeeded : (s : Status) → is_success_status s ≡ true → s ≡ success
succeeded s h = ground arith

-- The contract of a stage: of the run's stages it touches its own alone.
abbrev pub TouchesOwn : StageRunner → Type 0
TouchesOwn run =
    (st : Stage) (ar : ActiveRun) (i : ℕ) (e : Engine)
    → (x : StageRun) × ((run st ar i e).1.run.stages ≡ set_at i x ar.run.stages)

-- What the loop makes of the stages after the first `pre`.
pub record Ends (pre : List StageRun) (o : Outcome) : Type 0 where
  pub tail : List StageRun
  pub stages : o.ar.run.stages ≡ pre ++ tail
  pub explained : Explains o.status tail

module _ (w : World) (run : StageRunner) (touches : TouchesOwn run) where
  run_stages-Ends :
      (pre rest : List StageRun) (i : ℕ) (sts : List Stage) (ar : ActiveRun) (e : Engine)
      → ar.run.stages ≡ pre ++ rest
      → length pre ≡ i
      → length rest ≡ length sts
      → AllStatus unset rest
      → Ends pre (run_stages w run i sts ar e).0
  unfolding run_stages with_stage mark_remaining
  run_stages-Ends pre [] i [] ar e p n l u = record { tail = []; stages = p; explained = finished }
  run_stages-Ends pre (x ∷ rest) i [] ar e p n l u = absurd (omega (arith, l))
  run_stages-Ends pre [] i (st ∷ sts) ar e p n l u = absurd (omega (arith, l))
  run_stages-Ends pre (x ∷ rest) i (st ∷ sts) ar e p n l u =
      let t = run st ar i (tick e) in
      let (y, q) = touches st ar i (tick e) in
      let ar' = with_stage i t.0 t.1 in
      let now : ar'.run.stages ≡ pre ++ t.0 ∷ rest =
        ap (set_at i t.0) (q ∙ ap (set_at i y) p)
        ∙ (ap (λ m. set_at m t.0 (set_at m y (pre ++ x ∷ rest))) (sym n)
            ∙ (ap (set_at (length pre) t.0) (set_at-append pre y x rest)
                ∙ set_at-append pre t.0 y rest)) in
      let longer : length (pre ++ t.0 ∷ []) ≡ i + 1 =
        omega (arith, length-append pre (t.0 ∷ []), n) in
      let regrouped : ar'.run.stages ≡ (pre ++ t.0 ∷ []) ++ rest =
        now ∙ sym (append_assoc pre (t.0 ∷ []) rest) in
      elim (Bool-cases (w.is_stopped e.ticks ar.run.id)) [
        | inl stop ↦ rw stop (record {
          tail = mark_from 0 cancelled (x ∷ rest);
          stages = marked pre (x ∷ rest) cancelled p n;
          explained = cut (mark_from-AllStatus cancelled (x ∷ rest) u);
        })
        | inr goes ↦ elim (Bool-cases (is_success_status t.0.status)) [
          | inl well ↦
              let ih =
                run_stages-Ends (pre ++ t.0 ∷ []) rest (i + 1) sts ar' (store ar' t.2) regrouped
                  longer (omega (arith, l)) u.1 in
              rw (goes, well)
                (record {
                  tail = t.0 ∷ ih.tail;
                  stages = ih.stages ∙ append_assoc pre (t.0 ∷ []) ih.tail;
                  explained = passed (succeeded t.0.status well) ih.explained;
                })
          | inr ill ↦
              rw (goes, ill)
                (record {
                  tail = t.0 ∷ mark_from 0 skipped rest;
                  stages =
                      marked (pre ++ t.0 ∷ []) rest skipped regrouped longer
                      ∙ append_assoc pre (t.0 ∷ []) (mark_from 0 skipped rest);
                  explained = stopped_here refl ill (mark_from-AllStatus skipped rest u.1);
                })
        ]
      ]

set_at_twice :
    (i : ℕ) (r x : StageRun) (ss : List StageRun) → set_at i r (set_at i x ss) ≡ set_at i r ss
unfolding set_at
set_at_twice i r x [] = refl
set_at_twice zero r x (s ∷ ss) = refl
set_at_twice (suc i) r x (s ∷ ss) = ap (λ l. s ∷ l) (set_at_twice i r x ss)

-- A stage's own entry was written, or nothing was.
abbrev Touched : ℕ → ActiveRun → ActiveRun → Type 0
Touched i ar ar' =
    (ar'.run.stages ≡ ar.run.stages)
    ⊎ ((x : StageRun) × (ar'.run.stages ≡ set_at i x ar.run.stages))

finish_spawn-Touched :
    (w : World) (se : StageExec) (ar : ActiveRun) (i : ℕ) (r : StageRun) (s : Spawn) (e : Engine)
    → Touched i ar (finish_spawn w se ar i r s e).1
unfolding finish_spawn with_stage
finish_spawn-Touched w se ar i r (no_directory m) e = inl refl
finish_spawn-Touched w se ar i r (no_log m) e = inl refl
finish_spawn-Touched w se ar i r (no_start m) e = inl refl
finish_spawn-Touched w se ar i r (started pid x) e = inr (record r { pid = pid }, refl)

exec_stage-Touched :
    (w : World) (se : StageExec) (c : Config) (ar : ActiveRun) (i : ℕ) (r : StageRun) (e : Engine)
    → Touched i ar (exec_stage w se c ar i r e).1
unfolding exec_stage
exec_stage-Touched w se c ar i r e = finish_spawn-Touched w se ar i _ (w.spawn e.ticks se) (tick e)

run_task-Touched :
    (w : World) (c : Config) (st : Stage) (ar : ActiveRun) (i : ℕ) (r : StageRun)
    (t : Result Text TaskCommand) (e : Engine)
    → Touched i ar (run_task w c st ar i r t e).1
unfolding run_task
run_task-Touched w c st ar i r (ok t) e = exec_stage-Touched w (task_exec w c st t) c ar i r e
run_task-Touched w c st ar i r (err m) e = inl refl

dispatch-Touched :
    (w : World) (run_child : RunChild) (k : StageKind) (c : Config) (st : Stage) (ar : ActiveRun)
    (i : ℕ) (r : StageRun) (e : Engine)
    → Touched i ar (dispatch w run_child k c st ar i r e).1
unfolding dispatch
dispatch-Touched w run_child stage_workflow c st ar i r e = inl refl
dispatch-Touched w run_child stage_task c st ar i r e =
    run_task-Touched w c st ar i r (w.lookup_task st.task) e
dispatch-Touched w run_child stage_script c st ar i r e =
    exec_stage-Touched w (script_exec w c st) c ar i r e
dispatch-Touched w run_child no_kind c st ar i r e =
    exec_stage-Touched w (script_exec w c st) c ar i r e

Touched-once :
    (i : ℕ) (opened : StageRun) (ar ar' : ActiveRun)
    → Touched i (with_stage i opened ar) ar'
    → (x : StageRun) × (ar'.run.stages ≡ set_at i x ar.run.stages)
unfolding with_stage
Touched-once i opened ar ar' (inl same_stages) = (opened, same_stages)
Touched-once i opened ar ar' (inr (x, p)) = (x, p ∙ set_at_twice i x opened ar.run.stages)

run_stage-TouchesOwn :
    (w : World) (run_child : RunChild) (c : Config)
    → TouchesOwn (λ st ar i e. run_stage w run_child c st ar i e)
unfolding run_stage
run_stage-TouchesOwn w run_child c st ar i e =
    let opened = opened_stage i st (w.now e.ticks) in
    let published = with_stage i opened ar in
    let t = dispatch w run_child (kind st) c st published i opened (store published (tick e)) in
    Touched-once i opened ar t.1
      (dispatch-Touched w run_child (kind st) c st published i opened (store published (tick e)))

fresh_stages-unset :
    (i : ℕ) (sts : List Stage)
    → AllStatus unset (fresh_stages i sts) × (length (fresh_stages i sts) ≡ length sts)
unfolding fresh_stages
fresh_stages-unset i [] = (tt, refl)
fresh_stages-unset i (s ∷ sts) =
    let (u, l) = fresh_stages-unset (i + 1) sts in ((refl, u), ap suc l)

-- A run whose stages are those that its claim set up ends with a status that its stages explain.
-- Success means that every declared stage ran and succeeded. Otherwise the stages before some point
-- succeeded, and there either a stage failed or was cancelled, gave the run its status and has only
-- skipped stages after it, or the run was cancelled with every stage from there on.
pub execute-Explains :
    (w : World) (fuel : ℕ) (c : Config) (ar : ActiveRun) (e : Engine)
    → ar.run.stages ≡ fresh_stages 0 c.stages
    → let final = (execute (suc fuel) w c ar e).0.run in Explains final.status final.stages
unfolding execute conclude
execute-Explains w fuel c ar e p =
    let (u, l) = fresh_stages-unset 0 c.stages in
    let ends =
      run_stages-Ends w (λ st a i x. run_stage w (λ d b y. execute fuel w d b y) c st a i x)
        (run_stage-TouchesOwn w (λ d b y. execute fuel w d b y) c) [] (fresh_stages 0 c.stages) 0
        c.stages ar e p refl l u in
    subst (Explains _) (sym ends.stages) ends.explained
