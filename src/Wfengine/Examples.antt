-- ===== src/Wfengine/Examples.antt =====
-- A small world, and runs and registrations in it.
use pm.Workflow.Config.{validate, Config, Defs, Paths, key, keys}
use pm.Workflow.Graph.{resolve}
use pm.Workflow.Examples.{script_stage, nested_stage, config, ring, line_up}
use pm.Workflow.Search.Walks.{IsAcyclic}
use pm.Workflow.Search.Verdict.{check_acyclic-done_iff}
use pm.Workflow.Validation.{IsValid, validate_iff}
use pm.Workflow.Stage.{kind, parse_timeout, validate_stage}
use pm.Workflow.Search.{check_acyclic}
use pm.Workflow.Graph.{target}
use pm.Workflow.Config.{validate, normalize, normalize_stages, normalize_stage, stages_at}
use pm.Wfengine.Exit.{is_success, exit_info_from_wait, clean, exited}
use pm.Wfengine.State.{
  Status, success, failed, skipped, Run, StageRun, Engine, manual, cron, new_active_run,
}
use pm.Wfengine.Stages.{fill_exit, set_at, World, started, waited}
use pm.Wfengine.Execute.{conclude, run_stages, run_stage, mark_remaining, execute, run}
use pm.Wfengine.Execute.Settling.{Ran, RunsOnce, run-RunsOnce, run_starts}
use pm.Wfengine.Execute.Outcomes.{Explains, execute-Explains}
use pm.Wfengine.Registry.{
  Saving, saves, fails_after, persist, load, read_dump, Registry, Warning, register, delete_key,
  merge, configs_at, keys_of,
}
use pm.Wfengine.Registry.Arming.{
  ArmedWithin, Registers, register-Registers, delete_key-removes, delete_key-ArmedWithin,
  register-ArmedWithin,
}
use pm.Wfengine.Registry.Accepting.{register_accepts}
use pm.Wfengine.Registry.Dump.{load-persist}
use pm.Prelude.{
  ◌+◌, ◌≡◌, refl, sym, ap, ◌∙◌, true, false, none, some, List, [], ◌∷◌, ◌++◌, arith, if◌then◌else◌,
  length, Text, codes, same, same_eq, same_iff, text_le, sort_texts, get, put, ok, err, pos,
}

-- A save that succeeds, of a file that says how many workflows it holds.
abbrev sound_save : Saving
sound_save = record { marshal = λ cs. some (length cs ∷ []); outcome = saves }

-- A disk that is full after the first byte.
abbrev full_disk : Saving
full_disk = record sound_save { outcome = fails_after 1 }

-- Every command succeeds, but for the script `false`.
abbrev pub world : World
world = record {
  now = λ tick. tick + 1;
  run_id = λ tick time. codes "r" ++ time ∷ [];
  is_stopped = λ tick id. false;
  spawn = λ tick se. started 7 (
      waited (
        if same se.script (codes "false")
        then exit_info_from_wait (exited (pos 1) (codes "exit status 1"))
        else exit_info_from_wait clean));
  lookup_task = λ name. err (codes "unknown task");
  parse_duration = λ t. none;
  lowered = λ t. t;
  show_duration = λ d. codes "1s";
  quote = λ t. t;
}

abbrev pub engine : Defs → Engine
engine defs = record { defs = defs; inflight = []; journal = []; ticks = 0; handles = 0 }

abbrev registry : Defs → Registry
registry defs = record { engine = engine defs; armed = []; dump = none }

-- The second of three stages fails.
abbrev fragile : Config
fragile = config (codes "ci") (codes "f") (
    script_stage (codes "one") (codes "make")
    ∷ script_stage (codes "two") (codes "false")
    ∷ script_stage (codes "three") (codes "make")
    ∷ [])

abbrev statuses : List StageRun → List Status
statuses [] = []
statuses (s ∷ ss) = s.status ∷ statuses ss

abbrev fragile_run : Run
fragile_run =
    (execute 8 world fragile (new_active_run 0 (codes "r") 0 fragile manual none) (engine [])).0.run

fragile-statuses : statuses fragile_run.stages ≡ success ∷ failed ∷ skipped ∷ []
unfolding execute new_active_run same conclude run_stages run_stage kind fill_exit is_success
    exit_info_from_wait mark_remaining set_at
fragile-statuses = refl

run-RunsOnce_example :
    RunsOnce
      (codes "ci:a")
      manual
      (engine line_up)
      (run world (codes "ci:a") manual (engine line_up))
run-RunsOnce_example = run-RunsOnce world (codes "ci:a") manual (engine line_up)

run_starts_example :
    let e = engine line_up in
    let c = config (codes "ci") (codes "a") (nested_stage (codes "go") (codes "b") ∷ []) in
    (final : Run) × ((run world (codes "ci:a") cron e).0 ≡ ok final)
    × Ran cron c e final (run world (codes "ci:a") cron e).1
unfolding resolve get key same
run_starts_example =
    run_starts world (codes "ci:a") (codes "ci:a") cron
      (config (codes "ci") (codes "a") (nested_stage (codes "go") (codes "b") ∷ []))
      (engine line_up) refl refl refl (omega arith)

execute-Explains_example :
    let final =
      (execute 8 world fragile
        (new_active_run 0 (codes "r") 0 fragile manual none)
        (engine [])).0.run in
    Explains final.status final.stages
unfolding new_active_run
execute-Explains_example =
    execute-Explains world 7 fragile (new_active_run 0 (codes "r") 0 fragile manual none)
      (engine []) refl

nothing_armed : (defs : Defs) → ArmedWithin (registry defs)
unfolding get
nothing_armed defs j h = refl

register-Registers_example :
    Registers
      (λ c. true)
      (fragile ∷ [])
      (registry ring)
      (register (λ t. none) (λ c. true) sound_save (fragile ∷ []) (registry ring))
register-Registers_example =
    register-Registers (λ t. none) (λ c. true) sound_save (fragile ∷ []) (registry ring)
      (nothing_armed ring)

register-ArmedWithin_example :
    ArmedWithin (register (λ t. none) (λ c. true) sound_save (fragile ∷ []) (registry line_up)).1
register-ArmedWithin_example =
    register-ArmedWithin (λ t. none) (λ c. true) sound_save (fragile ∷ []) (registry line_up)
      (nothing_armed line_up)

fragile-IsValid : IsValid (λ t. none) fragile
unfolding get validate parse_timeout validate_stage put same
fragile-IsValid = (validate_iff (λ t. none) fragile).0 refl

fragile-IsAcyclic : IsAcyclic (merge (fragile ∷ []) [])
unfolding check_acyclic stages_at target kind merge key put get same keys sort_texts text_le
fragile-IsAcyclic = (check_acyclic-done_iff (merge (fragile ∷ []) [])).0 (_, refl)

register_accepts_example :
    (warnings : List Warning) × ((register
        (λ t. none)
        (λ c. true)
        sound_save
        (fragile ∷ [])
        (registry [])).0
      ≡ ok (sort_texts (keys_of (fragile ∷ [])), warnings))
register_accepts_example =
    register_accepts (λ t. none) (λ c. true) sound_save (fragile ∷ []) (registry []) _
      (fragile-IsValid, tt) fragile-IsAcyclic refl refl

delete_key-removes_example :
    let after = (delete_key sound_save (codes "a") (some (codes "ci:a")) (registry ring)).1 in
    (get (codes "ci:b") after.engine.defs
      ≡ (if same (codes "ci:b") (codes "ci:a") then none else get (codes "ci:b") ring))
    × (get (codes "ci:b") after.armed
        ≡ (if same (codes "ci:b") (codes "ci:a") then none else get (codes "ci:b") []))
delete_key-removes_example =
    delete_key-removes sound_save (codes "a") (codes "ci:a") (codes "ci:b") (registry ring)

delete_key-ArmedWithin_example :
    ArmedWithin (delete_key full_disk (codes "a") (some (codes "ci:a")) (registry ring)).1
delete_key-ArmedWithin_example =
    delete_key-ArmedWithin full_disk (codes "a") (some (codes "ci:a")) (registry ring)
      (nothing_armed ring)

-- A file system on which every path is absolute.
abbrev paths : Paths
paths = record {
  is_abs = λ t. true;
  base = λ t. t;
  path_join = λ a b. a ++ b;
  exists = λ t. true;
  look_path = λ t. some t;
  abs = λ t. some t;
}

abbrev saved : Config
saved = normalize paths [] fragile

abbrev saved_defs : Defs
saved_defs = (codes "ci:f", saved) ∷ []

saved-key : key saved ≡ codes "ci:f"
unfolding key normalize
saved-key = refl

saved-normal : normalize paths [] saved ≡ saved
unfolding normalize normalize_stages kind normalize_stage
saved-normal = refl

saved-only : (k : Text) (c : Config) → get k saved_defs ≡ some c → (codes "ci:f" ≡ k) × (saved ≡ c)
unfolding get
saved-only k c h = ground (arith, same_eq (codes "ci:f") k, same_iff k (codes "ci:f"))

load-persist_example :
    let dump = (persist sound_save saved_defs (registry [])).1.dump in
    let unmarshal = λ (t : Text). some (configs_at saved_defs (keys saved_defs)) in
    get
      (codes "ci:f")
      (load paths (λ c. true) (read_dump true unmarshal dump) (registry [])).1.engine.defs
    ≡ get (codes "ci:f") saved_defs
load-persist_example =
    load-persist paths (λ c. true) sound_save (λ t. some (configs_at saved_defs (keys saved_defs)))
      saved_defs (registry []) (registry []) _
      (λ k c h. let (p, q) = saved-only k c h in ap key (sym q) ∙ (saved-key ∙ p))
      (λ k c h.
        let (p, q) = saved-only k c h in ap (normalize paths []) (sym q) ∙ (saved-normal ∙ q))
      refl refl refl refl (codes "ci:f")
