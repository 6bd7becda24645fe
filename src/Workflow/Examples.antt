-- ===== src/Workflow/Examples.antt =====
-- Small definition sets, and what the package workflow does with them.
use pm.Workflow.Batch.{
  Fits, defs_of_batch, validate_all, validate_all_iff, declared_twice, check_one,
}
use pm.Workflow.Stage.{Stage, kind, parse_timeout, validate_stage}
use pm.Workflow.Validation.{IsValid, validate_iff}
use pm.Workflow.Config.{validate}
use pm.Workflow.Config.{
  Config, Defs, key, keys, default_category, colon, stages_at, parse_key, itoa,
}
use pm.Workflow.Graph.{name_at, target, has_key, ambiguous_ref, resolve_bare, resolve}
use pm.Workflow.Resolve.{only, resolve_bare-ambiguous_ref, resolve-key}
use pm.Workflow.Search.{Colours, done, cycle, check_acyclic}
use pm.Workflow.Search.Walks.{IsAcyclic, IsCycle}
use pm.Workflow.Search.Verdict.{check_acyclic_decides, check_acyclic-done_iff}
use pm.Prelude.{
  ◌≡◌, refl, ◌↔◌, ◌⊎◌, Option, none, some, List, [], ◌∷◌, ◌++◌, if◌then◌else◌, Text, codes, same,
  text_le, sort_texts, get, put, remove, ok, err, ℤ, pos,
}

abbrev pub script_stage : Text → Text → Stage
script_stage name script = record {
  name = name;
  script = script;
  args = [];
  task = [];
  workflow = [];
  env = [];
  cwd = [];
  timeout = [];
}

abbrev pub nested_stage : Text → Text → Stage
nested_stage name workflow = record {
  name = name;
  script = [];
  args = [];
  task = [];
  workflow = workflow;
  env = [];
  cwd = [];
  timeout = [];
}

abbrev pub config : Text → Text → List Stage → Config
config category name stages = record {
  category = category;
  name = name;
  stages = stages;
  cron = [];
  env = [];
  cwd = [];
  timeout = [];
  config_file = [];
  base_env = [];
}

abbrev pub ring : Defs
ring =
    (codes "ci:a", config (codes "ci") (codes "a") (nested_stage (codes "go") (codes "ci:b") ∷ []))
    ∷ (codes "ci:b", config (codes "ci") (codes "b") (nested_stage (codes "back") (codes "a") ∷ []))
    ∷ []

abbrev pub line_up : Defs
line_up =
    (codes "ci:a", config (codes "ci") (codes "a") (nested_stage (codes "go") (codes "b") ∷ []))
    ∷ (
      codes "ci:b",
      config (codes "ci") (codes "b") (script_stage (codes "run") (codes "make") ∷ []),
    )
    ∷ []

check_acyclic-ring : check_acyclic ring ≡ cycle (codes "ci:a" ∷ codes "ci:b" ∷ codes "ci:a" ∷ [])
unfolding target name_at check_acyclic keys sort_texts text_le stages_at resolve kind get same
check_acyclic-ring = refl

check_acyclic_decides_example :
    ((c : Colours) × (check_acyclic ring ≡ done c) × IsAcyclic ring)
    ⊎ ((p : List Text) × (check_acyclic ring ≡ cycle p) × IsCycle ring p)
check_acyclic_decides_example = check_acyclic_decides ring

check_acyclic-done_iff_example :
    ((c : Colours) × (check_acyclic line_up ≡ done c)) ↔ IsAcyclic line_up
check_acyclic-done_iff_example = check_acyclic-done_iff line_up

resolve_bare-ambiguous_ref_example : resolve_bare ring (codes "b") ≡ (
    if has_key (default_category ++ colon ∷ codes "b") ring
    then some (default_category ++ colon ∷ codes "b")
    else only (ambiguous_ref ring (codes "b")))
resolve_bare-ambiguous_ref_example = resolve_bare-ambiguous_ref ring (codes "b")

resolve-key_example : resolve line_up (codes "ci:b") ≡ some (codes "ci:b")
unfolding key parse_key get same
resolve-key_example =
    resolve-key line_up
      (config (codes "ci") (codes "b") (script_stage (codes "run") (codes "make") ∷ [])) refl refl
      refl

-- Two workflows named `x`, one of which refers to `x`: ambiguous, so no edge.
abbrev twins : Defs
twins =
    (codes "ci:x", config (codes "ci") (codes "x") (nested_stage (codes "again") (codes "x") ∷ []))
    ∷ (
      codes "cd:x",
      config (codes "cd") (codes "x") (script_stage (codes "run") (codes "make") ∷ []),
    )
    ∷ []

-- Deleting the other twin makes the reference unique, and the workflow its own target.
remove_closes_a_cycle :
    check_acyclic (remove (codes "cd:x") twins) ≡ cycle (codes "ci:x" ∷ codes "ci:x" ∷ [])
unfolding target name_at check_acyclic keys sort_texts text_le stages_at resolve kind get same
    remove
remove_closes_a_cycle = refl

twins-acyclic : (c : Colours) × (check_acyclic twins ≡ done c)
unfolding target name_at check_acyclic keys sort_texts text_le stages_at resolve kind get same
twins-acyclic = (_, refl)

itoa-210 : itoa 210 ≡ codes "210"
unfolding itoa
itoa-210 = refl

-- One duration parses: `1s`, to this many nanoseconds.
abbrev parse_second : Text → Option ℤ
parse_second t = if same t (codes "1s") then some (pos 1000000000) else none

abbrev lone : Config
lone = config (codes "ci") (codes "b") (script_stage (codes "run") (codes "make") ∷ [])

lone-validate : validate parse_second lone ≡ ok tt
unfolding validate validate_stage parse_timeout put get same
lone-validate = refl

validate_iff_example : (validate parse_second lone ≡ ok tt) ↔ IsValid parse_second lone
validate_iff_example = validate_iff parse_second lone

validate_all_iff_example :
    (validate_all parse_second (lone ∷ []) ≡ ok tt)
    ↔ (Fits parse_second [] (lone ∷ []) × IsAcyclic (defs_of_batch (lone ∷ []) []))
validate_all_iff_example = validate_all_iff parse_second (lone ∷ [])

-- The second workflow repeats the key of the first.
validate_all-twice :
    validate_all parse_second (lone ∷ lone ∷ []) ≡ err (declared_twice (codes "ci:b"))
unfolding validate_all validate validate_stage parse_timeout put get same key check_one
validate_all-twice = refl
