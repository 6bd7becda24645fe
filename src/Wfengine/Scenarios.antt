-- ===== src/Wfengine/Scenarios.antt =====
-- A scheduled fire and the list after a run.
use pm.Workflow.Examples.{config, nested_stage, script_stage, line_up}
use pm.Wfengine.Registry.Dump.{IsKeyed}
use pm.Wfengine.State.{cron, success, WorkflowRecord}
use pm.Wfengine.Examples.{engine, world}
use pm.Wfengine.Firing.{cron_fire, Fired, cron_fire-Fired}
use pm.Wfengine.Listing.{History, list_workflows, known_statuses, list_workflows-known}
use pm.Workflow.Config.{Config, key, keys}
use pm.Runhistory.Query.{lines, all_matching}
use pm.Prelude.{
  ◌≡◌, refl, sym, ap, ◌∙◌, ◌⊎◌, inl, inr, none, some, [], ◌∷◌, arith, Text, codes, same_eq,
  same_iff, get,
}

cron_fire-Fired_example :
    Fired world (codes "ci:a") (engine line_up) (cron_fire world (codes "ci:a") (engine line_up))
cron_fire-Fired_example = cron_fire-Fired world (codes "ci:a") (engine line_up)

abbrev last_run : WorkflowRecord
last_run = record {
  run_id = codes "r1";
  workflow = codes "ci:a";
  category = codes "ci";
  name = codes "a";
  trigger = cron;
  parent_run_id = [];
  depth = 0;
  started_at = 1;
  finished_at = 2;
  duration = 1;
  status = success;
  stages = [];
  error = [];
}

-- The newest line of the day is torn.
abbrev history : History
history = lines (some last_run ∷ none ∷ []) ∷ []

abbrev first : Config
first = config (codes "ci") (codes "a") (nested_stage (codes "go") (codes "b") ∷ [])

abbrev second : Config
second = config (codes "ci") (codes "b") (script_stage (codes "run") (codes "make") ∷ [])

line_up-entries :
    (k : Text) (c : Config)
    → get k line_up ≡ some c
    → ((codes "ci:a" ≡ k) × (first ≡ c)) ⊎ ((codes "ci:b" ≡ k) × (second ≡ c))
unfolding get
line_up-entries k c h = ground (
  arith,
  same_eq (codes "ci:a") k,
  same_iff k (codes "ci:a"),
  same_eq (codes "ci:b") k,
  same_iff k (codes "ci:b"),
)

line_up-IsKeyed : IsKeyed line_up
unfolding key
line_up-IsKeyed k c h = elim (line_up-entries k c h) [
  | inl (p, q) ↦ ap key (sym q) ∙ p
  | inr (p, q) ↦ ap key (sym q) ∙ p
]

list_workflows-known_example :
    let e = engine line_up in
    list_workflows e history ≡ known_statuses e history e.defs (keys e.defs)
unfolding all_matching
list_workflows-known_example =
    list_workflows-known (engine line_up) history (refl, tt) (refl, tt) line_up-IsKeyed
