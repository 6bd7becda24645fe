-- ===== src/Workflow/Graph.antt =====
-- workflow/graph.go: resolving a reference, and the check for cycles among the workflow stages.
use pm.Workflow.Stage.{StageKind, stage_workflow, Stage, kind}
use pm.Workflow.Config.{Defs, keys, parse_key, default_category, colon, stages_at}
use pm.Prelude.{
  ℕ, ◌+◌, Bool, true, false, Option, none, some, List, [], ◌∷◌, ◌++◌, ◌==◌, if◌then◌else◌, Text,
  same, is_empty, get,
}

abbrev pub max_nesting_depth : ℕ
max_nesting_depth = 8

abbrev pub has_key : Text → Defs → Bool
has_key k defs = elim (get k defs) [ none ↦ false | some c ↦ true ]

-- defs[k].Name; a missing key reads as the zero Config.
unfoldable pub name_at : Defs → Text → Text
name_at defs k = elim (get k defs) [ none ↦ [] | some c ↦ c.name ]

-- AmbiguousRef: every key that a bare reference could mean.
unfoldable pub named : Defs → Text → List Text → List Text
named defs r [] = []
named defs r (k ∷ ks) = if same (name_at defs k) r then k ∷ named defs r ks else named defs r ks

unfoldable pub ambiguous_ref : Defs → Text → List Text
unfolding named
ambiguous_ref defs r = named defs r (keys defs)

-- The loop at the end of resolve: the last match, and how many there were.
unfoldable pub count_matches : Defs → Text → List Text → Text × ℕ → Text × ℕ
count_matches defs r [] found = found
count_matches defs r (k ∷ ks) found =
    count_matches defs r ks (if same (name_at defs k) r then (k, found.1 + 1) else found)

unfoldable pub resolve_bare : Defs → Text → Option Text
unfolding count_matches
resolve_bare defs r =
    let plain = default_category ++ colon ∷ r in
    if has_key plain defs
    then some plain
    else (let found = count_matches defs r (keys defs) ([], 0) in
        if found.1 == 1 then some found.0 else none)

unfoldable pub resolve : Defs → Text → Option Text
unfolding resolve_bare parse_key
resolve defs r =
    let (category, name) = parse_key r in
    if is_empty category
    then resolve_bare defs r
    else (let full = category ++ colon ∷ name in if has_key full defs then some full else none)

abbrev is_workflow : StageKind → Bool
is_workflow stage_workflow = true
is_workflow _ = false

-- What a stage adds to the graph: its resolved target. Any other stage, and a reference that
-- resolves to nothing, is passed over.
unfoldable pub target : Defs → Stage → Option Text
target defs s = if is_workflow (kind s) then resolve defs s.workflow else none

pub record Ref : Type 0 where
  pub workflow : Text
  pub stage : ℕ
  pub target : Text

unfoldable pub dangling_stages : Defs → Text → ℕ → List Stage → List Ref
dangling_stages defs k i [] = []
dangling_stages defs k i (s ∷ ss) =
    let rest = dangling_stages defs k (i + 1) ss in
    if is_workflow (kind s)
    then elim (resolve defs s.workflow) [
      | some t ↦ rest
      | none ↦ record { workflow = k; stage = i + 1; target = s.workflow } ∷ rest
    ]
    else rest

-- DanglingRefs.
unfoldable pub dangling_in : Defs → List Text → List Ref
unfolding dangling_stages
dangling_in defs [] = []
dangling_in defs (k ∷ ks) = dangling_stages defs k 0 (stages_at defs k) ++ dangling_in defs ks

unfoldable pub dangling_refs : Defs → List Ref
unfolding dangling_in
dangling_refs defs = dangling_in defs (keys defs)
