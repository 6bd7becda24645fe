-- ===== src/Workflow/Search.antt =====
-- workflow/graph.go: CheckAcyclic, a depth-first search in three colours, and renderCycle.
pub mod Walks
pub mod Invariant
pub mod Paint
pub mod Verdict
use pm.Workflow.Stage.{Stage}
use pm.Workflow.Config.{Defs, keys, stages_at}
use pm.Workflow.Graph.{target}
use pm.Prelude.{
  ℕ, zero, suc, ◌+◌, Option, none, some, List, [], ◌∷◌, ◌++◌, if◌then◌else◌, length, drop, Text,
  same,
}

pub data Colour : Type 0 where
  white grey black : Colour

-- map[string]int: a missing key reads as 0, which is white.
abbrev pub Colours : Type 0
Colours = Text → Colour

unfoldable pub paint : Text → Colour → Colours → Colours
paint k v colours j = if same j k then v else colours j

pub data Visit : Type 0 where
  done : Colours → Visit
  -- The keys that the error names.
  cycle : List Text → Visit
  out_of_fuel : Visit

abbrev pub and_then : Visit → (Colours → Visit) → Visit
and_then (done c) f = f c
and_then (cycle p) f = cycle p
and_then out_of_fuel f = out_of_fuel

-- The index of the first key that is the repeated one, 0 if there is none.
unfoldable pub start_of : Text → ℕ → List Text → ℕ
start_of r i [] = 0
start_of r i (k ∷ ks) = let later = start_of r (i + 1) ks in if same k r then i else later

-- renderCycle, before strings.Join puts " -> " between the keys.
unfoldable pub render_cycle : List Text → Text → List Text
unfolding start_of
render_cycle stack r = drop (start_of r 0 stack) stack ++ r ∷ []

-- The switch on the colour of a stage's target.
unfoldable pub enter : (Text → Colours → Visit) → List Text → Text → Colours → Colour → Visit
enter visit stack child colours grey = cycle (render_cycle stack child)
enter visit stack child colours white = visit child colours
enter visit stack child colours black = done colours

unfoldable pub follow : (Text → Colours → Visit) → List Text → Colours → Option Text → Visit
follow visit stack colours none = done colours
follow visit stack colours (some child) = enter visit stack child colours (colours child)

unfoldable pub visit_stage : (Text → Colours → Visit) → Defs → List Text → Stage → Colours → Visit
unfolding follow
visit_stage visit defs stack s colours = follow visit stack colours (target defs s)

unfoldable pub visit_stages :
    (Text → Colours → Visit) → Defs → List Text → List Stage → Colours → Visit
visit_stages visit defs stack [] colours = done colours
visit_stages visit defs stack (s ∷ ss) colours =
    and_then (visit_stage visit defs stack s colours) (visit_stages visit defs stack ss)

-- The closure `visit`. Its deferred pop makes the stack an argument: what a call pushes is gone
-- when it returns.
unfoldable pub visit : ℕ → Defs → List Text → Text → Colours → Visit
visit zero defs stack k colours = out_of_fuel
visit (suc fuel) defs stack k colours =
    let pushed = stack ++ k ∷ [] in
    and_then
      (visit_stages (λ j c. visit fuel defs pushed j c) defs pushed (stages_at defs k)
        (paint k grey colours))
      (λ c. done (paint k black c))

unfoldable pub visit_root : ℕ → Defs → Text → Colours → Colour → Visit
visit_root fuel defs k colours white = visit fuel defs [] k colours
visit_root fuel defs k colours _ = done colours

unfoldable pub visit_roots : ℕ → Defs → List Text → Colours → Visit
visit_roots fuel defs [] colours = done colours
visit_roots fuel defs (k ∷ ks) colours =
    and_then (visit_root fuel defs k colours (colours k)) (visit_roots fuel defs ks)

-- Every nested visit paints a white key, so one round for each key is fuel enough.
unfoldable pub check_acyclic : Defs → Visit
unfolding visit_roots visit_root visit visit_stages visit_stage enter render_cycle paint
check_acyclic defs = visit_roots (length (keys defs)) defs (keys defs) (λ j. white)
