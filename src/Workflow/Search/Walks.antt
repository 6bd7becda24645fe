-- ===== src/Workflow/Search/Walks.antt =====
-- The graph of workflow references, apart from any search: edges, walks and cycles.
use pm.Workflow.Stage.{Stage}
use pm.Workflow.Config.{Defs, stages_at}
use pm.Workflow.Graph.{target}
use pm.Workflow.Search.{start_of, render_cycle}
use pm.Prelude.{
  ℕ, zero, suc, ◌+◌, ◌≡◌, ap, ◌∙◌, subst, inl, inr, true, false, some, List, [], ◌∷◌, ◌++◌, arith,
  Bool-cases, drop, Text, same, same_eq, same_iff, contains,
}

-- Some stage of the list has the target `c`.
pub data Calls (defs : Defs) (c : Text) : List Stage → Type 0 where
  here : {s : Stage} {ss : List Stage} → target defs s ≡ some c → Calls defs c (s ∷ ss)
  there : {s : Stage} {ss : List Stage} → Calls defs c ss → Calls defs c (s ∷ ss)

abbrev pub Edge : Defs → Text → Text → Type 0
Edge defs k c = Calls defs c (stages_at defs k)

-- One or more edges.
pub data Reaches (defs : Defs) : Text → Text → Type 0 where
  edge : {a b : Text} → Edge defs a b → Reaches defs a b
  step : {a b c : Text} → Edge defs a b → Reaches defs b c → Reaches defs a c

abbrev pub IsAcyclic : Defs → Type 0
IsAcyclic defs = (k : Text) → ¬ Reaches defs k k

-- The listed keys are a walk whose last key has an edge to `k`.
abbrev pub Leads : Defs → List Text → Text → Type 0
Leads defs [] k = Unit
Leads defs (a ∷ []) k = Edge defs a k
Leads defs (a ∷ b ∷ r) k = Edge defs a b × Leads defs (b ∷ r) k

-- A closed walk, as the error message prints it: it begins and ends with the same key.
pub record IsCycle (defs : Defs) (p : List Text) : Type 0 where
  pub start : Text
  pub rest : List Text
  pub closed : p ≡ start ∷ rest ++ start ∷ []
  pub walk : Leads defs (start ∷ rest) start

pub Leads-snoc :
    (defs : Defs) (stack : List Text) (k c : Text)
    → Leads defs stack k
    → Edge defs k c
    → Leads defs (stack ++ k ∷ []) c
Leads-snoc defs [] k c l e = e
Leads-snoc defs (a ∷ []) k c l e = (l, e)
Leads-snoc defs (a ∷ b ∷ r) k c l e = (l.0, Leads-snoc defs (b ∷ r) k c l.1 e)

Leads-Reaches :
    (defs : Defs) (a : Text) (r : List Text) (k : Text) → Leads defs (a ∷ r) k → Reaches defs a k
Leads-Reaches defs a [] k l = edge l
Leads-Reaches defs a (b ∷ r) k l = step l.0 (Leads-Reaches defs b r k l.1)

-- A cycle that the error names refutes acyclicity.
pub IsCycle-Reaches :
    (defs : Defs) (p : List Text) (c : IsCycle defs p) → Reaches defs c.start c.start
IsCycle-Reaches defs p c = Leads-Reaches defs c.start c.rest c.start c.walk

-- The index counts from `i`.
start_of-add :
    (r : Text) (i : ℕ) (ks : List Text)
    → contains r ks ≡ true
    → start_of r i ks ≡ i + start_of r 0 ks
unfolding start_of contains
start_of-add r i [] h = ground arith
start_of-add r i (k ∷ ks) h =
    ground (arith, same_iff k r, same_iff r k, start_of-add r (i + 1) ks, start_of-add r 1 ks)

start_of-skip :
    (r k : Text) (ks : List Text)
    → same k r ≡ false
    → contains r ks ≡ true
    → start_of r 0 (k ∷ ks) ≡ suc (start_of r 0 ks)
unfolding start_of
start_of-skip r k ks e h = ground (arith, start_of-add r 1 ks h)

-- The part of the stack from the repeated key on.
suffix_from :
    (r : Text) (ks : List Text)
    → contains r ks ≡ true
    → (rest : List Text) × (drop (start_of r 0 ks) ks ≡ r ∷ rest)
unfolding start_of contains
suffix_from r [] h = ground arith
suffix_from r (k ∷ ks) h = elim (Bool-cases (same k r)) [
  | inl e ↦ (ks, rw e (ap (λ j. j ∷ ks) (same_eq k r e)))
  | inr e ↦
      let inside : contains r ks ≡ true = ground (arith, same_iff k r, same_iff r k) in
      let (rest, p) = suffix_from r ks inside in
      (rest, ap (λ n. drop n (k ∷ ks)) (start_of-skip r k ks e inside) ∙ p)
]

Leads-drop :
    (defs : Defs) (n : ℕ) (ks : List Text) (c : Text) → Leads defs ks c → Leads defs (drop n ks) c
Leads-drop defs zero ks c l = l
Leads-drop defs (suc n) [] c l = tt
Leads-drop defs (suc n) (a ∷ []) c l = Leads-drop defs n [] c tt
Leads-drop defs (suc n) (a ∷ b ∷ r) c l = Leads-drop defs n (b ∷ r) c l.1

-- On a stack that leads back to one of its keys, renderCycle names a cycle.
pub render_cycle-IsCycle :
    (defs : Defs) (stack : List Text) (c : Text)
    → Leads defs stack c
    → contains c stack ≡ true
    → IsCycle defs (render_cycle stack c)
unfolding render_cycle
render_cycle-IsCycle defs stack c l h =
    let (rest, p) = suffix_from c stack h in
    record {
      start = c;
      rest = rest;
      closed = ap (λ ks. ks ++ c ∷ []) p;
      walk = subst (λ ks. Leads defs ks c) p (Leads-drop defs (start_of c 0 stack) stack c l);
    }
