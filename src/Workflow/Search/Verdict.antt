-- ===== src/Workflow/Search/Verdict.antt =====
-- The verdict of CheckAcyclic: it accepts exactly the sets with no cycle, names a real cycle
-- otherwise, and its fuel is enough.
use pm.Workflow.Config.{Defs, keys, stages_at}
use pm.Workflow.Search.{
  Colour, white, grey, black, Colours, paint, Visit, done, cycle, out_of_fuel, visit_stages, visit,
  visit_root, visit_roots, check_acyclic,
}
use pm.Workflow.Search.Walks.{
  Calls, Edge, Reaches, edge, step, IsAcyclic, IsCycle, Leads-snoc, IsCycle-Reaches,
}
use pm.Workflow.Search.Invariant.{
  Grows, Grows-refl, Grows-trans, Ranked, whites, whites-paint, Ensures, Ensures-and_then,
  Ensures-mono, Ready, Finished, Ready-Finished, Visits, visit_stages-Ensures,
}
use pm.Workflow.Search.Paint.{paint_self, Ranked-grey, Ranked-black, Grows-around, stacked_snoc}
use pm.Workflow.Resolve.{target-contains}
use pm.Prelude.{
  ℕ, zero, suc, ◌≤◌, ◌<◌, ◌≡◌, refl, sym, ◌∙◌, subst, ◌↔◌, ◌⊎◌, inl, inr, true, List, [], ◌∷◌, ◌++◌,
  arith, Bool-cases, Option-cases, length, Text, same, same_eq, same_refl, contains,
  contains-sort_texts, dict_keys, get, contains-dict_keys,
}

module _ (defs : Defs) where
  visit-Visits : (fuel : ℕ) (stack : List Text) → Visits defs fuel stack (visit fuel defs stack)
  unfolding visit
  visit-Visits zero stack k c r l m w =
      absurd (omega (arith, whites-paint (keys defs) k c m w, r.fuelled))
  visit-Visits (suc fuel) stack k c r l m w =
      let pushed = stack ++ k ∷ [] in
      let painted = paint k grey c in
      Ensures-and_then defs _ _
        (visit_stages (λ j d. visit fuel defs pushed j d) defs pushed (stages_at defs k) painted)
        (λ d. done (paint k black d))
        (visit_stages-Ensures defs fuel pushed (λ j d. visit fuel defs pushed j d)
          (visit-Visits fuel pushed) (target-contains defs) (stages_at defs k) painted
          (record {
            ranked = Ranked-grey defs k c w r.ranked;
            stacked = λ j h. stacked_snoc stack k c r.stacked j h;
            fuelled = omega (arith, whites-paint (keys defs) k c m w, r.fuelled);
          })
          (λ d e. Leads-snoc defs stack k d l e))
        (λ mid f. record {
          ranked =
              Ranked-black defs k mid (f.grows.greys k (paint_self k grey c)) f.ranked f.reached;
          grows = Grows-around k c mid w f.grows;
          reached = paint_self k black mid;
        })

-- What the loop over the keys establishes: every key of the list is black.
abbrev AllBlack : List Text → Colours → Type 0
AllBlack ks after = (k : Text) → contains k ks ≡ true → after k ≡ black

module _ (defs : Defs) (fuel : ℕ) where
  visit_root-Ensures :
      (k : Text) (c : Colours) (shade : Colour)
      → c k ≡ shade
      → Ready defs fuel [] c
      → contains k (keys defs) ≡ true
      → Ensures defs (Finished defs (λ after. after k ≡ black) c) (visit_root fuel defs k c shade)
  unfolding visit_root contains
  visit_root-Ensures k c white e r m = visit-Visits defs fuel [] k c r tt m e
  visit_root-Ensures k c grey e r m = ground (arith, r.stacked k e)
  visit_root-Ensures k c black e r m = record {
    ranked = r.ranked;
    grows = Grows-refl c;
    reached = e;
  }

  AllBlack-cons :
      (k : Text) (ks : List Text) (mid after : Colours)
      → mid k ≡ black
      → Grows mid after
      → AllBlack ks after
      → AllBlack (k ∷ ks) after
  unfolding contains
  AllBlack-cons k ks mid after b g all j h = elim (Bool-cases (same j k)) [
    | inl e ↦ g.blacks j (subst (λ x. mid x ≡ black) (sym (same_eq j k e)) b)
    | inr e ↦ all j (ground arith)
  ]

  visit_roots-Ensures :
      (ks : List Text) (c : Colours)
      → Ready defs fuel [] c
      → ((k : Text) → contains k ks ≡ true → contains k (keys defs) ≡ true)
      → Ensures defs (Finished defs (AllBlack ks) c) (visit_roots fuel defs ks c)
  unfolding visit_roots contains
  visit_roots-Ensures [] c r m = record {
    ranked = r.ranked;
    grows = Grows-refl c;
    reached = λ k h. ground arith;
  }
  visit_roots-Ensures (k ∷ ks) c r m =
      Ensures-and_then defs _ _ (visit_root fuel defs k c (c k)) (visit_roots fuel defs ks)
        (visit_root-Ensures k c (c k) refl r (m k (ground (arith, same_refl k))))
        (λ mid f.
          Ensures-mono defs _ _ (visit_roots fuel defs ks mid)
            (λ after g. record {
              ranked = g.ranked;
              grows = Grows-trans f.grows g.grows;
              reached = AllBlack-cons k ks mid after f.reached g.grows g.reached;
            })
            (visit_roots-Ensures ks mid (Ready-Finished defs fuel [] _ c mid r f)
              (λ j h. m j (ground arith))))

abbrev unvisited : Colours
unvisited j = white

whites-unvisited : (ks : List Text) → whites ks unvisited ≤ length ks
unfolding whites
whites-unvisited [] = omega arith
whites-unvisited (k ∷ ks) = omega (arith, whites-unvisited ks)

unvisited-Ready : (defs : Defs) → Ready defs (length (keys defs)) [] unvisited
unvisited-Ready defs = record {
  ranked = record {
    rank = λ j. 0;
    bound = 0;
    below = λ j h. cc;
    closed = λ j c e h. cc;
    falls = λ j c e h. cc;
  };
  stacked = λ j h. cc;
  fuelled = whites-unvisited (keys defs);
}

check_acyclic-Ensures :
    (defs : Defs)
    → Ensures defs (Finished defs (AllBlack (keys defs)) unvisited) (check_acyclic defs)
unfolding check_acyclic
check_acyclic-Ensures defs =
    visit_roots-Ensures defs (length (keys defs)) (keys defs) unvisited (unvisited-Ready defs)
      (λ k h. h)

no_stage : {defs : Defs} {c : Text} → ¬ Calls defs c []
no_stage q = elim q [ ]

-- Only a key of the set has stages.
Edge-contains : (defs : Defs) (a c : Text) → Edge defs a c → contains a (keys defs) ≡ true
unfolding keys stages_at
Edge-contains defs a c e = elim (Option-cases (get a defs)) [
  | inl n ↦ absurd (no_stage (rw (n, stages_at) at e))
  | inr (d, s) ↦ contains-sort_texts a (dict_keys defs) ∙ contains-dict_keys a defs d s
]

Reaches-falls :
    (defs : Defs) (colours : Colours) (r : Ranked defs colours) (a c : Text)
    → Reaches defs a c
    → colours a ≡ black
    → r.rank c < r.rank a
Reaches-falls defs colours r a c (edge e) b = r.falls a c e b
Reaches-falls defs colours r a c (step {b = m} e p) b =
    omega (arith, r.falls a m e b, Reaches-falls defs colours r m c p (r.closed a m e b))

first_edge : (defs : Defs) (a c : Text) → Reaches defs a c → contains a (keys defs) ≡ true
first_edge defs a c (edge e) = Edge-contains defs a c e
first_edge defs a c (step {b = m} e p) = Edge-contains defs a m e

Ranked-IsAcyclic :
    (defs : Defs) (colours : Colours)
    → Ranked defs colours
    → AllBlack (keys defs) colours
    → IsAcyclic defs
Ranked-IsAcyclic defs colours r all k p =
    omega (arith, Reaches-falls defs colours r k k p (all k (first_edge defs k k p)))

-- The three verdicts, at any outcome that the contract allows.
sound_verdict :
    (defs : Defs) (v : Visit)
    → Ensures defs (Finished defs (AllBlack (keys defs)) unvisited) v
    → ((c : Colours) × (v ≡ done c) × IsAcyclic defs)
      ⊎ ((p : List Text) × (v ≡ cycle p) × IsCycle defs p)
sound_verdict defs (done c) f = inl (c, refl, Ranked-IsAcyclic defs c f.ranked f.reached)
sound_verdict defs (cycle p) f = inr (p, refl, f)
sound_verdict defs out_of_fuel f = absurd f

-- CheckAcyclic ends on every definition set, whatever references it holds: it either accepts, and
-- then no workflow reaches itself through workflow stages, or it rejects, and then the keys that
-- its error prints are a closed walk along such stages. It never runs out of fuel.
pub check_acyclic_decides :
    (defs : Defs)
    → ((c : Colours) × (check_acyclic defs ≡ done c) × IsAcyclic defs)
      ⊎ ((p : List Text) × (check_acyclic defs ≡ cycle p) × IsCycle defs p)
check_acyclic_decides defs = sound_verdict defs (check_acyclic defs) (check_acyclic-Ensures defs)

-- A definition set is accepted exactly when it is acyclic: no acyclic set is rejected.
pub check_acyclic-done_iff :
    (defs : Defs) → ((c : Colours) × (check_acyclic defs ≡ done c)) ↔ IsAcyclic defs
check_acyclic-done_iff defs = (accepted, rejected)
  where
    accepted : (c : Colours) × (check_acyclic defs ≡ done c) → IsAcyclic defs
    accepted (c, e) = elim (check_acyclic_decides defs) [ inl (d, _, a) ↦ a | inr (p, f, _) ↦ cc ]

    rejected : IsAcyclic defs → (c : Colours) × (check_acyclic defs ≡ done c)
    rejected a = elim (check_acyclic_decides defs) [
      | inl (d, e, _) ↦ (d, e)
      | inr (p, _, c) ↦ absurd (a c.start (IsCycle-Reaches defs p c))
    ]
