-- ===== src/Workflow/Batch.antt =====
-- workflow/config.go: ValidateAll, the check of a whole batch of workflows.
use pm.Workflow.Config.{Config, Defs, key, ValidateError, validate}
use pm.Workflow.Search.{Visit, done, cycle, out_of_fuel, check_acyclic}
use pm.Workflow.Search.Walks.{IsAcyclic}
use pm.Workflow.Search.Verdict.{check_acyclic-done_iff}
use pm.Workflow.Validation.{IsValid, validate_iff}
use pm.Workflow.Stage.{DurationParser}
use pm.Prelude.{
  ◌≡◌, refl, ap, ◌∙◌, subst, ◌↔◌, inl, inr, none, some, List, [], ◌∷◌, arith, Text, get, put,
  Result, ok, err, ◌>>◌, Result-cases,
}

pub data BatchError : Type 0 where
  invalid_workflow : ValidateError → BatchError
  declared_twice : Text → BatchError
  cyclic_batch : List Text → BatchError

unfoldable pub check_one : DurationParser → Defs → Config → Result BatchError (Unit {0})
check_one parse defs c = elim (validate parse c) [
  | err e ↦ err (invalid_workflow e)
  | ok u ↦ elim (get (key c) defs) [ none ↦ ok tt | some before ↦ err (declared_twice (key c)) ]
]

-- The loop over the batch.
unfoldable pub check_batch : DurationParser → Defs → List Config → Result BatchError Defs
unfolding check_one
check_batch parse defs [] = ok defs
check_batch parse defs (c ∷ cs) =
    check_one parse defs c >> check_batch parse (put (key c) c defs) cs

unfoldable pub batch_verdict : Visit → Result BatchError (Unit {0})
batch_verdict (done c) = ok tt
batch_verdict (cycle p) = err (cyclic_batch p)
batch_verdict out_of_fuel = err (cyclic_batch [])

unfoldable pub batch_result : Result BatchError Defs → Result BatchError (Unit {0})
unfolding batch_verdict
batch_result (err e) = err e
batch_result (ok defs) = batch_verdict (check_acyclic defs)

-- ValidateAll.
unfoldable pub validate_all : DurationParser → List Config → Result BatchError (Unit {0})
unfolding batch_result check_batch
validate_all parse cs = batch_result (check_batch parse [] cs)

-- The definitions of a batch, on top of some that are there.
abbrev pub defs_of_batch : List Config → Defs → Defs
defs_of_batch [] defs = defs
defs_of_batch (c ∷ cs) defs = defs_of_batch cs (put (key c) c defs)

-- Every workflow of the batch is valid, and its key is new when its turn comes.
abbrev pub Fits : DurationParser → Defs → List Config → Type 0
Fits parse defs [] = Unit
Fits parse defs (c ∷ cs) =
    (IsValid parse c × (get (key c) defs ≡ none)) × Fits parse (put (key c) c defs) cs

check_one-Fits :
    (parse : DurationParser) (defs : Defs) (c : Config)
    → (check_one parse defs c ≡ ok tt) ↔ (IsValid parse c × (get (key c) defs ≡ none))
unfolding check_one
check_one-Fits parse defs c =
    let (sound, complete) = validate_iff parse c in
    (
      λ h. (sound (ground (arith, h)), ground (arith, h)),
      λ p. let valid = complete p.0 in let new = p.1 in ground (arith, valid, new),
    )

module _ (parse : DurationParser) where
  check_batch-Fits :
      (defs : Defs) (cs : List Config) (out : Defs)
      → check_batch parse defs cs ≡ ok out
      → Fits parse defs cs × (out ≡ defs_of_batch cs defs)
  unfolding check_batch
  check_batch-Fits defs [] out h = (tt, ground (arith, h))
  check_batch-Fits defs (c ∷ cs) out h = elim (Result-cases (check_one parse defs c)) [
    | inr (x, e) ↦ absurd (ground (arith, h, e))
    | inl (u, e) ↦
        let (f, p) = check_batch-Fits (put (key c) c defs) cs out (ground (arith, h, e)) in
        (((check_one-Fits parse defs c).0 e, f), p)
  ]

  Fits-check_batch :
      (defs : Defs) (cs : List Config)
      → Fits parse defs cs
      → check_batch parse defs cs ≡ ok (defs_of_batch cs defs)
  unfolding check_batch
  Fits-check_batch defs [] f = refl
  Fits-check_batch defs (c ∷ cs) f =
      rw ((check_one-Fits parse defs c).1 f.0) (Fits-check_batch (put (key c) c defs) cs f.1)

  verdict-accepts :
      (defs : Defs) (v : Visit)
      → check_acyclic defs ≡ v
      → (batch_verdict v ≡ ok tt) ↔ IsAcyclic defs
  unfolding batch_verdict
  verdict-accepts defs (done c) e = ((λ h. (check_acyclic-done_iff defs).0 (c, e)), (λ a. refl))
  verdict-accepts defs (cycle p) e =
      ((λ h. cc), (λ a. let (c, f) = (check_acyclic-done_iff defs).1 a in cc))
  verdict-accepts defs out_of_fuel e =
      ((λ h. cc), (λ a. let (c, f) = (check_acyclic-done_iff defs).1 a in cc))

  -- ValidateAll accepts exactly the batches whose workflows are valid, have keys of their own, and
  -- refer to one another without a cycle.
  pub validate_all_iff :
      (cs : List Config)
      → (validate_all parse cs ≡ ok tt) ↔ (Fits parse [] cs × IsAcyclic (defs_of_batch cs []))
  unfolding validate_all batch_result
  validate_all_iff cs = (accepted (check_batch parse [] cs) refl, complete)
    where
      accepted :
          (r : Result BatchError Defs)
          → check_batch parse [] cs ≡ r
          → batch_result r ≡ ok tt
          → Fits parse [] cs × IsAcyclic (defs_of_batch cs [])
      accepted (err x) e h = absurd (ground (arith, h))
      accepted (ok defs) e h =
          let (f, p) = check_batch-Fits [] cs defs e in
          (f, subst IsAcyclic p ((verdict-accepts defs (check_acyclic defs) refl).0 h))

      complete : Fits parse [] cs × IsAcyclic (defs_of_batch cs []) → validate_all parse cs ≡ ok tt
      complete (f, a) =
          ap batch_result (Fits-check_batch [] cs f)
          ∙ (verdict-accepts (defs_of_batch cs []) (check_acyclic (defs_of_batch cs [])) refl).1 a
