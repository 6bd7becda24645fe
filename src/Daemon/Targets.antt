-- ===== src/Daemon/Targets.antt =====
-- What a target finds among the managed processes.
use pm.Daemon.State.{ManagedProcess, Processes}
use pm.Daemon.Registry.{
  processes_list, filter_processes, first_process, has_id, has_name, has_namespace, all_target,
  by_namespace, by_name, by_id, find_by_target,
}
use pm.Prelude.{
  ℕ, ◌≡◌, refl, ◌↔◌, inl, inr, Bool, false, Option, none, some, List, [], ◌∷◌, arith, Bool-cases,
  All, Text, same, get,
}

abbrev pub Fails : (ManagedProcess → Bool) → Processes → Type 0
Fails test ps = All (λ (mp : ManagedProcess). test mp ≡ false) (processes_list ps)

filter_processes-Fails :
    (test : ManagedProcess → Bool) (ps : Processes)
    → (filter_processes test ps ≡ []) ↔ Fails test ps
unfolding filter_processes processes_list
filter_processes-Fails test [] = ((λ h. tt), (λ h. refl))
filter_processes-Fails test ((k, mp) ∷ ps) =
    let (there, back) = filter_processes-Fails test ps in
    elim (Bool-cases (test mp)) [
      | inl e ↦ ((λ h. absurd (ground (arith, h, e))), (λ h. absurd (ground (arith, h.0, e))))
      | inr e ↦ ((λ h. (e, there (ground (arith, h, e)))), (λ h. rw e (back h.1)))
    ]

first_process-Fails :
    (test : ManagedProcess → Bool) (ps : Processes) → (first_process test ps ≡ none) ↔ Fails test ps
unfolding first_process processes_list
first_process-Fails test [] = ((λ h. tt), (λ h. refl))
first_process-Fails test ((k, mp) ∷ ps) =
    let (there, back) = first_process-Fails test ps in
    elim (Bool-cases (test mp)) [
      | inl e ↦ ((λ h. absurd (ground (arith, h, e))), (λ h. absurd (ground (arith, h.0, e))))
      | inr e ↦ ((λ h. (e, there (ground (arith, h, e)))), (λ h. rw e (back h.1)))
    ]

-- No process has the target for its key, its ID, its name or its namespace.
pub record Unmatched (scan_int : Text → Option ℕ) (target : Text) (ps : Processes) : Type 0 where
  pub no_key : get target ps ≡ none
  pub no_id : Fails (has_id (scan_int target)) ps
  pub no_name : Fails (has_name target) ps
  pub no_namespace : Fails (has_namespace target) ps

by_namespace-empty :
    (target : Text) (mps : List ManagedProcess) (ps : Processes)
    → (by_namespace target mps ps ≡ []) ↔ ((mps ≡ []) × Fails (has_namespace target) ps)
unfolding by_namespace
by_namespace-empty target [] ps =
    let (there, back) = filter_processes-Fails (has_namespace target) ps in
    ((λ h. (refl, there h)), (λ h. back h.1))
by_namespace-empty target (mp ∷ mps) ps = ((λ h. cc), (λ h. h.0))

by_name-empty :
    (target : Text) (o : Option ManagedProcess) (ps : Processes)
    → (by_name target o ps ≡ [])
      ↔ ((o ≡ none) × Fails (has_name target) ps × Fails (has_namespace target) ps)
unfolding by_name
by_name-empty target (some mp) ps = ((λ h. cc), (λ h. absurd (ground (arith, h.0))))
by_name-empty target none ps =
    let (there, back) = by_namespace-empty target (filter_processes (has_name target) ps) ps in
    let (out, into) = filter_processes-Fails (has_name target) ps in
    ((λ h. let (p, q) = there h in (refl, out p, q)), (λ h. back (into h.1, h.2)))

-- A target other than `all` finds nothing exactly when no process has it for its key, its ID, its
-- name or its namespace.
pub find_by_target-empty_iff :
    (scan_int : Text → Option ℕ) (target : Text) (ps : Processes)
    → same target all_target ≡ false
    → (find_by_target scan_int target ps ≡ []) ↔ Unmatched scan_int target ps
unfolding find_by_target by_id
find_by_target-empty_iff scan_int target ps other = rw other (keyed (get target ps) refl)
  where
    keyed :
        (o : Option ManagedProcess)
        → get target ps ≡ o
        → (by_id target (scan_int target) o ps ≡ []) ↔ Unmatched scan_int target ps
    keyed (some mp) e = ((λ h. cc), (λ u. absurd (ground (arith, e, u.no_key))))
    keyed none e =
        let (there, back) = by_name-empty target (first_process (has_id (scan_int target)) ps) ps in
        let (out, into) = first_process-Fails (has_id (scan_int target)) ps in
        (
          (λ h.
              let (p, q, r) = there h in
              record { no_key = e; no_id = out p; no_name = q; no_namespace = r }),
          (λ u. back (into u.no_id, u.no_name, u.no_namespace)),
        )
