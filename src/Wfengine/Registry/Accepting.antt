-- ===== src/Wfengine/Registry/Accepting.antt =====
-- Which batches Register takes.
use pm.Workflow.Stage.{DurationParser}
use pm.Workflow.Config.{Config, keys}
use pm.Workflow.Search.Walks.{IsAcyclic}
use pm.Workflow.Search.Verdict.{check_acyclic-done_iff}
use pm.Workflow.Validation.{IsValid, validate_iff}
use pm.Wfengine.Registry.Arming.{persist_saves}
use pm.Wfengine.Registry.{
  after_save, with_defs, saves, Saving, configs_at, Registry, Warning, arm_all, install, keys_of,
  merge, register, register_checked, register_valid, validate_each,
}
use pm.Prelude.{◌≡◌, refl, ap, Bool, some, List, [], ◌∷◌, All, Text, sort_texts, ok}

validate_each-accepts :
    (parse : DurationParser) (cs : List Config)
    → All (IsValid parse) cs
    → validate_each parse cs ≡ ok tt
unfolding validate_each
validate_each-accepts parse [] h = refl
validate_each-accepts parse (c ∷ cs) h =
    rw ((validate_iff parse c).1 h.0) (validate_each-accepts parse cs h.1)

-- A batch of valid workflows that closes no cycle with what is registered already, and that can be
-- marshalled and written, is registered: the caller gets its keys in order.
pub register_accepts :
    (parse : DurationParser) (parses : Text → Bool) (saved : Saving) (cs : List Config)
    (r : Registry) (bytes : Text)
    → All (IsValid parse) cs
    → IsAcyclic (merge cs r.engine.defs)
    → saved.marshal (configs_at (merge cs r.engine.defs) (keys (merge cs r.engine.defs)))
      ≡ some bytes
    → saved.outcome ≡ saves
    → (warnings : List Warning) × ((register parse parses saved cs r).0
        ≡ ok (sort_texts (keys_of cs), warnings))
unfolding register register_valid install
register_accepts parse parses saved cs r bytes valid acyclic m o =
    let (colours, e) = (check_acyclic-done_iff (merge cs r.engine.defs)).1 acyclic in
    (
      (arm_all parses (merge cs r.engine.defs) r.armed).0,
      rw (validate_each-accepts parse cs valid) (
          unfold register_checked in
          rw e (
            ap (λ t. (after_save parses cs (merge cs r.engine.defs) t).0)
              (persist_saves saved (merge cs r.engine.defs) (with_defs (merge cs r.engine.defs) r)
                bytes m o))),
    )
