-- ===== src/Wfengine/Registry/Arming.antt =====
-- Registration keeps the graph acyclic and the schedules in step with the definitions.
use pm.Cron.{Entries, armed_with, get-register}
use pm.Cron
use pm.Workflow.Stage.{DurationParser}
use pm.Workflow.Config.{Config, Defs, key, keys, ValidateError}
use pm.Workflow.Search.{Visit, done, cycle, out_of_fuel, check_acyclic}
use pm.Workflow.Search.Walks.{IsAcyclic}
use pm.Workflow.Search.Verdict.{check_acyclic-done_iff}
use pm.Wfengine.Registry.{
  SaveOutcome, saves, fails_before, fails_after, Saving, store_dump, after_save, configs_at,
  keys_of, cyclic, Warning, invalid, not_persisted, Registry, Registered, RegistryError, cron_at,
  arm_keys, arm_all, merge, validate_each, install, register_checked, register_valid, register,
  delete_key, persist, with_defs,
}
use pm.Prelude.{
  ◌≡◌, refl, ap, ◌∙◌, inl, inr, Bool, true, false, not, ◌&&◌, ◌||◌, Option, none, some, List, [],
  ◌∷◌, arith, if◌then◌else◌, Bool-cases, Option-cases, take, Text, same, same_eq, same_iff,
  is_empty, contains, sort_texts, contains-sort_texts, dict_keys, get, put, remove, get-remove,
  Result, ok, err,
}

-- What arming one key does to the entries.
get-arm_key :
    (parses : Text → Bool) (c k j : Text) (armed : Entries)
    → get j (if is_empty c then remove k armed else (Cron.register parses k c armed).1)
      ≡ (if same j k then armed_with parses c else get j armed)
unfolding armed_with
get-arm_key parses c k j armed = elim (Bool-cases (is_empty c)) [
  | inl e ↦ rw e (get-remove j k armed)
  | inr e ↦ rw e (get-register parses k c j armed ∙ rw e refl)
]

get-arm_keys :
    (parses : Text → Bool) (defs : Defs) (ks : List Text) (armed : Entries) (j : Text)
    → get j (arm_keys parses defs ks armed).1
      ≡ (if contains j ks then armed_with parses (cron_at defs j) else get j armed)
unfolding arm_keys contains
get-arm_keys parses defs [] armed j = refl
get-arm_keys parses defs (k ∷ ks) armed j =
    let c = cron_at defs k in
    let next = if is_empty c then remove k armed else (Cron.register parses k c armed).1 in
    get-arm_keys parses defs ks next j
    ∙ rw (get-arm_key parses c k j armed) (elim (Bool-cases (same j k)) [
      | inl e ↦ rw e (ground (arith, ap (λ x. armed_with parses (cron_at defs x)) (same_eq j k e)))
      | inr e ↦ rw e refl
    ])

-- The schedules and the definitions agree: a key of the set is armed with its own expression, if it
-- has one that parses, and nothing else is armed.
abbrev pub InStep : (Text → Bool) → Registry → Type 0
InStep parses r =
    (j : Text)
    → get j r.armed ≡ (
        if contains j (keys r.engine.defs)
        then armed_with parses (cron_at r.engine.defs j)
        else none)

-- What every history of registrations and deletions keeps.
abbrev pub ArmedWithin : Registry → Type 0
ArmedWithin r = (j : Text) → contains j (keys r.engine.defs) ≡ false → get j r.armed ≡ none

contains-keys : (j : Text) (defs : Defs) → contains j (keys defs) ≡ contains j (dict_keys defs)
unfolding keys
contains-keys j defs = contains-sort_texts j (dict_keys defs)

contains-put :
    (j k : Text) (c : Config) (defs : Defs)
    → contains j (dict_keys (put k c defs)) ≡ (same j k || contains j (dict_keys defs))
unfolding contains put
contains-put j k c [] = refl
contains-put j k c ((i, d) ∷ defs) =
    ground (arith, same_iff j k, same_iff k i, same_iff j i, contains-put j k c defs)

merge_keeps :
    (cs : List Config) (defs : Defs) (j : Text)
    → contains j (dict_keys defs) ≡ true
    → contains j (dict_keys (merge cs defs)) ≡ true
unfolding merge
merge_keeps [] defs j h = h
merge_keeps (c ∷ cs) defs j h =
    merge_keeps cs (put (key c) c defs) j (ground (arith, contains-put j (key c) c defs))

-- Keys that are new to the set were not armed, so arming its keys is arming everything.
arm_all-InStep :
    (parses : Text → Bool) (cs : List Config) (r : Registry) (j : Text)
    → ArmedWithin r
    → let merged = merge cs r.engine.defs in
      get j (arm_all parses merged r.armed).1
      ≡ (if contains j (keys merged) then armed_with parses (cron_at merged j) else none)
unfolding arm_all
arm_all-InStep parses cs r j within =
    let merged = merge cs r.engine.defs in
    ground (
      arith,
      get-arm_keys parses merged (keys merged) r.armed j,
      contains-keys j merged,
      contains-keys j r.engine.defs,
      merge_keeps cs r.engine.defs j,
      within j,
    )

-- What Register leaves: the same registry, or one with an acyclic set.
pub data Registers (parses : Text → Bool) (cs : List Config) (r : Registry)
    : Registered × Registry → Type 0 where
  rejected : (x : RegistryError) → Registers parses cs r (err x, r)
  unsaved :
      {merged : Defs}
      → merged ≡ merge cs r.engine.defs
      → IsAcyclic merged
      → (dump : Option Text)
      → Registers parses cs r (err not_persisted, record (with_defs merged r) { dump = dump })
  registered :
      (warnings : List Warning) {after : Registry}
      → after.engine.defs ≡ merge cs r.engine.defs
      → IsAcyclic after.engine.defs
      → InStep parses after
      → Registers parses cs r (ok (sort_texts (keys_of cs), warnings), after)

-- A save touches the file alone.
pub data Persisted (r : Registry) : Result RegistryError (Unit {0}) × Registry → Type 0 where
  stored : (dump : Option Text) → Persisted r (ok tt, record r { dump = dump })
  failed : (dump : Option Text) → Persisted r (err not_persisted, record r { dump = dump })

store_dump-Persisted :
    (o : SaveOutcome) (bytes : Text) (r : Registry) → Persisted r (store_dump o bytes r)
store_dump-Persisted saves bytes r = stored (some bytes)
store_dump-Persisted fails_before bytes r = failed r.dump
store_dump-Persisted (fails_after n) bytes r = failed (some (take n bytes))

persist-Persisted : (s : Saving) (defs : Defs) (r : Registry) → Persisted r (persist s defs r)
unfolding persist
persist-Persisted s defs r = elim (Option-cases (s.marshal (configs_at defs (keys defs)))) [
  | inl e ↦ rw (e, persist) (failed r.dump)
  | inr (bytes, e) ↦ rw (e, persist) (store_dump-Persisted s.outcome bytes r)
]

pub persist_saves :
    (s : Saving) (defs : Defs) (r : Registry) (bytes : Text)
    → s.marshal (configs_at defs (keys defs)) ≡ some bytes
    → s.outcome ≡ saves
    → persist s defs r ≡ (ok tt, record r { dump = some bytes })
unfolding persist
persist_saves s defs r bytes m o = rw (m, persist) (ap (λ x. store_dump x bytes r) o)

module _ (parses : Text → Bool) (saved : Saving) (cs : List Config) (r : Registry)
    (within : ArmedWithin r) where
  after_save-Registers :
      {t : Result RegistryError (Unit {0}) × Registry}
      → IsAcyclic (merge cs r.engine.defs)
      → Persisted (with_defs (merge cs r.engine.defs) r) t
      → Registers parses cs r (after_save parses cs (merge cs r.engine.defs) t)
  after_save-Registers a (stored dump) =
      registered _ refl a (λ j. arm_all-InStep parses cs r j within)
  after_save-Registers a (failed dump) = unsaved refl a dump

  install-Registers :
      IsAcyclic (merge cs r.engine.defs)
      → Registers parses cs r (install parses saved cs (merge cs r.engine.defs) r)
  unfolding install
  install-Registers a =
      after_save-Registers a
        (persist-Persisted saved (merge cs r.engine.defs) (with_defs (merge cs r.engine.defs) r))

  register_checked-Registers :
      (v : Visit)
      → check_acyclic (merge cs r.engine.defs) ≡ v
      → Registers parses cs r (register_checked parses saved cs (merge cs r.engine.defs) v r)
  unfolding register_checked
  register_checked-Registers (done c) e =
      install-Registers ((check_acyclic-done_iff (merge cs r.engine.defs)).0 (c, e))
  register_checked-Registers (cycle p) e = rejected (cyclic p)
  register_checked-Registers out_of_fuel e = rejected (cyclic [])

  register_valid-Registers :
      (x : Result ValidateError (Unit {0}))
      → Registers parses cs r (register_valid parses saved cs x r)
  unfolding register_valid
  register_valid-Registers (err x) = rejected (invalid x)
  register_valid-Registers (ok u) =
      register_checked-Registers (check_acyclic (merge cs r.engine.defs)) refl

-- Register takes a batch whole or not at all, where nothing outside the definitions is armed
-- before. Rejected, for an invalid workflow or for a cycle with what is registered already, nothing
-- changes. Otherwise the batch is merged into the definitions and the whole set is acyclic; if the
-- save fails, the schedules are left alone and the caller gets the error; if it succeeds, exactly
-- the keys whose workflow has an expression that parses are armed, each with its own.
pub register-Registers :
    (parse : DurationParser) (parses : Text → Bool) (saved : Saving) (cs : List Config)
    (r : Registry)
    → ArmedWithin r
    → Registers parses cs r (register parse parses saved cs r)
unfolding register
register-Registers parse parses saved cs r within =
    register_valid-Registers parses saved cs r within (validate_each parse cs)

contains-remove :
    (j k : Text) (defs : Defs)
    → contains j (dict_keys (remove k defs)) ≡ (not (same j k) && contains j (dict_keys defs))
unfolding contains remove
contains-remove j k [] = ground arith
contains-remove j k ((i, d) ∷ defs) =
    ground (arith, same_iff j k, same_iff k i, same_iff j i, contains-remove j k defs)

-- Deleting the key that a reference resolves to unregisters and disarms that workflow and leaves
-- every other workflow and schedule alone, whether the save succeeds or not.
pub delete_key-removes :
    (saved : Saving) (r k j : Text) (s : Registry)
    → let after = (delete_key saved r (some k) s).1 in
      (get j after.engine.defs ≡ (if same j k then none else get j s.engine.defs))
      × (get j after.armed ≡ (if same j k then none else get j s.armed))
unfolding delete_key
delete_key-removes saved r k j s = removed (
    persist-Persisted saved (remove k s.engine.defs)
      (record (with_defs (remove k s.engine.defs) s) { armed = remove k s.armed }))
  where
    removed :
        {t : Result RegistryError (Unit {0}) × Registry}
        → Persisted (record (with_defs (remove k s.engine.defs) s) { armed = remove k s.armed }) t
        → (get j t.1.engine.defs ≡ (if same j k then none else get j s.engine.defs))
          × (get j t.1.armed ≡ (if same j k then none else get j s.armed))
    removed (stored d) = (get-remove j k s.engine.defs, get-remove j k s.armed)
    removed (failed d) = (get-remove j k s.engine.defs, get-remove j k s.armed)

remove-within :
    (k j : Text) (s : Registry)
    → ArmedWithin s
    → contains j (keys (remove k s.engine.defs)) ≡ false
    → get j (remove k s.armed) ≡ none
remove-within k j s within h = ground (
  arith,
  contains-keys j (remove k s.engine.defs),
  contains-remove j k s.engine.defs,
  contains-keys j s.engine.defs,
  get-remove j k s.armed,
  within j,
)

-- A deletion keeps that nothing outside the definitions is armed, whatever its outcome.
pub delete_key-ArmedWithin :
    (saved : Saving) (r : Text) (k : Option Text) (s : Registry)
    → ArmedWithin s
    → ArmedWithin (delete_key saved r k s).1
unfolding delete_key
delete_key-ArmedWithin saved r none s within = λ j h. within j h
delete_key-ArmedWithin saved r (some k) s within = kept (
    persist-Persisted saved (remove k s.engine.defs)
      (record (with_defs (remove k s.engine.defs) s) { armed = remove k s.armed }))
  where
    kept :
        {t : Result RegistryError (Unit {0}) × Registry}
        → Persisted (record (with_defs (remove k s.engine.defs) s) { armed = remove k s.armed }) t
        → ArmedWithin t.1
    kept (stored d) = λ j h. remove-within k j s within h
    kept (failed d) = λ j h. remove-within k j s within h

InStep-ArmedWithin : (parses : Text → Bool) (r : Registry) → InStep parses r → ArmedWithin r
InStep-ArmedWithin parses r step j h = step j ∙ rw h refl

-- A registration keeps that nothing outside the definitions is armed, whatever its outcome.
pub register-ArmedWithin :
    (parse : DurationParser) (parses : Text → Bool) (saved : Saving) (cs : List Config)
    (r : Registry)
    → ArmedWithin r
    → ArmedWithin (register parse parses saved cs r).1
register-ArmedWithin parse parses saved cs r within =
    kept (register-Registers parse parses saved cs r within)
  where
    kept : {t : Registered × Registry} → Registers parses cs r t → ArmedWithin t.1
    kept (rejected x) = within
    kept (unsaved p a d) = λ j h. within j (
        ground (
          arith,
          contains-keys j r.engine.defs,
          merge_keeps cs r.engine.defs j,
          ap (λ d. contains j (keys d)) p,
          contains-keys j (merge cs r.engine.defs),
        ))
    kept (registered w {after} p a step) = InStep-ArmedWithin parses after step
