-- ===== src/Wfengine/Registry/Dump.antt =====
-- The saved definitions: what Load makes of what persist wrote.
use pm.Workflow.Config.{Config, Defs, Paths, key, keys, normalize}
use pm.Wfengine.Registry.Arming.{persist_saves}
use pm.Wfengine.Registry.{
  RegistryError, saves, Saving, Registry, persist, load, read_dump, configs_at, merge,
  normalize_each,
}
use pm.Prelude.{
  ◌≡◌, refl, sym, ap, ◌∙◌, inl, inr, Bool, true, Option, none, some, List, [], ◌∷◌, arith,
  if◌then◌else◌, Bool-cases, Option-cases, Text, same, same_eq, same_refl, contains,
  contains-sort_texts, dict_keys, get, put, get-put, contains-dict_keys, get_of_contains, Result,
}

-- Every workflow stands under its own key.
abbrev pub IsKeyed : Defs → Type 0
IsKeyed defs = (k : Text) (c : Config) → get k defs ≡ some c → key c ≡ k

-- Load's normalization changes nothing.
abbrev pub IsNormal : Paths → Defs → Type 0
IsNormal p defs = (k : Text) (c : Config) → get k defs ≡ some c → normalize p [] c ≡ c

configs_at-cons :
    (defs : Defs) (k : Text) (ks : List Text) (c : Config)
    → get k defs ≡ some c
    → configs_at defs (k ∷ ks) ≡ c ∷ configs_at defs ks
unfolding configs_at
configs_at-cons defs k ks c h = ground arith

module _ (p : Paths) (defs : Defs) (keyed : IsKeyed defs) (normal : IsNormal p defs) where
  last :
      (k : Text) (c : Config) (ks : List Text) (start : Defs) (j : Text)
      → get k defs ≡ some c
      → (if contains j ks then get j defs else get j (put k c start))
        ≡ (if contains j (k ∷ ks) then get j defs else get j start)
  unfolding contains
  last k c ks start j found = elim (Bool-cases (same j k)) [
    | inl e ↦ ground (arith, found, get-put j k c start, ap (λ x. get x defs) (same_eq j k e))
    | inr e ↦ ground (arith, get-put j k c start)
  ]

  get-merge :
      (ks : List Text) (start : Defs) (j : Text)
      → ((k : Text) → contains k ks ≡ true → contains k (dict_keys defs) ≡ true)
      → get j (merge (normalize_each p (configs_at defs ks)) start)
        ≡ (if contains j ks then get j defs else get j start)
  unfolding merge normalize_each configs_at contains
  get-merge [] start j known = refl
  get-merge (k ∷ ks) start j known =
      let (c, found) = get_of_contains k defs (known k (ground (arith, same_refl k))) in
      let later = λ (x : Text) (h : contains x ks ≡ true). known x (ground (arith, h)) in
      let rest = normalize_each p (configs_at defs ks) in
      ap (λ l. get j (merge (normalize_each p l) start)) (configs_at-cons defs k ks c found)
      ∙ (ap (λ d. get j (merge rest (put (key d) d start))) (normal k c found)
          ∙ (ap (λ x. get j (merge rest (put x c start))) (keyed k c found)
              ∙ (get-merge ks (put k c start) j later ∙ last k c ks start j found)))

pub restored :
    (p : Paths) (defs : Defs)
    → IsKeyed defs
    → IsNormal p defs
    → (j : Text) → get j (merge (normalize_each p (configs_at defs (keys defs))) []) ≡ get j defs
unfolding keys get
restored p defs keyed normal j =
    get-merge p defs keyed normal (keys defs) [] j
      (λ k h. sym (contains-sort_texts k (dict_keys defs)) ∙ h)
    ∙ absent
  where
    absent : (if contains j (keys defs) then get j defs else none) ≡ get j defs
    absent = elim (Option-cases (get j defs)) [
      | inl e ↦ ground (arith, e)
      | inr (c, e) ↦
          ground (arith, contains-sort_texts j (dict_keys defs), contains-dict_keys j defs c e)
    ]

-- A save that succeeds, and then a load by an engine without definitions, give every key the workflow
-- that it had, if each workflow stands under its own key and is normalized. json.Unmarshal gives back
-- the list that json.MarshalIndent was given, and the file can be read.
pub load-persist :
    (p : Paths) (parses : Text → Bool) (saved : Saving) (unmarshal : Text → Option (List Config))
    (defs : Defs) (r fresh : Registry) (bytes : Text)
    → IsKeyed defs
    → IsNormal p defs
    → saved.marshal (configs_at defs (keys defs)) ≡ some bytes
    → unmarshal bytes ≡ some (configs_at defs (keys defs))
    → saved.outcome ≡ saves
    → fresh.engine.defs ≡ []
    → (j : Text)
    → let dump = (persist saved defs r).1.dump in
      get j (load p parses (read_dump true unmarshal dump) fresh).1.engine.defs ≡ get j defs
load-persist p parses saved unmarshal defs r fresh bytes keyed normal m u o f j =
    ap
      (λ (t : Result RegistryError (Unit {0}) × Registry).
        get j (load p parses (read_dump true unmarshal t.1.dump) fresh).1.engine.defs)
      (persist_saves saved defs r bytes m o)
    ∙ (unfold load read_dump in rw (u, f) (restored p defs keyed normal j))
