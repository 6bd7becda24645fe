-- ===== src/Workflow/Resolve.antt =====
-- workflow/graph.go: what a reference resolves to.
use pm.Workflow.Stage.{Stage}
use pm.Workflow.Config.{Config, Defs, keys, key, parse_key, cut_colon, default_category, colon}
use pm.Workflow.Graph.{has_key, named, ambiguous_ref, count_matches, resolve_bare, resolve, target}
use pm.Prelude.{
  ℕ, ◌+◌, ◌≡◌, refl, ◌∙◌, inl, inr, true, false, Option, none, some, List, [], ◌∷◌, ◌++◌, arith,
  ◌==◌, if◌then◌else◌, Option-cases, length, Text, same_iff, is_empty, contains,
  contains-sort_texts, dict_keys, get, contains-dict_keys,
}

abbrev pub last_or {ℓ} : {A : Type ℓ} → A → List A → A
last_or a [] = a
last_or a (x ∷ xs) = last_or x xs

-- The loop finds the last key of that name and counts them all.
count_matches_lem :
    (defs : Defs) (r : Text) (ks : List Text) (found : Text × ℕ)
    → ((count_matches defs r ks found).0 ≡ last_or found.0 (named defs r ks))
      × ((count_matches defs r ks found).1 ≡ found.1 + length (named defs r ks))
unfolding count_matches named
count_matches_lem defs r [] found = (refl, omega arith)
count_matches_lem defs r (k ∷ ks) found =
    ground (arith, count_matches_lem defs r ks (k, found.1 + 1), count_matches_lem defs r ks found)

abbrev pub only {ℓ} : {A : Type ℓ} → List A → Option A
only [] = none
only (x ∷ []) = some x
only (x ∷ y ∷ ys) = none

one_of_length : (ks : List Text) → (if length ks == 1 then some (last_or [] ks) else none) ≡ only ks
one_of_length [] = ground arith
one_of_length (x ∷ []) = ground arith
one_of_length (x ∷ y ∷ ys) = ground arith

-- A bare name means the workflow of the default category if there is one, and otherwise the only
-- workflow of that name in any category: two candidates resolve to nothing.
pub resolve_bare-ambiguous_ref :
    (defs : Defs) (r : Text)
    → let plain = default_category ++ colon ∷ r in
      resolve_bare defs r ≡ (if has_key plain defs then some plain else only (ambiguous_ref defs r))
unfolding resolve_bare ambiguous_ref
resolve_bare-ambiguous_ref defs r =
    let (p, q) = count_matches_lem defs r (keys defs) ([], 0) in
    ground (arith, p, q, one_of_length (named defs r (keys defs)))

named-contains :
    (defs : Defs) (r k : Text) (ks : List Text)
    → contains k (named defs r ks) ≡ true
    → contains k ks ≡ true
unfolding named contains
named-contains defs r k [] h = h
named-contains defs r k (j ∷ ks) h = ground (arith, named-contains defs r k ks)

only-contains : (k : Text) (ks : List Text) → only ks ≡ some k → contains k ks ≡ true
unfolding contains
only-contains k [] h = cc
only-contains k (x ∷ []) h = ground (arith, same_iff k x)
only-contains k (x ∷ y ∷ ys) h = cc

has_key-contains : (k : Text) (defs : Defs) → has_key k defs ≡ true → contains k (keys defs) ≡ true
unfolding keys
has_key-contains k defs h = elim (Option-cases (get k defs)) [
  | inl e ↦ ground arith
  | inr (c, e) ↦ contains-sort_texts k (dict_keys defs) ∙ contains-dict_keys k defs c e
]

-- What a reference resolves to is a key of the set.
pub resolve-contains :
    (defs : Defs) (r k : Text) → resolve defs r ≡ some k → contains k (keys defs) ≡ true
unfolding resolve ambiguous_ref
resolve-contains defs r k h =
    let (category, name) = parse_key r in
    let full = category ++ colon ∷ name in
    let plain = default_category ++ colon ∷ r in
    ground (
      arith,
      resolve_bare-ambiguous_ref defs r,
      only-contains k (ambiguous_ref defs r),
      named-contains defs r k (keys defs),
      has_key-contains full defs,
      has_key-contains plain defs,
    )

pub target-contains :
    (defs : Defs) (s : Stage) (k : Text) → target defs s ≡ some k → contains k (keys defs) ≡ true
unfolding target
target-contains defs s k h = ground (arith, resolve-contains defs s.workflow k)

cut_colon-append : (a b : Text) → cut_colon a ≡ none → cut_colon (a ++ colon ∷ b) ≡ some (a, b)
unfolding cut_colon
cut_colon-append [] b h = refl
cut_colon-append (x ∷ a) b h = elim (Option-cases (cut_colon a)) [
  | inl e ↦ ground (arith, cut_colon-append a b e)
  | inr (p, e) ↦ ground arith
]

-- The key of a workflow whose category has no colon in it is read back.
pub parse_key-key :
    (c : Config) → cut_colon c.category ≡ none → parse_key (key c) ≡ (c.category, c.name)
unfolding parse_key key
parse_key-key c h = ground (arith, cut_colon-append c.category c.name h)

-- If a set holds a key, and the workflow's category is not empty and has no colon in it, the key of
-- the workflow resolves to itself.
pub resolve-key :
    (defs : Defs) (c : Config)
    → cut_colon c.category ≡ none
    → is_empty c.category ≡ false
    → has_key (key c) defs ≡ true
    → resolve defs (key c) ≡ some (key c)
unfolding resolve
resolve-key defs c h e m = rw (parse_key-key c h, e) (unfold key in rw (m) refl)
