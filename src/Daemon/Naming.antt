-- ===== src/Daemon/Naming.antt =====
-- What LookupTask finds by a bare name.
use mathlib.Core.List.{append_assoc, append-nil}
use pm.Daemon.State.{cron_key, AppConfig, ProcessInfo}
use pm.Daemon.Launch.{default_namespace}
use pm.Daemon.Starting.{
  LookupError, not_registered, ambiguous_task, info_key, choose_match, lookup_name,
}
use pm.Prelude.{
  ◌≡◌, refl, sym, ap, ◌∙◌, inl, inr, true, Option, none, some, List, [], ◌∷◌, ◌++◌, map,
  if◌then◌else◌, Bool-cases, Option-cases, Text, codes, same, Result, ok, err,
}

-- The processes of that name, and the first of them in the default namespace.
abbrev pub infos_named : Text → List ProcessInfo → List ProcessInfo
infos_named r [] = []
infos_named r (i ∷ is) = if same i.app.name r then i ∷ infos_named r is else infos_named r is

abbrev pub first_default : List ProcessInfo → Option ProcessInfo
first_default [] = none
first_default (i ∷ is) = if same i.app.namespace default_namespace then some i else first_default is

-- The only one of several processes, by how many there are: of none the name is not registered, and
-- of two or more it is ambiguous, with the keys of all of them.
abbrev pub keys_of_infos : List ProcessInfo → List Text
keys_of_infos [] = []
keys_of_infos (i ∷ is) = (i.app.namespace ++ codes ":" ++ i.app.name) ∷ keys_of_infos is

abbrev pub the_only : Text → List ProcessInfo → Result LookupError AppConfig
the_only r [] = err (not_registered r)
the_only r (i ∷ []) = ok i.app
the_only r (i ∷ j ∷ is) = err (ambiguous_task r (keys_of_infos (i ∷ j ∷ is)))

abbrev pub preferred : Text → List ProcessInfo → Result LookupError AppConfig
preferred r is = elim (first_default is) [ some i ↦ ok i.app | none ↦ the_only r is ]

abbrev preferred_after : Text → List ProcessInfo → List ProcessInfo → Result LookupError AppConfig
preferred_after r ms is = elim (first_default is) [
  | some i ↦ ok i.app
  | none ↦ choose_match r (ms ++ is)
]

keys_of_infos-map : (is : List ProcessInfo) → map info_key is ≡ keys_of_infos is
unfolding cron_key
keys_of_infos-map [] = refl
keys_of_infos-map (i ∷ is) = ap (λ l. info_key i ∷ l) (keys_of_infos-map is)

choose_match-the_only : (r : Text) (is : List ProcessInfo) → choose_match r is ≡ the_only r is
choose_match-the_only r [] = refl
choose_match-the_only r (i ∷ []) = refl
choose_match-the_only r (i ∷ j ∷ is) =
    ap (λ l. err (ambiguous_task r l)) (keys_of_infos-map (i ∷ j ∷ is))

infos_named-cons :
    (r : Text) (i : ProcessInfo) (is : List ProcessInfo)
    → same i.app.name r ≡ true
    → infos_named r (i ∷ is) ≡ i ∷ infos_named r is
infos_named-cons r i is e = rw e refl

preferred_cons :
    (r : Text) (ms is : List ProcessInfo) (i : ProcessInfo) (x : Result LookupError AppConfig)
    → x ≡ preferred_after r (ms ++ i ∷ []) is
    → (if same i.app.namespace default_namespace then ok i.app else x)
      ≡ preferred_after r ms (i ∷ is)
preferred_cons r ms is i x later = elim (Bool-cases (same i.app.namespace default_namespace)) [
  | inl d ↦ rw (d, preferred_after) refl
  | inr d ↦
      rw (d, preferred_after)
        (later
          ∙ ap (λ l. elim (first_default is) [ some j ↦ ok j.app | none ↦ choose_match r l ])
              (append_assoc ms (i ∷ []) is))
]

lookup_name-match :
    (r : Text) (ms is : List ProcessInfo) (i : ProcessInfo)
    → same i.app.name r ≡ true
    → lookup_name r ms (i ∷ is) ≡ (
        if same i.app.namespace default_namespace
        then ok i.app
        else lookup_name r (ms ++ i ∷ []) is)
unfolding lookup_name
lookup_name-match r ms is i e = rw e refl

lookup_name_after :
    (r : Text) (ms is : List ProcessInfo)
    → lookup_name r ms is ≡ preferred_after r ms (infos_named r is)
unfolding lookup_name
lookup_name_after r ms [] = ap (choose_match r) (sym (append-nil ms))
lookup_name_after r ms (i ∷ is) = elim (Bool-cases (same i.app.name r)) [
  | inr e ↦ rw e (lookup_name_after r ms is)
  | inl e ↦
      lookup_name-match r ms is i e
      ∙ (preferred_cons r ms (infos_named r is) i (lookup_name r (ms ++ i ∷ []) is)
            (lookup_name_after r (ms ++ i ∷ []) is)
          ∙ ap (preferred_after r ms) (sym (infos_named-cons r i is e)))
]

-- A bare task name means the task of the default namespace, wherever it stands in the map, and
-- otherwise the only task of that name; of none the name is reported as not registered, and of several
-- as ambiguous, with the keys of all of them in order.
pub lookup_name-preferred :
    (r : Text) (is : List ProcessInfo) → lookup_name r [] is ≡ preferred r (infos_named r is)
lookup_name-preferred r is =
    lookup_name_after r [] is ∙ elim (Option-cases (first_default (infos_named r is))) [
      | inr (i, e) ↦ rw (e, preferred_after, preferred) refl
      | inl e ↦ rw (e, preferred_after, preferred) (choose_match-the_only r (infos_named r is))
    ]
