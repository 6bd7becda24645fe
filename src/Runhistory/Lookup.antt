-- ===== src/Runhistory/Lookup.antt =====
-- runhistory/query.go: WorkflowRun; runhistory/runid.go: dayOfRunID.
use mathlib.Core.List.{append_assoc}
use pm.Wfengine.State.{WorkflowRecord}
use pm.Runhistory.Query.{
  DayFile, gone, is_readable, scan, scan_file, scan_lem, scan_file_lem, matching, all_matching,
  lines_of, Lines,
}
use pm.Prelude.{
  ℕ, ◌≡◌, refl, sym, ap, ◌∙◌, subst, inl, inr, Bool, true, Option, none, some, List, [], ◌∷◌, ◌++◌,
  arith, ltb, if◌then◌else◌, Bool-cases, Option-cases, length, take, All, All-append, Text, codes,
  same, Dict, get,
}

abbrev pub run_id_length : ℕ
run_id_length = 15

-- dayOfRunID, with time.ParseInLocation of the prefix and Format of the day.
unfoldable pub day_of_run_id : (Text → Option ℕ) → (ℕ → Text) → Text → Option Text
day_of_run_id parse_time format run_id =
    let day : Option Text = elim (parse_time (take run_id_length run_id)) [
      | none ↦ none
      | some t ↦ some (format t)
    ] in
    if ltb (length run_id) run_id_length then none else day

-- The day files by their names, the newest first.
abbrev pub DayFiles : Type 0
DayFiles = Dict (DayFile WorkflowRecord)

abbrev pub contents : DayFiles → List (DayFile WorkflowRecord)
contents [] = []
contents ((name, f) ∷ fs) = f ∷ contents fs

abbrev pub file_named : Text → DayFiles → DayFile WorkflowRecord
file_named name fs = elim (get name fs) [ none ↦ gone | some f ↦ f ]

abbrev pub is_run : Text → WorkflowRecord → Bool
is_run run_id r = same r.run_id run_id

abbrev pub first_of : List WorkflowRecord → Option WorkflowRecord
first_of [] = none
first_of (r ∷ rs) = some r

-- What WorkflowRun returns: none for an error.
abbrev pub Found : Type 0
Found = Option (Option WorkflowRecord)

abbrev pub of_scan : List WorkflowRecord × Bool → Found
of_scan (rs, well) = if well then some (first_of rs) else none

unfoldable pub search_all : Text → DayFiles → Found
unfolding scan
search_all run_id fs = of_scan (scan 1 (is_run run_id) (contents fs))

unfoldable pub search_day : Text → Text → DayFiles → Found
unfolding scan_file search_all
search_day day run_id fs =
    elim (scan_file 1 (is_run run_id) (file_named (day ++ codes ".jsonl") fs)) [
      | none ↦ none
      | some rs ↦ elim rs [ [] ↦ search_all run_id fs | r ∷ more ↦ some (some r) ]
    ]

-- WorkflowRun.
unfoldable pub workflow_run : (Text → Option ℕ) → (ℕ → Text) → Text → DayFiles → Found
unfolding day_of_run_id search_day search_all
workflow_run parse_time format run_id fs = elim (day_of_run_id parse_time format run_id) [
  | some day ↦ search_day day run_id fs
  | none ↦ search_all run_id fs
]

-- The result of a lookup among the records of all days: none has that run identifier, or it is one that
-- has.
pub data Looks (run_id : Text) (all : List WorkflowRecord) : Found → Type 0 where
  missing : all ≡ [] → Looks run_id all (some none)
  found :
      (before : List WorkflowRecord) (r : WorkflowRecord) (after : List WorkflowRecord)
      → all ≡ before ++ r ∷ after
      → is_run run_id r ≡ true
      → Looks run_id all (some (some r))

abbrev pub AllReadable : DayFiles → Type 0
AllReadable fs = All (λ (f : DayFile WorkflowRecord). is_readable f ≡ true) (contents fs)

abbrev Keeps : (WorkflowRecord → Bool) → List WorkflowRecord → Type 0
Keeps keep = All (λ (r : WorkflowRecord). keep r ≡ true)

matching-Keeps :
    (keep : WorkflowRecord → Bool) (ls : Lines WorkflowRecord) → Keeps keep (matching keep ls)
unfolding matching
matching-Keeps keep [] = tt
matching-Keeps keep (none ∷ ls) = matching-Keeps keep ls
matching-Keeps keep (some r ∷ ls) = elim (Bool-cases (keep r)) [
  | inl e ↦ rw e (e, matching-Keeps keep ls)
  | inr e ↦ rw e (matching-Keeps keep ls)
]

all_matching-Keeps :
    (keep : WorkflowRecord → Bool) (fs : List (DayFile WorkflowRecord))
    → Keeps keep (all_matching keep fs)
unfolding all_matching
all_matching-Keeps keep [] = tt
all_matching-Keeps keep (f ∷ fs) =
    All-append _ (matching keep (lines_of f)) (all_matching keep fs)
      (matching-Keeps keep (lines_of f)) (all_matching-Keeps keep fs)

-- The records of one day stand among those of all.
all_matching-day :
    (keep : WorkflowRecord → Bool) (name : Text) (f : DayFile WorkflowRecord) (fs : DayFiles)
    → get name fs ≡ some f
    → (before after : List WorkflowRecord) × (all_matching keep (contents fs)
        ≡ before ++ (matching keep (lines_of f) ++ after))
unfolding all_matching get
all_matching-day keep name f [] h = absurd (ground (arith, h))
all_matching-day keep name f ((j, g) ∷ fs) h = elim (Bool-cases (same name j)) [
  | inl e ↦
      let here : g ≡ f = ground (arith, h, e) in
      (
        [],
        all_matching keep (contents fs),
        ap (λ x. matching keep (lines_of x) ++ all_matching keep (contents fs)) here,
      )
  | inr e ↦
      let later : get name fs ≡ some f = ground (arith, h, e) in
      let (before, after, p) = all_matching-day keep name f fs later in
      (
        matching keep (lines_of g) ++ before,
        after,
        ap (λ x. matching keep (lines_of g) ++ x) p
            ∙ sym (
                append_assoc (matching keep (lines_of g)) before
                  (matching keep (lines_of f) ++ after)),
      )
]

get-AllReadable :
    (name : Text) (f : DayFile WorkflowRecord) (fs : DayFiles)
    → get name fs ≡ some f
    → AllReadable fs
    → is_readable f ≡ true
unfolding get
get-AllReadable name f [] h r = absurd (ground (arith, h))
get-AllReadable name f ((j, g) ∷ fs) h r = elim (Bool-cases (same name j)) [
  | inl e ↦ let here : g ≡ f = ground (arith, h, e) in ap is_readable (sym here) ∙ r.0
  | inr e ↦ get-AllReadable name f fs (ground (arith, h, e)) r.1
]

module _ (run_id : Text) (fs : DayFiles) (r : AllReadable fs) where
  abbrev all : List WorkflowRecord
  all = all_matching (is_run run_id) (contents fs)

  search_all-Looks : Looks run_id all (search_all run_id fs)
  unfolding search_all
  search_all-Looks =
      subst (λ x. Looks run_id all (of_scan x)) (sym (scan_lem 1 (is_run run_id) (contents fs) r))
        (first all refl (all_matching-Keeps (is_run run_id) (contents fs)))
    where
      first :
          (xs : List WorkflowRecord)
          → all ≡ xs
          → Keeps (is_run run_id) xs
          → Looks run_id all (of_scan (take 1 xs, true))
      first [] e k = missing e
      first (x ∷ xs) e k = found [] x xs e k.0

  search_file-Looks :
      (f : DayFile WorkflowRecord) (before after : List WorkflowRecord)
      → all ≡ before ++ (matching (is_run run_id) (lines_of f) ++ after)
      → Looks run_id all (elim (take 1 (matching (is_run run_id) (lines_of f))) [
        | [] ↦ search_all run_id fs
        | x ∷ more ↦ some (some x)
      ])
  search_file-Looks f before after p =
      first (matching (is_run run_id) (lines_of f)) p (matching-Keeps (is_run run_id) (lines_of f))
    where
      first :
          (xs : List WorkflowRecord)
          → all ≡ before ++ (xs ++ after)
          → Keeps (is_run run_id) xs
          → Looks run_id all
              (elim (take 1 xs) [ [] ↦ search_all run_id fs | x ∷ more ↦ some (some x) ])
      first [] e k = search_all-Looks
      first (x ∷ xs) e k = found before x (xs ++ after) e k.0

  search_day-Looks : (day : Text) → Looks run_id all (search_day day run_id fs)
  unfolding search_day
  search_day-Looks day = elim (Option-cases (get (day ++ codes ".jsonl") fs)) [
    | inl n ↦
        let none_there : file_named (day ++ codes ".jsonl") fs ≡ gone = rw (n, file_named) refl in
        subst (λ f. Looks run_id all (after_day (scan_file 1 (is_run run_id) f))) (sym none_there)
          (subst (λ x. Looks run_id all (after_day x))
            (sym (scan_file_lem 1 (is_run run_id) gone refl)) (unfold matching in search_all-Looks))
    | inr (f, n) ↦
        let there : file_named (day ++ codes ".jsonl") fs ≡ f = rw (n, file_named) refl in
        let (before, after, p) = all_matching-day (is_run run_id) (day ++ codes ".jsonl") f fs n in
        subst (λ g. Looks run_id all (after_day (scan_file 1 (is_run run_id) g))) (sym there)
          (subst (λ x. Looks run_id all (after_day x))
            (sym (
              scan_file_lem 1 (is_run run_id) f (get-AllReadable (day ++ codes ".jsonl") f fs n r)))
            (search_file-Looks f before after p))
  ]
    where
      after_day : Option (List WorkflowRecord) → Found
      after_day x = elim x [
        | none ↦ none
        | some rs ↦ elim rs [ [] ↦ search_all run_id fs | y ∷ more ↦ some (some y) ]
      ]

-- If every day file can be read, WorkflowRun returns no error: it finds a record of that run identifier
-- in the day files, or none of them has one.
pub workflow_run-Looks :
    (parse_time : Text → Option ℕ) (format : ℕ → Text) (run_id : Text) (fs : DayFiles)
    → AllReadable fs
    → Looks run_id
        (all_matching (is_run run_id) (contents fs))
        (workflow_run parse_time format run_id fs)
unfolding workflow_run
workflow_run-Looks parse_time format run_id fs r =
    elim (Option-cases (day_of_run_id parse_time format run_id)) [
      | inl e ↦ rw (e, workflow_run) (search_all-Looks run_id fs r)
      | inr (day, e) ↦ rw (e, workflow_run) (search_day-Looks run_id fs r day)
    ]
