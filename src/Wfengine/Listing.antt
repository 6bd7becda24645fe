-- ===== src/Wfengine/Listing.antt =====
-- daemon/wfengine/engine.go: List and LiveRuns; runhistory/query.go: RecentWorkflows.
use pm.Workflow.Config.{Config, Defs, key, keys}
use pm.Wfengine.Registry.Dump.{IsKeyed}
use pm.Wfengine.State.{Run, ActiveRun, Engine, Status, unset, WorkflowRecord}
use pm.Wfengine.Stages.{status_text}
use pm.Runhistory.Query.{
  Query, DayFile, limit_of, match_name, match_status, scan, scan_lem, all_matching, is_readable,
  lines_of, matching, Lines,
}
use pm.Prelude.{
  ℕ, ◌≡◌, refl, sym, ap, ◌∙◌, subst, inl, inr, Bool, true, false, not, ◌&&◌, none, some, List, [],
  ◌∷◌, ◌++◌, arith, ltb, ◌==◌, if◌then◌else◌, Bool-cases, Option-cases, take, All, Text, same,
  same_eq, Dict, get, pos,
}

-- workflow.Status.
pub record WorkflowStatus : Type 0 where
  pub config : Config
  pub is_running : Bool
  pub run_id : Text
  pub last_status : Status
  pub last_run_at : ℕ

abbrev pub History : Type 0
History = List (DayFile WorkflowRecord)

abbrev pub selects : Query → WorkflowRecord → Bool
selects q r = match_name q.name r.category r.name && match_status q.status (status_text r.status)

-- RecentWorkflows.
unfoldable pub recent_workflows : Query → History → List WorkflowRecord × Bool
unfolding scan limit_of
recent_workflows q files = scan (limit_of q) (selects q) files

abbrev pub last_query : Text → Query
last_query key = record { name = key; status = []; limit = pos 1 }

abbrev pub idle_status : Config → WorkflowStatus
idle_status c = record {
  config = c;
  is_running = false;
  run_id = [];
  last_status = unset;
  last_run_at = 0;
}

abbrev pub running_status : Config → ActiveRun → WorkflowStatus
running_status c ar = record (idle_status c) { is_running = true; run_id = ar.run.id }

abbrev pub with_last : Config → List WorkflowRecord → WorkflowStatus
with_last c [] = idle_status c
with_last c (r ∷ rs) = record (idle_status c) {
  run_id = r.run_id;
  last_status = r.status;
  last_run_at = r.finished_at;
}

-- The status of one workflow; a query that fails shows as no run.
unfoldable pub status_of : Engine → History → Text → Config → WorkflowStatus
unfolding recent_workflows
status_of e files key c =
    let t = recent_workflows (last_query key) files in
    elim (get key e.inflight) [
      | some ar ↦ running_status c ar
      | none ↦ if t.1 then with_last c t.0 else idle_status c
    ]

-- The loop of List over the keys.
unfoldable pub list_keys : Engine → History → Defs → List Text → List WorkflowStatus
unfolding status_of
list_keys e files defs [] = []
list_keys e files defs (k ∷ ks) =
    let rest = list_keys e files defs ks in
    elim (get k defs) [ none ↦ rest | some c ↦ status_of e files k c ∷ rest ]

-- List.
unfoldable pub list_workflows : Engine → History → List WorkflowStatus
unfolding list_keys
list_workflows e files = list_keys e files e.defs (keys e.defs)

abbrev pub runs_of : Dict ActiveRun → List Run
runs_of [] = []
runs_of ((k, ar) ∷ m) = ar.run ∷ runs_of m

-- The sort of LiveRuns: newest first, with runs of the same moment in one of the orders it may give.
unfoldable pub insert_run : Run → List Run → List Run
insert_run r [] = r ∷ []
insert_run r (s ∷ ss) =
    let later = insert_run r ss in if ltb s.started_at r.started_at then r ∷ s ∷ ss else s ∷ later

unfoldable pub sort_runs : List Run → List Run
unfolding insert_run
sort_runs [] = []
sort_runs (r ∷ rs) = insert_run r (sort_runs rs)

-- LiveRuns.
unfoldable pub live_runs : Engine → List Run
unfolding sort_runs
live_runs e = sort_runs (runs_of e.inflight)

-- The records of a history, newest first, and those of one workflow among them: its category and its
-- name make the key.
abbrev pub all_records : History → List WorkflowRecord
all_records files = all_matching (λ r. true) files

abbrev pub records_of : Text → List WorkflowRecord → List WorkflowRecord
records_of k [] = []
records_of k (r ∷ rs) =
    if same k (r.category ++ 58 ∷ r.name) then r ∷ records_of k rs else records_of k rs

-- What List should say of a workflow: the run in flight, or else its newest record.
abbrev pub known_status : Engine → History → Text → Config → WorkflowStatus
known_status e files key c = elim (get key e.inflight) [
  | some ar ↦ running_status c ar
  | none ↦ with_last c (records_of key (all_records files))
]

abbrev pub known_statuses : Engine → History → Defs → List Text → List WorkflowStatus
known_statuses e files defs [] = []
known_statuses e files defs (k ∷ ks) = elim (get k defs) [
  | none ↦ known_statuses e files defs ks
  | some c ↦ known_status e files k c ∷ known_statuses e files defs ks
]

with_last-take : (c : Config) (rs : List WorkflowRecord) → with_last c (take 1 rs) ≡ with_last c rs
with_last-take c [] = refl
with_last-take c (r ∷ rs) = refl

-- A text without a colon, and a record of a workflow with such a name.
abbrev pub is_plain : Text → Bool
is_plain [] = true
is_plain (b ∷ s) = not (b == 58) && is_plain s

abbrev pub IsPlain : WorkflowRecord → Type 0
IsPlain r = is_plain r.name ≡ true

is_plain-append : (t u : Text) → is_plain (t ++ 58 ∷ u) ≡ false
is_plain-append [] u = refl
is_plain-append (b ∷ t) u = ground (arith, is_plain-append t u)

-- A qualified key is no plain name.
same_plain : (t u name : Text) → is_plain name ≡ true → same (t ++ 58 ∷ u) name ≡ false
same_plain t u name h = elim (Bool-cases (same (t ++ 58 ∷ u) name)) [
  | inr e ↦ e
  | inl e ↦
      let q = ap is_plain (same_eq (t ++ 58 ∷ u) name e) in
      absurd (ground (arith, q, h, is_plain-append t u))
]

module _ (k : Text) (c : Config) (keyed : key c ≡ k) where
  selects_plain :
      (r : WorkflowRecord)
      → IsPlain r
      → selects (last_query k) r ≡ same k (r.category ++ 58 ∷ r.name)
  unfolding match_name match_status key
  selects_plain r h =
      subst
        (λ (j : Text).
          (match_name j r.category r.name && true) ≡ same j (r.category ++ 58 ∷ r.name))
        keyed (qualified c.category c.name (same_plain c.category c.name r.name h))
    where
      qualified :
          (t u : Text)
          → same (t ++ 58 ∷ u) r.name ≡ false
          → (match_name (t ++ 58 ∷ u) r.category r.name && true)
            ≡ same (t ++ 58 ∷ u) (r.category ++ 58 ∷ r.name)
      qualified [] u n = ground (arith, n)
      qualified (b ∷ t) u n = ground (arith, n)

  records_of-append :
      (xs ys : List WorkflowRecord) → records_of k (xs ++ ys) ≡ records_of k xs ++ records_of k ys
  records_of-append [] ys = refl
  records_of-append (r ∷ xs) ys = elim (Bool-cases (same k (r.category ++ 58 ∷ r.name))) [
    | inl e ↦ rw e (ap (λ l. r ∷ l) (records_of-append xs ys))
    | inr e ↦ rw e (records_of-append xs ys)
  ]

  matching-records_of :
      (ls : Lines WorkflowRecord)
      → All IsPlain (matching (λ r. true) ls)
      → matching (selects (last_query k)) ls ≡ records_of k (matching (λ r. true) ls)
  unfolding matching
  matching-records_of [] h = refl
  matching-records_of (none ∷ ls) h = matching-records_of ls h
  matching-records_of (some r ∷ ls) h = elim (Bool-cases (same k (r.category ++ 58 ∷ r.name))) [
    | inl e ↦
        let s = selects_plain r h.0 ∙ e in rw (s, e) (ap (λ l. r ∷ l) (matching-records_of ls h.1))
    | inr e ↦ let s = selects_plain r h.0 ∙ e in rw (s, e) (matching-records_of ls h.1)
  ]

  All-split :
      (xs ys : List WorkflowRecord) → All IsPlain (xs ++ ys) → All IsPlain xs × All IsPlain ys
  All-split [] ys h = (tt, h)
  All-split (x ∷ xs) ys h = let (p, q) = All-split xs ys h.1 in ((h.0, p), q)

  all_matching-records_of :
      (files : History)
      → All IsPlain (all_records files)
      → all_matching (selects (last_query k)) files ≡ records_of k (all_records files)
  unfolding all_matching
  all_matching-records_of [] h = refl
  all_matching-records_of (f ∷ fs) h =
      let (p, q) = All-split (matching (λ r. true) (lines_of f)) (all_records fs) h in
      ap (λ l. l ++ all_matching (selects (last_query k)) fs) (matching-records_of (lines_of f) p)
      ∙ (ap (λ l. records_of k (matching (λ r. true) (lines_of f)) ++ l)
            (all_matching-records_of fs q)
          ∙ sym (records_of-append (matching (λ r. true) (lines_of f)) (all_records fs)))

module _ (e : Engine) (files : History)
    (r : All (λ (f : DayFile WorkflowRecord). is_readable f ≡ true) files)
    (plain : All IsPlain (all_records files)) where
  status_of-known :
      (k : Text) (c : Config) → key c ≡ k → status_of e files k c ≡ known_status e files k c
  unfolding status_of recent_workflows limit_of
  status_of-known k c keyed = elim (Option-cases (get k e.inflight)) [
    | inr (ar, h) ↦ rw (h, status_of, known_status) refl
    | inl h ↦
        let q = scan_lem 1 (selects (last_query k)) files r in
        rw (h, status_of, known_status)
          (ap (λ (t : List WorkflowRecord × Bool). if t.1 then with_last c t.0 else idle_status c) q
            ∙ (with_last-take c (all_matching (selects (last_query k)) files)
                ∙ ap (with_last c) (all_matching-records_of k c keyed files plain)))
  ]

  list_keys-known :
      (defs : Defs) (ks : List Text)
      → IsKeyed defs
      → list_keys e files defs ks ≡ known_statuses e files defs ks
  unfolding list_keys
  list_keys-known defs [] keyed = refl
  list_keys-known defs (k ∷ ks) keyed = elim (Option-cases (get k defs)) [
    | inl h ↦ rw (h, list_keys, known_statuses) (list_keys-known defs ks keyed)
    | inr (c, h) ↦
        rw (h, list_keys, known_statuses)
          (ap (λ x. x ∷ list_keys e files defs ks) (status_of-known k c (keyed k c h))
            ∙ ap (λ l. known_status e files k c ∷ l) (list_keys-known defs ks keyed))
  ]

-- Over a history that can be read, List gives one status for each declared workflow, in the order of
-- the keys: of its run in flight, or else of the newest record with its category and its name among
-- the lines that readTail returns. Every workflow stands under its own key, and no recorded name has a
-- colon.
pub list_workflows-known :
    (e : Engine) (files : History)
    → All (λ (f : DayFile WorkflowRecord). is_readable f ≡ true) files
    → All IsPlain (all_records files)
    → IsKeyed e.defs
    → list_workflows e files ≡ known_statuses e files e.defs (keys e.defs)
unfolding list_workflows
list_workflows-known e files r plain keyed =
    list_keys-known e files r plain e.defs (keys e.defs) keyed
