-- ===== src/Runhistory/Examples.antt =====
-- Small journals and names.
use pm.Runhistory.Names.{safe_component, IsSafeByte, safe_component-IsSafe}
use pm.Runhistory.Query.{
  read_tail, read_day, has_content, DayFile, gone, lines, scan, all_matching, scan_lem,
}
use pm.Runhistory.Retention.{is_expired}
use pm.Runhistory.Store.{Calendar, AppendFaults, writes, fails_after, Journal, text_of}
use pm.Runhistory.Store.Days.{Call, append_each, landed, append_each-lands}
use pm.Wfengine.State.{WorkflowRecord, cron, success}
use pm.Runhistory.Lookup.{DayFiles, is_run, contents, workflow_run, Looks, workflow_run-Looks}
use pm.Prelude.{
  ℕ, ◌-◌, ◌*◌, ◌/◌, ◌%◌, ◌≡◌, refl, Bool, true, false, none, some, List, [], ◌∷◌, ◌++◌, ◌==◌,
  if◌then◌else◌, take, All, Text, codes, is_empty,
}

-- Today's file, one that is gone, and an older one with a torn line; a record is a number.
abbrev journal : List (DayFile ℕ)
journal = lines (some 7 ∷ some 9 ∷ []) ∷ gone ∷ lines (some 1 ∷ none ∷ some 4 ∷ some 5 ∷ []) ∷ []

abbrev is_odd : ℕ → Bool
is_odd n = n % 2 == 1

scan-journal : scan 3 is_odd journal ≡ (9 ∷ 7 ∷ 5 ∷ [], true)
unfolding scan
scan-journal = refl

scan_lem_example : scan 3 is_odd journal ≡ (take 3 (all_matching is_odd journal), true)
scan_lem_example = scan_lem 3 is_odd journal (refl, (refl, (refl, tt)))

abbrev traversal : Text
traversal = codes "../etc/passwd"

safe_component-traversal : safe_component (λ t. t) traversal ≡ codes "---etc-passwd"
unfolding safe_component
safe_component-traversal = refl

safe_component-IsSafe_example :
    All IsSafeByte (safe_component (λ t. t) traversal)
    × (is_empty (safe_component (λ t. t) traversal) ≡ false)
safe_component-IsSafe_example = safe_component-IsSafe (λ t. t) traversal

-- A day has ten moments, and its file is named by its number.
abbrev calendar : Calendar
calendar = record {
  day_of = λ t. (t / 10) ∷ [];
  day_named = λ name. elim name [ [] ↦ none | d ∷ ds ↦ some (d * 10) ];
  days_before = λ t n. t - n * 10;
}

abbrev sound_append : AppendFaults
sound_append = record { makes_dir = true; opens = true; writing = writes; removes = λ name. true }

-- Two records of day 40, of which one is cut, around one of day 41.
abbrev calls : List Call
calls =
    record { at = 405; faults = sound_append; line = some (codes "a") }
    ∷ record { at = 411; faults = sound_append; line = some (codes "b") }
    ∷ record {
      at = 408;
      faults = record sound_append { writing = fails_after 1 };
      line = some (codes "c");
    }
    ∷ []

abbrev empty_journal : Journal
empty_journal = record { open_day = none; files = [] }

append_each-lands_example :
    text_of (40 ∷ []) (append_each calendar calls empty_journal).1.files
    ≡ text_of (40 ∷ []) empty_journal.files
      ++ landed calendar (40 ∷ []) calls (append_each calendar calls empty_journal).0
unfolding is_expired
append_each-lands_example =
    append_each-lands calendar (40 ∷ []) calls empty_journal (refl, (refl, (refl, tt)))

-- A run that ended on the day after the one that its identifier names.
abbrev late_run : WorkflowRecord
late_run = record {
  run_id = codes "20260531T235900-a1b2c3";
  workflow = codes "default:etl";
  category = codes "default";
  name = codes "etl";
  trigger = cron;
  parent_run_id = [];
  depth = 0;
  started_at = 1;
  finished_at = 2;
  duration = 1;
  status = success;
  stages = [];
  error = [];
}

abbrev run_files : DayFiles
run_files =
    (codes "2026-06-01.jsonl", lines (some late_run ∷ []))
    ∷ (codes "2026-05-31.jsonl", lines [])
    ∷ []

workflow_run-Looks_example :
    Looks
      (codes "20260531T235900-a1b2c3")
      (all_matching (is_run (codes "20260531T235900-a1b2c3")) (contents run_files))
      (workflow_run
        (λ t. some 0)
        (λ t. codes "2026-05-31")
        (codes "20260531T235900-a1b2c3")
        run_files)
workflow_run-Looks_example =
    workflow_run-Looks (λ t. some 0) (λ t. codes "2026-05-31") (codes "20260531T235900-a1b2c3")
      run_files (refl, (refl, tt))

-- A tail that starts within a line begins at the next one.
read_tail_cuts : read_tail 4 (codes "abc" ++ 10 ∷ codes "de") ≡ codes "de"
unfolding read_tail
read_tail_cuts = refl

-- A day file whose last line is empty, as one that ends with a newline has.
read_day_lines :
    read_day (λ t. if is_empty t then none else some t) (has_content (codes "a" ++ 10 ∷ []))
    ≡ lines (some (codes "a") ∷ none ∷ [])
unfolding read_day
read_day_lines = refl
