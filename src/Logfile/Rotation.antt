-- ===== src/Logfile/Rotation.antt =====
-- logfile/rotation.go: moving the leading blocks of earlier dates into dated archives.
pub mod Blocks
pub mod Undoing
pub mod Commit
use pm.Paths.{stem, ext}
use pm.Prelude.{
  ℕ, ◌+◌, Bool, true, false, not, ◌&&◌, Option, none, some, List, [], ◌∷◌, ◌++◌, leb, ◌==◌,
  if◌then◌else◌, length, take, drop, Text, codes, same, text_le, sort_texts, Dict, dict_keys, get,
  put, remove,
}

-- The lines that bufio's ReadBytes('\n') gives until the end of the file: each keeps its newline,
-- and a last line without one is a line too.
unfoldable pub split_lines : Text → List Text
split_lines [] = []
split_lines (b ∷ s) =
    let rest = split_lines s in
    if b == 10 then (b ∷ []) ∷ rest else elim rest [ [] ↦ (b ∷ []) ∷ [] | l ∷ ls ↦ (b ∷ l) ∷ ls ]

-- ArchivePath.
unfoldable pub archive_path : Text → Text → Text
archive_path path date = stem path ++ codes "." ++ date ++ ext path

abbrev pub date_length : ℕ
date_length = 10

abbrev pub bracketed : Text → Bool
bracketed [] = false
bracketed (b ∷ s) = b == b'['

-- timestampDate, with time.Parse's answer on a date.
unfoldable pub timestamp_date : (Text → Bool) → Text → Option Text
timestamp_date is_date line =
    let bare = take date_length line in
    let inner = take date_length (drop 1 line) in
    let checked = λ (t : Text). if is_date t then some t else none in
    if leb (date_length + 1) (length line) && bracketed line
    then checked inner
    else (if leb date_length (length line) then checked bare else none)

-- What is staged: the archives by their dates, and what the current log keeps.
pub record Staged : Type 0 where
  pub archives : Dict Text
  pub current : Text

abbrev pub text_at : Text → Dict Text → Text
text_at k m = elim (get k m) [ none ↦ [] | some t ↦ t ]

-- writeArchive and writeCurrent.
unfoldable pub write_archive : Text → Text → Staged → Staged
write_archive date line s = record s {
  archives = put date (text_at date s.archives ++ line) s.archives;
}

unfoldable pub write_current : Text → Staged → Staged
write_current line s = record s { current = s.current ++ line }

abbrev pub is_before : Text → Text → Bool
is_before today date = not (text_le today date)

-- Where a line of the rotating part goes: the active date afterwards, none if the rotation ends.
unfoldable pub next_date : (Text → Bool) → Text → Text → Text → Option Text
unfolding timestamp_date
next_date is_date today active line = elim (timestamp_date is_date line) [
  | none ↦ some active
  | some date ↦
      if same date active then some active else (if is_before today date then some date else none)
]

unfoldable pub stage_rest : List Text → Staged → Staged
unfolding write_current
stage_rest [] s = s
stage_rest (l ∷ ls) s = stage_rest ls (write_current l s)

-- The loop of Rotate, while it rotates.
unfoldable pub stage_lines : (Text → Bool) → Text → Text → List Text → Staged → Staged
unfolding next_date write_archive stage_rest
stage_lines is_date today active [] s = s
stage_lines is_date today active (l ∷ ls) s = elim (next_date is_date today active l) [
  | none ↦ stage_rest (l ∷ ls) s
  | some date ↦ stage_lines is_date today date ls (write_archive date l s)
]

abbrev pub nothing_staged : Staged
nothing_staged = record { archives = []; current = [] }

-- Rotate up to the commit: none if the log is left alone.
unfoldable pub plan_lines : (Text → Bool) → Text → List Text → Option Staged
unfolding stage_lines timestamp_date
plan_lines is_date today [] = none
plan_lines is_date today (first ∷ rest) = elim (timestamp_date is_date first) [
  | none ↦ none
  | some date ↦
      if text_le today date
      then none
      else some (stage_lines is_date today date rest (write_archive date first nothing_staged))
]

unfoldable pub plan : (Text → Bool) → Text → Text → Option Staged
unfolding plan_lines split_lines
plan is_date today content = plan_lines is_date today (split_lines content)

-- The files, by their paths.
abbrev pub Files : Type 0
Files = Dict Text

-- How appending one archive goes: well, with an error before it writes, or after some bytes.
pub data Append : Type 0 where
  appends : Append
  fails_early : Append
  fails_after : ℕ → Append

-- archiveRollback.
pub record Rollback : Type 0 where
  pub path : Text
  pub size : ℕ
  pub existed : Bool

abbrev pub rollback_of : Text → Files → Rollback
rollback_of path files = elim (get path files) [
  | none ↦ record { path = path; size = 0; existed = false }
  | some t ↦ record { path = path; size = length t; existed = true }
]

-- rollbackArchive, given the paths that os.Truncate and os.Remove succeed on: their errors are
-- ignored, and a file that is gone cannot be truncated.
unfoldable pub rollback_archive : (Text → Bool) → Rollback → Files → Files
rollback_archive undoes r files =
    if not (undoes r.path)
    then files
    else (if r.existed
        then elim (get r.path files) [ none ↦ files | some t ↦ put r.path (take r.size t) files ]
        else remove r.path files)

-- rollbackArchives: the last one first. The list has the last one in front.
unfoldable pub rollback_archives : (Text → Bool) → List Rollback → Files → Files
unfolding rollback_archive
rollback_archives undoes [] files = files
rollback_archives undoes (r ∷ rs) files =
    rollback_archives undoes rs (rollback_archive undoes r files)

abbrev pub appended : Text → Text → Files → Files
appended target staged files = put target (text_at target files ++ staged) files

-- appendStage: whether it succeeded, and the files.
unfoldable pub append_stage : (Text → Bool) → Append → Text → Text → Files → Bool × Files
unfolding rollback_archive
append_stage undoes appends target staged files = (true, appended target staged files)
append_stage undoes fails_early target staged files = (false, files)
append_stage undoes (fails_after n) target staged files = (
  false,
  rollback_archive undoes (rollback_of target files) (appended target (take n staged) files),
)

-- How the steps of a commit go: the appends in order, the replacement of the current log, and the
-- paths that can be rolled back.
pub record Faults : Type 0 where
  pub appending : List Append
  pub replaces : Bool
  pub undoes : Text → Bool

abbrev pub first_append : List Append → Append × List Append
first_append [] = (appends, [])
first_append (a ∷ as') = (a, as')

-- The loop of commit over the dates, and what follows it.
unfoldable pub commit_dates :
    Faults → List Append → Text → Staged → List Text → List Rollback → Files → Bool × Files
unfolding append_stage rollback_archives archive_path
commit_dates f script path s [] committed files =
    if f.replaces
    then (true, put path s.current files)
    else (false, rollback_archives f.undoes committed files)
commit_dates f script path s (date ∷ dates) committed files =
    let target = archive_path path date in
    let (a, later) = first_append script in
    let t = append_stage f.undoes a target (text_at date s.archives) files in
    let rest = commit_dates f later path s dates (rollback_of target files ∷ committed) t.1 in
    if t.0 then rest else (false, rollback_archives f.undoes committed t.1)

-- commit: the dates in order.
unfoldable pub commit : Faults → Text → Staged → Files → Bool × Files
unfolding commit_dates
commit f path s files =
    commit_dates f f.appending path s (sort_texts (dict_keys s.archives)) [] files

-- Rotate, given whether the stages could be written.
unfoldable pub rotate_content :
    (Text → Bool) → Text → Bool → Faults → Text → Option Text → Files → Bool × Files
unfolding plan commit
rotate_content is_date today stages f path none files = (true, files)
rotate_content is_date today stages f path (some content) files =
    elim (plan is_date today content) [
      | none ↦ (true, files)
      | some s ↦ if stages then commit f path s files else (false, files)
    ]

unfoldable pub rotate : (Text → Bool) → Text → Bool → Faults → Text → Files → Bool × Files
unfolding rotate_content
rotate is_date today stages f path files =
    rotate_content is_date today stages f path (get path files) files
