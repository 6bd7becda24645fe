-- ===== src/Logfile/Writer.antt =====
-- logfile/writer.go: timestamped lines into the log of the day.
pub mod Bytes
pub mod Reference
pub mod Sound
use pm.Logfile.Escape.{
  Write, fails, Output, Written, Escaped, returned, failed, write, write_escaped_line, newline,
}
use pm.Logfile.Rotation.{Files, Faults, text_at, appended, rotate}
use pm.Prelude.{
  ℕ, zero, suc, ◌+◌, Bool, true, false, not, Option, none, some, List, [], ◌∷◌, ◌++◌, ◌==◌,
  if◌then◌else◌, length, drop, Text, codes, same, is_empty, get, put,
}

-- What the outside world does at one reading of the clock, each field a call that may fail.
pub record Turn : Type 0 where
  pub time : ℕ
  pub makes_dir : Bool
  pub stats : Bool
  pub own_stats : Bool
  pub closes : Bool
  pub stages : Bool
  pub faults : Faults
  pub opens : Bool
  pub inspects : Bool
  pub separates : Bool

-- The turns, the formats of a time, and time.Parse's answer on a date.
pub record Environment : Type 0 where
  pub turn : ℕ → Turn
  pub date : ℕ → Text
  pub stamp : ℕ → Text
  pub is_date : Text → Bool

-- The file of a Writer: none, the one at its path, or one that the path does not name any more, with
-- its content.
pub data Handle : Type 0 where
  no_file on_path : Handle
  detached : Text → Handle

-- The Writer with the files. `script` is how its next raw writes go.
pub record Writer : Type 0 where
  pub path : Text
  pub file : Handle
  pub at_line_start : Bool
  pub active_date : Text
  pub is_closed : Bool
  pub files : Files
  pub ticks : ℕ
  pub script : List Write

pub data WriteError : Type 0 where
  file_closed dir_failed stat_failed own_stat_failed close_failed rotate_failed : WriteError
  open_failed boundary_failed prefix_failed line_failed : WriteError

abbrev pub Step : Type 0
Step = Option WriteError × Writer

abbrev pub then_do : Step → (Writer → Step) → Step
then_do (none, w) f = f w
then_do (some x, w) f = (some x, w)

-- The handle and the files after bytes were written to it.
abbrev pub grow : Text → Handle → Handle
grow t no_file = no_file
grow t on_path = on_path
grow t (detached u) = detached (u ++ t)

abbrev pub grow_files : Handle → Text → Text → Files → Files
grow_files no_file path t files = files
grow_files on_path path t files = appended path t files
grow_files (detached u) path t files = files

abbrev pub append_text : Text → Writer → Writer
append_text t w = record w { file = grow t w.file; files = grow_files w.file w.path t w.files }

-- A raw write goes as the script says, and fails on no file.
abbrev pub line_output : Handle → List Write → Output
line_output no_file script = record { text = []; script = fails 0 ∷ script }
line_output on_path script = record { text = []; script = script }
line_output (detached u) script = record { text = []; script = script }

unfoldable pub ends_line : Text → Bool
ends_line [] = false
ends_line (b ∷ []) = b == newline
ends_line (b ∷ c ∷ s) = ends_line (c ∷ s)

-- openAppendFile.
unfoldable pub open_append_file : Turn → Writer → Step
open_append_file t w =
    if t.opens
    then (none, record w { file = on_path; files = put w.path (text_at w.path w.files) w.files })
    else (some open_failed, record w { file = no_file })

-- ensureAppendBoundary; the caller closes the file if it fails.
unfoldable pub ensure_append_boundary : Turn → Writer → Step
unfolding ends_line
ensure_append_boundary t w =
    let text = text_at w.path w.files in
    let refused : Step = (some boundary_failed, record w { file = no_file }) in
    let kept : Step = (none, w) in
    let separated : Step = (none, append_text (newline ∷ []) w) in
    if is_empty text
    then kept
    else (if not t.inspects
        then refused
        else (if ends_line text then kept else (if t.separates then separated else refused)))

unfoldable pub close_file : Turn → Writer → Step
close_file t w = elim w.file [
  | no_file ↦ (none, w)
  | on_path ↦ if t.closes then (none, record w { file = no_file }) else (some close_failed, w)
  | detached u ↦ if t.closes then (none, record w { file = no_file }) else (some close_failed, w)
]

unfoldable pub rotate_path : Environment → Turn → Writer → Step
unfolding rotate
rotate_path e t w =
    let r = rotate e.is_date (e.date t.time) t.stages t.faults w.path w.files in
    (if r.0 then none else some rotate_failed, record w { files = r.1 })

abbrev pub set_date : Environment → Turn → Writer → Step
set_date e t w = (none, record w { active_date = e.date t.time })

-- reopen.
unfoldable pub reopen : Environment → Turn → Bool → Writer → Step
unfolding close_file rotate_path open_append_file ensure_append_boundary
reopen e t rotates w =
    let rotated =
      then_do (close_file t w) (λ x. if rotates then rotate_path e t x else (none, x)) in
    then_do (then_do (then_do rotated (open_append_file t)) (ensure_append_boundary t))
      (set_date e t)

-- ensureCurrent from the look at the path on.
unfoldable pub check_file : Environment → Turn → Writer → Step
unfolding reopen
check_file e t w =
    let lost = reopen e t false w in
    let own : Step = if t.own_stats then (none, w) else (some own_stat_failed, w) in
    elim (get w.path w.files) [
      | none ↦ lost
      | some text ↦ if not t.stats then (some stat_failed, w) else elim w.file [
        | no_file ↦ (some own_stat_failed, w)
        | on_path ↦ own
        | detached u ↦ if t.own_stats then lost else own
      ]
    ]

-- ensureCurrent.
unfoldable pub ensure_current : Environment → Turn → Writer → Step
unfolding check_file
ensure_current e t w =
    let moved = reopen e t true w in
    let checked = check_file e t w in if same (e.date t.time) w.active_date then checked else moved

unfoldable pub write_prefix : Environment → Turn → Writer → Step
write_prefix e t w =
    let q = write (codes "[" ++ e.stamp t.time ++ codes "] ") (line_output w.file w.script) in
    let after = append_text q.0.text (record w { script = q.0.script }) in
    if q.2 then (some prefix_failed, after) else (none, record after { at_line_start = false })

-- What Write does before the bytes of a line.
unfoldable pub begin_line : Environment → Writer → Step
unfolding ensure_current write_prefix
begin_line e w =
    let t = e.turn w.ticks in
    let started =
      then_do (ensure_current e t (record w { ticks = w.ticks + 1 })) (write_prefix e t) in
    if w.at_line_start then started else (none, w)

abbrev pub after_line : Writer → Written → Writer
after_line w x = append_text x.output.text (record w {
  script = x.output.script;
  at_line_start = if x.complete then true else w.at_line_start;
})

-- How a Write goes: the count, the error and the writer.
abbrev pub Outcome : Type 0
Outcome = ℕ × Option WriteError × Writer

abbrev pub after_bytes : ℕ → Outcome → Outcome
after_bytes n (m, x, w) = (n + m, x, w)

-- The loop of Write, by fuel.
unfoldable pub write_from : Environment → ℕ → Text → Writer → Outcome
unfolding begin_line write_escaped_line
write_from e zero p w = (0, none, w)
write_from e (suc n) [] w = (0, none, w)
write_from e (suc n) (b ∷ s) w =
    let begun = begin_line e w in
    elim begun.0 [
      | some x ↦ (0, some x, begun.1)
      | none ↦ elim (write_escaped_line (b ∷ s) (line_output begun.1.file begun.1.script)) [
        | failed x ↦ (x.count, some line_failed, after_line begun.1 x)
        | returned x ↦
            after_bytes x.count (write_from e n (drop x.count (b ∷ s)) (after_line begun.1 x))
      ]
    ]

-- Write; every round of the loop consumes a byte or stops.
unfoldable pub write_log : Environment → Text → Writer → Outcome
unfolding write_from
write_log e p w =
    let written = write_from e (length p) p w in
    if w.is_closed then (0, some file_closed, w) else written

-- Close.
unfoldable pub close_log : Turn → Writer → Step
unfolding close_file
close_log t w =
    let closed = record w { is_closed = true } in
    let outcome = close_file t closed in
    if w.is_closed then (none, w) else (outcome.0, record (outcome.1) { file = no_file })

-- openWithClock.
unfoldable pub open_log : Environment → Text → Files → ℕ → List Write → Step
unfolding rotate_path open_append_file ensure_append_boundary
open_log e path files ticks script =
    let t = e.turn ticks in
    let w : Writer = record {
      path = path;
      file = no_file;
      at_line_start = true;
      active_date = [];
      is_closed = false;
      files = files;
      ticks = ticks + 1;
      script = script;
    } in
    let opened =
      then_do
        (then_do (then_do (rotate_path e t w) (open_append_file t)) (ensure_append_boundary t))
        (set_date e t) in
    if t.makes_dir then opened else (some dir_failed, w)
