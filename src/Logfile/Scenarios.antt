-- ===== src/Logfile/Scenarios.antt =====
-- A writer over midnight, one that lost its file, and the names of archives.
use pm.Logfile.Rotation.{archive_path}
use pm.Paths.{stem, ext}
use pm.Logfile.Files.{FileInfo, TaskLogs, Directory, holds, archive_date, task_stem, list_tasks}
use pm.Logfile.Files.Names.{archive_path-read}
use pm.Logfile.Writer.{
  Turn, Environment, Writer, Handle, on_path, detached, write_log, own_stat_failed, open_failed,
  begin_line, WriteError, Outcome,
}
use pm.Logfile.Writer.Sound.{IsSound, log_each, write_log-log_each}
use pm.Logfile.Examples.{dated, june, log, log_files}
use pm.Prelude.{
  ℕ, ◌≡◌, refl, true, false, not, Option, none, some, List, [], ◌∷◌, ◌++◌, ◌==◌, if◌then◌else◌,
  length, Text, codes, same, sort_texts, get, put,
}

abbrev turn_at : ℕ → Turn
turn_at t = record {
  time = t;
  makes_dir = true;
  stats = true;
  own_stats = true;
  closes = true;
  stages = true;
  faults = record { appending = []; replaces = true; undoes = λ p. true };
  opens = true;
  inspects = true;
  separates = true;
}

-- Midnight is between the first and the second turn.
abbrev midnight : Environment
midnight = record {
  turn = turn_at;
  date = λ t. if t == 0 then codes "2026-05-31" else june;
  stamp = λ t. codes "2026-06-01 00:00:00";
  is_date = dated;
}

abbrev writer : Handle → Writer
writer h = record {
  path = codes "/l/web.log";
  file = h;
  at_line_start = true;
  active_date = codes "2026-05-31";
  is_closed = false;
  files = log_files;
  ticks = 0;
  script = [];
}

abbrev two_lines : Text
two_lines = codes "one" ++ 10 ∷ codes "two"

midnight-IsSound : (n : ℕ) → IsSound (midnight.turn n)
midnight-IsSound n = record {
  stats_ok = refl;
  own_stats_ok = refl;
  closes_ok = refl;
  stages_ok = refl;
  appends_ok = refl;
  replaces_ok = refl;
  opens_ok = refl;
  inspects_ok = refl;
  separates_ok = refl;
}

write_log-log_each_example :
    write_log midnight two_lines (writer on_path)
    ≡ (length two_lines, none, log_each midnight two_lines (writer on_path))
unfolding get same
write_log-log_each_example =
    write_log-log_each midnight two_lines (writer on_path) log midnight-IsSound refl refl refl refl

-- Another file took the path, and opening it fails once: no later write of that day succeeds.
abbrev exhausted : Environment
exhausted = record midnight {
  turn = λ t. record (turn_at t) { opens = not (t == 0) };
  date = λ t. codes "2026-05-31";
}

abbrev error_of : Outcome → Option WriteError
error_of (n, x, w) = x

abbrev writer_of : Outcome → Writer
writer_of (n, x, w) = w

lost_file_is_not_reopened :
    let first = write_log exhausted two_lines (writer (detached [])) in
    (error_of first ≡ some open_failed)
    × (error_of (write_log exhausted two_lines (writer_of first)) ≡ some own_stat_failed)
unfolding write_log begin_line same get
lost_file_is_not_reopened = (refl, refl)

archive_path-read_example :
    (archive_date dated (archive_path (codes "web.log") june) ≡ june)
    × (task_stem dated (archive_path (codes "web.log") june) ≡ stem (codes "web.log"))
unfolding ext same
archive_path-read_example = archive_path-read dated (codes "web.log") june refl refl refl

-- A current file, an archive of the same task, and a directory.
abbrev listed : Directory
listed = holds (
    record { name = codes "web.2026-06-01.log"; is_dir = false; info = some (3, 1) }
    ∷ record { name = codes "old"; is_dir = true; info = none }
    ∷ record { name = codes "web.log"; is_dir = false; info = some (5, 2) }
    ∷ [])

abbrev names_of : List FileInfo → List Text
names_of [] = []
names_of (f ∷ fs) = f.name ∷ names_of fs

abbrev task_names : Option (List TaskLogs) → List (Text × List Text)
task_names none = []
task_names (some []) = []
task_names (some (t ∷ ts)) = (t.task, names_of t.files) ∷ task_names (some ts)

listed-tasks :
    task_names (list_tasks dated (λ n. n) listed)
    ≡ (codes "web", codes "web.log" ∷ codes "web.2026-06-01.log" ∷ []) ∷ []
unfolding list_tasks stem ext same get put sort_texts
listed-tasks = refl
