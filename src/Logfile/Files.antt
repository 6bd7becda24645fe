-- ===== src/Logfile/Files.antt =====
-- logfile/files.go: the logs of each task, current and archived.
pub mod Names
use pm.Paths.{stem, ext, dot}
use pm.Logfile.Rotation.{date_length}
use pm.Prelude.{
  ℕ, ◌+◌, ◌-◌, Bool, true, false, not, ◌&&◌, Option, none, some, List, [], ◌∷◌, ◌++◌, leb, ◌==◌,
  if◌then◌else◌, length, take, drop, Text, same, is_empty, text_le, sort_texts, Dict, dict_keys,
  get, put,
}

-- FileInfo and TaskLogs, with times as numbers.
pub record FileInfo : Type 0 where
  pub path : Text
  pub name : Text
  pub size : ℕ
  pub mod_time : ℕ
  pub is_current : Bool

pub record TaskLogs : Type 0 where
  pub task : Text
  pub files : List FileInfo

unfoldable pub sum_sizes : List FileInfo → ℕ
sum_sizes [] = 0
sum_sizes (f ∷ fs) = f.size + sum_sizes fs

-- TotalSize.
unfoldable pub total_size : TaskLogs → ℕ
unfolding sum_sizes
total_size t = sum_sizes t.files

abbrev pub starts_with_dot : Text → Bool
starts_with_dot [] = false
starts_with_dot (b ∷ s) = b == dot

-- trailingDate, with time.Parse's answer on a date; the empty text is none.
unfoldable pub trailing_date : (Text → Bool) → Text → Text
trailing_date is_date s =
    let candidate = drop (length s - date_length) s in
    let dated = starts_with_dot (drop (length s - date_length - 1) s) && is_date candidate in
    if leb (length s) date_length then [] else (if dated then candidate else [])

-- archiveDate.
unfoldable pub archive_date : (Text → Bool) → Text → Text
unfolding trailing_date
archive_date is_date name =
    let date = trailing_date is_date (stem name) in
    let last = trailing_date is_date name in if is_empty date then last else date

-- taskStem.
unfoldable pub task_stem : (Text → Bool) → Text → Text
unfolding trailing_date
task_stem is_date name =
    let s = stem name in
    let date = trailing_date is_date s in
    if is_empty date then s else take (length s - length date - 1) s

-- A directory entry: its name, whether it is a directory, and the size and time of its Info.
pub record DirEntry : Type 0 where
  pub name : Text
  pub is_dir : Bool
  pub info : Option (ℕ × ℕ)

abbrev pub file_info : (Text → Bool) → (Text → Text) → Text → ℕ × ℕ → FileInfo
file_info is_date path_of name i = record {
  path = path_of name;
  name = name;
  size = i.0;
  mod_time = i.1;
  is_current = is_empty (archive_date is_date name);
}

-- listEntries, with filepath.Join of the directory.
unfoldable pub list_entries : (Text → Bool) → (Text → Text) → List DirEntry → List FileInfo
unfolding archive_date
list_entries is_date path_of [] = []
list_entries is_date path_of (e ∷ es) =
    let rest = list_entries is_date path_of es in
    if e.is_dir
    then rest
    else elim e.info [ none ↦ rest | some i ↦ file_info is_date path_of e.name i ∷ rest ]

-- The order of sortFiles: the current files, then the newest archives, then by name.
unfoldable pub comes_before : (Text → Bool) → FileInfo → FileInfo → Bool
unfolding archive_date
comes_before is_date l r =
    let a = archive_date is_date l.name in
    let b = archive_date is_date r.name in
    let by_name = not (text_le r.name l.name) in
    let by_date = not (text_le a b) in
    if l.is_current
    then (if r.is_current then (if same a b then by_name else by_date) else true)
    else (if r.is_current then false else (if same a b then by_name else by_date))

unfoldable pub insert_file : (Text → Bool) → FileInfo → List FileInfo → List FileInfo
unfolding comes_before
insert_file is_date f [] = f ∷ []
insert_file is_date f (g ∷ gs) =
    let later = insert_file is_date f gs in
    if comes_before is_date g f then g ∷ later else f ∷ g ∷ gs

-- sortFiles; names in one directory differ, so that the order is total.
unfoldable pub sort_files : (Text → Bool) → List FileInfo → List FileInfo
unfolding insert_file
sort_files is_date [] = []
sort_files is_date (f ∷ fs) = insert_file is_date f (sort_files is_date fs)

abbrev pub files_at : Text → Dict (List FileInfo) → List FileInfo
files_at k m = elim (get k m) [ none ↦ [] | some fs ↦ fs ]

unfoldable pub group_files :
    (Text → Bool) → List FileInfo → Dict (List FileInfo) → Dict (List FileInfo)
unfolding task_stem
group_files is_date [] m = m
group_files is_date (f ∷ fs) m =
    let task = task_stem is_date f.name in
    group_files is_date fs (put task (files_at task m ++ f ∷ []) m)

unfoldable pub tasks_of : (Text → Bool) → Dict (List FileInfo) → List Text → List TaskLogs
unfolding sort_files
tasks_of is_date m [] = []
tasks_of is_date m (k ∷ ks) =
    record { task = k; files = sort_files is_date (files_at k m) } ∷ tasks_of is_date m ks

-- What os.ReadDir gives.
pub data Directory : Type 0 where
  missing unreadable : Directory
  holds : List DirEntry → Directory

-- ListTasks: none for an error.
unfoldable pub list_tasks : (Text → Bool) → (Text → Text) → Directory → Option (List TaskLogs)
unfolding group_files tasks_of list_entries
list_tasks is_date path_of missing = some []
list_tasks is_date path_of unreadable = none
list_tasks is_date path_of (holds es) =
    let grouped = group_files is_date (list_entries is_date path_of es) [] in
    some (tasks_of is_date grouped (sort_texts (dict_keys grouped)))
