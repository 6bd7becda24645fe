-- ===== src/Logfile/Follow.antt =====
-- logfile/follow.go and entry.go: the lines that are appended to followed logs.
pub mod Lines
pub mod Appends
pub mod Delivery
use pm.Prelude.{
  ℕ, zero, suc, ◌+◌, ◌-◌, ◌*◌, ◌/◌, ◌%◌, ◌≤◌, ◌<◌, ◌≡◌, refl, sym, ap, ◌∙◌, subst, ◌≢◌, ◌↔◌, ◌⊎◌,
  inl, inr, Bool, true, false, not, ◌&&◌, ◌||◌, Option, none, some, List, [], ◌∷◌, ◌++◌, map, arith,
  ltb, leb, ◌==◌, if◌then◌else◌, ltb→lt, lt→ltb, leb→le, le→leb, ==_iff, tests, Bool-cases,
  Option-cases, or-cases, and-parts, length, take, drop, length-append, take-append-drop, All,
  All-append, All-mono, Text, codes, same, same_eq, same_refl, same_iff, is_empty, text_le,
  contains, insert_text, sort_texts, contains-sort_texts, contains-append, join, Dict, dict_keys,
  get, put, remove, get-put, get-remove, put-put, remove-put, length-put, length-remove,
  get-put_self, contains-dict_keys, get_of_contains, Result, ok, err, ◌>>=◌, ◌>>◌, Result-cases, ℤ,
  pos, negsuc, is_negative, is_zero, is_positive,
}

pub data Stream : Type 0 where
  stdout stderr : Stream

-- Source and Entry, with times as numbers.
pub record Source : Type 0 where
  pub app_name : Text
  pub path : Text
  pub stream : Stream

pub record Entry : Type 0 where
  pub time : ℕ
  pub app_name : Text
  pub stream : Stream
  pub message : Text

-- The length of a timestamp, and of one with its brackets and the space after them.
abbrev pub timestamp_length : ℕ
timestamp_length = 19

abbrev pub prefix_length : ℕ
prefix_length = 22

-- strings.TrimSuffix(s, "\r").
unfoldable pub trim_return : Text → Text
trim_return [] = []
trim_return (b ∷ []) = if b == 13 then [] else b ∷ []
trim_return (b ∷ c ∷ s) = b ∷ trim_return (c ∷ s)

abbrev pub opens_bracket : Text → Bool
opens_bracket [] = false
opens_bracket (b ∷ s) = b == b'['

-- newEntry, with time.ParseInLocation's answer on a timestamp.
unfoldable pub new_entry : (Text → Option ℕ) → Source → Text → ℕ → Entry
unfolding trim_return
new_entry parse_time source line observed_at =
    let entry : Entry = record {
      time = observed_at;
      app_name = source.app_name;
      stream = source.stream;
      message = line;
    } in
    let parsed : Entry = elim (parse_time (take timestamp_length (drop 1 line))) [
      | none ↦ entry
      | some t ↦ record entry { time = t; message = trim_return (drop prefix_length line) }
    ] in
    if ltb (length line) prefix_length
      || (not (opens_bracket line) || not (same (take 2 (drop 20 line)) (codes "] ")))
    then entry
    else parsed

-- followState: of a FileInfo, the file that it is of.
pub record FollowState : Type 0 where
  pub source : Source
  pub info : Option ℕ
  pub offset : ℕ
  pub pending : Text

-- What os.Stat finds: nothing, an error, or a file, its size, and what reading a section of it gives.
pub data Seen : Type 0 where
  gone stat_error : Seen
  seen : (file size : ℕ) → (ℕ → ℕ → Option Text) → Seen

-- The initial state of follow: the end of a file that exists, and the start of one that does not.
unfoldable pub initial_state : Source → Seen → FollowState
initial_state source (seen file size read) = record {
  source = source;
  info = some file;
  offset = size;
  pending = [];
}
initial_state source gone = record { source = source; info = none; offset = 0; pending = [] }
initial_state source stat_error = record { source = source; info = none; offset = 0; pending = [] }

-- The loop of completeEntries: the complete lines, and what is left.
unfoldable pub scan_complete : Text → Text → List Text × Text
scan_complete line [] = ([], line)
scan_complete line (b ∷ s) =
    let ended = scan_complete [] s in
    let extended = scan_complete (line ++ b ∷ []) s in
    if b == 10 then (line ∷ ended.0, ended.1) else extended

abbrev pub entries_of : (Text → Option ℕ) → Source → ℕ → List Text → List Entry
entries_of parse_time source observed_at [] = []
entries_of parse_time source observed_at (l ∷ ls) =
    new_entry parse_time source l observed_at ∷ entries_of parse_time source observed_at ls

unfoldable pub complete_entries :
    (Text → Option ℕ) → FollowState → Text → ℕ → List Entry × FollowState
unfolding scan_complete
complete_entries parse_time st bytes observed_at =
    let t = scan_complete [] (st.pending ++ bytes) in
    (entries_of parse_time st.source observed_at t.0, record st { pending = t.1 })

-- Whether the state is of this file.
abbrev pub is_of : ℕ → Option ℕ → Bool
is_of file none = false
is_of file (some f) = f == file

-- A poll fails on a stat, an open or a read.
pub data PollError : Type 0 where
  stat_failed read_failed : PollError

abbrev pub Polled : Type 0
Polled = Result PollError (List Entry) × FollowState

abbrev pub restarted : ℕ → ℕ → FollowState → FollowState
restarted file size st =
    if not (is_of file st.info) || ltb size st.offset
    then record st { info = some file; offset = 0; pending = [] }
    else record st { info = some file }

-- pollFollowState from the read on.
unfoldable pub read_state : (Text → Option ℕ) → Option Text → ℕ → FollowState → Polled
unfolding complete_entries
read_state parse_time none observed_at st = (err read_failed, st)
read_state parse_time (some bytes) observed_at st =
    let t =
      complete_entries parse_time (record st { offset = st.offset + length bytes }) bytes
        observed_at in
    (ok t.0, t.1)

-- pollFollowState.
unfoldable pub poll_state : (Text → Option ℕ) → Seen → ℕ → FollowState → Polled
unfolding read_state
poll_state parse_time gone observed_at st =
    (ok [], record st { info = none; offset = 0; pending = [] })
poll_state parse_time stat_error observed_at st = (err stat_failed, st)
poll_state parse_time (seen file size read) observed_at st =
    let s = restarted file size st in
    let rest = read_state parse_time (read s.offset (size - s.offset)) observed_at s in
    if size == s.offset then (ok [], s) else rest

abbrev pub polled_entries : Result PollError (List Entry) → List Entry
polled_entries (ok es) = es
polled_entries (err e) = []

-- One tick of follow: every source is polled, and one that fails does not stop the others.
unfoldable pub poll_round :
    (Text → Option ℕ) → List (Seen × ℕ) → List FollowState → List Entry × List FollowState
unfolding poll_state
poll_round parse_time [] sts = ([], sts)
poll_round parse_time (v ∷ vs) [] = ([], [])
poll_round parse_time (v ∷ vs) (st ∷ sts) =
    let p = poll_state parse_time v.0 v.1 st in
    let rest = poll_round parse_time vs sts in (polled_entries p.0 ++ rest.0, p.1 ∷ rest.1)
