-- ===== src/Logfile/Writer/Sound.antt =====
-- Write, while the file system works: the log is the timestamped lines, in the file of the day.
use pm.Logfile.Escape.{write_as, write_to, write, newline}
use pm.Logfile.Rotation.{
  Files, Faults, Staged, text_at, append_stage, Rollback, commit, commit_dates, plan, rotate,
  rotate_content,
}
use pm.Logfile.Writer.{
  write_log, after_bytes, ensure_current, begin_line, write_prefix, Turn, Environment, no_file,
  on_path, Writer, Step, append_text, ends_line, open_append_file, ensure_append_boundary,
  close_file, rotate_path, reopen, check_file, then_do, set_date,
}
use pm.Logfile.Writer.Bytes.{begin_line-started, begin_line-begun, put_byte, feed, is_open, IsLive}
use pm.Logfile.Escape.Laws.{escape_byte}
use pm.Logfile.Writer.Reference.{write_log-feed}
use pm.Prelude.{
  ℕ, suc, ◌+◌, ◌≡◌, refl, sym, ap, ◌∙◌, inl, inr, Bool, true, false, ◌||◌, none, some, List, [],
  ◌∷◌, ◌++◌, arith, if◌then◌else◌, Bool-cases, Option-cases, length, Text, codes, same, is_empty,
  sort_texts, dict_keys, get, put, put-put, get-put_self,
}

-- A turn of the clock in which every call succeeds.
pub record IsSound (t : Turn) : Type 0 where
  pub stats_ok : t.stats ≡ true
  pub own_stats_ok : t.own_stats ≡ true
  pub closes_ok : t.closes ≡ true
  pub stages_ok : t.stages ≡ true
  pub appends_ok : t.faults.appending ≡ []
  pub replaces_ok : t.faults.replaces ≡ true
  pub opens_ok : t.opens ≡ true
  pub inspects_ok : t.inspects ≡ true
  pub separates_ok : t.separates ≡ true

-- A content that the next line can follow.
abbrev pub closed_text : Text → Text
closed_text t = if is_empty t || ends_line t then t else t ++ newline ∷ []

-- The files at the start of a new day: rotated, with the log there and its last line ended.
abbrev pub day_files : Environment → Turn → Text → Files → Files
day_files e t path files =
    let rotated = (rotate e.is_date (e.date t.time) t.stages t.faults path files).1 in
    put path (closed_text (text_at path rotated)) rotated

-- A writer at the start of a line: the first line of a day rotates, and each line gets its time.
abbrev pub turned : Environment → Turn → Writer → Writer
turned e t w =
    if same (e.date t.time) w.active_date
    then w
    else record w { active_date = e.date t.time; files = day_files e t w.path w.files }

abbrev pub stamped : Environment → Turn → Writer → Writer
stamped e t w =
    append_text (codes "[" ++ e.stamp t.time ++ codes "] ") (record w { at_line_start = false })

abbrev pub line_begun : Environment → Writer → Writer
line_begun e w =
    let t = e.turn w.ticks in
    if w.at_line_start then stamped e t (turned e t (record w { ticks = w.ticks + 1 })) else w

-- The log after a text, byte by byte.
abbrev pub log_each : Environment → Text → Writer → Writer
log_each e [] w = w
log_each e (b ∷ s) w = log_each e s (put_byte b (line_begun e w))

commit_dates-succeeds :
    (f : Faults) (path : Text) (s : Staged) (dates : List Text) (committed : List Rollback)
    (files : Files)
    → f.replaces ≡ true
    → (commit_dates f [] path s dates committed files).0 ≡ true
unfolding commit_dates append_stage
commit_dates-succeeds f path s [] committed files h = rw h refl
commit_dates-succeeds f path s (d ∷ dates) committed files h =
    commit_dates-succeeds f path s dates _ _ h

rotate_succeeds :
    (is_date : Text → Bool) (today : Text) (stages : Bool) (f : Faults) (path : Text)
    (files : Files)
    → stages ≡ true
    → f.appending ≡ []
    → f.replaces ≡ true
    → (rotate is_date today stages f path files).0 ≡ true
unfolding rotate rotate_content commit
rotate_succeeds is_date today stages f path files g a r = elim (Option-cases (get path files)) [
  | inl n ↦ rw (n, rotate_content) refl
  | inr (content, n) ↦ elim (Option-cases (plan is_date today content)) [
    | inl p ↦ rw (n, rotate_content) (rw p refl)
    | inr (s, p) ↦
        rw (n, rotate_content)
          (rw p (
            rw g (
              ap (λ l. (commit_dates f l path s (sort_texts (dict_keys s.archives)) [] files).0) a
              ∙ commit_dates-succeeds f path s (sort_texts (dict_keys s.archives)) [] files r)))
  ]
]

-- A writer whose file is the one at its path, with raw writes that succeed.
abbrev placed : Writer → Writer
placed w = record w { file = on_path; script = [] }

module _ (e : Environment) (t : Turn) (s : IsSound t) where
  check_file-placed :
      (w : Writer) (text : Text)
      → get w.path w.files ≡ some text
      → check_file e t (placed w) ≡ (none, placed w)
  unfolding check_file
  check_file-placed w text g = rw (g, check_file) (rw (s.stats_ok, s.own_stats_ok) refl)

  rotate_path_sound :
      (w : Writer)
      → rotate_path e t w ≡ (
        none,
        record w { files = (rotate e.is_date (e.date t.time) t.stages t.faults w.path w.files).1 },
      )
  unfolding rotate_path
  rotate_path_sound w =
      rw
        (rotate_succeeds e.is_date (e.date t.time) t.stages t.faults w.path w.files s.stages_ok
          s.appends_ok s.replaces_ok)
        refl

  boundary_sound :
      (w : Writer) (text : Text) (m : Files)
      → ensure_append_boundary t (record w { file = on_path; files = put w.path text m })
        ≡ (none, record w { file = on_path; files = put w.path (closed_text text) m })
  unfolding ensure_append_boundary
  boundary_sound w text m =
      let read : text_at w.path (put w.path text m) ≡ text =
        rw (get-put_self w.path text m, text_at) refl in
      elim (Bool-cases (is_empty text)) [
        | inl x ↦ rw (read, x) refl
        | inr x ↦ elim (Bool-cases (ends_line text)) [
          | inl y ↦ rw (read, x, s.inspects_ok, y) refl
          | inr y ↦
              rw (read, x, s.inspects_ok, y, s.separates_ok)
                (ap (λ f. (none, record w { file = on_path; files = f }))
                  (put-put w.path text (text ++ newline ∷ []) m))
        ]
      ]

  reopen_sound :
      (w : Writer)
      → reopen e t true (placed w) ≡ (
        none,
        record (placed w) { active_date = e.date t.time; files = day_files e t w.path w.files },
      )
  unfolding reopen close_file open_append_file
  reopen_sound w =
      let r = (rotate e.is_date (e.date t.time) t.stages t.faults w.path w.files).1 in
      let shut = record (placed w) { file = no_file } in
      rw (s.closes_ok) (
        ap
          (λ x.
            then_do (then_do (then_do x (open_append_file t)) (ensure_append_boundary t))
              (set_date e t))
          (rotate_path_sound shut)
        ∙ rw (s.opens_ok)
            (ap (λ x. then_do x (set_date e t)) (boundary_sound (placed w) (text_at w.path r) r)))

  ensure_current_sound :
      (w : Writer) (text : Text)
      → get w.path w.files ≡ some text
      → ensure_current e t (placed w) ≡ (none, turned e t (placed w))
  unfolding ensure_current
  ensure_current_sound w text g = elim (Bool-cases (same (e.date t.time) w.active_date)) [
    | inl d ↦ rw (d, turned) (check_file-placed w text g)
    | inr d ↦ rw (d, turned) (reopen_sound w)
  ]

  write_prefix_sound : (w : Writer) → write_prefix e t (placed w) ≡ (none, stamped e t (placed w))
  unfolding write_prefix write write_to write_as
  write_prefix_sound w = refl

  turned-placed : (w : Writer) → turned e t (placed w) ≡ placed (turned e t (placed w))
  turned-placed w = elim (Bool-cases (same (e.date t.time) w.active_date)) [
    | inl d ↦ rw (d, turned) refl
    | inr d ↦ rw (d, turned) refl
  ]

module _ (e : Environment) (sound : (n : ℕ) → IsSound (e.turn n)) where
  begin_line-line_begun :
      (w : Writer) (text : Text)
      → get w.path w.files ≡ some text
      → begin_line e (placed w) ≡ (none, line_begun e (placed w))
  begin_line-line_begun w text g = elim (Bool-cases w.at_line_start) [
    | inr b ↦ begin_line-begun e (placed w) b ∙ rw (b, line_begun) refl
    | inl b ↦
        let t = e.turn w.ticks in
        let v = record w { ticks = w.ticks + 1 } in
        begin_line-started e (placed w) b
        ∙ (ap (λ x. then_do x (write_prefix e t))
              (ensure_current_sound e t (sound w.ticks) v text g)
            ∙ (ap (write_prefix e t) (turned-placed e t (sound w.ticks) v)
                ∙ (write_prefix_sound e t (sound w.ticks) (turned e t (placed v))
                    ∙ (ap (λ x. (none, stamped e t x)) (sym (turned-placed e t (sound w.ticks) v))
                        ∙ rw (b, line_begun) refl))))
  ]

  line_begun-placed : (w : Writer) → line_begun e (placed w) ≡ placed (line_begun e (placed w))
  line_begun-placed w = elim (Bool-cases w.at_line_start) [
    | inr b ↦ rw (b, line_begun) refl
    | inl b ↦
        let t = e.turn w.ticks in
        rw (b, line_begun)
          (elim (Bool-cases (same (e.date t.time) w.active_date)) [
            | inl d ↦ rw (d, turned) refl
            | inr d ↦ rw (d, turned) refl
          ])
  ]

  counted_one : (k : ℕ) (v : Writer) → after_bytes 1 (k, none, v) ≡ (suc k, none, v)
  counted_one k v = ap (λ i. (i, none, v)) (omega arith)

  -- What is left of a text after the byte of a begun line.
  feed_next :
      (b : ℕ) (s : Text) (v : Writer)
      → ((w : Writer) (text : Text)
          → get w.path w.files ≡ some text
          → feed e s (placed w) ≡ (length s, none, log_each e s (placed w)))
      → feed e s (put_byte b (placed v)) ≡ (length s, none, log_each e s (put_byte b (placed v)))
  feed_next b s v ih =
      ih (put_byte b (placed v)) _
        (get-put_self v.path (text_at v.path v.files ++ escape_byte b) v.files)

  feed-log_each :
      (p : Text) (w : Writer) (text : Text)
      → get w.path w.files ≡ some text
      → feed e p (placed w) ≡ (length p, none, log_each e p (placed w))
  unfolding feed
  feed-log_each [] w text g = refl
  feed-log_each (b ∷ s) w text g =
      let v = line_begun e (placed w) in
      ap
        (λ (x : Step). elim x.0 [
          | some y ↦ (0, some y, x.1)
          | none ↦ after_bytes 1 (feed e s (put_byte b x.1))
        ])
        (begin_line-line_begun w text g)
      ∙ (ap (λ x. after_bytes 1 (feed e s (put_byte b x))) (line_begun-placed w)
          ∙ (ap (after_bytes 1) (feed_next b s v (feed-log_each s))
              ∙ (counted_one (length s) (log_each e s (put_byte b (placed v)))
                  ∙ ap (λ x. (suc (length s), none, log_each e s (put_byte b x)))
                      (sym (line_begun-placed w)))))

as_placed : (w : Writer) → w.file ≡ on_path → w.script ≡ [] → w ≡ placed w
as_placed w f s =
    ap (λ x. record w { file = x }) f ∙ ap (λ x. record w { file = on_path; script = x }) s

-- While every call succeeds, Write takes its whole input without an error, and the log grows byte by
-- byte: each byte is escaped; the first byte of a line has the time of that moment in brackets before
-- it; and before the first line of another day the log is rotated, is there again, and has its last
-- line ended. The log exists and is the writer's file.
pub write_log-log_each :
    (e : Environment) (p : Text) (w : Writer) (text : Text)
    → ((n : ℕ) → IsSound (e.turn n))
    → w.is_closed ≡ false
    → w.file ≡ on_path
    → w.script ≡ []
    → get w.path w.files ≡ some text
    → write_log e p w ≡ (length p, none, log_each e p w)
write_log-log_each e p w text sound c f s g =
    let live : IsLive w = record { sound = s; opened = λ h. ap is_open f } in
    write_log-feed e p w c live
    ∙ (ap (feed e p) (as_placed w f s)
        ∙ (feed-log_each e sound p w text g
            ∙ ap (λ x. (length p, none, log_each e p x)) (sym (as_placed w f s))))
