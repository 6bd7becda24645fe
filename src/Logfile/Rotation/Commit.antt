-- ===== src/Logfile/Rotation/Commit.antt =====
-- rotation.go: Rotate is all or nothing, but for files that cannot be rolled back.
use pm.Logfile.Rotation.{
  Staged, text_at, Files, Append, appends, fails_early, fails_after, Rollback, rollback_of,
  rollback_archive, rollback_archives, appended, append_stage, Faults, first_append, commit_dates,
  commit, plan, rotate_content, rotate, archive_path,
}
use pm.Logfile.Rotation.Undoing.{
  Same, IsKept, appended-IsKept, rollback_archives-Same, rollback_appended, rollback_archives_stuck,
}
use pm.Prelude.{
  ◌≡◌, refl, ◌∙◌, inl, inr, Bool, true, false, Option, none, some, List, [], ◌∷◌, arith, Bool-cases,
  Option-cases, take, Text, sort_texts, dict_keys, get, put,
}

module _ (undoes : Text → Bool) where
  -- What the files of a failed rotation are: as before where a path can be rolled back, and with
  -- something behind what they held at most where it cannot.
  abbrev pub Undone : Files → Files → Type 0
  Undone after before =
      Same undoes after before × ((p : Text) → undoes p ≡ false → IsKept p after before)

  -- The files in the middle of a commit: rolling back gives the former ones, and so on.
  abbrev Pending : List Rollback → Files → Files → Type 0
  Pending committed files before =
      Same undoes (rollback_archives undoes committed files) before
      × ((p : Text) → undoes p ≡ false → IsKept p files before)

  get-IsKept :
      (p : Text) (after files before : Files)
      → get p after ≡ get p files
      → IsKept p files before
      → IsKept p after before
  get-IsKept p after files before q (inl e) = inl (q ∙ e)
  get-IsKept p after files before q (inr (x, e)) = inr (x, q ∙ e)

  Pending-Undone :
      (committed : List Rollback) (files before : Files)
      → Pending committed files before
      → Undone (rollback_archives undoes committed files) before
  Pending-Undone committed files before h = (
    h.0,
    λ p u.
        get-IsKept p (rollback_archives undoes committed files) files before
          (rollback_archives_stuck undoes p committed files u) (h.1 p u),
  )

  -- An append that fails is undone where it can be; one that succeeds is pending.
  append_stage_fails :
      (a : Append) (target staged : Text) (committed : List Rollback) (files before : Files)
      → (append_stage undoes a target staged files).0 ≡ false
      → Pending committed files before
      → Pending committed (append_stage undoes a target staged files).1 before
  unfolding append_stage rollback_archives
  append_stage_fails appends target staged committed files before h k = absurd (ground (arith, h))
  append_stage_fails fails_early target staged committed files before h k = k
  append_stage_fails (fails_after n) target staged committed files before h k =
      let next = appended target (take n staged) files in
      let r = rollback_of target files in
      (
        λ p v.
            rollback_archives-Same undoes committed (rollback_archive undoes r next) files
              (rollback_appended undoes target (take n staged) files) p v
            ∙ k.0 p v,
        λ p u.
            get-IsKept p (rollback_archive undoes r next) next before
              (rollback_archives_stuck undoes p (r ∷ []) next u)
              (appended-IsKept p target (take n staged) files before (k.1 p u)),
      )

  append_stage_succeeds :
      (a : Append) (target staged : Text) (files : Files)
      → (append_stage undoes a target staged files).0 ≡ true
      → (append_stage undoes a target staged files).1 ≡ appended target staged files
  unfolding append_stage
  append_stage_succeeds appends target staged files h = refl
  append_stage_succeeds fails_early target staged files h = absurd (ground (arith, h))
  append_stage_succeeds (fails_after n) target staged files h = absurd (ground (arith, h))

  appended-Pending :
      (target staged : Text) (committed : List Rollback) (files before : Files)
      → Pending committed files before
      → Pending (rollback_of target files ∷ committed) (appended target staged files) before
  unfolding rollback_archives
  appended-Pending target staged committed files before k = (
    λ p v.
        rollback_archives-Same undoes committed _ files
          (rollback_appended undoes target staged files) p v
        ∙ k.0 p v,
    λ p u. appended-IsKept p target staged files before (k.1 p u),
  )

-- The files with every archive appended and the current log replaced.
unfoldable pub replaced : Text → Staged → List Text → Files → Files
unfolding archive_path
replaced path s [] files = put path s.current files
replaced path s (date ∷ dates) files =
    replaced path s dates (appended (archive_path path date) (text_at date s.archives) files)

-- The rest of a commit.
data Finishes (undoes : Text → Bool) (path : Text) (s : Staged) (dates : List Text)
    (files before : Files) : Bool × Files → Type 0 where
  finished : Finishes undoes path s dates files before (true, replaced path s dates files)
  rolled_back :
      {after : Files}
      → Undone undoes after before
      → Finishes undoes path s dates files before (false, after)

commit_dates-Finishes :
    (f : Faults) (script : List Append) (path : Text) (s : Staged) (dates : List Text)
    (committed : List Rollback) (files before : Files)
    → Pending f.undoes committed files before
    → Finishes f.undoes path s dates files before
        (commit_dates f script path s dates committed files)
unfolding commit_dates replaced
commit_dates-Finishes f script path s [] committed files before h = elim (Bool-cases f.replaces) [
  | inl r ↦ rw r finished
  | inr r ↦ rw r (rolled_back (Pending-Undone f.undoes committed files before h))
]
commit_dates-Finishes f script path s (date ∷ dates) committed files before h =
    let target = archive_path path date in
    let staged = text_at date s.archives in
    let (a, later) = first_append script in
    let t = append_stage f.undoes a target staged files in
    elim (Bool-cases t.0) [
      | inr b ↦ rw b (
          rolled_back (
            Pending-Undone f.undoes committed t.1 before
              (append_stage_fails f.undoes a target staged committed files before b h)))
      | inl b ↦
          let e = append_stage_succeeds f.undoes a target staged files b in
          let next = appended target staged files in
          rw (b, e)
            (continued (
              commit_dates-Finishes f later path s dates (rollback_of target files ∷ committed) next
                before (appended-Pending f.undoes target staged committed files before h)))
    ]
  where
    continued :
        {x : Bool × Files}
        → Finishes f.undoes path s dates
            (appended (archive_path path date) (text_at date s.archives) files)
            before
            x
        → Finishes f.undoes path s (date ∷ dates) files before x
    continued finished = finished
    continued (rolled_back h) = rolled_back h

abbrev pub dates_of : Staged → List Text
dates_of s = sort_texts (dict_keys s.archives)

-- What Rotate makes of the files: it leaves the log alone, it finishes, or it fails.
pub data Rotates (is_date undoes : Text → Bool) (today path : Text) (before : Files)
    : Bool × Files → Type 0 where
  no_log : get path before ≡ none → Rotates is_date undoes today path before (true, before)
  nothing_old :
      {content : Text}
      → get path before ≡ some content
      → plan is_date today content ≡ none
      → Rotates is_date undoes today path before (true, before)
  rotated :
      {content : Text} {s : Staged}
      → get path before ≡ some content
      → plan is_date today content ≡ some s
      → Rotates is_date undoes today path before (true, replaced path s (dates_of s) before)
  undone :
      {after : Files}
      → Undone undoes after before
      → Rotates is_date undoes today path before (false, after)

module _ (is_date : Text → Bool) (today : Text) (stages : Bool) (f : Faults) (path : Text)
    (files : Files) where
  commit-Rotates :
      (content : Text) (s : Staged)
      → get path files ≡ some content
      → plan is_date today content ≡ some s
      → Rotates is_date f.undoes today path files (commit f path s files)
  unfolding commit
  commit-Rotates content s g e = ending (
      commit_dates-Finishes f f.appending path s (dates_of s) [] files files
        (unfold rollback_archives in (λ p v. refl, λ p u. inl refl)))
    where
      ending :
          {x : Bool × Files}
          → Finishes f.undoes path s (dates_of s) files files x
          → Rotates is_date f.undoes today path files x
      ending finished = rotated g e
      ending (rolled_back h) = undone h

  rotate_content-Rotates :
      (o : Option Text)
      → get path files ≡ o
      → Rotates is_date f.undoes today path files
          (rotate_content is_date today stages f path o files)
  unfolding rotate_content
  rotate_content-Rotates none g = no_log g
  rotate_content-Rotates (some content) g = elim (Option-cases (plan is_date today content)) [
    | inl e ↦ rw (e, rotate_content) (nothing_old g e)
    | inr (s, e) ↦ elim (Bool-cases stages) [
      | inl b ↦ rw (e, rotate_content) (rw b (commit-Rotates content s g e))
      | inr b ↦ rw (e, rotate_content) (rw b (undone (λ p v. refl, λ p u. inl refl)))
    ]
  ]

-- Rotate leaves alone a log that is missing or has nothing to move, or appends every staged archive and
-- replaces the log, or fails. If it fails, at whichever step and however much of an archive was written
-- by then, every file whose path can be rolled back has the content that it had; a file that cannot be
-- truncated or removed has the content that it had, or that with something behind it.
pub rotate-Rotates :
    (is_date : Text → Bool) (today : Text) (stages : Bool) (f : Faults) (path : Text)
    (files : Files)
    → Rotates is_date f.undoes today path files (rotate is_date today stages f path files)
unfolding rotate
rotate-Rotates is_date today stages f path files =
    rotate_content-Rotates is_date today stages f path files (get path files) refl
