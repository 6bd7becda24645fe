-- ===== src/Logfile/Rotation/Blocks.antt =====
-- Where the lines of a log go: no byte is lost, and each dated line goes to its own archive.
use mathlib.Core.List.{append_assoc, append-nil}
use pm.Logfile.Rotation.{
  nothing_staged, plan, plan_lines, stage_lines, split_lines, timestamp_date, Staged, text_at,
  write_archive, write_current, is_before, next_date, stage_rest,
}
use pm.Prelude.{
  ◌≡◌, refl, sym, ap, ◌∙◌, subst, ◌⊎◌, inl, inr, Bool, true, none, some, List, [], ◌∷◌, ◌++◌, arith,
  ◌==◌, if◌then◌else◌, Bool-cases, Option-cases, All, Text, same, same_eq, text_le, Dict, get, put,
  get-put,
}

abbrev pub concat : List Text → Text
concat [] = []
concat (l ∷ ls) = l ++ concat ls

concat-split_lines : (s : Text) → concat (split_lines s) ≡ s
unfolding split_lines
concat-split_lines [] = refl
concat-split_lines (b ∷ s) = elim (Bool-cases (b == 10)) [
  | inl e ↦ rw e (ap (λ t. b ∷ t) (concat-split_lines s))
  | inr e ↦ rw e (joined (split_lines s) ∙ ap (λ t. b ∷ t) (concat-split_lines s))
]
  where
    joined :
        (ls : List Text)
        → concat (elim ls [ [] ↦ (b ∷ []) ∷ [] | l ∷ r ↦ (b ∷ l) ∷ r ]) ≡ b ∷ concat ls
    joined [] = refl
    joined (l ∷ r) = refl

-- A line that was moved, with the date of its archive.
abbrev pub Moved : Type 0
Moved = Text × Text

abbrev pub moved_text : List Moved → Text
moved_text [] = []
moved_text ((d, l) ∷ ms) = l ++ moved_text ms

-- The part of the moved lines that goes to one archive.
abbrev pub archive_of : Text → List Moved → Text
archive_of date [] = []
archive_of date ((d, l) ∷ ms) = if same date d then l ++ archive_of date ms else archive_of date ms

-- A moved line's archive is of an earlier day, and of the line's own date if it has one.
abbrev pub IsFiled : (Text → Bool) → Text → Moved → Type 0
IsFiled is_date today m =
    (is_before today m.0 ≡ true)
    × ((timestamp_date is_date m.1 ≡ none) ⊎ (timestamp_date is_date m.1 ≡ some m.0))

-- What the rest of a log adds to what is staged.
record Adds (is_date : Text → Bool) (today : Text) (ls : List Text) (s t : Staged) : Type 0 where
  moved : List Moved
  kept : Text
  whole : moved_text moved ++ kept ≡ concat ls
  filed : All (IsFiled is_date today) moved
  archives :
      (date : Text) → text_at date t.archives ≡ text_at date s.archives ++ archive_of date moved
  current : t.current ≡ s.current ++ kept

stage_rest-current :
    (ls : List Text) (s : Staged) → (stage_rest ls s).current ≡ s.current ++ concat ls
unfolding stage_rest write_current
stage_rest-current [] s = sym (append-nil s.current)
stage_rest-current (l ∷ ls) s =
    stage_rest-current ls (write_current l s) ∙ append_assoc s.current l (concat ls)

stage_rest-archives : (ls : List Text) (s : Staged) → (stage_rest ls s).archives ≡ s.archives
unfolding stage_rest write_current
stage_rest-archives [] s = refl
stage_rest-archives (l ∷ ls) s = stage_rest-archives ls (write_current l s)

text_at-put :
    (d k x : Text) (m : Dict Text) → text_at d (put k x m) ≡ (if same d k then x else text_at d m)
text_at-put d k x m = ground (arith, get-put d k x m)

write_archive-text_at :
    (date line d : Text) (s : Staged)
    → text_at d (write_archive date line s).archives
      ≡ text_at d s.archives ++ (if same d date then line else [])
unfolding write_archive
write_archive-text_at date line d s =
    text_at-put d date (text_at date s.archives ++ line) s.archives
    ∙ elim (Bool-cases (same d date)) [
      | inl e ↦ rw e (ap (λ x. text_at x s.archives ++ line) (sym (same_eq d date e)))
      | inr e ↦ rw e (sym (append-nil (text_at d s.archives)))
    ]

next_date-IsFiled :
    (is_date : Text → Bool) (today active line date : Text)
    → is_before today active ≡ true
    → next_date is_date today active line ≡ some date
    → IsFiled is_date today (date, line)
unfolding next_date
next_date-IsFiled is_date today active line date b h =
    elim (Option-cases (timestamp_date is_date line)) [
      | inl e ↦ (ground (arith, h, e, b), inl e)
      | inr (d, e) ↦ elim (Bool-cases (same d active)) [
        | inl s ↦
            let here : active ≡ date = ground (arith, h, e, s) in
            (ap (is_before today) (sym here) ∙ b, inr (e ∙ ap some (same_eq d active s ∙ here)))
        | inr s ↦
            let earlier : is_before today d ≡ true = ground (arith, h, e, s) in
            let here : d ≡ date = ground (arith, h, e, s, earlier) in
            (ap (is_before today) (sym here) ∙ earlier, inr (e ∙ ap some here))
      ]
    ]

archive_of-cons :
    (date d l : Text) (ms : List Moved)
    → (if same date d then l else []) ++ archive_of date ms ≡ archive_of date ((d, l) ∷ ms)
archive_of-cons date d l ms = elim (Bool-cases (same date d)) [
  | inl e ↦ rw e refl
  | inr e ↦ rw e refl
]

module _ (is_date : Text → Bool) (today : Text) where
  moved-Adds :
      (date l : Text) (ls : List Text) (s : Staged) {t : Staged}
      → IsFiled is_date today (date, l)
      → Adds is_date today ls (write_archive date l s) t
      → Adds is_date today (l ∷ ls) s t
  moved-Adds date l ls s f a = record {
    moved = (date, l) ∷ a.moved;
    kept = a.kept;
    whole = append_assoc l (moved_text a.moved) a.kept ∙ ap (λ x. l ++ x) a.whole;
    filed = (f, a.filed);
    archives = λ d.
        a.archives d
        ∙ (ap (λ x. x ++ archive_of d a.moved) (write_archive-text_at date l d s)
            ∙ (append_assoc (text_at d s.archives) (if same d date then l else [])
                  (archive_of d a.moved)
                ∙ ap (λ x. text_at d s.archives ++ x) (archive_of-cons d date l a.moved)));
    current = a.current ∙ (unfold write_archive in refl);
  }

  stage_lines-Adds :
      (active : Text) (ls : List Text) (s : Staged)
      → is_before today active ≡ true
      → Adds is_date today ls s (stage_lines is_date today active ls s)
  unfolding stage_lines
  stage_lines-Adds active [] s b = record {
    moved = [];
    kept = [];
    whole = refl;
    filed = tt;
    archives = λ d. sym (append-nil (text_at d s.archives));
    current = sym (append-nil s.current);
  }
  stage_lines-Adds active (l ∷ ls) s b = elim (Option-cases (next_date is_date today active l)) [
    | inl e ↦
        rw (e, stage_lines)
          (record {
            moved = [];
            kept = concat (l ∷ ls);
            whole = refl;
            filed = tt;
            archives = λ d.
                ap (text_at d) (stage_rest-archives (l ∷ ls) s)
                ∙ sym (append-nil (text_at d s.archives));
            current = stage_rest-current (l ∷ ls) s;
          })
    | inr (date, e) ↦
        let f = next_date-IsFiled is_date today active l date b e in
        rw (e, stage_lines)
          (moved-Adds date l ls s f (stage_lines-Adds date ls (write_archive date l s) f.0))
  ]

-- What a rotation stages of a log's content.
pub record Splits (is_date : Text → Bool) (today content : Text) (s : Staged) : Type 0 where
  pub moved : List Moved
  -- The moved lines and what is kept are the content, in order.
  pub whole : moved_text moved ++ s.current ≡ content
  pub filed : All (IsFiled is_date today) moved
  -- Every archive is made of the moved lines of its date, in order.
  pub archives : (date : Text) → text_at date s.archives ≡ archive_of date moved

plan_lines-Adds :
    (is_date : Text → Bool) (today : Text) (ls : List Text) (s : Staged)
    → plan_lines is_date today ls ≡ some s
    → Adds is_date today ls nothing_staged s
unfolding plan_lines
plan_lines-Adds is_date today [] s h = absurd (ground (arith, h))
plan_lines-Adds is_date today (l ∷ ls) s h = elim (Option-cases (timestamp_date is_date l)) [
  | inl e ↦ absurd (ground (arith, h, e))
  | inr (date, e) ↦ elim (Bool-cases (text_le today date)) [
    | inl b ↦ absurd (ground (arith, h, e, b))
    | inr b ↦
        let before : is_before today date ≡ true = ground (arith, b) in
        let planned : stage_lines is_date today date ls (write_archive date l nothing_staged) ≡ s =
          ground (arith, h, e, b) in
        subst (Adds is_date today (l ∷ ls) nothing_staged) planned (
          moved-Adds is_date today date l ls nothing_staged (before, inr e)
            (stage_lines-Adds is_date today date ls (write_archive date l nothing_staged) before))
  ]
]

-- A rotation loses no byte of a log and moves none out of order: its content is the moved lines and
-- then what the log keeps. Each moved line is filed under an earlier day, its own if it is dated, and
-- each archive gets exactly the lines filed under its day.
pub plan-Splits :
    (is_date : Text → Bool) (today content : Text) (s : Staged)
    → plan is_date today content ≡ some s
    → Splits is_date today content s
unfolding plan get
plan-Splits is_date today content s h =
    let a = plan_lines-Adds is_date today (split_lines content) s h in
    record {
      moved = a.moved;
      whole = ap (λ x. moved_text a.moved ++ x) a.current ∙ (a.whole ∙ concat-split_lines content);
      filed = a.filed;
      archives = a.archives;
    }
