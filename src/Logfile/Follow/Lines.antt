-- ===== src/Logfile/Follow/Lines.antt =====
-- Following a log that is appended to: every complete line is emitted once, in order.
use mathlib.Core.List.{append_assoc, append-nil}
use pm.Logfile.Escape.{newline}
use pm.Logfile.Follow.{Source, Entry, Seen, seen, stat_error, scan_complete, new_entry}
use pm.Prelude.{
  ℕ, ◌≡◌, refl, sym, ap, ◌∙◌, subst, inl, inr, false, Option, none, some, List, [], ◌∷◌, ◌++◌,
  arith, ◌==◌, Bool-cases, length, take, drop, All, All-append, Text,
}

abbrev pub HasNoNewline : Text → Type 0
HasNoNewline = All (λ b. (b == newline) ≡ false)

-- The text of lines that have each their newline.
abbrev pub unlines : List Text → Text
unlines [] = []
unlines (l ∷ ls) = l ++ newline ∷ unlines ls

-- A text is these lines and what follows the last newline.
pub record IsLines (text : Text) (lines : List Text) (pending : Text) : Type 0 where
  pub whole : unlines lines ++ pending ≡ text
  pub single : All HasNoNewline lines
  pub unfinished : HasNoNewline pending

scan_complete-IsLines :
    (line s : Text)
    → HasNoNewline line
    → IsLines (line ++ s) (scan_complete line s).0 (scan_complete line s).1
unfolding scan_complete
scan_complete-IsLines line [] h = record {
  whole = sym (append-nil line);
  single = tt;
  unfinished = h;
}
scan_complete-IsLines line (b ∷ s) h = elim (Bool-cases (b == newline)) [
  | inl e ↦
      let r = scan_complete-IsLines [] s tt in
      let here : b ≡ newline = ground (arith, e) in
      rw (e, scan_complete)
        (record {
          whole =
              append_assoc line (newline ∷ unlines (scan_complete [] s).0) (scan_complete [] s).1
              ∙ (ap (λ t. line ++ newline ∷ t) r.whole ∙ ap (λ c. line ++ c ∷ s) (sym here));
          single = (h, r.single);
          unfinished = r.unfinished;
        })
  | inr e ↦
      let r = scan_complete-IsLines (line ++ b ∷ []) s (All-append _ line (b ∷ []) h (e, tt)) in
      rw (e, scan_complete)
        (subst
          (λ t. IsLines t (scan_complete (line ++ b ∷ []) s).0 (scan_complete (line ++ b ∷ []) s).1)
          (append_assoc line (b ∷ []) s) r)
]

unlines-append : (ls ms : List Text) → unlines (ls ++ ms) ≡ unlines ls ++ unlines ms
unlines-append [] ms = refl
unlines-append (l ∷ ls) ms =
    ap (λ t. l ++ newline ∷ t) (unlines-append ls ms)
    ∙ sym (append_assoc l (newline ∷ unlines ls) (unlines ms))

-- More bytes after a text that was scanned.
pub scan_more :
    (text more : Text) (lines : List Text) (pending : Text)
    → IsLines text lines pending
    → IsLines
        (text ++ more)
        (lines ++ (scan_complete [] (pending ++ more)).0)
        (scan_complete [] (pending ++ more)).1
scan_more text more lines pending i =
    let r = scan_complete-IsLines [] (pending ++ more) tt in
    let t = scan_complete [] (pending ++ more) in
    record {
      whole =
          ap (λ u. u ++ t.1) (unlines-append lines t.0)
          ∙ (append_assoc (unlines lines) (unlines t.0) t.1
              ∙ (ap (λ u. unlines lines ++ u) r.whole
                  ∙ (sym (append_assoc (unlines lines) pending more)
                      ∙ ap (λ u. u ++ more) i.whole)));
      single = All-append HasNoNewline lines t.0 i.single r.single;
      unfinished = r.unfinished;
    }

pub drop-length : (xs ys : Text) → drop (length xs) (xs ++ ys) ≡ ys
drop-length [] ys = refl
drop-length (x ∷ xs) ys = drop-length xs ys

pub take-length : (xs : Text) → take (length xs) xs ≡ xs
take-length [] = refl
take-length (x ∷ xs) = ap (λ t. x ∷ t) (take-length xs)

-- How a poll goes after the file has grown: no stat, a failed read, or a read of at most so many bytes
-- of what is new, as a reader that the writer overtakes may do.
pub data Outcome : Type 0 where
  unstatted unread : Outcome
  reads : ℕ → Outcome
  reads_all : Outcome

pub record Poll : Type 0 where
  pub grown : Text
  pub outcome : Outcome
  pub at : ℕ

abbrev pub read_of : Outcome → Text → ℕ → ℕ → Option Text
read_of unstatted content offset n = none
read_of unread content offset n = none
read_of (reads k) content offset n = some (take k (take n (drop offset content)))
read_of reads_all content offset n = some (take n (drop offset content))

abbrev pub seen_of : ℕ → Text → Outcome → Seen
seen_of file content unstatted = stat_error
seen_of file content unread = seen file (length content) (read_of unread content)
seen_of file content (reads k) = seen file (length content) (read_of (reads k) content)
seen_of file content reads_all = seen file (length content) (read_of reads_all content)

-- A line with the time at which it was seen to end.
abbrev pub Observed : Type 0
Observed = Text × ℕ

abbrev pub lines_of : List Observed → List Text
lines_of [] = []
lines_of ((l, t) ∷ os) = l ∷ lines_of os

abbrev pub entries_at : (Text → Option ℕ) → Source → List Observed → List Entry
entries_at parse_time source [] = []
entries_at parse_time source ((l, t) ∷ os) =
    new_entry parse_time source l t ∷ entries_at parse_time source os

abbrev pub stamped : ℕ → List Text → List Observed
stamped t [] = []
stamped t (l ∷ ls) = (l, t) ∷ stamped t ls

pub lines_of-append : (os ps : List Observed) → lines_of (os ++ ps) ≡ lines_of os ++ lines_of ps
lines_of-append [] ps = refl
lines_of-append ((l, t) ∷ os) ps = ap (λ ls. l ∷ ls) (lines_of-append os ps)

pub lines_of-stamped : (t : ℕ) (ls : List Text) → lines_of (stamped t ls) ≡ ls
lines_of-stamped t [] = refl
lines_of-stamped t (l ∷ ls) = ap (λ ms. l ∷ ms) (lines_of-stamped t ls)
