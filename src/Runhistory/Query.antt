-- ===== src/Runhistory/Query.antt =====
-- runhistory/query.go: reading the newest matching records of the journals.
use mathlib.Core.List.{append_assoc, append-nil, reverse}
use pm.Prelude.{
  ℕ, zero, suc, ◌-◌, ◌≤◌, ◌≡◌, refl, sym, ap, ◌∙◌, subst, inl, inr, Bool, true, false, ◌||◌, Option,
  none, some, List, [], ◌∷◌, ◌++◌, map, arith, ltb, leb, ◌==◌, if◌then◌else◌, tests, Bool-cases,
  length, take, drop, length-append, All, Text, same, is_empty, ℤ, pos, negsuc,
}

-- The limit of a query that names none.
abbrev pub default_limit : ℕ
default_limit = 100

-- The fields of a Query; the limit is the integer that the caller gave.
pub record Query : Type 0 where
  pub name : Text
  pub status : Text
  pub limit : ℤ

-- The method limit.
unfoldable pub limit_of : Query → ℕ
limit_of q = elim q.limit [ pos n ↦ if n == 0 then default_limit else n | negsuc n ↦ default_limit ]

unfoldable pub match_name : Text → Text → Text → Bool
match_name want namespace name =
    if is_empty want then true else same want name || same want (namespace ++ b':' ∷ name)

unfoldable pub match_status : Text → Text → Bool
match_status want got = is_empty want || same want got

-- How much of a day file is read.
abbrev pub max_scan_bytes : ℕ
max_scan_bytes = 33554432

-- What follows the first newline.
unfoldable pub after_newline : Text → Option Text
after_newline [] = none
after_newline (b ∷ s) = let rest = after_newline s in if b == 10 then some s else rest

-- readTail on the content of a file: all of it, or what follows the first newline in its last bytes.
unfoldable pub read_tail : ℕ → Text → Text
unfolding after_newline
read_tail max t =
    let tail = drop (length t - max) t in
    if leb (length t) max then t else elim (after_newline tail) [ none ↦ tail | some s ↦ s ]

-- bytes.Split at the newlines.
unfoldable pub split_newlines : Text → List Text
split_newlines [] = [] ∷ []
split_newlines (b ∷ s) =
    let rest = split_newlines s in
    if b == 10 then [] ∷ rest else elim rest [ [] ↦ (b ∷ []) ∷ [] | l ∷ ls ↦ (b ∷ l) ∷ ls ]

-- A file of the directory: none, one that cannot be read, or one with its content.
pub data DiskFile : Type 0 where
  missing_file broken_file : DiskFile
  has_content : Text → DiskFile

-- The lines of what readTail returns, in order, each parsed or not: bytes.TrimSpace and
-- json.Unmarshal are Go's.
abbrev pub Lines : Type 0 → Type 0
Lines R = List (Option R)

-- A day file as readTail returns it: its lines, or what opening and reading it failed with.
pub data DayFile (R : Type 0) : Type 0 where
  gone : DayFile R
  unreadable : DayFile R
  lines : Lines R → DayFile R

module _ {R : Type 0} where
  -- A day file of the directory, read.
  unfoldable pub read_day : (Text → Option R) → DiskFile → DayFile R
  unfolding read_tail split_newlines
  read_day parse missing_file = gone
  read_day parse broken_file = unreadable
  read_day parse (has_content t) = lines (map parse (split_newlines (read_tail max_scan_bytes t)))

  abbrev pub kept : (R → Bool) → Option R → List R
  kept keep none = []
  kept keep (some r) = if keep r then r ∷ [] else []

  -- The loop of scanFile over the lines from the last one up, with the records found so far.
  unfoldable pub scan_lines : ℕ → (R → Bool) → Lines R → List R → List R
  scan_lines limit keep [] out = out
  scan_lines limit keep (l ∷ ls) out =
      let rest = scan_lines limit keep ls (out ++ kept keep l) in
      if ltb (length out) limit then rest else out

  unfoldable pub scan_file : ℕ → (R → Bool) → DayFile R → Option (List R)
  unfolding scan_lines
  scan_file limit keep gone = some []
  scan_file limit keep unreadable = if limit == 0 then some [] else none
  scan_file limit keep (lines ls) = some (scan_lines limit keep (reverse ls) [])

  -- The loop of scan over the day files, newest first: the records, and whether it ended well.
  unfoldable pub scan_days : ℕ → (R → Bool) → List (DayFile R) → List R → List R × Bool
  unfolding scan_file
  scan_days limit keep [] out = (out, true)
  scan_days limit keep (f ∷ fs) out = elim (scan_file (limit - length out) keep f) [
    | none ↦ (out, false)
    | some recs ↦
        let rest = scan_days limit keep fs (out ++ recs) in
        if leb limit (length (out ++ recs)) then (out ++ recs, true) else rest
  ]

  unfoldable pub scan : ℕ → (R → Bool) → List (DayFile R) → List R × Bool
  unfolding scan_days
  scan limit keep files = scan_days limit keep files []

  -- Every matching record of the files, newest first, without a limit.
  unfoldable pub matching : (R → Bool) → Lines R → List R
  matching keep [] = []
  matching keep (l ∷ ls) = kept keep l ++ matching keep ls

  abbrev pub lines_of : DayFile R → Lines R
  lines_of gone = []
  lines_of unreadable = []
  lines_of (lines ls) = reverse ls

  unfoldable pub all_matching : (R → Bool) → List (DayFile R) → List R
  unfolding matching
  all_matching keep [] = []
  all_matching keep (f ∷ fs) = matching keep (lines_of f) ++ all_matching keep fs

  abbrev pub is_readable : DayFile R → Bool
  is_readable unreadable = false
  is_readable _ = true

  take-length : (xs ys : List R) → take (length xs) (xs ++ ys) ≡ xs
  take-length [] ys = refl
  take-length (x ∷ xs) ys = ap (λ l. x ∷ l) (take-length xs ys)

  take-full : (n : ℕ) (xs ys : List R) → length xs ≡ n → take n (xs ++ ys) ≡ xs
  take-full n xs ys h = subst (λ m. take m (xs ++ ys) ≡ xs) h (take-length xs ys)

  take_short : (n : ℕ) (xs : List R) → length xs ≤ n → take n xs ≡ xs
  take_short zero [] h = refl
  take_short zero (x ∷ xs) h = absurd (omega arith)
  take_short (suc n) [] h = refl
  take_short (suc n) (x ∷ xs) h = ap (λ l. x ∷ l) (take_short n xs (omega arith))

  kept_one : (keep : R → Bool) (l : Option R) → length (kept keep l) ≤ 1
  kept_one keep none = omega arith
  kept_one keep (some r) = ground arith

  -- The loop stops at the limit with the newest records that match.
  scan_lines_lem :
      (limit : ℕ) (keep : R → Bool) (ls : Lines R) (out : List R)
      → length out ≤ limit
      → scan_lines limit keep ls out ≡ take limit (out ++ matching keep ls)
  unfolding scan_lines matching
  scan_lines_lem limit keep [] out h = rw append-nil (sym (take_short limit out h))
  scan_lines_lem limit keep (l ∷ ls) out h = elim (Bool-cases (ltb (length out) limit)) [
    | inl more ↦ rw more (
        scan_lines_lem limit keep ls (out ++ kept keep l)
          (omega (tests, length-append out (kept keep l), kept_one keep l, more))
        ∙ ap (take limit) (append_assoc out (kept keep l) (matching keep ls)))
    | inr full ↦
        rw full (sym (take-full limit out (kept keep l ++ matching keep ls) (ground arith)))
  ]

  take-append :
      (n : ℕ) (xs ys : List R) → length xs ≤ n → xs ++ take (n - length xs) ys ≡ take n (xs ++ ys)
  take-append n [] ys h = let e : n - length {A = R} [] ≡ n = omega arith in ap (λ m. take m ys) e
  take-append zero (x ∷ xs) ys h = absurd (omega arith)
  take-append (suc n) (x ∷ xs) ys h =
      let e : suc n - suc (length xs) ≡ n - length xs = omega arith in
      ap (λ m. x ∷ xs ++ take m ys) e ∙ ap (λ l. x ∷ l) (take-append n xs ys (omega arith))

  take-take_append : (n : ℕ) (xs ys : List R) → take n (take n xs ++ ys) ≡ take n (xs ++ ys)
  take-take_append zero xs ys = refl
  take-take_append (suc n) [] ys = refl
  take-take_append (suc n) (x ∷ xs) ys = ap (λ l. x ∷ l) (take-take_append n xs ys)

  length-take_le : (n : ℕ) (xs : List R) → length (take n xs) ≤ n
  length-take_le zero xs = omega arith
  length-take_le (suc n) [] = omega arith
  length-take_le (suc n) (x ∷ xs) = omega (arith, length-take_le n xs)

  -- A readable file gives the first matching records of it, as many as were asked for.
  pub scan_file_lem :
      (n : ℕ) (keep : R → Bool) (f : DayFile R)
      → is_readable f ≡ true
      → scan_file n keep f ≡ some (take n (matching keep (lines_of f)))
  unfolding scan_file matching
  scan_file_lem zero keep gone h = refl
  scan_file_lem (suc n) keep gone h = refl
  scan_file_lem n keep unreadable h = cc
  scan_file_lem n keep (lines ls) h = ap some (scan_lines_lem n keep (reverse ls) [] (omega arith))

  scan_days-some :
      (limit : ℕ) (keep : R → Bool) (f : DayFile R) (fs : List (DayFile R)) (out recs : List R)
      → scan_file (limit - length out) keep f ≡ some recs
      → scan_days limit keep (f ∷ fs) out ≡ (
          if leb limit (length (out ++ recs))
          then (out ++ recs, true)
          else scan_days limit keep fs (out ++ recs))
  unfolding scan_days
  scan_days-some limit keep f fs out recs e = rw (e, scan_days) refl

  scan_days_lem :
      (limit : ℕ) (keep : R → Bool) (fs : List (DayFile R)) (out : List R)
      → length out ≤ limit
      → All (λ (f : DayFile R). is_readable f ≡ true) fs
      → scan_days limit keep fs out ≡ (take limit (out ++ all_matching keep fs), true)
  unfolding all_matching
  scan_days_lem limit keep [] out h r =
      unfold scan_days in rw append-nil (rw (take_short limit out h) refl)
  scan_days_lem limit keep (f ∷ fs) out h r =
      let found = matching keep (lines_of f) in
      let recs = take (limit - length out) found in
      let joined : out ++ recs ≡ take limit (out ++ found) = take-append limit out found h in
      let bounded : length (out ++ recs) ≤ limit =
        subst (λ l. length l ≤ limit) (sym joined) (length-take_le limit (out ++ found)) in
      let regrouped : take limit ((out ++ recs) ++ all_matching keep fs)
          ≡ take limit (out ++ (found ++ all_matching keep fs)) =
        ap (λ l. take limit (l ++ all_matching keep fs)) joined
        ∙ (take-take_append limit (out ++ found) (all_matching keep fs)
            ∙ ap (take limit) (append_assoc out found (all_matching keep fs))) in
      scan_days-some limit keep f fs out recs (scan_file_lem (limit - length out) keep f r.0)
      ∙ (elim (Bool-cases (leb limit (length (out ++ recs)))) [
        | inl full ↦ rw full (
            ap (λ l. (l, true))
              (sym (
                take-full limit (out ++ recs) (all_matching keep fs)
                  (omega (tests, full, bounded)))))
        | inr more ↦ rw more (scan_days_lem limit keep fs (out ++ recs) bounded r.1)
      ]
          ∙ ap (λ l. (l, true)) regrouped)

  -- Over day files that can be read, a query returns the newest matching records, as many as its
  -- limit asks for: exactly what filtering everything and taking the first would give.
  pub scan_lem :
      (limit : ℕ) (keep : R → Bool) (fs : List (DayFile R))
      → All (λ (f : DayFile R). is_readable f ≡ true) fs
      → scan limit keep fs ≡ (take limit (all_matching keep fs), true)
  unfolding scan
  scan_lem limit keep fs r = scan_days_lem limit keep fs [] (omega arith) r
