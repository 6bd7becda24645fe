-- ===== src/Runhistory/Retention.antt =====
-- runhistory/retention.go: pruning the day files of a directory.
use pm.Prelude.{
  ℕ, ◌≤◌, ◌≡◌, refl, inl, inr, Bool, true, false, Option, none, some, List, [], ◌∷◌, arith, ltb,
  ◌==◌, if◌then◌else◌, Bool-cases, Option-cases, Text, ℤ, pos, negsuc,
}

-- A day file is named by its date, which time.ParseInLocation reads as a moment.
pub record NamedFile : Type 0 where
  pub name : Text
  -- none for a date that is no date.
  pub day : Option ℕ

unfoldable pub is_expired : ℕ → NamedFile → Bool
is_expired cutoff f = elim f.day [ none ↦ false | some d ↦ ltb d cutoff ]

unfoldable pub prune_files : ℕ → List NamedFile → List NamedFile
unfolding is_expired
prune_files cutoff [] = []
prune_files cutoff (f ∷ fs) =
    let rest = prune_files cutoff fs in if is_expired cutoff f then rest else f ∷ rest

-- pruneDir, with now.AddDate(0, 0, -keepDays) given as a function of the days, on files that can be
-- removed.
unfoldable pub prune_dir : (ℕ → ℕ) → ℤ → List NamedFile → List NamedFile
unfolding prune_files
prune_dir days_ago (pos n) files = if n == 0 then files else prune_files (days_ago n) files
prune_dir days_ago (negsuc n) files = files

is_expired_mono : (c d : ℕ) (f : NamedFile) → c ≤ d → is_expired c f ≡ true → is_expired d f ≡ true
unfolding is_expired
is_expired_mono c d f h e = elim (Option-cases f.day) [
  | inl n ↦ ground (arith, n)
  | inr (t, n) ↦ ground (arith, n)
]

prune_files_twice :
    (c d : ℕ) (fs : List NamedFile) → c ≤ d → prune_files d (prune_files c fs) ≡ prune_files d fs
unfolding prune_files
prune_files_twice c d [] h = refl
prune_files_twice c d (f ∷ fs) h = elim (Bool-cases (is_expired c f)) [
  | inl old ↦ rw (old, is_expired_mono c d f h old) (prune_files_twice c d fs h)
  | inr new ↦ rw (new, prune_files_twice c d fs h) refl
]

-- Pruning every day is the same as pruning on the last day alone: for a positive number of days, a
-- pruning at a moment and one at a moment that is not earlier leave what the second would leave.
pub prune_dir_twice :
    (today later : ℕ → ℕ) (n : ℕ) (files : List NamedFile)
    → today n ≤ later n
    → prune_dir later (pos n) (prune_dir today (pos n) files) ≡ prune_dir later (pos n) files
unfolding prune_dir
prune_dir_twice today later n files h = elim (Bool-cases (n == 0)) [
  | inl z ↦ rw z refl
  | inr p ↦ rw p (prune_files_twice (today n) (later n) files h)
]
