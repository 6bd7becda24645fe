-- ===== src/Logfile/Files/Names.antt =====
-- The names of archives are read back as they were made.
use mathlib.Core.List.{append-nil, append_assoc}
use pm.Paths.{stem, ext, dot, has_slash}
use pm.Logfile.Rotation.{archive_path, date_length}
use pm.Logfile.Files.{task_stem, archive_date, trailing_date}
use pm.Prelude.{
  ◌+◌, ◌-◌, ◌≡◌, refl, sym, ap, ◌∙◌, inl, inr, Bool, true, false, not, ◌&&◌, [], ◌∷◌, ◌++◌, arith,
  leb, ◌==◌, Bool-cases, length, take, drop, length-append, Text, is_empty,
}

-- The extension of a text that ends in an extension.
ext-append : (s e : Text) → is_empty (ext e) ≡ false → ext (s ++ e) ≡ ext e
unfolding ext
ext-append [] e h = refl
ext-append (b ∷ s) e h =
    let ih = ext-append s e h in
    let full : is_empty (ext (s ++ e)) ≡ false = ap is_empty ih ∙ h in rw full ih

stem-append : (s e : Text) → is_empty (ext e) ≡ false → stem (s ++ e) ≡ s ++ stem e
unfolding stem
stem-append [] e h = refl
stem-append (b ∷ s) e h =
    let full : is_empty (ext (s ++ e)) ≡ false = ap is_empty (ext-append s e h) ∙ h in
    rw full (ap (λ t. b ∷ t) (stem-append s e h))

-- An extension is its own extension, without a stem.
ext-ext : (s : Text) → (ext (ext s) ≡ ext s) × ((is_empty (ext s) ≡ false) → stem (ext s) ≡ [])
unfolding ext stem
ext-ext [] = (refl, λ h. refl)
ext-ext (b ∷ s) = elim (Bool-cases (is_empty (ext s))) [
  | inr e ↦ rw e (let (p, q) = ext-ext s in (p, λ h. q e))
  | inl e ↦ elim (Bool-cases (b == dot && not (has_slash s))) [
    | inl d ↦ rw (e, d) (rw (e, d) (refl, λ h. refl))
    | inr d ↦ rw (e, d) (refl, λ h. refl)
  ]
]

drop-length : (xs ys : Text) → drop (length xs) (xs ++ ys) ≡ ys
drop-length [] ys = refl
drop-length (x ∷ xs) ys = drop-length xs ys

take-length : (xs ys : Text) → take (length xs) (xs ++ ys) ≡ xs
take-length [] ys = refl
take-length (x ∷ xs) ys = ap (λ t. x ∷ t) (take-length xs ys)

module _ (is_date : Text → Bool) (s date : Text) (n : length date ≡ date_length)
    (d : is_date date ≡ true) where
  lengths : length (s ++ dot ∷ date) ≡ length s + 11
  lengths = omega (arith, length-append s (dot ∷ date), n)

  trailing_date-dated : trailing_date is_date (s ++ dot ∷ date) ≡ date
  unfolding trailing_date
  trailing_date-dated =
      let t = s ++ dot ∷ date in
      let at_date : drop (length t - date_length) t ≡ date =
        ap (λ k. drop k t) (omega (arith, lengths, length-append s (dot ∷ [])))
        ∙ (ap (drop (length (s ++ dot ∷ []))) (sym (append_assoc s (dot ∷ []) date))
            ∙ drop-length (s ++ dot ∷ []) date) in
      let at_dot : drop (length t - date_length - 1) t ≡ dot ∷ date =
        ap (λ k. drop k t) (omega (arith, lengths)) ∙ drop-length s (dot ∷ date) in
      let long : leb (length t) date_length ≡ false = ground (arith, lengths) in
      rw (long, at_dot) (rw at_date (rw d refl))

  date-nonempty : is_empty date ≡ false
  date-nonempty = nonempty date n
    where
      nonempty : (t : Text) → length t ≡ date_length → is_empty t ≡ false
      nonempty [] h = absurd (omega (arith, h))
      nonempty (b ∷ t) h = refl

  archive_date-dated :
      (name : Text) → stem name ≡ s ++ dot ∷ date → archive_date is_date name ≡ date
  unfolding archive_date
  archive_date-dated name h =
      let here : trailing_date is_date (stem name) ≡ date =
        ap (trailing_date is_date) h ∙ trailing_date-dated in
      rw here (rw date-nonempty refl)

  task_stem-dated : (name : Text) → stem name ≡ s ++ dot ∷ date → task_stem is_date name ≡ s
  unfolding task_stem
  task_stem-dated name h = rw h (
      rw trailing_date-dated (
        rw date-nonempty (
          ap (λ k. take k (s ++ dot ∷ date)) (omega (arith, lengths, n))
          ∙ take-length s (dot ∷ date))))

archive_path_lem :
    (name date : Text) → archive_path name date ≡ (stem name ++ dot ∷ date) ++ ext name
unfolding archive_path
archive_path_lem name date = ap (λ t. t ++ ext name) (append_assoc (stem name) (dot ∷ []) date)

stem-archive_path :
    (name date : Text)
    → is_empty (ext name) ≡ false
    → stem (archive_path name date) ≡ stem name ++ dot ∷ date
stem-archive_path name date h =
    let e = ext name in
    let (again, bare) = ext-ext name in
    let full : is_empty (ext e) ≡ false = ap is_empty again ∙ h in
    ap stem (archive_path_lem name date)
    ∙ (stem-append (stem name ++ dot ∷ date) e full
        ∙ (ap (λ t. (stem name ++ dot ∷ date) ++ t) (bare h)
            ∙ append-nil (stem name ++ dot ∷ date)))

-- The archive that a rotation names for a log with an extension is read back: its date is the one it
-- was made with, and its task is the log's name without the extension.
pub archive_path-read :
    (is_date : Text → Bool) (name date : Text)
    → is_empty (ext name) ≡ false
    → length date ≡ date_length
    → is_date date ≡ true
    → (archive_date is_date (archive_path name date) ≡ date)
      × (task_stem is_date (archive_path name date) ≡ stem name)
archive_path-read is_date name date h n d =
    let p = stem-archive_path name date h in
    (
      archive_date-dated is_date (stem name) date n d (archive_path name date) p,
      task_stem-dated is_date (stem name) date n d (archive_path name date) p,
    )
