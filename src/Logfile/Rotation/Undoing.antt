-- ===== src/Logfile/Rotation/Undoing.antt =====
-- rotation.go: what a rollback restores.
use mathlib.Core.List.{append_assoc}
use pm.Logfile.Rotation.{
  text_at, Files, Rollback, rollback_of, rollback_archive, rollback_archives, appended,
}
use pm.Prelude.{
  ℕ, ◌≡◌, refl, sym, ap, ◌∙◌, ◌⊎◌, inl, inr, Bool, true, false, Option, none, some, List, [], ◌∷◌,
  ◌++◌, if◌then◌else◌, Bool-cases, Option-cases, length, take, Text, same, same_eq, get, put,
  remove, get-put, get-remove, get-put_self,
}

take-all : (t u : Text) → take (length t) (t ++ u) ≡ t
take-all [] u = refl
take-all (b ∷ t) u = ap (λ s. b ∷ s) (take-all t u)

rollback_of-none :
    (target : Text) (files : Files)
    → get target files ≡ none
    → rollback_of target files ≡ record { path = target; size = 0; existed = false }
rollback_of-none target files n = rw (n, rollback_of) refl

rollback_of-some :
    (target t : Text) (files : Files)
    → get target files ≡ some t
    → rollback_of target files ≡ record { path = target; size = length t; existed = true }
rollback_of-some target t files n = rw (n, rollback_of) refl

text_at-some :
    (target t : Text) (files : Files) → get target files ≡ some t → text_at target files ≡ t
text_at-some target t files n = rw (n, text_at) refl

-- A file that holds what it held, and something more behind it.
abbrev pub HasGrown : Text → Files → Files → Type 0
HasGrown p after before = (extra : Text) × (get p after ≡ some (text_at p before ++ extra))

abbrev pub IsKept : Text → Files → Files → Type 0
IsKept p after before = (get p after ≡ get p before) ⊎ HasGrown p after before

pub appended-IsKept :
    (p target staged : Text) (files before : Files)
    → IsKept p files before
    → IsKept p (appended target staged files) before
appended-IsKept p target staged files before k = elim (Bool-cases (same p target)) [
  | inr n ↦ elim k [
    | inl e ↦ inl (get-put p target _ files ∙ rw n e)
    | inr (x, e) ↦ inr (x, get-put p target _ files ∙ rw n e)
  ]
  | inl n ↦
      let now : get p (appended target staged files) ≡ some (text_at p files ++ staged) =
        get-put p target _ files
        ∙ rw n (ap (λ k. some (text_at k files ++ staged)) (sym (same_eq p target n))) in
      elim k [
        | inl e ↦ inr (
          staged,
          now ∙ ap (λ (o : Option Text). some (elim o [ none ↦ [] | some t ↦ t ] ++ staged)) e,
        )
        | inr (x, e) ↦ inr (
          x ++ staged,
          now
              ∙ (ap (λ t. some (t ++ staged)) (text_at-some p _ files e)
                  ∙ ap some (append_assoc (text_at p before) x staged)),
        )
      ]
]

module _ (undoes : Text → Bool) where
  -- The same files where an archive can be rolled back, whatever order they are listed in.
  abbrev pub Same : Files → Files → Type 0
  Same files others = (p : Text) → undoes p ≡ true → get p files ≡ get p others

  rollback_archive_skips :
      (r : Rollback) (files : Files)
      → undoes r.path ≡ false
      → rollback_archive undoes r files ≡ files
  unfolding rollback_archive
  rollback_archive_skips r files u = rw u refl

  abbrev restored : Rollback → Files → Files
  restored r files =
      if r.existed
      then elim (get r.path files) [ none ↦ files | some t ↦ put r.path (take r.size t) files ]
      else remove r.path files

  rollback_archive_restores :
      (r : Rollback) (files : Files)
      → undoes r.path ≡ true
      → rollback_archive undoes r files ≡ restored r files
  unfolding rollback_archive
  rollback_archive_restores r files u = rw u refl

  -- Restoring one path sees that path's file alone.
  get-restored :
      (p : Text) (r : Rollback) (files others : Files)
      → get r.path files ≡ get r.path others
      → get p files ≡ get p others
      → get p (restored r files) ≡ get p (restored r others)
  get-restored p r files others q h = elim (Bool-cases r.existed) [
    | inr e ↦
        rw (e, restored)
          (get-remove p r.path files ∙ (rw h refl ∙ sym (get-remove p r.path others)))
    | inl e ↦ elim (Option-cases (get r.path others)) [
      | inl n ↦ let m : get r.path files ≡ none = q ∙ n in rw (e, m, n, restored) h
      | inr (t, n) ↦
          let m : get r.path files ≡ some t = q ∙ n in
          rw (e, m, n, restored)
            (get-put p r.path (take r.size t) files
              ∙ (rw h refl ∙ sym (get-put p r.path (take r.size t) others)))
    ]
  ]

  restored_elsewhere :
      (p : Text) (r : Rollback) (files : Files)
      → same p r.path ≡ false
      → get p (restored r files) ≡ get p files
  restored_elsewhere p r files n = elim (Bool-cases r.existed) [
    | inr e ↦ rw (e, restored) (get-remove p r.path files ∙ rw n refl)
    | inl e ↦ elim (Option-cases (get r.path files)) [
      | inl m ↦ rw (e, m, restored) refl
      | inr (t, m) ↦ rw (e, m, restored) (get-put p r.path (take r.size t) files ∙ rw n refl)
    ]
  ]

  rollback_archive-Same :
      (r : Rollback) (files others : Files)
      → Same files others
      → Same (rollback_archive undoes r files) (rollback_archive undoes r others)
  rollback_archive-Same r files others h p v = elim (Bool-cases (undoes r.path)) [
    | inr u ↦ rw (rollback_archive_skips r files u, rollback_archive_skips r others u) (h p v)
    | inl u ↦
        rw (rollback_archive_restores r files u, rollback_archive_restores r others u)
          (get-restored p r files others (h r.path u) (h p v))
  ]

  pub rollback_archives-Same :
      (rs : List Rollback) (files others : Files)
      → Same files others
      → Same (rollback_archives undoes rs files) (rollback_archives undoes rs others)
  unfolding rollback_archives
  rollback_archives-Same [] files others h = h
  rollback_archives-Same (r ∷ rs) files others h =
      rollback_archives-Same rs (rollback_archive undoes r files) (rollback_archive undoes r others)
        (rollback_archive-Same r files others h)

  -- Where nothing can be rolled back, a rollback changes nothing.
  differs : (p q : Text) → undoes p ≡ false → undoes q ≡ true → same p q ≡ false
  differs p q u v = elim (Bool-cases (same p q)) [
    | inr n ↦ n
    | inl n ↦ let e = ap undoes (same_eq p q n) in cc
  ]

  pub rollback_archives_stuck :
      (p : Text) (rs : List Rollback) (files : Files)
      → undoes p ≡ false
      → get p (rollback_archives undoes rs files) ≡ get p files
  unfolding rollback_archives
  rollback_archives_stuck p [] files u = refl
  rollback_archives_stuck p (r ∷ rs) files u =
      rollback_archives_stuck p rs (rollback_archive undoes r files) u
      ∙ rollback_archive_stuck p r files u
    where
      rollback_archive_stuck :
          (p : Text) (r : Rollback) (files : Files)
          → undoes p ≡ false
          → get p (rollback_archive undoes r files) ≡ get p files
      rollback_archive_stuck p r files u = elim (Bool-cases (undoes r.path)) [
        | inr v ↦ rw (rollback_archive_skips r files v) refl
        | inl v ↦
            rw (rollback_archive_restores r files v)
              (restored_elsewhere p r files (differs p r.path u v))
      ]

  restored_size :
      (p target : Text) (size : ℕ) (t : Text) (files : Files)
      → get target files ≡ some t
      → get p (restored (record { path = target; size = size; existed = true }) files)
        ≡ (if same p target then some (take size t) else get p files)
  restored_size p target size t files n = rw (n, restored) (get-put p target (take size t) files)

  -- Rolling an archive back undoes what was appended to it.
  restored-appended :
      (target staged : Text) (files : Files) (p : Text)
      → get p (restored (rollback_of target files) (appended target staged files)) ≡ get p files
  restored-appended target staged files p = elim (Option-cases (get target files)) [
    | inl n ↦
        ap (λ r. get p (restored r (appended target staged files)))
          (rollback_of-none target files n)
        ∙ (get-remove p target (appended target staged files) ∙ elim (Bool-cases (same p target)) [
          | inl e ↦ rw e (sym n ∙ ap (λ x. get x files) (sym (same_eq p target e)))
          | inr e ↦ rw e (get-put p target (text_at target files ++ staged) files ∙ rw e refl)
        ])
    | inr (t, n) ↦
        let text = text_at target files ++ staged in
        let kept : take (length t) text ≡ t =
          ap (λ x. take (length t) (x ++ staged)) (text_at-some target t files n)
          ∙ take-all t staged in
        ap (λ r. get p (restored r (appended target staged files)))
          (rollback_of-some target t files n)
        ∙ (restored_size p target (length t) text (appended target staged files)
              (get-put_self target text files)
            ∙ elim (Bool-cases (same p target)) [
              | inl e ↦
                  rw e (ap some kept ∙ (sym n ∙ ap (λ x. get x files) (sym (same_eq p target e))))
              | inr e ↦ rw e (get-put p target text files ∙ rw e refl)
            ])
  ]

  rollback_of-path : (target : Text) (files : Files) → (rollback_of target files).path ≡ target
  rollback_of-path target files = elim (Option-cases (get target files)) [
    | inl n ↦ rw (rollback_of-none target files n) refl
    | inr (t, n) ↦ rw (rollback_of-some target t files n) refl
  ]

  pub rollback_appended :
      (target staged : Text) (files : Files)
      → Same
          (rollback_archive undoes (rollback_of target files) (appended target staged files))
          files
  rollback_appended target staged files p v =
      let at = ap undoes (rollback_of-path target files) in
      elim (Bool-cases (undoes target)) [
        | inl u ↦
            rw
              (rollback_archive_restores (rollback_of target files) (appended target staged files)
                (at ∙ u))
              (restored-appended target staged files p)
        | inr u ↦
            rw
              (rollback_archive_skips (rollback_of target files) (appended target staged files)
                (at ∙ u))
              (get-put p target _ files ∙ rw (not_same target p u v) refl)
      ]
    where
      not_same : (target p : Text) → undoes target ≡ false → undoes p ≡ true → same p target ≡ false
      not_same target p u v = elim (Bool-cases (same p target)) [
        | inr n ↦ n
        | inl n ↦ let e = ap undoes (same_eq p target n) in cc
      ]
