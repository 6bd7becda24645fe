-- ===== src/Runhistory/Store/Days.antt =====
-- Where the lines of a journal end up.
use mathlib.Core.List.{append_assoc, append-nil}
use pm.Runhistory.Retention.{is_expired}
use pm.Runhistory.Store.{
  writes, fails_after, fails_after, WriteFault, Ensured, append_line, write_error, Calendar,
  Journal, AppendFaults, AppendError, marshal_failed, dir_failed, open_failed, append_failed,
  is_day, text_of, ensure_day, prune_journal, written_part, append_record, default_keep_days,
}
use pm.Prelude.{
  ℕ, ◌≡◌, refl, sym, ap, ◌∙◌, subst, ◌⊎◌, inl, inr, Bool, true, false, ◌&&◌, Option, none, some,
  List, [], ◌∷◌, ◌++◌, arith, if◌then◌else◌, Bool-cases, and-parts, All, Text, same, same_eq, Dict,
  get, put, get-put,
}

-- A call of append: the moment of its record, how it goes, and what json.Marshal gives.
pub record Call : Type 0 where
  pub at : ℕ
  pub faults : AppendFaults
  pub line : Option Text

unfoldable pub append_each : Calendar → List Call → Journal → List (Option AppendError) × Journal
unfolding append_record
append_each c [] j = ([], j)
append_each c (k ∷ ks) j =
    let r = append_record c k.at k.faults k.line j in
    let rest = append_each c ks r.1 in (r.0 ∷ rest.0, rest.1)

-- What a call leaves in its day's file, by the error that it returned: the whole line if there is
-- none, and what was written of it if the write failed.
abbrev pub landed_one : Call → Option AppendError → Text
landed_one k none = elim k.line [ none ↦ [] | some l ↦ l ++ 10 ∷ [] ]
landed_one k (some marshal_failed) = []
landed_one k (some dir_failed) = []
landed_one k (some open_failed) = []
landed_one k (some append_failed) = elim k.line [
  | none ↦ []
  | some l ↦ written_part k.faults.writing (l ++ 10 ∷ [])
]

abbrev pub landed : Calendar → Text → List Call → List (Option AppendError) → Text
landed c day [] es = []
landed c day (k ∷ ks) [] = []
landed c day (k ∷ ks) (e ∷ es) =
    (if same day (c.day_of k.at) then landed_one k e else []) ++ landed c day ks es

-- No call is so late that the day is due for pruning.
abbrev pub IsKept : Calendar → Text → List Call → Type 0
IsKept c day = All (λ (k : Call).
    is_expired (c.days_before k.at default_keep_days) (record { name = day; day = c.day_named day })
    ≡ false)

text_of-put :
    (d k x : Text) (m : Dict Text) → text_of d (put k x m) ≡ (if same d k then x else text_of d m)
text_of-put d k x m = ground (arith, get-put d k x m)

text_of-put_same : (d k : Text) (m : Dict Text) → text_of d (put k (text_of k m) m) ≡ text_of d m
text_of-put_same d k m = text_of-put d k (text_of k m) m ∙ elim (Bool-cases (same d k)) [
  | inl e ↦ rw e (ap (λ x. text_of x m) (sym (same_eq d k e)))
  | inr e ↦ rw e refl
]

get-prune_journal :
    (c : Calendar) (removes : Text → Bool) (cutoff : ℕ) (d : Text) (m : Dict Text)
    → is_expired cutoff (record { name = d; day = c.day_named d }) ≡ false
    → get d (prune_journal c removes cutoff m) ≡ get d m
unfolding prune_journal get
get-prune_journal c removes cutoff d [] h = refl
get-prune_journal c removes cutoff d ((name, t) ∷ m) h =
    let ih = get-prune_journal c removes cutoff d m h in
    elim (Bool-cases
      (is_expired cutoff (record { name = name; day = c.day_named name }) && removes name)) [
        | inr e ↦ rw e (rw ih refl)
        | inl e ↦ elim (Bool-cases (same d name)) [
          | inr n ↦ rw (e, n) ih
          | inl n ↦
              let gone : is_expired cutoff (record { name = d; day = c.day_named d }) ≡ true =
                ap (λ x. is_expired cutoff (record { name = x; day = c.day_named x }))
                  (same_eq d name n)
                ∙ (and-parts _ _ e).0 in
              absurd (ground (arith, gone, h))
        ]
      ]

ensure_day-text_of :
    (day d : Text) (f : AppendFaults) (j : Journal)
    → text_of d (ensure_day day f j).1.files ≡ text_of d j.files
unfolding ensure_day
ensure_day-text_of day d f j = ground (arith, text_of-put_same d day j.files)

-- ensureDay fails with the errors of its own two calls alone.
abbrev Failures : Option AppendError → Type 0
Failures e = (e ≡ none) ⊎ ((e ≡ some dir_failed) ⊎ (e ≡ some open_failed))

ensure_day-Failures :
    (day : Text) (f : AppendFaults) (j : Journal) → Failures (ensure_day day f j).0.failure
unfolding ensure_day
ensure_day-Failures day f j = elim (Bool-cases (is_day day j.open_day)) [
  | inl a ↦ rw a (inl refl)
  | inr a ↦ elim (Bool-cases f.makes_dir) [
    | inr b ↦ rw (a, b) (inr (inl refl))
    | inl b ↦ elim (Bool-cases f.opens) [
      | inr o ↦ rw (a, b, o) (inr (inr refl))
      | inl o ↦ rw (a, b, o) (inl refl)
    ]
  ]
]

-- Without an error, the file that is open is the day's.
is_day-some : (day : Text) (o : Option Text) → is_day day o ≡ true → o ≡ some day
is_day-some day none h = absurd (ground (arith, h))
is_day-some day (some d) h = ap some (same_eq d day h)

ensure_day_opens :
    (day : Text) (f : AppendFaults) (j : Journal)
    → (ensure_day day f j).0.failure ≡ none
    → (ensure_day day f j).1.open_day ≡ some day
unfolding ensure_day
ensure_day_opens day f j = elim (Bool-cases (is_day day j.open_day)) [
  | inl a ↦ rw a (λ h. is_day-some day j.open_day a)
  | inr a ↦ elim (Bool-cases f.makes_dir) [
    | inr b ↦ rw (a, b) (λ h. absurd (ground (arith, h)))
    | inl b ↦ elim (Bool-cases f.opens) [
      | inr o ↦ rw (a, b, o) (λ h. absurd (ground (arith, h)))
      | inl o ↦ rw (a, b, o) (λ h. refl)
    ]
  ]
]

pruned-text_of :
    (c : Calendar) (removes : Text → Bool) (cutoff : ℕ) (d : Text) (b : Bool) (m : Dict Text)
    → is_expired cutoff (record { name = d; day = c.day_named d }) ≡ false
    → text_of d (if b then prune_journal c removes cutoff m else m) ≡ text_of d m
pruned-text_of c removes cutoff d true m h =
    ap (λ o. elim o [ none ↦ [] | some t ↦ t ]) (get-prune_journal c removes cutoff d m h)
pruned-text_of c removes cutoff d false m h = refl

module _ (c : Calendar) (d : Text) where
  -- The part of a line that goes to the day.
  abbrev part : ℕ → Text → Text
  part at line = if same d (c.day_of at) then line else []

  part-append :
      (at : ℕ) (line : Text) (m : Dict Text)
      → text_of d (put (c.day_of at) (text_of (c.day_of at) m ++ line) m)
        ≡ text_of d m ++ part at line
  part-append at line m =
      text_of-put d (c.day_of at) (text_of (c.day_of at) m ++ line) m
      ∙ elim (Bool-cases (same d (c.day_of at))) [
        | inl e ↦ rw e (ap (λ x. text_of x m ++ line) (sym (same_eq d (c.day_of at) e)))
        | inr e ↦ rw e (sym (append-nil (text_of d m)))
      ]

  -- A line that is written.
  append_line-lands :
      (at : ℕ) (f : AppendFaults) (line : Text) (e : Ensured) (j : Journal)
      → e.failure ≡ none
      → j.open_day ≡ some (c.day_of at)
      → is_expired (c.days_before at default_keep_days) (record { name = d; day = c.day_named d })
        ≡ false
      → let r = append_line c at f line (e, j) in
        (r.0 ≡ write_error f.writing)
        × (text_of d r.1.files ≡ text_of d j.files ++ part at (written_part f.writing line))
  unfolding append_line
  append_line-lands at f line e j n o k =
      rw (n, o, append_line)
        (
          refl,
          pruned-text_of c f.removes (c.days_before at default_keep_days) d _ _ k
              ∙ part-append at (written_part f.writing line) j.files,
        )

  append_line_refused :
      (at : ℕ) (f : AppendFaults) (line : Text) (e : Ensured) (j : Journal) (x : AppendError)
      → e.failure ≡ some x
      → append_line c at f line (e, j) ≡ (some x, j)
  unfolding append_line
  append_line_refused at f line e j x n = rw n refl

  nothing_lands : (at : ℕ) (t : Text) → t ≡ t ++ part at []
  nothing_lands at t = elim (Bool-cases (same d (c.day_of at))) [
    | inl e ↦ rw e (sym (append-nil t))
    | inr e ↦ rw e (sym (append-nil t))
  ]

  landed_write :
      (at : ℕ) (f : AppendFaults) (l : Text) (w : WriteFault)
      → f.writing ≡ w
      → landed_one (record { at = at; faults = f; line = some l }) (write_error w)
        ≡ written_part w (l ++ 10 ∷ [])
  landed_write at f l writes h = refl
  landed_write at f l (fails_after n) h = ap (λ w. written_part w (l ++ 10 ∷ [])) h

  -- What one call makes of the day's text.
  abbrev Lands : ℕ → AppendFaults → Option Text → Journal → Option AppendError × Journal → Type 0
  Lands at f line j r =
      text_of d r.1.files
      ≡ text_of d j.files ++ part at (landed_one (record { at = at; faults = f; line = line }) r.0)

  append_record-Lands :
      (at : ℕ) (f : AppendFaults) (line : Option Text) (j : Journal)
      → is_expired (c.days_before at default_keep_days) (record { name = d; day = c.day_named d })
        ≡ false
      → Lands at f line j (append_record c at f line j)
  unfolding append_record
  append_record-Lands at f none j h = nothing_lands at (text_of d j.files)
  append_record-Lands at f (some l) j h =
      let (e, i) = ensure_day (c.day_of at) f j in
      let line = l ++ 10 ∷ [] in
      let same_text = ensure_day-text_of (c.day_of at) d f j in
      elim (ensure_day-Failures (c.day_of at) f j) [
        | inl n ↦
            let (p, q) =
              append_line-lands at f line e i n (ensure_day_opens (c.day_of at) f j n) h in
            q
            ∙ (ap (λ t. t ++ part at (written_part f.writing line)) same_text
                ∙ ap (λ u. text_of d j.files ++ part at u)
                    (sym (
                      ap (landed_one (record { at = at; faults = f; line = some l })) p
                      ∙ landed_write at f l f.writing refl)))
        | inr (inl n) ↦
            subst (Lands at f (some l) j) (sym (append_line_refused at f line e i dir_failed n))
              (same_text ∙ nothing_lands at (text_of d j.files))
        | inr (inr n) ↦
            subst (Lands at f (some l) j) (sym (append_line_refused at f line e i open_failed n))
              (same_text ∙ nothing_lands at (text_of d j.files))
      ]

-- Whatever appends to a journal succeed or fail, a day's file that none of them is late enough to
-- prune has what it had, and then what the calls with a record of that day left, in order: the whole
-- line of each that returned no error, what was written of one whose write failed, and nothing of the
-- others. The files that were open before and between do not matter.
pub append_each-lands :
    (c : Calendar) (day : Text) (ks : List Call) (j : Journal)
    → IsKept c day ks
    → text_of day (append_each c ks j).1.files
      ≡ text_of day j.files ++ landed c day ks (append_each c ks j).0
unfolding append_each
append_each-lands c day [] j h = sym (append-nil (text_of day j.files))
append_each-lands c day (k ∷ ks) j h =
    let r = append_record c k.at k.faults k.line j in
    append_each-lands c day ks r.1 h.1
    ∙ (ap (λ t. t ++ landed c day ks (append_each c ks r.1).0)
          (append_record-Lands c day k.at k.faults k.line j h.0)
        ∙ append_assoc (text_of day j.files) _ _)
