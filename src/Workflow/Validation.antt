-- ===== src/Workflow/Validation.antt =====
-- What Validate accepts, described apart from its code, and what Normalize leaves alone.
use pm.Workflow.Stage.{
  no_kind, Stage, kind, DurationParser, check_sign, parse_timeout, no_items, offenders_of,
  check_offenders, check_timeout, check_kind, validate_stage,
}
use pm.Workflow.Config.{Config, validate_stages, validate, timeout_duration, default_to}
use pm.Prelude.{
  ℕ, ◌+◌, ◌≡◌, refl, ◌∙◌, ◌≢◌, ◌↔◌, ◌⊎◌, inl, inr, true, false, none, some, List, [], ◌∷◌, arith,
  if◌then◌else◌, Bool-cases, Option-cases, All, Text, same, is_empty, Dict, get, put, get-put, ok,
  Result-cases, ℤ, pos, is_negative,
}

abbrev one_if_set : Text → ℕ
one_if_set t = if is_empty t then 0 else 1

-- How many of script, task and workflow a stage sets.
abbrev pub count_forms : Stage → ℕ
count_forms s = one_if_set s.script + one_if_set s.task + one_if_set s.workflow

-- No timeout, or one that parses to a duration that is not negative.
abbrev pub IsTimeout : DurationParser → Text → Type 0
IsTimeout parse t = (is_empty t ≡ true) ⊎ ((d : ℤ) × (parse t ≡ some d) × (is_negative d ≡ false))

pub record StageIsValid (parse : DurationParser) (s : Stage) : Type 0 where
  pub one_form : count_forms s ≡ 1
  -- args and env belong to a script stage.
  pub arguments : (is_empty s.script ≡ false) ⊎ ((no_items s.args ≡ true) × (no_items s.env ≡ true))
  pub timeout : IsTimeout parse s.timeout

-- kind is the empty kind exactly where there is not exactly one form.
pub kind_iff : (s : Stage) → (kind s ≢ no_kind) ↔ (count_forms s ≡ 1)
unfolding kind
kind_iff s = ground arith

IsTimeout-parses :
    (parse : DurationParser) (t : Text)
    → IsTimeout parse t
    → (d : ℤ) × (parse_timeout parse t ≡ ok d)
unfolding parse_timeout check_sign
IsTimeout-parses parse t h = elim (Bool-cases (is_empty t)) [
  | inl e ↦ (pos 0, ground arith)
  | inr e ↦ elim h [ inl f ↦ cc | inr (d, p, n) ↦ (d, ground arith) ]
]

parses-IsTimeout :
    (parse : DurationParser) (t : Text) (d : ℤ) → parse_timeout parse t ≡ ok d → IsTimeout parse t
unfolding parse_timeout check_sign
parses-IsTimeout parse t d h = elim (Bool-cases (is_empty t)) [
  | inl e ↦ inl e
  | inr e ↦ elim (Option-cases (parse t)) [
    | inl n ↦ ground arith
    | inr (z, p) ↦ inr (z, p, ground arith)
  ]
]

-- validateStage accepts exactly the valid stages.
validate_stage-ok :
    (parse : DurationParser) (s : Stage) → validate_stage parse s ≡ ok tt → StageIsValid parse s
unfolding validate_stage check_kind kind check_timeout check_offenders offenders_of
validate_stage-ok parse s h = elim (Result-cases (parse_timeout parse s.timeout)) [
  | inl (d, e) ↦ record {
    one_form = ground arith;
    arguments = ground arith;
    timeout = parses-IsTimeout parse s.timeout d e;
  }
  | inr (x, e) ↦ ground arith
]

StageIsValid-ok :
    (parse : DurationParser) (s : Stage) → StageIsValid parse s → validate_stage parse s ≡ ok tt
unfolding validate_stage check_kind kind check_timeout check_offenders offenders_of
StageIsValid-ok parse s v =
    let (d, e) = IsTimeout-parses parse s.timeout v.timeout in
    ground (arith, e, v.one_form, v.arguments)

-- No two stages share a name.
abbrev pub Distinct : List Stage → Type 0
Distinct [] = Unit
Distinct (s ∷ ss) = All (λ (t : Stage). same t.name s.name ≡ false) ss × Distinct ss

abbrev Unseen : Dict ℕ → List Stage → Type 0
Unseen seen = All (λ (t : Stage). get t.name seen ≡ none)

Unseen-put :
    (n : Text) (i : ℕ) (seen : Dict ℕ) (ss : List Stage)
    → Unseen (put n i seen) ss
    → Unseen seen ss × All (λ (t : Stage). same t.name n ≡ false) ss
Unseen-put n i seen [] h = (tt, tt)
Unseen-put n i seen (s ∷ ss) h =
    let (u, d) = Unseen-put n i seen ss h.1 in
    let e = get-put s.name n i seen in
    let first = h.0 in ((ground (arith, e, first), u), (ground (arith, e, first), d))

put-Unseen :
    (n : Text) (i : ℕ) (seen : Dict ℕ) (ss : List Stage)
    → Unseen seen ss
    → All (λ (t : Stage). same t.name n ≡ false) ss
    → Unseen (put n i seen) ss
put-Unseen n i seen [] u d = tt
put-Unseen n i seen (s ∷ ss) u d =
    (get-put s.name n i seen ∙ rw (d.0) u.0, put-Unseen n i seen ss u.1 d.1)

-- What the loop over the stages accepts.
abbrev LoopAccepts : DurationParser → Dict ℕ → List Stage → Type 0
LoopAccepts parse seen ss = All (StageIsValid parse) ss × Unseen seen ss × Distinct ss

module _ (parse : DurationParser) where
  validate_stages-ok :
      (i : ℕ) (seen : Dict ℕ) (ss : List Stage)
      → validate_stages parse i seen ss ≡ ok tt
      → LoopAccepts parse seen ss
  unfolding validate_stages
  validate_stages-ok i seen [] h = (tt, tt, tt)
  validate_stages-ok i seen (s ∷ ss) h = elim (Result-cases (validate_stage parse s)) [
    | inr (x, e) ↦ ground arith
    | inl (u, e) ↦ elim (Option-cases (get s.name seen)) [
      | inr (n, f) ↦ ground arith
      | inl f ↦
          let (v, w, d) = validate_stages-ok (i + 1) (put s.name i seen) ss (ground arith) in
          let (unseen, fresh) = Unseen-put s.name i seen ss w in
          ((validate_stage-ok parse s e, v), (f, unseen), (fresh, d))
    ]
  ]

  LoopAccepts-ok :
      (i : ℕ) (seen : Dict ℕ) (ss : List Stage)
      → LoopAccepts parse seen ss
      → validate_stages parse i seen ss ≡ ok tt
  unfolding validate_stages
  LoopAccepts-ok i seen [] h = refl
  LoopAccepts-ok i seen (s ∷ ss) (v, u, d) =
      rw (StageIsValid-ok parse s v.0, u.0)
        (LoopAccepts-ok (i + 1) (put s.name i seen) ss
          (v.1, put-Unseen s.name i seen ss u.1 d.0, d.1))

-- A workflow that Validate should accept: it has a name and a stage, its timeout is well-formed, each
-- of its stages is valid, and no two share a name.
pub record IsValid (parse : DurationParser) (c : Config) : Type 0 where
  pub named : is_empty c.name ≡ false
  pub staged : no_items c.stages ≡ false
  pub timeout : IsTimeout parse c.timeout
  pub stages : All (StageIsValid parse) c.stages
  pub distinct : Distinct c.stages

none_seen : (ss : List Stage) → Unseen [] ss
unfolding get
none_seen [] = tt
none_seen (s ∷ ss) = (refl, none_seen ss)

validate-IsValid :
    (parse : DurationParser) (c : Config) → validate parse c ≡ ok tt → IsValid parse c
unfolding validate
validate-IsValid parse c h = elim (Result-cases (parse_timeout parse c.timeout)) [
  | inr (x, e) ↦ ground arith
  | inl (d, e) ↦
      let (v, _, n) = validate_stages-ok parse 0 [] c.stages (ground arith) in
      record {
        named = ground arith;
        staged = ground arith;
        timeout = parses-IsTimeout parse c.timeout d e;
        stages = v;
        distinct = n;
      }
]

IsValid-validate :
    (parse : DurationParser) (c : Config) → IsValid parse c → validate parse c ≡ ok tt
unfolding validate
IsValid-validate parse c v =
    let (d, e) = IsTimeout-parses parse c.timeout v.timeout in
    rw (v.named, v.staged, e)
      (LoopAccepts-ok parse 0 [] c.stages (v.stages, none_seen c.stages, v.distinct))

-- Validate accepts exactly the valid workflows, whatever durations time.ParseDuration accepts.
pub validate_iff :
    (parse : DurationParser) (c : Config) → (validate parse c ≡ ok tt) ↔ IsValid parse c
validate_iff parse c = (validate-IsValid parse c, IsValid-validate parse c)

-- The timeout of a stage, its own or its workflow's, is never negative.
pub timeout_duration_nonnegative :
    (parse : DurationParser) (c : Config) (s : Stage)
    → is_negative (timeout_duration parse c s) ≡ false
unfolding timeout_duration parse_timeout check_sign
timeout_duration_nonnegative parse c s = ground arith

default_to_twice : (d t : Text) → default_to d (default_to d t) ≡ default_to d t
default_to_twice d t = ground arith
