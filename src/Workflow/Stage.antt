-- ===== src/Workflow/Stage.antt =====
-- workflow/config.go: a stage, its three forms, and how its timeout is read.
use pm.Prelude.{
  Bool, true, false, not, ◌&&◌, Option, none, some, List, [], ◌∷◌, ◌++◌, if◌then◌else◌, Text, codes,
  is_empty, Dict, Result, ok, err, ◌>>◌, ℤ, pos, is_negative,
}

pub data StageKind : Type 0 where
  stage_script stage_task stage_workflow : StageKind
  -- The empty kind, of a stage that is not exactly one of the three.
  no_kind : StageKind

pub record Stage : Type 0 where
  pub name : Text
  pub script : Text
  pub args : List Text
  pub task : Text
  pub workflow : Text
  pub env : Dict Text
  pub cwd : Text
  pub timeout : Text

unfoldable pub kind : Stage → StageKind
kind s =
    if not (is_empty s.script) && is_empty s.task && is_empty s.workflow
    then stage_script
    else (if not (is_empty s.task) && is_empty s.script && is_empty s.workflow
        then stage_task
        else (if not (is_empty s.workflow) && is_empty s.script && is_empty s.task
            then stage_workflow
            else no_kind))

ref_of : StageKind → Stage → Text
ref_of stage_task s = s.task
ref_of stage_workflow s = s.workflow
ref_of _ s = []

-- The method Ref.
unfoldable pub ref : Stage → Text
unfolding ref_of
ref s = ref_of (kind s) s

pub data TimeoutError : Type 0 where
  unparsable negative : TimeoutError

-- time.ParseDuration belongs to Go's library: the text's duration in nanoseconds, or an error.
abbrev pub DurationParser : Type 0
DurationParser = Text → Option ℤ

unfoldable pub check_sign : Option ℤ → Result TimeoutError ℤ
check_sign none = err unparsable
check_sign (some d) = if is_negative d then err negative else ok d

unfoldable pub parse_timeout : DurationParser → Text → Result TimeoutError ℤ
unfolding check_sign
parse_timeout parse s = if is_empty s then ok (pos 0) else check_sign (parse s)

-- describeStageKeys: the keys that were present, for the error message.
unfoldable pub describe_stage_keys : Stage → List Text
describe_stage_keys s =
    (if is_empty s.script then [] else codes "script" ∷ [])
    ++ (if is_empty s.task then [] else codes "task" ∷ [])
    ++ (if is_empty s.workflow then [] else codes "workflow" ∷ [])

abbrev pub no_items {ℓ} : {A : Type ℓ} → List A → Bool
no_items [] = true
no_items (x ∷ xs) = false

pub data StageError : Type 0 where
  kind_required : (found : List Text) → StageError
  script_only : (offenders : List Text) → StageKind → StageError
  stage_timeout : TimeoutError → StageError

unfoldable pub offenders_of : Stage → List Text
offenders_of s =
    (if no_items s.args then [] else codes "args" ∷ [])
    ++ (if no_items s.env then [] else codes "env" ∷ [])

unfoldable pub check_offenders : StageKind → List Text → Result StageError (Unit {0})
check_offenders k [] = ok tt
check_offenders k (o ∷ os) = err (script_only (o ∷ os) k)

unfoldable pub check_timeout : DurationParser → Stage → Result StageError (Unit {0})
unfolding parse_timeout
check_timeout parse s = elim (parse_timeout parse s.timeout) [
  | ok d ↦ ok tt
  | err e ↦ err (stage_timeout e)
]

unfoldable pub check_kind : DurationParser → StageKind → Stage → Result StageError (Unit {0})
unfolding check_offenders offenders_of check_timeout
check_kind parse no_kind s = err (kind_required (describe_stage_keys s))
check_kind parse stage_script s = check_timeout parse s
check_kind parse k s = check_offenders k (offenders_of s) >> check_timeout parse s

-- validateStage.
unfoldable pub validate_stage : DurationParser → Stage → Result StageError (Unit {0})
unfolding check_kind kind
validate_stage parse s = check_kind parse (kind s) s
