-- ===== src/Workflow/Config.antt =====
-- workflow/config.go: a declared workflow, its key, its defaults and its validation, and
-- process/path.go for the script path that the defaults resolve.
use pm.Workflow.Stage.{
  StageKind, stage_script, Stage, kind, TimeoutError, DurationParser, parse_timeout, StageError,
  validate_stage, no_items,
}
use pm.Prelude.{
  ℕ, zero, suc, ◌+◌, ◌/◌, ◌%◌, Bool, true, false, not, ◌&&◌, ◌||◌, Option, none, some, List, [],
  ◌∷◌, ◌++◌, ltb, ◌==◌, if◌then◌else◌, Text, codes, same, is_empty, sort_texts, Dict, dict_keys,
  get, put, Result, ok, err, ◌>>◌, ℤ, pos, is_positive,
}

abbrev pub default_category : Text
default_category = codes "default"

abbrev pub colon : ℕ
colon = b':'

pub record Config : Type 0 where
  pub category : Text
  pub name : Text
  pub stages : List Stage
  pub cron : Text
  pub env : Dict Text
  pub cwd : Text
  pub timeout : Text
  pub config_file : Text
  pub base_env : List Text

-- Key: "<category>:<name>".
unfoldable pub key : Config → Text
key c = c.category ++ colon ∷ c.name

-- The text before the first colon and the text after it.
unfoldable pub cut_colon : Text → Option (Text × Text)
cut_colon [] = none
cut_colon (b ∷ s) =
    if b == colon
    then some ([], s)
    else elim (cut_colon s) [ none ↦ none | some (before, after) ↦ some (b ∷ before, after) ]

-- ParseKey: a bare name has the empty category.
unfoldable pub parse_key : Text → Text × Text
unfolding cut_colon
parse_key r = elim (cut_colon r) [ none ↦ ([], r) | some p ↦ p ]

-- What the file system and path/filepath answer to ResolveScriptPath.
pub record Paths : Type 0 where
  pub is_abs : Text → Bool
  pub base : Text → Text
  pub path_join : Text → Text → Text
  pub exists : Text → Bool
  pub look_path : Text → Option Text
  pub abs : Text → Option Text

abbrev pub slash : ℕ
slash = b'/'

unfoldable pub has_byte : ℕ → Text → Bool
has_byte b [] = false
has_byte b (a ∷ s) = a == b || has_byte b s

found_in_path : Paths → Text → Option Text → Text
found_in_path p script none = script
found_in_path p script (some look) = elim (p.abs look) [ some full ↦ full | none ↦ look ]

-- ResolveScriptPath. The separator is that of a Unix path.
unfoldable pub resolve_script_path : Paths → Text → Text → Text
unfolding found_in_path
resolve_script_path p base_dir script =
    if is_empty script || p.is_abs script
    then script
    else (if not (same (p.base script) script) || has_byte slash script
        then p.path_join base_dir script
        else (if p.exists (p.path_join base_dir script)
            then p.path_join base_dir script
            else found_in_path p script (p.look_path script)))

-- strconv.Itoa, by fuel: n + 1 rounds are more than the digits of n.
digits_from : ℕ → ℕ → Text
digits_from zero n = []
digits_from (suc f) n =
    let rest = digits_from f (n / 10) in
    if ltb n 10 then (b'0' + n) ∷ [] else rest ++ (b'0' + n % 10) ∷ []

unfoldable pub itoa : ℕ → Text
unfolding digits_from
itoa n = digits_from (suc n) n

abbrev pub default_to : Text → Text → Text
default_to d t = if is_empty t then d else t

is_script : StageKind → Bool
is_script stage_script = true
is_script _ = false

-- The body of the loop in Normalize, at stage number i + 1.
unfoldable pub normalize_stage : Paths → Text → Text → ℕ → Stage → Stage
unfolding is_script
normalize_stage p base_dir cwd i s = record s {
  name = default_to (codes "stage-" ++ itoa (i + 1)) s.name;
  cwd = default_to cwd s.cwd;
  script =
      if is_script (kind s) && not (is_empty base_dir)
      then resolve_script_path p base_dir s.script
      else s.script;
}

unfoldable pub normalize_stages : Paths → Text → Text → ℕ → List Stage → List Stage
normalize_stages p base_dir cwd i [] = []
normalize_stages p base_dir cwd i (s ∷ ss) =
    normalize_stage p base_dir cwd i s ∷ normalize_stages p base_dir cwd (i + 1) ss

unfoldable pub normalize : Paths → Text → Config → Config
normalize p base_dir c =
    let cwd = default_to base_dir c.cwd in
    record c {
      category = default_to default_category c.category;
      cwd = cwd;
      stages = normalize_stages p base_dir cwd 0 c.stages;
    }

pub data ValidateError : Type 0 where
  name_required no_stages : ValidateError
  workflow_timeout : TimeoutError → ValidateError
  -- The stage's number, from 1.
  bad_stage : ℕ → StageError → ValidateError
  -- The stage's number, and that of the stage with its name.
  repeated_name : ℕ → ℕ → ValidateError

abbrev pub at_stage : ℕ → Result StageError (Unit {0}) → Result ValidateError (Unit {0})
at_stage i (ok u) = ok u
at_stage i (err e) = err (bad_stage (i + 1) e)

abbrev pub unused_name : ℕ → Option ℕ → Result ValidateError (Unit {0})
unused_name i none = ok tt
unused_name i (some before) = err (repeated_name (i + 1) (before + 1))

-- The loop of Validate; `seen` maps a stage's name to its index.
unfoldable pub validate_stages :
    DurationParser → ℕ → Dict ℕ → List Stage → Result ValidateError (Unit {0})
validate_stages parse i seen [] = ok tt
validate_stages parse i seen (s ∷ ss) =
    at_stage i (validate_stage parse s)
    >> (unused_name i (get s.name seen) >> validate_stages parse (i + 1) (put s.name i seen) ss)

abbrev pub workflow_timeout_of : Result TimeoutError ℤ → Result ValidateError (Unit {0})
workflow_timeout_of (ok d) = ok tt
workflow_timeout_of (err e) = err (workflow_timeout e)

abbrev pub require : Bool → ValidateError → Result ValidateError (Unit {0})
require true e = ok tt
require false e = err e

unfoldable pub validate : DurationParser → Config → Result ValidateError (Unit {0})
unfolding validate_stages
validate parse c = do
  require (not (is_empty c.name)) name_required
  require (not (no_items c.stages)) no_stages
  workflow_timeout_of (parse_timeout parse c.timeout)
  validate_stages parse 0 [] c.stages

abbrev pub or_zero : Result TimeoutError ℤ → ℤ
or_zero (ok d) = d
or_zero (err e) = pos 0

-- TimeoutDuration: zero means no limit.
unfoldable pub timeout_duration : DurationParser → Config → Stage → ℤ
timeout_duration parse c s =
    let own = or_zero (parse_timeout parse s.timeout) in
    if is_positive own then own else or_zero (parse_timeout parse c.timeout)

-- A definition set, keyed by Key.
abbrev pub Defs : Type 0
Defs = Dict Config

-- Keys: the sorted identities.
unfoldable pub keys : Defs → List Text
keys defs = sort_texts (dict_keys defs)

-- defs[k].Stages; a missing key reads as the zero Config.
unfoldable pub stages_at : Defs → Text → List Stage
stages_at defs k = elim (get k defs) [ none ↦ [] | some c ↦ c.stages ]
