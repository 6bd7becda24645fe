-- ===== src/Wfengine/Registry.antt =====
-- daemon/wfengine/engine.go and cron.go: registering, deleting, loading and arming definitions.
pub mod Arming
pub mod Accepting
pub mod Dump
use pm.Cron.{Entries}
use pm.Cron
use pm.Workflow.Stage.{DurationParser}
use pm.Workflow.Config.{Config, Defs, Paths, key, keys, normalize, validate, ValidateError}
use pm.Workflow.Graph.{Ref, resolve, dangling_refs}
use pm.Workflow.Search.{Visit, done, cycle, out_of_fuel, check_acyclic}
use pm.Wfengine.State.{Engine}
use pm.Prelude.{
  ℕ, Bool, not, ◌&&◌, Option, none, some, List, [], ◌∷◌, ◌++◌, map, if◌then◌else◌, take, Text,
  is_empty, sort_texts, get, put, remove, Result, ok, err, ◌>>◌,
}

-- The engine with its schedules and the file that its definitions are saved in.
pub record Registry : Type 0 where
  pub engine : Engine
  pub armed : Entries
  -- The content of the file; none if there is no file.
  pub dump : Option Text

-- How a save goes: json.MarshalIndent, and what fails of making the directory and writing the file.
-- os.WriteFile empties the file first, so a write that fails leaves the first bytes.
pub data SaveOutcome : Type 0 where
  saves fails_before : SaveOutcome
  fails_after : ℕ → SaveOutcome

pub record Saving : Type 0 where
  pub marshal : List Config → Option Text
  pub outcome : SaveOutcome

pub data Warning : Type 0 where
  cron_rejected : (key cron : Text) → Warning
  dangling : Ref → Warning

pub data RegistryError : Type 0 where
  invalid : ValidateError → RegistryError
  cyclic : List Text → RegistryError
  unknown : Text → RegistryError
  not_persisted not_readable not_parsed : RegistryError

unfoldable pub cron_at : Defs → Text → Text
cron_at defs k = elim (get k defs) [ none ↦ [] | some c ↦ c.cron ]

-- The loop of armAll over the keys.
unfoldable pub arm_keys : (Text → Bool) → Defs → List Text → Entries → List Warning × Entries
unfolding Cron.register
arm_keys parses defs [] armed = ([], armed)
arm_keys parses defs (k ∷ ks) armed =
    let c = cron_at defs k in
    let cleared = remove k armed in
    let t = Cron.register parses k c armed in
    let rest = arm_keys parses defs ks (if is_empty c then cleared else t.1) in
    (if not (is_empty c) && not t.0 then cron_rejected k c ∷ rest.0 else rest.0, rest.1)

-- armAll.
unfoldable pub arm_all : (Text → Bool) → Defs → Entries → List Warning × Entries
unfolding arm_keys
arm_all parses defs armed =
    let t = arm_keys parses defs (keys defs) armed in
    (t.0 ++ map dangling (dangling_refs defs), t.1)

unfoldable pub configs_at : Defs → List Text → List Config
configs_at defs [] = []
configs_at defs (k ∷ ks) =
    let rest = configs_at defs ks in elim (get k defs) [ none ↦ rest | some c ↦ c ∷ rest ]

abbrev pub write_dump :
    SaveOutcome → Text → Option Text → Result RegistryError (Unit {0}) × Option Text
write_dump saves bytes old = (ok tt, some bytes)
write_dump fails_before bytes old = (err not_persisted, old)
write_dump (fails_after n) bytes old = (err not_persisted, some (take n bytes))

abbrev pub store_dump : SaveOutcome → Text → Registry → Result RegistryError (Unit {0}) × Registry
store_dump o bytes r = let (x, dump) = write_dump o bytes r.dump in (x, record r { dump = dump })

-- persist: the file holds the definitions in the order of their keys.
unfoldable pub persist : Saving → Defs → Registry → Result RegistryError (Unit {0}) × Registry
unfolding configs_at
persist s defs r = elim (s.marshal (configs_at defs (keys defs))) [
  | none ↦ (err not_persisted, r)
  | some bytes ↦ store_dump s.outcome bytes r
]

-- The loop that Register and Load fill the map with.
unfoldable pub merge : List Config → Defs → Defs
merge [] defs = defs
merge (c ∷ cs) defs = merge cs (put (key c) c defs)

unfoldable pub validate_each : DurationParser → List Config → Result ValidateError (Unit {0})
validate_each parse [] = ok tt
validate_each parse (c ∷ cs) = validate parse c >> validate_each parse cs

abbrev pub with_defs : Defs → Registry → Registry
with_defs defs r = record r { engine = record (r.engine) { defs = defs } }

-- The keys registered, sorted, and the warnings.
abbrev pub Registered : Type 0
Registered = Result RegistryError (List Text × List Warning)

unfoldable pub keys_of : List Config → List Text
keys_of [] = []
keys_of (c ∷ cs) = key c ∷ keys_of cs

-- What follows the save in Register.
abbrev pub after_save :
    (Text → Bool)
    → List Config
    → Defs
    → Result RegistryError (Unit {0}) × Registry
    → Registered × Registry
after_save parses cs merged (err x, r) = (err x, r)
after_save parses cs merged (ok u, r) =
    let t = arm_all parses merged r.armed in
    (ok (sort_texts (keys_of cs), t.0), record r { armed = t.1 })

-- Register once the batch is acyclic: the definitions are the engine's before they are saved.
unfoldable pub install :
    (Text → Bool) → Saving → List Config → Defs → Registry → Registered × Registry
unfolding persist arm_all
install parses saved cs merged r =
    after_save parses cs merged (persist saved merged (with_defs merged r))

unfoldable pub register_checked :
    (Text → Bool) → Saving → List Config → Defs → Visit → Registry → Registered × Registry
unfolding install
register_checked parses saved cs merged (done c) r = install parses saved cs merged r
register_checked parses saved cs merged (cycle p) r = (err (cyclic p), r)
register_checked parses saved cs merged out_of_fuel r = (err (cyclic []), r)

unfoldable pub register_valid :
    (Text → Bool)
    → Saving
    → List Config
    → Result ValidateError (Unit {0})
    → Registry
    → Registered × Registry
unfolding register_checked merge
register_valid parses saved cs (err x) r = (err (invalid x), r)
register_valid parses saved cs (ok u) r =
    let merged = merge cs r.engine.defs in
    register_checked parses saved cs merged (check_acyclic merged) r

-- Register.
unfoldable pub register :
    DurationParser → (Text → Bool) → Saving → List Config → Registry → Registered × Registry
unfolding register_valid validate_each
register parse parses saved cs r = register_valid parses saved cs (validate_each parse cs) r

-- Delete.
unfoldable pub delete_key :
    Saving → Text → Option Text → Registry → Result RegistryError (Unit {0}) × Registry
unfolding persist
delete_key saved r none s = (err (unknown r), s)
delete_key saved r (some k) s =
    let defs = remove k s.engine.defs in
    persist saved defs (record (with_defs defs s) { armed = remove k s.armed })

unfoldable pub delete : Saving → Text → Registry → Result RegistryError (Unit {0}) × Registry
unfolding delete_key
delete saved r s = delete_key saved r (resolve s.engine.defs r) s

-- What reading the saved file gives.
pub data Saved : Type 0 where
  missing unreadable malformed : Saved
  parsed : List Config → Saved

-- os.ReadFile and json.Unmarshal on the file.
unfoldable pub read_dump : Bool → (Text → Option (List Config)) → Option Text → Saved
read_dump reads unmarshal none = missing
read_dump reads unmarshal (some bytes) =
    let found : Saved = elim (unmarshal bytes) [ none ↦ malformed | some cs ↦ parsed cs ] in
    if reads then found else unreadable

unfoldable pub normalize_each : Paths → List Config → List Config
normalize_each p [] = []
normalize_each p (c ∷ cs) = normalize p [] c ∷ normalize_each p cs

-- Load: no cycle check is made here.
unfoldable pub load :
    Paths → (Text → Bool) → Saved → Registry → Result RegistryError (Unit {0}) × Registry
unfolding merge normalize_each arm_all
load p parses missing r = (ok tt, r)
load p parses unreadable r = (err not_readable, r)
load p parses malformed r = (err not_parsed, r)
load p parses (parsed cs) r =
    let defs = merge (normalize_each p cs) r.engine.defs in
    (ok tt, record (with_defs defs r) { armed = (arm_all parses defs r.armed).1 })
