-- ===== src/Daemon/Starting.antt =====
-- daemon/process_manager.go: StartApp and Resurrect; process/app_config.go: Normalize;
-- daemon/workflow.go: LookupTask.
use pm.Paths.{stem}
use pm.Workflow.Config.{Paths, itoa, default_to, resolve_script_path}
use pm.Daemon.State.{AppConfig, ProcessInfo, ManagedProcess, cron_key}
use pm.Daemon.Registry.{find_existing, snapshot}
use pm.Daemon.Launch.{AppStartReq, Daemon, Surroundings, default_namespace, namespace_of, launch}
use pm.Daemon.Lifecycle.{stop_process}
use pm.Daemon.Manager.{Manager, Outside, ManagerError, other_script, launch_failed, auto_save}
use pm.Prelude.{
  ℕ, zero, suc, ◌+◌, Bool, true, false, not, ◌&&◌, ◌||◌, Option, none, some, List, [], ◌∷◌, ◌++◌,
  map, ltb, ◌==◌, if◌then◌else◌, Text, codes, same, is_empty, Result, ok, err,
}

abbrev pub default_max_restarts : ℕ
default_max_restarts = 15

abbrev pub at_least_one : ℕ → ℕ → ℕ
at_least_one d n = if n == 0 then d else n

-- Normalize; a negative number of instances or restarts is given as 0. os.Getwd may fail.
unfoldable pub normalize_app : Paths → Option Text → Text → AppConfig → AppConfig
normalize_app p cwd base_dir a = record a {
  instances = at_least_one 1 a.instances;
  max_restarts = at_least_one default_max_restarts a.max_restarts;
  namespace = default_to default_namespace a.namespace;
  name = if is_empty a.name && not (is_empty a.script) then stem (p.base a.script) else a.name;
  config_file =
      default_to
        (elim cwd [
          | none ↦ codes "ecosystem.config.js"
          | some dir ↦ p.path_join dir (codes "ecosystem.config.js")
        ])
        a.config_file;
  cwd = default_to base_dir a.cwd;
  script = if is_empty base_dir then a.script else resolve_script_path p base_dir a.script;
}

-- What StartApp returns: the launched entries, and the error that stopped it.
abbrev pub Started : Type 0
Started = List ProcessInfo × Option ManagerError

-- What is stopped before a launch: the entry that it replaces.
abbrev pub stop_existing : Option (Text × ManagedProcess) → Daemon → Daemon
stop_existing none d = d
stop_existing (some (k, mp)) d = stop_process mp d

abbrev pub is_other_script : Text → Option (Text × ManagedProcess) → Bool
is_other_script script none = false
is_other_script script (some (k, mp)) = not (same mp.info.app.script script)

abbrev existing_script : Option (Text × ManagedProcess) → Text
existing_script none = []
existing_script (some (k, mp)) = mp.info.app.script

-- The body of the loop of StartApp.
unfoldable pub start_instance :
    Surroundings → Text → AppStartReq → Daemon → Result ManagerError ProcessInfo × Daemon
unfolding launch stop_process
start_instance s name req d =
    let found = find_existing (namespace_of req) name req.app.config_file d.processes in
    let t = launch s name req (codes "manual") (stop_existing found d) in
    let launched : Result ManagerError ProcessInfo = elim t.0 [
      | ok info ↦ ok info
      | err m ↦ err (launch_failed name m)
    ] in
    if is_other_script req.app.script found
    then (err (other_script name (existing_script found)), d)
    else (launched, t.1)

unfoldable pub instance_name : AppStartReq → ℕ → ℕ → Text
instance_name req instances i =
    if ltb 1 instances then req.app.name ++ codes "-" ++ itoa i else req.app.name

-- The loop, from instance `i` on, with the number that is left.
unfoldable pub start_instances :
    Outside → AppStartReq → ℕ → ℕ → ℕ → ℕ → List ProcessInfo → Daemon → Started × Daemon
unfolding start_instance
start_instances o req instances zero i t infos d = ((infos, none), d)
start_instances o req instances (suc left) i t infos d =
    let first = start_instance (o.around t) (instance_name req instances i) req d in
    elim first.0 [
      | err e ↦ ((infos, some e), first.1)
      | ok info ↦ start_instances o req instances left (i + 1) (t + 1) (infos ++ info ∷ []) first.1
    ]

abbrev pub no_infos : List ProcessInfo → Bool
no_infos [] = true
no_infos (i ∷ is) = false

-- StartApp: what was launched is saved, when an error ends it too.
unfoldable pub start_app : Outside → AppStartReq → Manager → Started × Manager
unfolding start_instances auto_save
start_app o req m =
    let n = at_least_one 1 req.app.instances in
    let t = start_instances o req n n 0 m.ticks [] m.daemon in
    let after = record m { daemon = t.1; ticks = m.ticks + n } in
    (t.0, if no_infos t.0.0 then after else auto_save o after)

abbrev pub saved_request : Paths → Option Text → AppConfig → AppStartReq
saved_request p cwd a = record { app = normalize_app p cwd [] a; cron_triggered = false }

-- The loop of Resurrect: an entry that fails does not stop the others.
unfoldable pub start_saved : Outside → Paths → Option Text → List AppConfig → Manager → Manager
unfolding start_app normalize_app
start_saved o p cwd [] m = m
start_saved o p cwd (a ∷ apps) m =
    start_saved o p cwd apps (start_app o (saved_request p cwd a) m).1

-- What reading the dump gives.
pub data DumpRead : Type 0 where
  no_dump bad_dump : DumpRead
  entries : List AppConfig → DumpRead

pub data ResurrectError : Type 0 where
  dump_missing dump_incompatible : ResurrectError

-- Resurrect: nothing is saved while the dump is replayed.
unfoldable pub resurrect :
    Outside → Paths → Option Text → DumpRead → Manager → Result ResurrectError (Unit {0}) × Manager
unfolding start_saved
resurrect o p cwd no_dump m = (err dump_missing, m)
resurrect o p cwd bad_dump m = (err dump_incompatible, m)
resurrect o p cwd (entries apps) m =
    (ok tt, record (start_saved o p cwd apps (record m { suppress = true })) { suppress = false })

pub data LookupError : Type 0 where
  not_registered : Text → LookupError
  ambiguous_task : Text → List Text → LookupError

abbrev pub info_key : ProcessInfo → Text
info_key info = cron_key info.app.namespace info.app.name

unfoldable pub lookup_key : Text → List ProcessInfo → Result LookupError AppConfig
lookup_key r [] = err (not_registered r)
lookup_key r (i ∷ is) = let rest = lookup_key r is in if same (info_key i) r then ok i.app else rest

abbrev pub choose_match : Text → List ProcessInfo → Result LookupError AppConfig
choose_match r [] = err (not_registered r)
choose_match r (i ∷ []) = ok i.app
choose_match r (i ∷ j ∷ is) = err (ambiguous_task r (map info_key (i ∷ j ∷ is)))

-- The loop over a bare name, with the matches so far: the default namespace wins at once.
unfoldable pub lookup_name :
    Text → List ProcessInfo → List ProcessInfo → Result LookupError AppConfig
lookup_name r matches [] = choose_match r matches
lookup_name r matches (i ∷ is) =
    let later = lookup_name r (matches ++ i ∷ []) is in
    let skipped = lookup_name r matches is in
    if not (same i.app.name r)
    then skipped
    else (if same i.app.namespace default_namespace then ok i.app else later)

abbrev pub has_colon : Text → Bool
has_colon [] = false
has_colon (b ∷ s) = b == b':' || has_colon s

-- LookupTask.
unfoldable pub lookup_task : Text → Manager → Result LookupError AppConfig
unfolding lookup_key lookup_name snapshot
lookup_task r m =
    let infos = snapshot m.daemon.processes in
    if has_colon r then lookup_key r infos else lookup_name r [] infos
