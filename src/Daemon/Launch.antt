-- ===== src/Daemon/Launch.antt =====
-- daemon/launch.go: launchProcessWith, the registry's side of a launch.
use pm.Cron
use pm.Cron.{Entries}
use pm.Wfengine.State.{Status}
use pm.Daemon.State.{
  ProcessStatus, online, stopped, paused, AppConfig, ProcessInfo, ManagedProcess, Processes,
  cron_key,
}
use pm.Daemon.Registry.{find_existing}
use pm.Prelude.{
  ℕ, ◌+◌, Bool, false, not, ◌&&◌, Option, none, some, List, [], ◌++◌, if◌then◌else◌, Text, codes,
  same, is_empty, put, remove, Result, ok, err, ℤ,
}

pub record AppStartReq : Type 0 where
  pub app : AppConfig
  pub cron_triggered : Bool

pub data Event : Type 0 where
  run_event cron_skip launch_fail : Event

-- One line of the task journal.
pub record TaskRecord : Type 0 where
  pub ts : ℕ
  pub event : Event
  pub run_id : Text
  pub namespace : Text
  pub name : Text
  pub id : ℕ
  pub trigger : Text
  pub pid : ℕ
  pub started_at : ℕ
  pub duration : ℕ
  pub exit_code : Option ℤ
  pub signal : Text
  pub restarts : ℕ
  pub status : Status
  pub detail : Text

-- The ProcessManager. `handles` counts the entries that were allocated.
pub record Daemon : Type 0 where
  pub processes : Processes
  pub next_id : ℕ
  pub handles : ℕ
  pub armed : Entries
  pub journal : List TaskRecord

-- What executor.Start returns, and the rest of the outside world that a launch reads.
pub record StartResult : Type 0 where
  pub pid : ℕ
  pub cwd : Text
  pub log_file : Text
  pub error_file : Text

pub record Surroundings : Type 0 where
  pub start : Result Text StartResult
  pub now : ℕ
  pub run_id : Text
  -- user.Current.
  pub user : Option Text
  pub app_version : Text → Text
  pub parses : Text → Bool

abbrev pub default_namespace : Text
default_namespace = codes "default"

abbrev pub namespace_of : AppStartReq → Text
namespace_of req = if is_empty req.app.namespace then default_namespace else req.app.namespace

abbrev pub is_cron_task : AppStartReq → Bool
is_cron_task req = not (is_empty req.app.cron) && not req.cron_triggered

unfoldable pub launch_status : AppStartReq → ProcessStatus
launch_status req =
    if req.app.paused then paused else (if is_cron_task req then stopped else online)

abbrev pub is_spawned : AppStartReq → Bool
is_spawned req = not req.app.paused && not (is_cron_task req)

-- The new entry, with the identifier it gets and what it takes over from an existing one.
unfoldable pub new_entry :
    Surroundings
    → Text
    → AppStartReq
    → Text
    → StartResult
    → ℕ
    → ℕ
    → Option (Text × ManagedProcess)
    → ManagedProcess
unfolding launch_status
new_entry s name req trigger result handle id found = record {
  handle = handle;
  info = record {
    app = record {
      namespace = namespace_of req;
      name = name;
      script = req.app.script;
      args = req.app.args;
      instances = 0;
      env = req.app.env;
      cron_restart = req.app.cron_restart;
      cron = req.app.cron;
      watch = req.app.watch;
      max_restarts = req.app.max_restarts;
      version = if is_empty req.app.version then s.app_version req.app.script else req.app.version;
      config_file = req.app.config_file;
      cwd = result.cwd;
      base_env = req.app.base_env;
      paused = false;
      optional = req.app.optional;
    };
    id = id;
    log_file = result.log_file;
    error_file = result.error_file;
    pid = if is_spawned req then result.pid else 0;
    status = launch_status req;
    restarts = elim found [ none ↦ 0 | some (k, mp) ↦ mp.info.restarts ];
    started_at = if is_spawned req then s.now else 0;
    cpu = 0;
    memory = 0;
    user = elim s.user [ none ↦ codes "unknown" | some name ↦ name ];
    last_cron_at = elim found [ none ↦ 0 | some (k, mp) ↦ mp.info.last_cron_at ];
    last_cron_status = elim found [ none ↦ [] | some (k, mp) ↦ mp.info.last_cron_status ];
  };
  is_stopping = false;
  is_paused = req.app.paused;
  run_id = s.run_id;
  trigger = trigger;
}

-- Storing the entry, and dropping the one that it replaces under another key.
unfoldable pub put_entry :
    Text → ManagedProcess → Option (Text × ManagedProcess) → Processes → Processes
put_entry k mp none ps = put k mp ps
put_entry k mp (some (old, _)) ps =
    if not (is_empty old) && not (same old k) then remove old (put k mp ps) else put k mp ps

-- The schedules of a launch: cron_restart first, and cron over it.
unfoldable pub arm_entry : (Text → Bool) → Text → AppStartReq → Entries → Entries
unfolding Cron.register
arm_entry parses k req armed =
    let first =
      if not (is_empty req.app.cron_restart) && not req.app.paused
      then (Cron.register parses k req.app.cron_restart armed).1
      else armed in
    if not (is_empty req.app.cron) && not req.app.paused
    then (Cron.register parses k req.app.cron first).1
    else first

unfoldable pub install_entry :
    Surroundings
    → Text
    → AppStartReq
    → Text
    → StartResult
    → Option (Text × ManagedProcess)
    → Daemon
    → ProcessInfo × Daemon
unfolding new_entry put_entry arm_entry
install_entry s name req trigger result found d =
    let k = cron_key (namespace_of req) name in
    let id : ℕ = elim found [ none ↦ d.next_id | some (old, mp) ↦ mp.info.id ] in
    let mp = new_entry s name req trigger result d.handles id found in
    (
      mp.info,
      record d {
        processes = put_entry k mp found d.processes;
        next_id = elim found [ none ↦ d.next_id + 1 | some p ↦ d.next_id ];
        handles = d.handles + 1;
        armed = arm_entry s.parses k req d.armed;
      },
    )

unfoldable pub launch_started :
    Surroundings
    → Text
    → AppStartReq
    → Text
    → StartResult
    → Option (Text × ManagedProcess)
    → Daemon
    → Result Text ProcessInfo × Daemon
unfolding install_entry
launch_started s name req trigger result none d =
    let t = install_entry s name req trigger result none d in (ok t.0, t.1)
launch_started s name req trigger result (some (k, mp)) d =
    let t = install_entry s name req trigger result (some (k, mp)) d in
    if mp.is_paused && req.cron_triggered then (ok mp.info, d) else (ok t.0, t.1)

unfoldable pub launch_result :
    Surroundings
    → Text
    → AppStartReq
    → Text
    → Result Text StartResult
    → Daemon
    → Result Text ProcessInfo × Daemon
unfolding launch_started
launch_result s name req trigger (err m) d = (err (codes "executor start: " ++ m), d)
launch_result s name req trigger (ok result) d =
    launch_started s name req trigger result
      (find_existing (namespace_of req) name req.app.config_file d.processes) d

-- launchProcessWith.
unfoldable pub launch :
    Surroundings → Text → AppStartReq → Text → Daemon → Result Text ProcessInfo × Daemon
unfolding launch_result
launch s name req trigger d = launch_result s name req trigger s.start d
