-- ===== src/Daemon/Journal.antt =====
-- daemon/history.go: the records of the task journal, as they are handed to the history.
use pm.Wfengine.Exit.{ExitInfo, is_success}
use pm.Wfengine.State.{success, failed, skipped, exit_code_of, duration_ms}
use pm.Daemon.State.{unset, ProcessInfo}
use pm.Daemon.Launch.{TaskRecord, run_event, cron_skip, launch_fail, Daemon}
use pm.Prelude.{ℕ, false, none, [], ◌∷◌, ◌++◌, if◌then◌else◌, Text, codes}

abbrev pub trigger_of_cron : Text
trigger_of_cron = codes "cron"

-- The zero ProcessInfo, which the snapshot of onProcessExit is where the entry is gone.
abbrev pub zero_info : ProcessInfo
zero_info = record {
  app = record {
    namespace = [];
    name = [];
    script = [];
    args = [];
    instances = 0;
    env = [];
    cron_restart = [];
    cron = [];
    watch = false;
    max_restarts = 0;
    version = [];
    config_file = [];
    cwd = [];
    base_env = [];
    paused = false;
    optional = false;
  };
  id = 0;
  log_file = [];
  error_file = [];
  pid = 0;
  status = unset;
  restarts = 0;
  started_at = 0;
  cpu = 0;
  memory = 0;
  user = [];
  last_cron_at = 0;
  last_cron_status = [];
}

-- recordRun.
unfoldable pub run_record : ProcessInfo → Text → Text → ExitInfo → ℕ → TaskRecord
run_record info run_id trigger exit now = record {
  ts = now;
  event = run_event;
  run_id = run_id;
  namespace = info.app.namespace;
  name = info.app.name;
  id = info.id;
  trigger = trigger;
  pid = info.pid;
  started_at = info.started_at;
  duration = duration_ms info.started_at now;
  exit_code = exit_code_of exit.code exit.known;
  signal = exit.signal;
  restarts = info.restarts;
  status = if is_success exit then success else failed;
  detail = [];
}

-- A record of a fire without a run, for recordCronSkip and recordLaunchFailure.
abbrev pub fire_record : TaskRecord → Text → Text → Text → ℕ → TaskRecord
fire_record r ns name run_id at = record r { namespace = ns; name = name; run_id = run_id; ts = at }

abbrev blank_record : TaskRecord
blank_record = record {
  ts = 0;
  event = cron_skip;
  run_id = [];
  namespace = [];
  name = [];
  id = 0;
  trigger = trigger_of_cron;
  pid = 0;
  started_at = 0;
  duration = 0;
  exit_code = none;
  signal = [];
  restarts = 0;
  status = skipped;
  detail = codes "previous run still active";
}

unfoldable pub skip_record : Text → Text → Text → ℕ → TaskRecord
skip_record ns name run_id at = fire_record blank_record ns name run_id at

unfoldable pub launch_failure_record : Text → Text → Text → ℕ → Text → TaskRecord
launch_failure_record ns name run_id at cause =
    fire_record (record blank_record { event = launch_fail; status = failed; detail = cause }) ns
      name run_id at

abbrev pub append_task : TaskRecord → Daemon → Daemon
append_task r d = record d { journal = d.journal ++ r ∷ [] }
