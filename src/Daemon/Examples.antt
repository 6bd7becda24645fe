-- ===== src/Daemon/Examples.antt =====
-- Launches, exits and fires of a few small applications.
use pm.Cron.{Entries}
use pm.Wfengine.Exit.{ExitInfo, exit_info_from_wait, signalled}
use pm.Daemon.State.{ProcessStatus, online, stopped, launching, AppConfig, ManagedProcess, cron_key}
use pm.Daemon.Registry.{find_by_target, find_existing}
use pm.Daemon.Targets.{Unmatched, find_by_target-empty_iff}
use pm.Daemon.Launch.{AppStartReq, Surroundings, Daemon, TaskRecord, launch}
use pm.Daemon.Ids.{IdsUnique}
use pm.Daemon.Journal.{zero_info, skip_record, launch_failure_record}
use pm.Daemon.Lifecycle.{exit_update, on_process_exit, stop_process, cron_run_active, trigger_cron}
use pm.Daemon.Exits.{
  exit_update_falls, on_process_exit-stop_process, trigger_cron-overlap, trigger_cron_failed,
}
use pm.Prelude.{
  ℕ, suc, ◌-◌, ◌≡◌, refl, ◌↔◌, inl, true, false, Option, none, some, List, [], ◌∷◌, ◌++◌, arith,
  if◌then◌else◌, Text, codes, same, get, put, ok, err,
}

abbrev app : Text → Text → AppConfig
app name cron = record (zero_info.app) {
  namespace = codes "ns";
  name = name;
  script = codes "run";
  cron = cron;
  max_restarts = 15;
  config_file = codes "/e.js";
}

abbrev pub surroundings : ℕ → Surroundings
surroundings pid = record {
  start = ok (record { pid = pid; cwd = []; log_file = []; error_file = [] });
  now = 100;
  run_id = codes "r1";
  user = none;
  app_version = λ t. codes "-";
  parses = λ t. true;
}

abbrev no_start : Surroundings
no_start = record (surroundings 0) { start = err (codes "no such file") }

abbrev pub request : Text → Text → AppStartReq
request name cron = record { app = app name cron; cron_triggered = false }

abbrev pub idle_daemon : Daemon
idle_daemon = record { processes = []; next_id = 0; handles = 0; armed = []; journal = [] }

abbrev with_web : Daemon
with_web =
    (launch (surroundings 41) (codes "web") (request (codes "web") []) (codes "manual")
      idle_daemon).1

abbrev entry : ℕ → Text → Text → ProcessStatus → ℕ → ManagedProcess
entry handle name cron status pid = record {
  handle = handle;
  info = record zero_info { app = app name cron; pid = pid; status = status; id = handle };
  is_stopping = false;
  is_paused = false;
  run_id = codes "r0";
  trigger = codes "manual";
}

abbrev pub web : ManagedProcess
web = entry 0 (codes "web") [] online 41

abbrev killed : ExitInfo
killed = exit_info_from_wait (signalled 15 (codes "terminated") (codes "signal: terminated"))

abbrev pub daemon_of : ManagedProcess → Entries → Daemon
daemon_of mp armed = record {
  processes = (cron_key mp.info.app.namespace mp.info.app.name, mp) ∷ [];
  next_id = 7;
  handles = 7;
  armed = armed;
  journal = [];
}

abbrev fields_of : Option ManagedProcess → Option (ℕ × ProcessStatus × ℕ)
fields_of none = none
fields_of (some mp) = some (mp.info.pid, mp.info.status, mp.info.restarts)

-- `web` was stopped and launched again, with the new child 42, before the exit of the child 41 was
-- booked: the booking clears the new child and counts a restart for it.
late_exit_hits_new_entry :
    fields_of (
      get
        (codes "ns:web")
        (on_process_exit web killed 41 100
          (launch
            (surroundings 42)
            (codes "web")
            (request (codes "web") [])
            (codes "restart")
            (stop_process web (daemon_of web []))).1).1.processes)
    ≡ some (0, launching, 1)
unfolding on_process_exit launch stop_process exit_info_from_wait get put same cron_key exit_update
    find_existing
late_exit_hits_new_entry = refl

abbrev last_names : List TaskRecord → Text × Text
last_names [] = ([], [])
last_names (r ∷ []) = (r.namespace, r.name)
last_names (r ∷ s ∷ rs) = last_names (s ∷ rs)

-- `web` was deleted before the exit of its child was booked: the record names no task.
late_exit_of_deleted :
    last_names (on_process_exit web killed 41 100 idle_daemon).1.journal ≡ ([], [])
unfolding on_process_exit exit_info_from_wait get same cron_key
late_exit_of_deleted = refl

exit_update_falls_example :
    let after = (exit_update killed web).1 in
    (web.is_stopping ≡ false)
    × (suc (after.info.app.max_restarts - after.info.restarts)
        ≡ web.info.app.max_restarts - web.info.restarts)
unfolding exit_update exit_info_from_wait
exit_update_falls_example = exit_update_falls killed web refl

on_process_exit-stop_process_example :
    (on_process_exit web killed 41 100 (stop_process web (daemon_of web []))).0 ≡ false
on_process_exit-stop_process_example =
    on_process_exit-stop_process web killed 41 100 (daemon_of web [])

find_by_target-empty_iff_example :
    (find_by_target (λ t. none) (codes "web") with_web.processes ≡ [])
    ↔ Unmatched (λ t. none) (codes "web") with_web.processes
unfolding same
find_by_target-empty_iff_example =
    find_by_target-empty_iff (λ t. none) (codes "web") with_web.processes refl

pub idle-IdsUnique : IdsUnique idle_daemon
unfolding get
idle-IdsUnique = record {
  below = λ k mp h. absurd (ground (arith, h));
  apart = λ j k a b g h e. absurd (ground (arith, g));
  no_empty = refl;
}

-- A cron task whose previous run, the child 9, is active, and one that is idle.
abbrev busy_job : ManagedProcess
busy_job = entry 1 (codes "job") (codes "* * * * *") online 9

abbrev idle_job : ManagedProcess
idle_job = entry 1 (codes "job") (codes "* * * * *") stopped 0

abbrev job_schedule : Entries
job_schedule = (codes "ns:job", codes "* * * * *") ∷ []

trigger_cron-overlap_example :
    let d = daemon_of busy_job job_schedule in
    let after =
      trigger_cron
        (surroundings 10)
        (codes "ns")
        (codes "job")
        (request (codes "job") (codes "* * * * *"))
        d in
    (after.armed ≡ d.armed)
    × (after.journal ≡ d.journal ++ skip_record (codes "ns") (codes "job") (codes "r1") 100 ∷ [])
    × ((j : Text)
        → get j after.processes ≡ (
            if same j (cron_key (codes "ns") (codes "job"))
            then some (record busy_job {
              info = record (busy_job.info) {
                last_cron_at = 100;
                last_cron_status = codes "skipped";
              };
            })
            else get j d.processes))
unfolding get same cron_key cron_run_active
trigger_cron-overlap_example =
    trigger_cron-overlap (surroundings 10) (codes "ns") (codes "job")
      (request (codes "job") (codes "* * * * *")) (daemon_of busy_job job_schedule) busy_job refl
      (inl (omega arith))

trigger_cron_failed_example :
    let d = daemon_of idle_job job_schedule in
    let after =
      trigger_cron no_start
        (codes "ns")
        (codes "job")
        (request (codes "job") (codes "* * * * *"))
        d in
    (get (cron_key (codes "ns") (codes "job")) after.armed ≡ none)
    × (after.journal
        ≡ d.journal
          ++ launch_failure_record
              (codes "ns")
              (codes "job")
              (codes "r1")
              100
              (codes "executor start: " ++ codes "no such file")
            ∷ [])
unfolding get same cron_key cron_run_active
trigger_cron_failed_example =
    trigger_cron_failed no_start (codes "ns") (codes "job") (codes "no such file")
      (request (codes "job") (codes "* * * * *")) (daemon_of idle_job job_schedule) idle_job refl
      refl refl refl
