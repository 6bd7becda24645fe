-- ===== src/Daemon/Lifecycle.antt =====
-- daemon/lifecycle.go: the exit of a child, stopping, and a cron fire.
use pm.Wfengine.Exit.{ExitInfo, is_success}
use pm.Daemon.State.{
  ProcessStatus, stopped, stopping, errored, launching, ProcessInfo, ManagedProcess, cron_key,
  is_launching, is_errored,
}
use pm.Daemon.Registry.{update_info, update_cron_status, update_cron_outcome}
use pm.Daemon.Journal.{
  trigger_of_cron, zero_info, run_record, append_task, skip_record, launch_failure_record,
}
use pm.Daemon.Launch.{AppStartReq, Daemon, Surroundings, launch}
use pm.Prelude.{
  ℕ, ◌+◌, Bool, true, false, not, ◌&&◌, ◌||◌, none, some, [], ltb, ◌==◌, if◌then◌else◌, Text, codes,
  same, get, put, remove, Result, ok, err,
}

abbrev with_status : ProcessStatus → ManagedProcess → ManagedProcess
with_status s mp = record mp { info = record (mp.info) { status = s } }

has_error : ExitInfo → Bool
has_error x = elim x.error [ none ↦ false | some m ↦ true ]

-- The first part of the closure in onProcessExit.
unfoldable pub after_exit : ExitInfo → ManagedProcess → ManagedProcess
unfolding has_error
after_exit x mp = record mp {
  info = record (mp.info) {
    pid = 0;
    status = if mp.is_stopping then mp.info.status else (if has_error x then errored else stopped);
  };
}

-- Whether it decides on a restart.
unfoldable pub wants_restart : ManagedProcess → Bool
wants_restart mp =
    not mp.is_stopping && is_errored mp.info.status && ltb mp.info.restarts mp.info.app.max_restarts

abbrev pub counted : ManagedProcess → ManagedProcess
counted mp = record mp {
  info = record (mp.info) { restarts = mp.info.restarts + 1; status = launching };
}

unfoldable pub exit_update : ExitInfo → ManagedProcess → Bool × ManagedProcess
unfolding after_exit wants_restart
exit_update x mp =
    let after = after_exit x mp in
    if wants_restart after then (true, counted after) else (false, after)

-- What follows the closure: the journal, and the outcome of a cron fire.
unfoldable pub note_exit : Text → ProcessInfo → Text → Text → ExitInfo → ℕ → ℕ → Daemon → Daemon
unfolding run_record update_cron_outcome
note_exit k info run_id trigger x os_pid now d =
    let noted = append_task (run_record (record info { pid = os_pid }) run_id trigger x now) d in
    let outcome = if is_success x then codes "ok" else codes "failed" in
    if same trigger trigger_of_cron
    then record noted { processes = (update_cron_outcome k outcome noted.processes).1 }
    else noted

-- onProcessExit of the entry `mp`, up to the goroutine that waits for the restart delay; the Boolean
-- is whether there is one. The entry that changes is the one that the key holds now.
unfoldable pub on_process_exit : ManagedProcess → ExitInfo → ℕ → ℕ → Daemon → Bool × Daemon
unfolding exit_update note_exit
on_process_exit mp x os_pid now d =
    let k = cron_key mp.info.app.namespace mp.info.app.name in
    elim (get k d.processes) [
      | none ↦ (false, note_exit k zero_info [] [] x os_pid now d)
      | some held ↦
          let t = exit_update x held in
          (
            t.0,
            note_exit k t.1.info t.1.run_id t.1.trigger x os_pid now
                (record d { processes = put k t.1 d.processes }),
          )
    ]

-- The goroutine after the restart delay: it gives up if the entry has been replaced since.
unfoldable pub auto_restart : ManagedProcess → Surroundings → Daemon → Daemon
unfolding launch
auto_restart mp s d =
    let k = cron_key mp.info.app.namespace mp.info.app.name in
    elim (get k d.processes) [
      | none ↦ d
      | some current ↦
          let req : AppStartReq = record { app = current.info.app; cron_triggered = false } in
          let relaunched = launch s current.info.app.name req (codes "autorestart") d in
          if current.handle == mp.handle && not current.is_stopping then relaunched.1 else d
    ]

abbrev pub mark_stopping : ManagedProcess → ManagedProcess
mark_stopping mp =
    let marked = record mp { is_stopping = true } in
    if mp.is_paused then marked else with_status stopping marked

abbrev pub mark_stopped : ManagedProcess → ManagedProcess
mark_stopped mp =
    let marked = if mp.is_paused then mp else with_status stopped mp in
    record marked { info = record (marked.info) { pid = 0 } }

-- stopProcess, with the callbacks of executor.Stop in their order.
unfoldable pub stop_process : ManagedProcess → Daemon → Daemon
unfolding update_info
stop_process mp d =
    let k = cron_key mp.info.app.namespace mp.info.app.name in
    let marked = (update_info k mark_stopping d.processes).1 in
    record d { armed = remove k d.armed; processes = (update_info k mark_stopped marked).1 }

-- cronRunActive.
unfoldable pub cron_run_active : ProcessInfo → Bool
cron_run_active info = not (info.pid == 0) || is_launching info.status

abbrev pub set_cron_status : Text → ℕ → Text → Daemon → Daemon
set_cron_status k at status d = record d {
  processes = (update_cron_status k at status d.processes).1;
}

-- The end of triggerCron, by what the launch returned.
unfoldable pub finish_fire : Surroundings → Text → Text → Result Text ProcessInfo → Daemon → Daemon
unfolding launch_failure_record
finish_fire s ns name (ok info) d = set_cron_status (cron_key ns name) s.now (codes "running") d
finish_fire s ns name (err m) d =
    set_cron_status (cron_key ns name) s.now (codes "failed")
      (append_task (launch_failure_record ns name s.run_id s.now m) d)

-- triggerCron.
unfoldable pub trigger_cron : Surroundings → Text → Text → AppStartReq → Daemon → Daemon
unfolding cron_run_active stop_process launch finish_fire skip_record
trigger_cron s ns name req d = elim (get (cron_key ns name) d.processes) [
  | none ↦ d
  | some mp ↦
      let t =
        launch s name (record req { cron_triggered = true }) trigger_of_cron (stop_process mp d) in
      if cron_run_active mp.info
      then append_task (skip_record ns name s.run_id s.now)
          (set_cron_status (cron_key ns name) s.now (codes "skipped") d)
      else finish_fire s ns name t.0 t.1
]
