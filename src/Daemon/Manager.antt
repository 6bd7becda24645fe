-- ===== src/Daemon/Manager.antt =====
-- daemon/process_manager.go and daemon/autosave.go: the commands on managed processes.
use pm.Daemon.State.{paused, AppConfig, ProcessInfo, ManagedProcess, cron_key}
use pm.Daemon.Registry.{find_by_target, update_info, remove_entry, snapshot, snapshot_app_configs}
use pm.Daemon.Launch.{Daemon, Surroundings, launch}
use pm.Daemon.Lifecycle.{stop_process}
use pm.Prelude.{
  ℕ, ◌+◌, Bool, true, false, Option, none, some, List, [], ◌∷◌, if◌then◌else◌, length, Text, codes,
  get, Result, ok, err,
}

-- The ProcessManager with its dump. `ticks` counts the calls of the outside world.
pub record Manager : Type 0 where
  pub daemon : Daemon
  -- The parsed dump.json; none if there is no file that parses.
  pub dump : Option (List AppConfig)
  pub suppress : Bool
  pub ticks : ℕ

-- What a launch finds at each tick, whether a write of the dump succeeds, what one that fails leaves
-- of the dump, and fmt.Sscan of a target.
pub record Outside : Type 0 where
  pub around : ℕ → Surroundings
  pub saves : ℕ → Bool
  pub leaves : ℕ → Option (List AppConfig)
  pub scan_int : Text → Option ℕ

pub data ManagerError : Type 0 where
  not_found : Text → ManagerError
  other_script : (name script : Text) → ManagerError
  launch_failed : (name message : Text) → ManagerError

abbrev pub with_daemon : Daemon → Manager → Manager
with_daemon d m = record m { daemon = d }

-- Save.
unfoldable pub save : Outside → Manager → Bool × Manager
unfolding snapshot_app_configs
save o m =
    let ticked = record m { ticks = m.ticks + 1 } in
    if o.saves m.ticks
    then (true, record ticked { dump = some (snapshot_app_configs m.daemon.processes) })
    else (false, record ticked { dump = o.leaves m.ticks })

-- autoSave: a failure is logged alone.
unfoldable pub auto_save : Outside → Manager → Manager
unfolding save
auto_save o m = if m.suppress then m else (save o m).1

unfoldable pub targets_of : Outside → Text → Manager → List ManagedProcess
targets_of o target m = find_by_target o.scan_int target m.daemon.processes

-- The loops over the targets. Each target is the entry as it was when the targets were found: the
-- loops read its namespace and name alone, which never change.
unfoldable pub stop_each : List ManagedProcess → Daemon → Daemon
stop_each [] d = d
stop_each (mp ∷ mps) d = stop_each mps (stop_process mp d)

abbrev pub key_of : ManagedProcess → Text
key_of mp = cron_key mp.info.app.namespace mp.info.app.name

abbrev pub mark_paused : ManagedProcess → ManagedProcess
mark_paused mp = record mp { is_paused = true; info = record (mp.info) { status = paused } }

unfoldable pub pause_process : ManagedProcess → Daemon → Daemon
unfolding update_info
pause_process mp d =
    let s = stop_process mp d in
    record s { processes = (update_info (key_of mp) mark_paused s.processes).1 }

unfoldable pub pause_each : List ManagedProcess → Daemon → Daemon
unfolding pause_process
pause_each [] d = d
pause_each (mp ∷ mps) d = pause_each mps (pause_process mp d)

unfoldable pub delete_process : ManagedProcess → Daemon → Daemon
unfolding remove_entry
delete_process mp d =
    let s = stop_process mp d in record s { processes = (remove_entry (key_of mp) s.processes).1 }

unfoldable pub delete_each : List ManagedProcess → Daemon → Daemon
unfolding delete_process
delete_each [] d = d
delete_each (mp ∷ mps) d = delete_each mps (delete_process mp d)

-- One target of restartTargets: the restart passes for a cron fire, so that a cron task runs at once.
unfoldable pub restart_process : Surroundings → Text → ManagedProcess → Daemon → Daemon
unfolding launch
restart_process s trigger mp d = elim (get (key_of mp) d.processes) [
  | none ↦ d
  | some current ↦
      (launch s current.info.app.name (record { app = current.info.app; cron_triggered = true })
        trigger (stop_process mp d)).1
]

unfoldable pub restart_each : Outside → Text → List ManagedProcess → ℕ → Daemon → Daemon
unfolding restart_process
restart_each o trigger [] t d = d
restart_each o trigger (mp ∷ mps) t d =
    restart_each o trigger mps (t + 1) (restart_process (o.around t) trigger mp d)

-- One target of ResumeByName: an entry that is not paused is passed over.
unfoldable pub resume_process :
    Surroundings → ManagedProcess → Daemon → Result ManagerError (Unit {0}) × Daemon
unfolding launch
resume_process s mp d = elim (get (key_of mp) d.processes) [
  | none ↦ (ok tt, d)
  | some current ↦
      let t =
        launch s current.info.app.name (record { app = current.info.app; cron_triggered = false })
          (codes "resurrect") d in
      let outcome : Result ManagerError (Unit {0}) = elim t.0 [
        | ok i ↦ ok tt
        | err e ↦ err (launch_failed current.info.app.name e)
      ] in
      if current.is_paused then (outcome, t.1) else (ok tt, d)
]

unfoldable pub resume_each :
    Outside → List ManagedProcess → ℕ → Daemon → Result ManagerError (Unit {0}) × Daemon
unfolding resume_process
resume_each o [] t d = (ok tt, d)
resume_each o (mp ∷ mps) t d =
    let first = resume_process (o.around t) mp d in
    let rest = resume_each o mps (t + 1) first.1 in
    elim first.0 [ ok u ↦ rest | err e ↦ (err e, first.1) ]

-- What every command by target does: an error where nothing is found, and the save at the end.
abbrev pub Command : Type 0
Command = Result ManagerError (Unit {0}) × Manager

abbrev pub advanced : ℕ → Daemon → Manager → Manager
advanced n d m = record m { daemon = d; ticks = m.ticks + n }

unfoldable pub stop_targets : Outside → Text → List ManagedProcess → Manager → Command
unfolding stop_each auto_save
stop_targets o target [] m = (err (not_found target), m)
stop_targets o target (mp ∷ mps) m =
    (ok tt, auto_save o (with_daemon (stop_each (mp ∷ mps) m.daemon) m))

-- StopByName.
unfoldable pub stop_by_name : Outside → Text → Manager → Command
unfolding targets_of stop_targets
stop_by_name o target m = stop_targets o target (targets_of o target m) m

unfoldable pub pause_targets : Outside → Text → List ManagedProcess → Manager → Command
unfolding pause_each auto_save
pause_targets o target [] m = (err (not_found target), m)
pause_targets o target (mp ∷ mps) m =
    (ok tt, auto_save o (with_daemon (pause_each (mp ∷ mps) m.daemon) m))

-- PauseByName.
unfoldable pub pause_by_name : Outside → Text → Manager → Command
unfolding targets_of pause_targets
pause_by_name o target m = pause_targets o target (targets_of o target m) m

unfoldable pub delete_targets : Outside → Text → List ManagedProcess → Manager → Command
unfolding delete_each auto_save
delete_targets o target [] m = (err (not_found target), m)
delete_targets o target (mp ∷ mps) m =
    (ok tt, auto_save o (with_daemon (delete_each (mp ∷ mps) m.daemon) m))

-- DeleteByName.
unfoldable pub delete_by_name : Outside → Text → Manager → Command
unfolding targets_of delete_targets
delete_by_name o target m = delete_targets o target (targets_of o target m) m

-- restartTargets, which does not save.
unfoldable pub restart_found : Outside → Text → Text → List ManagedProcess → Manager → Command
unfolding restart_each
restart_found o target trigger [] m = (err (not_found target), m)
restart_found o target trigger (mp ∷ mps) m =
    (ok tt, advanced (length (mp ∷ mps)) (restart_each o trigger (mp ∷ mps) m.ticks m.daemon) m)

unfoldable pub restart_targets : Outside → Text → Text → Manager → Command
unfolding targets_of restart_found
restart_targets o target trigger m = restart_found o target trigger (targets_of o target m) m

abbrev pub saved_if_ok : Outside → Command → Command
saved_if_ok o (ok u, m) = (ok u, auto_save o m)
saved_if_ok o (err e, m) = (err e, m)

-- RestartByName.
unfoldable pub restart_by_name : Outside → Text → Manager → Command
unfolding restart_targets auto_save
restart_by_name o target m = saved_if_ok o (restart_targets o target (codes "restart") m)

unfoldable pub resume_targets : Outside → Text → List ManagedProcess → Manager → Command
unfolding resume_each
resume_targets o target [] m = (err (not_found target), m)
resume_targets o target (mp ∷ mps) m =
    let t = resume_each o (mp ∷ mps) m.ticks m.daemon in (t.0, advanced (length (mp ∷ mps)) t.1 m)

-- ResumeByName.
unfoldable pub resume_by_name : Outside → Text → Manager → Command
unfolding targets_of resume_targets auto_save
resume_by_name o target m = saved_if_ok o (resume_targets o target (targets_of o target m) m)

-- KillAll, without the wait for the exits.
unfoldable pub kill_all : Outside → Manager → Manager
unfolding targets_of stop_each
kill_all o m = with_daemon (stop_each (targets_of o (codes "all") m) m.daemon) m

-- ListAll.
unfoldable pub list_all : Manager → List ProcessInfo
unfolding snapshot
list_all m = snapshot m.daemon.processes
