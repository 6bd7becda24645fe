-- ===== src/Daemon/Scenarios.antt =====
-- Commands on a daemon with a web server and its worker.
use pm.Daemon.State.{paused, ManagedProcess, ProcessStatus, cron_key, ProcessInfo}
use pm.Daemon.Registry.{find_existing, find_by_target, first_process, filter_processes}
use pm.Daemon.Journal.{zero_info}
use pm.Daemon.Lifecycle.{stop_process}
use pm.Daemon.Manager.{
  restart_by_name, restart_targets, Manager, Outside, targets_of, delete_by_name, pause_by_name,
}
use pm.Daemon.Starting.{start_app, lookup_name}
use pm.Daemon.Histories.{IsSound, starts, pauses, deletes, start, later, History-IsSound}
use pm.Daemon.Saving.{perform, Saves, perform-Saves}
use pm.Daemon.Saving
use pm.Daemon.Commands.{
  Deletes, keys_of_targets, delete_by_name-Deletes, IsPausedAt, pause_by_name-pauses,
}
use pm.Daemon.Naming.{infos_named, preferred, lookup_name-preferred}
use pm.Daemon.Examples.{surroundings, request, idle_daemon, idle-IdsUnique, web, daemon_of}
use pm.Prelude.{
  ℕ, ◌+◌, ◌≡◌, refl, Bool, true, false, Option, none, some, [], ◌∷◌, arith, Text, codes, same,
  contains, get, put, ok,
}

abbrev outside : Outside
outside = record {
  around = λ t. surroundings (40 + t);
  saves = λ t. true;
  leaves = λ t. none;
  scan_int = λ t. none;
}

abbrev idle : Manager
idle = record { daemon = idle_daemon; dump = none; suppress = false; ticks = 0 }

idle-IsSound : IsSound idle
unfolding get
idle-IsSound = record { ids = idle-IdsUnique; keyed = λ k mp h. absurd (ground (arith, h)) }

abbrev worker : Text
worker = codes "worker"

abbrev managed : Manager
managed = record idle { daemon = daemon_of web [] }

-- The worker is started and paused, and everything is deleted.
History-IsSound_example :
    let a = (start_app outside (request worker []) idle).1 in
    let b = (pause_by_name outside worker a).1 in IsSound (delete_by_name outside (codes "all") b).1
History-IsSound_example = History-IsSound idle-IsSound (
    later (later (later start outside (starts (request worker []))) outside (pauses worker)) outside
      (deletes (codes "all")))

delete_by_name-Deletes_example :
    Deletes
      (keys_of_targets (web ∷ []))
      managed.daemon
      (delete_by_name outside (codes "web") managed).1.daemon
unfolding targets_of find_by_target same get cron_key first_process filter_processes
delete_by_name-Deletes_example = delete_by_name-Deletes outside (codes "web") managed web [] refl

pause_by_name-pauses_example :
    IsPausedAt (codes "ns:web") (pause_by_name outside (codes "web") managed).1.daemon
unfolding targets_of find_by_target same get contains cron_key first_process filter_processes
pause_by_name-pauses_example =
    pause_by_name-pauses outside (codes "web") managed (codes "ns:web") web refl refl

abbrev info_in : Text → ProcessInfo
info_in ns = record zero_info { app = record (zero_info.app) { namespace = ns; name = worker } }

-- Two workers, of which the one of the default namespace is meant.
lookup_name-preferred_example :
    let is = info_in (codes "batch") ∷ info_in (codes "default") ∷ [] in
    lookup_name worker [] is ≡ preferred worker (infos_named worker is)
lookup_name-preferred_example =
    lookup_name-preferred worker (info_in (codes "batch") ∷ info_in (codes "default") ∷ [])

perform-Saves_example : Saves (perform outside Saving.deletes (codes "web") managed)
perform-Saves_example = perform-Saves outside Saving.deletes (codes "web") managed (λ t. refl) refl

abbrev after_restart : Option ManagedProcess → Option (ℕ × ProcessStatus × Bool)
after_restart none = none
after_restart (some mp) = some (mp.info.pid, mp.info.status, mp.is_paused)

-- A restart of a paused process spawns a child and succeeds, but the entry does not get it.
restart_of_paused :
    let t = restart_by_name outside (codes "web") (pause_by_name outside (codes "web") managed).1 in
    (t.0 ≡ ok tt)
    × (after_restart (get (codes "ns:web") t.1.daemon.processes) ≡ some (0, paused, true))
unfolding targets_of find_by_target same get put cron_key first_process filter_processes
    restart_by_name pause_by_name restart_targets find_existing stop_process
restart_of_paused = (refl, refl)
