-- ===== src/Daemon/Histories.antt =====
-- The daemon's operations as steps, and what every history of them keeps.
use pm.Workflow.Config.{Paths}
use pm.Wfengine.Exit.{ExitInfo}
use pm.Daemon.State.{AppConfig, ManagedProcess, Processes, is_online}
use pm.Daemon.Registry.{update_metrics}
use pm.Daemon.Launch.{AppStartReq, Daemon, Surroundings}
use pm.Daemon.Lifecycle.{on_process_exit, auto_restart, trigger_cron}
use pm.Daemon.Manager.{
  Manager, Outside, Command, with_daemon, auto_save, save, stop_targets, stop_by_name,
  pause_targets, pause_by_name, delete_targets, delete_by_name, restart_found, restart_targets,
  restart_by_name, resume_targets, resume_by_name, kill_all, targets_of, saved_if_ok,
}
use pm.Daemon.Starting.{
  start_instances, start_app, start_saved, resurrect, DumpRead, no_dump, bad_dump, entries,
  at_least_one, no_infos, saved_request,
}
use pm.Daemon.Reach.{
  WellFormed, Keeps, Keeps-refl, Keeps-WellFormed, put-Keeps, on_process_exit-WellFormed,
  auto_restart-WellFormed, trigger_cron-WellFormed,
}
use pm.Daemon.Loops.{
  stop_each-WellFormed, pause_each-WellFormed, delete_each-WellFormed, restart_each-WellFormed,
  resume_each-WellFormed, start_instances-WellFormed,
}
use pm.Prelude.{
  ℕ, ◌+◌, ◌≡◌, refl, sym, subst, inl, inr, Bool, true, false, ◌&&◌, Option, List, [], ◌∷◌, arith,
  ltb, ◌==◌, if◌then◌else◌, Bool-cases, Option-cases, Text, codes, get, ok, err,
}

abbrev pub IsSound : Manager → Type 0
IsSound m = WellFormed m.daemon

pub auto_save-daemon : (o : Outside) (m : Manager) → (auto_save o m).daemon ≡ m.daemon
unfolding auto_save save
auto_save-daemon o m = ground arith

auto_save-IsSound : (o : Outside) (m : Manager) → IsSound m → IsSound (auto_save o m)
auto_save-IsSound o m v = subst WellFormed (sym (auto_save-daemon o m)) v

maybe_saved-IsSound :
    (o : Outside) (b : Bool) (m : Manager) → IsSound m → IsSound (if b then m else auto_save o m)
maybe_saved-IsSound o true m v = v
maybe_saved-IsSound o false m v = auto_save-IsSound o m v

start_app-IsSound :
    (o : Outside) (req : AppStartReq) (m : Manager) → IsSound m → IsSound (start_app o req m).1
unfolding start_app
start_app-IsSound o req m v =
    let n = at_least_one 1 req.app.instances in
    let t = start_instances o req n n 0 m.ticks [] m.daemon in
    maybe_saved-IsSound o (no_infos t.0.0) (record m { daemon = t.1; ticks = m.ticks + n })
      (start_instances-WellFormed o req n n 0 m.ticks [] m.daemon v)

start_saved-IsSound :
    (o : Outside) (p : Paths) (cwd : Option Text) (apps : List AppConfig) (m : Manager)
    → IsSound m
    → IsSound (start_saved o p cwd apps m)
unfolding start_saved
start_saved-IsSound o p cwd [] m v = v
start_saved-IsSound o p cwd (a ∷ apps) m v =
    start_saved-IsSound o p cwd apps (start_app o (saved_request p cwd a) m).1
      (start_app-IsSound o (saved_request p cwd a) m v)

resurrect-IsSound :
    (o : Outside) (p : Paths) (cwd : Option Text) (r : DumpRead) (m : Manager)
    → IsSound m
    → IsSound (resurrect o p cwd r m).1
unfolding resurrect
resurrect-IsSound o p cwd no_dump m v = v
resurrect-IsSound o p cwd bad_dump m v = v
resurrect-IsSound o p cwd (entries apps) m v =
    start_saved-IsSound o p cwd apps (record m { suppress = true }) v

saved_if_ok-IsSound : (o : Outside) (c : Command) → IsSound c.1 → IsSound (saved_if_ok o c).1
saved_if_ok-IsSound o (ok u, m) v = auto_save-IsSound o m v
saved_if_ok-IsSound o (err e, m) v = v

-- The commands by target, for any list of targets.
module _ (o : Outside) (target : Text) (m : Manager) (v : IsSound m) where
  stop_targets-IsSound : (mps : List ManagedProcess) → IsSound (stop_targets o target mps m).1
  unfolding stop_targets
  stop_targets-IsSound [] = v
  stop_targets-IsSound (mp ∷ mps) =
      auto_save-IsSound o _ (stop_each-WellFormed (mp ∷ mps) m.daemon v)

  pause_targets-IsSound : (mps : List ManagedProcess) → IsSound (pause_targets o target mps m).1
  unfolding pause_targets
  pause_targets-IsSound [] = v
  pause_targets-IsSound (mp ∷ mps) =
      auto_save-IsSound o _ (pause_each-WellFormed (mp ∷ mps) m.daemon v)

  delete_targets-IsSound : (mps : List ManagedProcess) → IsSound (delete_targets o target mps m).1
  unfolding delete_targets
  delete_targets-IsSound [] = v
  delete_targets-IsSound (mp ∷ mps) =
      auto_save-IsSound o _ (delete_each-WellFormed (mp ∷ mps) m.daemon v)

  restart_found-IsSound :
      (trigger : Text) (mps : List ManagedProcess)
      → IsSound (restart_found o target trigger mps m).1
  unfolding restart_found
  restart_found-IsSound trigger [] = v
  restart_found-IsSound trigger (mp ∷ mps) =
      restart_each-WellFormed o trigger (mp ∷ mps) m.ticks m.daemon v

  resume_targets-IsSound : (mps : List ManagedProcess) → IsSound (resume_targets o target mps m).1
  unfolding resume_targets
  resume_targets-IsSound [] = v
  resume_targets-IsSound (mp ∷ mps) = resume_each-WellFormed o (mp ∷ mps) m.ticks m.daemon v

with_metrics-Keeps :
    (k : Text) (pid cpu memory : ℕ) (ps : Processes)
    → Keeps ps (update_metrics k pid cpu memory ps).1
unfolding update_metrics
with_metrics-Keeps k pid cpu memory ps = elim (Option-cases (get k ps)) [
  | inl e ↦ rw (e, update_metrics) (Keeps-refl ps)
  | inr (mp, e) ↦ elim (Bool-cases (mp.info.pid == pid)) [
    | inr b ↦ rw (e, update_metrics) (rw b (Keeps-refl ps))
    | inl b ↦ elim (Bool-cases (ltb 0 mp.info.pid && is_online mp.info.status)) [
      | inl f ↦ rw (e, update_metrics) (rw (b, f) (put-Keeps k mp _ ps e (refl, refl)))
      | inr f ↦ rw (e, update_metrics) (rw (b, f) (put-Keeps k mp _ ps e (refl, refl)))
    ]
  ]
]

abbrev measured : Text → ℕ → ℕ → ℕ → Daemon → Daemon
measured k pid cpu memory d = record d {
  processes = (update_metrics k pid cpu memory d.processes).1;
}

-- One step of the daemon: a command, or what the outside world makes it do. An exit and a delayed
-- restart may be those of an entry that was replaced or deleted since.
pub data Step (o : Outside) (m : Manager) : Manager → Type 0 where
  starts : (req : AppStartReq) → Step o m (start_app o req m).1
  resurrects : (p : Paths) (cwd : Option Text) (r : DumpRead) → Step o m (resurrect o p cwd r m).1
  stops : (target : Text) → Step o m (stop_by_name o target m).1
  restarts : (target : Text) → Step o m (restart_by_name o target m).1
  watch_restarts : (target trigger : Text) → Step o m (restart_targets o target trigger m).1
  pauses : (target : Text) → Step o m (pause_by_name o target m).1
  resumes : (target : Text) → Step o m (resume_by_name o target m).1
  deletes : (target : Text) → Step o m (delete_by_name o target m).1
  kills : Step o m (kill_all o m)
  exits :
      (mp : ManagedProcess) (x : ExitInfo) (pid now : ℕ)
      → Step o m (with_daemon (on_process_exit mp x pid now m.daemon).1 m)
  relaunches :
      (mp : ManagedProcess) (s : Surroundings)
      → Step o m (with_daemon (auto_restart mp s m.daemon) m)
  fires :
      (s : Surroundings) (ns name : Text) (req : AppStartReq)
      → Step o m (with_daemon (trigger_cron s ns name req m.daemon) m)
  measures :
      (k : Text) (pid cpu memory : ℕ)
      → Step o m (with_daemon (measured k pid cpu memory m.daemon) m)

Step-IsSound : (o : Outside) (m : Manager) {n : Manager} → Step o m n → IsSound m → IsSound n
unfolding stop_by_name restart_by_name restart_targets pause_by_name resume_by_name delete_by_name
    kill_all
Step-IsSound o m (starts req) v = start_app-IsSound o req m v
Step-IsSound o m (resurrects p cwd r) v = resurrect-IsSound o p cwd r m v
Step-IsSound o m (stops target) v = stop_targets-IsSound o target m v (targets_of o target m)
Step-IsSound o m (restarts target) v =
    saved_if_ok-IsSound o _
      (restart_found-IsSound o target m v (codes "restart") (targets_of o target m))
Step-IsSound o m (watch_restarts target trigger) v =
    restart_found-IsSound o target m v trigger (targets_of o target m)
Step-IsSound o m (pauses target) v = pause_targets-IsSound o target m v (targets_of o target m)
Step-IsSound o m (resumes target) v =
    saved_if_ok-IsSound o _ (resume_targets-IsSound o target m v (targets_of o target m))
Step-IsSound o m (deletes target) v = delete_targets-IsSound o target m v (targets_of o target m)
Step-IsSound o m kills v = stop_each-WellFormed (targets_of o (codes "all") m) m.daemon v
Step-IsSound o m (exits mp x pid now) v = on_process_exit-WellFormed mp x pid now m.daemon v
Step-IsSound o m (relaunches mp s) v = auto_restart-WellFormed mp s m.daemon v
Step-IsSound o m (fires s ns name req) v = trigger_cron-WellFormed s ns name req m.daemon v
Step-IsSound o m (measures k pid cpu memory) v =
    Keeps-WellFormed m.daemon _ refl (with_metrics-Keeps k pid cpu memory m.daemon.processes) v

-- A history: steps one after another, each in an outside world of its own.
pub data History (m : Manager) : Manager → Type 0 where
  start : History m m
  later : {n p : Manager} → History m n → (o : Outside) → Step o n p → History m p

-- Whatever sequence of commands, exits, restarts, fires and measurements a daemon goes through, from
-- a state where identifiers are unique and every process stands under its own key, they still are and
-- do in the state that it reaches.
pub History-IsSound : {m n : Manager} → IsSound m → History m n → IsSound n
History-IsSound v start = v
History-IsSound v (later h o s) = Step-IsSound o _ s (History-IsSound v h)
