-- ===== src/Daemon/Loops.antt =====
-- The loops of the commands keep identifiers and keys.
use pm.Daemon.State.{ProcessInfo, ManagedProcess}
use pm.Daemon.Registry.{find_existing}
use pm.Daemon.Launch.{AppStartReq, Daemon, Surroundings, namespace_of}
use pm.Daemon.Lifecycle.{stop_process}
use pm.Daemon.Manager.{
  Outside, key_of, mark_paused, stop_each, pause_process, pause_each, delete_process, delete_each,
  restart_process, restart_each, resume_process, resume_each,
}
use pm.Daemon.Starting.{
  stop_existing, is_other_script, start_instance, start_instances, instance_name,
}
use pm.Daemon.Reach.{
  WellFormed, Keeps-WellFormed, update_info-Keeps, remove_entry-Keeps, stop_process-WellFormed,
  launch-WellFormed,
}
use pm.Prelude.{
  ℕ, zero, suc, ◌+◌, refl, inl, inr, true, false, Option, none, some, List, [], ◌∷◌, ◌++◌,
  Bool-cases, Option-cases, Text, codes, get, Result-cases,
}

pub stop_each-WellFormed :
    (mps : List ManagedProcess) (d : Daemon) → WellFormed d → WellFormed (stop_each mps d)
unfolding stop_each
stop_each-WellFormed [] d v = v
stop_each-WellFormed (mp ∷ mps) d v =
    stop_each-WellFormed mps (stop_process mp d) (stop_process-WellFormed mp d v)

pub pause_process-WellFormed :
    (mp : ManagedProcess) (d : Daemon) → WellFormed d → WellFormed (pause_process mp d)
unfolding pause_process
pause_process-WellFormed mp d v =
    let s = stop_process mp d in
    Keeps-WellFormed s _ refl
      (update_info-Keeps (key_of mp) mark_paused s.processes (λ x. (refl, refl)))
      (stop_process-WellFormed mp d v)

pub pause_each-WellFormed :
    (mps : List ManagedProcess) (d : Daemon) → WellFormed d → WellFormed (pause_each mps d)
unfolding pause_each
pause_each-WellFormed [] d v = v
pause_each-WellFormed (mp ∷ mps) d v =
    pause_each-WellFormed mps (pause_process mp d) (pause_process-WellFormed mp d v)

pub delete_process-WellFormed :
    (mp : ManagedProcess) (d : Daemon) → WellFormed d → WellFormed (delete_process mp d)
unfolding delete_process
delete_process-WellFormed mp d v =
    let s = stop_process mp d in
    Keeps-WellFormed s _ refl (remove_entry-Keeps (key_of mp) s.processes)
      (stop_process-WellFormed mp d v)

pub delete_each-WellFormed :
    (mps : List ManagedProcess) (d : Daemon) → WellFormed d → WellFormed (delete_each mps d)
unfolding delete_each
delete_each-WellFormed [] d v = v
delete_each-WellFormed (mp ∷ mps) d v =
    delete_each-WellFormed mps (delete_process mp d) (delete_process-WellFormed mp d v)

pub restart_process-WellFormed :
    (s : Surroundings) (trigger : Text) (mp : ManagedProcess) (d : Daemon)
    → WellFormed d
    → WellFormed (restart_process s trigger mp d)
unfolding restart_process
restart_process-WellFormed s trigger mp d v = elim (Option-cases (get (key_of mp) d.processes)) [
  | inl e ↦ rw (e, restart_process) v
  | inr (current, e) ↦
      rw (e, restart_process)
        (launch-WellFormed s current.info.app.name
          (record { app = current.info.app; cron_triggered = true }) trigger (stop_process mp d)
          (stop_process-WellFormed mp d v))
]

pub restart_each-WellFormed :
    (o : Outside) (trigger : Text) (mps : List ManagedProcess) (t : ℕ) (d : Daemon)
    → WellFormed d
    → WellFormed (restart_each o trigger mps t d)
unfolding restart_each
restart_each-WellFormed o trigger [] t d v = v
restart_each-WellFormed o trigger (mp ∷ mps) t d v =
    restart_each-WellFormed o trigger mps (t + 1) _
      (restart_process-WellFormed (o.around t) trigger mp d v)

pub resume_process-WellFormed :
    (s : Surroundings) (mp : ManagedProcess) (d : Daemon)
    → WellFormed d
    → WellFormed (resume_process s mp d).1
unfolding resume_process
resume_process-WellFormed s mp d v = elim (Option-cases (get (key_of mp) d.processes)) [
  | inl e ↦ rw (e, resume_process) v
  | inr (current, e) ↦ elim (Bool-cases current.is_paused) [
    | inl b ↦
        rw (e, resume_process)
          (rw b (
            launch-WellFormed s current.info.app.name
              (record { app = current.info.app; cron_triggered = false }) (codes "resurrect") d v))
    | inr b ↦ rw (e, resume_process) (rw b v)
  ]
]

pub resume_each-WellFormed :
    (o : Outside) (mps : List ManagedProcess) (t : ℕ) (d : Daemon)
    → WellFormed d
    → WellFormed (resume_each o mps t d).1
unfolding resume_each
resume_each-WellFormed o [] t d v = v
resume_each-WellFormed o (mp ∷ mps) t d v =
    let first = resume_process (o.around t) mp d in
    let w = resume_process-WellFormed (o.around t) mp d v in
    elim (Result-cases first.0) [
      | inl (u, e) ↦ rw (e, resume_each) (resume_each-WellFormed o mps (t + 1) first.1 w)
      | inr (x, e) ↦ rw (e, resume_each) w
    ]

pub stop_existing-WellFormed :
    (found : Option (Text × ManagedProcess)) (d : Daemon)
    → WellFormed d
    → WellFormed (stop_existing found d)
stop_existing-WellFormed none d v = v
stop_existing-WellFormed (some (k, mp)) d v = stop_process-WellFormed mp d v

pub start_instance-WellFormed :
    (s : Surroundings) (name : Text) (req : AppStartReq) (d : Daemon)
    → WellFormed d
    → WellFormed (start_instance s name req d).1
unfolding start_instance
start_instance-WellFormed s name req d v =
    let found = find_existing (namespace_of req) name req.app.config_file d.processes in
    elim (Bool-cases (is_other_script req.app.script found)) [
      | inl b ↦ rw (b, start_instance) v
      | inr b ↦
          rw (b, start_instance)
            (launch-WellFormed s name req (codes "manual") (stop_existing found d)
              (stop_existing-WellFormed found d v))
    ]

pub start_instances-WellFormed :
    (o : Outside) (req : AppStartReq) (n left i t : ℕ) (infos : List ProcessInfo) (d : Daemon)
    → WellFormed d
    → WellFormed (start_instances o req n left i t infos d).1
unfolding start_instances
start_instances-WellFormed o req n zero i t infos d v = v
start_instances-WellFormed o req n (suc left) i t infos d v =
    let first = start_instance (o.around t) (instance_name req n i) req d in
    let w = start_instance-WellFormed (o.around t) (instance_name req n i) req d v in
    elim (Result-cases first.0) [
      | inl (info, e) ↦
          rw (e, start_instances)
            (start_instances-WellFormed o req n left (i + 1) (t + 1) (infos ++ info ∷ []) first.1 w)
      | inr (x, e) ↦ rw (e, start_instances) w
    ]
