-- ===== src/Daemon/Exits.antt =====
-- What an exit, a deliberate stop and a cron fire do to a managed process.
use pm.Wfengine.Exit.{ExitInfo}
use pm.Daemon.State.{is_launching, launching, ProcessInfo, ManagedProcess, Processes, cron_key}
use pm.Daemon.Registry.{update_info, update_cron_status}
use pm.Daemon.Launch.{AppStartReq, Daemon, Surroundings, launch, launch_result}
use pm.Daemon.Journal.{trigger_of_cron, append_task, skip_record, launch_failure_record}
use pm.Daemon.Lifecycle.{
  set_cron_status, after_exit, wants_restart, exit_update, on_process_exit, mark_stopping,
  mark_stopped, stop_process, cron_run_active, finish_fire, trigger_cron,
}
use pm.Prelude.{
  ℕ, suc, ◌-◌, ◌≡◌, refl, ap, ◌∙◌, ◌≢◌, ◌⊎◌, inl, inr, Bool, true, false, none, some, [], ◌∷◌, ◌++◌,
  arith, ◌==◌, if◌then◌else◌, Bool-cases, Option-cases, Text, codes, same, same_refl, get, put,
  remove, get-put, get-remove, get-put_self, Result, err,
}

-- An exit that asks for a restart is that of a process that was not stopped on purpose, and it uses
-- up one of the restarts that were left.
pub exit_update_falls :
    (x : ExitInfo) (mp : ManagedProcess)
    → (exit_update x mp).0 ≡ true
    → let after = (exit_update x mp).1 in
      (mp.is_stopping ≡ false)
      × (suc (after.info.app.max_restarts - after.info.restarts)
          ≡ mp.info.app.max_restarts - mp.info.restarts)
unfolding exit_update wants_restart after_exit
exit_update_falls x mp h = ground (arith, h)

pub update_info-none :
    (k : Text) (f : ManagedProcess → ManagedProcess) (ps : Processes)
    → get k ps ≡ none
    → update_info k f ps ≡ (false, ps)
unfolding update_info
update_info-none k f ps e = rw (e, update_info) refl

pub update_info-some :
    (k : Text) (f : ManagedProcess → ManagedProcess) (ps : Processes) (mp : ManagedProcess)
    → get k ps ≡ some mp
    → update_info k f ps ≡ (true, put k (f mp) ps)
unfolding update_info
update_info-some k f ps mp e = rw (e, update_info) refl

pub get-update_info :
    (k : Text) (f : ManagedProcess → ManagedProcess) (ps : Processes) (mp : ManagedProcess)
    → get k ps ≡ some mp
    → get k (update_info k f ps).1 ≡ some (f mp)
get-update_info k f ps mp e =
    ap (λ t. get k t.1) (update_info-some k f ps mp e) ∙ get-put_self k (f mp) ps

pub stopped_entry :
    (mp held : ManagedProcess) (d : Daemon)
    → get (cron_key mp.info.app.namespace mp.info.app.name) d.processes ≡ some held
    → get (cron_key mp.info.app.namespace mp.info.app.name) (stop_process mp d).processes
      ≡ some (mark_stopped (mark_stopping held))
unfolding stop_process
stopped_entry mp held d g =
    let k = cron_key mp.info.app.namespace mp.info.app.name in
    get-update_info k mark_stopped (update_info k mark_stopping d.processes).1 (mark_stopping held)
      (get-update_info k mark_stopping d.processes held g)

stopped_absent :
    (mp : ManagedProcess) (d : Daemon)
    → get (cron_key mp.info.app.namespace mp.info.app.name) d.processes ≡ none
    → get (cron_key mp.info.app.namespace mp.info.app.name) (stop_process mp d).processes ≡ none
unfolding stop_process
stopped_absent mp d e =
    let k = cron_key mp.info.app.namespace mp.info.app.name in
    let first =
      ap (λ (t : Bool × Processes). t.1) (update_info-none k mark_stopping d.processes e) in
    ap (λ ps. get k (update_info k mark_stopped ps).1) first
    ∙ (ap (λ (t : Bool × Processes). get k t.1) (update_info-none k mark_stopped d.processes e) ∙ e)

stopping-stays :
    (x : ExitInfo) (mp : ManagedProcess) → mp.is_stopping ≡ true → (exit_update x mp).0 ≡ false
unfolding exit_update wants_restart after_exit
stopping-stays x mp h = ground (arith, h)

-- A process that was stopped on purpose is not restarted: however its child ended, the exit that
-- follows the stop asks for no restart.
pub on_process_exit-stop_process :
    (mp : ManagedProcess) (x : ExitInfo) (pid now : ℕ) (d : Daemon)
    → (on_process_exit mp x pid now (stop_process mp d)).0 ≡ false
unfolding on_process_exit
on_process_exit-stop_process mp x pid now d =
    elim (Option-cases (get (cron_key mp.info.app.namespace mp.info.app.name) d.processes)) [
      | inl e ↦ rw (stopped_absent mp d e, on_process_exit) refl
      | inr (held, e) ↦
          rw (stopped_entry mp held d e, on_process_exit)
            (stopping-stays x (mark_stopped (mark_stopping held)) (ground arith))
    ]

trigger_cron-busy :
    (s : Surroundings) (ns name : Text) (req : AppStartReq) (d : Daemon) (mp : ManagedProcess)
    → get (cron_key ns name) d.processes ≡ some mp
    → cron_run_active mp.info ≡ true
    → trigger_cron s ns name req d
      ≡ append_task
          (skip_record ns name s.run_id s.now)
          (set_cron_status (cron_key ns name) s.now (codes "skipped") d)
unfolding trigger_cron
trigger_cron-busy s ns name req d mp g busy = rw (g, trigger_cron) (rw busy refl)

abbrev cron_request : AppStartReq → AppStartReq
cron_request req = record req { cron_triggered = true }

trigger_cron-idle :
    (s : Surroundings) (ns name : Text) (req : AppStartReq) (d : Daemon) (mp : ManagedProcess)
    → get (cron_key ns name) d.processes ≡ some mp
    → cron_run_active mp.info ≡ false
    → let t = launch s name (cron_request req) trigger_of_cron (stop_process mp d) in
      trigger_cron s ns name req d ≡ finish_fire s ns name t.0 t.1
unfolding trigger_cron
trigger_cron-idle s ns name req d mp g idle = rw (g, trigger_cron) (rw idle refl)

launch_fails :
    (s : Surroundings) (name m trigger : Text) (req : AppStartReq) (d : Daemon)
    → s.start ≡ err m
    → launch s name req trigger d ≡ (err (codes "executor start: " ++ m), d)
unfolding launch launch_result
launch_fails s name m trigger req d h = ap (λ r. launch_result s name req trigger r d) h

-- The previous run is active: it has a child, or is between two of them.
abbrev pub HasActiveRun : ProcessInfo → Type 0
HasActiveRun info = (info.pid ≢ 0) ⊎ (info.status ≡ launching)

HasActiveRun-cron_run_active :
    (info : ProcessInfo) → HasActiveRun info → cron_run_active info ≡ true
unfolding cron_run_active is_launching
HasActiveRun-cron_run_active info (inl p) = ground (arith, p)
HasActiveRun-cron_run_active info (inr s) =
    rw s (elim (Bool-cases (info.pid == 0)) [ inl z ↦ rw z refl | inr z ↦ rw z refl ])

-- A fire that arrives while the previous run is active, with a child or launching, stops and launches nothing: the schedules
-- stay, the journal gets a skip, every other entry stays, and the entry changes in the time and the
-- status of its last fire alone.
pub trigger_cron-overlap :
    (s : Surroundings) (ns name : Text) (req : AppStartReq) (d : Daemon) (mp : ManagedProcess)
    → get (cron_key ns name) d.processes ≡ some mp
    → HasActiveRun mp.info
    → let after = trigger_cron s ns name req d in
      (after.armed ≡ d.armed)
      × (after.journal ≡ d.journal ++ skip_record ns name s.run_id s.now ∷ [])
      × ((j : Text)
          → get j after.processes ≡ (
              if same j (cron_key ns name)
              then some (record mp {
                info = record (mp.info) {
                  last_cron_at = s.now;
                  last_cron_status = codes "skipped";
                };
              })
              else get j d.processes))
unfolding update_cron_status
trigger_cron-overlap s ns name req d mp g busy =
    let eq = trigger_cron-busy s ns name req d mp g (HasActiveRun-cron_run_active mp.info busy) in
    (
      ap (λ (x : Daemon). x.armed) eq,
      ap (λ (x : Daemon). x.journal) eq,
      λ j.
          ap (λ (x : Daemon). get j x.processes) eq
          ∙ (ap (λ (t : Bool × Processes). get j t.1)
                (update_info-some (cron_key ns name) _ d.processes mp g)
              ∙ get-put j (cron_key ns name) _ d.processes),
    )

-- A fire whose launch fails leaves the task without a schedule, where the entry's namespace and name
-- are those of its key and its previous run is over: stopping took the entry out of the scheduler,
-- and only a launch that succeeds puts it back. The journal gets a launch failure.
pub trigger_cron_failed :
    (s : Surroundings) (ns name m : Text) (req : AppStartReq) (d : Daemon) (mp : ManagedProcess)
    → get (cron_key ns name) d.processes ≡ some mp
    → cron_key mp.info.app.namespace mp.info.app.name ≡ cron_key ns name
    → cron_run_active mp.info ≡ false
    → s.start ≡ err m
    → let after = trigger_cron s ns name req d in
      (get (cron_key ns name) after.armed ≡ none)
      × (after.journal
          ≡ d.journal
            ++ launch_failure_record ns name s.run_id s.now (codes "executor start: " ++ m) ∷ [])
unfolding stop_process finish_fire
trigger_cron_failed s ns name m req d mp g own_key idle fails =
    let k = cron_key ns name in
    let failing =
      launch_fails s name m trigger_of_cron (cron_request req) (stop_process mp d) fails in
    let eq =
      trigger_cron-idle s ns name req d mp g idle
      ∙ ap (λ (t : Result Text ProcessInfo × Daemon). finish_fire s ns name t.0 t.1) failing in
    (
      ap (λ (x : Daemon). get k x.armed) eq
          ∙ (ap (λ x. get k (remove x d.armed)) own_key
              ∙ (get-remove k k d.armed ∙ rw (same_refl k) refl)),
      ap (λ (x : Daemon). x.journal) eq,
    )
