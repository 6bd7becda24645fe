-- ===== src/Daemon/Reach.antt =====
-- What every sequence of the daemon's operations keeps: identifiers and keys.
use pm.Wfengine.Exit.{ExitInfo}
use pm.Daemon.State.{cron_key, ProcessInfo, ManagedProcess, Processes}
use pm.Daemon.Registry.{
  find_existing, update_cron_outcome, update_info, remove_entry, update_cron_status,
}
use pm.Daemon.Launch.{
  namespace_of, new_entry, StartResult, launch, launch_result, launch_started, install_entry,
  AppStartReq, Surroundings, put_entry, Daemon,
}
use pm.Daemon.Ids.{launch-IdsUnique, IdsUnique}
use pm.Daemon.Journal.{zero_info, trigger_of_cron}
use pm.Daemon.Lifecycle.{
  cron_run_active, finish_fire, trigger_cron, note_exit, on_process_exit, auto_restart, after_exit,
  exit_update, wants_restart, mark_stopping, mark_stopped, stop_process, set_cron_status,
}
use pm.Daemon.Manager.{key_of}
use pm.Prelude.{
  ℕ, ◌≡◌, refl, sym, ap, ◌∙◌, inl, inr, true, false, not, ◌&&◌, Option, none, some, [], arith, ◌==◌,
  Bool-cases, Option-cases, Text, codes, same, same_eq, is_empty, get, put, remove, get-put,
  get-remove, Result, ok, err,
}

-- What an operation may make of an entry: its identifier and its key stay.
abbrev pub Alike : ManagedProcess → ManagedProcess → Type 0
Alike a b = (a.info.id ≡ b.info.id) × (key_of a ≡ key_of b)

-- Every entry afterwards is one that was there before, under the same key.
abbrev pub Keeps : Processes → Processes → Type 0
Keeps ps qs =
    (k : Text) (a : ManagedProcess)
    → get k qs ≡ some a
    → (b : ManagedProcess) × (get k ps ≡ some b) × Alike a b

pub Keeps-refl : (ps : Processes) → Keeps ps ps
Keeps-refl ps k a h = (a, h, (refl, refl))

pub Keeps-trans : (ps qs rs : Processes) → Keeps ps qs → Keeps qs rs → Keeps ps rs
Keeps-trans ps qs rs f g k a h =
    let (b, p, q) = g k a h in let (c, r, s) = f k b p in (c, r, (q.0 ∙ s.0, q.1 ∙ s.1))

pub put-Keeps :
    (k : Text) (old new : ManagedProcess) (ps : Processes)
    → get k ps ≡ some old
    → Alike new old
    → Keeps ps (put k new ps)
put-Keeps k old new ps g al j a h = elim (Bool-cases (same j k)) [
  | inl e ↦
      let here : a ≡ new = ground (arith, h, e, get-put j k new ps) in
      (
        old,
        ap (λ x. get x ps) (same_eq j k e) ∙ g,
        (ap (λ (x : ManagedProcess). x.info.id) here ∙ al.0, ap key_of here ∙ al.1),
      )
  | inr e ↦ (a, ground (arith, h, e, get-put j k new ps), (refl, refl))
]

pub update_info-Keeps :
    (k : Text) (f : ManagedProcess → ManagedProcess) (ps : Processes)
    → ((mp : ManagedProcess) → Alike (f mp) mp)
    → Keeps ps (update_info k f ps).1
unfolding update_info
update_info-Keeps k f ps al = elim (Option-cases (get k ps)) [
  | inl e ↦ rw (e, update_info) (Keeps-refl ps)
  | inr (mp, e) ↦ rw (e, update_info) (put-Keeps k mp (f mp) ps e (al mp))
]

pub remove-Keeps : (k : Text) (ps : Processes) → Keeps ps (remove k ps)
remove-Keeps k ps j a h = elim (Bool-cases (same j k)) [
  | inl e ↦ absurd (ground (arith, h, e, get-remove j k ps))
  | inr e ↦ (a, ground (arith, h, e, get-remove j k ps), (refl, refl))
]

pub remove_entry-Keeps : (k : Text) (ps : Processes) → Keeps ps (remove_entry k ps).1
unfolding remove_entry
remove_entry-Keeps k ps = elim (Option-cases (get k ps)) [
  | inl e ↦ rw (e, remove_entry) (Keeps-refl ps)
  | inr (mp, e) ↦ rw (e, remove_entry) (remove-Keeps k ps)
]

-- Identifiers are unique, and every entry stands under the key of its namespace and name.
pub record WellFormed (d : Daemon) : Type 0 where
  pub ids : IdsUnique d
  pub keyed : (k : Text) (a : ManagedProcess) → get k d.processes ≡ some a → key_of a ≡ k

-- An operation that keeps the entries and gives no identifier keeps the daemon well-formed.
pub Keeps-WellFormed :
    (d e : Daemon)
    → e.next_id ≡ d.next_id
    → Keeps d.processes e.processes
    → WellFormed d
    → WellFormed e
Keeps-WellFormed d e n kept v = record {
  ids = record {
    below = λ k a h. let (b, p, q) = kept k a h in omega (arith, v.ids.below k b p, q.0, n);
    apart = λ j k a b g h eq.
        let (x, p, q) = kept j a g in
        let (y, r, s) = kept k b h in v.ids.apart j k x y p r (sym q.0 ∙ (eq ∙ s.0));
    no_empty = elim (Option-cases (get [] e.processes)) [
      | inl f ↦ f
      | inr (a, f) ↦ let (b, p, q) = kept [] a f in absurd (ground (arith, p, v.ids.no_empty))
    ];
  };
  keyed = λ k a h. let (b, p, q) = kept k a h in q.1 ∙ v.keyed k b p;
}

exit_update-Alike : (x : ExitInfo) (mp : ManagedProcess) → Alike (exit_update x mp).1 mp
unfolding exit_update after_exit
exit_update-Alike x mp = elim (Bool-cases (wants_restart (after_exit x mp))) [
  | inl e ↦ rw e (refl, refl)
  | inr e ↦ rw e (refl, refl)
]

mark_stopping-Alike : (mp : ManagedProcess) → Alike (mark_stopping mp) mp
mark_stopping-Alike mp = elim (Bool-cases mp.is_paused) [
  | inl e ↦ rw e (refl, refl)
  | inr e ↦ rw e (refl, refl)
]

mark_stopped-Alike : (mp : ManagedProcess) → Alike (mark_stopped mp) mp
mark_stopped-Alike mp = elim (Bool-cases mp.is_paused) [
  | inl e ↦ rw e (refl, refl)
  | inr e ↦ rw e (refl, refl)
]

pub stop_process-Keeps :
    (mp : ManagedProcess) (d : Daemon) → Keeps d.processes (stop_process mp d).processes
unfolding stop_process
stop_process-Keeps mp d =
    let k = key_of mp in
    let marked = (update_info k mark_stopping d.processes).1 in
    Keeps-trans d.processes marked _
      (update_info-Keeps k mark_stopping d.processes mark_stopping-Alike)
      (update_info-Keeps k mark_stopped marked mark_stopped-Alike)

pub set_cron_status-Keeps :
    (k : Text) (at : ℕ) (status : Text) (d : Daemon)
    → Keeps d.processes (set_cron_status k at status d).processes
unfolding update_cron_status
set_cron_status-Keeps k at status d = update_info-Keeps k _ d.processes (λ mp. (refl, refl))

note_exit-Keeps :
    (k : Text) (info : ProcessInfo) (run_id trigger : Text) (x : ExitInfo) (pid now : ℕ)
    (d : Daemon)
    → Keeps d.processes (note_exit k info run_id trigger x pid now d).processes
unfolding note_exit update_cron_outcome
note_exit-Keeps k info run_id trigger x pid now d =
    elim (Bool-cases (same trigger trigger_of_cron)) [
      | inl e ↦ rw (e, note_exit) (update_info-Keeps k _ d.processes (λ mp. (refl, refl)))
      | inr e ↦ rw (e, note_exit) (Keeps-refl d.processes)
    ]

note_exit-next_id :
    (k : Text) (info : ProcessInfo) (run_id trigger : Text) (x : ExitInfo) (pid now : ℕ)
    (d : Daemon)
    → (note_exit k info run_id trigger x pid now d).next_id ≡ d.next_id
unfolding note_exit
note_exit-next_id k info run_id trigger x pid now d = ground arith

pub on_process_exit-WellFormed :
    (mp : ManagedProcess) (x : ExitInfo) (pid now : ℕ) (d : Daemon)
    → WellFormed d
    → WellFormed (on_process_exit mp x pid now d).1
unfolding on_process_exit
on_process_exit-WellFormed mp x pid now d v =
    let k = key_of mp in
    elim (Option-cases (get k d.processes)) [
      | inl e ↦
          rw (e, on_process_exit)
            (Keeps-WellFormed d (note_exit k zero_info [] [] x pid now d)
              (note_exit-next_id k zero_info [] [] x pid now d)
              (note_exit-Keeps k zero_info [] [] x pid now d) v)
      | inr (held, e) ↦
          let t = exit_update x held in
          let d' = record d { processes = put k t.1 d.processes } in
          rw (e, on_process_exit)
            (Keeps-WellFormed d (note_exit k t.1.info t.1.run_id t.1.trigger x pid now d')
              (note_exit-next_id k t.1.info t.1.run_id t.1.trigger x pid now d')
              (Keeps-trans d.processes d'.processes _
                (put-Keeps k held t.1 d.processes e (exit_update-Alike x held))
                (note_exit-Keeps k t.1.info t.1.run_id t.1.trigger x pid now d'))
              v)
    ]

pub stop_process-WellFormed :
    (mp : ManagedProcess) (d : Daemon) → WellFormed d → WellFormed (stop_process mp d)
stop_process-WellFormed mp d v =
    Keeps-WellFormed d (stop_process mp d) (unfold stop_process in refl) (stop_process-Keeps mp d) v

set_cron_status-WellFormed :
    (k : Text) (at : ℕ) (status : Text) (d : Daemon)
    → WellFormed d
    → WellFormed (set_cron_status k at status d)
set_cron_status-WellFormed k at status d v =
    Keeps-WellFormed d (set_cron_status k at status d) refl (set_cron_status-Keeps k at status d) v

-- A launch puts its entry under the entry's own key, and keeps the others or drops them.
put_entry-keyed :
    (d : Daemon) (k : Text) (mp : ManagedProcess) (found : Option (Text × ManagedProcess))
    → key_of mp ≡ k
    → ((j : Text) (a : ManagedProcess) → get j d.processes ≡ some a → key_of a ≡ j)
    → (j : Text) (a : ManagedProcess) → get j (put_entry k mp found d.processes) ≡ some a
    → key_of a ≡ j
unfolding put_entry
put_entry-keyed d k mp found own v j a h = stored (kept_or_dropped found h)
  where
    kept_or_dropped :
        (f : Option (Text × ManagedProcess))
        → get j (put_entry k mp f d.processes) ≡ some a
        → get j (put k mp d.processes) ≡ some a
    kept_or_dropped none g = g
    kept_or_dropped (some (o, held)) g = elim (Bool-cases (not (is_empty o) && not (same o k))) [
      | inl e ↦ ground (arith, g, e, get-remove j o (put k mp d.processes))
      | inr e ↦ ground (arith, g, e)
    ]

    stored : get j (put k mp d.processes) ≡ some a → key_of a ≡ j
    stored g = elim (Bool-cases (same j k)) [
      | inl e ↦
          let here : a ≡ mp = ground (arith, g, e, get-put j k mp d.processes) in
          ap key_of here ∙ (own ∙ sym (same_eq j k e))
      | inr e ↦ v j a (ground (arith, g, e, get-put j k mp d.processes))
    ]

module _ (s : Surroundings) (name : Text) (req : AppStartReq) (trigger : Text) (d : Daemon) where
  abbrev IsKeyed : Daemon → Type 0
  IsKeyed e = (k : Text) (a : ManagedProcess) → get k e.processes ≡ some a → key_of a ≡ k

  install_entry-IsKeyed :
      (result : StartResult) (found : Option (Text × ManagedProcess))
      → IsKeyed d
      → IsKeyed (install_entry s name req trigger result found d).1
  unfolding install_entry new_entry
  install_entry-IsKeyed result found v =
      put_entry-keyed d (cron_key (namespace_of req) name) _ found refl v

  launch_started-IsKeyed :
      (result : StartResult) (found : Option (Text × ManagedProcess))
      → IsKeyed d
      → IsKeyed (launch_started s name req trigger result found d).1
  unfolding launch_started
  launch_started-IsKeyed result none v = install_entry-IsKeyed result none v
  launch_started-IsKeyed result (some (k, mp)) v =
      elim (Bool-cases (mp.is_paused && req.cron_triggered)) [
        | inl b ↦ rw b v
        | inr b ↦ rw b (install_entry-IsKeyed result (some (k, mp)) v)
      ]

  launch_result-IsKeyed :
      (r : Result Text StartResult) → IsKeyed d → IsKeyed (launch_result s name req trigger r d).1
  unfolding launch_result
  launch_result-IsKeyed (err m) v = v
  launch_result-IsKeyed (ok result) v =
      launch_started-IsKeyed result
        (find_existing (namespace_of req) name req.app.config_file d.processes) v

  pub launch-WellFormed : WellFormed d → WellFormed (launch s name req trigger d).1
  launch-WellFormed v = record {
    ids = launch-IdsUnique s name req trigger d v.ids;
    keyed = unfold launch in launch_result-IsKeyed s.start v.keyed;
  }

pub auto_restart-WellFormed :
    (mp : ManagedProcess) (s : Surroundings) (d : Daemon)
    → WellFormed d
    → WellFormed (auto_restart mp s d)
unfolding auto_restart
auto_restart-WellFormed mp s d v = elim (Option-cases (get (key_of mp) d.processes)) [
  | inl e ↦ rw (e, auto_restart) v
  | inr (current, e) ↦ elim (Bool-cases (current.handle == mp.handle && not current.is_stopping)) [
    | inl b ↦
        rw (e, auto_restart)
          (rw b (
            launch-WellFormed s current.info.app.name
              (record { app = current.info.app; cron_triggered = false }) (codes "autorestart") d
              v))
    | inr b ↦ rw (e, auto_restart) (rw b v)
  ]
]

finish_fire-WellFormed :
    (s : Surroundings) (ns name : Text) (r : Result Text ProcessInfo) (d : Daemon)
    → WellFormed d
    → WellFormed (finish_fire s ns name r d)
unfolding finish_fire
finish_fire-WellFormed s ns name (ok i) d v =
    set_cron_status-WellFormed (cron_key ns name) s.now (codes "running") d v
finish_fire-WellFormed s ns name (err m) d v =
    set_cron_status-WellFormed (cron_key ns name) s.now (codes "failed") _
      (Keeps-WellFormed d _ refl (Keeps-refl d.processes) v)

pub trigger_cron-WellFormed :
    (s : Surroundings) (ns name : Text) (req : AppStartReq) (d : Daemon)
    → WellFormed d
    → WellFormed (trigger_cron s ns name req d)
unfolding trigger_cron
trigger_cron-WellFormed s ns name req d v =
    elim (Option-cases (get (cron_key ns name) d.processes)) [
      | inl e ↦ rw (e, trigger_cron) v
      | inr (mp, e) ↦ elim (Bool-cases (cron_run_active mp.info)) [
        | inl b ↦
            rw (e, trigger_cron)
              (rw b (
                Keeps-WellFormed (set_cron_status (cron_key ns name) s.now (codes "skipped") d) _
                  refl (Keeps-refl _)
                  (set_cron_status-WellFormed (cron_key ns name) s.now (codes "skipped") d v)))
        | inr b ↦
            rw (e, trigger_cron)
              (rw b (
                finish_fire-WellFormed s ns name _ _ (
                  launch-WellFormed s name (record req { cron_triggered = true }) trigger_of_cron
                    (stop_process mp d) (stop_process-WellFormed mp d v))))
      ]
    ]
