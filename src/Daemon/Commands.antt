-- ===== src/Daemon/Commands.antt =====
-- What deleting and pausing do to the processes that a target means.
use pm.Daemon.State.{paused, ManagedProcess, Processes}
use pm.Daemon.Registry.{update_info, remove_entry}
use pm.Daemon.Launch.{Daemon}
use pm.Daemon.Lifecycle.{mark_stopping, mark_stopped, stop_process}
use pm.Daemon.Manager.{
  Manager, Outside, key_of, mark_paused, targets_of, pause_process, pause_each, pause_targets,
  pause_by_name, delete_process, delete_each, delete_targets, delete_by_name,
}
use pm.Daemon.Exits.{update_info-some, update_info-none, get-update_info, stopped_entry}
use pm.Daemon.Histories.{auto_save-daemon}
use pm.Prelude.{
  ◌≡◌, refl, sym, ap, ◌∙◌, subst, inl, inr, Bool, true, false, none, some, List, [], ◌∷◌, arith,
  if◌then◌else◌, Bool-cases, Option-cases, Text, same, same_eq, same_refl, contains, get, get-put,
  get-remove,
}

update_info-other :
    (k j : Text) (f : ManagedProcess → ManagedProcess) (ps : Processes)
    → same j k ≡ false
    → get j (update_info k f ps).1 ≡ get j ps
update_info-other k j f ps n = elim (Option-cases (get k ps)) [
  | inl e ↦ ap (λ (t : Bool × Processes). get j t.1) (update_info-none k f ps e)
  | inr (mp, e) ↦
      ap (λ (t : Bool × Processes). get j t.1) (update_info-some k f ps mp e)
      ∙ (get-put j k (f mp) ps ∙ rw n refl)
]

stop_process-other :
    (mp : ManagedProcess) (d : Daemon) (j : Text)
    → same j (key_of mp) ≡ false
    → get j (stop_process mp d).processes ≡ get j d.processes
unfolding stop_process
stop_process-other mp d j n =
    let k = key_of mp in
    update_info-other k j mark_stopped (update_info k mark_stopping d.processes).1 n
    ∙ update_info-other k j mark_stopping d.processes n

get-remove_entry :
    (j k : Text) (ps : Processes)
    → get j (remove_entry k ps).1 ≡ (if same j k then none else get j ps)
unfolding remove_entry
get-remove_entry j k ps = elim (Option-cases (get k ps)) [
  | inr (mp, e) ↦ rw (e, remove_entry) (get-remove j k ps)
  | inl e ↦
      rw (e, remove_entry)
        (elim (Bool-cases (same j k)) [
          | inl s ↦ rw s (ap (λ x. get x ps) (same_eq j k s) ∙ e)
          | inr s ↦ rw s refl
        ])
]

delete_process-get :
    (mp : ManagedProcess) (d : Daemon) (j : Text)
    → get j (delete_process mp d).processes
      ≡ (if same j (key_of mp) then none else get j d.processes)
unfolding delete_process
delete_process-get mp d j =
    get-remove_entry j (key_of mp) (stop_process mp d).processes
    ∙ elim (Bool-cases (same j (key_of mp))) [
      | inl e ↦ rw e refl
      | inr e ↦ rw e (stop_process-other mp d j e)
    ]

delete_process-armed :
    (mp : ManagedProcess) (d : Daemon) (j : Text)
    → get j (delete_process mp d).armed ≡ (if same j (key_of mp) then none else get j d.armed)
unfolding delete_process stop_process
delete_process-armed mp d j = get-remove j (key_of mp) d.armed

abbrev pub keys_of_targets : List ManagedProcess → List Text
keys_of_targets [] = []
keys_of_targets (mp ∷ mps) = key_of mp ∷ keys_of_targets mps

-- The entries and the schedules after a deletion, by those before it.
abbrev pub Deletes : List Text → Daemon → Daemon → Type 0
Deletes ks d e =
    (j : Text)
    → (get j e.processes ≡ (if contains j ks then none else get j d.processes))
      × (get j e.armed ≡ (if contains j ks then none else get j d.armed))

delete_each-Deletes :
    (mps : List ManagedProcess) (d : Daemon) → Deletes (keys_of_targets mps) d (delete_each mps d)
unfolding delete_each contains
delete_each-Deletes [] d j = (refl, refl)
delete_each-Deletes (mp ∷ mps) d j =
    let (p, q) = delete_each-Deletes mps (delete_process mp d) j in
    let a = delete_process-get mp d j in
    let b = delete_process-armed mp d j in (ground (arith, p, a), ground (arith, q, b))

-- DeleteByName removes the entries and the schedules of the processes that the target finds, and
-- those alone, whether the dump is saved or not.
pub delete_by_name-Deletes :
    (o : Outside) (target : Text) (m : Manager) (mp : ManagedProcess) (mps : List ManagedProcess)
    → targets_of o target m ≡ mp ∷ mps
    → Deletes (keys_of_targets (mp ∷ mps)) m.daemon (delete_by_name o target m).1.daemon
unfolding delete_by_name
delete_by_name-Deletes o target m mp mps e =
    subst
      (λ l. Deletes (keys_of_targets (mp ∷ mps)) m.daemon (delete_targets o target l m).1.daemon)
      (sym e)
      (unfold delete_targets in
        subst (Deletes (keys_of_targets (mp ∷ mps)) m.daemon) (sym (auto_save-daemon o _))
          (delete_each-Deletes (mp ∷ mps) m.daemon))

-- The process of the key is paused: it has no child and no schedule.
pub record IsPausedAt (k : Text) (d : Daemon) : Type 0 where
  pub entry : ManagedProcess
  pub found : get k d.processes ≡ some entry
  pub suspended : entry.is_paused ≡ true
  pub status : entry.info.status ≡ paused
  pub childless : entry.info.pid ≡ 0
  pub unscheduled : get k d.armed ≡ none

abbrev HasEntry : Text → Daemon → Type 0
HasEntry k d = (held : ManagedProcess) × (get k d.processes ≡ some held)

pause_process-here :
    (mp : ManagedProcess) (d : Daemon)
    → HasEntry (key_of mp) d
    → IsPausedAt (key_of mp) (pause_process mp d)
unfolding pause_process
pause_process-here mp d (held, g) = record {
  entry = mark_paused (mark_stopped (mark_stopping held));
  found =
      get-update_info (key_of mp) mark_paused (stop_process mp d).processes
        (mark_stopped (mark_stopping held)) (stopped_entry mp held d g);
  suspended = refl;
  status = refl;
  childless = ground arith;
  unscheduled =
      unfold stop_process in
      get-remove (key_of mp) (key_of mp) d.armed ∙ rw (same_refl (key_of mp)) refl;
}

pause_process-other :
    (mp : ManagedProcess) (d : Daemon) (j : Text)
    → same j (key_of mp) ≡ false
    → (get j (pause_process mp d).processes ≡ get j d.processes)
      × (get j (pause_process mp d).armed ≡ get j d.armed)
unfolding pause_process
pause_process-other mp d j n = (
  update_info-other (key_of mp) j mark_paused (stop_process mp d).processes n
      ∙ stop_process-other mp d j n,
  unfold stop_process in (get-remove j (key_of mp) d.armed ∙ rw n refl),
)

pause_process-IsPausedAt :
    (mp : ManagedProcess) (d : Daemon) (k : Text)
    → IsPausedAt k d
    → IsPausedAt k (pause_process mp d)
pause_process-IsPausedAt mp d k p = elim (Bool-cases (same k (key_of mp))) [
  | inl e ↦
      let q = same_eq k (key_of mp) e in
      subst (λ x. IsPausedAt x (pause_process mp d)) (sym q)
        (pause_process-here mp d (p.entry, ap (λ x. get x d.processes) (sym q) ∙ p.found))
  | inr e ↦
      let (a, b) = pause_process-other mp d k e in
      record {
        entry = p.entry;
        found = a ∙ p.found;
        suspended = p.suspended;
        status = p.status;
        childless = p.childless;
        unscheduled = b ∙ p.unscheduled;
      }
]

pause_each-IsPausedAt :
    (mps : List ManagedProcess) (d : Daemon) (k : Text)
    → IsPausedAt k d
    → IsPausedAt k (pause_each mps d)
unfolding pause_each
pause_each-IsPausedAt [] d k p = p
pause_each-IsPausedAt (mp ∷ mps) d k p =
    pause_each-IsPausedAt mps (pause_process mp d) k (pause_process-IsPausedAt mp d k p)

pause_each-pauses :
    (mps : List ManagedProcess) (d : Daemon) (k : Text)
    → contains k (keys_of_targets mps) ≡ true
    → HasEntry k d
    → IsPausedAt k (pause_each mps d)
unfolding pause_each contains
pause_each-pauses [] d k c h = cc
pause_each-pauses (mp ∷ mps) d k c h = elim (Bool-cases (same k (key_of mp))) [
  | inl e ↦
      let q = same_eq k (key_of mp) e in
      pause_each-IsPausedAt mps (pause_process mp d) k (
        subst (λ x. IsPausedAt x (pause_process mp d)) (sym q)
          (pause_process-here mp d (h.0, ap (λ x. get x d.processes) (sym q) ∙ h.1)))
  | inr e ↦
      let (a, b) = pause_process-other mp d k e in
      pause_each-pauses mps (pause_process mp d) k (ground (arith, c, e)) (h.0, a ∙ h.1)
]

-- PauseByName leaves every process that the target finds, by its key, paused: without a child, with
-- the paused status, and without a schedule that could fire.
pub pause_by_name-pauses :
    (o : Outside) (target : Text) (m : Manager) (k : Text) (held : ManagedProcess)
    → contains k (keys_of_targets (targets_of o target m)) ≡ true
    → get k m.daemon.processes ≡ some held
    → IsPausedAt k (pause_by_name o target m).1.daemon
unfolding pause_by_name
pause_by_name-pauses o target m k held c g = found (targets_of o target m) c
  where
    found :
        (mps : List ManagedProcess)
        → contains k (keys_of_targets mps) ≡ true
        → IsPausedAt k (pause_targets o target mps m).1.daemon
    found [] h = absurd (unfold contains in cc)
    found (mp ∷ mps) h =
        unfold pause_targets in
        subst (IsPausedAt k) (sym (auto_save-daemon o _))
          (pause_each-pauses (mp ∷ mps) m.daemon k h (held, g))
