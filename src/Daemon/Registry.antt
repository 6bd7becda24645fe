-- ===== src/Daemon/Registry.antt =====
-- daemon/process_registry.go: the operations of the process map. Each runs under the map's lock, and
-- is one step here. The order of a Go map is arbitrary: here it is that of the association list.
use pm.Daemon.State.{AppConfig, ProcessInfo, ManagedProcess, Processes, cron_key, is_online}
use pm.Prelude.{
  ℕ, Bool, true, false, ◌&&◌, Option, none, some, List, [], ◌∷◌, ltb, ◌==◌, if◌then◌else◌, Text,
  codes, same, is_empty, Dict, dict_keys, get, put, remove,
}

-- SnapshotOne.
unfoldable pub snapshot_one : Text → Processes → Option ProcessInfo
snapshot_one k ps = elim (get k ps) [ none ↦ none | some mp ↦ some mp.info ]

-- Remove: the removed entry, if there was one.
unfoldable pub remove_entry : Text → Processes → Option ManagedProcess × Processes
remove_entry k ps = elim (get k ps) [ none ↦ (none, ps) | some mp ↦ (some mp, remove k ps) ]

-- List and listLocked.
unfoldable pub processes_list : Processes → List ManagedProcess
processes_list [] = []
processes_list ((k, mp) ∷ ps) = mp ∷ processes_list ps

-- Snapshot.
unfoldable pub snapshot : Processes → List ProcessInfo
snapshot [] = []
snapshot ((k, mp) ∷ ps) = mp.info ∷ snapshot ps

-- SnapshotAppConfigs: the paused bit goes onto the copies.
unfoldable pub snapshot_app_configs : Processes → List AppConfig
snapshot_app_configs [] = []
snapshot_app_configs ((k, mp) ∷ ps) =
    record (mp.info.app) { paused = mp.is_paused } ∷ snapshot_app_configs ps

pub record ProcessSample : Type 0 where
  pub pid : ℕ
  pub is_live : Bool

-- SnapshotForMetrics.
unfoldable pub snapshot_for_metrics : Processes → Dict ProcessSample
snapshot_for_metrics [] = []
snapshot_for_metrics ((k, mp) ∷ ps) =
    (k, record { pid = mp.info.pid; is_live = ltb 0 mp.info.pid && is_online mp.info.status })
    ∷ snapshot_for_metrics ps

-- The entries of the map that a test picks.
unfoldable pub filter_processes : (ManagedProcess → Bool) → Processes → List ManagedProcess
filter_processes test [] = []
filter_processes test ((k, mp) ∷ ps) =
    let rest = filter_processes test ps in if test mp then mp ∷ rest else rest

unfoldable pub first_process : (ManagedProcess → Bool) → Processes → Option ManagedProcess
first_process test [] = none
first_process test ((k, mp) ∷ ps) =
    let rest = first_process test ps in if test mp then some mp else rest

abbrev pub has_id : Option ℕ → ManagedProcess → Bool
has_id none mp = false
has_id (some n) mp = mp.info.id == n

abbrev pub has_name : Text → ManagedProcess → Bool
has_name target mp = same mp.info.app.name target

abbrev pub has_namespace : Text → ManagedProcess → Bool
has_namespace target mp = same mp.info.app.namespace target

abbrev pub all_target : Text
all_target = codes "all"

unfoldable pub by_namespace : Text → List ManagedProcess → Processes → List ManagedProcess
by_namespace target [] ps = filter_processes (has_namespace target) ps
by_namespace target (mp ∷ mps) ps = mp ∷ mps

unfoldable pub by_name : Text → Option ManagedProcess → Processes → List ManagedProcess
unfolding by_namespace
by_name target (some mp) ps = mp ∷ []
by_name target none ps = by_namespace target (filter_processes (has_name target) ps) ps

unfoldable pub by_id : Text → Option ℕ → Option ManagedProcess → Processes → List ManagedProcess
unfolding by_name
by_id target n (some mp) ps = mp ∷ []
by_id target n none ps = by_name target (first_process (has_id n) ps) ps

-- FindByTarget, with fmt.Sscan's reading of the target as an integer that some ID could equal.
unfoldable pub find_by_target : (Text → Option ℕ) → Text → Processes → List ManagedProcess
unfolding by_id
find_by_target scan_int target ps =
    if same target all_target
    then processes_list ps
    else by_id target (scan_int target) (get target ps) ps

-- UpdateInfo.
unfoldable pub update_info : Text → (ManagedProcess → ManagedProcess) → Processes → Bool × Processes
update_info k f ps = elim (get k ps) [ none ↦ (false, ps) | some mp ↦ (true, put k (f mp) ps) ]

-- What UpdateMetrics writes onto the entry.
abbrev pub with_metrics : ℕ → ℕ → ManagedProcess → ManagedProcess
with_metrics cpu memory mp =
    if ltb 0 mp.info.pid && is_online mp.info.status
    then record mp { info = record (mp.info) { cpu = cpu; memory = memory } }
    else record mp { info = record (mp.info) { cpu = 0; memory = 0 } }

unfoldable pub update_metrics : Text → ℕ → ℕ → ℕ → Processes → Bool × Processes
update_metrics k expected cpu memory ps = elim (get k ps) [
  | none ↦ (false, ps)
  | some mp ↦
      if mp.info.pid == expected then (true, put k (with_metrics cpu memory mp) ps) else (false, ps)
]

unfoldable pub update_cron_status : Text → ℕ → Text → Processes → Bool × Processes
unfolding update_info
update_cron_status k at status ps =
    update_info k
      (λ mp. record mp { info = record (mp.info) { last_cron_at = at; last_cron_status = status } })
      ps

unfoldable pub update_cron_outcome : Text → Text → Processes → Bool × Processes
unfolding update_info
update_cron_outcome k status ps =
    update_info k (λ mp. record mp { info = record (mp.info) { last_cron_status = status } }) ps

abbrev pub is_same_app : Text → Text → ManagedProcess → Bool
is_same_app name config_file mp =
    same mp.info.app.name name && same mp.info.app.config_file config_file

-- The loop over the map, by its keys.
unfoldable pub scan_existing : Text → Text → Processes → List Text → Option (Text × ManagedProcess)
scan_existing name config_file ps [] = none
scan_existing name config_file ps (k ∷ ks) =
    let rest = scan_existing name config_file ps ks in
    elim (get k ps) [
      | none ↦ rest
      | some mp ↦ if is_same_app name config_file mp then some (k, mp) else rest
    ]

-- findExistingForLaunchUnderLock: the entry of this key, or one of this name and file elsewhere.
unfoldable pub find_existing : Text → Text → Text → Processes → Option (Text × ManagedProcess)
unfolding scan_existing
find_existing ns name config_file ps = elim (get (cron_key ns name) ps) [
  | some mp ↦ some (cron_key ns name, mp)
  | none ↦ if is_empty config_file then none else scan_existing name config_file ps (dict_keys ps)
]
