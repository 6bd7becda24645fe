-- ===== src/Daemon/Saving.antt =====
-- When the dump follows the managed processes.
use pm.Daemon.Registry.{snapshot_app_configs}
use pm.Daemon.State.{ManagedProcess}
use pm.Daemon.Manager.{
  restart_found, Manager, Outside, Command, save, auto_save, saved_if_ok, targets_of, stop_targets,
  stop_by_name, pause_targets, pause_by_name, delete_targets, delete_by_name, restart_by_name,
  restart_targets, resume_by_name, resume_targets,
}
use pm.Prelude.{ℕ, ◌≡◌, refl, true, false, some, List, [], ◌∷◌, arith, Text, codes, ok, err}

-- The dump holds the configurations of the managed processes, in the order of the map.
abbrev pub IsSaved : Manager → Type 0
IsSaved m = m.dump ≡ some (snapshot_app_configs m.daemon.processes)

-- A command that succeeds leaves the dump up to date.
abbrev pub Saves : Command → Type 0
Saves c = (u : Unit {0}) → c.0 ≡ ok u → IsSaved c.1

module _ (o : Outside) (writes : (t : ℕ) → o.saves t ≡ true) where
  auto_save-IsSaved : (m : Manager) → m.suppress ≡ false → IsSaved (auto_save o m)
  unfolding auto_save save
  auto_save-IsSaved m h = rw (h, auto_save) (rw (writes m.ticks, save) refl)

  saved_if_ok-Saves : (c : Command) → c.1.suppress ≡ false → Saves (saved_if_ok o c)
  saved_if_ok-Saves (ok v, m) h u e = auto_save-IsSaved m h
  saved_if_ok-Saves (err x, m) h u e = absurd (ground (arith, e))

  module _ (target : Text) (m : Manager) (h : m.suppress ≡ false) where
    stop_targets-Saves : (mps : List ManagedProcess) → Saves (stop_targets o target mps m)
    unfolding stop_targets
    stop_targets-Saves [] u e = absurd (ground (arith, e))
    stop_targets-Saves (mp ∷ mps) u e = auto_save-IsSaved _ h

    pause_targets-Saves : (mps : List ManagedProcess) → Saves (pause_targets o target mps m)
    unfolding pause_targets
    pause_targets-Saves [] u e = absurd (ground (arith, e))
    pause_targets-Saves (mp ∷ mps) u e = auto_save-IsSaved _ h

    delete_targets-Saves : (mps : List ManagedProcess) → Saves (delete_targets o target mps m)
    unfolding delete_targets
    delete_targets-Saves [] u e = absurd (ground (arith, e))
    delete_targets-Saves (mp ∷ mps) u e = auto_save-IsSaved _ h

    restart_found-suppress :
        (trigger : Text) (mps : List ManagedProcess)
        → (restart_found o target trigger mps m).1.suppress ≡ false
    unfolding restart_found
    restart_found-suppress trigger [] = h
    restart_found-suppress trigger (mp ∷ mps) = h

    resume_targets-suppress :
        (mps : List ManagedProcess) → (resume_targets o target mps m).1.suppress ≡ false
    unfolding resume_targets
    resume_targets-suppress [] = h
    resume_targets-suppress (mp ∷ mps) = h

-- The commands by target that a client can ask for.
pub data Request : Type 0 where
  stops restarts pauses resumes deletes : Request

unfoldable pub perform : Outside → Request → Text → Manager → Command
unfolding stop_by_name restart_by_name pause_by_name resume_by_name delete_by_name
perform o stops = stop_by_name o
perform o restarts = restart_by_name o
perform o pauses = pause_by_name o
perform o resumes = resume_by_name o
perform o deletes = delete_by_name o

-- A client's stop, restart, pause, resume or delete that succeeds leaves a dump with the
-- configurations of the processes that are managed then, if the dump can be written and no replay of
-- it is under way.
pub perform-Saves :
    (o : Outside) (r : Request) (target : Text) (m : Manager)
    → ((t : ℕ) → o.saves t ≡ true)
    → m.suppress ≡ false
    → Saves (perform o r target m)
unfolding perform restart_targets
perform-Saves o stops target m w h = stop_targets-Saves o w target m h (targets_of o target m)
perform-Saves o restarts target m w h =
    saved_if_ok-Saves o w (restart_targets o target (codes "restart") m)
      (restart_found-suppress o w target m h (codes "restart") (targets_of o target m))
perform-Saves o pauses target m w h = pause_targets-Saves o w target m h (targets_of o target m)
perform-Saves o resumes target m w h =
    saved_if_ok-Saves o w (resume_targets o target (targets_of o target m) m)
      (resume_targets-suppress o w target m h (targets_of o target m))
perform-Saves o deletes target m w h = delete_targets-Saves o w target m h (targets_of o target m)
