-- ===== src/Daemon/State.antt =====
-- process/app_config.go, process/process_info.go and daemon/process_manager.go: what the daemon
-- keeps of a managed process.
use pm.Prelude.{ℕ, Bool, true, false, List, ◌++◌, Text, codes, Dict}

pub data ProcessStatus : Type 0 where
  -- The empty string of a zero ProcessInfo.
  unset online stopped stopping errored launching paused : ProcessStatus

pub record AppConfig : Type 0 where
  pub namespace : Text
  pub name : Text
  pub script : Text
  pub args : List Text
  pub instances : ℕ
  pub env : Dict Text
  pub cron_restart : Text
  pub cron : Text
  pub watch : Bool
  pub max_restarts : ℕ
  pub version : Text
  pub config_file : Text
  pub cwd : Text
  pub base_env : List Text
  pub paused : Bool
  pub optional : Bool

-- AppConfig is embedded in Go, and a field here. The processor share is a float that is only copied:
-- its bits.
pub record ProcessInfo : Type 0 where
  pub app : AppConfig
  pub id : ℕ
  pub log_file : Text
  pub error_file : Text
  pub pid : ℕ
  pub status : ProcessStatus
  pub restarts : ℕ
  pub started_at : ℕ
  pub cpu : ℕ
  pub memory : ℕ
  pub user : Text
  pub last_cron_at : ℕ
  pub last_cron_status : Text

-- The handle stands for the pointer's identity.
pub record ManagedProcess : Type 0 where
  pub handle : ℕ
  pub info : ProcessInfo
  pub is_stopping : Bool
  pub is_paused : Bool
  pub run_id : Text
  pub trigger : Text

-- The map of a ProcessRegistry.
abbrev pub Processes : Type 0
Processes = Dict ManagedProcess

-- cronKey.
unfoldable pub cron_key : Text → Text → Text
cron_key ns name = ns ++ codes ":" ++ name

abbrev pub is_online : ProcessStatus → Bool
is_online online = true
is_online _ = false

abbrev pub is_launching : ProcessStatus → Bool
is_launching launching = true
is_launching _ = false

abbrev pub is_errored : ProcessStatus → Bool
is_errored errored = true
is_errored _ = false
