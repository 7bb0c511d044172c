-- ===== src/Ipc.antt =====
-- Requests to the daemon and its responses: crates/app-powerd-core/src/ipc/protocol.rs.
pub mod Framing
pub mod Server
pub mod Answered
use app_powerd.Prelude.{
  ℕ, List, ◌++◌, Bool, Option, none, some, Text, codes, decimal, parse_unsigned,
}
use app_powerd.System.Power.{PowerSource}
use app_powerd.State.Machine.{AppState}
use app_powerd.Metrics.{MetricsSnapshot}

abbrev pub protocol_version : ℕ
protocol_version = 2

pub data Target : Type 0 where
  pid : ℕ → Target
  app : Text → Target

-- All digits, of 32 bits, mean a PID; anything else is the name of an application.
unfoldable pub parse : Text → Target
unfolding parse_unsigned
parse arg = elim (parse_unsigned 32 arg) [ none ↦ app arg | some n ↦ pid n ]

-- `Display`.
unfoldable pub target_text : Target → Text
target_text (pid n) = codes "pid " ++ decimal n
target_text (app name) = codes "app " ++ name

pub data IpcRequest : Type 0 where
  list status stats thaw_all reload_config shutdown : IpcRequest
  freeze : Target → IpcRequest
  thaw : Target → IpcRequest
  set_power_override : Option PowerSource → IpcRequest

pub record AppInfo : Type 0 where
  pub app_id : Text
  pub state : AppState
  pub pids : List ℕ
  pub executable : Option Text
  pub wm_class : Option Text
  pub window_title : Option Text
  pub profile : Option Text
  pub rule_id : Option Text
  pub state_since_secs : ℕ
  pub protected : Option Text

pub record StatusInfo : Type 0 where
  pub enabled : Bool
  pub power_source : PowerSource
  pub forced_power_source : Option PowerSource
  pub tracked_apps : ℕ
  pub uptime_secs : ℕ
  pub cgroup_mode : Text
  pub cpu_control : Bool
  pub protected_apps : ℕ
  pub protocol_version : ℕ

pub data IpcResponse : Type 0 where
  ok : Text → IpcResponse
  error : Text → IpcResponse
  app_list : List AppInfo → IpcResponse
  status_info : StatusInfo → IpcResponse
  stats_info : MetricsSnapshot → IpcResponse
