-- ===== src/Cli.antt =====
-- The command line: crates/app-powerd/src/main.rs. Its commands, and the lock of the single instance.
pub mod Display
pub mod Sanitized
pub mod Daemon
pub mod CleanSlate
use app_powerd.Prelude.{
  ℕ, List, [], ◌∷◌, ◌++◌, Bool, true, false, Option, none, some, Text, codes, decimal,
}
use app_powerd.Host.{Host}
use app_powerd.System.Power.{PowerSource}
use app_powerd.System.Paths.{lock_path}
use app_powerd.Ipc.{IpcRequest, parse}

pub data ForcedMode : Type 0 where
  battery ac auto : ForcedMode

unfoldable pub forced_source : ForcedMode → Option PowerSource
forced_source battery = some PowerSource.battery
forced_source ac = some PowerSource.ac
forced_source auto = none

pub data Commands : Type 0 where
  run : Text → Commands
  status list stats thaw_all reload_config shutdown : Commands
  freeze thaw : Text → Commands
  force : ForcedMode → Commands

-- What a command asks of the daemon; `none` for the two that are no single request.
unfoldable pub request_of : Commands → Option IpcRequest
unfolding parse forced_source
request_of status = some IpcRequest.status
request_of list = some IpcRequest.list
request_of stats = some IpcRequest.stats
request_of (freeze target) = some (IpcRequest.freeze (parse target))
request_of (thaw target) = some (IpcRequest.thaw (parse target))
request_of reload_config = some IpcRequest.reload_config
request_of (force mode) = some (IpcRequest.set_power_override (forced_source mode))
request_of shutdown = some IpcRequest.shutdown
request_of thaw_all = none
request_of (run config) = none

-- What `File::create` and `Flock::lock` say.
pub data LockAnswer : Type 0 where
  no_file granted eagain eacces : LockAnswer
  other_errno : Text → LockAnswer

-- `busy` is the source's `Ok(None)`.
pub data LockResult : Type 0 where
  locked busy : LockResult
  lock_failed : Text → LockResult

unfoldable pub try_lock_instance : Host → LockAnswer → LockResult
try_lock_instance host granted = locked
try_lock_instance host eagain = busy
try_lock_instance host eacces = busy
try_lock_instance host no_file = lock_failed (codes "failed to create lock file")
try_lock_instance host (other_errno errno) =
    lock_failed (codes "failed to acquire the lock file " ++ lock_path host ++ codes ": " ++ errno)
