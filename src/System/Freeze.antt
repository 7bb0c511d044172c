-- ===== src/System/Freeze.antt =====
-- Stopping and resuming processes: crates/app-powerd-core/src/system/freeze.rs.
pub mod Signals
pub mod Reports
use app_powerd.Prelude.{
  ℕ, ◌^◌, ◌≡◌, List, [], ◌∷◌, Bool, true, false, ◌||◌, not, Option, none, some, Text, ◌==◌, leb,
  ltb, if◌then◌else◌,
}
use app_powerd.Host.{
  Host, Io, Trace, ◌>>=◌, ◌>>◌, pure, ProcessHandle, Signal, sigstop, sigcont, Errno, esrch, errno,
  call_kill,
}
use app_powerd.System.Process.{SystemError, process_gone, process_not_found, nix, is_alive}
use app_powerd.System.Apply.{ApplyReport, PidOutcome, empty_report, push, record_outcome}
use app_powerd.System.Cgroup
use app_powerd.System.Cgroup.{CgroupCapabilities}

-- `pid_to_nix`: a PID that is no positive `i32` names no process.
unfoldable pub valid_pid : ℕ → Bool
valid_pid pid = not (leb (2 ^ 31) pid || pid == 0)

unfoldable pub classify : ℕ → Option Errno → Option SystemError
classify pid none = none
classify pid (some esrch) = some (process_gone pid)
classify pid (some (errno e)) = some (nix e)

module _ (host : Host) where
  -- `signal_stop` and `signal_cont`.
  unfoldable pub send_signal : Signal → ℕ → Io (Option SystemError)
  unfolding valid_pid classify
  send_signal sig pid =
      if valid_pid pid
      then (do r ← call_kill host pid sig; pure (classify pid r))
      else pure (some (process_not_found pid))

  -- One round of the loop of `apply_signal`: identity is checked again just before the signal.
  unfoldable pub signal_one : Signal → ApplyReport → ProcessHandle → Io ApplyReport
  signal_one sig report handle t =
      if is_alive host t handle
      then (let r = send_signal sig handle.pid t in (record_outcome handle r.0 report, r.1))
      else (push (PidOutcome.gone handle.pid) report, t)

  unfoldable pub apply_signal_from : Signal → ApplyReport → List ProcessHandle → Io ApplyReport
  apply_signal_from sig report [] t = (report, t)
  apply_signal_from sig report (handle ∷ procs) t =
      let r = signal_one sig report handle t in apply_signal_from sig r.0 procs r.1

  unfoldable pub apply_signal : Signal → List ProcessHandle → Io ApplyReport
  apply_signal sig procs = apply_signal_from sig empty_report procs

  -- The report of an operation on a whole cgroup.
  unfoldable pub group_report_from : Trace → ApplyReport → List ProcessHandle → ApplyReport
  group_report_from t report [] = report
  group_report_from t report (handle ∷ procs) =
      group_report_from t
        (push
          (if is_alive host t handle then PidOutcome.applied handle else PidOutcome.gone handle.pid)
          report)
        procs

  unfoldable pub group_report : List ProcessHandle → Io ApplyReport
  unfolding group_report_from
  group_report procs t = (group_report_from t empty_report procs, t)

  -- The freezer's answer: `none` means that signals have to serve.
  unfoldable pub try_group_freeze : CgroupCapabilities → Option Text → Io Bool
  try_group_freeze caps none = pure false
  try_group_freeze caps (some path) =
      if caps.freezer
      then (do r ← Cgroup.freeze host path; pure (elim r [ none ↦ true | some e ↦ false ]))
      else pure false

  unfoldable pub freeze_app : CgroupCapabilities → Option Text → List ProcessHandle → Io ApplyReport
  freeze_app caps cgroup_path procs t =
      let r = try_group_freeze caps cgroup_path t in
      if r.0 then group_report procs r.1 else apply_signal sigstop procs r.1

  unfoldable pub group_thaw : CgroupCapabilities → Option Text → Io (Unit {0})
  group_thaw caps none = pure tt
  group_thaw caps (some path) =
      if caps.freezer then (do Cgroup.thaw host path; pure tt) else pure tt

  -- Thawing takes both ways: a missed SIGCONT cannot be made good.
  unfoldable pub thaw_app : CgroupCapabilities → Option Text → List ProcessHandle → Io ApplyReport
  thaw_app caps cgroup_path procs t = apply_signal sigcont procs (group_thaw caps cgroup_path t).1
