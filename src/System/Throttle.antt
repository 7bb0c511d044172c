-- ===== src/System/Throttle.antt =====
-- CPU throttling: crates/app-powerd-core/src/system/throttle.rs.
use app_powerd.Prelude.{
  ℕ, List, [], ◌∷◌, Bool, true, false, ◌||◌, Option, none, some, Text, ℤ, pos, ◌==◌, if◌then◌else◌,
}
use app_powerd.Host.{Host, Io, ◌>>=◌, ◌>>◌, pure, ProcessHandle, call_setpriority}
use app_powerd.System.Process.{SystemError, process_not_found, is_alive}
use app_powerd.System.Apply.{ApplyReport, PidOutcome, empty_report, push, record_outcome}
use app_powerd.System.Freeze.{classify}
use app_powerd.System.Cgroup.{CgroupCapabilities, set_cpu_weight, set_cpu_max, reset_cpu}

-- `ThrottleParams` (config/mod.rs).
pub record ThrottleParams : Type 0 where
  pub nice : Option ℤ
  pub cpu_weight : Option ℕ
  pub cpu_quota : Option Text

-- Whether a control landed.
abbrev pub landed : Option SystemError → Bool
landed none = true
landed (some e) = false

module _ (host : Host) where
  unfoldable pub set_nice : ℕ → ℤ → Io (Option SystemError)
  unfolding classify
  set_nice pid nice =
      if pid == 0
      then pure (some (process_not_found pid))
      else (do r ← call_setpriority host pid nice; pure (classify pid r))

  unfoldable pub apply_weight : Text → Option ℕ → Io Bool
  apply_weight path none = pure false
  apply_weight path (some weight) = do r ← set_cpu_weight host path weight; pure (landed r)

  unfoldable pub apply_quota : Text → Option Text → Io Bool
  apply_quota path none = pure false
  apply_quota path (some quota) = do r ← set_cpu_max host path quota; pure (landed r)

  -- Whether any of the controls of the cgroup landed.
  unfoldable pub apply_cpu : CgroupCapabilities → Option Text → ThrottleParams → Io Bool
  unfolding apply_weight apply_quota
  apply_cpu caps none params = pure false
  apply_cpu caps (some path) params =
      if caps.cpu_control
      then (do
        weight ← apply_weight path params.cpu_weight
        quota ← apply_quota path params.cpu_quota
        pure (weight || quota))
      else pure false

  -- With no niceness to set, a process was reached only if a control of its cgroup landed.
  unfoldable pub throttle_live : Option ℤ → Bool → ApplyReport → ProcessHandle → Io ApplyReport
  throttle_live (some nice) cpu_applied report handle = do
    r ← set_nice handle.pid nice
    pure (record_outcome handle r report)
  throttle_live none true report handle = pure (record_outcome handle none report)
  throttle_live none false report handle = pure report

  -- One round of the loop of `apply_throttle`.
  unfoldable pub throttle_one : Option ℤ → Bool → ApplyReport → ProcessHandle → Io ApplyReport
  unfolding throttle_live
  throttle_one nice cpu_applied report handle t =
      if is_alive host t handle
      then throttle_live nice cpu_applied report handle t
      else (push (PidOutcome.gone handle.pid) report, t)

  unfoldable pub throttle_from : Option ℤ → Bool → ApplyReport → List ProcessHandle → Io ApplyReport
  throttle_from nice cpu_applied report [] t = (report, t)
  throttle_from nice cpu_applied report (handle ∷ procs) t =
      let r = throttle_one nice cpu_applied report handle t in
      throttle_from nice cpu_applied r.0 procs r.1

  unfoldable pub apply_throttle :
      CgroupCapabilities → Option Text → List ProcessHandle → ThrottleParams → Io ApplyReport
  apply_throttle caps cgroup_path procs params = do
    cpu_applied ← apply_cpu caps cgroup_path params
    throttle_from params.nice cpu_applied empty_report procs

  unfoldable pub unthrottle_from : ApplyReport → List ProcessHandle → Io ApplyReport
  unthrottle_from report [] t = (report, t)
  unthrottle_from report (handle ∷ procs) t =
      let r =
        if is_alive host t handle
        then (do e ← set_nice handle.pid (pos 0); pure (record_outcome handle e report)) t
        else (push (PidOutcome.gone handle.pid) report, t) in
      unthrottle_from r.0 procs r.1

  unfoldable pub reset_group : CgroupCapabilities → Option Text → Io (Unit {0})
  reset_group caps none = pure tt
  reset_group caps (some path) = if caps.cpu_control then reset_cpu host path else pure tt

  unfoldable pub remove_throttle :
      CgroupCapabilities → Option Text → List ProcessHandle → Io ApplyReport
  remove_throttle caps cgroup_path procs = do
    report ← unthrottle_from empty_report procs
    reset_group caps cgroup_path
    pure report
