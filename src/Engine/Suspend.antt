-- ===== src/Engine/Suspend.antt =====
-- The suspend timer and the maintenance windows: crates/app-powerd-core/src/engine/suspend.rs. The
-- event loop runs one handler at a time, so nothing else changes the engine across an await.
use app_powerd.Prelude.{
  ℕ, ◌-◌, List, [], ◌∷◌, map, Bool, true, false, Option, none, some, codes, ltb, HashMap, get,
  is_empty, length, if◌then◌else◌,
}
use app_powerd.Host.{
  Host, Io, Trace, ◌>>=◌, ◌>>◌, pure, ProcessHandle, maintenance_sleep, spawn, count,
  apps_frozen_total, apps_thawed_total, time_in_frozen_ms, protection_blocks_total,
  guard_blocks_total,
}
use app_powerd.Desktop.Identity.{AppId, app_eq}
use app_powerd.System.Freeze.{freeze_app, thaw_app}
use app_powerd.System.Protection.{ProtectionReason, partition}
use app_powerd.System.Tree.{expand_tree}
use app_powerd.Config.{Action, ignore}
use app_powerd.Guards.{Sensors, GuardResult, allow, block, check_guards}
use app_powerd.State.Machine.{
  SuspendMode, TransitionAction, no_op, on_suspend_timer, is_frozen, is_background,
}
use app_powerd.State.ProcessSet.{pids}
use app_powerd.State.AppEntry
use app_powerd.State.AppEntry.{AppEntry, elapsed, in_resume_grace, reset_state_since}
use app_powerd.Engine.RateLimit.{for_app}
use app_powerd.Engine.{Engine, modify_entry, with_entry, recorded_procs_for}
use app_powerd.Engine.Transitions.{
  limited_warning, schedule_suspend, reschedule_suspend, start_maintenance_timer,
  warn_partial_failure, time_in_state, execute_transition,
}

abbrev pub is_ignore : Action → Bool
is_ignore ignore = true
is_ignore _ = false

abbrev pub suspend_mode : Action → SuspendMode
suspend_mode Action.freeze = SuspendMode.freeze
suspend_mode _ = SuspendMode.throttle

abbrev pub is_no_op : TransitionAction → Bool
is_no_op no_op = true
is_no_op _ = false

-- `scan_budget` is the number of processes that the five seconds of a scan allow to visit.
module _ (host : Host) (sensors : Trace → Sensors) (scan_budget : Trace → ℕ) where
  -- A scan that fails or runs out of time yields nothing.
  unfoldable pub split_scan :
      AppEntry
      → Engine
      → Trace
      → Option (List ProcessHandle)
      → List ProcessHandle × List (ℕ × ProtectionReason)
  split_scan x e t none = ([], [])
  split_scan x e t (some procs) = partition host t e.protection procs (pids x.roots)

  -- The tree, split into what may be suspended and what is protected.
  unfoldable pub scan_tree :
      AppEntry → Engine → Trace → List ProcessHandle × List (ℕ × ProtectionReason)
  unfolding split_scan
  scan_tree x e t = split_scan x e t (expand_tree host t (scan_budget t) (pids x.roots))

  unfoldable pub note_protected : AppId → List (ℕ × ProtectionReason) → Engine → Io Engine
  unfolding limited_warning
  note_protected app_id protected e = if is_empty protected then pure e else (do
    count protection_blocks_total (length protected)
    limited_warning host (for_app app_id.display (codes "protected-descendants")) e)

  unfoldable pub suspend_now : AppId → AppEntry → List ProcessHandle → Engine → Io Engine
  suspend_now app_id x procs e =
      if is_background x.state
      then (let next = on_suspend_timer x.state (suspend_mode x.policy.action) in
          if is_no_op next.1 then pure e else execute_transition host app_id next.0 next.1 procs e)
      else pure e

  unfoldable pub suspend_if :
      GuardResult → AppId → AppEntry → List ProcessHandle → Engine → Io Engine
  unfolding reschedule_suspend suspend_now
  suspend_if (block reason) app_id x procs e = do
    count guard_blocks_total 1
    reschedule_suspend app_id e
  suspend_if allow app_id x procs e = suspend_now app_id x procs e

  unfoldable pub guarded_suspend : AppId → AppEntry → List ProcessHandle → Engine → Io Engine
  unfolding suspend_if
  guarded_suspend app_id x procs e t =
      suspend_if
        (check_guards (sensors t) (map (λ h. h.pid) procs) x.policy.guards
          x.window_info.is_fullscreen)
        app_id x procs e t

  unfoldable pub suspend_scanned : AppId → AppEntry → Engine → Io Engine
  unfolding note_protected
  suspend_scanned app_id x e t =
      let split = scan_tree x e t in
      (do e' ← note_protected app_id split.1 e; guarded_suspend app_id x split.0 e') t

  unfoldable pub handle_suspend_timer : AppId → Engine → Io Engine
  unfolding schedule_suspend
  handle_suspend_timer app_id e t = elim (get app_id e.registry.apps) [
    | none ↦ (e, t)
    | some x ↦
        if is_ignore x.policy.action
        then with_entry app_id AppEntry.cancel_suspend_timer e t
        else if in_resume_grace host t x
        then (e, t)
        else if ltb (elapsed host t x.state_since) x.policy.min_suspend
        then schedule_suspend app_id (x.policy.min_suspend - elapsed host t x.state_since) e t
        else suspend_scanned app_id x e t
  ]

module _ (host : Host) where
  -- The journal keeps its entry: the application is frozen again in a moment.
  unfoldable pub wake_entry : AppId → AppEntry → Engine → Io Engine
  unfolding warn_partial_failure
  wake_entry app_id x e = do
    report ← thaw_app host e.cgroup_caps x.cgroup_path (recorded_procs_for app_id e)
    e1 ← warn_partial_failure host app_id (codes "maintenance-thaw") report e
    (λ t. count time_in_frozen_ms (time_in_state host app_id e1 t) t)
    e2 ← (λ t. (modify_entry app_id (reset_state_since host t) e1, t))
    count apps_thawed_total 1
    handle ← spawn x.policy.maintenance_resume.duration (maintenance_sleep app_id)
    with_entry app_id (AppEntry.set_maintenance_timer handle) e2

  unfoldable pub handle_maintenance_wake : AppId → Engine → Io Engine
  handle_maintenance_wake app_id e t = elim (get app_id e.registry.apps) [
    | none ↦ (e, t)
    | some x ↦ if is_frozen x.state then wake_entry app_id x e t else (e, t)
  ]

  unfoldable pub sleep_entry : AppId → AppEntry → Engine → Io Engine
  unfolding warn_partial_failure start_maintenance_timer
  sleep_entry app_id x e = do
    report ← freeze_app host e.cgroup_caps x.cgroup_path (recorded_procs_for app_id e)
    e1 ← warn_partial_failure host app_id (codes "maintenance-freeze") report e
    count apps_frozen_total 1
    start_maintenance_timer app_id e1

  unfoldable pub handle_maintenance_sleep : AppId → Engine → Io Engine
  handle_maintenance_sleep app_id e t = elim (get app_id e.registry.apps) [
    | none ↦ (e, t)
    | some x ↦ if is_frozen x.state then sleep_entry app_id x e t else (e, t)
  ]

-- A timer for each application that waits in the background.
unfoldable pub start_timers : HashMap AppId AppEntry → Engine → Io Engine
unfolding schedule_suspend
start_timers [] e t = (e, t)
start_timers ((id, x) ∷ rest) e t =
    let r =
      if is_background x.state
      then (if is_ignore x.policy.action
          then (e, t)
          else schedule_suspend id x.policy.suspend_delay e t)
      else (e, t) in
    start_timers rest r.0 r.1

unfoldable pub start_management : Engine → Io Engine
unfolding start_timers
start_management e = start_timers e.registry.apps e
