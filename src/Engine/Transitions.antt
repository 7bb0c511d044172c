-- ===== src/Engine/Transitions.antt =====
-- Carrying out a transition: crates/app-powerd-core/src/engine/transitions.rs.
use Prim.Native.Nat.{min}
use app_powerd.Prelude.{
  ℕ, suc, ◌-◌, ◌*◌, ◌^◌, List, Bool, true, false, not, ◌&&◌, Option, none, some, Text, codes, leb,
  get, insert, remove, is_empty, is_some, length, first, unwrap_or, option_map, if◌then◌else◌,
}
use app_powerd.Host.{
  Host, Io, Trace, ◌>>=◌, ◌>>◌, pure, ProcessHandle, FreezeMethod, cgroup, signal,
  suspend_timer_fired, maintenance_wake, spawn, count, apps_frozen_total, apps_thawed_total,
  apps_throttled_total, apps_unthrottled_total, time_in_frozen_ms, time_in_throttled_ms,
  pids_reaped_total,
}
use app_powerd.Desktop.Identity.{AppId, app_eq}
use app_powerd.System.Apply.{ApplyReport, nothing_applied, had_real_error, settled_pids}
use app_powerd.System.Freeze.{freeze_app, thaw_app}
use app_powerd.System.Throttle
use app_powerd.Config.{throttle_params}
use app_powerd.State.Machine.{
  AppState, background, throttled, frozen, TransitionAction, start_suspend_timer,
  cancel_suspend_timer, apply_throttle, apply_freeze, remove_throttle, thaw, no_op,
  requires_management, on_focus_gained, is_suspended,
}
use app_powerd.State.ProcessSet.{remove_pids}
use app_powerd.State.Journal.Persist.{JournalError}
use app_powerd.State.Journal.{arm, commit, retire}
use app_powerd.State.AppEntry
use app_powerd.State.AppEntry.{AppEntry, set_state, elapsed}
use app_powerd.Engine.RateLimit.{LogKey, for_app, for_pid, allow}
use app_powerd.Engine.{
  Engine, modify_entry, with_entry, should_manage, recorded_procs_for, retry_interval,
  max_retry_interval, max_suspend_attempts,
}

module _ (host : Host) where
  -- A warning that the limiter may hold back.
  unfoldable pub limited_warning : LogKey → Engine → Io Engine
  limited_warning key e = do
    r ← allow host key e.rate_limiter
    pure (record e { rate_limiter = r.0 })

  unfoldable pub set_entry_state : AppId → AppState → Engine → Io Engine
  set_entry_state app_id new_state e t = (modify_entry app_id (set_state host t new_state) e, t)

-- Processes that have exited leave the application's set.
unfoldable pub absorb_gone : AppId → ApplyReport → Engine → Io Engine
absorb_gone app_id report e = if is_empty report.gone then pure e else (do
  count pids_reaped_total (length report.gone)
  pure (modify_entry app_id (λ x. record x { roots = remove_pids report.gone x.roots }) e))

unfoldable pub schedule_suspend : AppId → ℕ → Engine → Io Engine
unfolding with_entry
schedule_suspend app_id delay e = do
  handle ← spawn delay (suspend_timer_fired app_id)
  with_entry app_id (AppEntry.set_suspend_timer handle) e

unfoldable pub reschedule_suspend : AppId → Engine → Io Engine
unfolding schedule_suspend
reschedule_suspend app_id e = schedule_suspend app_id retry_interval e

-- (suspend.rs)
unfoldable pub start_maintenance_timer : AppId → Engine → Io Engine
start_maintenance_timer app_id e t = elim (get app_id e.registry.apps) [
  | none ↦ (e, t)
  | some x ↦
      (do
        handle ← spawn x.policy.maintenance_resume.interval (maintenance_wake app_id)
        with_entry app_id (AppEntry.set_maintenance_timer handle) e)
        t
]

-- Ten seconds, doubled at each attempt, and five minutes at most.
abbrev pub retry_delay : ℕ → ℕ
retry_delay attempts = min (retry_interval * 2 ^ (attempts - 1)) max_retry_interval

module _ (host : Host) where
  unfoldable pub warn_partial_failure : AppId → Text → ApplyReport → Engine → Io Engine
  unfolding limited_warning
  warn_partial_failure app_id kind report e =
      if had_real_error report then limited_warning host (for_app app_id.display kind) e else pure e

  unfoldable pub warn_first_failure : AppId → ApplyReport → Engine → Io Engine
  unfolding limited_warning
  warn_first_failure app_id report e = elim (first report.failed) [
    | none ↦ pure e
    | some (pid, error) ↦
        limited_warning host (for_pid app_id.display pid (codes "suspend-failed")) e
  ]

  -- An attempt that reached nothing: the retries back off, and end after five.
  unfoldable pub on_suspend_failed : AppId → ApplyReport → Engine → Io Engine
  unfolding warn_first_failure schedule_suspend with_entry
  on_suspend_failed app_id report e =
      if had_real_error report
      then (let attempts = suc (unwrap_or (get app_id e.suspend_failures) 0) in
          do
            e' ←
                warn_first_failure app_id report
                  (record e { suspend_failures = insert app_id attempts e.suspend_failures })
            if leb max_suspend_attempts attempts
                then with_entry app_id AppEntry.cancel_suspend_timer e'
                else schedule_suspend app_id (retry_delay attempts) e')
      else pure e

  abbrev pub freeze_method : Option Text → Bool → FreezeMethod
  freeze_method cgroup_path freezer = if is_some cgroup_path && freezer then cgroup else signal

  -- What happens once the intent is on disk.
  unfoldable pub freeze_recorded :
      AppId → Option Text → List ProcessHandle → Engine → Io (Engine × Bool)
  unfolding absorb_gone on_suspend_failed
  freeze_recorded app_id cgroup_path procs e = do
    report ← freeze_app host e.cgroup_caps cgroup_path procs
    e1 ← absorb_gone app_id report e
    committed ← commit host e1.journal app_id.key procs report.applied
    let e2 = record e1 { journal = committed.0 }
    if nothing_applied report
        then (do e3 ← on_suspend_failed app_id report e2; pure (e3, false))
        else (do
          count apps_frozen_total 1
          pure (record e2 { suspend_failures = remove app_id e2.suspend_failures }, true))

  -- Unrecorded, nothing is stopped; `none` says that the journal was written.
  unfoldable pub freeze_armed :
      AppId → Option Text → List ProcessHandle → Engine → Option JournalError → Io (Engine × Bool)
  unfolding freeze_recorded limited_warning
  freeze_armed app_id cgroup_path procs e none = freeze_recorded app_id cgroup_path procs e
  freeze_armed app_id cgroup_path procs e (some error) = do
    e' ← limited_warning host (for_app app_id.display (codes "journal-arm")) e
    pure (e', false)

  -- The intent is recorded before the first signal.
  unfoldable pub freeze_with_journal :
      AppId → Option Text → List ProcessHandle → Engine → Io (Engine × Bool)
  unfolding freeze_armed
  freeze_with_journal app_id cgroup_path procs e = if is_empty procs then pure (e, false) else (do
    armed ←
        arm host e.journal app_id.key (freeze_method cgroup_path e.cgroup_caps.freezer) cgroup_path
          procs
    freeze_armed app_id cgroup_path procs (record e { journal = armed.0 }) armed.1)

  -- Only what was released, or is dead, is retired from the journal.
  unfoldable pub restore_frozen : AppId → Option Text → List ProcessHandle → ℕ → Engine → Io Engine
  unfolding absorb_gone warn_partial_failure
  restore_frozen app_id cgroup_path procs elapsed_ms e = do
    report ← thaw_app host e.cgroup_caps cgroup_path procs
    e1 ← warn_partial_failure app_id (codes "thaw-failed") report e
    retired ← retire host e1.journal app_id.key (settled_pids report)
    e2 ← absorb_gone app_id report (record e1 { journal = retired.0 })
    count apps_thawed_total 1
    count time_in_frozen_ms elapsed_ms
    pure e2

  unfoldable pub restore_throttled :
      AppId → Option Text → List ProcessHandle → ℕ → Engine → Io Engine
  unfolding absorb_gone
  restore_throttled app_id cgroup_path procs elapsed_ms e = do
    report ← Throttle.remove_throttle host e.cgroup_caps cgroup_path procs
    e1 ← absorb_gone app_id report e
    count apps_unthrottled_total 1
    count time_in_throttled_ms elapsed_ms
    pure e1

  unfoldable pub restore_app_resources :
      AppId → AppState → Option Text → List ProcessHandle → ℕ → Engine → Io Engine
  restore_app_resources app_id frozen cgroup_path procs elapsed_ms e =
      restore_frozen app_id cgroup_path procs elapsed_ms e
  restore_app_resources app_id throttled cgroup_path procs elapsed_ms e =
      restore_throttled app_id cgroup_path procs elapsed_ms e
  restore_app_resources app_id _ cgroup_path procs elapsed_ms e = pure e

  -- How long the application has been in its state.
  unfoldable pub time_in_state : AppId → Engine → Trace → ℕ
  time_in_state app_id e t =
      unwrap_or (option_map (λ x. elapsed host t x.state_since) (get app_id e.registry.apps)) 0

  unfoldable pub throttle_entry :
      AppId → AppEntry → List ProcessHandle → Engine → Io (Engine × Bool)
  unfolding absorb_gone on_suspend_failed
  throttle_entry app_id x procs e = do
    report ←
        Throttle.apply_throttle host e.cgroup_caps x.cgroup_path procs (throttle_params x.policy)
    e1 ← absorb_gone app_id report e
    if nothing_applied report
        then (do e2 ← on_suspend_failed app_id report e1; pure (e2, false))
        else (do
          count apps_throttled_total 1
          pure (record e1 { suspend_failures = remove app_id e1.suspend_failures }, true))

  unfoldable pub freeze_entry : AppId → AppEntry → List ProcessHandle → Engine → Io (Engine × Bool)
  freeze_entry app_id x procs e = do
    r ← freeze_with_journal app_id x.cgroup_path procs e
    if r.1
        then (if x.policy.maintenance_resume.enabled
            then (do e' ← start_maintenance_timer app_id r.0; pure (e', true))
            else pure r)
        else pure r

  -- The action itself, and whether the state may change: `false` is an early return.
  unfoldable pub act :
      AppId → AppEntry → TransitionAction → List ProcessHandle → Engine → Io (Engine × Bool)
  act app_id x start_suspend_timer procs e = do
    e' ← schedule_suspend app_id x.policy.suspend_delay e
    pure (e', true)
  act app_id x cancel_suspend_timer procs e = do
    e' ← with_entry app_id AppEntry.cancel_suspend_timer e
    pure (e', true)
  act app_id x apply_throttle procs e = throttle_entry app_id x procs e
  act app_id x apply_freeze procs e = freeze_entry app_id x procs e
  act app_id x remove_throttle procs e = λ t.
      (do
        e' ← restore_app_resources app_id throttled x.cgroup_path procs (time_in_state app_id e t) e
        pure (e', true))
        t
  act app_id x thaw procs e = λ t.
      (do
        e' ← restore_app_resources app_id frozen x.cgroup_path procs (time_in_state app_id e t) e
        pure (e', true))
        t
  act app_id x no_op procs e = pure (e, true)

  -- With management off a state that claims a suspended process is withheld.
  unfoldable pub skip_action : AppId → AppState → Engine → Io Engine
  unfolding set_entry_state
  skip_action app_id new_state e =
      if is_suspended new_state then pure e else set_entry_state host app_id new_state e

  unfoldable pub execute_transition :
      AppId → AppState → TransitionAction → List ProcessHandle → Engine → Io Engine
  unfolding set_entry_state skip_action
  execute_transition app_id new_state action procs e =
      if not (should_manage e) && requires_management action
      then skip_action app_id new_state e
      else elim (get app_id e.registry.apps) [
        | none ↦ pure e
        | some x ↦ do
          r ← act app_id x action procs e
          if r.1 then set_entry_state host app_id new_state r.0 else pure r.0
      ]

  -- Thaw or unthrottle, then park the application in the background without timers.
  unfoldable pub restore_to_background : AppId → AppState → Engine → Io Engine
  restore_to_background app_id state e = do
    let procs = recorded_procs_for app_id e
    let next = on_focus_gained state
    e1 ← execute_transition app_id next.0 next.1 procs e
    e2 ← set_entry_state host app_id background e1
    with_entry app_id AppEntry.cancel_all_timers e2
