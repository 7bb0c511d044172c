-- ===== src/Engine/Consistent/Run.antt =====
-- The registry under the whole loop: crates/app-powerd-core/src/engine/mod.rs.
use app_powerd.Prelude.{ℕ, inl, inr, List, [], ◌∷◌, Bool, Option, Text, Bool-cases}
use app_powerd.Host.{
  Host, Trace, suspend_timer_fired, maintenance_wake, maintenance_sleep, TimerEvent,
}
use app_powerd.Desktop.Identity.{app_eq}
use app_powerd.Guards.{Sensors}
use app_powerd.Config.{Config}
use app_powerd.Engine.{Engine}
use app_powerd.Engine.Commands.{Words}
use app_powerd.Engine.Loop.{
  EngineEvent, timer, config_reloaded, power_source_changed, reconcile, reconcile_result,
  protection_refreshed, is_shutdown, on_timer, dispatch, run,
}
use app_powerd.Engine.Consistent.{HasWindows}
use app_powerd.Engine.Consistent.Timers.{
  handle_suspend_timer-HasWindows, handle_maintenance_wake-HasWindows,
  handle_maintenance_sleep-HasWindows,
}
use app_powerd.Engine.Consistent.Focus.{handle_focus_changed-HasWindows}
use app_powerd.Engine.Consistent.Windows.{
  handle_workspace_changed-HasWindows, handle_activation_requested-HasWindows,
  handle_window_closed-HasWindows,
}
use app_powerd.Engine.Consistent.Power.{handle_power_change-HasWindows}
use app_powerd.Engine.Consistent.Sweep.{
  handle_reconcile-HasWindows, apply_reconcile_result-HasWindows,
}
use app_powerd.Engine.Consistent.Reload.{handle_config_reload-HasWindows}
use app_powerd.Engine.Consistent.Requests.{shutdown-HasWindows, handle_ipc-HasWindows}

module _ (host : Host) (sensors : Trace → Sensors) (scan_budget : Trace → ℕ)
    (regex : Text → Option (Text → Bool)) (words : Words) (from_yaml : Text → Option Config) where
  on_timer-HasWindows :
      (event : TimerEvent) (e : Engine) (t : Trace)
      → HasWindows e
      → HasWindows (on_timer host sensors scan_budget regex words from_yaml event e t).0
  unfolding on_timer
  on_timer-HasWindows (suspend_timer_fired id) e t h =
      handle_suspend_timer-HasWindows host sensors scan_budget id e t h
  on_timer-HasWindows (maintenance_wake id) e t h = handle_maintenance_wake-HasWindows host id e t h
  on_timer-HasWindows (maintenance_sleep id) e t h =
      handle_maintenance_sleep-HasWindows host id e t h

  dispatch-HasWindows :
      (event : EngineEvent) (e : Engine) (t : Trace)
      → HasWindows e
      → HasWindows (dispatch host sensors scan_budget regex words from_yaml event e t).0.0
  unfolding dispatch
  dispatch-HasWindows (EngineEvent.ipc_request request) e t h =
      handle_ipc-HasWindows host words from_yaml request e t h
  dispatch-HasWindows (EngineEvent.focus_changed window) e t h =
      handle_focus_changed-HasWindows host window e t h
  dispatch-HasWindows (EngineEvent.window_closed id) e t h =
      handle_window_closed-HasWindows host id e t h
  dispatch-HasWindows (EngineEvent.workspace_changed desktop) e t h =
      handle_workspace_changed-HasWindows host desktop e t h
  dispatch-HasWindows (EngineEvent.activation_requested id) e t h =
      handle_activation_requested-HasWindows host id e t h
  dispatch-HasWindows (timer event) e t h = on_timer-HasWindows event e t h
  dispatch-HasWindows (config_reloaded config) e t h =
      handle_config_reload-HasWindows host regex config e t h
  dispatch-HasWindows (power_source_changed source) e t h =
      handle_power_change-HasWindows host source e t h
  dispatch-HasWindows reconcile e t h = handle_reconcile-HasWindows host e t h
  dispatch-HasWindows (reconcile_result reaped dead) e t h =
      apply_reconcile_result-HasWindows host reaped dead e t h
  dispatch-HasWindows (protection_refreshed owners) e t h = h
  dispatch-HasWindows EngineEvent.shutdown e t h = shutdown-HasWindows host e t h

  -- If every window of the registry leads to a tracked application, that is still so after the loop
  -- has handled any list of events: focus changes, closed windows, timers, sweeps, reloads, changes
  -- of the power source, requests and a shutdown, whatever the machine answers.
  pub run-HasWindows :
      (events : List EngineEvent) (e : Engine) (t : Trace)
      → HasWindows e
      → HasWindows (run host sensors scan_budget regex words from_yaml events e t).0.0
  unfolding run
  run-HasWindows [] e t h = h
  run-HasWindows (event ∷ rest) e t h =
      let r = dispatch host sensors scan_budget regex words from_yaml event e t in
      let kept = dispatch-HasWindows event e t h in
      elim (Bool-cases (is_shutdown event)) [
        | inl s ↦ rw s kept
        | inr s ↦ rw s (run-HasWindows rest r.0.0 r.1 kept)
      ]
