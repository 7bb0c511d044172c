-- ===== src/Engine/Loop.antt =====
-- The engine's start and its loop over events: `with_journal` and `run` of
-- crates/app-powerd-core/src/engine/mod.rs.
use app_powerd.Prelude.{
  ℕ, List, [], ◌∷◌, Bool, true, false, Option, none, some, Text, HashMap, if◌then◌else◌,
}
use app_powerd.Host.{
  Host, Io, Trace, ◌>>=◌, pure, TimerEvent, suspend_timer_fired, maintenance_wake,
  maintenance_sleep,
}
use app_powerd.Desktop.{WindowInfo}
use app_powerd.System.Power.{PowerSource, unknown}
use app_powerd.System.Protection.{apply_refresh}
use app_powerd.System.Cgroup.Detection.{CgroupManager, detect, cleanup_stale_cgroups}
use app_powerd.System.DesktopFile.{build_desktop_index}
use app_powerd.Guards.{Sensors}
use app_powerd.Config.{Config}
use app_powerd.Config.Matching
use app_powerd.Config.Matching.{Compiled, RulesEngine}
use app_powerd.State.Registry.{empty_registry}
use app_powerd.State.Journal.Persist.{FreezeJournal}
use app_powerd.Ipc.{IpcRequest, IpcResponse}
use app_powerd.Engine.RateLimit
use app_powerd.Engine.{Engine, log_suppression_window}
use app_powerd.Engine.Suspend.{
  handle_suspend_timer, handle_maintenance_wake, handle_maintenance_sleep,
}
use app_powerd.Engine.Power.{handle_power_change}
use app_powerd.Engine.Focus.{handle_focus_changed}
use app_powerd.Engine.Windows.{
  handle_workspace_changed, handle_activation_requested, handle_window_closed,
}
use app_powerd.Engine.Reconcile.{Reaped, JournalDead, handle_reconcile, apply_reconcile_result}
use app_powerd.Engine.Shutdown
use app_powerd.Engine.Reload.{handle_config_reload}
use app_powerd.Engine.Commands.{Words, handle_ipc}

-- The three timer events of the source are one constructor here.
pub data EngineEvent : Type 0 where
  focus_changed : WindowInfo → EngineEvent
  window_closed : ℕ → EngineEvent
  workspace_changed : ℕ → EngineEvent
  activation_requested : ℕ → EngineEvent
  timer : TimerEvent → EngineEvent
  config_reloaded : Config → EngineEvent
  power_source_changed : PowerSource → EngineEvent
  ipc_request : IpcRequest → EngineEvent
  reconcile : EngineEvent
  reconcile_result : Reaped → JournalDead → EngineEvent
  protection_refreshed : HashMap ℕ Text → EngineEvent
  shutdown : EngineEvent

-- What a display backend reports (desktop/mod.rs), as an event of the engine.
pub data FocusEvent : Type 0 where
  focus_changed : WindowInfo → FocusEvent
  window_closed : ℕ → FocusEvent
  workspace_changed : ℕ → FocusEvent
  activation_requested : ℕ → FocusEvent

unfoldable pub from_focus : FocusEvent → EngineEvent
from_focus (FocusEvent.focus_changed w) = EngineEvent.focus_changed w
from_focus (FocusEvent.window_closed id) = EngineEvent.window_closed id
from_focus (FocusEvent.workspace_changed desktop) = EngineEvent.workspace_changed desktop
from_focus (FocusEvent.activation_requested id) = EngineEvent.activation_requested id

module _ (host : Host) where
  abbrev started : Config → Text → FreezeJournal → RulesEngine → CgroupManager → Trace → Engine
  started config path journal rules m t = record {
    registry = empty_registry;
    rules_engine = rules;
    cgroup_caps = m.capabilities;
    cgroup_base = m.base_path;
    journal = journal;
    protection = record { dbus_owners = [] };
    rate_limiter = RateLimit.new log_suppression_window;
    suspend_failures = [];
    exe_to_desktop = build_desktop_index host t;
    enabled = config.defaults.enabled;
    power_source = unknown;
    forced_power_source = none;
    dbus_check = config.defaults.protection.dbus_check;
    dbus_refresh_interval = config.defaults.protection.dbus_refresh_interval;
    last_dbus_refresh = none;
    reconcile_in_flight = false;
    config_path = path;
    start_time = host.now t;
    outbox = [];
  }

  unfoldable pub start : Config → Text → FreezeJournal → RulesEngine → Io Engine
  unfolding detect cleanup_stale_cgroups
  start config path journal rules t =
      let m = detect host t in
      let cleaned = (cleanup_stale_cgroups host m.0 m.1).1 in
      (started config path journal rules m.0 cleaned, cleaned)

  -- `none` is a rule whose regular expression does not compile.
  unfoldable pub with_journal :
      (Text → Option (Text → Bool)) → Config → Text → FreezeJournal → Io (Option Engine)
  unfolding start
  with_journal regex config path journal = elim (Matching.new regex config) [
    | Compiled.invalid_regex id ↦ pure none
    | Compiled.ok rules ↦ do e ← start config path journal rules; pure (some e)
  ]

unfoldable pub is_shutdown : EngineEvent → Bool
is_shutdown shutdown = true
is_shutdown _ = false

module _ (host : Host) (sensors : Trace → Sensors) (scan_budget : Trace → ℕ)
    (regex : Text → Option (Text → Bool)) (words : Words) (from_yaml : Text → Option Config) where
  unfoldable pub on_timer : TimerEvent → Engine → Io Engine
  on_timer (suspend_timer_fired id) e = handle_suspend_timer host sensors scan_budget id e
  on_timer (maintenance_wake id) e = handle_maintenance_wake host id e
  on_timer (maintenance_sleep id) e = handle_maintenance_sleep host id e

  -- One event; a request has a response.
  unfoldable pub dispatch : EngineEvent → Engine → Io (Engine × Option IpcResponse)
  unfolding on_timer
  dispatch (EngineEvent.ipc_request request) e = do
    r ← handle_ipc host words from_yaml request e
    pure (r.0, some r.1)
  dispatch (EngineEvent.focus_changed window) e = do
    e' ← handle_focus_changed host window e
    pure (e', none)
  dispatch (EngineEvent.window_closed id) e = do
    e' ← handle_window_closed host id e
    pure (e', none)
  dispatch (EngineEvent.workspace_changed desktop) e = do
    e' ← handle_workspace_changed host desktop e
    pure (e', none)
  dispatch (EngineEvent.activation_requested id) e = do
    e' ← handle_activation_requested host id e
    pure (e', none)
  dispatch (timer event) e = do e' ← on_timer event e; pure (e', none)
  dispatch (config_reloaded config) e = do
    e' ← handle_config_reload host regex config e
    pure (e', none)
  dispatch (power_source_changed source) e = do
    e' ← handle_power_change host source e
    pure (e', none)
  dispatch reconcile e = do e' ← handle_reconcile host e; pure (e', none)
  dispatch (reconcile_result reaped dead) e = do
    e' ← apply_reconcile_result host reaped dead e
    pure (e', none)
  dispatch (protection_refreshed owners) e =
      pure (record e { protection = apply_refresh owners e.protection }, none)
  dispatch shutdown e = do e' ← Shutdown.shutdown host e; pure (e', none)

  -- The events in the order in which the channel and the tick deliver them: none behind a shutdown
  -- counts. The responses come out in order.
  unfoldable pub run : List EngineEvent → Engine → Io (Engine × List (Option IpcResponse))
  unfolding dispatch is_shutdown
  run [] e t = ((e, []), t)
  run (event ∷ rest) e t =
      let r = dispatch event e t in
      let s = run rest r.0.0 r.1 in
      if is_shutdown event then ((r.0.0, r.0.1 ∷ []), r.1) else ((s.0.0, r.0.1 ∷ s.0.1), s.1)
