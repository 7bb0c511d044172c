-- ===== src/Engine/Power.antt =====
-- Power source, override, and thawing everything: crates/app-powerd-core/src/engine/config_power.rs.
use app_powerd.Prelude.{[], ◌∷◌, Bool, true, false, Option, none, some, HashMap, if◌then◌else◌}
use app_powerd.Host.{Host, Io, pure}
use app_powerd.Desktop.Identity.{AppId, app_eq}
use app_powerd.System.Power.{PowerSource, same_source}
use app_powerd.State.Machine.{AppState, is_suspended, on_focus_gained}
use app_powerd.State.AppEntry.{AppEntry}
use app_powerd.Engine.{Engine, should_manage, recorded_procs_for}
use app_powerd.Engine.Transitions.{execute_transition}
use app_powerd.Engine.Suspend.{start_management}

abbrev pub same_override : Option PowerSource → Option PowerSource → Bool
same_override none none = true
same_override (some a) (some b) = same_source a b
same_override _ _ = false

module _ (host : Host) where
  unfoldable pub thaw_one : AppId → AppState → Engine → Io Engine
  unfolding on_focus_gained recorded_procs_for
  thaw_one id state e t =
      let next = on_focus_gained state in
      if is_suspended state
      then execute_transition host id next.0 next.1 (recorded_procs_for id e) e t
      else (e, t)

  -- The transitions are those of the applications as they were at the start.
  unfoldable pub thaw_each : HashMap AppId AppEntry → Engine → Io Engine
  unfolding thaw_one
  thaw_each [] e t = (e, t)
  thaw_each ((id, x) ∷ rest) e t = let r = thaw_one id x.state e t in thaw_each rest r.0 r.1

  unfoldable pub thaw_all : Engine → Io Engine
  unfolding thaw_each
  thaw_all e = thaw_each e.registry.apps e

  unfoldable pub reconcile_management : Bool → Engine → Io Engine
  reconcile_management was_managing e =
      if should_manage e then (if was_managing then pure e else start_management e) else thaw_all e

  unfoldable pub handle_power_change : PowerSource → Engine → Io Engine
  handle_power_change source e =
      if same_source e.power_source source
      then pure e
      else reconcile_management (should_manage e) (record e { power_source = source })

  unfoldable pub handle_set_power_override : Option PowerSource → Engine → Io Engine
  handle_set_power_override source e =
      if same_override e.forced_power_source source
      then pure e
      else reconcile_management (should_manage e) (record e { forced_power_source = source })
