-- ===== src/Engine/Consistent/Power.antt =====
-- The registry under changes of the power source:
-- crates/app-powerd-core/src/engine/config_power.rs.
use app_powerd.Prelude.{inl, inr, [], ◌∷◌, Bool, Option, HashMap, Bool-cases}
use app_powerd.Host.{Host, Trace}
use app_powerd.Desktop.Identity.{AppId, app_eq}
use app_powerd.System.Power.{PowerSource, same_source}
use app_powerd.State.Machine.{AppState, is_suspended, on_focus_gained}
use app_powerd.State.AppEntry.{AppEntry}
use app_powerd.Engine.{Engine, should_manage, recorded_procs_for}
use app_powerd.Engine.Power.{
  same_override, thaw_one, thaw_each, thaw_all, reconcile_management, handle_power_change,
  handle_set_power_override,
}
use app_powerd.Engine.Consistent.{HasWindows, execute_transition-HasWindows}
use app_powerd.Engine.Consistent.Timers.{start_management-HasWindows}

module _ (host : Host) where
  thaw_one-HasWindows :
      (id : AppId) (s : AppState) (e : Engine) (t : Trace)
      → HasWindows e
      → HasWindows (thaw_one host id s e t).0
  unfolding thaw_one
  thaw_one-HasWindows id s e t h =
      let next = on_focus_gained s in
      elim (Bool-cases (is_suspended s)) [
        | inr p ↦ rw p h
        | inl p ↦
            rw p
              (execute_transition-HasWindows host id next.0 next.1 (recorded_procs_for id e) e t h)
      ]

  thaw_each-HasWindows :
      (apps : HashMap AppId AppEntry) (e : Engine) (t : Trace)
      → HasWindows e
      → HasWindows (thaw_each host apps e t).0
  unfolding thaw_each
  thaw_each-HasWindows [] e t h = h
  thaw_each-HasWindows ((id, x) ∷ rest) e t h =
      thaw_each-HasWindows rest _ _ (thaw_one-HasWindows id x.state e t h)

  pub thaw_all-HasWindows :
      (e : Engine) (t : Trace) → HasWindows e → HasWindows (thaw_all host e t).0
  unfolding thaw_all
  thaw_all-HasWindows e t h = thaw_each-HasWindows e.registry.apps e t h

  pub reconcile_management-HasWindows :
      (was : Bool) (e : Engine) (t : Trace)
      → HasWindows e
      → HasWindows (reconcile_management host was e t).0
  unfolding reconcile_management
  reconcile_management-HasWindows was e t h = elim (Bool-cases (should_manage e)) [
    | inr m ↦ rw m (thaw_all-HasWindows e t h)
    | inl m ↦ rw m (elim (Bool-cases was) [
      | inl w ↦ rw w h
      | inr w ↦ rw w (start_management-HasWindows e t h)
    ])
  ]

  pub handle_power_change-HasWindows :
      (source : PowerSource) (e : Engine) (t : Trace)
      → HasWindows e
      → HasWindows (handle_power_change host source e t).0
  unfolding handle_power_change
  handle_power_change-HasWindows source e t h =
      elim (Bool-cases (same_source e.power_source source)) [
        | inl s ↦ rw s h
        | inr s ↦ rw s (
            reconcile_management-HasWindows (should_manage e) (record e { power_source = source }) t
              h)
      ]

  pub handle_set_power_override-HasWindows :
      (source : Option PowerSource) (e : Engine) (t : Trace)
      → HasWindows e
      → HasWindows (handle_set_power_override host source e t).0
  unfolding handle_set_power_override
  handle_set_power_override-HasWindows source e t h =
      elim (Bool-cases (same_override e.forced_power_source source)) [
        | inl s ↦ rw s h
        | inr s ↦ rw s (
            reconcile_management-HasWindows (should_manage e)
              (record e { forced_power_source = source }) t h)
      ]
