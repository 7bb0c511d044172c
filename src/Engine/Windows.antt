-- ===== src/Engine/Windows.antt =====
-- Workspace switches, activation requests and closed windows: the rest of
-- crates/app-powerd-core/src/engine/focus.rs.
use app_powerd.Prelude.{
  ℕ, [], ◌∷◌, Bool, false, ◌&&◌, Option, none, some, Text, HashMap, remove, if◌then◌else◌,
}
use app_powerd.Host.{Host, Io, ◌>>=◌, ◌>>◌, pure}
use app_powerd.Desktop.{Desktop, matches}
use app_powerd.Desktop.Identity.{AppId, app_eq}
use app_powerd.System.Cgroup.{remove_cgroup}
use app_powerd.State.Machine.{frozen, is_frozen}
use app_powerd.State.AppEntry.{AppEntry, has_window, elapsed}
use app_powerd.State.Registry
use app_powerd.Engine.RateLimit.{forget_app}
use app_powerd.Engine.{Engine, should_manage, recorded_procs_for}
use app_powerd.Engine.Transitions.{restore_app_resources, restore_to_background, schedule_suspend}

abbrev pub on_desktop : Option Desktop → ℕ → Bool
on_desktop none current = false
on_desktop (some d) current = matches d current

module _ (host : Host) where
  -- Thaw, and park in the background with a new timer.
  unfoldable pub pre_thaw_frozen : AppId → ℕ → Engine → Io Engine
  pre_thaw_frozen app_id suspend_delay e = do
    e' ← restore_to_background host app_id frozen e
    schedule_suspend app_id suspend_delay e'

  unfoldable pub pre_thaw_each : ℕ → HashMap AppId AppEntry → Engine → Io Engine
  pre_thaw_each desktop [] e t = (e, t)
  pre_thaw_each desktop ((id, x) ∷ rest) e t =
      let r =
        if is_frozen x.state && on_desktop x.window_info.desktop desktop
        then pre_thaw_frozen id x.policy.suspend_delay e t
        else (e, t) in
      pre_thaw_each desktop rest r.0 r.1

  unfoldable pub handle_workspace_changed : ℕ → Engine → Io Engine
  unfolding pre_thaw_each
  handle_workspace_changed desktop e =
      if should_manage e then pre_thaw_each desktop e.registry.apps e else pure e

  unfoldable pub pre_thaw_first : ℕ → HashMap AppId AppEntry → Engine → Io Engine
  pre_thaw_first window_id [] e = pure e
  pre_thaw_first window_id ((id, x) ∷ rest) e =
      if has_window x window_id && is_frozen x.state
      then pre_thaw_frozen id x.policy.suspend_delay e
      else pre_thaw_first window_id rest e

  unfoldable pub handle_activation_requested : ℕ → Engine → Io Engine
  unfolding pre_thaw_first
  handle_activation_requested window_id e =
      if should_manage e then pre_thaw_first window_id e.registry.apps e else pure e

  unfoldable pub drop_cgroup : Option Text → Io (Unit {0})
  drop_cgroup none t = (tt, t)
  drop_cgroup (some path) t = (tt, (remove_cgroup host path t).1)

  -- The entry is out of the registry already when its processes are looked up.
  unfoldable pub release_closed : AppEntry → Engine → Io Engine
  unfolding drop_cgroup
  release_closed x e t =
      (do
        e' ←
            restore_app_resources host x.app_id x.state x.cgroup_path
              (recorded_procs_for x.app_id e) (elapsed host t x.state_since) e
        drop_cgroup x.cgroup_path
        pure (record e' {
          suspend_failures = remove x.app_id e'.suspend_failures;
          rate_limiter = forget_app x.app_id.display e'.rate_limiter;
        }))
        t

  unfoldable pub handle_window_closed : ℕ → Engine → Io Engine
  unfolding release_closed
  handle_window_closed window_id e t =
      let r = Registry.remove_window window_id e.registry in
      let e' = record e { registry = r.0 } in
      elim r.1 [ none ↦ (e', t) | some x ↦ release_closed x e' t ]
