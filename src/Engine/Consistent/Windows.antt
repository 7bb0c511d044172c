-- ===== src/Engine/Consistent/Windows.antt =====
-- The registry under workspace switches, activation requests and closed windows:
-- crates/app-powerd-core/src/engine/focus.rs.
use app_powerd.Prelude.{
  ℕ, inl, inr, [], ◌∷◌, Bool, true, false, ◌&&◌, HashMap, Bool-cases, Option-cases, if◌then◌else◌,
}
use app_powerd.Host.{Host, Trace}
use app_powerd.Desktop.Identity.{AppId, app_eq}
use app_powerd.State.Machine.{frozen, is_frozen}
use app_powerd.State.AppEntry.{AppEntry, has_window, elapsed}
use app_powerd.State.Registry
use app_powerd.State.Registry.{insert_entry}
use app_powerd.State.Registry.Windows.{registry-IsConsistent}
use app_powerd.Engine.{Engine, should_manage, recorded_procs_for}
use app_powerd.Engine.Transitions.{restore_to_background}
use app_powerd.Engine.Windows.{
  on_desktop, pre_thaw_frozen, pre_thaw_each, handle_workspace_changed, pre_thaw_first,
  handle_activation_requested, release_closed, handle_window_closed,
}
use app_powerd.Engine.Consistent.{
  HasWindows, schedule_suspend-HasWindows, restore_app_resources-HasWindows,
  restore_to_background-HasWindows,
}

module _ (host : Host) where
  pre_thaw_frozen-HasWindows :
      (id : AppId) (delay : ℕ) (e : Engine) (t : Trace)
      → HasWindows e
      → HasWindows (pre_thaw_frozen host id delay e t).0
  unfolding pre_thaw_frozen
  pre_thaw_frozen-HasWindows id delay e t h =
      let r = restore_to_background host id frozen e t in
      schedule_suspend-HasWindows id delay r.0 r.1
        (restore_to_background-HasWindows host id frozen e t h)

  pre_thaw_if-HasWindows :
      (b : Bool) (id : AppId) (delay : ℕ) (e : Engine) (t : Trace)
      → HasWindows e
      → HasWindows (if b then pre_thaw_frozen host id delay e t else (e, t)).0
  pre_thaw_if-HasWindows true id delay e t h = pre_thaw_frozen-HasWindows id delay e t h
  pre_thaw_if-HasWindows false id delay e t h = h

  pre_thaw_each-HasWindows :
      (desktop : ℕ) (apps : HashMap AppId AppEntry) (e : Engine) (t : Trace)
      → HasWindows e
      → HasWindows (pre_thaw_each host desktop apps e t).0
  unfolding pre_thaw_each
  pre_thaw_each-HasWindows desktop [] e t h = h
  pre_thaw_each-HasWindows desktop ((id, x) ∷ rest) e t h =
      pre_thaw_each-HasWindows desktop rest _ _ (
        pre_thaw_if-HasWindows (is_frozen x.state && on_desktop x.window_info.desktop desktop) id
          x.policy.suspend_delay e t h)

  pub handle_workspace_changed-HasWindows :
      (desktop : ℕ) (e : Engine) (t : Trace)
      → HasWindows e
      → HasWindows (handle_workspace_changed host desktop e t).0
  unfolding handle_workspace_changed
  handle_workspace_changed-HasWindows desktop e t h = elim (Bool-cases (should_manage e)) [
    | inl m ↦ rw m (pre_thaw_each-HasWindows desktop e.registry.apps e t h)
    | inr m ↦ rw m h
  ]

  pre_thaw_first-HasWindows :
      (wid : ℕ) (apps : HashMap AppId AppEntry) (e : Engine) (t : Trace)
      → HasWindows e
      → HasWindows (pre_thaw_first host wid apps e t).0
  unfolding pre_thaw_first
  pre_thaw_first-HasWindows wid [] e t h = h
  pre_thaw_first-HasWindows wid ((id, x) ∷ rest) e t h =
      elim (Bool-cases (has_window x wid && is_frozen x.state)) [
        | inl m ↦ rw m (pre_thaw_frozen-HasWindows id x.policy.suspend_delay e t h)
        | inr m ↦ rw m (pre_thaw_first-HasWindows wid rest e t h)
      ]

  pub handle_activation_requested-HasWindows :
      (wid : ℕ) (e : Engine) (t : Trace)
      → HasWindows e
      → HasWindows (handle_activation_requested host wid e t).0
  unfolding handle_activation_requested
  handle_activation_requested-HasWindows wid e t h = elim (Bool-cases (should_manage e)) [
    | inl m ↦ rw m (pre_thaw_first-HasWindows wid e.registry.apps e t h)
    | inr m ↦ rw m h
  ]

  release_closed-HasWindows :
      (x : AppEntry) (e : Engine) (t : Trace)
      → HasWindows e
      → HasWindows (release_closed host x e t).0
  unfolding release_closed
  release_closed-HasWindows x e t h =
      restore_app_resources-HasWindows host x.app_id x.state x.cgroup_path
        (recorded_procs_for x.app_id e) (elapsed host t x.state_since) e t h

  pub handle_window_closed-HasWindows :
      (wid : ℕ) (e : Engine) (t : Trace)
      → HasWindows e
      → HasWindows (handle_window_closed host wid e t).0
  unfolding handle_window_closed
  handle_window_closed-HasWindows wid e t h =
      let r = Registry.remove_window wid e.registry in
      let e1 = record e { registry = r.0 } in
      let kept = (registry-IsConsistent e.registry h).1.1.1 wid in
      elim (Option-cases r.1) [
        | inl n ↦ rw (n, handle_window_closed) kept
        | inr (x, s) ↦ rw (s, handle_window_closed) (release_closed-HasWindows x e1 t kept)
      ]
