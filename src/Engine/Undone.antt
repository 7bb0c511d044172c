-- ===== src/Engine/Undone.antt =====
-- What thawing does to the processes: `thaw_one` and `thaw_all` of
-- crates/app-powerd-core/src/engine/config_power.rs.
use app_powerd.Prelude.{
  ℕ, ◌≡◌, refl, inl, inr, List, [], ◌∷◌, ◌++◌, true, not, Option, some, Text, HashMap, get,
  Option-cases,
}
use app_powerd.Host.{
  Host, Trace, ProcessHandle, counted, apps_unthrottled_total, time_in_throttled_ms,
}
use app_powerd.Host.Log.{none_added, added, Extends-trans}
use app_powerd.Desktop.Identity.{AppId, app_eq}
use app_powerd.System.Apply.{empty_report}
use app_powerd.System.Freeze.Reports.{Later}
use app_powerd.System.Throttle
use app_powerd.System.Throttle.{set_nice, unthrottle_from, reset_group}
use app_powerd.State.Machine.{
  AppState, active, background, throttled, frozen, requires_management, is_suspended,
  on_focus_gained,
}
use app_powerd.State.AppEntry.{AppEntry}
use app_powerd.Engine.{Engine, should_manage, recorded_procs_for}
use app_powerd.Engine.Transitions.{
  set_entry_state, restore_frozen, restore_throttled, restore_app_resources, time_in_state, act,
  execute_transition,
}
use app_powerd.Engine.Quiet.{absorb_gone-Quietly}
use app_powerd.Engine.Release.{Later-of-Quietly, thawed-Later}
use app_powerd.Engine.OneActive.{and_false}
use app_powerd.Engine.Power.{thaw_one, thaw_each}
use app_powerd.System.Undone.{
  AreUndone, AreUndone-within, thaw_app-AreUndone, unthrottle_from-AreUndone, reset_group-Later,
}

module _ (host : Host) where
  restore_frozen-AreUndone :
      (id : AppId) (cgroup : Option Text) (procs : List ProcessHandle) (ms : ℕ) (e : Engine)
      (t : Trace)
      → AreUndone host frozen t (restore_frozen host id cgroup procs ms e t).1 procs
  restore_frozen-AreUndone id cgroup procs ms e t =
      AreUndone-within host frozen t t _ _ procs none_added
        (thawed-Later host id cgroup procs ms e t)
        (thaw_app-AreUndone host e.cgroup_caps cgroup procs t)

  restore_throttled-AreUndone :
      (id : AppId) (cgroup : Option Text) (procs : List ProcessHandle) (ms : ℕ) (e : Engine)
      (t : Trace)
      → AreUndone host throttled t (restore_throttled host id cgroup procs ms e t).1 procs
  unfolding restore_throttled Throttle.remove_throttle
  restore_throttled-AreUndone id cgroup procs ms e t =
      let u = unthrottle_from host empty_report procs t in
      let g = reset_group host e.cgroup_caps cgroup u.1 in
      let quiet = Later-of-Quietly g.1 _ (absorb_gone-Quietly id u.0 e g.1) in
      let c1 = counted apps_unthrottled_total 1 in
      AreUndone-within host throttled t t u.1 _ procs none_added
        (Extends-trans (reset_group-Later host e.cgroup_caps cgroup u.1)
          (added (counted time_in_throttled_ms ms) tt (added c1 tt quiet)))
        (unthrottle_from-AreUndone host procs empty_report t)

  -- An application that the registry has is thawed with the processes given.
  execute_thaw-AreUndone :
      (id : AppId) (s : AppState) (x : AppEntry) (procs : List ProcessHandle) (e : Engine)
      (t : Trace)
      → is_suspended s ≡ true
      → get id e.registry.apps ≡ some x
      → let next = on_focus_gained s in
        AreUndone host s t (execute_transition host id next.0 next.1 procs e t).1 procs
  unfolding execute_transition act restore_app_resources set_entry_state requires_management
      on_focus_gained
  execute_thaw-AreUndone id active x procs e t h g = cc
  execute_thaw-AreUndone id background x procs e t h g = cc
  execute_thaw-AreUndone id throttled x procs e t h g =
      rw (and_false (not (should_manage e)), g, execute_transition)
        (restore_throttled-AreUndone id x.cgroup_path procs (time_in_state host id e t) e t)
  execute_thaw-AreUndone id frozen x procs e t h g =
      rw (and_false (not (should_manage e)), g, execute_transition)
        (restore_frozen-AreUndone id x.cgroup_path procs (time_in_state host id e t) e t)

  thaw_one-AreUndone :
      (id : AppId) (s : AppState) (x : AppEntry) (e : Engine) (t : Trace)
      → is_suspended s ≡ true
      → get id e.registry.apps ≡ some x
      → AreUndone host s t (thaw_one host id s e t).1 (recorded_procs_for id e)
  unfolding thaw_one
  thaw_one-AreUndone id s x e t h g =
      rw h (execute_thaw-AreUndone id s x (recorded_procs_for id e) e t h g)

  thaw_one-Later :
      (id : AppId) (s : AppState) (e : Engine) (t : Trace) → Later t (thaw_one host id s e t).1
  unfolding thaw_one execute_transition requires_management on_focus_gained
  thaw_one-Later id active e t = none_added
  thaw_one-Later id background e t = none_added
  thaw_one-Later id throttled e t = elim (Option-cases (get id e.registry.apps)) [
    | inl n ↦ rw (and_false (not (should_manage e)), n, execute_transition) none_added
    | inr (x, g) ↦ (thaw_one-AreUndone id throttled x e t refl g).1
  ]
  thaw_one-Later id frozen e t = elim (Option-cases (get id e.registry.apps)) [
    | inl n ↦ rw (and_false (not (should_manage e)), n, execute_transition) none_added
    | inr (x, g) ↦ (thaw_one-AreUndone id frozen x e t refl g).1
  ]

  thaw_each-Later :
      (apps : HashMap AppId AppEntry) (e : Engine) (t : Trace) → Later t (thaw_each host apps e t).1
  unfolding thaw_each
  thaw_each-Later [] e t = none_added
  thaw_each-Later ((id, x) ∷ rest) e t =
      let r = thaw_one host id x.state e t in
      Extends-trans (thaw_one-Later id x.state e t) (thaw_each-Later rest r.0 r.1)

  thaw_each-append :
      (before rest : HashMap AppId AppEntry) (e : Engine) (t : Trace)
      → let r = thaw_each host before e t in
        thaw_each host (before ++ rest) e t ≡ thaw_each host rest r.0 r.1
  unfolding thaw_each
  thaw_each-append [] rest e t = refl
  thaw_each-append ((id, x) ∷ before) rest e t =
      let r = thaw_one host id x.state e t in thaw_each-append before rest r.0 r.1

  -- One of the applications that are thawed, at its turn.
  pub thaw_each-AreUndone :
      (before after : HashMap AppId AppEntry) (id : AppId) (x y : AppEntry) (e : Engine) (t : Trace)
      → is_suspended x.state ≡ true
      → let r = thaw_each host before e t in
        get id r.0.registry.apps ≡ some y
        → AreUndone host x.state r.1
            (thaw_each host (before ++ (id, x) ∷ after) e t).1
            (recorded_procs_for id r.0)
  unfolding thaw_each
  thaw_each-AreUndone before after id x y e t h g =
      let r = thaw_each host before e t in
      let s = thaw_one host id x.state r.0 r.1 in
      rw (thaw_each-append before ((id, x) ∷ after) e t) (
        AreUndone-within host x.state r.1 r.1 s.1 _ (recorded_procs_for id r.0) none_added
          (thaw_each-Later after s.0 s.1) (thaw_one-AreUndone id x.state y r.0 r.1 h g))
