-- ===== src/Engine/Consistent/Timers.antt =====
-- The registry under the timers: crates/app-powerd-core/src/engine/suspend.rs.
use app_powerd.Prelude.{
  ℕ, ◌-◌, inl, inr, List, [], ◌∷◌, map, codes, HashMap, get, is_empty, length, ltb, Bool-cases,
  Option-cases, if◌then◌else◌,
}
use app_powerd.Host.{
  Host, Trace, ProcessHandle, maintenance_sleep, spawned, counted, time_in_frozen_ms,
  apps_thawed_total, apps_frozen_total, guard_blocks_total,
}
use app_powerd.Desktop.Identity.{AppId, app_eq}
use app_powerd.System.Freeze.{freeze_app, thaw_app}
use app_powerd.System.Protection.{ProtectionReason}
use app_powerd.Guards.{Sensors, GuardResult, allow, block, check_guards}
use app_powerd.State.Machine.{on_suspend_timer, is_frozen, is_background}
use app_powerd.State.AppEntry
use app_powerd.State.AppEntry.{AppEntry, elapsed, in_resume_grace, reset_state_since}
use app_powerd.Engine.{Engine, retry_interval, modify_entry, recorded_procs_for}
use app_powerd.Engine.Transitions.{
  limited_warning, schedule_suspend, reschedule_suspend, warn_partial_failure, time_in_state,
}
use app_powerd.Engine.Suspend.{
  is_ignore, is_no_op, suspend_mode, scan_tree, note_protected, suspend_now, suspend_if,
  guarded_suspend, suspend_scanned, handle_suspend_timer, wake_entry, handle_maintenance_wake,
  sleep_entry, handle_maintenance_sleep, start_timers, start_management,
}
use app_powerd.Engine.Consistent.{
  HasWindows, modify_entry-HasWindows, with_entry-HasWindows, schedule_suspend-HasWindows,
  start_maintenance_timer-HasWindows, warn_partial_failure-HasWindows,
  execute_transition-HasWindows,
}

module _ (host : Host) (sensors : Trace → Sensors) (scan_budget : Trace → ℕ) where
  note_protected-HasWindows :
      (id : AppId) (protected : List (ℕ × ProtectionReason)) (e : Engine) (t : Trace)
      → HasWindows e
      → HasWindows (note_protected host sensors scan_budget id protected e t).0
  unfolding note_protected limited_warning
  note_protected-HasWindows id protected e t h = elim (Bool-cases (is_empty protected)) [
    | inl n ↦ rw n h
    | inr n ↦ rw n h
  ]

  suspend_now-HasWindows :
      (id : AppId) (x : AppEntry) (procs : List ProcessHandle) (e : Engine) (t : Trace)
      → HasWindows e
      → HasWindows (suspend_now host sensors scan_budget id x procs e t).0
  unfolding suspend_now
  suspend_now-HasWindows id x procs e t h =
      let next = on_suspend_timer x.state (suspend_mode x.policy.action) in
      elim (Bool-cases (is_background x.state)) [
        | inr b ↦ rw b h
        | inl b ↦ elim (Bool-cases (is_no_op next.1)) [
          | inl n ↦ rw (b, n) h
          | inr n ↦ rw (b, n) (execute_transition-HasWindows host id next.0 next.1 procs e t h)
        ]
      ]

  suspend_if-HasWindows :
      (g : GuardResult) (id : AppId) (x : AppEntry) (procs : List ProcessHandle) (e : Engine)
      (t : Trace)
      → HasWindows e
      → HasWindows (suspend_if host sensors scan_budget g id x procs e t).0
  unfolding suspend_if reschedule_suspend
  suspend_if-HasWindows allow id x procs e t h = suspend_now-HasWindows id x procs e t h
  suspend_if-HasWindows (block reason) id x procs e t h =
      schedule_suspend-HasWindows id retry_interval e (counted guard_blocks_total 1 ∷ t) h

  suspend_scanned-HasWindows :
      (id : AppId) (x : AppEntry) (e : Engine) (t : Trace)
      → HasWindows e
      → HasWindows (suspend_scanned host sensors scan_budget id x e t).0
  unfolding suspend_scanned guarded_suspend
  suspend_scanned-HasWindows id x e t h =
      let split = scan_tree host sensors scan_budget x e t in
      let r = note_protected host sensors scan_budget id split.1 e t in
      suspend_if-HasWindows
        (check_guards (sensors r.1) (map (λ h. h.pid) split.0) x.policy.guards
          x.window_info.is_fullscreen)
        id x split.0 r.0 r.1 (note_protected-HasWindows id split.1 e t h)

  pub handle_suspend_timer-HasWindows :
      (id : AppId) (e : Engine) (t : Trace)
      → HasWindows e
      → HasWindows (handle_suspend_timer host sensors scan_budget id e t).0
  unfolding handle_suspend_timer
  handle_suspend_timer-HasWindows id e t h = elim (Option-cases (get id e.registry.apps)) [
    | inl n ↦ rw (n, handle_suspend_timer) h
    | inr (x, s) ↦
        rw (s, handle_suspend_timer)
          (elim (Bool-cases (is_ignore x.policy.action)) [
            | inl i ↦ rw i (with_entry-HasWindows id AppEntry.cancel_suspend_timer e t h)
            | inr i ↦ elim (Bool-cases (in_resume_grace host t x)) [
              | inl g ↦ rw (i, g) h
              | inr g ↦
                  elim (Bool-cases (ltb (elapsed host t x.state_since) x.policy.min_suspend)) [
                    | inl l ↦
                        rw (i, g, l)
                          (schedule_suspend-HasWindows id
                            (x.policy.min_suspend - elapsed host t x.state_since) e t h)
                    | inr l ↦ rw (i, g, l) (suspend_scanned-HasWindows id x e t h)
                  ]
            ]
          ])
  ]

module _ (host : Host) where
  wake_entry-HasWindows :
      (id : AppId) (x : AppEntry) (e : Engine) (t : Trace)
      → HasWindows e
      → HasWindows (wake_entry host id x e t).0
  unfolding wake_entry
  wake_entry-HasWindows id x e t h =
      let r = thaw_app host e.cgroup_caps x.cgroup_path (recorded_procs_for id e) t in
      let w = warn_partial_failure host id (codes "maintenance-thaw") r.0 e r.1 in
      let t1 = counted time_in_frozen_ms (time_in_state host id w.0 w.1) ∷ w.1 in
      let t2 = counted apps_thawed_total 1 ∷ t1 in
      with_entry-HasWindows id (AppEntry.set_maintenance_timer (length t2))
        (modify_entry id (reset_state_since host t1) w.0)
        (spawned x.policy.maintenance_resume.duration (maintenance_sleep id) ∷ t2)
        (modify_entry-HasWindows id (reset_state_since host t1) w.0
          (warn_partial_failure-HasWindows host id (codes "maintenance-thaw") r.0 e r.1 h))

  pub handle_maintenance_wake-HasWindows :
      (id : AppId) (e : Engine) (t : Trace)
      → HasWindows e
      → HasWindows (handle_maintenance_wake host id e t).0
  unfolding handle_maintenance_wake
  handle_maintenance_wake-HasWindows id e t h = elim (Option-cases (get id e.registry.apps)) [
    | inl n ↦ rw (n, handle_maintenance_wake) h
    | inr (x, s) ↦
        rw (s, handle_maintenance_wake)
          (elim (Bool-cases (is_frozen x.state)) [
            | inl f ↦ rw f (wake_entry-HasWindows id x e t h)
            | inr f ↦ rw f h
          ])
  ]

  sleep_entry-HasWindows :
      (id : AppId) (x : AppEntry) (e : Engine) (t : Trace)
      → HasWindows e
      → HasWindows (sleep_entry host id x e t).0
  unfolding sleep_entry
  sleep_entry-HasWindows id x e t h =
      let r = freeze_app host e.cgroup_caps x.cgroup_path (recorded_procs_for id e) t in
      let w = warn_partial_failure host id (codes "maintenance-freeze") r.0 e r.1 in
      start_maintenance_timer-HasWindows id w.0 (counted apps_frozen_total 1 ∷ w.1)
        (warn_partial_failure-HasWindows host id (codes "maintenance-freeze") r.0 e r.1 h)

  pub handle_maintenance_sleep-HasWindows :
      (id : AppId) (e : Engine) (t : Trace)
      → HasWindows e
      → HasWindows (handle_maintenance_sleep host id e t).0
  unfolding handle_maintenance_sleep
  handle_maintenance_sleep-HasWindows id e t h = elim (Option-cases (get id e.registry.apps)) [
    | inl n ↦ rw (n, handle_maintenance_sleep) h
    | inr (x, s) ↦
        rw (s, handle_maintenance_sleep)
          (elim (Bool-cases (is_frozen x.state)) [
            | inl f ↦ rw f (sleep_entry-HasWindows id x e t h)
            | inr f ↦ rw f h
          ])
  ]

start_timer-HasWindows :
    (id : AppId) (x : AppEntry) (e : Engine) (t : Trace)
    → HasWindows e
    → HasWindows
        (if is_background x.state
          then (if is_ignore x.policy.action
              then (e, t)
              else schedule_suspend id x.policy.suspend_delay e t)
          else (e, t)).0
start_timer-HasWindows id x e t h = elim (Bool-cases (is_background x.state)) [
  | inr b ↦ rw b h
  | inl b ↦ rw b (elim (Bool-cases (is_ignore x.policy.action)) [
    | inl i ↦ rw i h
    | inr i ↦ rw i (schedule_suspend-HasWindows id x.policy.suspend_delay e t h)
  ])
]

start_timers-HasWindows :
    (apps : HashMap AppId AppEntry) (e : Engine) (t : Trace)
    → HasWindows e
    → HasWindows (start_timers apps e t).0
unfolding start_timers
start_timers-HasWindows [] e t h = h
start_timers-HasWindows ((id, x) ∷ rest) e t h =
    start_timers-HasWindows rest _ _ (start_timer-HasWindows id x e t h)

pub start_management-HasWindows :
    (e : Engine) (t : Trace) → HasWindows e → HasWindows (start_management e t).0
unfolding start_management
start_management-HasWindows e t h = start_timers-HasWindows e.registry.apps e t h
