-- ===== src/Engine/Consistent.antt =====
-- The registry while transitions run (crates/app-powerd-core/src/engine/transitions.rs): every window
-- leads to a tracked application.
pub mod Timers
pub mod Focus
pub mod Windows
pub mod Power
pub mod Sweep
pub mod Reload
pub mod Requests
pub mod Run
use app_powerd.Prelude.{
  ℕ, suc, ◌≡◌, inl, inr, List, ◌∷◌, Bool, true, false, not, ◌&&◌, Option, none, some, Text, codes,
  length, first, leb, insert, remove, get, unwrap_or, is_empty, Bool-cases, Option-cases,
}
use app_powerd.Host.{
  Host, Trace, ProcessHandle, suspend_timer_fired, maintenance_wake, spawned, counted,
  apps_frozen_total, apps_throttled_total,
}
use app_powerd.Desktop.Identity.{AppId, app_eq}
use app_powerd.System.Apply.{ApplyReport, nothing_applied, had_real_error, settled_pids}
use app_powerd.System.Freeze.{freeze_app, thaw_app}
use app_powerd.System.Throttle
use app_powerd.Config.{throttle_params}
use app_powerd.State.Machine.{
  AppState, active, background, throttled, frozen, TransitionAction, start_suspend_timer,
  cancel_suspend_timer, apply_throttle, apply_freeze, remove_throttle, thaw, no_op,
  requires_management, is_suspended, on_focus_gained,
}
use app_powerd.State.AppEntry
use app_powerd.State.AppEntry.{AppEntry, set_state}
use app_powerd.State.Journal.{arm, commit, retire}
use app_powerd.State.Journal.Persist.{JournalError}
use app_powerd.State.Registry.Windows.{IsConsistent, registry-IsConsistent}
use app_powerd.Engine.RateLimit.{LogKey, for_app, for_pid}
use app_powerd.Engine.{
  Engine, modify_entry, with_entry, should_manage, recorded_procs_for, max_suspend_attempts,
}
use app_powerd.Engine.Transitions.{
  limited_warning, set_entry_state, skip_action, absorb_gone, schedule_suspend,
  start_maintenance_timer, warn_partial_failure, warn_first_failure, on_suspend_failed, retry_delay,
  freeze_method, freeze_recorded, freeze_armed, freeze_with_journal, restore_frozen,
  restore_throttled, restore_app_resources, time_in_state, throttle_entry, freeze_entry, act,
  execute_transition, restore_to_background,
}

-- Every window of the engine's registry leads to a tracked application.
abbrev pub HasWindows : Engine → Type 0
HasWindows e = IsConsistent e.registry

pub modify_entry-HasWindows :
    (id : AppId) (f : AppEntry → AppEntry) (e : Engine)
    → HasWindows e
    → HasWindows (modify_entry id f e)
modify_entry-HasWindows id f e h = (registry-IsConsistent e.registry h).1.0 id f

pub with_entry-HasWindows :
    (id : AppId) (f : AppEntry → Trace → AppEntry × Trace) (e : Engine) (t : Trace)
    → HasWindows e
    → HasWindows (with_entry id f e t).0
unfolding with_entry
with_entry-HasWindows id f e t h = elim (Option-cases (get id e.registry.apps)) [
  | inl n ↦ rw (n, with_entry) h
  | inr (x, s) ↦ rw (s, with_entry) (modify_entry-HasWindows id (λ _. (f x t).0) e h)
]

pub absorb_gone-HasWindows :
    (id : AppId) (report : ApplyReport) (e : Engine) (t : Trace)
    → HasWindows e
    → HasWindows (absorb_gone id report e t).0
unfolding absorb_gone
absorb_gone-HasWindows id report e t h = elim (Bool-cases (is_empty report.gone)) [
  | inl n ↦ rw n h
  | inr n ↦ rw n (modify_entry-HasWindows id _ e h)
]

pub schedule_suspend-HasWindows :
    (id : AppId) (delay : ℕ) (e : Engine) (t : Trace)
    → HasWindows e
    → HasWindows (schedule_suspend id delay e t).0
unfolding schedule_suspend
schedule_suspend-HasWindows id delay e t h =
    with_entry-HasWindows id (AppEntry.set_suspend_timer (length t)) e
      (spawned delay (suspend_timer_fired id) ∷ t) h

pub start_maintenance_timer-HasWindows :
    (id : AppId) (e : Engine) (t : Trace)
    → HasWindows e
    → HasWindows (start_maintenance_timer id e t).0
unfolding start_maintenance_timer
start_maintenance_timer-HasWindows id e t h = elim (Option-cases (get id e.registry.apps)) [
  | inl n ↦ rw (n, start_maintenance_timer) h
  | inr (x, s) ↦
      rw (s, start_maintenance_timer)
        (with_entry-HasWindows id (AppEntry.set_maintenance_timer (length t)) e
          (spawned x.policy.maintenance_resume.interval (maintenance_wake id) ∷ t) h)
]

module _ (host : Host) where
  pub set_entry_state-HasWindows :
      (id : AppId) (s : AppState) (e : Engine) (t : Trace)
      → HasWindows e
      → HasWindows (set_entry_state host id s e t).0
  unfolding set_entry_state
  set_entry_state-HasWindows id s e t h = modify_entry-HasWindows id (set_state host t s) e h

  pub warn_partial_failure-HasWindows :
      (id : AppId) (kind : Text) (report : ApplyReport) (e : Engine) (t : Trace)
      → HasWindows e
      → HasWindows (warn_partial_failure host id kind report e t).0
  unfolding warn_partial_failure limited_warning
  warn_partial_failure-HasWindows id kind report e t h = elim (Bool-cases (had_real_error report)) [
    | inl y ↦ rw y h
    | inr n ↦ rw n h
  ]

  warn_first_failure-HasWindows :
      (id : AppId) (report : ApplyReport) (e : Engine) (t : Trace)
      → HasWindows e
      → HasWindows (warn_first_failure host id report e t).0
  unfolding warn_first_failure limited_warning
  warn_first_failure-HasWindows id report e t h = elim (Option-cases (first report.failed)) [
    | inl n ↦ rw (n, warn_first_failure) h
    | inr ((pid, x), s) ↦ rw (s, warn_first_failure) h
  ]

  on_suspend_failed-HasWindows :
      (id : AppId) (report : ApplyReport) (e : Engine) (t : Trace)
      → HasWindows e
      → HasWindows (on_suspend_failed host id report e t).0
  unfolding on_suspend_failed
  on_suspend_failed-HasWindows id report e t h = elim (Bool-cases (had_real_error report)) [
    | inr n ↦ rw n h
    | inl y ↦
        let attempts = suc (unwrap_or (get id e.suspend_failures) 0) in
        let e1 = record e { suspend_failures = insert id attempts e.suspend_failures } in
        let w = warn_first_failure host id report e1 t in
        let warned = warn_first_failure-HasWindows id report e1 t h in
        elim (Bool-cases (leb max_suspend_attempts attempts)) [
          | inl g ↦
              rw (y, g) (with_entry-HasWindows id AppEntry.cancel_suspend_timer w.0 w.1 warned)
          | inr g ↦ rw (y, g) (schedule_suspend-HasWindows id (retry_delay attempts) w.0 w.1 warned)
        ]
  ]

  freeze_recorded-HasWindows :
      (id : AppId) (cgroup : Option Text) (procs : List ProcessHandle) (e : Engine) (t : Trace)
      → HasWindows e
      → HasWindows (freeze_recorded host id cgroup procs e t).0.0
  unfolding freeze_recorded
  freeze_recorded-HasWindows id cgroup procs e t h =
      let f = freeze_app host e.cgroup_caps cgroup procs t in
      let e1 = absorb_gone id f.0 e f.1 in
      let kept = absorb_gone-HasWindows id f.0 e f.1 h in
      let c = commit host e1.0.journal id.key procs f.0.applied e1.1 in
      let e2 = record e1.0 { journal = c.0.0 } in
      elim (Bool-cases (nothing_applied f.0)) [
        | inl n ↦ rw n (on_suspend_failed-HasWindows id f.0 e2 c.1 kept)
        | inr n ↦ rw n kept
      ]

  freeze_armed-HasWindows :
      (id : AppId) (cgroup : Option Text) (procs : List ProcessHandle) (e : Engine)
      (answer : Option JournalError) (t : Trace)
      → HasWindows e
      → HasWindows (freeze_armed host id cgroup procs e answer t).0.0
  unfolding freeze_armed limited_warning
  freeze_armed-HasWindows id cgroup procs e none t h =
      freeze_recorded-HasWindows id cgroup procs e t h
  freeze_armed-HasWindows id cgroup procs e (some x) t h = h

  freeze_with_journal-HasWindows :
      (id : AppId) (cgroup : Option Text) (procs : List ProcessHandle) (e : Engine) (t : Trace)
      → HasWindows e
      → HasWindows (freeze_with_journal host id cgroup procs e t).0.0
  unfolding freeze_with_journal
  freeze_with_journal-HasWindows id cgroup procs e t h =
      let a =
        arm host e.journal id.key (freeze_method host cgroup e.cgroup_caps.freezer) cgroup procs
          t in
      elim (Bool-cases (is_empty procs)) [
        | inl n ↦ rw n h
        | inr n ↦
            rw n
              (freeze_armed-HasWindows id cgroup procs (record e { journal = a.0.0 }) a.0.1 a.1 h)
      ]

  pub restore_app_resources-HasWindows :
      (id : AppId) (s : AppState) (cgroup : Option Text) (procs : List ProcessHandle) (ms : ℕ)
      (e : Engine) (t : Trace)
      → HasWindows e
      → HasWindows (restore_app_resources host id s cgroup procs ms e t).0
  unfolding restore_app_resources restore_frozen restore_throttled
  restore_app_resources-HasWindows id frozen cgroup procs ms e t h =
      let thawed = thaw_app host e.cgroup_caps cgroup procs t in
      let warned = warn_partial_failure host id (codes "thaw-failed") thawed.0 e thawed.1 in
      let r = retire host warned.0.journal id.key (settled_pids thawed.0) warned.1 in
      absorb_gone-HasWindows id thawed.0 (record warned.0 { journal = r.0.0 }) r.1
        (warn_partial_failure-HasWindows id (codes "thaw-failed") thawed.0 e thawed.1 h)
  restore_app_resources-HasWindows id throttled cgroup procs ms e t h =
      let r = Throttle.remove_throttle host e.cgroup_caps cgroup procs t in
      absorb_gone-HasWindows id r.0 e r.1 h
  restore_app_resources-HasWindows id active cgroup procs ms e t h = h
  restore_app_resources-HasWindows id background cgroup procs ms e t h = h

  throttle_entry-HasWindows :
      (id : AppId) (x : AppEntry) (procs : List ProcessHandle) (e : Engine) (t : Trace)
      → HasWindows e
      → HasWindows (throttle_entry host id x procs e t).0.0
  unfolding throttle_entry
  throttle_entry-HasWindows id x procs e t h =
      let r =
        Throttle.apply_throttle host e.cgroup_caps x.cgroup_path procs (throttle_params x.policy)
          t in
      let e1 = absorb_gone id r.0 e r.1 in
      let kept = absorb_gone-HasWindows id r.0 e r.1 h in
      elim (Bool-cases (nothing_applied r.0)) [
        | inl n ↦ rw n (on_suspend_failed-HasWindows id r.0 e1.0 e1.1 kept)
        | inr n ↦ rw n kept
      ]

  freeze_entry-HasWindows :
      (id : AppId) (x : AppEntry) (procs : List ProcessHandle) (e : Engine) (t : Trace)
      → HasWindows e
      → HasWindows (freeze_entry host id x procs e t).0.0
  unfolding freeze_entry
  freeze_entry-HasWindows id x procs e t h =
      let r = freeze_with_journal host id x.cgroup_path procs e t in
      let kept = freeze_with_journal-HasWindows id x.cgroup_path procs e t h in
      elim (Bool-cases r.0.1) [
        | inr n ↦ rw n kept
        | inl y ↦ elim (Bool-cases x.policy.maintenance_resume.enabled) [
          | inl m ↦ rw (y, m) (start_maintenance_timer-HasWindows id r.0.0 r.1 kept)
          | inr m ↦ rw (y, m) kept
        ]
      ]

  act-HasWindows :
      (id : AppId) (x : AppEntry) (action : TransitionAction) (procs : List ProcessHandle)
      (e : Engine) (t : Trace)
      → HasWindows e
      → HasWindows (act host id x action procs e t).0.0
  unfolding act
  act-HasWindows id x start_suspend_timer procs e t h =
      schedule_suspend-HasWindows id x.policy.suspend_delay e t h
  act-HasWindows id x cancel_suspend_timer procs e t h =
      with_entry-HasWindows id AppEntry.cancel_suspend_timer e t h
  act-HasWindows id x apply_throttle procs e t h = throttle_entry-HasWindows id x procs e t h
  act-HasWindows id x apply_freeze procs e t h = freeze_entry-HasWindows id x procs e t h
  act-HasWindows id x remove_throttle procs e t h =
      restore_app_resources-HasWindows id throttled x.cgroup_path procs (time_in_state host id e t)
        e t h
  act-HasWindows id x thaw procs e t h =
      restore_app_resources-HasWindows id frozen x.cgroup_path procs (time_in_state host id e t) e t
        h
  act-HasWindows id x no_op procs e t h = h

  pub execute_transition-HasWindows :
      (id : AppId) (s : AppState) (action : TransitionAction) (procs : List ProcessHandle)
      (e : Engine) (t : Trace)
      → HasWindows e
      → HasWindows (execute_transition host id s action procs e t).0
  unfolding execute_transition skip_action
  execute_transition-HasWindows id s action procs e t h =
      elim (Bool-cases (not (should_manage e) && requires_management action)) [
        | inl c ↦ elim (Bool-cases (is_suspended s)) [
          | inl p ↦ rw (c, p) h
          | inr p ↦ rw (c, p) (set_entry_state-HasWindows id s e t h)
        ]
        | inr c ↦ elim (Option-cases (get id e.registry.apps)) [
          | inl n ↦ rw (c, n, execute_transition) h
          | inr (x, g) ↦
              let r = act host id x action procs e t in
              let kept = act-HasWindows id x action procs e t h in
              elim (Bool-cases r.0.1) [
                | inl y ↦
                    rw (c, g, execute_transition)
                      (rw y (set_entry_state-HasWindows id s r.0.0 r.1 kept))
                | inr y ↦ rw (c, g, execute_transition) (rw y kept)
              ]
        ]
      ]

  pub restore_to_background-HasWindows :
      (id : AppId) (s : AppState) (e : Engine) (t : Trace)
      → HasWindows e
      → HasWindows (restore_to_background host id s e t).0
  unfolding restore_to_background
  restore_to_background-HasWindows id s e t h =
      let next = on_focus_gained s in
      let r = execute_transition host id next.0 next.1 (recorded_procs_for id e) e t in
      let p = set_entry_state host id background r.0 r.1 in
      with_entry-HasWindows id AppEntry.cancel_all_timers p.0 p.1 (
        set_entry_state-HasWindows id background r.0 r.1
          (execute_transition-HasWindows id next.0 next.1 (recorded_procs_for id e) e t h))
