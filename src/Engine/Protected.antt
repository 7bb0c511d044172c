-- ===== src/Engine/Protected.antt =====
-- Which processes the suspend timer acts on: `handle_suspend_timer` of
-- crates/app-powerd-core/src/engine/suspend.rs.
use app_powerd.Prelude.{
  ℕ, ◌-◌, ◌≡◌, inl, inr, List, ◌∷◌, map, not, ◌&&◌, Option, none, some, Text, codes, In, ltb,
  length, get, is_empty, Bool-cases, Option-cases, if◌then◌else◌,
}
use app_powerd.Host.{
  Host, Trace, ProcessHandle, counted, apps_frozen_total, apps_throttled_total,
  protection_blocks_total, guard_blocks_total, pure,
}
use app_powerd.Host.Log.{Extends, none_added, Extends-trans}
use app_powerd.Host.Quiet.{one_quiet}
use app_powerd.Desktop.Identity.{AppId, app_eq}
use app_powerd.System.Apply.{nothing_applied}
use app_powerd.System.Freeze.{freeze_app}
use app_powerd.System.Throttle
use app_powerd.System.Reach.{
  Reaches, Reaches-of-Quietly, freeze_app-Reaches, apply_throttle-Reaches,
}
use app_powerd.System.Tree.{expand_tree}
use app_powerd.System.Protection.{ProtectionReason, verdict}
use app_powerd.System.Protection.Partition.{partition-IsSplit}
use app_powerd.Config.{throttle_params}
use app_powerd.Guards.{Sensors, GuardResult, allow, block, check_guards}
use app_powerd.State.Machine.{
  AppState, SuspendMode, active, background, throttled, frozen, TransitionAction, on_suspend_timer,
  requires_management, is_suspended, is_background,
}
use app_powerd.State.Journal.Persist.{JournalError}
use app_powerd.State.Journal.{arm, commit}
use app_powerd.State.Journal.Quiet.{arm-Quietly, commit-Quietly}
use app_powerd.State.ProcessSet.{pids}
use app_powerd.State.AppEntry.{AppEntry, elapsed, in_resume_grace}
use app_powerd.Engine.RateLimit.{for_app}
use app_powerd.Engine.{Engine, should_manage, retry_interval}
use app_powerd.Engine.Transitions.{
  absorb_gone, freeze_method, freeze_recorded, freeze_armed, freeze_with_journal, throttle_entry,
  freeze_entry, act, skip_action, set_entry_state, execute_transition, reschedule_suspend,
}
use app_powerd.Engine.Suspend.{
  is_ignore, is_no_op, suspend_mode, split_scan, scan_tree, note_protected, suspend_now, suspend_if,
  guarded_suspend, suspend_scanned, handle_suspend_timer,
}
use app_powerd.Engine.Quiet.{
  limited_warning-Quietly, absorb_gone-Quietly, on_suspend_failed-Quietly, schedule_suspend-Quietly,
  cancel-Quietly, start_maintenance_timer-Quietly,
}

module _ (host : Host) (procs : List ProcessHandle) (app_id : AppId) where
  -- Only `procs` are acted on from `t` on.
  abbrev Only : Trace → Trace → Type 0
  Only = Extends (Reaches host procs)

  freeze_recorded-Only :
      (cgroup : Option Text) (e : Engine) (t : Trace)
      → Only t (freeze_recorded host app_id cgroup procs e t).1
  unfolding freeze_recorded
  freeze_recorded-Only cgroup e t =
      let f = freeze_app host e.cgroup_caps cgroup procs t in
      let e1 = absorb_gone app_id f.0 e f.1 in
      let c = commit host e1.0.journal app_id.key procs f.0.applied e1.1 in
      let e2 = record e1.0 { journal = c.0.0 } in
      let frozen' = freeze_app-Reaches host procs e.cgroup_caps cgroup t in
      let quiet =
        Extends-trans (absorb_gone-Quietly app_id f.0 e f.1)
          (commit-Quietly host e1.0.journal app_id.key procs f.0.applied e1.1) in
      elim (Bool-cases (nothing_applied f.0)) [
        | inl n ↦ rw n (
            Extends-trans frozen' (
              Reaches-of-Quietly host procs
                (Extends-trans quiet (on_suspend_failed-Quietly host app_id f.0 e2 c.1))))
        | inr n ↦ rw n (
            Extends-trans frozen' (
              Reaches-of-Quietly host procs
                (Extends-trans quiet (one_quiet (counted apps_frozen_total 1) c.1 tt))))
      ]

  freeze_armed-Only :
      (cgroup : Option Text) (e : Engine) (o : Option JournalError) (t : Trace)
      → Only t (freeze_armed host app_id cgroup procs e o t).1
  unfolding freeze_armed
  freeze_armed-Only cgroup e none t = freeze_recorded-Only cgroup e t
  freeze_armed-Only cgroup e (some x) t =
      Reaches-of-Quietly host procs
        (limited_warning-Quietly host (for_app app_id.display (codes "journal-arm")) e t)

  freeze_with_journal-Only :
      (cgroup : Option Text) (e : Engine) (t : Trace)
      → Only t (freeze_with_journal host app_id cgroup procs e t).1
  unfolding freeze_with_journal
  freeze_with_journal-Only cgroup e t = elim (Bool-cases (is_empty procs)) [
    | inl n ↦ rw n none_added
    | inr n ↦
        let method = freeze_method host cgroup e.cgroup_caps.freezer in
        let a = arm host e.journal app_id.key method cgroup procs t in
        rw n (
          Extends-trans
            (Reaches-of-Quietly host procs
              (arm-Quietly host e.journal app_id.key method cgroup procs t))
            (freeze_armed-Only cgroup (record e { journal = a.0.0 }) a.0.1 a.1))
  ]

  freeze_entry-Only :
      (x : AppEntry) (e : Engine) (t : Trace) → Only t (freeze_entry host app_id x procs e t).1
  unfolding freeze_entry
  freeze_entry-Only x e t =
      let r = freeze_with_journal host app_id x.cgroup_path procs e t in
      let done = freeze_with_journal-Only x.cgroup_path e t in
      elim (Bool-cases r.0.1) [
        | inl y ↦ elim (Bool-cases x.policy.maintenance_resume.enabled) [
          | inl m ↦
              rw (y, m)
                (Extends-trans done (
                  Reaches-of-Quietly host procs (start_maintenance_timer-Quietly app_id r.0.0 r.1)))
          | inr m ↦ rw (y, m) done
        ]
        | inr y ↦ rw y done
      ]

  throttle_entry-Only :
      (x : AppEntry) (e : Engine) (t : Trace) → Only t (throttle_entry host app_id x procs e t).1
  unfolding throttle_entry
  throttle_entry-Only x e t =
      let r =
        Throttle.apply_throttle host e.cgroup_caps x.cgroup_path procs (throttle_params x.policy)
          t in
      let e1 = absorb_gone app_id r.0 e r.1 in
      let slowed =
        apply_throttle-Reaches host procs e.cgroup_caps x.cgroup_path (throttle_params x.policy)
          t in
      let quiet = absorb_gone-Quietly app_id r.0 e r.1 in
      elim (Bool-cases (nothing_applied r.0)) [
        | inl n ↦ rw n (
            Extends-trans slowed (
              Reaches-of-Quietly host procs
                (Extends-trans quiet (on_suspend_failed-Quietly host app_id r.0 e1.0 e1.1))))
        | inr n ↦ rw n (
            Extends-trans slowed (
              Reaches-of-Quietly host procs
                (Extends-trans quiet (one_quiet (counted apps_throttled_total 1) e1.1 tt))))
      ]

  abbrev IsSuspending : TransitionAction → Type 0
  IsSuspending TransitionAction.apply_freeze = Unit
  IsSuspending TransitionAction.apply_throttle = Unit
  IsSuspending _ = ⊥

  act-Only :
      (x : AppEntry) (action : TransitionAction) (e : Engine) (t : Trace)
      → IsSuspending action
      → Only t (act host app_id x action procs e t).1
  unfolding act
  act-Only x TransitionAction.apply_freeze e t i = freeze_entry-Only x e t
  act-Only x TransitionAction.apply_throttle e t i = throttle_entry-Only x e t
  act-Only x TransitionAction.start_suspend_timer e t i = absurd i
  act-Only x TransitionAction.cancel_suspend_timer e t i = absurd i
  act-Only x TransitionAction.remove_throttle e t i = absurd i
  act-Only x TransitionAction.thaw e t i = absurd i
  act-Only x TransitionAction.no_op e t i = absurd i

  execute_transition-Only :
      (s : AppState) (action : TransitionAction) (e : Engine) (t : Trace)
      → IsSuspending action
      → Only t (execute_transition host app_id s action procs e t).1
  unfolding execute_transition skip_action set_entry_state
  execute_transition-Only s action e t i =
      elim (Bool-cases (not (should_manage e) && requires_management action)) [
        | inl c ↦ elim (Bool-cases (is_suspended s)) [
          | inl d ↦ rw (c, d) none_added
          | inr d ↦ rw (c, d) none_added
        ]
        | inr c ↦ elim (Option-cases (get app_id e.registry.apps)) [
          | inl n ↦ rw (c, n, execute_transition) none_added
          | inr (x, g) ↦
              let r = act host app_id x action procs e t in
              elim (Bool-cases r.0.1) [
                | inl d ↦ rw (c, g, execute_transition) (rw d (act-Only x action e t i))
                | inr d ↦ rw (c, g, execute_transition) (rw d (act-Only x action e t i))
              ]
        ]
      ]

  suspended-Only :
      (s : AppState) (m : SuspendMode) (e : Engine) (t : Trace)
      → let next = on_suspend_timer s m in
        Only t
          ((if is_background s
              then (if is_no_op next.1
                  then pure e
                  else execute_transition host app_id next.0 next.1 procs e)
              else pure e)
            t).1
  unfolding on_suspend_timer
  suspended-Only background SuspendMode.freeze e t =
      execute_transition-Only frozen TransitionAction.apply_freeze e t tt
  suspended-Only background SuspendMode.throttle e t =
      execute_transition-Only throttled TransitionAction.apply_throttle e t tt
  suspended-Only active m e t = none_added
  suspended-Only throttled m e t = none_added
  suspended-Only frozen m e t = none_added

module _ (host : Host) (sensors : Trace → Sensors) (scan_budget : Trace → ℕ) where
  module _ (procs : List ProcessHandle) (app_id : AppId) (x : AppEntry) where
    suspend_now-Only :
        (e : Engine) (t : Trace)
        → Only host procs app_id t (suspend_now host sensors scan_budget app_id x procs e t).1
    unfolding suspend_now
    suspend_now-Only e t =
        suspended-Only host procs app_id x.state (suspend_mode x.policy.action) e t

    suspend_if-Only :
        (r : GuardResult) (e : Engine) (t : Trace)
        → Only host procs app_id t (suspend_if host sensors scan_budget r app_id x procs e t).1
    unfolding suspend_if reschedule_suspend
    suspend_if-Only allow e t = suspend_now-Only e t
    suspend_if-Only (block reason) e t =
        let t1 : Trace = counted guard_blocks_total 1 ∷ t in
        Reaches-of-Quietly host procs (
          Extends-trans (one_quiet (counted guard_blocks_total 1) t tt)
            (schedule_suspend-Quietly app_id retry_interval e t1))

    note_protected-Only :
        (protected : List (ℕ × ProtectionReason)) (e : Engine) (t : Trace)
        → Only host procs app_id t (note_protected host sensors scan_budget app_id protected e t).1
    unfolding note_protected
    note_protected-Only protected e t = elim (Bool-cases (is_empty protected)) [
      | inl n ↦ rw n none_added
      | inr n ↦
          let c = counted protection_blocks_total (length protected) in
          let t1 : Trace = c ∷ t in
          rw n (
            Reaches-of-Quietly host procs (
              Extends-trans (one_quiet c t tt) (
                limited_warning-Quietly host
                  (for_app app_id.display (codes "protected-descendants")) e t1)))
    ]

  module _ (app_id : AppId) (x : AppEntry) (e : Engine) (t : Trace) where
    -- What the scan lets through.
    abbrev pub allowed : List ProcessHandle
    allowed = (scan_tree host sensors scan_budget x e t).0

    suspend_scanned-Only :
        Only host allowed app_id t (suspend_scanned host sensors scan_budget app_id x e t).1
    unfolding suspend_scanned guarded_suspend
    suspend_scanned-Only =
        let protected = (scan_tree host sensors scan_budget x e t).1 in
        let n = note_protected host sensors scan_budget app_id protected e t in
        Extends-trans (note_protected-Only allowed app_id x protected e t) (
          suspend_if-Only allowed app_id x
            (check_guards (sensors n.1) (map (λ (h : ProcessHandle). h.pid) allowed) x.policy.guards
              x.window_info.is_fullscreen)
            n.0 n.1)

    split-verdict :
        (scan : Option (List ProcessHandle)) (h : ProcessHandle)
        → In h (split_scan host sensors scan_budget x e t scan).0
        → verdict host t e.protection (pids x.roots) h ≡ none
    unfolding split_scan
    split-verdict none h i = absurd i
    split-verdict (some procs) h i =
        ((partition-IsSplit host t e.protection (pids x.roots) procs h).0.0 i).1

    allowed-verdict :
        (h : ProcessHandle) → In h allowed → verdict host t e.protection (pids x.roots) h ≡ none
    unfolding scan_tree
    allowed-verdict h i = split-verdict (expand_tree host t (scan_budget t) (pids x.roots)) h i

    -- Whatever the outside answers, the suspend timer of a tracked application signals, and gives
    -- another priority to, only processes on which the protection passed no verdict when it fired,
    -- each at a moment when it is alive under the start time it was found with.
    pub handle_suspend_timer-Only :
        get app_id e.registry.apps ≡ some x
        → Extends
            (Reaches host allowed)
            t
            (handle_suspend_timer host sensors scan_budget app_id e t).1
          × ((h : ProcessHandle)
              → In h allowed
              → verdict host t e.protection (pids x.roots) h ≡ none)
    unfolding handle_suspend_timer
    handle_suspend_timer-Only tracked = (
      elim (Bool-cases (is_ignore x.policy.action)) [
        | inl a ↦
            rw (tracked, handle_suspend_timer)
              (rw a (Reaches-of-Quietly host allowed (cancel-Quietly app_id e t)))
        | inr a ↦ elim (Bool-cases (in_resume_grace host t x)) [
          | inl g ↦ rw (tracked, handle_suspend_timer) (rw (a, g) none_added)
          | inr g ↦ elim (Bool-cases (ltb (elapsed host t x.state_since) x.policy.min_suspend)) [
            | inl m ↦
                rw (tracked, handle_suspend_timer)
                  (rw (a, g, m)
                    (Reaches-of-Quietly host allowed (
                      schedule_suspend-Quietly app_id
                        (x.policy.min_suspend - elapsed host t x.state_since) e t)))
            | inr m ↦ rw (tracked, handle_suspend_timer) (rw (a, g, m) suspend_scanned-Only)
          ]
        ]
      ],
      allowed-verdict,
    )
