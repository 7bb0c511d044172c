-- ===== src/Engine/Consistent/Focus.antt =====
-- The registry under focus changes: crates/app-powerd-core/src/engine/focus.rs.
use app_powerd.Prelude.{
  ℕ, inl, inr, List, [], ◌∷◌, Bool, true, false, Option, none, some, Text, HashMap, get, Bool-cases,
  Option-cases, if◌then◌else◌,
}
use app_powerd.Host.{Host, Trace, counted, focus_changes_total}
use app_powerd.Desktop.{WindowInfo}
use app_powerd.Desktop.Identity.{AppId, same_app, app_eq, from_window}
use app_powerd.System.Cgroup.{create_cgroup}
use app_powerd.Config.{ResolvedPolicy}
use app_powerd.Config.Matching.{match_window}
use app_powerd.State.Machine.{AppState, is_active, on_focus_gained, on_focus_lost}
use app_powerd.State.ProcessSet.{contains_pid, pids}
use app_powerd.State.AppEntry.{AppEntry, new_entry, add_window}
use app_powerd.State.Registry.{insert_entry}
use app_powerd.State.Registry.Windows.{registry-IsConsistent}
use app_powerd.Engine.{Engine, recorded_procs_for}
use app_powerd.Engine.Transitions.{limited_warning}
use app_powerd.Engine.Suspend.{is_ignore, is_no_op}
use app_powerd.Engine.Focus.{
  match_context, protection_verdict, protected_policy, adopt_pid, adopt_window_pid, resume_focused,
  activate_existing_app, cgroup_created, setup_cgroup, note_protection, track, register_new_app,
  background_one, background_each, background_other_active_apps, focus_app, handle_focus_changed,
}
use app_powerd.Engine.Consistent.{
  HasWindows, modify_entry-HasWindows, execute_transition-HasWindows,
}

module _ (host : Host) where
  adopt_pid-HasWindows :
      (id : AppId) (x : AppEntry) (pid : ℕ) (e : Engine) (t : Trace)
      → HasWindows e
      → HasWindows (adopt_pid host id x pid e t).0
  unfolding adopt_pid
  adopt_pid-HasWindows id x pid e t h = elim (Bool-cases (contains_pid x.roots pid)) [
    | inl c ↦ rw c h
    | inr c ↦ rw c (modify_entry-HasWindows id _ e h)
  ]

  adopt_window_pid-HasWindows :
      (id : AppId) (pid : Option ℕ) (e : Engine) (t : Trace)
      → HasWindows e
      → HasWindows (adopt_window_pid host id pid e t).0
  unfolding adopt_window_pid
  adopt_window_pid-HasWindows id none e t h = h
  adopt_window_pid-HasWindows id (some pid) e t h = elim (Option-cases (get id e.registry.apps)) [
    | inl n ↦ rw (n, adopt_window_pid) h
    | inr (x, s) ↦ rw (s, adopt_window_pid) (adopt_pid-HasWindows id x pid e t h)
  ]

  resume_focused-HasWindows :
      (id : AppId) (x : AppEntry) (e : Engine) (t : Trace)
      → HasWindows e
      → HasWindows (resume_focused host id x e t).0
  unfolding resume_focused
  resume_focused-HasWindows id x e t h =
      let next = on_focus_gained x.state in
      elim (Bool-cases (is_no_op next.1)) [
        | inl n ↦ rw n h
        | inr n ↦
            rw n
              (execute_transition-HasWindows host id next.0 next.1 (recorded_procs_for id e) e t h)
      ]

  activate_existing_app-HasWindows :
      (id : AppId) (window : WindowInfo) (x : AppEntry) (e : Engine) (t : Trace)
      → HasWindows e
      → HasWindows (activate_existing_app host id window x e t).0
  unfolding activate_existing_app
  activate_existing_app-HasWindows id window x e t h =
      let r = resume_focused host id x e t in
      let s = adopt_window_pid host id window.pid r.0 r.1 in
      modify_entry-HasWindows id
        (λ y. add_window window.window_id (record y { window_info = window })) s.0
        (adopt_window_pid-HasWindows id window.pid r.0 r.1 (resume_focused-HasWindows id x e t h))

  cgroup_created-HasWindows :
      (id : AppId) (ps : List ℕ) (path : Option Text) (e : Engine) (t : Trace)
      → HasWindows e
      → HasWindows (cgroup_created host id ps path e t).0
  unfolding cgroup_created
  cgroup_created-HasWindows id ps none e t h = h
  cgroup_created-HasWindows id ps (some path) e t h = modify_entry-HasWindows id _ e h

  setup_cgroup-HasWindows :
      (id : AppId) (e : Engine) (t : Trace) → HasWindows e → HasWindows (setup_cgroup host id e t).0
  unfolding setup_cgroup
  setup_cgroup-HasWindows id e t h = elim (Option-cases (get id e.registry.apps)) [
    | inl n ↦ rw (n, setup_cgroup) h
    | inr (x, s) ↦
        rw (s, setup_cgroup)
          (elim (Bool-cases (is_ignore x.policy.action)) [
            | inl i ↦ rw i h
            | inr i ↦
                let r =
                  create_cgroup host e.cgroup_caps e.cgroup_base id.display (pids x.roots) t in
                rw i (cgroup_created-HasWindows id (pids x.roots) r.0 e r.1 h)
          ])
  ]

  note_protection-HasWindows :
      (id : AppId) (policy : ResolvedPolicy) (e : Engine) (t : Trace)
      → HasWindows e
      → HasWindows (note_protection host id policy e t).0
  unfolding note_protection limited_warning
  note_protection-HasWindows id policy e t h = elim (Bool-cases (is_ignore policy.action)) [
    | inl i ↦ rw i h
    | inr i ↦ rw i h
  ]

  track-HasWindows :
      (id : AppId) (window : WindowInfo) (policy : ResolvedPolicy) (e : Engine) (t : Trace)
      → HasWindows e
      → HasWindows (track host id window policy e t).0
  unfolding track
  track-HasWindows id window policy e t h =
      let x = new_entry host t id window policy in
      let r = insert_entry x e.registry t in
      setup_cgroup-HasWindows id (record e { registry = r.0 }) r.1
        ((registry-IsConsistent e.registry h).0 x t)

  register_new_app-HasWindows :
      (id : AppId) (window : WindowInfo) (e : Engine) (t : Trace)
      → HasWindows e
      → HasWindows (register_new_app host id window e t).0
  unfolding register_new_app
  register_new_app-HasWindows id window e t h =
      elim (Option-cases (match_window e.rules_engine (match_context e window))) [
        | inl n ↦ rw (n, register_new_app) h
        | inr (policy, s) ↦
            rw (s, register_new_app)
              (elim (Option-cases (protection_verdict host t window)) [
                | inl n ↦ rw n (track-HasWindows id window policy e t h)
                | inr (reason, p) ↦
                    let r = note_protection host id policy e t in
                    rw p (
                      track-HasWindows id window (protected_policy host reason policy) r.0 r.1
                        (note_protection-HasWindows id policy e t h))
              ])
      ]

  background_one-HasWindows :
      (id : AppId) (s : AppState) (e : Engine) (t : Trace)
      → HasWindows e
      → HasWindows (background_one host id s e t).0
  unfolding background_one
  background_one-HasWindows id s e t h =
      let next = on_focus_lost s in
      elim (Bool-cases (is_active s)) [
        | inr a ↦ rw a h
        | inl a ↦ rw a (elim (Bool-cases (is_no_op next.1)) [
          | inl n ↦ rw n h
          | inr n ↦ rw n (execute_transition-HasWindows host id next.0 next.1 [] e t h)
        ])
      ]

  background_other-HasWindows :
      (b : Bool) (id : AppId) (s : AppState) (e : Engine) (t : Trace)
      → HasWindows e
      → HasWindows (if b then (e, t) else background_one host id s e t).0
  background_other-HasWindows true id s e t h = h
  background_other-HasWindows false id s e t h = background_one-HasWindows id s e t h

  background_each-HasWindows :
      (focused : AppId) (apps : HashMap AppId AppEntry) (e : Engine) (t : Trace)
      → HasWindows e
      → HasWindows (background_each host focused apps e t).0
  unfolding background_each
  background_each-HasWindows focused [] e t h = h
  background_each-HasWindows focused ((id, x) ∷ rest) e t h =
      background_each-HasWindows focused rest _ _
        (background_other-HasWindows (same_app id focused) id x.state e t h)

  focus_app-HasWindows :
      (id : AppId) (window : WindowInfo) (e : Engine) (t : Trace)
      → HasWindows e
      → HasWindows (focus_app host id window e t).0
  unfolding focus_app
  focus_app-HasWindows id window e t h = elim (Option-cases (get id e.registry.apps)) [
    | inl n ↦ rw (n, focus_app) (register_new_app-HasWindows id window e t h)
    | inr (x, s) ↦ rw (s, focus_app) (activate_existing_app-HasWindows id window x e t h)
  ]

  pub handle_focus_changed-HasWindows :
      (window : WindowInfo) (e : Engine) (t : Trace)
      → HasWindows e
      → HasWindows (handle_focus_changed host window e t).0
  unfolding handle_focus_changed background_other_active_apps
  handle_focus_changed-HasWindows window e t h =
      let id = from_window window in
      let t1 = counted focus_changes_total 1 ∷ t in
      let r = focus_app host id window e t1 in
      background_each-HasWindows id r.0.registry.apps r.0 r.1
        (focus_app-HasWindows id window e t1 h)
