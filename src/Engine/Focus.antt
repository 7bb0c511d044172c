-- ===== src/Engine/Focus.antt =====
-- Focus changes: crates/app-powerd-core/src/engine/focus.rs.
use app_powerd.Prelude.{
  ℕ, List, [], ◌∷◌, ◌++◌, Option, none, some, Text, codes, HashMap, get, remove, and_then, or_else,
  unwrap_or, text_key, if◌then◌else◌,
}
use app_powerd.Host.{
  Host, Io, Trace, ◌>>=◌, ◌>>◌, pure, count, focus_changes_total, protection_blocks_total,
}
use app_powerd.Desktop.{WindowInfo}
use app_powerd.Desktop.Identity.{AppId, same_app, app_eq, from_window}
use app_powerd.System.Cgroup.{direct_write, move_pid, create_cgroup}
use app_powerd.System.Protection.{ProtectionReason, unidentifiable, check, reason_text}
use app_powerd.Config.{ignore, ResolvedPolicy}
use app_powerd.Config.Matching.{MatchContext, context_of, match_window}
use app_powerd.State.Machine.{AppState, is_active, on_focus_gained, on_focus_lost}
use app_powerd.State.ProcessSet.{insert_pid, contains_pid, pids}
use app_powerd.State.AppEntry.{AppEntry, new_entry, add_window}
use app_powerd.State.Registry.{insert_entry}
use app_powerd.Engine.RateLimit.{for_app}
use app_powerd.Engine.{Engine, modify_entry, recorded_procs_for}
use app_powerd.Engine.Transitions.{limited_warning, execute_transition}
use app_powerd.Engine.Suspend.{is_ignore, is_no_op}

-- The window's data for the rules, with the desktop file that its executable belongs to.
unfoldable pub match_context : Engine → WindowInfo → MatchContext
match_context e window =
    let ctx = context_of window in
    record ctx {
      desktop_file =
          unwrap_or (and_then window.executable (λ exe. get exe e.exe_to_desktop)) ctx.desktop_file;
    }

module _ (host : Host) where
  -- A window with no PID is protected: nothing identifies its process.
  unfoldable pub protection_verdict : Trace → WindowInfo → Option ProtectionReason
  protection_verdict t window = elim window.pid [
    | some pid ↦ check host t pid window.executable
    | none ↦
        or_else (and_then window.executable (λ exe. check host t 0 (some exe)))
          (some unidentifiable)
  ]

  -- A new PID joins the application's cgroup and its processes.
  unfoldable pub adopt_pid : AppId → AppEntry → ℕ → Engine → Io Engine
  adopt_pid app_id x pid e t =
      if contains_pid x.roots pid
      then (e, t)
      else (let moved : Trace = elim x.cgroup_path [
        | none ↦ t
        | some path ↦ (move_pid host path pid t).1
      ] in
          (
            modify_entry app_id (λ y. record y { roots = (insert_pid host moved pid y.roots).0 }) e,
            moved,
          ))

  unfoldable pub adopt_window_pid : AppId → Option ℕ → Engine → Io Engine
  unfolding adopt_pid
  adopt_window_pid app_id none e t = (e, t)
  adopt_window_pid app_id (some pid) e t = elim (get app_id e.registry.apps) [
    | none ↦ (e, t)
    | some x ↦ adopt_pid app_id x pid e t
  ]

  -- A user's activation also ends the history of failures.
  unfoldable pub resume_focused : AppId → AppEntry → Engine → Io Engine
  resume_focused app_id x e =
      let next = on_focus_gained x.state in
      if is_no_op next.1 then pure e else (do
        e' ← execute_transition host app_id next.0 next.1 (recorded_procs_for app_id e) e
        pure (record e' { suspend_failures = remove app_id e'.suspend_failures }))

  unfoldable pub activate_existing_app : AppId → WindowInfo → AppEntry → Engine → Io Engine
  unfolding resume_focused adopt_window_pid
  activate_existing_app app_id window x e = do
    e1 ← resume_focused app_id x e
    e2 ← adopt_window_pid app_id window.pid e1
    pure (
        modify_entry app_id (λ y. add_window window.window_id (record y { window_info = window }))
          e2)

  unfoldable pub move_all : Text → List ℕ → Io (Unit {0})
  move_all path [] t = (tt, t)
  move_all path (pid ∷ pids) t = move_all path pids (move_pid host path pid t).1

  unfoldable pub cgroup_created : AppId → List ℕ → Option Text → Engine → Io Engine
  unfolding move_all
  cgroup_created app_id pids none e t = (e, t)
  cgroup_created app_id pids (some path) e t =
      let moved = elim e.cgroup_caps.tier as (λ _. Trace) [
        | direct_write ↦ (move_all path pids t).1
        | _ ↦ t
      ] in
      (modify_entry app_id (λ y. record y { cgroup_path = some path }) e, moved)

  unfoldable pub setup_cgroup : AppId → Engine → Io Engine
  unfolding cgroup_created
  setup_cgroup app_id e t = elim (get app_id e.registry.apps) [
    | none ↦ (e, t)
    | some x ↦
        if is_ignore x.policy.action
        then (e, t)
        else (do
          path ← create_cgroup host e.cgroup_caps e.cgroup_base app_id.display (pids x.roots)
          cgroup_created app_id (pids x.roots) path e)
            t
  ]

  -- Protection overrides the configured action.
  abbrev pub protected_policy : ProtectionReason → ResolvedPolicy → ResolvedPolicy
  protected_policy reason p = record p {
    action = ignore;
    matched_rule = some (codes "built-in protection: " ++ reason_text reason);
  }

  unfoldable pub note_protection : AppId → ResolvedPolicy → Engine → Io Engine
  unfolding limited_warning
  note_protection app_id policy e = if is_ignore policy.action then pure e else (do
    count protection_blocks_total 1
    limited_warning host (for_app app_id.display (codes "protected")) e)

  unfoldable pub track : AppId → WindowInfo → ResolvedPolicy → Engine → Io Engine
  unfolding setup_cgroup
  track app_id window policy e t =
      (do
        registry ← insert_entry (new_entry host t app_id window policy) e.registry
        setup_cgroup app_id (record e { registry = registry }))
        t

  -- `match_window` is `none` only where the source panics (see Config/Matching).
  unfoldable pub register_new_app : AppId → WindowInfo → Engine → Io Engine
  unfolding track note_protection
  register_new_app app_id window e t = elim (match_window e.rules_engine (match_context e window)) [
    | none ↦ (e, t)
    | some policy ↦ elim (protection_verdict t window) [
      | none ↦ track app_id window policy e t
      | some reason ↦
          (do
            e' ← note_protection app_id policy e
            track app_id window (protected_policy reason policy) e')
            t
    ]
  ]

  unfoldable pub background_one : AppId → AppState → Engine → Io Engine
  unfolding on_focus_lost
  background_one id state e t =
      let next = on_focus_lost state in
      if is_active state
      then (if is_no_op next.1 then (e, t) else execute_transition host id next.0 next.1 [] e t)
      else (e, t)

  unfoldable pub background_each : AppId → HashMap AppId AppEntry → Engine → Io Engine
  unfolding background_one
  background_each focused [] e t = (e, t)
  background_each focused ((id, x) ∷ rest) e t =
      let r = if same_app id focused then (e, t) else background_one id x.state e t in
      background_each focused rest r.0 r.1

  unfoldable pub background_other_active_apps : AppId → Engine → Io Engine
  unfolding background_each
  background_other_active_apps focused e = background_each focused e.registry.apps e

  unfoldable pub focus_app : AppId → WindowInfo → Engine → Io Engine
  focus_app app_id window e = elim (get app_id e.registry.apps) [
    | some x ↦ activate_existing_app app_id window x e
    | none ↦ register_new_app app_id window e
  ]

  unfoldable pub handle_focus_changed : WindowInfo → Engine → Io Engine
  unfolding focus_app
  handle_focus_changed window e = do
    count focus_changes_total 1
    e' ← focus_app (from_window window) window e
    background_other_active_apps (from_window window) e'
