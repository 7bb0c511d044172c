-- ===== src/Engine/Consistent/Requests.antt =====
-- The registry under requests and a shutdown: crates/app-powerd-core/src/engine/ipc_handler.rs and
-- config_power.rs.
use app_powerd.Prelude.{
  ℕ, ◌≡◌, refl, inl, inr, List, [], ◌∷◌, Bool, true, false, Option, none, some, Text, HashMap, get,
  is_some, is_empty, Bool-cases, Option-cases, if◌then◌else◌,
}
use app_powerd.Host.{Host, Trace, ProcessHandle, signal}
use app_powerd.Desktop.Identity
use app_powerd.Desktop.Identity.{AppId, same_app, app_eq}
use app_powerd.System.Power.{PowerSource, unknown, battery, ac}
use app_powerd.System.Protection.{ProtectionReason}
use app_powerd.System.Apply.{settled_pids}
use app_powerd.System.Freeze.{thaw_app}
use app_powerd.Config.{Config}
use app_powerd.Config.Loader
use app_powerd.Config.Loader.{ConfigRead, load_config}
use app_powerd.State.Machine.{background}
use app_powerd.State.AppEntry.{AppEntry}
use app_powerd.State.Journal.{arm, retire}
use app_powerd.State.Journal.Persist.{JournalError}
use app_powerd.State.Registry.Windows.{AreTracked-mono}
use app_powerd.Ipc.{
  Target, pid, app, IpcRequest, list, status, stats, thaw_all, reload_config, shutdown, freeze,
  thaw, set_power_override,
}
use app_powerd.Engine.{Engine}
use app_powerd.Engine.Power
use app_powerd.Engine.Shutdown
use app_powerd.Engine.Shutdown.{
  close_entry, close_each, release_journal_remnants, release_recorded_processes,
}
use app_powerd.Engine.Commands.{
  Words, Resolved, ok, err, journal_key_for, resolve_target, ipc_freeze_recorded, ipc_freeze_armed,
  ipc_freeze_allowed, ipc_freeze_split, ipc_freeze_resolved, ipc_freeze, thaw_tracked,
  ipc_thaw_resolved, ipc_thaw, park_entry, park_each, ipc_thaw_all, ipc_set_power_override,
  ipc_reload_config, ipc_shutdown, handle_ipc,
}
use app_powerd.Engine.Consistent.{HasWindows, set_entry_state-HasWindows}
use app_powerd.Engine.Consistent.Power.{thaw_all-HasWindows, handle_set_power_override-HasWindows}

is_some-pick :
    (c : Bool) (x y : AppEntry) (a b : Option AppEntry)
    → (is_some a ≡ true → is_some b ≡ true)
    → is_some (if c then some x else a) ≡ true
    → is_some (if c then some y else b) ≡ true
is_some-pick true x y a b f h = refl
is_some-pick false x y a b f h = f h

-- What a pass over the entries keeps: who is tracked.
is_some-cons :
    (k id : AppId) (x y : AppEntry) (a b : HashMap AppId AppEntry)
    → (is_some (get k a) ≡ true → is_some (get k b) ≡ true)
    → is_some (get k ((id, x) ∷ a)) ≡ true
    → is_some (get k ((id, y) ∷ b)) ≡ true
unfolding get
is_some-cons k id x y a b f h = is_some-pick (same_app id k) x y (get k a) (get k b) f h

module _ (host : Host) where
  close_each-tracked :
      (k : AppId) (apps : HashMap AppId AppEntry) (t : Trace)
      → is_some (get k apps) ≡ true
      → is_some (get k (close_each host apps t).0) ≡ true
  unfolding close_each
  close_each-tracked k [] t h = h
  close_each-tracked k ((id, x) ∷ rest) t h =
      let r = close_entry host x t in
      is_some-cons k id x r.0 rest _ (close_each-tracked k rest r.1) h

  park_each-tracked :
      (k : AppId) (apps : HashMap AppId AppEntry) (t : Trace)
      → is_some (get k apps) ≡ true
      → is_some (get k (park_each host apps t).0) ≡ true
  unfolding park_each
  park_each-tracked k [] t h = h
  park_each-tracked k ((id, x) ∷ rest) t h =
      let r = park_entry host x t in is_some-cons k id x r.0 rest _ (park_each-tracked k rest r.1) h

  release_journal_remnants-HasWindows :
      (e : Engine) (t : Trace) → HasWindows e → HasWindows (release_journal_remnants host e t).0
  unfolding release_journal_remnants release_recorded_processes
  release_journal_remnants-HasWindows e t h = elim (Bool-cases (is_empty e.journal.entries)) [
    | inl n ↦ rw n h
    | inr n ↦ rw n h
  ]

  pub shutdown-HasWindows :
      (e : Engine) (t : Trace) → HasWindows e → HasWindows (Shutdown.shutdown host e t).0
  unfolding Shutdown.shutdown
  shutdown-HasWindows e t h =
      let r = Power.thaw_all host e t in
      let apps = close_each host r.0.registry.apps r.1 in
      release_journal_remnants-HasWindows
        (record r.0 { registry = record r.0.registry { apps = apps.0 } }) apps.1
        (AreTracked-mono r.0.registry.apps apps.0 r.0.registry.window_map
          (λ k i. close_each-tracked k r.0.registry.apps r.1 i) (thaw_all-HasWindows host e t h))

  ipc_thaw_all-HasWindows :
      (e : Engine) (t : Trace) → HasWindows e → HasWindows (ipc_thaw_all host e t).0.0
  unfolding ipc_thaw_all release_recorded_processes
  ipc_thaw_all-HasWindows e t h =
      let r = release_recorded_processes host e t in
      AreTracked-mono e.registry.apps (park_each host e.registry.apps r.1).0 e.registry.window_map
        (λ k i. park_each-tracked k e.registry.apps r.1 i) h

  ipc_freeze_armed-HasWindows :
      (words : Words) (target : Target) (allowed : List ProcessHandle) (e : Engine)
      (answer : Option JournalError) (t : Trace)
      → HasWindows e
      → HasWindows (ipc_freeze_armed host words target allowed e answer t).0.0
  unfolding ipc_freeze_armed ipc_freeze_recorded
  ipc_freeze_armed-HasWindows words target allowed e none t h = h
  ipc_freeze_armed-HasWindows words target allowed e (some x) t h = h

  ipc_freeze_split-HasWindows :
      (words : Words) (target : Target) (split : List ProcessHandle × List (ℕ × ProtectionReason))
      (e : Engine) (t : Trace)
      → HasWindows e
      → HasWindows (ipc_freeze_split host words target split e t).0.0
  unfolding ipc_freeze_split ipc_freeze_allowed
  ipc_freeze_split-HasWindows words target split e t h =
      let a = arm host e.journal (journal_key_for target) signal none split.0 t in
      elim (Bool-cases (is_empty split.0)) [
        | inl n ↦ rw n h
        | inr n ↦ rw n (
            ipc_freeze_armed-HasWindows words target split.0 (record e { journal = a.0.0 }) a.0.1
              a.1 h)
      ]

  ipc_freeze_resolved-HasWindows :
      (words : Words) (target : Target) (r : Resolved) (e : Engine) (t : Trace)
      → HasWindows e
      → HasWindows (ipc_freeze_resolved host words target r e t).0.0
  unfolding ipc_freeze_resolved
  ipc_freeze_resolved-HasWindows words target (err message) e t h = h
  ipc_freeze_resolved-HasWindows words target (ok procs) e t h =
      ipc_freeze_split-HasWindows words target _ e t h

  thaw_tracked-HasWindows :
      (target : Target) (settled : List ℕ) (e : Engine) (t : Trace)
      → HasWindows e
      → HasWindows (thaw_tracked host target settled e t).0
  unfolding thaw_tracked
  thaw_tracked-HasWindows (pid n) settled e t h = h
  thaw_tracked-HasWindows (app name) settled e t h =
      let id = Identity.new name in
      let r = retire host e.journal id.key settled t in
      set_entry_state-HasWindows host id background (record e { journal = r.0.0 }) r.1 h

  ipc_thaw_resolved-HasWindows :
      (target : Target) (r : Resolved) (e : Engine) (t : Trace)
      → HasWindows e
      → HasWindows (ipc_thaw_resolved host target r e t).0.0
  unfolding ipc_thaw_resolved
  ipc_thaw_resolved-HasWindows target (err message) e t h = h
  ipc_thaw_resolved-HasWindows target (ok procs) e t h =
      let report = thaw_app host e.cgroup_caps none procs t in
      let r = retire host e.journal (journal_key_for target) (settled_pids report.0) report.1 in
      thaw_tracked-HasWindows target (settled_pids report.0) (record e { journal = r.0.0 }) r.1 h

  ipc_set_power_override-HasWindows :
      (source : Option PowerSource) (e : Engine) (t : Trace)
      → HasWindows e
      → HasWindows (ipc_set_power_override host source e t).0.0
  unfolding ipc_set_power_override
  ipc_set_power_override-HasWindows (some unknown) e t h = h
  ipc_set_power_override-HasWindows (some battery) e t h =
      handle_set_power_override-HasWindows host (some battery) e t h
  ipc_set_power_override-HasWindows (some ac) e t h =
      handle_set_power_override-HasWindows host (some ac) e t h
  ipc_set_power_override-HasWindows none e t h =
      handle_set_power_override-HasWindows host none e t h

  module _ (words : Words) (from_yaml : Text → Option Config) where
    ipc_reload_config-HasWindows :
        (read : ConfigRead) (e : Engine) (t : Trace)
        → HasWindows e
        → HasWindows (ipc_reload_config host words read e t).0.0
    unfolding ipc_reload_config
    ipc_reload_config-HasWindows (Loader.err x) e t h = h
    ipc_reload_config-HasWindows (Loader.ok config) e t h = elim (Option-cases (host.try_send t)) [
      | inl n ↦ rw (n, ipc_reload_config) h
      | inr (x, s) ↦ rw (s, ipc_reload_config) h
    ]

    ipc_shutdown-HasWindows :
        (e : Engine) (t : Trace) → HasWindows e → HasWindows (ipc_shutdown host e t).0.0
    unfolding ipc_shutdown
    ipc_shutdown-HasWindows e t h = elim (Option-cases (host.try_send t)) [
      | inl n ↦ rw (n, ipc_shutdown) h
      | inr (x, s) ↦ rw (s, ipc_shutdown) h
    ]

    pub handle_ipc-HasWindows :
        (request : IpcRequest) (e : Engine) (t : Trace)
        → HasWindows e
        → HasWindows (handle_ipc host words from_yaml request e t).0.0
    unfolding handle_ipc ipc_freeze ipc_thaw
    handle_ipc-HasWindows list e t h = h
    handle_ipc-HasWindows status e t h = h
    handle_ipc-HasWindows stats e t h = h
    handle_ipc-HasWindows (freeze target) e t h =
        ipc_freeze_resolved-HasWindows words target (resolve_target host e t target) e t h
    handle_ipc-HasWindows (thaw target) e t h =
        ipc_thaw_resolved-HasWindows target (resolve_target host e t target) e t h
    handle_ipc-HasWindows thaw_all e t h = ipc_thaw_all-HasWindows e t h
    handle_ipc-HasWindows reload_config e t h =
        ipc_reload_config-HasWindows (load_config from_yaml host t e.config_path) e t h
    handle_ipc-HasWindows (set_power_override source) e t h =
        ipc_set_power_override-HasWindows source e t h
    handle_ipc-HasWindows shutdown e t h = ipc_shutdown-HasWindows e t h
