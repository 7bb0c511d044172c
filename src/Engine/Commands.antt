-- ===== src/Engine/Commands.antt =====
-- Requests of the command line, carried out: crates/app-powerd-core/src/engine/ipc_handler.rs.
use app_powerd.Prelude.{
  ℕ, ◌/◌, List, [], ◌∷◌, ◌++◌, map, ◌&&◌, Option, none, some, Text, codes, decimal, HashMap, retain,
  length, first, unwrap_or, is_empty, is_some, ◌==◌, ltb, option_map, if◌then◌else◌,
}
use app_powerd.Host.{
  Host, Io, Trace, ◌>>=◌, ◌>>◌, pure, ProcessHandle, protection_blocks_total, signal, count,
}
use app_powerd.Desktop.Identity
use app_powerd.Desktop.Identity.{AppId, app_eq}
use app_powerd.System.Process.{open_process, is_alive, is_owned}
use app_powerd.System.Power.{PowerSource, unknown, source_text}
use app_powerd.System.Cgroup.{CgroupCapability, systemd_transient, direct_write, signal_only}
use app_powerd.System.Protection.{ProtectionReason, partition, reason_text}
use app_powerd.System.Apply.{ApplyReport, nothing_applied, settled_pids}
use app_powerd.System.Freeze.{freeze_app, thaw_app}
use app_powerd.Config.{Config}
use app_powerd.Config.Loader
use app_powerd.Config.Loader.{ConfigError, ConfigRead, load_config}
use app_powerd.State.Machine.{background, is_suspended}
use app_powerd.State.ProcessSet.{pids}
use app_powerd.State.AppEntry
use app_powerd.State.AppEntry.{AppEntry, set_state, elapsed}
use app_powerd.State.Journal.{arm, commit, retire}
use app_powerd.State.Journal.Persist.{JournalError}
use app_powerd.Metrics.{snapshot}
use app_powerd.Ipc.{
  Target, pid, app, target_text, IpcRequest, list, status, stats, thaw_all, reload_config, shutdown,
  freeze, thaw, set_power_override, AppInfo, StatusInfo, protocol_version, IpcResponse, app_list,
  status_info, stats_info,
}
use app_powerd.Engine.{
  Engine, config_reloaded, shutdown_requested, should_manage, recorded_procs_for,
}
use app_powerd.Engine.Transitions.{set_entry_state}
use app_powerd.Engine.Focus.{protection_verdict}
use app_powerd.Engine.Power.{handle_set_power_override}
use app_powerd.Engine.Shutdown.{release_recorded_processes}

-- What the errors say: their last part comes from the library that failed.
pub record Words : Type 0 where
  pub journal_error : JournalError → Text
  pub config_error : ConfigError → Text

abbrev tier_text : CgroupCapability → Text
tier_text systemd_transient = codes "SystemdTransient"
tier_text direct_write = codes "DirectWrite"
tier_text signal_only = codes "SignalOnly"

pub data Resolved : Type 0 where
  ok : List ProcessHandle → Resolved
  err : Text → Resolved

unfoldable pub journal_key_for : Target → Text
journal_key_for (pid n) = codes "ipc:pid:" ++ decimal n
journal_key_for (app name) = (Identity.new name).key

module _ (host : Host) where
  unfoldable pub validate_ipc_pid : Trace → ℕ → Resolved
  validate_ipc_pid t n =
      if n == 0 then err (codes "pid 0 is not a valid target") else elim (open_process host t n) [
        | none ↦ err (codes "no process with pid " ++ decimal n)
        | some handle ↦
            if is_owned host t handle
            then ok (handle ∷ [])
            else err (codes "pid " ++ decimal n ++ codes " is not owned by current user")
      ]

  unfoldable pub resolve_target : Engine → Trace → Target → Resolved
  unfolding validate_ipc_pid
  resolve_target e t (pid n) = validate_ipc_pid t n
  resolve_target e t (app name) =
      let procs = recorded_procs_for (Identity.new name) e in
      if is_empty procs
      then err (codes "no tracked application named '" ++ name ++ codes "'")
      else ok (retain (λ handle. is_alive host t handle && is_owned host t handle) procs)

  abbrev pub own_pids : List ProcessHandle → List ℕ
  own_pids = map (λ (h : ProcessHandle). h.pid)

  abbrev frozen_response : Target → ApplyReport → IpcResponse
  frozen_response target report =
      if nothing_applied report
      then IpcResponse.error (
          codes "freeze failed for "
          ++ target_text target
          ++ codes ": no process could be suspended")
      else IpcResponse.ok (
          codes "froze "
          ++ decimal (length report.applied)
          ++ codes " process(es) for "
          ++ target_text target)

  -- The journal has the processes: now they are stopped.
  unfoldable pub ipc_freeze_recorded :
      Target → List ProcessHandle → Engine → Io (Engine × IpcResponse)
  ipc_freeze_recorded target allowed e = do
    report ← freeze_app host e.cgroup_caps none allowed
    committed ← commit host e.journal (journal_key_for target) allowed report.applied
    pure (record e { journal = committed.0 }, frozen_response target report)

  unfoldable pub ipc_freeze_armed :
      Words → Target → List ProcessHandle → Engine → Option JournalError → Io (Engine × IpcResponse)
  unfolding ipc_freeze_recorded
  ipc_freeze_armed words target allowed e none = ipc_freeze_recorded target allowed e
  ipc_freeze_armed words target allowed e (some x) = pure (
    e,
    IpcResponse.error (
        codes "refusing to freeze "
        ++ target_text target
        ++ codes ": cannot record it in the freeze journal ("
        ++ words.journal_error x
        ++ codes "); suspended processes that are not recorded cannot be recovered"),
  )

  unfoldable pub ipc_freeze_allowed :
      Words → Target → List ProcessHandle → Engine → Io (Engine × IpcResponse)
  unfolding ipc_freeze_armed
  ipc_freeze_allowed words target allowed e = do
    armed ← arm host e.journal (journal_key_for target) signal none allowed
    ipc_freeze_armed words target allowed (record e { journal = armed.0 }) armed.1

  abbrev refusal : Target → List (ℕ × ProtectionReason) → IpcResponse
  refusal target protected = IpcResponse.error (
      codes "refusing to freeze "
      ++ target_text target
      ++ codes ": "
      ++ unwrap_or (option_map (λ (p : ℕ × ProtectionReason). reason_text p.1) (first protected))
          (codes "no live processes"))

  unfoldable pub ipc_freeze_split :
      Words
      → Target
      → List ProcessHandle × List (ℕ × ProtectionReason)
      → Engine
      → Io (Engine × IpcResponse)
  unfolding ipc_freeze_allowed
  ipc_freeze_split words target split e =
      if is_empty split.0
      then (do count protection_blocks_total 1; pure (e, refusal target split.1))
      else ipc_freeze_allowed words target split.0 e

  -- The processes named count as the target's own: only the built-in deny-list applies.
  unfoldable pub ipc_freeze_resolved :
      Words → Target → Resolved → Engine → Io (Engine × IpcResponse)
  unfolding ipc_freeze_split
  ipc_freeze_resolved words target (err message) e t = ((e, IpcResponse.error message), t)
  ipc_freeze_resolved words target (ok procs) e t =
      ipc_freeze_split words target (partition host t e.protection procs (own_pids procs)) e t

  unfoldable pub ipc_freeze : Words → Target → Engine → Io (Engine × IpcResponse)
  unfolding ipc_freeze_resolved resolve_target
  ipc_freeze words target e t = ipc_freeze_resolved words target (resolve_target e t target) e t

  abbrev thawed_response : Target → ApplyReport → IpcResponse
  thawed_response target report =
      if nothing_applied report
      then IpcResponse.error
          (codes "thaw failed for " ++ target_text target ++ codes ": no process could be resumed")
      else IpcResponse.ok (
          codes "thawed "
          ++ decimal (length report.applied)
          ++ codes " process(es) for "
          ++ target_text target)

  -- What only an application has: a second retirement under its key, and a state.
  unfoldable pub thaw_tracked : Target → List ℕ → Engine → Io Engine
  unfolding set_entry_state
  thaw_tracked (pid n) settled e = pure e
  thaw_tracked (app name) settled e = do
    let app_id = Identity.new name
    retired ← retire host e.journal app_id.key settled
    set_entry_state host app_id background (record e { journal = retired.0 })

  unfoldable pub ipc_thaw_resolved : Target → Resolved → Engine → Io (Engine × IpcResponse)
  unfolding thaw_tracked
  ipc_thaw_resolved target (err message) e = pure (e, IpcResponse.error message)
  ipc_thaw_resolved target (ok procs) e = do
    report ← thaw_app host e.cgroup_caps none procs
    retired ← retire host e.journal (journal_key_for target) (settled_pids report)
    e' ← thaw_tracked target (settled_pids report) (record e { journal = retired.0 })
    pure (e', thawed_response target report)

  unfoldable pub ipc_thaw : Target → Engine → Io (Engine × IpcResponse)
  unfolding ipc_thaw_resolved resolve_target
  ipc_thaw target e t = ipc_thaw_resolved target (resolve_target e t target) e t

  unfoldable pub park_entry : AppEntry → Io AppEntry
  park_entry x t =
      if is_suspended x.state
      then AppEntry.cancel_all_timers (set_state host t background x) t
      else (x, t)

  unfoldable pub park_each : HashMap AppId AppEntry → Io (HashMap AppId AppEntry)
  unfolding park_entry
  park_each [] t = ([], t)
  park_each ((id, x) ∷ rest) t =
      let r = park_entry x t in let s = park_each rest r.1 in ((id, r.0) ∷ s.0, s.1)

  abbrev released_response : ℕ → ℕ → IpcResponse
  released_response released stuck =
      if ltb 0 stuck
      then IpcResponse.error (
          codes "released "
          ++ decimal released
          ++ codes " process(es), but "
          ++ decimal stuck
          ++ codes " could not be resumed and remain recorded in the journal")
      else IpcResponse.ok (codes "released " ++ decimal released ++ codes " process(es)")

  unfoldable pub ipc_thaw_all : Engine → Io (Engine × IpcResponse)
  unfolding park_each
  ipc_thaw_all e = do
    r ← release_recorded_processes host e
    apps ← park_each r.0.registry.apps
    pure (
      record r.0 { registry = record r.0.registry { apps = apps } },
      released_response r.1.0 r.1.1,
    )

  unfoldable pub app_info : Trace → AppId × AppEntry → AppInfo
  app_info t p = record {
    app_id = p.0.display;
    state = p.1.state;
    pids = pids p.1.roots;
    executable = p.1.window_info.executable;
    wm_class = p.1.window_info.wm_class;
    window_title = p.1.window_info.title;
    profile = p.1.policy.matched_profile;
    rule_id = p.1.policy.matched_rule;
    state_since_secs = elapsed host t p.1.state_since / 1000;
    protected = option_map reason_text (protection_verdict host t p.1.window_info);
  }

  unfoldable pub status_of : Engine → Trace → StatusInfo
  status_of e t = record {
    enabled = e.enabled && should_manage e;
    power_source = e.power_source;
    forced_power_source = e.forced_power_source;
    tracked_apps = length e.registry.apps;
    uptime_secs = elapsed host t e.start_time / 1000;
    cgroup_mode = tier_text e.cgroup_caps.tier;
    cpu_control = e.cgroup_caps.cpu_control;
    protected_apps =
        length (retain (λ p. is_some (protection_verdict host t p.1.window_info)) e.registry.apps);
    protocol_version = protocol_version;
  }

  abbrev override_response : Option PowerSource → IpcResponse
  override_response source = IpcResponse.ok (
      codes "power source override set to "
      ++ unwrap_or (option_map source_text source) (codes "auto"))

  -- "unknown" cannot be forced.
  unfoldable pub ipc_set_power_override : Option PowerSource → Engine → Io (Engine × IpcResponse)
  ipc_set_power_override (some unknown) e =
      pure (e, IpcResponse.error (codes "cannot force power source to 'unknown'"))
  ipc_set_power_override source e = do
    e' ← handle_set_power_override host source e
    pure (e', override_response source)

  unfoldable pub ipc_reload_config : Words → ConfigRead → Engine → Io (Engine × IpcResponse)
  ipc_reload_config words (Loader.err x) e t =
      ((e, IpcResponse.error (codes "config reload failed: " ++ words.config_error x)), t)
  ipc_reload_config words (Loader.ok config) e t = elim (host.try_send t) [
    | none ↦ (
      (
        record e { outbox = config_reloaded config ∷ e.outbox },
        IpcResponse.ok (codes "config reload triggered"),
      ),
      t,
    )
    | some x ↦ ((e, IpcResponse.error (codes "failed to queue config reload: " ++ x)), t)
  ]

  -- A full channel is only logged.
  unfoldable pub ipc_shutdown : Engine → Io (Engine × IpcResponse)
  ipc_shutdown e t =
      let response = IpcResponse.ok (codes "shutdown scheduled") in
      elim (host.try_send t) [
        | none ↦ ((record e { outbox = shutdown_requested ∷ e.outbox }, response), t)
        | some x ↦ ((e, response), t)
      ]

  unfoldable pub handle_ipc :
      Words → (Text → Option Config) → IpcRequest → Engine → Io (Engine × IpcResponse)
  unfolding ipc_freeze ipc_thaw ipc_thaw_all app_info status_of ipc_set_power_override
      ipc_reload_config ipc_shutdown
  handle_ipc words from_yaml list e t = ((e, app_list (map (app_info t) e.registry.apps)), t)
  handle_ipc words from_yaml status e t = ((e, status_info (status_of e t)), t)
  handle_ipc words from_yaml stats e t = ((e, stats_info (snapshot t)), t)
  handle_ipc words from_yaml (freeze target) e t = ipc_freeze words target e t
  handle_ipc words from_yaml (thaw target) e t = ipc_thaw target e t
  handle_ipc words from_yaml thaw_all e t = ipc_thaw_all e t
  handle_ipc words from_yaml reload_config e t =
      ipc_reload_config words (load_config from_yaml host t e.config_path) e t
  handle_ipc words from_yaml (set_power_override source) e t = ipc_set_power_override source e t
  handle_ipc words from_yaml shutdown e t = ipc_shutdown e t
