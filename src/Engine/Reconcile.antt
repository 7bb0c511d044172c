-- ===== src/Engine/Reconcile.antt =====
-- The periodic sweep: crates/app-powerd-core/src/engine/reconcile.rs.
use app_powerd.Prelude.{
  ℕ, ◌-◌, List, [], ◌∷◌, map, Bool, true, false, not, ◌&&◌, Option, none, some, Text, ltb, leb, get,
  remove, is_empty, length, retain, if◌then◌else◌,
}
use app_powerd.Host.{
  Host, Io, Trace, ◌>>=◌, ◌>>◌, pure, ProcessHandle, sweep_spawned, bus_sweep_spawned, count,
  reconcile_ticks_total, pids_reaped_total, apps_removed_stale_total, journal_stale_dropped_total,
}
use app_powerd.Desktop.Identity.{AppId, app_eq}
use app_powerd.System.Process.{is_alive}
use app_powerd.System.Cgroup.{remove_cgroup}
use app_powerd.State.ProcessSet.{remove_pids, is_defunct}
use app_powerd.State.AppEntry
use app_powerd.State.AppEntry.{AppEntry, elapsed}
use app_powerd.State.Registry
use app_powerd.State.Journal.{retire}
use app_powerd.State.Journal.Persist.{FreezeJournal}
use app_powerd.Engine.RateLimit.{forget_app}
use app_powerd.Engine.{Engine, modify_entry, with_entry}

-- What a sweep finds dead, by application and by key of the journal.
abbrev pub Reaped : Type 0
Reaped = List (AppId × List ProcessHandle)

abbrev pub JournalDead : Type 0
JournalDead = List (Text × List ℕ)

unfoldable pub app_snapshot : Engine → Reaped
app_snapshot e = map (λ p. (p.0, p.1.roots.procs)) e.registry.apps

unfoldable pub journal_snapshot : Engine → List (Text × List ProcessHandle)
journal_snapshot e = map (λ p. (p.1.app_id, p.1.procs)) e.journal.entries

-- Due when never done, or done an interval ago.
unfoldable pub refresh_due : Host → Trace → Engine → Bool
refresh_due host t e = elim e.last_dbus_refresh [
  | none ↦ true
  | some last ↦ leb e.dbus_refresh_interval (elapsed host t last)
]

module _ (host : Host) where
  unfoldable pub maybe_refresh_protection : Engine → Io Engine
  unfolding refresh_due
  maybe_refresh_protection e t =
      if not e.dbus_check
      then (e, t)
      else if refresh_due host t e
      then (record e { last_dbus_refresh = some (host.now t) }, bus_sweep_spawned ∷ t)
      else (e, t)

  unfoldable pub start_sweep : Engine → Io Engine
  unfolding app_snapshot journal_snapshot
  start_sweep e t = if is_empty (app_snapshot e) && is_empty (journal_snapshot e) then (e, t) else (
    record e { reconcile_in_flight = true },
    sweep_spawned (app_snapshot e) (journal_snapshot e) ∷ t,
  )

  unfoldable pub handle_reconcile : Engine → Io Engine
  unfolding maybe_refresh_protection start_sweep
  handle_reconcile e = do
    count reconcile_ticks_total 1
    e' ← if e.reconcile_in_flight then pure e else start_sweep e
    maybe_refresh_protection e'

-- The task: what of the snapshots is dead. Lists left empty go.
module _ (host : Host) (t : Trace) where
  unfoldable pub dead_apps : Reaped → Reaped
  unfolding retain
  dead_apps snapshot =
      retain (λ p. not (is_empty p.1))
        (map (λ p. (p.0, retain (λ h. not (is_alive host t h)) p.1)) snapshot)

  unfoldable pub dead_journal : List (Text × List ProcessHandle) → JournalDead
  unfolding retain
  dead_journal snapshot =
      retain (λ p. not (is_empty p.1))
        (map (λ p. (p.0, map (λ h. h.pid) (retain (λ h. not (is_alive host t h)) p.1))) snapshot)

-- The journal's entries stay: descendants may still be stopped.
module _ (host : Host) where
  unfoldable pub drop_group : Option Text → Io (Unit {0})
  drop_group none t = (tt, t)
  drop_group (some path) t = (tt, (remove_cgroup host path t).1)

  unfoldable pub retire_entry : AppId → AppEntry → Engine → Io Engine
  unfolding with_entry drop_group
  retire_entry app_id x e = do
    e1 ← with_entry app_id AppEntry.cancel_all_timers e
    drop_group x.cgroup_path
    pure (record e1 {
      registry = (Registry.remove_app app_id e1.registry).0;
      suspend_failures = remove app_id e1.suspend_failures;
      rate_limiter = forget_app app_id.display e1.rate_limiter;
    })

  unfoldable pub retire_defunct_app : AppId → AppEntry → Engine → Io Engine
  unfolding retire_entry
  retire_defunct_app app_id x e = do count apps_removed_stale_total 1; retire_entry app_id x e

  unfoldable pub retire_each : JournalDead → FreezeJournal → Io FreezeJournal
  retire_each [] j t = (j, t)
  retire_each ((key, dead) ∷ rest) j t =
      let r = retire host j key dead t in retire_each rest r.0.0 r.1

  unfoldable pub sweep_journal : JournalDead → Engine → Io Engine
  unfolding retire_each
  sweep_journal dead e t =
      let swept = retire_each dead e.journal t in
      let e' = record e { journal = swept.0 } in
      let dropped = length e.journal.entries - length swept.0.entries in
      if is_empty dead
      then (e, t)
      else if ltb 0 dropped
      then (do count journal_stale_dropped_total dropped; pure e') swept.1
      else (e', swept.1)

  -- One application of the result: `x` is its entry.
  unfoldable pub reap_entry : AppId → List ProcessHandle → AppEntry → Engine → Io Engine
  unfolding retire_defunct_app
  reap_entry app_id dead x e =
      let pids = map (λ h. h.pid) dead in
      let x' = record x { roots = remove_pids pids x.roots } in
      do
        count pids_reaped_total (length pids)
        let e' = modify_entry app_id (λ _. x') e
        if is_defunct x'.roots then retire_defunct_app app_id x' e' else pure e'

  unfoldable pub reap_one : AppId → List ProcessHandle → Engine → Io Engine
  unfolding reap_entry
  reap_one app_id dead e t = elim (get app_id e.registry.apps) [
    | none ↦ (e, t)
    | some x ↦ reap_entry app_id dead x e t
  ]

  unfoldable pub reap_each : Reaped → Engine → Io Engine
  unfolding reap_one
  reap_each [] e t = (e, t)
  reap_each ((app_id, dead) ∷ rest) e t = let r = reap_one app_id dead e t in reap_each rest r.0 r.1

  unfoldable pub apply_reconcile_result : Reaped → JournalDead → Engine → Io Engine
  unfolding sweep_journal reap_each
  apply_reconcile_result reaped journal_dead e = do
    e' ← sweep_journal journal_dead (record e { reconcile_in_flight = false })
    reap_each reaped e'
