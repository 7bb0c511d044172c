-- ===== src/Engine/Consistent/Sweep.antt =====
-- The registry under the periodic sweep: crates/app-powerd-core/src/engine/reconcile.rs.
use app_powerd.Prelude.{
  ℕ, ◌-◌, inl, inr, List, [], ◌∷◌, map, Bool, true, false, not, ◌&&◌, get, is_empty, length, ltb,
  Bool-cases, Option-cases, if◌then◌else◌,
}
use app_powerd.Host.{Host, Trace, pure, ProcessHandle, counted, reconcile_ticks_total}
use app_powerd.Desktop.Identity.{AppId, app_eq}
use app_powerd.State.ProcessSet.{remove_pids, is_defunct}
use app_powerd.State.AppEntry
use app_powerd.State.AppEntry.{AppEntry}
use app_powerd.State.Registry.Windows.{registry-IsConsistent}
use app_powerd.Engine.{Engine, with_entry}
use app_powerd.Engine.Reconcile.{
  Reaped, JournalDead, app_snapshot, journal_snapshot, refresh_due, maybe_refresh_protection,
  start_sweep, handle_reconcile, retire_entry, retire_defunct_app, retire_each, sweep_journal,
  reap_entry, reap_one, reap_each, apply_reconcile_result,
}
use app_powerd.Engine.Consistent.{HasWindows, modify_entry-HasWindows, with_entry-HasWindows}

module _ (host : Host) where
  maybe_refresh_protection-HasWindows :
      (e : Engine) (t : Trace) → HasWindows e → HasWindows (maybe_refresh_protection host e t).0
  unfolding maybe_refresh_protection
  maybe_refresh_protection-HasWindows e t h = elim (Bool-cases (not e.dbus_check)) [
    | inl c ↦ rw c h
    | inr c ↦ rw c (elim (Bool-cases (refresh_due host t e)) [ inl d ↦ rw d h | inr d ↦ rw d h ])
  ]

  start_sweep-HasWindows :
      (e : Engine) (t : Trace) → HasWindows e → HasWindows (start_sweep host e t).0
  unfolding start_sweep
  start_sweep-HasWindows e t h =
      elim (Bool-cases (is_empty (app_snapshot e) && is_empty (journal_snapshot e))) [
        | inl b ↦ rw b h
        | inr b ↦ rw b h
      ]

  sweep_unless-HasWindows :
      (b : Bool) (e : Engine) (t : Trace)
      → HasWindows e
      → HasWindows ((if b then pure e else start_sweep host e) t).0
  sweep_unless-HasWindows true e t h = h
  sweep_unless-HasWindows false e t h = start_sweep-HasWindows e t h

  pub handle_reconcile-HasWindows :
      (e : Engine) (t : Trace) → HasWindows e → HasWindows (handle_reconcile host e t).0
  unfolding handle_reconcile
  handle_reconcile-HasWindows e t h =
      maybe_refresh_protection-HasWindows _ _
        (sweep_unless-HasWindows e.reconcile_in_flight e (counted reconcile_ticks_total 1 ∷ t) h)

  retire_entry-HasWindows :
      (id : AppId) (x : AppEntry) (e : Engine) (t : Trace)
      → HasWindows e
      → HasWindows (retire_entry host id x e t).0
  unfolding retire_entry
  retire_entry-HasWindows id x e t h =
      let r = with_entry id AppEntry.cancel_all_timers e t in
      (registry-IsConsistent r.0.registry
          (with_entry-HasWindows id AppEntry.cancel_all_timers e t h)).1.1.0
        id

  reap_entry-HasWindows :
      (id : AppId) (dead : List ProcessHandle) (x : AppEntry) (e : Engine) (t : Trace)
      → HasWindows e
      → HasWindows (reap_entry host id dead x e t).0
  unfolding reap_entry retire_defunct_app
  reap_entry-HasWindows id dead x e t h =
      let ps : List ℕ = map (λ h. h.pid) dead in
      let y : AppEntry = record x { roots = remove_pids ps x.roots } in
      let kept = modify_entry-HasWindows id (λ _. y) e h in
      elim (Bool-cases (is_defunct y.roots)) [
        | inl d ↦ rw d (retire_entry-HasWindows id y _ _ kept)
        | inr d ↦ rw d kept
      ]

  reap_one-HasWindows :
      (id : AppId) (dead : List ProcessHandle) (e : Engine) (t : Trace)
      → HasWindows e
      → HasWindows (reap_one host id dead e t).0
  unfolding reap_one
  reap_one-HasWindows id dead e t h = elim (Option-cases (get id e.registry.apps)) [
    | inl n ↦ rw (n, reap_one) h
    | inr (x, s) ↦ rw (s, reap_one) (reap_entry-HasWindows id dead x e t h)
  ]

  reap_each-HasWindows :
      (reaped : Reaped) (e : Engine) (t : Trace)
      → HasWindows e
      → HasWindows (reap_each host reaped e t).0
  unfolding reap_each
  reap_each-HasWindows [] e t h = h
  reap_each-HasWindows ((id, dead) ∷ rest) e t h =
      reap_each-HasWindows rest _ _ (reap_one-HasWindows id dead e t h)

  sweep_journal-HasWindows :
      (dead : JournalDead) (e : Engine) (t : Trace)
      → HasWindows e
      → HasWindows (sweep_journal host dead e t).0
  unfolding sweep_journal
  sweep_journal-HasWindows dead e t h =
      let swept = retire_each host dead e.journal t in
      let dropped = length e.journal.entries - length swept.0.entries in
      elim (Bool-cases (is_empty dead)) [
        | inl b ↦ rw b h
        | inr b ↦ rw b (elim (Bool-cases (ltb 0 dropped)) [ inl d ↦ rw d h | inr d ↦ rw d h ])
      ]

  pub apply_reconcile_result-HasWindows :
      (reaped : Reaped) (dead : JournalDead) (e : Engine) (t : Trace)
      → HasWindows e
      → HasWindows (apply_reconcile_result host reaped dead e t).0
  unfolding apply_reconcile_result
  apply_reconcile_result-HasWindows reaped dead e t h =
      reap_each-HasWindows reaped _ _
        (sweep_journal-HasWindows dead (record e { reconcile_in_flight = false }) t h)
