-- ===== src/Engine/Release.antt =====
-- The journal's record when an application is thawed: `restore_frozen` of
-- crates/app-powerd-core/src/engine/transitions.rs.
use app_powerd.Prelude.{
  ℕ, ◌≡◌, refl, sym, ◌↔◌, ◌⊎◌, inl, inr, List, [], ◌∷◌, map, false, Option, none, Text, codes, In,
  In-append, is_empty, Bool-cases, text_eq,
}
use app_powerd.Host.{
  Host, Trace, ProcessHandle, sigcont, kill_called, counted, apps_thawed_total, time_in_frozen_ms,
}
use app_powerd.Host.Log.{none_added, added, Extends-trans, Extends-mono}
use app_powerd.Host.Quiet.{Quietly}
use app_powerd.Desktop.Identity.{AppId}
use app_powerd.System.Apply.{ApplyReport, settled_pids, had_real_error}
use app_powerd.System.Freeze.{group_thaw, thaw_app}
use app_powerd.System.Freeze.Reports.{
  Later, IsGone, IsJustified, IsJustified-Later, apply_signal-IsJustified,
}
use app_powerd.State.Journal.{recorded, retire}
use app_powerd.State.Journal.Ledger.{retire-recorded}
use app_powerd.State.Journal.Quiet.{retire-Quietly}
use app_powerd.Engine.RateLimit.{for_app}
use app_powerd.Engine.{Engine}
use app_powerd.Engine.Transitions.{
  warn_partial_failure, absorb_gone, limited_warning, restore_frozen,
}
use app_powerd.Engine.Quiet.{limited_warning-Quietly, absorb_gone-Quietly}

pub absorb_gone-journal :
    (app_id : AppId) (report : ApplyReport) (e : Engine) (t : Trace)
    → (absorb_gone app_id report e t).0.journal ≡ e.journal
unfolding absorb_gone
absorb_gone-journal app_id report e t = elim (Bool-cases (is_empty report.gone)) [
  | inl n ↦ rw n
  | inr n ↦ rw n
]

In-map_pid :
    (pid : ℕ) (hs : List ProcessHandle)
    → In pid (map (λ (h : ProcessHandle). h.pid) hs)
    → (h : ProcessHandle) × (In h hs × (h.pid ≡ pid))
In-map_pid pid [] i = absurd i
In-map_pid pid (h ∷ hs) (inl here) = (h, (inl refl, sym here))
In-map_pid pid (h ∷ hs) (inr i) = let r = In-map_pid pid hs i in (r.0, (inr r.1.0, r.1.1))

pub Later-of-Quietly : (a b : Trace) → Quietly a b → Later a b
Later-of-Quietly a b = Extends-mono (λ x t q. tt)

module _ (host : Host) where
  warn_partial_failure-journal :
      (app_id : AppId) (kind : Text) (report : ApplyReport) (e : Engine) (t : Trace)
      → (warn_partial_failure host app_id kind report e t).0.journal ≡ e.journal
  unfolding warn_partial_failure limited_warning
  warn_partial_failure-journal app_id kind report e t = elim (Bool-cases (had_real_error report)) [
    | inl n ↦ rw n
    | inr n ↦ rw n
  ]

  warn_partial_failure-Quietly :
      (app_id : AppId) (kind : Text) (report : ApplyReport) (e : Engine) (t : Trace)
      → Quietly t (warn_partial_failure host app_id kind report e t).1
  unfolding warn_partial_failure
  warn_partial_failure-Quietly app_id kind report e t = elim (Bool-cases (had_real_error report)) [
    | inl n ↦ rw n (limited_warning-Quietly host (for_app app_id.display kind) e t)
    | inr n ↦ rw n none_added
  ]

  -- SIGCONT reached the PID, or the process was found dead.
  abbrev pub IsReleased : List ProcessHandle → Trace → ℕ → Type 0
  IsReleased procs t pid = In (kill_called pid sigcont none) t ⊎ IsGone host sigcont procs t pid

  settled-IsReleased :
      (procs : List ProcessHandle) (t : Trace) (r : ApplyReport) (pid : ℕ)
      → IsJustified host sigcont procs t r
      → In pid (settled_pids r)
      → IsReleased procs t pid
  unfolding settled_pids
  settled-IsReleased procs t r pid j i =
      elim (In-append pid (map (λ (h : ProcessHandle). h.pid) r.applied) r.gone i) [
        | inl m ↦ let h = In-map_pid pid r.applied m in inl (rw (← h.1.1) (j.0 h.0 h.1.0).1)
        | inr g ↦ inr (j.1 pid g)
      ]

  module _ (app_id : AppId) (cgroup : Option Text) (procs : List ProcessHandle) (ms : ℕ)
      (e : Engine) (t : Trace) where
    abbrev pub thawed : ApplyReport × Trace
    thawed = thaw_app host e.cgroup_caps cgroup procs t

    abbrev warned : Engine × Trace
    warned = warn_partial_failure host app_id (codes "thaw-failed") thawed.0 e thawed.1

    thawed-IsJustified : IsJustified host sigcont procs thawed.1 thawed.0
    unfolding thaw_app
    thawed-IsJustified =
        (apply_signal-IsJustified host sigcont procs (group_thaw host e.cgroup_caps cgroup t).1).0

    pub thawed-Later : Later thawed.1 (restore_frozen host app_id cgroup procs ms e t).1
    unfolding restore_frozen
    thawed-Later =
        let done = settled_pids thawed.0 in
        let r = retire host warned.0.journal app_id.key done warned.1 in
        let e2 = record warned.0 { journal = r.0.0 } in
        let a = absorb_gone app_id thawed.0 e2 r.1 in
        let quiet =
          Extends-trans
            (warn_partial_failure-Quietly app_id (codes "thaw-failed") thawed.0 e thawed.1)
            (Extends-trans (retire-Quietly host warned.0.journal app_id.key done warned.1)
              (absorb_gone-Quietly app_id thawed.0 e2 r.1)) in
        let c1 = counted apps_thawed_total 1 in
        let c2 = counted time_in_frozen_ms ms in
        added c2 tt (added c1 tt (Later-of-Quietly thawed.1 a.1 quiet))

    -- Thawing an application takes exactly the settled processes, those that the report calls
    -- applied or gone, off its record in the journal: each has a PID that got SIGCONT with success,
    -- or was found dead. All others stay recorded, and so do the records of other applications.
    pub restore_frozen-recorded :
        (other : Text) (h : ProcessHandle)
        → text_eq app_id.key other ≡ false
        → let r = restore_frozen host app_id cgroup procs ms e t in
          (In h (recorded app_id.key r.0.journal.entries)
            ↔ (In h (recorded app_id.key e.journal.entries) × (¬ In h.pid (settled_pids thawed.0))))
          × ((In h.pid (settled_pids thawed.0) → IsReleased procs r.1 h.pid)
              × (recorded other r.0.journal.entries ≡ recorded other e.journal.entries))
    unfolding restore_frozen
    restore_frozen-recorded other h d =
        let done = settled_pids thawed.0 in
        let r = retire host warned.0.journal app_id.key done warned.1 in
        let e2 = record warned.0 { journal = r.0.0 } in
        let kept = retire-recorded host warned.0.journal app_id.key other d done warned.1 h in
        let same = warn_partial_failure-journal app_id (codes "thaw-failed") thawed.0 e thawed.1 in
        let left = absorb_gone-journal app_id thawed.0 e2 r.1 in
        let released =
          IsJustified-Later host sigcont procs thawed.1
            (restore_frozen host app_id cgroup procs ms e t).1 thawed.0 thawed-Later
            thawed-IsJustified in
        (
          rw (left, same) (rw same at kept.0),
          (
            λ i. settled-IsReleased procs _ thawed.0 h.pid released i,
            rw (left, same) (rw same at kept.1),
          ),
        )
