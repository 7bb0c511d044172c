-- ===== src/Engine/Quiet.antt =====
-- The effects of the bookkeeping of crates/app-powerd-core/src/engine/transitions.rs.
use app_powerd.Prelude.{
  ℕ, suc, inl, inr, ◌∷◌, Option, none, some, codes, length, first, leb, insert, is_empty, get,
  unwrap_or, Bool-cases, Option-cases,
}
use app_powerd.Host.{
  Host, Trace, suspend_timer_fired, maintenance_wake, spawned, aborted, counted,
  warns_suppressed_total, pids_reaped_total,
}
use app_powerd.Host.Log.{none_added, Extends-trans}
use app_powerd.Host.Quiet.{Quietly, one_quiet}
use app_powerd.Desktop.Identity.{AppId, app_eq}
use app_powerd.System.Apply.{ApplyReport, had_real_error}
use app_powerd.State.AppEntry
use app_powerd.State.AppEntry.{AppEntry, abort_timer}
use app_powerd.Engine.RateLimit
use app_powerd.Engine.RateLimit.{LogKey, for_pid, RateLimiter, evict, seen_recently}
use app_powerd.Engine.{Engine, with_entry, max_suspend_attempts}
use app_powerd.Engine.Transitions.{
  limited_warning, absorb_gone, schedule_suspend, start_maintenance_timer, warn_first_failure,
  on_suspend_failed, retry_delay,
}

pub abort_timer-Quietly : (o : Option ℕ) (t : Trace) → Quietly t (abort_timer o t).1
unfolding abort_timer
abort_timer-Quietly none t = none_added
abort_timer-Quietly (some h) t = one_quiet (aborted h) t tt

pub with_entry-Quietly :
    (app_id : AppId) (f : AppEntry → Trace → AppEntry × Trace) (e : Engine) (t : Trace)
    → ((x : AppEntry) → Quietly t (f x t).1)
    → Quietly t (with_entry app_id f e t).1
unfolding with_entry
with_entry-Quietly app_id f e t q = elim (Option-cases (get app_id e.registry.apps)) [
  | inl n ↦ rw (n, with_entry) none_added
  | inr (x, s) ↦ rw (s, with_entry) (q x)
]

pub cancel-Quietly :
    (app_id : AppId) (e : Engine) (t : Trace)
    → Quietly t (with_entry app_id AppEntry.cancel_suspend_timer e t).1
unfolding AppEntry.cancel_suspend_timer
cancel-Quietly app_id e t =
    with_entry-Quietly app_id AppEntry.cancel_suspend_timer e t
      (λ x. abort_timer-Quietly x.suspend_timer t)

pub schedule_suspend-Quietly :
    (app_id : AppId) (delay : ℕ) (e : Engine) (t : Trace)
    → Quietly t (schedule_suspend app_id delay e t).1
unfolding schedule_suspend AppEntry.set_suspend_timer AppEntry.cancel_suspend_timer
schedule_suspend-Quietly app_id delay e t =
    let t1 : Trace = spawned delay (suspend_timer_fired app_id) ∷ t in
    Extends-trans (one_quiet (spawned delay (suspend_timer_fired app_id)) t tt) (
      with_entry-Quietly app_id (AppEntry.set_suspend_timer (length t)) e t1
        (λ x. abort_timer-Quietly x.suspend_timer t1))

pub absorb_gone-Quietly :
    (app_id : AppId) (report : ApplyReport) (e : Engine) (t : Trace)
    → Quietly t (absorb_gone app_id report e t).1
unfolding absorb_gone
absorb_gone-Quietly app_id report e t = elim (Bool-cases (is_empty report.gone)) [
  | inl n ↦ rw n none_added
  | inr n ↦ rw n (one_quiet (counted pids_reaped_total (length report.gone)) t tt)
]

module _ (host : Host) where
  allow-Quietly :
      (key : LogKey) (l : RateLimiter) (t : Trace) → Quietly t (RateLimit.allow host key l t).1
  unfolding RateLimit.allow
  allow-Quietly key l t =
      let now = host.now t in
      elim (Bool-cases (seen_recently now key (evict now l))) [
        | inl s ↦ rw s (one_quiet (counted warns_suppressed_total 1) t tt)
        | inr s ↦ rw s none_added
      ]

  pub limited_warning-Quietly :
      (key : LogKey) (e : Engine) (t : Trace) → Quietly t (limited_warning host key e t).1
  unfolding limited_warning
  limited_warning-Quietly key e t = allow-Quietly key e.rate_limiter t

  pub warn_first_failure-Quietly :
      (app_id : AppId) (report : ApplyReport) (e : Engine) (t : Trace)
      → Quietly t (warn_first_failure host app_id report e t).1
  unfolding warn_first_failure
  warn_first_failure-Quietly app_id report e t = elim (Option-cases (first report.failed)) [
    | inl n ↦ rw (n, warn_first_failure) none_added
    | inr ((pid, x), s) ↦
        rw (s, warn_first_failure)
          (limited_warning-Quietly (for_pid app_id.display pid (codes "suspend-failed")) e t)
  ]

  pub on_suspend_failed-Quietly :
      (app_id : AppId) (report : ApplyReport) (e : Engine) (t : Trace)
      → Quietly t (on_suspend_failed host app_id report e t).1
  unfolding on_suspend_failed
  on_suspend_failed-Quietly app_id report e t = elim (Bool-cases (had_real_error report)) [
    | inr n ↦ rw n none_added
    | inl y ↦
        let attempts = suc (unwrap_or (get app_id e.suspend_failures) 0) in
        let e1 = record e { suspend_failures = insert app_id attempts e.suspend_failures } in
        let w = warn_first_failure host app_id report e1 t in
        let warned = warn_first_failure-Quietly app_id report e1 t in
        elim (Bool-cases (leb max_suspend_attempts attempts)) [
          | inl g ↦ rw (y, g) (Extends-trans warned (cancel-Quietly app_id w.0 w.1))
          | inr g ↦
              rw (y, g)
                (Extends-trans warned
                  (schedule_suspend-Quietly app_id (retry_delay attempts) w.0 w.1))
        ]
  ]

pub start_maintenance_timer-Quietly :
    (app_id : AppId) (e : Engine) (t : Trace) → Quietly t (start_maintenance_timer app_id e t).1
unfolding start_maintenance_timer AppEntry.set_maintenance_timer AppEntry.cancel_maintenance_timer
start_maintenance_timer-Quietly app_id e t = elim (Option-cases (get app_id e.registry.apps)) [
  | inl n ↦ rw (n, start_maintenance_timer) none_added
  | inr (x, s) ↦
      let wake = spawned x.policy.maintenance_resume.interval (maintenance_wake app_id) in
      let t1 : Trace = wake ∷ t in
      rw (s, start_maintenance_timer)
        (Extends-trans (one_quiet wake t tt) (
          with_entry-Quietly app_id (AppEntry.set_maintenance_timer (length t)) e t1
            (λ y. abort_timer-Quietly y.maintenance_timer t1)))
]
