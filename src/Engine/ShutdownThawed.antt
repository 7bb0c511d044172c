-- ===== src/Engine/ShutdownThawed.antt =====
-- The tracked applications after a shutdown: `shutdown` of
-- crates/app-powerd-core/src/engine/config_power.rs.
use app_powerd.Prelude.{
  ◌≡◌, refl, subst, ◌∙◌, inl, inr, [], ◌∷◌, true, some, HashMap, get, is_empty, option_map,
  Bool-cases,
}
use app_powerd.Host.{Host, Trace}
use app_powerd.Desktop.Identity.{AppId, same_app, app_eq}
use app_powerd.State.Machine.{is_suspended}
use app_powerd.State.AppEntry.{AppEntry, cancel_all_timers}
use app_powerd.Engine.{Engine}
use app_powerd.Engine.States.{state_of}
use app_powerd.Engine.Power.{thaw_all}
use app_powerd.Engine.Thawed.{thaw_all-Thawed}
use app_powerd.Engine.Shutdown.{
  close_entry, close_each, release_recorded_processes, release_journal_remnants, shutdown,
}

module _ (host : Host) where
  close_entry-state : (x : AppEntry) (t : Trace) → (close_entry host x t).0.state ≡ x.state
  unfolding close_entry cancel_all_timers
  close_entry-state x t = refl

  close_each-state :
      (k : AppId) (m : HashMap AppId AppEntry) (t : Trace)
      → option_map (λ x. x.state) (get k (close_each host m t).0)
        ≡ option_map (λ x. x.state) (get k m)
  unfolding close_each get
  close_each-state k [] t = refl
  close_each-state k ((id, x) ∷ m) t = elim (Bool-cases (same_app id k)) [
    | inl here ↦ rw here (rw (close_entry-state x t) refl)
    | inr there ↦ rw there (close_each-state k m (close_entry host x t).1)
  ]

  -- Releasing what is left in the journal touches no application.
  remnants-state_of :
      (k : AppId) (e : Engine) (t : Trace)
      → state_of k (release_journal_remnants host e t).0 ≡ state_of k e
  unfolding release_journal_remnants release_recorded_processes
  remnants-state_of k e t = elim (Bool-cases (is_empty e.journal.entries)) [
    | inl none' ↦ rw none' refl
    | inr some' ↦ rw some' refl
  ]

  -- A shutdown leaves no tracked application throttled or frozen.
  pub shutdown-Thawed :
      (e : Engine) (t : Trace) (k : AppId)
      → ¬ (option_map is_suspended (state_of k (shutdown host e t).0) ≡ some true)
  unfolding shutdown
  shutdown-Thawed e t k h =
      let e1 = thaw_all host e t in
      let c = close_each host e1.0.registry.apps e1.1 in
      let e2 = record e1.0 { registry = record e1.0.registry { apps = c.0 } } in
      let same = remnants-state_of k e2 c.1 ∙ close_each-state k e1.0.registry.apps e1.1 in
      thaw_all-Thawed host e t k (subst (λ o. option_map is_suspended o ≡ some true) same h)
