-- ===== src/Engine/Thawed.antt =====
-- Giving up management: `thaw_all` and `handle_power_change` of
-- crates/app-powerd-core/src/engine/config_power.rs.
use app_powerd.Prelude.{
  ◌≡◌, refl, sym, subst, inl, inr, [], ◌∷◌, ◌++◌, Bool, is_some, Option-cases, true, false, ◌&&◌,
  Option, none, some, HashMap, get, option_map, Bool-cases,
}
use app_powerd.Host.{Host, Trace}
use app_powerd.Desktop.Identity.{AppId, same_app, same_app_refl, app_eq}
use app_powerd.State.Machine.{
  AppState, active, background, throttled, frozen, on_focus_gained, remove_throttle, thaw,
  is_suspended,
}
use app_powerd.State.AppEntry.{AppEntry}
use app_powerd.System.Power.{PowerSource, same_source}
use app_powerd.Engine.{Engine, should_manage, recorded_procs_for}
use app_powerd.Engine.Power.{
  thaw_one, thaw_each, thaw_all, reconcile_management, handle_power_change,
}
use app_powerd.Engine.States.{state_of, put_state, execute_transition-state_of}
use app_powerd.System.Undone.{AreUndone}
use app_powerd.Engine.Undone.{thaw_each-AreUndone}
use app_powerd.Engine.OneActive.{listed, and_true, and_false}

abbrev IsSuspended : Option AppState → Type 0
IsSuspended o = option_map is_suspended o ≡ some true

put_active : (o : Option AppState) → ¬ IsSuspended (put_state true active o)
put_active none h = cc
put_active (some s) h = cc

put_unless-IsSuspended :
    (s : AppState) (o : Option AppState)
    → IsSuspended (put_state (is_suspended s) active o)
    → IsSuspended o × (¬ IsSuspended (some s))
put_unless-IsSuspended active o h = (h, λ p. cc)
put_unless-IsSuspended background o h = (h, λ p. cc)
put_unless-IsSuspended throttled o h = absurd (put_active o h)
put_unless-IsSuspended frozen o h = absurd (put_active o h)

module _ (host : Host) where
  thaw_one-state_of :
      (k id : AppId) (s : AppState) (e : Engine) (t : Trace)
      → state_of k (thaw_one host id s e t).0
        ≡ put_state (same_app id k && is_suspended s) active (state_of k e)
  unfolding thaw_one on_focus_gained
  thaw_one-state_of k id active e t = rw (and_false (same_app id k))
  thaw_one-state_of k id background e t = rw (and_false (same_app id k))
  thaw_one-state_of k id throttled e t = rw (and_true (same_app id k)) (
      execute_transition-state_of host k id active remove_throttle (recorded_procs_for id e) e t
        refl tt)
  thaw_one-state_of k id frozen e t =
      rw (and_true (same_app id k))
        (execute_transition-state_of host k id active thaw (recorded_procs_for id e) e t refl tt)

  thaw_each-IsSuspended :
      (k : AppId) (rest : HashMap AppId AppEntry) (e : Engine) (t : Trace)
      → IsSuspended (state_of k (thaw_each host rest e t).0)
      → IsSuspended (state_of k e) × (¬ IsSuspended (listed k rest))
  unfolding thaw_each get
  thaw_each-IsSuspended k [] e t h = (h, λ p. cc)
  thaw_each-IsSuspended k ((id, x) ∷ rest) e t h =
      let r = thaw_one host id x.state e t in
      let later = thaw_each-IsSuspended k rest r.0 r.1 h in
      let step = thaw_one-state_of k id x.state e t in
      elim (Bool-cases (same_app id k)) [
        | inl m ↦ rw m (put_unless-IsSuspended x.state (state_of k e) (rw m at rw step at later.0))
        | inr n ↦ rw n (rw n at rw step at later.0, later.1)
      ]

  pub thaw_all-Thawed :
      (e : Engine) (t : Trace) (k : AppId)
      → ¬ (option_map is_suspended (state_of k (thaw_all host e t).0) ≡ some true)
  unfolding thaw_all
  thaw_all-Thawed e t k h = let p = thaw_each-IsSuspended k e.registry.apps e t h in p.1 p.0

  -- Who is tracked stays tracked.
  is_some-put_state :
      (b : Bool) (s : AppState) (o : Option AppState)
      → is_some o ≡ true
      → is_some (put_state b s o) ≡ true
  is_some-put_state true s none h = cc
  is_some-put_state true s (some x) h = refl
  is_some-put_state false s o h = h

  thaw_each-tracked :
      (k : AppId) (apps : HashMap AppId AppEntry) (e : Engine) (t : Trace)
      → is_some (state_of k e) ≡ true
      → is_some (state_of k (thaw_each host apps e t).0) ≡ true
  unfolding thaw_each
  thaw_each-tracked k [] e t h = h
  thaw_each-tracked k ((id, x) ∷ rest) e t h =
      let r = thaw_one host id x.state e t in
      thaw_each-tracked k rest r.0 r.1 (
        rw (thaw_one-state_of k id x.state e t)
          (is_some-put_state (same_app id k && is_suspended x.state) active (state_of k e) h))

  listed-append :
      (id : AppId) (x : AppEntry) (before after : HashMap AppId AppEntry)
      → is_some (listed id (before ++ (id, x) ∷ after)) ≡ true
  unfolding get
  listed-append id x [] after = rw (same_app_refl id) refl
  listed-append id x ((j, y) ∷ before) after = elim (Bool-cases (same_app j id)) [
    | inl m ↦ rw m refl
    | inr n ↦ rw n (listed-append id x before after)
  ]

  entry_of :
      (k : AppId) (e : Engine)
      → is_some (state_of k e) ≡ true
      → (y : AppEntry) × (get k e.registry.apps ≡ some y)
  entry_of k e h = elim (Option-cases (get k e.registry.apps)) [
    | inl n ↦ let missing : is_some (state_of k e) ≡ false = rw n refl in cc
    | inr found ↦ found
  ]

  thaw_all-AreUndone :
      (e : Engine) (t : Trace) (before after : HashMap AppId AppEntry) (id : AppId) (x : AppEntry)
      → e.registry.apps ≡ before ++ (id, x) ∷ after
      → is_suspended x.state ≡ true
      → let r = thaw_each host before e t in
        AreUndone host x.state r.1 (thaw_all host e t).1 (recorded_procs_for id r.0)
  unfolding thaw_all
  thaw_all-AreUndone e t before after id x split h =
      let there : is_some (state_of id e) ≡ true = rw split (listed-append id x before after) in
      let r = thaw_each host before e t in
      let y = entry_of id r.0 (thaw_each-tracked id before e t there) in
      subst
        (λ apps. AreUndone host x.state r.1 (thaw_each host apps e t).1 (recorded_procs_for id r.0))
        (sym split) (thaw_each-AreUndone host before after id x y.0 e t h y.1)

  -- When the power source changes to one on which the daemon does not manage applications, the
  -- registry has no application as throttled or frozen afterwards. And each application that it had
  -- so, wherever it stands among the others, is released when its turn comes: of each process that
  -- is recorded for it by then, it is found dead, or its PID is no PID, or it is found alive and gets
  -- SIGCONT, or niceness 0 if the application was throttled. What the kernel answers is not part of
  -- this.
  pub handle_power_change-Thawed :
      (source : PowerSource) (e : Engine) (t : Trace)
      → same_source e.power_source source ≡ false
      → should_manage (record e { power_source = source }) ≡ false
      → ((k : AppId)
          → ¬ (
              option_map is_suspended (state_of k (handle_power_change host source e t).0)
              ≡ some true))
        × ((before after : HashMap AppId AppEntry) (id : AppId) (x : AppEntry)
            → e.registry.apps ≡ before ++ (id, x) ∷ after
            → is_suspended x.state ≡ true
            → let r = thaw_each host before (record e { power_source = source }) t in
              AreUndone host x.state r.1
                (handle_power_change host source e t).1
                (recorded_procs_for id r.0))
  unfolding handle_power_change reconcile_management
  handle_power_change-Thawed source e t new off =
      let e1 = record e { power_source = source } in
      (
        λ k h. thaw_all-Thawed e1 t k (rw (new, off) at h),
        λ before after id x split s.
            rw (new, off) (thaw_all-AreUndone e1 t before after id x split s),
      )
