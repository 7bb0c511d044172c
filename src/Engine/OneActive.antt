-- ===== src/Engine/OneActive.antt =====
-- Who may be active: `background_other_active_apps` of crates/app-powerd-core/src/engine/focus.rs,
-- and `thaw_all` of crates/app-powerd-core/src/engine/config_power.rs.
use app_powerd.Prelude.{
  ◌≡◌, refl, sym, ◌∙◌, inl, inr, [], ◌∷◌, Bool, true, false, Option, none, some, HashMap, get,
  option_map, ◌&&◌, Bool-cases, if◌then◌else◌,
}
use app_powerd.Host.{Host, Trace, counted, focus_changes_total}
use app_powerd.Desktop.{WindowInfo}
use app_powerd.Desktop.Identity.{AppId, same_app, app_eq, from_window}
use app_powerd.State.Machine.{
  AppState, active, background, throttled, frozen, on_focus_lost, start_suspend_timer, is_active,
}
use app_powerd.State.AppEntry.{AppEntry}
use app_powerd.Engine.{Engine}
use app_powerd.Engine.Focus.{
  background_one, background_each, background_other_active_apps, focus_app, handle_focus_changed,
}
use app_powerd.Engine.States.{state_of, put_state, execute_transition-state_of}

-- The state under which a key stands first in a list of entries.
abbrev pub listed : AppId → HashMap AppId AppEntry → Option AppState
listed k m = option_map (λ x. x.state) (get k m)

put_background : (o : Option AppState) → ¬ (put_state true background o ≡ some active)
put_background none h = cc
put_background (some s) h = cc

put_unless_active :
    (s : AppState) (o : Option AppState)
    → put_state (is_active s) background o ≡ some active
    → (o ≡ some active) × (¬ (some s ≡ some active))
put_unless_active active o h = absurd (put_background o h)
put_unless_active background o h = (h, λ p. cc)
put_unless_active throttled o h = (h, λ p. cc)
put_unless_active frozen o h = (h, λ p. cc)

pub and_true : (b : Bool) → (b && true) ≡ b
and_true true = refl
and_true false = refl

pub and_false : (b : Bool) → (b && false) ≡ false
and_false true = refl
and_false false = refl

module _ (host : Host) where
  background_one-state_of :
      (k id : AppId) (s : AppState) (e : Engine) (t : Trace)
      → state_of k (background_one host id s e t).0
        ≡ put_state (same_app id k && is_active s) background (state_of k e)
  unfolding background_one on_focus_lost
  background_one-state_of k id active e t =
      rw (and_true (same_app id k))
        (execute_transition-state_of host k id background start_suspend_timer [] e t refl tt)
  background_one-state_of k id background e t = rw (and_false (same_app id k))
  background_one-state_of k id throttled e t = rw (and_false (same_app id k))
  background_one-state_of k id frozen e t = rw (and_false (same_app id k))

  module _ (focused k : AppId) (d : same_app k focused ≡ false) where
    -- What one round does to the state of `k`.
    abbrev rounded : AppId → AppState → Engine → Trace → Engine × Trace
    rounded id s e t = if same_app id focused then (e, t) else background_one host id s e t

    rounded-other :
        (id : AppId) (s : AppState) (e : Engine) (t : Trace)
        → same_app id k ≡ false
        → state_of k (rounded id s e t).0 ≡ state_of k e
    rounded-other id s e t n = elim (Bool-cases (same_app id focused)) [
      | inl f ↦ rw f
      | inr f ↦ rw f (background_one-state_of k id s e t ∙ rw n)
    ]

    rounded-same :
        (id : AppId) (s : AppState) (e : Engine) (t : Trace)
        → same_app id k ≡ true
        → state_of k (rounded id s e t).0 ≡ put_state (is_active s) background (state_of k e)
    rounded-same id s e t m = elim (Bool-cases (same_app id focused)) [
      | inl f ↦ (let same = app_eq.same_trans id k focused m in cc)
      | inr f ↦ rw f (background_one-state_of k id s e t ∙ rw m)
    ]

    background_each-active :
        (rest : HashMap AppId AppEntry) (e : Engine) (t : Trace)
        → state_of k (background_each host focused rest e t).0 ≡ some active
        → (state_of k e ≡ some active) × (¬ (listed k rest ≡ some active))
    unfolding background_each get
    background_each-active [] e t h = (h, λ p. cc)
    background_each-active ((id, x) ∷ rest) e t h =
        let r = rounded id x.state e t in
        let later = background_each-active rest r.0 r.1 h in
        elim (Bool-cases (same_app id k)) [
          | inl m ↦ rw m (
              put_unless_active x.state (state_of k e)
                (sym (rounded-same id x.state e t m) ∙ later.0))
          | inr n ↦ rw n ((sym (rounded-other id x.state e t n)) ∙ later.0, later.1)
        ]

  -- After a change of focus no application is active but the one that the focused window belongs
  -- to, whatever was tracked before.
  pub handle_focus_changed-OneActive :
      (window : WindowInfo) (e : Engine) (t : Trace) (k : AppId)
      → state_of k (handle_focus_changed host window e t).0 ≡ some active
      → same_app k (from_window window) ≡ true
  unfolding handle_focus_changed background_other_active_apps
  handle_focus_changed-OneActive window e t k h =
      let focused = from_window window in
      let t1 : Trace = counted focus_changes_total 1 ∷ t in
      let r = focus_app host focused window e t1 in
      elim (Bool-cases (same_app k focused)) [
        | inl same' ↦ same'
        | inr d ↦
            let p = background_each-active focused k d r.0.registry.apps r.0 r.1 h in
            absurd (p.1 p.0)
      ]
