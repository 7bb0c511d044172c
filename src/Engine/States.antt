-- ===== src/Engine/States.antt =====
-- The power states of the tracked applications while a handler runs
-- (crates/app-powerd-core/src/engine/transitions.rs).
use app_powerd.Prelude.{
  ℕ, ◌≡◌, refl, sym, ap, ◌∙◌, inl, inr, List, ◌∷◌, Bool, true, false, not, ◌&&◌, Option, none, some,
  Text, codes, length, get, get-update, get-same, option_map, is_empty, Bool-cases, Option-cases,
}
use app_powerd.Host.{Host, Trace, ProcessHandle, spawned, suspend_timer_fired}
use app_powerd.Desktop.Identity.{AppId, same_app, app_eq}
use app_powerd.System.Apply.{ApplyReport, had_real_error, settled_pids}
use app_powerd.System.Freeze.{thaw_app}
use app_powerd.System.Throttle
use app_powerd.State.Machine.{
  AppState, active, background, throttled, frozen, TransitionAction, start_suspend_timer,
  cancel_suspend_timer, remove_throttle, thaw, no_op, is_suspended, requires_management,
}
use app_powerd.State.Journal.{retire}
use app_powerd.State.AppEntry
use app_powerd.State.AppEntry.{AppEntry, set_state}
use app_powerd.Engine.{Engine, modify_entry, with_entry, should_manage}
use app_powerd.Engine.Transitions.{
  limited_warning, set_entry_state, skip_action, absorb_gone, schedule_suspend,
  warn_partial_failure, restore_frozen, restore_throttled, restore_app_resources, time_in_state,
  act, execute_transition,
}

-- The state of an application, if it is tracked.
abbrev pub state_of : AppId → Engine → Option AppState
state_of k e = option_map (λ x. x.state) (get k e.registry.apps)

abbrev pub put_state : Bool → AppState → Option AppState → Option AppState
put_state true s o = option_map (λ _. s) o
put_state false s o = o

kept_state :
    (f : AppEntry → AppEntry) (o : Option AppEntry)
    → ((x : AppEntry) → (f x).state ≡ x.state)
    → option_map (λ (x : AppEntry). x.state) (option_map f o)
      ≡ option_map (λ (x : AppEntry). x.state) o
kept_state f none h = refl
kept_state f (some x) h = ap some (h x)

pub modify_entry-state_of :
    (k id : AppId) (f : AppEntry → AppEntry) (e : Engine)
    → ((x : AppEntry) → (f x).state ≡ x.state)
    → state_of k (modify_entry id f e) ≡ state_of k e
modify_entry-state_of k id f e h = elim (Bool-cases (same_app id k)) [
  | inl s ↦ rw (get-update id k f e.registry.apps, s) (kept_state f (get k e.registry.apps) h)
  | inr s ↦ rw (get-update id k f e.registry.apps, s)
]

constant_state :
    (s : AppState) (f : AppEntry → AppEntry) (o : Option AppEntry)
    → ((x : AppEntry) → (f x).state ≡ s)
    → option_map (λ (x : AppEntry). x.state) (option_map f o)
      ≡ put_state true s (option_map (λ (x : AppEntry). x.state) o)
constant_state s f none h = refl
constant_state s f (some x) h = ap some (h x)

pub set_entry_state-state_of :
    (host : Host) (k id : AppId) (s : AppState) (e : Engine) (t : Trace)
    → state_of k (set_entry_state host id s e t).0 ≡ put_state (same_app id k) s (state_of k e)
unfolding set_entry_state set_state
set_entry_state-state_of host k id s e t =
    let f : AppEntry → AppEntry = set_state host t s in
    elim (Bool-cases (same_app id k)) [
      | inl m ↦
          rw (get-update id k f e.registry.apps, m)
            (constant_state s f (get k e.registry.apps) (λ x. refl))
      | inr m ↦ rw (get-update id k f e.registry.apps, m)
    ]

pub with_entry-state_of :
    (k id : AppId) (f : AppEntry → Trace → AppEntry × Trace) (e : Engine) (t : Trace)
    → ((x : AppEntry) → (f x t).0.state ≡ x.state)
    → state_of k (with_entry id f e t).0 ≡ state_of k e
unfolding with_entry
with_entry-state_of k id f e t h = elim (Option-cases (get id e.registry.apps)) [
  | inl n ↦ rw (n, with_entry)
  | inr (x, s) ↦
      let r = f x t in
      let g : AppEntry → AppEntry = λ y. r.0 in
      rw (s, with_entry)
        (elim (Bool-cases (same_app id k)) [
          | inl m ↦
              rw (get-update id k g e.registry.apps, m, ← get-same id k e.registry.apps m, s)
                (ap some (h x))
          | inr m ↦ rw (get-update id k g e.registry.apps, m)
        ])
]

pub absorb_gone-state_of :
    (k id : AppId) (report : ApplyReport) (e : Engine) (t : Trace)
    → state_of k (absorb_gone id report e t).0 ≡ state_of k e
unfolding absorb_gone
absorb_gone-state_of k id report e t = elim (Bool-cases (is_empty report.gone)) [
  | inl n ↦ rw n
  | inr n ↦ rw n (modify_entry-state_of k id _ e (λ x. refl))
]

pub schedule_suspend-state_of :
    (k id : AppId) (delay : ℕ) (e : Engine) (t : Trace)
    → state_of k (schedule_suspend id delay e t).0 ≡ state_of k e
unfolding schedule_suspend AppEntry.set_suspend_timer AppEntry.cancel_suspend_timer
schedule_suspend-state_of k id delay e t =
    let t1 : Trace = spawned delay (suspend_timer_fired id) ∷ t in
    with_entry-state_of k id (AppEntry.set_suspend_timer (length t)) e t1 (λ x. refl)

module _ (host : Host) where
  warn_partial_failure-state_of :
      (k id : AppId) (kind : Text) (report : ApplyReport) (e : Engine) (t : Trace)
      → state_of k (warn_partial_failure host id kind report e t).0 ≡ state_of k e
  unfolding warn_partial_failure limited_warning
  warn_partial_failure-state_of k id kind report e t = elim (Bool-cases (had_real_error report)) [
    | inl n ↦ rw n
    | inr n ↦ rw n
  ]

  restore_frozen-state_of :
      (k id : AppId) (cgroup : Option Text) (procs : List ProcessHandle) (ms : ℕ) (e : Engine)
      (t : Trace)
      → state_of k (restore_frozen host id cgroup procs ms e t).0 ≡ state_of k e
  unfolding restore_frozen
  restore_frozen-state_of k id cgroup procs ms e t =
      let thawed = thaw_app host e.cgroup_caps cgroup procs t in
      let warned = warn_partial_failure host id (codes "thaw-failed") thawed.0 e thawed.1 in
      let r = retire host warned.0.journal id.key (settled_pids thawed.0) warned.1 in
      absorb_gone-state_of k id thawed.0 (record warned.0 { journal = r.0.0 }) r.1
      ∙ warn_partial_failure-state_of k id (codes "thaw-failed") thawed.0 e thawed.1

  restore_throttled-state_of :
      (k id : AppId) (cgroup : Option Text) (procs : List ProcessHandle) (ms : ℕ) (e : Engine)
      (t : Trace)
      → state_of k (restore_throttled host id cgroup procs ms e t).0 ≡ state_of k e
  unfolding restore_throttled
  restore_throttled-state_of k id cgroup procs ms e t =
      let r = Throttle.remove_throttle host e.cgroup_caps cgroup procs t in
      absorb_gone-state_of k id r.0 e r.1

  pub restore_app_resources-state_of :
      (k id : AppId) (s : AppState) (cgroup : Option Text) (procs : List ProcessHandle) (ms : ℕ)
      (e : Engine) (t : Trace)
      → state_of k (restore_app_resources host id s cgroup procs ms e t).0 ≡ state_of k e
  unfolding restore_app_resources
  restore_app_resources-state_of k id frozen cgroup procs ms e t =
      restore_frozen-state_of k id cgroup procs ms e t
  restore_app_resources-state_of k id throttled cgroup procs ms e t =
      restore_throttled-state_of k id cgroup procs ms e t
  restore_app_resources-state_of k id active cgroup procs ms e t = refl
  restore_app_resources-state_of k id background cgroup procs ms e t = refl

  -- The transitions that change no process, or release it: whatever happens, they arrive.
  abbrev pub IsReleasing : TransitionAction → Type 0
  IsReleasing start_suspend_timer = Unit
  IsReleasing cancel_suspend_timer = Unit
  IsReleasing no_op = Unit
  IsReleasing remove_throttle = Unit
  IsReleasing thaw = Unit
  IsReleasing _ = ⊥

  act-state_of :
      (k id : AppId) (x : AppEntry) (action : TransitionAction) (procs : List ProcessHandle)
      (e : Engine) (t : Trace)
      → IsReleasing action
      → let r = act host id x action procs e t in (r.0.1 ≡ true) × (state_of k r.0.0 ≡ state_of k e)
  unfolding act AppEntry.cancel_suspend_timer
  act-state_of k id x start_suspend_timer procs e t h =
      (refl, schedule_suspend-state_of k id x.policy.suspend_delay e t)
  act-state_of k id x remove_throttle procs e t h = (
    refl,
    restore_app_resources-state_of k id throttled x.cgroup_path procs (time_in_state host id e t) e
        t,
  )
  act-state_of k id x thaw procs e t h = (
    refl,
    restore_app_resources-state_of k id frozen x.cgroup_path procs (time_in_state host id e t) e t,
  )
  act-state_of k id x cancel_suspend_timer procs e t h =
      (refl, with_entry-state_of k id AppEntry.cancel_suspend_timer e t (λ y. refl))
  act-state_of k id x TransitionAction.apply_throttle procs e t h = absurd h
  act-state_of k id x TransitionAction.apply_freeze procs e t h = absurd h
  act-state_of k id x no_op procs e t h = (refl, refl)

  put_missing :
      (s : AppState) (o : Option AppEntry)
      → o ≡ none
      → put_state true s (option_map (λ (x : AppEntry). x.state) o)
        ≡ option_map (λ (x : AppEntry). x.state) o
  put_missing s none h = refl
  put_missing s (some x) h = cc

  -- A transition into a state that claims no suspended process, by any action but the two that
  -- suspend (it starts or cancels the timer, removes the throttle, thaws or does nothing), gives its
  -- application, if it is tracked, that state, whether or not management is on, and leaves the state
  -- of every other application.
  pub execute_transition-state_of :
      (k id : AppId) (s : AppState) (action : TransitionAction) (procs : List ProcessHandle)
      (e : Engine) (t : Trace)
      → is_suspended s ≡ false
      → IsReleasing action
      → state_of k (execute_transition host id s action procs e t).0
        ≡ put_state (same_app id k) s (state_of k e)
  unfolding execute_transition skip_action
  execute_transition-state_of k id s action procs e t calm h =
      elim (Bool-cases (not (should_manage e) && requires_management action)) [
        | inl c ↦ rw (c, calm) (set_entry_state-state_of host k id s e t)
        | inr c ↦ elim (Option-cases (get id e.registry.apps)) [
          | inl n ↦
              rw (c, n, execute_transition)
                (elim (Bool-cases (same_app id k)) [
                  | inl m ↦ rw m (
                      sym (
                        put_missing s (get k e.registry.apps)
                          (sym (get-same id k e.registry.apps m) ∙ n)))
                  | inr m ↦ rw m
                ])
          | inr (x, g) ↦
              let r = act host id x action procs e t in
              let a = act-state_of k id x action procs e t h in
              rw (c, g, execute_transition)
                (rw a.0 (
                  set_entry_state-state_of host k id s r.0.0 r.1
                  ∙ ap (put_state (same_app id k) s) a.1))
        ]
      ]
