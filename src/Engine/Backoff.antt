-- ===== src/Engine/Backoff.antt =====
-- Retries of a suspension that fails: `on_suspend_failed` of
-- crates/app-powerd-core/src/engine/transitions.rs.
use app_powerd.Prelude.{
  ℕ, zero, suc, ◌+◌, ◌≤◌, ◌<◌, arith, subst, ap, List, [], ◌≡◌, refl, length, ◌⊎◌, inl, inr, ◌∷◌,
  true, Option, none, some, first, leb, get, insert, get-insert, get-update, option_map, unwrap_or,
  In, Bool-cases, Option-cases,
}
use app_powerd.Host.{Host, Io, Trace, spawned, suspend_timer_fired}
use app_powerd.Desktop.Identity.{AppId, app_eq}
use app_powerd.System.Apply.{ApplyReport, had_real_error}
use app_powerd.System.Freeze.Reports.{Later}
use app_powerd.State.AppEntry
use app_powerd.State.AppEntry.{AppEntry}
use app_powerd.Engine.{Engine, with_entry, max_suspend_attempts}
use app_powerd.Engine.Transitions.{
  limited_warning, warn_first_failure, schedule_suspend, on_suspend_failed, retry_delay,
}
use app_powerd.Engine.Release.{Later-of-Quietly}
use app_powerd.Engine.Quiet.{with_entry-Quietly, abort_timer-Quietly, warn_first_failure-Quietly}

with_entry-suspend_failures :
    (id : AppId) (f : AppEntry → Trace → AppEntry × Trace) (e : Engine) (t : Trace)
    → (with_entry id f e t).0.suspend_failures ≡ e.suspend_failures
unfolding with_entry
with_entry-suspend_failures id f e t = elim (Option-cases (get id e.registry.apps)) [
  | inl n ↦ rw (n, with_entry)
  | inr (x, s) ↦ rw (s, with_entry)
]

-- The suspend timer of an application, if it is tracked.
abbrev pub timer_of : AppId → Engine → Option (Option ℕ)
timer_of id e = option_map (λ x. x.suspend_timer) (get id e.registry.apps)

-- The application, if it is tracked, has this timer, or none.
abbrev pub HoldsTimer : Option ℕ → Option (Option ℕ) → Type 0
HoldsTimer timer o = (o ≡ none) ⊎ (o ≡ some timer)

with_entry-HoldsTimer :
    (timer : Option ℕ) (id : AppId) (f : AppEntry → Trace → AppEntry × Trace) (e : Engine)
    (t : Trace)
    → ((x : AppEntry) → (f x t).0.suspend_timer ≡ timer)
    → HoldsTimer timer (timer_of id (with_entry id f e t).0)
unfolding with_entry
with_entry-HoldsTimer timer id f e t h = elim (Option-cases (get id e.registry.apps)) [
  | inl n ↦ inl (rw (n, with_entry) (rw n refl))
  | inr (x, s) ↦
      let g : AppEntry → AppEntry = λ y. (f x t).0 in
      inr (
        rw (s, with_entry)
          (rw (get-update id id g e.registry.apps, app_eq.same_refl id, s) (ap some (h x))))
]

-- Ten seconds after the first failure, and each time twice as long.
abbrev pub wait_after : ℕ → ℕ
wait_after (suc zero) = 10000
wait_after (suc (suc zero)) = 20000
wait_after (suc (suc (suc zero))) = 40000
wait_after (suc (suc (suc (suc zero)))) = 80000
wait_after n = 0

retry_delay-wait_after : (n : ℕ) → 0 < n → n < 5 → retry_delay n ≡ wait_after n
retry_delay-wait_after zero h l = absurd (omega arith)
retry_delay-wait_after (suc zero) h l = refl
retry_delay-wait_after (suc (suc zero)) h l = refl
retry_delay-wait_after (suc (suc (suc zero))) h l = refl
retry_delay-wait_after (suc (suc (suc (suc zero)))) h l = refl
retry_delay-wait_after (suc (suc (suc (suc (suc n))))) h l = absurd (omega arith)

module _ (host : Host) where
  warn_first_failure-suspend_failures :
      (id : AppId) (report : ApplyReport) (e : Engine) (t : Trace)
      → (warn_first_failure host id report e t).0.suspend_failures ≡ e.suspend_failures
  unfolding warn_first_failure limited_warning
  warn_first_failure-suspend_failures id report e t = elim (Option-cases (first report.failed)) [
    | inl n ↦ rw (n, warn_first_failure)
    | inr ((pid, x), s) ↦ rw (s, warn_first_failure)
  ]

  -- From `start` on a suspend timer was spawned with this delay, and it is the application's.
  abbrev pub IsRetried : AppId → ℕ → Trace → Engine → Trace → Type 0
  IsRetried id delay start e t =
      (at : Trace) × (Later start at
        × (Later (spawned delay (suspend_timer_fired id) ∷ at) t
            × HoldsTimer (some (length at)) (timer_of id e)))

  schedule_suspend-IsRetried :
      (id : AppId) (delay : ℕ) (start : Trace) (e : Engine) (t : Trace)
      → Later start t
      → let r = schedule_suspend id delay e t in IsRetried id delay start r.0 r.1
  unfolding schedule_suspend AppEntry.set_suspend_timer AppEntry.cancel_suspend_timer
  schedule_suspend-IsRetried id delay start e t h =
      let t1 : Trace = spawned delay (suspend_timer_fired id) ∷ t in
      let set = AppEntry.set_suspend_timer (length t) in
      (
        t,
        (
          h,
          (
            Later-of-Quietly t1 (with_entry id set e t1).1
                (with_entry-Quietly id set e t1 (λ x. abort_timer-Quietly x.suspend_timer t1)),
            with_entry-HoldsTimer (some (length t)) id set e t1 (λ x. refl),
          ),
        ),
      )

  -- What follows from the `n`-th failure in a row.
  abbrev pub IsCounted : AppId → ℕ → Trace → Engine → Trace → Type 0
  IsCounted id n start e t =
      (get id e.suspend_failures ≡ some n)
      × ((5 ≤ n → HoldsTimer none (timer_of id e))
          × (n < 5 → IsRetried id (wait_after n) start e t))

  failed_once :
      (id : AppId) (report : ApplyReport) (e : Engine) (t : Trace)
      → had_real_error report ≡ true
      → let r = on_suspend_failed host id report e t in
        IsCounted id (suc (unwrap_or (get id e.suspend_failures) 0)) t r.0 r.1
  unfolding on_suspend_failed schedule_suspend AppEntry.cancel_suspend_timer
  failed_once id report e t y =
      let n = suc (unwrap_or (get id e.suspend_failures) 0) in
      let e1 = record e { suspend_failures = insert id n e.suspend_failures } in
      let w = warn_first_failure host id report e1 t in
      let kept = warn_first_failure-suspend_failures id report e1 t in
      let counted = get-insert id id n e.suspend_failures in
      let t1 : Trace = spawned (retry_delay n) (suspend_timer_fired id) ∷ w.1 in
      let later = Later-of-Quietly t w.1 (warn_first_failure-Quietly host id report e1 t) in
      elim (Bool-cases (leb max_suspend_attempts n)) [
        | inl g ↦
            let many : 5 ≤ n = ground (arith, g) in
            rw (y, g)
              (
                rw
                    (
                      with_entry-suspend_failures id AppEntry.cancel_suspend_timer w.0 w.1,
                      kept,
                      counted,
                      app_eq.same_refl id,
                    )
                    refl,
                (
                  λ x.
                      with_entry-HoldsTimer none id AppEntry.cancel_suspend_timer w.0 w.1
                        (λ z. refl),
                  λ x. absurd (omega (arith, many, x)),
                ),
              )
        | inr g ↦
            let few : n < 5 = ground (arith, g) in
            let delay : retry_delay n ≡ wait_after n = retry_delay-wait_after n (omega arith) few in
            rw (y, g)
              (
                rw
                    (
                      with_entry-suspend_failures id (AppEntry.set_suspend_timer (length w.1)) w.0
                          t1,
                      kept,
                      counted,
                      app_eq.same_refl id,
                    )
                    refl,
                (
                  λ x. absurd (omega (arith, few, x)),
                  λ x.
                      subst
                        (λ d.
                          let r = schedule_suspend id (retry_delay n) w.0 w.1 in
                          IsRetried id d t r.0 r.1)
                        delay (schedule_suspend-IsRetried id (retry_delay n) t w.0 w.1 later),
                ),
              )
      ]

  -- Attempts that fail one after the other.
  unfoldable pub fail_each : AppId → List ApplyReport → Engine → Io Engine
  fail_each id [] e t = (e, t)
  fail_each id (report ∷ reports) e t =
      let r = on_suspend_failed host id report e t in fail_each id reports r.0 r.1

  fail_each-counted :
      (id : AppId) (reports : List ApplyReport) (e : Engine) (t : Trace)
      → ((x : ApplyReport) → In x reports → had_real_error x ≡ true)
      → unwrap_or (get id (fail_each id reports e t).0.suspend_failures) 0
        ≡ length reports + unwrap_or (get id e.suspend_failures) 0
  unfolding fail_each
  fail_each-counted id [] e t f = omega arith
  fail_each-counted id (x ∷ reports) e t f =
      let r = on_suspend_failed host id x e t in
      let one : get id r.0.suspend_failures ≡ some (suc (unwrap_or (get id e.suspend_failures) 0)) =
        (failed_once id x e t (f x (inl refl))).0 in
      let rest = fail_each-counted id reports r.0 r.1 (λ y i. f y (inr i)) in
      let here : unwrap_or (get id r.0.suspend_failures) 0
          ≡ suc (unwrap_or (get id e.suspend_failures) 0) =
        ap (λ o. unwrap_or o 0) one in
      omega (arith, rest, here)

  -- Attempts to suspend an application that fail one after the other, each reaching nothing and
  -- meeting a real error, are counted. After the last of them: while the count is below five, a new
  -- suspend timer is spawned and is the application's, if it is tracked, with 10, 20, 40 or 80
  -- seconds of delay after 1, 2, 3 or 4 failures; from five on the application has no suspend timer.
  pub on_suspend_failed-IsCounted :
      (id : AppId) (reports : List ApplyReport) (last : ApplyReport) (e : Engine) (t : Trace)
      → ((x : ApplyReport) → In x reports → had_real_error x ≡ true)
      → had_real_error last ≡ true
      → let s = fail_each id reports e t in
        let r = on_suspend_failed host id last s.0 s.1 in
        IsCounted id (suc (length reports + unwrap_or (get id e.suspend_failures) 0)) s.1 r.0 r.1
  on_suspend_failed-IsCounted id reports last e t f y =
      let s = fail_each id reports e t in
      let r = on_suspend_failed host id last s.0 s.1 in
      subst (λ n. IsCounted id (suc n) s.1 r.0 r.1) (fail_each-counted id reports e t f)
        (failed_once id last s.0 s.1 y)
