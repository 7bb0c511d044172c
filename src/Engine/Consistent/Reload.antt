-- ===== src/Engine/Consistent/Reload.antt =====
-- The registry under a new configuration:
-- crates/app-powerd-core/src/engine/config_power.rs.
use app_powerd.Prelude.{ℕ, inl, inr, List, [], ◌∷◌, Bool, Option, Text, Option-cases}
use app_powerd.Host.{Host, Io, Trace, pure, counted, config_reloads_total}
use app_powerd.Desktop.Identity.{AppId, app_eq}
use app_powerd.Config.{Config, Action, ignore, throttle, freeze}
use app_powerd.Config.Matching
use app_powerd.Config.Matching.{Compiled, RulesEngine, match_window}
use app_powerd.State.Machine.{AppState, active, background, throttled, frozen}
use app_powerd.State.AppEntry
use app_powerd.State.AppEntry.{AppEntry}
use app_powerd.Engine.{Engine, should_manage}
use app_powerd.Engine.Reload.{
  AppContext, app_contexts, guarded_policy, restore_and_reschedule, cancel_and_reschedule,
  follow_action, rematch_to, rematch_one, rematch_each, rematch_tracked_apps, reload_with,
  handle_config_reload,
}
use app_powerd.Engine.Consistent.{
  HasWindows, modify_entry-HasWindows, with_entry-HasWindows, schedule_suspend-HasWindows,
  restore_to_background-HasWindows,
}
use app_powerd.Engine.Consistent.Power.{reconcile_management-HasWindows}

module _ (host : Host) where
  restore_and_reschedule-HasWindows :
      (id : AppId) (s : AppState) (delay : ℕ) (e : Engine) (t : Trace)
      → HasWindows e
      → HasWindows (restore_and_reschedule host id s delay e t).0
  unfolding restore_and_reschedule
  restore_and_reschedule-HasWindows id s delay e t h =
      schedule_suspend-HasWindows id delay _ _ (restore_to_background-HasWindows host id s e t h)

  cancel_and_reschedule-HasWindows :
      (id : AppId) (delay : ℕ) (e : Engine) (t : Trace)
      → HasWindows e
      → HasWindows (cancel_and_reschedule host id delay e t).0
  unfolding cancel_and_reschedule
  cancel_and_reschedule-HasWindows id delay e t h =
      schedule_suspend-HasWindows id delay _ _
        (with_entry-HasWindows id AppEntry.cancel_suspend_timer e t h)

  follow_action-HasWindows :
      (id : AppId) (s : AppState) (old new : Action) (delay : ℕ) (e : Engine) (t : Trace)
      → HasWindows e
      → HasWindows (follow_action host id s old new delay e t).0
  unfolding follow_action
  follow_action-HasWindows id frozen old ignore delay e t h =
      restore_to_background-HasWindows host id frozen e t h
  follow_action-HasWindows id frozen old throttle delay e t h =
      restore_and_reschedule-HasWindows id frozen delay e t h
  follow_action-HasWindows id frozen old freeze delay e t h = h
  follow_action-HasWindows id throttled old ignore delay e t h =
      restore_to_background-HasWindows host id throttled e t h
  follow_action-HasWindows id throttled old throttle delay e t h = h
  follow_action-HasWindows id throttled old freeze delay e t h =
      restore_and_reschedule-HasWindows id throttled delay e t h
  follow_action-HasWindows id background old ignore delay e t h =
      with_entry-HasWindows id AppEntry.cancel_suspend_timer e t h
  follow_action-HasWindows id background throttle throttle delay e t h =
      cancel_and_reschedule-HasWindows id delay e t h
  follow_action-HasWindows id background throttle freeze delay e t h =
      cancel_and_reschedule-HasWindows id delay e t h
  follow_action-HasWindows id background freeze throttle delay e t h =
      cancel_and_reschedule-HasWindows id delay e t h
  follow_action-HasWindows id background freeze freeze delay e t h =
      cancel_and_reschedule-HasWindows id delay e t h
  follow_action-HasWindows id background ignore throttle delay e t h = h
  follow_action-HasWindows id background ignore freeze delay e t h = h
  follow_action-HasWindows id active old new delay e t h = h

  rematch_one-HasWindows :
      (c : AppContext) (e : Engine) (t : Trace)
      → HasWindows e
      → HasWindows (rematch_one host c e t).0
  unfolding rematch_one rematch_to
  rematch_one-HasWindows c e t h = elim (Option-cases (match_window e.rules_engine c.context)) [
    | inl n ↦ rw (n, rematch_one) h
    | inr (policy, s) ↦
        let p = guarded_policy host c.protection policy in
        rw (s, rematch_one)
          (follow_action-HasWindows c.app_id c.state c.old_action p.action p.suspend_delay _ t
            (modify_entry-HasWindows c.app_id (λ x. record x { policy = p }) e h))
  ]

  rematch_each-HasWindows :
      (cs : List AppContext) (e : Engine) (t : Trace)
      → HasWindows e
      → HasWindows (rematch_each host cs e t).0
  unfolding rematch_each
  rematch_each-HasWindows [] e t h = h
  rematch_each-HasWindows (c ∷ cs) e t h =
      rematch_each-HasWindows cs _ _ (rematch_one-HasWindows c e t h)

  reload_with-HasWindows :
      (config : Config) (rules : RulesEngine) (e : Engine) (t : Trace)
      → HasWindows e
      → HasWindows (reload_with host config rules e t).0
  unfolding reload_with rematch_tracked_apps
  reload_with-HasWindows config rules e t h =
      let e1 = record e { rules_engine = rules; enabled = config.defaults.enabled } in
      let t1 = counted config_reloads_total 1 ∷ t in
      reconcile_management-HasWindows host (should_manage e) _ _
        (rematch_each-HasWindows (app_contexts host e1 t1) e1 t1 h)

  reload_compiled-HasWindows :
      (config : Config) (c : Compiled RulesEngine) (e : Engine) (t : Trace)
      → HasWindows e
      → HasWindows
          ((elim c as (λ _. Io Engine) [
            | Compiled.ok rules ↦ reload_with host config rules e
            | Compiled.invalid_regex id ↦ pure e
          ])
            t).0
  reload_compiled-HasWindows config (Compiled.ok rules) e t h =
      reload_with-HasWindows config rules e t h
  reload_compiled-HasWindows config (Compiled.invalid_regex id) e t h = h

  pub handle_config_reload-HasWindows :
      (regex : Text → Option (Text → Bool)) (config : Config) (e : Engine) (t : Trace)
      → HasWindows e
      → HasWindows (handle_config_reload host regex config e t).0
  unfolding handle_config_reload
  handle_config_reload-HasWindows regex config e t h =
      reload_compiled-HasWindows config (Matching.new regex config) e t h
