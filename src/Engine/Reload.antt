-- ===== src/Engine/Reload.antt =====
-- A new configuration: `handle_config_reload` and `rematch_tracked_apps` of
-- crates/app-powerd-core/src/engine/config_power.rs.
use app_powerd.Prelude.{ℕ, List, [], ◌∷◌, map, Bool, Option, none, some, Text}
use app_powerd.Host.{Host, Io, Trace, ◌>>=◌, ◌>>◌, pure, count, config_reloads_total}
use app_powerd.Desktop.Identity.{AppId, app_eq}
use app_powerd.System.Protection.{ProtectionReason}
use app_powerd.Config.{Config, Action, ignore, throttle, freeze, ResolvedPolicy}
use app_powerd.Config.Matching
use app_powerd.Config.Matching.{Compiled, MatchContext, RulesEngine, match_window}
use app_powerd.State.Machine.{AppState, background, throttled, frozen}
use app_powerd.State.AppEntry
use app_powerd.State.AppEntry.{AppEntry}
use app_powerd.Engine.{Engine, modify_entry, with_entry, should_manage}
use app_powerd.Engine.Transitions.{restore_to_background, schedule_suspend}
use app_powerd.Engine.Focus.{match_context, protection_verdict, protected_policy}
use app_powerd.Engine.Power.{reconcile_management}

-- What is collected of an application before any policy changes.
pub record AppContext : Type 0 where
  pub app_id : AppId
  pub context : MatchContext
  pub state : AppState
  pub old_action : Action
  pub protection : Option ProtectionReason

unfoldable pub app_contexts : Host → Engine → Trace → List AppContext
app_contexts host e t =
    map
      (λ p. record {
        app_id = p.0;
        context = match_context e p.1.window_info;
        state = p.1.state;
        old_action = p.1.policy.action;
        protection = protection_verdict host t p.1.window_info;
      })
      e.registry.apps

-- A reload lifts no protection.
unfoldable pub guarded_policy : Host → Option ProtectionReason → ResolvedPolicy → ResolvedPolicy
guarded_policy host none p = p
guarded_policy host (some reason) p = protected_policy host reason p

module _ (host : Host) where
  unfoldable pub restore_and_reschedule : AppId → AppState → ℕ → Engine → Io Engine
  unfolding schedule_suspend
  restore_and_reschedule app_id state delay e = do
    e' ← restore_to_background host app_id state e
    schedule_suspend app_id delay e'

  unfoldable pub cancel_and_reschedule : AppId → ℕ → Engine → Io Engine
  unfolding schedule_suspend with_entry
  cancel_and_reschedule app_id delay e = do
    e' ← with_entry app_id AppEntry.cancel_suspend_timer e
    schedule_suspend app_id delay e'

  -- The match on the state, the old action and the new one.
  unfoldable pub follow_action : AppId → AppState → Action → Action → ℕ → Engine → Io Engine
  unfolding restore_and_reschedule cancel_and_reschedule
  follow_action app_id frozen old ignore delay e = restore_to_background host app_id frozen e
  follow_action app_id throttled old ignore delay e = restore_to_background host app_id throttled e
  follow_action app_id frozen old throttle delay e = restore_and_reschedule app_id frozen delay e
  follow_action app_id throttled old freeze delay e =
      restore_and_reschedule app_id throttled delay e
  follow_action app_id background old ignore delay e =
      with_entry app_id AppEntry.cancel_suspend_timer e
  follow_action app_id background throttle throttle delay e = cancel_and_reschedule app_id delay e
  follow_action app_id background throttle freeze delay e = cancel_and_reschedule app_id delay e
  follow_action app_id background freeze throttle delay e = cancel_and_reschedule app_id delay e
  follow_action app_id background freeze freeze delay e = cancel_and_reschedule app_id delay e
  follow_action app_id _ _ _ delay e = pure e

  unfoldable pub rematch_to : AppContext → ResolvedPolicy → Engine → Io Engine
  unfolding follow_action
  rematch_to c policy e =
      follow_action c.app_id c.state c.old_action policy.action policy.suspend_delay
        (modify_entry c.app_id (λ x. record x { policy = policy }) e)

  -- `match_window` is `none` only where the source panics (see Config/Matching).
  unfoldable pub rematch_one : AppContext → Engine → Io Engine
  unfolding rematch_to guarded_policy
  rematch_one c e = elim (match_window e.rules_engine c.context) [
    | none ↦ pure e
    | some policy ↦ rematch_to c (guarded_policy host c.protection policy) e
  ]

  unfoldable pub rematch_each : List AppContext → Engine → Io Engine
  unfolding rematch_one
  rematch_each [] e t = (e, t)
  rematch_each (c ∷ cs) e t = let r = rematch_one c e t in rematch_each cs r.0 r.1

  unfoldable pub rematch_tracked_apps : Engine → Io Engine
  unfolding rematch_each app_contexts
  rematch_tracked_apps e t = rematch_each (app_contexts host e t) e t

  unfoldable pub reload_with : Config → RulesEngine → Engine → Io Engine
  unfolding rematch_tracked_apps
  reload_with config rules e = do
    count config_reloads_total 1
    e' ← rematch_tracked_apps (record e { rules_engine = rules; enabled = config.defaults.enabled })
    reconcile_management host (should_manage e) e'

  -- A configuration with a rule that does not compile changes nothing.
  unfoldable pub handle_config_reload : (Text → Option (Text → Bool)) → Config → Engine → Io Engine
  unfolding reload_with
  handle_config_reload regex config e = elim (Matching.new regex config) [
    | Compiled.ok rules ↦ reload_with config rules e
    | Compiled.invalid_regex id ↦ pure e
  ]
