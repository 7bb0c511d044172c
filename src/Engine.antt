-- ===== src/Engine.antt =====
-- The engine: crates/app-powerd-core/src/engine. A handler takes the engine and the trace, and
-- returns both.
pub mod RateLimit
pub mod Transitions
pub mod Suspend
pub mod Power
pub mod Focus
pub mod Windows
pub mod Quiet
pub mod CrashSafety
pub mod Release
pub mod States
pub mod OneActive
pub mod Undone
pub mod Thawed
pub mod Protected
pub mod Backoff
pub mod Reconcile
pub mod Shutdown
pub mod Reload
pub mod Commands
pub mod ManualFreeze
pub mod Loop
pub mod ReleaseAll
pub mod ShutdownThawed
pub mod ThawAll
pub mod Consistent
use app_powerd.Prelude.{
  ℕ, ◌≡◌, List, [], ◌∷◌, ◌++◌, Bool, true, false, not, Option, none, some, Text, text_eq, HashMap,
  get, is_empty, unwrap_or, option_map, text_key, if◌then◌else◌,
}
use app_powerd.Host.{Host, Io, Trace, ◌>>=◌, pure, ProcessHandle, JournalEntry}
use app_powerd.Desktop.Identity.{AppId, app_eq}
use app_powerd.System.Cgroup.{CgroupCapabilities}
use app_powerd.System.Power.{PowerSource, battery, ac, unknown}
use app_powerd.System.Protection.{ProtectionPolicy}
use app_powerd.Config.{Config, PowerMode, enable, disable}
use app_powerd.Config.Matching.{RulesEngine}
use app_powerd.State.AppEntry.{AppEntry}
use app_powerd.State.Registry.{AppRegistry, lookup, modify}
use app_powerd.State.Journal.Persist.{FreezeJournal, Entries}
use RateLimit.{RateLimiter}

-- What the engine sends to itself (`EngineEvent::ConfigReloaded` and `Shutdown`).
pub data SelfEvent : Type 0 where
  config_reloaded : Config → SelfEvent
  shutdown_requested : SelfEvent

pub record Engine : Type 0 where
  pub registry : AppRegistry
  pub rules_engine : RulesEngine
  pub cgroup_caps : CgroupCapabilities
  pub cgroup_base : Text
  pub journal : FreezeJournal
  pub protection : ProtectionPolicy
  pub rate_limiter : RateLimiter
  pub suspend_failures : HashMap AppId ℕ
  pub exe_to_desktop : HashMap Text Text
  pub enabled : Bool
  pub power_source : PowerSource
  pub forced_power_source : Option PowerSource
  pub dbus_check : Bool
  pub dbus_refresh_interval : ℕ
  pub last_dbus_refresh : Option ℕ
  pub reconcile_in_flight : Bool
  pub config_path : Text
  pub start_time : ℕ
  -- The events that `try_send` accepted, the latest first.
  pub outbox : List SelfEvent

-- Milliseconds.
abbrev pub retry_interval : ℕ
retry_interval = 10000

abbrev pub max_retry_interval : ℕ
max_retry_interval = 300000

abbrev pub max_suspend_attempts : ℕ
max_suspend_attempts = 5

abbrev pub log_suppression_window : ℕ
log_suppression_window = 300000

abbrev pub entry_of : Engine → AppId → Option AppEntry
entry_of e app_id = lookup app_id e.registry

abbrev pub modify_entry : AppId → (AppEntry → AppEntry) → Engine → Engine
modify_entry app_id f e = record e { registry = modify app_id f e.registry }

-- `if let Some(entry) = self.registry.get_mut(app_id)`, with a change that acts on the outside.
unfoldable pub with_entry : AppId → (AppEntry → Io AppEntry) → Engine → Io Engine
with_entry app_id f e t = elim (get app_id e.registry.apps) [
  | none ↦ (e, t)
  | some x ↦ let r = f x t in (modify_entry app_id (λ _. r.0) e, r.1)
]

abbrev pub is_enable : PowerMode → Bool
is_enable enable = true
is_enable disable = false

-- The override first.
abbrev pub effective_power_source : Engine → PowerSource
effective_power_source e = unwrap_or e.forced_power_source e.power_source

abbrev pub manages_on : Engine → PowerSource → Bool
manages_on e ac = is_enable e.rules_engine.config.defaults.mode.ac
manages_on e battery = is_enable e.rules_engine.config.defaults.mode.battery
manages_on e unknown = true

unfoldable pub should_manage : Engine → Bool
should_manage e = if not e.enabled then false else manages_on e (effective_power_source e)

-- The processes that the journal has under an application's key.
unfoldable pub journal_procs : Text → Entries → List ProcessHandle
journal_procs key [] = []
journal_procs key ((k, x) ∷ m) =
    if text_eq x.app_id key then x.procs ++ journal_procs key m else journal_procs key m

-- What the journal has; the window-owning processes if it has nothing.
unfoldable pub recorded_procs_for : AppId → Engine → List ProcessHandle
unfolding journal_procs
recorded_procs_for app_id e =
    let found = journal_procs app_id.key e.journal.entries in
    if is_empty found
    then unwrap_or (option_map (λ x. x.roots.procs) (get app_id e.registry.apps)) []
    else found
