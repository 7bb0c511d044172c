-- ===== src/Config.antt =====
-- The configuration and its resolved policies: crates/app-powerd-core/src/config/mod.rs. Durations
-- are milliseconds.
pub mod Matching
pub mod Validation
pub mod Precedence
pub mod Loader
pub mod Accepted
use app_powerd.Prelude.{
  ℕ, ◌≡◌, List, [], ◌∷◌, Bool, true, false, ◌||◌, Option, none, some, Text, ℤ, HashMap, get,
  text_key, or_else, and_then, unwrap_or, option_map, is_some, retain, map, keys,
}
use app_powerd.System.Throttle.{ThrottleParams}

pub data Action : Type 0 where
  ignore throttle freeze : Action

pub data PowerMode : Type 0 where
  enable disable : PowerMode

pub data GuardAction : Type 0 where
  check skip : GuardAction

pub record ModeConfig : Type 0 where
  pub ac : PowerMode
  pub battery : PowerMode

pub record TimingConfig : Type 0 where
  pub suspend_delay : ℕ
  pub resume_grace : ℕ
  pub min_suspend : ℕ

pub record MaintenanceResumeConfig : Type 0 where
  pub enabled : Bool
  pub interval : ℕ
  pub duration : ℕ

pub record GuardsConfig : Type 0 where
  pub audio_active : GuardAction
  pub mic_active : GuardAction
  pub camera_active : GuardAction
  pub fullscreen : GuardAction
  pub input_idle : Option ℕ

pub record ProtectionConfig : Type 0 where
  pub dbus_check : Bool
  pub dbus_refresh_interval : ℕ

pub record Defaults : Type 0 where
  pub enabled : Bool
  pub mode : ModeConfig
  pub timing : TimingConfig
  pub maintenance_resume : MaintenanceResumeConfig
  pub guards : GuardsConfig
  pub reconcile_interval : ℕ
  pub protection : ProtectionConfig

pub record Profile : Type 0 where
  pub action : Action
  pub suspend_delay : Option ℕ
  pub nice : Option ℤ
  pub cpu_weight : Option ℕ
  pub cpu_quota : Option Text
  pub maintenance_resume : Option MaintenanceResumeConfig
  pub guards : Option GuardsConfig

pub record PolicyConfig : Type 0 where
  pub use_profile : Option Text
  pub action : Option Action
  pub suspend_delay : Option ℕ
  pub nice : Option ℤ
  pub cpu_weight : Option ℕ
  pub cpu_quota : Option Text
  pub maintenance_resume : Option MaintenanceResumeConfig
  pub guards : Option GuardsConfig

pub record MatchCriteria : Type 0 where
  pub executable : List Text
  pub cmdline_regex : Option Text
  pub wm_class : List Text
  pub app_id : List Text
  pub desktop_file : List Text
  pub window_title_regex : Option Text

pub record Rule : Type 0 where
  pub id : Text
  pub match_criteria : MatchCriteria
  pub policy : PolicyConfig

pub record Config : Type 0 where
  pub version : ℕ
  pub defaults : Defaults
  pub profiles : HashMap Text Profile
  pub rules : List Rule

pub record ResolvedPolicy : Type 0 where
  pub action : Action
  pub suspend_delay : ℕ
  pub resume_grace : ℕ
  pub min_suspend : ℕ
  pub nice : Option ℤ
  pub cpu_weight : Option ℕ
  pub cpu_quota : Option Text
  pub maintenance_resume : MaintenanceResumeConfig
  pub guards : GuardsConfig
  pub matched_rule : Option Text
  pub matched_profile : Option Text

abbrev pub default_mode : ModeConfig
default_mode = record { ac = disable; battery = enable }

abbrev pub default_timing : TimingConfig
default_timing = record { suspend_delay = 30000; resume_grace = 3000; min_suspend = 5000 }

abbrev pub default_maintenance : MaintenanceResumeConfig
default_maintenance = record { enabled = false; interval = 30000; duration = 1000 }

abbrev pub default_guards : GuardsConfig
default_guards = record {
  audio_active = check;
  mic_active = check;
  camera_active = check;
  fullscreen = check;
  input_idle = none;
}

abbrev pub default_protection : ProtectionConfig
default_protection = record { dbus_check = true; dbus_refresh_interval = 300000 }

abbrev pub default_defaults : Defaults
default_defaults = record {
  enabled = true;
  mode = default_mode;
  timing = default_timing;
  maintenance_resume = default_maintenance;
  guards = default_guards;
  reconcile_interval = 30000;
  protection = default_protection;
}

abbrev pub default_config : Config
default_config = record { version = 1; defaults = default_defaults; profiles = []; rules = [] }

abbrev pub base_policy : ResolvedPolicy
base_policy = record {
  action = freeze;
  suspend_delay = 30000;
  resume_grace = 3000;
  min_suspend = 5000;
  nice = none;
  cpu_weight = none;
  cpu_quota = none;
  maintenance_resume = default_maintenance;
  guards = default_guards;
  matched_rule = none;
  matched_profile = none;
}

abbrev pub throttle_params : ResolvedPolicy → ThrottleParams
throttle_params p = record { nice = p.nice; cpu_weight = p.cpu_weight; cpu_quota = p.cpu_quota }

abbrev pub profile_of : Config → PolicyConfig → Option Profile
profile_of c policy = and_then policy.use_profile (λ name. get name c.profiles)

-- A setting of the rule comes first, then the profile's, then the default.
unfoldable pub resolve_policy : Config → PolicyConfig → ResolvedPolicy
resolve_policy c policy =
    let profile = profile_of c policy in
    record {
      action = unwrap_or (or_else policy.action (option_map (λ p. p.action) profile)) freeze;
      suspend_delay =
          unwrap_or (or_else policy.suspend_delay (and_then profile (λ p. p.suspend_delay)))
            c.defaults.timing.suspend_delay;
      resume_grace = c.defaults.timing.resume_grace;
      min_suspend = c.defaults.timing.min_suspend;
      nice = or_else policy.nice (and_then profile (λ p. p.nice));
      cpu_weight = or_else policy.cpu_weight (and_then profile (λ p. p.cpu_weight));
      cpu_quota = or_else policy.cpu_quota (and_then profile (λ p. p.cpu_quota));
      maintenance_resume =
          unwrap_or
            (or_else policy.maintenance_resume (and_then profile (λ p. p.maintenance_resume)))
            c.defaults.maintenance_resume;
      guards =
          unwrap_or (or_else policy.guards (and_then profile (λ p. p.guards))) c.defaults.guards;
      matched_rule = none;
      matched_profile = policy.use_profile;
    }

unfoldable pub default_policy : Config → ResolvedPolicy
default_policy c = record base_policy {
  suspend_delay = c.defaults.timing.suspend_delay;
  resume_grace = c.defaults.timing.resume_grace;
  min_suspend = c.defaults.timing.min_suspend;
  maintenance_resume = c.defaults.maintenance_resume;
  guards = c.defaults.guards;
}
