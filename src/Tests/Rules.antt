-- ===== src/Tests/Rules.antt =====
-- Theorems on rules and the registry, at concrete ones.
use app_powerd.Prelude.{
  ℕ, ◌≡◌, ◌≤◌, length, Distinct, refl, [], ◌∷◌, Bool, Option, none, some, Text, codes, text_eq, get,
}
use app_powerd.Host.{Trace}
use app_powerd.Desktop.Identity.{AppId, app_eq}
use app_powerd.Config.{Config, Rule, default_config, ignore}
use app_powerd.Config.Matching.{
  RulesEngine, new, context_of, match_window, compile_rule, compile_from,
}
use app_powerd.Config.Precedence.{first_match, match_window-first_match}
use app_powerd.State.Machine.{background}
use app_powerd.State.AppEntry.{AppEntry}
use app_powerd.State.Registry.{modify, insert_entry, remove_app, remove_window}
use app_powerd.State.Registry.Windows.{IsConsistent, registry-IsConsistent}
use app_powerd.Engine.RateLimit.{RateLimiter, for_app, allow, log_key}
use app_powerd.Engine.RateLimit.Bounded.{allow-bounded}
use app_powerd.Tests.Data.{host, window, registry_in}

-- A pattern that matches itself.
abbrev regex : Text → Option (Text → Bool)
regex pattern' = some (text_eq pattern')

abbrev rule : Rule
rule = record {
  id = codes "editor";
  match_criteria = record {
    executable = [];
    cmdline_regex = none;
    wm_class = codes "MOUSEPAD" ∷ [];
    app_id = [];
    desktop_file = [];
    window_title_regex = none;
  };
  policy = record {
    use_profile = none;
    action = some ignore;
    suspend_delay = none;
    nice = none;
    cpu_weight = none;
    cpu_quota = none;
    maintenance_resume = none;
    guards = none;
  };
}

abbrev config : Config
config = record default_config { rules = rule ∷ [] }

abbrev rules_engine : RulesEngine
rules_engine = record {
  compiled =
      record {
        id = codes "editor";
        executables = [];
        wm_classes = codes "MOUSEPAD" ∷ [];
        app_ids = [];
        desktop_files = [];
        cmdline_regex = none;
        window_title_regex = none;
        policy_index = 0;
      }
      ∷ [];
  config = config;
}

match_window-first_match_example :
    match_window rules_engine (context_of window)
    ≡ first_match regex config (context_of window) (rule ∷ [])
unfolding new compile_from compile_rule
match_window-first_match_example =
    match_window-first_match regex config (context_of window) rules_engine refl

registry-IsConsistent_example :
    let r = registry_in background in
    ((x : AppEntry) (t : Trace) → IsConsistent (insert_entry x r t).0)
    × (((id : AppId) (f : AppEntry → AppEntry) → IsConsistent (modify id f r))
        × (((id : AppId) → IsConsistent (remove_app id r).0)
            × ((wid : ℕ) → IsConsistent (remove_window wid r).0)))
unfolding get
registry-IsConsistent_example = registry-IsConsistent (registry_in background) (refl, tt)

abbrev known : RateLimiter
known = record { window = 300000; seen = (for_app (codes "gimp") (codes "freeze"), 5) ∷ [] }

allow-bounded_example :
    (length (allow host (for_app (codes "gimp") (codes "thaw")) known []).0.0.seen ≤ 1025)
    × Distinct (allow host (for_app (codes "gimp") (codes "thaw")) known []).0.0.seen
allow-bounded_example = allow-bounded host (for_app (codes "gimp") (codes "thaw")) known [] (tt, tt)
