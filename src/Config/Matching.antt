-- ===== src/Config/Matching.antt =====
-- Rules and how a window is matched: crates/app-powerd-core/src/config/matching.rs. The regex library
-- is a parameter: it compiles a pattern to the test of a text, or refuses it.
use app_powerd.Prelude.{
  ℕ, suc, List, [], ◌∷◌, Bool, true, ◌&&◌, Option, none, some, Text, eq_ignore_ascii_case, any,
  is_empty, unwrap_or, get_elem?, option_map, if◌then◌else◌,
}
use app_powerd.Desktop.{WindowInfo}
use app_powerd.Config.{Config, Rule, ResolvedPolicy, resolve_policy, default_policy}

pub record CompiledRule : Type 0 where
  pub id : Text
  pub executables : List Text
  pub wm_classes : List Text
  pub app_ids : List Text
  pub desktop_files : List Text
  pub cmdline_regex : Option (Text → Bool)
  pub window_title_regex : Option (Text → Bool)
  pub policy_index : ℕ

pub record MatchContext : Type 0 where
  pub executable : Text
  pub cmdline : Text
  pub wm_class : Text
  pub app_id : Text
  pub desktop_file : Text
  pub window_title : Text

-- The desktop file is filled in by the caller.
abbrev pub context_of : WindowInfo → MatchContext
context_of w = record {
  executable = unwrap_or w.executable [];
  cmdline = unwrap_or w.cmdline [];
  wm_class = unwrap_or w.wm_class [];
  app_id = unwrap_or w.app_id [];
  desktop_file = [];
  window_title = unwrap_or w.title [];
}

pub record RulesEngine : Type 0 where
  pub compiled : List CompiledRule
  pub config : Config

pub data Compiled {ℓ} (A : Type ℓ) : Type ℓ where
  ok : A → Compiled A
  invalid_regex : Text → Compiled A

infixl 5 ◌>>=◌
abbrev pub ◌>>=◌ {ℓ κ} : {A : Type ℓ} {B : Type κ} → Compiled A → (A → Compiled B) → Compiled B
ok a >>= f = f a
invalid_regex id >>= f = invalid_regex id

module _ (regex : Text → Option (Text → Bool)) where
  unfoldable pub compile_optional_regex : Option Text → Text → Compiled (Option (Text → Bool))
  compile_optional_regex none rule_id = ok none
  compile_optional_regex (some pattern') rule_id = elim (regex pattern') [
    | none ↦ invalid_regex rule_id
    | some test ↦ ok (some test)
  ]

  unfoldable pub compile_rule : Rule → ℕ → Compiled CompiledRule
  unfolding compile_optional_regex
  compile_rule rule index = do
    cmdline ← compile_optional_regex rule.match_criteria.cmdline_regex rule.id
    title ← compile_optional_regex rule.match_criteria.window_title_regex rule.id
    ok (record {
      id = rule.id;
      executables = rule.match_criteria.executable;
      wm_classes = rule.match_criteria.wm_class;
      app_ids = rule.match_criteria.app_id;
      desktop_files = rule.match_criteria.desktop_file;
      cmdline_regex = cmdline;
      window_title_regex = title;
      policy_index = index;
    })

  unfoldable pub compile_from : ℕ → List Rule → Compiled (List CompiledRule)
  compile_from i [] = ok []
  compile_from i (rule ∷ rules) = do
    c ← compile_rule rule i
    cs ← compile_from (suc i) rules
    ok (c ∷ cs)

  -- `RulesEngine::new`.
  unfoldable pub new : Config → Compiled RulesEngine
  new config = do
    compiled ← compile_from 0 config.rules
    ok (record { compiled = compiled; config = config })

abbrev pub any_eq : List Text → Text → Bool
any_eq candidates value = any (λ c. eq_ignore_ascii_case c value) candidates

-- An empty list of names asks nothing.
abbrev pub names_match : List Text → Text → Bool
names_match candidates value = if is_empty candidates then true else any_eq candidates value

abbrev pub regex_matches : Option (Text → Bool) → Text → Bool
regex_matches none value = true
regex_matches (some test) value = test value

unfoldable pub matches_rule : CompiledRule → MatchContext → Bool
unfolding any
matches_rule rule ctx =
    names_match rule.executables ctx.executable
    && (names_match rule.wm_classes ctx.wm_class
        && (names_match rule.app_ids ctx.app_id
            && (names_match rule.desktop_files ctx.desktop_file
                && (regex_matches rule.cmdline_regex ctx.cmdline
                    && regex_matches rule.window_title_regex ctx.window_title))))

-- The policy of the rule that a compiled rule came from. `none`: the index is out of bounds, which
-- panics in the source.
unfoldable pub rule_policy : Config → CompiledRule → Option ResolvedPolicy
rule_policy config c =
    option_map (λ rule. record (resolve_policy config rule.policy) { matched_rule = some c.id })
      (get_elem? config.rules c.policy_index)

-- The first rule that matches decides.
unfoldable pub match_from : Config → MatchContext → List CompiledRule → Option ResolvedPolicy
unfolding rule_policy
match_from config ctx [] = some (default_policy config)
match_from config ctx (c ∷ cs) =
    if matches_rule c ctx then rule_policy config c else match_from config ctx cs

unfoldable pub match_window : RulesEngine → MatchContext → Option ResolvedPolicy
unfolding match_from
match_window engine ctx = match_from engine.config ctx engine.compiled
