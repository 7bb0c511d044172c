-- ===== src/Config/Precedence.antt =====
-- Which rule and which setting decides: `match_window` of crates/app-powerd-core/src/config/matching.rs
-- and `resolve_policy` of crates/app-powerd-core/src/config/mod.rs.
use app_powerd.Prelude.{
  ℕ, suc, ◌≡◌, refl, sym, ap, ◌∙◌, List, [], ◌∷◌, ◌++◌, Bool, Option, none, some, Text, length,
  length-append, get_elem?, arith, if◌then◌else◌,
}
use app_powerd.Config.{Config, Rule, ResolvedPolicy, resolve_policy, default_policy}
use app_powerd.Config.Matching.{
  CompiledRule, MatchContext, RulesEngine, Compiled, ok, invalid_regex, compile_optional_regex,
  compile_rule, compile_from, ◌>>=◌, new, matches_rule, rule_policy, match_from, match_window,
}

get_elem?-middle :
    {A : Type 0} (pre : List A) (x : A) (post : List A)
    → get_elem? (pre ++ x ∷ post) (length pre) ≡ some x
get_elem?-middle [] x post = refl
get_elem?-middle (y ∷ pre) x post = get_elem?-middle pre x post

append_one :
    {A : Type 0} (pre : List A) (x : A) (post : List A) → (pre ++ x ∷ []) ++ post ≡ pre ++ x ∷ post
append_one [] x post = refl
append_one (y ∷ pre) x post = ap (λ r. y ∷ r) (append_one pre x post)

length-snoc : {A : Type 0} (xs : List A) (x : A) → length (xs ++ x ∷ []) ≡ suc (length xs)
length-snoc xs x = omega (arith, length-append xs (x ∷ []))

-- The policy of a rule, with the rule's name.
abbrev policy_of : Config → Rule → ResolvedPolicy
policy_of config rule = record (resolve_policy config rule.policy) { matched_rule = some rule.id }

-- The rules tried one by one, each compiled alone, and the first that matches taken: what
-- `match_window` is held to. A rule that does not compile leaves no answer.
abbrev decide :
    Config
    → MatchContext
    → Rule
    → Option ResolvedPolicy
    → Compiled CompiledRule
    → Option ResolvedPolicy
decide config ctx rule rest (ok c) =
    if matches_rule c ctx then some (policy_of config rule) else rest
decide config ctx rule rest (invalid_regex id) = none

unfoldable pub first_match :
    (Text → Option (Text → Bool)) → Config → MatchContext → List Rule → Option ResolvedPolicy
first_match regex config ctx [] = some (default_policy config)
first_match regex config ctx (rule ∷ rules) =
    decide config ctx rule (first_match regex config ctx rules) (compile_rule regex rule 0)

module _ (regex : Text → Option (Text → Bool)) (config : Config) (ctx : MatchContext) where
  -- Two compilations of one rule, the first at place `i`.
  abbrev IsSameRule : Rule → ℕ → Compiled CompiledRule → Compiled CompiledRule → Type 0
  IsSameRule rule i (ok c) (ok d) =
      (matches_rule c ctx ≡ matches_rule d ctx) × ((c.policy_index ≡ i) × (c.id ≡ rule.id))
  IsSameRule rule i (invalid_regex a) (invalid_regex b) = Unit
  IsSameRule rule i _ _ = ⊥

  abbrev build :
      Rule
      → ℕ
      → Compiled (Option (Text → Bool))
      → Compiled (Option (Text → Bool))
      → Compiled CompiledRule
  build rule i a b = do
    cmdline ← a
    title ← b
    ok (record {
      id = rule.id;
      executables = rule.match_criteria.executable;
      wm_classes = rule.match_criteria.wm_class;
      app_ids = rule.match_criteria.app_id;
      desktop_files = rule.match_criteria.desktop_file;
      cmdline_regex = cmdline;
      window_title_regex = title;
      policy_index = i;
    })

  build-IsSameRule :
      (rule : Rule) (i : ℕ) (a b : Compiled (Option (Text → Bool)))
      → IsSameRule rule i (build rule i a b) (build rule 0 a b)
  unfolding matches_rule
  build-IsSameRule rule i (ok x) (ok y) = (refl, (refl, refl))
  build-IsSameRule rule i (ok x) (invalid_regex id) = tt
  build-IsSameRule rule i (invalid_regex id) b = tt

  compile_rule-IsSameRule :
      (rule : Rule) (i : ℕ)
      → IsSameRule rule i (compile_rule regex rule i) (compile_rule regex rule 0)
  unfolding compile_rule
  compile_rule-IsSameRule rule i =
      build-IsSameRule rule i
        (compile_optional_regex regex rule.match_criteria.cmdline_regex rule.id)
        (compile_optional_regex regex rule.match_criteria.window_title_regex rule.id)

  abbrev IsAgreed : Option ResolvedPolicy → Compiled (List CompiledRule) → Type 0
  IsAgreed want (ok cs) = match_from config ctx cs ≡ want
  IsAgreed want (invalid_regex id) = Unit

  cons-IsAgreed :
      (pre : List Rule) (rule : Rule) (rules : List Rule) (rest : Option ResolvedPolicy)
      (c d : Compiled CompiledRule) (cs : Compiled (List CompiledRule))
      → config.rules ≡ pre ++ rule ∷ rules
      → IsSameRule rule (length pre) c d
      → IsAgreed rest cs
      → IsAgreed (decide config ctx rule rest d) (do x ← c; xs ← cs; ok (x ∷ xs))
  unfolding match_from rule_policy
  cons-IsAgreed pre rule rules rest (ok c) (ok d) (ok cs) whole s a =
      rw (s.0, s.1.0, s.1.1, whole, get_elem?-middle pre rule rules) (rw a)
  cons-IsAgreed pre rule rules rest (ok c) (ok d) (invalid_regex id) whole s a = tt
  cons-IsAgreed pre rule rules rest (ok c) (invalid_regex id) cs whole s a = absurd s
  cons-IsAgreed pre rule rules rest (invalid_regex id) d cs whole s a = tt

  compile_from-IsAgreed :
      (pre rules : List Rule)
      → config.rules ≡ pre ++ rules
      → IsAgreed (first_match regex config ctx rules) (compile_from regex (length pre) rules)
  unfolding compile_from first_match match_from
  compile_from-IsAgreed pre [] whole = refl
  compile_from-IsAgreed pre (rule ∷ rules) whole =
      let later =
        compile_from-IsAgreed (pre ++ rule ∷ []) rules (whole ∙ sym (append_one pre rule rules)) in
      cons-IsAgreed pre rule rules (first_match regex config ctx rules)
        (compile_rule regex rule (length pre)) (compile_rule regex rule 0)
        (compile_from regex (suc (length pre)) rules) whole
        (compile_rule-IsSameRule rule (length pre)) (rw (length-snoc pre rule) at later)

  abbrev IsDecided : Option ResolvedPolicy → Compiled RulesEngine → Type 0
  IsDecided want (ok engine) = match_window engine ctx ≡ want
  IsDecided want (invalid_regex id) = Unit

  built-IsDecided :
      (want : Option ResolvedPolicy) (cs : Compiled (List CompiledRule))
      → IsAgreed want cs
      → IsDecided want (do compiled ← cs; ok (record { compiled = compiled; config = config }))
  unfolding match_window
  built-IsDecided want (ok cs) a = a
  built-IsDecided want (invalid_regex id) a = tt

  -- An engine built from a configuration answers with the policy of the first rule, in the order of
  -- the configuration, that matches the window, and with the default policy if none matches.
  pub match_window-first_match :
      (engine : RulesEngine)
      → new regex config ≡ ok engine
      → match_window engine ctx ≡ first_match regex config ctx config.rules
  unfolding new
  match_window-first_match engine built =
      let decided =
        built-IsDecided (first_match regex config ctx config.rules)
          (compile_from regex 0 config.rules) (compile_from-IsAgreed [] config.rules refl) in
      rw built at decided
