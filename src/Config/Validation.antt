-- ===== src/Config/Validation.antt =====
-- Checks on a parsed configuration: `validate` of crates/app-powerd-core/src/config/loader.rs.
use app_powerd.Prelude.{
  ℕ, List, [], ◌∷◌, ◌&&◌, Option, none, some, Text, ℤ, in_range, leb, ◌==◌, is_empty, is_some,
  contains, get, HashMap, text_key, strip_last, unwrap_or, parse_unsigned, if◌then◌else◌,
}
use app_powerd.Config.{Config, Rule, Profile}

pub data Invalid : Type 0 where
  unsupported_version : ℕ → Invalid
  empty_rule_id : Invalid
  unknown_profile : Text → Text → Invalid
  duplicate_rule_id : Text → Invalid
  bad_nice : ℤ → Invalid
  bad_weight : ℕ → Invalid
  bad_quota_text : Text → Invalid
  bad_quota : ℕ → Invalid

pub data Validated : Type 0 where
  ok : Validated
  err : Invalid → Validated

-- `?` between two checks.
infixr 5 ◌and_check◌
abbrev pub ◌and_check◌ : Validated → Validated → Validated
ok and_check rest = rest
err e and_check rest = err e

unfoldable pub check_nice : Option ℤ → Validated
check_nice none = ok
check_nice (some nice) = if in_range 19 19 nice then ok else err (bad_nice nice)

unfoldable pub check_weight : Option ℕ → Validated
check_weight none = ok
check_weight (some weight) =
    if leb 1 weight && leb weight 10000 then ok else err (bad_weight weight)

unfoldable pub check_quota : Option Text → Validated
check_quota none = ok
check_quota (some quota) = elim (parse_unsigned 32 (unwrap_or (strip_last b'%' quota) quota)) [
  | none ↦ err (bad_quota_text quota)
  | some value ↦ if leb 1 value && leb value 100 then ok else err (bad_quota value)
]

unfoldable pub validate_throttle_params : Option ℤ → Option ℕ → Option Text → Validated
validate_throttle_params nice weight quota =
    check_nice nice and_check check_weight weight and_check check_quota quota

unfoldable pub check_profile_name : HashMap Text Profile → Text → Option Text → Validated
check_profile_name profiles id none = ok
check_profile_name profiles id (some name) =
    if is_some (get name profiles) then ok else err (unknown_profile id name)

unfoldable pub check_rule : HashMap Text Profile → Rule → Validated
check_rule profiles rule =
    (if is_empty rule.id then err empty_rule_id else ok)
    and_check check_profile_name profiles rule.id rule.policy.use_profile

unfoldable pub check_rules : HashMap Text Profile → List Rule → Validated
check_rules profiles [] = ok
check_rules profiles (rule ∷ rules) = check_rule profiles rule and_check check_rules profiles rules

-- `seen` holds the ids met so far.
unfoldable pub check_unique : List Text → List Rule → Validated
check_unique seen [] = ok
check_unique seen (rule ∷ rules) =
    (if contains seen rule.id then err (duplicate_rule_id rule.id) else ok)
    and_check check_unique (rule.id ∷ seen) rules

unfoldable pub check_profiles : HashMap Text Profile → Validated
check_profiles [] = ok
check_profiles ((name, p) ∷ ps) =
    validate_throttle_params p.nice p.cpu_weight p.cpu_quota and_check check_profiles ps

unfoldable pub check_policies : List Rule → Validated
check_policies [] = ok
check_policies (rule ∷ rules) =
    validate_throttle_params rule.policy.nice rule.policy.cpu_weight rule.policy.cpu_quota
    and_check check_policies rules

unfoldable pub validate : Config → Validated
validate c =
    (if c.version == 1 then ok else err (unsupported_version c.version))
    and_check check_rules c.profiles c.rules
    and_check check_unique [] c.rules
    and_check check_profiles c.profiles
    and_check check_policies c.rules
