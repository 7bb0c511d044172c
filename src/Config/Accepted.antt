-- ===== src/Config/Accepted.antt =====
-- What a configuration that passed the checks of crates/app-powerd-core/src/config/loader.rs can ask
-- of the cgroup controls (system/cgroup.rs).
mod Quota
use Quota.{quota-accepted}
use app_powerd.Prelude.{
  ℕ, ◌+◌, ◌*◌, ◌-◌, ◌≡◌, refl, ◌∙◌, sym, ap, subst, text_eq, is_empty, ℤ, inl, inr, List, [], ◌∷◌,
  Bool, true, false, ◌&&◌, ◌||◌, ◌≤◌, Option, none, some, Text, ◌==◌, leb, ltb, is_some, is_digit,
  strip_last, unwrap_or, parse_unsigned, parse_digits, digits_value, without_plus, get, text_key,
  HashMap, In, Bool-cases, Option-cases, or_else, and_then, arith, if◌then◌else◌,
}
use app_powerd.System.Cgroup.{trim_percent, cpu_max_value}
use app_powerd.Config.{Config, Rule, Profile, resolve_policy}
use app_powerd.Config.Validation.{
  Validated, ok, err, empty_rule_id, unsupported_version, ◌and_check◌, check_nice, check_weight,
  check_quota, validate_throttle_params, check_profiles, check_policies, check_rules, check_rule,
  check_profile_name, check_unique, validate,
}

-- Checks joined by `and_check` have all passed.
and_check-ok : (a b : Validated) → (a and_check b) ≡ ok → (a ≡ ok) × (b ≡ ok)
and_check-ok ok b h = (refl, h)
and_check-ok (err e) b h = cc

AreFine : Option ℕ → Option Text → Type 0
AreFine weight quota =
    ((w : ℕ) → weight ≡ some w → (1 ≤ w) × (w ≤ 10000))
    × ((q : Text) → quota ≡ some q → is_some (cpu_max_value q) ≡ true)

weight-accepted : (w : ℕ) → check_weight (some w) ≡ ok → (1 ≤ w) × (w ≤ 10000)
unfolding check_weight
weight-accepted w h = elim (Bool-cases (leb 1 w && leb w 10000)) [
  | inl fine ↦ (ground (arith, fine), ground (arith, fine))
  | inr out ↦ let g = rw (out, check_weight) at h in cc
]

params-fine :
    (nice : Option ℤ) (weight : Option ℕ) (quota : Option Text)
    → validate_throttle_params nice weight quota ≡ ok
    → AreFine weight quota
unfolding validate_throttle_params AreFine
params-fine nice weight quota h =
    let rest =
      (and_check-ok (check_nice nice) (check_weight weight and_check check_quota quota) h).1 in
    let both = and_check-ok (check_weight weight) (check_quota quota) rest in
    (
      λ w e. weight-accepted w (subst (λ o. check_weight o ≡ ok) e both.0),
      λ q e. quota-accepted q (subst (λ o. check_quota o ≡ ok) e both.1),
    )

none-fine : AreFine none none
unfolding AreFine
none-fine = ((λ w e. cc), λ q e. cc)

or_else-fine :
    (w v : Option ℕ) (q r : Option Text)
    → AreFine w q
    → AreFine v r
    → AreFine (or_else w v) (or_else q r)
unfolding AreFine
or_else-fine none v none r a b = b
or_else-fine none v (some q) r a b = (b.0, a.1)
or_else-fine (some w) v none r a b = (a.0, b.1)
or_else-fine (some w) v (some q) r a b = a

policies-fine :
    (rules : List Rule) (rule : Rule)
    → check_policies rules ≡ ok
    → In rule rules
    → AreFine rule.policy.cpu_weight rule.policy.cpu_quota
unfolding check_policies
policies-fine [] rule h i = absurd i
policies-fine (x ∷ rules) rule h (inl here) =
    let both =
      and_check-ok (validate_throttle_params x.policy.nice x.policy.cpu_weight x.policy.cpu_quota)
        (check_policies rules) h in
    subst (λ (y : Rule). AreFine y.policy.cpu_weight y.policy.cpu_quota) (sym here)
      (params-fine x.policy.nice x.policy.cpu_weight x.policy.cpu_quota both.0)
policies-fine (x ∷ rules) rule h (inr i) =
    policies-fine rules rule
      (and_check-ok (validate_throttle_params x.policy.nice x.policy.cpu_weight x.policy.cpu_quota)
        (check_policies rules) h).1
      i

profiles-fine :
    (ps : HashMap Text Profile) (name : Text) (p : Profile)
    → check_profiles ps ≡ ok
    → get name ps ≡ some p
    → AreFine p.cpu_weight p.cpu_quota
unfolding check_profiles get
profiles-fine [] name p h g = cc
profiles-fine ((n, x) ∷ ps) name p h g =
    let both =
      and_check-ok (validate_throttle_params x.nice x.cpu_weight x.cpu_quota) (check_profiles ps)
        h in
    elim (Bool-cases (text_eq n name)) [
      | inl here ↦
          let g' = rw (here, get) at g in
          let same : x ≡ p = ap (λ o. unwrap_or o x) g' in
          subst (λ (y : Profile). AreFine y.cpu_weight y.cpu_quota) same
            (params-fine x.nice x.cpu_weight x.cpu_quota both.0)
      | inr there ↦ profiles-fine ps name p both.1 (rw (there, get) at g)
    ]

rules-named :
    (ps : HashMap Text Profile) (rules : List Rule) (rule : Rule)
    → check_rules ps rules ≡ ok
    → In rule rules
    → check_profile_name ps rule.id rule.policy.use_profile ≡ ok
unfolding check_rules check_rule
rules-named ps [] rule h i = absurd i
rules-named ps (x ∷ rules) rule h (inl here) =
    let first' = (and_check-ok (check_rule ps x) (check_rules ps rules) h).0 in
    subst (λ (y : Rule). check_profile_name ps y.id y.policy.use_profile ≡ ok) (sym here)
      (and_check-ok (if is_empty x.id then err empty_rule_id else ok)
        (check_profile_name ps x.id x.policy.use_profile) first').1
rules-named ps (x ∷ rules) rule h (inr i) =
    rules-named ps rules rule (and_check-ok (check_rule ps x) (check_rules ps rules) h).1 i

inherited-fine :
    (c : Config) (name : Option Text)
    → check_profiles c.profiles ≡ ok
    → let profile = and_then name (λ n. get n c.profiles) in
      AreFine (and_then profile (λ p. p.cpu_weight)) (and_then profile (λ p. p.cpu_quota))
inherited-fine c none h = none-fine
inherited-fine c (some n) h = elim (Option-cases (get n c.profiles)) [
  | inl absent ↦ rw absent none-fine
  | inr found ↦ rw found.1 (profiles-fine c.profiles n found.0 h found.1)
]

named-found :
    (ps : HashMap Text Profile) (id name : Text)
    → check_profile_name ps id (some name) ≡ ok
    → is_some (get name ps) ≡ true
unfolding check_profile_name
named-found ps id name h = elim (Bool-cases (is_some (get name ps))) [
  | inl yes' ↦ yes'
  | inr no' ↦ let g = rw (no', check_profile_name) at h in cc
]

-- Every policy of a configuration that passed the checks can be carried out: a CPU share that it
-- resolves to, the rule's own or its profile's, is one that the control accepts; a weight is from 1
-- to 10000; and the profile that the rule names is there.
pub validate-accepted :
    (c : Config) (rule : Rule)
    → validate c ≡ ok
    → In rule c.rules
    → ((q : Text)
        → (resolve_policy c rule.policy).cpu_quota ≡ some q
        → is_some (cpu_max_value q) ≡ true)
      × (((w : ℕ) → (resolve_policy c rule.policy).cpu_weight ≡ some w → (1 ≤ w) × (w ≤ 10000))
          × ((name : Text)
              → rule.policy.use_profile ≡ some name
              → is_some (get name c.profiles) ≡ true))
unfolding validate resolve_policy AreFine
validate-accepted c rule h i =
    let versioned = if c.version == 1 then ok else err (unsupported_version c.version) in
    let s1 =
      and_check-ok versioned
        (check_rules c.profiles c.rules
          and_check check_unique [] c.rules
          and_check check_profiles c.profiles
          and_check check_policies c.rules)
        h in
    let s2 =
      and_check-ok (check_rules c.profiles c.rules)
        (check_unique [] c.rules
          and_check check_profiles c.profiles
          and_check check_policies c.rules)
        s1.1 in
    let s3 =
      and_check-ok (check_unique [] c.rules)
        (check_profiles c.profiles and_check check_policies c.rules) s2.1 in
    let s4 = and_check-ok (check_profiles c.profiles) (check_policies c.rules) s3.1 in
    let fine =
      or_else-fine rule.policy.cpu_weight _ rule.policy.cpu_quota _
        (policies-fine c.rules rule s4.1 i) (inherited-fine c rule.policy.use_profile s4.0) in
    (
      fine.1,
      (
        fine.0,
        λ name e. named-found c.profiles rule.id name (
            subst (λ o. check_profile_name c.profiles rule.id o ≡ ok) e
              (rules-named c.profiles c.rules rule s2.0 i)),
      ),
    )
