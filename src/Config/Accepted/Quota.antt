-- ===== src/Config/Accepted/Quota.antt =====
-- The CPU share that `check_quota` (crates/app-powerd-core/src/config/loader.rs) accepts, as
-- `set_cpu_max` (system/cgroup.rs) reads it.
use app_powerd.Prelude.{
  ℕ, ◌+◌, ◌*◌, ◌-◌, ◌≡◌, refl, ◌∙◌, ap, inl, inr, [], ◌∷◌, true, false, ◌&&◌, ◌||◌, Option, none,
  some, Text, ◌==◌, leb, ltb, is_some, is_digit, strip_last, unwrap_or, parse_unsigned,
  parse_digits, digits_value, without_plus, text_key, Bool-cases, Option-cases, arith,
  if◌then◌else◌,
}
use app_powerd.System.Cgroup.{trim_percent, cpu_max_value}
use app_powerd.Config.Validation.{ok, check_quota}

-- What `strip_last` and `trim_percent` do with one more character in front.
abbrev strip_after : ℕ → Option Text → Option Text
strip_after c none = none
strip_after c (some r) = some (c ∷ r)

abbrev trim_after : ℕ → Text → Text
trim_after c [] = if c == b'%' then [] else c ∷ []
trim_after c (d ∷ r) = c ∷ d ∷ r

after_none : (c : ℕ) (o : Option Text) → strip_after c o ≡ none → o ≡ none
after_none c none h = refl
after_none c (some r) h = cc

after_some :
    (c : ℕ) (o : Option Text) (r : Text)
    → strip_after c o ≡ some r
    → (q : Text) × ((o ≡ some q) × (c ∷ q ≡ r))
after_some c none r h = cc
after_some c (some q) r h = (q, (refl, ap (λ o. unwrap_or o []) h))

one_more :
    (c d : ℕ) (s : Text) → strip_last b'%' (d ∷ s) ≡ none → strip_last b'%' (c ∷ d ∷ s) ≡ none
one_more c d s h = ap (strip_after c) h

tail_digits :
    (acc c : ℕ) (s : Text) (n : ℕ)
    → digits_value acc (c ∷ s) ≡ some n
    → (b : ℕ) × (digits_value b s ≡ some n)
unfolding digits_value
tail_digits acc c s n h = elim (Bool-cases (is_digit c)) [
  | inl d ↦ (10 * acc + (c - b'0'), rw (d, digits_value) at h)
  | inr d ↦ let g = rw (d, digits_value) at h in cc
]

-- Digits do not end in a percent sign.
digits-no_percent :
    (acc : ℕ) (s : Text) (n : ℕ) → digits_value acc s ≡ some n → strip_last b'%' s ≡ none
unfolding digits_value
digits-no_percent acc [] n h = refl
digits-no_percent acc (c ∷ []) n h = ground arith
digits-no_percent acc (c ∷ d ∷ s) n h =
    let rest = tail_digits acc c (d ∷ s) n h in
    one_more c d s (digits-no_percent rest.0 (d ∷ s) n rest.1)

parse_digits-no_percent : (s : Text) (n : ℕ) → parse_digits s ≡ some n → strip_last b'%' s ≡ none
unfolding parse_digits
parse_digits-no_percent [] n h = refl
parse_digits-no_percent (c ∷ s) n h = digits-no_percent 0 (c ∷ s) n h

plus-no_percent :
    (c : ℕ) (s : Text)
    → (c == b'+') ≡ true
    → strip_last b'%' s ≡ none
    → strip_last b'%' (c ∷ s) ≡ none
plus-no_percent c [] p h = ground (arith, p)
plus-no_percent c (d ∷ s) p h = one_more c d s h

unsigned-no_percent :
    (s : Text) (n : ℕ) → parse_digits (without_plus s) ≡ some n → strip_last b'%' s ≡ none
unfolding without_plus
unsigned-no_percent [] n h = refl
unsigned-no_percent (c ∷ s) n h = elim (Bool-cases (c == b'+')) [
  | inl p ↦ plus-no_percent c s p (parse_digits-no_percent s n (rw p at h))
  | inr p ↦ parse_digits-no_percent (c ∷ s) n (rw p at h)
]

-- With no percent sign at the end there is nothing to trim.
trim-no_percent : (s : Text) → strip_last b'%' s ≡ none → trim_percent s ≡ s
unfolding trim_percent
trim-no_percent [] h = refl
trim-no_percent (c ∷ []) h = ground arith
trim-no_percent (c ∷ d ∷ s) h =
    ap (trim_after c) (trim-no_percent (d ∷ s) (after_none c (strip_last b'%' (d ∷ s)) h))

-- One percent sign is trimmed like the rest of them.
trim-strip : (s r : Text) → strip_last b'%' s ≡ some r → trim_percent s ≡ trim_percent r
unfolding trim_percent
trim-strip [] r h = cc
trim-strip (c ∷ []) r h = elim (Bool-cases (c == b'%')) [
  | inl p ↦ let g = rw p at h in rw p (ap (λ o. trim_percent (unwrap_or o [])) g)
  | inr p ↦ let g = rw p at h in cc
]
trim-strip (c ∷ d ∷ s) r h =
    let q = after_some c (strip_last b'%' (d ∷ s)) r h in
    ap (trim_after c) (trim-strip (d ∷ s) q.0 q.1.0) ∙ ap trim_percent q.1.1

-- The number of a share that was accepted is the number that the control reads.
abbrev numeric_of : Text → Text
numeric_of quota = unwrap_or (strip_last b'%' quota) quota

trim-numeric :
    (quota : Text) (n : ℕ)
    → parse_digits (without_plus (numeric_of quota)) ≡ some n
    → trim_percent quota ≡ numeric_of quota
trim-numeric quota n h = elim (Option-cases (strip_last b'%' quota)) [
  | inl none' ↦ rw none' (trim-no_percent quota none')
  | inr found ↦
      let g = rw found.1 at h in
      rw found.1 (
        trim-strip quota found.0 found.1
        ∙ trim-no_percent found.0 (unsigned-no_percent found.0 n g))
]

quota-number :
    (quota : Text)
    → check_quota (some quota) ≡ ok
    → (n : ℕ) × ((parse_unsigned 32 (numeric_of quota) ≡ some n) × ((leb 1 n && leb n 100) ≡ true))
unfolding check_quota
quota-number quota h = elim (Option-cases (parse_unsigned 32 (numeric_of quota))) [
  | inl bad ↦ let g = rw (bad, check_quota) at h in cc
  | inr found ↦ elim (Bool-cases (leb 1 found.0 && leb found.0 100)) [
    | inl fine ↦ (found.0, (found.1, fine))
    | inr out ↦ let g = rw (found.1, out, check_quota) at h in cc
  ]
]

number-digits :
    (s : Text) (n : ℕ)
    → parse_unsigned 32 s ≡ some n
    → (k : ℕ) × (parse_digits (without_plus s) ≡ some k)
unfolding parse_unsigned
number-digits s n h = elim (Option-cases (parse_digits (without_plus s))) [
  | inl bad ↦ let g = rw (bad, parse_unsigned) at h in cc
  | inr found ↦ found
]

pub quota-accepted :
    (quota : Text) → check_quota (some quota) ≡ ok → is_some (cpu_max_value quota) ≡ true
unfolding cpu_max_value
quota-accepted quota h =
    let v = quota-number quota h in
    let digits = number-digits (numeric_of quota) v.0 v.1.0 in
    let same = trim-numeric quota digits.0 digits.1 in
    let in_range' = v.1.1 in
    let inside : ((v.0 == 0) || ltb 100 v.0) ≡ false = ground (arith, in_range') in
    rw (same, v.1.0, cpu_max_value) (rw inside refl)
