-- ===== src/Engine/RateLimit/Bounded.antt =====
-- How many messages the limiter remembers: `allow` of
-- crates/app-powerd-core/src/engine/rate_limit.rs.
use app_powerd.Prelude.{
  ℕ, zero, suc, ◌+◌, ◌-◌, ◌≡◌, ◌≤◌, refl, ◌∙◌, inl, inr, [], ◌∷◌, true, false, not, is_some, ltb,
  leb, length, length-retain-le, take, retain, HashMap, get, insert, remove, get-remove, NoKey,
  Distinct, Distinct-retain, Distinct-remove, Distinct-insert, All, Bool-cases, arith,
}
use app_powerd.Host.{Host, Trace}
use app_powerd.Engine.RateLimit.{
  LogKey, RateLimiter, same_key, log_key, insert_by_age, by_age, remove_all, evict, seen_recently,
  allow,
}

abbrev Seen : Type 0
Seen = HashMap LogKey ℕ

-- A key that is there.
abbrev IsIn : Seen → LogKey × ℕ → Type 0
IsIn m p = is_some (get p.0 m) ≡ true

module _ (P : LogKey × ℕ → Type 0) where
  All-insert_by_age : (p : LogKey × ℕ) (m : Seen) → P p → All P m → All P (insert_by_age p m)
  unfolding insert_by_age
  All-insert_by_age p [] h a = (h, tt)
  All-insert_by_age p (q ∷ m) h a = elim (Bool-cases (leb p.1 q.1)) [
    | inl older ↦ rw older (h, a)
    | inr newer ↦ rw newer (a.0, All-insert_by_age p m h a.1)
  ]

  All-by_age : (m : Seen) → All P m → All P (by_age m)
  unfolding by_age
  All-by_age [] a = tt
  All-by_age (p ∷ m) a = All-insert_by_age p (by_age m) a.0 (All-by_age m a.1)

  All-take : (n : ℕ) (m : Seen) → All P m → All P (take n m)
  unfolding take
  All-take zero m a = tt
  All-take (suc n) [] a = tt
  All-take (suc n) (p ∷ m) a = (a.0, All-take n m a.1)

NoKey-insert_by_age :
    (j : LogKey) (p : LogKey × ℕ) (m : Seen)
    → same_key j p.0 ≡ false
    → NoKey j m
    → NoKey j (insert_by_age p m)
unfolding insert_by_age
NoKey-insert_by_age j p [] d n = (d, tt)
NoKey-insert_by_age j p (q ∷ m) d n = elim (Bool-cases (leb p.1 q.1)) [
  | inl older ↦ rw older (d, n)
  | inr newer ↦ rw newer (n.0, NoKey-insert_by_age j p m d n.1)
]

NoKey-by_age : (j : LogKey) (m : Seen) → NoKey j m → NoKey j (by_age m)
unfolding by_age
NoKey-by_age j [] n = tt
NoKey-by_age j (p ∷ m) n = NoKey-insert_by_age j p (by_age m) n.0 (NoKey-by_age j m n.1)

Distinct-insert_by_age :
    (p : LogKey × ℕ) (m : Seen) → NoKey p.0 m → Distinct m → Distinct (insert_by_age p m)
unfolding insert_by_age
Distinct-insert_by_age p [] n d = (tt, tt)
Distinct-insert_by_age p (q ∷ m) n d = elim (Bool-cases (leb p.1 q.1)) [
  | inl older ↦ rw older (n, d)
  | inr newer ↦ rw newer (
    NoKey-insert_by_age q.0 p m (log_key.same_sym q.0 p.0 ∙ n.0) d.0,
    Distinct-insert_by_age p m n.1 d.1,
  )
]

Distinct-by_age : (m : Seen) → Distinct m → Distinct (by_age m)
unfolding by_age
Distinct-by_age [] d = tt
Distinct-by_age (p ∷ m) d =
    Distinct-insert_by_age p (by_age m) (NoKey-by_age p.0 m d.0) (Distinct-by_age m d.1)

NoKey-take : (j : LogKey) (n : ℕ) (m : Seen) → NoKey j m → NoKey j (take n m)
unfolding take
NoKey-take j zero m d = tt
NoKey-take j (suc n) [] d = tt
NoKey-take j (suc n) (p ∷ m) d = (d.0, NoKey-take j n m d.1)

Distinct-take : (n : ℕ) (m : Seen) → Distinct m → Distinct (take n m)
unfolding take
Distinct-take zero m d = tt
Distinct-take (suc n) [] d = tt
Distinct-take (suc n) (p ∷ m) d = (NoKey-take p.0 n m d.0, Distinct-take n m d.1)

length-insert_by_age : (p : LogKey × ℕ) (m : Seen) → length (insert_by_age p m) ≡ suc (length m)
unfolding insert_by_age
length-insert_by_age p [] = refl
length-insert_by_age p (q ∷ m) = elim (Bool-cases (leb p.1 q.1)) [
  | inl older ↦ rw older refl
  | inr newer ↦ rw newer (omega (arith, length-insert_by_age p m))
]

length-by_age : (m : Seen) → length (by_age m) ≡ length m
unfolding by_age
length-by_age [] = refl
length-by_age (p ∷ m) = omega (arith, length-insert_by_age p (by_age m), length-by_age m)

length-take : (n : ℕ) (m : Seen) → n ≤ length m → length (take n m) ≡ n
unfolding take
length-take zero m h = refl
length-take (suc n) [] h = absurd (omega (arith, h))
length-take (suc n) (p ∷ m) h = omega (arith, length-take n m (omega (arith, h)))

-- Each entry of a map is under a key that is there.
All-IsIn-more : (q : LogKey × ℕ) (m ps : Seen) → All (IsIn m) ps → All (IsIn (q ∷ m)) ps
unfolding get
All-IsIn-more q m [] a = tt
All-IsIn-more q m (p ∷ ps) a = elim (Bool-cases (same_key q.0 p.0)) [
  | inl s ↦ (rw s refl, All-IsIn-more q m ps a.1)
  | inr s ↦ (rw s a.0, All-IsIn-more q m ps a.1)
]

All-IsIn : (m : Seen) → All (IsIn m) m
unfolding get
All-IsIn [] = tt
All-IsIn (p ∷ m) = (rw (log_key.same_refl p.0) refl, All-IsIn-more p m m (All-IsIn m))

-- Removing a key that is there makes the map shorter.
length-remove : (m : Seen) (p : LogKey × ℕ) → IsIn m p → suc (length (remove p.0 m)) ≤ length m
unfolding get remove retain
length-remove [] p i = cc
length-remove (q ∷ m) p i = elim (Bool-cases (same_key q.0 p.0)) [
  | inl s ↦ rw s (omega (arith, length-retain-le (λ (x : LogKey × ℕ). not (same_key x.0 p.0)) m))
  | inr s ↦ rw s (omega (arith, length-remove m p (rw (s, get) at i)))
]

IsIn-remove : (k : LogKey) (m ps : Seen) → NoKey k ps → All (IsIn m) ps → All (IsIn (remove k m)) ps
IsIn-remove k m [] n a = tt
IsIn-remove k m (p ∷ ps) n a = (rw (get-remove k p.0 m, n.0) a.0, IsIn-remove k m ps n.1 a.1)

length-remove_all :
    (ps m : Seen) → Distinct ps → All (IsIn m) ps → length (remove_all ps m) + length ps ≤ length m
unfolding remove_all
length-remove_all [] m d a = omega arith
length-remove_all (p ∷ ps) m d a = omega (
  arith,
  length-remove m p a.0,
  length-remove_all ps (remove p.0 m) d.1 (IsIn-remove p.0 m ps d.0 a.1),
)

Distinct-remove_all : (ps m : Seen) → Distinct m → Distinct (remove_all ps m)
unfolding remove_all
Distinct-remove_all [] m d = d
Distinct-remove_all (p ∷ ps) m d = Distinct-remove_all ps (remove p.0 m) (Distinct-remove p.0 m d)

-- The oldest that are too many go.
length-trimmed :
    (over : ℕ) (m : Seen)
    → Distinct m
    → over ≤ length m
    → length (remove_all (take over (by_age m)) m) + over ≤ length m
length-trimmed over m d h =
    let sorted = by_age m in
    let oldest = take over sorted in
    let gone =
      length-remove_all oldest m (Distinct-take over sorted (Distinct-by_age m d))
        (All-take (IsIn m) over sorted (All-by_age (IsIn m) m (All-IsIn m))) in
    omega
      (arith, gone, length-by_age m, length-take over sorted (omega (arith, h, length-by_age m)))

-- What is left after an eviction.
IsFew : RateLimiter → Type 0
IsFew l = (length l.seen ≤ 1024) × Distinct l.seen

evict-IsFew : (now : ℕ) (l : RateLimiter) → Distinct l.seen → IsFew (evict now l)
unfolding evict IsFew
evict-IsFew now l d =
    let live = retain (λ p. ltb (now - p.1) l.window) l.seen in
    let distinct = Distinct-retain (λ p. ltb (now - p.1) l.window) l.seen d in
    elim (Bool-cases (leb (length live) 1024)) [
      | inl fits ↦ rw fits (ground (arith, fits), distinct)
      | inr many ↦
          let over = length live - 1024 in
          let more : 1024 ≤ length live = ground (arith, many) in
          rw many (
            omega (arith, more, length-trimmed over live distinct (omega arith)),
            Distinct-remove_all (take over (by_age live)) live distinct,
          )
    ]

length-insert : (k : LogKey) (now : ℕ) (m : Seen) → length (insert k now m) ≤ suc (length m)
unfolding insert
length-insert k now [] = omega arith
length-insert k now (p ∷ m) = elim (Bool-cases (same_key p.0 k)) [
  | inl s ↦ rw s (omega arith)
  | inr s ↦ rw s (omega (arith, length-insert k now m))
]

-- However many messages there are, the limiter remembers no more than 1025 of them after each, and
-- none twice: when it remembered none twice before.
pub allow-bounded :
    (host : Host) (key : LogKey) (l : RateLimiter) (t : Trace)
    → Distinct l.seen
    → (length (allow host key l t).0.0.seen ≤ 1025) × Distinct (allow host key l t).0.0.seen
unfolding allow IsFew
allow-bounded host key l t d =
    let now = host.now t in
    let kept = evict now l in
    let few = evict-IsFew now l d in
    elim (Bool-cases (seen_recently now key kept)) [
      | inl again ↦ rw again (omega (arith, few.0), few.1)
      | inr new' ↦ rw new' (
        omega (arith, few.0, length-insert key now kept.seen),
        Distinct-insert key now kept.seen few.1,
      )
    ]
