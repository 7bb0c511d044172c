-- ===== src/Prelude/Keys.antt =====
-- Equality as the program's collections use it: a Boolean test that is an equivalence.
use Prim.Native.Nat.{ℕ}
use mathlib.Core.Path.{◌≡◌, sym}
use mathlib.Core.Logic.{inl, inr}
use mathlib.Core.List.{List, [], ◌∷◌}
use mathlib.Core.Bool.{Bool, true, false, ◌||◌}
use native.Mathlib.Omega.{arith}
use app_powerd.Prelude.Tests.{◌==◌, Bool-cases}
use app_powerd.Prelude.Lists.{In}

-- `PartialEq` and `Eq`. Two values may be equal and not identical.
pub record Eq {ℓ} (A : Type ℓ) : Type ℓ where
  pub same : A → A → Bool
  pub same_refl : (a : A) → same a a ≡ true
  pub same_sym : (a b : A) → same a b ≡ same b a
  pub same_trans : (a b c : A) → same a b ≡ true → same a c ≡ same b c

abbrev pub same {ℓ} : {A : Type ℓ} ⦃e : Eq A⦄ → A → A → Bool
same ⦃e⦄ = e.same

pub same-ℕ_refl : (a : ℕ) → (a == a) ≡ true
same-ℕ_refl a = ground arith

pub same-ℕ_sym : (a b : ℕ) → (a == b) ≡ (b == a)
same-ℕ_sym a b = ground arith

pub same-ℕ_trans : (a b c : ℕ) → (a == b) ≡ true → (a == c) ≡ (b == c)
same-ℕ_trans a b c h = ground arith

instance abbrev pub nat_eq : Eq ℕ
nat_eq = record {
  same = ◌==◌;
  same_refl = same-ℕ_refl;
  same_sym = same-ℕ_sym;
  same_trans = same-ℕ_trans;
}

-- `Vec::contains`.
unfoldable pub contains {ℓ} : {A : Type ℓ} ⦃e : Eq A⦄ → List A → A → Bool
contains [] a = false
contains ⦃e⦄ (x ∷ xs) a = e.same x a || contains xs a

-- Where equal values are identical, `contains` is membership.
module _ {A : Type 0} ⦃e : Eq A⦄ (exact : (a b : A) → e.same a b ≡ true → a ≡ b) where
  pub In-of-contains : (xs : List A) (a : A) → contains xs a ≡ true → In a xs
  unfolding contains
  In-of-contains [] a h = cc
  In-of-contains (x ∷ xs) a h = elim (Bool-cases (e.same x a)) [
    | inl s ↦ inl (sym (exact x a s))
    | inr s ↦ inr (In-of-contains xs a (rw s at h))
  ]

pub contains-of-In : {A : Type 0} ⦃e : Eq A⦄ (xs : List A) (a : A) → In a xs → contains xs a ≡ true
unfolding contains
contains-of-In [] a h = elim h [ ]
contains-of-In ⦃e⦄ (x ∷ xs) a (inl here) = rw (here, e.same_refl x)
contains-of-In ⦃e⦄ (x ∷ xs) a (inr h) = elim (Bool-cases (e.same x a)) [
  | inl s ↦ rw s
  | inr s ↦ rw s (contains-of-In xs a h)
]

pub not-contains-of-not-In :
    {A : Type 0} ⦃e : Eq A⦄ (exact : (a b : A) → e.same a b ≡ true → a ≡ b) (xs : List A) (a : A)
    → ¬ In a xs
    → contains xs a ≡ false
not-contains-of-not-In exact xs a h = elim (Bool-cases (contains xs a)) [
  | inl s ↦ absurd (h (In-of-contains exact xs a s))
  | inr s ↦ s
]
