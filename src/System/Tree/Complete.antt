-- ===== src/System/Tree/Complete.antt =====
-- The walk of the process tree ends and misses nothing: `descendant_pids` of
-- crates/app-powerd-core/src/system/process.rs.
use mathlib.Core.List.{reverse_aux}
use app_powerd.Prelude.{
  ℕ, zero, suc, ◌+◌, ◌≡◌, ◌≤◌, refl, ◌⊎◌, inl, inr, List, [], ◌∷◌, ◌++◌, reverse, some, subst, sym,
  In, In-append, In-append_left, In-append_right, arith,
}
use app_powerd.Host.{Host, Trace}
use app_powerd.System.Tree.{children_of, walk, descendant_pids}

-- The visits that the processes of a stack are worth.
abbrev pub worth : (ℕ → ℕ) → List ℕ → ℕ
worth weight [] = 0
worth weight (pid ∷ pids) = weight pid + worth weight pids

worth-append :
    (weight : ℕ → ℕ) (xs ys : List ℕ) → worth weight (xs ++ ys) ≡ worth weight xs + worth weight ys
worth-append weight [] ys = omega arith
worth-append weight (x ∷ xs) ys = omega (arith, worth-append weight xs ys)

worth-reverse_aux :
    (weight : ℕ → ℕ) (xs ys : List ℕ)
    → worth weight (reverse_aux xs ys) ≡ worth weight xs + worth weight ys
worth-reverse_aux weight [] ys = omega arith
worth-reverse_aux weight (x ∷ xs) ys = omega (arith, worth-reverse_aux weight xs (x ∷ ys))

In-reverse_aux : (p : ℕ) (xs ys : List ℕ) → In p xs ⊎ In p ys → In p (reverse_aux xs ys)
In-reverse_aux p [] ys (inl i) = absurd i
In-reverse_aux p [] ys (inr i) = i
In-reverse_aux p (x ∷ xs) ys (inl (inl here)) = In-reverse_aux p xs (x ∷ ys) (inr (inl here))
In-reverse_aux p (x ∷ xs) ys (inl (inr i)) = In-reverse_aux p xs (x ∷ ys) (inl i)
In-reverse_aux p (x ∷ xs) ys (inr i) = In-reverse_aux p xs (x ∷ ys) (inr (inr i))

module _ (host : Host) (t : Trace) where
  -- Each process is worth more than its children together: there is such a measure when no process
  -- is its own descendant.
  abbrev pub Outweighs : (ℕ → ℕ) → Type 0
  Outweighs weight = (pid : ℕ) → suc (worth weight (children_of host t pid)) ≤ weight pid

  abbrev pub HasAll : List ℕ → ℕ → Type 0
  HasAll found pid = (c : ℕ) → In c (children_of host t pid) → In c found

  -- What a walk that ends has found.
  abbrev IsClosed : List ℕ → List ℕ → List ℕ → Type 0
  IsClosed stack found all' =
      ((p : ℕ) → In p found → In p all')
      × (((p : ℕ) → In p stack → HasAll all' p)
          × ((p : ℕ) → In p all' → In p found ⊎ HasAll all' p))

  IsClosed-step :
      (pid : ℕ) (stack found all' : List ℕ)
      → let children = children_of host t pid in
        IsClosed (reverse children ++ stack) (found ++ children) all'
        → IsClosed (pid ∷ stack) found all'
  IsClosed-step pid stack found all' r =
      let children = children_of host t pid in
      let pushed : (p : ℕ) → In p children → HasAll all' p = λ p i.
        r.1.0 p
          (In-append_left p (reverse children) stack (In-reverse_aux p children [] (inl i))) in
      (
        λ p i. r.0 p (In-append_left p found children i),
        (
          λ p i. elim i [
            | inl here ↦
                subst (λ q. HasAll all' q) (sym here)
                  (λ c m. r.0 c (In-append_right c found children m))
            | inr below ↦ r.1.0 p (In-append_right p (reverse children) stack below)
          ],
          λ p i. elim (r.1.1 p i) [
            | inr closed' ↦ inr closed'
            | inl m ↦ elim (In-append p found children m) [
              | inl old ↦ inl old
              | inr child ↦ inr (pushed p child)
            ]
          ],
        ),
      )

  walk-ends :
      (weight : ℕ → ℕ)
      → Outweighs weight
      → (fuel : ℕ) (stack found : List ℕ) → worth weight stack ≤ fuel
      → (all' : List ℕ) × ((walk host t fuel stack found ≡ some all') × IsClosed stack found all')
  unfolding walk
  walk-ends weight o fuel [] found h =
      (found, (refl, ((λ p i. i), ((λ p i. absurd i), λ p i. inl i))))
  walk-ends weight o zero (pid ∷ stack) found h = absurd (omega (arith, h, o pid))
  walk-ends weight o (suc fuel) (pid ∷ stack) found h =
      let children = children_of host t pid in
      let rest = walk-ends weight o fuel (reverse children ++ stack) (found ++ children) (
        omega (
          arith,
          h,
          o pid,
          worth-append weight (reverse children) stack,
          worth-reverse_aux weight children [],
        )) in
      (rest.0, (rest.1.0, IsClosed-step pid stack found rest.0 rest.1.1))

-- In a process tree without cycles the walk ends, within as many visits as the root is worth, and it
-- finds all descendants: the children of the root and of everything found are found.
pub descendant_pids_complete :
    (host : Host) (t : Trace) (weight : ℕ → ℕ) (fuel root : ℕ)
    → Outweighs host t weight
    → weight root ≤ fuel
    → (found : List ℕ) × ((descendant_pids host t fuel root ≡ some found)
        × ((p : ℕ) → In p (root ∷ found) → HasAll host t found p))
unfolding descendant_pids
descendant_pids_complete host t weight fuel root o h =
    let r = walk-ends host t weight o fuel (root ∷ []) [] (omega (arith, h)) in
    (
      r.0,
      (
        r.1.0,
        λ p i. elim i [
          | inl here ↦ r.1.1.1.0 p (inl here)
          | inr below ↦ elim (r.1.1.1.1 p below) [ inl none' ↦ absurd none' | inr all' ↦ all' ]
        ],
      ),
    )
