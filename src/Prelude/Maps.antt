-- ===== src/Prelude/Maps.antt =====
-- `HashMap` as a list of pairs.
use mathlib.Core.Path.{◌≡◌, refl}
use mathlib.Core.List.{List, [], ◌∷◌, map}
use mathlib.Core.Bool.{Bool, true, false, not}
use mathlib.Core.Logic.{inl, inr}
use mathlib.Core.Option.{Option, none, some}
use native.Mathlib.Omega.{arith}
use app_powerd.Prelude.Tests.{if◌then◌else◌, option_map, Bool-cases}
use app_powerd.Prelude.Lists.{retain}
use app_powerd.Prelude.Keys.{Eq}

abbrev pub HashMap {ℓ κ} : Type ℓ → Type κ → Type (ℓ ⊔ κ)
HashMap K V = List (K × V)

module _ {ℓ κ} {K : Type ℓ} {V : Type κ} where
  abbrev pub values : HashMap K V → List V
  values = map (λ e. e.1)

  abbrev pub keys : HashMap K V → List K
  keys = map (λ e. e.0)

module _ {ℓ κ} {K : Type ℓ} {V : Type κ} ⦃e : Eq K⦄ where
  unfoldable pub get : K → HashMap K V → Option V
  get k [] = none
  get k ((j, v) ∷ m) = if e.same j k then some v else get k m

  -- A key that is there already stays as it is spelled.
  unfoldable pub insert : K → V → HashMap K V → HashMap K V
  insert k v [] = (k, v) ∷ []
  insert k v ((j, w) ∷ m) = if e.same j k then (j, v) ∷ m else (j, w) ∷ insert k v m

  unfoldable pub remove : K → HashMap K V → HashMap K V
  unfolding retain
  remove k = retain (λ p. not (e.same p.0 k))

  -- A change through `get_mut`.
  unfoldable pub update : K → (V → V) → HashMap K V → HashMap K V
  update k f [] = []
  update k f ((j, v) ∷ m) = if e.same j k then (j, f v) ∷ update k f m else (j, v) ∷ update k f m

  pub get-insert :
      (k j : K) (v : V) (m : HashMap K V)
      → get j (insert k v m) ≡ (if e.same k j then some v else get j m)
  unfolding get insert
  get-insert k j v [] = refl
  get-insert k j v ((i, w) ∷ m) = ground (
    arith,
    get-insert k j v m,
    e.same_trans i k j,
    e.same_trans k j i,
    e.same_sym i k,
    e.same_sym i j,
  )

  pub get-remove :
      (k j : K) (m : HashMap K V) → get j (remove k m) ≡ (if e.same k j then none else get j m)
  unfolding get remove
  get-remove k j [] = ground arith
  get-remove k j ((i, w) ∷ m) = ground (
    arith,
    get-remove k j m,
    e.same_trans i k j,
    e.same_trans k j i,
    e.same_sym i k,
    e.same_sym i j,
  )

  pub get-update :
      (k j : K) (f : V → V) (m : HashMap K V)
      → get j (update k f m) ≡ (if e.same k j then option_map f (get j m) else get j m)
  unfolding get update
  get-update k j f [] = ground arith
  get-update k j f ((i, w) ∷ m) = ground (
    arith,
    get-update k j f m,
    e.same_trans i k j,
    e.same_trans k j i,
    e.same_sym i k,
    e.same_sym i j,
  )

  pub get-same : (k j : K) (m : HashMap K V) → e.same k j ≡ true → get k m ≡ get j m
  unfolding get
  get-same k j [] h = refl
  get-same k j ((i, w) ∷ m) h =
      ground (arith, get-same k j m, e.same_trans k j i, e.same_sym i k, e.same_sym i j)

  -- The keys are different, each from all behind it.
  abbrev pub NoKey : K → HashMap K V → Type 0
  NoKey k [] = Unit
  NoKey k ((j, v) ∷ m) = (e.same k j ≡ false) × NoKey k m

  abbrev pub Distinct : HashMap K V → Type 0
  Distinct [] = Unit
  Distinct ((k, v) ∷ m) = NoKey k m × Distinct m

  pub NoKey-insert :
      (j k : K) (v : V) (m : HashMap K V) → e.same j k ≡ false → NoKey j m → NoKey j (insert k v m)
  unfolding insert
  NoKey-insert j k v [] d n = (d, tt)
  NoKey-insert j k v ((i, w) ∷ m) d n = elim (Bool-cases (e.same i k)) [
    | inl s ↦ rw s n
    | inr s ↦ rw s (n.0, NoKey-insert j k v m d n.1)
  ]

  pub Distinct-insert : (k : K) (v : V) (m : HashMap K V) → Distinct m → Distinct (insert k v m)
  unfolding insert
  Distinct-insert k v [] d = (tt, tt)
  Distinct-insert k v ((i, w) ∷ m) d = elim (Bool-cases (e.same i k)) [
    | inl s ↦ rw s d
    | inr s ↦ rw s (NoKey-insert i k v m s d.0, Distinct-insert k v m d.1)
  ]

  pub NoKey-retain : (j : K) (p : K × V → Bool) (m : HashMap K V) → NoKey j m → NoKey j (retain p m)
  unfolding retain
  NoKey-retain j p [] n = tt
  NoKey-retain j p ((i, w) ∷ m) n = elim (Bool-cases (p (i, w))) [
    | inl s ↦ rw s (n.0, NoKey-retain j p m n.1)
    | inr s ↦ rw s (NoKey-retain j p m n.1)
  ]

  pub Distinct-retain : (p : K × V → Bool) (m : HashMap K V) → Distinct m → Distinct (retain p m)
  unfolding retain
  Distinct-retain p [] d = tt
  Distinct-retain p ((i, w) ∷ m) d = elim (Bool-cases (p (i, w))) [
    | inl s ↦ rw s (NoKey-retain i p m d.0, Distinct-retain p m d.1)
    | inr s ↦ rw s (Distinct-retain p m d.1)
  ]

  pub Distinct-remove : (k : K) (m : HashMap K V) → Distinct m → Distinct (remove k m)
  unfolding remove
  Distinct-remove k m d = Distinct-retain _ m d

  pub NoKey-update : (j k : K) (f : V → V) (m : HashMap K V) → NoKey j m → NoKey j (update k f m)
  unfolding update
  NoKey-update j k f [] n = tt
  NoKey-update j k f ((i, w) ∷ m) n = elim (Bool-cases (e.same i k)) [
    | inl s ↦ rw s (n.0, NoKey-update j k f m n.1)
    | inr s ↦ rw s (n.0, NoKey-update j k f m n.1)
  ]

  pub Distinct-update : (k : K) (f : V → V) (m : HashMap K V) → Distinct m → Distinct (update k f m)
  unfolding update
  Distinct-update k f [] d = tt
  Distinct-update k f ((i, w) ∷ m) d = elim (Bool-cases (e.same i k)) [
    | inl s ↦ rw s (NoKey-update i k f m d.0, Distinct-update k f m d.1)
    | inr s ↦ rw s (NoKey-update i k f m d.0, Distinct-update k f m d.1)
  ]

  pub get_of_NoKey : (k : K) (m : HashMap K V) → NoKey k m → get k m ≡ none
  unfolding get
  get_of_NoKey k [] n = refl
  get_of_NoKey k ((i, w) ∷ m) n = rw (e.same_sym i k, n.0) (get_of_NoKey k m n.1)
