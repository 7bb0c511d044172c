-- ===== src/State/Journal/Refinement.antt =====
-- The journal as a ledger: a run of `arm`, `commit` and `retire` of
-- crates/app-powerd-core/src/state/journal.rs against what each promises.
use app_powerd.Prelude.{
  ℕ, ◌≡◌, refl, subst, ◌↔◌, ◌⊎◌, inl, inr, List, [], ◌∷◌, true, false, Option, Text, text_eq,
  text_eq_refl, text_eq→eq, In, Bool-cases, arith,
}
use app_powerd.Host.{Host, Trace, ProcessHandle, FreezeMethod}
use app_powerd.State.Journal.Persist.{FreezeJournal}
use app_powerd.State.Journal.{recorded, arm, commit, retire}
use app_powerd.State.Journal.Ledger.{arm-recorded, commit-recorded, retire-recorded}

pub data Command : Type 0 where
  arming : Text → FreezeMethod → Option Text → List ProcessHandle → Command
  committing : Text → List ProcessHandle → List ProcessHandle → Command
  retiring : Text → List ℕ → Command

abbrev pub perform : Host → Command → FreezeJournal → Trace → FreezeJournal × Trace
perform host (arming key method cgroup planned) j t =
    let r = arm host j key method cgroup planned t in (r.0.0, r.1)
perform host (committing key planned applied) j t =
    let r = commit host j key planned applied t in (r.0.0, r.1)
perform host (retiring key settled) j t = let r = retire host j key settled t in (r.0.0, r.1)

abbrev pub perform_all : Host → List Command → FreezeJournal → Trace → FreezeJournal × Trace
perform_all host [] j t = (j, t)
perform_all host (c ∷ cs) j t = let r = perform host c j t in perform_all host cs r.0 r.1

-- Which processes are owed a resumption, by application: no file, no order, no repetition.
abbrev pub Ledger : Type 1
Ledger = Text → ProcessHandle → Type 0

abbrev pub Same : Text → Text → Type 0
Same key k = text_eq key k ≡ true

abbrev pub ledger_step : Command → Ledger → Ledger
ledger_step (arming key method cgroup planned) L k h = L k h ⊎ (Same key k × In h planned)
ledger_step (committing key planned applied) L k h =
    L k h × ((¬ Same key k) ⊎ (In h applied ⊎ ¬ In h planned))
ledger_step (retiring key settled) L k h = L k h × ((¬ Same key k) ⊎ (¬ In h.pid settled))

abbrev pub ledger_run : List Command → Ledger → Ledger
ledger_run [] L = L
ledger_run (c ∷ cs) L = ledger_run cs (ledger_step c L)

abbrev pub ledger_of : FreezeJournal → Ledger
ledger_of j k h = In h (recorded k j.entries)

pub longer-differs : (c : ℕ) (s : Text) → text_eq s (c ∷ s) ≡ false
longer-differs c [] = refl
longer-differs c (d ∷ s) = ground (arith, longer-differs d s)

-- A step that says what it does to its own key and to every other one.
split_key :
    (key k : Text) (A : Text → Type 0) (B : Text → Type 0)
    → A key ↔ B key
    → ((text_eq key k ≡ false) → A k ↔ B k)
    → A k ↔ B k
split_key key k A B own foreign = elim (Bool-cases (text_eq key k)) [
  | inl s ↦ subst (λ n. A n ↔ B n) (text_eq→eq key k s) own
  | inr d ↦ foreign d
]

differs : (key k : Text) → text_eq key k ≡ false → ¬ Same key k
differs key k d s = cc

module _ (host : Host) (j : FreezeJournal) (t : Trace) (h : ProcessHandle) where
  arming-step :
      (key k : Text) (method : FreezeMethod) (cgroup : Option Text) (planned : List ProcessHandle)
      → ledger_of (perform host (arming key method cgroup planned) j t).0 k h
        ↔ ledger_step (arming key method cgroup planned) (ledger_of j) k h
  arming-step key k method cgroup planned =
      let c = arming key method cgroup planned in
      split_key key k (λ n. ledger_of (perform host c j t).0 n h)
        (λ n. ledger_step c (ledger_of j) n h)
        (let own =
            (arm-recorded host j key (0 ∷ key) (longer-differs 0 key) method cgroup planned t
              h).0 in
          (
            λ a. elim (own.0 a) [ inl l ↦ inl l | inr p ↦ inr (text_eq_refl key, p) ],
            λ b. own.1 (elim b [ inl l ↦ inl l | inr p ↦ inr p.1 ]),
          ))
        (λ d.
          let kept = (arm-recorded host j key k d method cgroup planned t h).1 in
          rw kept ((λ a. inl a), λ b. elim b [ inl l ↦ l | inr p ↦ absurd (differs key k d p.0) ]))

  -- What `commit` and `retire` have in common: they take out of their own key's record what fails `P`.
  dropping-step :
      (key k : Text) (after : FreezeJournal) (P : Type 0)
      → In h (recorded key after.entries) ↔ (In h (recorded key j.entries) × P)
      → (text_eq key k ≡ false → recorded k after.entries ≡ recorded k j.entries)
      → ledger_of after k h ↔ (ledger_of j k h × ((¬ Same key k) ⊎ P))
  dropping-step key k after P own kept =
      split_key key k (λ n. ledger_of after n h) (λ n. ledger_of j n h × ((¬ Same key n) ⊎ P))
        (
          (λ a. let r = own.0 a in (r.0, inr r.1)),
          λ b. own.1 (b.0, elim b.1 [ inl n ↦ absurd (n (text_eq_refl key)) | inr p ↦ p ]),
        )
        (λ d. rw (kept d) ((λ a. (a, inl (differs key k d))), λ b. b.0))

  step-refines :
      (c : Command) (k : Text)
      → ledger_of (perform host c j t).0 k h ↔ ledger_step c (ledger_of j) k h
  step-refines (arming key method cgroup planned) k = arming-step key k method cgroup planned
  step-refines (committing key planned applied) k =
      dropping-step key k (commit host j key planned applied t).0.0 (In h applied ⊎ ¬ In h planned)
        (commit-recorded host j key (0 ∷ key) (longer-differs 0 key) planned applied t h).0
        (λ d. (commit-recorded host j key k d planned applied t h).1)
  step-refines (retiring key settled) k =
      dropping-step key k (retire host j key settled t).0.0 (¬ In h.pid settled)
        (retire-recorded host j key (0 ∷ key) (longer-differs 0 key) settled t h).0
        (λ d. (retire-recorded host j key k d settled t h).1)

step-same :
    (c : Command) (L M : Ledger) (k : Text) (h : ProcessHandle)
    → L k h ↔ M k h
    → ledger_step c L k h ↔ ledger_step c M k h
step-same (arming key method cgroup planned) L M k h e = (
  λ a. elim a [ inl l ↦ inl (e.0 l) | inr p ↦ inr p ],
  λ b. elim b [ inl m ↦ inl (e.1 m) | inr p ↦ inr p ],
)
step-same (committing key planned applied) L M k h e = ((λ a. (e.0 a.0, a.1)), λ b. (e.1 b.0, b.1))
step-same (retiring key settled) L M k h e = ((λ a. (e.0 a.0, a.1)), λ b. (e.1 b.0, b.1))

run-refines :
    (host : Host) (cs : List Command) (j : FreezeJournal) (t : Trace) (L : Ledger)
    → ((k : Text) (h : ProcessHandle) → ledger_of j k h ↔ L k h)
    → (k : Text) (h : ProcessHandle)
    → ledger_of (perform_all host cs j t).0 k h ↔ ledger_run cs L k h
run-refines host [] j t L same k h = same k h
run-refines host (c ∷ cs) j t L same k h =
    let r = perform host c j t in
    run-refines host cs r.0 r.1 (ledger_step c L)
      (λ n g.
        let step = step-refines host j t g c n in
        let moved = step-same c (ledger_of j) L n g (same n g) in
        ((λ a. moved.0 (step.0 a)), λ b. step.1 (moved.1 b)))
      k h

-- The journal refines the ledger: after any run of arming, committing and retiring, whatever the
-- writes to the disk answer, a process stands in an application's record exactly when the ledger
-- that started with the same records says so.
pub perform_all-refines :
    (host : Host) (cs : List Command) (j : FreezeJournal) (t : Trace) (k : Text) (h : ProcessHandle)
    → ledger_of (perform_all host cs j t).0 k h ↔ ledger_run cs (ledger_of j) k h
perform_all-refines host cs j t k h =
    run-refines host cs j t (ledger_of j) (λ n g. ((λ a. a), λ b. b)) k h
