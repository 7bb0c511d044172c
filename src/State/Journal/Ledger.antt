-- ===== src/State/Journal/Ledger.antt =====
-- The record of an application under `arm`, `commit` and `retire` of
-- crates/app-powerd-core/src/state/journal.rs.
use app_powerd.Prelude.{
  ℕ, ◌≡◌, ◌↔◌, ◌⊎◌, inl, inr, List, Bool, true, false, not, ◌||◌, Option, Text, In, In-retain,
  In-of-retain, In-of-contains, contains-of-In, not-contains-of-not-In, Bool-cases, contains,
  text_eq, text_eq_refl, nat_eq, ==_iff, ◌==◌, arith,
}
use app_powerd.Host.{Host, Trace, ProcessHandle, handle_eq, same_handle→eq, FreezeMethod}
use app_powerd.State.Journal.Persist.{FreezeJournal}
use app_powerd.State.Journal.{recorded, arm, commit, retire}
use app_powerd.State.Journal.Records.{
  persist_same, recorded-insert, In-of-merge_procs, merge_procs-In, recorded-narrow_saved,
  recorded-narrow_saved_ne,
}

abbrev commit_keeps : List ProcessHandle → List ProcessHandle → ProcessHandle → Bool
commit_keeps planned applied h = contains applied h || not (contains planned h)

reached_or_foreign :
    (planned applied : List ProcessHandle) (h : ProcessHandle)
    → commit_keeps planned applied h ≡ true
    → In h applied ⊎ ¬ In h planned
reached_or_foreign planned applied h e = elim (Bool-cases (contains applied h)) [
  | inl yes' ↦ inl (In-of-contains same_handle→eq applied h yes')
  | inr no' ↦ inr (λ i. ground (arith, contains-of-In planned h i))
]

commit_keeps-of :
    (planned applied : List ProcessHandle) (h : ProcessHandle)
    → In h applied ⊎ ¬ In h planned
    → commit_keeps planned applied h ≡ true
commit_keeps-of planned applied h (inl i) = rw (contains-of-In applied h i)
commit_keeps-of planned applied h (inr n) =
    ground (arith, not-contains-of-not-In same_handle→eq planned h n)

ℕ_exact : (a b : ℕ) → (a == b) ≡ true → a ≡ b
ℕ_exact a b = (==_iff a b).0

module _ (host : Host) (j : FreezeJournal) (app other : Text) (d : text_eq app other ≡ false) where
  -- After `arm` the application's record holds exactly what it held and what is planned, whether or
  -- not the write succeeded, and the record of any other application is the same.
  pub arm-recorded :
      (method : FreezeMethod) (cgroup : Option Text) (planned : List ProcessHandle) (t : Trace)
      (h : ProcessHandle)
      → let after = (arm host j app method cgroup planned t).0.0 in
        (In h (recorded app after.entries) ↔ (In h (recorded app j.entries) ⊎ In h planned))
        × (recorded other after.entries ≡ recorded other j.entries)
  unfolding arm
  arm-recorded method cgroup planned t h = rw persist_same (
      rw (recorded-insert, text_eq_refl app)
        ((In-of-merge_procs h _ planned, merge_procs-In h _ planned), rw (recorded-insert, d)))

  -- After `commit` the record holds exactly those of its processes that were reached or that this
  -- freeze did not plan, so that the leftovers of an earlier thaw stay; no other record changes.
  pub commit-recorded :
      (planned applied : List ProcessHandle) (t : Trace) (h : ProcessHandle)
      → let after = (commit host j app planned applied t).0.0 in
        (In h (recorded app after.entries)
          ↔ (In h (recorded app j.entries) × (In h applied ⊎ ¬ In h planned)))
        × (recorded other after.entries ≡ recorded other j.entries)
  unfolding commit
  commit-recorded planned applied t h =
      let keep = commit_keeps planned applied in
      let rec = recorded app j.entries in
      (
        rw (recorded-narrow_saved host j app keep t) (
          (λ i. let r = In-retain keep h rec i in (r.0, reached_or_foreign planned applied h r.1)),
          λ r. In-of-retain keep h rec r.0 (commit_keeps-of planned applied h r.1),
        ),
        recorded-narrow_saved_ne host j app keep t other d,
      )

  -- After `retire` the record holds exactly those of its processes whose PID is not settled, and no
  -- other record changes.
  pub retire-recorded :
      (done : List ℕ) (t : Trace) (h : ProcessHandle)
      → let after = (retire host j app done t).0.0 in
        (In h (recorded app after.entries) ↔ (In h (recorded app j.entries) × (¬ In h.pid done)))
        × (recorded other after.entries ≡ recorded other j.entries)
  unfolding retire
  retire-recorded done t h =
      let keep : ProcessHandle → Bool = λ x. not (contains done x.pid) in
      let rec = recorded app j.entries in
      (
        rw (recorded-narrow_saved host j app keep t) (
          (λ i.
              let r = In-retain keep h rec i in
              (r.0, λ m. ground (arith, contains-of-In done h.pid m))),
          λ r.
              In-of-retain keep h rec r.0
                (ground (arith, not-contains-of-not-In ℕ_exact done h.pid r.1)),
        ),
        recorded-narrow_saved_ne host j app keep t other d,
      )
