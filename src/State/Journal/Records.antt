-- ===== src/State/Journal/Records.antt =====
-- Lemmas on the record of an application in the journal
-- (crates/app-powerd-core/src/state/journal.rs).
use app_powerd.Prelude.{
  ◌≡◌, refl, sym, ◌⊎◌, inl, inr, List, [], ◌∷◌, ◌++◌, Bool, true, false, Option, none, some, Text,
  In, In-append, In-append_left, In-append_right, In-of-contains, Bool-cases, Option-cases,
  is_empty, retain, contains, get, insert, get-insert, get-remove, get-update, text_eq, text_key,
  text_eq_refl, nat_eq, option_map, unwrap_or, arith, if◌then◌else◌,
}
use app_powerd.Host.{Host, Trace, ProcessHandle, handle_eq, same_handle→eq, JournalEntry}
use app_powerd.State.Journal.Persist.{Entries, FreezeJournal, is_disabled, persist}
use app_powerd.State.Journal.{merge_procs, recorded, narrow, narrow_saved}

-- `persist` writes the journal and does not change it.
pub persist_same : (host : Host) (j : FreezeJournal) (t : Trace) → (persist host j t).0.0 ≡ j
unfolding persist
persist_same host j t = elim (Bool-cases (is_disabled j)) [ inl e ↦ rw e | inr e ↦ rw e ]

pub recorded-insert :
    (k k' : Text) (e : JournalEntry) (m : Entries)
    → recorded k' (insert k e m) ≡ (if text_eq k k' then e.procs else recorded k' m)
unfolding recorded
recorded-insert k k' e m = rw (get-insert k k' e m) (ground arith)

-- What the merged list holds was recorded or is planned, and the other way round.
pub In-of-merge_procs :
    (h : ProcessHandle) (procs planned : List ProcessHandle)
    → In h (merge_procs procs planned)
    → In h procs ⊎ In h planned
unfolding merge_procs
In-of-merge_procs h procs [] i = inl i
In-of-merge_procs h procs (x ∷ planned) i = elim (Bool-cases (contains procs x)) [
  | inl old ↦ elim (In-of-merge_procs h procs planned (rw old at i)) [
    | inl p ↦ inl p
    | inr q ↦ inr (inr q)
  ]
  | inr new ↦ elim (In-of-merge_procs h (procs ++ x ∷ []) planned (rw new at i)) [
    | inl p ↦ elim (In-append h procs (x ∷ []) p) [
      | inl q ↦ inl q
      | inr (inl here) ↦ inr (inl here)
      | inr (inr b) ↦ absurd b
    ]
    | inr q ↦ inr (inr q)
  ]
]

pub merge_procs-In :
    (h : ProcessHandle) (procs planned : List ProcessHandle)
    → In h procs ⊎ In h planned
    → In h (merge_procs procs planned)
unfolding merge_procs
merge_procs-In h procs [] (inl i) = i
merge_procs-In h procs [] (inr i) = absurd i
merge_procs-In h procs (x ∷ planned) i = elim (Bool-cases (contains procs x)) [
  | inl old ↦ rw old (
      merge_procs-In h procs planned (elim i [
        | inl p ↦ inl p
        | inr (inl here) ↦ inl (rw here (In-of-contains same_handle→eq procs x old))
        | inr (inr q) ↦ inr q
      ]))
  | inr new ↦ rw new (
      merge_procs-In h (procs ++ x ∷ []) planned (elim i [
        | inl p ↦ inl (In-append_left h procs (x ∷ []) p)
        | inr (inl here) ↦ inl (In-append_right h procs (x ∷ []) (inl here))
        | inr (inr q) ↦ inr q
      ]))
]

pub nil_of_empty : (xs : List ProcessHandle) → is_empty xs ≡ true → xs ≡ []
nil_of_empty [] e = refl
nil_of_empty (x ∷ xs) e = cc

procs-kept :
    (keep : ProcessHandle → Bool) (o : Option JournalEntry)
    → unwrap_or
        (option_map
          (λ (e : JournalEntry). e.procs)
          (option_map (λ (e : JournalEntry). record e { procs = retain keep e.procs }) o))
        []
      ≡ retain keep (unwrap_or (option_map (λ (e : JournalEntry). e.procs) o) [])
unfolding retain
procs-kept keep none = refl
procs-kept keep (some e) = refl

module _ (k : Text) (keep : ProcessHandle → Bool) (m : Entries) where
  recorded-narrow : recorded k (narrow k keep m) ≡ retain keep (recorded k m)
  unfolding narrow recorded
  recorded-narrow = elim (Bool-cases (is_empty (retain keep (recorded k m)))) [
    | inl e ↦ rw (e, get-remove k k m, text_eq_refl k) (sym (nil_of_empty _ e))
    | inr e ↦
        rw (e, get-update k k (λ e. record e { procs = retain keep e.procs }) m, text_eq_refl k)
          (procs-kept keep (get k m))
  ]

  recorded-narrow_ne :
      (other : Text) → text_eq k other ≡ false → recorded other (narrow k keep m) ≡ recorded other m
  unfolding narrow recorded
  recorded-narrow_ne other d = elim (Bool-cases (is_empty (retain keep (recorded k m)))) [
    | inl e ↦ rw (e, get-remove k other m, d)
    | inr e ↦ rw (e, get-update k other (λ e. record e { procs = retain keep e.procs }) m, d)
  ]

module _ (host : Host) (j : FreezeJournal) (k : Text) (keep : ProcessHandle → Bool)
    (t : Trace) where
  pub recorded-narrow_saved :
      recorded k (narrow_saved host j k keep t).0.0.entries ≡ retain keep (recorded k j.entries)
  unfolding narrow_saved
  recorded-narrow_saved = elim (Option-cases (get k j.entries)) [
    | inl e ↦ rw (e, narrow_saved) (unfold recorded retain in rw e)
    | inr (v, e) ↦
        rw (e, narrow_saved)
          (rw (persist_same host (record j { entries = narrow k keep j.entries }) t)
            (recorded-narrow k keep j.entries))
  ]

  pub recorded-narrow_saved_ne :
      (other : Text)
      → text_eq k other ≡ false
      → recorded other (narrow_saved host j k keep t).0.0.entries ≡ recorded other j.entries
  unfolding narrow_saved
  recorded-narrow_saved_ne other d = elim (Option-cases (get k j.entries)) [
    | inl e ↦ rw (e, narrow_saved)
    | inr (v, e) ↦
        rw (e, narrow_saved)
          (rw (persist_same host (record j { entries = narrow k keep j.entries }) t)
            (recorded-narrow_ne k keep j.entries other d))
  ]
