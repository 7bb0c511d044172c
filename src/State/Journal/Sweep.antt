-- ===== src/State/Journal/Sweep.antt =====
-- The periodic sweep of the journal: `sweep_dead` of crates/app-powerd-core/src/state/journal.rs.
use app_powerd.Prelude.{
  ◌-◌, ◌≡◌, refl, sym, ◌∙◌, inl, inr, [], ◌∷◌, map, true, Text, text_eq, text_key, is_empty, length,
  retain, get, NoKey, NoKey-retain, Distinct, get_of_NoKey, get-same, ltb, Bool-cases,
}
use app_powerd.Host.{Host, Trace, JournalEntry}
use app_powerd.System.Process.{is_alive}
use app_powerd.State.Journal.Persist.{Entries, FreezeJournal}
use app_powerd.State.Journal.{recorded, alive_entries, sweep_dead}
use app_powerd.State.Journal.Records.{persist_same, nil_of_empty}

module _ (host : Host) (t : Trace) where
  abbrev narrowed : JournalEntry → JournalEntry
  narrowed e = record e { procs = retain (is_alive host t) e.procs }

  NoKey-map : (k : Text) (m : Entries) → NoKey k m → NoKey k (map (λ p. (p.0, narrowed p.1)) m)
  NoKey-map k [] n = tt
  NoKey-map k ((j, e) ∷ m) n = (n.0, NoKey-map k m n.1)

  alive_entries-NoKey : (k : Text) (m : Entries) → NoKey k m → NoKey k (alive_entries host t m)
  unfolding alive_entries
  alive_entries-NoKey k m n = NoKey-retain k _ _ (NoKey-map k m n)

  recorded-NoKey : (k j : Text) (m : Entries) → text_eq j k ≡ true → NoKey j m → recorded k m ≡ []
  unfolding recorded
  recorded-NoKey k j m s n = rw (← get-same j k m s, get_of_NoKey j m n)

  recorded-alive_entries :
      (k : Text) (m : Entries)
      → Distinct m
      → recorded k (alive_entries host t m) ≡ retain (is_alive host t) (recorded k m)
  unfolding alive_entries recorded retain get
  recorded-alive_entries k [] d = refl
  recorded-alive_entries k ((j, e) ∷ m) d =
      elim (Bool-cases (is_empty (retain (is_alive host t) e.procs))) [
        | inl n ↦ elim (Bool-cases (text_eq j k)) [
          | inl s ↦
              rw (n, s)
                (recorded-NoKey k j (alive_entries host t m) s (alive_entries-NoKey j m d.0)
                  ∙ sym (nil_of_empty (retain (is_alive host t) e.procs) n))
          | inr s ↦ rw (n, s) (recorded-alive_entries k m d.1)
        ]
        | inr n ↦ elim (Bool-cases (text_eq j k)) [
          | inl s ↦ rw (n, s) refl
          | inr s ↦ rw (n, s) (recorded-alive_entries k m d.1)
        ]
      ]

  -- If the journal's keys are different, the sweep leaves of each record exactly the processes that
  -- are alive, in their order, whether or not the journal is written.
  pub sweep_dead-recorded :
      (j : FreezeJournal) (k : Text)
      → Distinct j.entries
      → recorded k (sweep_dead host j t).0.0.entries
        ≡ retain (is_alive host t) (recorded k j.entries)
  unfolding sweep_dead
  sweep_dead-recorded j k d =
      let left : FreezeJournal = record j { entries = alive_entries host t j.entries } in
      elim (Bool-cases (ltb 0 (length j.entries - length left.entries))) [
        | inl n ↦ rw n (rw (persist_same host left t) (recorded-alive_entries k j.entries d))
        | inr n ↦ rw n (recorded-alive_entries k j.entries d)
      ]
