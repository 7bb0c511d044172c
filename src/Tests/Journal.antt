-- ===== src/Tests/Journal.antt =====
-- The journal's theorems on one application.
use app_powerd.Prelude.{
  retain, ℕ, ◌≡◌, refl, ◌↔◌, ◌⊎◌, [], ◌∷◌, Option, none, some, Text, codes, In,
}
use app_powerd.Host.{JournalEntry, signal}
use app_powerd.System.Process.{is_alive}
use app_powerd.State.Journal.Sweep.{sweep_dead-recorded}
use app_powerd.State.Journal.Persist.{file_of, persist, then_call, write_through}
use app_powerd.State.Journal.{recorded, arm, commit, retire, sweep_dead}
use app_powerd.State.Journal.Ledger.{arm-recorded, commit-recorded, retire-recorded}
use app_powerd.State.Journal.Durable.{Written, persist-Written}
use app_powerd.State.Journal.Recover.{ok, RecoveryReport, read_journal, load, recover}
use app_powerd.State.Journal.Reload.{load-persist}
use app_powerd.State.Journal.Resumed.{IsRecovered, recover-IsSeenTo}
use app_powerd.Tests.Data.{
  parses, reads, torn, no_files, host_with, host, process, entry, journal_path, empty_journal,
  journal,
}

abbrev other : Text
other = codes "gimp"

arm-recorded_example :
    let after = (arm host empty_journal (codes "mousepad") signal none (process ∷ []) []).0.0 in
    (In process (recorded (codes "mousepad") after.entries) ↔ (
      In process (recorded (codes "mousepad") empty_journal.entries) ⊎ In process (process ∷ [])))
    × (recorded other after.entries ≡ recorded other empty_journal.entries)
arm-recorded_example =
    arm-recorded host empty_journal (codes "mousepad") other refl signal none (process ∷ []) []
      process

commit-recorded_example :
    let after = (commit host journal (codes "mousepad") (process ∷ []) [] []).0.0 in
    (In process (recorded (codes "mousepad") after.entries) ↔ (
      In process (recorded (codes "mousepad") journal.entries)
      × (In process [] ⊎ ¬ In process (process ∷ []))))
    × (recorded other after.entries ≡ recorded other journal.entries)
commit-recorded_example =
    commit-recorded host journal (codes "mousepad") other refl (process ∷ []) [] [] process

retire-recorded_example :
    let after = (retire host journal (codes "mousepad") (7 ∷ []) []).0.0 in
    (In process (recorded (codes "mousepad") after.entries)
      ↔ (In process (recorded (codes "mousepad") journal.entries) × (¬ In {A = ℕ} 7 (7 ∷ []))))
    × (recorded other after.entries ≡ recorded other journal.entries)
retire-recorded_example =
    retire-recorded host journal (codes "mousepad") other refl (7 ∷ []) [] process

persist-Written_example :
    Written torn no_files [] journal_path
      (host.to_json (file_of journal))
      ((persist host journal []).0.1, (persist host journal []).1)
unfolding host
persist-Written_example = persist-Written torn no_files host journal refl [] refl

abbrev json : Text
json = 1 ∷ 7 ∷ 500 ∷ 1 ∷ codes "mousepad"

load-persist_example : load host (persist host journal []).1 journal_path ≡ ok journal
unfolding host persist then_call write_through
load-persist_example =
    load-persist torn no_files host journal [] parses reads json refl refl refl (refl, tt) (tt, tt)
      refl

abbrev crashed : Text → Option Text
crashed path = some json

recover-IsSeenTo_example :
    let host' = host_with crashed in
    ((report : RecoveryReport) × ((recover host' journal_path []).0 ≡ ok report))
    × ((e : JournalEntry)
        → In e (entry ∷ [])
        → IsRecovered host' [] (recover host' journal_path []).1 e)
unfolding host_with read_journal
recover-IsSeenTo_example =
    recover-IsSeenTo (host_with crashed) journal_path [] (file_of journal) refl

sweep_dead-recorded_example :
    recorded (codes "mousepad") (sweep_dead host journal []).0.0.entries
    ≡ retain (is_alive host []) (recorded (codes "mousepad") journal.entries)
sweep_dead-recorded_example = sweep_dead-recorded host [] journal (codes "mousepad") (tt, tt)
