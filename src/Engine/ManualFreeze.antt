-- ===== src/Engine/ManualFreeze.antt =====
-- The order of journal and signals when a user freezes a target: `ipc_freeze` of
-- crates/app-powerd-core/src/engine/ipc_handler.rs.
use app_powerd.Prelude.{
  ◌≡◌, refl, inl, inr, List, false, Option, none, some, Text, codes, text_eq, text_eq_refl,
  text_key, insert, In, is_empty, Bool-cases,
}
use app_powerd.Host.{
  Host, Trace, ProcessHandle, JournalEntry, signal, counted, protection_blocks_total,
}
use app_powerd.Host.Log.{Extends, none_added, Extends-trans}
use app_powerd.Host.Quiet.{one_quiet}
use app_powerd.System.Freeze.{freeze_app}
use app_powerd.System.Freeze.Signals.{Guarded, Guarded-of-Quietly, freeze_app-Keeps}
use app_powerd.System.Protection.{verdict, partition}
use app_powerd.System.Protection.Partition.{partition-IsSplit}
use app_powerd.State.Journal.Persist.{JournalError, FreezeJournal, is_disabled, persist}
use app_powerd.State.Journal.{merge_procs, recorded, arm}
use app_powerd.State.Journal.Records.{persist_same, recorded-insert, merge_procs-In}
use app_powerd.State.Journal.Quiet.{arm-Quietly, commit-Quietly}
use app_powerd.Ipc.{Target}
use app_powerd.Engine.{Engine}
use app_powerd.Engine.CrashSafety.{OnDisk, kill_keeps, control_keeps, armed_OnDisk}
use app_powerd.Engine.Commands.{
  Words, ok, journal_key_for, own_pids, resolve_target, ipc_freeze_recorded, ipc_freeze_armed,
  ipc_freeze_allowed, ipc_freeze_split, ipc_freeze_resolved, ipc_freeze,
}

module _ (torn : Trace → Text → Option Text) (start : Text → Option Text) (host : Host) where
  module _ (words : Words) (target : Target) (allowed : List ProcessHandle) where
    ipc_freeze_recorded-Guarded :
        (e : Engine) (t : Trace) (path : Text) (j : FreezeJournal)
        → OnDisk torn start host path j t
        → Extends
            (Guarded host (OnDisk torn start host path j) allowed)
            t
            (ipc_freeze_recorded host target allowed e t).1
    unfolding ipc_freeze_recorded
    ipc_freeze_recorded-Guarded e t path j q =
        let P = OnDisk torn start host path j in
        let f = freeze_app host e.cgroup_caps none allowed t in
        let key = journal_key_for target in
        let kept =
          freeze_app-Keeps host P (kill_keeps torn start host path j) allowed e.cgroup_caps none t
            (control_keeps torn start host path j none tt) q in
        Extends-trans kept.0 (
          Guarded-of-Quietly host P allowed f.1 _
            (commit-Quietly host e.journal key allowed f.0.applied f.1))

    ipc_freeze_armed-Guarded :
        (e : Engine) (t : Trace) (path : Text) (j : FreezeJournal) (answer : Option JournalError)
        → (answer ≡ none → OnDisk torn start host path j t)
        → Extends
            (Guarded host (OnDisk torn start host path j) allowed)
            t
            (ipc_freeze_armed host words target allowed e answer t).1
    unfolding ipc_freeze_armed
    ipc_freeze_armed-Guarded e t path j none q = ipc_freeze_recorded-Guarded e t path j (q refl)
    ipc_freeze_armed-Guarded e t path j (some x) q = none_added

    -- The journal as the command arms it.
    abbrev pub command_armed : Engine → Trace → (FreezeJournal × Option JournalError) × Trace
    command_armed e t = arm host e.journal (journal_key_for target) signal none allowed t

    ipc_freeze_allowed-Guarded :
        (e : Engine) (t : Trace)
        → is_disabled e.journal ≡ false
        → text_eq (host.with_extension e.journal.path (codes "json.tmp")) e.journal.path ≡ false
        → Extends
            (Guarded host (OnDisk torn start host e.journal.path (command_armed e t).0.0) allowed)
            t
            (ipc_freeze_allowed host words target allowed e t).1
          × ((h : ProcessHandle)
              → In h allowed
              → In h (recorded (journal_key_for target) (command_armed e t).0.0.entries))
    unfolding ipc_freeze_allowed arm
    ipc_freeze_allowed-Guarded e t on apart =
        let key = journal_key_for target in
        let entry : JournalEntry = record {
          app_id = key;
          method = signal;
          cgroup_path = none;
          procs = merge_procs (recorded key e.journal.entries) allowed;
        } in
        let j0 : FreezeJournal = record e.journal {
          entries = insert key entry e.journal.entries;
        } in
        let a = persist host j0 t in
        let e1 = record e { journal = a.0.0 } in
        let P = OnDisk torn start host j0.path a.0.0 in
        (
          Extends-trans
              (Guarded-of-Quietly host P allowed t a.1
                (arm-Quietly host e.journal key signal none allowed t))
              (ipc_freeze_armed-Guarded e1 a.1 j0.path a.0.0 a.0.1
                (armed_OnDisk torn start host j0 t on apart)),
          λ h i. rw (persist_same host j0 t) (
              rw (recorded-insert key key entry e.journal.entries, text_eq_refl key)
                (merge_procs-In h (recorded key e.journal.entries) allowed (inr i))),
        )

  module _ (words : Words) (target : Target) (procs : List ProcessHandle) (e : Engine)
      (t : Trace) where
    -- The processes named that the deny-list lets through.
    abbrev pub let_through : List ProcessHandle
    let_through = (partition host t e.protection procs (own_pids host procs)).0

    abbrev pub freeze_armed_journal : FreezeJournal
    freeze_armed_journal = (command_armed words target let_through e t).0.0

    -- A freeze by hand is as safe as an automatic one: whatever the outside answers, it signals only
    -- processes of the target on which the protection passes no verdict, each at a moment when it is
    -- alive under its start time and the journal's file holds the journal armed for this command,
    -- in which all of them are recorded. This is for a journal that is in use, whose file is not its
    -- own temporary file, and a target that names processes.
    pub ipc_freeze-Guarded :
        resolve_target host e t target ≡ ok procs
        → is_disabled e.journal ≡ false
        → text_eq (host.with_extension e.journal.path (codes "json.tmp")) e.journal.path ≡ false
        → Extends
            (Guarded host (OnDisk torn start host e.journal.path freeze_armed_journal) let_through)
            t
            (ipc_freeze host words target e t).1
          × ((h : ProcessHandle)
              → In h let_through
              → In h (recorded (journal_key_for target) freeze_armed_journal.entries)
                × (verdict host t e.protection (own_pids host procs) h ≡ none))
    unfolding ipc_freeze ipc_freeze_resolved ipc_freeze_split
    ipc_freeze-Guarded named on apart =
        let safe = ipc_freeze_allowed-Guarded words target let_through e t on apart in
        let P = OnDisk torn start host e.journal.path freeze_armed_journal in
        (
          rw (named, ipc_freeze, ipc_freeze_resolved)
              (elim (Bool-cases (is_empty let_through)) [
                | inl n ↦ rw n (
                    Guarded-of-Quietly host P let_through t _
                      (one_quiet (counted protection_blocks_total 1) t tt))
                | inr n ↦ rw n safe.0
              ]),
          λ h i. (
            safe.1 h i,
            ((partition-IsSplit host t e.protection (own_pids host procs) procs h).0.0 i).1,
          ),
        )
