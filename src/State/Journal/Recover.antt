-- ===== src/State/Journal/Recover.antt =====
-- Reading the journal back: `load`, `read_file` and `recover` of
-- crates/app-powerd-core/src/state/journal.rs.
use app_powerd.Prelude.{
  join, ℕ, ◌+◌, List, [], ◌∷◌, Option, none, some, Text, codes, ◌==◌, insert, text_key,
  if◌then◌else◌,
}
use app_powerd.Host.{
  Host, Io, Trace, ◌>>=◌, ◌>>◌, pure, ProcessHandle, JournalEntry, JournalFile, contents, refused,
  not_found, io_error, write, remove_file, call_fs, sigcont,
}
use app_powerd.System.Process.{is_alive, is_owned}
use app_powerd.System.Freeze.{send_signal}
use app_powerd.State.Journal.Persist.{
  JournalError, FreezeJournal, Entries, io, corrupt, unsupported_version, journal_version,
}

pub data Loaded {ℓ} (A : Type ℓ) : Type ℓ where
  ok : A → Loaded A
  err : JournalError → Loaded A

-- `none` means that there is no journal yet.
unfoldable pub read_journal : Host → Trace → Text → Loaded (Option JournalFile)
read_journal host t path = elim (host.read_file t path) [
  | refused not_found ↦ ok none
  | refused (io_error e) ↦ err (io path)
  | contents raw ↦ elim (host.from_json raw) [
    | none ↦ err (corrupt path)
    | some file ↦
        if file.version == journal_version
        then ok (some file)
        else err (unsupported_version path file.version)
  ]
]

-- `collect` into a map: the last entry of a key stays.
unfoldable pub collect_from : Entries → List JournalEntry → Entries
collect_from m [] = m
collect_from m (e ∷ es) = collect_from (insert e.app_id e m) es

unfoldable pub load : Host → Trace → Text → Loaded FreezeJournal
unfolding read_journal collect_from
load host t path = elim (read_journal host t path) [
  | err e ↦ err e
  | ok none ↦ ok (record { path = path; entries = [] })
  | ok (some file) ↦ ok (record { path = path; entries = collect_from [] file.entries })
]

pub record RecoveryReport : Type 0 where
  pub thawed : ℕ
  pub stale : ℕ
  pub not_owned : ℕ

abbrev pub empty_recovery : RecoveryReport
empty_recovery = record { thawed = 0; stale = 0; not_owned = 0 }

module _ (host : Host) where
  unfoldable pub recover_one : RecoveryReport → ProcessHandle → Io RecoveryReport
  recover_one r handle t =
      if is_alive host t handle
      then (if is_owned host t handle
          then (do
            e ← send_signal host sigcont handle.pid
            pure (elim e [ none ↦ record r { thawed = r.thawed + 1 } | some x ↦ r ]))
              t
          else (record r { not_owned = r.not_owned + 1 }, t))
      else (record r { stale = r.stale + 1 }, t)

  unfoldable pub recover_procs : RecoveryReport → List ProcessHandle → Io RecoveryReport
  recover_procs r [] t = (r, t)
  recover_procs r (handle ∷ procs) t = let s = recover_one r handle t in recover_procs s.0 procs s.1

  unfoldable pub thaw_recorded : Option Text → Io (Unit {0})
  thaw_recorded none = pure tt
  thaw_recorded (some cgroup) = do
    call_fs host (write (join cgroup (codes "cgroup.freeze")) (codes "0"))
    pure tt

  unfoldable pub recover_entries : RecoveryReport → List JournalEntry → Io RecoveryReport
  recover_entries r [] t = (r, t)
  recover_entries r (e ∷ es) t =
      let s = recover_procs r e.procs (thaw_recorded e.cgroup_path t).1 in
      recover_entries s.0 es s.1

  unfoldable pub recover : Text → Io (Loaded RecoveryReport)
  recover path t = elim (read_journal host t path) [
    | err e ↦ (err e, t)
    | ok none ↦ (ok empty_recovery, t)
    | ok (some file) ↦
        (do
          r ← recover_entries empty_recovery file.entries
          call_fs host (remove_file path)
          pure (ok r))
          t
  ]
