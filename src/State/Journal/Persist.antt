-- ===== src/State/Journal/Persist.antt =====
-- Writing the journal: `persist` of crates/app-powerd-core/src/state/journal.rs.
use app_powerd.Prelude.{
  ℕ, [], ◌∷◌, Bool, Option, none, some, Text, codes, is_empty, HashMap, values, unwrap_or,
  if◌then◌else◌,
}
use app_powerd.Host.{
  Host, Io, ◌>>◌, pure, JournalEntry, JournalFile, FsCall, create_dir_all, set_mode, open_truncated,
  write_all, sync_all, rename, fs_called, call_fs,
}

pub data JournalError : Type 0 where
  io : Text → JournalError
  corrupt : Text → JournalError
  unsupported_version : Text → ℕ → JournalError

abbrev pub Entries : Type 0
Entries = HashMap Text JournalEntry

pub record FreezeJournal : Type 0 where
  pub path : Text
  pub entries : Entries

-- `JOURNAL_VERSION`.
abbrev pub journal_version : ℕ
journal_version = 1

unfoldable pub disabled : FreezeJournal
disabled = record { path = []; entries = [] }

abbrev pub is_disabled : FreezeJournal → Bool
is_disabled j = is_empty j.path

abbrev pub file_of : FreezeJournal → JournalFile
file_of j = record { version = journal_version; entries = values j.entries }

module _ (host : Host) where
  -- A call whose failure ends the write; the rest runs after success.
  unfoldable pub then_call : FsCall → Text → Io (Option JournalError) → Io (Option JournalError)
  then_call c path rest t = elim (host.fs t c) [
    | none ↦ rest (fs_called c none ∷ t)
    | some e ↦ (some (io path), fs_called c (some e) ∷ t)
  ]

  unfoldable pub write_through : Text → Text → Text → Io (Option JournalError)
  unfolding then_call
  write_through path tmp json = then_call (open_truncated tmp) tmp (
      then_call (set_mode tmp 0o600) tmp (
        then_call (write_all tmp json) tmp
          (then_call (sync_all tmp) tmp (then_call (rename tmp path) path (pure none)))))

  unfoldable pub write_json : FreezeJournal → Option Text → Io (Option JournalError)
  write_json j none = pure (some (corrupt j.path))
  write_json j (some json) =
      write_through j.path (host.with_extension j.path (codes "json.tmp")) json

  -- That the directory's mode could not be set is not an error.
  unfoldable pub save : FreezeJournal → Io (Option JournalError)
  unfolding write_json
  save j =
      let dir = unwrap_or (host.parent j.path) (codes ".") in
      then_call (create_dir_all dir) dir
        (do call_fs host (set_mode dir 0o700); write_json j (host.to_json (file_of j)))

  -- The journal does not change: what changes is the disk.
  unfoldable pub persist : FreezeJournal → Io (FreezeJournal × Option JournalError)
  unfolding save
  persist j t = if is_disabled j then ((j, none), t) else (let r = save j t in ((j, r.0), r.1))
