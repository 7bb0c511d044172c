-- ===== src/State/Journal.antt =====
-- The freeze journal: crates/app-powerd-core/src/state/journal.rs. The entries are kept under their
-- application's key, in the order in which they came in.
pub mod Persist
pub mod Recover
pub mod Records
pub mod Ledger
pub mod Refinement
pub mod Durable
pub mod Quiet
pub mod Reload
pub mod Sweep
pub mod Resumed
use app_powerd.Prelude.{
  ℕ, ◌-◌, ◌≡◌, List, [], ◌∷◌, ◌++◌, map, Bool, true, false, not, ◌||◌, Option, none, some, Text,
  is_empty, length, contains, retain, HashMap, get, insert, remove, update, values, option_map,
  unwrap_or, text_key, nat_eq, ltb, if◌then◌else◌,
}
use app_powerd.Host.{
  Host, Io, Trace, ◌>>=◌, ◌>>◌, pure, ProcessHandle, handle_eq, FreezeMethod, JournalEntry,
  JournalFile, FsCall, IoError, not_found, io_error, remove_file, call_fs, sigcont,
}
use app_powerd.System.Process.{is_alive, is_owned}
use app_powerd.System.Freeze.{send_signal}
use Persist.{
  JournalError, FreezeJournal, Entries, is_disabled, persist, io, corrupt, unsupported_version,
}

-- The processes already recorded stay, and the planned ones that are new follow.
unfoldable pub merge_procs : List ProcessHandle → List ProcessHandle → List ProcessHandle
unfolding contains
merge_procs procs [] = procs
merge_procs procs (handle ∷ planned) =
    merge_procs (if contains procs handle then procs else procs ++ handle ∷ []) planned

unfoldable pub recorded : Text → Entries → List ProcessHandle
recorded app_id entries = unwrap_or (option_map (λ e. e.procs) (get app_id entries)) []

-- Entries of `app_id` without their processes that fail `keep`; an entry left with none goes.
unfoldable pub narrow : Text → (ProcessHandle → Bool) → Entries → Entries
narrow app_id keep entries =
    let left = retain keep (recorded app_id entries) in
    if is_empty left
    then remove app_id entries
    else update app_id (λ e. record e { procs = retain keep e.procs }) entries

module _ (host : Host) where
  -- Each operation returns the journal with what `persist` answered; `none` is `Ok`.
  unfoldable pub arm :
      FreezeJournal
      → Text
      → FreezeMethod
      → Option Text
      → List ProcessHandle
      → Io (FreezeJournal × Option JournalError)
  arm j app_id method cgroup_path planned = persist host (record j {
    entries =
        insert app_id
          (record {
            app_id = app_id;
            method = method;
            cgroup_path = cgroup_path;
            procs = merge_procs (recorded app_id j.entries) planned;
          })
          j.entries;
  })

  unfoldable pub narrow_saved :
      FreezeJournal → Text → (ProcessHandle → Bool) → Io (FreezeJournal × Option JournalError)
  unfolding narrow
  narrow_saved j app_id keep = elim (get app_id j.entries) [
    | none ↦ pure (j, none)
    | some e ↦ persist host (record j { entries = narrow app_id keep j.entries })
  ]

  unfoldable pub commit :
      FreezeJournal
      → Text
      → List ProcessHandle
      → List ProcessHandle
      → Io (FreezeJournal × Option JournalError)
  unfolding narrow_saved
  commit j app_id planned applied =
      narrow_saved j app_id (λ handle. contains applied handle || not (contains planned handle))

  unfoldable pub retire : FreezeJournal → Text → List ℕ → Io (FreezeJournal × Option JournalError)
  unfolding narrow_saved
  retire j app_id done = narrow_saved j app_id (λ handle. not (contains done handle.pid))

  -- The entries with the processes that are alive, without those left with none.
  unfoldable pub alive_entries : Trace → Entries → Entries
  alive_entries t entries =
      retain (λ p. not (is_empty p.1.procs))
        (map (λ p. (p.0, record p.1 { procs = retain (is_alive host t) p.1.procs })) entries)

  unfoldable pub sweep_dead : FreezeJournal → Io (FreezeJournal × ℕ)
  unfolding alive_entries
  sweep_dead j t =
      let j' = record j { entries = alive_entries t j.entries } in
      let removed = length j.entries - length j'.entries in
      if ltb 0 removed then (do r ← persist host j'; pure (r.0, removed)) t else ((j', removed), t)

  unfoldable pub clear : FreezeJournal → Io (FreezeJournal × Option JournalError)
  clear j =
      let j' = record j { entries = [] } in
      if is_disabled j then pure (j', none) else (do
        r ← call_fs host (remove_file j.path)
        pure (
          j',
          elim r [ none ↦ none | some not_found ↦ none | some (io_error e) ↦ some (io j.path) ],
        ))

-- Every process recorded.
unfoldable pub all_procs : Entries → List ProcessHandle
all_procs [] = []
all_procs ((k, e) ∷ m) = e.procs ++ all_procs m
