-- ===== src/Cli/CleanSlate.antt =====
-- The journal with which the daemon starts: recovery, and then loading, in `run_daemon` of
-- crates/app-powerd/src/main.rs.
use app_powerd.Prelude.{
  ◌≡◌, refl, [], ◌∷◌, false, Option, none, some, Text, codes, text_eq, text_eq_refl, Bool-cases,
  Option-cases, ◌⊎◌, inl, inr,
}
use app_powerd.Host.{
  Host, Trace, JournalFile, IoError, fs_called, remove_file, rename, refused, not_found,
}
use app_powerd.Host.Disk.{disk, after_call}
use app_powerd.State.Journal.Persist.{FreezeJournal}
use app_powerd.State.Journal.Recover.{
  Loaded, ok, err, RecoveryReport, empty_recovery, read_journal, load, recover, recover_entries,
}
use app_powerd.Cli.Daemon.{after_recovery, open_journal, nothing_found}

module _ (torn : Trace → Text → Option Text) (start : Text → Option Text) (host : Host)
    (path : Text)
    (missing : (at : Trace)
      → disk torn start at path ≡ none
      → host.read_file at path ≡ refused not_found)
    (removes : (at : Trace) (s : Text)
      → disk torn start at path ≡ some s
      → host.fs at (remove_file path) ≡ none)
    (renames : (at : Trace) (s : Text)
      → disk torn start at path ≡ some s
      → host.fs at (rename path (host.with_extension path (codes "json.corrupt"))) ≡ none)
    (aside : text_eq (host.with_extension path (codes "json.corrupt")) path ≡ false) where
  abbrev blank : FreezeJournal
  blank = record { path = path; entries = [] }

  load-missing : (at : Trace) → disk torn start at path ≡ none → load host at path ≡ ok blank
  unfolding load read_journal
  load-missing at m = rw (missing at m, load, read_journal) refl

  after_report :
      (report : RecoveryReport) (at : Trace)
      → disk torn start at path ≡ none
      → disk torn start (after_recovery host path (ok report) at).1 path ≡ none
  unfolding after_recovery disk
  after_report report at m = elim (Bool-cases (nothing_found report)) [
    | inl n ↦ rw n m
    | inr n ↦ rw n m
  ]

  -- A call that would put the file away leaves nothing there: it succeeds, or there was none.
  rename-gone :
      (q : Text) (r : Option IoError) (at : Trace)
      → (r ≡ none) ⊎ (disk torn start at path ≡ none)
      → text_eq q path ≡ false
      → disk torn start (fs_called (rename path q) r ∷ at) path ≡ none
  unfolding disk after_call
  rename-gone q none at e a = rw (a, text_eq_refl path) refl
  rename-gone q (some x) at (inl e) a = cc
  rename-gone q (some x) at (inr e) a = e

  remove-gone :
      (r : Option IoError) (at : Trace)
      → (r ≡ none) ⊎ (disk torn start at path ≡ none)
      → disk torn start (fs_called (remove_file path) r ∷ at) path ≡ none
  unfolding disk after_call
  remove-gone none at e = rw (text_eq_refl path) refl
  remove-gone (some x) at (inl e) = cc
  remove-gone (some x) at (inr e) = e

  done_or_absent :
      (r : Option IoError) (at : Trace)
      → ((s : Text) → disk torn start at path ≡ some s → r ≡ none)
      → (r ≡ none) ⊎ (disk torn start at path ≡ none)
  done_or_absent r at f = elim (Option-cases (disk torn start at path)) [
    | inl n ↦ inr n
    | inr (s, p) ↦ inl (f s p)
  ]

  opened :
      (r : Loaded (Option JournalFile)) (t : Trace)
      → read_journal host t path ≡ r
      → (open_journal host path t).0 ≡ ok blank
  unfolding open_journal recover load
  opened (err e) t h =
      let q = host.with_extension path (codes "json.corrupt") in
      let recovered : recover host path t ≡ (err e, t) = rw (h, recover) refl in
      let moved = host.fs t (rename path q) in
      rw (recovered, open_journal, after_recovery)
        (load-missing (fs_called (rename path q) moved ∷ t)
          (rename-gone q moved t (done_or_absent moved t (renames t)) aside))
  opened (ok none) t h =
      let recovered : recover host path t ≡ (ok empty_recovery, t) = rw (h, recover) refl in
      rw (recovered, open_journal, after_recovery) (rw (h, load) refl)
  opened (ok (some file)) t h =
      let r = recover_entries host empty_recovery file.entries t in
      let removed = host.fs r.1 (remove_file path) in
      let t1 : Trace = fs_called (remove_file path) removed ∷ r.1 in
      let recovered : recover host path t ≡ (ok r.0, t1) = rw (h, recover) refl in
      rw (recovered, open_journal)
        (load-missing (after_recovery host path (ok r.0) t1).1 (
          after_report r.0 t1 (remove-gone removed r.1 (done_or_absent removed r.1 (removes r.1)))))

  -- Where a journal that is there can be removed, and moved aside under another name, and a file
  -- that is not there is reported as missing, the daemon starts from a clean slate: the journal that
  -- it goes on with records nothing, whether the one that it found was absent, readable or not.
  pub open_journal-blank : (t : Trace) → (open_journal host path t).0 ≡ ok blank
  open_journal-blank t = opened (read_journal host t path) t refl
