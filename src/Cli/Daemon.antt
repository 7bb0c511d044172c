-- ===== src/Cli/Daemon.antt =====
-- The start of the daemon, and the client's commands: `run_daemon` up to the engine, `run_thaw_all`,
-- `run_client` and `reload_config_from_file` of crates/app-powerd/src/main.rs.
use app_powerd.Prelude.{
  ◌==◌, ◌&&◌, [], ◌∷◌, ◌++◌, Bool, Option, none, some, Text, codes, decimal, if◌then◌else◌,
}
use app_powerd.Host.{
  Host, Io, Trace, ◌>>=◌, ◌>>◌, pure, rename, call_fs, count, journal_recovered_total,
}
use app_powerd.System.Paths.{journal_default_path}
use app_powerd.Config.{Config}
use app_powerd.Config.Loader
use app_powerd.Config.Loader.{ConfigRead, load_config, load_config_or_default}
use app_powerd.State.Journal.Persist.{FreezeJournal, JournalError}
use app_powerd.State.Journal.Recover.{Loaded, ok, err, RecoveryReport, recover, load}
use app_powerd.Ipc.{IpcRequest, thaw_all}
use app_powerd.Ipc.Server.{Response, received, lost}
use app_powerd.Engine.{Engine}
use app_powerd.Engine.Loop.{EngineEvent, config_reloaded, with_journal}
use app_powerd.Cli.{
  Commands, request_of, LockAnswer, LockResult, locked, busy, lock_failed, try_lock_instance,
}
use app_powerd.Cli.Display.{Exit, printed, failed, print_response}

-- `RecoveryReport::is_empty`.
abbrev pub nothing_found : RecoveryReport → Bool
nothing_found r = (r.thawed == 0) && ((r.stale == 0) && (r.not_owned == 0))

-- What stops a start.
pub data StartError : Type 0 where
  lock_error : Text → StartError
  already_running : StartError
  no_journal : JournalError → StartError
  bad_rule : StartError

pub data Started : Type 0 where
  running : Engine → Started
  refused_start : StartError → Started

module _ (host : Host) where
  -- An unreadable journal is moved aside.
  unfoldable pub after_recovery : Text → Loaded RecoveryReport → Io (Unit {0})
  after_recovery path (ok report) =
      if nothing_found report then pure tt else count journal_recovered_total report.thawed
  after_recovery path (err e) = do
    call_fs host (rename path (host.with_extension path (codes "json.corrupt")))
    pure tt

  -- Recovery comes before the journal is loaded.
  unfoldable pub open_journal : Text → Io (Loaded FreezeJournal)
  unfolding after_recovery
  open_journal path = do
    report ← recover host path
    after_recovery path report
    λ t. (load host t path, t)

  module _ (regex : Text → Option (Text → Bool)) (from_yaml : Text → Option Config) where
    unfoldable pub start_with : Text → Loaded FreezeJournal → Io Started
    start_with path (err e) t = (refused_start (no_journal e), t)
    start_with path (ok journal) t =
        let r =
          with_journal host regex (load_config_or_default from_yaml host t path) path journal t in
        (elim r.0 as (λ _. Started) [ none ↦ refused_start bad_rule | some e ↦ running e ], r.1)

    -- `run_daemon` up to the engine, under the lock.
    unfoldable pub start_locked : Text → LockResult → Io Started
    unfolding open_journal start_with
    start_locked path (lock_failed why) t = (refused_start (lock_error why), t)
    start_locked path busy t = (refused_start already_running, t)
    start_locked path locked t =
        let r = open_journal (journal_default_path host) t in start_with path r.0 r.1

    unfoldable pub start_daemon : Text → LockAnswer → Io Started
    unfolding start_locked try_lock_instance
    start_daemon path answer t = start_locked path (try_lock_instance host answer) t

  abbrev recovered_line : RecoveryReport → Text
  recovered_line r =
      if nothing_found r
      then codes "Nothing to resume: no processes are recorded as suspended."
      else codes "Resumed "
        ++ decimal r.thawed
        ++ codes " process(es) ("
        ++ decimal r.stale
        ++ codes " already gone, "
        ++ decimal r.not_owned
        ++ codes " not owned by this user)."

  abbrev recovered_exit : Loaded RecoveryReport → Exit
  recovered_exit (ok r) = printed (recovered_line r ∷ [])
  recovered_exit (err e) = failed (codes "failed to replay the freeze journal")

  abbrev response_exit : Text → Response → Exit
  response_exit trouble (received response) = print_response response
  response_exit trouble (lost e) = failed trouble

  -- `ask` is `send_request` on the daemon's socket. The lock decides which way is taken.
  unfoldable pub thaw_all_locked : (IpcRequest → Response) → LockResult → Io Exit
  thaw_all_locked ask (lock_failed why) t = (failed why, t)
  thaw_all_locked ask busy t = (
    response_exit
        (codes
          "a daemon holds the lock but its socket is not answering; refusing to touch the freeze journal behind its back")
        (ask thaw_all),
    t,
  )
  thaw_all_locked ask locked t =
      let r = recover host (journal_default_path host) t in (recovered_exit r.0, r.1)

  unfoldable pub run_thaw_all : (IpcRequest → Response) → LockAnswer → Io Exit
  unfolding thaw_all_locked try_lock_instance
  run_thaw_all ask answer = thaw_all_locked ask (try_lock_instance host answer)

  -- Any other request goes to the daemon.
  unfoldable pub run_request : (IpcRequest → Response) → IpcRequest → Exit
  run_request ask request =
      response_exit (codes "failed to connect to daemon (is app-powerd running?)") (ask request)

  -- `none` is a command that is carried out elsewhere, and does not come here.
  unfoldable pub run_client : (IpcRequest → Response) → LockAnswer → Commands → Io (Option Exit)
  unfolding run_thaw_all run_request request_of
  run_client ask answer Commands.thaw_all t = let r = run_thaw_all ask answer t in (some r.0, r.1)
  run_client ask answer command t =
      (elim (request_of command) [ none ↦ none | some request ↦ some (run_request ask request) ], t)

-- What a changed file, or a hang-up signal, sends to the engine.
unfoldable pub reload_config_from_file :
    (Text → Option Config) → Host → Trace → Text → Option EngineEvent
reload_config_from_file from_yaml host t path = elim (load_config from_yaml host t path) [
  | Loader.ok config ↦ some (config_reloaded config)
  | Loader.err e ↦ none
]
