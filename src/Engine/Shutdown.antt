-- ===== src/Engine/Shutdown.antt =====
-- Release of everything suspended: `shutdown` and `release_journal_remnants` of
-- crates/app-powerd-core/src/engine/config_power.rs, and `release_recorded_processes` of
-- crates/app-powerd-core/src/engine/ipc_handler.rs.
use app_powerd.Prelude.{
  ℕ, suc, List, [], ◌∷◌, ◌++◌, map, Option, none, some, Text, HashMap, is_empty, if◌then◌else◌,
}
use app_powerd.Host.{Host, Io, Trace, ◌>>=◌, pure, ProcessHandle, sigcont}
use app_powerd.Desktop.Identity.{AppId}
use app_powerd.System.Process.{SystemError, is_alive}
use app_powerd.System.Cgroup.{remove_cgroup}
use app_powerd.System.Freeze.{send_signal}
use app_powerd.State.AppEntry
use app_powerd.State.AppEntry.{AppEntry}
use app_powerd.State.Journal.{retire, clear}
use app_powerd.State.Journal.Persist.{FreezeJournal}
use app_powerd.Engine.{Engine}
use app_powerd.Engine.Power.{thaw_all}

-- The PIDs settled so far, and how many processes were released and could not be.
pub record Released : Type 0 where
  pub settled : List ℕ
  pub released : ℕ
  pub stuck : ℕ

unfoldable pub settle : ℕ → Option SystemError → Released → Released
settle pid none r = record r { settled = r.settled ++ pid ∷ []; released = suc r.released }
settle pid (some e) r = record r { stuck = suc r.stuck }

module _ (host : Host) where
  unfoldable pub release_one : ProcessHandle → Released → Io Released
  unfolding settle
  release_one handle r t =
      if is_alive host t handle
      then (let s = send_signal host sigcont handle.pid t in (settle handle.pid s.0 r, s.1))
      else (record r { settled = r.settled ++ handle.pid ∷ [] }, t)

  unfoldable pub release_procs : List ProcessHandle → Released → Io Released
  unfolding release_one
  release_procs [] r t = (r, t)
  release_procs (handle ∷ procs) r t = let s = release_one handle r t in release_procs procs s.0 s.1

  -- One entry of the journal after the other; the counts run on, the PIDs start anew.
  unfoldable pub release_entries :
      List (Text × List ProcessHandle) → FreezeJournal → ℕ → ℕ → Io (FreezeJournal × (ℕ × ℕ))
  unfolding release_procs
  release_entries [] j released stuck t = ((j, (released, stuck)), t)
  release_entries ((key, procs) ∷ rest) j released stuck t =
      let s = release_procs procs (record { settled = []; released = released; stuck = stuck }) t in
      let r = retire host j key s.0.settled s.1 in
      release_entries rest r.0.0 s.0.released s.0.stuck r.1

  -- The file goes once nothing is recorded.
  unfoldable pub clear_empty : FreezeJournal → Io FreezeJournal
  clear_empty j = if is_empty j.entries then (do r ← clear host j; pure r.0) else pure j

  -- How many were released, and how many are stuck.
  unfoldable pub release_recorded_processes : Engine → Io (Engine × (ℕ × ℕ))
  unfolding release_entries clear_empty
  release_recorded_processes e = do
    r ← release_entries (map (λ p. (p.1.app_id, p.1.procs)) e.journal.entries) e.journal 0 0
    j ← clear_empty r.0
    pure (record e { journal = j }, r.1)

  unfoldable pub release_journal_remnants : Engine → Io Engine
  unfolding release_recorded_processes clear_empty
  release_journal_remnants e =
      if is_empty e.journal.entries
      then (do j ← clear_empty e.journal; pure (record e { journal = j }))
      else (do r ← release_recorded_processes e; pure r.0)

  -- The timers of an entry, and its cgroup.
  unfoldable pub close_entry : AppEntry → Io AppEntry
  close_entry x t =
      let r = AppEntry.cancel_all_timers x t in
      (
        r.0,
        elim r.0.cgroup_path as (λ _. Trace) [
          | none ↦ r.1
          | some path ↦ (remove_cgroup host path r.1).1
        ],
      )

  unfoldable pub close_each : HashMap AppId AppEntry → Io (HashMap AppId AppEntry)
  unfolding close_entry
  close_each [] t = ([], t)
  close_each ((id, x) ∷ rest) t =
      let r = close_entry x t in let s = close_each rest r.1 in ((id, r.0) ∷ s.0, s.1)

  unfoldable pub shutdown : Engine → Io Engine
  unfolding close_each release_journal_remnants
  shutdown e = do
    e1 ← thaw_all host e
    apps ← close_each e1.registry.apps
    release_journal_remnants (record e1 { registry = record e1.registry { apps = apps } })
