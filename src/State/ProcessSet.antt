-- ===== src/State/ProcessSet.antt =====
-- The processes of an application: crates/app-powerd-core/src/state/process_set.rs.
pub mod Members
use app_powerd.Prelude.{
  ℕ, List, [], ◌∷◌, ◌++◌, map, Bool, true, false, not, Option, none, some, ◌==◌, any, retain,
  is_empty, contains, nat_eq, if◌then◌else◌,
}
use app_powerd.Host.{Host, Trace, ProcessHandle, handle_eq}
use app_powerd.System.Process.{open_process, is_alive}

pub record ProcessSet : Type 0 where
  pub procs : List ProcessHandle
  pub had_live_procs : Bool

abbrev pub empty_set : ProcessSet
empty_set = record { procs = []; had_live_procs = false }

unfoldable pub insert : ProcessHandle → ProcessSet → ProcessSet
unfolding contains
insert handle s =
    if contains s.procs handle
    then s
    else record { procs = s.procs ++ handle ∷ []; had_live_procs = true }

unfoldable pub insert_pid : Host → Trace → ℕ → ProcessSet → ProcessSet × Option ProcessHandle
insert_pid host t pid s = elim (open_process host t pid) [
  | none ↦ (s, none)
  | some handle ↦ (insert handle s, some handle)
]

unfoldable pub contains_pid : ProcessSet → ℕ → Bool
unfolding any
contains_pid s pid = any (λ h. h.pid == pid) s.procs

unfoldable pub pids : ProcessSet → List ℕ
pids s = map (λ h. h.pid) s.procs

unfoldable pub remove_pids : List ℕ → ProcessSet → ProcessSet
unfolding retain contains
remove_pids gone s = record s { procs = retain (λ h. not (contains gone h.pid)) s.procs }

-- The set of what is alive, and what was dropped.
unfoldable pub retain_alive : Host → Trace → ProcessSet → ProcessSet × List ProcessHandle
unfolding retain
retain_alive host t s = (
  record s { procs = retain (is_alive host t) s.procs },
  retain (λ h. not (is_alive host t h)) s.procs,
)

-- `AppEntry::is_defunct` (state/app_entry.rs): it had processes, and all have exited.
unfoldable pub is_defunct : ProcessSet → Bool
is_defunct s = if is_empty s.procs then s.had_live_procs else false
