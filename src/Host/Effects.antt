-- ===== src/Host/Effects.antt =====
-- The daemon's actions on the outside, each recorded with the answer it got, and the data that
-- crosses the boundary: ProcessHandle (system/process.rs), JournalEntry (state/journal.rs), the
-- timer events (engine/mod.rs) and the counters (metrics.rs).
use app_powerd.Prelude.{ℕ, ◌≡◌, Bool, true, List, Option, Text, ℤ, Eq, ◌==◌, ◌&&◌, arith}
use app_powerd.Desktop.Identity.{AppId}

-- A PID with the start time of the process that carries it.
pub record ProcessHandle : Type 0 where
  pub pid : ℕ
  pub starttime : ℕ

abbrev pub same_handle : ProcessHandle → ProcessHandle → Bool
same_handle a b = (a.pid == b.pid) && (a.starttime == b.starttime)

pub same_handle_refl : (a : ProcessHandle) → same_handle a a ≡ true
same_handle_refl a = ground arith

pub same_handle_sym : (a b : ProcessHandle) → same_handle a b ≡ same_handle b a
same_handle_sym a b = ground arith

pub same_handle→eq : (a b : ProcessHandle) → same_handle a b ≡ true → a ≡ b
same_handle→eq a b h = ground arith

pub same_handle_trans :
    (a b c : ProcessHandle) → same_handle a b ≡ true → same_handle a c ≡ same_handle b c
same_handle_trans a b c h = ground arith

instance abbrev pub handle_eq : Eq ProcessHandle
handle_eq = record {
  same = same_handle;
  same_refl = same_handle_refl;
  same_sym = same_handle_sym;
  same_trans = same_handle_trans;
}

pub data FreezeMethod : Type 0 where
  cgroup signal unknown : FreezeMethod

pub record JournalEntry : Type 0 where
  pub app_id : Text
  pub method : FreezeMethod
  pub cgroup_path : Option Text
  pub procs : List ProcessHandle

pub record JournalFile : Type 0 where
  pub version : ℕ
  pub entries : List JournalEntry

pub data Signal : Type 0 where
  sigstop sigcont : Signal

pub data Errno : Type 0 where
  esrch : Errno
  errno : ℕ → Errno

pub data IoError : Type 0 where
  not_found : IoError
  io_error : ℕ → IoError

-- What `fs::read` answers.
pub data FileRead : Type 0 where
  contents : Text → FileRead
  refused : IoError → FileRead

-- The calls of `std::fs` that change something.
pub data FsCall : Type 0 where
  create_dir_all : Text → FsCall
  create_dir : Text → FsCall
  set_mode : Text → ℕ → FsCall
  open_truncated : Text → FsCall
  write_all : Text → Text → FsCall
  sync_all : Text → FsCall
  rename : Text → Text → FsCall
  remove_file : Text → FsCall
  remove_dir : Text → FsCall
  write : Text → Text → FsCall

pub data TimerEvent : Type 0 where
  suspend_timer_fired : AppId → TimerEvent
  maintenance_wake : AppId → TimerEvent
  maintenance_sleep : AppId → TimerEvent

pub data Metric : Type 0 where
  apps_frozen_total apps_thawed_total apps_throttled_total apps_unthrottled_total : Metric
  focus_changes_total guard_blocks_total config_reloads_total : Metric
  time_in_frozen_ms time_in_throttled_ms : Metric
  reconcile_ticks_total pids_reaped_total apps_removed_stale_total : Metric
  protection_blocks_total journal_recovered_total journal_stale_dropped_total : Metric
  warns_suppressed_total : Metric

pub data Effect : Type 0 where
  kill_called : ℕ → Signal → Option Errno → Effect
  setpriority_called : ℕ → ℤ → Option Errno → Effect
  fs_called : FsCall → Option IoError → Effect
  scope_started : Text → List ℕ → Option Text → Effect
  spawned : ℕ → TimerEvent → Effect
  aborted : ℕ → Effect
  counted : Metric → ℕ → Effect
  -- Tasks on the blocking pool: a sweep of the processes listed, and one of the session bus.
  sweep_spawned : List (AppId × List ProcessHandle) → List (Text × List ProcessHandle) → Effect
  bus_sweep_spawned : Effect

-- What has happened so far, the latest first.
abbrev pub Trace : Type 0
Trace = List Effect
