-- ===== src/Host/Answers.antt =====
-- The answers of the outside, each a function of all that happened before, and the monad of the
-- code that asks. Every such function is allowed: nothing is assumed of the outside here.
use app_powerd.Prelude.{ℕ, List, ◌∷◌, Bool, Option, Text, ℤ, length}
use app_powerd.Host.Effects.{
  Signal, Errno, IoError, FileRead, FsCall, JournalFile, TimerEvent, Metric, Trace, kill_called,
  setpriority_called, fs_called, scope_started, spawned, aborted, counted,
}

-- An answer depends on the effects before it. A read leaves nothing in the trace, so reads with no
-- effect between them agree, and so do a check and the signal that follows it.
pub record Host : Type 0 where
  -- /proc/<pid>/stat and /proc/<pid>/comm, the owner of /proc/<pid>, and `getuid`.
  pub read_stat : Trace → ℕ → Option Text
  pub read_comm : Trace → ℕ → Option Text
  -- The texts of /proc/<pid>/task/<tid>/children, `none` where one cannot be read.
  pub read_children : Trace → ℕ → Option (List (Option Text))
  pub proc_uid : Trace → ℕ → Option ℕ
  pub uid : ℕ
  -- `kill`, `setpriority` and the calls on files: `none` is success.
  pub kill : Trace → ℕ → Signal → Option Errno
  pub setpriority : Trace → ℕ → ℤ → Option Errno
  pub fs : Trace → FsCall → Option IoError
  pub read_file : Trace → Text → FileRead
  pub path_exists : Trace → Text → Bool
  -- `fs::read_dir` (the names of the entries) and `fs::read_link`.
  pub read_dir : Trace → Text → Option (List Text)
  pub read_link : Trace → Text → FileRead
  pub env : Text → Option Text
  -- `try_send` on the engine's own channel: `none` is success, else the error in words.
  pub try_send : Trace → Option Text
  -- Whether systemd answers on the session bus, and a transient scope of it: its path, or a
  -- refusal.
  pub systemd : Trace → Bool
  pub start_scope : Trace → Text → List ℕ → Option Text
  -- `char::is_alphanumeric` beyond ASCII.
  pub is_alphanumeric : ℕ → Bool
  -- serde_json, and `Path::parent`, `Path::with_extension`.
  pub to_json : JournalFile → Option Text
  pub from_json : Text → Option JournalFile
  pub parent : Text → Option Text
  pub with_extension : Text → Text → Text
  -- `Instant::now`, in milliseconds.
  pub now : Trace → ℕ

abbrev pub Io {ℓ} : Type ℓ → Type ℓ
Io A = Trace → A × Trace

infixl 5 ◌>>=◌ ◌>>◌
abbrev pub ◌>>=◌ {ℓ κ} : {A : Type ℓ} {B : Type κ} → Io A → (A → Io B) → Io B
◌>>=◌ m f t = let r = m t in f r.0 r.1

abbrev pub ◌>>◌ {ℓ κ} : {A : Type ℓ} {B : Type κ} → Io A → Io B → Io B
m >> k = m >>= λ _. k

abbrev pub pure {ℓ} : {A : Type ℓ} → A → Io A
pure a t = (a, t)

abbrev pub call_kill : Host → ℕ → Signal → Io (Option Errno)
call_kill host pid sig t = let r = host.kill t pid sig in (r, kill_called pid sig r ∷ t)

abbrev pub call_setpriority : Host → ℕ → ℤ → Io (Option Errno)
call_setpriority host pid nice t =
    let r = host.setpriority t pid nice in (r, setpriority_called pid nice r ∷ t)

abbrev pub call_fs : Host → FsCall → Io (Option IoError)
call_fs host c t = let r = host.fs t c in (r, fs_called c r ∷ t)

abbrev pub call_start_scope : Host → Text → List ℕ → Io (Option Text)
call_start_scope host name pids t =
    let r = host.start_scope t name pids in (r, scope_started name pids r ∷ t)

-- A timer task is named by its place in the trace.
abbrev pub spawn : ℕ → TimerEvent → Io ℕ
spawn delay event t = (length t, spawned delay event ∷ t)

abbrev pub abort : ℕ → Io (Unit {0})
abort handle t = (tt, aborted handle ∷ t)

abbrev pub count : Metric → ℕ → Io (Unit {0})
count metric n t = (tt, counted metric n ∷ t)
