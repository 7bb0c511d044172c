-- ===== src/System/Apply.antt =====
-- The outcome of an operation over a set of processes: crates/app-powerd-core/src/system/apply.rs.
use app_powerd.Prelude.{ℕ, List, [], ◌∷◌, ◌++◌, map, Bool, not, Option, none, some, is_empty}
use app_powerd.Host.{ProcessHandle}
use app_powerd.System.Process.{SystemError, process_gone}

pub data PidOutcome : Type 0 where
  applied : ProcessHandle → PidOutcome
  gone : ℕ → PidOutcome
  failed : ℕ → SystemError → PidOutcome

pub record ApplyReport : Type 0 where
  pub applied : List ProcessHandle
  pub gone : List ℕ
  pub failed : List (ℕ × SystemError)

abbrev pub empty_report : ApplyReport
empty_report = record { applied = []; gone = []; failed = [] }

unfoldable pub push : PidOutcome → ApplyReport → ApplyReport
push (PidOutcome.applied handle) r = record r { applied = r.applied ++ handle ∷ [] }
push (PidOutcome.gone pid) r = record r { gone = r.gone ++ pid ∷ [] }
push (PidOutcome.failed pid e) r = record r { failed = r.failed ++ (pid, e) ∷ [] }

-- The outcome of one process; `none` is success, and `ESRCH` means that it has exited.
unfoldable pub outcome_of : ProcessHandle → Option SystemError → PidOutcome
outcome_of handle none = PidOutcome.applied handle
outcome_of handle (some (process_gone pid)) = PidOutcome.gone pid
outcome_of handle (some e) = PidOutcome.failed handle.pid e

unfoldable pub record_outcome : ProcessHandle → Option SystemError → ApplyReport → ApplyReport
unfolding push outcome_of
record_outcome handle result r = push (outcome_of handle result) r

abbrev pub nothing_applied : ApplyReport → Bool
nothing_applied r = is_empty r.applied

abbrev pub had_real_error : ApplyReport → Bool
had_real_error r = not (is_empty r.failed)

unfoldable pub settled_pids : ApplyReport → List ℕ
settled_pids r = map (λ h. h.pid) r.applied ++ r.gone
