-- ===== src/Host/Quiet.antt =====
-- Effects that touch no process: bookkeeping on files, timers and counters.
use app_powerd.Prelude.{◌∷◌}
use app_powerd.Host.Effects.{
  Effect, Trace, FsCall, write, kill_called, setpriority_called, fs_called,
}
use app_powerd.Host.Log.{Extends, none_added, added}

abbrev pub IsQuietCall : FsCall → Type 0
IsQuietCall (write file text) = ⊥
IsQuietCall _ = Unit

abbrev pub IsQuiet : Effect → Trace → Type 0
IsQuiet (kill_called pid sig r) t = ⊥
IsQuiet (setpriority_called pid nice r) t = ⊥
IsQuiet (fs_called c r) t = IsQuietCall c
IsQuiet _ t = Unit

abbrev pub Quietly : Trace → Trace → Type 0
Quietly = Extends IsQuiet

pub one_quiet : (e : Effect) (t : Trace) → IsQuiet e t → Quietly t (e ∷ t)
one_quiet e t q = added e q none_added
