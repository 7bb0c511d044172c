-- ===== src/System/Freeze/Signals.antt =====
-- The signals and control writes of crates/app-powerd-core/src/system/freeze.rs, each with what
-- holds at the moment at which it is done.
use app_powerd.Prelude.{
  join, ℕ, ◌≡◌, refl, inl, inr, List, [], ◌∷◌, true, Option, none, some, Text, codes, In,
  Bool-cases,
}
use app_powerd.Host.{
  Host, Trace, ProcessHandle, Effect, Signal, sigstop, IoError, write, Errno, kill_called,
  setpriority_called, fs_called,
}
use app_powerd.Host.Log.{Extends, none_added, added, Extends-trans, Extends-mono}
use app_powerd.Host.Quiet.{Quietly, IsQuiet}
use app_powerd.System.Process.{is_alive}
use app_powerd.System.Cgroup
use app_powerd.System.Cgroup.{CgroupCapabilities}
use app_powerd.System.Apply.{ApplyReport, empty_report}
use app_powerd.System.Freeze.{
  valid_pid, send_signal, signal_one, apply_signal_from, apply_signal, group_report,
  try_group_freeze, freeze_app,
}

-- A signal goes, while `Q` holds, to one of `procs` that is alive at that moment under the start
-- time it was recorded with; a control file is written while `Q` holds.
abbrev pub Guarded : Host → (Trace → Type 0) → List ProcessHandle → Effect → Trace → Type 0
Guarded host Q procs (kill_called pid sig r) t =
    Q t × ((h : ProcessHandle) × (In h procs × ((h.pid ≡ pid) × (is_alive host t h ≡ true))))
Guarded host Q procs (setpriority_called pid nice r) t = ⊥
Guarded host Q procs (fs_called (write file text) r) t = Q t
Guarded host Q procs _ t = Unit

pub Guarded-of-IsQuiet :
    (host : Host) (Q : Trace → Type 0) (procs : List ProcessHandle) (e : Effect) (t : Trace)
    → IsQuiet e t
    → Guarded host Q procs e t
Guarded-of-IsQuiet host Q procs (kill_called pid sig r) t q = absurd q
Guarded-of-IsQuiet host Q procs (setpriority_called pid nice r) t q = absurd q
Guarded-of-IsQuiet host Q procs (fs_called (write file text) r) t q = absurd q
Guarded-of-IsQuiet host Q procs (fs_called _ r) t q = tt
Guarded-of-IsQuiet host Q procs _ t q = tt

pub Guarded-of-Quietly :
    (host : Host) (Q : Trace → Type 0) (procs : List ProcessHandle) (a b : Trace)
    → Quietly a b
    → Extends (Guarded host Q procs) a b
Guarded-of-Quietly host Q procs a b = Extends-mono (Guarded-of-IsQuiet host Q procs)

-- A control file that is written does not disturb `Q`.
abbrev pub WriteKeeps : (Trace → Type 0) → Option Text → Type 0
WriteKeeps Q none = Unit
WriteKeeps Q (some path) =
    (r : Option IoError) (t : Trace)
    → Q t
    → Q (fs_called (write (join path (codes "cgroup.freeze")) (codes "1")) r ∷ t)

module _ (host : Host) (Q : Trace → Type 0)
    (kill_keeps : (pid : ℕ) (sig : Signal) (r : Option Errno) (t : Trace)
      → Q t
      → Q (kill_called pid sig r ∷ t))
    (procs : List ProcessHandle) where
  abbrev pub Keeps : Trace → Trace → Type 0
  Keeps a b = Extends (Guarded host Q procs) a b × Q b

  signal_one-Keeps :
      (sig : Signal) (report : ApplyReport) (h : ProcessHandle) (t : Trace)
      → In h procs
      → Q t
      → Keeps t (signal_one host sig report h t).1
  unfolding signal_one send_signal
  signal_one-Keeps sig report h t i q = elim (Bool-cases (is_alive host t h)) [
    | inl e ↦ elim (Bool-cases (valid_pid h.pid)) [
      | inl v ↦
          rw (e, v)
            (
              added (kill_called h.pid sig (host.kill t h.pid sig)) (q, (h, (i, (refl, e))))
                  none_added,
              kill_keeps h.pid sig (host.kill t h.pid sig) t q,
            )
      | inr v ↦ rw (e, v) (none_added, q)
    ]
    | inr e ↦ rw e (none_added, q)
  ]

  apply_signal_from-Keeps :
      (sig : Signal) (report : ApplyReport) (rest : List ProcessHandle) (t : Trace)
      → ((h : ProcessHandle) → In h rest → In h procs)
      → Q t
      → Keeps t (apply_signal_from host sig report rest t).1
  unfolding apply_signal_from
  apply_signal_from-Keeps sig report [] t s q = (none_added, q)
  apply_signal_from-Keeps sig report (h ∷ rest) t s q =
      let one = signal_one-Keeps sig report h t (s h (inl refl)) q in
      let r = signal_one host sig report h t in
      let more = apply_signal_from-Keeps sig r.0 rest r.1 (λ x i. s x (inr i)) one.1 in
      (Extends-trans one.0 more.0, more.1)

  pub apply_signal-Keeps :
      (sig : Signal) (t : Trace) → Q t → Keeps t (apply_signal host sig procs t).1
  unfolding apply_signal
  apply_signal-Keeps sig t q = apply_signal_from-Keeps sig empty_report procs t (λ h i. i) q

  try_group_freeze-Keeps :
      (caps : CgroupCapabilities) (cgroup : Option Text) (t : Trace)
      → WriteKeeps Q cgroup
      → Q t
      → Keeps t (try_group_freeze host caps cgroup t).1
  unfolding try_group_freeze Cgroup.freeze
  try_group_freeze-Keeps caps none t w q = (none_added, q)
  try_group_freeze-Keeps caps (some path) t w q = elim (Bool-cases caps.freezer) [
    | inl e ↦
        let call = write (join path (codes "cgroup.freeze")) (codes "1") in
        rw e (added (fs_called call (host.fs t call)) q none_added, w (host.fs t call) t q)
    | inr e ↦ rw e (none_added, q)
  ]

  pub freeze_app-Keeps :
      (caps : CgroupCapabilities) (cgroup : Option Text) (t : Trace)
      → WriteKeeps Q cgroup
      → Q t
      → Keeps t (freeze_app host caps cgroup procs t).1
  unfolding freeze_app group_report try_group_freeze
  freeze_app-Keeps caps cgroup t w q =
      let r = try_group_freeze host caps cgroup t in
      let tried = try_group_freeze-Keeps caps cgroup t w q in
      elim (Bool-cases r.0) [
        | inl e ↦ rw e tried
        | inr e ↦
            let sent = apply_signal-Keeps sigstop r.1 tried.1 in
            rw e (Extends-trans tried.0 sent.0, sent.1)
      ]
