-- ===== src/System/Undone.antt =====
-- What undoing a suspension does to the processes: `thaw_app` and `apply_signal` of
-- crates/app-powerd-core/src/system/freeze.rs, and `remove_throttle` of system/throttle.rs there.
use app_powerd.Prelude.{
  ℕ, ◌≡◌, refl, ◌⊎◌, inl, inr, if◌then◌else◌, List, [], ◌∷◌, true, false, Option, none, some, Text,
  In, pos, ◌==◌, arith, Bool-cases,
}
use app_powerd.Host.{
  Host, Trace, ◌>>=◌, pure, Effect, ProcessHandle, sigcont, kill_called, setpriority_called,
  fs_called,
}
use app_powerd.Host.Log.{none_added, added, Extends-trans}
use app_powerd.Desktop.Identity.{app_eq}
use app_powerd.System.Process.{is_alive}
use app_powerd.System.Apply.{PidOutcome, push, record_outcome, ApplyReport, empty_report}
use app_powerd.System.Cgroup
use app_powerd.System.Cgroup.{CgroupCapabilities, cpu_period_us}
use app_powerd.System.Freeze.{
  valid_pid, send_signal, signal_one, apply_signal_from, apply_signal, group_thaw, thaw_app,
}
use app_powerd.System.Freeze.Reports.{Later}
use app_powerd.System.Throttle.{set_nice, unthrottle_from, reset_group}
use app_powerd.State.Machine.{AppState, throttled, frozen}

module _ (host : Host) where
  -- The call that undoes a suspension: niceness 0 for a throttled process, else SIGCONT.
  abbrev pub undoing : AppState → ProcessHandle → Trace → Effect
  undoing throttled h at = setpriority_called h.pid (pos 0) (host.setpriority at h.pid (pos 0))
  undoing _ h at = kill_called h.pid sigcont (host.kill at h.pid sigcont)

  -- Between `start` and `t` the process was found alive and the call was made, or it was found dead,
  -- or its PID is no PID.
  abbrev pub IsUndone : AppState → Trace → Trace → ProcessHandle → Type 0
  IsUndone s start t h =
      (at : Trace) × (Later start at
        × (((is_alive host at h ≡ true) × Later (undoing s h at ∷ at) t)
            ⊎ (((is_alive host at h ≡ false) ⊎ (valid_pid h.pid ≡ false)) × Later at t)))

  pub IsUndone-within :
      (s : AppState) (a b c d : Trace) (h : ProcessHandle)
      → Later a b
      → Later c d
      → IsUndone s b c h
      → IsUndone s a d h
  IsUndone-within s a b c d h from to (at, (k, inl (alive, l))) =
      (at, (Extends-trans from k, inl (alive, Extends-trans l to)))
  IsUndone-within s a b c d h from to (at, (k, inr (why, l))) =
      (at, (Extends-trans from k, inr (why, Extends-trans l to)))

  abbrev pub AreUndone : AppState → Trace → Trace → List ProcessHandle → Type 0
  AreUndone s start t procs =
      ((h : ProcessHandle) → In h procs → IsUndone s start t h) × Later start t

  AreUndone-cons :
      (s : AppState) (a b c : Trace) (p : ProcessHandle) (procs : List ProcessHandle)
      → IsUndone s a b p × Later a b
      → AreUndone s b c procs
      → AreUndone s a c (p ∷ procs)
  AreUndone-cons s a b c p procs one more = (
    λ h i. elim i [
      | inl here ↦ rw here (IsUndone-within s a a b c p none_added more.1 one.0)
      | inr later ↦ IsUndone-within s a b c c h one.1 none_added (more.0 h later)
    ],
    Extends-trans one.1 more.1,
  )

  pub AreUndone-within :
      (s : AppState) (a b c d : Trace) (procs : List ProcessHandle)
      → Later a b
      → Later c d
      → AreUndone s b c procs
      → AreUndone s a d procs
  AreUndone-within s a b c d procs from to u = (
    λ h i. IsUndone-within s a b c d h from to (u.0 h i),
    Extends-trans from (Extends-trans u.1 to),
  )

  signal_one-IsUndone :
      (report : ApplyReport) (h : ProcessHandle) (t : Trace)
      → let r = signal_one host sigcont report h t in IsUndone frozen t r.1 h × Later t r.1
  unfolding signal_one send_signal
  signal_one-IsUndone report h t = elim (Bool-cases (is_alive host t h)) [
    | inr d ↦ rw d ((t, (none_added, inr (inl d, none_added))), none_added)
    | inl a ↦ elim (Bool-cases (valid_pid h.pid)) [
      | inl v ↦
          rw (a, v)
            (
              (t, (none_added, inl (a, none_added))),
              added (kill_called h.pid sigcont (host.kill t h.pid sigcont)) tt none_added,
            )
      | inr v ↦ rw (a, v) ((t, (none_added, inr (inr refl, none_added))), none_added)
    ]
  ]

  apply_signal_from-AreUndone :
      (report : ApplyReport) (procs : List ProcessHandle) (t : Trace)
      → AreUndone frozen t (apply_signal_from host sigcont report procs t).1 procs
  unfolding apply_signal_from
  apply_signal_from-AreUndone report [] t = (λ h i. absurd i, none_added)
  apply_signal_from-AreUndone report (p ∷ procs) t =
      let r = signal_one host sigcont report p t in
      AreUndone-cons frozen t r.1 _ p procs (signal_one-IsUndone report p t)
        (apply_signal_from-AreUndone r.0 procs r.1)

  group_thaw-Later :
      (caps : CgroupCapabilities) (cgroup : Option Text) (t : Trace)
      → Later t (group_thaw host caps cgroup t).1
  unfolding group_thaw Cgroup.thaw Cgroup.write_control
  group_thaw-Later caps none t = none_added
  group_thaw-Later caps (some path) t = elim (Bool-cases caps.freezer) [
    | inl f ↦ rw f (added (fs_called _ _) tt none_added)
    | inr f ↦ rw f none_added
  ]

  pub thaw_app-AreUndone :
      (caps : CgroupCapabilities) (cgroup : Option Text) (procs : List ProcessHandle) (t : Trace)
      → AreUndone frozen t (thaw_app host caps cgroup procs t).1 procs
  unfolding thaw_app apply_signal
  thaw_app-AreUndone caps cgroup procs t =
      let g = group_thaw host caps cgroup t in
      AreUndone-within frozen t g.1 _ _ procs (group_thaw-Later caps cgroup t) none_added
        (apply_signal_from-AreUndone empty_report procs g.1)

  invalid_zero : (pid : ℕ) → (pid == 0) ≡ true → valid_pid pid ≡ false
  unfolding valid_pid
  invalid_zero pid z = ground arith

  unthrottle_one-IsUndone :
      (report : ApplyReport) (h : ProcessHandle) (t : Trace)
      → let r =
          (if is_alive host t h
            then (do e ← set_nice host h.pid (pos 0); pure (record_outcome h e report)) t
            else (push (PidOutcome.gone h.pid) report, t)) in
        IsUndone throttled t r.1 h × Later t r.1
  unfolding set_nice
  unthrottle_one-IsUndone report h t = elim (Bool-cases (is_alive host t h)) [
    | inr d ↦ rw d ((t, (none_added, inr (inl d, none_added))), none_added)
    | inl a ↦ elim (Bool-cases (h.pid == 0)) [
      | inl z ↦
          rw (a, z) ((t, (none_added, inr (inr (invalid_zero h.pid z), none_added))), none_added)
      | inr z ↦
          rw (a, z)
            (
              (t, (none_added, inl (a, none_added))),
              added (setpriority_called h.pid (pos 0) (host.setpriority t h.pid (pos 0))) tt
                  none_added,
            )
    ]
  ]

  pub unthrottle_from-AreUndone :
      (procs : List ProcessHandle) (report : ApplyReport) (t : Trace)
      → AreUndone throttled t (unthrottle_from host report procs t).1 procs
  unfolding unthrottle_from
  unthrottle_from-AreUndone [] report t = (λ h i. absurd i, none_added)
  unthrottle_from-AreUndone (p ∷ procs) report t =
      AreUndone-cons throttled t _ _ p procs (unthrottle_one-IsUndone report p t)
        (unthrottle_from-AreUndone procs _ _)

  pub reset_group-Later :
      (caps : CgroupCapabilities) (cgroup : Option Text) (t : Trace)
      → Later t (reset_group host caps cgroup t).1
  unfolding reset_group Cgroup.reset_cpu
  reset_group-Later caps none t = none_added
  reset_group-Later caps (some path) t = elim (Bool-cases caps.cpu_control) [
    | inl f ↦ rw f (added (fs_called _ _) tt (added (fs_called _ _) tt none_added))
    | inr f ↦ rw f none_added
  ]
