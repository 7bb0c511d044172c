-- ===== src/System/Reach.antt =====
-- Which processes an operation of crates/app-powerd-core/src/system/freeze.rs or throttle.rs acts on.
use app_powerd.Prelude.{
  ℕ, ◌≡◌, refl, inl, inr, List, [], ◌∷◌, Bool, true, false, Option, none, some, Text, ℤ, In, ◌==◌,
  Bool-cases, Option-cases,
}
use app_powerd.Host.{Host, Trace, ProcessHandle, Effect, kill_called, setpriority_called}
use app_powerd.Host.Log.{Extends, none_added, added, Extends-trans, Extends-mono}
use app_powerd.Host.Quiet.{Quietly, IsQuiet}
use app_powerd.System.Process.{is_alive}
use app_powerd.System.Apply.{ApplyReport, empty_report}
use app_powerd.System.Cgroup.{
  CgroupCapabilities, write_control, set_cpu_weight, set_cpu_max, cpu_max_value,
}
use app_powerd.System.Freeze.{freeze_app}
use app_powerd.System.Freeze.Signals.{Guarded, WriteKeeps, freeze_app-Keeps}
use app_powerd.System.Throttle.{
  ThrottleParams, set_nice, apply_weight, apply_quota, apply_cpu, throttle_live, throttle_one,
  throttle_from, apply_throttle,
}

-- One of `procs` has this PID, and is alive under its recorded start time.
abbrev pub IsTarget : Host → List ProcessHandle → ℕ → Trace → Type 0
IsTarget host procs pid t =
    (h : ProcessHandle) × (In h procs × ((h.pid ≡ pid) × (is_alive host t h ≡ true)))

-- Signals and priorities go to targets only.
abbrev pub Reaches : Host → List ProcessHandle → Effect → Trace → Type 0
Reaches host procs (kill_called pid sig r) t = IsTarget host procs pid t
Reaches host procs (setpriority_called pid nice r) t = IsTarget host procs pid t
Reaches host procs _ t = Unit

abbrev Always : Trace → Type 0
Always t = Unit

module _ (host : Host) (procs : List ProcessHandle) where
  Reaches-of-IsQuiet : (e : Effect) (t : Trace) → IsQuiet e t → Reaches host procs e t
  Reaches-of-IsQuiet (kill_called pid sig r) t q = absurd q
  Reaches-of-IsQuiet (setpriority_called pid nice r) t q = absurd q
  Reaches-of-IsQuiet _ t q = tt

  pub Reaches-of-Quietly : {a b : Trace} → Quietly a b → Extends (Reaches host procs) a b
  Reaches-of-Quietly = Extends-mono Reaches-of-IsQuiet

  Reaches-of-Guarded :
      (e : Effect) (t : Trace) → Guarded host Always procs e t → Reaches host procs e t
  Reaches-of-Guarded (kill_called pid sig r) t g = g.1
  Reaches-of-Guarded (setpriority_called pid nice r) t g = absurd g
  Reaches-of-Guarded _ t g = tt

  WriteKeeps-Always : (cgroup : Option Text) → WriteKeeps Always cgroup
  WriteKeeps-Always none = tt
  WriteKeeps-Always (some path) = λ r t q. tt

  pub freeze_app-Reaches :
      (caps : CgroupCapabilities) (cgroup : Option Text) (t : Trace)
      → Extends (Reaches host procs) t (freeze_app host caps cgroup procs t).1
  freeze_app-Reaches caps cgroup t =
      Extends-mono Reaches-of-Guarded
        (freeze_app-Keeps host Always (λ pid sig r t q. tt) procs caps cgroup t
          (WriteKeeps-Always cgroup) tt).0

  apply_weight-Reaches :
      (path : Text) (w : Option ℕ) (t : Trace)
      → Extends (Reaches host procs) t (apply_weight host path w t).1
  unfolding apply_weight set_cpu_weight write_control
  apply_weight-Reaches path none t = none_added
  apply_weight-Reaches path (some w) t = added _ tt none_added

  apply_quota-Reaches :
      (path : Text) (q : Option Text) (t : Trace)
      → Extends (Reaches host procs) t (apply_quota host path q t).1
  unfolding apply_quota set_cpu_max write_control
  apply_quota-Reaches path none t = none_added
  apply_quota-Reaches path (some q) t = elim (Option-cases (cpu_max_value q)) [
    | inl n ↦ rw (n, set_cpu_max) none_added
    | inr (v, s) ↦ rw (s, set_cpu_max) (added _ tt none_added)
  ]

  apply_cpu-Reaches :
      (caps : CgroupCapabilities) (cgroup : Option Text) (params : ThrottleParams) (t : Trace)
      → Extends (Reaches host procs) t (apply_cpu host caps cgroup params t).1
  unfolding apply_cpu
  apply_cpu-Reaches caps none params t = none_added
  apply_cpu-Reaches caps (some path) params t = elim (Bool-cases caps.cpu_control) [
    | inl c ↦
        let w = apply_weight host path params.cpu_weight t in
        rw c (
          Extends-trans (apply_weight-Reaches path params.cpu_weight t)
            (apply_quota-Reaches path params.cpu_quota w.1))
    | inr c ↦ rw c none_added
  ]

  throttle_live-Reaches :
      (nice : Option ℤ) (landed : Bool) (report : ApplyReport) (h : ProcessHandle) (t : Trace)
      → IsTarget host procs h.pid t
      → Extends (Reaches host procs) t (throttle_live host nice landed report h t).1
  unfolding throttle_live set_nice
  throttle_live-Reaches (some n) landed report h t i = elim (Bool-cases (h.pid == 0)) [
    | inl z ↦ rw z none_added
    | inr z ↦ rw z (added (setpriority_called h.pid n (host.setpriority t h.pid n)) i none_added)
  ]
  throttle_live-Reaches none true report h t i = none_added
  throttle_live-Reaches none false report h t i = none_added

  throttle_one-Reaches :
      (nice : Option ℤ) (landed : Bool) (report : ApplyReport) (h : ProcessHandle) (t : Trace)
      → In h procs
      → Extends (Reaches host procs) t (throttle_one host nice landed report h t).1
  unfolding throttle_one
  throttle_one-Reaches nice landed report h t i = elim (Bool-cases (is_alive host t h)) [
    | inl e ↦ rw e (throttle_live-Reaches nice landed report h t (h, (i, (refl, e))))
    | inr e ↦ rw e none_added
  ]

  throttle_from-Reaches :
      (nice : Option ℤ) (landed : Bool) (report : ApplyReport) (rest : List ProcessHandle)
      (t : Trace)
      → ((h : ProcessHandle) → In h rest → In h procs)
      → Extends (Reaches host procs) t (throttle_from host nice landed report rest t).1
  unfolding throttle_from
  throttle_from-Reaches nice landed report [] t s = none_added
  throttle_from-Reaches nice landed report (h ∷ rest) t s =
      let r = throttle_one host nice landed report h t in
      Extends-trans (throttle_one-Reaches nice landed report h t (s h (inl refl)))
        (throttle_from-Reaches nice landed r.0 rest r.1 (λ x i. s x (inr i)))

  pub apply_throttle-Reaches :
      (caps : CgroupCapabilities) (cgroup : Option Text) (params : ThrottleParams) (t : Trace)
      → Extends (Reaches host procs) t (apply_throttle host caps cgroup procs params t).1
  unfolding apply_throttle
  apply_throttle-Reaches caps cgroup params t =
      let c = apply_cpu host caps cgroup params t in
      Extends-trans (apply_cpu-Reaches caps cgroup params t)
        (throttle_from-Reaches params.nice c.0 empty_report procs c.1 (λ h i. i))
