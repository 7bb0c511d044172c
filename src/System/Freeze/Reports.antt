-- ===== src/System/Freeze/Reports.antt =====
-- The report of `apply_signal` (crates/app-powerd-core/src/system/freeze.rs) and its grounds.
use app_powerd.Prelude.{
  ℕ, suc, ◌+◌, ◌≡◌, refl, ◌⊎◌, inl, inr, List, [], ◌∷◌, ◌++◌, false, Option, none, some, In,
  In-append, length, length-append, Bool-cases, arith,
}
use app_powerd.Host.{Host, Trace, Effect, ProcessHandle, Signal, Errno, esrch, errno, kill_called}
use app_powerd.Host.Log.{Extends, none_added, added, Extends-trans}
use app_powerd.System.Process.{SystemError, process_not_found, is_alive}
use app_powerd.System.Apply.{
  ApplyReport, PidOutcome, empty_report, push, outcome_of, record_outcome,
}
use app_powerd.System.Freeze.{
  valid_pid, classify, send_signal, signal_one, apply_signal_from, apply_signal,
}

-- `b` is `a` and perhaps more.
abbrev pub Later : Trace → Trace → Type 0
Later = Extends (λ e t. Unit)

pub In-Later : {a b : Trace} (x : Effect) → Later a b → In x a → In x b
In-Later x none_added i = i
In-Later x (added e p l) i = inr (In-Later x l i)

-- How many processes the report speaks of.
abbrev pub reported : ApplyReport → ℕ
reported r = length r.applied + (length r.gone + length r.failed)

reported-push : (o : PidOutcome) (r : ApplyReport) → reported (push o r) ≡ suc (reported r)
unfolding push
reported-push (PidOutcome.applied h) r = omega (arith, length-append r.applied (h ∷ []))
reported-push (PidOutcome.gone pid) r = omega (arith, length-append r.gone (pid ∷ []))
reported-push (PidOutcome.failed pid e) r = omega (arith, length-append r.failed ((pid, e) ∷ []))

reported-record_outcome :
    (h : ProcessHandle) (o : Option SystemError) (r : ApplyReport)
    → reported (record_outcome h o r) ≡ suc (reported r)
unfolding record_outcome
reported-record_outcome h o r = reported-push (outcome_of h o) r

module _ (host : Host) (sig : Signal) (procs : List ProcessHandle) where
  -- A process of `procs` with this PID was found dead by the time `t`: the kernel said so, or
  -- another start time, or none, stood under its PID.
  abbrev pub IsGone : Trace → ℕ → Type 0
  IsGone t pid =
      In (kill_called pid sig (some esrch)) t
      ⊎ ((h : ProcessHandle) × ((at : Trace) × (In h procs
              × ((h.pid ≡ pid) × ((is_alive host at h ≡ false) × Later at t)))))

  -- The report's grounds by the time `t`.
  abbrev pub IsJustified : Trace → ApplyReport → Type 0
  IsJustified t r =
      ((h : ProcessHandle) → In h r.applied → In h procs × In (kill_called h.pid sig none) t)
      × ((pid : ℕ) → In pid r.gone → IsGone t pid)

  IsGone-Later : (a b : Trace) (pid : ℕ) → Later a b → IsGone a pid → IsGone b pid
  IsGone-Later a b pid l (inl i) = inl (In-Later _ l i)
  IsGone-Later a b pid l (inr (h, (at, (i, (s, (d, k)))))) =
      inr (h, (at, (i, (s, (d, Extends-trans k l)))))

  pub IsJustified-Later :
      (a b : Trace) (r : ApplyReport) → Later a b → IsJustified a r → IsJustified b r
  IsJustified-Later a b r l j =
      (λ h i. ((j.0 h i).0, In-Later _ l (j.0 h i).1), λ pid i. IsGone-Later a b pid l (j.1 pid i))

  applied-IsJustified :
      (t : Trace) (h : ProcessHandle) (r : ApplyReport)
      → IsJustified t r
      → In h procs
      → In (kill_called h.pid sig none) t
      → IsJustified t (record r { applied = r.applied ++ h ∷ [] })
  applied-IsJustified t h r j i k = (
    λ x m. elim (In-append x r.applied (h ∷ []) m) [
      | inl old ↦ j.0 x old
      | inr (inl here) ↦ rw here (i, k)
      | inr (inr b) ↦ absurd b
    ],
    j.1,
  )

  gone-IsJustified :
      (t : Trace) (pid : ℕ) (r : ApplyReport)
      → IsJustified t r
      → IsGone t pid
      → IsJustified t (record r { gone = r.gone ++ pid ∷ [] })
  gone-IsJustified t pid r j g = (
    j.0,
    λ x m. elim (In-append x r.gone (pid ∷ []) m) [
      | inl old ↦ j.1 x old
      | inr (inl here) ↦ rw here g
      | inr (inr b) ↦ absurd b
    ],
  )

  -- One answer of `kill`.
  answered-IsJustified :
      (o : Option Errno) (t : Trace) (h : ProcessHandle) (r : ApplyReport)
      → IsJustified t r
      → In h procs
      → let after : Trace = kill_called h.pid sig o ∷ t in
        IsJustified after (record_outcome h (classify h.pid o) r)
  unfolding record_outcome classify push outcome_of
  answered-IsJustified none t h r j i =
      let after : Trace = kill_called h.pid sig none ∷ t in
      applied-IsJustified after h r
        (IsJustified-Later t after r (added (kill_called h.pid sig none) tt none_added) j) i
        (inl refl)
  answered-IsJustified (some esrch) t h r j i =
      let after : Trace = kill_called h.pid sig (some esrch) ∷ t in
      gone-IsJustified after h.pid r
        (IsJustified-Later t after r (added (kill_called h.pid sig (some esrch)) tt none_added) j)
        (inl (inl refl))
  answered-IsJustified (some (errno e)) t h r j i =
      let after : Trace = kill_called h.pid sig (some (errno e)) ∷ t in
      IsJustified-Later t after r (added (kill_called h.pid sig (some (errno e))) tt none_added) j

  abbrev pub IsStep : Trace → ApplyReport → ApplyReport × Trace → Type 0
  IsStep t r s = IsJustified s.1 s.0 × ((reported s.0 ≡ suc (reported r)) × Later t s.1)

  signal_one-IsStep :
      (r : ApplyReport) (h : ProcessHandle) (t : Trace)
      → In h procs
      → IsJustified t r
      → IsStep t r (signal_one host sig r h t)
  unfolding signal_one send_signal push record_outcome outcome_of
  signal_one-IsStep r h t i j = elim (Bool-cases (is_alive host t h)) [
    | inl e ↦ elim (Bool-cases (valid_pid h.pid)) [
      | inl v ↦
          let o = host.kill t h.pid sig in
          rw (e, v)
            (
              answered-IsJustified o t h r j i,
              (
                reported-record_outcome h (classify h.pid o) r,
                added (kill_called h.pid sig o) tt none_added,
              ),
            )
      | inr v ↦
          rw (e, v)
            (j, (reported-push (PidOutcome.failed h.pid (process_not_found h.pid)) r, none_added))
    ]
    | inr e ↦ rw e (
      gone-IsJustified t h.pid r j (inr (h, (t, (i, (refl, (e, none_added)))))),
      (reported-push (PidOutcome.gone h.pid) r, none_added),
    )
  ]

  abbrev IsRun : Trace → ApplyReport → List ProcessHandle → ApplyReport × Trace → Type 0
  IsRun t r rest s = IsJustified s.1 s.0 × ((reported s.0 ≡ reported r + length rest) × Later t s.1)

  apply_signal_from-IsRun :
      (r : ApplyReport) (rest : List ProcessHandle) (t : Trace)
      → ((h : ProcessHandle) → In h rest → In h procs)
      → IsJustified t r
      → IsRun t r rest (apply_signal_from host sig r rest t)
  unfolding apply_signal_from
  apply_signal_from-IsRun r [] t s j = (j, (omega arith, none_added))
  apply_signal_from-IsRun r (h ∷ rest) t s j =
      let one = signal_one-IsStep r h t (s h (inl refl)) j in
      let next = signal_one host sig r h t in
      let more = apply_signal_from-IsRun next.0 rest next.1 (λ x i. s x (inr i)) one.0 in
      (more.0, (omega (arith, more.1.0, one.1.0), Extends-trans one.1.1 more.1.1))

  -- The report of a signal to a list of processes has as many outcomes as there are processes. What
  -- it calls applied is one of the processes, whose PID got the signal with success; what it calls
  -- gone was found dead by the kernel, or by its start time at a moment up to the end of the run.
  pub apply_signal-IsJustified :
      (t : Trace)
      → let s = apply_signal host sig procs t in
        IsJustified s.1 s.0 × ((reported s.0 ≡ length procs) × Later t s.1)
  unfolding apply_signal
  apply_signal-IsJustified t =
      let run =
        apply_signal_from-IsRun empty_report procs t (λ h i. i)
          (λ h b. absurd b, λ pid b. absurd b) in
      (run.0, (omega (arith, run.1.0), run.1.1))
