-- ===== src/State/ProcessSet/Members.antt =====
-- The members of a process set: crates/app-powerd-core/src/state/process_set.rs.
use app_powerd.Prelude.{
  ℕ, ◌≡◌, refl, inl, inr, List, [], ◌∷◌, ◌++◌, Bool, false, contains, retain, arith, Bool-cases,
  Option-cases,
}
use app_powerd.Host.{Host, Trace, ProcessHandle, handle_eq, same_handle, same_handle_sym}
use app_powerd.System.Process.{open_process, is_alive}
use app_powerd.State.ProcessSet.{ProcessSet, insert, insert_pid, remove_pids, retain_alive}

-- No process stands in the list twice.
abbrev pub AreDifferent : List ProcessHandle → Type 0
AreDifferent [] = Unit
AreDifferent (h ∷ hs) = (contains hs h ≡ false) × AreDifferent hs

contains-snoc :
    (hs : List ProcessHandle) (x h : ProcessHandle)
    → contains hs h ≡ false
    → same_handle x h ≡ false
    → contains (hs ++ x ∷ []) h ≡ false
unfolding contains
contains-snoc [] x h n d = rw d
contains-snoc (y ∷ hs) x h n d = ground (arith, contains-snoc hs x h)

AreDifferent-snoc :
    (hs : List ProcessHandle) (x : ProcessHandle)
    → contains hs x ≡ false
    → AreDifferent hs
    → AreDifferent (hs ++ x ∷ [])
unfolding contains
AreDifferent-snoc [] x n a = (refl, tt)
AreDifferent-snoc (y ∷ hs) x n a = (
  contains-snoc hs x y a.0 (ground (arith, same_handle_sym x y)),
  AreDifferent-snoc hs x (ground arith) a.1,
)

contains-retain :
    (p : ProcessHandle → Bool) (hs : List ProcessHandle) (h : ProcessHandle)
    → contains hs h ≡ false
    → contains (retain p hs) h ≡ false
unfolding contains retain
contains-retain p [] h n = refl
contains-retain p (y ∷ hs) h n = ground (arith, contains-retain p hs h)

AreDifferent-retain :
    (p : ProcessHandle → Bool) (hs : List ProcessHandle)
    → AreDifferent hs
    → AreDifferent (retain p hs)
unfolding retain
AreDifferent-retain p [] a = tt
AreDifferent-retain p (y ∷ hs) a = elim (Bool-cases (p y)) [
  | inl s ↦ rw s (contains-retain p hs y a.0, AreDifferent-retain p hs a.1)
  | inr s ↦ rw s (AreDifferent-retain p hs a.1)
]

insert-AreDifferent :
    (h : ProcessHandle) (s : ProcessSet) → AreDifferent s.procs → AreDifferent (insert h s).procs
unfolding insert
insert-AreDifferent h s a = elim (Bool-cases (contains s.procs h)) [
  | inl old ↦ rw old a
  | inr new ↦ rw new (AreDifferent-snoc s.procs h new a)
]

insert_pid-AreDifferent :
    (host : Host) (t : Trace) (pid : ℕ) (s : ProcessSet)
    → AreDifferent s.procs
    → AreDifferent (insert_pid host t pid s).0.procs
unfolding insert_pid
insert_pid-AreDifferent host t pid s a = elim (Option-cases (open_process host t pid)) [
  | inl n ↦ rw (n, insert_pid) a
  | inr (h, o) ↦ rw (o, insert_pid) (insert-AreDifferent h s a)
]

-- If no process stands in a set twice, that is so after a process is inserted, by its handle or its
-- PID, after PIDs are removed, and after only the live processes are kept.
pub process_set-AreDifferent :
    (host : Host) (t : Trace) (s : ProcessSet)
    → AreDifferent s.procs
    → ((h : ProcessHandle) → AreDifferent (insert h s).procs)
      × (((pid : ℕ) → AreDifferent (insert_pid host t pid s).0.procs)
          × (((gone : List ℕ) → AreDifferent (remove_pids gone s).procs)
              × AreDifferent (retain_alive host t s).0.procs))
unfolding remove_pids retain_alive
process_set-AreDifferent host t s a = (
  λ h. insert-AreDifferent h s a,
  (
    λ pid. insert_pid-AreDifferent host t pid s a,
    (λ gone. AreDifferent-retain _ s.procs a, AreDifferent-retain (is_alive host t) s.procs a),
  ),
)
