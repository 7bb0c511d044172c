-- ===== src/Engine/ThawAll.antt =====
-- What thawing everything on request does to processes: `ipc_thaw_all` of
-- crates/app-powerd-core/src/engine/ipc_handler.rs.
use app_powerd.Prelude.{
  ℕ, ◌≡◌, refl, inl, inr, List, [], ◌∷◌, map, true, Option, none, some, HashMap, In, In-append_left,
  In-append_right, is_empty, Bool-cases,
}
use app_powerd.Host.{
  Host, Trace, Effect, ProcessHandle, sigcont, sigstop, kill_called, setpriority_called, fs_called,
  remove_file, aborted,
}
use app_powerd.Host.Log.{Extends, none_added, added, Extends-trans, Extends-mono}
use app_powerd.Host.Quiet.{IsQuiet, IsQuietCall, Quietly}
use app_powerd.Desktop.Identity.{AppId}
use app_powerd.System.Process.{is_alive}
use app_powerd.System.Freeze.{valid_pid, send_signal}
use app_powerd.State.Machine.{is_suspended}
use app_powerd.State.AppEntry.{
  AppEntry, abort_timer, cancel_suspend_timer, cancel_maintenance_timer, cancel_all_timers,
  set_state,
}
use app_powerd.State.Journal.{retire, clear, all_procs}
use app_powerd.State.Journal.Persist.{FreezeJournal, Entries, is_disabled}
use app_powerd.State.Journal.Quiet.{retire-Quietly}
use app_powerd.Engine.{Engine}
use app_powerd.Engine.Shutdown.{
  Released, release_one, release_procs, release_entries, clear_empty, release_recorded_processes,
}
use app_powerd.Engine.Commands.{park_entry, park_each, ipc_thaw_all}

module _ (host : Host) (procs : List ProcessHandle) where
  -- The effect is SIGCONT for a process of `procs` that is alive, or concerns no process: no
  -- priority is set, and no control file of a cgroup written.
  abbrev pub IsResume : Effect → Trace → Type 0
  IsResume (kill_called pid sigcont r) t =
      (h : ProcessHandle) × (In h procs × ((h.pid ≡ pid) × (is_alive host t h ≡ true)))
  IsResume (kill_called pid sigstop r) t = ⊥
  IsResume (setpriority_called pid nice r) t = ⊥
  IsResume (fs_called c r) t = IsQuietCall c
  IsResume _ t = Unit

  abbrev pub Resuming : Trace → Trace → Type 0
  Resuming = Extends IsResume

  quiet-IsResume : (x : Effect) (t : Trace) → IsQuiet x t → IsResume x t
  quiet-IsResume (kill_called pid sig r) t q = absurd q
  quiet-IsResume (setpriority_called pid nice r) t q = absurd q
  quiet-IsResume (fs_called c r) t q = q
  quiet-IsResume _ t q = tt

  Resuming-of-Quietly : (a b : Trace) → Quietly a b → Resuming a b
  Resuming-of-Quietly a b = Extends-mono quiet-IsResume

  release_one-Resuming :
      (h : ProcessHandle) (r : Released) (t : Trace)
      → In h procs
      → Resuming t (release_one host h r t).1
  unfolding release_one send_signal
  release_one-Resuming h r t i = elim (Bool-cases (is_alive host t h)) [
    | inl a ↦ elim (Bool-cases (valid_pid h.pid)) [
      | inl v ↦
          let o = host.kill t h.pid sigcont in
          rw (a, v) (added (kill_called h.pid sigcont o) (h, (i, (refl, a))) none_added)
      | inr v ↦ rw (a, v) none_added
    ]
    | inr d ↦ rw d none_added
  ]

  release_procs-Resuming :
      (hs : List ProcessHandle) (r : Released) (t : Trace)
      → ((h : ProcessHandle) → In h hs → In h procs)
      → Resuming t (release_procs host hs r t).1
  unfolding release_procs
  release_procs-Resuming [] r t f = none_added
  release_procs-Resuming (h ∷ hs) r t f =
      let one = release_one host h r t in
      Extends-trans (release_one-Resuming h r t (f h (inl refl)))
        (release_procs-Resuming hs one.0 one.1 (λ g i. f g (inr i)))

  release_entries-Resuming :
      (m : Entries) (j : FreezeJournal) (released stuck : ℕ) (t : Trace)
      → ((h : ProcessHandle) → In h (all_procs m) → In h procs)
      → Resuming t
          (release_entries host (map (λ p. (p.1.app_id, p.1.procs)) m) j released stuck t).1
  unfolding release_entries all_procs
  release_entries-Resuming [] j released stuck t f = none_added
  release_entries-Resuming ((k, x) ∷ m) j released stuck t f =
      let begin : Released = record { settled = []; released = released; stuck = stuck } in
      let ps = release_procs host x.procs begin t in
      let r = retire host j x.app_id ps.0.settled ps.1 in
      Extends-trans
        (release_procs-Resuming x.procs begin t
          (λ h i. f h (In-append_left h x.procs (all_procs m) i)))
        (Extends-trans
          (Resuming-of-Quietly ps.1 r.1 (retire-Quietly host j x.app_id ps.0.settled ps.1))
          (release_entries-Resuming m r.0.0 ps.0.released ps.0.stuck r.1
            (λ h i. f h (In-append_right h x.procs (all_procs m) i))))

  clear_empty-Resuming : (j : FreezeJournal) (t : Trace) → Resuming t (clear_empty host j t).1
  unfolding clear_empty clear
  clear_empty-Resuming j t = elim (Bool-cases (is_empty j.entries)) [
    | inr full ↦ rw full none_added
    | inl e ↦ elim (Bool-cases (is_disabled j)) [
      | inl off ↦ rw (e, off) none_added
      | inr on ↦
          rw (e, on)
            (added (fs_called (remove_file j.path) (host.fs t (remove_file j.path))) tt none_added)
    ]
  ]

  abort_timer-Resuming : (timer : Option ℕ) (t : Trace) → Resuming t (abort_timer timer t).1
  unfolding abort_timer
  abort_timer-Resuming none t = none_added
  abort_timer-Resuming (some handle) t = added (aborted handle) tt none_added

  park_entry-Resuming : (x : AppEntry) (t : Trace) → Resuming t (park_entry host x t).1
  unfolding park_entry cancel_all_timers cancel_suspend_timer cancel_maintenance_timer set_state
  park_entry-Resuming x t = elim (Bool-cases (is_suspended x.state)) [
    | inl s ↦ rw s (
        Extends-trans (abort_timer-Resuming x.suspend_timer t)
          (abort_timer-Resuming x.maintenance_timer (abort_timer x.suspend_timer t).1))
    | inr s ↦ rw s none_added
  ]

  park_each-Resuming : (m : HashMap AppId AppEntry) (t : Trace) → Resuming t (park_each host m t).1
  unfolding park_each
  park_each-Resuming [] t = none_added
  park_each-Resuming ((id, x) ∷ m) t =
      Extends-trans (park_entry-Resuming x t) (park_each-Resuming m (park_entry host x t).1)

-- Thawing everything sends no signal but SIGCONT, each to a process that the journal recorded and
-- that is alive at that moment; it sets no priority, and writes no control file of a cgroup.
pub ipc_thaw_all-Resuming :
    (host : Host) (e : Engine) (t : Trace)
    → Extends (IsResume host (all_procs e.journal.entries)) t (ipc_thaw_all host e t).1
unfolding ipc_thaw_all release_recorded_processes
ipc_thaw_all-Resuming host e t =
    let procs = all_procs e.journal.entries in
    let r =
      release_entries host (map (λ p. (p.1.app_id, p.1.procs)) e.journal.entries) e.journal 0 0 t in
    let c = clear_empty host r.0.0 r.1 in
    Extends-trans (release_entries-Resuming host procs e.journal.entries e.journal 0 0 t (λ h i. i))
      (Extends-trans (clear_empty-Resuming host procs r.0.0 r.1)
        (park_each-Resuming host procs e.registry.apps c.1))
