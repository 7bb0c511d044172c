-- ===== src/State/Journal/Resumed.antt =====
-- The processes of the journal under recovery: `recover` of
-- crates/app-powerd-core/src/state/journal.rs.
use app_powerd.Prelude.{
  join, ◌≡◌, refl, ◌⊎◌, inl, inr, List, [], ◌∷◌, true, false, Option, none, some, Text, codes, In,
  Bool-cases,
}
use app_powerd.Host.{
  Host, Trace, ProcessHandle, JournalEntry, JournalFile, FsCall, write, remove_file, fs_called,
  sigcont, kill_called,
}
use app_powerd.Host.Log.{none_added, added, Extends-trans}
use app_powerd.System.Process.{is_alive, is_owned}
use app_powerd.System.Freeze.{valid_pid, send_signal}
use app_powerd.System.Freeze.Reports.{Later}
use app_powerd.State.Journal.Recover.{
  ok, RecoveryReport, empty_recovery, read_journal, recover_one, recover_procs, thaw_recorded,
  recover_entries, recover,
}

abbrev pub thaw_call : Text → FsCall
thaw_call cgroup = write (join cgroup (codes "cgroup.freeze")) (codes "0")

module _ (host : Host) where
  -- Between `start` and `t` the process was found alive and ours and SIGCONT was sent to it, or it
  -- was no process to resume: another had its PID, or another user owned it, or its PID was no PID.
  abbrev pub IsSeenTo : Trace → Trace → ProcessHandle → Type 0
  IsSeenTo start t h =
      (at : Trace) × (Later start at
        × (((is_alive host at h ≡ true)
              × ((is_owned host at h ≡ true)
                  × Later (kill_called h.pid sigcont (host.kill at h.pid sigcont) ∷ at) t))
            ⊎ (((is_alive host at h ≡ false)
                  ⊎ ((is_owned host at h ≡ false) ⊎ (valid_pid h.pid ≡ false)))
                × Later at t)))

  -- Between `start` and `t` the group was told to thaw.
  abbrev pub IsToldToThaw : Trace → Trace → Text → Type 0
  IsToldToThaw start t cgroup =
      (at : Trace) × (Later start at
        × Later (fs_called (thaw_call cgroup) (host.fs at (thaw_call cgroup)) ∷ at) t)

  IsSeenTo-within :
      (a b c d : Trace) (h : ProcessHandle)
      → Later a b
      → Later c d
      → IsSeenTo b c h
      → IsSeenTo a d h
  IsSeenTo-within a b c d h from to (at, (k, inl (alive, (own, sent)))) =
      (at, (Extends-trans from k, inl (alive, (own, Extends-trans sent to))))
  IsSeenTo-within a b c d h from to (at, (k, inr (why, l))) =
      (at, (Extends-trans from k, inr (why, Extends-trans l to)))

  recover_one-IsSeenTo :
      (r : RecoveryReport) (h : ProcessHandle) (t : Trace)
      → IsSeenTo t (recover_one host r h t).1 h × Later t (recover_one host r h t).1
  unfolding recover_one send_signal
  recover_one-IsSeenTo r h t = elim (Bool-cases (is_alive host t h)) [
    | inr e ↦ rw e ((t, (none_added, inr (inl e, none_added))), none_added)
    | inl e ↦ elim (Bool-cases (is_owned host t h)) [
      | inr o ↦ rw (e, o) ((t, (none_added, inr (inr (inl o), none_added))), none_added)
      | inl o ↦ elim (Bool-cases (valid_pid h.pid)) [
        | inl v ↦
            let x = host.kill t h.pid sigcont in
            rw (e, o, v)
              (
                (t, (none_added, inl (e, (o, none_added)))),
                added (kill_called h.pid sigcont x) tt none_added,
              )
        | inr v ↦ rw (e, o, v) ((t, (none_added, inr (inr (inr refl), none_added))), none_added)
      ]
    ]
  ]

  recover_procs-IsSeenTo :
      (r : RecoveryReport) (procs : List ProcessHandle) (t : Trace)
      → ((h : ProcessHandle) → In h procs → IsSeenTo t (recover_procs host r procs t).1 h)
        × Later t (recover_procs host r procs t).1
  unfolding recover_procs
  recover_procs-IsSeenTo r [] t = (λ h i. absurd i, none_added)
  recover_procs-IsSeenTo r (p ∷ procs) t =
      let s = recover_one host r p t in
      let one = recover_one-IsSeenTo r p t in
      let more = recover_procs-IsSeenTo s.0 procs s.1 in
      (
        λ h i. elim i [
          | inl here ↦ rw here (IsSeenTo-within t t s.1 _ p none_added more.1 one.0)
          | inr later ↦ IsSeenTo-within t s.1 _ _ h one.1 none_added (more.0 h later)
        ],
        Extends-trans one.1 more.1,
      )

  thaw_recorded-Later : (o : Option Text) (t : Trace) → Later t (thaw_recorded host o t).1
  unfolding thaw_recorded
  thaw_recorded-Later none t = none_added
  thaw_recorded-Later (some cgroup) t =
      added (fs_called (thaw_call cgroup) (host.fs t (thaw_call cgroup))) tt none_added

  thaw_recorded-IsToldToThaw :
      (o : Option Text) (cgroup : Text) (t : Trace)
      → o ≡ some cgroup
      → IsToldToThaw t (thaw_recorded host o t).1 cgroup
  unfolding thaw_recorded
  thaw_recorded-IsToldToThaw o cgroup t e = rw (e, thaw_recorded) (t, (none_added, none_added))

  -- What recovery owes to an entry of the journal, from `start` to `t`.
  abbrev pub IsRecovered : Trace → Trace → JournalEntry → Type 0
  IsRecovered start t e =
      ((cgroup : Text) → e.cgroup_path ≡ some cgroup → IsToldToThaw start t cgroup)
      × ((h : ProcessHandle) → In h e.procs → IsSeenTo start t h)

  IsRecovered-within :
      (a b c d : Trace) (e : JournalEntry)
      → Later a b
      → Later c d
      → IsRecovered b c e
      → IsRecovered a d e
  IsRecovered-within a b c d e from to r = (
    λ cgroup p.
        let told = r.0 cgroup p in
        (told.0, (Extends-trans from told.1.0, Extends-trans told.1.1 to)),
    λ h i. IsSeenTo-within a b c d h from to (r.1 h i),
  )

  recover_entry-IsRecovered :
      (r : RecoveryReport) (e : JournalEntry) (t : Trace)
      → let s = recover_procs host r e.procs (thaw_recorded host e.cgroup_path t).1 in
        IsRecovered t s.1 e × Later t s.1
  recover_entry-IsRecovered r e t =
      let thawed = thaw_recorded host e.cgroup_path t in
      let later = thaw_recorded-Later e.cgroup_path t in
      let seen = recover_procs-IsSeenTo r e.procs thawed.1 in
      (
        (
          λ cgroup p.
              let told = thaw_recorded-IsToldToThaw e.cgroup_path cgroup t p in
              (told.0, (told.1.0, Extends-trans told.1.1 seen.1)),
          λ h i. IsSeenTo-within t thawed.1 _ _ h later none_added (seen.0 h i),
        ),
        Extends-trans later seen.1,
      )

  recover_entries-IsRecovered :
      (r : RecoveryReport) (es : List JournalEntry) (t : Trace)
      → ((e : JournalEntry) → In e es → IsRecovered t (recover_entries host r es t).1 e)
        × Later t (recover_entries host r es t).1
  unfolding recover_entries
  recover_entries-IsRecovered r [] t = (λ e i. absurd i, none_added)
  recover_entries-IsRecovered r (x ∷ es) t =
      let s = recover_procs host r x.procs (thaw_recorded host x.cgroup_path t).1 in
      let one = recover_entry-IsRecovered r x t in
      let more = recover_entries-IsRecovered s.0 es s.1 in
      (
        λ e i. elim i [
          | inl here ↦ rw here (IsRecovered-within t t s.1 _ x none_added more.1 one.0)
          | inr later ↦ IsRecovered-within t s.1 _ _ e one.1 none_added (more.0 e later)
        ],
        Extends-trans one.1 more.1,
      )

  -- If the journal can be read, recovery returns a report, and in the course of it every recorded
  -- group is told to thaw, and every recorded process is found alive and ours and sent SIGCONT, or
  -- found dead, not ours, or with no valid PID. What the kernel answers to the write and to the
  -- signal is not part of this.
  pub recover-IsSeenTo :
      (path : Text) (t : Trace) (file : JournalFile)
      → read_journal host t path ≡ ok (some file)
      → ((report : RecoveryReport) × ((recover host path t).0 ≡ ok report))
        × ((e : JournalEntry) → In e file.entries → IsRecovered t (recover host path t).1 e)
  unfolding recover
  recover-IsSeenTo path t file found =
      let run = recover_entries host empty_recovery file.entries t in
      let seen = recover_entries-IsRecovered empty_recovery file.entries t in
      let call = remove_file path in
      rw (found, recover)
        (
          (run.0, refl),
          λ e i.
              IsRecovered-within t t run.1 _ e none_added
                (added (fs_called call (host.fs run.1 call)) tt none_added) (seen.0 e i),
        )
