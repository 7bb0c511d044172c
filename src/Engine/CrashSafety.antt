-- ===== src/Engine/CrashSafety.antt =====
-- The order of journal and signals in a freeze: `freeze_with_journal` of
-- crates/app-powerd-core/src/engine/transitions.rs.
use app_powerd.Prelude.{
  join, ℕ, ◌≡◌, refl, sym, ap, ◌∙◌, inl, inr, List, ◌∷◌, false, Option, none, some, Text, codes,
  text_eq, text_eq_refl, text_key, insert, In, is_empty, Bool-cases,
}
use app_powerd.Host.{
  Host, Trace, ProcessHandle, Signal, JournalEntry, Errno, IoError, kill_called, fs_called, write,
  counted, apps_frozen_total,
}
use app_powerd.Host.Log.{Extends, none_added, Extends-trans}
use app_powerd.Host.Disk.{disk, after_call}
use app_powerd.Host.Quiet.{Quietly, one_quiet}
use app_powerd.Desktop.Identity.{AppId, app_eq}
use app_powerd.System.Apply.{ApplyReport, nothing_applied}
use app_powerd.System.Freeze.{freeze_app}
use app_powerd.System.Freeze.Signals.{Guarded, Guarded-of-Quietly, WriteKeeps, freeze_app-Keeps}
use app_powerd.State.Journal.Persist.{JournalError, FreezeJournal, file_of, is_disabled, persist}
use app_powerd.State.Journal.{merge_procs, recorded, arm, commit}
use app_powerd.State.Journal.Records.{persist_same, recorded-insert, merge_procs-In}
use app_powerd.State.Journal.Durable.{persist-Written}
use app_powerd.State.Journal.Quiet.{arm-Quietly, commit-Quietly}
use app_powerd.Engine.RateLimit.{for_app}
use app_powerd.Engine.{Engine}
use app_powerd.Engine.Transitions.{
  absorb_gone, freeze_method, freeze_recorded, freeze_armed, freeze_with_journal,
}
use app_powerd.Engine.Quiet.{
  limited_warning-Quietly, absorb_gone-Quietly, on_suspend_failed-Quietly,
}

-- The file of the journal is no control file of the cgroup.
abbrev pub IsApart : Text → Option Text → Type 0
IsApart path none = Unit
IsApart path (some cgroup) = text_eq (join cgroup (codes "cgroup.freeze")) path ≡ false

module _ (torn : Trace → Text → Option Text) (start : Text → Option Text) (host : Host) where
  -- The file at `path` holds the JSON of `j`.
  abbrev pub OnDisk : Text → FreezeJournal → Trace → Type 0
  OnDisk path j t = disk torn start t path ≡ host.to_json (file_of j)

  module _ (path : Text) (j : FreezeJournal) where
    control_keeps_at :
        (c : Text) (r : Option IoError) (t : Trace)
        → IsApart path (some c)
        → OnDisk path j t
        → OnDisk path j (fs_called (write (join c (codes "cgroup.freeze")) (codes "1")) r ∷ t)
    unfolding disk after_call
    control_keeps_at c none t a q = rw a q
    control_keeps_at c (some x) t a q = rw a q

    pub control_keeps :
        (cgroup : Option Text) → IsApart path cgroup → WriteKeeps (OnDisk path j) cgroup
    control_keeps none a = tt
    control_keeps (some c) a = λ r t q. control_keeps_at c r t a q

    pub kill_keeps :
        (pid : ℕ) (sig : Signal) (r : Option Errno) (t : Trace)
        → OnDisk path j t
        → OnDisk path j (kill_called pid sig r ∷ t)
    unfolding disk
    kill_keeps pid sig r t q = q

  settled-Quietly :
      (app_id : AppId) (procs : List ProcessHandle) (report : ApplyReport) (e : Engine) (t : Trace)
      → let e1 = absorb_gone app_id report e t in
        Quietly t (commit host e1.0.journal app_id.key procs report.applied e1.1).1
  settled-Quietly app_id procs report e t =
      let e1 = absorb_gone app_id report e t in
      Extends-trans (absorb_gone-Quietly app_id report e t)
        (commit-Quietly host e1.0.journal app_id.key procs report.applied e1.1)

  freeze_recorded-Guarded :
      (app_id : AppId) (cgroup : Option Text) (procs : List ProcessHandle) (e : Engine) (t : Trace)
      (path : Text) (j : FreezeJournal)
      → IsApart path cgroup
      → OnDisk path j t
      → Extends
          (Guarded host (OnDisk path j) procs)
          t
          (freeze_recorded host app_id cgroup procs e t).1
  unfolding freeze_recorded
  freeze_recorded-Guarded app_id cgroup procs e t path j a q =
      let f = freeze_app host e.cgroup_caps cgroup procs t in
      let e1 = absorb_gone app_id f.0 e f.1 in
      let c = commit host e1.0.journal app_id.key procs f.0.applied e1.1 in
      let e2 = record e1.0 { journal = c.0.0 } in
      let quiet = settled-Quietly app_id procs f.0 e f.1 in
      let kept =
        freeze_app-Keeps host (OnDisk path j) (kill_keeps path j) procs e.cgroup_caps cgroup t
          (control_keeps path j cgroup a) q in
      elim (Bool-cases (nothing_applied f.0)) [
        | inl n ↦ rw n (
            Extends-trans kept.0 (
              Guarded-of-Quietly host (OnDisk path j) procs f.1 _
                (Extends-trans quiet (on_suspend_failed-Quietly host app_id f.0 e2 c.1))))
        | inr n ↦ rw n (
            Extends-trans kept.0 (
              Guarded-of-Quietly host (OnDisk path j) procs f.1 _
                (Extends-trans quiet (one_quiet (counted apps_frozen_total 1) c.1 tt))))
      ]

  freeze_armed-Guarded :
      (app_id : AppId) (cgroup : Option Text) (procs : List ProcessHandle) (e : Engine) (t : Trace)
      (path : Text) (j : FreezeJournal) (answer : Option JournalError)
      → IsApart path cgroup
      → (answer ≡ none → OnDisk path j t)
      → Extends
          (Guarded host (OnDisk path j) procs)
          t
          (freeze_armed host app_id cgroup procs e answer t).1
  unfolding freeze_armed
  freeze_armed-Guarded app_id cgroup procs e t path j none a q =
      freeze_recorded-Guarded app_id cgroup procs e t path j a (q refl)
  freeze_armed-Guarded app_id cgroup procs e t path j (some x) a q =
      Guarded-of-Quietly host (OnDisk path j) procs t _
        (limited_warning-Quietly host (for_app app_id.display (codes "journal-arm")) e t)

  pub armed_OnDisk :
      (j : FreezeJournal) (t : Trace)
      → is_disabled j ≡ false
      → text_eq (host.with_extension j.path (codes "json.tmp")) j.path ≡ false
      → (persist host j t).0.1 ≡ none
      → OnDisk j.path (persist host j t).0.0 (persist host j t).1
  armed_OnDisk j t on apart ok' =
      (persist-Written torn start host j apart t on).1 ok'
      ∙ ap (λ (k : FreezeJournal). host.to_json (file_of k)) (sym (persist_same host j t))

  module _ (app_id : AppId) (cgroup : Option Text) (procs : List ProcessHandle) (e : Engine)
      (t : Trace) where
    -- The journal as it is armed.
    abbrev pub armed : (FreezeJournal × Option JournalError) × Trace
    armed =
        arm host e.journal app_id.key (freeze_method host cgroup e.cgroup_caps.freezer) cgroup procs
          t

    -- Whatever the outside answers, when an application is frozen every signal is sent, and every
    -- control file of its cgroup written, at a moment when the journal's file holds the journal
    -- armed for this freeze; that journal records every process to be stopped; and a signal goes
    -- only to one of these that is alive at that moment under the start time recorded for it. This
    -- is for a journal that is in use, whose file is neither its own temporary file nor the control
    -- file of the cgroup.
    pub freeze_with_journal-Guarded :
        is_disabled e.journal ≡ false
        → text_eq (host.with_extension e.journal.path (codes "json.tmp")) e.journal.path ≡ false
        → IsApart e.journal.path cgroup
        → Extends
            (Guarded host (OnDisk e.journal.path armed.0.0) procs)
            t
            (freeze_with_journal host app_id cgroup procs e t).1
          × ((h : ProcessHandle) → In h procs → In h (recorded app_id.key armed.0.0.entries))
    unfolding freeze_with_journal arm
    freeze_with_journal-Guarded on apart control =
        let method = freeze_method host cgroup e.cgroup_caps.freezer in
        let entry : JournalEntry = record {
          app_id = app_id.key;
          method = method;
          cgroup_path = cgroup;
          procs = merge_procs (recorded app_id.key e.journal.entries) procs;
        } in
        let j0 : FreezeJournal = record e.journal {
          entries = insert app_id.key entry e.journal.entries;
        } in
        let a = persist host j0 t in
        let e1 = record e { journal = a.0.0 } in
        let quiet = arm-Quietly host e.journal app_id.key method cgroup procs t in
        (
          elim (Bool-cases (is_empty procs)) [
            | inl n ↦ rw n none_added
            | inr n ↦ rw n (
                Extends-trans (Guarded-of-Quietly host (OnDisk j0.path a.0.0) procs t a.1 quiet) (
                  freeze_armed-Guarded app_id cgroup procs e1 a.1 j0.path a.0.0 a.0.1 control
                    (armed_OnDisk j0 t on apart)))
          ],
          λ h i. rw (persist_same host j0 t) (
              rw
                (
                  recorded-insert app_id.key app_id.key entry e.journal.entries,
                  text_eq_refl app_id.key,
                )
                (merge_procs-In h (recorded app_id.key e.journal.entries) procs (inr i))),
        )
