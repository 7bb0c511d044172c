-- ===== src/State/Journal/Quiet.antt =====
-- The effects of the journal's operations (crates/app-powerd-core/src/state/journal.rs).
use app_powerd.Prelude.{
  ℕ, List, ◌∷◌, Bool, Option, none, some, Text, codes, Bool-cases, Option-cases, get, text_key,
  unwrap_or, inl, inr,
}
use app_powerd.Host.{
  Host, Trace, pure, ProcessHandle, FreezeMethod, FsCall, fs_called, create_dir_all, set_mode,
  open_truncated, write_all, sync_all, rename,
}
use app_powerd.Host.Log.{none_added, added, Extends-trans}
use app_powerd.Host.Quiet.{IsQuietCall, Quietly}
use app_powerd.State.Journal.Persist.{
  FreezeJournal, JournalError, is_disabled, then_call, write_through, write_json, save, persist,
}
use app_powerd.State.Journal.{arm, narrow_saved, commit, retire}

module _ (host : Host) where
  then_call-Quietly :
      (c : FsCall) (at : Text) (rest : Trace → Option JournalError × Trace) (t : Trace)
      → IsQuietCall c
      → Quietly (fs_called c none ∷ t) (rest (fs_called c none ∷ t)).1
      → Quietly t (then_call host c at rest t).1
  unfolding then_call
  then_call-Quietly c at rest t q after = elim (Option-cases (host.fs t c)) [
    | inl e ↦ rw (e, then_call) (Extends-trans (added (fs_called c none) q none_added) after)
    | inr (x, e) ↦ rw (e, then_call) (added (fs_called c (some x)) q none_added)
  ]

  write_through-Quietly :
      (path tmp json : Text) (t : Trace) → Quietly t (write_through host path tmp json t).1
  unfolding write_through
  write_through-Quietly path tmp json t =
      let renamed = then_call host (rename tmp path) path (pure none) in
      let synced = then_call host (sync_all tmp) tmp renamed in
      let written = then_call host (write_all tmp json) tmp synced in
      let moded = then_call host (set_mode tmp 0o600) tmp written in
      let t1 : Trace = fs_called (open_truncated tmp) none ∷ t in
      let t2 : Trace = fs_called (set_mode tmp 0o600) none ∷ t1 in
      let t3 : Trace = fs_called (write_all tmp json) none ∷ t2 in
      let t4 : Trace = fs_called (sync_all tmp) none ∷ t3 in
      then_call-Quietly (open_truncated tmp) tmp moded t tt (
        then_call-Quietly (set_mode tmp 0o600) tmp written t1 tt (
          then_call-Quietly (write_all tmp json) tmp synced t2 tt (
            then_call-Quietly (sync_all tmp) tmp renamed t3 tt
              (then_call-Quietly (rename tmp path) path (pure none) t4 tt none_added))))

  write_json-Quietly :
      (j : FreezeJournal) (o : Option Text) (t : Trace) → Quietly t (write_json host j o t).1
  unfolding write_json
  write_json-Quietly j none t = none_added
  write_json-Quietly j (some json) t = write_through-Quietly j.path _ json t

  save-Quietly : (j : FreezeJournal) (t : Trace) → Quietly t (save host j t).1
  unfolding save
  save-Quietly j t =
      let dir = unwrap_or (host.parent j.path) (codes ".") in
      let made : Trace = fs_called (create_dir_all dir) none ∷ t in
      then_call-Quietly (create_dir_all dir) dir _ t tt (
        Extends-trans
          (added (fs_called (set_mode dir 0o700) (host.fs made (set_mode dir 0o700))) tt none_added)
          (write_json-Quietly j _ _))

  pub persist-Quietly : (j : FreezeJournal) (t : Trace) → Quietly t (persist host j t).1
  unfolding persist
  persist-Quietly j t = elim (Bool-cases (is_disabled j)) [
    | inl e ↦ rw e none_added
    | inr e ↦ rw e (save-Quietly j t)
  ]

  pub arm-Quietly :
      (j : FreezeJournal) (app : Text) (m : FreezeMethod) (cg : Option Text)
      (planned : List ProcessHandle) (t : Trace)
      → Quietly t (arm host j app m cg planned t).1
  unfolding arm
  arm-Quietly j app m cg planned t = persist-Quietly _ t

  narrow_saved-Quietly :
      (j : FreezeJournal) (app : Text) (keep : ProcessHandle → Bool) (t : Trace)
      → Quietly t (narrow_saved host j app keep t).1
  unfolding narrow_saved
  narrow_saved-Quietly j app keep t = elim (Option-cases (get app j.entries)) [
    | inl e ↦ rw (e, narrow_saved) none_added
    | inr (v, e) ↦ rw (e, narrow_saved) (persist-Quietly _ t)
  ]

  pub commit-Quietly :
      (j : FreezeJournal) (app : Text) (planned applied : List ProcessHandle) (t : Trace)
      → Quietly t (commit host j app planned applied t).1
  unfolding commit
  commit-Quietly j app planned applied t = narrow_saved-Quietly j app _ t

  pub retire-Quietly :
      (j : FreezeJournal) (app : Text) (done : List ℕ) (t : Trace)
      → Quietly t (retire host j app done t).1
  unfolding retire
  retire-Quietly j app done t = narrow_saved-Quietly j app _ t
