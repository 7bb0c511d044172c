-- ===== src/State/Journal/Durable.antt =====
-- The journal's file while it is written: `persist` of
-- crates/app-powerd-core/src/state/journal.rs.
use app_powerd.Prelude.{
  ◌≡◌, refl, ◌⊎◌, inl, inr, ◌∷◌, false, Option, none, some, Text, codes, text_eq, text_eq_refl,
  Option-cases, unwrap_or,
}
use app_powerd.Host.{
  Host, Trace, pure, Effect, FsCall, IoError, fs_called, create_dir_all, set_mode, open_truncated,
  write_all, sync_all, rename,
}
use app_powerd.Host.Log.{Extends, none_added, added, Extends-trans}
use app_powerd.Host.Disk.{disk, after_call}
use app_powerd.State.Journal.Persist.{
  FreezeJournal, JournalError, file_of, is_disabled, then_call, write_through, write_json, save,
  persist,
}

module _ (torn : Trace → Text → Option Text) (start : Text → Option Text) where
  -- A step that leaves the file at `path` as it was, or puts `new` in its place.
  abbrev pub OldOrNew : Text → Option Text → Effect → Trace → Type 0
  OldOrNew path new e t =
      (disk torn start (e ∷ t) path ≡ disk torn start t path) ⊎ (disk torn start (e ∷ t) path ≡ new)

  abbrev pub Written : Trace → Text → Option Text → Option JournalError × Trace → Type 0
  Written t path new r =
      Extends (OldOrNew path new) t r.1 × (r.0 ≡ none → disk torn start r.1 path ≡ new)

  module _ (host : Host) (path : Text) (new : Option Text) where
    -- The rule for one call and the rest behind it.
    then_call-Written :
        (c : FsCall) (at : Text) (rest : Trace → Option JournalError × Trace) (t : Trace)
        → ((r : Option IoError) → OldOrNew path new (fs_called c r) t)
        → Written (fs_called c none ∷ t) path new (rest (fs_called c none ∷ t))
        → Written t path new (then_call host c at rest t)
    unfolding then_call
    then_call-Written c at rest t step after = elim (Option-cases (host.fs t c)) [
      | inl e ↦
          rw (e, then_call)
            (Extends-trans (added (fs_called c none) (step none) none_added) after.0, after.1)
      | inr (x, e) ↦
          rw (e, then_call) (added (fs_called c (some x)) (step (some x)) none_added, λ n. cc)
    ]

  module _ (host : Host) (path tmp json : Text) (apart : text_eq tmp path ≡ false) where
    -- Calls on another file.
    elsewhere :
        (t : Trace) (r : Option IoError)
        → OldOrNew path (some json) (fs_called (open_truncated tmp) r) t
          × OldOrNew path (some json) (fs_called (set_mode tmp 0o600) r) t
          × OldOrNew path (some json) (fs_called (write_all tmp json) r) t
          × OldOrNew path (some json) (fs_called (sync_all tmp) r) t
    unfolding disk after_call
    elsewhere t none = (inl (rw apart), inl refl, inl (rw apart), inl refl)
    elsewhere t (some e) = (inl (rw apart), inl refl, inl (rw apart), inl refl)

    replaced :
        (t : Trace) (r : Option IoError)
        → disk torn start t tmp ≡ some json
        → OldOrNew path (some json) (fs_called (rename tmp path) r) t
    unfolding disk after_call
    replaced t none e = inr (rw (text_eq_refl path) e)
    replaced t (some x) e = inl refl

    abbrev staged : Trace → Trace
    staged t =
        fs_called (sync_all tmp) none
        ∷ fs_called (write_all tmp json) none
        ∷ fs_called (set_mode tmp 0o600) none
        ∷ fs_called (open_truncated tmp) none
        ∷ t

    staged-json : (t : Trace) → disk torn start (staged t) tmp ≡ some json
    unfolding disk after_call
    staged-json t = rw (text_eq_refl tmp)

    write_through-Written :
        (t : Trace) → Written t path (some json) (write_through host path tmp json t)
    unfolding write_through disk after_call
    write_through-Written t =
        let renamed = then_call host (rename tmp path) path (pure none) in
        let synced = then_call host (sync_all tmp) tmp renamed in
        let written = then_call host (write_all tmp json) tmp synced in
        let moded = then_call host (set_mode tmp 0o600) tmp written in
        let t1 : Trace = fs_called (open_truncated tmp) none ∷ t in
        let t2 : Trace = fs_called (set_mode tmp 0o600) none ∷ t1 in
        let t3 : Trace = fs_called (write_all tmp json) none ∷ t2 in
        let call = then_call-Written host path (some json) in
        call (open_truncated tmp) tmp moded t (λ r. (elsewhere t r).0)
          (call (set_mode tmp 0o600) tmp written t1 (λ r. (elsewhere t1 r).1)
            (call (write_all tmp json) tmp synced t2 (λ r. (elsewhere t2 r).2)
              (call (sync_all tmp) tmp renamed t3 (λ r. (elsewhere t3 r).3)
                (call (rename tmp path) path (pure none) (staged t)
                  (λ r. replaced (staged t) r (staged-json t))
                  (none_added, λ n. rw (text_eq_refl path) (staged-json t))))))

  module _ (host : Host) (j : FreezeJournal)
      (apart : text_eq (host.with_extension j.path (codes "json.tmp")) j.path ≡ false) where
    other_steps :
        (dir : Text) (new : Option Text) (t : Trace) (r : Option IoError)
        → OldOrNew j.path new (fs_called (create_dir_all dir) r) t
          × OldOrNew j.path new (fs_called (set_mode dir 0o700) r) t
    unfolding disk after_call
    other_steps dir new t none = (inl refl, inl refl)
    other_steps dir new t (some e) = (inl refl, inl refl)

    write_json-Written : (o : Option Text) (t : Trace) → Written t j.path o (write_json host j o t)
    unfolding write_json
    write_json-Written none t = (none_added, λ n. cc)
    write_json-Written (some json) t = write_through-Written host j.path _ json apart t

    save-Written : (t : Trace) → Written t j.path (host.to_json (file_of j)) (save host j t)
    unfolding save
    save-Written t =
        let dir = unwrap_or (host.parent j.path) (codes ".") in
        let new = host.to_json (file_of j) in
        then_call-Written host j.path new _ _ _ t (λ r. (other_steps dir new t r).0)
          (let made = fs_called (create_dir_all dir) none ∷ t in
            let r = host.fs made (set_mode dir 0o700) in
            let w = write_json-Written new (fs_called (set_mode dir 0o700) r ∷ made) in
            (Extends-trans (added _ (other_steps dir new made r).1 none_added) w.0, w.1))

    -- While the journal is written, each step leaves the file as it was or puts the whole new text
    -- in its place; and if the write reports success, the file holds the entries as JSON.
    pub persist-Written :
        (t : Trace)
        → is_disabled j ≡ false
        → Written t j.path (host.to_json (file_of j)) ((persist host j t).0.1, (persist host j t).1)
    unfolding persist
    persist-Written t on = rw (on, persist) (save-Written t)
