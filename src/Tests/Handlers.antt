-- ===== src/Tests/Handlers.antt =====
-- Theorems on the engine's handlers, for one application.
use app_powerd.Prelude.{
  suc, length, ◌++◌, HashMap, ◌+◌, inl, inr, List, unwrap_or, true, ◌≡◌, refl, ◌↔◌, [], ◌∷◌, none,
  some, codes, In, get, update, option_map,
}
use app_powerd.Host.{ProcessHandle}
use app_powerd.Host.Log.{Extends}
use app_powerd.Desktop.Identity.{AppId, same_app, app_eq, from_window}
use app_powerd.System.Process.{nix}
use app_powerd.System.Apply.{ApplyReport, settled_pids}
use app_powerd.System.Freeze.Signals.{Guarded}
use app_powerd.System.Protection.{verdict}
use app_powerd.System.Reach.{Reaches}
use app_powerd.State.Machine.{
  active, background, frozen, start_suspend_timer, is_suspended, on_focus_gained,
}
use app_powerd.State.ProcessSet.{pids, contains_pid}
use app_powerd.State.AppEntry.{AppEntry, set_state, cancel_suspend_timer, add_window}
use app_powerd.State.Journal.{recorded}
use app_powerd.System.Power.{ac}
use app_powerd.Engine.{should_manage, recorded_procs_for, with_entry}
use app_powerd.Engine.Transitions.{
  on_suspend_failed, freeze_with_journal, restore_frozen, act, execute_transition,
}
use app_powerd.Engine.Suspend.{handle_suspend_timer}
use app_powerd.Engine.Focus.{
  background_other_active_apps, activate_existing_app, handle_focus_changed,
}
use app_powerd.Engine.Power.{thaw_each, handle_power_change}
use app_powerd.Engine.States.{state_of, put_state, execute_transition-state_of}
use app_powerd.Engine.CrashSafety.{OnDisk, armed, freeze_with_journal-Guarded}
use app_powerd.Engine.Release.{IsReleased, thawed, restore_frozen-recorded}
use app_powerd.Engine.Protected.{allowed, handle_suspend_timer-Only}
use app_powerd.Engine.OneActive.{handle_focus_changed-OneActive}
use app_powerd.Engine.Backoff.{IsCounted, fail_each, on_suspend_failed-IsCounted}
use app_powerd.System.Undone.{AreUndone}
use app_powerd.Engine.Thawed.{handle_power_change-Thawed}
use app_powerd.Tests.Data.{
  torn, no_files, host, mousepad, process, journal_path, empty_journal, journal, window, entry_in,
  engine_in, sensors, scan_budget,
}

freeze_with_journal-Guarded_example :
    let e = engine_in background empty_journal in
    let j = (armed torn no_files host mousepad none (process ∷ []) e []).0.0 in
    Extends
      (Guarded host (OnDisk torn no_files host journal_path j) (process ∷ []))
      []
      (freeze_with_journal host mousepad none (process ∷ []) e []).1
    × ((h : ProcessHandle) → In h (process ∷ []) → In h (recorded (codes "mousepad") j.entries))
unfolding host
freeze_with_journal-Guarded_example =
    freeze_with_journal-Guarded torn no_files host mousepad none (process ∷ [])
      (engine_in background empty_journal) [] refl refl tt

restore_frozen-recorded_example :
    let e = engine_in frozen journal in
    let r = restore_frozen host mousepad none (process ∷ []) 50 e [] in
    let done = settled_pids (thawed host mousepad none (process ∷ []) 50 e []).0 in
    (In process (recorded (codes "mousepad") r.0.journal.entries)
      ↔ (In process (recorded (codes "mousepad") e.journal.entries) × (¬ In process.pid done)))
    × ((In process.pid done → IsReleased host (process ∷ []) r.1 process.pid)
        × (recorded (codes "gimp") r.0.journal.entries ≡ recorded (codes "gimp") e.journal.entries))
restore_frozen-recorded_example =
    restore_frozen-recorded host mousepad none (process ∷ []) 50 (engine_in frozen journal) []
      (codes "gimp") process refl

handle_suspend_timer-Only_example :
    let e = engine_in background empty_journal in
    let x = entry_in background in
    let free = allowed host sensors scan_budget mousepad x e [] in
    Extends (Reaches host free) [] (handle_suspend_timer host sensors scan_budget mousepad e []).1
    × ((h : ProcessHandle) → In h free → verdict host [] e.protection (pids x.roots) h ≡ none)
unfolding get
handle_suspend_timer-Only_example =
    handle_suspend_timer-Only host sensors scan_budget mousepad (entry_in background)
      (engine_in background empty_journal) [] refl

handle_focus_changed-OneActive_example : same_app mousepad (from_window window) ≡ true
unfolding host handle_focus_changed get background_other_active_apps from_window
    activate_existing_app update on_focus_gained execute_transition should_manage act with_entry
    contains_pid set_state cancel_suspend_timer add_window
handle_focus_changed-OneActive_example =
    handle_focus_changed-OneActive host window (engine_in background empty_journal) [] mousepad refl

handle_power_change-Thawed_example :
    let e = engine_in frozen journal in
    ((k : AppId)
      → ¬ (option_map is_suspended (state_of k (handle_power_change host ac e []).0) ≡ some true))
    × ((before after : HashMap AppId AppEntry) (id : AppId) (x : AppEntry)
        → e.registry.apps ≡ before ++ (id, x) ∷ after
        → is_suspended x.state ≡ true
        → let r = thaw_each host before (record e { power_source = ac }) [] in
          AreUndone host x.state r.1
            (handle_power_change host ac e []).1
            (recorded_procs_for id r.0))
unfolding should_manage
handle_power_change-Thawed_example =
    handle_power_change-Thawed host ac (engine_in frozen journal) [] refl refl

execute_transition-state_of_example :
    state_of mousepad
      (execute_transition host mousepad background start_suspend_timer []
        (engine_in active empty_journal)
        []).0
    ≡ put_state
        (same_app mousepad mousepad)
        background
        (state_of mousepad (engine_in active empty_journal))
execute_transition-state_of_example =
    execute_transition-state_of host mousepad mousepad background start_suspend_timer []
      (engine_in active empty_journal) [] refl tt

abbrev refused : ApplyReport
refused = record { applied = []; gone = []; failed = (7, nix 1) ∷ [] }

abbrev twice : List ApplyReport
twice = refused ∷ refused ∷ []

on_suspend_failed-IsCounted_example :
    let e = engine_in background empty_journal in
    let s = fail_each host mousepad twice e [] in
    let r = on_suspend_failed host mousepad refused s.0 s.1 in
    IsCounted host mousepad
      (suc (length twice + unwrap_or (get mousepad e.suspend_failures) 0))
      s.1
      r.0
      r.1
on_suspend_failed-IsCounted_example =
    on_suspend_failed-IsCounted host mousepad twice refused (engine_in background empty_journal) []
      (λ x i. elim i [ inl a ↦ rw a refl | inr (inl a) ↦ rw a refl | inr (inr a) ↦ absurd a ]) refl
