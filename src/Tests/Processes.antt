-- ===== src/Tests/Processes.antt =====
-- Theorems on processes, at concrete processes.
use app_powerd.Prelude.{
  List, ℕ, contains, ◌≡◌, refl, ◌↔◌, [], ◌∷◌, ◌++◌, none, some, Text, codes, In, length, all,
  and_then, get_elem?, parse_unsigned, true, false, eq_ignore_ascii_case,
}
use app_powerd.Host.{ProcessHandle, sigstop}
use app_powerd.Desktop.Identity.{same_app, new, same_app-new}
use app_powerd.System.Process.{split_whitespace, parse_starttime}
use app_powerd.System.Process.Identity.{parse_starttime_comm}
use app_powerd.System.Freeze.{apply_signal}
use app_powerd.System.Freeze.Reports.{IsJustified, Later, reported, apply_signal-IsJustified}
use app_powerd.System.Protection.{ProtectionReason, verdict, partition}
use app_powerd.System.Protection.Partition.{partition-IsSplit}
use app_powerd.Config.{default_guards}
use app_powerd.Guards.{check_guards}
use app_powerd.Guards.Verdict.{is_guarded, is_allow, check_guards-is_guarded}
use app_powerd.State.ProcessSet.{ProcessSet, insert, insert_pid, remove_pids, retain_alive}
use app_powerd.State.ProcessSet.Members.{AreDifferent, process_set-AreDifferent}
use app_powerd.Tests.Data.{host, process, sensors}

apply_signal-IsJustified_example :
    let s = apply_signal host sigstop (process ∷ []) [] in
    IsJustified host sigstop (process ∷ []) s.1 s.0
    × ((reported s.0 ≡ length (process ∷ [])) × Later [] s.1)
apply_signal-IsJustified_example = apply_signal-IsJustified host sigstop (process ∷ []) []

partition-IsSplit_example :
    let r = partition host [] (record { dbus_owners = [] }) (process ∷ []) (7 ∷ []) in
    (In process r.0 ↔ (
      In process (process ∷ [])
      × (verdict host [] (record { dbus_owners = [] }) (7 ∷ []) process ≡ none)))
    × ((why : ProtectionReason)
        → In process (process ∷ [])
        → verdict host [] (record { dbus_owners = [] }) (7 ∷ []) process ≡ some why
        → In (process.pid, why) r.1)
partition-IsSplit_example =
    partition-IsSplit host [] (record { dbus_owners = [] }) (7 ∷ []) (process ∷ []) process

abbrev fields : Text
fields = codes " S 1 1 1 0 -1 0 0 0 0 0 0 0 0 0 20 0 1 0 500 0"

parse_starttime_comm_example :
    parse_starttime (codes "7 (a) S (b" ++ b')' ∷ fields)
    ≡ and_then (get_elem? (split_whitespace fields) 19) (parse_unsigned 64)
unfolding all
parse_starttime_comm_example = parse_starttime_comm (codes "7 (a) S (b") fields refl

check_guards-is_guarded_example :
    (is_allow (check_guards (sensors []) (7 ∷ []) default_guards true) ≡ true)
    ↔ (is_guarded (sensors []) (7 ∷ []) default_guards true ≡ false)
check_guards-is_guarded_example = check_guards-is_guarded (sensors []) (7 ∷ []) default_guards true

same_app-new_example :
    same_app (new (codes "Mousepad")) (new (codes "mousePAD"))
    ≡ eq_ignore_ascii_case (codes "Mousepad") (codes "mousePAD")
same_app-new_example = same_app-new (codes "Mousepad") (codes "mousePAD")

process_set-AreDifferent_example :
    let s : ProcessSet = record { procs = process ∷ []; had_live_procs = true } in
    ((h : ProcessHandle) → AreDifferent (insert h s).procs)
    × (((pid : ℕ) → AreDifferent (insert_pid host [] pid s).0.procs)
        × (((gone : List ℕ) → AreDifferent (remove_pids gone s).procs)
            × AreDifferent (retain_alive host [] s).0.procs))
unfolding contains
process_set-AreDifferent_example =
    process_set-AreDifferent host [] (record { procs = process ∷ []; had_live_procs = true })
      (refl, tt)
