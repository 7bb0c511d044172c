-- ===== src/Tests/Runs.antt =====
-- Theorems on whole runs: journal, release, process tree, start, power source and configuration.
use app_powerd.Prelude.{
  ℕ, ◌≡◌, ◌≤◌, refl, ◌↔◌, ◌⊎◌, inl, inr, List, [], ◌∷◌, Bool, true, false, Option, none, some, Text,
  codes, text_eq, text_key, parse_unsigned, contains, option_map, get, is_some, In, ◌==◌,
  if◌then◌else◌, arith, ap, Bool-cases,
}
use app_powerd.Host.{Host, signal}
use app_powerd.System.Cgroup.{cpu_max_value}
use app_powerd.System.Power.{unknown, power_supply, listed_supplies, detect_power_source}
use app_powerd.System.Power.Detection.{judged, detect_power_source-judged}
use app_powerd.System.Tree.{children_of, descendant_pids}
use app_powerd.System.Tree.Complete.{Outweighs, HasAll, descendant_pids_complete}
use app_powerd.Config.{Config, Rule, default_config, resolve_policy}
use app_powerd.Config.Validation.{
  validate, check_rules, check_rule, check_profile_name, check_unique, check_profiles,
  check_policies, validate_throttle_params, check_nice, check_weight, check_quota,
}
use app_powerd.Config.Accepted.{validate-accepted}
use app_powerd.State.Machine.{frozen, is_suspended}
use app_powerd.Host.Log.{Extends}
use app_powerd.Engine.Commands.{ipc_thaw_all}
use app_powerd.Engine.ThawAll.{IsResume, ipc_thaw_all-Resuming}
use app_powerd.State.Journal.{recorded, all_procs}
use app_powerd.State.Journal.Recover.{ok}
use app_powerd.State.Journal.Refinement.{
  Command, arming, committing, retiring, perform_all, ledger_run, ledger_of, perform_all-refines,
}
use app_powerd.Desktop.Identity.{app_eq}
use app_powerd.Engine.States.{state_of}
use app_powerd.Engine.ShutdownThawed.{shutdown-Thawed}
use app_powerd.Engine.Shutdown.{shutdown, release_recorded_processes}
use app_powerd.Engine.ReleaseAll.{IsSettled, listing, release_recorded_processes-accounted}
use app_powerd.Engine.Loop
use app_powerd.Engine.Loop.{EngineEvent, run}
use app_powerd.Engine.Commands.{Words}
use app_powerd.Engine.Consistent.{HasWindows}
use app_powerd.Engine.Consistent.Run.{run-HasWindows}
use app_powerd.Ipc
use app_powerd.Cli.Daemon.{open_journal}
use app_powerd.Cli.CleanSlate.{open_journal-blank}
use app_powerd.Tests.Data.{
  torn, host, process, journal_path, journal, empty_journal, mousepad, host_with, found, engine_in,
  window, sensors, scan_budget,
}

abbrev commands : List Command
commands =
    arming (codes "mousepad") signal none (process ∷ [])
    ∷ committing (codes "mousepad") (process ∷ []) (process ∷ [])
    ∷ retiring (codes "gimp") (7 ∷ [])
    ∷ []

perform_all-refines_example :
    ledger_of (perform_all host commands empty_journal []).0 (codes "mousepad") process
    ↔ ledger_run commands (ledger_of empty_journal) (codes "mousepad") process
perform_all-refines_example =
    perform_all-refines host commands empty_journal [] (codes "mousepad") process

release_recorded_processes-accounted_example :
    let r = release_recorded_processes host (engine_in frozen journal) [] in
    In process (recorded (codes "mousepad") r.0.0.journal.entries)
    ⊎ IsSettled host (listing (engine_in frozen journal)) [] (codes "mousepad") r.1 process.pid
unfolding recorded get
release_recorded_processes-accounted_example =
    release_recorded_processes-accounted host (engine_in frozen journal) [] (codes "mousepad")
      process (inl refl)

-- Process 1 has the child 2, and 2 has the children 3 and 4.
abbrev children_file : ℕ → Text
children_file pid = if pid == 1 then codes "2 " else if pid == 2 then codes "3 4 " else []

abbrev tree_host : Host
tree_host = record host { read_children = λ t pid. some (some (children_file pid) ∷ []) }

abbrev weight : ℕ → ℕ
weight pid = if pid == 1 then 4 else if pid == 2 then 3 else 1

tree-Outweighs : Outweighs tree_host [] weight
unfolding children_of parse_unsigned
tree-Outweighs pid = elim (Bool-cases (pid == 1)) [
  | inl one ↦ rw one (omega arith)
  | inr other ↦ elim (Bool-cases (pid == 2)) [
    | inl two ↦ rw (other, two) (omega arith)
    | inr leaf ↦ rw (other, leaf) (omega arith)
  ]
]

descendant_pids_complete_example :
    (found : List ℕ) × ((descendant_pids tree_host [] 4 1 ≡ some found)
      × ((p : ℕ) → In p (1 ∷ found) → HasAll tree_host [] found p))
descendant_pids_complete_example =
    descendant_pids_complete tree_host [] weight 4 1 tree-Outweighs (omega arith)

-- The test host answers reads from its disk, and nothing fails.
abbrev corrupt_file : Text → Option Text
corrupt_file path = if text_eq path journal_path then some (codes "??") else none

open_journal-blank_example :
    (open_journal (host_with corrupt_file) journal_path []).0
    ≡ ok (record { path = journal_path; entries = [] })
unfolding host_with
open_journal-blank_example =
    open_journal-blank torn corrupt_file (host_with corrupt_file) journal_path (λ at m. ap found m)
      (λ at s d. refl) (λ at s d. refl) refl []

detect_power_source-judged_example : detect_power_source host [] ≡ (
    if host.path_exists [] power_supply
    then judged false (listed_supplies host [] (host.read_dir [] power_supply))
    else unknown)
detect_power_source-judged_example = detect_power_source-judged host []

abbrev half : Rule
half = record {
  id = codes "half";
  match_criteria = record {
    executable = codes "gimp" ∷ [];
    cmdline_regex = none;
    wm_class = [];
    app_id = [];
    desktop_file = [];
    window_title_regex = none;
  };
  policy = record {
    use_profile = none;
    action = none;
    suspend_delay = none;
    nice = none;
    cpu_weight = some 50;
    cpu_quota = some (codes "40%");
    maintenance_resume = none;
    guards = none;
  };
}

abbrev half_config : Config
half_config = record default_config { rules = half ∷ [] }

validate-accepted_example :
    ((q : Text)
      → (resolve_policy half_config half.policy).cpu_quota ≡ some q
      → is_some (cpu_max_value q) ≡ true)
    × (((w : ℕ)
          → (resolve_policy half_config half.policy).cpu_weight ≡ some w
          → (1 ≤ w) × (w ≤ 10000))
        × ((name : Text)
            → half.policy.use_profile ≡ some name
            → is_some (get name half_config.profiles) ≡ true))
unfolding validate check_rules check_rule check_profile_name check_unique contains check_profiles
    check_policies validate_throttle_params check_nice check_weight check_quota parse_unsigned
validate-accepted_example = validate-accepted half_config half refl (inl refl)

shutdown-Thawed_example : ¬ (
    option_map is_suspended (state_of mousepad (shutdown host (engine_in frozen journal) []).0)
    ≡ some true)
shutdown-Thawed_example = shutdown-Thawed host (engine_in frozen journal) [] mousepad

ipc_thaw_all-Resuming_example :
    Extends (IsResume host (process ∷ [])) [] (ipc_thaw_all host (engine_in frozen journal) []).1
unfolding all_procs
ipc_thaw_all-Resuming_example = ipc_thaw_all-Resuming host (engine_in frozen journal) []

abbrev words : Words
words = record { journal_error = λ e. codes "io"; config_error = λ e. codes "io" }

abbrev no_regex : Text → Option (Text → Bool)
no_regex pattern = none

abbrev no_config : Text → Option Config
no_config text = none

-- A focus change, a workspace switch, a reply to the command line, a closed window and the end.
abbrev busy : List EngineEvent
busy =
    Loop.focus_changed window
    ∷ Loop.workspace_changed 1
    ∷ Loop.ipc_request Ipc.thaw_all
    ∷ Loop.window_closed 3
    ∷ Loop.shutdown
    ∷ []

run-HasWindows_example :
    HasWindows
      (run host sensors scan_budget no_regex words no_config busy (engine_in frozen journal) []).0.0
unfolding get
run-HasWindows_example =
    run-HasWindows host sensors scan_budget no_regex words no_config busy (engine_in frozen journal)
      [] (refl, tt)
