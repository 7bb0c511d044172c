-- ===== src/Tests/Data.antt =====
-- A host, an engine and the data that the runs use.
use app_powerd.Prelude.{
  ℕ, zero, suc, ◌≡◌, refl, ap, List, [], ◌∷◌, ◌++◌, true, false, Option, none, some, Text, codes,
  unwrap_or,
}
use app_powerd.Host.{
  Host, Trace, ProcessHandle, FreezeMethod, cgroup, signal, unknown, JournalEntry, JournalFile,
  FileRead, contents, refused, not_found,
}
use app_powerd.Host.Disk.{disk}
use app_powerd.Desktop.{WindowInfo, new_window}
use app_powerd.Desktop.Identity.{AppId}
use app_powerd.System.Cgroup.{direct_write}
use app_powerd.Config.{base_policy, default_config}
use app_powerd.Guards.{Sensors}
use app_powerd.State.Machine.{AppState}
use app_powerd.State.AppEntry.{AppEntry}
use app_powerd.State.Registry.{AppRegistry}
use app_powerd.State.Journal.Persist.{FreezeJournal}
use app_powerd.Engine.RateLimit
use app_powerd.System.Power.{battery}
use app_powerd.Engine.{Engine, log_suppression_window}

-- A serde format for files with one entry of one process and no cgroup.
abbrev method_code : FreezeMethod → ℕ
method_code cgroup = 0
method_code signal = 1
method_code unknown = 2

abbrev method_of : ℕ → FreezeMethod
method_of zero = cgroup
method_of (suc zero) = signal
method_of (suc (suc n)) = unknown

abbrev print_parts : ℕ → Text → FreezeMethod → Option Text → List ProcessHandle → Option Text
print_parts v app m none (h ∷ []) = some (v ∷ h.pid ∷ h.starttime ∷ method_code m ∷ app)
print_parts v app m _ _ = none

abbrev print : ℕ → List JournalEntry → Option Text
print v (e ∷ []) = print_parts v e.app_id e.method e.cgroup_path e.procs
print v _ = none

abbrev pub to_json : JournalFile → Option Text
to_json file = print file.version file.entries

abbrev one_entry : ℕ → Text → FreezeMethod → Option Text → List ProcessHandle → JournalFile
one_entry v app m cg procs = record {
  version = v;
  entries = record { app_id = app; method = m; cgroup_path = cg; procs = procs } ∷ [];
}

abbrev pub from_json : Text → Option JournalFile
from_json (v ∷ p ∷ s ∷ m ∷ app) =
    some (one_entry v app (method_of m) none (record { pid = p; starttime = s } ∷ []))
from_json _ = none

parse_parts :
    (v : ℕ) (app : Text) (m : FreezeMethod) (cg : Option Text) (procs : List ProcessHandle)
    (json : Text)
    → print_parts v app m cg procs ≡ some json
    → from_json json ≡ some (one_entry v app m cg procs)
parse_parts v app cgroup none (h ∷ []) json e =
    rw (← ap (λ (o : Option Text). unwrap_or o []) e) refl
parse_parts v app signal none (h ∷ []) json e =
    rw (← ap (λ (o : Option Text). unwrap_or o []) e) refl
parse_parts v app unknown none (h ∷ []) json e =
    rw (← ap (λ (o : Option Text). unwrap_or o []) e) refl
parse_parts v app m none [] json e = cc
parse_parts v app m none (h ∷ k ∷ procs) json e = cc
parse_parts v app m (some cg) procs json e = cc

parse :
    (v : ℕ) (es : List JournalEntry) (json : Text)
    → print v es ≡ some json
    → from_json json ≡ some (record { version = v; entries = es })
parse v [] json e = cc
parse v (x ∷ []) json e = parse_parts v x.app_id x.method x.cgroup_path x.procs json e
parse v (x ∷ y ∷ es) json e = cc

pub parses :
    (file : JournalFile) (json : Text) → to_json file ≡ some json → from_json json ≡ some file
parses file json e = parse file.version file.entries json e

-- Nothing fails here, so nothing is torn.
abbrev pub torn : Trace → Text → Option Text
torn t path = none

abbrev pub no_files : Text → Option Text
no_files path = none

abbrev pub found : Option Text → FileRead
found none = refused not_found
found (some s) = contents s

-- Every process is alive, with start time 500.
unfoldable pub host_with : (Text → Option Text) → Host
unfolding disk
host_with start = record {
  read_stat = λ t pid. some (codes "7 (a) S 1 1 1 0 -1 0 0 0 0 0 0 0 0 0 20 0 1 0 500 0");
  read_comm = λ t pid. some (codes "mousepad");
  read_children = λ t pid. some [];
  proc_uid = λ t pid. some 1000;
  uid = 1000;
  kill = λ t pid sig. none;
  setpriority = λ t pid nice. none;
  fs = λ t call. none;
  read_file = λ t path. found (disk torn start t path);
  path_exists = λ t path. false;
  read_dir = λ t path. none;
  read_link = λ t path. refused not_found;
  env = λ name. none;
  try_send = λ t. none;
  systemd = λ t. false;
  start_scope = λ t name pids. none;
  is_alphanumeric = λ c. true;
  to_json = to_json;
  from_json = from_json;
  parent = λ path. none;
  with_extension = λ path ext. path ++ ext;
  now = λ t. 100000;
}

unfoldable pub host : Host
unfolding host_with
host = host_with no_files

pub reads :
    (at : Trace) (path text : Text)
    → disk torn no_files at path ≡ some text
    → host.read_file at path ≡ contents text
unfolding host
reads at path text e = ap found e

abbrev pub mousepad : AppId
mousepad = record { key = codes "mousepad"; display = codes "Mousepad" }

abbrev pub process : ProcessHandle
process = record { pid = 7; starttime = 500 }

abbrev pub entry : JournalEntry
entry = record {
  app_id = codes "mousepad";
  method = signal;
  cgroup_path = none;
  procs = process ∷ [];
}

abbrev pub journal_path : Text
journal_path = codes "/run/j"

abbrev pub empty_journal : FreezeJournal
empty_journal = record { path = journal_path; entries = [] }

abbrev pub journal : FreezeJournal
journal = record { path = journal_path; entries = (codes "mousepad", entry) ∷ [] }

abbrev pub window : WindowInfo
window = record (new_window 3) { pid = some 7; wm_class = some (codes "Mousepad") }

abbrev pub entry_in : AppState → AppEntry
entry_in state = record {
  app_id = mousepad;
  state = state;
  roots = record { procs = process ∷ []; had_live_procs = true };
  window_ids = 3 ∷ [];
  window_info = window;
  policy = base_policy;
  cgroup_path = none;
  state_since = 0;
  last_active = 0;
  suspend_timer = none;
  maintenance_timer = none;
}

abbrev pub registry_in : AppState → AppRegistry
registry_in state = record {
  apps = (mousepad, entry_in state) ∷ [];
  window_map = (3, mousepad) ∷ [];
}

abbrev pub engine_in : AppState → FreezeJournal → Engine
engine_in state j = record {
  registry = registry_in state;
  rules_engine = record { compiled = []; config = default_config };
  cgroup_caps = record { tier = direct_write; freezer = true; cpu_control = true };
  cgroup_base = codes "/sys/fs/cgroup/user";
  journal = j;
  protection = record { dbus_owners = [] };
  rate_limiter = RateLimit.new log_suppression_window;
  suspend_failures = [];
  exe_to_desktop = [];
  enabled = true;
  power_source = battery;
  forced_power_source = none;
  dbus_check = false;
  dbus_refresh_interval = 300000;
  last_dbus_refresh = none;
  reconcile_in_flight = false;
  config_path = codes "/etc/app-powerd.yaml";
  start_time = 0;
  outbox = [];
}

abbrev pub sensors : Trace → Sensors
sensors t = record {
  playing = λ pids. false;
  mic_in_use = λ pids. false;
  using_camera = λ pids. false;
  has_recent_input = λ threshold. false;
}

abbrev pub scan_budget : Trace → ℕ
scan_budget t = 10
