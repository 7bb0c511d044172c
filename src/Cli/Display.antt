-- ===== src/Cli/Display.antt =====
-- What the command line prints: `print_response`, `format_duration`, `truncate` and
-- `sanitize_for_display` of crates/app-powerd/src/main.rs.
use app_powerd.Prelude.{
  ℕ, ◌-◌, ◌/◌, ◌%◌, List, [], ◌∷◌, ◌++◌, map, Bool, true, false, ◌&&◌, Option, none, some, Text,
  codes, decimal, length, replicate, take, leb, unwrap_or, or_else, if◌then◌else◌,
}
use app_powerd.System.Power.{PowerSource, source_text}
use app_powerd.State.Machine.{AppState, active, background, throttled, frozen}
use app_powerd.Metrics.{MetricsSnapshot}
use app_powerd.Ipc.{AppInfo, StatusInfo, IpcResponse, ok, error, app_list, status_info, stats_info}

unfoldable pub format_duration : ℕ → Text
format_duration secs =
    if leb secs 59
    then decimal secs ++ codes "s"
    else if leb secs 3599
    then decimal (secs / 60) ++ codes "m" ++ decimal (secs % 60) ++ codes "s"
    else decimal (secs / 3600) ++ codes "h" ++ decimal (secs % 3600 / 60) ++ codes "m"

-- `max - 3` overflows below three, which no call of the source does.
unfoldable pub truncate : Text → ℕ → Text
unfolding take
truncate s max = if leb (length s) max then s else take (max - 3) s ++ codes "..."

-- `char::is_control`: the code points of the category Cc.
abbrev pub is_control : ℕ → Bool
is_control c = if leb c 31 then true else leb 127 c && leb c 159

abbrev pub sanitize_char : ℕ → ℕ
sanitize_char c = if is_control c then 0xfffd else c

unfoldable pub sanitize_for_display : Text → Text
sanitize_for_display = map sanitize_char

-- `{:<width}`: spaces up to the width.
abbrev pub pad : ℕ → Text → Text
pad width s = s ++ replicate (width - length s) b' '

abbrev cell : ℕ → Text → Text
cell width s = truncate (sanitize_for_display s) width

-- (machine.rs)
abbrev pub state_text : AppState → Text
state_text active = codes "ACTIVE"
state_text background = codes "BACKGROUND"
state_text throttled = codes "THROTTLED"
state_text frozen = codes "FROZEN"

abbrev shown_state : Option Text → AppState → Text
shown_state none state = state_text state
shown_state (some reason) state = codes "PROTECTED"

unfoldable pub app_line : AppInfo → Text
unfolding truncate sanitize_for_display format_duration
app_line x =
    pad 20 (cell 20 x.app_id)
    ++ codes " "
    ++ pad 11 (shown_state x.protected x.state)
    ++ codes " "
    ++ pad 10 (format_duration x.state_since_secs)
    ++ codes " "
    ++ pad 12 (cell 12 (unwrap_or x.profile (codes "-")))
    ++ codes " "
    ++ pad 18 (cell 18 (unwrap_or (or_else x.protected x.rule_id) (codes "-")))
    ++ codes " "
    ++ pad 9 (decimal (length x.pids))
    ++ codes " "
    ++ cell 30 (unwrap_or x.window_title (codes "-"))

abbrev header_line : Text
header_line =
    pad 20 (codes "APP")
    ++ codes " "
    ++ pad 11 (codes "STATE")
    ++ codes " "
    ++ pad 10 (codes "IN STATE")
    ++ codes " "
    ++ pad 12 (codes "PROFILE")
    ++ codes " "
    ++ pad 18 (codes "RULE")
    ++ codes " "
    ++ pad 9 (codes "PIDS")
    ++ codes " TITLE"

unfoldable pub list_lines : List AppInfo → List Text
unfolding app_line
list_lines [] = codes "No tracked applications." ∷ []
list_lines (x ∷ apps) = header_line ∷ replicate 110 b'-' ∷ map app_line (x ∷ apps)

abbrev source_line : PowerSource → Option PowerSource → Text
source_line detected none = codes "  power source:  " ++ source_text detected ++ codes " (auto)"
source_line detected (some forced) =
    codes "  power source:  "
    ++ source_text forced
    ++ codes " (forced; detected: "
    ++ source_text detected
    ++ codes ")"

abbrev bool_text : Bool → Text
bool_text true = codes "true"
bool_text false = codes "false"

unfoldable pub status_lines : StatusInfo → List Text
status_lines s =
    codes "app-powerd status:"
    ∷ (codes "  enabled:       " ++ bool_text s.enabled)
    ∷ source_line s.power_source s.forced_power_source
    ∷ (codes "  cgroup mode:   " ++ s.cgroup_mode)
    ∷ (codes "  cpu control:   "
        ++ (if s.cpu_control
            then codes "available"
            else codes "unavailable (cpu_weight/cpu_quota are NOT applied)"))
    ∷ (codes "  tracked apps:  " ++ decimal s.tracked_apps)
    ∷ (codes "  protected:     " ++ decimal s.protected_apps)
    ∷ (codes "  uptime:        " ++ decimal s.uptime_secs ++ codes "s")
    ∷ (codes "  protocol:      v" ++ decimal s.protocol_version)
    ∷ []

unfoldable pub stats_lines : MetricsSnapshot → List Text
stats_lines m =
    codes "app-powerd metrics:"
    ∷ (codes "  apps_frozen_total:     " ++ decimal m.frozen)
    ∷ (codes "  apps_thawed_total:     " ++ decimal m.thawed)
    ∷ (codes "  apps_throttled_total:  " ++ decimal m.throttled)
    ∷ (codes "  apps_unthrottled_total:" ++ decimal m.unthrottled)
    ∷ (codes "  focus_changes_total:   " ++ decimal m.focus_changes)
    ∷ (codes "  guard_blocks_total:    " ++ decimal m.guard_blocks)
    ∷ (codes "  config_reloads_total:  " ++ decimal m.config_reloads)
    ∷ (codes "  time_in_frozen_ms:     " ++ decimal m.frozen_ms)
    ∷ (codes "  time_in_throttled_ms:  " ++ decimal m.throttled_ms)
    ∷ (codes "  reconcile_ticks_total: " ++ decimal m.reconcile_ticks)
    ∷ (codes "  pids_reaped_total:     " ++ decimal m.pids_reaped)
    ∷ (codes "  apps_removed_stale:    " ++ decimal m.apps_removed_stale)
    ∷ (codes "  protection_blocks:     " ++ decimal m.protection_blocks)
    ∷ (codes "  journal_recovered:     " ++ decimal m.journal_recovered)
    ∷ (codes "  journal_stale_dropped: " ++ decimal m.journal_stale_dropped)
    ∷ (codes "  warns_suppressed:      " ++ decimal m.warns_suppressed)
    ∷ []

-- How a client ends: with lines on the standard output, or with a message and the exit code 1.
pub data Exit : Type 0 where
  printed : List Text → Exit
  failed : Text → Exit

unfoldable pub print_response : IpcResponse → Exit
unfolding list_lines status_lines stats_lines
print_response (ok message) = printed (message ∷ [])
print_response (error message) = failed (codes "error: " ++ message)
print_response (app_list apps) = printed (list_lines apps)
print_response (status_info s) = printed (status_lines s)
print_response (stats_info m) = printed (stats_lines m)
