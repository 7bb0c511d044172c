-- ===== src/Desktop.antt =====
-- What the display backends report (crates/app-powerd-core/src/desktop/window.rs), and the identity
-- that the daemon gives an application (state/app_entry.rs).
pub mod Identity
use app_powerd.Prelude.{ℕ, ◌-◌, ◌^◌, Option, none, Bool, true, false, Text, ◌==◌, if◌then◌else◌}

pub data Desktop : Type 0 where
  all : Desktop
  index : ℕ → Desktop

-- `u32::MAX`, the EWMH value for a window on all desktops.
abbrev pub sticky : ℕ
sticky = 2 ^ 32 - 1

unfoldable pub from_raw : ℕ → Desktop
from_raw raw = if raw == sticky then all else index raw

unfoldable pub matches : Desktop → ℕ → Bool
matches all current = true
matches (index i) current = i == current

pub record WindowInfo : Type 0 where
  pub window_id : ℕ
  pub pid : Option ℕ
  pub title : Option Text
  pub wm_class : Option Text
  pub app_id : Option Text
  pub executable : Option Text
  pub cmdline : Option Text
  pub is_fullscreen : Bool
  pub desktop : Option Desktop

abbrev pub new_window : ℕ → WindowInfo
new_window window_id = record {
  window_id = window_id;
  pid = none;
  title = none;
  wm_class = none;
  app_id = none;
  executable = none;
  cmdline = none;
  is_fullscreen = false;
  desktop = none;
}
