-- ===== src/Guards.antt =====
-- Reasons to leave an application running for now: crates/app-powerd-core/src/guards. What PipeWire,
-- the camera devices and the input idle time say is a parameter.
pub mod Verdict
pub mod Sensing
use app_powerd.Prelude.{
  ℕ, ◌≡◌, Bool, true, false, ◌&&◌, ◌||◌, Option, none, some, List, if◌then◌else◌,
}
use app_powerd.Config.{GuardAction, check, skip, GuardsConfig}

pub data GuardBlockReason : Type 0 where
  audio_active mic_active camera_active fullscreen recent_input : GuardBlockReason

pub data GuardResult : Type 0 where
  allow : GuardResult
  block : GuardBlockReason → GuardResult

-- What the checks of audio.rs, camera.rs and input.rs find for a set of PIDs.
pub record Sensors : Type 0 where
  pub playing : List ℕ → Bool
  pub mic_in_use : List ℕ → Bool
  pub using_camera : List ℕ → Bool
  pub has_recent_input : ℕ → Bool

abbrev pub is_check : GuardAction → Bool
is_check check = true
is_check skip = false

abbrev pub recent_input_seen : Sensors → Option ℕ → Bool
recent_input_seen s none = false
recent_input_seen s (some threshold) = s.has_recent_input threshold

unfoldable pub check_guards : Sensors → List ℕ → GuardsConfig → Bool → GuardResult
check_guards s pids g is_fullscreen =
    if is_check g.audio_active && s.playing pids
    then block audio_active
    else if is_check g.mic_active && s.mic_in_use pids
    then block mic_active
    else if is_check g.camera_active && s.using_camera pids
    then block camera_active
    else if is_check g.fullscreen && is_fullscreen
    then block fullscreen
    else if recent_input_seen s g.input_idle
    then block recent_input
    else allow
