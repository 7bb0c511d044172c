-- ===== src/Guards/Verdict.antt =====
-- When the guards let an application be suspended: `check_guards` of
-- crates/app-powerd-core/src/guards/mod.rs.
use app_powerd.Prelude.{ℕ, ◌≡◌, ◌↔◌, List, Bool, true, false, ◌&&◌, ◌||◌, arith}
use app_powerd.Config.{GuardsConfig}
use app_powerd.Guards.{
  Sensors, GuardResult, allow, block, is_check, recent_input_seen, check_guards,
}

-- Some guard that is switched on has something to say.
abbrev pub is_guarded : Sensors → List ℕ → GuardsConfig → Bool → Bool
is_guarded s pids g is_fullscreen =
    (is_check g.audio_active && s.playing pids)
    || ((is_check g.mic_active && s.mic_in_use pids)
        || ((is_check g.camera_active && s.using_camera pids)
            || ((is_check g.fullscreen && is_fullscreen) || recent_input_seen s g.input_idle)))

abbrev pub is_allow : GuardResult → Bool
is_allow allow = true
is_allow (block why) = false

-- The guards allow a suspension exactly when none of those that are switched on applies.
pub check_guards-is_guarded :
    (s : Sensors) (pids : List ℕ) (g : GuardsConfig) (is_fullscreen : Bool)
    → (is_allow (check_guards s pids g is_fullscreen) ≡ true)
      ↔ (is_guarded s pids g is_fullscreen ≡ false)
unfolding check_guards
check_guards-is_guarded s pids g is_fullscreen = ground arith
