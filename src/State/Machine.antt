-- ===== src/State/Machine.antt =====
-- The power states of an application: crates/app-powerd-core/src/state/machine.rs.
use app_powerd.Prelude.{Bool, true, false}

pub data AppState : Type 0 where
  active background throttled frozen : AppState

pub data TransitionAction : Type 0 where
  start_suspend_timer cancel_suspend_timer : TransitionAction
  apply_throttle apply_freeze remove_throttle thaw : TransitionAction
  no_op : TransitionAction

pub data SuspendMode : Type 0 where
  freeze throttle : SuspendMode

unfoldable pub requires_management : TransitionAction → Bool
requires_management start_suspend_timer = true
requires_management apply_throttle = true
requires_management apply_freeze = true
requires_management _ = false

unfoldable pub on_focus_lost : AppState → AppState × TransitionAction
on_focus_lost active = (background, start_suspend_timer)
on_focus_lost other = (other, no_op)

unfoldable pub on_focus_gained : AppState → AppState × TransitionAction
on_focus_gained background = (active, cancel_suspend_timer)
on_focus_gained throttled = (active, remove_throttle)
on_focus_gained frozen = (active, thaw)
on_focus_gained active = (active, no_op)

unfoldable pub on_suspend_timer : AppState → SuspendMode → AppState × TransitionAction
on_suspend_timer background freeze = (frozen, apply_freeze)
on_suspend_timer background throttle = (throttled, apply_throttle)
on_suspend_timer other mode = (other, no_op)

abbrev pub is_suspended : AppState → Bool
is_suspended throttled = true
is_suspended frozen = true
is_suspended _ = false

abbrev pub is_active : AppState → Bool
is_active active = true
is_active _ = false

-- `==` of `AppState`.
abbrev pub is_frozen : AppState → Bool
is_frozen frozen = true
is_frozen _ = false

abbrev pub is_background : AppState → Bool
is_background background = true
is_background _ = false
