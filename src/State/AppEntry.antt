-- ===== src/State/AppEntry.antt =====
-- A tracked application: crates/app-powerd-core/src/state/app_entry.rs.
use app_powerd.Prelude.{
  ℕ, ◌-◌, List, [], ◌∷◌, ◌++◌, Bool, not, Option, none, some, Text, ◌==◌, ltb, is_empty, contains,
  retain, nat_eq, if◌then◌else◌,
}
use app_powerd.Host.{Host, Io, Trace, ◌>>=◌, ◌>>◌, pure, abort}
use app_powerd.Desktop.{WindowInfo}
use app_powerd.Desktop.Identity.{AppId}
use app_powerd.Config.{ResolvedPolicy}
use app_powerd.State.Machine.{AppState, active, is_active}
use app_powerd.State.ProcessSet.{ProcessSet, empty_set, insert_pid}

pub record AppEntry : Type 0 where
  pub app_id : AppId
  pub state : AppState
  pub roots : ProcessSet
  pub window_ids : List ℕ
  pub window_info : WindowInfo
  pub policy : ResolvedPolicy
  pub cgroup_path : Option Text
  pub state_since : ℕ
  pub last_active : ℕ
  pub suspend_timer : Option ℕ
  pub maintenance_timer : Option ℕ

-- The processes that a new entry starts with.
abbrev pub first_roots : Host → Trace → Option ℕ → ProcessSet
first_roots host t none = empty_set
first_roots host t (some pid) = (insert_pid host t pid empty_set).0

unfoldable pub new_entry : Host → Trace → AppId → WindowInfo → ResolvedPolicy → AppEntry
new_entry host t app_id window_info policy = record {
  app_id = app_id;
  state = active;
  roots = first_roots host t window_info.pid;
  window_ids = window_info.window_id ∷ [];
  window_info = window_info;
  policy = policy;
  cgroup_path = none;
  state_since = host.now t;
  last_active = host.now t;
  suspend_timer = none;
  maintenance_timer = none;
}

unfoldable pub set_state : Host → Trace → AppState → AppEntry → AppEntry
set_state host t new_state e = record e {
  state = new_state;
  state_since = host.now t;
  last_active = if is_active new_state then host.now t else e.last_active;
}

abbrev pub reset_state_since : Host → Trace → AppEntry → AppEntry
reset_state_since host t e = record e { state_since = host.now t }

-- `handle.abort()`, if there is a timer.
unfoldable pub abort_timer : Option ℕ → Io (Unit {0})
abort_timer none = pure tt
abort_timer (some handle) = abort handle

unfoldable pub cancel_suspend_timer : AppEntry → Io AppEntry
unfolding abort_timer
cancel_suspend_timer e = do abort_timer e.suspend_timer; pure (record e { suspend_timer = none })

unfoldable pub cancel_maintenance_timer : AppEntry → Io AppEntry
unfolding abort_timer
cancel_maintenance_timer e = do
  abort_timer e.maintenance_timer
  pure (record e { maintenance_timer = none })

unfoldable pub cancel_all_timers : AppEntry → Io AppEntry
unfolding cancel_suspend_timer cancel_maintenance_timer
cancel_all_timers e = do e' ← cancel_suspend_timer e; cancel_maintenance_timer e'

unfoldable pub set_suspend_timer : ℕ → AppEntry → Io AppEntry
unfolding cancel_suspend_timer
set_suspend_timer handle e = do
  e' ← cancel_suspend_timer e
  pure (record e' { suspend_timer = some handle })

unfoldable pub set_maintenance_timer : ℕ → AppEntry → Io AppEntry
unfolding cancel_maintenance_timer
set_maintenance_timer handle e = do
  e' ← cancel_maintenance_timer e
  pure (record e' { maintenance_timer = some handle })

-- `elapsed()`: a clock that runs backwards counts as none.
abbrev pub elapsed : Host → Trace → ℕ → ℕ
elapsed host t since = host.now t - since

unfoldable pub in_resume_grace : Host → Trace → AppEntry → Bool
in_resume_grace host t e = ltb (elapsed host t e.last_active) e.policy.resume_grace

unfoldable pub has_window : AppEntry → ℕ → Bool
unfolding contains
has_window e window_id = contains e.window_ids window_id

unfoldable pub add_window : ℕ → AppEntry → AppEntry
unfolding contains
add_window window_id e =
    if contains e.window_ids window_id
    then e
    else record e { window_ids = e.window_ids ++ window_id ∷ [] }

unfoldable pub remove_window : ℕ → AppEntry → AppEntry × Bool
unfolding retain
remove_window window_id e =
    let left = retain (λ id. not (id == window_id)) e.window_ids in
    (record e { window_ids = left }, is_empty left)
