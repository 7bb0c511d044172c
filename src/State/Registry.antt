-- ===== src/State/Registry.antt =====
-- All tracked applications: crates/app-powerd-core/src/state/registry.rs.
pub mod Windows
use app_powerd.Prelude.{
  ℕ, ◌≡◌, List, [], ◌∷◌, Bool, true, false, not, Option, none, some, HashMap, get, insert, remove,
  update, retain, nat_eq, if◌then◌else◌,
}
use app_powerd.Host.{Io, Trace, ◌>>=◌, pure}
use app_powerd.Desktop.Identity.{AppId, same_app, app_eq}
use app_powerd.State.AppEntry
use app_powerd.State.AppEntry.{AppEntry, cancel_all_timers}

pub record AppRegistry : Type 0 where
  pub apps : HashMap AppId AppEntry
  pub window_map : HashMap ℕ AppId

abbrev pub empty_registry : AppRegistry
empty_registry = record { apps = []; window_map = [] }

abbrev pub lookup : AppId → AppRegistry → Option AppEntry
lookup app_id r = get app_id r.apps

-- A change through `get_mut`.
abbrev pub modify : AppId → (AppEntry → AppEntry) → AppRegistry → AppRegistry
modify app_id f r = record r { apps = update app_id f r.apps }

unfoldable pub map_windows : AppId → List ℕ → HashMap ℕ AppId → HashMap ℕ AppId
map_windows app_id [] m = m
map_windows app_id (wid ∷ wids) m = map_windows app_id wids (insert wid app_id m)

-- The timers of an entry that is replaced are cancelled.
unfoldable pub cancel_displaced : Option AppEntry → Io (Unit {0})
cancel_displaced none t = (tt, t)
cancel_displaced (some e) t = (tt, (cancel_all_timers e t).1)

unfoldable pub insert_entry : AppEntry → AppRegistry → Io AppRegistry
unfolding map_windows cancel_displaced
insert_entry e r t = (
  record {
    apps = insert e.app_id e r.apps;
    window_map = map_windows e.app_id e.window_ids r.window_map;
  },
  (cancel_displaced (get e.app_id r.apps) t).1,
)

unfoldable pub remove_app : AppId → AppRegistry → AppRegistry × Option AppEntry
remove_app app_id r = elim (get app_id r.apps) [
  | none ↦ (r, none)
  | some e ↦ (
    record {
      apps = remove app_id r.apps;
      window_map = retain (λ p. not (same_app p.1 app_id)) r.window_map;
    },
    some e,
  )
]

-- The window goes, and with the last one its application, which is returned.
unfoldable pub remove_window_of : ℕ → AppId → AppEntry → AppRegistry → AppRegistry × Option AppEntry
unfolding remove_app
remove_window_of window_id app_id e r =
    let left = AppEntry.remove_window window_id e in
    let r' = modify app_id (λ _. left.0) r in if left.1 then remove_app app_id r' else (r', none)

unfoldable pub remove_window : ℕ → AppRegistry → AppRegistry × Option AppEntry
unfolding remove_window_of
remove_window window_id r = elim (get window_id r.window_map) [
  | none ↦ (r, none)
  | some app_id ↦
      let r' = record r { window_map = remove window_id r.window_map } in
      elim (get app_id r'.apps) [
        | none ↦ (r', none)
        | some e ↦ remove_window_of window_id app_id e r'
      ]
]
