-- ===== src/State/Registry/Windows.antt =====
-- Windows and their applications: crates/app-powerd-core/src/state/registry.rs.
use app_powerd.Prelude.{
  ℕ, ◌≡◌, refl, inl, inr, List, [], ◌∷◌, Bool, true, false, not, Option, none, some, HashMap, get,
  insert, remove, update, retain, get-insert, get-remove, get-update, is_some, option_map, nat_eq,
  Bool-cases, Option-cases, if◌then◌else◌,
}
use app_powerd.Host.{Trace}
use app_powerd.Desktop.Identity.{AppId, same_app, app_eq}
use app_powerd.State.AppEntry
use app_powerd.State.AppEntry.{AppEntry}
use app_powerd.State.Registry.{
  AppRegistry, modify, map_windows, insert_entry, remove_app, remove_window_of, remove_window,
}

abbrev Apps : Type 0
Apps = HashMap AppId AppEntry

abbrev WindowMap : Type 0
WindowMap = HashMap ℕ AppId

-- Every window leads to an application that is tracked.
abbrev AreTracked : Apps → WindowMap → Type 0
AreTracked apps [] = Unit
AreTracked apps ((wid, id) ∷ m) = (is_some (get id apps) ≡ true) × AreTracked apps m

abbrev pub IsConsistent : AppRegistry → Type 0
IsConsistent r = AreTracked r.apps r.window_map

pub AreTracked-mono :
    (a b : Apps) (m : WindowMap)
    → ((id : AppId) → is_some (get id a) ≡ true → is_some (get id b) ≡ true)
    → AreTracked a m
    → AreTracked b m
AreTracked-mono a b [] f h = tt
AreTracked-mono a b ((wid, id) ∷ m) f h = (f id h.0, AreTracked-mono a b m f h.1)

AreTracked-insert :
    (apps : Apps) (wid : ℕ) (id : AppId) (m : WindowMap)
    → is_some (get id apps) ≡ true
    → AreTracked apps m
    → AreTracked apps (insert wid id m)
unfolding insert
AreTracked-insert apps wid id [] i h = (i, tt)
AreTracked-insert apps wid id ((w, j) ∷ m) i h = elim (Bool-cases (nat_eq.same w wid)) [
  | inl s ↦ rw s (i, h.1)
  | inr s ↦ rw s (h.0, AreTracked-insert apps wid id m i h.1)
]

AreTracked-map_windows :
    (apps : Apps) (id : AppId) (wids : List ℕ) (m : WindowMap)
    → is_some (get id apps) ≡ true
    → AreTracked apps m
    → AreTracked apps (map_windows id wids m)
unfolding map_windows
AreTracked-map_windows apps id [] m i h = h
AreTracked-map_windows apps id (wid ∷ wids) m i h =
    AreTracked-map_windows apps id wids (insert wid id m) i (AreTracked-insert apps wid id m i h)

AreTracked-retain :
    (apps : Apps) (p : ℕ × AppId → Bool) (m : WindowMap)
    → AreTracked apps m
    → AreTracked apps (retain p m)
unfolding retain
AreTracked-retain apps p [] h = tt
AreTracked-retain apps p ((w, j) ∷ m) h = elim (Bool-cases (p (w, j))) [
  | inl s ↦ rw s (h.0, AreTracked-retain apps p m h.1)
  | inr s ↦ rw s (AreTracked-retain apps p m h.1)
]

-- Windows of other applications survive the removal of one.
AreTracked-remove :
    (id : AppId) (apps : Apps) (m : WindowMap)
    → AreTracked apps m
    → AreTracked (remove id apps) (retain (λ (p : ℕ × AppId). not (same_app p.1 id)) m)
unfolding retain
AreTracked-remove id apps [] h = tt
AreTracked-remove id apps ((w, j) ∷ m) h = elim (Bool-cases (same_app j id)) [
  | inl s ↦ rw s (AreTracked-remove id apps m h.1)
  | inr s ↦
      rw s (rw (get-remove id j apps, app_eq.same_sym id j, s) h.0, AreTracked-remove id apps m h.1)
]

is_some-if :
    {A : Type 0} (b : Bool) (x : A) (o : Option A)
    → is_some o ≡ true
    → is_some (if b then some x else o) ≡ true
is_some-if true x o h = refl
is_some-if false x o h = h

is_some-option_map :
    {A : Type 0} (b : Bool) (f : A → A) (o : Option A)
    → is_some o ≡ true
    → is_some (if b then option_map f o else o) ≡ true
is_some-option_map b f none h = cc
is_some-option_map true f (some x) h = refl
is_some-option_map false f (some x) h = refl

modify-IsConsistent :
    (id : AppId) (f : AppEntry → AppEntry) (r : AppRegistry)
    → IsConsistent r
    → IsConsistent (modify id f r)
modify-IsConsistent id f r h =
    AreTracked-mono r.apps (update id f r.apps) r.window_map
      (λ k i. rw (get-update id k f r.apps) (is_some-option_map (same_app id k) f (get k r.apps) i))
      h

remove_app-IsConsistent :
    (id : AppId) (r : AppRegistry) → IsConsistent r → IsConsistent (remove_app id r).0
unfolding remove_app
remove_app-IsConsistent id r h = elim (Option-cases (get id r.apps)) [
  | inl n ↦ rw (n, remove_app) h
  | inr (x, s) ↦ rw (s, remove_app) (AreTracked-remove id r.apps r.window_map h)
]

remove_window_of-IsConsistent :
    (wid : ℕ) (id : AppId) (x : AppEntry) (r : AppRegistry)
    → IsConsistent r
    → IsConsistent (remove_window_of wid id x r).0
unfolding remove_window_of
remove_window_of-IsConsistent wid id x r h =
    let left = AppEntry.remove_window wid x in
    let g : AppEntry → AppEntry = λ y. left.0 in
    elim (Bool-cases left.1) [
      | inl last ↦
          rw last (remove_app-IsConsistent id (modify id g r) (modify-IsConsistent id g r h))
      | inr more ↦ rw more (modify-IsConsistent id g r h)
    ]

remove_window-IsConsistent :
    (wid : ℕ) (r : AppRegistry) → IsConsistent r → IsConsistent (remove_window wid r).0
unfolding remove_window remove
remove_window-IsConsistent wid r h = elim (Option-cases (get wid r.window_map)) [
  | inl n ↦ rw (n, remove_window) h
  | inr (id, s) ↦
      let r' = record r { window_map = remove wid r.window_map } in
      let h' =
        AreTracked-retain r.apps (λ (p : ℕ × AppId). not (nat_eq.same p.0 wid)) r.window_map h in
      elim (Option-cases (get id r.apps)) [
        | inl n ↦ rw (s, remove_window) (rw n h')
        | inr (x, g) ↦ rw (s, remove_window) (rw g (remove_window_of-IsConsistent wid id x r' h'))
      ]
]

insert_entry-IsConsistent :
    (x : AppEntry) (r : AppRegistry) (t : Trace)
    → IsConsistent r
    → IsConsistent (insert_entry x r t).0
unfolding insert_entry
insert_entry-IsConsistent x r t h =
    let apps = insert x.app_id x r.apps in
    AreTracked-map_windows apps x.app_id x.window_ids r.window_map
      (rw (get-insert x.app_id x.app_id x r.apps, app_eq.same_refl x.app_id) refl)
      (AreTracked-mono r.apps apps r.window_map
        (λ k i.
          rw (get-insert x.app_id k x r.apps) (is_some-if (same_app x.app_id k) x (get k r.apps) i))
        h)

-- If every window of the registry leads to a tracked application, that is still so after an entry
-- is added, after one is changed or removed, and after a window is closed.
pub registry-IsConsistent :
    (r : AppRegistry)
    → IsConsistent r
    → ((x : AppEntry) (t : Trace) → IsConsistent (insert_entry x r t).0)
      × (((id : AppId) (f : AppEntry → AppEntry) → IsConsistent (modify id f r))
          × (((id : AppId) → IsConsistent (remove_app id r).0)
              × ((wid : ℕ) → IsConsistent (remove_window wid r).0)))
registry-IsConsistent r h = (
  λ x t. insert_entry-IsConsistent x r t h,
  (
    λ id f. modify-IsConsistent id f r h,
    (λ id. remove_app-IsConsistent id r h, λ wid. remove_window-IsConsistent wid r h),
  ),
)
