-- ===== src/Desktop/Identity.antt =====
-- `AppId` (crates/app-powerd-core/src/state/app_entry.rs): an application's name, compared without
-- regard to ASCII case.
use app_powerd.Prelude.{
  ◌≡◌, refl, [], ◌∷◌, ◌++◌, Bool, true, Option, none, some, Text, codes, decimal, text_eq, text_key,
  Eq, to_ascii_lowercase, eq_ignore_ascii_case, unwrap_or, or_else, is_empty, if◌then◌else◌,
}
use app_powerd.Desktop.{WindowInfo}

pub record AppId : Type 0 where
  pub key : Text
  pub display : Text

unfoldable pub new : Text → AppId
new display = record { key = to_ascii_lowercase display; display = display }

-- The first name that is there and not empty.
unfoldable pub nonempty : Option Text → Option Text
nonempty none = none
nonempty (some s) = if is_empty s then none else some s

-- wm_class, then app_id, then the executable, then the window's number.
unfoldable pub from_window : WindowInfo → AppId
unfolding new nonempty decimal
from_window info = new (
    unwrap_or
      (or_else (nonempty info.wm_class) (or_else (nonempty info.app_id) (nonempty info.executable)))
      (codes "window-" ++ decimal info.window_id))

-- `PartialEq`: the keys decide, and not the spelling.
abbrev pub same_app : AppId → AppId → Bool
same_app a b = text_eq a.key b.key

pub same_app_refl : (a : AppId) → same_app a a ≡ true
same_app_refl a = text_key.same_refl a.key

pub same_app_sym : (a b : AppId) → same_app a b ≡ same_app b a
same_app_sym a b = text_key.same_sym a.key b.key

pub same_app_trans : (a b c : AppId) → same_app a b ≡ true → same_app a c ≡ same_app b c
same_app_trans a b c = text_key.same_trans a.key b.key c.key

instance abbrev pub app_eq : Eq AppId
app_eq = record {
  same = same_app;
  same_refl = same_app_refl;
  same_sym = same_app_sym;
  same_trans = same_app_trans;
}

lower-text_eq :
    (s t : Text) → text_eq (to_ascii_lowercase s) (to_ascii_lowercase t) ≡ eq_ignore_ascii_case s t
lower-text_eq [] [] = refl
lower-text_eq [] (d ∷ t) = refl
lower-text_eq (c ∷ s) [] = refl
lower-text_eq (c ∷ s) (d ∷ t) = rw (lower-text_eq s t)

-- Two names are one application exactly when they are equal up to ASCII case: the test that rules
-- and the deny-list use.
pub same_app-new : (s t : Text) → same_app (new s) (new t) ≡ eq_ignore_ascii_case s t
unfolding new
same_app-new s t = lower-text_eq s t
