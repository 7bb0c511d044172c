-- ===== src/Engine/RateLimit.antt =====
-- Suppression of repeated log messages: crates/app-powerd-core/src/engine/rate_limit.rs.
pub mod Bounded
use app_powerd.Prelude.{
  ℕ, ◌-◌, ◌≡◌, refl, [], ◌∷◌, Bool, true, false, ◌&&◌, not, Option, none, some, Text, text_eq,
  text_key, ◌==◌, ltb, leb, length, take, retain, HashMap, get, insert, remove, Eq, arith,
  if◌then◌else◌,
}
use app_powerd.Host.{Host, Io, ◌>>◌, pure, count, warns_suppressed_total}

abbrev pub max_entries : ℕ
max_entries = 1024

pub record LogKey : Type 0 where
  pub app_id : Text
  pub pid : Option ℕ
  pub kind : Text

abbrev pub for_app : Text → Text → LogKey
for_app app_id kind = record { app_id = app_id; pid = none; kind = kind }

abbrev pub for_pid : Text → ℕ → Text → LogKey
for_pid app_id pid kind = record { app_id = app_id; pid = some pid; kind = kind }

abbrev pub same_pid : Option ℕ → Option ℕ → Bool
same_pid none none = true
same_pid none (some q) = false
same_pid (some p) none = false
same_pid (some p) (some q) = p == q

abbrev pub same_key : LogKey → LogKey → Bool
same_key a b = text_eq a.app_id b.app_id && (same_pid a.pid b.pid && text_eq a.kind b.kind)

pub same_pid_refl : (p : Option ℕ) → same_pid p p ≡ true
same_pid_refl none = refl
same_pid_refl (some p) = ground arith

pub same_pid_sym : (p q : Option ℕ) → same_pid p q ≡ same_pid q p
same_pid_sym none none = refl
same_pid_sym none (some q) = refl
same_pid_sym (some p) none = refl
same_pid_sym (some p) (some q) = ground arith

pub same_pid_trans : (p q r : Option ℕ) → same_pid p q ≡ true → same_pid p r ≡ same_pid q r
same_pid_trans none none r h = refl
same_pid_trans none (some q) r h = cc
same_pid_trans (some p) none r h = cc
same_pid_trans (some p) (some q) none h = refl
same_pid_trans (some p) (some q) (some r) h = ground arith

pub same_key_refl : (a : LogKey) → same_key a a ≡ true
same_key_refl a =
    ground (arith, text_key.same_refl a.app_id, same_pid_refl a.pid, text_key.same_refl a.kind)

pub same_key_sym : (a b : LogKey) → same_key a b ≡ same_key b a
same_key_sym a b =
    rw (
      text_key.same_sym a.app_id b.app_id,
      same_pid_sym a.pid b.pid,
      text_key.same_sym a.kind b.kind,
    )

pub same_key_trans : (a b c : LogKey) → same_key a b ≡ true → same_key a c ≡ same_key b c
same_key_trans a b c h = ground (
  arith,
  text_key.same_trans a.app_id b.app_id c.app_id,
  same_pid_trans a.pid b.pid c.pid,
  text_key.same_trans a.kind b.kind c.kind,
)

instance abbrev pub log_key : Eq LogKey
log_key = record {
  same = same_key;
  same_refl = same_key_refl;
  same_sym = same_key_sym;
  same_trans = same_key_trans;
}

pub record RateLimiter : Type 0 where
  pub window : ℕ
  pub seen : HashMap LogKey ℕ

abbrev pub new : ℕ → RateLimiter
new window = record { window = window; seen = [] }

-- `sort_by_key` by time, which is stable.
unfoldable pub insert_by_age : LogKey × ℕ → HashMap LogKey ℕ → HashMap LogKey ℕ
insert_by_age p [] = p ∷ []
insert_by_age p (q ∷ m) = if leb p.1 q.1 then p ∷ q ∷ m else q ∷ insert_by_age p m

unfoldable pub by_age : HashMap LogKey ℕ → HashMap LogKey ℕ
by_age [] = []
by_age (p ∷ m) = insert_by_age p (by_age m)

unfoldable pub remove_all : HashMap LogKey ℕ → HashMap LogKey ℕ → HashMap LogKey ℕ
remove_all [] m = m
remove_all (p ∷ ps) m = remove_all ps (remove p.0 m)

-- What has run out goes; then the oldest, if there are still too many.
unfoldable pub evict : ℕ → RateLimiter → RateLimiter
unfolding by_age remove_all
evict now l =
    let live = retain (λ p. ltb (now - p.1) l.window) l.seen in
    let over = length live - max_entries in
    record l {
      seen =
          if leb (length live) max_entries then live else remove_all (take over (by_age live)) live;
    }

-- Whether a message of this key came less than a window ago.
unfoldable pub seen_recently : ℕ → LogKey → RateLimiter → Bool
seen_recently now key l = elim (get key l.seen) [
  | none ↦ false
  | some last ↦ ltb (now - last) l.window
]

unfoldable pub allow : Host → LogKey → RateLimiter → Io (RateLimiter × Bool)
unfolding evict seen_recently
allow host key l t =
    let now = host.now t in
    let kept = evict now l in
    if seen_recently now key kept
    then (do count warns_suppressed_total 1; pure (kept, false)) t
    else ((record kept { seen = insert key now kept.seen }, true), t)

unfoldable pub forget_app : Text → RateLimiter → RateLimiter
forget_app app_id l = record l { seen = retain (λ p. not (text_eq p.0.app_id app_id)) l.seen }
