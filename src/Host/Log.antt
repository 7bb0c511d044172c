-- ===== src/Host/Log.antt =====
-- What an operation may add to the trace.
use app_powerd.Prelude.{◌∷◌}
use app_powerd.Host.Effects.{Effect, Trace}

-- `t` is `base` and more, each addition allowed by `P` at the trace that it met.
pub data Extends (P : Effect → Trace → Type 0) (base : Trace) : Trace → Type 0 where
  none_added : Extends P base base
  added : {t : Trace} (e : Effect) → P e t → Extends P base t → Extends P base (e ∷ t)

module _ {P : Effect → Trace → Type 0} where
  pub Extends-trans : {a b c : Trace} → Extends P a b → Extends P b c → Extends P a c
  Extends-trans ab none_added = ab
  Extends-trans ab (added e p bc) = added e p (Extends-trans ab bc)

pub Extends-mono :
    {P Q : Effect → Trace → Type 0} {a b : Trace}
    → ((e : Effect) (t : Trace) → P e t → Q e t)
    → Extends P a b
    → Extends Q a b
Extends-mono f none_added = none_added
Extends-mono f (added {t} e p r) = added e (f e t p) (Extends-mono f r)
