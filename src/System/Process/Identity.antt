-- ===== src/System/Process/Identity.antt =====
-- The start time of a process and its command's name: `parse_starttime` of
-- crates/app-powerd-core/src/system/process.rs.
use app_powerd.Prelude.{
  ◌≡◌, refl, [], ◌∷◌, ◌++◌, true, not, none, some, Text, ◌==◌, all, and_then, get_elem?,
  parse_unsigned, arith,
}
use app_powerd.System.Process.{behind_last_paren, split_whitespace, parse_starttime}

-- No closing parenthesis.
abbrev HasNoParen : Text → Type 0
HasNoParen s = all (λ c. not (c == b')')) s ≡ true

behind_last_paren-none : (s : Text) → HasNoParen s → behind_last_paren s ≡ none
unfolding behind_last_paren all
behind_last_paren-none [] h = refl
behind_last_paren-none (c ∷ s) h = ground (arith, behind_last_paren-none s)

behind_last_paren-append :
    (comm tail : Text) → HasNoParen tail → behind_last_paren (comm ++ b')' ∷ tail) ≡ some tail
unfolding behind_last_paren
behind_last_paren-append [] tail h = rw (behind_last_paren-none tail h)
behind_last_paren-append (c ∷ comm) tail h = rw (behind_last_paren-append comm tail h)

-- The start time is read from the twentieth word behind the parenthesis that closes the command's
-- name, whatever stands before it: a name that itself holds spaces or parentheses changes nothing.
pub parse_starttime_comm :
    (comm tail : Text)
    → HasNoParen tail
    → parse_starttime (comm ++ b')' ∷ tail)
      ≡ and_then (get_elem? (split_whitespace tail) 19) (parse_unsigned 64)
unfolding parse_starttime
parse_starttime_comm comm tail h = rw (behind_last_paren-append comm tail h)
