-- ===== src/Prelude/Decimal.antt =====
-- Decimal numbers in text: `{}` of an unsigned integer, and `str::parse` into one of `bits` bits.
use Prim.Native.Nat.{ℕ, zero, suc, ◌+◌, ◌*◌, ◌-◌, ◌/◌, ◌%◌, ◌^◌}
use mathlib.Core.List.{[], ◌∷◌, ◌++◌}
use mathlib.Core.Bool.{true, false}
use mathlib.Core.Option.{Option, none, some}
use app_powerd.Prelude.Tests.{◌==◌, ltb, if◌then◌else◌}
use app_powerd.Prelude.Texts.{Text, is_digit}

-- The digits of `n`, at most `fuel` of them: twenty are enough for 64 bits.
unfoldable pub decimal_digits : ℕ → ℕ → Text
decimal_digits zero n = []
decimal_digits (suc fuel) n =
    let higher = decimal_digits fuel (n / 10) in
    if ltb n 10 then (b'0' + n) ∷ [] else higher ++ (b'0' + n % 10) ∷ []

unfoldable pub decimal : ℕ → Text
unfolding decimal_digits
decimal n = decimal_digits 20 n

unfoldable pub digits_value : ℕ → Text → Option ℕ
digits_value acc [] = some acc
digits_value acc (c ∷ s) = elim (is_digit c) [
  | true ↦ digits_value (10 * acc + (c - b'0')) s
  | false ↦ none
]

-- Empty text is refused.
unfoldable pub parse_digits : Text → Option ℕ
unfolding digits_value
parse_digits [] = none
parse_digits (c ∷ s) = digits_value 0 (c ∷ s)

-- One leading `+` is accepted.
unfoldable pub without_plus : Text → Text
without_plus [] = []
without_plus (c ∷ s) = if c == b'+' then s else c ∷ s

unfoldable pub parse_unsigned : ℕ → Text → Option ℕ
unfolding parse_digits without_plus
parse_unsigned bits s = elim (parse_digits (without_plus s)) [
  | none ↦ none
  | some n ↦ if ltb n (2 ^ bits) then some n else none
]
