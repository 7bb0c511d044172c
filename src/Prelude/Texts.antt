-- ===== src/Prelude/Texts.antt =====
-- Text as the list of its code points, and the operations of `str` that the program uses.
use Prim.Native.Nat.{ℕ, ◌+◌}
use Prim.Native.Char.{code}
use Prim.Native.String.{String}
use mathlib.Core.Path.{◌≡◌, refl, ap}
use mathlib.Core.List.{List, [], ◌∷◌, map}
use mathlib.Core.Bool.{Bool, true, false, ◌&&◌}
use mathlib.Core.Option.{Option, none, some}
use native.Mathlib.Omega.{arith}
use app_powerd.Prelude.Tests.{◌==◌, leb, if◌then◌else◌}
use app_powerd.Prelude.Keys.{Eq}

abbrev pub Text : Type 0
Text = List ℕ

-- The code points of a literal.
abbrev pub codes : String → Text
codes String.[] = []
codes (String.◌∷◌ c s) = code c ∷ codes s

abbrev pub text_eq : Text → Text → Bool
text_eq [] [] = true
text_eq [] (d ∷ t) = false
text_eq (c ∷ s) [] = false
text_eq (c ∷ s) (d ∷ t) = (c == d) && text_eq s t

pub text_eq_refl : (s : Text) → text_eq s s ≡ true
text_eq_refl [] = refl
text_eq_refl (c ∷ s) = ground (arith, text_eq_refl s)

pub text_eq→eq : (s t : Text) → text_eq s t ≡ true → s ≡ t
text_eq→eq [] [] h = refl
text_eq→eq [] (d ∷ t) h = cc
text_eq→eq (c ∷ s) [] h = cc
text_eq→eq (c ∷ s) (d ∷ t) h = ground (arith, text_eq→eq s t)

pub text_eq-sym : (s t : Text) → text_eq s t ≡ text_eq t s
text_eq-sym [] [] = refl
text_eq-sym [] (d ∷ t) = refl
text_eq-sym (c ∷ s) [] = refl
text_eq-sym (c ∷ s) (d ∷ t) = ground (arith, text_eq-sym s t)

pub text_eq_trans : (s t u : Text) → text_eq s t ≡ true → text_eq s u ≡ text_eq t u
text_eq_trans s t u h = ap (λ v. text_eq v u) (text_eq→eq s t h)

instance abbrev pub text_key : Eq Text
text_key = record {
  same = text_eq;
  same_refl = text_eq_refl;
  same_sym = text_eq-sym;
  same_trans = text_eq_trans;
}

-- `to_ascii_lowercase` of one character.
abbrev pub ascii_lower : ℕ → ℕ
ascii_lower c = if leb b'A' c && leb c b'Z' then c + 32 else c

abbrev pub to_ascii_lowercase : Text → Text
to_ascii_lowercase = map ascii_lower

abbrev pub eq_ignore_ascii_case : Text → Text → Bool
eq_ignore_ascii_case [] [] = true
eq_ignore_ascii_case [] (d ∷ t) = false
eq_ignore_ascii_case (c ∷ s) [] = false
eq_ignore_ascii_case (c ∷ s) (d ∷ t) = (ascii_lower c == ascii_lower d) && eq_ignore_ascii_case s t

-- `str::strip_prefix` at one character, and `strip_suffix` at one.
abbrev pub strip_first : ℕ → Text → Option Text
strip_first k [] = none
strip_first k (c ∷ s) = if c == k then some s else none

abbrev pub strip_last : ℕ → Text → Option Text
strip_last k [] = none
strip_last k (c ∷ []) = if c == k then some [] else none
strip_last k (c ∷ d ∷ s) = elim (strip_last k (d ∷ s)) [ none ↦ none | some r ↦ some (c ∷ r) ]

-- `starts_with`, and the rest of the text behind the prefix.
abbrev pub strip_prefix : Text → Text → Option Text
strip_prefix [] s = some s
strip_prefix (c ∷ p) [] = none
strip_prefix (c ∷ p) (d ∷ s) = if c == d then strip_prefix p s else none

-- `char::is_whitespace`: the code points with the property White_Space.
abbrev pub is_space : ℕ → Bool
is_space c =
    if leb c 127
    then (if c == 32 then true else leb 9 c && leb c 13)
    else if c == 0x85
    then true
    else if c == 0xa0
    then true
    else if c == 0x1680
    then true
    else if leb 0x2000 c && leb c 0x200a
    then true
    else if c == 0x2028
    then true
    else if c == 0x2029
    then true
    else if c == 0x202f
    then true
    else if c == 0x205f
    then true
    else c == 0x3000

abbrev pub is_digit : ℕ → Bool
is_digit c = leb b'0' c && leb c b'9'
