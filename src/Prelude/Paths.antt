-- ===== src/Prelude/Paths.antt =====
-- Splitting text, and `std::path` on text.
use Prim.Native.Nat.{ℕ}
use mathlib.Core.List.{List, [], ◌∷◌, ◌++◌, reverse}
use mathlib.Core.Bool.{Bool, ◌||◌}
use mathlib.Core.Option.{Option, none, some}
use app_powerd.Prelude.Tests.{◌==◌, if◌then◌else◌, is_some}
use app_powerd.Prelude.Lists.{is_empty}
use app_powerd.Prelude.Texts.{Text, codes, text_eq, strip_last, strip_prefix, is_space}

-- `split` at a character, the piece at hand kept backwards in `piece`.
unfoldable pub split_from : ℕ → Text → Text → List Text
split_from k piece [] = reverse piece ∷ []
split_from k piece (c ∷ s) =
    let ended = split_from k [] s in
    let longer = split_from k (c ∷ piece) s in if c == k then reverse piece ∷ ended else longer

unfoldable pub split_at : ℕ → Text → List Text
unfolding split_from
split_at k s = split_from k [] s

-- `str::lines`: a carriage return before the line feed goes, and so does an empty last line.
unfoldable pub chomp : Text → Text
chomp s = elim (strip_last 13 s) [ none ↦ s | some r ↦ r ]

unfoldable pub chomp_lines : List Text → List Text
unfolding chomp
chomp_lines [] = []
chomp_lines (s ∷ []) = if is_empty s then [] else s ∷ []
chomp_lines (s ∷ t ∷ ls) = chomp s ∷ chomp_lines (t ∷ ls)

unfoldable pub lines : Text → List Text
unfolding split_at chomp_lines
lines s = chomp_lines (split_at 10 s)

unfoldable pub trim_left : Text → Text
trim_left [] = []
trim_left (c ∷ s) = if is_space c then trim_left s else c ∷ s

-- `str::trim`.
abbrev pub trim : Text → Text
trim s = reverse (trim_left (reverse (trim_left s)))

abbrev pub starts_with : Text → Text → Bool
starts_with prefix s = is_some (strip_prefix prefix s)

-- The components of a path that count: none is empty, and none is `.`.
unfoldable pub components : List Text → List Text
components [] = []
components (c ∷ cs) =
    if is_empty c || text_eq c (codes ".") then components cs else c ∷ components cs

unfoldable pub last_component : List Text → Option Text
last_component [] = none
last_component (c ∷ []) = if text_eq c (codes "..") then none else some c
last_component (c ∷ d ∷ cs) = last_component (d ∷ cs)

-- `Path::file_name`.
unfoldable pub file_name : Text → Option Text
unfolding split_at components last_component
file_name path = last_component (components (split_at b'/' path))

unfoldable pub join_with : Text → List Text → Text
join_with sep [] = []
join_with sep (s ∷ []) = s
join_with sep (s ∷ t ∷ ss) = s ++ sep ++ join_with sep (t ∷ ss)

-- The separator that `dir` still needs.
abbrev pub separator : Text → Text
separator [] = []
separator (c ∷ []) = if c == b'/' then [] else b'/' ∷ []
separator (c ∷ d ∷ dir) = separator (d ∷ dir)

-- `Path::join` with a relative name.
abbrev pub join : Text → Text → Text
join dir name = dir ++ separator dir ++ name
