-- ===== src/Cli/Sanitized.antt =====
-- Text of other programs in the table of `list`: `sanitize_for_display` and `truncate` of
-- crates/app-powerd/src/main.rs.
use app_powerd.Prelude.{
  ℕ, zero, suc, ◌-◌, ◌≡◌, ◌≤◌, refl, [], ◌∷◌, ◌++◌, Bool, true, not, Text, codes, length, take, all,
  leb, length-append, Bool-cases, inl, inr, arith,
}
use app_powerd.Cli.Display.{is_control, sanitize_char, sanitize_for_display, truncate}

abbrev pub is_printable : ℕ → Bool
is_printable c = not (is_control c)

sanitize_char-printable : (c : ℕ) → is_printable (sanitize_char c) ≡ true
sanitize_char-printable c = ground arith

length-sanitize : (s : Text) → length (sanitize_for_display s) ≡ length s
unfolding sanitize_for_display
length-sanitize [] = refl
length-sanitize (c ∷ s) = omega (arith, length-sanitize s)

sanitize-printable : (s : Text) → all is_printable (sanitize_for_display s) ≡ true
unfolding sanitize_for_display all
sanitize-printable [] = refl
sanitize-printable (c ∷ s) = rw (sanitize_char-printable c) (sanitize-printable s)

length-take_le : (n : ℕ) (s : Text) → length (take n s) ≤ n
unfolding take
length-take_le zero s = omega arith
length-take_le (suc n) [] = omega arith
length-take_le (suc n) (c ∷ s) = omega (arith, length-take_le n s)

all-take : (p : ℕ → Bool) (n : ℕ) (s : Text) → all p s ≡ true → all p (take n s) ≡ true
unfolding take all
all-take p zero s h = refl
all-take p (suc n) [] h = refl
all-take p (suc n) (c ∷ s) h = ground (arith, h, all-take p n s)

all-append : (p : ℕ → Bool) (s u : Text) → all p s ≡ true → all p u ≡ true → all p (s ++ u) ≡ true
unfolding all
all-append p [] u h k = k
all-append p (c ∷ s) u h k = ground (arith, h, k, all-append p s u)

-- A cell of the table holds no more characters than it is wide, and no control character, whatever
-- the text; and a text that fits comes out with as many characters as it has. This is for a width
-- of at least three.
pub truncate-sanitize :
    (s : Text) (width : ℕ)
    → 3 ≤ width
    → (length (truncate (sanitize_for_display s) width) ≤ width)
      × ((all is_printable (truncate (sanitize_for_display s) width) ≡ true)
          × (length s ≤ width → length (truncate (sanitize_for_display s) width) ≡ length s))
unfolding truncate all
truncate-sanitize s width h =
    let clean = sanitize_for_display s in
    let same = length-sanitize s in
    let dots = codes "..." in
    elim (Bool-cases (leb (length clean) width)) [
      | inl fits ↦ rw fits (ground (arith, fits), (sanitize-printable s, λ _. same))
      | inr long ↦ rw long (
        omega (
          arith,
          h,
          length-append (take (width - 3) clean) dots,
          length-take_le (width - 3) clean,
        ),
        (
          all-append is_printable (take (width - 3) clean) dots
              (all-take is_printable (width - 3) clean (sanitize-printable s)) refl,
          λ k. ground (arith, long, k, same),
        ),
      )
    ]
