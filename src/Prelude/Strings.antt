-- ===== src/Prelude/Strings.antt =====
-- Go strings as lists of bytes, and the functions of `strings`, `strconv` and `unicode/utf8` that
-- the program calls.
use Prim.Native.Nat.{ℕ, zero, suc, ◌+◌, ◌-◌, ◌*◌, ◌^◌}
use Prim.Native.Char.{code}
use Prim.Native.String.{String}
use mathlib.Core.Path.{◌≡◌, refl}
use mathlib.Core.Logic.{◌↔◌, ◌≢◌, inl, inr}
use mathlib.Core.Bool.{Bool, true, false, ◌&&◌, ◌||◌}
use mathlib.Core.Option.{Option, none, some}
use mathlib.Core.List.{List, [], ◌∷◌, ◌++◌}
use native.Mathlib.Omega.{arith}
use cattle.Prelude.Tests.{ltb, leb, ◌==◌, if◌then◌else◌, Bool-cases}
use cattle.Prelude.Int.{ℤ, pos, sub_ℕ}

abbrev pub Text : Type 0
Text = List ℕ

-- The bytes of an ASCII literal.
abbrev pub text : String → Text
text String.[] = []
text (String.◌∷◌ c s) = code c ∷ text s

unfoldable pub text_eq : Text → Text → Bool
text_eq [] [] = true
text_eq [] (d ∷ t) = false
text_eq (c ∷ s) [] = false
text_eq (c ∷ s) (d ∷ t) = c == d && text_eq s t

pub text_eq→eq : (s t : Text) → text_eq s t ≡ true → s ≡ t
unfolding text_eq
text_eq→eq [] [] h = refl
text_eq→eq [] (d ∷ t) h = cc
text_eq→eq (c ∷ s) [] h = cc
text_eq→eq (c ∷ s) (d ∷ t) h = ground (arith, text_eq→eq s t)

pub text_eq_refl : (s : Text) → text_eq s s ≡ true
unfolding text_eq
text_eq_refl [] = refl
text_eq_refl (c ∷ s) = ground (arith, text_eq_refl s)

pub text_eq_iff : (s t : Text) → (text_eq s t ≡ true) ↔ (s ≡ t)
text_eq_iff s t = (text_eq→eq s t, λ e. rw e (text_eq_refl t))

pub text_eq_distinct : (s t : Text) → s ≢ t → text_eq s t ≡ false
text_eq_distinct s t h = elim (Bool-cases (text_eq s t)) [
  | inl same ↦ absurd (h (text_eq→eq s t same))
  | inr other ↦ other
]

pub text_eq_apart : (s t : Text) → text_eq s t ≡ false → s ≢ t
text_eq_apart s t h e = let same : text_eq s t ≡ true = rw e (text_eq_refl t) in cc (h, same)

-- strings.HasPrefix(s, prefix)
unfoldable pub has_prefix : Text → Text → Bool
has_prefix s [] = true
has_prefix [] (p ∷ prefix) = false
has_prefix (c ∷ s) (p ∷ prefix) = c == p && has_prefix s prefix

-- strings.Contains(s, part)
unfoldable pub contains : Text → Text → Bool
unfolding has_prefix
contains [] part = has_prefix [] part
contains (c ∷ s) part = has_prefix (c ∷ s) part || contains s part

-- strings.TrimPrefix(s, prefix), the rest after the prefix where it is one.
unfoldable pub trim_prefix : Text → Text → Option Text
trim_prefix s [] = some s
trim_prefix [] (p ∷ prefix) = none
trim_prefix (c ∷ s) (p ∷ prefix) = if c == p then trim_prefix s prefix else none

-- strings.SplitN(s, sep, 2) for a separator that is not empty: the text before the first separator
-- and the text after it, `none` where the result has one element.
unfoldable pub split2 : Text → Text → Option (Text × Text)
unfolding trim_prefix
split2 [] sep = none
split2 (c ∷ s) sep = elim (trim_prefix (c ∷ s) sep) [
  | some rest ↦ some ([], rest)
  | none ↦ elim (split2 s sep) [ none ↦ none | some (a, b) ↦ some (c ∷ a, b) ]
]

-- strings.SplitN(s, sep, 2)[0]
unfoldable pub before : Text → Text → Text
unfolding split2
before s sep = elim (split2 s sep) [ none ↦ s | some (a, b) ↦ a ]

-- strings.Replace(s, old, new, 1) for an `old` that is not empty.
unfoldable pub replace1 : Text → Text → Text → Text
unfolding split2
replace1 s old new = elim (split2 s old) [ none ↦ s | some (a, b) ↦ a ++ new ++ b ]

-- strings.TrimLeft(s, c)
unfoldable pub trim_left : ℕ → Text → Text
trim_left k [] = []
trim_left k (c ∷ s) = let rest = trim_left k s in if c == k then rest else c ∷ s

-- strings.Replace(s, c, new, -1) for one byte `c`.
unfoldable pub replace_all : ℕ → Text → Text → Text
replace_all k new [] = []
replace_all k new (c ∷ s) = (if c == k then new else c ∷ []) ++ replace_all k new s

-- strings.Split(s, c) for one byte `c`: never empty, so a head and a tail.
unfoldable pub split_all : ℕ → Text → Text × List Text
split_all k [] = ([], [])
split_all k (c ∷ s) =
    let (first, rest) = split_all k s in if c == k then ([], first ∷ rest) else (c ∷ first, rest)

is_digit : ℕ → Bool
is_digit c = leb 48 c && leb c 57

digits_value : ℕ → Text → Option ℕ
unfolding is_digit
digits_value n [] = some n
digits_value n (c ∷ s) =
    let rest = digits_value (n * 10 + (c - 48)) s in if is_digit c then rest else none

-- The digits of a number, at least one.
magnitude : Text → Option ℕ
unfolding digits_value
magnitude [] = none
magnitude (c ∷ s) = digits_value 0 (c ∷ s)

in_bounds : ℕ → Option ℕ → Option ℕ
in_bounds limit none = none
in_bounds limit (some n) = if leb n limit then some n else none

-- strconv.Atoi: an optional sign and decimal digits, in the range of `int`.
unfoldable pub atoi : Text → Option ℤ
unfolding magnitude in_bounds
atoi [] = none
atoi (c ∷ s) =
    if c == b'-'
    then elim (in_bounds (2 ^ 63) (magnitude s)) [ none ↦ none | some n ↦ some (sub_ℕ 0 n) ]
    else elim (in_bounds (2 ^ 63 - 1) (magnitude (if c == b'+' then s else c ∷ s))) [
      | none ↦ none
      | some n ↦ some (pos n)
    ]

clamp_at : ℕ → Option ℕ → ℕ
clamp_at limit none = 0
clamp_at limit (some n) = if leb n limit then n else limit

-- The value that strconv.Atoi returns also beside an error: 0 for bad syntax, and the nearest `int`
-- for a number out of range.
unfoldable pub atoi_value : Text → ℤ
unfolding magnitude clamp_at
atoi_value [] = pos 0
atoi_value (c ∷ s) =
    if c == b'-'
    then sub_ℕ 0 (clamp_at (2 ^ 63) (magnitude s))
    else pos (clamp_at (2 ^ 63 - 1) (magnitude (if c == b'+' then s else c ∷ s)))

-- A byte between two bounds.
abbrev between : ℕ → ℕ → ℕ → Bool
between lo hi c = leb lo c && leb c hi

second_in : ℕ → ℕ → Text → Bool
second_in lo hi [] = false
second_in lo hi (c ∷ s) = between lo hi c

conts : ℕ → Text → Bool
conts zero s = true
conts (suc n) [] = false
conts (suc n) (c ∷ s) = between 0x80 0xBF c && conts n s

-- The number of bytes that one round of `for i, c := range s` advances by: the width of the
-- character that starts here, or 1 where the bytes are not valid UTF-8.
unfoldable pub rune_width : ℕ → Text → ℕ
unfolding conts second_in
rune_width c s =
    if ltb c 0xC2
    then 1
    else if ltb c 0xE0
    then (if conts 1 s then 2 else 1)
    else if ltb c 0xF0
    then (if conts 2 s
          && (if c == 0xE0
              then second_in 0xA0 0xBF s
              else if c == 0xED
              then second_in 0x80 0x9F s
              else true)
        then 3
        else 1)
    else if ltb c 0xF5
    then (if conts 3 s
          && (if c == 0xF0
              then second_in 0x90 0xBF s
              else if c == 0xF4
              then second_in 0x80 0x8F s
              else true)
        then 4
        else 1)
    else 1

atoi_examples :
    (atoi (text "-12") ≡ some (sub_ℕ 0 12))
    × (atoi (text "+7") ≡ some (pos 7))
    × (atoi (text "7x") ≡ none)
    × (atoi (text "9223372036854775808") ≡ none)
unfolding atoi
atoi_examples = (refl, refl, refl, refl)

split2_example : split2 (text "constraint:a==b") (text ":") ≡ some (text "constraint", text "a==b")
unfolding split2
split2_example = refl

-- strings.Join
unfoldable pub join : Text → List Text → Text
join sep [] = []
join sep (s ∷ []) = s
join sep (s ∷ t ∷ ts) = s ++ sep ++ join sep (t ∷ ts)
