-- ===== src/Scale/Match/Parsing.antt =====
-- parseFilterString on the texts that are meant for it, and on a text that begins with `=`.
use cattle.Prelude.{
  false, ◌∙◌, ℕ, suc, ◌+◌, ◌-◌, ◌==◌, ◌<◌, ◌≡◌, ◌≢◌, refl, List, [], ◌∷◌, ◌++◌, Option, none, some,
  Text, rune_width, length, length-append, drop, take-append_length, All, ok, panic, arith, leb,
}
use cattle.Scale.Match.{
  scanned, Operator, equal, not_equal, unset, Filter, found, scan, filter_at, parse_from,
  parse_filter_string,
}

-- A byte that a key may hold: ASCII, and not part of an operator.
abbrev pub IsPlain : ℕ → Type 0
IsPlain c = (c < 128) × (c ≢ b'=') × (c ≢ b'!')

rune_width_ascii : (c : ℕ) (s : Text) → c < 128 → rune_width c s ≡ 1
unfolding rune_width
rune_width_ascii c s h = ground arith

scan_plain :
    (c : ℕ) (before : Option ℕ) (s : Text) (i last : ℕ)
    → c < 128
    → c ≢ b'='
    → scan 0 before (c ∷ s) i last ≡ scan 0 (some c) s (i + 1) i
unfolding scan
scan_plain c before s i last ascii other = rw (rune_width_ascii c s ascii) (ground arith)

-- The two bytes of an operator.
abbrev pub mark : Operator → ℕ
mark not_equal = b'!'
mark _ = b'='

scan_operator :
    (o : Operator) (p : ℕ) (v : Text) (i last : ℕ)
    → o ≢ unset
    → IsPlain p
    → scan 0 (some p) (mark o ∷ b'=' ∷ v) i last ≡ found o (i + 1)
unfolding scan rune_width
scan_operator equal p v i last h plain = ground arith
scan_operator not_equal p v i last h plain = ground arith
scan_operator unset p v i last h plain = absurd (h refl)

scan_key :
    (o : Operator) (p : ℕ) (key v : Text) (i last : ℕ)
    → o ≢ unset
    → IsPlain p
    → All IsPlain key
    → scan 0 (some p) (key ++ mark o ∷ b'=' ∷ v) i last ≡ found o (i + length key + 1)
scan_key o p [] v i last h plain all = rw (scan_operator o p v i last h plain) (ground arith)
scan_key o p (c ∷ key) v i last h plain all =
    scan_plain c (some p) (key ++ mark o ∷ b'=' ∷ v) i last all.0.0 all.0.1
    ∙ scan_key o c key v (i + 1) i h all.0 all.1
    ∙ ground arith

drop_past : (key v : Text) (a b : ℕ) → drop (length key + 2) (key ++ a ∷ b ∷ v) ≡ v
drop_past [] v a b = refl
drop_past (c ∷ key) v a b =
    let e : suc (length key) + 2 ≡ suc (length key + 2) = omega arith in rw e (drop_past key v a b)

filter_at_lem :
    (o : Operator) (c a b d : ℕ) (key v : Text)
    → filter_at (c ∷ key ++ a ∷ b ∷ d ∷ v) o (1 + length key + 1)
      ≡ ok (record { key = c ∷ key; operator = o; pattern = d ∷ v })
unfolding filter_at
filter_at_lem o c a b d key v =
    let short : leb (length (c ∷ key ++ a ∷ b ∷ d ∷ v)) (1 + length key + 1 + 1) ≡ false =
      ground (arith, length-append key (a ∷ b ∷ d ∷ v)) in
    let start : 1 + length key + 1 - 1 ≡ length (c ∷ key) = omega arith in
    let behind : 1 + length key + 1 + 1 ≡ length (c ∷ key) + 2 = omega arith in
    let late : (1 + length key + 1 == 0) ≡ false = ground arith in
    rw (short, late, start, behind)
      (rw (take-append_length (c ∷ key) (a ∷ b ∷ d ∷ v), drop_past (c ∷ key) (d ∷ v) a b))

parse_one :
    (s : Text) (o : Operator) (i : ℕ) (f : Filter)
    → scan 0 none s 0 0 ≡ found o i
    → filter_at s o i ≡ ok f
    → parse_filter_string (s ∷ []) ≡ ok (f ∷ [])
unfolding parse_filter_string
parse_one s o i f e g = rw (e, parse_from, scanned) (rw g)

-- parseFilterString of a nonempty ASCII key without `=` and `!`, one of the two operators, and
-- a nonempty pattern, written one after the other, gives the one filter with that key,
-- operator and pattern.
pub parse_filter_string_lem :
    (o : Operator) (c : ℕ) (key v : Text)
    → o ≢ unset
    → All IsPlain (c ∷ key)
    → v ≢ []
    → parse_filter_string ((c ∷ key ++ mark o ∷ b'=' ∷ v) ∷ [])
      ≡ ok (record { key = c ∷ key; operator = o; pattern = v } ∷ [])
parse_filter_string_lem o c key [] set plain some_value = absurd (some_value refl)
parse_filter_string_lem o c key (d ∷ v) set plain some_value =
    parse_one (c ∷ key ++ mark o ∷ b'=' ∷ d ∷ v) o (1 + length key + 1) _
      (scan_plain c none (key ++ mark o ∷ b'=' ∷ d ∷ v) 0 0 plain.0.0 plain.0.1
        ∙ scan_key o c key (d ∷ v) 1 0 set plain.0 plain.1)
      (filter_at_lem o c (mark o) b'=' d key v)

-- parseFilterString panics on a text that begins with `=`, whatever the text and the list go
-- on with.
pub parse_filter_string_panics :
    (s : Text) (rest : List Text) → parse_filter_string ((b'=' ∷ s) ∷ rest) ≡ panic
unfolding parse_filter_string parse_from scan
parse_filter_string_panics s rest = refl
