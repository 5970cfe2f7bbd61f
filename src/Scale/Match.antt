-- ===== src/Scale/Match.antt =====
-- cluster/swarm/utils.go and filter.go: filters as key, operator and pattern, and the test of labels
-- against them. `regexp.MatchString` is a parameter: `none` where the pattern does not compile.
pub mod Parsing
pub mod Meaning
use cattle.Prelude.{
  ℕ, zero, suc, ◌+◌, ◌-◌, ◌==◌, leb, Bool, true, false, not, ◌&&◌, List, [], ◌∷◌, Option, none,
  some, Text, rune_width, length, take, drop, Outcome, ok, err, panic, ◌>>=◌, if◌then◌else◌,
}
use cattle.Cluster.Data.{Labels, lookup}

-- `Operater`: the two operators, and the empty text before one was found.
pub data Operator : Type 0 where
  equal not_equal unset : Operator

pub record Filter : Type 0 where
  pub key : Text
  pub operator : Operator
  pub pattern : Text

pub data FilterError : Type 0 where
  invalid_filter : FilterError

-- What the loop `for i = range s` of parseFilterString ends with: an operator at index `i`, the
-- index of the last character, or the panic of `s[-1]`.
pub data Scan : Type 0 where
  found : Operator → ℕ → Scan
  ended : ℕ → Scan
  fault : Scan

-- `inside` counts the bytes that still belong to the character before, `before` is the byte at
-- i - 1, and `last` is the value that `i` has kept.
scan : ℕ → Option ℕ → Text → ℕ → ℕ → Scan
scan inside before [] i last = ended last
scan (suc inside) before (c ∷ s) i last = scan inside (some c) s (i + 1) last
scan zero before (c ∷ s) i last =
    let rest = scan (rune_width c s - 1) (some c) s (i + 1) i in
    if c == b'='
    then elim before [
      | none ↦ fault
      | some p ↦ if p == b'=' then found equal i else if p == b'!' then found not_equal i else rest
    ]
    else rest

-- filter.Key = s[:i-1], filter.Pattern = s[i+1:]
filter_at : Text → Operator → ℕ → Outcome FilterError Filter
filter_at s operator i =
    if leb (length s) (i + 1)
    then err invalid_filter
    else if i == 0
    then panic
    else ok (record { key = take (i - 1) s; operator = operator; pattern = drop (i + 1) s })

-- The filter of one text, and what `filter.Operater` and `i` are after it.
scanned : Scan → Operator → Text → Outcome FilterError (Filter × Operator × ℕ)
unfolding filter_at
scanned fault operator s = panic
scanned (ended i) operator s = do f ← filter_at s operator i; ok (f, operator, i)
scanned (found op i) operator s = do f ← filter_at s op i; ok (f, op, i)

-- `i` and `operator` outlive a round of the loop over the texts.
parse_from : ℕ → Operator → List Text → Outcome FilterError (List Filter)
unfolding scan scanned
parse_from i operator [] = ok []
parse_from i operator (s ∷ texts) = do
  round ← scanned (scan 0 none s 0 i) operator s
  filters ← parse_from round.2 round.1 texts
  ok (round.0 ∷ filters)

-- parseFilterString
unfoldable pub parse_filter_string : List Text → Outcome FilterError (List Filter)
unfolding parse_from
parse_filter_string = parse_from 0 unset

module _ (match_string : Text → Text → Option Bool) where
  match_answer : Operator → Option Bool → Bool → Bool
  match_answer operator none rest = false
  match_answer equal (some matched) rest = matched && rest
  match_answer not_equal (some matched) rest = not matched && rest
  match_answer unset (some matched) rest = rest

  -- One round of the loop, once the map has been read: a missing label reads as the empty text, and
  -- a pattern that does not compile fails the match.
  match_at : Operator → Text → Option Text → Bool → Bool
  unfolding match_answer
  match_at equal pattern none rest = false
  match_at not_equal pattern none rest = match_answer not_equal (match_string pattern []) rest
  match_at unset pattern none rest = match_answer unset (match_string pattern []) rest
  match_at operator pattern (some label) rest =
      match_answer operator (match_string pattern label) rest

  -- matchLabels, and the `filterContainer` of filter.go, which is the same loop. The rest of the
  -- loop is a value here, since nothing of it can be seen where the loop ends early.
  unfoldable pub match_labels : List Filter → Labels → Bool
  unfolding match_at lookup
  match_labels [] labels = true
  match_labels (f ∷ filters) labels =
      match_at f.operator f.pattern (lookup f.key labels) (match_labels filters labels)
