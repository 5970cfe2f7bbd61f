-- ===== src/Scheduler/Exprs.antt =====
-- scheduler/filter/expr.go. `regexp.Compile` is a parameter: `none` where the pattern does not compile, and
-- else the test whether a text has a match.
pub mod Parsed
use cattle.Prelude.{
  ℕ, ◌==◌, Bool, true, false, not, List, [], ◌∷◌, ◌++◌, Option, none, some, Text, text, split2,
  trim_left, replace_all, any, Outcome, ok, err, panic, ◌>>=◌, if◌then◌else◌,
}

pub data Comparison : Type 0 where
  eq not_eq : Comparison

pub record Expr : Type 0 where
  pub expr_key : Text
  pub comparison : Comparison
  pub value : Text
  pub is_soft : Bool

-- The errors of the filters, with what their messages say.
pub data FilterError : Type 0 where
  bad_regexp : FilterError
  invalid_key : Text → FilterError
  invalid_value : Text → FilterError
  no_operator : FilterError
  no_healthy_node : FilterError
  no_free_slots : FilterError
  unmet_dependencies : Text → FilterError
  port_exposed : Text → FilterError
  port_used : Text → FilterError
  unmet_affinity : Expr → FilterError
  unmet_constraint : Expr → FilterError
  unmet_whitelist : Expr → FilterError
  unmet_conditions : Text → FilterError

-- `^(?i)[a-z_][a-z0-9\-_.]+$`
abbrev pub key_pattern : Text
key_pattern = text "^(?i)[a-z_][a-z0-9\\-_.]+$"

-- `^(?i)[=!\/]?(~)?[a-z0-9:\-_\s\.\*/\(\)\?\+\[\]\\\^\$\|]+$`
abbrev pub value_pattern : Text
value_pattern = text "^(?i)[=!\\/]?(~)?[a-z0-9:\\-_\\s\\.\\*/\\(\\)\\?\\+\\[\\]\\\\\\^\\$\\|]+$"

-- isSoft, on the value as it is written.
unfoldable pub soft : Text → Outcome FilterError Bool
soft [] = panic
soft (c ∷ s) = ok (c == b'~')

module _ (compile : Text → Option (Text → Bool)) where
  -- regexp.MatchString
  unfoldable pub match_pattern : Text → Text → Outcome FilterError Bool
  match_pattern pattern s = elim (compile pattern) [ none ↦ err bad_regexp | some re ↦ ok (re s) ]

  unfoldable pub checked : FilterError → Text → Text → Outcome FilterError (Unit {0})
  unfolding match_pattern
  checked error pattern s = do
    matched ← match_pattern pattern s
    (if matched then ok tt else err error)

  -- The two parts of an entry.
  unfoldable pub parse_parts : Comparison → Text → Text → Outcome FilterError Expr
  unfolding checked soft trim_left
  parse_parts comparison key value = do
    _ ← checked (invalid_key key) key_pattern key
    _ ← checked (invalid_value value) value_pattern value
    is_soft ← soft value
    ok (record {
      expr_key = key;
      comparison = comparison;
      value = trim_left b'~' value;
      is_soft = is_soft;
    })

  -- The loop over OPERATORS.
  unfoldable pub parse_expr : Text → Outcome FilterError Expr
  unfolding parse_parts split2
  parse_expr e = elim (split2 e (text "==")) [
    | some (key, value) ↦ parse_parts eq key value
    | none ↦ elim (split2 e (text "!=")) [
      | some (key, value) ↦ parse_parts not_eq key value
      | none ↦ err no_operator
    ]
  ]

  -- parseExprs
  unfoldable pub parse_exprs : List Text → Outcome FilterError (List Expr)
  unfolding parse_expr
  parse_exprs [] = ok []
  parse_exprs (e ∷ es) = do expr ← parse_expr e; exprs ← parse_exprs es; ok (expr ∷ exprs)

-- The text without its last byte, where that is a slash.
unfoldable pub unslash : Text → Option Text
unslash [] = none
unslash (c ∷ []) = if c == b'/' then some [] else none
unslash (c ∷ d ∷ s) = elim (unslash (d ∷ s)) [ none ↦ none | some front ↦ some (c ∷ front) ]

unfoldable pub glob : Text → Text
unfolding replace_all
glob value = text "^" ++ replace_all b'*' (text ".*") value ++ text "$"

or_glob : Text → Option Text → Text
unfolding glob
or_glob value none = glob value
or_glob value (some body) = body

-- The pattern of a value. An empty value has no first byte, and of a lone slash the slice `[1:0]` is taken:
-- both panic.
unfoldable pub pattern_of : Text → Outcome FilterError Text
unfolding glob unslash or_glob
pattern_of [] = panic
pattern_of (c ∷ []) = if c == b'/' then panic else ok (glob (c ∷ []))
pattern_of (c ∷ d ∷ s) =
    ok (if c == b'/' then or_glob (c ∷ d ∷ s) (unslash (d ∷ s)) else glob (c ∷ d ∷ s))

unfoldable pub compare : Comparison → Bool → Bool
compare eq found = found
compare not_eq found = not found

module _ (compile : Text → Option (Text → Bool)) where
  unfoldable pub found_in : Text → List Text → Bool
  unfolding any
  found_in pattern whats = elim (compile pattern) [ none ↦ false | some re ↦ any re whats ]

  -- Match
  unfoldable pub expr_match : Expr → List Text → Outcome FilterError Bool
  unfolding pattern_of found_in compare
  expr_match e whats = do
    pattern ← pattern_of e.value
    ok (compare e.comparison (found_in pattern whats))
