-- ===== src/Scheduler/Exprs/Parsed.antt =====
-- Which expressions parse, and which of them can be matched without a panic.
use cattle.Prelude.{
  subst, Option-cases, ◌==◌, ◌≡◌, ◌≢◌, refl, sym, ap, ◌∙◌, Bool, true, false, List, [], ◌∷◌, Option,
  Text, text, split2, trim_left, Outcome, ok, err, panic, >>=-eq-ok, ok-injective, All, Bool-cases,
  inl, inr, arith, if◌then◌else◌,
}
use cattle.Scheduler.Exprs.{
  Comparison, eq, not_eq, Expr, FilterError, invalid_key, invalid_value, no_operator, key_pattern,
  value_pattern, match_pattern, checked, parse_parts, parse_expr, parse_exprs, soft, pattern_of,
  expr_match, compare, found_in, glob, or_glob, unslash,
}

-- A text that the pattern of values matches has a byte that is no `~`.
abbrev pub ValuesHaveText : (Text → Option (Text → Bool)) → Type 0
ValuesHaveText compile =
    (v : Text) → match_pattern compile value_pattern v ≡ ok true → trim_left b'~' v ≢ []

-- The values that can be matched: not empty, and not a lone slash.
abbrev pub IsUsable : Text → Type 0
IsUsable v = (v ≢ []) × (v ≢ b'/' ∷ [])

pattern_of_returns : (v : Text) → IsUsable v → (p : Text) × (pattern_of v ≡ ok p)
unfolding pattern_of
pattern_of_returns [] h = absurd (h.0 refl)
pattern_of_returns (c ∷ []) h = elim (Bool-cases (c == b'/')) [
  | inl slash ↦ let e : c ≡ b'/' = ground arith in absurd (h.1 (ap (λ d. d ∷ []) e))
  | inr other ↦ (glob (c ∷ []), rw other refl)
]
pattern_of_returns (c ∷ d ∷ s) h =
    (if c == b'/' then or_glob (c ∷ d ∷ s) (unslash (d ∷ s)) else glob (c ∷ d ∷ s), refl)

module _ (compile : Text → Option (Text → Bool)) where
  pub expr_match_returns :
      (e : Expr) (whats : List Text)
      → IsUsable e.value
      → (b : Bool) × (expr_match compile e whats ≡ ok b)
  unfolding expr_match
  expr_match_returns e whats h =
      let (p, p_ok) = pattern_of_returns e.value h in
      (compare e.comparison (found_in compile p whats), rw p_ok refl)

  pub expr_match_slash :
      (e : Expr) (whats : List Text) → e.value ≡ b'/' ∷ [] → expr_match compile e whats ≡ panic
  unfolding expr_match pattern_of
  expr_match_slash e whats h = rw h refl

passed :
    (error : FilterError) (b : Bool) (u : Unit {0})
    → ◌≡◌ {A = Outcome FilterError (Unit {0})} (if b then ok tt else err error) (ok u)
    → b ≡ true
passed error true u h = refl
passed error false u h = cc h

module _ (compile : Text → Option (Text → Bool)) where
  checked-ok :
      (error : FilterError) (pattern s : Text) (u : Unit {0})
      → checked compile error pattern s ≡ ok u
      → match_pattern compile pattern s ≡ ok true
  unfolding checked
  checked-ok error pattern s u h =
      let (b, e, h1) =
        >>=-eq-ok (match_pattern compile pattern s)
          (λ matched. (if matched then ok tt else err error)) h in
      e ∙ ap ok (passed error b u h1)

  parse_parts-value :
      (comparison : Comparison) (key v : Text) (e : Expr)
      → parse_parts compile comparison key v ≡ ok e
      → (e.value ≡ trim_left b'~' v) × (match_pattern compile value_pattern v ≡ ok true)
  unfolding parse_parts
  parse_parts-value comparison key v e h =
      let (u, _, h1) = >>=-eq-ok (checked compile (invalid_key key) key_pattern key) _ h in
      let (u', valid, h2) = >>=-eq-ok (checked compile (invalid_value v) value_pattern v) _ h1 in
      let (b, _, h3) = >>=-eq-ok (soft v) _ h2 in
      (
        sym (ap (λ (x : Expr). x.value) (ok-injective _ e h3)),
        checked-ok (invalid_value v) value_pattern v u' valid,
      )

  parse_expr-value :
      (t : Text) (e : Expr)
      → parse_expr compile t ≡ ok e
      → (v : Text) × (e.value ≡ trim_left b'~' v)
        × (match_pattern compile value_pattern v ≡ ok true)
  unfolding parse_expr
  parse_expr-value t e h = elim (Option-cases (split2 t (text "=="))) [
    | inr ((key, v), split) ↦
        let (value, valid) = parse_parts-value eq key v e (rw (split, parse_expr) at h) in
        (v, value, valid)
    | inl no_eq ↦ elim (Option-cases (split2 t (text "!="))) [
      | inr ((key, v), split) ↦
          let (value, valid) =
            parse_parts-value not_eq key v e (rw (no_eq, split, parse_expr) at h) in
          (v, value, valid)
      | inl no_not_eq ↦
          let h' : ◌≡◌ {A = Outcome FilterError Expr} (err no_operator) (ok e) =
            rw (no_eq, no_not_eq, parse_expr) at h in
          cc h'
    ]
  ]

  -- When the pattern of values only matches texts with a byte that is no `~`, every expression
  -- that parseExprs returns has a value that is not empty, so that Match finds its first byte.
  pub parse_exprs-values :
      ValuesHaveText compile
      → (texts : List Text) (exprs : List Expr) → parse_exprs compile texts ≡ ok exprs
      → All (λ (e : Expr). e.value ≢ []) exprs
  unfolding parse_exprs
  parse_exprs-values have [] exprs h =
      subst (All (λ (e : Expr). e.value ≢ [])) (ok-injective [] exprs h) tt
  parse_exprs-values have (t ∷ texts) exprs h =
      let (e, first, h1) = >>=-eq-ok (parse_expr compile t) _ h in
      let (es, rest, h2) = >>=-eq-ok (parse_exprs compile texts) _ h1 in
      let (v, value, valid) = parse_expr-value t e first in
      let here : e.value ≢ [] = λ empty. have v valid (sym value ∙ empty) in
      subst (All (λ (e : Expr). e.value ≢ [])) (ok-injective (e ∷ es) exprs h2)
        (here, parse_exprs-values have texts es rest)
