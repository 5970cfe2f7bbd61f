-- ===== src/Scale/Match/Meaning.antt =====
-- What it means that labels match filters.
use cattle.Prelude.{
  ◌≡◌, refl, ap, ◌∙◌, ◌↔◌, Bool, true, false, List, [], ◌∷◌, Option, none, some, Text, All, arith,
}
use cattle.Cluster.Data.{Labels, lookup}
use cattle.Scale.Match.{Operator, equal, not_equal, unset, Filter, match_at, match_labels}

module _ (match_string : Text → Text → Option Bool) where
  -- `key==pattern` wants the label, and that the pattern matches it. `key!=pattern` wants that the
  -- pattern compiles and does not match the label, or the empty text where there is none.
  abbrev pub Holds : Operator → Text → Option Text → Type 0
  Holds equal pattern label = (v : Text) × (label ≡ some v) × (match_string pattern v ≡ some true)
  Holds not_equal pattern none = match_string pattern [] ≡ some false
  Holds not_equal pattern (some v) = match_string pattern v ≡ some false
  Holds unset pattern none = (b : Bool) × (match_string pattern [] ≡ some b)
  Holds unset pattern (some v) = (b : Bool) × (match_string pattern v ≡ some b)

  match_at_iff :
      (o : Operator) (pattern : Text) (label : Option Text) (rest : Bool)
      → (match_at match_string o pattern label rest ≡ true)
        ↔ (Holds o pattern label × (rest ≡ true))
  unfolding match_at
  match_at_iff equal p none rest = (λ h. cc, λ h. cc h.0.1)
  match_at_iff equal p (some v) rest = (
    λ h. ground arith,
    λ h.
        let e : v ≡ h.0.0 = cc h.0.1 in
        let matches : match_string p v ≡ some true = ap (match_string p) e ∙ h.0.2 in
        ground (arith, matches),
  )
  match_at_iff not_equal p none rest = (λ h. ground arith, λ h. ground arith)
  match_at_iff not_equal p (some v) rest = (λ h. ground arith, λ h. ground arith)
  match_at_iff unset p none rest = (λ h. ground arith, λ h. ground arith)
  match_at_iff unset p (some v) rest = (λ h. ground arith, λ h. ground arith)

  abbrev pub AllHold : List Filter → Labels → Type 0
  AllHold filters labels = All (λ f. Holds f.operator f.pattern (lookup f.key labels)) filters

  -- matchLabels is true exactly when every filter holds: `==` wants the label and a pattern
  -- that matches it, `!=` wants a pattern that compiles and does not match the label, or the
  -- empty text where the label is missing, and a filter without an operator wants a pattern
  -- that compiles.
  pub match_labels_iff :
      (filters : List Filter) (labels : Labels)
      → (match_labels match_string filters labels ≡ true) ↔ AllHold filters labels
  unfolding match_labels
  match_labels_iff [] labels = (λ h. tt, λ h. refl)
  match_labels_iff (f ∷ filters) labels =
      let here =
        match_at_iff f.operator f.pattern (lookup f.key labels)
          (match_labels match_string filters labels) in
      let later = match_labels_iff filters labels in
      (λ h. ((here.0 h).0, later.0 (here.0 h).1), λ h. here.1 (h.0, later.1 h.1))
