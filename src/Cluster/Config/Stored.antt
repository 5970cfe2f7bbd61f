-- ===== src/Cluster/Config/Stored.antt =====
-- Expressions that are put in the labels of a configuration are found there again.
use cattle.Prelude.{
  ◌≡◌, ◌≢◌, refl, ap, ◌∙◌, not, List, [], ◌∷◌, ◌++◌, some, Text, text_eq, text_eq_distinct,
  text_eq_refl, text_eq→eq, keep, Bool-cases, inl, inr, if◌then◌else◌,
}
use cattle.Cluster.Data.{ContainerConfig, lookup, insert}
use cattle.Cluster.Config.{
  Json, swarm_label, set_label, exprs_of, extract_exprs, store_exprs, add_expr, remove_expr,
}

-- What `Marshal` writes, `Unmarshal` reads.
abbrev pub ReadsBack : Json → Type 0
ReadsBack json = (exprs : List Text) → json.unmarshal (json.marshal exprs) ≡ exprs

module _ {ℓ} {V : Type ℓ} where
  pub lookup-insert :
      (key : Text) (v : V) (m : List (Text × V)) → lookup key (insert key v m) ≡ some v
  unfolding lookup insert
  lookup-insert key v [] = rw (text_eq_refl key)
  lookup-insert key v ((k, u) ∷ m) = elim (Bool-cases (text_eq k key)) [
    | inl same ↦ rw same (rw (text_eq_refl key))
    | inr other ↦ rw other (rw other (lookup-insert key v m))
  ]

  pub lookup-insert_other :
      (key other : Text) (v : V) (m : List (Text × V))
      → key ≢ other
      → lookup other (insert key v m) ≡ lookup other m
  unfolding lookup insert
  lookup-insert_other key other v [] h = rw (text_eq_distinct key other h)
  lookup-insert_other key other v ((k, u) ∷ m) h = elim (Bool-cases (text_eq k key)) [
    | inl same ↦
        let e : k ≡ key = text_eq→eq k key same in
        rw same (rw (text_eq_distinct key other h, e) (rw (text_eq_distinct key other h) refl))
    | inr differs ↦
        rw differs
          (ap (λ r. if text_eq k other then some u else r) (lookup-insert_other key other v m h))
  ]

module _ (json : Json) (reads : ReadsBack json) where
  pub extract-store :
      (key : Text) (exprs : List Text) (c : ContainerConfig)
      → extract_exprs json key (store_exprs json key exprs c) ≡ exprs
  unfolding extract_exprs exprs_of store_exprs set_label
  extract-store key exprs c =
      rw (lookup-insert (swarm_label key) (json.marshal exprs) c.config_labels) (reads exprs)

  pub extract-store_other :
      (key other : Text) (exprs : List Text) (c : ContainerConfig)
      → swarm_label key ≢ swarm_label other
      → extract_exprs json other (store_exprs json key exprs c) ≡ extract_exprs json other c
  unfolding extract_exprs store_exprs set_label
  extract-store_other key other exprs c h = ap (exprs_of json) (
      lookup-insert_other (swarm_label key) (swarm_label other) (json.marshal exprs) c.config_labels
        h)

-- The expression that was put last goes, with all that are equal to it.
keep-added :
    (e : Text) (exprs : List Text)
    → keep (λ a. not (text_eq a e)) (exprs ++ e ∷ []) ≡ keep (λ a. not (text_eq a e)) exprs
unfolding keep
keep-added e [] = rw (text_eq_refl e) refl
keep-added e (a ∷ exprs) = ap (λ l. if not (text_eq a e) then a ∷ l else l) (keep-added e exprs)

-- With a JSON codec that reads back what it writes, an expression that is added is read back
-- last, behind those that were there, and removing it then leaves those that differ from it,
-- in their order.
pub add-remove_expr :
    (json : Json)
    → ReadsBack json
    → (key e : Text) (c : ContainerConfig)
    → (extract_exprs json key (add_expr json key e c) ≡ extract_exprs json key c ++ e ∷ [])
      × (extract_exprs json key (remove_expr json key e (add_expr json key e c))
          ≡ keep (λ a. not (text_eq a e)) (extract_exprs json key c))
unfolding add_expr remove_expr
add-remove_expr json reads key e c =
    let added = extract-store json reads key (extract_exprs json key c ++ e ∷ []) c in
    let removed =
      extract-store json reads key
        (keep (λ a. not (text_eq a e)) (extract_exprs json key (add_expr json key e c)))
        (add_expr json key e c) in
    (
      added,
      removed ∙ ap (keep (λ a. not (text_eq a e))) added ∙ keep-added e (extract_exprs json key c),
    )
