-- ===== src/Scheduler/Filters/Matching.antt =====
-- Expressions that can be matched, and the lone slash that cannot.
use cattle.Prelude.{◌≡◌, refl, Bool, true, List, [], ◌∷◌, Text, text, keep, All, Outcome, ok, panic}
use cattle.Cluster.Data.{ContainerConfig}
use cattle.Scheduler.Exprs.{Expr, FilterError}
use cattle.Scheduler.Exprs.Parsed.{IsUsable, expr_match_returns, expr_match_slash}
use cattle.Scheduler.Node.{Node}
use cattle.Scheduler.Narrow.{narrow_all, narrow, keep_where}
use cattle.Scheduler.Narrow.Kept.{Returns}
use cattle.Scheduler.Filters.Base.{Services}
use cattle.Scheduler.Filters.Placement.{
  counts, exprs_under, filter_exprs, affinity_test, constraint_test, whitelist_test, affinity_texts,
  constraint_texts, constraint_filter,
}
use cattle.Scheduler.Filters.Standard.{MatchableConfig}

module _ (services : Services) where
  affinity_test-Returns :
      (e : Expr) → IsUsable e.value → (n : Node) → Returns (affinity_test services e n)
  unfolding affinity_test
  affinity_test-Returns e h n =
      expr_match_returns services.compile e (affinity_texts e.expr_key n) h

  constraint_test-Returns :
      (e : Expr) → IsUsable e.value → (n : Node) → Returns (constraint_test services e n)
  unfolding constraint_test
  constraint_test-Returns e h n =
      expr_match_returns services.compile e (constraint_texts e.expr_key n) h

  all-Returns :
      (test : Expr → Node → Outcome FilterError Bool)
      → ((e : Expr) → IsUsable e.value → (n : Node) → Returns (test e n))
      → (exprs : List Expr) → All (λ (e : Expr). IsUsable e.value) exprs
      → All (λ e. (n : Node) → Returns (test e n)) exprs
  all-Returns test returns [] h = tt
  all-Returns test returns (e ∷ es) h = (returns e h.0, all-Returns test returns es h.1)

  all_whitelists_return :
      (exprs : List Expr) → All (λ e. (n : Node) → Returns (whitelist_test services e n)) exprs
  unfolding whitelist_test
  all_whitelists_return [] = tt
  all_whitelists_return (e ∷ es) = ((λ n. (_, refl)), all_whitelists_return es)

  -- Parsed expressions with values that can be matched.
  pub record UsableExprs (key : Text) (config : ContainerConfig) : Type 0 where
    pub exprs : List Expr
    pub parsed : exprs_under services key config ≡ ok exprs
    pub usable : All (λ (e : Expr). IsUsable e.value) exprs

  pub usable-MatchableConfig :
      (config : ContainerConfig) (whitelists : List Expr)
      → UsableExprs (text "affinities") config
      → UsableExprs (text "constraints") config
      → exprs_under services (text "whitelists") config ≡ ok whitelists
      → MatchableConfig services config
  usable-MatchableConfig config whitelists a c parsed = (
    record {
      exprs = a.exprs;
      parsed = a.parsed;
      returning = all-Returns (affinity_test services) affinity_test-Returns a.exprs a.usable;
    },
    record {
      exprs = c.exprs;
      parsed = c.parsed;
      returning = all-Returns (constraint_test services) constraint_test-Returns c.exprs c.usable;
    },
    record { exprs = whitelists; parsed = parsed; returning = all_whitelists_return whitelists },
  )

  -- When the first constraint counts and has the value `/`, the constraint filter panics on
  -- every list of nodes that is not empty.
  pub constraint_slash_panics :
      (config : ContainerConfig) (e : Expr) (es : List Expr) (n : Node) (ns : List Node)
      (soft : Bool)
      → exprs_under services (text "constraints") config ≡ ok (e ∷ es)
      → counts soft e ≡ true
      → e.value ≡ b'/' ∷ []
      → (constraint_filter services).filter config (n ∷ ns) soft ≡ panic
  unfolding filter_exprs keep narrow_all narrow keep_where constraint_test
  constraint_slash_panics config e es n ns soft parsed counted slash = rw parsed (
      rw counted
        (rw (expr_match_slash services.compile e (constraint_texts e.expr_key n) slash) refl))
