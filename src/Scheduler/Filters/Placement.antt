-- ===== src/Scheduler/Filters/Placement.antt =====
-- scheduler/filter/affinity.go, constraint.go and whitelist.go: the filters that match expressions.
use cattle.Prelude.{
  Bool, true, false, not, ◌&&◌, List, [], ◌∷◌, ◌++◌, none, some, Text, text, text_eq, any,
  split_all, trim_prefix, map, keep, Outcome, ok, ◌>>=◌, if◌then◌else◌,
}
use cattle.Cluster.Data.{ContainerConfig, Container, label_or_empty}
use cattle.Cluster.Config.{extract_exprs}
use cattle.Cluster.Images.{Image, parse_repository_tag}
use cattle.Scheduler.Exprs.{
  Comparison, eq, not_eq, Expr, FilterError, unmet_affinity, unmet_constraint, unmet_whitelist,
  parse_exprs, expr_match,
}
use cattle.Scheduler.Narrow.{narrow_all}
use cattle.Scheduler.Node.{Node}
use cattle.Scheduler.Filters.Base.{Services, NodeFilter}

-- `!soft && expr.isSoft` is passed over.
unfoldable pub counts : Bool → Expr → Bool
counts soft e = not (not soft && e.is_soft)

without_slash : Text → Text
unfolding trim_prefix
without_slash name = elim (trim_prefix name (text "/")) [ none ↦ name | some rest ↦ rest ]

unfoldable pub container_texts : List Container → List Text
unfolding without_slash
container_texts [] = []
container_texts (c ∷ cs) = elim c.names [
  | [] ↦ container_texts cs
  | name ∷ _ ↦ c.ident ∷ without_slash name ∷ container_texts cs
]

unfoldable pub image_texts : List Image → List Text
unfolding parse_repository_tag
image_texts [] = []
image_texts (i ∷ is) =
    (i.image_id ∷ i.repo_tags ++ map (λ tag. (parse_repository_tag tag).0) i.repo_tags)
    ++ image_texts is

-- What an affinity is matched against.
unfoldable pub affinity_texts : Text → Node → List Text
unfolding text_eq container_texts image_texts label_or_empty
affinity_texts key n =
    if text_eq key (text "container")
    then container_texts n.node_containers
    else if text_eq key (text "image")
    then image_texts n.node_images
    else map (λ (c : Container). label_or_empty key c.labels) n.node_containers

unfoldable pub constraint_texts : Text → Node → List Text
unfolding text_eq label_or_empty
constraint_texts key n =
    if text_eq key (text "node")
    then n.node_id ∷ n.node_name ∷ []
    else label_or_empty key n.node_labels ∷ []

-- strings.Split(whitelist.value, "|")
white_nodes : Text → List Text
unfolding split_all
white_nodes value = let (first, rest) = split_all b'|' value in first ∷ rest

operator_text : Comparison → Text
operator_text eq = text "=="
operator_text not_eq = text "!="

soft_text : Bool → Text
soft_text true = text " (soft=true)"
soft_text false = text " (soft=false)"

unfoldable pub plain_text : Expr → Text
unfolding operator_text
plain_text e = e.expr_key ++ operator_text e.comparison ++ e.value

unfoldable pub with_soft : Expr → Text
unfolding plain_text soft_text
with_soft e = plain_text e ++ soft_text e.is_soft

module _ (services : Services) where
  open services use {compile, json}

  -- The expressions of a configuration, under one of its keys.
  unfoldable pub exprs_under : Text → ContainerConfig → Outcome FilterError (List Expr)
  unfolding parse_exprs extract_exprs
  exprs_under key config = parse_exprs compile (extract_exprs json key config)

  -- The loop over the expressions that count.
  unfoldable pub filter_exprs :
      Text
      → (Expr → FilterError)
      → (Expr → Node → Outcome FilterError Bool)
      → ContainerConfig
      → List Node
      → Bool
      → Outcome FilterError (List Node)
  unfolding exprs_under narrow_all counts keep
  filter_exprs key unmet test config nodes soft = do
    exprs ← exprs_under key config
    narrow_all unmet test (keep (counts soft) exprs) nodes

  unfoldable pub list_exprs :
      Text → (Expr → Text) → ContainerConfig → Outcome FilterError (List Text)
  unfolding exprs_under
  list_exprs key show config = do exprs ← exprs_under key config; ok (map show exprs)

  unfoldable pub affinity_test : Expr → Node → Outcome FilterError Bool
  unfolding expr_match affinity_texts
  affinity_test e n = expr_match compile e (affinity_texts e.expr_key n)

  unfoldable pub constraint_test : Expr → Node → Outcome FilterError Bool
  unfolding expr_match constraint_texts
  constraint_test e n = expr_match compile e (constraint_texts e.expr_key n)

  -- Every key stands for the name of the node, and `!=` for `==`.
  unfoldable pub whitelist_test : Expr → Node → Outcome FilterError Bool
  unfolding white_nodes any text_eq
  whitelist_test e n = ok (any (text_eq n.node_name) (white_nodes e.value))

  abbrev pub affinity_filter : NodeFilter
  affinity_filter = record {
    filter_name = text "affinity";
    filter = filter_exprs (text "affinities") unmet_affinity affinity_test;
    get_filters = list_exprs (text "affinities") with_soft;
  }

  abbrev pub constraint_filter : NodeFilter
  constraint_filter = record {
    filter_name = text "constraint";
    filter = filter_exprs (text "constraints") unmet_constraint constraint_test;
    get_filters = list_exprs (text "constraints") plain_text;
  }

  abbrev pub whitelist_filter : NodeFilter
  whitelist_filter = record {
    filter_name = text "whitelist";
    filter = filter_exprs (text "whitelists") unmet_whitelist whitelist_test;
    get_filters = list_exprs (text "whitelists") with_soft;
  }
