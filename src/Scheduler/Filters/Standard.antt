-- ===== src/Scheduler/Filters/Standard.antt =====
-- The filters that match expressions keep exactly the nodes that they accept, and so does the batch of all seven.
use cattle.Scheduler.Filters.Returning.{ResultOrError, apply_filters_returns}
use cattle.Prelude.{
  map, keep-Within, All-Within, ◌≡◌, ◌≢◌, refl, sym, ap, ◌∙◌, Bool, true, false, ◌&&◌, List, [],
  Text, text, Outcome, ok, err, panic, keep, All, >>=-eq-ok,
}
use cattle.Cluster.Data.{ContainerConfig}
use cattle.Scheduler.Exprs.{Expr, FilterError, unmet_affinity, unmet_constraint, unmet_whitelist}
use cattle.Scheduler.Node.{Node, is_healthy}
use cattle.Scheduler.Narrow.{narrow_all}
use cattle.Scheduler.Narrow.Kept.{
  narrow_all-Returns, keep_same, Returns, passes_all, narrow_all-eq, narrow_all-some,
}
use cattle.Scheduler.Filters.Base.{Services, NodeFilter}
use cattle.Scheduler.Filters.Simple.{has_slot, has_dependencies}
use cattle.Scheduler.Filters.Placement.{
  with_soft, plain_text, list_exprs, counts, exprs_under, filter_exprs, affinity_test,
  constraint_test, whitelist_test, affinity_filter, constraint_filter, whitelist_filter,
}
use cattle.Scheduler.Filters.Batch.{all_filters, apply_filters}
use cattle.Scheduler.Filters.Laws.{
  Keeps, AllKeep, all_accept, AllUsable, apply_filters-exact, apply_filters_complete,
}
use cattle.Scheduler.Filters.Lawful.{
  accepts_ports, health_laws, slots_laws, dependency_laws, port_laws,
}

module _ (services : Services) (key : Text) (unmet : Expr → FilterError)
    (test : Expr → Node → Outcome FilterError Bool) where
  abbrev pub passes_exprs : Outcome FilterError (List Expr) → Bool → Node → Bool
  passes_exprs (ok exprs) soft = passes_all test (keep (counts soft) exprs)
  passes_exprs (err e) soft = λ n. false
  passes_exprs panic soft = λ n. false

  -- The expressions parse, and matching them does not panic.
  pub record Matchable (config : ContainerConfig) : Type 0 where
    pub exprs : List Expr
    pub parsed : exprs_under services key config ≡ ok exprs
    pub returning : All (λ e. (n : Node) → Returns (test e n)) exprs

  pub filter_exprs-exact :
      (config : ContainerConfig) (nodes result : List Node) (soft : Bool)
      → filter_exprs services key unmet test config nodes soft ≡ ok result
      → result ≡ keep (passes_exprs (exprs_under services key config) soft) nodes
  unfolding filter_exprs
  filter_exprs-exact config nodes result soft h =
      let (exprs, e, h1) =
        >>=-eq-ok (exprs_under services key config)
          (λ exprs. narrow_all unmet test (keep (counts soft) exprs) nodes) h in
      rw e (narrow_all-eq unmet test (keep (counts soft) exprs) nodes result h1)

  pub filter_exprs_complete :
      (config : ContainerConfig) (nodes : List Node) (soft : Bool)
      → Matchable config
      → keep (passes_exprs (exprs_under services key config) soft) nodes ≢ []
      → filter_exprs services key unmet test config nodes soft
        ≡ ok (keep (passes_exprs (exprs_under services key config) soft) nodes)
  unfolding filter_exprs
  filter_exprs_complete config nodes soft m h = rw m.parsed (
      narrow_all-some unmet test (keep (counts soft) m.exprs)
        (All-Within (λ e. (n : Node) → Returns (test e n)) (keep-Within (counts soft) m.exprs)
          m.returning)
        nodes (rw m.parsed at h))

  pub filter_exprs_returns :
      (config : ContainerConfig) (nodes : List Node) (soft : Bool)
      → Matchable config
      → filter_exprs services key unmet test config nodes soft ≢ panic
  unfolding filter_exprs
  filter_exprs_returns config nodes soft m h =
      narrow_all-Returns unmet test (keep (counts soft) m.exprs)
        (All-Within (λ e. (n : Node) → Returns (test e n)) (keep-Within (counts soft) m.exprs)
          m.returning)
        nodes (rw m.parsed at h)

  pub list_exprs_returns :
      (show : Expr → Text) (config : ContainerConfig)
      → Matchable config
      → list_exprs services key show config ≢ panic
  unfolding list_exprs
  list_exprs_returns show config m h =
      let h' : ◌≡◌ {A = Outcome FilterError (List Text)} (ok (map show m.exprs)) panic =
        rw m.parsed at h in
      cc h'

  -- The laws of the filter that is made of the loop and of the listing.
  unfoldable pub exprs_laws :
      (f : NodeFilter) (show : Expr → Text)
      → f.filter ≡ filter_exprs services key unmet test
      → f.get_filters ≡ list_exprs services key show
      → Keeps f
  exprs_laws f show same same_list = record {
    accepts = λ config. passes_exprs (exprs_under services key config);
    Usable = Matchable;
    exact = λ config nodes result soft h.
        filter_exprs-exact config nodes result soft (sym (ap (λ g. g config nodes soft) same) ∙ h);
    complete = λ config nodes soft m h.
        ap (λ g. g config nodes soft) same ∙ filter_exprs_complete config nodes soft m h;
    returns = λ config nodes soft m h.
        filter_exprs_returns config nodes soft m (sym (ap (λ g. g config nodes soft) same) ∙ h);
    lists = λ config m h. list_exprs_returns show config m (sym (ap (λ g. g config) same_list) ∙ h);
  }

-- The laws of the filters in the order of the table.
unfoldable pub standard_laws : (services : Services) → AllKeep (all_filters services)
unfolding all_filters
standard_laws services = (
  health_laws,
  (
    port_laws services,
    (
      slots_laws,
      (
        dependency_laws services,
        (
          exprs_laws services (text "affinities") unmet_affinity (affinity_test services)
              (affinity_filter services) with_soft refl refl,
          (
            exprs_laws services (text "constraints") unmet_constraint (constraint_test services)
                (constraint_filter services) plain_text refl refl,
            (
              exprs_laws services (text "whitelists") unmet_whitelist (whitelist_test services)
                  (whitelist_filter services) with_soft refl refl,
              tt,
            ),
          ),
        ),
      ),
    ),
  ),
)

-- What the seven filters ask of a node together.
unfoldable pub accepts_node : Services → ContainerConfig → Bool → Node → Bool
accepts_node services config soft n =
    is_healthy n
    && (accepts_ports services config n
        && (has_slot n
            && (has_dependencies services config n
                && (passes_exprs services (text "affinities") unmet_affinity
                      (affinity_test services) (exprs_under services (text "affinities") config)
                      soft n
                    && (passes_exprs services (text "constraints") unmet_constraint
                          (constraint_test services)
                          (exprs_under services (text "constraints") config) soft n
                        && (passes_exprs services (text "whitelists") unmet_whitelist
                            (whitelist_test services)
                            (exprs_under services (text "whitelists") config) soft n))))))

and_true : (b : Bool) → (b && true) ≡ b
and_true true = refl
and_true false = refl

all_accept-standard :
    (services : Services) (config : ContainerConfig) (soft : Bool) (n : Node)
    → all_accept (all_filters services) (standard_laws services) config soft n
      ≡ accepts_node services config soft n
unfolding accepts_node all_filters standard_laws health_laws slots_laws dependency_laws port_laws
    exprs_laws
all_accept-standard services config soft n =
    rw
      (and_true (
        passes_exprs services (text "whitelists") unmet_whitelist (whitelist_test services)
          (exprs_under services (text "whitelists") config) soft n))
      refl

-- A configuration whose expressions parse and can be matched.
abbrev pub MatchableConfig : Services → ContainerConfig → Type 0
MatchableConfig services config =
    Matchable services (text "affinities") unmet_affinity (affinity_test services) config
    × Matchable services (text "constraints") unmet_constraint (constraint_test services) config
    × Matchable services (text "whitelists") unmet_whitelist (whitelist_test services) config

standard_usable :
    (services : Services) (config : ContainerConfig)
    → MatchableConfig services config
    → AllUsable (all_filters services) (standard_laws services) config
unfolding all_filters standard_laws health_laws slots_laws dependency_laws port_laws exprs_laws
standard_usable services config (a, c, w) = (tt, (tt, (tt, (tt, (a, (c, (w, tt)))))))

keep-standard :
    (services : Services) (config : ContainerConfig) (soft : Bool) (nodes : List Node)
    → keep (all_accept (all_filters services) (standard_laws services) config soft) nodes
      ≡ keep (accepts_node services config soft) nodes
keep-standard services config soft nodes =
    keep_same (all_accept (all_filters services) (standard_laws services) config soft)
      (accepts_node services config soft) (all_accept-standard services config soft) nodes

-- When ApplyFilters of the seven filters returns nodes, they are exactly those of the given
-- nodes that are healthy, have the ports, a slot, the dependencies, and meet the affinities,
-- constraints and whitelists that count, in the given order.
pub apply_filters_accepted :
    (services : Services) (config : ContainerConfig) (nodes result : List Node) (soft : Bool)
    → apply_filters (all_filters services) config nodes soft ≡ ok result
    → result ≡ keep (accepts_node services config soft) nodes
apply_filters_accepted services config nodes result soft h =
    apply_filters-exact (all_filters services) (standard_laws services) config soft nodes result h
    ∙ keep-standard services config soft nodes

-- When the expressions parse and can be matched, and some node passes all seven tests
-- together, ApplyFilters of the seven filters returns the nodes that do.
pub apply_filters_some :
    (services : Services) (config : ContainerConfig) (nodes : List Node) (soft : Bool)
    → MatchableConfig services config
    → keep (accepts_node services config soft) nodes ≢ []
    → apply_filters (all_filters services) config nodes soft
      ≡ ok (keep (accepts_node services config soft) nodes)
apply_filters_some services config nodes soft m some_node =
    let same = keep-standard services config soft nodes in
    apply_filters_complete (all_filters services) (standard_laws services) config soft nodes
      (standard_usable services config m) (λ e. some_node (sym same ∙ e))
    ∙ ap ok same

pub apply_standard_returns :
    (services : Services) (config : ContainerConfig) (nodes : List Node) (soft : Bool)
    → MatchableConfig services config
    → ResultOrError (apply_filters (all_filters services) config nodes soft)
apply_standard_returns services config nodes soft m =
    apply_filters_returns (all_filters services) (standard_laws services) config soft nodes
      (standard_usable services config m)
