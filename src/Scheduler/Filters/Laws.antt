-- ===== src/Scheduler/Filters/Laws.antt =====
-- What a filter promises: it keeps exactly the nodes that it accepts. A batch of such filters keeps the
-- nodes that all of them accept.
use cattle.Prelude.{
  ◌≡◌, ◌≢◌, refl, sym, ap, ◌∙◌, Bool, true, ◌&&◌, List, [], ◌∷◌, Outcome, ok, err, panic,
  ok-injective, keep, Text, text, text_eq, Bool-cases, inl, inr, ◌>>=◌,
}
use cattle.Cluster.Data.{ContainerConfig}
use cattle.Scheduler.Exprs.{FilterError, unmet_conditions}
use cattle.Scheduler.Node.{Node}
use cattle.Scheduler.Narrow.Kept.{keep-keep, keep_all, keep_nil}
use cattle.Scheduler.Filters.Base.{NodeFilter}
use cattle.Scheduler.Filters.Batch.{apply_filters, apply_rest, batch_error, list_all_filters}

-- `Usable` says for which configurations the filter returns.
pub record Keeps (f : NodeFilter) : Type 1 where
  pub accepts : ContainerConfig → Bool → Node → Bool
  pub Usable : ContainerConfig → Type 0
  pub exact :
      (config : ContainerConfig) (nodes result : List Node) (soft : Bool)
      → f.filter config nodes soft ≡ ok result
      → result ≡ keep (accepts config soft) nodes
  pub complete :
      (config : ContainerConfig) (nodes : List Node) (soft : Bool)
      → Usable config
      → keep (accepts config soft) nodes ≢ []
      → f.filter config nodes soft ≡ ok (keep (accepts config soft) nodes)
  pub returns :
      (config : ContainerConfig) (nodes : List Node) (soft : Bool)
      → Usable config
      → f.filter config nodes soft ≢ panic
  pub lists : (config : ContainerConfig) → Usable config → f.get_filters config ≢ panic

abbrev pub AllKeep : List NodeFilter → Type 1
AllKeep [] = Unit
AllKeep (f ∷ fs) = Keeps f × AllKeep fs

abbrev pub all_accept : (fs : List NodeFilter) → AllKeep fs → ContainerConfig → Bool → Node → Bool
all_accept [] laws config soft n = true
all_accept (f ∷ fs) laws config soft n =
    laws.0.accepts config soft n && all_accept fs laws.1 config soft n

abbrev pub AllUsable : (fs : List NodeFilter) → AllKeep fs → ContainerConfig → Type 0
AllUsable [] laws config = Unit
AllUsable (f ∷ fs) laws config = laws.0.Usable config × AllUsable fs laws.1 config

conditions_fail :
    (m : Outcome FilterError Text) (result : List Node)
    → (m >>= λ conditions. err (unmet_conditions conditions)) ≢ ok result
conditions_fail (ok t) result h = cc h
conditions_fail (err e) result h = cc h
conditions_fail panic result h = cc h

-- A batch does not recover from an error.
batch_error_fails :
    (filters : List NodeFilter) (config : ContainerConfig) (f : NodeFilter) (e : FilterError)
    (result : List Node)
    → batch_error filters config f e ≢ ok result
unfolding batch_error
batch_error_fails filters config f e result h =
    elim (Bool-cases (text_eq f.filter_name (text "health"))) [
      | inl health ↦
          let h' : ◌≡◌ {A = Outcome FilterError (List Node)} (err e) (ok result) = rw health at h in
          cc h'
      | inr other ↦
          conditions_fail (list_all_filters filters config f.filter_name) result (rw other at h)
    ]

ok_result :
    (filters : List NodeFilter) (config : ContainerConfig) (soft : Bool) (f : NodeFilter)
    (fs : List NodeFilter) (nodes result : List Node) (m : Outcome FilterError (List Node))
    → f.filter config nodes soft ≡ m
    → apply_rest filters config soft (f ∷ fs) nodes ≡ ok result
    → (candidates : List Node) × (f.filter config nodes soft ≡ ok candidates)
      × (apply_rest filters config soft fs candidates ≡ ok result)
unfolding apply_rest
ok_result filters config soft f fs nodes result (ok cs) e h = (cs, e, rw (e, apply_rest) at h)
ok_result filters config soft f fs nodes result (err x) e h =
    absurd (batch_error_fails filters config f x result (rw (e, apply_rest) at h))
ok_result filters config soft f fs nodes result panic e h =
    let h' : ◌≡◌ {A = Outcome FilterError (List Node)} panic (ok result) =
      rw (e, apply_rest) at h in
    cc h'

apply_rest-exact :
    (filters fs : List NodeFilter) (laws : AllKeep fs) (config : ContainerConfig) (soft : Bool)
    (nodes result : List Node)
    → apply_rest filters config soft fs nodes ≡ ok result
    → result ≡ keep (all_accept fs laws config soft) nodes
unfolding apply_rest
apply_rest-exact filters [] laws config soft nodes result h =
    sym (ok-injective nodes result h) ∙ sym (keep_all nodes)
apply_rest-exact filters (f ∷ fs) laws config soft nodes result h =
    let (candidates, e, h1) =
      ok_result filters config soft f fs nodes result (f.filter config nodes soft) refl h in
    apply_rest-exact filters fs laws.1 config soft candidates result h1
    ∙ ap (keep (all_accept fs laws.1 config soft)) (laws.0.exact config nodes candidates soft e)
    ∙ keep-keep (laws.0.accepts config soft) (all_accept fs laws.1 config soft) nodes

apply_rest_complete :
    (filters fs : List NodeFilter) (laws : AllKeep fs) (config : ContainerConfig) (soft : Bool)
    (nodes : List Node)
    → AllUsable fs laws config
    → keep (all_accept fs laws config soft) nodes ≢ []
    → apply_rest filters config soft fs nodes ≡ ok (keep (all_accept fs laws config soft) nodes)
unfolding apply_rest
apply_rest_complete filters [] laws config soft nodes usable some_node =
    ap ok (sym (keep_all nodes))
apply_rest_complete filters (f ∷ fs) laws config soft nodes usable some_node =
    let accept = laws.0.accepts config soft in
    let accept_rest = all_accept fs laws.1 config soft in
    let both = keep-keep accept accept_rest nodes in
    let rest_some : keep accept_rest (keep accept nodes) ≢ [] = λ e. some_node (sym both ∙ e) in
    let here_some : keep accept nodes ≢ [] = λ e. rest_some (rw e (keep_nil accept_rest)) in
    rw (laws.0.complete config nodes soft usable.0 here_some) (
      apply_rest_complete filters fs laws.1 config soft (keep accept nodes) usable.1 rest_some
      ∙ ap ok both)

-- A batch of filters that keep what they accept returns the nodes that all of them accept.
pub apply_filters-exact :
    (fs : List NodeFilter) (laws : AllKeep fs) (config : ContainerConfig) (soft : Bool)
    (nodes result : List Node)
    → apply_filters fs config nodes soft ≡ ok result
    → result ≡ keep (all_accept fs laws config soft) nodes
unfolding apply_filters
apply_filters-exact fs laws config soft nodes result h =
    apply_rest-exact fs fs laws config soft nodes result h

-- A batch of such filters returns a result when some node is accepted by all of them.
pub apply_filters_complete :
    (fs : List NodeFilter) (laws : AllKeep fs) (config : ContainerConfig) (soft : Bool)
    (nodes : List Node)
    → AllUsable fs laws config
    → keep (all_accept fs laws config soft) nodes ≢ []
    → apply_filters fs config nodes soft ≡ ok (keep (all_accept fs laws config soft) nodes)
unfolding apply_filters
apply_filters_complete fs laws config soft nodes usable some_node =
    apply_rest_complete fs fs laws config soft nodes usable some_node
