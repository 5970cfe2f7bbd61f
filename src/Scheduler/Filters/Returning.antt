-- ===== src/Scheduler/Filters/Returning.antt =====
-- A batch of filters that return returns.
use cattle.Prelude.{
  ◌⊎◌, ◌++◌, ◌≡◌, ◌≢◌, refl, Bool, List, [], ◌∷◌, Outcome, ok, err, panic, Text, text, text_eq,
  Bool-cases, inl, inr,
}
use cattle.Cluster.Data.{ContainerConfig}
use cattle.Scheduler.Exprs.{FilterError, unmet_conditions}
use cattle.Scheduler.Node.{Node}
use cattle.Scheduler.Filters.Base.{NodeFilter}
use cattle.Scheduler.Filters.Batch.{
  apply_filters, apply_rest, batch_error, list_all_filters, texts_of, listed,
}
use cattle.Scheduler.Filters.Laws.{AllKeep, AllUsable}

texts_of_returns :
    (m : Outcome FilterError (List Text)) → m ≢ panic → (t : Text) × (texts_of m ≡ ok t)
unfolding texts_of
texts_of_returns panic h = absurd (h refl)
texts_of_returns (err e) h = ([], refl)
texts_of_returns (ok list) h = (listed list, refl)

list_all_filters_returns :
    (fs : List NodeFilter) (laws : AllKeep fs) (config : ContainerConfig) (last : Text)
    → AllUsable fs laws config
    → (t : Text) × (list_all_filters fs config last ≡ ok t)
unfolding list_all_filters
list_all_filters_returns [] laws config last usable = ([], refl)
list_all_filters_returns (f ∷ fs) laws config last usable =
    let (here, e) = texts_of_returns (f.get_filters config) (laws.0.lists config usable.0) in
    let (later, e') = list_all_filters_returns fs laws.1 config last usable.1 in
    elim (Bool-cases (text_eq f.filter_name last)) [
      | inl stop ↦ (here ++ [], rw (e, stop) refl)
      | inr more ↦ (here ++ later, rw (e, more, e') refl)
    ]

batch_error_returns :
    (filters : List NodeFilter) (laws : AllKeep filters) (config : ContainerConfig) (f : NodeFilter)
    (e : FilterError)
    → AllUsable filters laws config
    → (e' : FilterError) × (batch_error filters config f e ≡ err e')
unfolding batch_error
batch_error_returns filters laws config f e usable =
    let (t, h) = list_all_filters_returns filters laws config f.filter_name usable in
    elim (Bool-cases (text_eq f.filter_name (text "health"))) [
      | inl health ↦ (e, rw health refl)
      | inr other ↦ (unmet_conditions t, rw (other, h) refl)
    ]

-- A result or an error, and no panic.
abbrev pub ResultOrError : Outcome FilterError (List Node) → Type 0
ResultOrError m = ((ns : List Node) × (m ≡ ok ns)) ⊎ ((e : FilterError) × (m ≡ err e))

no_panic-ResultOrError : (m : Outcome FilterError (List Node)) → m ≢ panic → ResultOrError m
no_panic-ResultOrError panic h = absurd (h refl)
no_panic-ResultOrError (err e) h = inr (e, refl)
no_panic-ResultOrError (ok ns) h = inl (ns, refl)

apply_rest_returns :
    (filters : List NodeFilter) (all_laws : AllKeep filters) (fs : List NodeFilter)
    (laws : AllKeep fs) (config : ContainerConfig) (soft : Bool) (nodes : List Node)
    → AllUsable filters all_laws config
    → AllUsable fs laws config
    → ResultOrError (apply_rest filters config soft fs nodes)
unfolding apply_rest
apply_rest_returns filters all_laws [] laws config soft nodes all_usable usable = inl (nodes, refl)
apply_rest_returns filters all_laws (f ∷ fs) laws config soft nodes all_usable usable =
    elim (no_panic-ResultOrError (f.filter config nodes soft)
      (laws.0.returns config nodes soft usable.0)) [
        | inl (ns, e) ↦
            rw (e, apply_rest)
              (apply_rest_returns filters all_laws fs laws.1 config soft ns all_usable usable.1)
        | inr (x, e) ↦
            let (x', e') = batch_error_returns filters all_laws config f x all_usable in
            inr (x', rw (e, apply_rest) e')
      ]

pub apply_filters_returns :
    (fs : List NodeFilter) (laws : AllKeep fs) (config : ContainerConfig) (soft : Bool)
    (nodes : List Node)
    → AllUsable fs laws config
    → ResultOrError (apply_filters fs config nodes soft)
unfolding apply_filters
apply_filters_returns fs laws config soft nodes usable =
    apply_rest_returns fs laws fs laws config soft nodes usable usable
