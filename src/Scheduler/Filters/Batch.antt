-- ===== src/Scheduler/Filters/Batch.antt =====
-- scheduler/filter/filter.go: the table of filters, New, List, and ApplyFilters.
use cattle.Prelude.{
  Bool, List, [], ◌∷◌, ◌++◌, Option, none, some, Text, text, text_eq, find, map, join, Outcome, ok,
  err, panic, ◌>>=◌, if◌then◌else◌,
}
use cattle.Cluster.Data.{ContainerConfig}
use cattle.Scheduler.Exprs.{FilterError, unmet_conditions}
use cattle.Scheduler.Node.{Node}
use cattle.Scheduler.Filters.Base.{Services, NodeFilter}
use cattle.Scheduler.Filters.Simple.{health_filter, slots_filter, dependency_filter}
use cattle.Scheduler.Filters.Placement.{affinity_filter, constraint_filter, whitelist_filter}
use cattle.Scheduler.Filters.Port.{port_filter}

-- init
unfoldable pub all_filters : Services → List NodeFilter
all_filters services =
    health_filter
    ∷ port_filter services
    ∷ slots_filter
    ∷ dependency_filter services
    ∷ affinity_filter services
    ∷ constraint_filter services
    ∷ whitelist_filter services
    ∷ []

-- New, on the table: `none` is ErrNotSupported.
unfoldable pub new_filters : List NodeFilter → List Text → Option (List NodeFilter)
unfolding find text_eq
new_filters table [] = some []
new_filters table (name ∷ names) =
    elim (find (λ (f : NodeFilter). text_eq f.filter_name name) table) [
      | none ↦ none
      | some f ↦ elim (new_filters table names) [ none ↦ none | some fs ↦ some (f ∷ fs) ]
    ]

-- List
unfoldable pub list_filters : List NodeFilter → List Text
list_filters = map (λ (f : NodeFilter). f.filter_name)

-- fmt's "%v" of a list of texts, on a new line.
unfoldable pub listed : List Text → Text
unfolding join
listed [] = []
listed (s ∷ ss) = text "\n[" ++ join (text " ") (s ∷ ss) ++ text "]"

-- An error of GetFilters is passed over.
unfoldable pub texts_of : Outcome FilterError (List Text) → Outcome FilterError Text
unfolding listed
texts_of (ok list) = ok (listed list)
texts_of (err e) = ok []
texts_of panic = panic

-- listAllFilters, up to the filter of the given name.
unfoldable pub list_all_filters :
    List NodeFilter → ContainerConfig → Text → Outcome FilterError Text
unfolding texts_of text_eq
list_all_filters [] config last = ok []
list_all_filters (f ∷ fs) config last = do
  here ← texts_of (f.get_filters config)
  let rest = list_all_filters fs config last
  later ← (if text_eq f.filter_name last then ok [] else rest)
  ok (here ++ later)

-- The error of a batch: that of the health filter as it is.
unfoldable pub batch_error :
    List NodeFilter → ContainerConfig → NodeFilter → FilterError → Outcome FilterError (List Node)
unfolding list_all_filters text_eq
batch_error filters config f e = if text_eq f.filter_name (text "health") then err e else (do
  conditions ← list_all_filters filters config f.filter_name
  err (unmet_conditions conditions))

-- The loop of ApplyFilters over the rest of the filters.
unfoldable pub apply_rest :
    List NodeFilter
    → ContainerConfig
    → Bool
    → List NodeFilter
    → List Node
    → Outcome FilterError (List Node)
unfolding batch_error
apply_rest filters config soft [] candidates = ok candidates
apply_rest filters config soft (f ∷ fs) candidates = elim (f.filter config candidates soft) [
  | ok candidates' ↦ apply_rest filters config soft fs candidates'
  | err e ↦ batch_error filters config f e
  | panic ↦ panic
]

-- ApplyFilters
unfoldable pub apply_filters :
    List NodeFilter → ContainerConfig → List Node → Bool → Outcome FilterError (List Node)
unfolding apply_rest
apply_filters filters config nodes soft = apply_rest filters config soft filters nodes
