-- ===== src/Scheduler/Filters/Names.antt =====
-- filter.New finds the filters that List names.
use cattle.Prelude.{
  ◌≡◌, refl, true, List, [], ◌∷◌, some, Text, text_eq, text_eq→eq, find, any, All, Bool-cases, inl,
  inr,
}
use cattle.Scheduler.Filters.Base.{NodeFilter}
use cattle.Scheduler.Filters.Batch.{new_filters, list_filters}

-- Some filter of the table has the name.
unfoldable pub IsSupported : List NodeFilter → Text → Type 0
unfolding any
IsSupported table name = any (λ (f : NodeFilter). text_eq f.filter_name name) table ≡ true

find_named :
    (table : List NodeFilter) (name : Text)
    → IsSupported table name
    → (f : NodeFilter) × (find (λ (f : NodeFilter). text_eq f.filter_name name) table ≡ some f)
      × (f.filter_name ≡ name)
unfolding find any IsSupported
find_named [] name h = cc h
find_named (f ∷ table) name h = elim (Bool-cases (text_eq f.filter_name name)) [
  | inl same ↦ (f, rw same refl, text_eq→eq f.filter_name name same)
  | inr other ↦
      let (g, found, named) = find_named table name (rw other at h) in (g, rw other found, named)
]

-- filter.New of names that the table has returns filters, which List names in the same order.
pub new_filters-list :
    (table : List NodeFilter) (names : List Text)
    → All (IsSupported table) names
    → (fs : List NodeFilter) × (new_filters table names ≡ some fs) × (list_filters fs ≡ names)
unfolding new_filters list_filters
new_filters-list table [] h = ([], refl, refl)
new_filters-list table (name ∷ names) h =
    let (f, found, named) = find_named table name h.0 in
    let (fs, rest, listed) = new_filters-list table names h.1 in
    (f ∷ fs, rw (found, rest, new_filters) refl, rw (named, listed) refl)
