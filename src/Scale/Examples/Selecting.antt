-- ===== src/Scale/Examples/Selecting.antt =====
-- Filters that select containers, on concrete lists.
use cattle.Prelude.{
  ◌↔◌, ◌≡◌, refl, List, [], ◌∷◌, some, text, Bool, true, false, ℤ, pos, negsuc, ok, panic, keep,
  inl, inr, arith,
}
use cattle.Cluster.Data.{Container, lookup}
use cattle.Scale.Select.Groups.NoApp.{FirstHasNoApp}
use cattle.Scale.Examples.{web_container, web, exact}
use cattle.Scale.Tasks.{TaskType, create, stop, Tasks}
use cattle.Scale.Env.{get_min_num, has_constraint}
use cattle.Scale.Match.{equal, not_equal, match_labels, parse_filter_string}
use cattle.Scale.Match.Meaning.{AllHold, match_labels_iff}
use cattle.Scale.Match.Parsing.{IsPlain, parse_filter_string_lem}
use cattle.Scale.Select.Base.{ContainerFilter, items, base_containers, filter_container, abs_number}
use cattle.Scale.Select.Base.ScaleDown.{
  IsSelection, Uniform, matched, base_containers_selects, base_containers_panics,
}
use cattle.Scale.Select.Kinds.{Environment}

abbrev filter_of : ℤ → TaskType → Bool → List Container → ContainerFilter
filter_of number kind by_service cs = record {
  number = number;
  envs = [];
  filters = record { key = text "app"; operator = equal; pattern = text "web" } ∷ [];
  by_service = by_service;
  task_type = kind;
  containers = some cs;
}

abbrev stop_two : ContainerFilter
stop_two = filter_of (negsuc 1) stop false (web ∷ web ∷ [])

stop_two-Uniform : Uniform exact stop_two 2 1
unfolding abs_number filter_container has_constraint get_min_num
stop_two-Uniform = record {
  asked = refl;
  positive = omega arith;
  small = omega arith;
  unconstrained = refl;
  same = (λ _. refl, (λ _. refl, tt));
}

stop_two-matched : matched exact stop_two ≡ web ∷ web ∷ []
unfolding filter_container keep
stop_two-matched = refl

base_containers_selects_example :
    (f' : ContainerFilter) × (base_containers exact stop_two ≡ ok f')
    × IsSelection 2 1 (matched exact stop_two) (items f'.containers)
base_containers_selects_example =
    base_containers_selects exact stop_two 2 1 stop_two-Uniform
      (inr (rw stop_two-matched (omega arith)))

-- One container, of which three are to be left.
abbrev reserved : Container
reserved = web_container (text "MIN_NUMBER=3" ∷ []) ((text "app", text "web") ∷ []) (text "running")

abbrev stop_reserved : ContainerFilter
stop_reserved = filter_of (negsuc 0) stop false (reserved ∷ [])

stop_reserved-Uniform : Uniform exact stop_reserved 1 3
unfolding abs_number filter_container has_constraint get_min_num
stop_reserved-Uniform = record {
  asked = refl;
  positive = omega arith;
  small = omega arith;
  unconstrained = refl;
  same = (λ _. refl, tt);
}

stop_reserved-matched : matched exact stop_reserved ≡ reserved ∷ []
unfolding filter_container keep
stop_reserved-matched = refl

base_containers_panics_example : base_containers exact stop_reserved ≡ panic
base_containers_panics_example =
    base_containers_panics exact stop_reserved 1 3 stop_reserved-Uniform
      (rw stop_reserved-matched (λ e. cc e)) (rw stop_reserved-matched (omega arith))

match_labels_iff_example :
    (match_labels exact stop_two.filters web.labels ≡ true)
    ↔ AllHold exact stop_two.filters web.labels
match_labels_iff_example = match_labels_iff exact stop_two.filters web.labels

a-IsPlain : IsPlain b'a'
a-IsPlain = (omega arith, omega arith, omega arith)

p-IsPlain : IsPlain b'p'
p-IsPlain = (omega arith, omega arith, omega arith)

parse_filter_string_lem_example :
    parse_filter_string (text "app!=web" ∷ [])
    ≡ ok (record { key = text "app"; operator = not_equal; pattern = text "web" } ∷ [])
parse_filter_string_lem_example =
    parse_filter_string_lem not_equal b'a' (text "pp") (text "web") (λ e. cc e)
      (a-IsPlain, (p-IsPlain, (p-IsPlain, tt))) (λ e. cc e)

abbrev stopped : Container
stopped = web_container [] ((text "app", text "web") ∷ []) (text "exited")

abbrev plain : Environment
plain = record {
  match_string = exact;
  marshal = λ s. [];
  visit_groups = λ g. g;
  visit_apps = λ g. g;
}

-- A container without an `app` label, in an item for a service.
abbrev nameless : Container
nameless = web_container [] ((text "service", text "shop") ∷ []) (text "running")

abbrev stop_service : ContainerFilter
stop_service = record {
  number = negsuc 0;
  envs = [];
  filters = record { key = text "service"; operator = equal; pattern = text "shop" } ∷ [];
  by_service = true;
  task_type = stop;
  containers = some (nameless ∷ web ∷ []);
}

nameless-FirstHasNoApp :
    FirstHasNoApp
      (filter_container exact stop_service.task_type stop_service.filters)
      (nameless ∷ web ∷ [])
unfolding filter_container lookup
nameless-FirstHasNoApp = inl (refl, refl)

abbrev create_unmatched : ContainerFilter
create_unmatched = filter_of (pos 2) create false (nameless ∷ [])

create_unmatched-matched : matched exact create_unmatched ≡ []
unfolding filter_container keep
create_unmatched-matched = refl
