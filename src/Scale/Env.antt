-- ===== src/Scale/Env.antt =====
-- cluster/swarm/utils.go: what the scale subsystem reads from environment entries.
use cattle.Prelude.{
  ◌==◌, ltb_ℤ, Bool, true, ◌&&◌, ◌||◌, List, [], ◌∷◌, ◌++◌, Option, none, some, Text, text, text_eq,
  has_prefix, contains, split2, replace1, atoi, ℤ, pos, negsuc, any, if◌then◌else◌,
}
use cattle.Scale.Tasks.{TaskType, create, destroy, start, stop, unknown}

-- What stands behind each `=` and `:` of an entry. (Both are single bytes, so a walk over the
-- bytes meets them where the walk over the characters does.)
values_of : Text → List Text
values_of [] = []
values_of (c ∷ s) = let rest = values_of s in if c == b'=' || c == b':' then s ∷ rest else rest

-- getEnv: the second result is whether the list has an element.
unfoldable pub get_env : Text → List Text → List Text
unfolding values_of
get_env key [] = []
get_env key (e ∷ envs) = (if has_prefix e key then values_of e else []) ++ get_env key envs

abbrev pub or_zero : Option ℤ → ℤ
or_zero none = pos 0
or_zero (some n) = n

abbrev first_number : List Text → ℤ
first_number [] = pos 0
first_number (v ∷ _) = or_zero (atoi v)

-- getMinNum
unfoldable pub get_min_num : List Text → ℤ
unfolding get_env atoi
get_min_num envs = first_number (get_env (text "MIN_NUMBER") envs)

-- hasPrifix
unfoldable pub has_prifix : List Text → Text → Bool
unfolding any has_prefix
has_prifix array key = any (λ a. has_prefix a key) array

-- hasConstraint
unfoldable pub has_constraint : List Text → Bool
unfolding any has_prefix
has_constraint envs = any (λ e. has_prefix e (text "constraint")) envs

-- The value where there is exactly one.
abbrev only : List Text → Option Text
only (v ∷ []) = some v
only _ = none

abbrev or_default : Option Text → Text → Bool
or_default none default = true
or_default (some v) default = text_eq v default

abbrev task_type_for : ℤ → Option Text → TaskType
task_type_for (pos n) value =
    if n == 0 then unknown else if or_default value (text "create") then create else start
task_type_for (negsuc n) value = if or_default value (text "destroy") then destroy else stop

-- getTaskType
unfoldable pub get_task_type : ℤ → List Text → TaskType
unfolding get_env text_eq
get_task_type n envs = task_type_for n (only (get_env (text "TASK_TYPE") envs))

-- getInaffinityStrings, for one entry
inaffinity_of : Text → List Text
inaffinity_of e =
    if has_prefix e (text "affinity")
    then elim (split2 e (text ":")) [
      | none ↦ []
      | some (a, b) ↦ if contains b (text "!=") then replace1 b (text "!=") (text "==") ∷ [] else []
    ]
    else []

-- getInaffinityStrings
unfoldable pub get_inaffinity_strings : List Text → List Text
unfolding inaffinity_of
get_inaffinity_strings [] = []
get_inaffinity_strings (e ∷ envs) = inaffinity_of e ++ get_inaffinity_strings envs

-- getConstaintStrings, for one entry
constraint_of : Text → List Text
constraint_of e =
    if has_prefix e (text "constraint")
    then elim (split2 e (text ":")) [
      | none ↦ []
      | some (a, b) ↦ if contains b (text "!=") || contains b (text "==") then b ∷ [] else []
    ]
    else []

-- getConstaintStrings
unfoldable pub get_constraint_strings : List Text → List Text
unfolding constraint_of
get_constraint_strings [] = []
get_constraint_strings (e ∷ envs) = constraint_of e ++ get_constraint_strings envs

-- IsResourceSeize (filter.go)
unfoldable pub is_resource_seize : ℤ → List Text → Bool
unfolding any has_prefix contains
is_resource_seize number envs =
    any (λ e. has_prefix e (text "affinity") && contains e (text "!=")) envs
    && any (λ e. has_prefix e (text "constraint")) envs
    && ltb_ℤ (pos 0) number
