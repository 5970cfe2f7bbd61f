-- ===== src/Swarm/Errors.antt =====
-- The texts of the errors that a creation may end in, and which of them say that the image is missing.
use cattle.Prelude.{
  ℕ, Bool, false, ◌||◌, ◌==◌, [], ◌∷◌, ◌++◌, Option, none, some, Text, text, trim_prefix,
  has_prefix, if◌then◌else◌, join, map,
}
use cattle.Scheduler.Exprs.{
  FilterError, Expr, Comparison, eq, not_eq, bad_regexp, invalid_key, invalid_value, no_operator,
  no_healthy_node, no_free_slots, unmet_dependencies, port_exposed, port_used, unmet_affinity,
  unmet_constraint, unmet_whitelist, unmet_conditions,
}
use cattle.Scheduler.Strategy.{no_resources_available}
use cattle.Scheduler.Select.{SchedulerError, filters_failed, no_node_available, strategy_failed}
use cattle.Engine.Data.{ApiError}
use cattle.Swarm.Data.{
  SwarmError, name_conflict, draws_used_up, scheduling_failed, not_created, engine_failed,
  no_such_image, no_engine_found, joined,
}

-- OPERATORS
abbrev pub comparison_text : Comparison → Text
comparison_text eq = text "=="
comparison_text not_eq = text "!="

abbrev pub expr_text : Expr → Text
expr_text e = e.expr_key ++ comparison_text e.comparison ++ e.value

unfoldable pub filter_text : Text → FilterError → Text
filter_text regexp_error bad_regexp = regexp_error
filter_text regexp_error (invalid_key k) = text "Key '" ++ k ++ text "' is invalid"
filter_text regexp_error (invalid_value v) = text "Value '" ++ v ++ text "' is invalid"
filter_text regexp_error no_operator = text "One of operator ==, != is expected"
filter_text regexp_error no_healthy_node = text "No healthy node available in the cluster"
filter_text regexp_error no_free_slots =
    text "No node with enough open slots available in the cluster"
filter_text regexp_error (unmet_dependencies s) =
    text "Unable to find a node fulfilling all dependencies: " ++ s
filter_text regexp_error (port_exposed p) =
    text "unable to find a node with port " ++ p ++ text " available in the Host mode"
filter_text regexp_error (port_used p) =
    text "unable to find a node with port " ++ p ++ text " available"
filter_text regexp_error (unmet_affinity e) =
    text "unable to find a node that satisfies the affinity " ++ expr_text e
filter_text regexp_error (unmet_constraint e) =
    text "unable to find a node that satisfies the constraint " ++ expr_text e
filter_text regexp_error (unmet_whitelist e) =
    text "unable to find a node that satisfies the whitelist " ++ expr_text e
filter_text regexp_error (unmet_conditions s) =
    text "Unable to find a node that satisfies the following conditions " ++ s

unfoldable pub scheduler_text : Text → SchedulerError → Text
unfolding filter_text
scheduler_text regexp_error (filters_failed e) = filter_text regexp_error e
scheduler_text regexp_error no_node_available = text "No nodes available in the cluster"
scheduler_text regexp_error (strategy_failed no_resources_available) =
    text "no resources available to schedule container"

abbrev pub joined_line : Text × ApiError → Text
joined_line (name, x) = name ++ text ": " ++ x.message

unfoldable pub error_text : Text → SwarmError → Text
unfolding scheduler_text join
error_text regexp_error (name_conflict name) =
    text "Conflict: The name "
    ++ name
    ++ text
        " is already assigned. You have to delete (or rename) that container to be able to assign "
    ++ name
    ++ text " to a container again."
error_text regexp_error draws_used_up = []
error_text regexp_error (scheduling_failed e) = scheduler_text regexp_error e
error_text regexp_error not_created = text "error creating container"
error_text regexp_error (engine_failed x) = x.message
error_text regexp_error (no_such_image q) = text "No such image: " ++ q
error_text regexp_error (no_engine_found h) = text "no engine found with hostname " ++ h
error_text regexp_error (joined errs) = join (10 ∷ []) (map joined_line errs)

-- `\s` of the regexp library.
abbrev pub is_blank : ℕ → Bool
is_blank c = c == b' ' || (c == 9 || (c == 10 || (c == 12 || c == 13)))

unfoldable pub skip_word : Text → Text
skip_word [] = []
skip_word (c ∷ s) = if is_blank c then c ∷ s else skip_word s

abbrev pub word_missing : Option Text → Bool
unfolding skip_word has_prefix
word_missing none = false
word_missing (some rest) = has_prefix (skip_word rest) (text " not found")

-- regexp.MatchString(word + ` \S* not found`, s)
unfoldable pub says_not_found : Text → Text → Bool
unfolding word_missing trim_prefix
says_not_found word [] = false
says_not_found word (c ∷ s) =
    word_missing (trim_prefix (c ∷ s) (word ++ text " ")) || says_not_found word s

-- IsErrImageNotFound of the client, on an error of the daemon.
abbrev pub is_client_missing : SwarmError → Bool
is_client_missing (engine_failed x) = x.is_image_missing
is_client_missing (name_conflict name) = false
is_client_missing draws_used_up = false
is_client_missing (scheduling_failed e) = false
is_client_missing not_created = false
is_client_missing (no_such_image q) = false
is_client_missing (no_engine_found h) = false
is_client_missing (joined errs) = false

unfoldable pub is_image_missing : Text → SwarmError → Bool
unfolding error_text says_not_found
is_image_missing regexp_error x =
    says_not_found (text "image") (error_text regexp_error x)
    || says_not_found (text "repository") (error_text regexp_error x)
    || is_client_missing x
