-- ===== src/Engine/Health.antt =====
-- cluster/engine.go: the state of an engine, its count of failures, and the events that tell of it.
-- A method returns the engine with the events that it emits.
pub mod Indicator
pub mod Backoff
pub mod States
pub mod Failing
use cattle.Prelude.{
  Outcome, ok, panic, ℕ, suc, ◌^◌, ◌==◌, Bool, true, false, not, ◌&&◌, ◌||◌, List, [], ◌∷◌, ◌++◌,
  Option, none, some, Text, text, contains, ℤ, pos, negsuc, add64, sub64, mul64, div64, wrap64,
  ltb_ℤ, leb_ℤ, if◌then◌else◌,
}
use mathlib.Core.List.{reverse}
use cattle.Engine.Data.{
  EngineState, pending, unhealthy, healthy, disconnected, Engine, ApiError, state_text,
}

abbrev pub is_pending : EngineState → Bool
is_pending pending = true
is_pending unhealthy = false
is_pending healthy = false
is_pending disconnected = false

abbrev pub is_healthy_state : EngineState → Bool
is_healthy_state healthy = true
is_healthy_state pending = false
is_healthy_state unhealthy = false
is_healthy_state disconnected = false

abbrev pub is_unhealthy : EngineState → Bool
is_unhealthy unhealthy = true
is_unhealthy pending = false
is_unhealthy healthy = false
is_unhealthy disconnected = false

abbrev pub is_disconnected : EngineState → Bool
is_disconnected disconnected = true
is_disconnected pending = false
is_disconnected unhealthy = false
is_disconnected healthy = false

-- emitEvent
unfoldable pub emit : Text → Engine → List Text
emit event e = if e.has_handler then event ∷ [] else []

-- IsHealthy
unfoldable pub is_healthy : Engine → Bool
is_healthy e = is_healthy_state e.engine_state

-- HealthIndicator. The test before the division keeps its divisor from 0 when the count is not negative.
unfoldable pub health_indicator : Engine → ℤ
unfolding sub64 mul64 div64
health_indicator e =
    if not (is_healthy_state e.engine_state) || leb_ℤ e.failure_retry e.failure_count
    then pos 0
    else sub64 (pos 100) (div64 (mul64 e.failure_count (pos 100)) e.failure_retry)

-- Status
unfoldable pub status : Engine → Text
unfolding state_text
status e = state_text e.engine_state

abbrev pub is_space : ℕ → Bool
is_space c = c == b' ' || (c == 9 || (c == 10 || (c == 11 || (c == 12 || c == 13))))

unfoldable pub trim_spaces : Text → Text
trim_spaces [] = []
trim_spaces (c ∷ s) = let rest = trim_spaces s in if is_space c then rest else c ∷ s

-- strings.TrimSpace, on ASCII.
unfoldable pub trim_space : Text → Text
unfolding trim_spaces
trim_space s = reverse (trim_spaces (reverse (trim_spaces s)))

-- setErrMsg, at the time `now`.
unfoldable pub set_err_msg : ℤ → Text → Engine → Engine
unfolding trim_space
set_err_msg now msg e = record e { last_error = trim_space msg; updated_at = now }

-- HandleIDConflict
unfoldable pub handle_id_conflict : ℤ → Text → Engine → Engine
unfolding set_err_msg
handle_id_conflict now other e =
    set_err_msg now
      (text "ID duplicated. "
        ++ e.about.engine_id
        ++ text " shared by this node "
        ++ e.about.engine_addr
        ++ text " and another node "
        ++ other)
      e

-- setState
unfoldable pub set_state : EngineState → Engine → Engine
set_state s e = record e { engine_state = s }

-- incFailureCount
unfoldable pub inc_failure_count : Engine → Engine × List Text
unfolding emit add64
inc_failure_count e =
    let count = add64 e.failure_count (pos 1) in
    if is_healthy_state e.engine_state && leb_ℤ e.failure_retry count
    then (
      record e { failure_count = count; engine_state = unhealthy },
      emit (text "engine_disconnect") e,
    )
    else (record e { failure_count = count }, [])

-- resetFailureCount
unfoldable pub reset_failure_count : Engine → Engine
reset_failure_count e = record e { failure_count = pos 0 }

-- IsConnectionError
unfoldable pub is_connection_error : ApiError → Bool
unfolding contains
is_connection_error x =
    x.is_refused
    || (x.is_connection_failed
        || (contains x.message (text "onnection refused")
            || (contains x.message (text "annot connect to the docker engine endpoint")
                || contains x.message (text "annot connect to the Docker daemon"))))

-- CheckConnectionErr of nil.
unfoldable pub answered : ℤ → Engine → Engine × List Text
unfolding set_err_msg emit set_state reset_failure_count
answered now e =
    let e' = set_err_msg now [] e in
    if is_unhealthy e'.engine_state
    then (reset_failure_count (set_state healthy e'), emit (text "engine_reconnect") e')
    else (reset_failure_count e', [])

-- CheckConnectionErr of an error.
unfoldable pub failed : ℤ → ApiError → Engine → Engine × List Text
unfolding is_connection_error inc_failure_count set_err_msg
failed now x e =
    if is_connection_error x
    then (let (e', events) = inc_failure_count e in (set_err_msg now x.message e', events))
    else (e, [])

-- CheckConnectionErr
unfoldable pub check_connection_err : ℤ → Option ApiError → Engine → Engine × List Text
unfolding answered failed
check_connection_err now none e = answered now e
check_connection_err now (some x) e = failed now x e

-- ValidationComplete, without the refresh loop that it starts.
unfoldable pub validation_complete : Engine → Engine
validation_complete e =
    if is_pending e.engine_state
    then record e { engine_state = healthy; failure_count = pos 0 }
    else e

-- Disconnect. Without a monitor, as in an engine that was never connected, its Stop reads a nil pointer.
unfoldable pub disconnect : Engine → Outcome ApiError (Engine × List Text)
unfolding emit
disconnect e =
    if is_disconnected e.engine_state
    then ok (e, [])
    else if e.has_monitor
    then ok (record e { engine_state = disconnected }, emit (text "engine_disconnect") e)
    else panic

-- 1 << uint(n) as an int64.
unfoldable pub shift_one : ℤ → ℤ
unfolding wrap64
shift_one (pos n) = wrap64 (pos (2 ^ n))
shift_one (negsuc n) = pos 0

abbrev pub second_ns : ℤ
second_ns = pos 1000000000

-- minFailureBackoff
abbrev pub min_failure_backoff : ℤ
min_failure_backoff = pos 30000000000

-- validationLimit
abbrev pub validation_limit : ℤ
validation_limit = pos 14400000000000

unfoldable pub validation_backoff : ℤ → ℤ
unfolding add64 mul64 shift_one
validation_backoff count = add64 (mul64 (shift_one count) second_ns) min_failure_backoff

-- TimeToValidate, where `since` is time.Since(e.updatedAt).
unfoldable pub time_to_validate : ℤ → Engine → Bool
unfolding validation_backoff
time_to_validate since e =
    if not (is_pending e.engine_state)
    then false
    else ltb_ℤ validation_limit since || ltb_ℤ (validation_backoff e.failure_count) since
