-- ===== src/Engine/Health/States.antt =====
-- The states of an engine under the calls that change them.
use cattle.Prelude.{
  if◌then◌else◌, Outcome, ok, panic, ok-injective, sym, ◌≡◌, ◌≢◌, refl, ap, ◌∙◌, Bool, true, false,
  inl, inr, List, [], ◌∷◌, ◌++◌, Option, none, some, Text, text, ℤ, pos, leb_ℤ, ltb_ℤ, add64, arith,
  Bool-cases,
}
use cattle.Engine.Data.{EngineState, pending, unhealthy, healthy, disconnected, Engine, ApiError}
use cattle.Engine.Health.{
  is_healthy_state, is_pending, is_unhealthy, is_disconnected, inc_failure_count,
  check_connection_err, answered, failed, validation_complete, disconnect, is_connection_error,
  handle_id_conflict, set_err_msg, emit,
}

-- The calls that an engine gets, in any order: an answer or an error of the daemon, a validation, a
-- conflict of identifiers, a removal.
pub data Step (e : Engine) : Engine → List Text → Type 0 where
  checked :
      (now : ℤ) (result : Option ApiError)
      → Step e (check_connection_err now result e).0 (check_connection_err now result e).1
  validated : Step e (validation_complete e) []
  conflicted : (now : ℤ) (other : Text) → Step e (handle_id_conflict now other e) []
  removed : {f : Engine} {events : List Text} → disconnect e ≡ ok (f, events) → Step e f events

-- Any number of calls, with the events they emit.
pub data Steps (e : Engine) : Engine → List Text → Type 0 where
  here : Steps e e []
  next :
      {f g : Engine} {events more : List Text}
      → Steps e f events
      → Step f g more
      → Steps e g (events ++ more)

-- A healthy engine has failed less often than it may.
abbrev pub IsSteady : Engine → Type 0
IsSteady e =
    (ltb_ℤ (pos 0) e.failure_retry ≡ true)
    × (e.engine_state ≡ healthy → ltb_ℤ e.failure_count e.failure_retry ≡ true)

pub check_connection_err-IsSteady :
    (now : ℤ) (result : Option ApiError) (e : Engine)
    → IsSteady e
    → IsSteady (check_connection_err now result e).0
unfolding check_connection_err inc_failure_count
check_connection_err-IsSteady now none e h = ground arith
check_connection_err-IsSteady now (some x) e h = ground arith

disconnect-IsSteady :
    (e : Engine) {f : Engine} {events : List Text}
    → disconnect e ≡ ok (f, events)
    → IsSteady e
    → IsSteady f
unfolding disconnect
disconnect-IsSteady e gone h = ground arith

Step-IsSteady : {e f : Engine} {events : List Text} → Step e f events → IsSteady e → IsSteady f
unfolding validation_complete handle_id_conflict set_err_msg disconnect
Step-IsSteady {e} (checked now result) h = check_connection_err-IsSteady now result e h
Step-IsSteady validated h = ground arith
Step-IsSteady (conflicted now other) h = h
Step-IsSteady {e} (removed gone) h = disconnect-IsSteady e gone h

pub Steps-IsSteady :
    {e f : Engine} {events : List Text} → IsSteady e → Steps e f events → IsSteady f
Steps-IsSteady h here = h
Steps-IsSteady h (next steps step) = Step-IsSteady step (Steps-IsSteady h steps)

-- The moves between states, with what is emitted when a handler listens.
pub data Move (s t : EngineState) (events : List Text) : Type 0 where
  stays : t ≡ s → events ≡ [] → Move s t events
  joins : s ≡ pending → t ≡ healthy → events ≡ [] → Move s t events
  drops : s ≡ healthy → t ≡ unhealthy → events ≡ text "engine_disconnect" ∷ [] → Move s t events
  returns : s ≡ unhealthy → t ≡ healthy → events ≡ text "engine_reconnect" ∷ [] → Move s t events
  leaves :
      s ≢ disconnected → t ≡ disconnected → events ≡ text "engine_disconnect" ∷ [] → Move s t events

is_unhealthy→eq : (s : EngineState) → is_unhealthy s ≡ true → s ≡ unhealthy
is_unhealthy→eq s h = ground arith

is_healthy_state→eq : (s : EngineState) → is_healthy_state s ≡ true → s ≡ healthy
is_healthy_state→eq s h = ground arith

is_pending→eq : (s : EngineState) → is_pending s ≡ true → s ≡ pending
is_pending→eq s h = ground arith

is_disconnected-ne : (s : EngineState) → is_disconnected s ≡ false → s ≢ disconnected
is_disconnected-ne s h k = ground arith

answered-Move :
    (now : ℤ) (e : Engine)
    → e.has_handler ≡ true
    → Move e.engine_state (answered now e).0.engine_state (answered now e).1
unfolding answered
answered-Move now e listens = elim (Bool-cases (is_unhealthy e.engine_state)) [
  | inl down ↦
      returns (is_unhealthy→eq e.engine_state down) (rw (down, answered) refl)
        (rw (down, listens, answered) refl)
  | inr other ↦ stays (rw (other, answered) refl) (rw (other, answered) refl)
]

inc_failure_count-Move :
    (e : Engine)
    → e.has_handler ≡ true
    → Move e.engine_state (inc_failure_count e).0.engine_state (inc_failure_count e).1
unfolding inc_failure_count
inc_failure_count-Move e listens = elim (Bool-cases (is_healthy_state e.engine_state)) [
  | inl up ↦ elim (Bool-cases (leb_ℤ e.failure_retry (add64 e.failure_count (pos 1)))) [
    | inl many ↦
        drops (is_healthy_state→eq e.engine_state up) (rw (up, many, inc_failure_count) refl)
          (rw (up, many, listens, inc_failure_count) refl)
    | inr few ↦ stays (rw (up, few, inc_failure_count) refl) (rw (up, few, inc_failure_count) refl)
  ]
  | inr other ↦ stays (rw (other, inc_failure_count) refl) (rw (other, inc_failure_count) refl)
]

failed-Move :
    (now : ℤ) (x : ApiError) (e : Engine)
    → e.has_handler ≡ true
    → Move e.engine_state (failed now x e).0.engine_state (failed now x e).1
unfolding failed
failed-Move now x e listens = elim (Bool-cases (is_connection_error x)) [
  | inl lost ↦ rw (lost, failed) (inc_failure_count-Move e listens)
  | inr other ↦ rw (other, failed) (stays refl refl)
]

check_connection_err-Move :
    (now : ℤ) (result : Option ApiError) (e : Engine)
    → e.has_handler ≡ true
    → Move e.engine_state
        (check_connection_err now result e).0.engine_state
        (check_connection_err now result e).1
unfolding check_connection_err
check_connection_err-Move now none e listens = answered-Move now e listens
check_connection_err-Move now (some x) e listens = failed-Move now x e listens

disconnect_watched :
    (e : Engine)
    → is_disconnected e.engine_state ≡ false
    → e.has_monitor ≡ true
    → disconnect e
      ≡ ok (record e { engine_state = disconnected }, emit (text "engine_disconnect") e)
unfolding disconnect
disconnect_watched e there watched = lemma e.engine_state e.has_monitor there watched
  where
    lemma :
        (s : EngineState) (b : Bool)
        → is_disconnected s ≡ false
        → b ≡ true
        → ◌≡◌ {A = Outcome ApiError (Engine × List Text)}
            (if is_disconnected s
              then ok (e, [])
              else if b
              then ok (record e { engine_state = disconnected }, emit (text "engine_disconnect") e)
              else panic)
            (ok (record e { engine_state = disconnected }, emit (text "engine_disconnect") e))
    lemma s b p q = rw (p, q) refl

emit_heard :
    (e : Engine)
    → e.has_handler ≡ true
    → emit (text "engine_disconnect") e ≡ text "engine_disconnect" ∷ []
unfolding emit
emit_heard e listens = rw listens refl

disconnect-Move :
    (e : Engine) {f : Engine} {events : List Text}
    → e.has_handler ≡ true
    → disconnect e ≡ ok (f, events)
    → Move e.engine_state f.engine_state events
unfolding disconnect
disconnect-Move e {f} {events} listens gone = elim (Bool-cases (is_disconnected e.engine_state)) [
  | inl left ↦
      let p = ok-injective (e, []) (f, events) (rw (left, disconnect) at gone) in
      stays (sym (ap (λ r. r.0.engine_state) p)) (sym (ap (λ r. r.1) p))
  | inr there ↦ elim (Bool-cases e.has_monitor) [
    | inl watched ↦
        let left =
          ok-injective (record e { engine_state = disconnected }, emit (text "engine_disconnect") e)
            (f, events) (sym (disconnect_watched e there watched) ∙ gone) in
        leaves (is_disconnected-ne e.engine_state there) (sym (ap (λ r. r.0.engine_state) left))
          (sym (ap (λ r. r.1) left) ∙ emit_heard e listens)
    | inr bare ↦
        let h : ◌≡◌ {A = Outcome ApiError (Engine × List Text)} panic (ok (f, events)) =
          rw (there, bare, disconnect) at gone in
        cc h
  ]
]

-- For an engine with a handler, a result of a call, the end of a validation, a conflict of
-- identifiers and a removal move its state only like this: not at all and without an event,
-- from pending to healthy without an event, from healthy to unhealthy with engine_disconnect,
-- from unhealthy to healthy with engine_reconnect, or to disconnected with engine_disconnect.
pub Step-Move :
    {e f : Engine} {events : List Text}
    → e.has_handler ≡ true
    → Step e f events
    → Move e.engine_state f.engine_state events
unfolding validation_complete handle_id_conflict set_err_msg
Step-Move {e} listens (checked now result) = check_connection_err-Move now result e listens
Step-Move {e} listens validated = elim (Bool-cases (is_pending e.engine_state)) [
  | inl waits ↦
      joins (is_pending→eq e.engine_state waits) (rw (waits, validation_complete) refl) refl
  | inr other ↦ stays (rw (other, validation_complete) refl) refl
]
Step-Move listens (conflicted now other) = stays refl refl
Step-Move {e} listens (removed gone) = disconnect-Move e listens gone
