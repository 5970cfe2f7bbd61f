-- ===== src/Swarm/Registry.antt =====
-- cluster/swarm/cluster.go: the engines that are registered, by their identifiers, and those that wait
-- for their validation, by their addresses. The steps are the parts of the code under the cluster's lock.
pub mod Addresses
pub mod Once
use cattle.Prelude.{
  Bool, true, false, not, ◌&&◌, ◌||◌, List, [], ◌∷◌, ◌++◌, Option, none, some, Text, text, text_eq,
  any, ℤ, pos, find, keep, map, Outcome, ok, err, panic, if◌then◌else◌,
}
use cattle.Cluster.Data.{EngineData, lookup, insert, delete}
use cattle.Engine.Data.{Engine, EngineState, pending, ApiError}
use cattle.Engine.Health.{disconnect, validation_complete, handle_id_conflict}

pub record Registry : Type 0 where
  pub engines : List (Text × Engine)
  pub pending_engines : List (Text × Engine)

-- NewEngine. The ratio is `int64(overcommitRatio * 100)`.
unfoldable pub new_engine : Text → ℤ → ℤ → ℤ → Engine
new_engine addr ratio retry now = record {
  about = record { engine_id = []; engine_name = []; engine_addr = addr; engine_labels = [] };
  cpus = pos 0;
  memory = pos 0;
  version = [];
  containers = [];
  images = [];
  networks = [];
  volumes = [];
  has_handler = false;
  has_monitor = false;
  engine_state = pending;
  last_error = [];
  updated_at = now;
  failure_count = pos 0;
  overcommit_ratio = ratio;
  failure_retry = retry;
  delta_duration = pos 0;
}

-- RegisterEventHandler of an engine: `none` is the error.
unfoldable pub register_event_handler : Engine → Option Engine
register_event_handler e = if e.has_handler then none else some (record e { has_handler = true })

abbrev pub has_addr : Text → Text × Engine → Bool
unfolding text_eq
has_addr addr entry = text_eq entry.1.about.engine_addr addr

abbrev pub value_of_entry : Option (Text × Engine) → Option Engine
value_of_entry none = none
value_of_entry (some entry) = some entry.1

-- getEngineByAddr
unfoldable pub get_engine_by_addr : Text → Registry → Option Engine
unfolding lookup find has_addr
get_engine_by_addr addr r = elim (lookup addr r.pending_engines) [
  | some e ↦ some e
  | none ↦ value_of_entry (find (has_addr addr) r.engines)
]

-- hasEngineByAddr
unfoldable pub has_engine_by_addr : Text → Registry → Bool
unfolding get_engine_by_addr
has_engine_by_addr addr r = elim (get_engine_by_addr addr r) [ none ↦ false | some e ↦ true ]

-- The engine with its handler, as addEngine makes it.
abbrev pub handled : Option Engine → Engine → Engine
handled none e = e
handled (some e') e = e'

-- addEngine, without the thread that validates the engine. The source tests under a read lock and inserts
-- under a later lock; the only caller is monitorDiscovery, one thread, so that no other call of addEngine
-- comes between, and a validation that comes between moves an engine from one table to the other, where
-- the test looks at both.
unfoldable pub add_engine : Text → ℤ → ℤ → ℤ → Registry → Registry × Bool
unfolding has_engine_by_addr new_engine register_event_handler insert
add_engine addr ratio retry now r =
    if has_engine_by_addr addr r
    then (r, false)
    else (let e = new_engine addr ratio retry now in
        (
          record r {
            pending_engines = insert addr (handled (register_event_handler e) e) r.pending_engines;
          },
          true,
        ))

-- validatePendingEngine from the lock on, for an engine that waits, by the engine that has its identifier.
unfoldable pub admit : ℤ → Engine → Option Engine → Registry → Registry × Bool
unfolding delete insert validation_complete handle_id_conflict text_eq
admit now e none r = (
  record r {
    pending_engines = delete e.about.engine_addr r.pending_engines;
    engines = insert e.about.engine_id (validation_complete e) r.engines;
  },
  true,
)
admit now e (some old) r =
    if text_eq old.about.engine_addr e.about.engine_addr
    then (record r { pending_engines = delete e.about.engine_addr r.pending_engines }, false)
    else (
      record r {
        pending_engines =
            insert e.about.engine_addr (handle_id_conflict now old.about.engine_addr e)
              r.pending_engines;
      },
      false,
    )

-- validatePendingEngine from the lock on, after Connect succeeded. An engine that is registered already
-- is also disconnected; the object is dropped.
unfoldable pub validate_connected : ℤ → Engine → Registry → Registry × Bool
unfolding lookup admit
validate_connected now e r = elim (lookup e.about.engine_addr r.pending_engines) [
  | none ↦ (r, false)
  | some waiting ↦ admit now e (lookup e.about.engine_id r.engines) r
]

-- The end of removeEngine, once the engine is disconnected.
unfoldable pub drop_engine : Text → Engine → Registry → Registry
unfolding lookup delete
drop_engine addr e r = elim (lookup addr r.pending_engines) [
  | some waiting ↦ record r { pending_engines = delete addr r.pending_engines }
  | none ↦ record r { engines = delete e.about.engine_id r.engines }
]

-- removeEngine, by the engine with the address.
unfoldable pub remove_found : Text → Option Engine → Registry → Outcome ApiError (Registry × Bool)
unfolding disconnect drop_engine
remove_found addr none r = ok (r, false)
remove_found addr (some e) r = elim (disconnect e) [
  | panic ↦ panic
  | err x ↦ err x
  | ok _ ↦ ok (drop_engine addr e r, true)
]

-- removeEngine
unfoldable pub remove_engine : Text → Registry → Outcome ApiError (Registry × Bool)
unfolding remove_found get_engine_by_addr
remove_engine addr r = remove_found addr (get_engine_by_addr addr r) r

abbrev pub after_removal :
    (Registry → Outcome ApiError Registry)
    → Outcome ApiError (Registry × Bool)
    → Outcome ApiError Registry
after_removal next panic = panic
after_removal next (err x) = err x
after_removal next (ok (r, _)) = next r

-- The loops of monitorDiscovery over the removed and the added entries.
unfoldable pub remove_all : List Text → Registry → Outcome ApiError Registry
unfolding remove_engine
remove_all [] r = ok r
remove_all (a ∷ addrs) r = after_removal (remove_all addrs) (remove_engine a r)

unfoldable pub add_all : List Text → ℤ → ℤ → ℤ → Registry → Registry
unfolding add_engine
add_all [] ratio retry now r = r
add_all (a ∷ addrs) ratio retry now r =
    add_all addrs ratio retry now (add_engine a ratio retry now r).0

abbrev pub then_add : List Text → ℤ → ℤ → ℤ → Outcome ApiError Registry → Outcome ApiError Registry
unfolding add_all
then_add added ratio retry now panic = panic
then_add added ratio retry now (err x) = err x
then_add added ratio retry now (ok r) = ok (add_all added ratio retry now r)

-- One round of monitorDiscovery, from the entries before it to the new ones. `Entries.Diff` is a
-- parameter; it gives the added and the removed entries.
unfoldable pub discover :
    (List Text → List Text → List Text × List Text)
    → List Text
    → List Text
    → ℤ
    → ℤ
    → ℤ
    → Registry
    → Outcome ApiError Registry
unfolding remove_all then_add add_all
discover diff current entries ratio retry now r =
    let (added, removed) = diff current entries in
    then_add added ratio retry now (remove_all removed r)
