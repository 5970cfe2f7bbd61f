-- ===== src/Engine/Specs.antt =====
-- cluster/engine.go: updateSpecs, which reads the machine of an engine and checks who it is.
use cattle.Prelude.{
  ◌||◌, List, [], ◌∷◌, ◌++◌, Option, none, some, Text, text, text_eq, split2, ℤ, pos, negsuc, eqb_ℤ,
  ltb, if◌then◌else◌,
}
use cattle.Cluster.Data.{Labels, lookup, insert}
use cattle.Engine.Data.{Engine, pending, ApiError}
use cattle.Engine.Call.{
  SystemInfo, Daemon, Call, pure, fail, ◌>>=◌, get_engine, change, checked_call, own_error,
}

-- The difference that is kept: one below thresholdTime counts for nothing. `time.Duration` of the
-- seconds of a negative difference drops its fraction.
unfoldable pub kept_delta : Option ℤ → ℤ
kept_delta none = pos 0
kept_delta (some (pos n)) = if ltb n 2000000000 then pos 0 else pos n
kept_delta (some (negsuc n)) = if ltb n 1999999999 then pos 0 else negsuc n

abbrev pub label_unless_empty : Text → Text → Labels → Labels
unfolding insert text_eq
label_unless_empty key value labels = if text_eq value [] then labels else insert key value labels

-- One label of the daemon, on the labels so far. `node` is kept for the name of the engine, and what is
-- there is not overridden.
unfoldable pub add_label : Text → Text → Labels → Labels
unfolding lookup insert text_eq
add_label key value labels =
    if text_eq key (text "node")
    then labels
    else elim (lookup key labels) [ some v ↦ labels | none ↦ insert key value labels ]

-- The loop over the labels: the labels it leaves, and the label that has no `=`, if there is one.
unfoldable pub add_labels : List Text → Labels → Labels × Option Text
unfolding split2 add_label
add_labels [] labels = (labels, none)
add_labels (l ∷ ls) labels = elim (split2 l (text "=")) [
  | none ↦ (labels, some l)
  | some (key, value) ↦ add_labels ls (add_label key value labels)
]

unfoldable pub system_labels_of : SystemInfo → Labels
unfolding label_unless_empty
system_labels_of info = label_unless_empty (text "operatingsystem") info.operating_system (
    label_unless_empty (text "kernelversion") info.kernel_version
      (label_unless_empty (text "storagedriver") info.storage_driver []))

unfoldable pub with_specs : SystemInfo → Labels → Engine → Engine
unfolding kept_delta
with_specs info labels e = record e {
  delta_duration = kept_delta info.system_delta;
  cpus = info.ncpu;
  memory = info.mem_total;
  about = record e.about { engine_name = info.system_name; engine_labels = labels };
}

abbrev pub invalid_label : Text → Engine → ApiError
invalid_label l e = own_error (
    text "Engine (ID: "
    ++ e.about.engine_id
    ++ text ", Addr: "
    ++ e.about.engine_addr
    ++ text ") contains an invalid label ("
    ++ l
    ++ text ") not formatted as \"key=value\".")

abbrev pub other_id : Text → Engine → Text
other_id id e =
    text "Engine (ID: "
    ++ e.about.engine_id
    ++ text ", Addr: "
    ++ e.about.engine_addr
    ++ text ") shows up with another ID:"
    ++ id
    ++ text ". Please remove it from cluster, it can be added back."

module _ {W : Type 0} where
  -- After the labels: the fields are written whether or not all labels are valid.
  unfoldable pub finish_specs : SystemInfo → Labels × Option Text → Call W (Unit {0})
  unfolding with_specs
  finish_specs info (labels, none) = change (with_specs info labels)
  finish_specs info (labels, some bad) = do
    _ ← change (with_specs info labels)
    e ← get_engine
    fail (invalid_label bad e)

  -- From the lock on: who the engine is, and what it has.
  unfoldable pub store_specs : SystemInfo → Text → Call W (Unit {0})
  unfolding finish_specs add_labels system_labels_of text_eq
  store_specs info version = do
    _ ← change (λ e. record e { version = version })
    e ← get_engine
    (if text_eq e.about.engine_id []
        then (do
          _ ← change (λ e. record e { about = record e.about { engine_id = info.system_id } })
          finish_specs info (add_labels info.system_labels (system_labels_of info)))
        else if text_eq e.about.engine_id info.system_id
        then finish_specs info (add_labels info.system_labels (system_labels_of info))
        else (do
          _ ←
              change
                (λ e. record e { engine_state = pending; last_error = other_id info.system_id e })
          fail (own_error (other_id info.system_id e))))

  abbrev fail_at : (Text → Text) → Call W (Unit {0})
  fail_at message = do e ← get_engine; fail (own_error (message e.about.engine_addr))

  -- updateSpecs
  unfoldable pub update_specs : Daemon W → Call W (Unit {0})
  unfolding checked_call store_specs
  update_specs daemon = do
    info ← checked_call daemon daemon.get_info
    _ ←
        (if eqb_ℤ info.ncpu (pos 0) || eqb_ℤ info.mem_total (pos 0)
          then fail_at (λ addr.
            text "cannot get resources for this engine, make sure "
            ++ addr
            ++ text " is a Docker Engine, not a Swarm manager")
          else pure tt)
    version ← checked_call daemon daemon.server_version
    _ ←
        (if daemon.less_than version (text "1.8.0")
          then fail_at (λ addr.
            text "engine "
            ++ addr
            ++ text
                " is running an unsupported version of Docker Engine. Please upgrade to at least 1.8.0")
          else pure tt)
    store_specs info version
