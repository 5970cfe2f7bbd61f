-- ===== src/Swarm/Create/Released.antt =====
-- A creation that returned has left nothing among the pending containers.
use cattle.Prelude.{
  zero, suc, ℕ, ◌≡◌, ◌≢◌, refl, sym, ap, ◌∙◌, subst, Bool, true, false, List, [], ◌∷◌, Option, none,
  some, Text, text, text_eq, text_eq_refl, text_eq_apart, Outcome, ok, err, panic, Bool-cases,
  Option-cases, inl, inr,
}
use cattle.Cluster.Data.{Container, ContainerConfig, lookup, insert, delete, label_or_empty}
use cattle.Cluster.Config.{
  swarm_id, set_label, add_expr, remove_expr, swarm_label, store_exprs, have_node_constraint,
}
use cattle.Cluster.Config.Stored.{lookup-insert_other}
use cattle.Engine.Data.{Engine, Network}
use cattle.Engine.Call.{Call, Daemon}
use cattle.Engine.Methods as Method
use cattle.Engine.Networks.{get_network}
use cattle.Swarm.Data.{PendingContainer, Settings, Fleet, SwarmError, on_engine}
use cattle.Swarm.Views.{check_name_uniqueness, all_networks}
use cattle.Swarm.Create.{
  place, begin_create, entered, identified, create_once, retry, after_first, create_container,
  continue_create, finish_create, rounds, wants_affinity, without_affinity, with_affinity, attached,
  on_network,
}

-- The identifier of a configuration is none of its expressions.
stored-swarm_id :
    (key v : Text) (c : ContainerConfig)
    → swarm_label key ≢ swarm_label (text "id")
    → swarm_id (set_label key v c) ≡ swarm_id c
unfolding swarm_id set_label label_or_empty
stored-swarm_id key v c apart =
    rw
      (
        label_or_empty,
        lookup-insert_other (swarm_label key) (swarm_label (text "id")) v c.config_labels apart,
      )
      refl

module _ {W : Type 0} (s : Settings W) where
  with_affinity-swarm_id :
      (image : Bool) (c : ContainerConfig) → swarm_id (with_affinity s image c) ≡ swarm_id c
  unfolding with_affinity add_expr store_exprs text_eq
  with_affinity-swarm_id true c =
      stored-swarm_id (text "affinities") _ c
        (text_eq_apart (swarm_label (text "affinities")) (swarm_label (text "id")) refl)
  with_affinity-swarm_id false c = refl

  without_affinity-swarm_id :
      (image : Bool) (c : ContainerConfig) → swarm_id (without_affinity s image c) ≡ swarm_id c
  unfolding without_affinity remove_expr store_exprs text_eq
  without_affinity-swarm_id true c =
      stored-swarm_id (text "affinities") _ c
        (text_eq_apart (swarm_label (text "affinities")) (swarm_label (text "id")) refl)
  without_affinity-swarm_id false c = refl

  on_network-swarm_id :
      (o : Option Network) (c : ContainerConfig) → swarm_id (on_network s o c) ≡ swarm_id c
  unfolding on_network swarm_id add_expr store_exprs text_eq
  on_network-swarm_id none c = refl
  on_network-swarm_id (some n) c = elim (Bool-cases (text_eq n.scope (text "local"))) [
    | inr wide ↦ rw wide refl
    | inl within ↦ elim (Bool-cases (have_node_constraint s.json c)) [
      | inl bound ↦ rw (within, bound) refl
      | inr loose ↦
          rw (within, loose)
            (stored-swarm_id (text "constraints") _ c
              (text_eq_apart (swarm_label (text "constraints")) (swarm_label (text "id")) refl))
    ]
  ]

  kept_config : Bool → ContainerConfig → Fleet W → ContainerConfig
  kept_config image c f = without_affinity s image (with_affinity s image (attached s c f))

  kept_config-swarm_id :
      (image : Bool) (c : ContainerConfig) (f : Fleet W)
      → swarm_id (kept_config image c f) ≡ swarm_id c
  unfolding kept_config attached
  kept_config-swarm_id image c f =
      without_affinity-swarm_id image (with_affinity s image (attached s c f))
      ∙ with_affinity-swarm_id image (attached s c f)
      ∙ on_network-swarm_id
          (get_network s.truncate_id c.host_config.network_mode (all_networks f.registry.engines)) c

  -- A method of an engine leaves the pending containers alone.
  pub on_engine-pending :
      {A : Type 0} (key : Text) (call : Daemon W → Call W A) (f : Fleet W)
      → (on_engine s key call f).1.pending_containers ≡ f.pending_containers
  unfolding on_engine
  on_engine-pending key call f = elim (Option-cases (lookup key f.registry.engines)) [
    | inr (e, there) ↦ rw (on_engine, there) refl
    | inl free ↦ elim (Option-cases (lookup key f.gone)) [
      | inr (e, there) ↦ rw (on_engine, free, there) refl
      | inl free2 ↦ rw (on_engine, free, free2) refl
    ]
  ]

delete-absent {ℓ} :
    {V : Type ℓ} (k : Text) (m : List (Text × V)) → lookup k m ≡ none → delete k m ≡ m
unfolding lookup delete
delete-absent k [] h = refl
delete-absent {V = V} k ((j, v) ∷ m) h = elim (Bool-cases (text_eq j k)) [
  | inl same ↦ let h' : ◌≡◌ {A = Option V} (some v) none = rw (same, lookup) at h in cc h'
  | inr other ↦ rw other (ap (λ r. (j, v) ∷ r) (delete-absent k m (rw (other, lookup) at h)))
]

delete-insert {ℓ} :
    {V : Type ℓ} (k : Text) (w : V) (m : List (Text × V))
    → lookup k m ≡ none
    → delete k (insert k w m) ≡ m
unfolding lookup delete insert
delete-insert k w [] h = rw (text_eq_refl k) refl
delete-insert {V = V} k w ((j, v) ∷ m) h = elim (Bool-cases (text_eq j k)) [
  | inl same ↦ let h' : ◌≡◌ {A = Option V} (some v) none = rw (same, lookup) at h in cc h'
  | inr other ↦
      rw (other, delete, other)
        (ap (λ r. (j, v) ∷ r) (delete-insert k w m (rw (other, lookup) at h)))
]

module _ {W : Type 0} (s : Settings W) where
  -- What a creation leaves pending, unless it panics.
  abbrev pub IsReleased :
      {A : Type 0} → List (Text × PendingContainer) → Outcome SwarmError A × Fleet W → Type 0
  IsReleased ps (panic, f) = Unit
  IsReleased ps (err x, f) = f.pending_containers ≡ ps
  IsReleased ps (ok a, f) = f.pending_containers ≡ ps

  finished-IsReleased :
      {A : Type 0} (id : Text) (p : PendingContainer) (ps : List (Text × PendingContainer))
      (r : Outcome SwarmError A) (f : Fleet W)
      → lookup id ps ≡ none
      → f.pending_containers ≡ insert id p ps
      → IsReleased ps (finish_create s id (r, f))
  unfolding finish_create
  finished-IsReleased id p ps panic f free there = tt
  finished-IsReleased id p ps (err x) f free there =
      ap (delete id) there ∙ delete-insert id p ps free
  finished-IsReleased id p ps (ok a) f free there =
      ap (delete id) there ∙ delete-insert id p ps free

  continued-IsReleased :
      (name : Text) (c : ContainerConfig) (f : Fleet W) (r : Outcome SwarmError (Text × Engine))
      → lookup (swarm_id c) f.pending_containers ≡ none
      → IsReleased f.pending_containers (continue_create s name c (entered s name c f r))
  unfolding continue_create entered
  continued-IsReleased name c f panic free = tt
  continued-IsReleased name c f (err x) free = refl
  continued-IsReleased name c f (ok (key, e)) free =
      let p : PendingContainer = record {
        pending_config = c;
        pending_name = name;
        pending_engine = e.about;
      } in
      let g : Fleet W = record f {
        pending_containers = insert (swarm_id c) p f.pending_containers;
      } in
      let out = on_engine s key (λ daemon. Method.create_container daemon c name true) g in
      finished-IsReleased (swarm_id c) p f.pending_containers out.0 out.1 free
        (on_engine-pending s key (λ daemon. Method.create_container daemon c name true) g)

  -- A result that leaves the pending containers as they were, with a configuration of the identifier.
  abbrev pub IsSettled :
      List (Text × PendingContainer)
      → Text
      → ContainerConfig × (Outcome SwarmError Container × Fleet W)
      → Type 0
  IsSettled ps q (c, out) = IsReleased ps out × (swarm_id c ≡ q)

  identified_known :
      (b : ℕ) (id : Text) (c : ContainerConfig) (f : Fleet W)
      → swarm_id c ≡ b ∷ id
      → identified s c f ≡ some c
  unfolding identified
  identified_known b id c f known = rw (identified, known) refl

  place-IsSettled :
      (name : Text) (image : Bool) (c : ContainerConfig) (f : Fleet W)
      → lookup (swarm_id c) f.pending_containers ≡ none
      → IsSettled f.pending_containers (swarm_id c) (
        (place s name image c f).0,
        continue_create s name (place s name image c f).0 (place s name image c f).1,
      )
  unfolding place kept_config
  place-IsSettled name image c f absent =
      let kept = kept_config s image c f in
      let same = kept_config-swarm_id s image c f in
      (
        continued-IsReleased name kept f _
            (subst (λ q. lookup q f.pending_containers ≡ none) (sym same) absent),
        same,
      )

  once-IsSettled :
      (name : Text) (image : Bool) (b : ℕ) (id : Text) (c : ContainerConfig) (f : Fleet W)
      → swarm_id c ≡ b ∷ id
      → lookup (swarm_id c) f.pending_containers ≡ none
      → IsSettled f.pending_containers (swarm_id c) (create_once s name image c f)
  unfolding create_once begin_create continue_create
  once-IsSettled name image b id c f known absent =
      elim (Bool-cases (check_name_uniqueness name f.registry.engines f.pending_containers)) [
        | inr taken ↦ rw (begin_create, taken) (refl, refl)
        | inl free ↦
            rw (begin_create, free, identified_known b id c f known)
              (place-IsSettled name image c f absent)
      ]

  again-IsSettled :
      (name : Text) (image : Bool) (b : ℕ) (id : Text) (c : ContainerConfig) (f : Fleet W)
      (ps : List (Text × PendingContainer))
      → lookup (b ∷ id) ps ≡ none
      → swarm_id c ≡ b ∷ id
      → f.pending_containers ≡ ps
      → IsSettled ps (b ∷ id) (create_once s name image c f)
  again-IsSettled name image b id c f ps absent known same =
      let there : lookup (swarm_id c) f.pending_containers ≡ none = rw (known, same) absent in
      subst (λ x. IsSettled x (b ∷ id) (create_once s name image c f)) same
        (subst (λ q. IsSettled f.pending_containers q (create_once s name image c f)) known
          (once-IsSettled name image b id c f known there))

  retry-IsSettled :
      (n : ℕ) (name : Text) (b : ℕ) (id : Text) (ps : List (Text × PendingContainer))
      (r : ContainerConfig × (Outcome SwarmError Container × Fleet W))
      → lookup (b ∷ id) ps ≡ none
      → IsSettled ps (b ∷ id) r
      → IsSettled ps (b ∷ id) (retry s n name r)
  unfolding retry
  retry-IsSettled zero name b id ps r absent h = h
  retry-IsSettled (suc n) name b id ps (c, (panic, f)) absent h = h
  retry-IsSettled (suc n) name b id ps (c, (ok v, f)) absent h = h
  retry-IsSettled (suc n) name b id ps (c, (err x, f)) absent (same, known) =
      retry-IsSettled n name b id ps (create_once s name false c f) absent
        (again-IsSettled name false b id c f ps absent known same)

  after_first-IsSettled :
      (name : Text) (b : ℕ) (id : Text) (ps : List (Text × PendingContainer))
      (r : ContainerConfig × (Outcome SwarmError Container × Fleet W))
      → lookup (b ∷ id) ps ≡ none
      → IsSettled ps (b ∷ id) r
      → IsSettled ps (b ∷ id) (after_first s name r)
  unfolding after_first
  after_first-IsSettled name b id ps (c, (panic, f)) absent h = h
  after_first-IsSettled name b id ps (c, (ok v, f)) absent h = h
  after_first-IsSettled name b id ps (c, (err x, f)) absent (same, known) =
      elim (Bool-cases (wants_affinity s x c f)) [
        | inl again ↦ rw again (
            retry-IsSettled (rounds s s.create_retry 1) name b id ps (create_once s name true c f)
              absent (again-IsSettled name true b id c f ps absent known same))
        | inr not_again ↦ rw not_again (
            retry-IsSettled (rounds s s.create_retry 0) name b id ps (c, (err x, f)) absent
              (same, known))
      ]

  -- For a configuration whose Swarm ID is not empty and not pending, CreateContainer, with all
  -- its attempts, leaves the pending containers as they were when it returns, with an error or
  -- without, and the Swarm ID of the configuration stays.
  pub create_container-IsSettled :
      (name : Text) (b : ℕ) (id : Text) (c : ContainerConfig) (f : Fleet W)
      → swarm_id c ≡ b ∷ id
      → lookup (b ∷ id) f.pending_containers ≡ none
      → IsSettled f.pending_containers (b ∷ id) (create_container s name c f)
  unfolding create_container
  create_container-IsSettled name b id c f known absent =
      after_first-IsSettled name b id f.pending_containers (create_once s name false c f) absent
        (again-IsSettled name false b id c f f.pending_containers absent known refl)
