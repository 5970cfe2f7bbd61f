-- ===== src/Swarm/Create/Reserved.antt =====
-- A creation that is under way keeps its name and its place from every other one.
use cattle.Prelude.{
  zero, suc, ℕ, ◌≡◌, refl, subst, Bool, true, false, not, ◌&&◌, ◌||◌, List, [], ◌∷◌, Option, none,
  some, Text, text_eq, text_eq_refl, any, Outcome, ok, err, panic, Bool-cases, inl, inr,
}
use cattle.Cluster.Data.{ContainerConfig, insert}
use cattle.Cluster.Config.{swarm_id}
use cattle.Engine.Data.{Engine}
use cattle.Swarm.Registry.{Registry}
use cattle.Swarm.Data.{PendingContainer, Settings, Fleet, SwarmError, name_conflict}
use cattle.Swarm.Views.{check_name_uniqueness, bears_name, pends_name, all_containers}
use cattle.Swarm.Create.{
  without_affinity, with_affinity, attached, place, place_identified, begin_create, entered,
  identified, create_once, retry, after_first, create_container, continue_create, rounds,
  wants_affinity,
}

or_true : (b : Bool) → (b || true) ≡ true
or_true true = refl
or_true false = refl

insert_pends :
    (name key : Text) (p : PendingContainer) (ps : List (Text × PendingContainer))
    → text_eq p.pending_name name ≡ true
    → any (pends_name name) (insert key p ps) ≡ true
unfolding any insert pends_name
insert_pends name key p [] same = rw same refl
insert_pends name key p ((k, q) ∷ ps) same = elim (Bool-cases (text_eq k key)) [
  | inl here ↦ rw (here, same) refl
  | inr other ↦ rw (other, insert_pends name key p ps same) (or_true (pends_name name (k, q)))
]

module _ {W : Type 0} (s : Settings W) where
  -- A start that answers has put its name among the pending ones.
  abbrev IsEntered : Text → Outcome SwarmError (Text × Text) × Fleet W → Type 0
  IsEntered name (panic, f) = Unit
  IsEntered name (err x, f) = Unit
  IsEntered name (ok placed, f) = any (pends_name name) f.pending_containers ≡ true

  entered-IsEntered :
      (name : Text) (c : ContainerConfig) (f : Fleet W) (r : Outcome SwarmError (Text × Engine))
      → IsEntered name (entered s name c f r)
  unfolding any pends_name entered insert
  entered-IsEntered name c f panic = tt
  entered-IsEntered name c f (err x) = tt
  entered-IsEntered name c f (ok (key, e)) =
      insert_pends name (swarm_id c)
        (record { pending_config = c; pending_name = name; pending_engine = e.about })
        f.pending_containers (text_eq_refl name)

  placed-IsEntered :
      (name : Text) (image : Bool) (c : ContainerConfig) (o : Option ContainerConfig) (f : Fleet W)
      → IsEntered name (place_identified s name image c o f).1
  unfolding place
  placed-IsEntered name image c none f = tt
  placed-IsEntered name image c (some c') f =
      entered-IsEntered name (without_affinity s image (with_affinity s image (attached s c' f))) f
        _

  begin-IsEntered :
      (name : Text) (image : Bool) (c : ContainerConfig) (f : Fleet W)
      → IsEntered name (begin_create s name image c f).1
  unfolding begin_create
  begin-IsEntered name image c f =
      elim (Bool-cases (check_name_uniqueness name f.registry.engines f.pending_containers)) [
        | inl free ↦ rw free (placed-IsEntered name image c (identified s c f) f)
        | inr taken ↦ rw taken tt
      ]

  taken_name :
      (b : ℕ) (name : Text) (es : List (Text × Engine)) (ps : List (Text × PendingContainer))
      → any (pends_name (b ∷ name)) ps ≡ true
      → check_name_uniqueness (b ∷ name) es ps ≡ false
  unfolding check_name_uniqueness
  taken_name b name es ps there =
      rw there
        (elim (any (bears_name (b ∷ name)) (all_containers es)) as (λ x. (not x && false) ≡ false) [
          | true ↦ refl
          | false ↦ refl
        ])

  -- Once createContainer has put a container with a name that is not empty among the pending
  -- ones, a further createContainer with the name ends in the conflict, whatever has become of
  -- the engines and whatever its configuration, and changes nothing.
  pub begin_create_reserves :
      (b : ℕ) (name : Text) (image : Bool) (c : ContainerConfig) (placed : Text × Text)
      (f g : Fleet W)
      → (begin_create s (b ∷ name) image c f).1 ≡ (ok placed, g)
      → (image' : Bool) (d : ContainerConfig) (r : Registry)
      → begin_create s (b ∷ name) image' d (record g { registry = r })
        ≡ (d, (err (name_conflict (b ∷ name)), record g { registry = r }))
  unfolding begin_create
  begin_create_reserves b name image c placed f g by image' d r =
      let there : any (pends_name (b ∷ name)) g.pending_containers ≡ true =
        subst (IsEntered (b ∷ name)) by (begin-IsEntered (b ∷ name) image c f) in
      rw (begin_create, taken_name b name r.engines g.pending_containers there) refl

  -- Nothing of a refusal for the name changes the cluster, so all the attempts end alike.
  refused_once :
      (b : ℕ) (name : Text) (image : Bool) (c : ContainerConfig) (f : Fleet W)
      → check_name_uniqueness (b ∷ name) f.registry.engines f.pending_containers ≡ false
      → create_once s (b ∷ name) image c f ≡ (c, (err (name_conflict (b ∷ name)), f))
  unfolding create_once begin_create continue_create
  refused_once b name image c f taken = rw (begin_create, taken) refl

  refused_always :
      (n : ℕ) (b : ℕ) (name : Text) (c : ContainerConfig) (f : Fleet W)
      → check_name_uniqueness (b ∷ name) f.registry.engines f.pending_containers ≡ false
      → retry s n (b ∷ name) (c, (err (name_conflict (b ∷ name)), f))
        ≡ (c, (err (name_conflict (b ∷ name)), f))
  unfolding retry
  refused_always zero b name c f taken = refl
  refused_always (suc n) b name c f taken =
      rw (refused_once b name false c f taken) (refused_always n b name c f taken)

  -- For a name that is not empty and not available, CreateContainer ends in the conflict after
  -- all its retries and leaves the cluster and the configuration as they were.
  pub create_container_conflict :
      (b : ℕ) (name : Text) (c : ContainerConfig) (f : Fleet W)
      → check_name_uniqueness (b ∷ name) f.registry.engines f.pending_containers ≡ false
      → create_container s (b ∷ name) c f ≡ (c, (err (name_conflict (b ∷ name)), f))
  unfolding create_container after_first
  create_container_conflict b name c f taken =
      rw (refused_once b name false c f taken)
        (elim (Bool-cases (wants_affinity s (name_conflict (b ∷ name)) c f)) [
          | inl again ↦
              rw (again, refused_once b name true c f taken)
                (refused_always (rounds s s.create_retry 1) b name c f taken)
          | inr once ↦ rw once (refused_always (rounds s s.create_retry 0) b name c f taken)
        ])
