-- ===== src/Swarm/Create/Interleaved.antt =====
-- Creations that run at the same time. Their parts under the scheduler's lock, and the work of the
-- engines, are the steps.
use cattle.Prelude.{
  zero, suc, ℕ, ◌+◌, ◌≤◌, ◌≡◌, refl, sym, subst, Bool, true, false, not, ◌&&◌, List, [], ◌∷◌, Text,
  text_eq, text_eq→eq, any, Outcome, ok, err, panic, Bool-cases, Option-cases, inl, inr,
  if◌then◌else◌, arith,
}
use cattle.Cluster.Data.{Container, ContainerConfig, insert, delete}
use cattle.Cluster.Config.{swarm_id}
use cattle.Engine.Data.{Engine}
use cattle.Engine.Methods as Method
use cattle.Swarm.Data.{PendingContainer, Settings, Fleet, SwarmError, on_engine}
use cattle.Swarm.Views.{check_name_uniqueness, bears_name, pends_name, all_containers}
use cattle.Swarm.Create.Released.{on_engine-pending}
use cattle.Swarm.Create.{
  place, begin_create, entered, identified, create_once, retry, after_first, create_container,
  continue_create, finish_create, rounds, wants_affinity, without_affinity, with_affinity, attached,
}

-- The pending containers with a name.
unfoldable pub count : Text → List (Text × PendingContainer) → ℕ
unfolding text_eq
count name [] = 0
count name ((k, p) ∷ ps) = (if text_eq p.pending_name name then 1 else 0) + count name ps

count-delete_le :
    (name k : Text) (ps : List (Text × PendingContainer)) → count name (delete k ps) ≤ count name ps
unfolding delete count
count-delete_le name k [] = omega arith
count-delete_le name k ((j, p) ∷ ps) = elim (Bool-cases (text_eq j k)) [
  | inl same ↦ rw same (omega (arith, count-delete_le name k ps))
  | inr other ↦ rw other (omega (arith, count-delete_le name k ps))
]

count-insert_le :
    (name k : Text) (p : PendingContainer) (ps : List (Text × PendingContainer))
    → count name (insert k p ps) ≤ (if text_eq p.pending_name name then 1 else 0) + count name ps
unfolding insert count
count-insert_le name k p [] = omega arith
count-insert_le name k p ((j, q) ∷ ps) = elim (Bool-cases (text_eq j k)) [
  | inl same ↦ rw same (omega arith)
  | inr other ↦ rw other (omega (arith, count-insert_le name k p ps))
]

count-none :
    (name : Text) (ps : List (Text × PendingContainer))
    → any (pends_name name) ps ≡ false
    → count name ps ≡ 0
unfolding any pends_name count
count-none name [] h = refl
count-none name ((k, p) ∷ ps) h = elim (Bool-cases (text_eq p.pending_name name)) [
  | inl same ↦ let h' : true ≡ false = rw same at h in cc h'
  | inr other ↦ rw other (omega (arith, count-none name ps (rw (other, any) at h)))
]

and_false : (b : Bool) → (b && false) ≡ false
and_false true = refl
and_false false = refl

-- A name that is free is not pending.
free_name :
    (b : ℕ) (name : Text) (es : List (Text × Engine)) (ps : List (Text × PendingContainer))
    → check_name_uniqueness (b ∷ name) es ps ≡ true
    → any (pends_name (b ∷ name)) ps ≡ false
unfolding check_name_uniqueness
free_name b name es ps h = elim (Bool-cases (any (pends_name (b ∷ name)) ps)) [
  | inr f ↦ f
  | inl t ↦
      let h' : (not (any (bears_name (b ∷ name)) (all_containers es)) && false) ≡ true =
        rw t at h in
      cc (h', and_false (not (any (bears_name (b ∷ name)) (all_containers es))))
]

module _ {W : Type 0} (s : Settings W) where
  -- The steps: a creation starts, one ends, and anything else, which leaves the pending ones alone.
  pub data Step : Fleet W → Fleet W → Type 0 where
    began :
        (name : Text) (image : Bool) (c : ContainerConfig) (f : Fleet W)
        → Step f (begin_create s name image c f).1.1
    ended :
        (id : Text) (f : Fleet W)
        → Step f (record f { pending_containers = delete id f.pending_containers })
    moved : (f g : Fleet W) → g.pending_containers ≡ f.pending_containers → Step f g

  pub data Steps : Fleet W → Fleet W → Type 0 where
    start : (f : Fleet W) → Steps f f
    more : {f g h : Fleet W} → Steps f g → Step g h → Steps f h

  abbrev IsApart : Fleet W → Type 0
  unfolding count
  IsApart f = (b : ℕ) (name : Text) → count (b ∷ name) f.pending_containers ≤ 1

  entered-IsApart :
      (name : Text) (c : ContainerConfig) (f : Fleet W) (r : Outcome SwarmError (Text × Engine))
      → check_name_uniqueness name f.registry.engines f.pending_containers ≡ true
      → IsApart f
      → IsApart (entered s name c f r).1
  unfolding IsApart entered count
  entered-IsApart name c f panic free apart b n = apart b n
  entered-IsApart name c f (err x) free apart b n = apart b n
  entered-IsApart name c f (ok (key, e)) free apart b n =
      let p : PendingContainer = record {
        pending_config = c;
        pending_name = name;
        pending_engine = e.about;
      } in
      let few = count-insert_le (b ∷ n) (swarm_id c) p f.pending_containers in
      elim (Bool-cases (text_eq name (b ∷ n))) [
        | inr other ↦
            let few' : count (b ∷ n) (insert (swarm_id c) p f.pending_containers)
                ≤ 0 + count (b ∷ n) f.pending_containers =
              rw other at few in
            omega (arith, few', apart b n)
        | inl same ↦
            let free' =
              subst (λ x. check_name_uniqueness x f.registry.engines f.pending_containers ≡ true)
                (text_eq→eq name (b ∷ n) same) free in
            let zero_there =
              count-none (b ∷ n) f.pending_containers
                (free_name b n f.registry.engines f.pending_containers free') in
            let few' : count (b ∷ n) (insert (swarm_id c) p f.pending_containers)
                ≤ 1 + count (b ∷ n) f.pending_containers =
              rw same at few in
            omega (arith, few', zero_there)
      ]

  began-IsApart :
      (name : Text) (image : Bool) (c : ContainerConfig) (f : Fleet W)
      → IsApart f
      → IsApart (begin_create s name image c f).1.1
  unfolding IsApart begin_create place count
  began-IsApart name image c f apart =
      elim (Bool-cases (check_name_uniqueness name f.registry.engines f.pending_containers)) [
        | inr taken ↦ rw (begin_create, taken) apart
        | inl free ↦ elim (Option-cases (identified s c f)) [
          | inl none_left ↦ rw (begin_create, free, none_left) apart
          | inr (c', found) ↦
              rw (begin_create, free, found)
                (entered-IsApart name
                  (without_affinity s image (with_affinity s image (attached s c' f))) f _ free
                  apart)
        ]
      ]

  Step-IsApart : (f g : Fleet W) → Step f g → IsApart f → IsApart g
  unfolding IsApart count
  Step-IsApart _ _ (began name image c f) apart b n = began-IsApart name image c f apart b n
  Step-IsApart _ _ (ended id f) apart b n =
      omega (arith, apart b n, count-delete_le (b ∷ n) id f.pending_containers)
  Step-IsApart _ _ (moved f g same) apart b n =
      subst (λ ps. count (b ∷ n) ps ≤ 1) (sym same) (apart b n)

  Steps-IsApart : (f g : Fleet W) → Steps f g → IsApart f → IsApart g
  unfolding IsApart count
  Steps-IsApart _ _ (start f) apart = apart
  Steps-IsApart f h (more {g = g} run step) apart =
      Step-IsApart g h step (Steps-IsApart f g run apart)

  -- From a cluster without pending containers, however creations begin and end and the engines
  -- work in between, at most one pending container has a given name that is not empty.
  pub Steps-apart :
      (f g : Fleet W) (b : ℕ) (name : Text)
      → Steps f g
      → f.pending_containers ≡ []
      → count (b ∷ name) g.pending_containers ≤ 1
  unfolding IsApart count
  Steps-apart f g b name run empty =
      Steps-IsApart f g run (λ d n. rw (empty, count) (omega arith)) b name

  finished-Steps :
      {A : Type 0} (f : Fleet W) (id : Text) (out : Outcome SwarmError A × Fleet W)
      → Steps f out.1
      → Steps f (finish_create s id out).1
  unfolding finish_create
  finished-Steps f id (panic, g) run = run
  finished-Steps f id (err x, g) run = more run (ended id g)
  finished-Steps f id (ok a, g) run = more run (ended id g)

  continued-Steps :
      (f : Fleet W) (name : Text) (c : ContainerConfig)
      (out : Outcome SwarmError (Text × Text) × Fleet W)
      → Steps f out.1
      → Steps f (continue_create s name c out).1
  unfolding continue_create
  continued-Steps f name c (panic, g) run = run
  continued-Steps f name c (err x, g) run = run
  continued-Steps f name c (ok (id, key), g) run =
      let call = on_engine s key (λ daemon. Method.create_container daemon c name true) g in
      finished-Steps f id call (
        more run (
          moved g call.1
            (on_engine-pending s key (λ daemon. Method.create_container daemon c name true) g)))

  once-Steps :
      (f g : Fleet W) (name : Text) (image : Bool) (c : ContainerConfig)
      → Steps f g
      → Steps f (create_once s name image c g).1.1
  unfolding create_once
  once-Steps f g name image c run =
      continued-Steps f name (begin_create s name image c g).0 (begin_create s name image c g).1
        (more run (began name image c g))

  retry-Steps :
      (n : ℕ) (f : Fleet W) (name : Text)
      (r : ContainerConfig × (Outcome SwarmError Container × Fleet W))
      → Steps f r.1.1
      → Steps f (retry s n name r).1.1
  unfolding retry
  retry-Steps zero f name r run = run
  retry-Steps (suc n) f name (c, (panic, g)) run = run
  retry-Steps (suc n) f name (c, (ok v, g)) run = run
  retry-Steps (suc n) f name (c, (err x, g)) run =
      retry-Steps n f name (create_once s name false c g) (once-Steps f g name false c run)

  after_first-Steps :
      (f : Fleet W) (name : Text) (r : ContainerConfig × (Outcome SwarmError Container × Fleet W))
      → Steps f r.1.1
      → Steps f (after_first s name r).1.1
  unfolding after_first
  after_first-Steps f name (c, (panic, g)) run = run
  after_first-Steps f name (c, (ok v, g)) run = run
  after_first-Steps f name (c, (err x, g)) run = elim (Bool-cases (wants_affinity s x c g)) [
    | inl again ↦ rw again (
        retry-Steps (rounds s s.create_retry 1) f name (create_once s name true c g)
          (once-Steps f g name true c run))
    | inr no_more ↦ rw no_more (retry-Steps (rounds s s.create_retry 0) f name (c, (err x, g)) run)
  ]

  -- The creation of a container is a run of such steps.
  create_container-Steps :
      (name : Text) (c : ContainerConfig) (f : Fleet W) → Steps f (create_container s name c f).1.1
  unfolding create_container
  create_container-Steps name c f =
      after_first-Steps f name (create_once s name false c f)
        (once-Steps f f name false c (start f))
