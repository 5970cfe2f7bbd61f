-- ===== src/Engine/Keeping.antt =====
-- What holds of an engine whatever its calls do: a healthy engine has failed less often than it may.
pub mod Handling
use cattle.Prelude.{
  Bool, true, false, not, ◌||◌, List, [], ◌∷◌, Option, none, some, Text, text, text_eq, contains,
  has_prefix, Outcome, ok, err, panic, arith, Bool-cases, inl, inr, if◌then◌else◌, eqb_ℤ, pos,
}
use cattle.Cluster.Data.{ContainerConfig, ContainerInfo, Container, ContainerConfig, lookup, delete}
use cattle.Engine.Data.{Engine, ApiError, Network, Volume}
use cattle.Engine.Health.{check_connection_err}
use cattle.Engine.Health.States.{IsSteady, check_connection_err-IsSteady}
use cattle.Engine.Call.{
  Daemon, Call, Machine, Event, Summary, pure, fail, ◌>>=◌, attempt, get_engine, change,
  checked_call, next_call, emit_events, error_of,
}
use cattle.Engine.Cache.{
  refresh_images, refresh_networks, refresh_volumes, store_network, refresh_network, store_volume,
  refresh_volume, inspect_container, known_as, config_of, update_known, update_container, merged_or,
  merge_all, refresh_containers, refresh_listed, refresh_container, is_restarting, delete_network,
}

module _ {W : Type 0} where
  -- The call leaves a steady engine steady.
  pub record Keeps {A : Type 0} (call : Call W A) : Type 0 where
    pub holds : (m : Machine W) → IsSteady m.engine → IsSteady (call m).1.engine

  next_call-Keeps :
      {A B : Type 0} (f : A → Call W B)
      → ((a : A) → Keeps (f a))
      → (r : Outcome ApiError A × Machine W) → IsSteady r.1.engine
      → IsSteady (next_call f r).1.engine
  unfolding next_call
  next_call-Keeps f keeps (ok a, m) h = (keeps a).holds m h
  next_call-Keeps f keeps (err x, m) h = h
  next_call-Keeps f keeps (panic, m) h = h

  pub bind-Keeps :
      {A B : Type 0} {call : Call W A} {f : A → Call W B}
      → Keeps call
      → ((a : A) → Keeps (f a))
      → Keeps (call >>= f)
  unfolding ◌>>=◌
  bind-Keeps {call = call} {f = f} first rest = record {
    holds = λ m h. next_call-Keeps f rest (call m) (first.holds m h);
  }

  pub attempt-Keeps : {A : Type 0} {call : Call W A} → Keeps call → Keeps (attempt call)
  unfolding attempt
  attempt-Keeps keeps = record { holds = λ m h. keeps.holds m h }

  pub pure-Keeps : {A : Type 0} (a : A) → Keeps (pure a)
  unfolding pure
  pure-Keeps a = record { holds = λ m h. h }

  pub fail-Keeps : {A : Type 0} (x : ApiError) → Keeps (fail {A = A} x)
  unfolding fail
  fail-Keeps x = record { holds = λ m h. h }

  pub get_engine-Keeps : Keeps (get_engine {W = W})
  unfolding get_engine
  get_engine-Keeps = record { holds = λ m h. h }

  pub change-Keeps :
      (f : Engine → Engine) → ((e : Engine) → IsSteady e → IsSteady (f e)) → Keeps (change f)
  unfolding change
  change-Keeps f steady = record { holds = λ m h. steady m.engine h }

  pub emit_events-Keeps : (told : List Event) → Keeps (emit_events told)
  unfolding emit_events
  emit_events-Keeps told = record { holds = λ m h. h }

  -- A result that is given as it is.
  pub give-Keeps : {A : Type 0} (r : Outcome ApiError A) → Keeps (λ m. (r, m))
  give-Keeps r = record { holds = λ m h. h }

  pub if-Keeps :
      {A : Type 0} (b : Bool) {c d : Call W A} → Keeps c → Keeps d → Keeps (if b then c else d)
  if-Keeps true hc hd = hc
  if-Keeps false hc hd = hd

  pub checked_call-Keeps :
      {A : Type 0} (daemon : Daemon W) (api : W → Outcome ApiError A × W)
      → Keeps (checked_call daemon api)
  unfolding checked_call
  checked_call-Keeps daemon api = record {
    holds = λ m h.
        let (r, w) = api m.world in
        check_connection_err-IsSteady (daemon.clock w) (error_of r) m.engine h;
  }

module _ {W : Type 0} (daemon : Daemon W) where
  pub refresh_images-Keeps : Keeps (refresh_images daemon)
  unfolding refresh_images
  refresh_images-Keeps =
      bind-Keeps (checked_call-Keeps daemon _) (λ images. change-Keeps _ (λ e h. h))

  pub refresh_networks-Keeps : Keeps (refresh_networks daemon)
  unfolding refresh_networks
  refresh_networks-Keeps =
      bind-Keeps (checked_call-Keeps daemon _) (λ networks. change-Keeps _ (λ e h. h))

  pub refresh_volumes-Keeps : Keeps (refresh_volumes daemon)
  unfolding refresh_volumes
  refresh_volumes-Keeps =
      bind-Keeps (checked_call-Keeps daemon _) (λ volumes. change-Keeps _ (λ e h. h))

  store_network-Keeps :
      (id : Text) (r : Outcome ApiError Network) → Keeps (store_network daemon id r)
  unfolding store_network delete_network
  store_network-Keeps id (ok n) = change-Keeps _ (λ e h. h)
  store_network-Keeps id (err x) =
      if-Keeps (contains x.message (text "No such network")) (change-Keeps _ (λ e h. h))
        (fail-Keeps x)
  store_network-Keeps id panic = give-Keeps panic

  pub refresh_network-Keeps : (id : Text) → Keeps (refresh_network daemon id)
  unfolding refresh_network
  refresh_network-Keeps id =
      bind-Keeps (attempt-Keeps (checked_call-Keeps daemon _)) (store_network-Keeps id)

  store_volume-Keeps :
      (name : Text) (r : Outcome ApiError Volume) → Keeps (store_volume daemon name r)
  unfolding store_volume
  store_volume-Keeps name (ok v) = change-Keeps _ (λ e h. h)
  store_volume-Keeps name (err x) =
      if-Keeps (contains x.message (text "No such volume")) (change-Keeps _ (λ e h. h))
        (fail-Keeps x)
  store_volume-Keeps name panic = give-Keeps panic

  pub refresh_volume-Keeps : (name : Text) → Keeps (refresh_volume daemon name)
  unfolding refresh_volume
  refresh_volume-Keeps name =
      bind-Keeps (attempt-Keeps (checked_call-Keeps daemon _)) (store_volume-Keeps name)

  known_as-Keeps :
      (s : Summary) (e : Engine) (info : ContainerInfo) (raw : Option ContainerConfig)
      → Keeps (known_as daemon s e info raw)
  unfolding known_as
  known_as-Keeps s e info none = give-Keeps panic
  known_as-Keeps s e info (some raw) = pure-Keeps _

  inspect_container-Keeps : (s : Summary) (e : Engine) → Keeps (inspect_container daemon s e)
  unfolding inspect_container
  inspect_container-Keeps s e =
      bind-Keeps (checked_call-Keeps daemon _) (λ i. known_as-Keeps s e i.raw_info (config_of i))

  update_known-Keeps :
      (s : Summary) (full : Bool) (e : Engine) (known : Option Container)
      → Keeps (update_known daemon s full e known)
  unfolding update_known
  update_known-Keeps s full e none = inspect_container-Keeps s e
  update_known-Keeps s full e (some c) =
      if-Keeps (full || is_restarting c.info.info_state) (inspect_container-Keeps s e)
        (pure-Keeps _)

  update_container-Keeps :
      (s : Summary) (cs : List (Text × Container)) (full : Bool)
      → Keeps (update_container daemon s cs full)
  unfolding update_container
  update_container-Keeps s cs full = bind-Keeps get_engine-Keeps (λ e.
      bind-Keeps (update_known-Keeps s full e (lookup s.summary_id e.containers))
        (λ c. pure-Keeps _))

  merged_or-Keeps :
      (merged : List (Text × Container)) (r : Outcome ApiError (List (Text × Container)))
      → Keeps (merged_or daemon merged r)
  merged_or-Keeps merged (ok cs) = pure-Keeps cs
  merged_or-Keeps merged (err x) = pure-Keeps merged
  merged_or-Keeps merged panic = give-Keeps panic

  merge_all-Keeps :
      (ss : List Summary) (merged : List (Text × Container)) (full : Bool)
      → Keeps (merge_all daemon ss merged full)
  unfolding merge_all
  merge_all-Keeps [] merged full = pure-Keeps merged
  merge_all-Keeps (s ∷ ss) merged full =
      bind-Keeps (attempt-Keeps (update_container-Keeps s merged full))
        (λ r. bind-Keeps (merged_or-Keeps merged r) (λ merged'. merge_all-Keeps ss merged' full))

  pub refresh_containers-Keeps : (full : Bool) → Keeps (refresh_containers daemon full)
  unfolding refresh_containers
  refresh_containers-Keeps full =
      bind-Keeps (checked_call-Keeps daemon _)
        (λ ss. bind-Keeps (merge_all-Keeps ss [] full) (λ merged. change-Keeps _ (λ e h. h)))

  refresh_listed-Keeps :
      (id : Text) (full : Bool) (ss : List Summary) → Keeps (refresh_listed daemon id full ss)
  unfolding refresh_listed
  refresh_listed-Keeps id full [] = bind-Keeps (change-Keeps _ (λ e h. h)) (λ u. pure-Keeps none)
  refresh_listed-Keeps id full (s ∷ []) = bind-Keeps get_engine-Keeps (λ e.
      bind-Keeps (update_container-Keeps s e.containers full)
        (λ cs. bind-Keeps (change-Keeps _ (λ e h. h)) (λ u. pure-Keeps _)))
  refresh_listed-Keeps id full (s ∷ t ∷ ss) =
      bind-Keeps (refresh_containers-Keeps full) (λ u. pure-Keeps none)

  pub refresh_container-Keeps : (id : Text) (full : Bool) → Keeps (refresh_container daemon id full)
  unfolding refresh_container
  refresh_container-Keeps id full =
      bind-Keeps (checked_call-Keeps daemon _) (refresh_listed-Keeps id full)
