-- ===== src/Swarm/Images.antt =====
-- cluster/swarm/cluster.go: the images of the engines, removed, tagged and pulled.
use cattle.Prelude.{
  Bool, true, List, [], ◌∷◌, ◌++◌, Option, none, some, Text, text, Outcome, ok, err, panic,
  if◌then◌else◌,
}
use cattle.Cluster.Data.{lookup}
use cattle.Cluster.Images.{Image, image_matches}
use cattle.Engine.Data.{Engine, ApiError}
use cattle.Engine.Methods as Method
use cattle.Swarm.Data.{
  Settings, SwarmError, engine_failed, no_such_image, joined, Job, pure, ◌>>=◌, attempt, on_engine,
}

-- `if len(errs) > 0`
abbrev pub joined_error : List (Text × ApiError) → Option SwarmError
joined_error [] = none
joined_error (x ∷ xs) = some (joined (x ∷ xs))

-- An answer, or the error with the name of the engine, before the others.
abbrev pub gathered_answers :
    {A : Type 0}
    → Text
    → Outcome SwarmError (List A)
    → List A × List (Text × ApiError)
    → List A × List (Text × ApiError)
gathered_answers engine_name (ok answer) (out, errs) = (answer ++ out, errs)
gathered_answers engine_name (err (engine_failed x)) (out, errs) = (out, (engine_name, x) ∷ errs)
gathered_answers engine_name (err other) (out, errs) = (out, errs)
gathered_answers engine_name panic (out, errs) = (out, errs)

abbrev pub with_error : {A : Type 0} → A × List (Text × ApiError) → A × Option SwarmError
with_error (out, errs) = (out, joined_error errs)

abbrev pub joined_with :
    {A : Type 0}
    → List A × List (Text × ApiError)
    → List A × List (Text × ApiError)
    → List A × List (Text × ApiError)
joined_with (out, errs) (out', errs') = (out ++ out', errs ++ errs')

abbrev pub tag_result :
    Text → List (Unit {0}) × List (Text × ApiError) → Outcome SwarmError (Unit {0})
tag_result q ([], errs) = err (no_such_image q)
tag_result q (_ ∷ _, []) = ok tt
tag_result q (_ ∷ _, x ∷ xs) = err (joined (x ∷ xs))

-- The images of an engine when the loop comes to it.
abbrev pub images_at : Text → List (Text × Engine) → List Image
unfolding lookup
images_at key es = elim (lookup key es) [ none ↦ [] | some e ↦ e.images ]

-- A tag counts as found also where its engine refused it.
abbrev pub tagged :
    Text
    → Outcome SwarmError (Unit {0})
    → List (Unit {0}) × List (Text × ApiError)
    → List (Unit {0}) × List (Text × ApiError)
tagged engine_name (ok _) (found, errs) = (tt ∷ found, errs)
tagged engine_name (err (engine_failed x)) (found, errs) = (tt ∷ found, (engine_name, x) ∷ errs)
tagged engine_name (err other) (found, errs) = (tt ∷ found, errs)
tagged engine_name panic (found, errs) = (tt ∷ found, errs)

abbrev pub pulled : Text → Outcome SwarmError (Unit {0}) → Text × Text × Option SwarmError
pulled engine_name (ok _) = (engine_name, text "downloaded", none)
pulled engine_name (err x) = (engine_name, [], some x)
pulled engine_name panic = (engine_name, [], none)

module _ {W : Type 0} (s : Settings W) where
  -- RemoveImages, on one engine: every image that matches.
  unfoldable pub remove_on :
      Text → Bool → Text → Text → List Image → Job W (List Text × List (Text × ApiError))
  unfolding image_matches on_engine Method.remove_image
  remove_on name force key engine_name [] = pure ([], [])
  remove_on name force key engine_name (i ∷ is) =
      if image_matches i name true
      then (do
        r ← attempt (on_engine s key (λ daemon. Method.remove_image daemon name force))
        rest ← remove_on name force key engine_name is
        pure (gathered_answers engine_name r rest))
      else remove_on name force key engine_name is

  unfoldable pub remove_each :
      Text → Bool → List (Text × Engine) → Job W (List Text × List (Text × ApiError))
  unfolding remove_on images_at
  remove_each name force [] f = (ok ([], []), f)
  remove_each name force ((k, e) ∷ es) f =
      (do
        here ← remove_on name force k e.about.engine_name (images_at k f.registry.engines)
        rest ← remove_each name force es
        pure (joined_with here rest))
        f

  -- RemoveImages: what was removed, and the error.
  unfoldable pub remove_images : Text → Bool → Job W (List Text × Option SwarmError)
  unfolding remove_each
  remove_images name force f =
      (do r ← remove_each name force f.registry.engines; pure (with_error r)) f

  -- TagImage, on one engine. `tt` stands for an image that was found.
  unfoldable pub tag_on :
      Text → Text → Text → Text → List Image → Job W (List (Unit {0}) × List (Text × ApiError))
  unfolding image_matches on_engine Method.tag_image
  tag_on q ref key engine_name [] = pure ([], [])
  tag_on q ref key engine_name (i ∷ is) =
      if image_matches i q true
      then (do
        r ← attempt (on_engine s key (λ daemon. Method.tag_image daemon q ref))
        rest ← tag_on q ref key engine_name is
        pure (tagged engine_name r rest))
      else tag_on q ref key engine_name is

  unfoldable pub tag_each :
      Text → Text → List (Text × Engine) → Job W (List (Unit {0}) × List (Text × ApiError))
  unfolding tag_on images_at
  tag_each q ref [] f = (ok ([], []), f)
  tag_each q ref ((k, e) ∷ es) f =
      (do
        here ← tag_on q ref k e.about.engine_name (images_at k f.registry.engines)
        rest ← tag_each q ref es
        pure (joined_with here rest))
        f

  -- TagImage
  unfoldable pub tag_image : Text → Text → Job W (Unit {0})
  unfolding tag_each
  tag_image q ref f = (do r ← tag_each q ref f.registry.engines; (λ f'. (tag_result q r, f'))) f

  -- What the callback of Pull is told: the engine, the status, the error.
  unfoldable pub pull_each :
      Text → List (Text × Engine) → Job W (List (Text × Text × Option SwarmError))
  unfolding on_engine Method.pull
  pull_each name [] = pure []
  pull_each name ((k, e) ∷ es) = do
    r ← attempt (on_engine s k (λ daemon. Method.pull daemon name))
    told ← pull_each name es
    pure ((e.about.engine_name, [], none) ∷ pulled e.about.engine_name r ∷ told)

  -- Pull, with a callback, the engines one after another.
  unfoldable pub pull : Text → Job W (List (Text × Text × Option SwarmError))
  unfolding pull_each
  pull name f = pull_each name f.registry.engines f
