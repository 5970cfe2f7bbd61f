-- ===== src/Swarm/Resources/Answers.antt =====
-- What the callers of the networks and volumes are told.
use cattle.Prelude.{
  some, ◌≢◌, ◌≡◌, refl, sym, ap, Option, none, Text, Outcome, ok, err, panic, ok-injective,
}
use cattle.Engine.Data.{Volume}
use cattle.Swarm.Data.{Settings, Fleet, SwarmError, Job, pure, ◌>>=◌, next_job}
use cattle.Swarm.Resources.{create_volume_on, only_volume}

module _ {W : Type 0} where
  next-ok :
      {A B : Type 0} (g : A → Job W B) (o : Outcome SwarmError A) (f h : Fleet W) (b : B)
      → next_job g (o, f) ≡ (ok b, h)
      → (a : A) × (o ≡ ok a) × (g a f ≡ (ok b, h))
  unfolding next_job
  next-ok {A} {B} g panic f h b by =
      let by' : ◌≡◌ {A = Outcome SwarmError B} panic (ok b) =
        ap (λ (r : Outcome SwarmError B × Fleet W). r.0) by in
      cc by'
  next-ok {A} {B} g (err x) f h b by =
      let by' : ◌≡◌ {A = Outcome SwarmError B} (err x) (ok b) =
        ap (λ (r : Outcome SwarmError B × Fleet W). r.0) by in
      cc by'
  next-ok g (ok a) f h b by = (a, refl, by)

  -- A job that returned in steps.
  >>=-ok :
      {A B : Type 0} (job : Job W A) (g : A → Job W B) (f h : Fleet W) (b : B)
      → (job >>= g) f ≡ (ok b, h)
      → (a : A) × (f' : Fleet W) × (g a f' ≡ (ok b, h))
  unfolding ◌>>=◌
  >>=-ok job g f h b by =
      let (a, _, last) = next-ok g (job f).0 (job f).1 h b by in (a, (job f).1, last)

module _ {W : Type 0} (s : Settings W) where
  last_error :
      (v : Option Volume) (answer : Option Volume × Option SwarmError) (f g : Fleet W)
      → pure {W = W} {A = Option Volume × Option SwarmError} (v, none) f ≡ (ok answer, g)
      → answer.1 ≡ none
  unfolding pure
  last_error v answer f g by =
      let same : ◌≡◌ {A = Outcome SwarmError (Option Volume × Option SwarmError)} (ok (v, none))
          (ok answer) =
        ap (λ (r : Outcome SwarmError (Option Volume × Option SwarmError) × Fleet W). r.0) by in
      sym (ap (λ (x : Option Volume × Option SwarmError). x.1) (ok-injective (v, none) answer same))

  answer_error :
      (node name : Text) (f g : Fleet W) (answer : Option Volume × Option SwarmError)
      → create_volume_on s node name f ≡ (ok answer, g)
      → answer.1 ≡ none
  unfolding create_volume_on
  answer_error node name f g answer by =
      let (nodes, f1, by1) = >>=-ok _ _ f g answer by in
      let (key, f2, by2) = >>=-ok _ _ f1 g answer by1 in
      let (r, f3, by3) = >>=-ok _ _ f2 g answer by2 in last_error (only_volume r) answer f3 g by3

  -- CreateVolume on a node that is named never returns an error beside its volume, also where
  -- the engine refuses the volume.
  pub create_volume_on_error :
      (node name : Text) (f : Fleet W) (v : Option Volume) (x : SwarmError)
      → (create_volume_on s node name f).0 ≢ ok (v, some x)
  create_volume_on_error node name f v x by =
      let lost : ◌≡◌ {A = Option SwarmError} (some x) none =
        answer_error node name f (create_volume_on s node name f).1 (v, some x)
          (ap (λ r. (r, (create_volume_on s node name f).1)) by) in
      cc lost
