-- ===== src/Cluster/Config/Build.antt =====
-- BuildContainerConfig moves the expressions of the environment to the labels.
use cattle.Prelude.{
  ◌==◌, ℕ, trim_prefix, split2, Bool, any, arith, if◌then◌else◌, Option, none, some, text_eq,
  text_eq_apart, false, ◌≡◌, ◌≢◌, refl, ◌∙◌, not, List, [], ◌∷◌, ◌++◌, Text, text, keep,
}
use cattle.Cluster.Data.{ContainerConfig}
use cattle.Cluster.Config.{
  Json, swarm_label, extract_exprs, store_some, store_exprs, gathered, values_of_kind, is_some,
  add_value, value_of, parse_env, is_swarm_entry, build_config, affinity, whitelist, constraint,
  reschedule, set_label,
}
use cattle.Cluster.Config.Stored.{ReadsBack, extract-store, extract-store_other}

-- A word without the byte that ends it in an entry.
abbrev NoColon : Text → Type 0
NoColon [] = Unit
NoColon (c ∷ s) = ((c == b':') ≡ false) × NoColon s

-- What an entry says of a kind, read off its first bytes: the text after `kind:`.
unfoldable pub says : Text → Text → Option Text
unfolding trim_prefix
says kind e = trim_prefix e (kind ++ b':' ∷ [])

-- The entries of the environment of a kind, each without its `kind:`, in their order.
unfoldable pub said : Text → List Text → List Text
unfolding says
said kind [] = []
said kind (e ∷ envs) = add_value (says kind e) (said kind envs)

split2_colon :
    (c : ℕ) (e : Text)
    → split2 (c ∷ e) (b':' ∷ []) ≡ (
        if c == b':'
        then some ([], e)
        else elim (split2 e (b':' ∷ [])) [ none ↦ none | some (a, b) ↦ some (c ∷ a, b) ])
unfolding split2 trim_prefix
split2_colon c e = ground arith

split_says : (kind e : Text) → NoColon kind → value_of kind e ≡ says kind e
unfolding value_of parse_env split2 text_eq trim_prefix says
split_says [] [] h = refl
split_says (k ∷ kind) [] h = refl
split_says [] (c ∷ e) h = ground (arith, split2_colon c e)
split_says (k ∷ kind) (c ∷ e) (apart, h) = ground (arith, split_says kind e h, split2_colon c e)

values_said :
    (kind : Text) (envs : List Text) → NoColon kind → values_of_kind kind envs ≡ said kind envs
unfolding values_of_kind said
values_said kind [] h = refl
values_said kind (e ∷ envs) h = rw (split_says kind e h, values_said kind envs h) refl

-- Whether an entry says something of a kind that the labels take over.
unfoldable pub moved : Text → Bool
unfolding any says
moved e =
    any (λ kind. is_some (says kind e))
      (text "affinity" ∷ text "constraint" ∷ text "reschedule" ∷ text "whitelist" ∷ [])

affinity-NoColon : NoColon affinity
affinity-NoColon = (refl, (refl, (refl, (refl, (refl, (refl, (refl, (refl, tt))))))))

constraint-NoColon : NoColon constraint
constraint-NoColon =
    (refl, (refl, (refl, (refl, (refl, (refl, (refl, (refl, (refl, (refl, tt))))))))))

reschedule-NoColon : NoColon reschedule
reschedule-NoColon =
    (refl, (refl, (refl, (refl, (refl, (refl, (refl, (refl, (refl, (refl, tt))))))))))

whitelist-NoColon : NoColon whitelist
whitelist-NoColon = (refl, (refl, (refl, (refl, (refl, (refl, (refl, (refl, (refl, tt)))))))))

swarm_entry_moved : (e : Text) → is_swarm_entry e ≡ moved e
unfolding is_swarm_entry any moved
swarm_entry_moved e =
    rw
      (
        split_says affinity e affinity-NoColon,
        split_says constraint e constraint-NoColon,
        split_says reschedule e reschedule-NoColon,
        split_says whitelist e whitelist-NoColon,
      )
      refl

same_kept :
    (envs : List Text) → keep (λ e. not (is_swarm_entry e)) envs ≡ keep (λ e. not (moved e)) envs
unfolding keep
same_kept [] = refl
same_kept (e ∷ envs) = rw (swarm_entry_moved e, same_kept envs) refl

module _ (json : Json) (reads : ReadsBack json) where
  extract-store_some :
      (key : Text) (exprs : List Text) (c : ContainerConfig)
      → (exprs ≡ [] → extract_exprs json key c ≡ [])
      → extract_exprs json key (store_some json key exprs c) ≡ exprs
  unfolding store_some
  extract-store_some key [] c h = h refl
  extract-store_some key (e ∷ es) c h = extract-store json reads key (e ∷ es) c

  extract-store_some_other :
      (key other : Text) (exprs : List Text) (c : ContainerConfig)
      → swarm_label key ≢ swarm_label other
      → extract_exprs json other (store_some json key exprs c) ≡ extract_exprs json other c
  unfolding store_some
  extract-store_some_other key other [] c h = refl
  extract-store_some_other key other (e ∷ es) c h =
      extract-store_other json reads key other (e ∷ es) c h

  env-store_some :
      (key : Text) (exprs : List Text) (c : ContainerConfig)
      → (store_some json key exprs c).env ≡ c.env
  unfolding store_some store_exprs set_label
  env-store_some key [] c = refl
  env-store_some key (e ∷ es) c = refl

  front_nil : (xs ys : List Text) → xs ++ ys ≡ [] → xs ≡ []
  front_nil [] ys h = refl
  front_nil (x ∷ xs) ys h = cc h

  gathered_nil :
      (key kind : Text) (c : ContainerConfig)
      → gathered json key kind c ≡ []
      → extract_exprs json key c ≡ []
  unfolding gathered
  gathered_nil key kind c h = front_nil (extract_exprs json key c) (values_of_kind kind c.env) h

module _ (json : Json) (reads : ReadsBack json) (c : ContainerConfig) where
  abbrev kept_config : ContainerConfig
  kept_config = record c { env = keep (λ e. not (is_swarm_entry e)) c.env }

  abbrev stage : Text → Text → ContainerConfig → ContainerConfig
  stage key kind = store_some json key (gathered json key kind c)

  abbrev with_affinities : ContainerConfig
  with_affinities = stage (text "affinities") affinity kept_config

  abbrev with_constraints : ContainerConfig
  with_constraints = stage (text "constraints") constraint with_affinities

  abbrev with_policies : ContainerConfig
  with_policies = stage (text "reschedule-policies") reschedule with_constraints

  -- A stage passes the expressions of the other keys on.
  passed :
      (key kind other : Text) (d : ContainerConfig)
      → text_eq (swarm_label key) (swarm_label other) ≡ false
      → extract_exprs json other (stage key kind d) ≡ extract_exprs json other d
  passed key kind other d apart =
      extract-store_some_other json reads key other (gathered json key kind c) d
        (text_eq_apart (swarm_label key) (swarm_label other) apart)

  stored :
      (key kind : Text) (d : ContainerConfig)
      → extract_exprs json key d ≡ extract_exprs json key c
      → extract_exprs json key (stage key kind d) ≡ gathered json key kind c
  stored key kind d same =
      extract-store_some json reads key (gathered json key kind c) d
        (λ nothing. same ∙ gathered_nil json reads key kind c nothing)

  unchanged : (key : Text) → extract_exprs json key kept_config ≡ extract_exprs json key c
  unfolding extract_exprs
  unchanged key = refl

  gathered_says :
      (key kind : Text)
      → NoColon kind
      → gathered json key kind c ≡ extract_exprs json key c ++ said kind c.env
  unfolding gathered
  gathered_says key kind h = rw (values_said kind c.env h) refl

  build_config_gathers :
      (extract_exprs json (text "affinities") (build_config json c)
        ≡ gathered json (text "affinities") affinity c)
      × (extract_exprs json (text "constraints") (build_config json c)
          ≡ gathered json (text "constraints") constraint c)
      × (extract_exprs json (text "reschedule-policies") (build_config json c)
          ≡ gathered json (text "reschedule-policies") reschedule c)
      × (extract_exprs json (text "whitelists") (build_config json c)
          ≡ gathered json (text "whitelists") whitelist c)
      × ((build_config json c).env ≡ keep (λ e. not (is_swarm_entry e)) c.env)
  unfolding build_config text_eq
  build_config_gathers = (
    passed (text "whitelists") whitelist (text "affinities") with_policies refl
        ∙ passed (text "reschedule-policies") reschedule (text "affinities") with_constraints refl
        ∙ passed (text "constraints") constraint (text "affinities") with_affinities refl
        ∙ stored (text "affinities") affinity kept_config (unchanged (text "affinities")),
    passed (text "whitelists") whitelist (text "constraints") with_policies refl
        ∙ passed (text "reschedule-policies") reschedule (text "constraints") with_constraints refl
        ∙ stored (text "constraints") constraint with_affinities (
            passed (text "affinities") affinity (text "constraints") kept_config refl
            ∙ unchanged (text "constraints")),
    passed (text "whitelists") whitelist (text "reschedule-policies") with_policies refl
        ∙ stored (text "reschedule-policies") reschedule with_constraints (
            passed (text "constraints") constraint (text "reschedule-policies") with_affinities refl
            ∙ passed (text "affinities") affinity (text "reschedule-policies") kept_config refl
            ∙ unchanged (text "reschedule-policies")),
    stored (text "whitelists") whitelist with_policies (
        passed (text "reschedule-policies") reschedule (text "whitelists") with_constraints refl
        ∙ passed (text "constraints") constraint (text "whitelists") with_affinities refl
        ∙ passed (text "affinities") affinity (text "whitelists") kept_config refl
        ∙ unchanged (text "whitelists")),
    env-store_some json reads (text "whitelists") (gathered json (text "whitelists") whitelist c)
          with_policies
        ∙ env-store_some json reads (text "reschedule-policies")
            (gathered json (text "reschedule-policies") reschedule c) with_constraints
        ∙ env-store_some json reads (text "constraints")
            (gathered json (text "constraints") constraint c) with_affinities
        ∙ env-store_some json reads (text "affinities")
            (gathered json (text "affinities") affinity c) kept_config,
  )

  -- With a JSON codec that reads back what it writes, the affinities, constraints, policies
  -- and whitelists that BuildContainerConfig leaves in the labels are those that the labels
  -- had, and behind them the rest of each entry of the environment that begins with
  -- `affinity:`, `constraint:`, `reschedule:` or `whitelist:`, in their order. The environment
  -- keeps, in their order, exactly the entries that begin with none of these.
  pub build_config_exprs :
      (extract_exprs json (text "affinities") (build_config json c)
        ≡ extract_exprs json (text "affinities") c ++ said (text "affinity") c.env)
      × (extract_exprs json (text "constraints") (build_config json c)
          ≡ extract_exprs json (text "constraints") c ++ said (text "constraint") c.env)
      × (extract_exprs json (text "reschedule-policies") (build_config json c)
          ≡ extract_exprs json (text "reschedule-policies") c ++ said (text "reschedule") c.env)
      × (extract_exprs json (text "whitelists") (build_config json c)
          ≡ extract_exprs json (text "whitelists") c ++ said (text "whitelist") c.env)
      × ((build_config json c).env ≡ keep (λ e. not (moved e)) c.env)
  build_config_exprs =
      let (affs, cons, pols, whites, kept) = build_config_gathers in
      (
        affs ∙ gathered_says (text "affinities") affinity affinity-NoColon,
        cons ∙ gathered_says (text "constraints") constraint constraint-NoColon,
        pols ∙ gathered_says (text "reschedule-policies") reschedule reschedule-NoColon,
        whites ∙ gathered_says (text "whitelists") whitelist whitelist-NoColon,
        kept ∙ same_kept c.env,
      )
