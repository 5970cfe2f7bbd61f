-- ===== src/Engine/Mirror.antt =====
-- What the manager remembers of an engine's containers, against what the daemon says.
use cattle.Prelude.{
  ℤ, arith, Bool, true, any, subst, false, ◌||◌, List, [], ◌∷◌, ◌++◌, Option, none, some, Text,
  text_eq, text_eq→eq, Outcome, ok, err, panic, ◌≡◌, ◌≢◌, refl, sym, ap, ◌∙◌, append_assoc,
  append-nil, All, map, Bool-cases, inl, inr, if◌then◌else◌, text_eq_distinct, ok-injective,
}
use cattle.Cluster.Data.{Container, ContainerConfig, lookup, insert, delete}
use cattle.Engine.Health.{check_connection_err, inc_failure_count}
use cattle.Engine.Data.{Engine, ApiError}
use cattle.Engine.Call.{
  Daemon, Call, Machine, Summary, Inspection, checked_call, ◌>>=◌, next_call, attempt, pure, change,
  get_engine, error_of,
}
use cattle.Engine.Cache.{
  inspect_container, update_known, update_container, merge_all, refresh_containers, is_restarting,
  container_of, inspected_config, known_as, config_of,
}
use cattle.Engine.Methods.{remove_container}

-- No key of the list is `k`.
abbrev pub Fresh : Text → List Text → Type 0
Fresh k ks = All (λ j. text_eq j k ≡ false) ks

-- Every name stands once.
abbrev pub Distinct : List Text → Type 0
Distinct [] = Unit
Distinct (k ∷ ks) = All (λ j. text_eq k j ≡ false) ks × Distinct ks

All-at :
    (P : Text → Type 0) (ks : List Text) (k : Text) (rest : List Text)
    → All P (ks ++ k ∷ rest)
    → P k
All-at P [] k rest h = h.0
All-at P (j ∷ ks) k rest h = All-at P ks k rest h.1

Distinct-Fresh :
    (ks : List Text) (k : Text) (rest : List Text) → Distinct (ks ++ k ∷ rest) → Fresh k ks
Distinct-Fresh [] k rest h = tt
Distinct-Fresh (j ∷ ks) k rest h =
    (All-at (λ i. text_eq j i ≡ false) ks k rest h.0, Distinct-Fresh ks k rest h.1)

module _ {V : Type 0} where
  abbrev pub keys : List (Text × V) → List Text
  keys [] = []
  keys ((k, v) ∷ m) = k ∷ keys m

  keys-insert :
      (k : Text) (v : V) (m : List (Text × V))
      → Fresh k (keys m)
      → keys (insert k v m) ≡ keys m ++ k ∷ []
  unfolding insert
  keys-insert k v [] h = refl
  keys-insert k v ((j, u) ∷ m) h = rw h.0 (ap (λ ks. j ∷ ks) (keys-insert k v m h.1))

  pub lookup-delete : (k : Text) (m : List (Text × V)) → lookup k (delete k m) ≡ none
  unfolding lookup delete
  lookup-delete k [] = refl
  lookup-delete k ((j, u) ∷ m) = elim (Bool-cases (text_eq j k)) [
    | inl same ↦ rw same (lookup-delete k m)
    | inr other ↦ rw other (rw other (lookup-delete k m))
  ]

  pub lookup-delete_other :
      (k j : Text) (m : List (Text × V)) → k ≢ j → lookup j (delete k m) ≡ lookup j m
  unfolding lookup delete
  lookup-delete_other k j [] h = refl
  lookup-delete_other k j ((i, u) ∷ m) h = elim (Bool-cases (text_eq i k)) [
    | inl same ↦
        let apart : text_eq i j ≡ false =
          text_eq_distinct i j (λ e. h (sym (text_eq→eq i k same) ∙ e)) in
        rw (same, apart) (lookup-delete_other k j m h)
    | inr other ↦
        rw other (ap (λ r. if text_eq i j then some u else r) (lookup-delete_other k j m h))
  ]

-- Whether a map has the key.
abbrev pub is_key : {V : Type 0} → Text → List (Text × V) → Bool
unfolding lookup
is_key k m = elim (lookup k m) [ none ↦ false | some v ↦ true ]

is_key-keys :
    {V : Type 0} (k : Text) (m : List (Text × V)) → is_key k m ≡ any (λ j. text_eq j k) (keys m)
unfolding is_key lookup any
is_key-keys k [] = refl
is_key-keys k ((j, v) ∷ m) = elim (Bool-cases (text_eq j k)) [
  | inl same ↦ rw (same, is_key, lookup) refl
  | inr other ↦ rw (other, is_key, lookup) (is_key-keys k m)
]

any-map :
    {A B : Type 0} (p : B → Bool) (f : A → B) (xs : List A)
    → any p (map f xs) ≡ any (λ x. p (f x)) xs
unfolding any
any-map p f [] = refl
any-map p f (x ∷ xs) = ap (λ b. p (f x) || b) (any-map p f xs)

err-injective : {A : Type 0} (x y : ApiError) → ◌≡◌ {A = Outcome ApiError A} (err x) (err y) → x ≡ y
err-injective x y h = cc h

check_connection_err-containers :
    (now : ℤ) (r : Option ApiError) (e : Engine)
    → (check_connection_err now r e).0.containers ≡ e.containers
unfolding check_connection_err inc_failure_count
check_connection_err-containers now none e = ground arith
check_connection_err-containers now (some x) e = ground arith

module _ {W : Type 0} where
  next_call-ok :
      {A B : Type 0} (f : A → Call W B) (r : Outcome ApiError A × Machine W) (a : A)
      → r.0 ≡ ok a
      → next_call f r ≡ f a r.1
  unfolding next_call
  next_call-ok f (ok b, m) a h = ap (λ x. f x m) (ok-injective b a h)
  next_call-ok f (err x, m) a h = cc h
  next_call-ok f (panic, m) a h = cc h

  next_call-err :
      {A B : Type 0} (f : A → Call W B) (r : Outcome ApiError A × Machine W) (x : ApiError)
      → r.0 ≡ err x
      → next_call f r ≡ (err x, r.1)
  unfolding next_call
  next_call-err f (ok b, m) x h = cc h
  next_call-err f (err y, m) x h = ap (λ z. (err z, m)) (err-injective y x h)
  next_call-err f (panic, m) x h = cc h

  >>=-ok :
      {A B : Type 0} (call : Call W A) (f : A → Call W B) (m : Machine W) (a : A)
      → (call m).0 ≡ ok a
      → (call >>= f) m ≡ f a (call m).1
  unfolding ◌>>=◌
  >>=-ok call f m a h = next_call-ok f (call m) a h

module _ {W : Type 0} (daemon : Daemon W) where
  -- The daemon can tell of every container, with no nil pointer among what is read.
  abbrev pub TellsAll : Type 0
  unfolding config_of
  TellsAll =
      (id : Text) (w : W)
      → (i : Inspection) × (raw : ContainerConfig) × ((daemon.container_inspect id w).0 ≡ ok i)
        × (config_of i ≡ some raw)

  module _ (tells : TellsAll) where
    inspect_known :
        (s : Summary) (e : Engine) (m : Machine W)
        → (c : Container) × ((inspect_container daemon s e m).0 ≡ ok c) × (c.ident ≡ s.summary_id)
    unfolding inspect_container pure checked_call known_as
    inspect_known s e m =
        let (i, raw, told, whole) = tells s.summary_id m.world in
        let m' = (checked_call daemon (daemon.container_inspect s.summary_id) m).1 in
        (
          container_of s e.about (inspected_config daemon.json e.cpus raw) i.raw_info,
          ap (λ r. r.0)
                (>>=-ok (checked_call daemon (daemon.container_inspect s.summary_id)) _ m i told)
              ∙ ap (λ c. (known_as daemon s e i.raw_info c m').0) whole,
          refl,
        )

    update_known_ident :
        (s : Summary) (full : Bool) (e : Engine) (known : Option Container) (m : Machine W)
        → (c : Container) × ((update_known daemon s full e known m).0 ≡ ok c)
          × (c.ident ≡ s.summary_id)
    unfolding update_known pure
    update_known_ident s full e none m = inspect_known s e m
    update_known_ident s full e (some c) m =
        elim (Bool-cases (full || is_restarting c.info.info_state)) [
          | inl again ↦ rw again (inspect_known s e m)
          | inr known ↦ (container_of s c.engine c.config c.info, rw known refl, refl)
        ]

    update_container-keys :
        (s : Summary) (cs : List (Text × Container)) (full : Bool) (m : Machine W)
        → Fresh s.summary_id (keys cs)
        → (cs' : List (Text × Container)) × ((update_container daemon s cs full m).0 ≡ ok cs')
          × (keys cs' ≡ keys cs ++ s.summary_id ∷ [])
    unfolding update_container get_engine pure
    update_container-keys s cs full m fresh =
        let (c, found, named) =
          update_known_ident s full m.engine (lookup s.summary_id m.engine.containers) m in
        (
          insert c.ident c cs,
          ap (λ r. r.0)
              (>>=-ok get_engine _ m m.engine refl
                ∙ >>=-ok
                    (update_known daemon s full m.engine (lookup s.summary_id m.engine.containers))
                    _ m c found),
          keys-insert c.ident c cs (rw named fresh) ∙ ap (λ k. keys cs ++ k ∷ []) named,
        )

    merge_all-keys :
        (ss : List Summary) (cs : List (Text × Container)) (full : Bool) (m : Machine W)
        → Distinct (keys cs ++ map (λ (s : Summary). s.summary_id) ss)
        → (cs' : List (Text × Container)) × ((merge_all daemon ss cs full m).0 ≡ ok cs')
          × (keys cs' ≡ keys cs ++ map (λ (s : Summary). s.summary_id) ss)
    unfolding merge_all pure attempt
    merge_all-keys [] cs full m distinct = (cs, refl, sym (append-nil (keys cs)))
    merge_all-keys (s ∷ ss) cs full m distinct =
        let ids = map (λ (s : Summary). s.summary_id) ss in
        let (cs', updated, named) =
          update_container-keys s cs full m (Distinct-Fresh (keys cs) s.summary_id ids distinct) in
        let m' = (update_container daemon s cs full m).1 in
        let still : Distinct (keys cs' ++ ids) = rw (named, append_assoc) distinct in
        let (cs'', merged, all_named) = merge_all-keys ss cs' full m' still in
        (
          cs'',
          ap (λ r. r.0)
                (>>=-ok (attempt (update_container daemon s cs full)) _ m (ok cs') (ap ok updated)
                  ∙ >>=-ok (pure cs') _ m' cs' refl)
              ∙ merged,
          all_named ∙ ap (λ ks. ks ++ ids) named ∙ append_assoc (keys cs) (s.summary_id ∷ []) ids,
        )

    in_order :
        (full : Bool) (m : Machine W) (ss : List Summary)
        → (daemon.container_list none m.world).0 ≡ ok ss
        → Distinct (map (λ (s : Summary). s.summary_id) ss)
        → ((refresh_containers daemon full m).0 ≡ ok tt)
          × (keys (refresh_containers daemon full m).1.engine.containers
              ≡ map (λ (s : Summary). s.summary_id) ss)
    unfolding refresh_containers change checked_call
    in_order full m ss listed distinct =
        let m' = (checked_call daemon (daemon.container_list none) m).1 in
        let (cs, merged, named) = merge_all-keys ss [] full m' distinct in
        let whole : refresh_containers daemon full m ≡ (
          ok tt,
          record (merge_all daemon ss [] full m').1 {
            engine = record (merge_all daemon ss [] full m').1.engine { containers = cs };
          },
        ) =
          >>=-ok (checked_call daemon (daemon.container_list none)) _ m ss listed
          ∙ >>=-ok (merge_all daemon ss [] full) _ m' cs merged in
        (ap (λ r. r.0) whole, ap (λ r. keys r.1.engine.containers) whole ∙ named)

    -- When the daemon can inspect every container, with no nil pointer among what
    -- updateContainer reads, and lists containers with different identifiers,
    -- RefreshContainers returns no error, and then knows a container under each listed
    -- identifier and under no other, each once, whatever it knew before.
    pub refresh_containers-keys :
        (full : Bool) (m : Machine W) (ss : List Summary)
        → (daemon.container_list none m.world).0 ≡ ok ss
        → Distinct (map (λ (s : Summary). s.summary_id) ss)
        → ((refresh_containers daemon full m).0 ≡ ok tt)
          × Distinct (keys (refresh_containers daemon full m).1.engine.containers)
          × ((id : Text)
              → is_key id (refresh_containers daemon full m).1.engine.containers
                ≡ any (λ (s : Summary). text_eq s.summary_id id) ss)
    refresh_containers-keys full m ss listed distinct =
        let (fine, named) = in_order full m ss listed distinct in
        let containers = (refresh_containers daemon full m).1.engine.containers in
        (
          fine,
          subst Distinct (sym named) distinct,
          λ id.
              is_key-keys id containers
              ∙ ap (any (λ k. text_eq k id)) named
              ∙ any-map (λ k. text_eq k id) (λ (s : Summary). s.summary_id) ss,
        )

  checked_call-containers :
      {A : Type 0} (api : W → Outcome ApiError A × W) (m : Machine W)
      → (checked_call daemon api m).1.engine.containers ≡ m.engine.containers
  unfolding checked_call
  checked_call-containers api m =
      check_connection_err-containers (daemon.clock (api m.world).1) (error_of (api m.world).0)
        m.engine

  pub remove_container_forgets :
      (c : Container) (force volumes : Bool) (m : Machine W)
      → let (result, m') = remove_container daemon c force volumes m in
        (((daemon.container_remove c.ident force volumes m.world).0 ≡ ok tt)
          → (lookup c.ident m'.engine.containers ≡ none)
            × ((id : Text)
                → c.ident ≢ id
                → lookup id m'.engine.containers ≡ lookup id m.engine.containers))
        × ((x : ApiError)
            → (daemon.container_remove c.ident force volumes m.world).0 ≡ err x
            → (result ≡ err x) × (m'.engine.containers ≡ m.engine.containers))
  unfolding remove_container change ◌>>=◌ checked_call
  remove_container_forgets c force volumes m =
      let call = checked_call daemon (daemon.container_remove c.ident force volumes) in
      let same = checked_call-containers (daemon.container_remove c.ident force volumes) m in
      let forget = λ (u : Unit {0}).
        change {W = W} (λ e. record e { containers = delete c.ident e.containers }) in
      (
        λ removed.
            let whole = next_call-ok forget (call m) tt removed in
            let now =
              ap (λ (r : Outcome ApiError (Unit {0}) × Machine W). r.1.engine.containers) whole
              ∙ ap (delete c.ident) same in
            (
              ap (lookup c.ident) now ∙ lookup-delete c.ident m.engine.containers,
              λ id other.
                  ap (lookup id) now ∙ lookup-delete_other c.ident id m.engine.containers other,
            ),
        λ x kept.
            let whole = next_call-err forget (call m) x kept in
            (
              ap (λ r. r.0) whole,
              ap (λ (r : Outcome ApiError (Unit {0}) × Machine W). r.1.engine.containers) whole
                  ∙ same,
            ),
      )
