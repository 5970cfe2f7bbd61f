-- ===== src/Scheduler/Filters/Ports.antt =====
-- On a node that the port filter accepts, no container holds a requested port.

use cattle.Prelude.{
  ◌≡◌, ◌≢◌, refl, sym, ◌∙◌, ◌↔◌, ◌⊎◌, inl, inr, Bool, true, false, not, ◌&&◌, ◌||◌, List, [], ◌∷◌,
  ◌++◌, Option, none, some, text, text_eq, text_eq_iff, any, All, Outcome, ok, Bool-cases,
  if◌then◌else◌, arith,
}
use cattle.Cluster.Data.{ContainerConfig, Container, HostConfig, PortBinding, PortMap}
use cattle.Scheduler.Exprs.{FilterError}
use cattle.Scheduler.Node.{Node}
use cattle.Scheduler.Narrow.Kept.{passes_all}
use cattle.Scheduler.Filters.Base.{Services}
use cattle.Scheduler.Filters.Port.{
  bindings_of, binds_all_interfaces, clashes, compare_ports, takes_port, port_already_in_use,
  in_network, in_host_config,
}
use cattle.Scheduler.Filters.Lawful.{accepts_ports}

any_none : {A : Type 0} (p : A → Bool) (xs : List A) → any p xs ≡ false → All (λ x. p x ≡ false) xs
unfolding any
any_none p [] h = tt
any_none p (x ∷ xs) h = (ground arith, any_none p xs (ground arith))

none_any : {A : Type 0} (p : A → Bool) (xs : List A) → All (λ x. p x ≡ false) xs → any p xs ≡ false
unfolding any
none_any p [] h = refl
none_any p (x ∷ xs) h = rw h.0 (none_any p xs h.1)

All_iff :
    {A : Type 0} (P Q : A → Type 0) → ((x : A) → P x ↔ Q x) → (xs : List A) → All P xs ↔ All Q xs
All_iff P Q iff [] = (λ h. tt, λ h. tt)
All_iff P Q iff (x ∷ xs) =
    let rest = All_iff P Q iff xs in
    (λ h. ((iff x).0 h.0, rest.0 h.1), λ h. ((iff x).1 h.0, rest.1 h.1))

any-append :
    {A : Type 0} (p : A → Bool) (xs ys : List A) → any p (xs ++ ys) ≡ (any p xs || any p ys)
unfolding any
any-append p [] ys = refl
any-append p (x ∷ xs) ys = ground (arith, any-append p xs ys)

-- The bindings of a port map that may be missing.
abbrev pub map_bindings : Option PortMap → List PortBinding
unfolding bindings_of
map_bindings none = []
map_bindings (some ports) = bindings_of ports

abbrev pub host_ports : Option HostConfig → Option PortMap
host_ports none = none
host_ports (some h) = some h.port_bindings

-- The bindings that a container holds: a pending one those of its configuration, any other one those that
-- it asked for and those that it got.
abbrev pub held : Container → List PortBinding
held c =
    if text_eq c.ident []
    then bindings_of c.config.host_config.port_bindings
    else map_bindings (host_ports c.info.info_host_config) ++ map_bindings c.info.network_ports

-- The test of two bindings, in tests of their parts.
no_clash :
    (empty same ip all_r all_b : Bool) {E S I : Type 0}
    → (empty ≡ true) ↔ E
    → (same ≡ true) ↔ S
    → (ip ≡ true) ↔ I
    → ((not empty && (same && (ip || all_r || all_b))) ≡ false)
      ↔ ((E → ⊥) × S × (I ⊎ ((all_r ≡ true) ⊎ (all_b ≡ true))) → ⊥)
no_clash true same ip r b e s i = (λ h k. k.0 (e.0 refl), λ h. refl)
no_clash false false ip r b e s i = (λ h k. let x = s.1 k.1 in cc x, λ h. refl)
no_clash false true true r b e s i =
    (λ h. cc h, λ h. absurd (h ((λ x. let y = e.1 x in cc y), s.0 refl, inl (i.0 refl))))
no_clash false true false true b e s i =
    (λ h. cc h, λ h. absurd (h ((λ x. let y = e.1 x in cc y), s.0 refl, inr (inl refl))))
no_clash false true false false true e s i =
    (λ h. cc h, λ h. absurd (h ((λ x. let y = e.1 x in cc y), s.0 refl, inr (inr refl))))
no_clash false true false false false e s i = (
  λ h k. elim k.2 [
    | inl x ↦ let y = i.1 x in cc y
    | inr w ↦ elim w [ inl y ↦ cc y | inr y ↦ cc y ]
  ],
  λ h. refl,
)

module _ (services : Services) where
  -- Two bindings of one port, on one address or with one of them on all.
  abbrev pub Collide : PortBinding → PortBinding → Type 0
  Collide requested b =
      (b.host_port ≢ [])
      × (b.host_port ≡ requested.host_port)
      × ((requested.host_ip ≡ b.host_ip)
          ⊎ ((binds_all_interfaces services requested ≡ true)
              ⊎ (binds_all_interfaces services b ≡ true)))

  clashes_iff : (r b : PortBinding) → (clashes services r b ≡ false) ↔ (Collide r b → ⊥)
  unfolding clashes
  clashes_iff r b =
      no_clash (text_eq b.host_port []) (text_eq b.host_port r.host_port)
        (text_eq r.host_ip b.host_ip) (binds_all_interfaces services r)
        (binds_all_interfaces services b) (text_eq_iff b.host_port [])
        (text_eq_iff b.host_port r.host_port) (text_eq_iff r.host_ip b.host_ip)

  in_network-any :
      (r : PortBinding) (ports : Option PortMap)
      → in_network services r ports ≡ any (clashes services r) (map_bindings ports)
  unfolding compare_ports any
  in_network-any r none = refl
  in_network-any r (some ports) = refl

  in_host_config-any :
      (r : PortBinding) (h : Option HostConfig)
      → in_host_config services r h ≡ any (clashes services r) (map_bindings (host_ports h))
  unfolding compare_ports any
  in_host_config-any r none = refl
  in_host_config-any r (some h) = refl

  takes_port-held :
      (r : PortBinding) (c : Container)
      → takes_port services r c ≡ any (clashes services r) (held c)
  unfolding takes_port compare_ports
  takes_port-held r c = elim (Bool-cases (text_eq c.ident [])) [
    | inl pending ↦ rw pending refl
    | inr started ↦ rw started (
        rw
          (any-append (clashes services r) (map_bindings (host_ports c.info.info_host_config))
            (map_bindings c.info.network_ports))
          (rw (in_host_config-any r c.info.info_host_config, in_network-any r c.info.network_ports)
            refl))
  ]

  -- No container of the node holds a binding that the requested one collides with.
  abbrev pub Free : Node → PortBinding → Type 0
  Free n r = All (λ c. All (λ b. Collide r b → ⊥) (held c)) n.node_containers

  held_iff :
      (r : PortBinding) (c : Container)
      → (takes_port services r c ≡ false) ↔ All (λ b. Collide r b → ⊥) (held c)
  held_iff r c =
      let lift =
        All_iff (λ b. clashes services r b ≡ false) (λ b. Collide r b → ⊥) (clashes_iff r)
          (held c) in
      (
        λ h. lift.0 (any_none (clashes services r) (held c) (sym (takes_port-held r c) ∙ h)),
        λ h. takes_port-held r c ∙ none_any (clashes services r) (held c) (lift.1 h),
      )

  Free-iff : (n : Node) (r : PortBinding) → (port_already_in_use services r n ≡ false) ↔ Free n r
  unfolding port_already_in_use
  Free-iff n r =
      let lift =
        All_iff (λ c. takes_port services r c ≡ false) (λ c. All (λ b. Collide r b → ⊥) (held c))
          (held_iff r) n.node_containers in
      (
        λ h. lift.0 (any_none (takes_port services r) n.node_containers h),
        λ h. none_any (takes_port services r) n.node_containers (lift.1 h),
      )

  abbrev in_use_test : PortBinding → Node → Outcome FilterError Bool
  in_use_test r n = ok (not (port_already_in_use services r n))

  passes_iff :
      (n : Node) (rs : List PortBinding) → (passes_all in_use_test rs n ≡ true) ↔ All (Free n) rs
  passes_iff n [] = (λ h. tt, λ h. refl)
  passes_iff n (r ∷ rs) =
      let here = Free-iff n r in
      let rest = passes_iff n rs in
      (
        λ h. (here.0 (ground arith), rest.0 (ground arith)),
        λ h. let a = here.1 h.0 in let b = rest.1 h.1 in ground (arith, a, b),
      )

  -- Outside host mode, the port filter accepts a node exactly when no container of the node
  -- holds a binding of the port of a requested binding on the same address, or with one of the
  -- two on all addresses.
  pub accepts_ports_iff :
      (config : ContainerConfig) (n : Node)
      → text_eq config.host_config.network_mode (text "host") ≡ false
      → (accepts_ports services config n ≡ true)
        ↔ All (Free n) (bindings_of config.host_config.port_bindings)
  unfolding accepts_ports
  accepts_ports_iff config n bridge =
      rw bridge (passes_iff n (bindings_of config.host_config.port_bindings))
