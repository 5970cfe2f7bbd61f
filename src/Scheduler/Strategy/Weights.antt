-- ===== src/Scheduler/Strategy/Weights.antt =====
-- When a node has room for a container, and that weighing never panics.
use native.Mathlib.Nat.{div-lt_iff_lt-mul}
use cattle.Prelude.{
  mul64_small, div64_small, ltb, leb, ◌==◌, ℕ, ◌+◌, ◌*◌, ◌/◌, ◌^◌, ◌<◌, ◌≤◌, ◌≡◌, ◌≢◌, refl, ◌↔◌,
  Bool, true, false, ◌||◌, List, [], ◌∷◌, Option, none, some, ℤ, pos, negsuc, add64, mul64, div64,
  add64_small, eqb_ℤ, ltb_ℤ, leb_ℤ, ok, err, Bool-cases, inl, inr, ◌⊎◌, subst, sym, ◌&&◌, Within,
  map, skip, pick, done, arith,
}
use cattle.Cluster.Data.{ContainerConfig}
use cattle.Scheduler.Node.{Node}
use cattle.Scheduler.Strategy.{
  no_resources_available, WeightedNode, divide, score, weighted_with, weigh_node, weigh_loop,
  weigh_nodes, some_weighted, with_weight,
}

leb_of_lt : (s : ℕ) → s < 101 → leb s 100 ≡ true
leb_of_lt s h = ground arith

-- For amounts that do not overflow, where something is asked for and not more than the total,
-- the score is at most 100 exactly when what is used and asked for together is less than 101
-- percent of the total.
pub score_fits :
    (used requested total : ℕ)
    → 0 < requested
    → requested ≤ total
    → (used + requested) * 100 < 2 ^ 63
    → (s : ℕ) × (score (pos used) (pos requested) (pos total) ≡ ok (pos s))
      × ((leb_ℤ (pos s) (pos 100) ≡ true) ↔ ((used + requested) * 100 < 101 * total))
unfolding score divide
score_fits used requested total positive room small =
    let sum = add64_small used requested (omega arith) in
    let product = mul64_small (used + requested) 100 small in
    let quotient = div64_small ((used + requested) * 100) total small in
    let some_total : (total == 0) ≡ false = ground arith in
    let asked : ltb 0 requested ≡ true = ground arith in
    let both =
      div-lt_iff_lt-mul {k = total} {x = (used + requested) * 100} {y = 101} (omega arith) in
    (
      (used + requested) * 100 / total,
      rw (asked, some_total, sum, product, quotient) refl,
      (λ h. both.0 (ground arith), λ h. leb_of_lt ((used + requested) * 100 / total) (both.1 h)),
    )

-- A node that is large enough for what is asked for does not divide by zero.
not_zero :
    (total requested : ℤ)
    → ltb_ℤ (pos 0) requested ≡ true
    → ltb_ℤ total requested ≡ false
    → eqb_ℤ total (pos 0) ≡ false
not_zero (pos t) (pos r) asked room = ground arith
not_zero (negsuc t) (pos r) asked room = refl
not_zero total (negsuc r) asked room = cc asked

score_total :
    (used requested total : ℤ)
    → ltb_ℤ total requested ≡ false
    → (s : ℤ) × (score used requested total ≡ ok s)
unfolding score divide
score_total used requested total room = elim (Bool-cases (ltb_ℤ (pos 0) requested)) [
  | inl asked ↦ (
    div64 (mul64 (add64 used requested) (pos 100)) total,
    rw (asked, not_zero total requested asked room) refl,
  )
  | inr nothing ↦ (pos 100, rw nothing refl)
]

or_false : (a b : Bool) → (a || b) ≡ false → (a ≡ false) × (b ≡ false)
or_false a b h = ground arith

-- Nothing, or the node with a weight.
abbrev WeightOf : Node → Option WeightedNode → Type 0
WeightOf n none = Unit
WeightOf n (some w) = w.weighted ≡ n

weighted_with-WeightOf : (factor : ℤ) (n : Node) (c m : ℤ) → WeightOf n (weighted_with factor n c m)
unfolding weighted_with
weighted_with-WeightOf factor n c m = elim (Bool-cases (leb_ℤ c (pos 100) && leb_ℤ m (pos 100))) [
  | inl fits ↦ rw fits refl
  | inr full ↦ rw full tt
]

weigh_node_total :
    (config : ContainerConfig) (factor : ℤ) (n : Node)
    → (w : Option WeightedNode) × (weigh_node config factor n ≡ ok w) × WeightOf n w
unfolding weigh_node
weigh_node_total config factor n =
    let memory = config.host_config.memory in
    let cpus = config.host_config.cpu_shares in
    elim (Bool-cases (ltb_ℤ n.total_memory memory || ltb_ℤ n.total_cpus cpus)) [
      | inl small ↦ (none, rw small refl, tt)
      | inr room ↦
          let both = or_false (ltb_ℤ n.total_memory memory) (ltb_ℤ n.total_cpus cpus) room in
          let (c, c_ok) = score_total n.used_cpus cpus n.total_cpus both.1 in
          let (m, m_ok) = score_total n.used_memory memory n.total_memory both.0 in
          (
            weighted_with factor n c m,
            rw (room, c_ok, m_ok) refl,
            weighted_with-WeightOf factor n c m,
          )
    ]

-- The nodes that have a weight stand in the list, in its order.
abbrev pub nodes_of : List WeightedNode → List Node
nodes_of = map (λ (w : WeightedNode). w.weighted)

with_weight-Within :
    (n : Node) (ns : List Node) (w : Option WeightedNode) (ws : List WeightedNode)
    → WeightOf n w
    → Within (nodes_of ws) ns
    → Within (nodes_of (with_weight w ws)) (n ∷ ns)
with_weight-Within n ns none ws h within = skip within
with_weight-Within n ns (some w) ws h within =
    subst (λ m. Within (m ∷ nodes_of ws) (n ∷ ns)) (sym h) (pick within)

weigh_loop_total :
    (config : ContainerConfig) (factor : ℤ) (nodes : List Node)
    → (ws : List WeightedNode) × (weigh_loop config factor nodes ≡ ok ws)
      × Within (nodes_of ws) nodes
unfolding weigh_loop
weigh_loop_total config factor [] = ([], refl, done)
weigh_loop_total config factor (n ∷ ns) =
    let (w, w_ok, of_n) = weigh_node_total config factor n in
    let (ws, ws_ok, within) = weigh_loop_total config factor ns in
    (with_weight w ws, rw (w_ok, ws_ok) refl, with_weight-Within n ns w ws of_n within)

some_weighted-cases :
    (ws : List WeightedNode)
    → ((some_weighted ws ≡ ok ws) × (ws ≢ [])) ⊎ (some_weighted ws ≡ err no_resources_available)
some_weighted-cases [] = inr refl
some_weighted-cases (w ∷ ws) = inl (refl, λ e. cc e)

-- weighNodes does not divide by zero: for any numbers it returns a nonempty list of weighed
-- nodes, in the order of the given nodes, or the error that no resources are available.
pub weigh_nodes_result :
    (config : ContainerConfig) (factor : ℤ) (nodes : List Node)
    → ((ws : List WeightedNode) × (weigh_nodes config factor nodes ≡ ok ws)
        × (ws ≢ [])
        × Within (nodes_of ws) nodes)
      ⊎ (weigh_nodes config factor nodes ≡ err no_resources_available)
unfolding weigh_nodes
weigh_nodes_result config factor nodes =
    let (ws, e, within) = weigh_loop_total config factor nodes in
    elim (some_weighted-cases ws) [
      | inl (some_ok, some_node) ↦ inl (ws, rw e some_ok, some_node, within)
      | inr failed ↦ inr (rw e failed)
    ]
