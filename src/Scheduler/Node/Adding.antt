-- ===== src/Scheduler/Node/Adding.antt =====
-- What AddContainer asks for, and what it counts.
use cattle.Prelude.{
  ℕ, ◌+◌, ◌≤◌, ◌<◌, ◌^◌, ◌≡◌, refl, false, ◌↔◌, [], ◌∷◌, ◌++◌, some, pos, sub64, add64_small,
  sub64_small, ltb_ℤ, arith,
}
use cattle.Cluster.Data.{Container}
use cattle.Scheduler.Node.{Node, add_container}

negative_rest :
    (total asked : ℕ)
    → total < 2 ^ 63
    → asked < 2 ^ 63
    → (ltb_ℤ (sub64 (pos total) (pos asked)) (pos 0) ≡ false) ↔ (asked ≤ total)
negative_rest total asked h k =
    rw (sub64_small total asked h k) ((λ e. ground arith), (λ e. ground arith))

-- What a container asks for and what a node has, in numbers that do not overflow.
pub record Sizes (c : Container) (n : Node) (memory cpus : ℕ) (used_memory used_cpus : ℕ)
    (total_memory total_cpus : ℕ) : Type 0 where
  pub asks_memory : c.config.host_config.memory ≡ pos memory
  pub asks_cpus : c.config.host_config.cpu_shares ≡ pos cpus
  pub uses_memory : n.used_memory ≡ pos used_memory
  pub uses_cpus : n.used_cpus ≡ pos used_cpus
  pub has_memory : n.total_memory ≡ pos total_memory
  pub has_cpus : n.total_cpus ≡ pos total_cpus
  pub small_memory : (used_memory + memory < 2 ^ 63) × (total_memory < 2 ^ 63)
  pub small_cpus : (used_cpus + cpus < 2 ^ 63) × (total_cpus < 2 ^ 63)

-- For amounts that do not overflow, AddContainer succeeds when what the container asks for is
-- at most the total of the node, whatever is used already. It then adds the memory and the
-- cpus to what is used, and the container behind the others.
pub add_container_fits :
    (c : Container) (n : Node) (memory cpus used_memory used_cpus total_memory total_cpus : ℕ)
    → Sizes c n memory cpus used_memory used_cpus total_memory total_cpus
    → memory ≤ total_memory
    → cpus ≤ total_cpus
    → add_container c n
      ≡ some (record n {
        used_memory = pos (used_memory + memory);
        used_cpus = pos (used_cpus + cpus);
        node_containers = n.node_containers ++ c ∷ [];
      })
unfolding add_container
add_container_fits c n m p um up tm tp s room_m room_p =
    let enough_m =
      (negative_rest tm m s.small_memory.1 (omega (arith, s.small_memory.0))).1 room_m in
    let enough_p = (negative_rest tp p s.small_cpus.1 (omega (arith, s.small_cpus.0))).1 room_p in
    rw (s.asks_memory, s.asks_cpus, s.uses_memory, s.uses_cpus, s.has_memory, s.has_cpus)
      (rw (enough_m, enough_p, add64_small um m s.small_memory.0, add64_small up p s.small_cpus.0)
        refl)
