-- ===== src/Scale/Seize/Priority.antt =====
-- doPriority: on which nodes containers are taken down for the app, and which are left to theirs.
use cattle.Prelude.{
  add64_small, arith, ◌≤◌, ◌^◌, ◌<◌, ◌+◌, ltb_ℤ, add64, if◌then◌else◌, ℕ, ◌≡◌, refl, ◌∙◌, subst,
  Bool-cases, inl, inr, List, [], ◌∷◌, length, take, take-all, All, true, pos, leb_ℤ, ok, ◌>>=◌,
}
use cattle.Scale.Seize.Data.{SeizeNode, SeizeFilter}
use cattle.Scale.Seize.Pools.{
  too_high, give_up, priority_round, priority_loop, cut_nodes, do_priority,
}
use cattle.Scale.Seize.Bounds.{do_containers_total, do_containers-Kept}
use cattle.Scale.Seize.Loops.{HasContainer}
use cattle.Scale.Seize.Walk.{
  Rounded, spared, seized, Walk, ended, enough, onward, AllNamed, readable-AllNamed, any-HasVictim,
  any-All,
}

-- What a round gives: it returns, as described, with what the next round needs.
record Returned (node : SeizeNode) (f : SeizeFilter) (n : ℕ) : Type 0 where
  done : SeizeNode × SeizeFilter
  returns : priority_round node f ≡ ok done
  rounded : Rounded f.app_priority node f done.0 done.1
  has_container : HasContainer done.1
  same_priority : done.1.app_priority ≡ f.app_priority
  needed : ℕ
  need : done.1.need_free ≡ pos needed
  at_most_one : needed ≤ n + 1

round_returns :
    (node : SeizeNode) (f : SeizeFilter) (n : ℕ)
    → HasContainer f
    → AllNamed node.scale_down
    → f.need_free ≡ pos n
    → n + 1 < 2 ^ 63
    → Returned node f n
unfolding priority_round too_high give_up
round_returns node f n has named need small =
    let p = f.app_priority in
    let read = readable-AllNamed p node.scale_down named in
    elim (Bool-cases (too_high p node)) [
      | inl high ↦
          let (front, back, c, split, low) = any-HasVictim p node.scale_down high in
          record {
            done = (
              record node { scale_up = []; scale_down = []; cant_seize = true },
              record f { need_free = add64 f.need_free (pos 1) },
            );
            returns = rw (read, high) refl;
            rounded = spared front back c split low refl refl;
            has_container = has;
            same_priority = refl;
            needed = n + 1;
            need = rw need (add64_small n 1 small);
            at_most_one = omega arith;
          }
      | inr low ↦
          let (done, h) = do_containers_total node f has in
          let kept = do_containers-Kept node f done h in
          record {
            done = done;
            returns = rw (read, low) h;
            rounded = seized (any-All p node.scale_down low) h kept.0;
            has_container = kept.4 has;
            same_priority = kept.1;
            needed = n;
            need = kept.3 ∙ need;
            at_most_one = omega arith;
          }
    ]

priority_loop-cons :
    (node : SeizeNode) (nodes : List SeizeNode) (f : SeizeFilter)
    → priority_loop (node ∷ nodes) f ≡ (do
      done ← priority_round node f
      later ←
          (if leb_ℤ done.1.number (pos done.1.scaled_up)
            then ok (nodes, done.1)
            else priority_loop nodes done.1)
      ok (done.0 ∷ later.0, later.1))
unfolding priority_loop
priority_loop-cons node nodes f = refl

priority_loop-nil : (f : SeizeFilter) → priority_loop [] f ≡ ok ([], f)
unfolding priority_loop
priority_loop-nil f = refl

-- The loop returns, after the rounds of a walk.
abbrev Walked : List SeizeNode → SeizeFilter → Type 0
Walked nodes f =
    (result : List SeizeNode × SeizeFilter) × (m : ℕ) × (priority_loop nodes f ≡ ok result)
    × (result.1.need_free ≡ pos m)
    × Walk f.app_priority nodes f result.0 result.1

priority_loop-Walked :
    (nodes : List SeizeNode) (f : SeizeFilter) (n : ℕ)
    → HasContainer f
    → All (λ node. AllNamed node.scale_down) nodes
    → f.need_free ≡ pos n
    → n + length nodes < 2 ^ 63
    → Walked nodes f
priority_loop-Walked [] f n has named need small = (([], f), n, priority_loop-nil f, need, ended f)
priority_loop-Walked (node ∷ nodes) f n has (here, named) need small =
    let r = round_returns node f n has here need (omega arith) in
    let p = f.app_priority in
    let node' = r.done.0 in
    let f' = r.done.1 in
    elim (Bool-cases (leb_ℤ f'.number (pos f'.scaled_up))) [
      | inl reached ↦ (
        (node' ∷ nodes, f'),
        r.needed,
        priority_loop-cons node nodes f ∙ rw r.returns (rw reached refl),
        r.need,
        enough node node' nodes f f' r.rounded reached,
      )
      | inr short ↦
          let (later, m, h, need', walk) =
            priority_loop-Walked nodes f' r.needed r.has_container named r.need
              (omega (arith, r.at_most_one, small)) in
          (
            (node' ∷ later.0, later.1),
            m,
            priority_loop-cons node nodes f ∙ rw r.returns (rw (short, h) refl),
            need',
            onward node node' nodes later.0 f f' later.1 r.rounded short
                (subst (λ q. Walk q nodes f' later.0 later.1) r.same_priority walk),
          )
    ]

cut_nodes-take : (n : ℕ) (nodes : List SeizeNode) → cut_nodes (pos n) nodes ≡ ok (take n nodes)
unfolding cut_nodes
cut_nodes-take n nodes = elim (Bool-cases (ltb_ℤ (pos n) (pos (length nodes)))) [
  | inl fewer ↦ rw fewer refl
  | inr all ↦ rw all (rw (take-all n nodes (ground arith)) refl)
]

-- With a container to copy that has a name, names of all containers to be taken down, and a
-- number of needed nodes that is not negative and cannot overflow, doPriority returns. Its
-- rounds go over the nodes in order: a node on which a container to be taken down has a
-- priority at or below that of the app loses both its lists, is marked, and one more node is
-- needed; on every other one no container has, what is taken down stays, and DoContainers puts
-- its containers. The first round after which the count of scaled-up containers reaches the
-- number of the item is the last, the nodes behind it stay as they are, and of the nodes as
-- many are left as are needed then.
pub do_priority_walks :
    (f : SeizeFilter) (n : ℕ)
    → HasContainer f
    → All (λ node. AllNamed node.scale_down) f.nodes
    → f.need_free ≡ pos n
    → n + length f.nodes < 2 ^ 63
    → (looped : List SeizeNode) × (g : SeizeFilter) × (m : ℕ) × Walk f.app_priority f.nodes f looped
        g
      × (g.need_free ≡ pos m)
      × (do_priority f ≡ ok (record g { nodes = take m looped }))
do_priority_walks f n has named need small =
    let (looped, m, h, need', walk) = priority_loop-Walked f.nodes f n has named need small in
    let e : do_priority f ≡ ok (record (looped.1) { nodes = take m looped.0 }) =
      unfold do_priority in rw h (rw need' (rw (cut_nodes-take m looped.0) refl)) in
    (looped.0, looped.1, m, walk, need', e)
