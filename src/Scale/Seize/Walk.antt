-- ===== src/Scale/Seize/Walk.antt =====
-- What the loop of doPriority does to the nodes, round by round, described without its tests.
use cattle.Prelude.{
  ◌≡◌, refl, Bool-cases, inl, inr, List, [], ◌∷◌, ◌++◌, All, any, ap, true, false, ℤ, pos, leb_ℤ,
  add64, ok, arith,
}
use cattle.Scale.Seize.Data.{SeizeContainer, SeizeNode, SeizeFilter}
use cattle.Scale.Seize.Grow.{do_containers, is_named}
use cattle.Scale.Seize.Pools.{readable}

-- One round: a node with a container that the app may not seize is emptied and marked, and one more
-- node is needed; on any other node DoContainers puts containers, and what it takes down stays.
pub data Rounded (p : ℤ) (node : SeizeNode) (f : SeizeFilter) (node' : SeizeNode) (f' : SeizeFilter)
    : Type 0 where
  spared :
      (front back : List SeizeContainer) (c : SeizeContainer)
      → node.scale_down ≡ front ++ c ∷ back
      → leb_ℤ c.priority p ≡ true
      → node' ≡ record node { scale_up = []; scale_down = []; cant_seize = true }
      → f' ≡ record f { need_free = add64 f.need_free (pos 1) }
      → Rounded p node f node' f'
  seized :
      All (λ c. leb_ℤ c.priority p ≡ false) node.scale_down
      → do_containers node f ≡ ok (node', f')
      → node'.scale_down ≡ node.scale_down
      → Rounded p node f node' f'

-- The rounds, up to the first after which the count reaches the number of the item; the nodes behind
-- it stay.
pub data Walk (p : ℤ) : List SeizeNode → SeizeFilter → List SeizeNode → SeizeFilter → Type 0 where
  ended : (f : SeizeFilter) → Walk p [] f [] f
  enough :
      (node node' : SeizeNode) (nodes : List SeizeNode) (f f' : SeizeFilter)
      → Rounded p node f node' f'
      → leb_ℤ f'.number (pos f'.scaled_up) ≡ true
      → Walk p (node ∷ nodes) f (node' ∷ nodes) f'
  onward :
      (node node' : SeizeNode) (nodes nodes' : List SeizeNode) (f f' f'' : SeizeFilter)
      → Rounded p node f node' f'
      → leb_ℤ f'.number (pos f'.scaled_up) ≡ false
      → Walk p nodes f' nodes' f''
      → Walk p (node ∷ nodes) f (node' ∷ nodes') f''

-- Every container of the list has a name.
abbrev pub AllNamed : List SeizeContainer → Type 0
AllNamed = All (λ c. is_named c ≡ true)

pub readable-AllNamed : (p : ℤ) (cs : List SeizeContainer) → AllNamed cs → readable p cs ≡ true
unfolding readable
readable-AllNamed p [] h = refl
readable-AllNamed p (c ∷ cs) (named, h) = ground (arith, readable-AllNamed p cs h)

-- A container among those of a list with a priority at or below `p`.
abbrev HasVictim : ℤ → List SeizeContainer → Type 0
HasVictim p cs =
    (front : List SeizeContainer) × (back : List SeizeContainer) × (c : SeizeContainer) × (cs
      ≡ front ++ c ∷ back)
    × (leb_ℤ c.priority p ≡ true)

pub any-HasVictim :
    (p : ℤ) (cs : List SeizeContainer) → any (λ c. leb_ℤ c.priority p) cs ≡ true → HasVictim p cs
unfolding any
any-HasVictim p [] h = cc h
any-HasVictim p (c ∷ cs) h = elim (Bool-cases (leb_ℤ c.priority p)) [
  | inl here ↦ ([], cs, c, refl, here)
  | inr later ↦
      let h' : any (λ c. leb_ℤ c.priority p) cs ≡ true = rw later at h in
      let (front, back, victim, split, low) = any-HasVictim p cs h' in
      (c ∷ front, back, victim, ap (λ l. c ∷ l) split, low)
]

pub any-All :
    (p : ℤ) (cs : List SeizeContainer)
    → any (λ c. leb_ℤ c.priority p) cs ≡ false
    → All (λ c. leb_ℤ c.priority p ≡ false) cs
unfolding any
any-All p [] h = tt
any-All p (c ∷ cs) h = elim (Bool-cases (leb_ℤ c.priority p)) [
  | inl here ↦ let h' = rw here at h in cc h'
  | inr later ↦ (later, any-All p cs (rw later at h))
]
