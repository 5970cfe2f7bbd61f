-- ===== src/Scale/Seize/Loops.antt =====
-- The two loops that put containers on a node: what they count, and that they return.
use cattle.Prelude.{
  ℕ, zero, suc, ◌+◌, ◌≤◌, ◌<◌, ◌≡◌, refl, ◌∙◌, Bool-cases, inl, inr, [], ◌∷◌, ◌++◌, some, length,
  length-append, pos, leb_ℤ, ok, arith, ok-injective, subst, false, true, sym, none, ◌≢◌, leb,
  Option-cases,
}
use cattle.Scale.Select.Base.{Run}
use cattle.Scale.Seize.Data.{SeizeContainer, SeizeNode, SeizeFilter}
use cattle.Scale.Seize.Grow.{
  create_loop, start_loop, is_named, copy_for, node_constraint, add_up, with_env,
}

lt_of_not-leb : (n m : ℕ) → leb n m ≡ false → m < n
lt_of_not-leb n m h = ground arith

-- There is a container to copy, and it has a name.
abbrev pub HasContainer : SeizeFilter → Type 0
HasContainer f = (c : SeizeContainer) × (f.create_container ≡ some c) × (is_named c ≡ true)

-- The count grows with the node's list, and not beyond the number asked for; what is taken down
-- stays as it is.
pub record Grown (node node' : SeizeNode) (f f' : SeizeFilter) : Type 0 where
  pub counted : f'.scaled_up + length node.scale_up ≡ f.scaled_up + length node'.scale_up
  pub asked : (n : ℕ) → f.number ≡ pos n → f.scaled_up ≤ n → f'.scaled_up ≤ n
  pub same_down : node'.scale_down ≡ node.scale_down
  pub same_number : f'.number ≡ f.number
  pub same_priority : f'.app_priority ≡ f.app_priority
  pub same_need : f'.need_free ≡ f.need_free
  pub still : HasContainer f → HasContainer f'

Grown-refl : (node : SeizeNode) (f : SeizeFilter) → Grown node node f f
Grown-refl node f = record {
  counted = refl;
  asked = λ n e h. h;
  same_down = refl;
  same_number = refl;
  same_priority = refl;
  same_need = refl;
  still = λ c. c;
}

-- A result, with a bound on the length of the node's list.
abbrev pub GrownBy : ℕ → SeizeNode → SeizeFilter → SeizeNode × SeizeFilter → Type 0
GrownBy k node f result =
    Grown node result.0 f result.1 × (length result.0.scale_up ≤ length node.scale_up + k)

GrownBy-refl :
    (k : ℕ) (node : SeizeNode) (f : SeizeFilter) (result : SeizeNode × SeizeFilter)
    → ◌≡◌ {A = Run (SeizeNode × SeizeFilter)} (ok (node, f)) (ok result)
    → GrownBy k node f result
GrownBy-refl k node f result h =
    subst (GrownBy k node f) (ok-injective (node, f) result h) (Grown-refl node f, omega arith)

-- One more container on the node, and the rest of the loop.
GrownBy-step :
    (k : ℕ) (c : SeizeContainer) (node : SeizeNode) (f f₁ : SeizeFilter)
    (result : SeizeNode × SeizeFilter)
    → f₁.scaled_up ≡ f.scaled_up + 1
    → f₁.number ≡ f.number
    → f₁.app_priority ≡ f.app_priority
    → f₁.need_free ≡ f.need_free
    → (HasContainer f → HasContainer f₁)
    → leb_ℤ f.number (pos f.scaled_up) ≡ false
    → GrownBy k (record node { scale_up = node.scale_up ++ c ∷ [] }) f₁ result
    → GrownBy (suc k) node f result
GrownBy-step k c node f f₁ result one number priority need has short (g, bound) =
    let longer = length-append node.scale_up (c ∷ []) in
    (
      record {
        counted = omega (arith, g.counted, one, longer);
        asked = λ n e h. g.asked n (number ∙ e) (below n e);
        same_down = g.same_down;
        same_number = g.same_number ∙ number;
        same_priority = g.same_priority ∙ priority;
        same_need = g.same_need ∙ need;
        still = λ h. g.still (has h);
      },
      omega (arith, bound, longer),
    )
  where
    below : (n : ℕ) → f.number ≡ pos n → f₁.scaled_up ≤ n
    below n e = omega (
      arith,
      one,
      lt_of_not-leb n f.scaled_up (subst (λ z. leb_ℤ z (pos f.scaled_up) ≡ false) e short),
    )

some_same : (a b : SeizeContainer) → some a ≡ some b → a ≡ b
some_same a b h = cc

-- A copy keeps the name.
grown-HasContainer :
    (f f₁ : SeizeFilter) (first c : SeizeContainer)
    → f.create_container ≡ some first
    → f₁.create_container ≡ some c
    → is_named c ≡ is_named first
    → HasContainer f
    → HasContainer f₁
grown-HasContainer f f₁ first c e e₁ same (d, e', named) =
    let eq : first ≡ d = some_same first d (sym e ∙ e') in
    (c, e₁, same ∙ (subst (λ x. is_named x ≡ true) (sym eq) named))

-- A round that adds a container, and returns.
create_more :
    (k : ℕ) (node : SeizeNode) (f : SeizeFilter) (first : SeizeContainer)
    (result : SeizeNode × SeizeFilter)
    → leb_ℤ f.number (pos f.scaled_up) ≡ false
    → f.create_container ≡ some first
    → create_loop (suc k) node f ≡ ok result
    → create_loop k
        (add_up (copy_for (node_constraint node) first) node)
        (record f { scaled_up = f.scaled_up + 1 })
      ≡ ok result
unfolding create_loop
create_more k node f first result short e h = elim (Bool-cases (is_named first)) [
  | inl named ↦ rw (short, e, named) at h
  | inr unnamed ↦ let h' = rw (short, e, unnamed) at h in cc h'
]

create_none :
    (k : ℕ) (node : SeizeNode) (f : SeizeFilter) (result : SeizeNode × SeizeFilter)
    → leb_ℤ f.number (pos f.scaled_up) ≡ false
    → f.create_container ≡ none
    → create_loop (suc k) node f ≢ ok result
unfolding create_loop
create_none k node f result short missing h = let h' = rw (short, missing) at h in cc h'

create_enough :
    (k : ℕ) (node : SeizeNode) (f : SeizeFilter)
    → leb_ℤ f.number (pos f.scaled_up) ≡ true
    → create_loop (suc k) node f ≡ ok (node, f)
unfolding create_loop
create_enough k node f enough = rw enough

create_zero : (node : SeizeNode) (f : SeizeFilter) → create_loop zero node f ≡ ok (node, f)
unfolding create_loop
create_zero node f = refl

pub create_loop-Grown :
    (k : ℕ) (node : SeizeNode) (f : SeizeFilter) (result : SeizeNode × SeizeFilter)
    → create_loop k node f ≡ ok result
    → GrownBy k node f result
unfolding add_up
create_loop-Grown zero node f result h = GrownBy-refl 0 node f result (sym (create_zero node f) ∙ h)
create_loop-Grown (suc k) node f result h = elim (Bool-cases (leb_ℤ f.number (pos f.scaled_up))) [
  | inl enough ↦ GrownBy-refl (suc k) node f result (sym (create_enough k node f enough) ∙ h)
  | inr short ↦ elim (Option-cases f.create_container) [
    | inl missing ↦ absurd (create_none k node f result short missing h)
    | inr (first, e) ↦
        let c = copy_for (node_constraint node) first in
        let f₁ : SeizeFilter = record f { scaled_up = f.scaled_up + 1 } in
        GrownBy-step k c node f f₁ result refl refl refl refl (λ has. has) short
          (create_loop-Grown k (add_up c node) f₁ result
            (create_more k node f first result short e h))
  ]
]

pub start_loop-Grown :
    (k : ℕ) (node : SeizeNode) (f : SeizeFilter) (result : SeizeNode × SeizeFilter)
    → start_loop k node f ≡ ok result
    → GrownBy k node f result
unfolding start_loop is_named
start_loop-Grown zero node f result h = GrownBy-refl 0 node f result h
start_loop-Grown (suc k) node f result h = elim (Bool-cases (leb_ℤ f.number (pos f.scaled_up))) [
  | inl enough ↦ GrownBy-refl (suc k) node f result (rw enough at h)
  | inr short ↦ elim (Option-cases f.create_container) [
    | inl missing ↦ let h' = rw (short, missing) at h in cc h'
    | inr (first, e) ↦
        let c : SeizeContainer = record first {
          taken = record (first.taken) { config = with_env first.taken.config [] };
        } in
        let f₁ : SeizeFilter = record f {
          scaled_up = f.scaled_up + 1;
          create_container = some c;
        } in
        let h' : start_loop k (add_up c node) f₁ ≡ ok result = rw (short, e) at h in
        GrownBy-step k c node f f₁ result refl refl refl refl
          (grown-HasContainer f f₁ first c e refl refl) short
          (start_loop-Grown k (add_up c node) f₁ result h')
  ]
]

pub create_loop_total :
    (k : ℕ) (node : SeizeNode) (f : SeizeFilter) (first : SeizeContainer)
    → f.create_container ≡ some first
    → is_named first ≡ true
    → (result : SeizeNode × SeizeFilter) × (create_loop k node f ≡ ok result)
unfolding create_loop
create_loop_total zero node f first e named = ((node, f), refl)
create_loop_total (suc k) node f first e named =
    elim (Bool-cases (leb_ℤ f.number (pos f.scaled_up))) [
      | inl enough ↦ ((node, f), rw enough)
      | inr short ↦
          let f₁ : SeizeFilter = record f { scaled_up = f.scaled_up + 1 } in
          let (result, h) =
            create_loop_total k (add_up (copy_for (node_constraint node) first) node) f₁ first e
              named in
          (result, rw (short, e, named) h)
    ]

pub start_loop_total :
    (k : ℕ) (node : SeizeNode) (f : SeizeFilter) (first : SeizeContainer)
    → f.create_container ≡ some first
    → (result : SeizeNode × SeizeFilter) × (start_loop k node f ≡ ok result)
unfolding start_loop
start_loop_total zero node f first e = ((node, f), refl)
start_loop_total (suc k) node f first e = elim (Bool-cases (leb_ℤ f.number (pos f.scaled_up))) [
  | inl enough ↦ ((node, f), rw enough)
  | inr short ↦
      let c : SeizeContainer = record first {
        taken = record (first.taken) { config = with_env first.taken.config [] };
      } in
      let f₁ : SeizeFilter = record f { scaled_up = f.scaled_up + 1; create_container = some c } in
      let (result, h) = start_loop_total k (add_up c node) f₁ c refl in (result, rw (short, e) h)
]
