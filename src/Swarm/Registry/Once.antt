-- ===== src/Swarm/Registry/Once.antt =====
-- The registry over time: which engines it holds in every order of its steps.
use cattle.Prelude.{
  ℕ, ◌+◌, ◌≤◌, ◌≡◌, refl, sym, ap, ◌∙◌, Bool, true, false, List, [], Option, none, some, Text,
  text_eq, text_eq→eq, find, ℤ, Outcome, ok, err, panic, Bool-cases, Option-cases, inl, inr,
  if◌then◌else◌, arith, subst,
}
use cattle.Cluster.Data.{lookup, insert, delete}
use cattle.Engine.Data.{Engine, ApiError}
use cattle.Engine.Health.{
  disconnect, is_pending, set_err_msg, validation_complete, handle_id_conflict,
}
use cattle.Swarm.Registry.{
  Registry, new_engine, has_engine_by_addr, get_engine_by_addr, has_addr, add_engine, admit,
  validate_connected, drop_engine, remove_found, remove_engine, register_event_handler, handled,
}
use cattle.Cluster.Config.Stored.{lookup-insert}
use cattle.Swarm.Registry.Addresses.{
  count, IsKeyed, count-delete_le, count-delete_self, count-insert_new, count-insert_old,
  found_addr, count_found, count-none, count_unfound, delete-IsKeyed, insert-IsKeyed,
}

-- The engines with an address, waiting or registered.
abbrev pub total : Text → Registry → ℕ
total a r = count a r.pending_engines + count a r.engines

record IsOnce (r : Registry) : Type 0 where
  keyed : IsKeyed r.pending_engines
  once : (a : Text) → total a r ≤ 1

-- The steps under the lock of the cluster: an entry is discovered, an engine that connected is
-- validated, an entry is gone, and an engine works on its own fields, its address kept.
pub data Step : Registry → Registry → Type 0 where
  added :
      (addr : Text) (ratio retry now : ℤ) (r : Registry)
      → Step r (add_engine addr ratio retry now r).0
  validated : (now : ℤ) (e : Engine) (r : Registry) → Step r (validate_connected now e r).0
  removed : (addr : Text) (r s : Registry) (b : Bool) → remove_engine addr r ≡ ok (s, b) → Step r s
  worked_pending :
      (k : Text) (e w : Engine) (r : Registry)
      → lookup k r.pending_engines ≡ some w
      → e.about.engine_addr ≡ w.about.engine_addr
      → Step r (record r { pending_engines = insert k e r.pending_engines })
  worked :
      (k : Text) (e w : Engine) (r : Registry)
      → lookup k r.engines ≡ some w
      → e.about.engine_addr ≡ w.about.engine_addr
      → Step r (record r { engines = insert k e r.engines })

pub data Steps : Registry → Registry → Type 0 where
  start : (r : Registry) → Steps r r
  more : {r s t : Registry} → Steps r s → Step s t → Steps r t

one_at_le : (a : Text) (e : Engine) → (if text_eq e.about.engine_addr a then 1 else 0) ≤ 1
one_at_le a e = elim (Bool-cases (text_eq e.about.engine_addr a)) [
  | inl t ↦ rw t (omega arith)
  | inr f ↦ rw f (omega arith)
]

new_addr :
    (addr : Text) (ratio retry now : ℤ)
    → (handled
        (register_event_handler (new_engine addr ratio retry now))
        (new_engine addr ratio retry now)).about.engine_addr
      ≡ addr
unfolding new_engine register_event_handler
new_addr addr ratio retry now = refl

-- An engine that takes a place no engine of its address has.
room : (n : ℕ) (a k : Text) → (a ≡ k → n ≡ 0) → n ≤ 1 → n + (if text_eq k a then 1 else 0) ≤ 1
room n a k none_there le = elim (Bool-cases (text_eq k a)) [
  | inl t ↦ let z = none_there (sym (text_eq→eq k a t)) in rw t (omega (arith, z))
  | inr f ↦ rw f (omega (arith, le))
]

no_engine :
    (addr : Text) (r : Registry)
    → IsKeyed r.pending_engines
    → has_engine_by_addr addr r ≡ false
    → (lookup addr r.pending_engines ≡ none) × (total addr r ≡ 0)
unfolding has_engine_by_addr get_engine_by_addr
no_engine addr r keyed h = elim (Option-cases (lookup addr r.pending_engines)) [
  | inl free ↦ elim (Option-cases (find (has_addr addr) r.engines)) [
    | inl free2 ↦ (
      free,
      omega
          (arith, count-none addr r.pending_engines keyed free, count_unfound addr r.engines free2),
    )
    | inr (e, there) ↦
        let h' : true ≡ false = rw (has_engine_by_addr, get_engine_by_addr, free, there) at h in
        cc h'
  ]
  | inr (e, there) ↦
      let h' : true ≡ false = rw (has_engine_by_addr, get_engine_by_addr, there) at h in cc h'
]

inserted_pending :
    (a addr : Text) (e : Engine) (r : Registry)
    → lookup addr r.pending_engines ≡ none
    → e.about.engine_addr ≡ addr
    → total addr r ≡ 0
    → total a r ≤ 1
    → total a (record r { pending_engines = insert addr e r.pending_engines }) ≤ 1
inserted_pending a addr e r free at_addr nobody le =
    let eq = count-insert_new a addr e r.pending_engines free in
    let few =
      room (total a r) a e.about.engine_addr
        (λ same. subst (λ x. total x r ≡ 0) (sym (same ∙ at_addr)) nobody) le in
    omega (arith, eq, few)

inserted_engine :
    (a k : Text) (e : Engine) (r : Registry)
    → lookup k r.engines ≡ none
    → total e.about.engine_addr r ≡ 0
    → total a r ≤ 1
    → total a (record r { engines = insert k e r.engines }) ≤ 1
inserted_engine a k e r free nobody le =
    let eq = count-insert_new a k e r.engines free in
    let few =
      room (total a r) a e.about.engine_addr (λ same. subst (λ x. total x r ≡ 0) (sym same) nobody)
        le in
    omega (arith, eq, few)

pending_insert-IsKeyed :
    (addr : Text) (e : Engine) (m : List (Text × Engine))
    → e.about.engine_addr ≡ addr
    → IsKeyed m
    → IsKeyed (insert addr e m)
pending_insert-IsKeyed addr e m at_addr keyed =
    subst (λ x. IsKeyed (insert x e m)) at_addr (insert-IsKeyed e m keyed)

put_pending-IsOnce :
    (addr : Text) (e : Engine) (r : Registry)
    → IsOnce r
    → has_engine_by_addr addr r ≡ false
    → e.about.engine_addr ≡ addr
    → IsOnce (record r { pending_engines = insert addr e r.pending_engines })
put_pending-IsOnce addr e r i new at_addr =
    let (free, nobody) = no_engine addr r i.keyed new in
    record {
      keyed = pending_insert-IsKeyed addr e r.pending_engines at_addr i.keyed;
      once = λ a. inserted_pending a addr e r free at_addr nobody (i.once a);
    }

added-IsOnce :
    (addr : Text) (ratio retry now : ℤ) (r : Registry)
    → IsOnce r
    → IsOnce (add_engine addr ratio retry now r).0
unfolding add_engine
added-IsOnce addr ratio retry now r i = elim (Bool-cases (has_engine_by_addr addr r)) [
  | inl known ↦ rw known i
  | inr new ↦ rw new (
      put_pending-IsOnce addr
        (handled (register_event_handler (new_engine addr ratio retry now))
          (new_engine addr ratio retry now))
        r i new (new_addr addr ratio retry now))
]

drop_less : (addr : Text) (e : Engine) (r : Registry) → IsOnce r → IsOnce (drop_engine addr e r)
unfolding drop_engine
drop_less addr e r i = elim (Option-cases (lookup addr r.pending_engines)) [
  | inl free ↦
      rw (drop_engine, free)
        (record {
          keyed = i.keyed;
          once = λ a. omega (arith, i.once a, count-delete_le a e.about.engine_id r.engines);
        })
  | inr (w, there) ↦
      rw (drop_engine, there)
        (record {
          keyed = delete-IsKeyed addr r.pending_engines i.keyed;
          once = λ a. omega (arith, i.once a, count-delete_le a addr r.pending_engines);
        })
]

same_registry :
    (r s : Registry) (b c : Bool)
    → ◌≡◌ {A = Outcome ApiError (Registry × Bool)} (ok (r, b)) (ok (s, c))
    → r ≡ s
same_registry r s b c h = cc h

dropped :
    (addr : Text) (e : Engine) (r s : Registry) (b : Bool)
    (o : Outcome ApiError (Engine × List Text))
    → disconnect e ≡ o
    → remove_found addr (some e) r ≡ ok (s, b)
    → drop_engine addr e r ≡ s
unfolding remove_found
dropped addr e r s b panic by h =
    let h' : ◌≡◌ {A = Outcome ApiError (Registry × Bool)} panic (ok (s, b)) =
      rw (remove_found, by) at h in
    cc h'
dropped addr e r s b (err x) by h =
    let h' : ◌≡◌ {A = Outcome ApiError (Registry × Bool)} (err x) (ok (s, b)) =
      rw (remove_found, by) at h in
    cc h'
dropped addr e r s b (ok d) by h =
    same_registry (drop_engine addr e r) s true b (rw (remove_found, by) at h)

removed-IsOnce :
    (addr : Text) (r s : Registry) (b : Bool)
    → remove_engine addr r ≡ ok (s, b)
    → IsOnce r
    → IsOnce s
unfolding remove_engine remove_found
removed-IsOnce addr r s b h i = elim (Option-cases (get_engine_by_addr addr r)) [
  | inl nobody ↦ subst IsOnce (same_registry r s false b (rw (remove_found, nobody) at h)) i
  | inr (e, there) ↦
      subst IsOnce (dropped addr e r s b (disconnect e) refl (rw there at h)) (drop_less addr e r i)
]

worked_pending-IsOnce :
    (k : Text) (e w : Engine) (r : Registry)
    → lookup k r.pending_engines ≡ some w
    → e.about.engine_addr ≡ w.about.engine_addr
    → IsOnce r
    → IsOnce (record r { pending_engines = insert k e r.pending_engines })
worked_pending-IsOnce k e w r there same i = record {
  keyed =
      pending_insert-IsKeyed k e r.pending_engines
        (same ∙ found_addr k w r.pending_engines i.keyed there) i.keyed;
  once = λ a. omega (arith, i.once a, count-insert_old a k e w r.pending_engines there same);
}

validated_addr : (e : Engine) → (validation_complete e).about.engine_addr ≡ e.about.engine_addr
unfolding validation_complete
validated_addr e = elim (Bool-cases (is_pending e.engine_state)) [
  | inl t ↦ rw (validation_complete, t) refl
  | inr f ↦ rw (validation_complete, f) refl
]

conflict_addr :
    (now : ℤ) (other : Text) (e : Engine)
    → (handle_id_conflict now other e).about.engine_addr ≡ e.about.engine_addr
unfolding handle_id_conflict set_err_msg
conflict_addr now other e = refl

-- An engine that leaves the pending ones, its address then free.
admitted :
    (a : Text) (e w : Engine) (r : Registry)
    → lookup e.about.engine_addr r.pending_engines ≡ some w
    → lookup e.about.engine_id r.engines ≡ none
    → IsOnce r
    → total a (record r {
      pending_engines = delete e.about.engine_addr r.pending_engines;
      engines = insert e.about.engine_id (validation_complete e) r.engines;
    })
      ≤ 1
admitted a e w r waits free i =
    let left : Registry = record r {
      pending_engines = delete e.about.engine_addr r.pending_engines;
    } in
    let gone : total e.about.engine_addr left ≡ 0 = omega (
      arith,
      i.once e.about.engine_addr,
      count_found e.about.engine_addr w r.pending_engines i.keyed waits,
      count-delete_self e.about.engine_addr r.pending_engines i.keyed,
    ) in
    inserted_engine a e.about.engine_id (validation_complete e) left free
      (subst (λ x. total x left ≡ 0) (sym (validated_addr e)) gone)
      (omega (arith, i.once a, count-delete_le a e.about.engine_addr r.pending_engines))

admit-IsOnce :
    (now : ℤ) (e w : Engine) (o : Option Engine) (r : Registry)
    → lookup e.about.engine_addr r.pending_engines ≡ some w
    → lookup e.about.engine_id r.engines ≡ o
    → IsOnce r
    → IsOnce (admit now e o r).0
unfolding admit
admit-IsOnce now e w none r waits free i = record {
  keyed = delete-IsKeyed e.about.engine_addr r.pending_engines i.keyed;
  once = λ a. admitted a e w r waits free i;
}
admit-IsOnce now e w (some old) r waits there i =
    elim (Bool-cases (text_eq old.about.engine_addr e.about.engine_addr)) [
      | inl same ↦
          rw (admit, same)
            (record {
              keyed = delete-IsKeyed e.about.engine_addr r.pending_engines i.keyed;
              once = λ a.
                  omega (arith, i.once a, count-delete_le a e.about.engine_addr r.pending_engines);
            })
      | inr other ↦
          rw (admit, other)
            (worked_pending-IsOnce e.about.engine_addr
              (handle_id_conflict now old.about.engine_addr e) w r waits
              (conflict_addr now old.about.engine_addr e
                ∙ sym (found_addr e.about.engine_addr w r.pending_engines i.keyed waits))
              i)
    ]

validated-IsOnce :
    (now : ℤ) (e : Engine) (r : Registry) → IsOnce r → IsOnce (validate_connected now e r).0
unfolding validate_connected
validated-IsOnce now e r i = elim (Option-cases (lookup e.about.engine_addr r.pending_engines)) [
  | inl gone ↦ rw (validate_connected, gone) i
  | inr (w, waits) ↦
      rw (validate_connected, waits)
        (admit-IsOnce now e w (lookup e.about.engine_id r.engines) r waits refl i)
]

Step-IsOnce : (r s : Registry) → Step r s → IsOnce r → IsOnce s
Step-IsOnce _ _ (added addr ratio retry now r) i = added-IsOnce addr ratio retry now r i
Step-IsOnce _ _ (validated now e r) i = validated-IsOnce now e r i
Step-IsOnce _ _ (removed addr r s b by) i = removed-IsOnce addr r s b by i
Step-IsOnce _ _ (worked_pending k e w r there same) i = worked_pending-IsOnce k e w r there same i
Step-IsOnce _ _ (worked k e w r there same) i = record {
  keyed = i.keyed;
  once = λ a. omega (arith, i.once a, count-insert_old a k e w r.engines there same);
}

Steps-IsOnce : (r s : Registry) → Steps r s → IsOnce r → IsOnce s
Steps-IsOnce _ _ (start r) i = i
Steps-IsOnce r t (more {s = s} run step) i = Step-IsOnce s t step (Steps-IsOnce r s run i)

-- From an empty cluster, in every order of the steps under its lock (an entry is added, an
-- engine that connected is validated, an entry is removed, an engine works on its own fields
-- and keeps its address), at most one engine with an address stands among the pending and the
-- registered engines together.
pub Steps-once :
    (r : Registry) (a : Text)
    → Steps (record { engines = []; pending_engines = [] }) r
    → total a r ≤ 1
unfolding count
Steps-once r a run =
    (Steps-IsOnce (record { engines = []; pending_engines = [] }) r run
        (record { keyed = tt; once = λ x. omega arith })).once
      a

new_panics :
    (addr : Text) (ratio retry now : ℤ)
    → disconnect (
        handled
          (register_event_handler (new_engine addr ratio retry now))
          (new_engine addr ratio retry now))
      ≡ panic
unfolding disconnect register_event_handler new_engine
new_panics addr ratio retry now = refl

found_pending :
    (addr : Text) (e : Engine) (r : Registry)
    → get_engine_by_addr addr (record r { pending_engines = insert addr e r.pending_engines })
      ≡ some e
unfolding get_engine_by_addr
found_pending addr e r = rw (get_engine_by_addr, lookup-insert addr e r.pending_engines) refl

-- removeEngine of an address that was just added, and whose engine has not been connected yet,
-- panics.
pub remove_added_panics :
    (addr : Text) (ratio retry now : ℤ) (r : Registry)
    → has_engine_by_addr addr r ≡ false
    → remove_engine addr (add_engine addr ratio retry now r).0 ≡ panic
unfolding remove_engine add_engine get_engine_by_addr remove_found
remove_added_panics addr ratio retry now r new =
    let e : Engine =
      handled (register_event_handler (new_engine addr ratio retry now))
        (new_engine addr ratio retry now) in
    rw new (
      ap (λ o. remove_found addr o (record r { pending_engines = insert addr e r.pending_engines }))
        (found_pending addr e r))
