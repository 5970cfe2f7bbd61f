-- ===== src/Engine/Shares.antt =====
-- A number of CPUs that is turned into shares for the daemon and read back.
use native.Mathlib.Nat.{mod-add-div', mod-lt}
use cattle.Prelude.{
  ℕ, suc, zero, ◌+◌, ◌*◌, ◌/◌, ◌^◌, ◌<◌, ◌≤◌, ◌≡◌, refl, ltb, ◌&&◌, true, ap, pos, mul64_small,
  div64_small, arith,
}
use cattle.Scale.Seize.Pools.{ceil_div}
use cattle.Engine.Cache.{cpus_of_shares}
use cattle.Engine.Float.{float_ceil}
use cattle.Engine.Methods.{shares_of_cpus}

shares_up :
    (s c : ℕ)
    → s * 1024 < 2 ^ 53
    → c < 1024
    → shares_of_cpus (pos (suc c)) (pos s) ≡ pos ((s * 1024 + c) / suc c)
unfolding shares_of_cpus float_ceil ceil_div
shares_up s c small few =
    let exact : (ltb (s * 1024) (2 ^ 53) && ltb c (2 ^ 53)) ≡ true = ground arith in
    rw (mul64_small s 1024 (omega arith), exact) refl

whole : (s c : ℕ) → c < 1024 → (s * 1024 + c) / suc c * suc c / 1024 ≡ s
whole s c h =
    let parts = mod-add-div' (s * 1024 + c) (suc c) in
    let rest = mod-lt (s * 1024 + c) {m = suc c} (omega arith) in omega (arith, parts, rest)

-- A number of CPUs that CreateContainer turns into CPU shares is read back by updateContainer
-- as it was, on an engine with 1 to 1024 CPUs and where 1024 times the number, and 1024 more,
-- are below 2^53: the float64 quotient has the ceiling of the exact one there.
pub cpus_of_shares-shares_of_cpus :
    (cpus shares : ℕ)
    → 0 < cpus
    → cpus ≤ 1024
    → shares * 1024 + 1024 < 2 ^ 53
    → cpus_of_shares (pos cpus) (shares_of_cpus (pos cpus) (pos shares)) ≡ pos shares
unfolding cpus_of_shares
cpus_of_shares-shares_of_cpus zero s some_cpu few small = absurd (omega arith)
cpus_of_shares-shares_of_cpus (suc c) s some_cpu few small =
    let parts = mod-add-div' (s * 1024 + c) (suc c) in
    let q : ℕ = (s * 1024 + c) / suc c in
    let fits : q * suc c < 2 ^ 63 = omega (arith, parts) in
    rw
      (
        shares_up s c (omega arith) (omega arith),
        mul64_small q (suc c) fits,
        div64_small (q * suc c) 1024 fits,
      )
      (ap pos (whole s c (omega arith)))
