-- ===== src/Engine/Float.antt =====
-- cluster/engine.go: the quotient of two float64 numbers, rounded up, that CreateContainer takes.
use cattle.Prelude.{
  ℕ, zero, suc, ◌+◌, ◌-◌, ◌*◌, ◌/◌, ◌%◌, ◌^◌, ◌==◌, ltb, ◌&&◌, ℤ, pos, negsuc, ◌-ℤ◌, quot_ℤ,
  if◌then◌else◌,
}
use cattle.Scale.Seize.Pools.{ceil_div}

-- The number of bits of a number below 2^64.
bits : ℕ → ℕ → ℕ
bits zero n = 0
bits (suc fuel) n = let half = bits fuel (n / 2) in if n == 0 then 0 else suc half

-- n / d to the nearest number, and to the even one of two that are as near.
nearest : ℕ → ℕ → ℕ
nearest n d =
    let q = n / d in
    let r = n % d in if ltb (2 * r) d then q else if ltb d (2 * r) then q + 1 else q + q % 2

-- float64(n)
as_float : ℕ → ℕ
unfolding bits nearest
as_float n = let unit = 2 ^ (bits 64 n - 53) in nearest n unit * unit

-- float64(a) / float64(b) as a fraction, for numbers above zero: 53 bits of the quotient, a power of two.
float_quotient : ℕ → ℕ → ℕ × ℕ
unfolding bits nearest as_float
float_quotient a b =
    let a' = as_float a in
    let b' = as_float b in
    let top = 53 + bits 65 b' in
    let exponent = bits 65 a' in
    let up = a' * 2 ^ top in
    let down = b' * 2 ^ exponent in
    if ltb up (2 ^ 53 * down)
    then (nearest up down * 2 ^ exponent, 2 ^ top)
    else (nearest up (2 * down) * 2 ^ (exponent + 1), 2 ^ top)

-- int64(math.Ceil(float64(a)/float64(b))). A number below 2^53 is a float64, and the rounded quotient of
-- two of them has the ceiling of the exact one. A result that is no `int64` is the least one, on amd64.
unfoldable pub float_ceil : ℤ → ℤ → ℤ
unfolding float_quotient ceil_div
float_ceil (pos a) (pos (suc b)) =
    if ltb a (2 ^ 53) && ltb b (2 ^ 53)
    then ceil_div (pos a) (pos (suc b))
    else (let (n, d) = float_quotient a (suc b) in
        let up = (n + (d - 1)) / d in if ltb up (2 ^ 63) then pos up else negsuc (2 ^ 63 - 1))
float_ceil (negsuc a) (pos (suc b)) =
    if ltb a (2 ^ 53) && ltb b (2 ^ 53)
    then ceil_div (negsuc a) (pos (suc b))
    else (let (n, d) = float_quotient (suc a) (suc b) in quot_ℤ (pos 0 -ℤ pos n) (pos d))
float_ceil a b = ceil_div a b
