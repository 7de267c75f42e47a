-- ===== src/Numeric/Prime.antt =====
-- numeric/prime.c: modular powers, the test of Miller and Rabin, and the sample of primes. A fault
-- is what C leaves undefined: a product of two `int` that overflows, and a remainder by 0.
pub mod Power
pub mod Sample
pub mod Rounds
use attica.Base.{
  ℕ, zero, suc, ◌+◌, ◌-◌, ◌*◌, ◌/◌, ◌%◌, ◌^◌, Bool, true, false, ◌&&◌, ◌||◌, Option, none, some,
  List, [], ◌∷◌, ◌++◌, length, take, Run, ok, fault, ◌>>=◌, ltb, leb, ◌==◌, if◌then◌else◌, not,
}
use attica.Numeric.Lehmer.{initialize, generate_int32}

-- The product of two `int` that are not negative, modulo an unsigned number.
unfoldable pub product_mod : (x y m : ℕ) → Run ℕ
product_mod x y m = if ltb (x * y) (2 ^ 31) && not (m == 0) then ok ((x * y) % m) else fault

-- The loop of `prime_modular_exponent`.
unfoldable pub exponent_loop : (rounds result a b m : ℕ) → Run ℕ
unfolding product_mod
exponent_loop zero result a b m = ok result
exponent_loop (suc n) result a b m = if b == 0 then ok result else do
  result' ← if b % 2 == 1 then product_mod result a m else ok result
  a' ← product_mod a a m
  exponent_loop n result' a' (b / 2) m

-- `prime_modular_exponent`, of numbers that are not negative. The exponent is halved in each round.
unfoldable pub modular_exponent : (a b m : ℕ) → Run ℕ
unfolding exponent_loop
modular_exponent a b m = if m == 0 then fault else exponent_loop b 1 (a % m) b m

-- The loop of `prime_sample_create` over the divisors, from `divisor`. Below 2^31 no square of a divisor that is
-- tried reaches 2^32, so the product of the 32-bit numbers does not wrap.
unfoldable pub trial_loop : (rounds divisor i : ℕ) → Bool
trial_loop zero divisor i = true
trial_loop (suc n) divisor i =
    let rest = trial_loop n (divisor + 2) i in
    if leb (divisor * divisor) i then if i % divisor == 0 then false else rest else true

-- `sample->data[j++] = x`: an `int32_t` behind the `j` elements that are there, in a block of so many bytes.
unfoldable pub store : (bytes : ℕ) → List ℕ → ℕ → Run (List ℕ)
store bytes elements x =
    if leb (4 * (length elements + 1)) bytes then ok (elements ++ (x ∷ [])) else fault

-- The loop of `prime_sample_create` over the candidates, 32-bit numbers from `i`.
unfoldable pub sample_loop : (rounds i size bytes : ℕ) → List ℕ → Run (List ℕ)
unfolding trial_loop store
sample_loop zero i size bytes elements = fault
sample_loop (suc n) i size bytes elements =
    let next = (i + 2) % 2 ^ 32 in
    let kept = sample_loop n next size bytes elements in
    if leb i size
    then if trial_loop i 3 i
      then (do elements' ← store bytes elements i; sample_loop n next size bytes elements')
      else kept
    else ok elements

-- `PrimeSample`: of `data`, the elements that lie inside its block.
pub record PrimeSample : Type 0 where
  pub elements : List ℕ
  pub size : ℕ

-- `prime_sample_create`, when memory is granted. An element has 4 bytes, but the block is given `size * sizeof(int16_t)` bytes, and
-- is cut to 2 bytes for each element at the end.
unfoldable pub sample_create : (size : ℕ) → Run (Option PrimeSample)
unfolding sample_loop
sample_create size = if ltb size 2 then ok none else do
  first ← store (size * 2) [] 2
  elements ← sample_loop size 3 size (size * 2) first
  ok (some (record { elements = take (length elements * 2 / 4) elements; size = length elements }))

-- "Remove factors of 2"
unfoldable pub odd_part : (rounds s : ℕ) → ℕ
odd_part zero s = s
odd_part (suc k) s = let rest = odd_part k (s / 2) in if s % 2 == 0 then rest else s

-- The loop of `prime_miller_rabin` over `r`: whether it shows that `n` is composite. It ends when
-- `r` is `n - 1`, after fewer rounds than `n`.
unfoldable pub squares : (rounds r x n : ℕ) → Run Bool
unfolding product_mod
squares zero r x n = fault
squares (suc k) r x n = if r == n - 1 then ok true else do
  x' ← product_mod x x n
  if x' == 1 then ok true else if x' == n - 1 then ok false else squares k (r * 2) x' n

-- The loop of `prime_miller_rabin` over the bases, of which `k` are left; a base that is no `int32_t` is a fault.
unfoldable pub bases_loop : (k n s state : ℕ) → Run Bool
unfolding modular_exponent squares
bases_loop zero n s state = ok true
bases_loop (suc k) n s state = elim (generate_int32 state) [
  | none ↦ fault
  | some (seed, state') ↦ if n == 3 then fault else do
    let a = 2 + seed % ((n + 2 ^ 32 - 3) % 2 ^ 32)
    x ← if ltb a (2 ^ 31) then modular_exponent a s n else fault
    composite ← if (x == 1) || (x == n - 1) then ok false else squares n s x n
    if composite then ok false else bases_loop k n s state'
]

-- `prime_miller_rabin`, for `k` below 2^15, which the counter holds
unfoldable pub miller_rabin : (n k : ℕ) → Run Bool
unfolding odd_part bases_loop
miller_rabin n k =
    if leb n 1 || (ltb 2 n && (n % 2 == 0))
    then ok false
    else bases_loop k n (odd_part (n - 1) (n - 1)) (initialize k)
