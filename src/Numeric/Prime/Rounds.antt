-- ===== src/Numeric/Prime/Rounds.antt =====
-- numeric/prime.c: the loops of `prime_miller_rabin` and their rounds.
use attica.Base.Bits.{pow_double}
use attica.Base.{
  ℕ, zero, suc, ◌+◌, ◌-◌, ◌*◌, ◌/◌, ◌%◌, ◌^◌, ◌<◌, ◌≤◌, ◌≡◌, ◌≢◌, ◌∙◌, ◌⊎◌, refl, sym, ap, arith,
  Bool-cases, true, false, inl, inr, fault, Returns, ltb, leb, ◌==◌, ◌||◌, ◌&&◌, some,
}
use native.Mathlib.Nat.{mod-lt, mul_assoc}
use native.Mathlib.Decide.{dec_le}
use attica.Numeric.Lehmer.{lehmer_modulus, initialize, generate_int64, generate_int32}
use attica.Numeric.Lehmer.Period.{modulo-product}
use attica.Numeric.Prime.{odd_part, squares, bases_loop, miller_rabin}
use attica.Numeric.Prime.Power.{product_mod-fits, modular_exponent-power}
use attica.Numeric.Prime.Sample.{IsPrime}

-- The odd part and the power of 2 that was removed.
odd_part-power : (k s : ℕ) → 0 < s → s ≤ k → (t : ℕ) × (t < s) × (odd_part k s * 2 ^ t ≡ s)
unfolding odd_part
odd_part-power zero s pos h = absurd (omega arith)
odd_part-power (suc k) s pos h = elim (Bool-cases (s % 2 == 0)) [
  | inr odd ↦ rw odd (0, omega arith, omega arith)
  | inl even ↦
      let (t, less, e) = odd_part-power k (s / 2) (ground arith) (ground arith) in
      rw even (
        suc t,
        ground arith,
        ap (λ p. odd_part k (s / 2) * p) (pow_double t)
            ∙ double (odd_part k (s / 2)) (2 ^ t)
            ∙ ap (λ p. 2 * p) e
            ∙ ground arith,
      )
]
  where
    double : (a b : ℕ) → a * (2 * b) ≡ 2 * (a * b)
    double a b = grind arith

-- A number that is not reached yet is reached from its double.
doubled : (t r m : ℕ) → r * 2 ^ t ≡ m → r ≢ m → (u : ℕ) × (t ≡ suc u) × (r * 2 * 2 ^ u ≡ m)
doubled zero r m e off = absurd (off (omega (arith, e)))
doubled (suc u) r m e off =
    (u, refl, mul_assoc r 2 (2 ^ u) ∙ ap (λ p. r * p) (sym (pow_double u)) ∙ e)

-- The squarings end: `r` reaches `n - 1` after `t` doublings.
squares-Returns :
    (k t r x n : ℕ)
    → t < k
    → r * 2 ^ t ≡ n - 1
    → 1 < n
    → n ≤ 46341
    → x < n
    → Returns (squares k r x n) (λ b. Unit {0})
unfolding squares
squares-Returns zero t r x n less e low high small = absurd (omega arith)
squares-Returns (suc k) t r x n less e low high small = elim (Bool-cases (r == n - 1)) [
  | inl end ↦ rw end (true, refl, tt)
  | inr more ↦
      let x' = x * x % n in
      let fits = product_mod-fits x x n high small small in
      elim (Bool-cases (x' == 1)) [
        | inl one ↦ rw (squares, more, fits, one) (true, refl, tt)
        | inr other ↦ elim (Bool-cases (x' == n - 1)) [
          | inl top ↦ rw (squares, more, fits, other, top) (false, refl, tt)
          | inr inner ↦
              rw (squares, more, fits, other, inner)
                (let (u, f, next) = doubled t r (n - 1) e (λ g. ground arith) in
                  squares-Returns k u (r * 2) x' n (omega arith) next low high
                    (mod-lt (x * x) (omega arith)))
        ]
      ]
]

-- The seed of a round, and the state that it leaves.
generate_int32-range :
    (state : ℕ)
    → 0 < state
    → state < lehmer_modulus
    → (seed : ℕ) × (next : ℕ) × (generate_int32 state ≡ some (seed, next))
      × (0 < next)
      × (next < lehmer_modulus)
unfolding generate_int32 generate_int64
generate_int32-range state pos h =
    let (n, e, n-pos, n-lt, product) = modulo-product state pos h in
    (n % 2 ^ 32, n, rw (generate_int32, generate_int64, e) refl, n-pos, n-lt)

bases_loop-Returns :
    (k n s state t : ℕ)
    → 3 < n
    → n ≤ 46341
    → t < n
    → s * 2 ^ t ≡ n - 1
    → 0 < state
    → state < lehmer_modulus
    → Returns (bases_loop k n s state) (λ b. Unit {0})
unfolding bases_loop
bases_loop-Returns zero n s state t low high less e pos h = (true, refl, tt)
bases_loop-Returns (suc k) n s state t low high less e pos h =
    let (seed, next, drawn, next-pos, next-lt) = generate_int32-range state pos h in
    let apart : (n == 3) ≡ false = ground arith in
    let width : (n + 2 ^ 32 - 3) % 2 ^ 32 ≡ n - 3 = omega arith in
    let a = 2 + seed % (n - 3) in
    let below : seed % (n - 3) < n - 3 = mod-lt seed (omega arith) in
    let narrow : ltb a (2 ^ 31) ≡ true = ground arith in
    let x = a ^ s % n in
    let power = modular_exponent-power a s n (omega arith) high in
    let rest = bases_loop-Returns k n s next t low high less e next-pos next-lt in
    elim (Bool-cases ((x == 1) || (x == n - 1))) [
      | inl passed ↦ rw (bases_loop, drawn, apart, width, narrow, power, passed) rest
      | inr tried ↦
          let (composite, run, done) =
            squares-Returns n t s x n less e (omega arith) high (mod-lt (a ^ s) (omega arith)) in
          elim (Bool-cases composite) [
            | inl yes_composite ↦
                rw (bases_loop, drawn, apart, width, narrow, power, tried, run, yes_composite)
                  (false, refl, tt)
            | inr not_composite ↦
                rw (bases_loop, drawn, apart, width, narrow, power, tried, run, not_composite) rest
          ]
    ]

-- For a number up to 46341 other than 2 and 3, and a count of bases that the counter holds, `prime_miller_rabin` returns:
-- no product overflows, no remainder is by 0, and its loops end. It refuses 0, 1 and the even numbers, which are no
-- primes.
pub miller_rabin-Returns :
    (n k : ℕ)
    → n ≢ 2
    → n ≢ 3
    → n ≤ 46341
    → k < 2 ^ 15
    → Returns (miller_rabin n k) λ b. ((b ≡ false) × (¬ IsPrime n)) ⊎ ((3 < n) × (n % 2 ≡ 1))
unfolding miller_rabin initialize
miller_rabin-Returns n k two three high few =
    elim (Bool-cases (leb n 1 || (ltb 2 n && (n % 2 == 0)))) [
      | inl refused ↦
          rw (miller_rabin, refused)
            (
              false,
              refl,
              inl (
                refl,
                λ prime. elim (dec_le n 1) [
                  | yes small ↦ omega (arith, prime.0)
                  | no more ↦ prime.1 2 (omega arith) (ground arith) (ground arith)
                ],
              ),
            )
      | inr passed ↦
          let big : 3 < n = ground arith in
          let odd : n % 2 ≡ 1 = ground arith in
          let (t, less, e) = odd_part-power (n - 1) (n - 1) (omega arith) (omega arith) in
          let seeded : (0 < initialize k) × (initialize k < lehmer_modulus) = ground arith in
          let (b, run, done) =
            bases_loop-Returns k n (odd_part (n - 1) (n - 1)) (initialize k) t big high
              (omega arith) e seeded.0 seeded.1 in
          (b, rw (miller_rabin, passed) run, inr (big, odd))
    ]

-- With a base to try, the number 3 makes `prime_miller_rabin` divide by 0.
pub miller_rabin-three : (k : ℕ) → 0 < k → k < 2 ^ 15 → miller_rabin 3 k ≡ fault
unfolding miller_rabin initialize bases_loop
miller_rabin-three zero pos few = absurd (omega arith)
miller_rabin-three (suc k) pos few =
    let start : initialize (suc k) ≡ suc k = ground arith in
    let (seed, next, drawn, next-pos, next-lt) =
      generate_int32-range (suc k) (omega arith) (omega arith) in
    rw (miller_rabin, start, bases_loop, drawn) refl
