-- ===== src/Tests/Numeric.antt =====
-- Runs of numeric/lehmer.c and numeric/prime.c, and their theorems at small numbers.
use attica.Base.{
  ◌/◌, length, take, ◌*◌, ◌%◌, ◌^◌, ◌<◌, ◌≤◌, ◌≡◌, ◌↔◌, ◌⊎◌, refl, arith, ℕ, some, List, [], ◌∷◌,
  true, false, ok, fault, Returns,
}
use attica.Numeric.Prime.Power.{modular_exponent-power}
use attica.Numeric.Prime.Sample.{IsPrime, IsMember, IsAscending, sample_create-IsPrime}
use attica.Numeric.Prime.Rounds.{miller_rabin-Returns}
use attica.Numeric.Prime.{
  product_mod, exponent_loop, modular_exponent, trial_loop, store, sample_loop, sample_create,
  odd_part, squares, bases_loop, miller_rabin,
}
use attica.Numeric.Lehmer.Period.{modulo-product}
use attica.Numeric.Lehmer.{
  lehmer_modulus, lehmer_seed, modulo, initialize, generate_int64, generate_int32,
}

-- A seed of the modulus itself would never change.
modulo_stuck : modulo lehmer_modulus ≡ some lehmer_modulus
unfolding modulo
modulo_stuck = refl

modulo-product_example :
    (n : ℕ) × (modulo lehmer_seed ≡ some n)
    × (0 < n)
    × (n < lehmer_modulus)
    × (n ≡ 48271 * lehmer_seed % lehmer_modulus)
modulo-product_example = modulo-product lehmer_seed (omega arith) (omega arith)

prime_program : Unit {0}
unfolding modulo initialize generate_int64 generate_int32 product_mod exponent_loop modular_exponent
    trial_loop store sample_loop sample_create odd_part squares bases_loop miller_rabin
prime_program = tt

-- Five of the ten primes lie inside the block.
sample_create_runs :
    sample_create 30 ≡ ok (some (record { elements = 2 ∷ 3 ∷ 5 ∷ 7 ∷ 11 ∷ []; size = 10 }))
unfolding prime_program
sample_create_runs = refl

-- The primes 2 and 3 take 8 bytes, but the block has 6.
sample_create_faults : sample_create 3 ≡ fault
unfolding prime_program
sample_create_faults = refl

-- 561 is a number of Carmichael.
miller_rabin_carmichael : miller_rabin 561 5 ≡ ok false
unfolding prime_program
miller_rabin_carmichael = refl

miller_rabin_prime : miller_rabin 101 5 ≡ ok true
unfolding prime_program
miller_rabin_prime = refl

-- The prime 2 is refused: with one base, which the generator makes even.
miller_rabin_two : miller_rabin 2 2 ≡ ok false
unfolding prime_program
miller_rabin_two = refl

-- The square of a base above 46341 overflows.
exponent_overflow : modular_exponent 46341 2 100000 ≡ fault
unfolding prime_program
exponent_overflow = refl

sample_create-IsPrime_example :
    (primes : List ℕ) × ((x : ℕ) → IsMember x primes ↔ ((x ≤ 30) × IsPrime x))
    × IsAscending primes
    × (((2 * length primes ≤ 30)
          × (sample_create 30
              ≡ ok (
                  some
                    (record { elements = take (length primes / 2) primes; size = length primes }))))
        ⊎ ((30 < 2 * length primes) × (sample_create 30 ≡ fault)))
sample_create-IsPrime_example = sample_create-IsPrime 30 (omega arith) (omega arith)

modular_exponent-power_example : modular_exponent 7 560 561 ≡ ok (7 ^ 560 % 561)
modular_exponent-power_example = modular_exponent-power 7 560 561 (omega arith) (omega arith)

miller_rabin-Returns_example :
    Returns (miller_rabin 561 5) λ b. ((b ≡ false) × (¬ IsPrime 561)) ⊎ ((3 < 561) × (561 % 2 ≡ 1))
miller_rabin-Returns_example =
    miller_rabin-Returns 561 5 (omega arith) (omega arith) (omega arith) (omega arith)
