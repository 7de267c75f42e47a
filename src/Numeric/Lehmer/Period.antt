-- ===== src/Numeric/Lehmer/Period.antt =====
-- numeric/lehmer.c: what a step of the generator computes.
use attica.Base.Bits.{mod_unique}
use attica.Base.{
  ℕ, ◌+◌, ◌-◌, ◌*◌, ◌/◌, ◌%◌, ◌^◌, ◌<◌, ◌≡◌, ◌≢◌, ◌∙◌, refl, sym, ap, none, some, arith,
}
use native.Mathlib.Decide.{dec_le}
use attica.Numeric.Lehmer.{lehmer_modulus, modulo, initialize, generate_int64, generate_int32}

-- The two factors of the division share no divisor.
coprime : (hi lo : ℕ) → 48271 * lo ≡ 3399 * hi → hi < 48271 → hi ≡ 0
coprime hi lo e h = omega arith

never_equal : (i : ℕ) → 0 < i → i < lehmer_modulus → 48271 * (i % 44488) ≢ 3399 * (i / 44488)
never_equal i pos h e = elim (dec_le 48271 (i / 44488)) [
  | yes top ↦ omega arith
  | no below ↦ let none_left = coprime (i / 44488) (i % 44488) e (omega arith) in omega arith
]

-- The pieces of a state: its product with the multiplier is the difference of the two products of the source and a
-- multiple of the modulus.
product_eq :
    (i : ℕ) → 48271 * i + 3399 * (i / 44488) ≡ 48271 * (i % 44488) + 2147483647 * (i / 44488)
product_eq i = omega arith

-- Schrage's division: from a state between 1 and the modulus, the step gives the product with the multiplier modulo the
-- modulus, which lies there too.
pub modulo-product :
    (i : ℕ)
    → 0 < i
    → i < lehmer_modulus
    → (n : ℕ) × (modulo i ≡ some n)
      × (0 < n)
      × (n < lehmer_modulus)
      × (n ≡ 48271 * i % lehmer_modulus)
unfolding modulo
modulo-product i pos h =
    let hi = i / 44488 in
    let lo = i % 44488 in
    elim (dec_le (48271 * lo) (3399 * hi)) [
      | no more ↦
          let n = 48271 * lo - 3399 * hi in
          (
            n,
            ground arith,
            omega arith,
            omega arith,
            sym (
                mod_unique lehmer_modulus hi n (48271 * i) (omega (arith, product_eq i))
                  (omega arith)),
          )
      | yes less ↦
          let n = 48271 * lo + lehmer_modulus - 3399 * hi in
          let strict : 48271 * lo < 3399 * hi = omega (arith, never_equal i pos h) in
          (
            n,
            ground arith,
            omega arith,
            omega arith,
            sym (
                mod_unique lehmer_modulus (hi - 1) n (48271 * i) (omega (arith, product_eq i))
                  (omega arith)),
          )
    ]

-- The inverse of the multiplier recovers the state.
recover :
    (i : ℕ) → i < lehmer_modulus → i ≡ 1899818559 * (48271 * i % lehmer_modulus) % lehmer_modulus
recover i h = omega arith

-- Two states between 1 and the modulus with the same successor are equal: the generator loses no state.
pub modulo-injective :
    (i j : ℕ)
    → 0 < i
    → i < lehmer_modulus
    → 0 < j
    → j < lehmer_modulus
    → modulo i ≡ modulo j
    → i ≡ j
modulo-injective i j pos h pos' h' e =
    let (m, m-eq, m-pos, m-lt, m-product) = modulo-product i pos h in
    let (n, n-eq, n-pos, n-lt, n-product) = modulo-product j pos' h' in
    let same : m ≡ n = ap (λ o. elim o [ none ↦ 0 | some x ↦ x ]) (sym m-eq ∙ e ∙ n-eq) in
    recover i h
    ∙ ap (λ k. 1899818559 * k % lehmer_modulus) (sym m-product ∙ same ∙ n-product)
    ∙ sym (recover j h')

-- From a seed in the documented range, `lehmer_generate_int32` gives the same value as `lehmer_generate_int64`, and leaves
-- a state in that range.
pub generate_int32-generate_int64 :
    (seed : ℕ)
    → 0 < seed
    → seed < lehmer_modulus
    → (n : ℕ) × (generate_int64 (initialize seed) ≡ some (n, n))
      × (generate_int32 (initialize seed) ≡ some (n, n))
      × (0 < n)
      × (n < lehmer_modulus)
unfolding initialize generate_int64 generate_int32
generate_int32-generate_int64 seed pos h =
    let start : initialize seed ≡ seed = ground arith in
    let (n, e, n-pos, n-lt, product) = modulo-product seed pos h in
    let whole : n % 2 ^ 32 ≡ n = omega arith in
    let wide : generate_int64 (initialize seed) ≡ some (n, n) =
      rw (generate_int64, start, e) refl in
    (n, wide, rw (generate_int32, wide, whole) refl, n-pos, n-lt)
