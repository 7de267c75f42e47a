-- ===== src/Numeric/Prime/Sample.antt =====
-- numeric/prime.c: `prime_sample_create`, and prime numbers.
use attica.Base.{
  ℕ, zero, suc, ◌+◌, ◌*◌, ◌/◌, ◌%◌, ◌^◌, ◌<◌, ◌≤◌, ◌≡◌, ◌≢◌, ◌∙◌, ◌↔◌, ◌⊎◌, refl, sym, ap, arith,
  Bool-cases, true, false, inl, inr, some, ltb, leb, ◌==◌, List, [], ◌∷◌, ◌++◌, length,
  if◌then◌else◌, length-append, append_assoc, take, ok, fault,
}
use native.Mathlib.Nat.{div-add-mod, mul_assoc, mul_comm, mod-eq_of_lt, mul-mod_right}
use mathlib.Core.Path.{subst}
use native.Mathlib.Decide.{dec_le}
use attica.Numeric.Prime.{trial_loop, store, sample_loop, sample_create}

append_nil : (xs : List ℕ) → xs ++ [] ≡ xs
append_nil [] = refl
append_nil (x ∷ xs) = ap (λ r. x ∷ r) (append_nil xs)

abbrev pub IsPrime : ℕ → Type 0
IsPrime p = (1 < p) × ((d : ℕ) → 1 < d → d < p → p % d ≢ 0)

abbrev pub IsMember : ℕ → List ℕ → Type 0
IsMember x [] = ⊥
IsMember x (y ∷ ys) = (x ≡ y) ⊎ IsMember x ys

-- When the trial passes, no odd number from the divisor on divides, as far as its square goes.
trial_loop-pass :
    (n d i e : ℕ)
    → trial_loop n d i ≡ true
    → i < d + 2 * n
    → d ≤ e
    → e % 2 ≡ d % 2
    → e * e ≤ i
    → i % e ≢ 0
unfolding trial_loop
trial_loop-pass zero d i e pass enough above same small divides = absurd (grind arith)
trial_loop-pass (suc n) d i e pass enough above same small divides =
    elim (Bool-cases (leb (d * d) i)) [
      | inr over ↦ absurd (grind arith)
      | inl more ↦ elim (dec_le e d) [
        | yes here ↦
            let f : e ≡ d = omega arith in
            let hit : (i % d == 0) ≡ true = rw (sym f) (ground arith) in absurd (ground arith)
        | no later ↦
            trial_loop-pass n (d + 2) i e (ground arith) (omega arith) (omega arith) (omega arith)
              small divides
      ]
    ]

-- And when it fails, it has found a divisor.
trial_loop-fail :
    (n d i : ℕ) → trial_loop n d i ≡ false → (e : ℕ) × (d ≤ e) × (e * e ≤ i) × (i % e ≡ 0)
unfolding trial_loop
trial_loop-fail zero d i fail = absurd (ground arith)
trial_loop-fail (suc n) d i fail = elim (Bool-cases (leb (d * d) i)) [
  | inr over ↦ absurd (ground arith)
  | inl more ↦ elim (Bool-cases (i % d == 0)) [
    | inl hit ↦ (d, omega arith, ground arith, ground arith)
    | inr miss ↦
        let (e, above, small, divides) = trial_loop-fail n (d + 2) i (ground arith) in
        (e, omega arith, small, divides)
  ]
]

factor_odd : (d q i : ℕ) → d * q ≡ i → i % 2 ≡ 1 → d % 2 ≡ 1
factor_odd d q i e odd = elim (dec_le 1 (d % 2)) [
  | yes h ↦ omega arith
  | no h ↦
      let half : d ≡ 2 * (d / 2) = omega arith in
      let twice : i ≡ 2 * (d / 2 * q) = sym e ∙ ap (λ t. t * q) half ∙ mul_assoc 2 (d / 2) q in
      absurd (omega arith)
]

-- A divisor has a cofactor, and one of the two has a square that is not above the number.
cofactor : (i d : ℕ) → i % d ≡ 0 → d * (i / d) ≡ i
cofactor i d e = omega (arith, div-add-mod i d)

smaller_factor : (d q : ℕ) → (d * d ≤ d * q) ⊎ (q * q ≤ d * q)
smaller_factor d q = elim (dec_le d q) [ yes h ↦ inl (grind arith) | no h ↦ inr (grind arith) ]

-- A trial over the odd divisors tells whether an odd number is prime.
trial-IsPrime : (i : ℕ) → 2 < i → i % 2 ≡ 1 → (trial_loop i 3 i ≡ true) ↔ IsPrime i
trial-IsPrime i big odd = (
  λ pass. (
    omega arith,
    λ d low high divides.
        let q = i / d in
        let product : d * q ≡ i = cofactor i d divides in
        let swapped : q * d ≡ i = mul_comm q d ∙ product in
        let d_odd = factor_odd d q i product odd in
        let q_odd = factor_odd q d i swapped odd in
        elim (smaller_factor d q) [
          | inl small ↦
              trial_loop-pass i 3 i d pass (omega arith) (omega arith) d_odd
                (omega (arith, small, product)) divides
          | inr small ↦
              let more : 1 < q = grind arith in
              let whole : i % q ≡ 0 = ap (λ t. t % q) (sym swapped) ∙ mul-mod_right q d in
              trial_loop-pass i 3 i q pass (omega arith) (omega arith) q_odd
                (omega (arith, small, product)) whole
        ],
  ),
  λ prime. elim (Bool-cases (trial_loop i 3 i)) [
    | inl pass ↦ pass
    | inr fail ↦
        let (e, above, small, divides) = trial_loop-fail i 3 i fail in
        absurd (prime.1 e (omega arith) (grind arith) divides)
  ],
)

-- The candidates from `i` that pass the trial.
unfoldable pub primes_from : (rounds i size : ℕ) → List ℕ
primes_from zero i size = []
primes_from (suc n) i size =
    let rest = primes_from n (i + 2) size in
    if leb i size then if trial_loop i 3 i then i ∷ rest else rest else []

-- What the loop over the candidates collects.
abbrev Collected : (i size x : ℕ) → Type 0
Collected i size x = (i ≤ x) × (x ≤ size) × (x % 2 ≡ 1) × IsPrime x

primes_from-collects :
    (n i size x : ℕ)
    → 2 < i
    → i % 2 ≡ 1
    → size < i + 2 * n
    → IsMember x (primes_from n i size) ↔ Collected i size x
unfolding primes_from
primes_from-collects zero i size x big odd enough =
    (λ m. absurd m, λ c. absurd (omega (arith, c.0, c.1)))
primes_from-collects (suc n) i size x big odd enough = elim (Bool-cases (leb i size)) [
  | inr over ↦ rw over (λ m. absurd m, λ c. absurd (ground (arith, c.0, c.1)))
  | inl more ↦
      let (into, back) =
        primes_from-collects n (i + 2) size x (omega arith) (omega arith) (omega arith) in
      let later : Collected i size x → i ≢ x → Collected (i + 2) size x =
        λ c off. (omega (arith, c.0, c.2), c.1, c.2, c.3) in
      let earlier : Collected (i + 2) size x → Collected i size x =
        λ c. (omega (arith, c.0), c.1, c.2, c.3) in
      let (sound, complete) = trial-IsPrime i big odd in
      elim (Bool-cases (trial_loop i 3 i)) [
        | inl pass ↦
            rw (more, pass)
              (
                λ m. elim m [
                  | inl here ↦
                      subst (Collected i size) (sym here)
                        (omega arith, ground arith, odd, sound pass)
                  | inr there ↦ earlier (into there)
                ],
                λ c. elim (Bool-cases (x == i)) [
                  | inl here ↦ inl (ground arith)
                  | inr off ↦ inr (back (later c (λ e. ground arith)))
                ],
              )
        | inr fail ↦
            rw (more, fail)
              (
                λ m. earlier (into m),
                λ c. back (
                    later c (λ e.
                      let pass = complete (subst IsPrime (sym e) c.3) in absurd (ground arith))),
              )
      ]
]

two-IsPrime : IsPrime 2
two-IsPrime = (omega arith, λ d low high e. omega arith)

IsPrime-odd : (x : ℕ) → 2 < x → IsPrime x → x % 2 ≡ 1
IsPrime-odd x h prime = omega (arith, prime.1 2 (omega arith) h)

-- Each element is below those behind it.
abbrev pub IsAscending : List ℕ → Type 0
IsAscending [] = Unit
IsAscending (x ∷ xs) = ((y : ℕ) → IsMember y xs → x < y) × IsAscending xs

primes_from-IsAscending :
    (n i size : ℕ) → 2 < i → i % 2 ≡ 1 → size < i + 2 * n → IsAscending (primes_from n i size)
unfolding primes_from
primes_from-IsAscending zero i size big odd enough = tt
primes_from-IsAscending (suc n) i size big odd enough =
    let rest =
      primes_from-IsAscending n (i + 2) size (omega (arith, big)) (omega (arith, odd))
        (omega (arith, enough)) in
    elim (Bool-cases (leb i size)) [
      | inr over ↦ rw over tt
      | inl more ↦ elim (Bool-cases (trial_loop i 3 i)) [
        | inr fail ↦ rw (more, fail) rest
        | inl pass ↦
            rw (more, pass)
              (
                λ y m.
                    let c =
                      (primes_from-collects n (i + 2) size y (omega (arith, big))
                          (omega (arith, odd)) (omega (arith, enough))).0
                        m in
                    omega (arith, c.0),
                rest,
              )
      ]
    ]

-- The loop stores the primes in a row, as long as the block has room.
sample_loop-stores :
    (n i size bytes : ℕ) (elements : List ℕ)
    → size < 2 ^ 31
    → i ≤ size + 2
    → size + 2 < i + 2 * n
    → 4 * length elements ≤ bytes
    → let rest = primes_from n i size in
      ((4 * (length elements + length rest) ≤ bytes)
        × (sample_loop n i size bytes elements ≡ ok (elements ++ rest)))
      ⊎ ((bytes < 4 * (length elements + length rest))
          × (sample_loop n i size bytes elements ≡ fault))
unfolding sample_loop store primes_from
sample_loop-stores zero i size bytes elements narrow near enough fits =
    absurd (omega (arith, near, enough))
sample_loop-stores (suc n) i size bytes elements narrow near enough fits =
    elim (Bool-cases (leb i size)) [
      | inr over ↦ rw over (inl (omega (arith, fits), ap ok (sym (append_nil elements))))
      | inl more ↦
          let low : (i + 2) % 2 ^ 32 ≡ i + 2 = mod-eq_of_lt (ground (arith, more, narrow)) in
          let near' : i + 2 ≤ size + 2 = ground (arith, more) in
          elim (Bool-cases (trial_loop i 3 i)) [
            | inr fail ↦
                rw (more, fail, low)
                  (sample_loop-stores n (i + 2) size bytes elements narrow near'
                    (omega (arith, enough)) fits)
            | inl pass ↦ elim (Bool-cases (leb (4 * (length elements + 1)) bytes)) [
              | inr full_up ↦ rw (more, pass, low, full_up) (inr (ground (arith, full_up), refl))
              | inl room ↦
                  let longer : length (elements ++ (i ∷ [])) ≡ length elements + 1 =
                    length-append elements (i ∷ []) in
                  let rest = primes_from n (i + 2) size in
                  let flat : (elements ++ (i ∷ [])) ++ rest ≡ elements ++ (i ∷ rest) =
                    append_assoc elements (i ∷ []) rest in
                  rw (more, pass, low, room)
                    (elim (sample_loop-stores n (i + 2) size bytes (elements ++ (i ∷ [])) narrow
                      near' (omega (arith, enough)) (ground (arith, room, longer))) [
                        | inl (le, done) ↦ inl (omega (arith, le, longer), done ∙ ap ok flat)
                        | inr (gt, done) ↦ inr (omega (arith, gt, longer), done)
                      ])
            ]
          ]
    ]

-- For a size of at least 2 that an `int32_t` holds, take the prime numbers up to the size in ascending order. If they are more than
-- half the size, which is what the block has room for, `prime_sample_create` writes behind its block. Otherwise it returns
-- their number as the size of the sample, but its block holds only the first half of them.
pub sample_create-IsPrime :
    (size : ℕ)
    → 1 < size
    → size < 2 ^ 31
    → (primes : List ℕ) × ((x : ℕ) → IsMember x primes ↔ ((x ≤ size) × IsPrime x))
      × IsAscending primes
      × (((2 * length primes ≤ size)
            × (sample_create size
                ≡ ok (
                    some (record {
                      elements = take (length primes / 2) primes;
                      size = length primes;
                    }))))
          ⊎ ((size < 2 * length primes) × (sample_create size ≡ fault)))
unfolding sample_create store
sample_create-IsPrime size low narrow =
    let enough : ltb size 2 ≡ false = ground arith in
    let rest = primes_from size 3 size in
    let begun : leb 4 (size * 2) ≡ true = ground (arith, low) in
    (
      2 ∷ rest,
      λ x.
          let (into, back) = primes_from-collects size 3 size x (omega arith) refl (omega arith) in
          (
            λ m. elim m [
              | inl here ↦ (omega arith, subst IsPrime (sym here) two-IsPrime)
              | inr there ↦ let c = into there in (c.1, c.3)
            ],
            λ c. elim (dec_le x 2) [
              | yes small ↦ inl (omega (arith, c.1.0))
              | no more ↦ inr (back (omega arith, c.0, IsPrime-odd x (omega arith) c.1, c.1))
            ],
          ),
      (
        λ y m.
            let c = (primes_from-collects size 3 size y (omega arith) refl (omega arith)).0 m in
            omega (arith, c.0),
        primes_from-IsAscending size 3 size (omega arith) refl (omega arith),
      ),
      elim (sample_loop-stores size 3 size (size * 2) (2 ∷ []) narrow (omega (arith, low))
          (omega arith) (omega (arith, low))) [
            | inl (le, done) ↦
                let half : length (2 ∷ rest) * 2 / 4 ≡ length (2 ∷ rest) / 2 = omega arith in
                inl (omega (arith, le), rw (enough, begun, done, half) refl)
            | inr (gt, done) ↦ inr (omega (arith, gt), rw (enough, begun, done) refl)
          ],
    )
