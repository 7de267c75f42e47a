-- ===== src/Base/Bits.antt =====
-- Laws of the bitwise operations at powers of two.
use Prim.Native.Nat.{
  ℕ, zero, suc, ◌+◌, ◌-◌, ◌*◌, ◌/◌, ◌%◌, ◌^◌, ◌≤◌, ◌<◌, min, bit_and, digits, bit_and-bitwise,
  bit_or, bit_or-bitwise, max,
}
use mathlib.Core.Logic.{◌↔◌}
use mathlib.Core.Path.{◌≡◌, refl, ap, ap₂, sym, ◌∙◌}
use native.Mathlib.Decide.{dec_le}
use native.Mathlib.Nat.{add_comm, add-mul-mod_self_left, div-add-mod, mod-eq_of_lt, mod-lt, pow-suc}
use native.Mathlib.Omega.{arith}

-- The native operations stand for a walk over binary digits with a budget of rounds. Any budget
-- that is not below the first number gives the same result, so each operation has a recursion law.
module _ (z : ℕ → ℕ) (f : ℕ → ℕ → ℕ) (exhausted : (b : ℕ) → z b ≡ z (b / 2) * 2 + f 0 (b % 2)) where
  abbrev walk : (budget a b : ℕ) → ℕ
  walk = digits z f

  walk_ample : (limit budget a b : ℕ) → budget ≤ limit → a ≤ budget → walk budget a b ≡ walk a a b
  walk_ample limit zero zero b le lo = refl
  walk_ample limit zero (suc a) b le lo = absurd (omega arith)
  walk_ample limit (suc budget) zero b le lo = refl
  walk_ample zero (suc budget) (suc a) b le lo = absurd (omega arith)
  walk_ample (suc limit) (suc budget) (suc a) b le lo =
      let h = suc a / 2 in
      let r = b / 2 in
      omega (
        arith,
        walk_ample limit budget h r (omega arith) (omega arith),
        walk_ample limit a h r (omega arith) (omega arith),
      )

  walk-halves : (a b : ℕ) → walk a a b ≡ walk (a / 2) (a / 2) (b / 2) * 2 + f (a % 2) (b % 2)
  walk-halves zero b = exhausted b
  walk-halves (suc a) b =
      omega (arith, walk_ample a a (suc a / 2) (b / 2) (omega arith) (omega arith))

pub bit_and-halves : (a b : ℕ) → bit_and a b ≡ bit_and (a / 2) (b / 2) * 2 + min (a % 2) (b % 2)
bit_and-halves a b =
    bit_and-bitwise a b
    ∙ walk-halves (λ _. 0) min (λ _. omega arith) a b
    ∙ ap (λ (t : ℕ). t * 2 + min (a % 2) (b % 2)) (sym (bit_and-bitwise (a / 2) (b / 2)))

pub bit_or-halves : (a b : ℕ) → bit_or a b ≡ bit_or (a / 2) (b / 2) * 2 + max (a % 2) (b % 2)
bit_or-halves a b =
    bit_or-bitwise a b
    ∙ walk-halves (λ r. r) max (λ r. omega arith) a b
    ∙ ap (λ (t : ℕ). t * 2 + max (a % 2) (b % 2)) (sym (bit_or-bitwise (a / 2) (b / 2)))

-- A property of every number follows from that of its half.
halving : (P : ℕ → Type 0) → P 0 → ((a : ℕ) → P (a / 2) → P a) → (a : ℕ) → P a
halving P base step a = below a a (omega arith)
  where
    below : (limit a : ℕ) → a ≤ limit → P a
    below limit zero h = base
    below zero (suc a) h = absurd (omega arith)
    below (suc limit) (suc a) h = step (suc a) (below limit (suc a / 2) (omega arith))

pub bit_and-zero : (a : ℕ) → bit_and a 0 ≡ 0
bit_and-zero = halving (λ a. bit_and a 0 ≡ 0) refl (λ a h. omega (arith, bit_and-halves a 0))

pub bit_or-zero : (a : ℕ) → bit_or a 0 ≡ a
bit_or-zero = halving (λ a. bit_or a 0 ≡ a) refl (λ a h. omega (arith, bit_or-halves a 0))

pub pow_pos : (k : ℕ) → 0 < 2 ^ k
pow_pos zero = omega arith
pow_pos (suc k) = omega (arith, pow-suc 2 k, pow_pos k)

pub pow_double : (k : ℕ) → 2 ^ suc k ≡ 2 * 2 ^ k
pow_double k = omega (arith, pow-suc 2 k)

-- Powers of two grow with the exponent.
pub pow_mono : (j k : ℕ) → j < k → 2 * 2 ^ j ≤ 2 ^ k
pow_mono j zero h = absurd (omega arith)
pow_mono j (suc k) h = elim (dec_le k j) [
  | yes le ↦ let same : j ≡ k = omega arith in rw (same, pow_double k) (omega arith)
  | no more ↦ omega (arith, pow_double k, pow_mono j k (omega arith))
]

pub mod_unique : (m q r a : ℕ) → a ≡ m * q + r → r < m → a % m ≡ r
mod_unique m q r a e h =
    rw e (rw (add_comm (m * q) r) (rw (add-mul-mod_self_left r m q) (mod-eq_of_lt h)))

-- The remainder by `2 * p` from the lowest digit and the rest.
pub mod_double : (a p : ℕ) → 0 < p → a % (2 * p) ≡ 2 * (a / 2 % p) + a % 2
mod_double a p h =
    mod_unique (2 * p) (a / 2 / p) (2 * (a / 2 % p) + a % 2) a
      (omega (arith, div-add-mod (a / 2) p)) (omega (arith, mod-lt (a / 2) h))

-- A mask of `k` ones keeps the remainder by `2 ^ k`.
pub bit_and-mask : (k a : ℕ) → bit_and a (2 ^ k - 1) ≡ a % 2 ^ k
bit_and-mask zero a = rw (bit_and-zero a) (omega arith)
bit_and-mask (suc k) a =
    rw (pow_double k, bit_and-halves a (2 * 2 ^ k - 1), mod_double a (2 ^ k) (pow_pos k), half)
      (omega (arith, bit_and-mask k (a / 2), pow_pos k))
  where
    half : (2 * 2 ^ k - 1) / 2 ≡ 2 ^ k - 1
    half = omega (arith, pow_pos k)

-- The complement of that mask, in a word of `n` bits, clears the remainder.
pub bit_and-high_mask : (n k a : ℕ) → k ≤ n → a < 2 ^ n → bit_and a (2 ^ n - 2 ^ k) ≡ a - a % 2 ^ k
bit_and-high_mask n zero a h lt = rw (bit_and-mask n a) (rw (mod-eq_of_lt lt) (omega arith))
bit_and-high_mask zero (suc k) a h lt = absurd (omega arith)
bit_and-high_mask (suc n) (suc k) a h lt =
    rw
      (
        pow_double n,
        pow_double k,
        bit_and-halves a (2 * 2 ^ n - 2 * 2 ^ k),
        mod_double a (2 ^ k) (pow_pos k),
        half,
      )
      (omega (
        arith,
        bit_and-high_mask n k (a / 2) (omega arith) (omega (arith, pow_double n)),
        mod-lt (a / 2) (pow_pos k),
      ))
  where
    half : (2 * 2 ^ n - 2 * 2 ^ k) / 2 ≡ 2 ^ n - 2 ^ k
    half = omega (arith, pow_pos k)

pub bit_and_self : (a : ℕ) → bit_and a a ≡ a
bit_and_self = halving (λ a. bit_and a a ≡ a) refl (λ a h. omega (arith, bit_and-halves a a))

abbrev pub IsPowerOfTwo : ℕ → Type 0
IsPowerOfTwo v = (k : ℕ) × (v ≡ 2 ^ k)

bit_and-pred_even : (u : ℕ) → 0 < u → bit_and (2 * u) (2 * u - 1) ≡ 2 * bit_and u (u - 1)
bit_and-pred_even u h = rw (bit_and-halves (2 * u) (2 * u - 1), lower, upper) (omega arith)
  where
    lower : 2 * u / 2 ≡ u
    lower = omega arith

    upper : (2 * u - 1) / 2 ≡ u - 1
    upper = omega arith

bit_and-pred_odd : (u : ℕ) → bit_and (2 * u + 1) (2 * u) ≡ 2 * u
bit_and-pred_odd u =
    rw (bit_and-halves (2 * u + 1) (2 * u), lower, upper) (omega (arith, bit_and_self u))
  where
    lower : (2 * u + 1) / 2 ≡ u
    lower = omega arith

    upper : 2 * u / 2 ≡ u
    upper = omega arith

-- The test on the lowest set bit holds of powers of two.
pub bit_and-pred_pow : (k : ℕ) → bit_and (2 ^ k) (2 ^ k - 1) ≡ 0
bit_and-pred_pow zero = refl
bit_and-pred_pow (suc k) =
    rw (pow_double k)
      (rw (bit_and-pred_even (2 ^ k) (pow_pos k)) (omega (arith, bit_and-pred_pow k)))

-- And of nothing else but 0.
pow_of_bit_and-pred : (n v : ℕ) → v ≤ n → 0 < v → bit_and v (v - 1) ≡ 0 → IsPowerOfTwo v
pow_of_bit_and-pred zero v h pos e = absurd (omega arith)
pow_of_bit_and-pred (suc n) v h pos e = elim (dec_le (v % 2) 0) [
  | yes even ↦
      let twice : v ≡ 2 * (v / 2) = omega arith in
      let below : bit_and (v / 2) (v / 2 - 1) ≡ 0 =
        omega (arith, bit_and-pred_even (v / 2) (omega arith), ap (λ w. bit_and w (w - 1)) twice) in
      let (k, p) = pow_of_bit_and-pred n (v / 2) (omega arith) (omega arith) below in
      (suc k, omega (arith, pow_double k))
  | no odd ↦
      let form : v ≡ 2 * (v / 2) + 1 = omega arith in
      let rest : v - 1 ≡ 2 * (v / 2) = omega arith in
      let all : bit_and v (v - 1) ≡ bit_and (2 * (v / 2) + 1) (2 * (v / 2)) =
        ap₂ bit_and form rest in
      (0, omega (arith, bit_and-pred_odd (v / 2)))
]

pub bit_and-pred_iff : (v : ℕ) → 0 < v → (bit_and v (v - 1) ≡ 0) ↔ IsPowerOfTwo v
bit_and-pred_iff v h = (pow_of_bit_and-pred v v (omega arith) h, λ p. rw p.1 (bit_and-pred_pow p.0))
