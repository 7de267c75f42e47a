-- ===== src/Numeric/Prime/Power.antt =====
-- numeric/prime.c: `prime_modular_exponent`, and powers modulo a number.
use attica.Base.{
  ℕ, zero, suc, ◌+◌, ◌*◌, ◌/◌, ◌%◌, ◌^◌, ◌<◌, ◌≤◌, ◌≡◌, ◌∙◌, sym, ap, arith, Bool-cases, false, inl,
  inr, ok, ◌==◌,
}
use native.Mathlib.Nat.{
  add-mul-mod_self_left, div-add-mod, mod-lt, mul_assoc, mul_comm, pow-suc, pow-zero, mod-eq_of_lt,
}
use attica.Numeric.Prime.{product_mod, exponent_loop, modular_exponent}

expand : (m q r y : ℕ) → (m * q + r) * y ≡ r * y + m * (q * y)
expand m q r y = grind arith

-- A factor counts by its remainder.
mod-mul : (x y m : ℕ) → (x % m * y) % m ≡ (x * y) % m
mod-mul x y m =
    let split : x * y ≡ x % m * y + m * (x / m * y) =
      ap (λ t. t * y) (sym (div-add-mod x m)) ∙ expand m (x / m) (x % m) y in
    sym (add-mul-mod_self_left (x % m * y) m (x / m * y)) ∙ ap (λ t. t % m) (sym split)

mul-mod : (x y m : ℕ) → (x * (y % m)) % m ≡ (x * y) % m
mul-mod x y m =
    ap (λ t. t % m) (mul_comm x (y % m)) ∙ mod-mul y x m ∙ ap (λ t. t % m) (mul_comm y x)

-- And the base of a power.
mod-pow : (a k m : ℕ) → ((a % m) ^ k) % m ≡ (a ^ k) % m
mod-pow a zero m = ap (λ t. t % m) (pow-zero (a % m) ∙ sym (pow-zero a))
mod-pow a (suc k) m =
    ap (λ t. t % m) (pow-suc (a % m) k)
    ∙ mul-mod ((a % m) ^ k) a m
    ∙ sym (mod-mul ((a % m) ^ k) a m)
    ∙ ap (λ t. (t * a) % m) (mod-pow a k m)
    ∙ mod-mul (a ^ k) a m
    ∙ ap (λ t. t % m) (sym (pow-suc a k))

pow_square : (a k : ℕ) → (a * a) ^ k ≡ a ^ (2 * k)
pow_square a zero = pow-zero (a * a) ∙ sym (pow-zero a) ∙ ap (λ t. a ^ t) (omega arith)
pow_square a (suc k) =
    let two : 2 * suc k ≡ suc (suc (2 * k)) = omega arith in
    pow-suc (a * a) k
    ∙ ap (λ t. t * (a * a)) (pow_square a k)
    ∙ sym (mul_assoc (a ^ (2 * k)) a a)
    ∙ ap (λ t. t * a) (sym (pow-suc a (2 * k)))
    ∙ sym (pow-suc a (suc (2 * k)))
    ∙ ap (λ t. a ^ t) (sym two)

-- Below 46341 no product overflows.
square_fits : (x y m : ℕ) → m ≤ 46341 → x < m → y < m → x * y < 2 ^ 31
square_fits x y m h p q = grind arith

pub product_mod-fits :
    (x y m : ℕ) → m ≤ 46341 → x < m → y < m → product_mod x y m ≡ ok ((x * y) % m)
unfolding product_mod
product_mod-fits x y m h p q = let small = square_fits x y m h p q in ground arith

-- The power by the half of an exponent.
half_power : (r a k m : ℕ) → (r % m * (a * a % m) ^ k) % m ≡ (r * a ^ (2 * k)) % m
half_power r a k m =
    mod-mul r ((a * a % m) ^ k) m
    ∙ sym (mul-mod r ((a * a % m) ^ k) m)
    ∙ ap (λ t. (r * t) % m) (mod-pow (a * a) k m)
    ∙ mul-mod r ((a * a) ^ k) m
    ∙ ap (λ t. (r * t) % m) (pow_square a k)

odd_power : (r a k m : ℕ) → (r * a % m * (a * a % m) ^ k) % m ≡ (r * a ^ suc (2 * k)) % m
odd_power r a k m =
    half_power (r * a) a k m
    ∙ ap (λ t. t % m) (mul_assoc r a (a ^ (2 * k)))
    ∙ ap (λ t. (r * t) % m) (mul_comm a (a ^ (2 * k)) ∙ sym (pow-suc a (2 * k)))

unit_power : (r a b m : ℕ) → r < m → b ≡ 0 → r ≡ (r * a ^ b) % m
unit_power r a b m h e = sym (
    ap (λ t. (r * a ^ t) % m) e
    ∙ ap (λ t. (r * t) % m) (pow-zero a)
    ∙ ap (λ t. t % m) (omega arith)
    ∙ mod-eq_of_lt h)

-- The loop multiplies `result` with a power.
exponent_loop-power :
    (n result a b m : ℕ)
    → m ≤ 46341
    → result < m
    → a < m
    → b ≤ n
    → exponent_loop n result a b m ≡ ok ((result * a ^ b) % m)
unfolding exponent_loop
exponent_loop-power zero result a b m h p q le = ap ok (unit_power result a b m p (omega arith))
exponent_loop-power (suc n) result a b m h p q le = elim (Bool-cases (b == 0)) [
  | inl over ↦ rw (exponent_loop, over) (ap ok (unit_power result a b m p (ground arith)))
  | inr more ↦
      let k = b / 2 in
      let pos : 0 < m = omega arith in
      let square = product_mod-fits a a m h q q in
      elim (Bool-cases (b % 2 == 1)) [
        | inl odd ↦
            let form : suc (2 * k) ≡ b = ground arith in
            rw (exponent_loop, more, odd, product_mod-fits result a m h p q, square)
              (exponent_loop-power n (result * a % m) (a * a % m) k m h (mod-lt (result * a) pos)
                  (mod-lt (a * a) pos) (ground arith)
                ∙ ap ok (odd_power result a k m)
                ∙ ap (λ t. ok ((result * a ^ t) % m)) form)
        | inr even ↦
            let form : 2 * k ≡ b = ground arith in
            let kept : result % m ≡ result = mod-eq_of_lt p in
            rw (exponent_loop, more, even, square)
              (exponent_loop-power n result (a * a % m) k m h p (mod-lt (a * a) pos) (ground arith)
                ∙ ap (λ t. ok ((t * (a * a % m) ^ k) % m)) (sym kept)
                ∙ ap ok (half_power result a k m)
                ∙ ap (λ t. ok ((result * a ^ t) % m)) form)
      ]
]

-- For a modulus between 2 and 46341, `prime_modular_exponent` of numbers that are not negative gives the power modulo the
-- modulus, and none of its products overflows.
pub modular_exponent-power :
    (a b m : ℕ) → 1 < m → m ≤ 46341 → modular_exponent a b m ≡ ok (a ^ b % m)
unfolding modular_exponent
modular_exponent-power a b m two h =
    let given : (m == 0) ≡ false = ground arith in
    rw (modular_exponent, given)
      (exponent_loop-power b 1 (a % m) b m h two (mod-lt a (omega arith)) (omega arith)
        ∙ ap (λ t. ok (t % m)) (omega arith)
        ∙ ap ok (mod-pow a b m))
