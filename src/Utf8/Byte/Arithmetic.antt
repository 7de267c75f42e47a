-- ===== src/Utf8/Byte/Arithmetic.antt =====
-- The masks of utf8/byte.c as ranges and remainders.
use attica.Base.Bits.{bit_or-halves, bit_or-zero, pow_double}
use attica.Base.{
  ℕ, zero, suc, ◌+◌, ◌*◌, ◌/◌, ◌^◌, ◌<◌, ◌≡◌, refl, Bool, true, false, not, ◌&&◌, Option, none,
  some, arith, ltb, leb, ◌==◌, if◌then◌else◌, bit_and, bit_or, all_below, all_below-true,
}
use attica.Utf8.Byte.{lead_width, is_continuation}

abbrev same : Bool → Bool → Bool
same true b = b
same false b = not b

same_eq : (a b : Bool) → same a b ≡ true → a ≡ b
same_eq true b h = ground arith
same_eq false b h = ground arith

-- Two tests that agree on a table of the bytes agree on every byte.
by_table :
    (p q : ℕ → Bool) → all_below 256 (λ b. same (p b) (q b)) ≡ true → (b : ℕ) → b < 256 → p b ≡ q b
by_table p q h b lt = same_eq (p b) (q b) (all_below-true 256 (λ b. same (p b) (q b)) b h lt)

is_ascii : (b : ℕ) → b < 256 → (bit_and b 0x80 == 0x00) ≡ ltb b 0x80
is_ascii = by_table (λ b. bit_and b 0x80 == 0x00) (λ b. ltb b 0x80) (unfold all_below in refl)

leads_two : (b : ℕ) → b < 256 → (bit_and b 0xe0 == 0xc0) ≡ leb 0xc0 b && ltb b 0xe0
leads_two =
    by_table (λ b. bit_and b 0xe0 == 0xc0) (λ b. leb 0xc0 b && ltb b 0xe0)
      (unfold all_below in refl)

leads_three : (b : ℕ) → b < 256 → (bit_and b 0xf0 == 0xe0) ≡ leb 0xe0 b && ltb b 0xf0
leads_three =
    by_table (λ b. bit_and b 0xf0 == 0xe0) (λ b. leb 0xe0 b && ltb b 0xf0)
      (unfold all_below in refl)

leads_four : (b : ℕ) → b < 256 → (bit_and b 0xf8 == 0xf0) ≡ leb 0xf0 b && ltb b 0xf8
leads_four =
    by_table (λ b. bit_and b 0xf8 == 0xf0) (λ b. leb 0xf0 b && ltb b 0xf8)
      (unfold all_below in refl)

pub is_continuation-range : (b : ℕ) → b < 256 → is_continuation b ≡ leb 0x80 b && ltb b 0xc0
unfolding is_continuation
is_continuation-range =
    by_table (λ b. bit_and b 0xc0 == 0x80) (λ b. leb 0x80 b && ltb b 0xc0)
      (unfold all_below in refl)

-- The width by the range of the lead byte.
abbrev pub width_of : ℕ → Option ℕ
width_of b =
    if ltb b 0x80
    then some 1
    else if ltb b 0xc0
    then none
    else if ltb b 0xe0
    then some 2
    else if ltb b 0xf0
    then some 3
    else if ltb b 0xf8
    then some 4
    else none

pub lead_width-width_of : (b : ℕ) → b < 256 → lead_width b ≡ width_of b
unfolding lead_width
lead_width-width_of b h =
    rw (is_ascii b h, leads_two b h, leads_three b h, leads_four b h) (ground arith)

-- A disjunction of a multiple of `2 ^ k` and a smaller number is their sum.
pub bit_or-sum : (k x y : ℕ) → y < 2 ^ k → bit_or (x * 2 ^ k) y ≡ x * 2 ^ k + y
bit_or-sum zero x y h =
    let none_left : y ≡ 0 = omega arith in rw none_left (omega (arith, bit_or-zero (x * 2 ^ 0)))
bit_or-sum (suc k) x y h =
    let low : y / 2 < 2 ^ k = omega (arith, pow_double k) in
    let twice : x * 2 ^ suc k ≡ 2 * (x * 2 ^ k) = rw (pow_double k) (grind arith) in
    let half : 2 * (x * 2 ^ k) / 2 ≡ x * 2 ^ k = omega arith in
    rw (twice, bit_or-halves (2 * (x * 2 ^ k)) y, half) (omega (arith, bit_or-sum k x (y / 2) low))
