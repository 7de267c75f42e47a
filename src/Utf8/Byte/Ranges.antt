-- ===== src/Utf8/Byte/Ranges.antt =====
-- The tests and the decoder of utf8/byte.c, by the range of the lead byte.
use attica.Base.Bits.{bit_and-mask}
use attica.Base.{
  ℕ, zero, suc, ◌+◌, ◌*◌, ◌%◌, ◌≤◌, ◌<◌, ◌≡◌, refl, Bool, true, not, ◌&&◌, none, some, arith, ltb,
  leb, ◌==◌, bit_or, List, [], ◌∷◌,
}
use attica.Utf8.Byte.Arithmetic.{is_continuation-range, width_of, lead_width-width_of, bit_or-sum}
use attica.Utf8.Byte.{
  byte, width, decode_width, decode, is_continuation, continuations, in_range, is_valid_width,
  is_valid,
}

-- The elements are bytes.
abbrev pub AllBytes : List ℕ → Type 0
AllBytes [] = Unit
AllBytes (b ∷ s) = (b < 256) × AllBytes s

pub byte_lt : (s : List ℕ) (i : ℕ) → AllBytes s → byte s i < 256
byte_lt [] i h = omega arith
byte_lt (b ∷ s) zero h = h.0
byte_lt (b ∷ s) (suc i) h = byte_lt s i h.1

two_parts : (x y : ℕ) → y < 64 → bit_or (x * 64) y ≡ x * 64 + y
two_parts x y = bit_or-sum 6 x y

three_parts :
    (x y z : ℕ) → y < 64 → z < 64 → bit_or (bit_or (x * 4096) (y * 64)) z ≡ x * 4096 + y * 64 + z
three_parts x y z hy hz =
    let upper : x * 4096 + y * 64 ≡ (x * 64 + y) * 64 = omega arith in
    rw (bit_or-sum 12 x (y * 64) (omega arith), upper, bit_or-sum 6 (x * 64 + y) z hz) refl

four_parts :
    (x y z u : ℕ)
    → y < 64
    → z < 64
    → u < 64
    → bit_or (bit_or (bit_or (x * 262144) (y * 4096)) (z * 64)) u
      ≡ x * 262144 + y * 4096 + z * 64 + u
four_parts x y z u hy hz hu =
    let top : x * 262144 + y * 4096 ≡ (x * 64 + y) * 4096 = omega arith in
    rw (bit_or-sum 18 x (y * 4096) (omega arith), top) (three_parts (x * 64 + y) z u hz hu)

-- What the tests and the decoder come to, by the range of the lead byte.
module _ (s : List ℕ) (bytes : AllBytes s) where
  abbrev b0 : ℕ
  b0 = byte s 0

  abbrev b1 : ℕ
  b1 = byte s 1

  abbrev b2 : ℕ
  b2 = byte s 2

  abbrev b3 : ℕ
  b3 = byte s 3

  abbrev tail_byte : ℕ → Bool
  tail_byte b = leb 0x80 b && ltb b 0xc0

  width_eq : width s ≡ width_of b0
  unfolding width
  width_eq = lead_width-width_of b0 (byte_lt s 0 bytes)

  tail_eq : (i : ℕ) → is_continuation (byte s i) ≡ tail_byte (byte s i)
  tail_eq i = is_continuation-range (byte s i) (byte_lt s i bytes)

  pub width_one : b0 < 0x80 → width s ≡ some 1
  width_one h = rw width_eq (ground arith)

  pub width-none : 0x80 ≤ b0 → b0 < 0xc0 → width s ≡ none
  width-none h k = rw width_eq (ground arith)

  pub width_two : 0xc0 ≤ b0 → b0 < 0xe0 → width s ≡ some 2
  width_two h k = rw width_eq (ground arith)

  pub width_three : 0xe0 ≤ b0 → b0 < 0xf0 → width s ≡ some 3
  width_three h k = rw width_eq (ground arith)

  pub width_four : 0xf0 ≤ b0 → b0 < 0xf8 → width s ≡ some 4
  width_four h k = rw width_eq (ground arith)

  pub width_over : 0xf8 ≤ b0 → width s ≡ none
  width_over h = rw width_eq (ground arith)

  pub decode_one : b0 < 0x80 → decode s ≡ some b0
  unfolding decode decode_width
  decode_one h = rw (decode, width_one h) refl

  pub decode_two : 0xc0 ≤ b0 → b0 < 0xe0 → decode s ≡ some (b0 % 32 * 64 + b1 % 64)
  unfolding decode decode_width
  decode_two h k =
      rw
        (
          decode,
          width_two h k,
          bit_and-mask 5 b0,
          bit_and-mask 6 b1,
          two_parts (b0 % 32) (b1 % 64) (omega arith),
        )
        refl

  pub decode_three :
      0xe0 ≤ b0 → b0 < 0xf0 → decode s ≡ some (b0 % 16 * 4096 + b1 % 64 * 64 + b2 % 64)
  unfolding decode decode_width
  decode_three h k =
      rw
        (
          decode,
          width_three h k,
          bit_and-mask 4 b0,
          bit_and-mask 6 b1,
          bit_and-mask 6 b2,
          three_parts (b0 % 16) (b1 % 64) (b2 % 64) (omega arith) (omega arith),
        )
        refl

  pub decode_four :
      0xf0 ≤ b0
      → b0 < 0xf8
      → decode s ≡ some (b0 % 8 * 262144 + b1 % 64 * 4096 + b2 % 64 * 64 + b3 % 64)
  unfolding decode decode_width
  decode_four h k =
      rw
        (
          decode,
          width_four h k,
          bit_and-mask 3 b0,
          bit_and-mask 6 b1,
          bit_and-mask 6 b2,
          bit_and-mask 6 b3,
          four_parts (b0 % 8) (b1 % 64) (b2 % 64) (b3 % 64) (omega arith) (omega arith)
              (omega arith),
        )
        refl

  pub valid_one : b0 < 0x80 → is_valid s ≡ true
  unfolding is_valid is_valid_width
  valid_one h = rw (is_valid, width_one h, tail_eq 0) (ground arith)

  pub valid_two : 0xc0 ≤ b0 → b0 < 0xe0 → is_valid s ≡ (tail_byte b1 && true) && not (ltb b0 0xc2)
  unfolding is_valid is_valid_width continuations in_range
  valid_two h k = rw (is_valid, width_two h k, tail_eq 1) refl

  pub valid_three :
      0xe0 ≤ b0
      → b0 < 0xf0
      → is_valid s
        ≡ (tail_byte b1 && (tail_byte b2 && true))
          && (not ((b0 == 0xe0) && ltb b1 0xa0) && not ((b0 == 0xed) && leb 0xa0 b1))
  unfolding is_valid is_valid_width continuations in_range
  valid_three h k = rw (is_valid, width_three h k, tail_eq 1, tail_eq 2) refl

  pub valid_four :
      0xf0 ≤ b0
      → b0 < 0xf8
      → is_valid s
        ≡ (tail_byte b1 && (tail_byte b2 && (tail_byte b3 && true)))
          && (not ((b0 == 0xf0) && ltb b1 0x90) && not ((b0 == 0xf4) && ltb 0x8f b1))
  unfolding is_valid is_valid_width continuations in_range
  valid_four h k = rw (is_valid, width_four h k, tail_eq 1, tail_eq 2, tail_eq 3) refl
