-- ===== src/Utf8/Byte/Encode.antt =====
-- The encoding of RFC 3629, and the tests and the decoder of utf8/byte.c on it.
use attica.Base.{
  ℕ, ◌+◌, ◌/◌, ◌%◌, ◌≤◌, ◌<◌, ◌≡◌, ◌⊎◌, ap, true, some, arith, ltb, if◌then◌else◌, List, [], ◌∷◌,
  ◌++◌, length,
}
use attica.Utf8.Byte.{byte, width, decode, is_valid}
use attica.Utf8.Byte.Ranges.{
  AllBytes, width_one, width_two, width_three, width_four, decode_one, decode_two, decode_three,
  decode_four, valid_one, valid_two, valid_three, valid_four,
}

-- RFC 3629, section 3: the encoding of a code point.
unfoldable pub encode : ℕ → List ℕ
encode c =
    if ltb c 0x80
    then c ∷ []
    else if ltb c 0x800
    then (0xc0 + c / 64) ∷ (0x80 + c % 64) ∷ []
    else if ltb c 0x10000
    then (0xe0 + c / 4096) ∷ (0x80 + c / 64 % 64) ∷ (0x80 + c % 64) ∷ []
    else (0xf0 + c / 262144) ∷ (0x80 + c / 4096 % 64) ∷ (0x80 + c / 64 % 64) ∷ (0x80 + c % 64) ∷ []

-- A Unicode scalar value: a code point that is not a surrogate.
abbrev pub IsScalar : ℕ → Type 0
IsScalar c = (c < 0xd800) ⊎ ((0xdfff < c) × (c < 0x110000))

-- What the source lets through besides: lead bytes 0xF5 to 0xF7.
abbrev pub IsBeyond : ℕ → Type 0
IsBeyond c = (0x13ffff < c) × (c < 0x200000)

pub record Reads (s : List ℕ) (c : ℕ) : Type 0 where
  pub valid : is_valid s ≡ true
  pub wide : width s ≡ some (length (encode c))
  pub decoded : decode s ≡ some c

pub one_lem : (c : ℕ) → c < 0x80 → encode c ≡ c ∷ []
unfolding encode
one_lem c h = ground arith

pub two_lem : (c : ℕ) → 0x7f < c → c < 0x800 → encode c ≡ (0xc0 + c / 64) ∷ (0x80 + c % 64) ∷ []
unfolding encode
two_lem c h k = ground arith

pub three_lem :
    (c : ℕ)
    → 0x7ff < c
    → c < 0x10000
    → encode c ≡ (0xe0 + c / 4096) ∷ (0x80 + c / 64 % 64) ∷ (0x80 + c % 64) ∷ []
unfolding encode
three_lem c h k = ground arith

pub four_lem :
    (c : ℕ)
    → 0xffff < c
    → encode c
      ≡ (0xf0 + c / 262144) ∷ (0x80 + c / 4096 % 64) ∷ (0x80 + c / 64 % 64) ∷ (0x80 + c % 64) ∷ []
unfolding encode
four_lem c h = ground arith

pub Reads-one : (c : ℕ) (rest : List ℕ) → AllBytes rest → c < 0x80 → Reads (encode c ++ rest) c
Reads-one c rest bytes h =
    let s = c ∷ rest in
    let all : AllBytes s = (omega arith, bytes) in
    rw (one_lem c h) record {
      valid = valid_one s all h;
      wide = rw (one_lem c h) (width_one s all h);
      decoded = decode_one s all h;
    }

pub Reads-two :
    (c : ℕ) (rest : List ℕ) → AllBytes rest → 0x7f < c → c < 0x800 → Reads (encode c ++ rest) c
Reads-two c rest bytes h k =
    let s = (0xc0 + c / 64) ∷ (0x80 + c % 64) ∷ rest in
    let all : AllBytes s = (omega arith, (omega arith, bytes)) in
    rw (two_lem c h k) record {
      valid = rw (valid_two s all (omega arith) (omega arith)) (ground arith);
      wide = rw (two_lem c h k) (width_two s all (omega arith) (omega arith));
      decoded = rw (decode_two s all (omega arith) (omega arith)) (ap some (omega arith));
    }

-- The three bytes of an encoding, and the restrictions on the second of them.
pub Reads-three :
    (c : ℕ) (rest : List ℕ)
    → AllBytes rest
    → 0x7ff < c
    → c < 0x10000
    → (c < 0xd800) ⊎ (0xdfff < c)
    → Reads (encode c ++ rest) c
Reads-three c rest bytes h k g =
    let s = (0xe0 + c / 4096) ∷ (0x80 + c / 64 % 64) ∷ (0x80 + c % 64) ∷ rest in
    let all : AllBytes s = (omega arith, (omega arith, (omega arith, bytes))) in
    rw (three_lem c h k) record {
      valid = rw (valid_three s all (omega arith) (omega arith)) (ground arith);
      wide = rw (three_lem c h k) (width_three s all (omega arith) (omega arith));
      decoded = rw (decode_three s all (omega arith) (omega arith)) (ap some (omega arith));
    }

pub Reads-four :
    (c : ℕ) (rest : List ℕ)
    → AllBytes rest
    → 0xffff < c
    → (c < 0x110000) ⊎ IsBeyond c
    → Reads (encode c ++ rest) c
Reads-four c rest bytes h g =
    let s =
      (0xf0 + c / 262144)
      ∷ (0x80 + c / 4096 % 64)
      ∷ (0x80 + c / 64 % 64)
      ∷ (0x80 + c % 64)
      ∷ rest in
    let small : c < 0x200000 = omega arith in
    let all : AllBytes s = (omega arith, (omega arith, (omega arith, (omega arith, bytes)))) in
    rw (four_lem c h) record {
      valid = rw (valid_four s all (omega arith) (omega arith)) (ground arith);
      wide = rw (four_lem c h) (width_four s all (omega arith) (omega arith));
      decoded = rw (decode_four s all (omega arith) (omega arith)) (ap some (omega arith));
    }

pub encode-length : (c : ℕ) → (1 ≤ length (encode c)) × (length (encode c) ≤ 4)
unfolding encode
encode-length c = ground arith

pub encode_lead : (c : ℕ) (rest : List ℕ) → 0 < c → 0 < byte (encode c ++ rest) 0
unfolding encode
encode_lead c rest pos = ground arith
