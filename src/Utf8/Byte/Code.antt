-- ===== src/Utf8/Byte/Code.antt =====
-- What utf8/byte.c accepts, against the encoding of RFC 3629.
use attica.Base.{
  ℕ, ◌+◌, ◌*◌, ◌/◌, ◌%◌, ◌≤◌, ◌<◌, ◌≡◌, ◌↔◌, ◌⊎◌, inl, inr, refl, true, none, some, arith, List, [],
  ◌∷◌, ◌++◌, length,
}
use attica.Utf8.Byte.{byte, width, decode, is_valid}
use mathlib.Core.Path.{ap₂, subst}
use native.Mathlib.Decide.{dec_le}
use attica.Utf8.Byte.Ranges.{AllBytes, width-none, width_over, valid_two, valid_three, valid_four}
use attica.Utf8.Byte.Encode.{
  encode, IsScalar, IsBeyond, Reads, one_lem, two_lem, three_lem, four_lem, Reads-one, Reads-two,
  Reads-three, Reads-four,
}

abbrev pub IsAccepted : ℕ → Type 0
IsAccepted c = IsScalar c ⊎ IsBeyond c

-- The string starts with the encoding of a code point that the source accepts.
abbrev pub StartsWell : List ℕ → Type 0
StartsWell s = (c : ℕ) × (rest : List ℕ) × IsAccepted c × (s ≡ encode c ++ rest)

-- The encoding of a code point that is a scalar value, or lies beyond U+13FFFF and has four bytes, is valid, whatever
-- follows it; its width is its length, and it is decoded as that code point.
pub Reads-encode :
    (c : ℕ) (rest : List ℕ) → AllBytes rest → IsAccepted c → Reads (encode c ++ rest) c
Reads-encode c rest bytes g = elim (dec_le c 0x7f) [
  | yes h ↦ Reads-one c rest bytes (omega arith)
  | no h ↦ elim (dec_le c 0x7ff) [
    | yes k ↦ Reads-two c rest bytes (omega arith) (omega arith)
    | no k ↦ elim (dec_le c 0xffff) [
      | yes l ↦ Reads-three c rest bytes (omega arith) (omega arith) (ground arith)
      | no l ↦ Reads-four c rest bytes (omega arith) (ground arith)
    ]
  ]
]

cons_eq : (b c : ℕ) (s t : List ℕ) → b ≡ c → s ≡ t → b ∷ s ≡ c ∷ t
cons_eq b c s t e f = ap₂ (λ x xs. x ∷ xs) e f

starts_two :
    (s : List ℕ) → AllBytes s → 0xc0 ≤ byte s 0 → byte s 0 < 0xe0 → is_valid s ≡ true → StartsWell s
starts_two [] bytes h k v = absurd (omega arith)
starts_two (a ∷ []) bytes h k v = absurd (ground (arith, valid_two (a ∷ []) bytes h k))
starts_two (a ∷ b ∷ rest) bytes h k v =
    let good : (0xc2 ≤ a) × (0x80 ≤ b) × (b < 0xc0) =
      ground (arith, valid_two (a ∷ b ∷ rest) bytes h k) in
    let c : ℕ = a % 32 * 64 + b % 64 in
    (
      c,
      rest,
      inl (inl (omega arith)),
      rw (two_lem c (omega arith) (omega arith)) (
          cons_eq a (0xc0 + c / 64) _ _ (omega arith)
            (cons_eq b (0x80 + c % 64) _ _ (omega arith) refl)),
    )

starts_three :
    (s : List ℕ) → AllBytes s → 0xe0 ≤ byte s 0 → byte s 0 < 0xf0 → is_valid s ≡ true → StartsWell s
starts_three [] bytes h k v = absurd (omega arith)
starts_three (a ∷ []) bytes h k v = absurd (ground (arith, valid_three (a ∷ []) bytes h k))
starts_three (a ∷ b ∷ []) bytes h k v = absurd (ground (arith, valid_three (a ∷ b ∷ []) bytes h k))
starts_three (a ∷ b ∷ d ∷ rest) bytes h k v =
    let tails : (0x80 ≤ b) × (b < 0xc0) × (0x80 ≤ d) × (d < 0xc0) =
      ground (arith, valid_three (a ∷ b ∷ d ∷ rest) bytes h k) in
    let long : (0xe0 < a) ⊎ (0xa0 ≤ b) = ground (arith, valid_three (a ∷ b ∷ d ∷ rest) bytes h k) in
    let split : (a < 0xed) ⊎ ((0xed < a) ⊎ (b < 0xa0)) =
      ground (arith, valid_three (a ∷ b ∷ d ∷ rest) bytes h k) in
    let c : ℕ = a % 16 * 4096 + b % 64 * 64 + d % 64 in
    let scalar : (c < 0xd800) ⊎ (0xdfff < c) = omega arith in
    (
      c,
      rest,
      inl (ground arith),
      rw (three_lem c (omega arith) (omega arith)) (
          cons_eq a (0xe0 + c / 4096) _ _ (omega arith) (
            cons_eq b (0x80 + c / 64 % 64) _ _ (omega arith)
              (cons_eq d (0x80 + c % 64) _ _ (omega arith) refl))),
    )

starts_four :
    (s : List ℕ) → AllBytes s → 0xf0 ≤ byte s 0 → byte s 0 < 0xf8 → is_valid s ≡ true → StartsWell s
starts_four [] bytes h k v = absurd (omega arith)
starts_four (a ∷ []) bytes h k v = absurd (ground (arith, valid_four (a ∷ []) bytes h k))
starts_four (a ∷ b ∷ []) bytes h k v = absurd (ground (arith, valid_four (a ∷ b ∷ []) bytes h k))
starts_four (a ∷ b ∷ d ∷ []) bytes h k v =
    absurd (ground (arith, valid_four (a ∷ b ∷ d ∷ []) bytes h k))
starts_four (a ∷ b ∷ d ∷ e ∷ rest) bytes h k v =
    let s = a ∷ b ∷ d ∷ e ∷ rest in
    let tails : (0x80 ≤ b) × (b < 0xc0) × (0x80 ≤ d) × (d < 0xc0) × (0x80 ≤ e) × (e < 0xc0) =
      ground (arith, valid_four s bytes h k) in
    let long : (0xf0 < a) ⊎ (0x90 ≤ b) = ground (arith, valid_four s bytes h k) in
    let split : (a < 0xf4) ⊎ ((0xf4 < a) ⊎ (b < 0x90)) = ground (arith, valid_four s bytes h k) in
    let c : ℕ = a % 8 * 262144 + b % 64 * 4096 + d % 64 * 64 + e % 64 in
    let above : 0xffff < c = omega arith in
    let accepted : (c < 0x110000) ⊎ IsBeyond c = omega arith in
    (
      c,
      rest,
      ground arith,
      rw (four_lem c above) (
          cons_eq a (0xf0 + c / 262144) _ _ (omega arith) (
            cons_eq b (0x80 + c / 4096 % 64) _ _ (omega arith) (
              cons_eq d (0x80 + c / 64 % 64) _ _ (omega arith)
                (cons_eq e (0x80 + c % 64) _ _ (omega arith) refl)))),
    )

starts_none : (s : List ℕ) → width s ≡ none → is_valid s ≡ true → StartsWell s
unfolding is_valid
starts_none s e v = absurd (ground (arith, e))

StartsWell-valid : (s : List ℕ) → AllBytes s → 0 < length s → is_valid s ≡ true → StartsWell s
StartsWell-valid [] bytes pos v = absurd (omega arith)
StartsWell-valid (a ∷ rest) bytes pos v =
    let s = a ∷ rest in
    elim (dec_le a 0x7f) [
      | yes h ↦ (a, rest, inl (inl (omega arith)), rw (one_lem a (omega arith)) refl)
      | no h ↦ elim (dec_le a 0xbf) [
        | yes k ↦ starts_none s (width-none s bytes (omega arith) (omega arith)) v
        | no k ↦ elim (dec_le a 0xdf) [
          | yes l ↦ starts_two s bytes (omega arith) (omega arith) v
          | no l ↦ elim (dec_le a 0xef) [
            | yes m ↦ starts_three s bytes (omega arith) (omega arith) v
            | no m ↦ elim (dec_le a 0xf7) [
              | yes o ↦ starts_four s bytes (omega arith) (omega arith) v
              | no o ↦ starts_none s (width_over s bytes (omega arith)) v
            ]
          ]
        ]
      ]
    ]

pub AllBytes-append : (s t : List ℕ) → AllBytes (s ++ t) → AllBytes t
AllBytes-append [] t h = h
AllBytes-append (b ∷ s) t h = AllBytes-append s t h.1

-- A string of bytes that is not empty passes `utf8_byte_is_valid` exactly when it starts with the encoding of a scalar
-- value, or with that of a code point beyond U+13FFFF that has four bytes.
pub valid-StartsWell : (s : List ℕ) → AllBytes s → 0 < length s → (is_valid s ≡ true) ↔ StartsWell s
valid-StartsWell s bytes pos = (
  StartsWell-valid s bytes pos,
  λ p.
      let (c, rest, accepted, e) = p in
      rw e
        (Reads-encode c rest (AllBytes-append (encode c) rest (subst AllBytes e bytes))
          accepted).valid,
)

-- Some valid sequences are no encoding of a Unicode code point.
pub decode-IsBeyond :
    (c : ℕ) (rest : List ℕ)
    → AllBytes rest
    → IsBeyond c
    → (is_valid (encode c ++ rest) ≡ true) × (decode (encode c ++ rest) ≡ some c) × (0x10ffff < c)
decode-IsBeyond c rest bytes h =
    let reads = Reads-encode c rest bytes (inr h) in (reads.valid, reads.decoded, omega arith)
