-- ===== src/Utf8/Byte.antt =====
-- utf8/byte.c: one UTF-8 sequence at a pointer. A pointer is given by the bytes from it up to the
-- terminator, which is not in the list: a read at the end gives 0, and the tests for `NULL` are
-- not modelled. A width of -1 is `none`.
pub mod Arithmetic
pub mod Ranges
pub mod Encode
pub mod Code
pub mod Walk
use attica.Base.{
  ℕ, zero, suc, ◌+◌, ◌*◌, ◌-◌, ◌^◌, Bool, true, false, not, ◌&&◌, ◌||◌, Option, none, some, List,
  [], ◌∷◌, ltb, leb, ◌==◌, if◌then◌else◌, bit_and, bit_or, get_or, drop, length,
}

abbrev pub byte : List ℕ → ℕ → ℕ
byte s i = get_or s i 0

-- The tests of `utf8_byte_width` on the lead byte.
unfoldable pub lead_width : ℕ → Option ℕ
lead_width lead =
    if bit_and lead 0x80 == 0x00
    then some 1
    else if bit_and lead 0xe0 == 0xc0
    then some 2
    else if bit_and lead 0xf0 == 0xe0
    then some 3
    else if bit_and lead 0xf8 == 0xf0
    then some 4
    else none

-- `utf8_byte_width`
unfoldable pub width : List ℕ → Option ℕ
width s = lead_width (byte s 0)

-- The value that `utf8_byte_decode` puts together, by the width.
unfoldable pub decode_width : List ℕ → ℕ → Option ℕ
decode_width s w =
    if w == 1
    then some (byte s 0)
    else if w == 2
    then some (bit_or (bit_and (byte s 0) 0x1f * 2 ^ 6) (bit_and (byte s 1) 0x3f))
    else if w == 3
    then some (
        bit_or (bit_or (bit_and (byte s 0) 0x0f * 2 ^ 12) (bit_and (byte s 1) 0x3f * 2 ^ 6))
          (bit_and (byte s 2) 0x3f))
    else if w == 4
    then some (
        bit_or
          (bit_or (bit_or (bit_and (byte s 0) 0x07 * 2 ^ 18) (bit_and (byte s 1) 0x3f * 2 ^ 12))
            (bit_and (byte s 2) 0x3f * 2 ^ 6))
          (bit_and (byte s 3) 0x3f))
    else none

-- `utf8_byte_decode`; `none` is -1.
unfoldable pub decode : List ℕ → Option ℕ
decode s = elim (width s) [ none ↦ none | some w ↦ decode_width s w ]

unfoldable pub is_continuation : ℕ → Bool
is_continuation b = bit_and b 0xc0 == 0x80

-- "Validate continuation bytes for multi-byte characters": bytes `i` up to the width.
unfoldable pub continuations : (rounds i : ℕ) → List ℕ → Bool
continuations zero i s = true
continuations (suc n) i s = is_continuation (byte s i) && continuations n (i + 1) s

-- "Additional checks for overlongs, surrogates, and invalid ranges"
unfoldable pub in_range : ℕ → List ℕ → Bool
in_range w s =
    if w == 2
    then not (ltb (byte s 0) 0xc2)
    else if w == 3
    then not ((byte s 0 == 0xe0) && ltb (byte s 1) 0xa0)
      && not ((byte s 0 == 0xed) && leb 0xa0 (byte s 1))
    else if w == 4
    then not ((byte s 0 == 0xf0) && ltb (byte s 1) 0x90)
      && not ((byte s 0 == 0xf4) && ltb 0x8f (byte s 1))
    else true

-- `utf8_byte_is_valid`, once the width is known
unfoldable pub is_valid_width : ℕ → List ℕ → Bool
unfolding is_continuation continuations in_range
is_valid_width w s =
    if w == 1 then not (is_continuation (byte s 0)) else continuations (w - 1) 1 s && in_range w s

-- `utf8_byte_is_valid`
unfoldable pub is_valid : List ℕ → Bool
unfolding is_valid_width
is_valid s = elim (width s) [ none ↦ false | some w ↦ is_valid_width w s ]

-- The loop of `utf8_byte_is_equal`.
unfoldable pub equal_bytes : (rounds i : ℕ) → List ℕ → List ℕ → Bool
equal_bytes zero i a b = true
equal_bytes (suc n) i a b = (byte a i == byte b i) && equal_bytes n (i + 1) a b

-- `utf8_byte_is_equal`
unfoldable pub is_equal : List ℕ → List ℕ → Bool
unfolding equal_bytes
is_equal a b = elim (width a) [
  | none ↦ false
  | some v ↦ elim (width b) [
    | none ↦ false
    | some w ↦ if v == w then equal_bytes v 0 a b else false
  ]
]

-- The tests of the character classes, on the code point of a valid sequence.
unfoldable pub classify : (ℕ → Bool) → List ℕ → Bool
classify test s =
    if is_valid s then elim (decode s) [ none ↦ false | some codepoint ↦ test codepoint ] else false

abbrev pub between : ℕ → ℕ → ℕ → Bool
between lo hi c = leb lo c && leb c hi

-- `utf8_byte_is_char`
unfoldable pub is_char : List ℕ → Bool
unfolding classify
is_char = classify (λ c. not (ltb c 0x20 || between 0x80 0x9f c || ltb 0x03ff c))

-- `utf8_byte_is_digit`
unfoldable pub is_digit : List ℕ → Bool
unfolding classify
is_digit = classify (λ c. not (ltb c 0x30 || ltb 0x39 c))

-- `utf8_byte_is_alpha`
unfoldable pub is_alpha : List ℕ → Bool
unfolding classify
is_alpha = classify (λ c. between 0x41 0x5a c || between 0x61 0x7a c)

-- `utf8_byte_is_alnum`
unfoldable pub is_alnum : List ℕ → Bool
unfolding is_alpha is_digit
is_alnum s = is_alpha s || is_digit s

-- `utf8_byte_is_upper`
unfoldable pub is_upper : List ℕ → Bool
unfolding classify
is_upper = classify (between 0x41 0x5a)

-- `utf8_byte_is_lower`
unfoldable pub is_lower : List ℕ → Bool
unfolding classify
is_lower = classify (between 0x61 0x7a)

-- `utf8_byte_is_space`
unfoldable pub is_space : List ℕ → Bool
unfolding classify
is_space = classify (λ c. (c == 0x20) || (c == 0x09) || (c == 0x0a) || (c == 0x0d))

-- `utf8_byte_is_punct`
unfoldable pub is_punct : List ℕ → Bool
unfolding classify
is_punct = classify (λ c.
    between 0x21 0x2f c
    || between 0x3a 0x3f c
    || between 0x5b 0x5d c
    || (c == 0x5f)
    || between 0x7b 0x7e c)

-- `utf8_byte_next`
unfoldable pub next : List ℕ → Option (List ℕ)
next s = if byte s 0 == 0 then none else elim (width s) [
  | none ↦ none
  | some w ↦
      if not (is_valid s) then none else if byte (drop w s) 0 == 0 then none else some (drop w s)
]

-- `utf8_byte_next_width`: the next pointer and the width that is written.
unfoldable pub next_width : List ℕ → Option (List ℕ × Option ℕ)
next_width s = if byte s 0 == 0 then none else elim (width s) [
  | none ↦ some (drop 1 s, none)
  | some w ↦ if not (is_valid s) then some (drop 1 s, none) else some (drop w s, some w)
]

-- The loop of `utf8_byte_prev`, over offsets from `start`: `prev` is one less than `back`, and the
-- loop ends when `back` is 0.
unfoldable pub prev_loop : (rounds : ℕ) (start : List ℕ) (current back : ℕ) → Option ℕ
prev_loop zero start current back = none
prev_loop (suc n) start current zero = none
prev_loop (suc n) start current (suc prev) =
    let rest = prev_loop n start current prev in
    elim (width (drop prev start)) [
      | none ↦ rest
      | some w ↦ if (prev + w == current) && is_valid (drop prev start) then some prev else rest
    ]

-- `utf8_byte_prev`, as an offset
unfoldable pub prev : (start : List ℕ) (current : ℕ) → Option ℕ
unfolding prev_loop
prev start current = if current == 0 then none else prev_loop 4 start current current

-- The loop of `utf8_byte_peek`; `none` is `NULL`.
unfoldable pub peek : (ahead : ℕ) → List ℕ → Option (List ℕ)
peek zero s = some s
peek (suc n) s = if byte s 0 == 0 then some s else elim (next s) [ none ↦ none | some t ↦ peek n t ]

-- The width that the callback is told, and how far the loop moves.
abbrev pub valid_width : List ℕ → Option ℕ
valid_width s = elim (width s) [ none ↦ none | some w ↦ if is_valid s then some w else none ]

abbrev pub stride : Option ℕ → ℕ
stride none = 1
stride (some w) = w

-- The loop of `utf8_byte_iterate`: a callback takes the rest of the string, the width and its
-- context, which it may change, and ends the loop with a result.
unfoldable pub iterate_loop {ℓ κ} :
    {R : Type ℓ} {C : Type κ} (rounds : ℕ)
    → (List ℕ → Option ℕ → C → Option R × C)
    → List ℕ
    → C
    → Option R × C
iterate_loop zero callback s context = (none, context)
iterate_loop (suc n) callback s context =
    if byte s 0 == 0
    then (none, context)
    else let good = valid_width s in
      let (result, context') = callback s good context in
      let onward = iterate_loop n callback (drop (stride good) s) context' in
      elim result [ some r ↦ (some r, context') | none ↦ onward ]

-- `utf8_byte_iterate`. Each round moves on by a byte at least.
unfoldable pub iterate {ℓ κ} :
    {R : Type ℓ} {C : Type κ} → List ℕ → (List ℕ → Option ℕ → C → Option R × C) → C → Option R × C
iterate s callback context = iterate_loop (length s) callback s context
