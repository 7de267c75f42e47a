-- ===== src/Utf8/Raw/Apart.antt =====
-- utf8/raw.c: the comparison of two encodings that are followed by anything.
use attica.Base.{
  ℕ, ◌+◌, ◌/◌, ◌%◌, ◌≤◌, ◌<◌, ◌≡◌, ◌∙◌, ◌⊎◌, inl, inr, refl, sym, drop, arith, List, ◌∷◌, ◌++◌,
}
use native.Mathlib.Decide.{dec_le}
use attica.Utf8.Byte.{byte}
use attica.Utf8.Byte.Encode.{encode_lead, encode, one_lem, two_lem, three_lem, four_lem}
use attica.Utf8.Raw.{compare_less, compare_greater, compare_bytes}

less_step : (x y : ℕ) (a b : List ℕ) → 0 < x → x < y → compare_bytes (x ∷ a) (y ∷ b) ≡ compare_less
unfolding compare_bytes
less_step x y a b pos h = ground arith

greater_step :
    (x y : ℕ) (a b : List ℕ) → 0 < y → y < x → compare_bytes (x ∷ a) (y ∷ b) ≡ compare_greater
unfolding compare_bytes
greater_step x y a b pos h = ground arith

pub equal_step : (x : ℕ) (a b : List ℕ) → 0 < x → compare_bytes (x ∷ a) (x ∷ b) ≡ compare_bytes a b
unfolding compare_bytes
equal_step x a b pos = ground arith

-- What the comparison of two strings of which the first is less comes to, and the converse.
pub record Apart (s t : List ℕ) : Type 0 where
  pub less : compare_bytes s t ≡ compare_less
  pub greater : compare_bytes t s ≡ compare_greater

Apart-step : (x y : ℕ) (a b : List ℕ) → 0 < x → x < y → Apart (x ∷ a) (y ∷ b)
Apart-step x y a b pos h = record {
  less = less_step x y a b pos h;
  greater = greater_step y x b a pos h;
}

Apart-same : (x y : ℕ) (a b : List ℕ) → 0 < x → x ≡ y → Apart a b → Apart (x ∷ a) (y ∷ b)
Apart-same x y a b pos e h =
    rw (sym e)
      record { less = equal_step x a b pos ∙ h.less; greater = equal_step x b a pos ∙ h.greater }

-- A digit that is not greater, with the rest less when it is equal.
Apart-digit :
    (base x y : ℕ) (a b : List ℕ)
    → 0 < base
    → x ≤ y
    → (x ≡ y → Apart a b)
    → Apart ((base + x) ∷ a) ((base + y) ∷ b)
Apart-digit base x y a b pos h k = elim (dec_le y x) [
  | no less ↦ Apart-step (base + x) (base + y) a b (omega arith) (omega arith)
  | yes same ↦ Apart-same (base + x) (base + y) a b (omega arith) (omega arith) (k (omega arith))
]

-- A bound that separates the widths.
abbrev IsBound : ℕ → Type 0
IsBound b = (b ≡ 0x80) ⊎ ((b ≡ 0x800) ⊎ (b ≡ 0x10000))

leads_rise :
    (b c d : ℕ) (s t : List ℕ)
    → IsBound b
    → c < b
    → b ≤ d
    → d < 0x200000
    → byte (encode c ++ s) 0 < byte (encode d ++ t) 0
unfolding encode
leads_rise b c d s t (inl e) h k l = ground arith
leads_rise b c d s t (inr (inl e)) h k l = ground arith
leads_rise b c d s t (inr (inr e)) h k l = ground arith

encode_lead_rest :
    (c : ℕ) (s : List ℕ) → encode c ++ s ≡ byte (encode c ++ s) 0 ∷ drop 1 (encode c ++ s)
unfolding encode
encode_lead_rest c s = ground arith

Apart-bound :
    (b c d : ℕ) (s t : List ℕ)
    → IsBound b
    → 0 < c
    → c < b
    → b ≤ d
    → d < 0x200000
    → Apart (encode c ++ s) (encode d ++ t)
Apart-bound b c d s t bound pos h k l =
    rw (encode_lead_rest c s, encode_lead_rest d t)
      (Apart-step (byte (encode c ++ s) 0) (byte (encode d ++ t) 0) (drop 1 (encode c ++ s))
        (drop 1 (encode d ++ t)) (encode_lead c s pos) (leads_rise b c d s t bound h k l))

-- Bytes of a sequence behind the first.
Apart-last : (x y : ℕ) (s t : List ℕ) → x < y → Apart ((0x80 + x) ∷ s) ((0x80 + y) ∷ t)
Apart-last x y s t h = Apart-step (0x80 + x) (0x80 + y) s t (omega arith) (omega arith)

Apart-two :
    (c d : ℕ) (s t : List ℕ) → 0x7f < c → c < d → d < 0x800 → Apart (encode c ++ s) (encode d ++ t)
Apart-two c d s t pos h k =
    rw (two_lem c pos (omega arith), two_lem d (omega arith) k)
      (Apart-digit 0xc0 (c / 64) (d / 64) _ _ (omega arith) (omega arith)
        λ e. Apart-last (c % 64) (d % 64) s t (omega arith))

Apart-three :
    (c d : ℕ) (s t : List ℕ)
    → 0x7ff < c
    → c < d
    → d < 0x10000
    → Apart (encode c ++ s) (encode d ++ t)
Apart-three c d s t pos h k =
    rw (three_lem c pos (omega arith), three_lem d (omega arith) k)
      (Apart-digit 0xe0 (c / 4096) (d / 4096) _ _ (omega arith) (omega arith) λ e.
        Apart-digit 0x80 (c / 64 % 64) (d / 64 % 64) _ _ (omega arith) (omega arith)
          λ e'. Apart-last (c % 64) (d % 64) s t (omega arith))

Apart-four :
    (c d : ℕ) (s t : List ℕ)
    → 0xffff < c
    → c < d
    → d < 0x200000
    → Apart (encode c ++ s) (encode d ++ t)
Apart-four c d s t pos h k =
    rw (four_lem c pos, four_lem d (omega arith))
      (Apart-digit 0xf0 (c / 262144) (d / 262144) _ _ (omega arith) (omega arith) λ e.
        Apart-digit 0x80 (c / 4096 % 64) (d / 4096 % 64) _ _ (omega arith) (omega arith) λ e'.
          Apart-digit 0x80 (c / 64 % 64) (d / 64 % 64) _ _ (omega arith) (omega arith)
            λ e''. Apart-last (c % 64) (d % 64) s t (omega arith))

-- Encodings of different code points are apart, whatever follows them.
pub encode-Apart :
    (c d : ℕ) (s t : List ℕ) → 0 < c → c < d → d < 0x200000 → Apart (encode c ++ s) (encode d ++ t)
encode-Apart c d s t pos h k = elim (dec_le d 0x7f) [
  | yes one ↦ rw (one_lem c (omega arith), one_lem d (omega arith)) (Apart-step c d s t pos h)
  | no over_one ↦ elim (dec_le c 0x7f) [
    | yes below ↦ Apart-bound 0x80 c d s t (inl refl) pos (omega arith) (omega arith) k
    | no over ↦ elim (dec_le d 0x7ff) [
      | yes two ↦ Apart-two c d s t (omega arith) h (omega arith)
      | no over_two ↦ elim (dec_le c 0x7ff) [
        | yes below ↦ Apart-bound 0x800 c d s t (inr (inl refl)) pos (omega arith) (omega arith) k
        | no over' ↦ elim (dec_le d 0xffff) [
          | yes three ↦ Apart-three c d s t (omega arith) h (omega arith)
          | no over_three ↦ elim (dec_le c 0xffff) [
            | yes below ↦
                Apart-bound 0x10000 c d s t (inr (inr refl)) pos (omega arith) (omega arith) k
            | no over'' ↦ Apart-four c d s t (omega arith) h k
          ]
        ]
      ]
    ]
  ]
]
