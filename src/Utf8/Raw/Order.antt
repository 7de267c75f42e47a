-- ===== src/Utf8/Raw/Order.antt =====
-- utf8/raw.c: the comparison of strings, and the order of their code points.
use attica.Base.{
  ℕ, ◌<◌, ◌≡◌, ◌∙◌, ◌⊎◌, inl, inr, refl, ap, Bool-cases, false, arith, ltb, if◌then◌else◌, List, [],
  ◌∷◌, ◌++◌,
}
use mathlib.Core.Path.{ap₂}
use attica.Utf8.Raw.Apart.{encode-Apart, equal_step}
use native.Mathlib.Decide.{dec_le}
use attica.Utf8.Byte.Encode.{encode}
use attica.Utf8.Raw.Text.{
  IsString, IsText, encode_all, accepted_lt, encode-IsString, is_valid-IsText,
}
use attica.Utf8.Raw.{
  RawCompare, compare_invalid, compare_less, compare_equal, compare_greater, compare_bytes, compare,
  is_valid,
}

-- The order of lists of code points.
abbrev pub compare_points : (cs ds : List ℕ) → RawCompare
compare_points [] [] = compare_equal
compare_points [] (d ∷ ds) = compare_less
compare_points (c ∷ cs) [] = compare_greater
compare_points (c ∷ cs) (d ∷ ds) =
    let rest = compare_points cs ds in
    if ltb c d then compare_less else if ltb d c then compare_greater else rest

same_prefix : (e s t : List ℕ) → IsString e → compare_bytes (e ++ s) (e ++ t) ≡ compare_bytes s t
same_prefix [] s t h = refl
same_prefix (b ∷ e) s t h = equal_step b (e ++ s) (e ++ t) h.0 ∙ same_prefix e s t h.2

ends_first : (c : ℕ) (s : List ℕ) → 0 < c → compare_bytes [] (encode c ++ s) ≡ compare_less
unfolding compare_bytes encode
ends_first c s pos = ground arith

ends_last : (c : ℕ) (s : List ℕ) → 0 < c → compare_bytes (encode c ++ s) [] ≡ compare_greater
unfolding compare_bytes encode
ends_last c s pos = ground arith

compare_bytes-compare_points :
    (cs ds : List ℕ)
    → IsText cs
    → IsText ds
    → compare_bytes (encode_all cs) (encode_all ds) ≡ compare_points cs ds
unfolding compare_bytes
compare_bytes-compare_points [] [] h k = refl
compare_bytes-compare_points [] (d ∷ ds) h k = ends_first d (encode_all ds) k.0
compare_bytes-compare_points (c ∷ cs) [] h k = ends_last c (encode_all cs) h.0
compare_bytes-compare_points (c ∷ cs) (d ∷ ds) h k =
    let s = encode_all cs in
    let t = encode_all ds in
    elim (dec_le c d) [
      | no more ↦
          let apart = encode-Apart d c t s k.0 (omega arith) (accepted_lt c h.1) in
          apart.greater ∙ ground arith
      | yes le ↦ elim (dec_le d c) [
        | no less ↦
            let apart = encode-Apart c d s t h.0 (omega arith) (accepted_lt d k.1) in
            apart.less ∙ ground arith
        | yes ge ↦
            let same : d ≡ c = omega arith in
            ap (λ x. compare_bytes (encode c ++ s) (encode x ++ t)) same
            ∙ same_prefix (encode c) s t (encode-IsString c h.0 (accepted_lt c h.1))
            ∙ compare_bytes-compare_points cs ds h.2 k.2
            ∙ ground arith
      ]
    ]

-- `utf8_raw_compare` orders two strings as the lists of their code points are ordered, and finds a string invalid when
-- one of the two is.
pub compare-compare_points :
    (a b : List ℕ)
    → IsString a
    → IsString b
    → ((cs : List ℕ) × (ds : List ℕ) × (a ≡ encode_all cs)
        × (b ≡ encode_all ds)
        × (compare a b ≡ compare_points cs ds))
      ⊎ (((is_valid a ≡ false) ⊎ (is_valid b ≡ false)) × (compare a b ≡ compare_invalid))
unfolding compare
compare-compare_points a b h k = elim (Bool-cases (is_valid a)) [
  | inr bad ↦ inr (inl bad, rw (compare, bad) refl)
  | inl good ↦ elim (Bool-cases (is_valid b)) [
    | inr bad ↦ inr (inr bad, rw (compare, good, bad) refl)
    | inl fine ↦
        let (cs, cs-IsText, e) = (is_valid-IsText a h).0 good in
        let (ds, ds-IsText, f) = (is_valid-IsText b k).0 fine in
        inl (
          cs,
          ds,
          e,
          f,
          rw (compare, good, fine)
              (ap₂ compare_bytes e f ∙ compare_bytes-compare_points cs ds cs-IsText ds-IsText),
        )
  ]
]
