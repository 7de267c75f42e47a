-- ===== src/Utf8/Raw/Text.antt =====
-- utf8/raw.c: the strings that `utf8_raw_is_valid` accepts, as encodings of lists of code points.
use attica.Base.{
  ℕ, zero, suc, ◌≤◌, ◌<◌, ◌≡◌, ◌∙◌, ◌↔◌, inl, inr, refl, sym, ap, true, false, Bool-cases,
  Option-cases, Option, none, some, arith, ◌==◌, List, [], ◌∷◌, ◌++◌, length, length-append,
  drop-append, drop,
}
use mathlib.Core.Path.{subst}
use native.Mathlib.Decide.{dec_le}
use attica.Utf8.Byte.Ranges.{AllBytes}
use attica.Utf8.Byte.Encode.{encode, encode-length, encode_lead}
use attica.Utf8.Byte.Code.{IsAccepted, Reads-encode, valid-StartsWell}
use attica.Utf8.Byte.{byte, width, valid_width, stride, iterate_loop, iterate}
use attica.Utf8.Byte
use attica.Utf8.Raw.{Validator, iter_is_valid, unseen, is_valid}

-- The bytes of a string before its terminator.
abbrev pub IsString : List ℕ → Type 0
IsString [] = Unit
IsString (b ∷ s) = (0 < b) × (b < 256) × IsString s

abbrev pub IsText : List ℕ → Type 0
IsText [] = Unit
IsText (c ∷ cs) = (0 < c) × IsAccepted c × IsText cs

abbrev pub encode_all : List ℕ → List ℕ
encode_all [] = []
encode_all (c ∷ cs) = encode c ++ encode_all cs

pub IsString-bytes : (s : List ℕ) → IsString s → AllBytes s
IsString-bytes [] h = tt
IsString-bytes (b ∷ s) h = (h.1, IsString-bytes s h.2)

pub IsString-append : (s t : List ℕ) → IsString (s ++ t) → IsString t
IsString-append [] t h = h
IsString-append (b ∷ s) t h = IsString-append s t h.2

pub IsString-join : (s t : List ℕ) → IsString s → IsString t → IsString (s ++ t)
IsString-join [] t h k = k
IsString-join (b ∷ s) t h k = (h.0, h.1, IsString-join s t h.2 k)

pub encode-IsString : (c : ℕ) → 0 < c → c < 0x200000 → IsString (encode c)
unfolding encode
encode-IsString c pos h = ground arith

pub accepted_lt : (c : ℕ) → IsAccepted c → c < 0x200000
accepted_lt c h = ground arith

encode_nul : (c : ℕ) (rest : List ℕ) → c ≤ 0 → byte (encode c ++ rest) 0 ≡ 0
unfolding encode
encode_nul c rest h = ground arith

pub encode_all-IsString : (cs : List ℕ) → IsText cs → IsString (encode_all cs)
encode_all-IsString [] h = tt
encode_all-IsString (c ∷ cs) h =
    IsString-join (encode c) (encode_all cs) (encode-IsString c h.0 (accepted_lt c h.1))
      (encode_all-IsString cs h.2)

valid_width-encode :
    (c : ℕ) (rest : List ℕ)
    → AllBytes rest
    → IsAccepted c
    → valid_width (encode c ++ rest) ≡ some (length (encode c))
valid_width-encode c rest bytes h =
    let reads = Reads-encode c rest bytes h in rw (valid_width, reads.wide, reads.valid) refl

module _ {ℓ κ} {R : Type ℓ} {C : Type κ} (callback : List ℕ → Option ℕ → C → Option R × C) where
  -- A round of the loop, when the callback does not stop.
  pub iterate_loop-go :
      (n : ℕ) (s : List ℕ) (w : Option ℕ) (x y : C)
      → 0 < byte s 0
      → valid_width s ≡ w
      → callback s w x ≡ (none, y)
      → iterate_loop (suc n) callback s x ≡ iterate_loop n callback (drop (stride w) s) y
  unfolding iterate_loop
  iterate_loop-go n s w x y pos wide e =
      let lead : (byte s 0 == 0) ≡ false = ground arith in
      rw (iterate_loop, lead, wide, e, wide, e) refl

  -- And when it does.
  pub iterate_loop-stop :
      (n : ℕ) (s : List ℕ) (w : Option ℕ) (r : R) (x y : C)
      → 0 < byte s 0
      → valid_width s ≡ w
      → callback s w x ≡ (some r, y)
      → iterate_loop (suc n) callback s x ≡ (some r, y)
  unfolding iterate_loop
  iterate_loop-stop n s w r x y pos wide e =
      let lead : (byte s 0 == 0) ≡ false = ground arith in
      rw (iterate_loop, lead, wide, e, wide, e) refl

  -- The round at an encoding.
  pub iterate_loop-encode :
      (n c : ℕ) (rest : List ℕ) (x y : C)
      → AllBytes rest
      → 0 < c
      → IsAccepted c
      → callback (encode c ++ rest) (some (length (encode c))) x ≡ (none, y)
      → iterate_loop (suc n) callback (encode c ++ rest) x ≡ iterate_loop n callback rest y
  iterate_loop-encode n c rest x y bytes pos h e =
      iterate_loop-go n (encode c ++ rest) (some (length (encode c))) x y (encode_lead c rest pos)
        (valid_width-encode c rest bytes h) e
      ∙ ap (λ s. iterate_loop n callback s y) (drop-append (encode c) rest)

-- Each sequence but the last hands the mark on, and a valid one sets it.
abbrev marked : List ℕ → Validator → Validator
marked [] v = v
marked (c ∷ cs) v = record v { is_valid = true }

marked_twice :
    (c : ℕ) (cs : List ℕ) (v : Validator)
    → marked cs (record v { is_valid = true }) ≡ marked (c ∷ cs) v
marked_twice c [] v = refl
marked_twice c (d ∷ cs) v = refl

validate_text :
    (n : ℕ) (cs : List ℕ) (v : Validator)
    → IsText cs
    → length (encode_all cs) ≤ n
    → iterate_loop n iter_is_valid (encode_all cs) v ≡ (none, marked cs v)
unfolding iterate_loop
validate_text zero [] v h le = refl
validate_text (suc n) [] v h le = refl
validate_text zero (c ∷ cs) v h le =
    absurd (omega (arith, length-append (encode c) (encode_all cs), encode-length c))
validate_text (suc n) (c ∷ cs) v h le =
    let bytes = IsString-bytes (encode_all cs) (encode_all-IsString cs h.2) in
    let v' = record v { is_valid = true } in
    iterate_loop-encode iter_is_valid n c (encode_all cs) v v' bytes h.0 h.1 refl
    ∙ validate_text n cs v' h.2
        (omega (arith, length-append (encode c) (encode_all cs), encode-length c))
    ∙ ap (λ w. (none, w)) (marked_twice c cs v)

refused : (s : List ℕ) → Byte.is_valid s ≡ false → valid_width s ≡ none
refused s e = elim (Option-cases (width s)) [
  | inl o ↦ rw (valid_width, o) refl
  | inr o ↦ rw (valid_width, o.1, e) refl
]

-- A valid sequence at the head of a string is a code point, and what follows it is a string.
valid_head :
    (b : ℕ) (s : List ℕ)
    → IsString (b ∷ s)
    → Byte.is_valid (b ∷ s) ≡ true
    → (c : ℕ) × (rest : List ℕ) × (0 < c)
      × IsAccepted c
      × (b ∷ s ≡ encode c ++ rest)
      × IsString rest
valid_head b s h v =
    let (c, rest, accepted, e) =
      (valid-StartsWell (b ∷ s) (IsString-bytes (b ∷ s) h) (omega arith)).0 v in
    let text = subst IsString e h in
    elim (dec_le c 0) [
      | yes none_left ↦
          absurd (omega (arith, h.0, encode_nul c rest none_left, ap (λ t. byte t 0) e))
      | no pos ↦ (c, rest, omega arith, accepted, e, IsString-append (encode c) rest text)
    ]

-- A run of the validator that ends with the mark set has read encodings only.
IsText-validated :
    (n : ℕ) (s : List ℕ) (v : Validator)
    → IsString s
    → length s ≤ n
    → (iterate_loop n iter_is_valid s v).1.is_valid ≡ true
    → (cs : List ℕ) × IsText cs × (s ≡ encode_all cs)
IsText-validated n [] v h le e = ([], tt, refl)
IsText-validated zero (b ∷ s) v h le e = absurd (omega arith)
IsText-validated (suc n) (b ∷ s) v h le e = elim (Bool-cases (Byte.is_valid (b ∷ s))) [
  | inr bad ↦
      let stop =
        iterate_loop-stop iter_is_valid n (b ∷ s) none tt v
          (record { is_valid = false; error_at = some (b ∷ s) }) h.0 (refused (b ∷ s) bad) refl in
      absurd (ground (arith, ap (λ r. r.1.is_valid) stop))
  | inl good ↦
      let (c, rest, pos, accepted, split, rest-IsString) = valid_head b s h good in
      let v' = record v { is_valid = true } in
      let onward =
        ap (λ t. iterate_loop (suc n) iter_is_valid t v) split
        ∙ iterate_loop-encode iter_is_valid n c rest v v' (IsString-bytes rest rest-IsString) pos
            accepted refl in
      let shorter : length rest ≤ n =
        omega (arith, ap length split, length-append (encode c) rest, encode-length c) in
      let (cs, texts, equal) =
        IsText-validated n rest v' rest-IsString shorter
          (sym (ap (λ r. r.1.is_valid) onward) ∙ e) in
      (c ∷ cs, (pos, accepted, texts), split ∙ ap (λ t. encode c ++ t) equal)
]

is_valid-run :
    (b : ℕ) (s : List ℕ)
    → 0 < b
    → is_valid (b ∷ s) ≡ (iterate_loop (suc (length s)) iter_is_valid (b ∷ s) unseen).1.is_valid
unfolding is_valid iterate
is_valid-run b s pos = let lead : (b == 0) ≡ false = ground arith in rw (is_valid, lead) refl

is_valid-encode_all :
    (b : ℕ) (s cs : List ℕ) → 0 < b → IsText cs → b ∷ s ≡ encode_all cs → is_valid (b ∷ s) ≡ true
is_valid-encode_all b s [] pos h e = absurd (ground (arith, ap length e))
is_valid-encode_all b s (c ∷ cs) pos h e =
    let fits : length (encode_all (c ∷ cs)) ≤ suc (length s) = omega (arith, ap length e) in
    is_valid-run b s pos
    ∙ ap (λ t. (iterate_loop (suc (length s)) iter_is_valid t unseen).1.is_valid) e
    ∙ ap (λ r. r.1.is_valid) (validate_text (suc (length s)) (c ∷ cs) unseen h fits)

-- A string passes `utf8_raw_is_valid` exactly when it is the encoding of a list of code points other than 0, each a
-- scalar value or beyond U+13FFFF with four bytes.
pub is_valid-IsText :
    (s : List ℕ)
    → IsString s
    → (is_valid s ≡ true) ↔ ((cs : List ℕ) × IsText cs × (s ≡ encode_all cs))
unfolding is_valid
is_valid-IsText [] h = (λ e. ([], tt, refl), λ p. refl)
is_valid-IsText (b ∷ s) h = (
  λ e.
      IsText-validated (suc (length s)) (b ∷ s) unseen h (omega arith)
        (sym (is_valid-run b s h.0) ∙ e),
  λ p. is_valid-encode_all b s p.0 h.0 p.1 p.2,
)
