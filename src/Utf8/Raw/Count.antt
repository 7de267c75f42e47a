-- ===== src/Utf8/Raw/Count.antt =====
-- utf8/raw.c: the counts, the copies and the concatenation of texts.
use attica.Base.{
  ℕ, zero, suc, ◌+◌, ◌≤◌, ◌≡◌, ◌∙◌, ◌⊎◌, inl, inr, refl, ap, Bool, true, false, not, ◌&&◌,
  Bool-cases, none, some, arith, ◌==◌, if◌then◌else◌, List, [], ◌∷◌, ◌++◌, length, length-append,
  append_assoc, take,
}
use attica.Utf8.Byte.Encode.{encode-length, encode}
use attica.Utf8.Byte.{byte, iterate_loop, iterate}
use attica.Utf8.Raw.Text.{
  IsString, IsText, encode_all, IsString-bytes, encode_all-IsString, iterate_loop-encode,
  is_valid-IsText,
}
use attica.Utf8.Raw.{iter_count, is_valid, count_bytes, byte_count, char_count, copy, concat}

count_text :
    (n : ℕ) (cs : List ℕ) (k : ℕ)
    → IsText cs
    → length (encode_all cs) ≤ n
    → iterate_loop n iter_count (encode_all cs) k ≡ (none, k + length cs)
unfolding iterate_loop
count_text zero [] k h le = ap (λ m. (none, m)) (omega arith)
count_text (suc n) [] k h le = ap (λ m. (none, m)) (omega arith)
count_text zero (c ∷ cs) k h le =
    absurd (omega (arith, length-append (encode c) (encode_all cs), encode-length c))
count_text (suc n) (c ∷ cs) k h le =
    let bytes = IsString-bytes (encode_all cs) (encode_all-IsString cs h.2) in
    iterate_loop-encode iter_count n c (encode_all cs) k (k + 1) bytes h.0 h.1 refl
    ∙ count_text n cs (k + 1) h.2
        (omega (arith, length-append (encode c) (encode_all cs), encode-length c))
    ∙ ap (λ m. (none, m)) (omega arith)

count_bytes-length : (s : List ℕ) → IsString s → count_bytes s ≡ length s
unfolding count_bytes
count_bytes-length [] h = refl
count_bytes-length (b ∷ s) h =
    let more : (b == 0) ≡ false = ground arith in rw more (ap suc (count_bytes-length s h.2))

byte_count-length : (s : List ℕ) → IsString s → is_valid s ≡ true → byte_count s ≡ some (length s)
unfolding byte_count
byte_count-length [] h v = rw (byte_count, v) refl
byte_count-length (b ∷ s) h v =
    let more : (b == 0) ≡ false = ground arith in
    rw (byte_count, v, more) (ap some (count_bytes-length (b ∷ s) h))

char_count-length :
    (s cs : List ℕ)
    → IsString s
    → is_valid s ≡ true
    → IsText cs
    → s ≡ encode_all cs
    → char_count s ≡ some (length cs)
unfolding char_count iterate
char_count-length [] [] h v texts e = rw (char_count, v) refl
char_count-length [] (c ∷ cs) h v texts e =
    absurd (omega (arith, ap length e, length-append (encode c) (encode_all cs), encode-length c))
char_count-length (b ∷ s) cs h v texts e =
    let more : (b == 0) ≡ false = ground arith in
    let fits : length (encode_all cs) ≤ suc (length s) = omega (arith, ap length e) in
    let run =
      ap (λ t. iterate_loop (suc (length s)) iter_count t 0) e
      ∙ count_text (suc (length s)) cs 0 texts fits in
    rw (char_count, v, more, run) (ap (λ r. some r.1) run ∙ ap some (omega arith))

-- The results for a text of `cs`.
pub record Counts (s cs : List ℕ) : Type 0 where
  pub texts : IsText cs
  pub encoded : s ≡ encode_all cs
  pub chars : char_count s ≡ some (length cs)
  pub bytes : byte_count s ≡ some (length s)
  pub copied : (grants : Bool) → copy grants s ≡ (if grants then some s else none)

take_all : (s : List ℕ) → take (length s) s ≡ s
take_all [] = refl
take_all (b ∷ s) = ap (λ t. b ∷ t) (take_all s)

copy-bytes :
    (s : List ℕ) (grants : Bool)
    → byte_count s ≡ some (length s)
    → copy grants s ≡ (if grants then some s else none)
unfolding copy
copy-bytes s true e = rw (copy, e) (ap some (take_all s))
copy-bytes s false e = rw (copy, e) refl

-- A string is either the encoding of a list of code points, of which `utf8_raw_char_count` gives the length,
-- `utf8_raw_byte_count` the number of bytes and `utf8_raw_copy` the same string when memory is granted, or it is invalid
-- and each of the three refuses it.
pub count-IsText :
    (s : List ℕ)
    → IsString s
    → ((cs : List ℕ) × Counts s cs)
      ⊎ ((is_valid s ≡ false)
          × (char_count s ≡ none)
          × (byte_count s ≡ none)
          × ((grants : Bool) → copy grants s ≡ none))
unfolding char_count byte_count copy
count-IsText s h = elim (Bool-cases (is_valid s)) [
  | inl v ↦
      let (cs, texts, e) = (is_valid-IsText s h).0 v in
      let counted = byte_count-length s h v in
      inl (
        cs,
        record {
          texts = texts;
          encoded = e;
          chars = char_count-length s cs h v texts e;
          bytes = counted;
          copied = λ grants. copy-bytes s grants counted;
        },
      )
  | inr v ↦
      let counted : byte_count s ≡ none = rw (byte_count, v) refl in
      inr (v, rw (char_count, v) refl, counted, λ grants. rw (copy, counted) refl)
]

encode_all-append : (cs ds : List ℕ) → encode_all cs ++ encode_all ds ≡ encode_all (cs ++ ds)
encode_all-append [] ds = refl
encode_all-append (c ∷ cs) ds =
    append_assoc (encode c) (encode_all cs) (encode_all ds)
    ∙ ap (λ t. encode c ++ t) (encode_all-append cs ds)

IsText-append : (cs ds : List ℕ) → IsText cs → IsText ds → IsText (cs ++ ds)
IsText-append [] ds h k = k
IsText-append (c ∷ cs) ds h k = (h.0, h.1, IsText-append cs ds h.2 k)

and_false : (x : Bool) → (x && false) ≡ false
and_false true = refl
and_false false = refl

concat-valid :
    (a b : List ℕ)
    → IsString a
    → IsString b
    → is_valid a ≡ true
    → is_valid b ≡ true
    → concat true a b ≡ some (a ++ b)
unfolding concat
concat-valid a b h k v w =
    let first = byte_count-length a h v in
    let second = byte_count-length b k w in
    rw
      (
        concat,
        v,
        w,
        and_false (not (byte a 0 == 0)),
        and_false (not (byte b 0 == 0)),
        first,
        second,
        take_all a,
        take_all b,
      )
      refl

-- The concatenation of two texts, when memory is granted, is their bytes in a row, and a text again: that of the code
-- points of the one and then those of the other.
pub concat-IsText :
    (cs ds : List ℕ)
    → IsText cs
    → IsText ds
    → (concat true (encode_all cs) (encode_all ds) ≡ some (encode_all (cs ++ ds)))
      × (char_count (encode_all (cs ++ ds)) ≡ some (length cs + length ds))
concat-IsText cs ds h k =
    let first = encode_all-IsString cs h in
    let second = encode_all-IsString ds k in
    let both = IsText-append cs ds h k in
    let joined = encode_all-IsString (cs ++ ds) both in
    let valid = λ (es : List ℕ) (t : IsText es).
      (is_valid-IsText (encode_all es) (encode_all-IsString es t)).1 (es, t, refl) in
    (
      concat-valid (encode_all cs) (encode_all ds) first second (valid cs h) (valid ds k)
          ∙ ap some (encode_all-append cs ds),
      char_count-length (encode_all (cs ++ ds)) (cs ++ ds) joined (valid (cs ++ ds) both) both refl
          ∙ ap some (length-append cs ds),
    )
