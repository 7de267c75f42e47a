-- ===== src/Utf8/Byte/Walk.antt =====
-- utf8/byte.c: the steps forwards and backwards between code points.
use attica.Base.{
  ℕ, zero, suc, ◌+◌, ◌/◌, ◌%◌, ◌<◌, ◌≡◌, ◌∙◌, refl, ap, true, false, none, some, arith, ◌==◌,
  if◌then◌else◌, List, [], ◌∷◌, ◌++◌, length, drop-append, drop,
}
use native.Mathlib.Decide.{dec_le}
use attica.Utf8.Byte.Ranges.{AllBytes, width-none}
use attica.Utf8.Byte.Encode.{
  encode, encode-length, encode_lead, one_lem, two_lem, three_lem, four_lem,
}
use attica.Utf8.Byte.Code.{IsAccepted, Reads-encode}
use attica.Utf8.Byte.{byte, width, is_valid, next, prev_loop, prev}

drop-suc : (n : ℕ) (s : List ℕ) → drop (suc n) s ≡ drop 1 (drop n s)
drop-suc zero s = refl
drop-suc (suc n) [] = refl
drop-suc (suc n) (b ∷ s) = drop-suc n s

-- A round of the walk back at a byte that leads no sequence.
prev_loop-skip :
    (n : ℕ) (start : List ℕ) (current p : ℕ)
    → width (drop p start) ≡ none
    → prev_loop (suc n) start current (suc p) ≡ prev_loop n start current p
unfolding prev_loop
prev_loop-skip n start current p e = rw (prev_loop, e) refl

-- And at the sequence that ends where the walk began.
prev_loop-stop :
    (n : ℕ) (start : List ℕ) (current p w : ℕ)
    → width (drop p start) ≡ some w
    → is_valid (drop p start) ≡ true
    → p + w ≡ current
    → prev_loop (suc n) start current (suc p) ≡ some p
unfolding prev_loop
prev_loop-stop n start current p w e v f =
    let here : (p + w == current) ≡ true = ground arith in rw (prev_loop, e, here, v) refl

continuation_width : (x : ℕ) (t : List ℕ) → x < 64 → AllBytes t → width ((0x80 + x) ∷ t) ≡ none
continuation_width x t h bytes =
    width-none ((0x80 + x) ∷ t) (omega arith, bytes) (omega arith) (omega arith)

module _ (s t : List ℕ) (c : ℕ) (bytes : AllBytes t) (accepted : IsAccepted c) where
  abbrev start : List ℕ
  start = s ++ (encode c ++ t)

  abbrev current : ℕ
  current = length s + length (encode c)

  at_lead : (n : ℕ) → prev_loop (suc n) start current (suc (length s)) ≡ some (length s)
  at_lead n =
      let reads = Reads-encode c t bytes accepted in
      let here = drop-append s (encode c ++ t) in
      prev_loop-stop n start current (length s) (length (encode c)) (ap width here ∙ reads.wide)
        (ap is_valid here ∙ reads.valid) refl

  -- The rounds at the bytes behind the lead byte.
  behind :
      (n k : ℕ) (u : List ℕ)
      → drop k start ≡ u
      → width u ≡ none
      → prev_loop (suc n) start current (suc k) ≡ prev_loop n start current k
  behind n k u e f = prev_loop-skip n start current k (ap width e ∙ f)

  drop_one : drop (suc (length s)) start ≡ drop 1 (encode c ++ t)
  drop_one = drop-suc (length s) start ∙ ap (drop 1) (drop-append s (encode c ++ t))

  drop_two : drop (suc (suc (length s))) start ≡ drop 1 (drop 1 (encode c ++ t))
  drop_two = drop-suc (suc (length s)) start ∙ ap (drop 1) drop_one

  drop_three : drop (suc (suc (suc (length s)))) start ≡ drop 1 (drop 1 (drop 1 (encode c ++ t)))
  drop_three = drop-suc (suc (suc (length s))) start ∙ ap (drop 1) drop_two

  back_one : c < 0x80 → prev_loop 4 start current current ≡ some (length s)
  back_one h =
      let size : current ≡ suc (length s) = omega (arith, ap length (one_lem c h)) in
      ap (λ m. prev_loop 4 start current m) size ∙ at_lead 3

  back_two : 0x7f < c → c < 0x800 → prev_loop 4 start current current ≡ some (length s)
  back_two h k =
      let form = two_lem c h k in
      let size : current ≡ suc (suc (length s)) = omega (arith, ap length form) in
      ap (λ m. prev_loop 4 start current m) size
      ∙ behind 3 (suc (length s)) ((0x80 + c % 64) ∷ t) (drop_one ∙ ap (λ e. drop 1 (e ++ t)) form)
          (continuation_width (c % 64) t (omega arith) bytes)
      ∙ at_lead 2

  back_three : 0x7ff < c → c < 0x10000 → prev_loop 4 start current current ≡ some (length s)
  back_three h k =
      let form = three_lem c h k in
      let size : current ≡ suc (suc (suc (length s))) = omega (arith, ap length form) in
      let last = (0x80 + c % 64) ∷ t in
      let last_bytes : AllBytes last = (omega arith, bytes) in
      ap (λ m. prev_loop 4 start current m) size
      ∙ behind 3 (suc (suc (length s))) last (drop_two ∙ ap (λ e. drop 1 (drop 1 (e ++ t))) form)
          (continuation_width (c % 64) t (omega arith) bytes)
      ∙ behind 2 (suc (length s)) ((0x80 + c / 64 % 64) ∷ last)
          (drop_one ∙ ap (λ e. drop 1 (e ++ t)) form)
          (continuation_width (c / 64 % 64) last (omega arith) last_bytes)
      ∙ at_lead 1

  back_four : 0xffff < c → prev_loop 4 start current current ≡ some (length s)
  back_four h =
      let form = four_lem c h in
      let size : current ≡ suc (suc (suc (suc (length s)))) = omega (arith, ap length form) in
      let last = (0x80 + c % 64) ∷ t in
      let third = (0x80 + c / 64 % 64) ∷ last in
      let last_bytes : AllBytes last = (omega arith, bytes) in
      let third_bytes : AllBytes third = (omega arith, last_bytes) in
      ap (λ m. prev_loop 4 start current m) size
      ∙ behind 3 (suc (suc (suc (length s)))) last
          (drop_three ∙ ap (λ e. drop 1 (drop 1 (drop 1 (e ++ t)))) form)
          (continuation_width (c % 64) t (omega arith) bytes)
      ∙ behind 2 (suc (suc (length s))) third (drop_two ∙ ap (λ e. drop 1 (drop 1 (e ++ t))) form)
          (continuation_width (c / 64 % 64) last (omega arith) last_bytes)
      ∙ behind 1 (suc (length s)) ((0x80 + c / 4096 % 64) ∷ third)
          (drop_one ∙ ap (λ e. drop 1 (e ++ t)) form)
          (continuation_width (c / 4096 % 64) third (omega arith) third_bytes)
      ∙ at_lead 0

-- From the end of an encoding inside a string, `utf8_byte_prev` finds where it starts, whatever stands before and behind
-- it: four rounds are enough.
pub prev-encode :
    (s t : List ℕ) (c : ℕ)
    → AllBytes t
    → IsAccepted c
    → prev (s ++ (encode c ++ t)) (length s + length (encode c)) ≡ some (length s)
unfolding prev
prev-encode s t c bytes accepted =
    let inside : (length s + length (encode c) == 0) ≡ false = ground (arith, encode-length c) in
    rw (prev, inside)
      (elim (dec_le c 0x7f) [
        | yes h ↦ back_one s t c bytes accepted (omega arith)
        | no h ↦ elim (dec_le c 0x7ff) [
          | yes k ↦ back_two s t c bytes accepted (omega arith) (omega arith)
          | no k ↦ elim (dec_le c 0xffff) [
            | yes l ↦ back_three s t c bytes accepted (omega arith) (omega arith)
            | no l ↦ back_four s t c bytes accepted (omega arith)
          ]
        ]
      ])

-- `utf8_byte_next` steps over an encoding of a code point other than 0, to what follows it, unless the string ends there.
pub next-encode :
    (c : ℕ) (t : List ℕ)
    → AllBytes t
    → 0 < c
    → IsAccepted c
    → next (encode c ++ t) ≡ (if byte t 0 == 0 then none else some t)
unfolding next
next-encode c t bytes pos accepted =
    let reads = Reads-encode c t bytes accepted in
    let lead : (byte (encode c ++ t) 0 == 0) ≡ false = ground (arith, encode_lead c t pos) in
    rw (next, lead, reads.wide, reads.valid, drop-append (encode c) t) refl
