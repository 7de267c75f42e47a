-- ===== src/Tests/Utf8.antt =====
-- Runs of utf8/byte.c and utf8/raw.c, and their theorems at short strings.
use attica.Base.{
  ◌+◌, ◌≡◌, ◌⊎◌, ◌↔◌, refl, arith, ℕ, Bool, true, false, none, some, List, [], ◌∷◌, ◌++◌, length,
  inl,
}
use attica.Utf8.Byte.Ranges.{AllBytes}
use attica.Utf8.Byte.Encode.{encode, Reads}
use attica.Utf8.Byte.Code.{StartsWell, Reads-encode, valid-StartsWell}
use attica.Utf8.Byte.Walk.{prev-encode}
use attica.Utf8.Raw.Text.{IsString, IsText, encode_all, is_valid-IsText}
use attica.Utf8.Raw.Count.{Counts, count-IsText, concat-IsText}
use attica.Utf8.Raw.Order.{compare_points, compare-compare_points}
use attica.Utf8.Raw.{
  char_count, byte_count, copy, concat, compare, compare_invalid, compare_less, count_bytes,
  compare_bytes,
}
use attica.Utf8.Raw
use attica.Utf8.Byte.{
  lead_width, width, decode_width, decode, is_continuation, continuations, in_range, is_valid_width,
  is_valid, iterate_loop, iterate, next, prev, prev_loop, is_punct, classify,
}

string_program : Unit {0}
unfolding lead_width width decode_width decode is_continuation continuations in_range is_valid_width
    is_valid iterate_loop iterate next prev prev_loop is_punct classify Raw.is_valid char_count
    byte_count count_bytes copy concat compare compare_bytes encode
string_program = tt

-- "aé€😀"
abbrev text : List ℕ
text = 0x61 ∷ 0xc3 ∷ 0xa9 ∷ 0xe2 ∷ 0x82 ∷ 0xac ∷ 0xf0 ∷ 0x9f ∷ 0x98 ∷ 0x80 ∷ []

char_count_runs : char_count text ≡ some 4
unfolding string_program
char_count_runs = refl

-- A surrogate is refused, and the byte 0xF5 is not.
surrogate_runs : is_valid (0xed ∷ 0xa0 ∷ 0x80 ∷ []) ≡ false
unfolding string_program
surrogate_runs = refl

beyond_runs : decode (0xf5 ∷ 0x80 ∷ 0x80 ∷ 0x80 ∷ []) ≡ some 0x140000
unfolding string_program
beyond_runs = refl

prev_runs : prev text 6 ≡ some 3
unfolding string_program
prev_runs = refl

compare_runs : compare text (0x62 ∷ []) ≡ compare_less
unfolding string_program
compare_runs = refl

text-IsString : IsString text
text-IsString = (
  omega arith,
  omega arith,
  (
    omega arith,
    omega arith,
    (
      omega arith,
      omega arith,
      (
        omega arith,
        omega arith,
        (
          omega arith,
          omega arith,
          (
            omega arith,
            omega arith,
            (
              omega arith,
              omega arith,
              (
                omega arith,
                omega arith,
                (omega arith, omega arith, (omega arith, omega arith, tt)),
              ),
            ),
          ),
        ),
      ),
    ),
  ),
)

abbrev tail : List ℕ
tail = 0x41 ∷ []

tail-AllBytes : AllBytes tail
tail-AllBytes = (omega arith, tt)

Reads-encode_example : Reads (encode 0x20ac ++ tail) 0x20ac
Reads-encode_example = Reads-encode 0x20ac tail tail-AllBytes (inl (inl (omega arith)))

valid-StartsWell_example : (is_valid tail ≡ true) ↔ StartsWell tail
valid-StartsWell_example = valid-StartsWell tail tail-AllBytes (omega arith)

prev-encode_example :
    prev (tail ++ (encode 0x20ac ++ tail)) (length tail + length (encode 0x20ac))
    ≡ some (length tail)
prev-encode_example = prev-encode tail tail 0x20ac tail-AllBytes (inl (inl (omega arith)))

is_valid-IsText_example :
    (Raw.is_valid text ≡ true) ↔ ((cs : List ℕ) × IsText cs × (text ≡ encode_all cs))
is_valid-IsText_example = is_valid-IsText text text-IsString

count-IsText_example :
    ((cs : List ℕ) × Counts text cs)
    ⊎ ((Raw.is_valid text ≡ false)
        × (char_count text ≡ none)
        × (byte_count text ≡ none)
        × ((grants : Bool) → copy grants text ≡ none))
count-IsText_example = count-IsText text text-IsString

abbrev greeting : List ℕ
greeting = 0x48 ∷ 0xe9 ∷ []

greeting-IsText : IsText greeting
greeting-IsText = (omega arith, inl (inl (omega arith)), (omega arith, inl (inl (omega arith)), tt))

concat-IsText_example :
    (concat true (encode_all greeting) (encode_all greeting)
      ≡ some (encode_all (greeting ++ greeting)))
    × (char_count (encode_all (greeting ++ greeting)) ≡ some (length greeting + length greeting))
concat-IsText_example = concat-IsText greeting greeting greeting-IsText greeting-IsText

compare-compare_points_example :
    ((cs : List ℕ) × (ds : List ℕ) × (text ≡ encode_all cs)
      × (text ≡ encode_all ds)
      × (compare text text ≡ compare_points cs ds))
    ⊎ (((Raw.is_valid text ≡ false) ⊎ (Raw.is_valid text ≡ false))
        × (compare text text ≡ compare_invalid))
compare-compare_points_example = compare-compare_points text text text-IsString text-IsString
