-- ===== src/Utf8/Raw.antt =====
-- utf8/raw.c: strings as lists of bytes, up to the terminator. `grants` says whether `malloc`
-- gives a block. Null arguments, the log and the regular expressions are not modelled.
pub mod Text
pub mod Count
pub mod Apart
pub mod Order
use attica.Base.{
  ℕ, zero, suc, ◌+◌, ◌-◌, ◌≤◌, Bool, true, false, not, ◌&&◌, ◌||◌, Option, none, some, List, [],
  ◌∷◌, ◌++◌, ltb, leb, ◌==◌, if◌then◌else◌, length, take, drop, Run, ok, fault,
}
use attica.Utf8.Byte.{byte, width, is_equal, iterate}

pub record Validator : Type 0 where
  pub is_valid : Bool
  pub error_at : Option (List ℕ)

-- `utf8_raw_iter_is_valid`
abbrev pub iter_is_valid : List ℕ → Option ℕ → Validator → Option (Unit {0}) × Validator
iter_is_valid start none v = (some tt, record { is_valid = false; error_at = some start })
iter_is_valid start (some w) v = (none, record v { is_valid = true })

-- `utf8_raw_iter_count`
abbrev pub iter_count : List ℕ → Option ℕ → ℕ → Option (Unit {0}) × ℕ
iter_count start w value = (none, value + 1)

abbrev pub unseen : Validator
unseen = record { is_valid = false; error_at = none }

-- `utf8_raw_is_valid`
unfoldable pub is_valid : List ℕ → Bool
is_valid start = if byte start 0 == 0 then true else (iterate start iter_is_valid unseen).1.is_valid

-- The loop of `utf8_raw_byte_count`.
unfoldable pub count_bytes : List ℕ → ℕ
count_bytes [] = 0
count_bytes (b ∷ s) = let rest = count_bytes s in if b == 0 then 0 else suc rest

-- `utf8_raw_byte_count`
unfoldable pub byte_count : List ℕ → Option ℕ
byte_count start =
    if not (is_valid start)
    then none
    else if byte start 0 == 0
    then some 0
    else some (count_bytes start)

-- `utf8_raw_char_count`
unfoldable pub char_count : List ℕ → Option ℕ
char_count start =
    if not (is_valid start)
    then none
    else if byte start 0 == 0
    then some 0
    else let (stopped, value) = iterate start iter_count 0 in
      elim stopped [ none ↦ some value | some r ↦ none ]

-- `utf8_raw_copy`
unfoldable pub copy : (grants : Bool) → List ℕ → Option (List ℕ)
copy grants start = elim (byte_count start) [
  | none ↦ none
  | some n ↦ if grants then some (take n start) else none
]

-- `utf8_raw_copy_n`; a read past the terminator is a fault.
unfoldable pub copy_n : (grants : Bool) → List ℕ → ℕ → Run (Option (List ℕ))
copy_n grants start n =
    if not grants
    then ok none
    else if leb n (length start + 1)
    then ok (some (take n start))
    else fault

-- `utf8_raw_concat`
unfoldable pub concat : (grants : Bool) → (head tail : List ℕ) → Option (List ℕ)
concat grants head tail =
    if not (byte head 0 == 0) && not (is_valid head)
    then none
    else if not (byte tail 0 == 0) && not (is_valid tail)
    then none
    else elim (byte_count head) [
      | none ↦ none
      | some m ↦ elim (byte_count tail) [
        | none ↦ none
        | some n ↦ if grants then some (take m head ++ take n tail) else none
      ]
    ]

pub data RawCompare : Type 0 where
  compare_invalid : RawCompare
  compare_less : RawCompare
  compare_equal : RawCompare
  compare_greater : RawCompare

-- The loop of `utf8_raw_compare`, and the tests behind it.
unfoldable pub compare_bytes : (a b : List ℕ) → RawCompare
compare_bytes [] [] = compare_equal
compare_bytes [] (y ∷ b) = if y == 0 then compare_equal else compare_less
compare_bytes (x ∷ a) [] = if x == 0 then compare_equal else compare_greater
compare_bytes (x ∷ a) (y ∷ b) =
    let rest = compare_bytes a b in
    if (x == 0) || (y == 0)
    then if not (x == 0)
      then compare_greater
      else if not (y == 0)
      then compare_less
      else compare_equal
    else if ltb x y
    then compare_less
    else if ltb y x
    then compare_greater
    else rest

-- `utf8_raw_compare`
unfoldable pub compare : (a b : List ℕ) → RawCompare
compare a b =
    if not (is_valid a)
    then compare_invalid
    else if not (is_valid b)
    then compare_invalid
    else compare_bytes a b
