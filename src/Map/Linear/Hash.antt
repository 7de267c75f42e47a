-- ===== src/Map/Linear/Hash.antt =====
-- The hash and compare functions of map/linear.c, one pair for each `HashMapKeyType`. A key is an
-- address; what stands at the address of an integer or of a string is a parameter.
use attica.Base.{
  ℕ, ◌-◌, ◌+◌, ◌*◌, ◌%◌, ◌^◌, ◌≡◌, ◌↔◌, refl, Bool, true, false, ◌&&◌, arith, word, List, [], ◌∷◌,
  ◌==◌, ltb, Ptr, sym, ◌∙◌, if◌then◌else◌, ==_iff, ap,
}
use attica.Map.Linear.{KeyType}
use attica.Map.Linear.Search.{IsKeyType}

-- Knuth's multiplier, `2654435761U`
abbrev pub multiplier : ℕ
multiplier = 2654435761

-- `hash_address`: the product is one of 64-bit words.
unfoldable pub hash_address : Ptr → ℕ
hash_address addr = (addr * multiplier) % word

-- `hash_address_compare` is 0
unfoldable pub address_same : Ptr → Ptr → Bool
address_same a b = a == b

-- `hash_integer`, of the bits of an `int32_t`: the multiplier is an `unsigned int`, so the product
-- is one of 32-bit words.
unfoldable pub hash_integer : ℕ → ℕ
hash_integer k = (k * multiplier) % 2 ^ 32

-- A `char` as it is added to a 64-bit word: the signed byte is extended.
unfoldable pub char_word : ℕ → ℕ
char_word c = if ltb c 128 then c else word - 256 + c

-- The loop of `hash_djb2` from a hash on.
unfoldable pub djb2_loop : ℕ → List ℕ → ℕ
unfolding char_word
djb2_loop hash [] = hash
djb2_loop hash (c ∷ cs) = djb2_loop (((hash * 2 ^ 5) % word + hash + char_word c) % word) cs

-- `hash_djb2` of the bytes before the terminator
unfoldable pub hash_djb2 : List ℕ → ℕ
unfolding djb2_loop
hash_djb2 = djb2_loop 5381

-- `strcmp` is 0
unfoldable pub string_same : List ℕ → List ℕ → Bool
string_same [] [] = true
string_same [] (y ∷ ys) = false
string_same (x ∷ xs) [] = false
string_same (x ∷ xs) (y ∷ ys) = (x == y) && string_same xs ys

-- The function pointers that `hash_map_create` sets for each type of key.
unfoldable pub address_type : KeyType
unfolding hash_address address_same
address_type = record { hash = hash_address; same = address_same }

unfoldable pub integer_type : (Ptr → ℕ) → KeyType
unfolding hash_integer
integer_type read = record { hash = λ p. hash_integer (read p); same = λ p q. read p == read q }

unfoldable pub string_type : (Ptr → List ℕ) → KeyType
unfolding hash_djb2 string_same
string_type read = record {
  hash = λ p. hash_djb2 (read p);
  same = λ p q. string_same (read p) (read q);
}

string_same_iff : (xs ys : List ℕ) → (string_same xs ys ≡ true) ↔ (xs ≡ ys)
unfolding string_same
string_same_iff [] [] = (λ _. refl, λ _. refl)
string_same_iff [] (y ∷ ys) = (λ h. cc h, λ h. cc h)
string_same_iff (x ∷ xs) [] = (λ h. cc h, λ h. cc h)
string_same_iff (x ∷ xs) (y ∷ ys) =
    let (to, from) = string_same_iff xs ys in (λ h. ground (arith, to), λ h. ground (arith, from))

Bool_eq : {a b : Bool} → (a ≡ true → b ≡ true) → (b ≡ true → a ≡ true) → a ≡ b
Bool_eq {a} {b} f g = ground (arith, f, g)

-- A hash and a comparison that come from the equality of what is read from the keys.
from_equality :
    {A : Type 0} (read : Ptr → A) (hash : A → ℕ) (equal : A → A → Bool)
    → ((x y : A) → (equal x y ≡ true) ↔ (x ≡ y))
    → IsKeyType (record { hash = λ p. hash (read p); same = λ p q. equal (read p) (read q) })
from_equality read hash equal iff = record {
  same_refl = λ a. (iff (read a) (read a)).1 refl;
  same_symm = λ a b.
      Bool_eq (λ h. (iff (read b) (read a)).1 (sym ((iff (read a) (read b)).0 h)))
        (λ h. (iff (read a) (read b)).1 (sym ((iff (read b) (read a)).0 h)));
  same_trans = λ a b c h k.
      (iff (read a) (read c)).1 ((iff (read a) (read b)).0 h ∙ (iff (read b) (read c)).0 k);
  hash-same = λ a b h. ap hash ((iff (read a) (read b)).0 h);
}

-- For each of the three types the comparison is an equivalence that the hash respects, whatever
-- the keys point to.
pub key_types-IsKeyType :
    (integers : Ptr → ℕ) (strings : Ptr → List ℕ)
    → IsKeyType address_type × IsKeyType (integer_type integers) × IsKeyType (string_type strings)
unfolding address_type integer_type string_type
key_types-IsKeyType integers strings = (
  from_equality (λ p. p) hash_address address_same (λ x y. unfold address_same in ==_iff x y),
  from_equality integers hash_integer ◌==◌ ==_iff,
  from_equality strings hash_djb2 string_same string_same_iff,
)
