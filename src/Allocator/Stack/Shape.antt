-- ===== src/Allocator/Stack/Shape.antt =====
-- The shape of the array of earlier offsets of allocator/stack.c, and what a push and a pop do to it.
use attica.Base.{
  ℕ, zero, suc, ◌+◌, ◌*◌, ◌/◌, ◌%◌, ◌^◌, ◌≤◌, ◌<◌, ◌≡◌, refl, arith, word, List, [], ◌∷◌, length,
  take, leb, Bool-cases, inl, inr, ap, if◌then◌else◌, ◌==◌,
}
use attica.Allocator.Stack.{Stack, resize_array, grow, shrink}

pub length-resize_array : (junk n : ℕ) (xs : List ℕ) → length (resize_array junk n xs) ≡ n
unfolding resize_array
length-resize_array junk zero xs = refl
length-resize_array junk (suc n) [] = ap suc (length-resize_array junk n [])
length-resize_array junk (suc n) (x ∷ xs) = ap suc (length-resize_array junk n xs)

-- The cells below the new length and the old one are kept.
pub take-resize_array :
    (junk n m : ℕ) (xs : List ℕ)
    → m ≤ n
    → m ≤ length xs
    → take m (resize_array junk n xs) ≡ take m xs
unfolding resize_array
take-resize_array junk n zero xs h k = refl
take-resize_array junk zero (suc m) xs h k = absurd (omega arith)
take-resize_array junk (suc n) (suc m) [] h k = absurd (omega arith)
take-resize_array junk (suc n) (suc m) (x ∷ xs) h k =
    ap (λ r. x ∷ r) (take-resize_array junk n m xs (omega arith) (omega arith))

-- The array has `max_allocs` cells, of which `num_allocs` are in use, and not many more.
pub record IsShaped (s : Stack) : Type 0 where
  pub cells : length s.last_offset ≡ s.max_allocs
  pub in_use : s.num_allocs ≤ s.max_allocs
  pub modest : s.max_allocs ≤ 4 * s.num_allocs + 7

-- The offsets in use.
unfoldable pub saved : Stack → List ℕ
saved s = take s.num_allocs s.last_offset

pub saved-grow :
    (junk : ℕ) (s : Stack) → IsShaped s → s.num_allocs < 2 ^ 60 → saved (grow junk s) ≡ saved s
unfolding saved grow
saved-grow junk s sh few = elim (Bool-cases (leb s.max_allocs s.num_allocs)) [
  | inl e ↦
      let n = if s.max_allocs == 0 then 1 else (s.max_allocs * 2) % word in
      let wide : s.num_allocs ≤ n = ground arith in
      rw e (take-resize_array junk n s.num_allocs s.last_offset wide (omega arith))
  | inr e ↦ rw e
]

-- `shrink` follows a pop, which may have left one cell more than `modest` allows.
pub shrink-IsShaped :
    (junk : ℕ) (s : Stack)
    → length s.last_offset ≡ s.max_allocs
    → s.num_allocs ≤ s.max_allocs
    → s.max_allocs ≤ 4 * s.num_allocs + 11
    → IsShaped (shrink junk s)
unfolding shrink
shrink-IsShaped junk s cells in_use near =
    ground (arith, length-resize_array junk (s.max_allocs / 2) s.last_offset)

pub saved-shrink :
    (junk : ℕ) (s : Stack)
    → length s.last_offset ≡ s.max_allocs
    → s.num_allocs ≤ s.max_allocs
    → saved (shrink junk s) ≡ saved s
unfolding saved shrink
saved-shrink junk s cells in_use =
    ground (arith, take-resize_array junk (s.max_allocs / 2) s.num_allocs s.last_offset)
