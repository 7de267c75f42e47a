-- ===== src/Sort/Heap/Swap.antt =====
-- sort/heap.c: an exchange of two elements, and how often a number stands in an array.
use attica.Base.{
  ℕ, zero, suc, ◌+◌, ◌<◌, ◌≡◌, ◌≢◌, ◌∙◌, Bool-cases, inl, inr, sym, ap, arith, List, [], ◌∷◌, ◌==◌,
  if◌then◌else◌, length, set, length-set, get_or-set_self, get_or-set_ne,
}
use attica.Sort.Heap.{at, swap}

abbrev hit : (x y : ℕ) → ℕ
hit x y = if y == x then 1 else 0

-- How often a number stands in a list.
abbrev pub count : ℕ → List ℕ → ℕ
count x [] = 0
count x (y ∷ ys) = hit x y + count x ys

abbrev pub IsPermutation : List ℕ → List ℕ → Type 0
IsPermutation xs ys = (x : ℕ) → count x xs ≡ count x ys

pub length-swap : (array : List ℕ) (i j : ℕ) → length (swap array i j) ≡ length array
unfolding swap
length-swap array i j =
    length-set (set array i (at array j)) j (at array i) ∙ length-set array i (at array j)

count-set :
    (x : ℕ) (xs : List ℕ) (i v : ℕ)
    → i < length xs
    → count x (set xs i v) + hit x (at xs i) ≡ count x xs + hit x v
count-set x [] i v h = absurd (omega arith)
count-set x (y ∷ ys) zero v h = omega arith
count-set x (y ∷ ys) (suc i) v h = omega (arith, count-set x ys i v (omega arith))

module _ (array : List ℕ) (i j : ℕ) (low : i < length array) (high : j < length array) where
  fits : j < length (set array i (at array j))
  fits = omega (arith, length-set array i (at array j))

  pub swap_second : at (swap array i j) j ≡ at array i
  unfolding swap
  swap_second = get_or-set_self (set array i (at array j)) j (at array i) 0 fits

  pub swap_first : at (swap array i j) i ≡ at array j
  unfolding swap
  swap_first = elim (Bool-cases (i == j)) [
    | inl same ↦
        let e : i ≡ j = ground arith in ap (at (swap array i j)) e ∙ swap_second ∙ ap (at array) e
    | inr other ↦
        get_or-set_ne (set array i (at array j)) j i (at array i) 0 (λ e. ground arith)
        ∙ get_or-set_self array i (at array j) 0 low
  ]

  pub swap_other : (k : ℕ) → k ≢ i → k ≢ j → at (swap array i j) k ≡ at array k
  unfolding swap
  swap_other k p q =
      get_or-set_ne (set array i (at array j)) j k (at array i) 0 (λ e. q (sym e))
      ∙ get_or-set_ne array i k (at array j) 0 (λ e. p (sym e))

  pub swap-IsPermutation : IsPermutation (swap array i j) array
  unfolding swap
  swap-IsPermutation x =
      let once = count-set x array i (at array j) low in
      let twice = count-set x (set array i (at array j)) j (at array i) fits in
      let read : at (set array i (at array j)) j ≡ at array j = elim (Bool-cases (i == j)) [
        | inl same ↦
            let e : i ≡ j = ground arith in rw e (get_or-set_self array j (at array j) 0 high)
        | inr other ↦ get_or-set_ne array i j (at array j) 0 (λ e. ground arith)
      ] in
      let shift : hit x (at (set array i (at array j)) j) ≡ hit x (at array j) = ap (hit x) read in
      omega (arith, once, twice, shift)
