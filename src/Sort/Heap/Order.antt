-- ===== src/Sort/Heap/Order.antt =====
-- sort/heap.c: heaps, and `heapify` on a heap that is broken at one index.
use attica.Base.{
  ℕ, zero, suc, ◌+◌, ◌*◌, ◌<◌, ◌≤◌, ◌≡◌, ◌≢◌, ◌⊎◌, inl, inr, ◌∙◌, refl, ap, arith, List, ◌==◌,
  Bool-cases, true, false, length,
}
use attica.Sort.Heap.{at, swap, largest, heapify}
use attica.Sort.Heap.Swap.{
  IsPermutation, length-swap, swap_first, swap_second, swap_other, swap-IsPermutation,
}

abbrev pub IsChild : (k j : ℕ) → Type 0
IsChild k j = (k ≡ 2 * j + 1) ⊎ (k ≡ 2 * j + 2)

-- The elements of the first `n` are not above their parents, from the index `lo` on.
abbrev pub IsHeap : (lo n : ℕ) → List ℕ → Type 0
IsHeap lo n array = (j k : ℕ) → lo ≤ j → k < n → IsChild k j → at array k ≤ at array j

-- The same but for the children of `i`, which are not above its parent.
pub record IsBroken (lo n i : ℕ) (array : List ℕ) : Type 0 where
  pub elsewhere : (j k : ℕ) → lo ≤ j → j ≢ i → k < n → IsChild k j → at array k ≤ at array j
  pub across : (j k : ℕ) → lo ≤ j → k < n → IsChild i j → IsChild k i → at array k ≤ at array j

-- What `largest` chooses.
record Chosen (array : List ℕ) (n i l : ℕ) : Type 0 where
  choice : (l ≡ i) ⊎ (IsChild l i × (l < n) × (at array i < at array l))
  greatest : (k : ℕ) → k < n → IsChild k i → at array k ≤ at array l

largest-Chosen : (array : List ℕ) (n i : ℕ) → Chosen array n i (largest array n i)
unfolding largest
largest-Chosen array n i = record { choice = ground arith; greatest = λ k h c. ground arith }

-- A step down the tree: the exchange with the greatest child moves the break to where the child was.
swap-IsBroken :
    (lo n i l : ℕ) (array : List ℕ)
    → n ≤ length array
    → i < n
    → lo ≤ i
    → IsBroken lo n i array
    → IsChild l i
    → l < n
    → at array i < at array l
    → ((k : ℕ) → k < n → IsChild k i → at array k ≤ at array l)
    → IsBroken lo n l (swap array i l)
swap-IsBroken lo n i l array fits low above broken child high less top =
    let now = at (swap array i l) in
    let first = swap_first array i l (omega arith) (omega arith) in
    let second = swap_second array i l (omega arith) (omega arith) in
    let other = swap_other array i l (omega arith) (omega arith) in
    record {
      elsewhere = λ j k h q r c. elim (Bool-cases (j == i)) [
        | inl here ↦
            let e : j ≡ i = ground arith in
            elim (Bool-cases (k == l)) [
              | inl there ↦
                  let f : k ≡ l = ground arith in omega (arith, ap now e, ap now f, first, second)
              | inr off ↦ omega (
                arith,
                ap now e,
                first,
                other k (λ f. omega arith) (λ f. ground arith),
                top k r (ground arith),
              )
            ]
        | inr away ↦ elim (Bool-cases (k == i)) [
          | inl up ↦
              let f : k ≡ i = ground arith in
              omega (
                arith,
                ap now f,
                first,
                other j (λ g. ground arith) q,
                broken.across j l h high (ground arith) child,
              )
          | inr off ↦ omega (
            arith,
            other k (λ g. ground arith) (λ g. ground arith),
            other j (λ g. ground arith) q,
            broken.elsewhere j k h (λ g. ground arith) r c,
          )
        ]
      ];
      across = λ j k h r c d.
          let up : j ≡ i = ground arith in
          omega (
            arith,
            ap now up,
            first,
            other k (λ g. ground arith) (λ g. ground arith),
            broken.elsewhere l k (omega arith) (λ g. omega arith) r d,
          );
    }

-- What `heapify` promises of an array of which the first `n` elements are a heap from `lo` on, but for those below `i`.
pub record Mends (lo n : ℕ) (array after : List ℕ) : Type 0 where
  pub heap : IsHeap lo n after
  pub same_length : length after ≡ length array
  pub elements : IsPermutation after array
  pub outside : (k : ℕ) → n ≤ k → at after k ≡ at array k
  pub bounded : (b : ℕ) → ((k : ℕ) → k < n → at array k ≤ b) → (k : ℕ) → k < n → at after k ≤ b

whole :
    (lo n i : ℕ) (array : List ℕ)
    → IsBroken lo n i array
    → ((k : ℕ) → k < n → IsChild k i → at array k ≤ at array i)
    → Mends lo n array array
whole lo n i array broken top = record {
  heap = λ j k h r c. elim (Bool-cases (j == i)) [
    | inl here ↦
        let e : j ≡ i = ground arith in omega (arith, ap (at array) e, top k r (ground arith))
    | inr away ↦ broken.elsewhere j k h (λ g. ground arith) r c
  ];
  same_length = refl;
  elements = λ x. refl;
  outside = λ k h. refl;
  bounded = λ b h. h;
}

swap_bounded :
    (n i l b : ℕ) (array : List ℕ)
    → i < n
    → l < n
    → n ≤ length array
    → ((k : ℕ) → k < n → at array k ≤ b)
    → (k : ℕ) → k < n
    → at (swap array i l) k ≤ b
swap_bounded n i l b array low high fits h k r = elim (Bool-cases (k == l)) [
  | inl here ↦
      let e : k ≡ l = ground arith in
      omega (
        arith,
        ap (at (swap array i l)) e,
        swap_second array i l (omega arith) (omega arith),
        h i low,
      )
  | inr off ↦ elim (Bool-cases (k == i)) [
    | inl here ↦
        let e : k ≡ i = ground arith in
        omega (
          arith,
          ap (at (swap array i l)) e,
          swap_first array i l (omega arith) (omega arith),
          h l high,
        )
    | inr away ↦ omega (
      arith,
      swap_other array i l (omega arith) (omega arith) k (λ g. ground arith) (λ g. ground arith),
      h k r,
    )
  ]
]

-- From an array that is broken at `i` only, `heapify` makes a heap of the same elements: as many rounds as lie between
-- `i` and `n` are enough, and nothing from `n` on changes.
pub heapify-Mends :
    (rounds lo n i : ℕ) (array : List ℕ)
    → n ≤ length array
    → lo ≤ i
    → n ≤ i + rounds
    → IsBroken lo n i array
    → Mends lo n array (heapify rounds array n i)
unfolding heapify
heapify-Mends zero lo n i array fits above enough broken =
    whole lo n i array broken (λ k h c. absurd (ground arith))
heapify-Mends (suc rounds) lo n i array fits above enough broken =
    let l = largest array n i in
    let chosen = largest-Chosen array n i in
    elim chosen.choice [
      | inl stays ↦
          let here : (l == i) ≡ true = ground arith in
          rw (heapify, here)
            (whole lo n i array broken
              (λ k h c. omega (arith, chosen.greatest k h c, ap (at array) stays)))
      | inr (child, high, less) ↦
          let away : (l == i) ≡ false = ground arith in
          let next = swap array i l in
          let low : i < n = ground arith in
          let size = length-swap array i l in
          let broken' =
            swap-IsBroken lo n i l array fits low above broken child high less chosen.greatest in
          let deeper =
            heapify-Mends rounds lo n l next (omega arith) (ground arith) (ground arith) broken' in
          let first = swap_first array i l (omega arith) (omega arith) in
          rw (heapify, away)
            record {
              heap = deeper.heap;
              same_length = deeper.same_length ∙ size;
              elements = λ x.
                  deeper.elements x ∙ swap-IsPermutation array i l (omega arith) (omega arith) x;
              outside = λ k h.
                  deeper.outside k h
                  ∙ swap_other array i l (omega arith) (omega arith) k (λ g. omega arith)
                      (λ g. omega arith);
              bounded = λ b h. deeper.bounded b (swap_bounded n i l b array low high fits h);
            }
    ]
