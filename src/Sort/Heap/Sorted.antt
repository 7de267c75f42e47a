-- ===== src/Sort/Heap/Sorted.antt =====
-- sort/heap.c: the two loops of `heap_sort`, and sorted arrays.
use attica.Base.{
  ℕ, zero, suc, ◌-◌, ◌/◌, ◌<◌, ◌≤◌, ◌≡◌, ◌≢◌, inl, inr, ◌∙◌, refl, ap, arith, List, ltb, ◌==◌,
  Bool-cases, length,
}
use native.Mathlib.Decide.{dec_le}
use attica.Sort.Heap.{at, swap, heapify, build, extract, heap_sort}
use attica.Sort.Heap.Swap.{
  IsPermutation, length-swap, swap_first, swap_second, swap_other, swap-IsPermutation,
}
use attica.Sort.Heap.Order.{IsHeap, IsBroken, Mends, heapify-Mends}

-- The root of a heap is its greatest element.
root_greatest :
    (limit n k : ℕ) (array : List ℕ)
    → k ≤ limit
    → IsHeap 0 n array
    → k < n
    → at array k ≤ at array 0
root_greatest limit n zero array le heap h = omega arith
root_greatest zero n (suc k) array le heap h = absurd (omega arith)
root_greatest (suc limit) n (suc k) array le heap h = omega (
  arith,
  heap (k / 2) (suc k) (omega arith) h (ground arith),
  root_greatest limit n (k / 2) array (omega arith) heap (omega arith),
)

build-Mends :
    (i : ℕ) (array : List ℕ)
    → IsHeap i (length array) array
    → IsHeap 0 (length array) (build i array)
      × (length (build i array) ≡ length array)
      × IsPermutation (build i array) array
unfolding build
build-Mends zero array heap = (heap, refl, λ x. refl)
build-Mends (suc i) array heap =
    let n = length array in
    let broken : IsBroken i n i array = record {
      elsewhere = λ j k h q r c. heap j k (omega arith) r c;
      across = λ j k h r c d. absurd (ground arith);
    } in
    let mended = heapify-Mends n i n i array (omega arith) (omega arith) (omega arith) broken in
    let next = heapify n array n i in
    let same = mended.same_length in
    let (heap', size, elements) =
      build-Mends i next (λ j k h r c. mended.heap j k h (omega arith) c) in
    (λ j k h r c. heap' j k h (omega arith) c, size ∙ same, λ x. elements x ∙ mended.elements x)

-- The array while elements are extracted: the first ones, up to `i`, are a heap, and the rest is sorted and not below them.
record Extracting (i : ℕ) (array : List ℕ) : Type 0 where
  heap : IsHeap 0 (suc i) array
  tail : (j k : ℕ) → i < j → j ≤ k → k < length array → at array j ≤ at array k
  cap : (j k : ℕ) → j ≤ i → i < k → k < length array → at array j ≤ at array k

-- The greatest element goes to the end of the heap.
module _ (i : ℕ) (array : List ℕ) (high : suc i < length array)
    (now : Extracting (suc i) array) where
  abbrev moved : List ℕ
  moved = swap array 0 (suc i)

  moved_end : at moved (suc i) ≡ at array 0
  moved_end = swap_second array 0 (suc i) (omega arith) high

  moved_root : at moved 0 ≡ at array (suc i)
  moved_root = swap_first array 0 (suc i) (omega arith) high

  moved_other : (k : ℕ) → 0 < k → k ≢ suc i → at moved k ≡ at array k
  moved_other k pos off = swap_other array 0 (suc i) (omega arith) high k (λ e. omega arith) off

  moved-IsBroken : IsBroken 0 (suc i) 0 moved
  moved-IsBroken = record {
    elsewhere = λ j k h q r c. omega (
      arith,
      moved_other j (omega arith) (λ e. ground arith),
      moved_other k (ground arith) (λ e. omega arith),
      now.heap j k h (omega arith) c,
    );
    across = λ j k h r c d. absurd (ground arith);
  }

  below_root : (m : ℕ) → m < suc i → at moved m ≤ at array 0
  below_root m h = elim (dec_le m 0) [
    | yes root ↦
        let e : m ≡ 0 = omega arith in
        omega (
          arith,
          ap (at moved) e,
          moved_root,
          root_greatest (suc i) (suc (suc i)) (suc i) array (omega arith) now.heap (omega arith),
        )
    | no off ↦ omega (
      arith,
      moved_other m (omega arith) (λ e. omega arith),
      root_greatest m (suc (suc i)) m array (omega arith) now.heap (omega arith),
    )
  ]

  -- What lies behind the heap is not below what is left of it.
  moved_cap : (m k : ℕ) → m < suc i → i < k → k < length array → at moved m ≤ at moved k
  moved_cap m k h r s = elim (Bool-cases (k == suc i)) [
    | inl here ↦
        let e : k ≡ suc i = ground arith in
        omega (arith, ap (at moved) e, moved_end, below_root m h)
    | inr off ↦
        let far : suc i < k = ground arith in
        omega (
          arith,
          below_root m h,
          moved_other k (omega arith) (λ e. omega arith),
          now.cap 0 k (omega arith) far s,
        )
  ]

  moved_tail : (j k : ℕ) → i < j → j ≤ k → k < length array → at moved j ≤ at moved k
  moved_tail j k h r s = elim (Bool-cases (j == suc i)) [
    | inl here ↦
        let e : j ≡ suc i = ground arith in
        elim (Bool-cases (k == suc i)) [
          | inl there ↦
              let f : k ≡ suc i = ground arith in omega (arith, ap (at moved) e, ap (at moved) f)
          | inr off ↦
              let far : suc i < k = ground arith in
              omega (
                arith,
                ap (at moved) e,
                moved_end,
                moved_other k (omega arith) (λ g. omega arith),
                now.cap 0 k (omega arith) far s,
              )
        ]
    | inr off ↦
        let far : suc i < j = ground arith in
        omega (
          arith,
          moved_other j (omega arith) (λ g. omega arith),
          moved_other k (omega arith) (λ g. omega arith),
          now.tail j k far r s,
        )
  ]

  abbrev mended : List ℕ
  mended = heapify (length array) moved (suc i) 0

  mended-Mends : Mends 0 (suc i) moved mended
  mended-Mends =
      heapify-Mends (length array) 0 (suc i) 0 moved (omega (arith, length-swap array 0 (suc i)))
        (omega arith) (omega arith) moved-IsBroken

  length-mended : length mended ≡ length array
  length-mended = mended-Mends.same_length ∙ length-swap array 0 (suc i)

  mended-Extracting : Extracting i mended
  mended-Extracting = record {
    heap = mended-Mends.heap;
    tail = λ j k h r s. omega (
      arith,
      mended-Mends.outside j (omega arith),
      mended-Mends.outside k (omega arith),
      moved_tail j k h r (omega (arith, length-mended)),
    );
    cap = λ j k h r s. omega (
      arith,
      mended-Mends.outside k (omega arith),
      mended-Mends.bounded (at moved k) (λ m q. moved_cap m k q r (omega (arith, length-mended))) j
          (omega arith),
    );
  }

  mended-IsPermutation : IsPermutation mended array
  mended-IsPermutation x =
      mended-Mends.elements x ∙ swap-IsPermutation array 0 (suc i) (omega arith) high x

abbrev pub IsSorted : List ℕ → Type 0
IsSorted array = (j k : ℕ) → j ≤ k → k < length array → at array j ≤ at array k

extract-IsSorted :
    (i : ℕ) (array : List ℕ)
    → i < length array
    → Extracting i array
    → IsSorted (extract i array) × IsPermutation (extract i array) array
unfolding extract
extract-IsSorted zero array low now = (
  λ j k h r. elim (dec_le j 0) [
    | yes root ↦ elim (dec_le k 0) [
      | yes same ↦ let e : j ≡ k = omega arith in omega (arith, ap (at array) e)
      | no more ↦ now.cap j k root (omega arith) r
    ]
    | no more ↦ now.tail j k (omega arith) h r
  ],
  λ x. refl,
)
extract-IsSorted (suc i) array low now =
    let next = mended i array low now in
    let (sorted, elements) =
      extract-IsSorted i next (omega (arith, length-mended i array low now))
        (mended-Extracting i array low now) in
    (sorted, λ x. elements x ∙ mended-IsPermutation i array low now x)

-- `heap_sort` leaves an array of the same elements, each as often, in an order in which none is above a later one.
pub heap_sort-IsSorted :
    (array : List ℕ) → IsSorted (heap_sort array) × IsPermutation (heap_sort array) array
unfolding heap_sort
heap_sort-IsSorted array = elim (Bool-cases (ltb (length array) 2)) [
  | inl short ↦
      rw (heap_sort, short)
        (λ j k h r. let e : j ≡ k = ground arith in omega (arith, ap (at array) e), λ x. refl)
  | inr long ↦
      let n = length array in
      let (heap, size, elements) = build-Mends (n / 2) array (λ j k h r c. absurd (ground arith)) in
      let built = build (n / 2) array in
      let two : 1 < n = ground arith in
      let start : Extracting (n - 1) built = record {
        heap = λ j k h r c. heap j k h (omega arith) c;
        tail = λ j k h r s. absurd (omega arith);
        cap = λ j k h r s. absurd (omega arith);
      } in
      let (sorted, same) = extract-IsSorted (n - 1) built (omega arith) start in
      rw (heap_sort, long) (sorted, λ x. same x ∙ elements x)
]
