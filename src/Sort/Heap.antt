-- ===== src/Sort/Heap.antt =====
-- sort/heap.c: heap sort. An `int` is given by its value plus 2^31, which keeps the order. The
-- recursion of `heapify` goes down the tree, so as many rounds as the array has elements are enough.
pub mod Swap
pub mod Order
pub mod Sorted
use attica.Base.{
  ℕ, zero, suc, ◌+◌, ◌-◌, ◌*◌, ◌/◌, ◌&&◌, List, ltb, ◌==◌, if◌then◌else◌, get_or, set, length,
}

abbrev pub at : List ℕ → ℕ → ℕ
at array i = get_or array i 0

-- `swap`, of two elements of an array
unfoldable pub swap : List ℕ → (i j : ℕ) → List ℕ
swap array i j = set (set array i (at array j)) j (at array i)

-- The choice of `largest` in `heapify`.
unfoldable pub largest : List ℕ → (n i : ℕ) → ℕ
largest array n i =
    let left = 2 * i + 1 in
    let right = 2 * i + 2 in
    let first = if ltb left n && ltb (at array i) (at array left) then left else i in
    if ltb right n && ltb (at array first) (at array right) then right else first

-- `heapify`
unfoldable pub heapify : (rounds : ℕ) → List ℕ → (n i : ℕ) → List ℕ
heapify zero array n i = array
heapify (suc rounds) array n i =
    let l = largest array n i in
    let deeper = heapify rounds (swap array i l) n l in if l == i then array else deeper

-- "Build max heap", for the indices below `i`
unfoldable pub build : (i : ℕ) → List ℕ → List ℕ
build zero array = array
build (suc i) array = build i (heapify (length array) array (length array) i)

-- "Extract elements one by one from the heap", for the indices from `i` down to 1
unfoldable pub extract : (i : ℕ) → List ℕ → List ℕ
extract zero array = array
extract (suc i) array = extract i (heapify (length array) (swap array 0 (suc i)) (suc i) 0)

-- `heap_sort`
unfoldable pub heap_sort : List ℕ → List ℕ
unfolding build extract
heap_sort array =
    if ltb (length array) 2
    then array
    else extract (length array - 1) (build (length array / 2) array)
