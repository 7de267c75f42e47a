-- ===== src/Tests/Sort.antt =====
-- Runs of sort/heap.c.
use attica.Base.{◌≡◌, refl, ℕ, List, [], ◌∷◌}
use attica.Sort.Heap.Swap.{IsPermutation}
use attica.Sort.Heap.Sorted.{IsSorted, heap_sort-IsSorted}
use attica.Sort.Heap.{swap, largest, heapify, build, extract, heap_sort}

abbrev shuffled : List ℕ
shuffled = 5 ∷ 3 ∷ 9 ∷ 1 ∷ 5 ∷ 8 ∷ 2 ∷ []

heap_sort_runs : heap_sort shuffled ≡ 1 ∷ 2 ∷ 3 ∷ 5 ∷ 5 ∷ 8 ∷ 9 ∷ []
unfolding swap largest heapify build extract heap_sort
heap_sort_runs = refl

heap_sort-IsSorted_example :
    IsSorted (heap_sort shuffled) × IsPermutation (heap_sort shuffled) shuffled
heap_sort-IsSorted_example = heap_sort-IsSorted shuffled
