-- ===== src/Tests/Memory.antt =====
-- Runs of core/memory.c, and its theorems at an alignment of 16.
use attica.Base.Bits.{IsPowerOfTwo}
use attica.Base.{◌-◌, ◌^◌, ◌≡◌, refl, ok, fault, [], ◌∷◌}
use attica.Memory.{
  is_power_of_two, align_offset, is_aligned, align_up, align_down, padding_needed, align_unit_count,
  Host, posix_memalign, alloc, calloc, realloc, free, is_live, release, pointer_alignment, mem_free,
}

unfoldable pub program : Unit {0}
unfolding is_power_of_two align_offset is_aligned align_up align_down padding_needed
    align_unit_count posix_memalign alloc calloc realloc free is_live release pointer_alignment
    mem_free
program = tt

align_up_runs : align_up 13 8 ≡ ok 16
unfolding program
align_up_runs = refl

align_up_top : align_up (2 ^ 64 - 3) 8 ≡ ok (2 ^ 64 - 1)
unfolding program
align_up_top = refl

align_up_odd : align_up 13 6 ≡ fault
unfolding program
align_up_odd = refl

align_down_runs : align_down 29 8 ≡ ok 24
unfolding program
align_down_runs = refl

align_unit_count_runs : align_unit_count 13 16 8 ≡ ok 1
unfolding program
align_unit_count_runs = refl

abbrev pub two_blocks : Host
two_blocks = record { supply = 4096 ∷ 8192 ∷ []; live = 1024 ∷ [] }

realloc_runs :
    realloc 1024 64 16 two_blocks ≡ ok (4096, record { supply = 8192 ∷ []; live = 4096 ∷ [] })
unfolding program
realloc_runs = refl

free_twice : free 512 two_blocks ≡ fault
unfolding program
free_twice = refl

sixteen : IsPowerOfTwo 16
sixteen = (4, refl)
