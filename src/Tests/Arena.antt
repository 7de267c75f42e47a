-- ===== src/Tests/Arena.antt =====
-- Runs of allocator/arena.c, and its theorems at an arena of 64 bytes.
use attica.Base.Bits.{IsPowerOfTwo}
use attica.Base.{ℕ, ◌+◌, ◌<◌, ◌≡◌, ◌≢◌, ◌⊎◌, refl, arith, Ptr, null, ok, Returns, List, [], ◌∷◌}
use attica.Memory.Align.{IsRoundUp}
use attica.Allocator.Arena.Alloc.{IsValid, Cuts, arena_alloc-Cuts}
use attica.Allocator.Arena.Trace.{alloc_all, AllSmall, Grows, alloc_all-Grows}
use attica.Allocator.Arena.{Arena, arena_alloc, create}
use attica.Tests.Memory.{program, two_blocks}

abbrev arena : Arena
arena = record { buffer = 1000; capacity = 64; offset = 4; last_offset = 0 }

arena_alloc_runs : arena_alloc 8 16 arena ≡ ok (1008, record arena { offset = 16 })
unfolding program arena_alloc
arena_alloc_runs = refl

arena_alloc_full : arena_alloc 64 16 arena ≡ ok (null, arena)
unfolding program arena_alloc
arena_alloc_full = refl

create_runs :
    create 64 two_blocks
    ≡ ok (
      4096,
      record { buffer = 8192; capacity = 64; offset = 0; last_offset = 0 },
      record { supply = []; live = 8192 ∷ 4096 ∷ 1024 ∷ [] },
    )
unfolding program create
create_runs = refl

arena-IsValid : IsValid arena
arena-IsValid = record { buffer = omega arith; fits = omega arith; within = omega arith }

sixteen : IsPowerOfTwo 16
sixteen = (4, refl)

arena_alloc-Cuts_example : Returns (arena_alloc 8 16 arena) λ r.
    (Cuts 8 16 arena r.1 r.0 × IsValid r.1 × (r.0 ≢ null))
    ⊎ ((r ≡ (null, arena)) × ((p : Ptr) → IsRoundUp 1004 16 p → 1064 < p + 8))
arena_alloc-Cuts_example = arena_alloc-Cuts arena-IsValid sixteen (omega arith) 8 (omega arith)

abbrev requests : List (ℕ × ℕ)
requests = (8, 16) ∷ (100, 8) ∷ (1, 1) ∷ []

requests-AllSmall : AllSmall 64 requests
requests-AllSmall = (sixteen, omega arith, ((3, refl), omega arith, ((0, refl), omega arith, tt)))

alloc_all-Grows_example : Returns (alloc_all requests arena) (λ r. Grows arena r.1 r.0)
alloc_all-Grows_example = alloc_all-Grows requests arena-IsValid requests-AllSmall
