-- ===== src/Tests/Pool.antt =====
-- Runs of allocator/pool.c, and its theorems at a pool of four blocks.
use attica.Base.{
  ◌⊎◌, ◌≤◌, ◌<◌, ◌+◌, fault, ◌-◌, ◌/◌, ◌≡◌, refl, true, false, arith, Ptr, null, Returns, List, [],
  ◌∷◌, length, some, inl,
}
use attica.Memory.{Host, release}
use attica.Allocator.Pool.Blocks.{blocks, create-Holds, link_blocks-Holds}
use attica.Allocator.Pool.Chain.{All, Chain, Holds}
use attica.Allocator.Pool.Lists.{Takes, push-Takes, pop-Holds, used-length}
use attica.Allocator.Pool.Misuse.{realloc-dangles}
use attica.Allocator.Pool.{
  Pool, link_blocks, create, pool_realloc, push, pop, owns, remaining, used,
}
use attica.Tests.Memory.{program}

abbrev host : Host
host = record { supply = 500 ∷ 1000 ∷ 2000 ∷ []; live = [] }

abbrev blank_pool : Pool
blank_pool = record {
  buffer = 1000;
  capacity = 64;
  block_size = 16;
  block_count = 4;
  head = null;
  cells = λ _. 0;
}

abbrev four : List Ptr
four = 1048 ∷ 1032 ∷ 1016 ∷ 1000 ∷ []

pool : Pool
unfolding link_blocks
pool = link_blocks 4 0 blank_pool

pool-Holds : Holds pool four
unfolding pool blocks
pool-Holds = link_blocks-Holds blank_pool refl (omega arith) (omega arith) (omega arith) refl

create-Holds_example : Returns (create (λ _. 0) 64 10 16 host) λ r.
    let (address, p, after) = r in
    let free = blocks 1000 16 4 0 [] in
    (address ≡ 500) × Holds p free × (length free ≡ p.block_count) × (p.buffer ≡ 1000)
create-Holds_example =
    create-Holds (λ _. 0) 64 10 16 host 500 1000 16
      (record { supply = 1000 ∷ 2000 ∷ []; live = 500 ∷ [] })
      (record { supply = 2000 ∷ []; live = 1000 ∷ 500 ∷ [] }) (unfold program in refl)
      (unfold program in refl) (omega arith) (omega arith) (omega arith) (unfold program in refl)
      (omega arith) (omega arith) refl

push-Takes_example : Takes pool four (push pool)
push-Takes_example = push-Takes pool four pool-Holds

abbrev three : List Ptr
three = 1032 ∷ 1016 ∷ 1000 ∷ []

pop-Holds_example :
    ((1048 - (push pool).1.buffer + 8 ≤ (push pool).1.capacity)
      × Returns
          (pop 1048 (push pool).1)
          (λ q. Holds q (1048 ∷ three) × ((push q).0 ≡ 1048) × Holds (push q).1 three))
    ⊎ (((push pool).1.capacity < 1048 - (push pool).1.buffer + 8)
        × (pop 1048 (push pool).1 ≡ fault))
pop-Holds_example =
    pop-Holds (push pool).1 three (push-Takes pool four pool-Holds).2 1048 (omega arith)
      (unfold program pool owns push in refl) (omega arith)

used-length_example : (remaining 5 pool ≡ some 4) × (used 5 pool ≡ some (pool.block_count - 4))
used-length_example =
    used-length pool four 5 pool-Holds (omega arith) (unfold pool in omega arith)
      (unfold pool in omega arith)

abbrev later : Host
later = record { supply = 3000 ∷ []; live = 1000 ∷ [] }

realloc-dangles_example : Returns (pool_realloc 96 pool later) λ r.
    let (done, q, freed) = r in
    (done ≡ true)
    × Chain q.cells q.head (
        blocks 3000 pool.block_size (96 / pool.block_size - pool.block_count) pool.block_count four)
    × All (λ x. owns q x ≡ false) four
    × (freed.live ≡ release pool.buffer (3000 ∷ 1000 ∷ []))
realloc-dangles_example =
    realloc-dangles pool four pool-Holds (unfold pool in omega arith) (unfold pool in omega arith)
      (unfold pool in omega arith) 96 later (record { supply = []; live = 3000 ∷ 1000 ∷ [] }) 3000
      (unfold pool in omega arith) (unfold program in refl) (omega arith) (omega arith)
      (unfold pool in inl (omega arith)) (unfold program pool in refl)
