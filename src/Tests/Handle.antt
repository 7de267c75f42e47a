-- ===== src/Tests/Handle.antt =====
-- Runs of allocator/handle.c, and its theorems at an allocator that is filled by its loop.
use attica.Base.{
  ◌≡◌, ◌⊎◌, refl, arith, ℕ, false, fault, Returns, replicate, length-replicate, [], ◌∷◌,
}
use attica.Memory.{is_live}
use attica.Allocator.Handle.Slots.{Slots, Taken, init-Slots, handle_alloc-Taken}
use attica.Allocator.Handle.Stale.{Freed, handle_free-Freed, handle_free-twice}
use attica.Allocator.Handle.{
  max_objects, Handle, HandleAllocator, init, handle_alloc, is_valid, handle_free,
}
use attica.Tests.Memory.{two_blocks, program}

-- What the arrays hold before.
abbrev garbage : ℕ
garbage = 7

abbrev raw : HandleAllocator
raw = record {
  objects = 0;
  size = 0;
  alignment = 0;
  freelist_count = 0;
  freelist = replicate max_objects garbage;
  generations = replicate max_objects garbage;
}

handle_alloc-Taken_example :
    let (h, a) = handle_alloc (init raw 24 8 two_blocks).0 in
    Taken (init raw 24 8 two_blocks).0 a h
    ⊎ (((init raw 24 8 two_blocks).0.freelist_count ≡ 0)
        × (a ≡ (init raw 24 8 two_blocks).0)
        × (is_valid a h ≡ false))
handle_alloc-Taken_example =
    handle_alloc-Taken (init raw 24 8 two_blocks).0
      (init-Slots raw 24 8 two_blocks (length-replicate max_objects garbage)
        (length-replicate max_objects garbage)).0

-- Two handles are out, for the slots 0 and 1.
abbrev out : HandleAllocator
out = record {
  objects = 1024;
  size = 24;
  alignment = 8;
  freelist_count = 2;
  freelist = 3 ∷ 2 ∷ replicate 1022 0;
  generations = 1 ∷ 1 ∷ 1 ∷ 1 ∷ replicate 1020 1;
}

abbrev zeroth : Handle
zeroth = record { index = 0; generation = 1 }

abbrev first : Handle
first = record { index = 1; generation = 1 }

out-Slots : Slots out
out-Slots = record {
  listed = refl;
  versioned = refl;
  counted = omega arith;
  bounded = λ i h. ground arith;
  distinct = λ i j h k e. ground arith;
}

handle_free-Freed_example :
    Returns
      (handle_free out zeroth two_blocks)
      λ r. Freed out r.0 zeroth × (r.1 ≡ record { supply = 4096 ∷ 8192 ∷ []; live = [] })
handle_free-Freed_example =
    handle_free-Freed out zeroth two_blocks (record { supply = 4096 ∷ 8192 ∷ []; live = [] })
      out-Slots (unfold is_valid in refl) (omega arith) (omega arith) (unfold program in refl)

handle_free-twice_example :
    Returns
      (handle_free out zeroth two_blocks)
      λ r. (is_live 1024 r.1.live ≡ false) × (handle_free r.0 first r.1 ≡ fault)
handle_free-twice_example =
    handle_free-twice out first zeroth two_blocks (unfold is_valid in refl)
      (unfold is_valid in refl) (omega arith) (omega arith) (omega arith) (unfold program in refl)
      (unfold program in refl)
