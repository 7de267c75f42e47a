-- ===== src/Tests/Stack.antt =====
-- Runs of allocator/stack.c, and its theorems at a stack of 64 bytes with one block.
use attica.Base.Bits.{IsPowerOfTwo}
use attica.Base.{◌≡◌, ◌≢◌, ◌⊎◌, refl, arith, null, ok, Returns, [], ◌∷◌}
use attica.Allocator.Stack.Shape.{saved}
use attica.Allocator.Stack.Order.{IsValid, frames, pop-push}
use attica.Allocator.Stack.{Stack, push, pop, top}
use attica.Tests.Memory.{program}

abbrev stack : Stack
stack = record {
  buffer = 1000;
  capacity = 64;
  offset = 5;
  last_offset = 0 ∷ [];
  num_allocs = 1;
  max_allocs = 1;
}

-- The array of offsets grows, and the new cell that is not written stays indeterminate.
push_runs :
    push 77 8 16 stack
    ≡ ok (
      1008,
      record stack { offset = 16; last_offset = 0 ∷ 5 ∷ []; num_allocs = 2; max_allocs = 2 },
    )
unfolding program push
push_runs = refl

pop_runs : pop 77 stack ≡ record stack { offset = 0; num_allocs = 0 }
unfolding program pop
pop_runs = refl

top_runs : top 77 stack ≡ 0
unfolding top
top_runs = refl

stack-IsValid : IsValid stack
unfolding saved
stack-IsValid = record {
  shaped = record { cells = refl; in_use = omega arith; modest = omega arith };
  buffer = omega arith;
  fits = omega arith;
  within = omega arith;
  rises = (omega arith, omega arith);
}

sixteen : IsPowerOfTwo 16
sixteen = (4, refl)

pop-push_example : Returns (push 77 8 16 stack) λ r.
    (r ≡ (null, stack))
    ⊎ ((r.0 ≢ null) × (frames (pop 77 r.1) ≡ frames stack) × IsValid (pop 77 r.1))
pop-push_example = pop-push 77 stack-IsValid (omega arith) sixteen (omega arith) 8 (omega arith)
