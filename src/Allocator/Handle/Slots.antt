-- ===== src/Allocator/Handle/Slots.antt =====
-- allocator/handle.c: the slots that `handle_allocator_init` lays out, and how `handle_alloc` takes them.
use attica.Base.{
  ℕ, zero, suc, ◌+◌, ◌-◌, ◌≤◌, ◌<◌, ◌≡◌, ◌≢◌, ◌∙◌, ◌⊎◌, inl, inr, refl, true, false, arith, ◌==◌,
  get_or, set, length, length-set, get_or-set_self, get_or-set_ne,
}
use native.Mathlib.Decide.{dec_le}
use attica.Memory.{Host, calloc}
use attica.Allocator.Handle.{
  max_objects, Handle, HandleAllocator, init_loop, init, handle_alloc, is_valid,
}

abbrev pub slot : HandleAllocator → ℕ → ℕ
slot a i = get_or a.freelist i 0

-- The entries of the free list below the count are slots, each listed once.
pub record Slots (a : HandleAllocator) : Type 0 where
  pub listed : length a.freelist ≡ max_objects
  pub versioned : length a.generations ≡ max_objects
  pub counted : a.freelist_count ≤ max_objects
  pub bounded : (i : ℕ) → i < a.freelist_count → slot a i < max_objects
  pub distinct :
      (i j : ℕ) → i < a.freelist_count → j < a.freelist_count → slot a i ≡ slot a j → i ≡ j

-- What `n` rounds of the loop from `i` leave.
record Filled (n i : ℕ) (a b : HandleAllocator) : Type 0 where
  listed : length b.freelist ≡ length a.freelist
  versioned : length b.generations ≡ length a.generations
  counted : b.freelist_count ≡ a.freelist_count
  slots : (j : ℕ) → i ≤ j → j < i + n → slot b j ≡ max_objects - 1 - j
  fresh : (j : ℕ) → i ≤ j → j < i + n → get_or b.generations j 0 ≡ 1
  before : (j : ℕ) → j < i → slot b j ≡ slot a j
  old : (j : ℕ) → j < i → get_or b.generations j 0 ≡ get_or a.generations j 0

init_loop-Filled :
    (n i : ℕ) (a : HandleAllocator)
    → length a.freelist ≡ max_objects
    → length a.generations ≡ max_objects
    → i + n ≤ max_objects
    → Filled n i a (init_loop n i a)
unfolding init_loop
init_loop-Filled zero i a p q le = record {
  listed = refl;
  versioned = refl;
  counted = refl;
  slots = λ j h k. absurd (omega arith);
  fresh = λ j h k. absurd (omega arith);
  before = λ j h. refl;
  old = λ j h. refl;
}
init_loop-Filled (suc n) i a p q le =
    let fl = set a.freelist i (max_objects - 1 - i) in
    let gs = set a.generations i 1 in
    let a' = record a { freelist = fl; generations = gs } in
    let fl-length = length-set a.freelist i (max_objects - 1 - i) in
    let gs-length = length-set a.generations i 1 in
    let rest = init_loop-Filled n (i + 1) a' (fl-length ∙ p) (gs-length ∙ q) (omega arith) in
    record {
      listed = rest.listed ∙ fl-length;
      versioned = rest.versioned ∙ gs-length;
      counted = rest.counted;
      slots = λ j h k. elim (dec_le j i) [
        | yes here ↦
            let same : j ≡ i = omega arith in
            rest.before j (omega arith)
            ∙ rw same (get_or-set_self a.freelist i (max_objects - 1 - i) 0 (omega arith))
        | no later ↦ rest.slots j (omega arith) (omega arith)
      ];
      fresh = λ j h k. elim (dec_le j i) [
        | yes here ↦
            let same : j ≡ i = omega arith in
            rest.old j (omega arith) ∙ rw same (get_or-set_self a.generations i 1 0 (omega arith))
        | no later ↦ rest.fresh j (omega arith) (omega arith)
      ];
      before = λ j h.
          rest.before j (omega arith)
          ∙ get_or-set_ne a.freelist i j (max_objects - 1 - i) 0 (λ e. omega arith);
      old =
          λ j h. rest.old j (omega arith) ∙ get_or-set_ne a.generations i j 1 0 (λ e. omega arith);
    }

-- `handle_allocator_init` lays out every slot once, and each slot is of generation 1.
pub init-Slots :
    (a : HandleAllocator) (size alignment : ℕ) (host : Host)
    → length a.freelist ≡ max_objects
    → length a.generations ≡ max_objects
    → let b = (init a size alignment host).0 in
      Slots b
      × (b.freelist_count ≡ max_objects)
      × ((i : ℕ) → i < max_objects → get_or b.generations i 0 ≡ 1)
unfolding init
init-Slots a size alignment host p q =
    let objects = (calloc max_objects size alignment host).0 in
    let a' = record a {
      objects = objects;
      size = size;
      alignment = alignment;
      freelist_count = max_objects;
    } in
    let filled = init_loop-Filled max_objects 0 a' p q (omega arith) in
    (
      record {
        listed = filled.listed ∙ p;
        versioned = filled.versioned ∙ q;
        counted = omega (arith, filled.counted);
        bounded = λ i h.
            omega
              (arith, filled.counted, filled.slots i (omega arith) (omega (arith, filled.counted)));
        distinct = λ i j h k e. omega (
          arith,
          filled.counted,
          filled.slots i (omega arith) (omega (arith, filled.counted)),
          filled.slots j (omega arith) (omega (arith, filled.counted)),
        );
      },
      filled.counted,
      λ i h. filled.fresh i (omega arith) (omega arith),
    )

-- What `handle_alloc` gives while slots are left: a valid handle, whose slot is no longer listed.
pub record Taken (a a' : HandleAllocator) (h : Handle) : Type 0 where
  pub valid : is_valid a' h ≡ true
  pub slots : Slots a'
  pub fewer : a'.freelist_count + 1 ≡ a.freelist_count
  pub gone : (i : ℕ) → i < a'.freelist_count → slot a' i ≢ h.index

pub handle_alloc-step :
    (a : HandleAllocator)
    → 0 < a.freelist_count
    → handle_alloc a ≡ (
      record {
        index = slot a (a.freelist_count - 1);
        generation = get_or a.generations (slot a (a.freelist_count - 1)) 0;
      },
      record a { freelist_count = a.freelist_count - 1 },
    )
unfolding handle_alloc
handle_alloc-step a pos = let more : (a.freelist_count == 0) ≡ false = ground arith in rw more refl

handle_alloc-end :
    (a : HandleAllocator)
    → a.freelist_count ≡ 0
    → handle_alloc a ≡ (record { index = 0xffffffff; generation = 0 }, a)
unfolding handle_alloc
handle_alloc-end a e = let over : (a.freelist_count == 0) ≡ true = ground arith in rw over refl

taken :
    (a : HandleAllocator)
    → Slots a
    → 0 < a.freelist_count
    → Taken a
        (record a { freelist_count = a.freelist_count - 1 })
        (record {
          index = slot a (a.freelist_count - 1);
          generation = get_or a.generations (slot a (a.freelist_count - 1)) 0;
        })
unfolding is_valid
taken a slots pos =
    let top = a.freelist_count - 1 in
    let low : slot a top < max_objects = slots.bounded top (omega arith) in
    record {
      valid = ground arith;
      slots = record {
        listed = slots.listed;
        versioned = slots.versioned;
        counted = omega (arith, slots.counted);
        bounded = λ i h. slots.bounded i (omega arith);
        distinct = λ i j h k e. slots.distinct i j (omega arith) (omega arith) e;
      };
      fewer = omega arith;
      gone = λ i h e. omega (arith, slots.distinct i top (omega arith) (omega arith) e);
    }

-- `handle_alloc` takes one slot off the free list and gives a valid handle for it; when none is left it changes nothing
-- and gives a handle that is not valid.
pub handle_alloc-Taken :
    (a : HandleAllocator)
    → Slots a
    → let (h, a') = handle_alloc a in
      Taken a a' h ⊎ ((a.freelist_count ≡ 0) × (a' ≡ a) × (is_valid a' h ≡ false))
unfolding is_valid
handle_alloc-Taken a slots = elim (dec_le a.freelist_count 0) [
  | yes over ↦
      let empty : a.freelist_count ≡ 0 = omega arith in
      rw (handle_alloc-end a empty) (inr (empty, refl, refl))
  | no more ↦ rw (handle_alloc-step a (omega arith)) (inl (taken a slots (omega arith)))
]
