-- ===== src/Allocator/Handle.antt =====
-- allocator/handle.c: generational handles. A read or write outside an array is a fault.
pub mod Slots
pub mod Stale
use attica.Base.{
  ℕ, zero, suc, ◌+◌, ◌-◌, ◌^◌, ◌%◌, Bool, true, false, not, Ptr, null, Run, ok, fault, ◌>>=◌, List,
  ltb, leb, ◌==◌, if◌then◌else◌, get_or, set, length,
}
use attica.Memory.{Host, calloc, mem_free}

-- `HANDLE_MAX_OBJECTS`
abbrev pub max_objects : ℕ
max_objects = 1024

pub record Handle : Type 0 where
  pub index : ℕ
  pub generation : ℕ

pub record HandleAllocator : Type 0 where
  pub objects : Ptr
  pub size : ℕ
  pub alignment : ℕ
  pub freelist_count : ℕ
  pub freelist : List ℕ
  pub generations : List ℕ

-- The loop of `handle_allocator_init`, from `i`.
unfoldable pub init_loop : (rounds i : ℕ) → HandleAllocator → HandleAllocator
init_loop zero i a = a
init_loop (suc n) i a = init_loop n (i + 1) (record a {
  freelist = set a.freelist i (max_objects - 1 - i);
  generations = set a.generations i 1;
})

-- `handle_allocator_init`; `a` holds what the arrays hold before.
unfoldable pub init : HandleAllocator → (size alignment : ℕ) → Host → HandleAllocator × Host
unfolding init_loop
init a size alignment host =
    let (objects, host') = calloc max_objects size alignment host in
    (
      init_loop max_objects 0 (record a {
        objects = objects;
        size = size;
        alignment = alignment;
        freelist_count = max_objects;
      }),
      host',
    )

-- `handle_alloc`
unfoldable pub handle_alloc : HandleAllocator → Handle × HandleAllocator
handle_alloc a =
    if a.freelist_count == 0
    then (record { index = 0xffffffff; generation = 0 }, a)
    else let index = get_or a.freelist (a.freelist_count - 1) 0 in
      (
        record { index = index; generation = get_or a.generations index 0 },
        record a { freelist_count = a.freelist_count - 1 },
      )

-- `handle_is_valid`
unfoldable pub is_valid : HandleAllocator → Handle → Bool
is_valid a h =
    if leb max_objects h.index then false else h.generation == get_or a.generations h.index 0

-- `handle_get`: the objects are a `void*`, so an index counts bytes.
unfoldable pub handle_get : HandleAllocator → Handle → Ptr
unfolding is_valid
handle_get a h = if is_valid a h then a.objects + h.index else null

-- `handle_free`
unfoldable pub handle_free : HandleAllocator → Handle → Host → Run (HandleAllocator × Host)
unfolding is_valid
handle_free a h host =
    if not (is_valid a h)
    then ok (a, host)
    else if leb max_objects a.freelist_count
    then fault
    else do
      host' ← mem_free a.objects host
      ok (
        record a {
          generations = set a.generations h.index ((get_or a.generations h.index 0 + 1) % 2 ^ 32);
          freelist = set a.freelist a.freelist_count h.index;
          freelist_count = a.freelist_count + 1;
        },
        host',
      )
