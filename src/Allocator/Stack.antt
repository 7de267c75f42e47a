-- ===== src/Allocator/Stack.antt =====
-- allocator/stack.c: allocations in one buffer that are given back in the opposite order. The
-- array `last_offset` of earlier offsets is the list of its `max_allocs` cells.
pub mod Order
pub mod Shape
pub mod Misuse
use attica.Base.{
  ℕ, zero, suc, ◌-◌, ◌+◌, ◌*◌, ◌/◌, ◌%◌, Bool, true, false, ◌&&◌, List, [], ◌∷◌, leb, ltb,
  if◌then◌else◌, ◌==◌, word, Ptr, null, Run, ok, ◌>>=◌, ◌>>◌, get_or, set,
}
use attica.Memory.{Host, alloc, mem_free, padding_needed}

-- `Stack`
pub record Stack : Type 0 where
  pub buffer : Ptr
  pub capacity : ℕ
  pub offset : ℕ
  pub last_offset : List ℕ
  pub num_allocs : ℕ
  pub max_allocs : ℕ

-- `realloc` of an array of words: the cells that remain keep their values, and the new cells are
-- indeterminate, here `junk`.
unfoldable pub resize_array : (junk : ℕ) → ℕ → List ℕ → List ℕ
resize_array junk zero xs = []
resize_array junk (suc n) [] = junk ∷ resize_array junk n []
resize_array junk (suc n) (x ∷ xs) = x ∷ resize_array junk n xs

-- `stack_create`: the address of the struct (`NULL` for a failure) and its fields.
unfoldable pub create : ℕ → Host → Ptr × Stack × Host
create capacity host =
    let (self, host') = alloc 48 8 host in
    let (buffer, host'') = alloc capacity 1 host' in
    let stack : Stack = record {
      buffer = buffer;
      capacity = capacity;
      offset = 0;
      last_offset = [];
      num_allocs = 0;
      max_allocs = 0;
    } in
    if self == null
    then (null, stack, host')
    else if buffer == null
    then (null, stack, host'')
    else (self, stack, host'')

-- "Grow last_offset array if needed"; the `realloc` succeeds, as the code asserts.
unfoldable pub grow : (junk : ℕ) → Stack → Stack
unfolding resize_array
grow junk s =
    if leb s.max_allocs s.num_allocs
    then (let n = if s.max_allocs == 0 then 1 else (s.max_allocs * 2) % word in
        record s { max_allocs = n; last_offset = resize_array junk n s.last_offset })
    else s

-- `stack_push`; sums are those of 64-bit words.
unfoldable pub push : (junk size alignment : ℕ) → Stack → Run (Ptr × Stack)
unfolding grow
push junk size alignment s = do
  padding ← padding_needed ((s.buffer + s.offset) % word) alignment
  if ltb s.capacity ((s.offset + padding + size) % word)
      then ok (null, s)
      else let g = grow junk s in
        let start = (g.offset + padding) % word in
        ok (
          (g.buffer + start) % word,
          record g {
            last_offset = set g.last_offset g.num_allocs g.offset;
            num_allocs = (g.num_allocs + 1) % word;
            offset = (start + size) % word;
          },
        )

-- "Shrink last_offset array if too large"
unfoldable pub shrink : (junk : ℕ) → Stack → Stack
unfolding resize_array
shrink junk s =
    if ltb s.num_allocs (s.max_allocs / 4) && ltb 4 s.max_allocs
    then (let n = s.max_allocs / 2 in
        record s { max_allocs = n; last_offset = resize_array junk n s.last_offset })
    else s

-- `stack_pop`
unfoldable pub pop : (junk : ℕ) → Stack → Stack
unfolding shrink
pop junk s =
    if s.num_allocs == 0
    then s
    else (let n = s.num_allocs - 1 in
        shrink junk (record s { num_allocs = n; offset = get_or s.last_offset n junk }))

-- `stack_peek`
unfoldable pub peek : (junk : ℕ) → Stack → Ptr
peek junk s =
    if s.num_allocs == 0
    then null
    else (s.buffer + get_or s.last_offset (s.num_allocs - 1) junk) % word

-- `stack_realloc`; the copied bytes are not part of the model.
unfoldable pub stack_realloc :
    (new_capacity alignment : ℕ) → Stack → Host → Run (Bool × Stack × Host)
stack_realloc new_capacity alignment s host =
    if leb new_capacity s.capacity
    then ok (false, s, host)
    else let (new_buffer, host') = alloc new_capacity alignment host in
      if new_buffer == null then ok (false, s, host') else do
        freed ← mem_free s.buffer host'
        ok (true, record s { buffer = new_buffer; capacity = new_capacity }, freed)

-- `stack_reset`
unfoldable pub reset : Stack → Stack
reset s = record s { last_offset = []; offset = 0; capacity = 0; num_allocs = 0; max_allocs = 0 }

-- `stack_used`
unfoldable pub used : Stack → ℕ
used s = s.offset

-- `stack_remaining`
unfoldable pub remaining : Stack → ℕ
remaining s = (s.capacity + word - s.offset) % word

-- `stack_top`
unfoldable pub top : (junk : ℕ) → Stack → ℕ
top junk s = if ltb 0 s.num_allocs then get_or s.last_offset (s.num_allocs - 1) junk else 0
