-- ===== src/Allocator/Pool.antt =====
-- allocator/pool.c: blocks of one size in one buffer. The free list is threaded through the free
-- blocks themselves: `cells` is the memory word at each address, where `node->next` is stored.
pub mod Chain
pub mod Blocks
pub mod Lists
pub mod Misuse
use attica.Base.{
  ℕ, zero, suc, ◌-◌, ◌+◌, ◌*◌, ◌/◌, ◌%◌, Bool, true, false, ◌&&◌, not, leb, ltb, if◌then◌else◌,
  ◌==◌, word, Ptr, null, Run, ok, fault, ◌>>=◌, ◌>>◌, assert, Option, none, some,
}
use attica.Memory.{Host, alloc, mem_free, align_up}

-- `Pool`, with the words of its free blocks
pub record Pool : Type 0 where
  pub buffer : Ptr
  pub capacity : ℕ
  pub block_size : ℕ
  pub block_count : ℕ
  pub head : Ptr
  pub cells : Ptr → Ptr

unfoldable pub write : (Ptr → Ptr) → Ptr → Ptr → Ptr → Ptr
write cells p v a = if a == p then v else cells a

-- `node->next = pool->head; pool->head = node;`
unfoldable pub link : Ptr → Pool → Pool
link node p = record p { cells = write p.cells node p.head; head = node }

-- The loops of `pool_create` and `pool_realloc` that put the blocks from `block` on, `rounds` of
-- them, on the free list. The addresses lie in the buffer, so they do not wrap.
unfoldable pub link_blocks : (rounds block : ℕ) → Pool → Pool
unfolding link
link_blocks zero block p = p
link_blocks (suc n) block p = link_blocks n (block + 1) (link (p.buffer + block * p.block_size) p)

-- `pool_create`: the address of the struct (`NULL` for a failure) and its fields. `cells` is what
-- the memory holds before.
unfoldable pub create :
    (cells : Ptr → Ptr) (capacity size alignment : ℕ) → Host → Run (Ptr × Pool × Host)
create cells capacity size alignment host =
    let (self, host') = alloc 40 8 host in
    let (buffer, host'') = alloc capacity 1 host' in
    let blank : Pool = record {
      buffer = buffer;
      capacity = capacity;
      block_size = 0;
      block_count = 0;
      head = null;
      cells = cells;
    } in
    if self == null
    then ok (null, blank, host')
    else if buffer == null
    then (do freed ← mem_free self host''; ok (null, blank, freed))
    else do
      block_size ← align_up size alignment
      assert (ltb 8 block_size)
      assert (ltb block_size capacity)
      assert (block_size % alignment == 0)
      let block_count = capacity / block_size
      ok (
        self,
        link_blocks block_count 0
            (record blank { block_size = block_size; block_count = block_count }),
        host'',
      )

-- The words after the copy loop of `pool_realloc`: those of the old buffer, at their places in the
-- new one.
unfoldable pub copied_cells : Pool → Ptr → Ptr → Ptr
copied_cells p new_buffer a =
    if leb new_buffer a && ltb a (new_buffer + p.capacity)
    then p.cells (p.buffer + (a - new_buffer))
    else p.cells a

-- `pool_realloc`; of the copied bytes only the free blocks' words matter: they keep their values,
-- which are addresses in the old buffer, and `head` is not changed either.
unfoldable pub pool_realloc : (new_capacity : ℕ) → Pool → Host → Run (Bool × Pool × Host)
pool_realloc new_capacity p host =
    if leb new_capacity p.capacity
    then ok (false, p, host)
    else let (new_buffer, host') = alloc new_capacity 1 host in
      if new_buffer == null then ok (false, p, host') else do
        freed ← mem_free p.buffer host'
        let new_block_count = new_capacity / p.block_size
        ok (
          true,
          link_blocks (new_block_count - p.block_count) p.block_count (record p {
            buffer = new_buffer;
            capacity = new_capacity;
            block_count = new_block_count;
            cells = copied_cells p new_buffer;
          }),
          freed,
        )

-- `pool_push`: takes a free block.
unfoldable pub push : Pool → Ptr × Pool
push p = if p.head == null then (null, p) else (p.head, record p { head = p.cells p.head })

-- `pool_owns`
unfoldable pub owns : Pool → Ptr → Bool
owns p addr =
    leb p.buffer addr
    && ltb addr ((p.buffer + p.capacity) % word)
    && ((addr - p.buffer) % p.block_size == 0)

-- Whether the pointer that `pool_pop` writes into a block lies inside the buffer; a part of a block may
-- be left at its end.
unfoldable pub has_room : Pool → Ptr → Bool
has_room p address = leb (address - p.buffer + 8) p.capacity

-- `pool_pop`: gives a block back.
unfoldable pub pop : Ptr → Pool → Run Pool
unfolding link has_room
pop address p = do
  assert (not (address == null))
  assert (owns p address)
  if has_room p address then ok (link address p) else fault

-- The loop of `pool_remaining`, on fuel: `none` if the list has not ended.
unfoldable pub count_nodes : (fuel : ℕ) → (Ptr → Ptr) → Ptr → ℕ → Option ℕ
count_nodes zero cells node count = none
count_nodes (suc fuel) cells node count =
    let rest = count_nodes fuel cells (cells node) (count + 1) in
    if node == null then some count else rest

-- `pool_remaining`
unfoldable pub remaining : (fuel : ℕ) → Pool → Option ℕ
unfolding count_nodes
remaining fuel p = count_nodes fuel p.cells p.head 0

-- `pool_used`
unfoldable pub used : (fuel : ℕ) → Pool → Option ℕ
unfolding remaining
used fuel p = elim (remaining fuel p) [
  | none ↦ none
  | some free ↦ some ((p.block_count + word - free) % word)
]
