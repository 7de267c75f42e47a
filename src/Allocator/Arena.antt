-- ===== src/Allocator/Arena.antt =====
-- allocator/arena.c: a linear arena in one buffer, with checkpoints. The arena's bytes are not
-- part of the model, so of `arena_realloc`'s copy loop only the change of the fields is.
pub mod Alloc
pub mod Trace
use attica.Base.{
  ℕ, ◌-◌, ◌+◌, ◌%◌, Bool, true, false, leb, ltb, if◌then◌else◌, ◌==◌, word, Ptr, null, Run, ok,
  ◌>>=◌, ◌>>◌,
}
use attica.Memory.{Host, alloc, mem_free, padding_needed}

-- `Arena`
pub record Arena : Type 0 where
  pub buffer : Ptr
  pub capacity : ℕ
  pub offset : ℕ
  pub last_offset : ℕ

-- `arena_create`: the address of the struct (`NULL` for a failure) and its fields. A failure of the
-- buffer frees the struct.
unfoldable pub create : ℕ → Host → Run (Ptr × Arena × Host)
create capacity host =
    let (self, host') = alloc 32 8 host in
    let (buffer, host'') = alloc capacity 1 host' in
    let arena : Arena = record {
      buffer = buffer;
      capacity = capacity;
      offset = 0;
      last_offset = 0;
    } in
    if self == null
    then ok (null, arena, host')
    else if buffer == null
    then (do freed ← mem_free self host''; ok (null, arena, freed))
    else ok (self, arena, host'')

-- `arena_alloc`; sums are those of 64-bit words.
unfoldable pub arena_alloc : (size alignment : ℕ) → Arena → Run (Ptr × Arena)
arena_alloc size alignment a = do
  padding ← padding_needed ((a.buffer + a.offset) % word) alignment
  if ltb a.capacity ((a.offset + padding + size) % word)
      then ok (null, a)
      else let start = (a.offset + padding) % word in
        ok ((a.buffer + start) % word, record a { offset = (start + size) % word })

-- `arena_realloc`
unfoldable pub arena_realloc :
    (new_capacity alignment : ℕ) → Arena → Host → Run (Bool × Arena × Host)
arena_realloc new_capacity alignment a host =
    if leb new_capacity a.capacity
    then ok (false, a, host)
    else let (new_buffer, host') = alloc new_capacity alignment host in
      if new_buffer == null then ok (false, a, host') else do
        freed ← mem_free a.buffer host'
        ok (true, record a { buffer = new_buffer; capacity = new_capacity }, freed)

-- `arena_reset`
unfoldable pub reset : Arena → Arena
reset a = record a { offset = 0; last_offset = 0 }

-- `arena_free`, given the address of the struct
unfoldable pub arena_free : Ptr → Arena → Host → Run Host
arena_free self a host = if self == null then ok host else do
  host' ← (if a.buffer == null then ok host else mem_free a.buffer host)
  mem_free self host'

-- `ArenaCheckpoint`; the arena that it points to is passed beside it.
pub record Checkpoint : Type 0 where
  pub offset : ℕ
  pub last_offset : ℕ

-- `arena_checkpoint_begin`
unfoldable pub checkpoint_begin : Arena → Checkpoint
checkpoint_begin a = record { offset = a.offset; last_offset = a.last_offset }

-- `arena_checkpoint_end`
unfoldable pub checkpoint_end : Checkpoint → Arena → Arena
checkpoint_end c a = record a { offset = c.offset; last_offset = c.last_offset }

-- `arena_used`
unfoldable pub used : Arena → ℕ
used a = a.offset

-- `arena_remaining`
unfoldable pub remaining : Arena → ℕ
remaining a = (a.capacity + word - a.offset) % word
