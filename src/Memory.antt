-- ===== src/Memory.antt =====
-- core/memory.c: alignment arithmetic on addresses, and allocation over the system allocator.
pub mod Align
pub mod Alloc
pub mod Fresh
use attica.Base.{
  ℕ, ◌-◌, ◌+◌, ◌*◌, ◌/◌, ◌%◌, Bool, true, false, not, ◌&&◌, ◌||◌, List, [], ◌∷◌, ltb, ◌==◌,
  if◌then◌else◌, bit_and, word, add_word, sub_word, Ptr, null, Run, ok, fault, ◌>>=◌, ◌>>◌, assert,
}

-- `memory_is_power_of_two`
unfoldable pub is_power_of_two : ℕ → Bool
is_power_of_two value = not (value == 0) && (bit_and value (value - 1) == 0)

-- `memory_align_offset`
unfoldable pub align_offset : ℕ → ℕ → Run ℕ
align_offset value alignment = do
  assert (is_power_of_two alignment)
  ok (bit_and value (sub_word alignment 1))

-- `memory_is_aligned`
unfoldable pub is_aligned : ℕ → ℕ → Run Bool
is_aligned value alignment = do
  assert (is_power_of_two alignment)
  offset ← align_offset value alignment
  ok (offset == 0)

-- `~x` on 64 bits
abbrev pub complement : ℕ → ℕ
complement x = word - 1 - x

-- `memory_align_up`
unfoldable pub align_up : ℕ → ℕ → Run ℕ
align_up value alignment = do
  assert (is_power_of_two alignment)
  if ltb (add_word (sub_word (word - 1) alignment) 1) value
      then ok (word - 1)
      else ok (bit_and (sub_word (add_word value alignment) 1) (complement (sub_word alignment 1)))

-- `memory_align_down`
unfoldable pub align_down : ℕ → ℕ → Run ℕ
align_down value alignment = do
  assert (is_power_of_two alignment)
  ok (bit_and value (complement (sub_word alignment 1)))

-- `memory_padding_needed`
unfoldable pub padding_needed : ℕ → ℕ → Run ℕ
padding_needed value alignment = do
  assert (is_power_of_two alignment)
  offset ← align_offset value alignment
  ok (if offset == 0 then 0 else alignment - offset)

-- `memory_align_unit_count`
unfoldable pub align_unit_count : (value size alignment : ℕ) → Run ℕ
align_unit_count value size alignment = do
  assert (ltb 0 size)
  aligned_size ← align_up value alignment
  if aligned_size == word - 1
      then ok (word - 1)
      else ok (sub_word (add_word aligned_size size) 1 / size)

-- The system allocator. `supply` holds what the next calls of `posix_memalign` return, 0 for a
-- failure, and `live` the addresses that are allocated and not yet freed.
pub record Host : Type 0 where
  pub supply : List Ptr
  pub live : List Ptr

unfoldable pub posix_memalign : Host → Ptr × Host
posix_memalign host = take_from host.supply
  where
    take_from : List Ptr → Ptr × Host
    take_from [] = (null, host)
    take_from (p ∷ ps) =
        (p, record { supply = ps; live = if p == null then host.live else p ∷ host.live })

unfoldable pub is_live : Ptr → List Ptr → Bool
is_live p [] = false
is_live p (q ∷ qs) = (q == p) || is_live p qs

unfoldable pub release : Ptr → List Ptr → List Ptr
release p [] = []
release p (q ∷ qs) = if q == p then qs else q ∷ release p qs

-- `free` of an address that is not live is undefined.
unfoldable pub free : Ptr → Host → Run Host
free p host = if is_live p host.live then ok (record host { live = release p host.live }) else fault

-- The alignment that `memory_alloc` asks for: at least that of a pointer.
unfoldable pub pointer_alignment : ℕ → ℕ
pointer_alignment alignment = if ltb alignment 8 then 8 else alignment

-- `memory_alloc`
unfoldable pub alloc : (size alignment : ℕ) → Host → Ptr × Host
alloc size alignment host =
    if (size == 0) || (alignment == 0)
    then (null, host)
    else if ltb (word - 1 - size) size
    then (null, host)
    else if not (is_power_of_two (pointer_alignment alignment))
    then (null, host)
    else posix_memalign host

-- `memory_calloc`; the product of the sizes is that of 64-bit words.
unfoldable pub calloc : (n size alignment : ℕ) → Host → Ptr × Host
calloc n size alignment host =
    if (n == 0) || (size == 0) || (alignment == 0)
    then (null, host)
    else let total = (n * size) % word in
      if ltb (word - 1 - total) total then (null, host) else alloc total alignment host

-- `memory_free`
unfoldable pub mem_free : Ptr → Host → Run Host
mem_free ptr host = if ptr == null then ok host else free ptr host

-- `memory_realloc`; what the blocks hold is not part of the model.
unfoldable pub realloc : (ptr : Ptr) (new_size alignment : ℕ) → Host → Run (Ptr × Host)
realloc ptr new_size alignment host =
    if ptr == null
    then ok (alloc new_size alignment host)
    else if (new_size == 0) || (alignment == 0)
    then (do host' ← free ptr host; ok (null, host'))
    else if not (is_power_of_two alignment)
    then ok (null, host)
    else let (new_ptr, host') = alloc new_size alignment host in
      if new_ptr == null then ok (null, host') else do freed ← free ptr host'; ok (new_ptr, freed)
