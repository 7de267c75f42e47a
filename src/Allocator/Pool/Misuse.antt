-- ===== src/Allocator/Pool/Misuse.antt =====
-- What `pool_realloc` and a second `pool_pop` of allocator/pool.c do to the free list.
use attica.Base.{
  ℕ, ◌-◌, ◌+◌, ◌*◌, ◌/◌, ◌%◌, ◌≤◌, ◌<◌, ◌≡◌, ◌≢◌, ◌⊎◌, refl, true, false, arith, word, Ptr, null,
  Returns, List, [], ◌∷◌, ◌==◌, if◌then◌else◌, leb, ltb, ◌&&◌, ◌>>=◌,
}
use attica.Memory.{Host, alloc, mem_free, free, is_live, release}
use attica.Allocator.Pool.Blocks.{
  blocks, Fresh, block-inside, link_blocks-Chain, link_blocks-fields,
}
use attica.Allocator.Pool.Chain.{All, Avoids, Chain, Holds}
use attica.Allocator.Pool.{
  Pool, copied_cells, link_blocks, owns, has_room, pool_realloc, push, pop, link, write,
}

abbrev Inside : (lo size : ℕ) → Ptr → Type 0
Inside lo size x = (lo ≤ x) × (x < lo + size)

-- Two ranges of addresses with nothing in common.
abbrev pub Disjoint : (a m b n : ℕ) → Type 0
Disjoint a m b n = (a + m ≤ b) ⊎ (b + n ≤ a)

owned-Inside :
    (p : Pool) (xs : List Ptr)
    → p.buffer + p.capacity < word
    → All (λ x. owns p x ≡ true) xs
    → All (Inside p.buffer p.capacity) xs
unfolding owns
owned-Inside p [] fits h = tt
owned-Inside p (x ∷ xs) fits h =
    let end : (p.buffer + p.capacity) % word ≡ p.buffer + p.capacity = omega arith in
    let own = rw (owns, end) at (h.0) in (ground arith, owned-Inside p xs fits h.1)

Chain-copied :
    (p : Pool) (nb h : Ptr) (xs : List Ptr)
    → Disjoint p.buffer p.capacity nb p.capacity
    → All (Inside p.buffer p.capacity) xs
    → Chain p.cells h xs
    → Chain (copied_cells p nb) h xs
unfolding copied_cells
Chain-copied p nb h [] apart into c = c
Chain-copied p nb h (x ∷ xs) apart into (e, given, c) =
    let out : (leb nb x && ltb x (nb + p.capacity)) ≡ false = ground arith in
    (e, given, rw out (Chain-copied p nb (p.cells x) xs apart into.1 c))

Avoids-outside :
    (a lo size : ℕ) (xs : List Ptr)
    → (a < lo) ⊎ (lo + size ≤ a)
    → All (Inside lo size) xs
    → Avoids a xs
Avoids-outside a lo size [] out h = tt
Avoids-outside a lo size (x ∷ xs) out h = (omega arith, Avoids-outside a lo size xs out h.1)

not_owned :
    (p q : Pool) (xs : List Ptr)
    → q.buffer + q.capacity < word
    → Disjoint p.buffer p.capacity q.buffer q.capacity
    → All (Inside p.buffer p.capacity) xs
    → All (λ x. owns q x ≡ false) xs
unfolding owns
not_owned p q [] fits apart h = tt
not_owned p q (x ∷ xs) fits apart h =
    let end : (q.buffer + q.capacity) % word ≡ q.buffer + q.capacity = omega arith in
    (rw end (ground arith), not_owned p q xs fits apart h.1)

-- After `pool_realloc` the old free blocks are still on the free list, behind the new ones, at
-- their addresses in the old buffer: the pool owns none of them, and the buffer has been freed.
pub realloc-dangles :
    (p : Pool) (xs : List Ptr)
    → Holds p xs
    → p.buffer ≢ null
    → 0 < p.block_size
    → p.buffer + p.capacity < word
    → (new_capacity : ℕ) (host after : Host) (nb : Ptr) → p.capacity < new_capacity
    → alloc new_capacity 1 host ≡ (nb, after)
    → nb ≢ null
    → nb + new_capacity < word
    → Disjoint p.buffer p.capacity nb new_capacity
    → is_live p.buffer after.live ≡ true
    → Returns (pool_realloc new_capacity p host) λ r.
      let (done, q, freed) = r in
      (done ≡ true)
      × Chain q.cells q.head
          (blocks nb p.block_size (new_capacity / p.block_size - p.block_count) p.block_count xs)
      × All (λ x. owns q x ≡ false) xs
      × (freed.live ≡ release p.buffer after.live)
unfolding pool_realloc mem_free free
realloc-dangles p xs h given pos fits nc host after nb more got given' fits' apart live =
    let n = nc / p.block_size in
    let moved : Pool = record p {
      buffer = nb;
      capacity = nc;
      block_count = n;
      cells = copied_cells p nb;
    } in
    let into = owned-Inside p xs fits h.owned in
    let grown : leb nc p.capacity ≡ false = ground arith in
    let b0 : (nb == null) ≡ false = ground arith in
    let p0 : (p.buffer == null) ≡ false = ground arith in
    let near : Disjoint p.buffer p.capacity nb p.capacity = omega arith in
    let fresh : Fresh nb p.block_size (n - p.block_count) p.block_count xs = λ j lo hi.
      Avoids-outside (nb + j * p.block_size) p.buffer p.capacity xs
        (omega (arith, block-inside nc p.block_size j pos (omega arith))) into in
    let q = link_blocks (n - p.block_count) p.block_count moved in
    let (b, c, s, count) = link_blocks-fields (n - p.block_count) p.block_count moved in
    (
      (true, q, record after { live = release p.buffer after.live }),
      rw (grown, got, b0, p0, live),
      (
        refl,
        link_blocks-Chain (n - p.block_count) p.block_count moved xs given' pos fresh
            (Chain-copied p nb p.head xs near into h.chain),
        not_owned p q xs (omega arith) (omega arith) into,
        refl,
      ),
    )

-- `pool_pop` does not notice a block that is free already: two in a row make the block its own
-- successor, and every `pool_push` from then on returns it and leaves it on the list.
pub pop-twice :
    (p : Pool) (a : Ptr)
    → a ≢ null
    → owns p a ≡ true
    → has_room p a ≡ true
    → Returns
        (pop a p >>= pop a)
        (λ q. (push q).0 ≡ a × ((push q).1.head ≡ a) × ((push (push q).1).0 ≡ a))
unfolding pop push owns link write has_room
pop-twice p a given own room =
    let there : (a == null) ≡ false = ground arith in
    let loop : (if a == a then a else if a == a then p.head else p.cells a) ≡ a = ground arith in
    (link a (link a p), rw (there, own, room) (rw (there, own, room)), ground arith)
