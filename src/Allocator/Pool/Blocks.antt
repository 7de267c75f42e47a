-- ===== src/Allocator/Pool/Blocks.antt =====
-- The free list that `pool_create` and `pool_realloc` of allocator/pool.c thread through a buffer.
use attica.Base.{
  ℕ, zero, suc, ◌-◌, ◌+◌, ◌*◌, ◌/◌, ◌%◌, ◌≤◌, ◌<◌, ◌≡◌, ◌≢◌, refl, true, false, arith, word, Ptr,
  null, ok, Returns, List, [], ◌∷◌, length, ◌==◌, ◌∙◌, leb, ltb, lt→ltb,
}
use attica.Base.Bits.{mod_unique}
use native.Mathlib.Nat.{div-add-mod}
use attica.Memory.{Host, alloc, align_up}
use attica.Allocator.Pool.Chain.{All, Avoids, Distinct, Chain, Holds, Chain-link}
use attica.Allocator.Pool.{Pool, link, link_blocks, owns, create}

-- The addresses of `rounds` blocks from `block` on, the last one first, in front of `xs`.
unfoldable pub blocks : (buffer size rounds block : ℕ) → List Ptr → List Ptr
blocks buffer size zero block xs = xs
blocks buffer size (suc n) block xs =
    blocks buffer size n (block + 1) ((buffer + block * size) ∷ xs)

-- None of the next `rounds` blocks is in `xs`.
abbrev pub Fresh : (buffer size rounds block : ℕ) → List Ptr → Type 0
Fresh buffer size rounds block xs =
    (j : ℕ) → block ≤ j → j < block + rounds → Avoids (buffer + j * size) xs

ne-later : (b s i j : ℕ) → 0 < s → i < j → b + i * s ≢ b + j * s
ne-later b s i j pos lt = grind arith

-- The loops thread their blocks, the last one first, in front of the list that was there.
pub link_blocks-Chain :
    (rounds block : ℕ) (p : Pool) (xs : List Ptr)
    → p.buffer ≢ null
    → 0 < p.block_size
    → Fresh p.buffer p.block_size rounds block xs
    → Chain p.cells p.head xs
    → let q = link_blocks rounds block p in
      Chain q.cells q.head (blocks p.buffer p.block_size rounds block xs)
unfolding link_blocks blocks link
link_blocks-Chain zero block p xs given pos fresh c = c
link_blocks-Chain (suc n) block p xs given pos fresh c =
    let a = p.buffer + block * p.block_size in
    link_blocks-Chain n (block + 1) (link a p) (a ∷ xs) given pos
      (λ j lo hi. (
        ne-later p.buffer p.block_size block j pos (omega arith),
        fresh j (omega arith) (omega arith),
      ))
      (Chain-link a p xs (omega arith) (fresh block (omega arith) (omega arith)) c)

pub link_blocks-fields :
    (rounds block : ℕ) (p : Pool)
    → let q = link_blocks rounds block p in
      (q.buffer ≡ p.buffer)
      × (q.capacity ≡ p.capacity)
      × (q.block_size ≡ p.block_size)
      × (q.block_count ≡ p.block_count)
unfolding link_blocks link
link_blocks-fields zero block p = (refl, refl, refl, refl)
link_blocks-fields (suc n) block p =
    link_blocks-fields n (block + 1) (link (p.buffer + block * p.block_size) p)

All-blocks :
    (P : Ptr → Type 0) (b s rounds block : ℕ) (xs : List Ptr)
    → ((j : ℕ) → block ≤ j → j < block + rounds → P (b + j * s))
    → All P xs
    → All P (blocks b s rounds block xs)
unfolding blocks
All-blocks P b s zero block xs each h = h
All-blocks P b s (suc n) block xs each h =
    All-blocks P b s n (block + 1) ((b + block * s) ∷ xs)
      (λ j lo hi. each j (omega arith) (omega arith)) (each block (omega arith) (omega arith), h)

Distinct-blocks :
    (b s rounds block : ℕ) (xs : List Ptr)
    → 0 < s
    → Fresh b s rounds block xs
    → Distinct xs
    → Distinct (blocks b s rounds block xs)
unfolding blocks
Distinct-blocks b s zero block xs pos fresh d = d
Distinct-blocks b s (suc n) block xs pos fresh d =
    Distinct-blocks b s n (block + 1) ((b + block * s) ∷ xs) pos
      (λ j lo hi. (ne-later b s block j pos (omega arith), fresh j (omega arith) (omega arith)))
      (fresh block (omega arith) (omega arith), d)

pub length-blocks :
    (b s rounds block : ℕ) (xs : List Ptr)
    → length (blocks b s rounds block xs) ≡ rounds + length xs
unfolding blocks
length-blocks b s zero block xs = omega arith
length-blocks b s (suc n) block xs =
    omega (arith, length-blocks b s n (block + 1) ((b + block * s) ∷ xs))

pub block-inside : (c s j : ℕ) → 0 < s → j < c / s → j * s + s ≤ c
block-inside c s j pos h = grind (arith, div-add-mod c s)

-- The whole blocks of the buffer are blocks in the sense of `pool_owns`.
pub owns-block :
    (p : Pool) (j : ℕ)
    → 0 < p.block_size
    → p.buffer + p.capacity < word
    → j < p.capacity / p.block_size
    → owns p (p.buffer + j * p.block_size) ≡ true
unfolding owns
owns-block p j pos fits h =
    let inside = block-inside p.capacity p.block_size j pos h in
    let end : (p.buffer + p.capacity) % word ≡ p.buffer + p.capacity = omega arith in
    let low : leb p.buffer (p.buffer + j * p.block_size) ≡ true = ground arith in
    let high : ltb (p.buffer + j * p.block_size) (p.buffer + p.capacity) ≡ true = ground arith in
    let whole : (p.buffer + j * p.block_size - p.buffer) % p.block_size ≡ 0 =
      mod_unique p.block_size j 0 _ (omega arith) pos in
    rw (end, low, high, whole)

-- A pool with an empty list gets all its whole blocks.
pub link_blocks-Holds :
    (p : Pool)
    → p.head ≡ null
    → p.buffer ≢ null
    → 0 < p.block_size
    → p.buffer + p.capacity < word
    → p.block_count ≡ p.capacity / p.block_size
    → Holds (link_blocks p.block_count 0 p) (blocks p.buffer p.block_size p.block_count 0 [])
unfolding owns
link_blocks-Holds p empty given pos fits count =
    let (b, c, s, n) = link_blocks-fields p.block_count 0 p in
    record {
      chain = link_blocks-Chain p.block_count 0 p [] given pos (λ j lo hi. tt) empty;
      distinct = Distinct-blocks p.buffer p.block_size p.block_count 0 [] pos (λ j lo hi. tt) tt;
      owned =
          rw (b, c, s)
            (All-blocks (λ x. owns p x ≡ true) p.buffer p.block_size p.block_count 0 []
              (λ j lo hi. owns-block p j pos fits (omega arith)) tt);
    }

-- A pool that `pool_create` returns has every whole block of its buffer free.
pub create-Holds :
    (cells : Ptr → Ptr) (capacity size alignment : ℕ) (host : Host)
    → (self buffer : Ptr) (block_size : ℕ) (host₁ host₂ : Host) → alloc 40 8 host ≡ (self, host₁)
    → alloc capacity 1 host₁ ≡ (buffer, host₂)
    → self ≢ null
    → buffer ≢ null
    → buffer + capacity < word
    → align_up size alignment ≡ ok block_size
    → 8 < block_size
    → block_size < capacity
    → block_size % alignment ≡ 0
    → Returns (create cells capacity size alignment host) λ r.
      let (address, p, after) = r in
      let free = blocks buffer block_size (capacity / block_size) 0 [] in
      (address ≡ self) × Holds p free × (length free ≡ p.block_count) × (p.buffer ≡ buffer)
unfolding create
create-Holds cells capacity size alignment host self buffer bs h₁ h₂ a₁ a₂ given given' fits up big
      less mult =
    let n = capacity / bs in
    let blank : Pool = record {
      buffer = buffer;
      capacity = capacity;
      block_size = bs;
      block_count = n;
      head = null;
      cells = cells;
    } in
    let s0 : (self == null) ≡ false = ground arith in
    let b0 : (buffer == null) ≡ false = ground arith in
    let m0 : (bs % alignment == 0) ≡ true = ground arith in
    let (b, c, s, count) = link_blocks-fields n 0 blank in
    (
      (self, link_blocks n 0 blank, h₂),
      rw (a₁, a₂, s0, b0, up, lt→ltb 8 bs big, lt→ltb bs capacity less, m0),
      (
        refl,
        link_blocks-Holds blank refl given' (omega arith) fits refl,
        length-blocks buffer bs n 0 [] ∙ omega (arith, count),
        b,
      ),
    )
