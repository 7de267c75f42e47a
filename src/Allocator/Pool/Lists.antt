-- ===== src/Allocator/Pool/Lists.antt =====
-- The operations of allocator/pool.c on a pool whose free list is known.
use attica.Base.{
  ℕ, zero, suc, ◌-◌, ◌+◌, ◌%◌, ◌≤◌, ◌<◌, ◌≡◌, ◌≢◌, ◌⊎◌, leb, true, false, arith, word, Ptr, null,
  fault, Returns, List, [], ◌∷◌, length, some, ◌==◌, Bool-cases, inl, inr, ap, ◌∙◌,
}
use attica.Allocator.Pool.Chain.{Avoids, Chain, Holds, Chain-link}
use attica.Allocator.Pool.{Pool, link, push, pop, owns, has_room, count_nodes, remaining, used}

-- What `pool_push` does to a pool with a given free list.
abbrev pub Takes : Pool → List Ptr → Ptr × Pool → Type 0
Takes p [] r = r ≡ (null, p)
Takes p (x ∷ ys) r = (r.0 ≡ x) × (x ≢ null) × Holds r.1 ys × Avoids x ys

-- `pool_push` takes the first free block, which is then free no more, and answers `NULL` and
-- changes nothing when there is none.
pub push-Takes : (p : Pool) (xs : List Ptr) → Holds p xs → Takes p xs (push p)
unfolding push owns
push-Takes p [] h = rw h.chain
push-Takes p (z ∷ zs) h =
    let (e, given, c) = h.chain in
    let there : (p.head == null) ≡ false = ground arith in
    let next : Chain p.cells (p.cells p.head) zs = rw e c in
    rw there
      (e, given, record { chain = next; distinct = h.distinct.1; owned = h.owned.1 }, h.distinct.0)

-- `pool_pop` of a block of the pool that is not free puts it in front of the free list, and the
-- next `pool_push` takes it again; but if what is left of the buffer there has no room for a pointer,
-- it writes behind the buffer.
pub pop-Holds :
    (p : Pool) (xs : List Ptr)
    → Holds p xs
    → (a : Ptr) → a ≢ null
    → owns p a ≡ true
    → Avoids a xs
    → ((a - p.buffer + 8 ≤ p.capacity)
        × Returns (pop a p) (λ q. Holds q (a ∷ xs) × ((push q).0 ≡ a) × Holds (push q).1 xs))
      ⊎ ((p.capacity < a - p.buffer + 8) × (pop a p ≡ fault))
unfolding pop owns link has_room
pop-Holds p xs h a given own out =
    let there : (a == null) ≡ false = ground arith in
    let whole : Holds (link a p) (a ∷ xs) = record {
      chain = Chain-link a p xs given out h.chain;
      distinct = (out, h.distinct);
      owned = (own, h.owned);
    } in
    let (first, _, rest, _) = push-Takes (link a p) (a ∷ xs) whole in
    elim (Bool-cases (leb (a - p.buffer + 8) p.capacity)) [
      | inl room ↦
          inl (ground (arith, room), (link a p, rw (there, own, room), (whole, first, rest)))
      | inr over ↦ inr (ground (arith, over), rw (there, own, over))
    ]

count_nodes-length :
    (fuel : ℕ) (cells : Ptr → Ptr) (p : Ptr) (n : ℕ) (xs : List Ptr)
    → length xs < fuel
    → Chain cells p xs
    → count_nodes fuel cells p n ≡ some (n + length xs)
unfolding count_nodes
count_nodes-length zero cells p n xs h c = absurd (omega arith)
count_nodes-length (suc fuel) cells p n [] h c = rw c (ap some (omega arith))
count_nodes-length (suc fuel) cells p n (x ∷ xs) h (e, given, c) =
    let there : (p == null) ≡ false = ground arith in
    rw (there, e)
      (count_nodes-length fuel cells (cells x) (n + 1) xs (omega arith) c ∙ ap some (omega arith))

-- The walk of `pool_remaining` ends, and counts the free blocks; `pool_used` counts the others.
pub used-length :
    (p : Pool) (xs : List Ptr) (fuel : ℕ)
    → Holds p xs
    → length xs < fuel
    → length xs ≤ p.block_count
    → p.block_count < word
    → (remaining fuel p ≡ some (length xs)) × (used fuel p ≡ some (p.block_count - length xs))
unfolding remaining used
used-length p xs fuel h enough few fits =
    let counted : remaining fuel p ≡ some (length xs) =
      count_nodes-length fuel p.cells p.head 0 xs enough h.chain ∙ ap some (omega arith) in
    let rest : (p.block_count + word - length xs) % word ≡ p.block_count - length xs =
      omega arith in
    (counted, rw (used, counted, rest))
