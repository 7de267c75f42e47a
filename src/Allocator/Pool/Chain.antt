-- ===== src/Allocator/Pool/Chain.antt =====
-- Free lists of allocator/pool.c as lists of addresses.
use attica.Base.{◌≡◌, ◌≢◌, refl, true, arith, Ptr, null, List, [], ◌∷◌, ◌==◌, if◌then◌else◌}
use attica.Allocator.Pool.{Pool, write, link, owns}

abbrev pub All : (Ptr → Type 0) → List Ptr → Type 0
All P [] = Unit {0}
All P (x ∷ xs) = P x × All P xs

abbrev pub Avoids : Ptr → List Ptr → Type 0
Avoids a = All (λ x. x ≢ a)

abbrev pub Distinct : List Ptr → Type 0
Distinct [] = Unit {0}
Distinct (x ∷ xs) = Avoids x xs × Distinct xs

-- From `p` the words lead through the nodes `xs` to `NULL`.
abbrev pub Chain : (Ptr → Ptr) → Ptr → List Ptr → Type 0
Chain cells p [] = p ≡ null
Chain cells p (x ∷ xs) = (p ≡ x) × (x ≢ null) × Chain cells (cells x) xs

-- A write outside the nodes keeps the chain.
pub Chain-write :
    (cells : Ptr → Ptr) (a v p : Ptr) (xs : List Ptr)
    → Avoids a xs
    → Chain cells p xs
    → Chain (write cells a v) p xs
unfolding write
Chain-write cells a v p [] out c = c
Chain-write cells a v p (x ∷ xs) (ne, out) (e, some, c) =
    let same : (if x == a then v else cells x) ≡ cells x = ground arith in
    (e, some, rw same (Chain-write cells a v (cells x) xs out c))

-- The free list of a pool is `xs`: distinct blocks of the pool.
pub record Holds (p : Pool) (xs : List Ptr) : Type 0 where
  pub chain : Chain p.cells p.head xs
  pub distinct : Distinct xs
  pub owned : All (λ x. owns p x ≡ true) xs

pub Chain-link :
    (a : Ptr) (p : Pool) (xs : List Ptr)
    → a ≢ null
    → Avoids a xs
    → Chain p.cells p.head xs
    → Chain (link a p).cells (link a p).head (a ∷ xs)
unfolding link write
Chain-link a p xs some out c =
    let here : (if a == a then p.head else p.cells a) ≡ p.head = ground arith in
    (refl, some, rw here (Chain-write p.cells a p.head p.head xs out c))
