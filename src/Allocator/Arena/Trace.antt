-- ===== src/Allocator/Arena/Trace.antt =====
-- Runs of many calls on an arena of allocator/arena.c.
use attica.Base.Bits.{IsPowerOfTwo}
use attica.Base.{
  ℕ, ◌+◌, ◌≤◌, ◌<◌, ◌≡◌, refl, inl, inr, false, arith, word, Ptr, null, Run, ok, ◌>>=◌, Returns,
  if◌then◌else◌, List, [], ◌∷◌, ◌==◌,
}
use attica.Allocator.Arena.Alloc.{IsValid, Cuts, arena_alloc-Cuts}
use attica.Allocator.Arena.{Arena, arena_alloc, checkpoint_begin, checkpoint_end, reset}

-- A caller's sequence of requests: the blocks that it gets, and the arena at the end.
unfoldable pub alloc_all : List (ℕ × ℕ) → Arena → Run (List (Ptr × ℕ) × Arena)
alloc_all [] a = ok ([], a)
alloc_all ((size, alignment) ∷ rs) a = do
  (p, b) ← arena_alloc size alignment a
  (blocks, c) ← alloc_all rs b
  ok (if p == null then blocks else (p, size) ∷ blocks, c)

-- Each block starts where an earlier one ended or behind that, from `lo` on and up to `hi`.
abbrev pub Apart : ℕ → ℕ → List (Ptr × ℕ) → Type 0
Apart lo hi [] = lo ≤ hi
Apart lo hi ((p, size) ∷ blocks) = (lo ≤ p) × Apart (p + size) hi blocks

-- Each alignment is a power of two, and no sum with the capacity leaves the address space.
abbrev pub AllSmall : ℕ → List (ℕ × ℕ) → Type 0
AllSmall capacity [] = Unit {0}
AllSmall capacity ((size, alignment) ∷ rs) =
    IsPowerOfTwo alignment × (capacity + alignment + size < word) × AllSmall capacity rs

Apart-weaken : (lo lo' hi : ℕ) (bs : List (Ptr × ℕ)) → lo ≤ lo' → Apart lo' hi bs → Apart lo hi bs
Apart-weaken lo lo' hi [] h t = omega arith
Apart-weaken lo lo' hi (b ∷ bs) h t = (omega (arith, t.0), t.1)

-- What any run of requests leaves of an arena.
pub record Grows (a c : Arena) (blocks : List (Ptr × ℕ)) : Type 0 where
  pub apart : Apart (a.buffer + a.offset) (c.buffer + c.offset) blocks
  pub valid : IsValid c
  pub buffer : c.buffer ≡ a.buffer
  pub capacity : c.capacity ≡ a.capacity

Grows-cut :
    {size alignment : ℕ} {a b c : Arena} {p : Ptr} {bs : List (Ptr × ℕ)}
    → Cuts size alignment a b p
    → Grows b c bs
    → Grows a c ((p, size) ∷ bs)
Grows-cut {size} {c} {p} {bs} cut g = record {
  apart = (cut.aligned.above, Apart-weaken _ _ _ bs (omega arith) g.apart);
  valid = g.valid;
  buffer = omega arith;
  capacity = omega arith;
}

-- The blocks of any sequence of requests lie one behind the other in the buffer, so no two of them
-- overlap, and the arena stays valid.
pub alloc_all-Grows :
    (rs : List (ℕ × ℕ)) {a : Arena}
    → IsValid a
    → AllSmall a.capacity rs
    → Returns (alloc_all rs a) (λ r. Grows a r.1 r.0)
unfolding alloc_all
alloc_all-Grows [] {a} valid small =
    (([], a), refl, record { apart = omega arith; valid = valid; buffer = refl; capacity = refl })
alloc_all-Grows ((size, alignment) ∷ rs) {a} valid (power, room, small) =
    let ((p, b), run, out) = arena_alloc-Cuts valid power (omega arith) size (omega arith) in
    elim out [
      | inl (cut, valid_b, given) ↦
          let ((bs, c), rest, g) = alloc_all-Grows rs valid_b (rw cut.capacity small) in
          let there : (p == null) ≡ false = ground arith in
          (((p, size) ∷ bs, c), rw (run, rest, there), Grows-cut cut g)
      | inr (same, none) ↦
          let ((bs, c), rest, g) = alloc_all-Grows rs valid small in
          ((bs, c), rw (run, same, rest), g)
    ]

-- Whatever is allocated after a checkpoint, its end brings back the arena of the beginning.
pub checkpoint_end-alloc_all :
    (rs : List (ℕ × ℕ)) {a : Arena}
    → IsValid a
    → AllSmall a.capacity rs
    → Returns (alloc_all rs a) (λ r. checkpoint_end (checkpoint_begin a) r.1 ≡ a)
unfolding checkpoint_end checkpoint_begin
checkpoint_end-alloc_all rs {a} valid small =
    let (r, run, g) = alloc_all-Grows rs valid small in
    (r, run, ground (arith, g.buffer, g.capacity))

-- After a reset the same requests give the same blocks and the same fields again, so a reset
-- arena is as good as the arena was when nothing had been allocated.
pub alloc_all-reset :
    (rs qs : List (ℕ × ℕ)) {a : Arena}
    → IsValid a
    → AllSmall a.capacity rs
    → Returns (alloc_all rs a) (λ r. alloc_all qs (reset r.1) ≡ alloc_all qs (reset a))
unfolding reset
alloc_all-reset rs qs {a} valid small =
    let (r, run, g) = alloc_all-Grows rs valid small in (r, run, rw (g.buffer, g.capacity))
