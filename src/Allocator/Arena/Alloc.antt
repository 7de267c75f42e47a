-- ===== src/Allocator/Arena/Alloc.antt =====
-- One call of `arena_alloc`.
use attica.Base.Bits.{IsPowerOfTwo}
use attica.Base.{
  ℕ, ◌-◌, ◌+◌, ◌%◌, ◌≤◌, ◌<◌, ◌≡◌, ◌≢◌, refl, ◌⊎◌, inl, inr, false, arith, word, Ptr, null, ok,
  Returns, ltb, Bool-cases, ltb→lt,
}
use mathlib.Core.Path.{subst}
use attica.Memory.Align.{IsRoundUp, padding_needed-IsRoundUp}
use attica.Allocator.Arena.{Arena, arena_alloc}

-- The buffer lies in the address space, and the offset in the buffer.
pub record IsValid (a : Arena) : Type 0 where
  pub buffer : a.buffer ≢ null
  pub fits : a.buffer + a.capacity < word
  pub within : a.offset ≤ a.capacity

-- `p` is the start of a block of `size` bytes that the step from `a` to `b` cut off.
pub record Cuts (size alignment : ℕ) (a b : Arena) (p : Ptr) : Type 0 where
  pub aligned : IsRoundUp (a.buffer + a.offset) alignment p
  pub ends : p + size ≡ a.buffer + b.offset
  pub buffer : b.buffer ≡ a.buffer
  pub capacity : b.capacity ≡ a.capacity

module _ {a : Arena} (valid : IsValid a) {alignment : ℕ} (power : IsPowerOfTwo alignment)
    (small : alignment < word) (size : ℕ) where
  -- A request that cannot wrap either gets the first aligned block behind the last one, inside the
  -- buffer, or finds no such block there and changes nothing.
  pub arena_alloc-Cuts :
      a.offset + alignment + size ≤ word
      → Returns (arena_alloc size alignment a) λ r.
        (Cuts size alignment a r.1 r.0 × IsValid r.1 × (r.0 ≢ null))
        ⊎ ((r ≡ (null, a))
            × ((p : Ptr)
                → IsRoundUp (a.buffer + a.offset) alignment p
                → a.buffer + a.capacity < p + size))
  unfolding arena_alloc
  arena_alloc-Cuts room =
      let (padding, run, (up, less)) =
        padding_needed-IsRoundUp power small ((a.buffer + a.offset) % word) in
      let here : (a.buffer + a.offset) % word ≡ a.buffer + a.offset = omega arith in
      let sum : (a.offset + padding + size) % word ≡ a.offset + padding + size = omega arith in
      let start : (a.offset + padding) % word ≡ a.offset + padding = omega arith in
      let up' = subst (λ n. IsRoundUp n alignment (n + padding)) here up in
      elim (Bool-cases (ltb a.capacity (a.offset + padding + size))) [
        | inl full ↦ (
          (null, a),
          rw (run, sum, full),
          inr (
            refl,
            λ p q. omega (
              arith,
              up'.least p q.aligned q.above,
              ltb→lt a.capacity (a.offset + padding + size) full,
            ),
          ),
        )
        | inr fits ↦
            let le : a.offset + padding + size ≤ a.capacity = ground arith in
            let at : (a.buffer + (a.offset + padding)) % word ≡ a.buffer + a.offset + padding =
              omega arith in
            (
              (a.buffer + a.offset + padding, record a { offset = a.offset + padding + size }),
              rw (run, sum, fits, start, at, sum),
              inl (
                record { aligned = up'; ends = omega arith; buffer = refl; capacity = refl },
                record { buffer = valid.buffer; fits = valid.fits; within = le },
                omega arith,
              ),
            )
      ]

  -- The bound is checked on the wrapped sum: at an aligned offset, a size that takes the sum past
  -- the end of the address space is accepted, and the offset goes back.
  pub arena_alloc-wraps :
      (a.buffer + a.offset) % alignment ≡ 0
      → word - a.offset ≤ size
      → size < word
      → (arena_alloc size alignment a
          ≡ ok (a.buffer + a.offset, record a { offset = a.offset + size - word }))
        × (a.offset + size - word < a.offset)
  unfolding arena_alloc
  arena_alloc-wraps at_multiple long fits =
      let (padding, run, (up, less)) =
        padding_needed-IsRoundUp power small ((a.buffer + a.offset) % word) in
      let here : (a.buffer + a.offset) % word ≡ a.buffer + a.offset = omega arith in
      let up' = subst (λ n. IsRoundUp n alignment (n + padding)) here up in
      let none : padding ≡ 0 =
        omega (arith, up'.least (a.buffer + a.offset) at_multiple (omega arith)) in
      let sum : (a.offset + padding + size) % word ≡ a.offset + size - word = omega arith in
      let start : (a.offset + padding) % word ≡ a.offset = omega arith in
      let low : ltb a.capacity (a.offset + size - word) ≡ false = ground arith in
      let at : (a.buffer + a.offset) % word ≡ a.buffer + a.offset = omega arith in
      let wrapped : (a.offset + size) % word ≡ a.offset + size - word = omega arith in
      (rw (run, sum, low, start, at, wrapped), omega arith)
