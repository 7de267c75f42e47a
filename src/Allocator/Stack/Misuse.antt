-- ===== src/Allocator/Stack/Misuse.antt =====
-- `stack_reset` and `stack_peek` of allocator/stack.c, next to `stack_push`.
use attica.Base.Bits.{IsPowerOfTwo}
use attica.Base.{
  ℕ, ◌+◌, ◌-◌, ◌%◌, ◌^◌, ◌≤◌, ◌<◌, ◌≡◌, ◌≢◌, refl, true, false, arith, word, Returns, null, ◌⊎◌,
  inl, inr, ltb, lt→ltb, ok, ap, get_or, ◌==◌, sym, ◌∙◌, List, ◌∷◌, [], ◌++◌,
}
use attica.Memory.Align.{IsRoundUp, padding_needed-IsRoundUp}
use attica.Allocator.Stack.Order.{IsValid, push-Pushes, saved-split}
use attica.Allocator.Stack.{Stack, push, peek, reset}

last : ℕ → List ℕ → ℕ
last d [] = d
last d (x ∷ xs) = last x xs

last-append : (d z : ℕ) (xs : List ℕ) → last d (xs ++ z ∷ []) ≡ z
unfolding last
last-append d z [] = refl
last-append d z (x ∷ xs) = last-append x z xs

last_eq : (xs ys : List ℕ) (y z : ℕ) → xs ++ y ∷ [] ≡ ys ++ z ∷ [] → y ≡ z
last_eq xs ys y z e = sym (last-append 0 y xs) ∙ ap (last 0) e ∙ last-append 0 z ys

-- `stack_reset` also sets the capacity to 0, so no push of a byte succeeds afterwards.
pub push-reset :
    (junk : ℕ) {s : Stack}
    → IsValid s
    → {alignment : ℕ} → IsPowerOfTwo alignment
    → alignment < word
    → (size : ℕ) → 0 < size
    → alignment + size ≤ word
    → push junk size alignment (reset s) ≡ ok (null, reset s)
unfolding push reset
push-reset junk {s} valid {alignment} power small size some room =
    let (padding, run, (up, less)) = padding_needed-IsRoundUp power small ((s.buffer + 0) % word) in
    let full : ltb 0 ((0 + padding + size) % word) ≡ true =
      lt→ltb 0 ((0 + padding + size) % word) (omega arith) in
    rw (run, full)

-- `stack_peek` gives the start of the padding of the newest block, which is the block itself only
-- if no padding was needed.
pub peek-push :
    (junk : ℕ) {s : Stack}
    → IsValid s
    → s.num_allocs < 2 ^ 60
    → {alignment : ℕ} → IsPowerOfTwo alignment
    → alignment < word
    → (size : ℕ) → s.offset + alignment + size ≤ word
    → Returns (push junk size alignment s) λ r.
      (r ≡ (null, s))
      ⊎ ((r.0 ≢ null)
          × (peek junk r.1 ≡ s.buffer + s.offset)
          × IsRoundUp (peek junk r.1) alignment r.0)
unfolding peek
peek-push junk {s} valid few power small size room =
    let ((p, t), run, out) = push-Pushes junk valid few power small size room in
    (
      (p, t),
      run,
      elim out [
        | inr (same, none) ↦ inl same
        | inl (pushed, valid_t, given) ↦
            let split = saved-split junk t valid_t.shaped (omega (arith, pushed.counted)) in
            let newest : get_or t.last_offset (t.num_allocs - 1) junk ≡ s.offset =
              last_eq _ _ _ _ (sym split ∙ pushed.kept) in
            let some : (t.num_allocs == 0) ≡ false = ground (arith, pushed.counted) in
            let at : (t.buffer + s.offset) % word ≡ s.buffer + s.offset =
              omega (arith, pushed.buffer) in
            inr (given, rw (some, newest, at), rw (some, newest, at) pushed.aligned)
      ],
    )
