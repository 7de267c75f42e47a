-- ===== src/Allocator/Stack/Order.antt =====
-- `stack_push` and `stack_pop` of allocator/stack.c, alone and one after the other.
use mathlib.Core.List.{append_cancel_right}
use mathlib.Core.Path.{subst}
use attica.Base.Bits.{IsPowerOfTwo}
use attica.Base.{
  ℕ, zero, suc, ◌-◌, ◌+◌, ◌*◌, ◌%◌, ◌^◌, ◌≤◌, ◌<◌, ◌≡◌, ◌≢◌, refl, arith, word, List, [], ◌∷◌, ◌++◌,
  length, get_or, set, take, length-set, ltb, Bool-cases, inl, inr, ap, ◌==◌, ◌⊎◌, Returns, Ptr,
  null, ltb→lt, sym, ◌∙◌,
}
use attica.Memory.Align.{IsRoundUp, padding_needed-IsRoundUp}
use attica.Allocator.Stack.Shape.{
  IsShaped, saved, saved-grow, saved-shrink, shrink-IsShaped, length-resize_array,
}
use attica.Allocator.Stack.{Stack, grow, shrink, push, pop}

-- Offsets that rise from `lo` on and stay up to `hi`.
abbrev pub Rises : ℕ → List ℕ → ℕ → Type 0
Rises lo [] hi = lo ≤ hi
Rises lo (x ∷ xs) hi = (lo ≤ x) × Rises x xs hi

-- The buffer lies in the address space, and the saved offsets rise to the current one.
pub record IsValid (s : Stack) : Type 0 where
  pub shaped : IsShaped s
  pub buffer : s.buffer ≢ null
  pub fits : s.buffer + s.capacity < word
  pub within : s.offset ≤ s.capacity
  pub rises : Rises 0 (saved s) s.offset

-- What the stack holds: the saved offsets, oldest first, and the current one.
abbrev pub frames : Stack → List ℕ
frames s = saved s ++ s.offset ∷ []

take-set-suc :
    (n v : ℕ) (xs : List ℕ) → n < length xs → take (suc n) (set xs n v) ≡ take n xs ++ v ∷ []
take-set-suc n v [] h = absurd (omega arith)
take-set-suc zero v (x ∷ xs) h = refl
take-set-suc (suc n) v (x ∷ xs) h = ap (λ r. x ∷ r) (take-set-suc n v xs (omega arith))

take-suc :
    (n d : ℕ) (xs : List ℕ) → n < length xs → take (suc n) xs ≡ take n xs ++ get_or xs n d ∷ []
take-suc n d [] h = absurd (omega arith)
take-suc zero d (x ∷ xs) h = refl
take-suc (suc n) d (x ∷ xs) h = ap (λ r. x ∷ r) (take-suc n d xs (omega arith))

Rises-append : (lo x hi : ℕ) (xs : List ℕ) → Rises lo xs x → x ≤ hi → Rises lo (xs ++ x ∷ []) hi
Rises-append lo x hi [] h k = (h, k)
Rises-append lo x hi (y ∷ ys) h k = (h.0, Rises-append y x hi ys h.1 k)

Rises-init : (lo x hi : ℕ) (xs : List ℕ) → Rises lo (xs ++ x ∷ []) hi → Rises lo xs x × (x ≤ hi)
Rises-init lo x hi [] h = (h.0, h.1)
Rises-init lo x hi (y ∷ ys) h = let (r, le) = Rises-init y x hi ys h.1 in ((h.0, r), le)

-- What `grow` guarantees to the write that follows.
grow-roomy :
    (junk : ℕ) (s : Stack)
    → IsShaped s
    → s.num_allocs < 2 ^ 60
    → (length (grow junk s).last_offset ≡ (grow junk s).max_allocs)
      × ((grow junk s).num_allocs ≡ s.num_allocs)
      × (s.num_allocs < (grow junk s).max_allocs)
      × ((grow junk s).max_allocs ≤ 4 * (s.num_allocs + 1) + 7)
      × ((grow junk s).buffer ≡ s.buffer)
      × ((grow junk s).capacity ≡ s.capacity)
      × ((grow junk s).offset ≡ s.offset)
unfolding grow
grow-roomy junk s sh few = ground (
  arith,
  length-resize_array junk 1 s.last_offset,
  length-resize_array junk ((s.max_allocs * 2) % word) s.last_offset,
)

-- A push that found room: the pointer is the first aligned address behind the current offset, the
-- block ends at the new offset, and the frames grow by that offset.
pub record Pushes (size alignment : ℕ) (s t : Stack) (p : Ptr) : Type 0 where
  pub aligned : IsRoundUp (s.buffer + s.offset) alignment p
  pub ends : p + size ≡ t.buffer + t.offset
  pub kept : saved t ≡ frames s
  pub buffer : t.buffer ≡ s.buffer
  pub capacity : t.capacity ≡ s.capacity
  pub counted : t.num_allocs ≡ s.num_allocs + 1

-- The state that `stack_push` writes after the padding is known.
after_push : (junk start size : ℕ) → Stack → Stack
after_push junk start size s =
    let g = grow junk s in
    record g {
      last_offset = set g.last_offset g.num_allocs g.offset;
      num_allocs = (g.num_allocs + 1) % word;
      offset = (start + size) % word;
    }

module _ (junk : ℕ) {s : Stack} (valid : IsValid s) (few : s.num_allocs < 2 ^ 60) where
  after_push-saved : (start size : ℕ) → saved (after_push junk start size s) ≡ frames s
  unfolding saved after_push
  after_push-saved start size =
      let (len, num, room, bound, b, c, o) = grow-roomy junk s valid.shaped few in
      let g = grow junk s in
      let next : (g.num_allocs + 1) % word ≡ suc g.num_allocs = omega arith in
      let old : take g.num_allocs g.last_offset ≡ saved s = saved-grow junk s valid.shaped few in
      rw (next, take-set-suc g.num_allocs g.offset g.last_offset (omega arith), old, o)

  after_push-IsShaped : (start size : ℕ) → IsShaped (after_push junk start size s)
  unfolding after_push
  after_push-IsShaped start size =
      let (len, num, room, bound, b, c, o) = grow-roomy junk s valid.shaped few in
      let g = grow junk s in
      record {
        cells = length-set g.last_offset g.num_allocs g.offset ∙ len;
        in_use = omega arith;
        modest = omega arith;
      }

  module _ {alignment : ℕ} (power : IsPowerOfTwo alignment) (small : alignment < word)
      (size : ℕ) where
    -- A request that cannot wrap either is pushed, and the stack stays valid, or it does not fit
    -- behind the current offset and nothing changes.
    pub push-Pushes :
        s.offset + alignment + size ≤ word
        → Returns (push junk size alignment s) λ r.
          (Pushes size alignment s r.1 r.0 × IsValid r.1 × (r.0 ≢ null))
          ⊎ ((r ≡ (null, s))
              × ((p : Ptr)
                  → IsRoundUp (s.buffer + s.offset) alignment p
                  → s.buffer + s.capacity < p + size))
    unfolding push after_push
    push-Pushes room =
        let (padding, run, (up, less)) =
          padding_needed-IsRoundUp power small ((s.buffer + s.offset) % word) in
        let here : (s.buffer + s.offset) % word ≡ s.buffer + s.offset = omega arith in
        let sum : (s.offset + padding + size) % word ≡ s.offset + padding + size = omega arith in
        let up' = subst (λ n. IsRoundUp n alignment (n + padding)) here up in
        elim (Bool-cases (ltb s.capacity (s.offset + padding + size))) [
          | inl full ↦ (
            (null, s),
            rw (run, sum, full),
            inr (
              refl,
              λ p q. omega (
                arith,
                up'.least p q.aligned q.above,
                ltb→lt s.capacity (s.offset + padding + size) full,
              ),
            ),
          )
          | inr fits ↦
              let (len, num, room', bound, b, c, o) = grow-roomy junk s valid.shaped few in
              let g = grow junk s in
              let start : (g.offset + padding) % word ≡ s.offset + padding = omega arith in
              let t = after_push junk (s.offset + padding) size s in
              let le : s.offset + padding + size ≤ s.capacity = ground arith in
              let at : (g.buffer + (s.offset + padding)) % word ≡ s.buffer + s.offset + padding =
                omega arith in
              let final : t.offset ≡ s.offset + padding + size = omega arith in
              let whole : saved t ≡ frames s = after_push-saved (s.offset + padding) size in
              (
                (s.buffer + s.offset + padding, t),
                rw (run, sum, fits, start, at, sum),
                inl (
                  record {
                    aligned = up';
                    ends = omega arith;
                    kept = whole;
                    buffer = b;
                    capacity = c;
                    counted = omega arith;
                  },
                  record {
                    shaped = after_push-IsShaped (s.offset + padding) size;
                    buffer = rw b valid.buffer;
                    fits = omega arith;
                    within = omega arith;
                    rises =
                        rw whole
                          (Rises-append 0 s.offset t.offset (saved s) valid.rises (omega arith));
                  },
                  omega arith,
                ),
              )
        ]

pub saved-split :
    (junk : ℕ) (s : Stack)
    → IsShaped s
    → 0 < s.num_allocs
    → let n = s.num_allocs - 1 in saved s ≡ take n s.last_offset ++ get_or s.last_offset n junk ∷ []
unfolding saved
saved-split junk s sh some =
    let next : s.num_allocs ≡ suc (s.num_allocs - 1) = omega arith in
    ap (λ k. take k s.last_offset) next
    ∙ take-suc (s.num_allocs - 1) junk s.last_offset (omega arith)

saved-popped :
    (n o : ℕ) (s : Stack) → saved (record s { num_allocs = n; offset = o }) ≡ take n s.last_offset
unfolding saved
saved-popped n o s = refl

shrink-fields :
    (junk : ℕ) (s : Stack)
    → ((shrink junk s).buffer ≡ s.buffer)
      × ((shrink junk s).capacity ≡ s.capacity)
      × ((shrink junk s).offset ≡ s.offset)
unfolding shrink
shrink-fields junk s = ground arith

-- `stack_pop` takes off the newest frame, on an empty stack it changes nothing, and it keeps the
-- stack valid.
pub pop-frames :
    (junk : ℕ) {s : Stack}
    → IsValid s
    → (((s.num_allocs ≡ 0) × (pop junk s ≡ s))
        ⊎ ((0 < s.num_allocs) × (frames s ≡ frames (pop junk s) ++ s.offset ∷ [])))
      × IsValid (pop junk s)
unfolding pop
pop-frames junk {s} valid = elim (Bool-cases (s.num_allocs == 0)) [
  | inl e ↦ (inl (ground arith, rw e), rw e valid)
  | inr e ↦
      let n = s.num_allocs - 1 in
      let last = get_or s.last_offset n junk in
      let popped : Stack = record s { num_allocs = n; offset = last } in
      let sh = valid.shaped in
      let given : 0 < s.num_allocs = ground arith in
      let split = saved-split junk s sh given in
      let kept : saved (shrink junk popped) ≡ take n s.last_offset =
        saved-shrink junk popped sh.cells (omega arith) ∙ saved-popped n last s in
      let (rise, le) =
        Rises-init 0 last s.offset (take n s.last_offset) (rw split at valid.rises) in
      let (b, c, o) = shrink-fields junk popped in
      (
        inr (given, rw (e, kept, o, split)),
        rw e (record {
          shaped = shrink-IsShaped junk popped sh.cells (omega arith) (omega arith);
          buffer = rw b valid.buffer;
          fits = omega arith;
          within = omega arith;
          rises = rw (kept, o) rise;
        }),
      )
]

-- A pop undoes a push that found room: the same saved offsets and the same current offset are
-- there again, and the stack is valid.
pub pop-push :
    (junk : ℕ) {s : Stack}
    → IsValid s
    → s.num_allocs < 2 ^ 60
    → {alignment : ℕ} → IsPowerOfTwo alignment
    → alignment < word
    → (size : ℕ) → s.offset + alignment + size ≤ word
    → Returns (push junk size alignment s) λ r.
      (r ≡ (null, s)) ⊎ ((r.0 ≢ null) × (frames (pop junk r.1) ≡ frames s) × IsValid (pop junk r.1))
pop-push junk {s} valid few power small size room =
    let ((p, t), run, out) = push-Pushes junk valid few power small size room in
    (
      (p, t),
      run,
      elim out [
        | inr (same, none) ↦ inl same
        | inl (pushed, valid_t, given) ↦
            let (taken, keep) = pop-frames junk valid_t in
            elim taken [
              | inl (empty, same) ↦ absurd (omega (arith, pushed.counted))
              | inr (some, split) ↦ inr (
                given,
                sym (
                    append_cancel_right (frames s) (frames (pop junk t)) (t.offset ∷ [])
                      (ap (λ l. l ++ t.offset ∷ []) (sym pushed.kept) ∙ split)),
                keep,
              )
            ]
      ],
    )
