-- ===== src/Memory/Alloc.antt =====
-- The branches of `memory_alloc`, `memory_calloc` and `memory_realloc` of core/memory.c.
use attica.Base.Bits.{IsPowerOfTwo}
use attica.Base.{
  ℕ, zero, suc, ◌*◌, ◌%◌, ◌^◌, ◌<◌, ◌≡◌, ◌≢◌, refl, ◌↔◌, ◌⊎◌, inl, inr, true, false, ◌&&◌, ◌∷◌,
  arith, word, Ptr, null, Returns, ◌==◌, ltb, if◌then◌else◌, Bool-cases, ap,
}
use attica.Memory.Align.{is_power_of_two-IsPowerOfTwo}
use attica.Memory.{
  Host, is_power_of_two, pointer_alignment, posix_memalign, is_live, release, free, alloc, calloc,
  realloc,
}

-- What `memory_alloc` passes on to the system: a size up to half the address space, and an
-- alignment that is a power of two or is raised to that of a pointer.
pub record IsRequest (size alignment : ℕ) : Type 0 where
  pub some_bytes : 0 < size
  pub half_space : size < 2 ^ 63
  pub some_alignment : 0 < alignment
  pub power : (alignment < 8) ⊎ IsPowerOfTwo alignment

pointer_alignment-power :
    (a : ℕ) → (is_power_of_two (pointer_alignment a) ≡ true) ↔ ((a < 8) ⊎ IsPowerOfTwo a)
unfolding pointer_alignment
pointer_alignment-power a = elim (Bool-cases (ltb a 8)) [
  | inl e ↦ rw e (λ _. inl (ground arith), λ _. (is_power_of_two-IsPowerOfTwo 8).1 (3, refl))
  | inr e ↦ rw e (
    λ h. inr ((is_power_of_two-IsPowerOfTwo a).0 h),
    λ o. elim o [ inl lt ↦ absurd (ground arith) | inr p ↦ (is_power_of_two-IsPowerOfTwo a).1 p ],
  )
]

-- A request reaches the system allocator, anything else is answered by `NULL` with no call.
pub alloc-IsRequest :
    (size alignment : ℕ) (host : Host)
    → (IsRequest size alignment × (alloc size alignment host ≡ posix_memalign host))
      ⊎ ((¬ IsRequest size alignment) × (alloc size alignment host ≡ (null, host)))
unfolding alloc
alloc-IsRequest size alignment host =
    elim (Bool-cases (is_power_of_two (pointer_alignment alignment))) [
      | inr e ↦
          inr (λ r. cc (e, (pointer_alignment-power alignment).1 r.power), rw e (ground arith))
      | inl e ↦ elim (Bool-cases (ltb 0 size && ltb size (2 ^ 63) && ltb 0 alignment)) [
        | inl fits ↦ inl (
          record {
            some_bytes = ground arith;
            half_space = ground arith;
            some_alignment = ground arith;
            power = (pointer_alignment-power alignment).0 e;
          },
          rw e (ground arith),
        )
        | inr bad ↦ inr (λ r. ground arith, rw e (ground arith))
      ]
    ]

-- `memory_calloc` multiplies without a check: where the product of the sizes wraps to a positive
-- number, it asks for that many bytes only.
pub calloc-wraps :
    (n size alignment : ℕ) (host : Host)
    → 0 < (n * size) % word
    → calloc n size alignment host ≡ calloc 1 ((n * size) % word) alignment host
unfolding calloc
calloc-wraps zero size alignment host pos = absurd (omega arith)
calloc-wraps (suc n) zero alignment host pos = absurd (omega arith)
calloc-wraps (suc n) (suc size) alignment host pos =
    let t = (suc n * suc size) % word in
    let once : (1 * t) % word ≡ t = omega arith in
    let some : (t == 0) ≡ false = ground arith in
    let n0 : (suc n == 0) ≡ false = ground arith in
    let s0 : (suc size == 0) ≡ false = ground arith in rw (once, some, calloc, n0, s0)

alloc-live :
    (size alignment : ℕ) (host : Host)
    → let (p, after) = alloc size alignment host in
      after.live ≡ (if p == null then host.live else p ∷ host.live)
unfolding alloc posix_memalign
alloc-live size alignment host = ground arith

-- `memory_realloc` of a live block to a positive size never faults: a failure leaves every block
-- as it was, a success replaces the block by the new one.
pub realloc-live :
    (ptr : Ptr) (new_size alignment : ℕ) (host : Host)
    → ptr ≢ null
    → is_live ptr host.live ≡ true
    → 0 < new_size
    → 0 < alignment
    → Returns (realloc ptr new_size alignment host) λ r.
      ((r.0 ≡ null) × (r.1.live ≡ host.live))
      ⊎ ((r.0 ≢ null) × (r.1.live ≡ release ptr (r.0 ∷ host.live)))
unfolding realloc free is_live
realloc-live ptr new_size alignment host given live size_pos align_pos =
    let p0 : (ptr == null) ≡ false = ground arith in
    let n0 : (new_size == 0) ≡ false = ground arith in
    let a0 : (alignment == 0) ≡ false = ground arith in
    elim (Bool-cases (is_power_of_two alignment)) [
      | inr e ↦ ((null, host), rw (e, p0, n0, a0), inl (refl, refl))
      | inl e ↦
          let moved = alloc-live new_size alignment host in
          let (new_ptr, after) = alloc new_size alignment host in
          elim (Bool-cases (new_ptr == null)) [
            | inl bad ↦ ((null, after), rw (e, p0, n0, a0, bad), inl (refl, rw bad at moved))
            | inr good ↦
                let grown : after.live ≡ new_ptr ∷ host.live = rw good at moved in
                let found : is_live ptr after.live ≡ true = rw grown (ground arith) in
                (
                  (new_ptr, record after { live = release ptr after.live }),
                  rw (e, p0, n0, a0, good, found),
                  inr (ground arith, ap (release ptr) grown),
                )
          ]
    ]
