-- ===== src/Memory/Align.antt =====
-- What the alignment arithmetic of core/memory.c computes.
use attica.Base.Bits.{
  IsPowerOfTwo, mod_unique, bit_and-pred_iff, bit_and-mask, bit_and-high_mask, pow_pos, pow_mono,
}
use attica.Base.{
  ℕ, zero, suc, ◌+◌, ◌-◌, ◌*◌, ◌/◌, ◌%◌, ◌^◌, ◌≤◌, ◌<◌, ◌≡◌, refl, ◌↔◌, true, arith, word, ok,
  Returns, ◌==◌, Bool-cases, ◌⊎◌, inl, inr, false, ltb, lt→ltb, if◌then◌else◌, bit_and, add_word,
  sub_word,
}
use native.Mathlib.Decide.{dec_le}
use native.Mathlib.Nat.{div-add-mod, mod-lt}
use attica.Memory.{
  complement, is_power_of_two, align_offset, is_aligned, align_up, align_down, padding_needed,
  align_unit_count,
}

-- The test of `memory_is_power_of_two` holds exactly of the powers of two, and so not of 0.
pub is_power_of_two-IsPowerOfTwo : (v : ℕ) → (is_power_of_two v ≡ true) ↔ IsPowerOfTwo v
unfolding is_power_of_two
is_power_of_two-IsPowerOfTwo zero =
    (λ h. absurd (ground arith), λ p. absurd (omega (arith, pow_pos p.0, p.1)))
is_power_of_two-IsPowerOfTwo (suc v) = (
  λ h. (bit_and-pred_iff (suc v) (omega arith)).0 (ground arith),
  λ p. ground (arith, (bit_and-pred_iff (suc v) (omega arith)).1 p),
)

-- `r` is the least multiple of `a` that is not below `v`.
pub record IsRoundUp (v a r : ℕ) : Type 0 where
  pub aligned : r % a ≡ 0
  pub above : v ≤ r
  pub least : (m : ℕ) → m % a ≡ 0 → v ≤ m → r ≤ m

multiple_le : (a r m : ℕ) → 0 < a → r % a ≡ 0 → m % a ≡ 0 → r < m + a → r ≤ m
multiple_le a r m pos hr hm h = grind arith

module _ {a : ℕ} (power : IsPowerOfTwo a) where
  alignment_pos : 0 < a
  alignment_pos = omega (arith, pow_pos power.0, power.1)

  passes : is_power_of_two a ≡ true
  passes = (is_power_of_two-IsPowerOfTwo a).1 power

  mask-mod : (v : ℕ) → bit_and v (a - 1) ≡ v % a
  mask-mod v = rw power.1 (bit_and-mask power.0 v)

  module _ (fits : a < word) where
    exponent-le : power.0 ≤ 64
    exponent-le = elim (dec_le power.0 64) [
      | yes h ↦ h
      | no h ↦ absurd (omega (arith, power.1, pow_mono 64 power.0 (omega arith)))
    ]

    pred_word : sub_word a 1 ≡ a - 1
    pred_word = omega (arith, alignment_pos)

    high_mask : (v : ℕ) → v < word → bit_and v (complement (sub_word a 1)) ≡ v - v % a
    high_mask v h =
        let mask : complement (sub_word a 1) ≡ 2 ^ 64 - a = omega (arith, alignment_pos) in
        rw (mask, power.1) (bit_and-high_mask 64 power.0 v exponent-le h)

    pub align_offset-mod : (v : ℕ) → align_offset v a ≡ ok (v % a)
    unfolding align_offset
    align_offset-mod v = rw (passes, pred_word, mask-mod v)

    pub is_aligned-mod : (v : ℕ) → is_aligned v a ≡ ok (v % a == 0)
    unfolding is_aligned
    is_aligned-mod v = rw (passes, align_offset-mod v)

    pub align_down-mod : (v : ℕ) → v < word → align_down v a ≡ ok (v - v % a)
    unfolding align_down
    align_down-mod v h = rw (passes, high_mask v h)

    pub padding_needed-mod : (v : ℕ) → padding_needed v a ≡ ok (if v % a == 0 then 0 else a - v % a)
    unfolding padding_needed
    padding_needed-mod v = rw (passes, align_offset-mod v)

    round_up : (v r : ℕ) → r % a ≡ 0 → v ≤ r → r < v + a → IsRoundUp v a r
    round_up v r aligned above near = record {
      aligned = aligned;
      above = above;
      least = λ m hm le. multiple_le a r m alignment_pos aligned hm (omega arith);
    }

    multiple-mod : (n q : ℕ) → n ≡ a * q → n % a ≡ 0
    multiple-mod n q e = mod_unique a q 0 n (omega arith) alignment_pos

    padding_aligned : (v : ℕ) → (v + (if v % a == 0 then 0 else a - v % a)) % a ≡ 0
    padding_aligned v = elim (Bool-cases (v % a == 0)) [
      | inl e ↦ rw e (multiple-mod (v + 0) (v / a) (ground (arith, div-add-mod v a)))
      | inr e ↦ rw e (
          multiple-mod (v + (a - v % a)) (v / a + 1)
            (omega (arith, div-add-mod v a, mod-lt v alignment_pos)))
    ]

    -- The padding before an address takes it to the next multiple of the alignment, and is
    -- smaller than the alignment.
    pub padding_needed-IsRoundUp :
        (v : ℕ) → Returns (padding_needed v a) (λ p. IsRoundUp v a (v + p) × (p < a))
    padding_needed-IsRoundUp v =
        let p = if v % a == 0 then 0 else a - v % a in
        let small : p < a = ground (arith, alignment_pos) in
        (
          p,
          padding_needed-mod v,
          (round_up v (v + p) (padding_aligned v) (omega arith) (omega arith), small),
        )

    align_up-fits : (v : ℕ) → v ≤ word - a → align_up v a ≡ ok (v + (a - 1) - (v + (a - 1)) % a)
    unfolding align_up
    align_up-fits v h =
        let top : add_word (sub_word (word - 1) a) 1 ≡ word - a = omega (arith, alignment_pos) in
        let sum : sub_word (add_word v a) 1 ≡ v + (a - 1) = omega (arith, alignment_pos) in
        let low : ltb (word - a) v ≡ false = ground arith in
        rw (passes, top, low, sum, high_mask (v + (a - 1)) (omega (arith, alignment_pos)))

    align_up-overflow : (v : ℕ) → word - a < v → align_up v a ≡ ok (word - 1)
    unfolding align_up
    align_up-overflow v h =
        let top : add_word (sub_word (word - 1) a) 1 ≡ word - a = omega (arith, alignment_pos) in
        rw (passes, top, lt→ltb (word - a) v h)

    -- An address that leaves room for one more alignment goes up to the next multiple; beyond, the
    -- result is `UINTPTR_MAX`.
    pub align_up-IsRoundUp :
        (v : ℕ)
        → Returns
            (align_up v a)
            λ r. ((v ≤ word - a) × IsRoundUp v a r × (r < word)) ⊎ ((word - a < v) × (r ≡ word - 1))
    align_up-IsRoundUp v = elim (dec_le v (word - a)) [
      | no h ↦ (word - 1, align_up-overflow v (omega arith), inr (omega arith, refl))
      | yes h ↦
          let x = v + (a - 1) in
          let low = mod-lt x alignment_pos in
          let whole = multiple-mod (x - x % a) (x / a) (omega (arith, div-add-mod x a)) in
          let up = round_up v (x - x % a) whole (omega arith) (omega arith) in
          (x - x % a, align_up-fits v h, inl (h, up, omega (arith, alignment_pos)))
    ]

    -- Rounding down and the padding agree with `memory_is_aligned`: an address is aligned exactly
    -- when it needs no padding, and exactly when rounding down leaves it.
    pub is_aligned-padding :
        (v : ℕ)
        → v < word
        → Returns
            (is_aligned v a)
            λ b. ((b ≡ true) ↔ (padding_needed v a ≡ ok 0)) × ((b ≡ true) ↔ (align_down v a ≡ ok v))
    is_aligned-padding v small = (
      v % a == 0,
      is_aligned-mod v,
      rw (padding_needed-mod v, align_down-mod v small)
          (ground (arith, mod-lt v alignment_pos), ground (arith, div-add-mod v a)),
    )

    -- Where the rounded size and the unit leave no overflow, the count is that of the units that
    -- cover the rounded size: enough, and one less is not enough.
    pub align_unit_count-covers :
        (v size r : ℕ)
        → align_up v a ≡ ok r
        → 0 < size
        → r + size < word
        → Returns (align_unit_count v size a) (λ n. (r ≤ n * size) × (n * size < r + size))
    unfolding align_unit_count
    align_unit_count-covers v size r run pos room =
        let n = (r + size - 1) / size in
        let wrapped : sub_word (add_word r size) 1 ≡ r + size - 1 = omega arith in
        let split = div-add-mod (r + size - 1) size in
        let rest = mod-lt (r + size - 1) pos in
        let below : (r == word - 1) ≡ false = ground arith in
        (
          n,
          rw (lt→ltb 0 size pos, run, below, wrapped),
          (omega (arith, split), omega (arith, split)),
        )
