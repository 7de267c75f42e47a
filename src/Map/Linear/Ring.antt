-- ===== src/Map/Linear/Ring.antt =====
-- The slots of a table of map/linear.c as a ring, and the probe sequences that run along it.
use native.Mathlib.Nat.{mod-eq_of_lt, mod-eq-sub-mod, add-mod, mod-lt}
use attica.Base.{
  ◌∙◌, ℕ, zero, suc, ◌+◌, ◌-◌, ◌%◌, ◌≤◌, ◌<◌, ◌≡◌, ◌⊎◌, inl, inr, Bool, true, false, ◌&&◌, ◌||◌,
  arith, ltb, leb, if◌then◌else◌, Ptr, Bool-cases, word,
}
use attica.Map.Linear.{KeyType, probe}

-- A number below `2 * n` on a ring of `n` slots.
abbrev pub wrap : (n x : ℕ) → ℕ
wrap n x = if ltb x n then x else x - n

pub wrap-lt : (n x : ℕ) → x < n + n → wrap n x < n
wrap-lt n x h = ground arith

-- How far slot `x` lies behind slot `s`.
abbrev pub coordinate : (n s x : ℕ) → ℕ
coordinate n s x = wrap n (x + (n - s))

pub wrap-coordinate : (n s x : ℕ) → s < n → x < n → wrap n (s + coordinate n s x) ≡ x
wrap-coordinate n s x h k = ground arith

pub coordinate-wrap : (n s c : ℕ) → s < n → c < n → coordinate n s (wrap n (s + c)) ≡ c
coordinate-wrap n s c h k = ground arith

pub coordinate-lt : (n s x : ℕ) → s < n → x < n → coordinate n s x < n
coordinate-lt n s x h k = ground arith

-- Going up from `a` on the ring, `x` comes before `c`.
abbrev pub between : (a x c : ℕ) → Bool
between a x c = if leb a c then leb a x && ltb x c else ltb x c || leb a x

-- The sequence of a key runs along the ring: the sum of the hash and the probe does not wrap at 2^64
-- where that matters.
abbrev pub IsStraight : KeyType → (size : ℕ) → Ptr → Type 0
IsStraight type size q =
    (i : ℕ) → i < size → probe type q size i ≡ wrap size (probe type q size 0 + i)

-- The least number that passes a test.
pub least :
    (p : ℕ → Bool) (n : ℕ)
    → p n ≡ true
    → (d : ℕ) × (d ≤ n) × (p d ≡ true) × ((x : ℕ) → x < d → p x ≡ false)
least p zero h = (0, omega arith, h, λ x k. absurd (omega arith))
least p (suc n) h = elim (Bool-cases (p 0)) [
  | inl now ↦ (0, omega arith, now, λ x k. absurd (omega arith))
  | inr later ↦
      let (d, le, hit, before) = least (λ x. p (suc x)) n h in
      (suc d, omega arith, hit, λ x k. below d before later x k)
]
  where
    below :
        (d : ℕ)
        → ((x : ℕ) → x < d → p (suc x) ≡ false)
        → p 0 ≡ false
        → (x : ℕ) → x < suc d
        → p x ≡ false
    below d before later zero k = later
    below d before later (suc x) k = before x (omega arith)

-- Probe `i` from `home`, as a slot and as a coordinate.
pub wrap-home :
    (n s home i : ℕ)
    → s < n
    → home < n
    → i < n
    → wrap n (home + i) ≡ wrap n (s + wrap n (coordinate n s home + i))
wrap-home n s home i hs hh hi = ground arith

-- Different coordinates are different slots.
pub coordinate_unique :
    (n s c d : ℕ) → s < n → c < n → d < n → wrap n (s + c) ≡ wrap n (s + d) → c ≡ d
coordinate_unique n s c d hs hc hd e = ground arith

-- The way from `home` to coordinate `c` passes what lies between.
pub between-wrap :
    (n home c x : ℕ)
    → home < n
    → c < n
    → x < coordinate n home c
    → between home (wrap n (home + x)) c ≡ true
between-wrap n home c x hh hc hx = ground arith

pub between-lt :
    (n home x d : ℕ)
    → home < n
    → x < n
    → d < n
    → between home x (wrap n (home + d)) ≡ true
    → coordinate n home x < d
between-lt n home x d hh hx hd h = ground arith

-- A way that passes `t` to a place before `t` or behind `e` passes `e`, if `t` is before `e`.
pub passes :
    (n a t e c : ℕ)
    → t < e
    → e < n
    → ((c < t) ⊎ (e < c))
    → between a t c ≡ true
    → between a e c ≡ true
passes n a t e c h k side b = ground arith

-- Where an entry lands that is taken from `t` and put back: not behind `t`.
pub landing :
    (n a t e u : ℕ)
    → t < e
    → between a e t ≡ false
    → between a t u ≡ false
    → ((t < u) → (u < e) → ⊥)
    → ((e < u) → between a u t ≡ true → ⊥)
    → u ≤ t
landing n a t e u h p q inner outer = ground arith

wrap-mod : (n x : ℕ) → 0 < n → x < n + n → x % n ≡ wrap n x
wrap-mod n x pos h = elim (Bool-cases (ltb x n)) [
  | inl small ↦ rw small (mod-eq_of_lt (ground arith))
  | inr large ↦ rw large (mod-eq-sub-mod (ground arith) ∙ mod-eq_of_lt (ground arith))
]

-- A sequence runs straight if the hash leaves room for the size below 2^64.
pub hash-IsStraight :
    (type : KeyType) (size : ℕ) (q : Ptr) → type.hash q + size < word → IsStraight type size q
unfolding probe
hash-IsStraight type size q room i hi =
    let pos : 0 < size = omega arith in
    let h = type.hash q in
    let low : (h + i) % word ≡ h + i = mod-eq_of_lt (omega arith) in
    let low' : (h + 0) % word ≡ h = mod-eq_of_lt (omega arith) ∙ omega arith in
    let small : i % size ≡ i = mod-eq_of_lt hi in
    let lt = mod-lt h pos in
    rw (low, low')
      (add-mod h i size ∙ rw small (wrap-mod size (h % size + i) pos (omega (arith, lt))))
