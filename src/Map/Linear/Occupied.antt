-- ===== src/Map/Linear/Occupied.antt =====
-- How many slots of a table of map/linear.c hold a key.
use attica.Base.{
  ℕ, zero, suc, ◌+◌, ◌%◌, ◌≤◌, ◌<◌, ◌≡◌, ◌≢◌, refl, true, false, arith, List, [], ◌∷◌, ◌==◌, Ptr,
  null, length, set, replicate, if◌then◌else◌, ap, word, ◌∙◌,
}
use mathlib.Core.Path.{subst}
use attica.Map.Linear.{Entry, KeyType, slot, blank, probe}
use attica.Map.Linear.Search.{Unbroken, probe-lt}
use attica.Map.Linear.Ring.{IsStraight, coordinate, coordinate-lt, wrap-coordinate}

unfoldable pub used_slots : List Entry → ℕ
used_slots [] = 0
used_slots (e ∷ es) = if e.key == null then used_slots es else suc (used_slots es)

pub used_slots-le : (es : List Entry) → used_slots es ≤ length es
unfolding used_slots
used_slots-le [] = omega arith
used_slots-le (e ∷ es) = ground (arith, used_slots-le es)

pub used_slots-replicate : (n : ℕ) → used_slots (replicate n blank) ≡ 0
unfolding used_slots
used_slots-replicate zero = refl
used_slots-replicate (suc n) = used_slots-replicate n

-- An empty slot that is filled.
pub used_slots-set :
    (es : List Entry) (i : ℕ) (e : Entry)
    → i < length es
    → (slot es i).key ≡ null
    → e.key ≢ null
    → used_slots (set es i e) ≡ suc (used_slots es)
unfolding used_slots
used_slots-set [] i e below empty some = absurd (omega (arith, below))
used_slots-set (x ∷ es) zero e below empty some =
    let x0 : (x.key == null) ≡ true = ground (arith, empty) in
    let e0 : (e.key == null) ≡ false = ground (arith, some) in rw (x0, e0) refl
used_slots-set (x ∷ es) (suc i) e below empty some =
    ground (arith, used_slots-set es i e (omega (arith, below)) empty some)

-- No slot is empty.
used_slots-full :
    (es : List Entry)
    → ((i : ℕ) → i < length es → (slot es i).key ≢ null)
    → used_slots es ≡ length es
unfolding used_slots
used_slots-full [] every = refl
used_slots-full (e ∷ es) every =
    let e0 : (e.key == null) ≡ false = ground (arith, every 0 (omega arith)) in
    rw e0 (ap suc (used_slots-full es (λ i h. every (suc i) (omega (arith, h)))))

-- Probes that run straight and meet no empty slot meet every slot.
pub straight-used_slots :
    (type : KeyType) (es : List Entry) (size : ℕ) (q : Ptr)
    → length es ≡ size
    → 0 < size
    → IsStraight type size q
    → Unbroken type es size size q
    → used_slots es ≡ size
straight-used_slots type es size q sized pos straight path =
    let first = probe-lt type q size 0 pos in
    used_slots-full es (λ x h.
      let below : x < size = omega (arith, h, sized) in
      let i = coordinate size (probe type q size 0) x in
      let near = coordinate-lt size (probe type q size 0) x first below in
      subst (λ j. (slot es j).key ≢ null)
        (straight i near ∙ wrap-coordinate size (probe type q size 0) x first below) (path i near))
    ∙ sized

-- A 64-bit count after a number of increments.
unfoldable pub bumped : (steps count : ℕ) → ℕ
bumped zero count = count
bumped (suc k) count = bumped k ((count + 1) % word)

pub bumped-mod : (k count : ℕ) → count < word → bumped k count ≡ (count + k) % word
unfolding bumped
bumped-mod zero count h = omega (arith, h)
bumped-mod (suc k) count h = bumped-mod k ((count + 1) % word) (omega arith) ∙ omega arith
