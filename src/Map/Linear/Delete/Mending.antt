-- ===== src/Map/Linear/Delete/Mending.antt =====
-- The table while `hash_map_delete_internal` of map/linear.c takes out and puts back the entries
-- behind the deleted one.
use native.Mathlib.Decide.{ℕ_discrete}
use attica.Base.{
  ℕ, ◌≤◌, ◌<◌, ◌≡◌, ◌≢◌, ◌⊎◌, ◌∙◌, sym, ap, true, List, null, length, length-set, set,
}
use attica.Map.Linear.{Entry, KeyType, blank}
use attica.Map.Linear.Ring.{IsStraight}
use attica.Map.Linear.Delete.{at, place, IsReached, place-set_self, place-set_ne}

module _ (type : KeyType) (n s : ℕ) (hs : s < n) where
  -- The entries that `old` has at the start; `e` is the first coordinate behind the deleted entry
  -- that is empty.
  pub record IsRun (old : List Entry) (e : ℕ) : Type 0 where
    pub size : length old ≡ n
    pub after : 0 < e
    pub inside : e < n
    pub gap : (place type n s hs old e).key ≡ null
    pub full : (c : ℕ) → 0 < c → c < e → (place type n s hs old c).key ≢ null
    pub reached :
        (c : ℕ) → c < n → (place type n s hs old c).key ≢ null → IsReached type n s hs old c

  -- The entries at coordinates below `t` have been put back, those from `t` on not touched.
  pub record IsMending (old : List Entry) (e t : ℕ) (es : List Entry) : Type 0 where
    pub sized : length es ≡ n
    pub behind : 0 < t
    pub ahead : (c : ℕ) → t ≤ c → c < n → place type n s hs es c ≡ place type n s hs old c
    pub reached :
        (c : ℕ)
        → c < n
        → ((c < t) ⊎ (e < c))
        → (place type n s hs es c).key ≢ null
        → IsReached type n s hs es c
    pub unique :
        (c d : ℕ)
        → c < n
        → d < n
        → (place type n s hs es c).key ≢ null
        → (place type n s hs es d).key ≢ null
        → type.same (place type n s hs es c).key (place type n s hs es d).key ≡ true
        → c ≡ d
    pub valued :
        (c : ℕ)
        → c < n
        → (place type n s hs es c).key ≢ null
        → (place type n s hs es c).value ≢ null
    pub straight :
        (c : ℕ)
        → c < n
        → (place type n s hs es c).key ≢ null
        → IsStraight type n (place type n s hs es c).key

  -- The entries after the one at `t` is put at `u`.
  abbrev pub moved : (t u : ℕ) → List Entry → List Entry
  moved t u es = set (set es (at type n s hs t) blank) (at type n s hs u) (place type n s hs es t)

  pub length-moved : (t u : ℕ) (es : List Entry) → length (moved t u es) ≡ length es
  length-moved t u es = length-set _ _ _ ∙ length-set _ _ _

  module _ (es : List Entry) (size : length es ≡ n) (t u : ℕ) (ht : t < n) (hu : u < n) where
    pub taken_self : place type n s hs (set es (at type n s hs t) blank) t ≡ blank
    taken_self = place-set_self type n s hs es t blank size ht

    pub taken_ne :
        (c : ℕ)
        → c < n
        → t ≢ c
        → place type n s hs (set es (at type n s hs t) blank) c ≡ place type n s hs es c
    taken_ne c hc away = place-set_ne type n s hs es t blank c ht hc away

    pub moved_target : place type n s hs (moved t u es) u ≡ place type n s hs es t
    moved_target = place-set_self type n s hs _ u _ (length-set _ _ _ ∙ size) hu

    pub moved_source : u ≢ t → place type n s hs (moved t u es) t ≡ blank
    moved_source away = place-set_ne type n s hs _ u _ t hu ht away ∙ taken_self

    pub moved_other :
        (c : ℕ)
        → c < n
        → u ≢ c
        → t ≢ c
        → place type n s hs (moved t u es) c ≡ place type n s hs es c
    moved_other c hc away far = place-set_ne type n s hs _ u _ c hu hc away ∙ taken_ne c hc far

  -- What a coordinate holds after an entry is moved.
  pub data Moved (t u c : ℕ) (es es' : List Entry) : Type 0 where
    target : u ≡ c → place type n s hs es' c ≡ place type n s hs es t → Moved t u c es es'
    source : (place type n s hs es' c).key ≡ null → Moved t u c es es'
    other : u ≢ c → t ≢ c → place type n s hs es' c ≡ place type n s hs es c → Moved t u c es es'

  pub moved-Moved :
      (t u c : ℕ) (es : List Entry)
      → length es ≡ n
      → t < n
      → u < n
      → c < n
      → Moved t u c es (moved t u es)
  moved-Moved t u c es size ht hu hc = elim (ℕ_discrete u c) [
    | yes here ↦
        target here
          (ap (place type n s hs (moved t u es)) (sym here) ∙ moved_target es size t u ht hu)
    | no away ↦ elim (ℕ_discrete t c) [
      | yes here ↦ source (
          ap (λ c. (place type n s hs (moved t u es) c).key) (sym here)
          ∙ ap (λ (e : Entry). e.key) (moved_source es size t u ht hu (λ h. away (h ∙ here))))
      | no far ↦ other away far (moved_other es size t u ht hu c hc away far)
    ]
  ]
