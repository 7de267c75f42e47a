-- ===== src/Map/Linear/Delete.antt =====
-- The entries of map/linear.c seen from the slot of a deleted entry: `hash_map_delete_internal`.
pub mod Mending
pub mod Step
pub mod Removed
pub mod Start
pub mod Ended
pub mod Deletes
use native.Mathlib.Decide.{dec_lt}
use attica.Base.{ℕ, ◌+◌, ◌<◌, ◌≡◌, ◌≢◌, ◌∙◌, sym, ap, true, arith, List, Ptr, null, length, set}
use mathlib.Core.Path.{subst}
use attica.Map.Linear.{Entry, KeyType, slot, probe}
use attica.Map.Linear.Search.{IsPlaced, probe-lt, Unbroken}
use attica.Map.Linear.Insert.{slot-set_self, slot-set_ne}
use attica.Map.Linear.Ring.{
  wrap, wrap-lt, coordinate, wrap-coordinate, coordinate-wrap, coordinate-lt, between, IsStraight,
  wrap-home, coordinate_unique, between-wrap, between-lt,
}

-- The table has `n` slots, and the deleted entry stood in slot `s`.
module _ (type : KeyType) (n s : ℕ) (hs : s < n) where
  -- The slot at a coordinate, and its entry.
  abbrev pub at : ℕ → ℕ
  at c = wrap n (s + c)

  abbrev pub place : List Entry → ℕ → Entry
  place es c = slot es (at c)

  -- The coordinate of the first probe for a key.
  abbrev pub home : Ptr → ℕ
  home q = coordinate n s (probe type q n 0)

  -- All that lies between the first probe for the entry's key and the entry is used.
  abbrev pub IsReached : List Entry → ℕ → Type 0
  IsReached es c =
      (x : ℕ) → x < n → between (home (place es c).key) x c ≡ true → (place es x).key ≢ null

  -- A key has an entry at a coordinate.
  pub record Stands (es : List Entry) (q : Ptr) (v : Ptr) : Type 0 where
    pub spot : ℕ
    pub bound : spot < n
    pub used : (place es spot).key ≢ null
    pub same : type.same (place es spot).key q ≡ true
    pub holds : (place es spot).value ≡ v

  pub at-lt : (c : ℕ) → c < n → at c < n
  at-lt c hc = wrap-lt n (s + c) (omega arith)

  pub home-lt : (q : Ptr) → home q < n
  home-lt q = coordinate-lt n s (probe type q n 0) hs (probe-lt type q n 0 (omega arith))

  -- Probe `i` for a key, by its coordinate.
  pub probe-at :
      (q : Ptr) (i : ℕ) → IsStraight type n q → i < n → probe type q n i ≡ at (wrap n (home q + i))
  probe-at q i straight hi =
      straight i hi ∙ wrap-home n s (probe type q n 0) i hs (probe-lt type q n 0 (omega arith)) hi

  pub place-set_self :
      (es : List Entry) (u : ℕ) (e : Entry) → length es ≡ n → u < n → place (set es (at u) e) u ≡ e
  place-set_self es u e sized hu = slot-set_self type es (at u) e (omega (arith, at-lt u hu))

  pub place-set_ne :
      (es : List Entry) (u : ℕ) (e : Entry) (c : ℕ)
      → u < n
      → c < n
      → u ≢ c
      → place (set es (at u) e) c ≡ place es c
  place-set_ne es u e c hu hc away =
      slot-set_ne type es (at u) e (at c) (λ h. away (coordinate_unique n s u c hs hu hc h))

  -- The probe that meets a coordinate.
  pub probe-coordinate :
      (q : Ptr) (x : ℕ)
      → IsStraight type n q
      → x < n
      → probe type q n (coordinate n (home q) x) ≡ at x
  probe-coordinate q x straight hx =
      probe-at q (coordinate n (home q) x) straight (coordinate-lt n (home q) x (home-lt q) hx)
      ∙ ap at (wrap-coordinate n (home q) x (home-lt q) hx)

  -- What lies between the first probes is used if the probes meet no empty slot.
  pub Unbroken-between :
      (es : List Entry) (q : Ptr) (i : ℕ)
      → IsStraight type n q
      → i < n
      → Unbroken type es n i q
      → (x : ℕ) → x < n
      → between (home q) x (wrap n (home q + i)) ≡ true
      → (place es x).key ≢ null
  Unbroken-between es q i straight hi path x hx b =
      subst (λ j. (slot es j).key ≢ null) (probe-coordinate q x straight hx)
        (path (coordinate n (home q) x) (between-lt n (home q) x i (home-lt q) hx hi b))

  -- An entry of a well formed table is reached.
  pub IsPlaced-IsReached :
      (es : List Entry)
      → IsPlaced type es n
      → (c : ℕ) → c < n
      → (place es c).key ≢ null
      → IsStraight type n (place es c).key
      → IsReached es c
  IsPlaced-IsReached es placed c hc used straight x hx b =
      let q = (place es c).key in
      let (i, hi, there, path) =
        placed.reached (at c) (omega (arith, at-lt c hc, placed.sized)) used in
      let spot : wrap n (home q + i) ≡ c =
        coordinate_unique n s (wrap n (home q + i)) c hs
          (wrap-lt n (home q + i) (omega (arith, home-lt q))) hc
          (sym (probe-at q i straight hi) ∙ there) in
      Unbroken-between es q i straight hi path x hx (rw spot b)

  -- And back.
  pub IsReached-IsPlaced :
      (es : List Entry)
      → length es ≡ n
      → ((c : ℕ) → c < n → (place es c).key ≢ null → IsStraight type n (place es c).key)
      → ((c : ℕ) → c < n → (place es c).key ≢ null → IsReached es c)
      → (j : ℕ) → j < length es
      → (slot es j).key ≢ null
      → (i : ℕ) × (i < n)
        × (probe type (slot es j).key n i ≡ j)
        × Unbroken type es n i (slot es j).key
  IsReached-IsPlaced es sized straight reached j hj used =
      let c = coordinate n s j in
      let hc = coordinate-lt n s j hs (omega arith) in
      let here : at c ≡ j = wrap-coordinate n s j hs (omega arith) in
      let q = (slot es j).key in
      let same : place es c ≡ slot es j = ap (slot es) here in
      let used' : (place es c).key ≢ null = rw same used in
      let line : IsStraight type n q = rw same at (straight c hc used') in
      let i = coordinate n (home q) c in
      let hi = coordinate-lt n (home q) c (home-lt q) hc in
      (
        i,
        hi,
        probe-at q i line hi ∙ ap at (wrap-coordinate n (home q) c (home-lt q) hc) ∙ here,
        λ k hk.
            let b : between (home (place es c).key) (wrap n (home q + k)) c ≡ true =
              rw same (between-wrap n (home q) c k (home-lt q) hc hk) in
            subst (λ x. (slot es x).key ≢ null) (sym (probe-at q k line (omega (arith, hk, hi))))
              (reached c hc used' (wrap n (home q + k))
                (wrap-lt n (home q + k) (omega (arith, home-lt q, hk, hi))) b),
      )
