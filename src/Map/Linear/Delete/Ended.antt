-- ===== src/Map/Linear/Delete/Ended.antt =====
-- The table after the loop in `hash_map_delete_internal` of map/linear.c that puts back the entries
-- behind the deleted one.
use native.Mathlib.Decide.{dec_lt, ℕ_discrete}
use attica.Base.{
  ℕ, zero, suc, ◌≤◌, ◌<◌, ◌≡◌, ◌≢◌, refl, ◌∙◌, sym, ap, arith, List, [], ◌∷◌, Ptr, null, length,
  get_or,
}
use attica.Map.Linear.{Entry, KeyType, slot, blank}
use attica.Map.Linear.Search.{IsKeyType, Match, IsPlaced}
use attica.Map.Linear.Ring.{coordinate, wrap-coordinate, coordinate-lt}
use attica.Map.Linear.Delete.{at, at-lt, place, IsReached, Stands, IsReached-IsPlaced}
use attica.Map.Linear.Delete.Mending.{IsRun, IsMending}

get_or-outside {ℓ} : {A : Type ℓ} (xs : List A) (i : ℕ) (d : A) → length xs ≤ i → get_or xs i d ≡ d
get_or-outside [] i d h = refl
get_or-outside (x ∷ xs) zero d h = absurd (omega arith)
get_or-outside (x ∷ xs) (suc i) d h = get_or-outside xs i d (omega arith)

module _ (type : KeyType) (keys : IsKeyType type) (n s : ℕ) (hs : s < n) where
  -- A slot that matches a key is a place where the key stands.
  pub Match-Stands :
      (es : List Entry) (j : ℕ) (q : Ptr)
      → length es ≡ n
      → Match type es j q
      → (there : Stands type n s hs es q (slot es j).value) × (at type n s hs there.spot ≡ j)
  Match-Stands es j q sized match =
      let hj : j < n = omega (arith, match.below) in
      let here : at type n s hs (coordinate n s j) ≡ j = wrap-coordinate n s j hs hj in
      (
        record {
          spot = coordinate n s j;
          bound = coordinate-lt n s j hs hj;
          used = rw here (match.used);
          same = rw here (match.same);
          holds = rw here;
        },
        here,
      )

  pub Stands-Match :
      (es : List Entry) (q v : Ptr)
      → length es ≡ n
      → (there : Stands type n s hs es q v) → Match type es (at type n s hs there.spot) q
  Stands-Match es q v sized there = record {
    below = omega (arith, at-lt type n s hs there.spot there.bound);
    used = there.used;
    same = there.same;
  }

  module _ (old : List Entry) (e : ℕ) (run : IsRun type n s hs old e) (es : List Entry)
      (mending : IsMending type n s hs old e e es) where
    at-used : (j : ℕ) → (slot es j).key ≢ null → (c : ℕ) × (c < n) × (at type n s hs c ≡ j)
    at-used j used = elim (dec_lt j n) [
      | yes hj ↦ (coordinate n s j, coordinate-lt n s j hs hj, wrap-coordinate n s j hs hj)
      | no out ↦ absurd (
          used
            (ap (λ (x : Entry). x.key) (get_or-outside es j blank (omega (arith, mending.sized)))))
    ]

    all-IsReached :
        (c : ℕ) → c < n → (place type n s hs es c).key ≢ null → IsReached type n s hs es c
    all-IsReached c hc used = elim (ℕ_discrete c e) [
      | no away ↦ mending.reached c hc (ground arith) used
      | yes here ↦ absurd (
          used (
            ap (λ c. (place type n s hs es c).key) here
            ∙ ap (λ (x : Entry). x.key) (mending.ahead e (omega arith) run.inside)
            ∙ run.gap))
    ]

    -- With every entry behind the deleted one put back the table is well formed.
    pub ended-IsPlaced : IsPlaced type es n
    ended-IsPlaced = record {
      sized = mending.sized;
      reached = IsReached-IsPlaced type n s hs es mending.sized mending.straight all-IsReached;
      valued = λ j used.
          let (c, hc, here) = at-used j used in rw (← here) (mending.valued c hc (rw here used));
      unique = λ j k q one two.
          let (c, hc, hj) = at-used j one.used in
          let (d, hd, hk) = at-used k two.used in
          let same =
            keys.same_trans (slot es j).key q (slot es k).key one.same
              (keys.same_symm q (slot es k).key ∙ two.same) in
          sym hj
          ∙ ap (at type n s hs)
              (mending.unique c d hc hd (rw hj (one.used)) (rw hk (two.used)) (rw (hj, hk) same))
          ∙ hk;
    }
