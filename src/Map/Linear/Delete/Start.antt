-- ===== src/Map/Linear/Delete/Start.antt =====
-- The table at the start of the loop in `hash_map_delete_internal` of map/linear.c that puts back
-- the entries behind the deleted one.
use native.Mathlib.Decide.{dec_lt, ℕ_discrete}
use mathlib.Core.Path.{subst}
use attica.Base.{
  ℕ, suc, ◌+◌, ◌-◌, ◌≤◌, ◌<◌, ◌≡◌, ◌≢◌, ◌⊎◌, inr, ◌∙◌, sym, ap, true, false, arith, List, Ptr, null,
  length-set, set, ◌==◌, ==_iff,
}
use attica.Map.Linear.{Entry, KeyType, slot, blank, probe}
use attica.Map.Linear.Search.{IsKeyType, Match, IsPlaced, Unbroken}
use attica.Map.Linear.Ring.{
  IsStraight, wrap, wrap-lt, coordinate, wrap-coordinate, coordinate-lt, between, least, passes,
  coordinate_unique,
}
use attica.Map.Linear.Delete.{
  at, at-lt, place, home, home-lt, IsReached, probe-at, Unbroken-between, IsPlaced-IsReached,
  place-set_self, place-set_ne,
}
use attica.Map.Linear.Delete.Mending.{IsRun, IsMending}

module _ (type : KeyType) (keys : IsKeyType type) (es : List Entry) (n s : ℕ) (hs : s < n)
    (placed : IsPlaced type es n)
    (straight : (j : ℕ) → j < n → (slot es j).key ≢ null → IsStraight type n (slot es j).key)
    (used : (slot es s).key ≢ null) where
  abbrev entry_at : ℕ → Entry
  entry_at = place type n s hs es

  pub at-zero : at type n s hs 0 ≡ s
  at-zero = ground arith

  first-used : (entry_at 0).key ≢ null
  first-used = rw at-zero used

  -- The gap is the first empty slot behind the deleted one.
  pub gap-IsRun : (j : ℕ) → j < n → (slot es j).key ≡ null → (e : ℕ) × IsRun type n s hs es e
  gap-IsRun j hj empty =
      let c = coordinate n s j in
      let hc = coordinate-lt n s j hs hj in
      let here : at type n s hs c ≡ j = wrap-coordinate n s j hs hj in
      let gap : (entry_at c).key ≡ null = rw here empty in
      let behind : c ≢ 0 = λ h. first-used (ap (λ c. (entry_at c).key) (sym h) ∙ gap) in
      let back : suc (c - 1) ≡ c = omega arith in
      let hit : ((entry_at (suc (c - 1))).key == null) ≡ true =
        rw back ((==_iff (entry_at c).key null).1 gap) in
      let (d, le, now, before) = least (λ x. (entry_at (suc x)).key == null) (c - 1) hit in
      (
        suc d,
        record {
          size = placed.sized;
          after = omega arith;
          inside = omega arith;
          gap = (==_iff (entry_at (suc d)).key null).0 now;
          full = λ x pos lt.
              let x' : suc (x - 1) ≡ x = omega arith in
              let no : ((entry_at x).key == null) ≡ false =
                rw x' at (before (x - 1) (omega arith)) in
              ground (arith, no);
          reached = λ x hx given.
              IsPlaced-IsReached type n s hs es placed x hx given
                (straight (at type n s hs x) (at-lt type n s hs x hx) given);
        },
      )

  module _ (e : ℕ) (run : IsRun type n s hs es e) where
    abbrev removed : List Entry
    removed = set es s blank

    removed_first : place type n s hs removed 0 ≡ blank
    removed_first =
        subst (λ z. place type n s hs (set es z blank) 0 ≡ blank) at-zero
          (place-set_self type n s hs es 0 blank placed.sized (omega (arith, hs)))

    pub removed_ne : (c : ℕ) → c < n → c ≢ 0 → place type n s hs removed c ≡ entry_at c
    removed_ne c hc away =
        let apart =
          place-set_ne type n s hs es 0 blank c (omega (arith, hs)) hc (λ h. away (sym h)) in
        subst (λ z. place type n s hs (set es z blank) c ≡ entry_at c) at-zero apart

    -- A coordinate that is still used stands as before, and is not the first.
    pub removed-used :
        (c : ℕ)
        → c < n
        → (place type n s hs removed c).key ≢ null
        → (c ≢ 0) × (place type n s hs removed c ≡ entry_at c)
    removed-used c hc given =
        let away : c ≢ 0 = λ h. given (
          ap (λ c. (place type n s hs removed c).key) h
          ∙ ap (λ (x : Entry). x.key) removed_first) in
        (away, removed_ne c hc away)

    removed-IsReached :
        (c : ℕ)
        → c < n
        → ((c < 1) ⊎ (e < c))
        → (place type n s hs removed c).key ≢ null
        → IsReached type n s hs removed c
    removed-IsReached c hc side given x hx b =
        let (away, same) = removed-used c hc given in
        let far : e < c = ground (arith, side) in
        let b' : between (home type n s hs (entry_at c).key) x c ≡ true = rw same at b in
        let reached = run.reached c hc (rw same at given) in
        elim (ℕ_discrete x 0) [
          | no clear ↦ rw (removed_ne x hx clear) (reached x hx b')
          | yes first ↦
              let through =
                passes n (home type n s hs (entry_at c).key) 0 e c run.after run.inside (inr far)
                  (rw first at b') in
              absurd (reached e run.inside through run.gap)
        ]

    pub removed-IsMending : IsMending type n s hs es e 1 removed
    removed-IsMending = record {
      sized = length-set es s blank ∙ placed.sized;
      behind = omega arith;
      ahead = λ c h hc. removed_ne c hc (omega arith);
      reached = removed-IsReached;
      unique = λ c d hc hd given given' same.
          let (_, ec) = removed-used c hc given in
          let (_, ed) = removed-used d hd given' in
          let key = (entry_at c).key in
          let one : Match type es (at type n s hs c) key = record {
            below = omega (arith, at-lt type n s hs c hc, placed.sized);
            used = rw ec at given;
            same = keys.same_refl key;
          } in
          let two : Match type es (at type n s hs d) key = record {
            below = omega (arith, at-lt type n s hs d hd, placed.sized);
            used = rw ed at given';
            same = keys.same_symm (entry_at d).key key ∙ rw (ec, ed) at same;
          } in
          coordinate_unique n s c d hs hc hd
            (placed.unique (at type n s hs c) (at type n s hs d) key one two);
      valued = λ c hc given.
          let (_, same) = removed-used c hc given in
          rw same (placed.valued (at type n s hs c) (rw same at given));
      straight = λ c hc given.
          let (_, same) = removed-used c hc given in
          rw same (straight (at type n s hs c) (at-lt type n s hs c hc) (rw same at given));
    }

    -- The probes for the deleted key that follow meet the slots behind it, and reach the gap.
    module _ (key : Ptr) (line : IsStraight type n key) (i : ℕ) (hi : i < n)
        (meets : probe type key n i ≡ s) (path : Unbroken type es n i key) where
      from_home : wrap n (home type n s hs key + i) ≡ 0
      from_home =
          coordinate_unique n s (wrap n (home type n s hs key + i)) 0 hs
            (wrap-lt n (home type n s hs key + i) (omega (arith, home-lt type n s hs key)))
            (omega arith) (sym (probe-at type n s hs key i line hi) ∙ meets ∙ sym at-zero)

      pub reaches : i + e < n
      reaches = elim (dec_lt (i + e) n) [
        | yes lt ↦ lt
        | no ge ↦
            let b : between (home type n s hs key) e (wrap n (home type n s hs key + i)) ≡ true =
              rw from_home
                (ground (arith, from_home, home-lt type n s hs key, run.inside, run.after)) in
            absurd (Unbroken-between type n s hs es key i line hi path e run.inside b run.gap)
      ]

      pub follows : (c : ℕ) → c ≤ e → probe type key n (i + c) ≡ at type n s hs c
      follows c hc =
          let spot : wrap n (home type n s hs key + (i + c)) ≡ c =
            ground (arith, from_home, reaches, home-lt type n s hs key) in
          probe-at type n s hs key (i + c) line (omega (arith, reaches)) ∙ ap (at type n s hs) spot
