-- ===== src/Map/Linear/Delete/Removed.antt =====
-- The loop in `hash_map_delete_internal` of map/linear.c that puts back the entries behind the
-- deleted one.
use attica.Base.{
  ℕ, zero, suc, ◌+◌, ◌-◌, ◌%◌, ◌≤◌, ◌<◌, ◌≡◌, ◌≢◌, refl, ◌∙◌, sym, ap, true, false, arith, List,
  Ptr, null, length-set, set, ◌==◌, ◌↔◌, word,
}
use native.Mathlib.Decide.{dec_lt, ℕ_discrete}
use mathlib.Core.Path.{subst}
use attica.Map.Linear.{
  Entry, KeyType, HashMap, HashMapState, success, blank, probe, insert_internal, reinsert_loop,
  is_success,
}
use attica.Map.Linear.Search.{IsKeyType, Match}
use attica.Map.Linear.Insert.{Outcome, inserted, present, no_room, insert_internal-Outcome, filled}
use attica.Map.Linear.Rehash.{is_success_iff}
use attica.Map.Linear.Ring.{IsStraight, wrap, wrap-lt, coordinate, wrap-coordinate, coordinate-lt}
use attica.Map.Linear.Delete.{
  at, place, home, home-lt, Stands, probe-at, probe-coordinate, Unbroken-between,
}
use attica.Map.Linear.Delete.Mending.{IsRun, IsMending, moved, taken_self, taken_ne}
use attica.Map.Linear.Delete.Step.{source-used, step-IsMending, step-Stands}

-- `table` without the entry in slot `i`.
abbrev pub without : ℕ → HashMap → HashMap
without i table = record table {
  entries = set table.entries i blank;
  count = (table.count + word - 1) % word;
}

module _ (type : KeyType) (keys : IsKeyType type) (n s : ℕ) (hs : s < n) (old : List Entry) (e : ℕ)
    (run : IsRun type n s hs old e) where
  -- What putting one entry back, or all of them, makes of a table.
  pub record Mends (t : ℕ) (table : HashMap) (r : HashMapState × HashMap) : Type 0 where
    pub succeeds : r.0 ≡ success
    pub size : r.1.size ≡ n
    pub mending : IsMending type n s hs old e t r.1.entries
    pub stands :
        (q v : Ptr) → Stands type n s hs r.1.entries q v ↔ Stands type n s hs table.entries q v
    pub counted : table.count < word → r.1.count ≡ table.count

  module _ (t : ℕ) (table : HashMap) (size : table.size ≡ n)
      (mending : IsMending type n s hs old e t table.entries) (ht : t < e) where
    abbrev here : Entry
    here = place type n s hs table.entries t

    abbrev open_table : HashMap
    open_table = without (at type n s hs t) table

    t-lt : t < n
    t-lt = omega (arith, run.inside)

    here-used : here.key ≢ null
    here-used = source-used type n s hs old e run t table.entries mending ht

    here-IsStraight : IsStraight type n here.key
    here-IsStraight = mending.straight t t-lt here-used

    hole : (place type n s hs open_table.entries t).key ≡ null
    hole =
        ap (λ (x : Entry). x.key) (taken_self type n s hs table.entries mending.sized t t t-lt t-lt)

    not_twice : (j : ℕ) → ¬ Match type open_table.entries j here.key
    not_twice j match =
        let hj : j < n =
          omega (
            arith,
            match.below,
            length-set table.entries (at type n s hs t) blank,
            mending.sized,
          ) in
        let c = coordinate n s j in
        let hc = coordinate-lt n s j hs hj in
        let spot : at type n s hs c ≡ j = wrap-coordinate n s j hs hj in
        let used : (place type n s hs open_table.entries c).key ≢ null = rw spot (match.used) in
        let same : type.same (place type n s hs open_table.entries c).key here.key ≡ true =
          rw spot (match.same) in
        elim (ℕ_discrete t c) [
          | yes back ↦
              used (ap (λ c. (place type n s hs open_table.entries c).key) (sym back) ∙ hole)
          | no away ↦
              let stays =
                taken_ne type n s hs table.entries mending.sized t t t-lt t-lt c hc away in
              away
                (sym (mending.unique c t hc t-lt (rw stays at used) here-used (rw stays at same)))
        ]

    put_back-Outcome :
        {r : HashMapState × HashMap}
        → Outcome type open_table here.key here.value r
        → Mends (t + 1) table r
    put_back-Outcome (present j match) = absurd (not_twice j match)
    put_back-Outcome (no_room path differ) =
        let k = coordinate n (home type n s hs here.key) t in
        let hk =
          coordinate-lt n (home type n s hs here.key) t (home-lt type n s hs here.key) t-lt in
        let meets : probe type here.key n k ≡ at type n s hs t =
          probe-coordinate type n s hs here.key t here-IsStraight t-lt in
        absurd (path k (omega arith) (rw (size, meets) hole))
    put_back-Outcome (inserted i found) =
        let hi : i < n = omega (arith, found.bound) in
        let u = wrap n (home type n s hs here.key + i) in
        let hu : u < n =
          wrap-lt n (home type n s hs here.key + i) (omega (arith, home-lt type n s hs here.key)) in
        let meets : probe type here.key n i ≡ at type n s hs u =
          probe-at type n s hs here.key i here-IsStraight hi in
        let meets' : probe type here.key table.size i ≡ at type n s hs u = rw size meets in
        let free : (place type n s hs open_table.entries u).key ≡ null =
          rw meets' at (found.empty) in
        let path =
          Unbroken-between type n s hs open_table.entries here.key i here-IsStraight hi
            (rw size at (found.path)) in
        let lands : (filled type i here.key here.value open_table).entries
            ≡ moved type n s hs t u table.entries =
          ap (λ j. set open_table.entries j here) meets' in
        record {
          succeeds = refl;
          size = size;
          mending =
              rw lands
                (step-IsMending type n s hs old e run t table.entries mending ht u hu free path);
          stands =
              rw lands
                (step-Stands type n s hs old e run t table.entries mending ht u hu free path);
          counted = λ h. omega arith;
        }

    -- Taking out an entry behind the deleted one and putting it back succeeds.
    pub put_back-Mends : Mends (t + 1) table (insert_internal type here.key here.value open_table)
    put_back-Mends = put_back-Outcome (
        insert_internal-Outcome type here.key here.value open_table
          (
            length-set table.entries (at type n s hs t) blank ∙ mending.sized ∙ sym size,
            omega (arith, run.inside, size),
          )
          here-used (mending.valued t t-lt here-used))

  -- The loop that puts back the entries from coordinate `t` on, which probe `i + t` for the deleted
  -- key meets, ends at the gap with success.
  pub reinsert_loop-Mends :
      (key : Ptr) (i : ℕ)
      → ((c : ℕ) → c ≤ e → probe type key n (i + c) ≡ at type n s hs c)
      → (rounds t : ℕ) (table : HashMap) → table.size ≡ n
      → IsMending type n s hs old e t table.entries
      → t ≤ e
      → e < t + rounds
      → Mends e table (reinsert_loop type rounds (i + t) key table)
  unfolding reinsert_loop
  reinsert_loop-Mends key i meets zero t table size mending ht fuel = absurd (omega arith)
  reinsert_loop-Mends key i meets (suc rounds) t table size mending ht fuel =
      let spot : probe type key table.size (i + t) ≡ at type n s hs t = rw size (meets t ht) in
      let here = place type n s hs table.entries t in
      elim (dec_lt t e) [
        | no end ↦
            let last : t ≡ e = omega arith in
            let gap : here.key ≡ null =
              ap (λ (x : Entry). x.key) (mending.ahead t (omega arith) (omega (arith, run.inside)))
              ∙ ap (λ c. (place type n s hs old c).key) last
              ∙ run.gap in
            let empty : (here.key == null) ≡ true = rw gap in
            rw (spot, empty)
              (record {
                succeeds = refl;
                size = size;
                mending = subst (λ k. IsMending type n s hs old e k table.entries) last mending;
                stands = λ q v. (λ x. x, λ x. x);
                counted = λ _. refl;
              })
        | yes more ↦
            let given = source-used type n s hs old e run t table.entries mending more in
            let used : (here.key == null) ≡ false = ground (arith, given) in
            let one = put_back-Mends t table size mending more in
            let (state, table') =
              insert_internal type here.key here.value (without (at type n s hs t) table) in
            let good : is_success state ≡ true = (is_success_iff state).1 one.succeeds in
            let all =
              reinsert_loop-Mends key i meets rounds (t + 1) table' one.size one.mending
                (omega arith) (omega arith) in
            let line : i + t + 1 ≡ i + (t + 1) = omega arith in
            rw (spot, used, good, line)
              (record {
                succeeds = all.succeeds;
                size = all.size;
                mending = all.mending;
                stands = λ q v. (
                  λ x. (one.stands q v).0 ((all.stands q v).0 x),
                  λ x. (all.stands q v).1 ((one.stands q v).1 x),
                );
                counted = λ h. all.counted (rw (one.counted h) h) ∙ one.counted h;
              })
      ]
