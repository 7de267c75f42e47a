-- ===== src/Map/Linear/Delete/Deletes.antt =====
-- `hash_map_delete` of map/linear.c: what it leaves of the table, and what a search finds then.
use native.Mathlib.Decide.{ℕ_discrete}
use native.Mathlib.Nat.{mod-lt}
use mathlib.Core.Bool.{false≢true}
use mathlib.Core.Path.{subst}
use attica.Base.{
  ℕ, zero, suc, ◌+◌, ◌-◌, ◌%◌, ◌≤◌, ◌<◌, ◌≡◌, ◌≢◌, ◌↔◌, inl, inr, refl, ◌∙◌, sym, ap, true, false,
  arith, Ptr, null, Bool-cases, ◌==◌, if◌then◌else◌, word,
}
use attica.Map.Linear.{
  Entry, KeyType, HashMap, HashMapState, success, key_not_found, slot, probe, search, delete,
  delete_loop, reinsert_loop,
}
use attica.Map.Linear.Search.{
  IsKeyType, Match, Match-cases, IsValid, search-Match, search-none, search_iff, probe-same,
  probe-lt, Match-probe, Unbroken, Match-same,
}
use attica.Map.Linear.Insert.{Differ}
use attica.Map.Linear.Ring.{
  IsStraight, coordinate, coordinate-lt, wrap-coordinate, coordinate_unique,
}
use attica.Map.Linear.Delete.{at, at-lt, Stands}
use attica.Map.Linear.Delete.Mending.{IsRun}
use attica.Map.Linear.Delete.Removed.{without, Mends, reinsert_loop-Mends}
use attica.Map.Linear.Delete.Start.{
  at-zero, gap-IsRun, removed_ne, removed-used, removed-IsMending, follows, reaches,
}
use attica.Map.Linear.Delete.Ended.{Match-Stands, Stands-Match, ended-IsPlaced}

module _ (type : KeyType) (keys : IsKeyType type) where
  -- A well formed table with an empty slot, in which the sequences of the stored keys run straight.
  pub record IsClear (m : HashMap) : Type 0 where
    pub valid : IsValid type m
    pub straight :
        (j : ℕ)
        → j < m.size
        → (slot m.entries j).key ≢ null
        → IsStraight type m.size (slot m.entries j).key
    pub room : ℕ
    pub room-lt : room < m.size
    pub room_empty : (slot m.entries room).key ≡ null

  -- What a deletion may lead to.
  pub record Deletes (m : HashMap) (key : Ptr) (r : HashMapState × HashMap) : Type 0 where
    pub clear : IsClear r.1
    pub succeeds : (r.0 ≡ success) ↔ (search type key m ≢ null)
    pub missing : r.0 ≢ success → r ≡ (key_not_found, m)
    pub removed :
        r.0 ≡ success
        → (q : Ptr) → q ≢ null
        → search type q r.1 ≡ (if type.same key q then null else search type q m)
    pub counted : r.0 ≡ success → r.1.count ≡ (m.count + word - 1) % word

  delete_loop-none :
      (rounds i : ℕ) (key : Ptr) (m : HashMap)
      → IsValid type m
      → ((j : ℕ) → ¬ Match type m.entries j key)
      → delete_loop type rounds i key m ≡ (key_not_found, m)
  unfolding delete_loop
  delete_loop-none zero i key m valid absent = refl
  delete_loop-none (suc n) i key m valid absent =
      let e = slot m.entries (probe type key m.size i) in
      elim (Bool-cases (e.key == null)) [
        | inl empty ↦ rw empty
        | inr used ↦ elim (Bool-cases (type.same e.key key)) [
          | inl same ↦ absurd (
              absent (probe type key m.size i)
                (Match-probe type m key i (valid.0.sized, valid.1) (ground arith) same))
          | inr differs ↦ rw (used, differs) (delete_loop-none n (i + 1) key m valid absent)
        ]
      ]

  -- The outer loop comes to the key's slot, takes it out and starts the inner loop behind it.
  delete_loop-Match :
      (rounds i i₀ : ℕ) (key : Ptr) (m : HashMap) (valid : IsValid type m) (j : ℕ)
      → Match type m.entries j key
      → probe type key m.size i₀ ≡ j
      → Unbroken type m.entries m.size i₀ key
      → Differ type m i₀ key
      → i ≤ i₀
      → (k : ℕ) → i + rounds ≡ i₀ + 1 + k
      → delete_loop type rounds i key m ≡ reinsert_loop type k (i₀ + 1) key (without j m)
  unfolding delete_loop
  delete_loop-Match zero i i₀ key m valid j match here path differ lo k e = absurd (omega arith)
  delete_loop-Match (suc n) i i₀ key m valid j match here path differ lo k e =
      elim (ℕ_discrete i i₀) [
        | yes last ↦
            let used : ((slot m.entries j).key == null) ≡ false = ground (arith, match.used) in
            let left : n ≡ k = omega arith in rw (last, here, used, match.same, left)
        | no more ↦
            let there = slot m.entries (probe type key m.size i) in
            let used : (there.key == null) ≡ false = ground (arith, path i (omega arith)) in
            rw (used, differ i (omega arith))
              (delete_loop-Match n (i + 1) i₀ key m valid j match here path differ (omega arith) k
                (omega arith))
      ]

  module _ (m : HashMap) (clear : IsClear m) (key : Ptr) (given : key ≢ null)
      (line : IsStraight type m.size key) (j : ℕ) (match : Match type m.entries j key) where
    abbrev j-lt : j < m.size
    j-lt = omega (arith, match.below, clear.valid.0.sized)

    -- The probes before the one that meets the key's slot meet other keys.
    probes-Differ :
        (i : ℕ)
        → i < m.size
        → probe type key m.size i ≡ j
        → Unbroken type m.entries m.size i key
        → Differ type m i key
    probes-Differ i hi here path i' lt =
        let e = slot m.entries (probe type key m.size i') in
        elim (Bool-cases (type.same e.key key)) [
          | inr differs ↦ differs
          | inl same ↦
              let twin =
                Match-probe type m key i' (clear.valid.0.sized, clear.valid.1) (path i' lt) same in
              let one =
                sym (line i' (omega arith))
                ∙ clear.valid.0.unique (probe type key m.size i') j key twin match
                ∙ sym here
                ∙ line i hi in
              absurd (ground (arith, one, probe-lt type key m.size 0 clear.valid.1))
        ]

    abbrev removed : HashMap
    removed = without j m

    -- What stands in the table without the deleted entry.
    removed-Stands :
        (e : ℕ)
        → IsRun type m.size j j-lt m.entries e
        → (q v : Ptr) → Stands type m.size j j-lt removed.entries q v
        → (type.same key q ≡ false)
          × ((k : ℕ) × Match type m.entries k q × ((slot m.entries k).value ≡ v))
    removed-Stands e run q v there =
        let (away, same) =
          removed-used type keys m.entries m.size j j-lt clear.valid.0 clear.straight match.used e
            run there.spot there.bound there.used in
        let k = at type m.size j j-lt there.spot in
        let found : Match type m.entries k q = record {
          below =
              omega (arith, at-lt type m.size j j-lt there.spot there.bound, clear.valid.0.sized);
          used = rw same at (there.used);
          same = rw same at (there.same);
        } in
        let other : type.same key q ≡ false = elim (Bool-cases (type.same key q)) [
          | inr differs ↦ differs
          | inl twin ↦ absurd (
              away (
                coordinate_unique m.size j there.spot 0 j-lt there.bound clear.valid.1 (
                  clear.valid.0.unique k j q found (Match-same type keys match twin)
                  ∙ sym (
                      at-zero type keys m.entries m.size j j-lt clear.valid.0 clear.straight
                        match.used))))
        ] in
        (other, (k, found, rw same at (there.holds)))

    stays :
        (e : ℕ)
        → IsRun type m.size j j-lt m.entries e
        → (q : Ptr) → type.same key q ≡ false
        → (k : ℕ) → Match type m.entries k q
        → Stands type m.size j j-lt removed.entries q (slot m.entries k).value
    stays e run q other k found =
        let start =
          sym (at-zero type keys m.entries m.size j j-lt clear.valid.0 clear.straight match.used) in
        let same_first : j ≡ k → type.same key q ≡ true = λ one.
          let back = subst (λ x. type.same (slot m.entries x).key q ≡ true) (sym one) found.same in
          keys.same_trans key (slot m.entries j).key q
            (keys.same_symm key (slot m.entries j).key ∙ match.same) back in
        let (there, here) =
          Match-Stands type keys m.size j j-lt m.entries k q clear.valid.0.sized found in
        let away : there.spot ≢ 0 = λ h.
          false≢true (sym other ∙ same_first (start ∙ ap (at type m.size j j-lt) (sym h) ∙ here)) in
        let same =
          removed_ne type keys m.entries m.size j j-lt clear.valid.0 clear.straight match.used e run
            there.spot there.bound away in
        record {
          spot = there.spot;
          bound = there.bound;
          used = rw same (there.used);
          same = rw same (there.same);
          holds = rw same (there.holds);
        }

    module _ (e : ℕ) (run : IsRun type m.size j j-lt m.entries e) (r : HashMapState × HashMap)
        (mends : Mends type keys m.size j j-lt m.entries e run e removed r) where
      mended-IsClear : IsClear r.1
      mended-IsClear =
          let placed =
            ended-IsPlaced type keys m.size j j-lt m.entries e run r.1.entries mends.mending in
          let lines : (k : ℕ)
              → k < m.size
              → (slot r.1.entries k).key ≢ null
              → IsStraight type m.size (slot r.1.entries k).key =
            λ k hk used.
              let here = wrap-coordinate m.size j k j-lt hk in
              rw here at (
                mends.mending.straight (coordinate m.size j k) (coordinate-lt m.size j k j-lt hk)
                  (rw here used)) in
          record {
            valid = (rw (mends.size) placed, rw (mends.size) (clear.valid.1));
            straight = rw (mends.size) lines;
            room = at type m.size j j-lt e;
            room-lt = rw (mends.size) (at-lt type m.size j j-lt e run.inside);
            room_empty =
                ap (λ (x : Entry). x.key) (mends.mending.ahead e (omega arith) run.inside)
                ∙ run.gap;
          }

      mended-search :
          (q : Ptr)
          → q ≢ null
          → search type q r.1 ≡ (if type.same key q then null else search type q m)
      mended-search q given' =
          let sized = mends.mending.sized in
          elim (Match-cases type keys r.1.entries q) [
            | inl (k, found) ↦
                let (there, _) = Match-Stands type keys m.size j j-lt r.1.entries k q sized found in
                let (other, (k', found', holds)) =
                  removed-Stands e run q (slot r.1.entries k).value
                    ((mends.stands q (slot r.1.entries k).value).0 there) in
                rw other (
                  search-Match type keys q r.1 mended-IsClear.valid given' k found
                  ∙ sym holds
                  ∙ sym (search-Match type keys q m clear.valid given' k' found'))
            | inr none ↦
                search-none type keys q r.1 mended-IsClear.valid none
                ∙ elim (Bool-cases (type.same key q)) [
                  | inl same ↦ rw same
                  | inr other ↦ rw other (
                      sym (elim (Match-cases type keys m.entries q) [
                        | inr none' ↦ search-none type keys q m clear.valid none'
                        | inl (k, found) ↦
                            let there =
                              (mends.stands q (slot m.entries k).value).1
                                (stays e run q other k found) in
                            absurd (
                              none (at type m.size j j-lt there.spot) (
                                Stands-Match type keys m.size j j-lt r.1.entries q
                                  (slot m.entries k).value sized there))
                      ]))
                ]
          ]

    -- The deletion of a key that stands in the table.
    delete_loop-Deletes : Deletes m key (delete_loop type m.size 0 key m)
    delete_loop-Deletes =
        let (i, hi, here, path) = clear.valid.0.reached j match.below match.used in
        let same_probe =
          λ (k : ℕ). probe-same type keys (slot m.entries j).key key m.size k match.same in
        let here' : probe type key m.size i ≡ j = sym (same_probe i) ∙ here in
        let path' : Unbroken type m.entries m.size i key =
          λ k h. subst (λ x. (slot m.entries x).key ≢ null) (same_probe k) (path k h) in
        let (e, run) =
          gap-IsRun type keys m.entries m.size j j-lt clear.valid.0 clear.straight match.used
            clear.room clear.room-lt clear.room_empty in
        let room =
          reaches type keys m.entries m.size j j-lt clear.valid.0 clear.straight match.used e run
            key line i hi here' path' in
        let meets =
          follows type keys m.entries m.size j j-lt clear.valid.0 clear.straight match.used e run
            key line i hi here' path' in
        let mends =
          reinsert_loop-Mends type keys m.size j j-lt m.entries e run key i meets (m.size - (i + 1))
            1 removed refl
            (removed-IsMending type keys m.entries m.size j j-lt clear.valid.0 clear.straight
              match.used e run)
            run.after (omega arith) in
        rw
          (delete_loop-Match m.size 0 i key m clear.valid j match here' path'
            (probes-Differ i hi here' path') (omega arith) (m.size - (i + 1)) (omega arith))
          (record {
            clear = mended-IsClear e run _ mends;
            succeeds = (
              λ _. (search_iff type keys key m clear.valid given).1 (j, match),
              λ _. mends.succeeds,
            );
            missing = λ h. absurd (h mends.succeeds);
            removed = λ _. mended-search e run _ mends;
            counted = λ _. mends.counted (mod-lt (m.count + word - 1) (omega arith));
          })

  -- `hash_map_delete` of a well formed table with an empty slot, whose keys' probe sequences do not
  -- wrap at 2^64: it answers SUCCESS exactly if the key could be found. Then the table is again well
  -- formed, the key finds nothing, every other key what it found before, and the count is one less.
  -- Otherwise it answers KEY_NOT_FOUND and changes nothing.
  pub delete-Deletes :
      (m : HashMap) (key : Ptr)
      → IsClear m
      → key ≢ null
      → IsStraight type m.size key
      → Deletes m key (delete type key m)
  unfolding delete
  delete-Deletes m key clear given line =
      let s0 : (m.size == 0) ≡ false = ground (arith, clear.valid.1) in
      let k0 : (key == null) ≡ false = ground arith in
      elim (Match-cases type keys m.entries key) [
        | inl (j, match) ↦ rw (s0, k0) (delete_loop-Deletes m clear key given line j match)
        | inr none ↦
            let nothing = search-none type keys key m clear.valid none in
            rw (s0, k0, delete_loop-none m.size 0 key m clear.valid none)
              (record {
                clear = clear;
                succeeds = (λ h. absurd (cc h), λ h. absurd (h nothing));
                missing = λ _. refl;
                removed = λ h. absurd (cc h);
                counted = λ h. absurd (cc h);
              })
      ]
