-- ===== src/Map/Linear/Resize.antt =====
-- `hash_map_resize_internal` of map/linear.c.
use mathlib.Core.Bool.{false≢true}
use attica.Base.{
  ℕ, ◌%◌, ◌≤◌, ◌<◌, ◌≡◌, ◌≢◌, ◌⊎◌, inl, inr, refl, Bool, true, false, arith, word, List, ◌==◌, Ptr,
  null, replicate, length-replicate, get_or-replicate, Bool-cases, sym, ◌∙◌, ap, if◌then◌else◌, leb,
}
use attica.Map.Linear.{
  Entry, KeyType, HashMap, HashMapState, success, error, full, is_success, slot, blank, search,
  rehash, resize_internal,
}
use attica.Map.Linear.Search.{IsKeyType, IsValid, search-none}
use attica.Map.Linear.Occupied.{used_slots, used_slots-le, used_slots-replicate, bumped, bumped-mod}
use attica.Map.Linear.Rehash.{is_success_iff, lookup, search-lookup, AreStraight, rehash-Rehashes}

module _ (type : KeyType) where
  module _ (keys : IsKeyType type) where
    pub blank-IsValid :
        (size count : ℕ)
        → 0 < size
        → IsValid type (record { entries = replicate size blank; count = count; size = size })
    blank-IsValid size count pos =
        let empty = λ (j : ℕ). ap (λ (e : Entry). e.key) (get_or-replicate size j blank) in
        (
          record {
            sized = length-replicate size blank;
            reached = λ j lt used. absurd (used (empty j));
            valued = λ j used. absurd (used (empty j));
            unique = λ j k q mj mk. absurd (mj.used (empty j));
          },
          pos,
        )

    -- What a resize leaves of a table.
    pub record Keeps (m : HashMap) (granted : Bool) (new_size : ℕ) (r : HashMapState × HashMap)
        : Type 0 where
      pub valid : IsValid type r.1
      pub found : (q : Ptr) → q ≢ null → search type q r.1 ≡ search type q m
      pub small : new_size ≤ m.size → r ≡ (success, m)
      pub refused : m.size < new_size → granted ≡ false → r ≡ (error, m)
      pub ended : m.size < new_size → granted ≡ true → (r.0 ≡ success) ⊎ (r.0 ≡ full)
      pub fits :
          m.size < new_size
          → granted ≡ true
          → AreStraight type keys m.entries new_size
          → r.0 ≡ success
      pub grown :
          m.size < new_size
          → r.0 ≡ success
          → (r.1.size ≡ new_size)
            × (used_slots r.1.entries ≡ used_slots m.entries)
            × (r.1.count ≡ used_slots m.entries % word)
      pub restored : r.0 ≢ success → (r.1.entries ≡ m.entries) × (r.1.size ≡ m.size)
      pub miscounted :
          r.0 ≡ full → (k : ℕ) × (k < used_slots m.entries) × (r.1.count ≡ bumped k m.count)

    -- The count plays no part in a search.
    search-count :
        (q : Ptr) (es : List Entry) (c d size : ℕ)
        → q ≢ null
        → IsValid type (record { entries = es; count = c; size = size })
        → search type q (record { entries = es; count = c; size = size })
          ≡ search type q (record { entries = es; count = d; size = size })
    search-count q es c d size given valid =
        search-lookup type keys q (record { entries = es; count = c; size = size }) valid given
        ∙ sym (
            search-lookup type keys q (record { entries = es; count = d; size = size }) valid given)

    blank-search :
        (q : Ptr) (size count : ℕ) (pos : 0 < size)
        → search type q (record { entries = replicate size blank; count = count; size = size })
          ≡ null
    blank-search q size count pos =
        search-none type keys q
          (record { entries = replicate size blank; count = count; size = size })
          (blank-IsValid size count pos)
          (λ j at. at.used (ap (λ (e : Entry). e.key) (get_or-replicate size j blank)))

    rehashed_found :
        (q : Ptr)
        → q ≢ null
        → (m : HashMap) → IsValid type m
        → (new_size : ℕ) → 0 < new_size
        → {found : Ptr}
        → found ≡ (
            if lookup type m.entries q == null
            then search type q (record m { entries = replicate new_size blank; size = new_size })
            else lookup type m.entries q)
        → found ≡ search type q m
    rehashed_found q given m valid new_size pos h =
        ground
          (arith, h, blank-search q new_size m.count pos, search-lookup type keys q m valid given)

    -- The part with the new block.
    rehashed-Keeps :
        (new_size : ℕ) (m : HashMap)
        → IsValid type m
        → m.size < new_size
        → let fresh : HashMap = record m { entries = replicate new_size blank; size = new_size } in
          let (state, t, n) = rehash type m.entries fresh 0 in
          Keeps m true new_size (
            if is_success state
            then (success, record t { count = n })
            else (state, record t { entries = m.entries; size = m.size }))
    rehashed-Keeps new_size m valid lt =
        let fresh : HashMap = record m { entries = replicate new_size blank; size = new_size } in
        let blank_valid = blank-IsValid new_size m.count (omega (arith, lt)) in
        let le = used_slots-le m.entries in
        let r =
          rehash-Rehashes type keys m.entries fresh 0 blank_valid valid.0.unique valid.0.valued
            (λ j used. blank-search (slot m.entries j).key new_size m.count blank_valid.1) in
        let fits = λ (straight : AreStraight type keys m.entries new_size).
          r.fits straight (omega (arith, used_slots-replicate new_size, le, valid.0.sized, lt)) in
        let (state, t, n) = rehash type m.entries fresh 0 in
        elim (Bool-cases (is_success state)) [
          | inr bad ↦
              let failed : state ≢ success =
                λ h. false≢true (sym bad ∙ (is_success_iff state).1 h) in
              rw bad (record {
                valid = valid;
                found = λ q given. search-count q m.entries t.count m.count m.size given valid;
                small = λ h. absurd (omega (arith, h, lt));
                refused = λ _ h. absurd (false≢true (sym h));
                ended = λ _ _. r.ended;
                fits = λ _ _. fits;
                grown = λ _ h. absurd (failed h);
                restored = λ _. (refl, refl);
                miscounted = r.miscounted;
              })
          | inl good ↦
              let done = (is_success_iff state).0 good in
              let count : n ≡ used_slots m.entries % word =
                r.counted done ∙ bumped-mod (used_slots m.entries) 0 (omega arith) ∙ omega arith in
              rw good (record {
                valid = r.valid done;
                found = λ q given.
                    search-count q t.entries n t.count t.size given (r.valid done)
                    ∙ rehashed_found q given m valid new_size blank_valid.1 (r.found done q given);
                small = λ h. absurd (omega (arith, h, lt));
                refused = λ _ h. absurd (false≢true (sym h));
                ended = λ _ _. inl refl;
                fits = λ _ _ _. refl;
                grown = λ _ _. (
                  r.same_size done,
                  omega (arith, r.occupied done, used_slots-replicate new_size),
                  count,
                );
                restored = λ h. absurd (h refl);
                miscounted = λ h. absurd (cc h);
              })
        ]

    pub resize_internal-Keeps :
        (granted : Bool) (new_size : ℕ) (m : HashMap)
        → IsValid type m
        → Keeps m granted new_size (resize_internal type granted new_size m)
    unfolding resize_internal
    resize_internal-Keeps granted new_size m valid =
        let s0 : (m.size == 0) ≡ false = ground (arith, valid.1) in
        let fresh : HashMap = record m { entries = replicate new_size blank; size = new_size } in
        elim (Bool-cases (leb new_size m.size)) [
          | inl small ↦
              let le : new_size ≤ m.size = ground (arith, small) in
              rw (s0, small)
                (record {
                  valid = valid;
                  found = λ q given. refl;
                  small = λ _. refl;
                  refused = λ h. absurd (omega (arith, h, le));
                  ended = λ h. absurd (omega (arith, h, le));
                  fits = λ h. absurd (omega (arith, h, le));
                  grown = λ h. absurd (omega (arith, h, le));
                  restored = λ h. absurd (h refl);
                  miscounted = λ h. absurd (cc h);
                })
          | inr large ↦
              let lt : m.size < new_size = ground (arith, large) in
              elim (Bool-cases granted) [
                | inr none ↦
                    rw (s0, large, none)
                      (record {
                        valid = valid;
                        found = λ q given. refl;
                        small = λ h. absurd (omega (arith, h, lt));
                        refused = λ _ _. refl;
                        ended = λ _ h. absurd (false≢true h);
                        fits = λ _ h. absurd (false≢true h);
                        grown = λ _ h. absurd (cc h);
                        restored = λ _. (refl, refl);
                        miscounted = λ h. absurd (cc h);
                      })
                | inl got ↦ rw (s0, large, got) (rehashed-Keeps new_size m valid lt)
              ]
        ]
