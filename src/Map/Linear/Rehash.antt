-- ===== src/Map/Linear/Rehash.antt =====
-- The rehashing loop of `hash_map_resize_internal` of map/linear.c.
use mathlib.Core.Bool.{false≢true}
use attica.Base.{
  ℕ, suc, ◌+◌, ◌%◌, ◌≤◌, ◌<◌, ◌≡◌, ◌≢◌, ◌⊎◌, ◌↔◌, inl, inr, refl, true, false, arith, word, List,
  [], ◌∷◌, ◌==◌, Ptr, null, Bool-cases, sym, ◌∙◌, ap, if◌then◌else◌,
}
use attica.Map.Linear.{
  Entry, KeyType, HashMap, HashMapState, success, full, is_success, slot, insert_internal, search,
  rehash,
}
use attica.Map.Linear.Search.{
  IsKeyType, Match, Match-cons_empty, Match-cons_differs, IsValid, slot-below, search-Match,
  search-none,
}
use attica.Map.Linear.Ring.{IsStraight}
use attica.Map.Linear.Occupied.{used_slots, bumped, straight-used_slots}
use attica.Map.Linear.Filled.{insert_internal-Inserts}

pub is_success_iff : (s : HashMapState) → (is_success s ≡ true) ↔ (s ≡ success)
unfolding is_success
is_success_iff s = ground arith

module _ (type : KeyType) where
  -- The value that a list of entries holds for a key.
  unfoldable pub lookup : List Entry → Ptr → Ptr
  lookup [] q = null
  lookup (e ∷ es) q =
      if e.key == null then lookup es q else if type.same e.key q then e.value else lookup es q

  abbrev pub IsUnique : List Entry → Type 0
  IsUnique es = (j k : ℕ) (q : Ptr) → Match type es j q → Match type es k q → j ≡ k

  abbrev pub IsValued : List Entry → Type 0
  IsValued es = (j : ℕ) → (slot es j).key ≢ null → (slot es j).value ≢ null

  Match-cons :
      {e : Entry} {es : List Entry} {j : ℕ} {q : Ptr}
      → Match type es j q
      → Match type (e ∷ es) (suc j) q
  Match-cons m = record { below = omega (arith, m.below); used = m.used; same = m.same }

  IsUnique-tail : (e : Entry) (es : List Entry) → IsUnique (e ∷ es) → IsUnique es
  IsUnique-tail e es u j k q mj mk =
      omega (arith, u (suc j) (suc k) q (Match-cons mj) (Match-cons mk))

  lookup-cases :
      (es : List Entry) (q : Ptr)
      → ((lookup es q ≡ null) × ((j : ℕ) → ¬ Match type es j q))
        ⊎ ((j : ℕ) × Match type es j q × (lookup es q ≡ (slot es j).value))
  unfolding lookup
  lookup-cases [] q = inl (refl, λ j m. absurd (omega (arith, m.below)))
  lookup-cases (e ∷ es) q = elim (Bool-cases (e.key == null)) [
    | inl empty ↦ elim (lookup-cases es q) [
      | inl (none, away) ↦
          inl (rw (empty, none), λ j m. Match-cons_empty type e es q j empty away m)
      | inr (j, at, v) ↦ inr (suc j, Match-cons at, rw (empty, v))
    ]
    | inr used ↦ elim (Bool-cases (type.same e.key q)) [
      | inl same ↦
          inr (0, record { below = omega arith; used = ground arith; same = same }, rw (used, same))
      | inr other ↦ elim (lookup-cases es q) [
        | inl (none, away) ↦
            inl (rw (used, other, none), λ j m. Match-cons_differs type e es q j other away m)
        | inr (j, at, v) ↦ inr (suc j, Match-cons at, rw (used, other, v))
      ]
    ]
  ]

  module _ (keys : IsKeyType type) where
    -- In a well formed table a search finds what the list of the entries holds.
    pub search-lookup :
        (q : Ptr) (m : HashMap) → IsValid type m → q ≢ null → search type q m ≡ lookup m.entries q
    search-lookup q m valid given = elim (lookup-cases m.entries q) [
      | inl (none, away) ↦ search-none type keys q m valid away ∙ sym none
      | inr (j, at, v) ↦ search-Match type keys q m valid given j at ∙ sym v
    ]

    lookup-same : (es : List Entry) (p q : Ptr) → type.same p q ≡ true → lookup es p ≡ lookup es q
    unfolding lookup
    lookup-same [] p q e = refl
    lookup-same (x ∷ es) p q e = ground (
      arith,
      lookup-same es p q,
      keys.same_trans x.key p q,
      keys.same_trans x.key q p,
      keys.same_symm p q,
    )

    -- The first of two entries hides nothing behind it.
    lookup-tail :
        (e : Entry) (es : List Entry) → IsUnique (e ∷ es) → e.key ≢ null → lookup es e.key ≡ null
    lookup-tail e es u used = elim (lookup-cases es e.key) [
      | inl (none, _) ↦ none
      | inr (j, at, _) ↦
          let first : Match type (e ∷ es) 0 e.key = record {
            below = omega arith;
            used = used;
            same = keys.same_refl e.key;
          } in
          absurd (omega (arith, u 0 (suc j) e.key first (Match-cons at)))
    ]

    -- No key of the entries can be found in the table.
    abbrev pub AreNew : List Entry → HashMap → Type 0
    AreNew es t = (j : ℕ) → (slot es j).key ≢ null → search type (slot es j).key t ≡ null

    -- The probes for all keys of the entries run straight.
    abbrev pub AreStraight : List Entry → (size : ℕ) → Type 0
    AreStraight es size = (j : ℕ) → (slot es j).key ≢ null → IsStraight type size (slot es j).key

    -- A successful rehash adds the entries to what the table holds and counts them; another one ends at a key
    -- for which the probes meet no empty slot, after it has counted the entries before.
    pub record Rehashes (es : List Entry) (t : HashMap) (n : ℕ) (r : HashMapState × HashMap × ℕ)
        : Type 0 where
      pub ended : (r.0 ≡ success) ⊎ (r.0 ≡ full)
      pub valid : r.0 ≡ success → IsValid type r.1
      pub same_size : r.0 ≡ success → r.1.size ≡ t.size
      pub found :
          r.0 ≡ success
          → (q : Ptr) → q ≢ null
          → search type q r.1 ≡ (if lookup es q == null then search type q t else lookup es q)
      pub counted : r.0 ≡ success → r.2 ≡ bumped (used_slots es) n
      pub occupied : r.0 ≡ success → used_slots r.1.entries ≡ used_slots t.entries + used_slots es
      pub miscounted : r.0 ≡ full → (k : ℕ) × (k < used_slots es) × (r.1.count ≡ bumped k t.count)
      pub fits :
          AreStraight es t.size → used_slots t.entries + used_slots es ≤ t.size → r.0 ≡ success

    -- An entry in front has another key than those behind it.
    head-differs :
        (e : Entry) (es : List Entry) (j : ℕ)
        → IsUnique (e ∷ es)
        → e.key ≢ null
        → (slot es j).key ≢ null
        → type.same e.key (slot es j).key ≡ false
    head-differs e es j u used there = elim (Bool-cases (type.same e.key (slot es j).key)) [
      | inr other ↦ other
      | inl same ↦
          let first : Match type (e ∷ es) 0 (slot es j).key = record {
            below = omega arith;
            used = used;
            same = same;
          } in
          let second : Match type (e ∷ es) (suc j) (slot es j).key = record {
            below = slot-below (e ∷ es) (suc j) there;
            used = there;
            same = keys.same_refl (slot es j).key;
          } in
          absurd (omega (arith, u 0 (suc j) (slot es j).key first second))
    ]

    pub rehash-Rehashes :
        (es : List Entry) (t : HashMap) (n : ℕ)
        → IsValid type t
        → IsUnique es
        → IsValued es
        → AreNew es t
        → Rehashes es t n (rehash type es t n)
    unfolding rehash lookup used_slots bumped
    rehash-Rehashes [] t n valid u v new = record {
      ended = inl refl;
      valid = λ _. valid;
      same_size = λ _. refl;
      found = λ _ q given. refl;
      counted = λ _. refl;
      occupied = λ _. omega arith;
      miscounted = λ h. absurd (cc h);
      fits = λ _ _. refl;
    }
    rehash-Rehashes (e ∷ es) t n valid u v new = elim (Bool-cases (e.key == null)) [
      | inl empty ↦
          let r =
            rehash-Rehashes es t n valid (IsUnique-tail e es u) (λ j. v (suc j))
              (λ j. new (suc j)) in
          rw empty (record {
            ended = r.ended;
            valid = r.valid;
            same_size = r.same_size;
            found = λ h q given. rw empty (r.found h q given);
            counted = λ h. rw empty (r.counted h);
            occupied = λ h. rw empty (r.occupied h);
            miscounted = λ h. rw empty (r.miscounted h);
            fits = λ straight room. r.fits (λ j. straight (suc j)) (rw empty at room);
          })
      | inr used ↦
          let given : e.key ≢ null = ground arith in
          let step = insert_internal-Inserts type keys t valid e.key e.value given (v 0 given) in
          let (state, t₁) = insert_internal type e.key e.value t in
          elim (Bool-cases (is_success state)) [
            | inr bad ↦
                let failed : state ≢ success =
                  λ h. false≢true (sym bad ∙ (is_success_iff state).1 h) in
                let (same, why) = step.failed failed in
                let stuck : state ≡ full = elim why [
                  | inl there ↦ absurd (step.exists.0 there (new 0 given))
                  | inr stuck ↦ stuck
                ] in
                let count : t₁.count ≡ t.count = ap (λ (x : HashMap). x.count) same in
                rw (used, bad)
                  (record {
                    ended = inr stuck;
                    valid = λ h. absurd (failed h);
                    same_size = λ h. absurd (failed h);
                    found = λ h. absurd (failed h);
                    counted = λ h. absurd (failed h);
                    occupied = λ h. absurd (failed h);
                    miscounted = λ _. rw used (0, omega arith, count);
                    fits = λ straight room.
                        let all =
                          straight-used_slots type t.entries t.size e.key valid.0.sized valid.1
                            (straight 0 given) (step.crowded.0 stuck).1 in
                        absurd (omega (arith, all, rw used at room));
                  })
            | inl good ↦
                let done = (is_success_iff state).0 good in
                let new' : AreNew es t₁ = λ j there.
                  let differs = head-differs e es j u given there in
                  step.found done (slot es j).key there ∙ rw differs (new (suc j) there) in
                let r =
                  rehash-Rehashes es t₁ ((n + 1) % word) step.valid' (IsUnique-tail e es u)
                    (λ j. v (suc j)) new' in
                rw (used, good)
                  (record {
                    ended = r.ended;
                    valid = r.valid;
                    same_size = λ h. r.same_size h ∙ step.same_size;
                    found = λ h q given'. ground (
                      arith,
                      r.found h q given',
                      step.found done q given',
                      lookup-same es e.key q,
                      lookup-tail e es u given,
                      v 0 given,
                    );
                    counted = λ h. rw used (r.counted h);
                    occupied = λ h. rw used (omega (arith, r.occupied h, step.occupied done));
                    miscounted = λ h.
                        let (k, below, count) = r.miscounted h in
                        rw used
                          (suc k, omega (arith, below), count ∙ ap (bumped k) (step.counted done));
                    fits = λ straight room.
                        r.fits (λ j. rw (step.same_size) (straight (suc j)))
                          (omega (arith, rw used at room, step.occupied done, step.same_size));
                  })
          ]
    ]
