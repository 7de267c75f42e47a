-- ===== src/Map/Linear/Insert.antt =====
-- `hash_map_insert_internal` of map/linear.c.
use mathlib.Core.Path.{subst}
use native.Mathlib.Decide.{dec_lt, ℕ_discrete}
use attica.Base.{
  ℕ, zero, suc, ◌+◌, ◌%◌, ◌≤◌, ◌<◌, ◌≡◌, ◌≢◌, inl, inr, refl, false, arith, word, List, [], ◌∷◌,
  ◌==◌, Ptr, null, length, set, length-set, get_or-set_self, get_or-set_ne, Bool-cases, sym, ◌∙◌,
  ap, ◌↔◌,
}
use mathlib.Core.Bool.{false≢true}
use attica.Map.Linear.{
  Entry, KeyType, HashMap, HashMapState, success, key_exists, full, slot, blank, probe, insert_loop,
  insert_internal,
}
use attica.Map.Linear.Search.{IsKeyType, Match, Unbroken, IsSized, IsValid, Match-probe, probe-same}

abbrev pub entry : Ptr → Ptr → Entry
entry k v = record { key = k; value = v }

-- The table after `key` is written into the slot of probe `i`.
abbrev pub filled : KeyType → (i : ℕ) (key value : Ptr) → HashMap → HashMap
filled type i key value m = record m {
  entries = set m.entries (probe type key m.size i) (entry key value);
  count = (m.count + 1) % word;
}

set-outside_lem {ℓ} : {A : Type ℓ} (xs : List A) (i : ℕ) (v : A) → length xs ≤ i → set xs i v ≡ xs
set-outside_lem [] i v h = refl
set-outside_lem (x ∷ xs) zero v h = absurd (omega arith)
set-outside_lem (x ∷ xs) (suc i) v h = ap (λ r. x ∷ r) (set-outside_lem xs i v (omega arith))

module _ (type : KeyType) where
  -- The first `i` probes for `q` meet other keys.
  abbrev pub Differ : HashMap → ℕ → Ptr → Type 0
  Differ m i q =
      (i' : ℕ) → i' < i → type.same (slot m.entries (probe type q m.size i')).key q ≡ false

  -- Probe `i` for the key is the first one that meets an empty slot, and none before it meets the key.
  pub record FindsEmpty (m : HashMap) (i : ℕ) (key : Ptr) : Type 0 where
    pub bound : i < m.size
    pub path : Unbroken type m.entries m.size i key
    pub differ : Differ m i key
    pub empty : (slot m.entries (probe type key m.size i)).key ≡ null

  -- The three ways in which an insertion ends.
  pub data Outcome (m : HashMap) (key value : Ptr) : HashMapState × HashMap → Type 0 where
    inserted :
        (i : ℕ) → FindsEmpty m i key → Outcome m key value (success, filled type i key value m)
    present : (j : ℕ) → Match type m.entries j key → Outcome m key value (key_exists, m)
    no_room :
        Unbroken type m.entries m.size m.size key
        → Differ m m.size key
        → Outcome m key value (full, m)

  below-suc :
      (P : ℕ → Type 0) (i : ℕ) → ((i' : ℕ) → i' < i → P i') → P i → (i' : ℕ) → i' < i + 1 → P i'
  below-suc P i before here i' h = elim (dec_lt i' i) [
    | yes lt ↦ before i' lt
    | no ge ↦ let last : i ≡ i' = omega arith in subst P last here
  ]

  insert_loop-Outcome :
      (n i : ℕ) (key value : Ptr) (m : HashMap)
      → IsSized type m
      → i + n ≡ m.size
      → Unbroken type m.entries m.size i key
      → Differ m i key
      → Outcome m key value (insert_loop type n i key value m)
  unfolding insert_loop
  insert_loop-Outcome zero i key value m valid e path differ =
      let done : i ≡ m.size = omega arith in
      no_room (subst (λ k. Unbroken type m.entries m.size k key) done path)
        (subst (λ k. Differ m k key) done differ)
  insert_loop-Outcome (suc n) i key value m valid e path differ =
      let there = slot m.entries (probe type key m.size i) in
      elim (Bool-cases (there.key == null)) [
        | inl empty ↦ rw empty (
            inserted i
              (record { bound = omega arith; path = path; differ = differ; empty = ground arith }))
        | inr used ↦ elim (Bool-cases (type.same there.key key)) [
          | inl same ↦
              rw (used, same)
                (present (probe type key m.size i)
                  (Match-probe type m key i valid (ground arith) same))
          | inr other ↦
              rw (used, other)
                (insert_loop-Outcome n (i + 1) key value m valid (omega arith)
                  (below-suc (λ k. (slot m.entries (probe type key m.size k)).key ≢ null) i path
                    (ground arith))
                  (below-suc
                    (λ k. type.same (slot m.entries (probe type key m.size k)).key key ≡ false) i
                    differ other))
        ]
      ]

  pub insert_internal-Outcome :
      (key value : Ptr) (m : HashMap)
      → IsSized type m
      → key ≢ null
      → value ≢ null
      → Outcome m key value (insert_internal type key value m)
  unfolding insert_internal
  insert_internal-Outcome key value m valid k v =
      let s0 : (m.size == 0) ≡ false = ground (arith, valid.1) in
      let k0 : (key == null) ≡ false = ground arith in
      let v0 : (value == null) ≡ false = ground arith in
      rw (s0, k0, v0)
        (insert_loop-Outcome m.size 0 key value m valid (omega arith) (λ i h. absurd (omega arith))
          (λ i h. absurd (omega arith)))

  module _ (es : List Entry) (s : ℕ) (e : Entry) where
    pub slot-set_self : s < length es → slot (set es s e) s ≡ e
    slot-set_self h = get_or-set_self es s e blank h

    pub slot-set_ne : (j : ℕ) → s ≢ j → slot (set es s e) j ≡ slot es j
    slot-set_ne j h = get_or-set_ne es s j e blank h

    -- Matches away from a written slot are those of before.
    pub Match-set_ne : (j : ℕ) (q : Ptr) → s ≢ j → Match type (set es s e) j q ↔ Match type es j q
    Match-set_ne j q h =
        let same = slot-set_ne j h in
        let len = length-set es s e in
        (
          λ m. record {
            below = rw len at (m.below);
            used = rw same at (m.used);
            same = rw same at (m.same);
          },
          λ m. record {
            below = rw len (m.below);
            used = rw same (m.used);
            same = rw same (m.same);
          },
        )

    pub used-set :
        e.key ≢ null → (k : ℕ) → (slot es k).key ≢ null → (slot (set es s e) k).key ≢ null
    used-set given k used = elim (ℕ_discrete s k) [
      | no h ↦ rw (slot-set_ne k h) used
      | yes h ↦ elim (dec_lt s (length es)) [
        | yes lt ↦ rw (← h, slot-set_self lt) given
        | no ge ↦ rw (set-outside ge) used
      ]
    ]
      where
        set-outside : ¬ (s < length es) → set es s e ≡ es
        set-outside ge = set-outside_lem es s e (omega arith)

  module _ (keys : IsKeyType type) (m : HashMap) (valid : IsValid type m) {key : Ptr} where
    -- A key that some slot holds is met by the probes: they cannot all meet other keys.
    pub Differ-absent :
        (n : ℕ)
        → Differ m n key
        → (j : ℕ) (at : Match type m.entries j key) → ¬ ((valid.0.reached j at.below at.used).0 < n)
    Differ-absent n differ j at lt =
        let (i₀, below, here, path) = valid.0.reached j at.below at.used in
        let here' =
          sym (probe-same type keys (slot m.entries j).key key m.size i₀ at.same) ∙ here in
        let other : type.same (slot m.entries j).key key ≡ false =
          subst (λ k. type.same (slot m.entries k).key key ≡ false) here' (differ i₀ lt) in
        false≢true (sym other ∙ at.same)

    module _ {i : ℕ} (found : FindsEmpty m i key) where
      -- The key that an insertion adds stood nowhere before.
      pub absent : (j : ℕ) → ¬ Match type m.entries j key
      absent j at =
          let (i₀, below, here, path) = valid.0.reached j at.below at.used in
          let moved = λ (k : ℕ). probe-same type keys (slot m.entries j).key key m.size k at.same in
          elim (dec_lt i₀ i) [
            | yes lt ↦ Differ-absent i found.differ j at lt
            | no ge ↦ elim (ℕ_discrete i₀ i) [
              | yes same ↦ at.used (
                  subst (λ k. (slot m.entries k).key ≡ null)
                    (ap (probe type key m.size) (sym same) ∙ sym (moved i₀) ∙ here) found.empty)
              | no more ↦ path i (omega arith) (rw (moved i) found.empty)
            ]
          ]
