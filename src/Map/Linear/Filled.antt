-- ===== src/Map/Linear/Filled.antt =====
-- A table of map/linear.c after an insertion, and what a search finds in it.
use mathlib.Core.Path.{subst}
use native.Mathlib.Decide.{ℕ_discrete}
use attica.Base.{
  ℕ, suc, arith, ◌+◌, ◌%◌, ◌<◌, ◌≡◌, ◌≢◌, ◌⊎◌, ◌↔◌, inl, inr, refl, true, false, word, List, Ptr,
  null, length, set, length-set, Bool-cases, sym, ◌∙◌, ap, if◌then◌else◌,
}
use mathlib.Core.Bool.{false≢true}
use attica.Map.Linear.{
  Entry, KeyType, HashMap, HashMapState, success, key_exists, full, slot, probe, insert_internal,
  search,
}
use attica.Map.Linear.Search.{
  IsKeyType, Match, Unbroken, IsValid, probe-lt, Match-same, search-Match, search-none, search_iff,
  Match-cases,
}
use attica.Map.Linear.Occupied.{used_slots, used_slots-set}
use attica.Map.Linear.Insert.{
  entry, filled, FindsEmpty, Outcome, inserted, present, no_room, insert_internal-Outcome,
  slot-set_self, slot-set_ne, Match-set_ne, used-set, absent, Differ-absent,
}

module _ (type : KeyType) (keys : IsKeyType type) (m : HashMap) (valid : IsValid type m) {key : Ptr}
    {i : ℕ} (found : FindsEmpty type m i key) (value : Ptr) (given : key ≢ null)
    (some_value : value ≢ null) where
  abbrev target : ℕ
  target = probe type key m.size i

  abbrev after : List Entry
  after = set m.entries target (entry key value)

  target-lt : target < length m.entries
  target-lt = rw valid.0.sized (probe-lt type key m.size i valid.1)

  target-entry : slot after target ≡ entry key value
  target-entry = slot-set_self type m.entries target (entry key value) target-lt

  kept : (j : ℕ) → target ≢ j → slot after j ≡ slot m.entries j
  kept j h = slot-set_ne type m.entries target (entry key value) j h

  still_used : (k : ℕ) → (slot m.entries k).key ≢ null → (slot after k).key ≢ null
  still_used = used-set type m.entries target (entry key value) given

  target-Match : Match type after target key
  target-Match = record {
    below = rw length-set target-lt;
    used = rw target-entry given;
    same = rw target-entry (keys.same_refl key);
  }

  after-IsReached :
      (j : ℕ)
      → j < length after
      → (slot after j).key ≢ null
      → (i' : ℕ) × (i' < m.size)
        × (probe type (slot after j).key m.size i' ≡ j)
        × Unbroken type after m.size i' (slot after j).key
  after-IsReached j lt used = elim (ℕ_discrete target j) [
    | yes here ↦
        let at : (slot after j).key ≡ key = rw (← here) (ap (λ (e : Entry). e.key) target-entry) in
        (
          i,
          found.bound,
          rw at here,
          rw at (λ i' h. still_used (probe type key m.size i') (found.path i' h)),
        )
    | no away ↦
        let same = kept j away in
        let (i', below, reaches, path) =
          valid.0.reached j (rw length-set at lt) (rw same at used) in
        (i', below, rw same reaches, rw same (λ k h. still_used _ (path k h)))
  ]

  -- A slot that matches the new key is the one that was written.
  only_target : (j : ℕ) → Match type after j key → target ≡ j
  only_target j at = elim (ℕ_discrete target j) [
    | yes here ↦ here
    | no away ↦ absurd (
        absent type keys m valid found j
          ((Match-set_ne type m.entries target (entry key value) j key away).0 at))
  ]

  new_key : (q : Ptr) → Match type after target q → type.same key q ≡ true
  new_key q at = let e = target-entry in rw e at (at.same)

  after_unique : (j k : ℕ) (q : Ptr) → Match type after j q → Match type after k q → j ≡ k
  after_unique j k q mj mk = elim (ℕ_discrete target j) [
    | yes here ↦
        let same = new_key q (rw (← here) at mj) in
        sym here ∙ only_target k (Match-same type keys mk (keys.same_symm q key ∙ same))
    | no away ↦ elim (ℕ_discrete target k) [
      | yes here ↦
          let same = new_key q (rw (← here) at mk) in
          sym (only_target j (Match-same type keys mj (keys.same_symm q key ∙ same))) ∙ here
      | no far ↦
          valid.0.unique j k q
            ((Match-set_ne type m.entries target (entry key value) j q away).0 mj)
            ((Match-set_ne type m.entries target (entry key value) k q far).0 mk)
    ]
  ]

  after-valued : (j : ℕ) → (slot after j).key ≢ null → (slot after j).value ≢ null
  after-valued j used = elim (ℕ_discrete target j) [
    | yes here ↦ rw (← here, target-entry) some_value
    | no away ↦ let same = kept j away in rw same (valid.0.valued j (rw same at used))
  ]

  pub filled-IsValid : IsValid type (filled type i key value m)
  filled-IsValid = (
    record {
      sized = length-set m.entries target (entry key value) ∙ valid.0.sized;
      reached = after-IsReached;
      valued = after-valued;
      unique = after_unique;
    },
    valid.1,
  )

  nowhere :
      (q : Ptr)
      → type.same key q ≡ false
      → ((j : ℕ) → ¬ Match type m.entries j q)
      → (j : ℕ) → ¬ Match type after j q
  nowhere q other none j at = elim (ℕ_discrete target j) [
    | yes here ↦ false≢true (sym other ∙ new_key q (rw (← here) at at))
    | no away ↦ none j ((Match-set_ne type m.entries target (entry key value) j q away).0 at)
  ]

  -- After an insertion the new key is found with its value, and every other key as before.
  pub search-filled :
      (q : Ptr)
      → q ≢ null
      → search type q (filled type i key value m)
        ≡ (if type.same key q then value else search type q m)
  search-filled q given' =
      let whole = filled-IsValid in
      elim (Bool-cases (type.same key q)) [
        | inl same ↦ rw same (
            search-Match type keys q (filled type i key value m) whole given' target
              (Match-same type keys target-Match same)
            ∙ ap (λ (e : Entry). e.value) target-entry)
        | inr other ↦ rw other (elim (Match-cases type keys m.entries q) [
          | inl (j, at) ↦
              let away : target ≢ j =
                λ here. at.used (subst (λ k. (slot m.entries k).key ≡ null) here found.empty) in
              let there = (Match-set_ne type m.entries target (entry key value) j q away).1 at in
              search-Match type keys q (filled type i key value m) whole given' j there
              ∙ ap (λ (e : Entry). e.value) (kept j away)
              ∙ sym (search-Match type keys q m valid given' j at)
          | inr none ↦
              search-none type keys q (filled type i key value m) whole (nowhere q other none)
              ∙ sym (search-none type keys q m valid none)
        ])
      ]

-- The key cannot be found, and none of its probes meets an empty slot.
abbrev pub IsCrowded : (type : KeyType) → HashMap → (key : Ptr) → Type 0
IsCrowded type m key = (search type key m ≡ null) × Unbroken type m.entries m.size m.size key

module _ (type : KeyType) (keys : IsKeyType type) (m : HashMap) (valid : IsValid type m)
    (key value : Ptr) (given : key ≢ null) (some_value : value ≢ null) where
  -- What an insertion into a well formed table may lead to.
  pub record Inserts (r : HashMapState × HashMap) : Type 0 where
    pub valid' : IsValid type r.1
    pub same_size : r.1.size ≡ m.size
    pub failed : r.0 ≢ success → (r.1 ≡ m) × ((r.0 ≡ key_exists) ⊎ (r.0 ≡ full))
    pub exists : (r.0 ≡ key_exists) ↔ (search type key m ≢ null)
    pub crowded : (r.0 ≡ full) ↔ IsCrowded type m key
    pub found :
        r.0 ≡ success
        → (q : Ptr) → q ≢ null
        → search type q r.1 ≡ (if type.same key q then value else search type q m)
    pub counted : r.0 ≡ success → r.1.count ≡ (m.count + 1) % word
    pub occupied : r.0 ≡ success → used_slots r.1.entries ≡ suc (used_slots m.entries)

  Outcome-Inserts : {r : HashMapState × HashMap} → Outcome type m key value r → Inserts r
  Outcome-Inserts (inserted i found) = record {
    valid' = filled-IsValid type keys m valid found value given some_value;
    same_size = refl;
    failed = λ h. absurd (h refl);
    exists = (
      λ h. absurd (cc h),
      λ h.
          let (j, at) = (search_iff type keys key m valid given).0 h in
          absurd (absent type keys m valid found j at),
    );
    crowded = (λ h. absurd (cc h), λ (_, path). absurd (path i found.bound found.empty));
    found = λ _. search-filled type keys m valid found value given some_value;
    counted = λ _. refl;
    occupied = λ _.
        used_slots-set m.entries (probe type key m.size i) (entry key value)
          (omega (arith, valid.0.sized, probe-lt type key m.size i valid.1)) found.empty given;
  }
  Outcome-Inserts (present j at) = record {
    valid' = valid;
    same_size = refl;
    failed = λ h. (refl, inl refl);
    exists = (λ _. (search_iff type keys key m valid given).1 (j, at), λ _. refl);
    crowded = (
      λ h. absurd (cc h),
      λ (none, _). absurd ((search_iff type keys key m valid given).1 (j, at) none),
    );
    found = λ h. absurd (cc h);
    counted = λ h. absurd (cc h);
    occupied = λ h. absurd (cc h);
  }
  Outcome-Inserts (no_room path differ) = record {
    valid' = valid;
    same_size = refl;
    failed = λ h. (refl, inr refl);
    exists = (
      λ h. absurd (cc h),
      λ h.
          let (j, at) = (search_iff type keys key m valid given).0 h in
          absurd (
            Differ-absent type keys m valid m.size differ j at
              (valid.0.reached j at.below at.used).1),
    );
    crowded = (
      λ _. (
        search-none type keys key m valid λ j at.
            Differ-absent type keys m valid m.size differ j at
              (valid.0.reached j at.below at.used).1,
        path,
      ),
      λ _. refl,
    );
    found = λ h. absurd (cc h);
    counted = λ h. absurd (cc h);
    occupied = λ h. absurd (cc h);
  }

  pub insert_internal-Inserts : Inserts (insert_internal type key value m)
  insert_internal-Inserts =
      Outcome-Inserts
        (insert_internal-Outcome type key value m (valid.0.sized, valid.1) given some_value)
