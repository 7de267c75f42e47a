-- ===== src/Map/Linear/Adding.antt =====
-- `hash_map_insert` of map/linear.c, with the doubling of the table before it.
use mathlib.Core.Bool.{false≢true}
use attica.Base.{
  suc, ◌+◌, ◌*◌, ◌%◌, ◌≡◌, ◌≢◌, ◌⊎◌, ◌↔◌, inl, inr, refl, Bool, true, false, arith, word, ◌==◌,
  ◌||◌, Ptr, null, Bool-cases, ap, if◌then◌else◌, ltb, sym, ◌∙◌,
}
use native.Mathlib.Decide.{dec_le}
use attica.Map.Linear.{
  KeyType, HashMap, HashMapState, success, key_exists, full, error, is_success, insert_internal,
  search, resize_internal, insert,
}
use attica.Map.Linear.Search.{IsKeyType, IsValid}
use attica.Map.Linear.Occupied.{used_slots}
use attica.Map.Linear.Filled.{Inserts, IsCrowded, insert_internal-Inserts}
use attica.Map.Linear.Rehash.{is_success_iff}
use attica.Map.Linear.Resize.{Keeps, resize_internal-Keeps}

-- More than three quarters of the slots are counted.
abbrev pub is_heavy : HashMap → Bool
is_heavy m = ltb (m.size * 3) (m.count * 4)

module _ (type : KeyType) where
  -- The table before the new entry: doubled if it is heavy, and whether that succeeds.
  abbrev pub doubled : (granted : Bool) → HashMap → HashMapState × HashMap
  doubled granted m =
      if is_heavy m then resize_internal type granted ((m.size * 2) % word) m else (success, m)

  -- The arguments pass the guards, and the table could be doubled where that is needed.
  abbrev pub IsReady : (granted : Bool) → HashMap → (key value : Ptr) → Type 0
  IsReady granted m key value = (key ≢ null) × (value ≢ null) × ((doubled granted m).0 ≡ success)

  module _ (keys : IsKeyType type) where
    -- What `hash_map_insert` does to a well formed table.
    pub record Adds (granted : Bool) (m : HashMap) (key value : Ptr) (r : HashMapState × HashMap)
        : Type 0 where
      pub valid : IsValid type r.1
      pub resized :
          is_heavy m ≡ true → Keeps type keys m granted ((m.size * 2) % word) (doubled granted m)
      pub answers : (r.0 ≡ success) ⊎ (r.0 ≡ error) ⊎ (r.0 ≡ key_exists) ⊎ (r.0 ≡ full)
      pub refused :
          (r.0 ≡ error) ↔ ((key ≡ null) ⊎ (value ≡ null) ⊎ ((doubled granted m).0 ≢ success))
      pub exists : (r.0 ≡ key_exists) ↔ (IsReady granted m key value × (search type key m ≢ null))
      pub crowded :
          (r.0 ≡ full) ↔ (IsReady granted m key value × IsCrowded type (doubled granted m).1 key)
      pub absent : r.0 ≡ success → search type key m ≡ null
      pub added :
          r.0 ≡ success
          → (q : Ptr) → q ≢ null
          → search type q r.1 ≡ (if type.same key q then value else search type q m)
      pub counted :
          r.0 ≡ success
          → (r.1.size ≡ (doubled granted m).1.size)
            × (r.1.count ≡ ((doubled granted m).1.count + 1) % word)
            × (used_slots r.1.entries ≡ suc (used_slots m.entries))
      pub kept : r.0 ≢ success → (q : Ptr) → q ≢ null → search type q r.1 ≡ search type q m
      pub unchanged :
          r.0 ≢ success
          → r.1 ≡ (if (key == null) || (value == null) then m else (doubled granted m).1)

    -- The doubling changes nothing that is found.
    record IsSame (granted : Bool) (m : HashMap) (r : HashMapState × HashMap) : Type 0 where
      valid : IsValid type r.1
      found : (q : Ptr) → q ≢ null → search type q r.1 ≡ search type q m
      resized : is_heavy m ≡ true → Keeps type keys m granted ((m.size * 2) % word) r
      occupied : r.0 ≡ success → used_slots r.1.entries ≡ used_slots m.entries

    doubled-IsSame :
        (granted : Bool) (m : HashMap) → IsValid type m → IsSame granted m (doubled granted m)
    doubled-IsSame granted m valid = elim (Bool-cases (is_heavy m)) [
      | inr light ↦ rw light (record {
        valid = valid;
        found = λ q k. refl;
        resized = λ h. absurd (false≢true (sym light ∙ h));
        occupied = λ _. refl;
      })
      | inl heavy ↦
          let new_size = (m.size * 2) % word in
          let keeps = resize_internal-Keeps type keys granted new_size m valid in
          rw heavy (record {
            valid = keeps.valid;
            found = keeps.found;
            resized = λ _. keeps;
            occupied = λ done. elim (dec_le new_size m.size) [
              | yes le ↦
                  ap (λ (r : HashMapState × HashMap). used_slots r.1.entries) (keeps.small le)
              | no gt ↦ (keeps.grown (omega (arith, gt)) done).1
            ];
          })
    ]

    module _ (granted : Bool) (m : HashMap) (key value : Ptr) (given : key ≢ null)
        (some_value : value ≢ null) where
      -- The doubling has failed.
      failed-Adds :
          (r : HashMapState × HashMap)
          → IsSame granted m r
          → doubled granted m ≡ r
          → r.0 ≢ success
          → Adds granted m key value (error, r.1)
      failed-Adds r same e failed =
          let failed' : (doubled granted m).0 ≢ success =
            λ h. failed (sym (ap (λ (x : HashMapState × HashMap). x.0) e) ∙ h) in
          let k0 : (key == null) ≡ false = ground (arith, given) in
          let v0 : (value == null) ≡ false = ground (arith, some_value) in
          record {
            valid = same.valid;
            resized = λ h. rw e (same.resized h);
            answers = inr (inl refl);
            refused = (λ _. inr (inr failed'), λ _. refl);
            exists = (λ h. absurd (cc h), λ (ready, _). absurd (failed' (ready.2)));
            crowded = (λ h. absurd (cc h), λ (ready, _). absurd (failed' (ready.2)));
            absent = λ h. absurd (cc h);
            added = λ h. absurd (cc h);
            counted = λ h. absurd (cc h);
            kept = λ _. same.found;
            unchanged = λ _. rw (k0, v0) (sym (ap (λ (x : HashMapState × HashMap). x.1) e));
          }

      -- There is a table to insert into.
      ready-Adds :
          (t : HashMap) (r : HashMapState × HashMap)
          → (same : IsSame granted m (success, t)) → doubled granted m ≡ (success, t)
          → Inserts type keys t same.valid key value given some_value r
          → Adds granted m key value r
      ready-Adds t r same e i =
          let k0 : (key == null) ≡ false = ground (arith, given) in
          let v0 : (value == null) ≡ false = ground (arith, some_value) in
          let done : (doubled granted m).0 ≡ success = ap (λ (x : HashMapState × HashMap). x.0) e in
          let table : (doubled granted m).1 ≡ t = ap (λ (x : HashMapState × HashMap). x.1) e in
          let ready : IsReady granted m key value = (given, some_value, done) in
          record {
            valid = i.valid';
            resized = λ h. rw e (same.resized h);
            answers = elim (Bool-cases (is_success r.0)) [
              | inl good ↦ inl ((is_success_iff r.0).0 good)
              | inr bad ↦
                  inr (inr ((i.failed (λ h. false≢true (sym bad ∙ (is_success_iff r.0).1 h))).1))
            ];
            refused = (
              λ h. elim ((i.failed (λ d. cc (h, d))).1) [
                | inl there ↦ absurd (cc (h, there))
                | inr stuck ↦ absurd (cc (h, stuck))
              ],
              λ why. elim why [
                | inl none ↦ absurd (given none)
                | inr (inl none) ↦ absurd (some_value none)
                | inr (inr bad) ↦ absurd (bad done)
              ],
            );
            exists = (
              λ h. (ready, rw (← same.found key given) (i.exists.0 h)),
              λ (_, there). i.exists.1 (rw (same.found key given) there),
            );
            crowded = (
              λ h. (ready, rw table (i.crowded.0 h)),
              λ (_, stuck). i.crowded.1 (rw table at stuck),
            );
            absent = λ h. elim (Bool-cases (search type key t == null)) [
              | inl none ↦ sym (same.found key given) ∙ ground (arith, none)
              | inr there ↦
                  let there' : search type key t ≢ null = ground (arith, there) in
                  absurd (cc (h, i.exists.1 there'))
            ];
            added = λ h q k. rw (i.found h q k, same.found q k) refl;
            counted = λ h.
                rw table (i.same_size, i.counted h, i.occupied h ∙ ap suc (same.occupied refl));
            kept = λ h q k. rw ((i.failed h).0) (same.found q k);
            unchanged = λ h. rw (k0, v0) ((i.failed h).0 ∙ sym table);
          }

      -- The part behind the guards.
      guarded :
          IsValid type m
          → Adds granted m key value (
              if ltb (m.size * 3) (m.count * 4)
              then (let (state, table') = resize_internal type granted ((m.size * 2) % word) m in
                  if is_success state
                  then insert_internal type key value table'
                  else (error, table'))
              else insert_internal type key value m)
      guarded valid =
          let same = doubled-IsSame granted m valid in
          elim (Bool-cases (ltb (m.size * 3) (m.count * 4))) [
            | inr light ↦
                let e : doubled granted m ≡ (success, m) = rw light refl in
                let same' = rw e at same in
                rw light (
                  ready-Adds m _ same' e
                    (insert_internal-Inserts type keys m same'.valid key value given some_value))
            | inl heavy ↦
                let r = resize_internal type granted ((m.size * 2) % word) m in
                let e : doubled granted m ≡ r = rw heavy refl in
                elim (Bool-cases (is_success r.0)) [
                  | inr bad ↦
                      rw (heavy, bad)
                        (failed-Adds r (rw e at same) e
                          (λ h. false≢true (sym bad ∙ (is_success_iff r.0).1 h)))
                  | inl good ↦
                      let e' : doubled granted m ≡ (success, r.1) =
                        e ∙ ap (λ s. (s, r.1)) ((is_success_iff r.0).0 good) in
                      let same' = rw e' at same in
                      rw (heavy, good)
                        (ready-Adds r.1 _ same' e' (
                          insert_internal-Inserts type keys r.1 same'.valid key value given
                            some_value))
                ]
          ]

    -- A key or a value is missing.
    missing-Adds :
        (granted : Bool) (key value : Ptr) (m : HashMap)
        → IsValid type m
        → ((key == null) || (value == null)) ≡ true
        → Adds granted m key value (error, m)
    missing-Adds granted key value m valid none =
        let why : (key ≡ null) ⊎ (value ≡ null) = elim (Bool-cases (key == null)) [
          | inl k ↦ inl (ground (arith, k))
          | inr k ↦ inr (ground (arith, none, k))
        ] in
        let off : ¬ IsReady granted m key value = λ ready. ground (arith, none, ready.0, ready.1) in
        record {
          valid = valid;
          resized = (doubled-IsSame granted m valid).resized;
          answers = inr (inl refl);
          refused = (λ _. elim why [ inl k ↦ inl k | inr v ↦ inr (inl v) ], λ _. refl);
          exists = (λ h. absurd (cc h), λ (ready, _). absurd (off ready));
          crowded = (λ h. absurd (cc h), λ (ready, _). absurd (off ready));
          absent = λ h. absurd (cc h);
          added = λ h. absurd (cc h);
          counted = λ h. absurd (cc h);
          kept = λ _ q k. refl;
          unchanged = λ _. rw none refl;
        }

    -- `hash_map_insert` keeps a table well formed and is determined on every branch. A table whose count is above three
    -- quarters of its size is doubled first, as `hash_map_resize_internal` does it. The answer is ERROR exactly if the
    -- key or the value is `NULL` or the doubling fails. If not, it is KEY_EXISTS exactly if the key could be found, and
    -- FULL exactly if it could not and no probe for it meets an empty slot. Otherwise it is SUCCESS: the key has its
    -- value, every other key what it had, and the count is one more. Whatever else it answers, every key finds what
    -- it found before, and the table is the doubled one, or the old one if an argument is `NULL`.
    pub insert-Adds :
        (granted : Bool) (key value : Ptr) (m : HashMap)
        → IsValid type m
        → Adds granted m key value (insert type granted key value m)
    unfolding insert
    insert-Adds granted key value m valid =
        let s0 : (m.size == 0) ≡ false = ground (arith, valid.1) in
        elim (Bool-cases ((key == null) || (value == null))) [
          | inl none ↦ rw (s0, none) (missing-Adds granted key value m valid none)
          | inr some ↦
              rw (s0, some)
                (guarded granted m key value (ground (arith, some)) (ground (arith, some)) valid)
        ]
