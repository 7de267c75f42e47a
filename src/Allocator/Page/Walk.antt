-- ===== src/Allocator/Page/Walk.antt =====
-- The walk of `hash_map_next` through the table of allocator/page.c.
use attica.Base.{
  ℕ, zero, suc, ◌+◌, ◌<◌, ◌≤◌, ◌≡◌, ◌≢◌, ◌⊎◌, inl, inr, refl, true, false, arith, Ptr, null, List,
  [], ◌∷◌, length, drop, Bool-cases, ◌∙◌, ap, ◌==◌, Option, none, some, ltb,
}
use attica.Map.Linear.{HashMap, Entry, slot, next}
use attica.Allocator.Registry.Every.{every}
use attica.Allocator.Page.Tracking.{blocks}

-- The list from a slot on starts with the entry of the slot.
drop-suc : (es : List Entry) (i : ℕ) → i < length es → drop i es ≡ slot es i ∷ drop (suc i) es
drop-suc [] i h = absurd (omega (arith, h))
drop-suc (e ∷ es) zero h = refl
drop-suc (e ∷ es) (suc i) h = drop-suc es i (omega (arith, h))

drop-slot : (es : List Entry) (i : ℕ) → i < length es → drop i es ≡ slot es i ∷ drop (i + 1) es
drop-slot es i h =
    let e : suc i ≡ i + 1 = omega arith in drop-suc es i h ∙ ap (λ x. slot es i ∷ drop x es) e

every-cons_empty :
    (e : Entry) (es : List Entry) → (e.key == null) ≡ true → every blocks (e ∷ es) ≡ every blocks es
unfolding every
every-cons_empty e es empty = rw empty refl

every-cons :
    (e : Entry) (es : List Entry)
    → e.key ≢ null
    → e.value ≢ null
    → every blocks (e ∷ es) ≡ e.value ∷ e.key ∷ every blocks es
unfolding every
every-cons e es used valued =
    let k : (e.key == null) ≡ false = ground (arith, used) in
    let v : (e.value == null) ≡ false = ground (arith, valued) in rw (k, v) refl

drop-beyond : (es : List Entry) (i : ℕ) → length es ≤ i → drop i es ≡ []
drop-beyond [] zero h = refl
drop-beyond [] (suc i) h = refl
drop-beyond (e ∷ es) zero h = absurd (omega (arith, h))
drop-beyond (e ∷ es) (suc i) h = drop-beyond es i (omega (arith, h))

module _ (table : HashMap) (sized : length table.entries ≡ table.size)
    (valued : (j : ℕ)
      → (slot table.entries j).key ≢ null
      → (slot table.entries j).value ≢ null) where
  -- What is left to free from a slot on.
  abbrev pub left : ℕ → List Ptr
  left index = every blocks (drop index table.entries)

  -- `hash_map_next` stops at slot `k`, the next one with a key.
  pub record Stops (index k : ℕ) (r : Option Entry × ℕ) : Type 0 where
    pub from : index ≤ k
    pub below : k < table.size
    pub used : (slot table.entries k).key ≢ null
    pub result : r ≡ (some (slot table.entries k), k + 1)
    pub blocks_left :
        left index ≡ (slot table.entries k).value ∷ (slot table.entries k).key ∷ left (k + 1)

  pub next-Stops :
      (rounds index : ℕ)
      → table.size ≤ index + rounds
      → (((next rounds index table).0 ≡ none) × (left index ≡ []))
        ⊎ ((k : ℕ) × Stops index k (next rounds index table))
  unfolding next every
  next-Stops zero index enough =
      inl (
        refl,
        ap (every blocks) (drop-beyond table.entries index (rw sized (omega (arith, enough)))),
      )
  next-Stops (suc n) index enough = elim (Bool-cases (ltb index table.size)) [
    | inr out ↦
        let gone = drop-beyond table.entries index (rw sized (ground (arith, out))) in
        rw out (inl (refl, ap (every blocks) gone))
    | inl inside ↦
        let below : index < table.size = ground (arith, inside) in
        let front = ap (every blocks) (drop-slot table.entries index (rw sized below)) in
        elim (Bool-cases ((slot table.entries index).key == null)) [
          | inl empty ↦
              let skip : left index ≡ left (index + 1) =
                front
                ∙ every-cons_empty (slot table.entries index) (drop (index + 1) table.entries)
                    empty in
              elim (next-Stops n (index + 1) (omega (arith, enough))) [
                | inl (stop, nothing) ↦ rw (inside, empty) (inl (stop, skip ∙ nothing))
                | inr (k, at) ↦
                    rw (inside, empty)
                      (inr (
                        k,
                        record {
                          from = omega (arith, at.from);
                          below = at.below;
                          used = at.used;
                          result = at.result;
                          blocks_left = skip ∙ at.blocks_left;
                        },
                      ))
              ]
          | inr held ↦
              let used : (slot table.entries index).key ≢ null = ground (arith, held) in
              rw (inside, held)
                (inr (
                  index,
                  record {
                    from = omega arith;
                    below = below;
                    used = used;
                    result = refl;
                    blocks_left =
                        front
                        ∙ every-cons (slot table.entries index) (drop (index + 1) table.entries)
                            used (valued index used);
                  },
                ))
        ]
  ]
