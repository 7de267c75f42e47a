-- ===== src/Map/Linear/Search.antt =====
-- When a table of map/linear.c is well formed, and what `hash_map_search` finds in it.
use attica.Base.{
  ℕ, zero, suc, ◌+◌, ◌%◌, ◌≤◌, ◌<◌, ◌≡◌, ◌≢◌, ◌⊎◌, inl, inr, refl, ◌↔◌, true, false, arith, word,
  List, [], ◌∷◌, ◌==◌, Ptr, null, length, Bool-cases, sym, ◌∙◌, ap,
}
use mathlib.Core.Path.{subst}
use native.Mathlib.Decide.{dec_lt}
use native.Mathlib.Nat.{mod-lt}
use attica.Map.Linear.{Entry, KeyType, HashMap, slot, probe, search_loop, search}

-- `compare` is an equivalence of keys that the hash respects.
pub record IsKeyType (type : KeyType) : Type 0 where
  pub same_refl : (a : Ptr) → type.same a a ≡ true
  pub same_symm : (a b : Ptr) → type.same a b ≡ type.same b a
  pub same_trans :
      (a b c : Ptr) → type.same a b ≡ true → type.same b c ≡ true → type.same a c ≡ true
  pub hash-same : (a b : Ptr) → type.same a b ≡ true → type.hash a ≡ type.hash b

-- A slot with a key is no slot behind the end.
pub slot-below : (entries : List Entry) (j : ℕ) → (slot entries j).key ≢ null → j < length entries
slot-below [] j used = absurd (used refl)
slot-below (entry ∷ entries) zero used = omega arith
slot-below (entry ∷ entries) (suc j) used =
    let rest = slot-below entries j used in omega (arith, rest)

module _ (type : KeyType) where
  -- Slot `j` holds the key `q`.
  pub record Match (es : List Entry) (j : ℕ) (q : Ptr) : Type 0 where
    pub below : j < length es
    pub used : (slot es j).key ≢ null
    pub same : type.same (slot es j).key q ≡ true

  pub Match-cons_empty :
      (e : Entry) (es : List Entry) (q : Ptr) (j : ℕ)
      → (e.key == null) ≡ true
      → ((j : ℕ) → ¬ Match es j q)
      → ¬ Match (e ∷ es) j q
  Match-cons_empty e es q zero empty none m = m.used (ground arith)
  Match-cons_empty e es q (suc j) empty none m =
      none j (record { below = omega (arith, m.below); used = m.used; same = m.same })

  pub Match-cons_differs :
      (e : Entry) (es : List Entry) (q : Ptr) (j : ℕ)
      → type.same e.key q ≡ false
      → ((j : ℕ) → ¬ Match es j q)
      → ¬ Match (e ∷ es) j q
  Match-cons_differs e es q zero differs none m = cc (m.same)
  Match-cons_differs e es q (suc j) differs none m =
      none j (record { below = omega (arith, m.below); used = m.used; same = m.same })

  -- The first `i` probes for `q` meet no empty slot.
  abbrev pub Unbroken : List Entry → (size i : ℕ) → Ptr → Type 0
  Unbroken es size i q = (i' : ℕ) → i' < i → (slot es (probe type q size i')).key ≢ null

  -- Every entry has a value and stands on the probe sequence of its key, with no empty slot before
  -- it, and no key stands twice.
  pub record IsPlaced (es : List Entry) (size : ℕ) : Type 0 where
    pub sized : length es ≡ size
    pub reached :
        (j : ℕ)
        → j < length es
        → (slot es j).key ≢ null
        → (i : ℕ) × (i < size)
          × (probe type (slot es j).key size i ≡ j)
          × Unbroken es size i (slot es j).key
    pub valued : (j : ℕ) → (slot es j).key ≢ null → (slot es j).value ≢ null
    pub unique : (j k : ℕ) (q : Ptr) → Match es j q → Match es k q → j ≡ k

  abbrev pub IsValid : HashMap → Type 0
  IsValid m = IsPlaced m.entries m.size × (0 < m.size)

  -- The entries are as many as the table's size, and there are some.
  abbrev pub IsSized : HashMap → Type 0
  IsSized m = (length m.entries ≡ m.size) × (0 < m.size)

  pub probe-lt : (q : Ptr) (size i : ℕ) → 0 < size → probe type q size i < size
  unfolding probe
  probe-lt q size i pos = mod-lt ((type.hash q + i) % word) pos

  -- The entry that a probe meets, if it holds the key.
  pub Match-probe :
      (m : HashMap) (q : Ptr) (i : ℕ)
      → IsSized m
      → let e = slot m.entries (probe type q m.size i) in
        e.key ≢ null → type.same e.key q ≡ true → Match m.entries (probe type q m.size i) q
  Match-probe m q i (sized, pos) used same = record {
    below = rw sized (probe-lt q m.size i pos);
    used = used;
    same = same;
  }

  module _ (keys : IsKeyType type) where
    pub probe-same :
        (a b : Ptr) (size i : ℕ) → type.same a b ≡ true → probe type a size i ≡ probe type b size i
    unfolding probe
    probe-same a b size i e = rw (keys.hash-same a b e)

    pub Match-same :
        {es : List Entry} {j : ℕ} {p q : Ptr} → Match es j p → type.same p q ≡ true → Match es j q
    Match-same {es} {j} {p} {q} m e = record {
      below = m.below;
      used = m.used;
      same = keys.same_trans (slot es j).key p q m.same e;
    }

    search_loop-Match :
        (n i i₀ : ℕ) (q : Ptr) (m : HashMap) (valid : IsValid m) (j : ℕ)
        → Match m.entries j q
        → probe type q m.size i₀ ≡ j
        → Unbroken m.entries m.size i₀ q
        → i ≤ i₀
        → i₀ < i + n
        → search_loop type n i q m ≡ (slot m.entries j).value
    unfolding search_loop
    search_loop-Match zero i i₀ q m valid j at here path lo hi = absurd (omega arith)
    search_loop-Match (suc n) i i₀ q m valid j at here path lo hi = elim (dec_lt i i₀) [
      | no h ↦
          let last : i ≡ i₀ = omega arith in
          let used : ((slot m.entries j).key == null) ≡ false = ground (arith, at.used) in
          rw (last, here, used, at.same)
      | yes h ↦
          let e = slot m.entries (probe type q m.size i) in
          let used : (e.key == null) ≡ false = ground (arith, path i h) in
          let rest =
            search_loop-Match n (i + 1) i₀ q m valid j at here path (omega arith) (omega arith) in
          elim (Bool-cases (type.same e.key q)) [
            | inr differs ↦ rw (used, differs) rest
            | inl same ↦
                let there = Match-probe m q i (valid.0.sized, valid.1) (path i h) same in
                rw (used, same)
                  (ap (λ k. (slot m.entries k).value)
                    (valid.0.unique (probe type q m.size i) j q there at))
          ]
    ]

    -- A key that some slot holds is found, with the value of that slot.
    pub search-Match :
        (q : Ptr) (m : HashMap)
        → IsValid m
        → q ≢ null
        → (j : ℕ) → Match m.entries j q
        → search type q m ≡ (slot m.entries j).value
    unfolding search
    search-Match q m valid given j at =
        let key = (slot m.entries j).key in
        let (i, below, here, path) = valid.0.reached j at.below at.used in
        let q0 : (q == null) ≡ false = ground arith in
        let s0 : (m.size == 0) ≡ false = ground (arith, valid.1) in
        let same_probe = λ (k : ℕ). probe-same key q m.size k at.same in
        rw (q0, s0)
          (search_loop-Match m.size 0 i q m valid j at (sym (same_probe i) ∙ here)
            (λ i' h. subst (λ k. (slot m.entries k).key ≢ null) (same_probe i') (path i' h))
            (omega arith) (omega arith))

    search_loop-none :
        (n i : ℕ) (q : Ptr) (m : HashMap)
        → IsValid m
        → ((j : ℕ) → ¬ Match m.entries j q)
        → search_loop type n i q m ≡ null
    unfolding search_loop
    search_loop-none zero i q m valid absent = refl
    search_loop-none (suc n) i q m valid absent =
        let e = slot m.entries (probe type q m.size i) in
        elim (Bool-cases (e.key == null)) [
          | inl empty ↦ rw empty
          | inr used ↦ elim (Bool-cases (type.same e.key q)) [
            | inl same ↦ absurd (
                absent (probe type q m.size i)
                  (Match-probe m q i (valid.0.sized, valid.1) (ground arith) same))
            | inr differs ↦ rw (used, differs) (search_loop-none n (i + 1) q m valid absent)
          ]
        ]

    -- A key that no slot holds is not found.
    pub search-none :
        (q : Ptr) (m : HashMap)
        → IsValid m
        → ((j : ℕ) → ¬ Match m.entries j q)
        → search type q m ≡ null
    unfolding search
    search-none q m valid absent = ground (arith, search_loop-none m.size 0 q m valid absent)

    -- Either some slot holds the key, or none does.
    pub Match-cases :
        (es : List Entry) (q : Ptr) → ((j : ℕ) × Match es j q) ⊎ ((j : ℕ) → ¬ Match es j q)
    Match-cases [] q = inr (λ j m. absurd (omega (arith, m.below)))
    Match-cases (e ∷ es) q = elim (Match-cases es q) [
      | inl (j, m) ↦
          inl (suc j, record { below = omega (arith, m.below); used = m.used; same = m.same })
      | inr none ↦ elim (Bool-cases (e.key == null)) [
        | inl empty ↦ inr (λ j m. Match-cons_empty e es q j empty none m)
        | inr used ↦ elim (Bool-cases (type.same e.key q)) [
          | inl same ↦ inl (0, record { below = omega arith; used = ground arith; same = same })
          | inr differs ↦ inr (λ j m. Match-cons_differs e es q j differs none m)
        ]
      ]
    ]

    -- A key is found exactly when some slot holds it.
    pub search_iff :
        (q : Ptr) (m : HashMap)
        → IsValid m
        → q ≢ null
        → (search type q m ≢ null) ↔ ((j : ℕ) × Match m.entries j q)
    search_iff q m valid given = (
      λ found. elim (Match-cases m.entries q) [
        | inl at ↦ at
        | inr none ↦ absurd (found (search-none q m valid none))
      ],
      λ (j, at). rw (search-Match q m valid given j at) (valid.0.valued j at.used),
    )
