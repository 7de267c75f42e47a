-- ===== src/Allocator/Registry/Every.antt =====
-- All the blocks behind a table of addresses, for the loops of allocator/page.c and allocator/lease.c
-- that free everything.
use mathlib.Core.Bool.{false≢true}
use mathlib.Core.Path.{subst}
use attica.Base.{
  ℕ, zero, suc, ◌≡◌, ◌≢◌, ◌↔◌, inl, inr, refl, true, false, arith, Ptr, null, List, [], ◌∷◌, ◌++◌,
  Bool-cases, ◌∙◌, sym, ap, ◌==◌, ◌||◌, if◌then◌else◌,
}
use attica.Memory.{is_live}
use attica.Map.Linear.{HashMap, Entry, slot}
use attica.Map.Linear.Hash.{address_type, address_same}
use attica.Map.Linear.Search.{IsValid, slot-below, search-Match, search_iff}
use attica.Allocator.Registry.{tracked, address-IsKeyType}
use attica.Allocator.Registry.Blocks.{IsApart, Live, released, IsRegistry}

-- What is in two lists of blocks in a row.
is_live-++ :
    (b : Ptr) (ps qs : List Ptr)
    → is_live b (ps ++ qs) ≡ (if is_live b ps then true else is_live b qs)
unfolding is_live
is_live-++ b [] qs = refl
is_live-++ b (p ∷ ps) qs = ground (arith, is_live-++ b ps qs)

pub live_front : (b : Ptr) (ps qs : List Ptr) → is_live b ps ≡ true → is_live b (ps ++ qs) ≡ true
live_front b ps qs h = is_live-++ b ps qs ∙ rw h refl

pub live_rear : (b : Ptr) (ps qs : List Ptr) → is_live b qs ≡ true → is_live b (ps ++ qs) ≡ true
live_rear b ps qs h = is_live-++ b ps qs ∙ ground (arith, h)

IsApart-++ :
    (ps qs : List Ptr)
    → IsApart ps
    → IsApart qs
    → ((b : Ptr) → is_live b ps ≡ true → is_live b qs ≡ false)
    → IsApart (ps ++ qs)
unfolding is_live
IsApart-++ [] qs ap_ps ap_qs off = ap_qs
IsApart-++ (p ∷ ps) qs (some, single, apart) ap_qs off = (
  some,
  (is_live-++ p ps qs ∙ rw single (off p (ground arith))),
  IsApart-++ ps qs apart ap_qs (λ b h. off b (ground (arith, h))),
)

-- And apart.
pub IsApart-split :
    (ps qs : List Ptr)
    → IsApart (ps ++ qs)
    → IsApart ps × IsApart qs × ((b : Ptr) → is_live b qs ≡ true → is_live b ps ≡ false)
unfolding is_live
IsApart-split [] qs apart = (tt, apart, λ b h. refl)
IsApart-split (p ∷ ps) qs (some, single, apart) =
    let (front, back, off) = IsApart-split ps qs apart in
    let both = sym (is_live-++ p ps qs) ∙ single in
    let front_off : is_live p ps ≡ false = ground (arith, both) in
    let back_off : is_live p qs ≡ false = ground (arith, both) in
    (
      (some, front_off, front),
      back,
      λ b h.
          let e : (p == b) ≡ false = elim (Bool-cases (p == b)) [
            | inr differs ↦ differs
            | inl same ↦
                let same' : b ≡ p = ground arith in
                absurd (false≢true (sym back_off ∙ ap (λ x. is_live x qs) (sym same') ∙ h))
          ] in
          rw e (off b h),
    )

pub released-++ :
    (ps qs live : List Ptr) → released (ps ++ qs) live ≡ released qs (released ps live)
unfolding released
released-++ [] qs live = refl
released-++ (p ∷ ps) qs live = released-++ ps qs _

module _ (blocks : (key value : Ptr) → List Ptr) where
  -- The blocks of all the entries, in their order.
  unfoldable pub every : List Entry → List Ptr
  every [] = []
  every (entry ∷ entries) =
      if (entry.key == null) || (entry.value == null)
      then every entries
      else blocks entry.key entry.value ++ every entries

  -- The slots of a list with entries that hold keys, up to blocks of their own.
  record IsSeparate (entries : List Entry) : Type 0 where
    pub apart :
        (j : ℕ)
        → (slot entries j).key ≢ null
        → IsApart (blocks (slot entries j).key (slot entries j).value)
    pub separate :
        (j k : ℕ) (b : Ptr)
        → (slot entries j).key ≢ null
        → (slot entries k).key ≢ null
        → j ≢ k
        → is_live b (blocks (slot entries j).key (slot entries j).value) ≡ true
        → is_live b (blocks (slot entries k).key (slot entries k).value) ≡ false

  -- A block of the entries belongs to one of them.
  every-slot :
      (entries : List Entry) (b : Ptr)
      → is_live b (every entries) ≡ true
      → (j : ℕ) × ((slot entries j).key ≢ null)
        × (is_live b (blocks (slot entries j).key (slot entries j).value) ≡ true)
  unfolding every is_live
  every-slot [] b h = absurd (false≢true h)
  every-slot (entry ∷ entries) b h =
      elim (Bool-cases ((entry.key == null) || (entry.value == null))) [
        | inl skip ↦
            let (j, used, there) = every-slot entries b (rw skip at h) in (suc j, used, there)
        | inr held ↦ elim (Bool-cases (is_live b (blocks entry.key entry.value))) [
          | inl mine ↦ (0, ground (arith, held), mine)
          | inr other ↦
              let both =
                sym (is_live-++ b (blocks entry.key entry.value) (every entries)) ∙ rw held at h in
              let (j, used, there) = every-slot entries b (rw other at both) in (suc j, used, there)
        ]
      ]

  slot-every :
      (entries : List Entry) (b : Ptr) (j : ℕ)
      → (slot entries j).key ≢ null
      → (slot entries j).value ≢ null
      → is_live b (blocks (slot entries j).key (slot entries j).value) ≡ true
      → is_live b (every entries) ≡ true
  unfolding every
  slot-every [] b j used valued there = absurd (used refl)
  slot-every (entry ∷ entries) b zero used valued there =
      let held : ((entry.key == null) || (entry.value == null)) ≡ false =
        ground (arith, used, valued) in
      rw held (live_front b (blocks entry.key entry.value) (every entries) there)
  slot-every (entry ∷ entries) b (suc j) used valued there =
      let rest = slot-every entries b j used valued there in
      elim (Bool-cases ((entry.key == null) || (entry.value == null))) [
        | inl skip ↦ rw skip rest
        | inr held ↦ rw held (live_rear b (blocks entry.key entry.value) (every entries) rest)
      ]

  every-IsApart : (entries : List Entry) → IsSeparate entries → IsApart (every entries)
  unfolding every
  every-IsApart [] is = tt
  every-IsApart (entry ∷ entries) is =
      let rest = every-IsApart entries (record {
        apart = λ j. is.apart (suc j);
        separate = λ j k b used_j used_k differ.
            is.separate (suc j) (suc k) b used_j used_k (omega (arith, differ));
      }) in
      elim (Bool-cases ((entry.key == null) || (entry.value == null))) [
        | inl skip ↦ rw skip rest
        | inr held ↦
            let used : entry.key ≢ null = ground (arith, held) in
            rw held (
              IsApart-++ (blocks entry.key entry.value) (every entries) (is.apart 0 used) rest
                λ b mine. elim (Bool-cases (is_live b (every entries))) [
                  | inr off ↦ off
                  | inl on ↦
                      let (j, used_j, there) = every-slot entries b on in
                      absurd (
                        false≢true
                          (sym (is.separate 0 (suc j) b used used_j (omega arith) mine) ∙ there))
                ])
      ]

  every-Live :
      (live : List Ptr) (entries : List Entry)
      → ((j : ℕ)
          → (slot entries j).key ≢ null
          → Live (blocks (slot entries j).key (slot entries j).value) live)
      → Live (every entries) live
  every-Live live entries each b h =
      let (j, used, there) = every-slot entries b h in each j used b there

  module _ (owner : HashMap) (live : List Ptr) (valid : IsValid address_type owner)
      (registry : IsRegistry blocks owner live) where
    -- An entry is what the search for its key finds.
    pub entry-tracked :
        (j : ℕ)
        → (slot owner.entries j).key ≢ null
        → tracked owner (slot owner.entries j).key ≡ (slot owner.entries j).value
    unfolding address_type address_same
    entry-tracked j used =
        search-Match address_type address-IsKeyType (slot owner.entries j).key owner valid used j
          (record { below = slot-below owner.entries j used; used = used; same = ground arith })

    pub entry-held :
        (j : ℕ)
        → (slot owner.entries j).key ≢ null
        → tracked owner (slot owner.entries j).key ≢ null
    entry-held j used e = valid.0.valued j used (sym (entry-tracked j used) ∙ e)

    entries-IsSeparate : IsSeparate owner.entries
    unfolding address_type address_same
    entries-IsSeparate = record {
      apart = λ j used. rw (sym (entry-tracked j used)) (registry.apart _ used (entry-held j used));
      separate = λ j k b used_j used_k differ h.
          let key_k = (slot owner.entries k).key in
          let away : (slot owner.entries j).key ≢ key_k = λ e. differ (
            valid.0.unique j k key_k
              (record {
                below = slot-below owner.entries j used_j;
                used = used_j;
                same = rw e (ground arith);
              })
              (record {
                below = slot-below owner.entries k used_k;
                used = used_k;
                same = ground arith;
              })) in
          rw (sym (entry-tracked k used_k)) (
            registry.separate _ _ b used_j used_k (entry-held j used_j) (entry-held k used_k) away
              (rw (entry-tracked j used_j) h));
    }

    -- The blocks of the entries are those of the tracked addresses, all live, and none comes twice.
    pub record Covers : Type 0 where
      pub once : IsApart (every owner.entries)
      pub here : Live (every owner.entries) live
      pub claimed :
          (b : Ptr)
          → (is_live b (every owner.entries) ≡ true) ↔ (
              (q : Ptr) × (q ≢ null)
              × (tracked owner q ≢ null)
              × (is_live b (blocks q (tracked owner q)) ≡ true))

    pub every-Covers : Covers
    unfolding address_type address_same
    every-Covers =
        let entries = owner.entries in
        record {
          once = every-IsApart entries entries-IsSeparate;
          here = every-Live live entries (λ j used.
              rw (sym (entry-tracked j used)) (registry.all_live _ used (entry-held j used)));
          claimed = λ b. (
            λ h.
                let (j, used, there) = every-slot entries b h in
                ((slot entries j).key, used, entry-held j used, rw (entry-tracked j used) there),
            λ (q, some, held, there).
                let (j, at) =
                  (search_iff address_type address-IsKeyType q owner valid some).0 held in
                let found = search-Match address_type address-IsKeyType q owner valid some j at in
                let e : q ≡ (slot entries j).key = ground (arith, at.same) in
                slot-every entries b j at.used (valid.0.valued j at.used) (
                  subst (λ x. is_live b (blocks x (slot entries j).value) ≡ true) e
                    (rw found at there)),
          );
        }
