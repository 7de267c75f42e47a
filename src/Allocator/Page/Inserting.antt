-- ===== src/Allocator/Page/Inserting.antt =====
-- The insertion that the operations of allocator/page.c share, with the resize of a table that is full.
use attica.Base.{
  ◌%◌, ◌*◌, ◌≡◌, ◌≢◌, ◌⊎◌, ◌↔◌, inl, inr, refl, true, false, arith, Ptr, null, Bool-cases, ◌∙◌, sym,
  ◌==◌, if◌then◌else◌, word,
}
use mathlib.Core.Bool.{false≢true}
use mathlib.Core.Path.{subst}
use attica.Map.Linear.{HashMap, HashMapState, success, full, is_success}
use attica.Map.Linear as Linear
use attica.Map.Linear.Hash.{address_type}
use attica.Map.Linear.Search.{IsValid}
use attica.Map.Linear.Rehash.{is_success_iff}
use attica.Map.Linear.Filled.{IsCrowded}
use attica.Map.Linear.Adding.{doubled, IsReady, Adds, insert-Adds}
use attica.Allocator.Registry.{
  tracked, address-IsKeyType, HasNoRoom, Registers, insert-Registers, resize-tracked,
}
use attica.Allocator.Page.{Grants, is_full, insert_entry}

-- A new key finds no place in a table, also when it is resized because no probe meets an empty slot.
abbrev LacksAgain : Grants → HashMap → Ptr → Type 0
LacksAgain grants table key =
    let (grown, table') =
      Linear.resize address_type grants.resize ((table.size * 2) % word) table in
    (grown ≢ success) ⊎ HasNoRoom grants.again table' key

abbrev pub LacksRoom : Grants → HashMap → Ptr → Type 0
LacksRoom grants table key =
    let (grown, table') = doubled address_type grants.first table in
    (grown ≢ success) ⊎ (IsCrowded address_type table' key × LacksAgain grants table' key)

Registers-same :
    {NoRoom NoRoom' : Type 0} (table table' : HashMap) (key value : Ptr)
    → {r : HashMapState × HashMap} → key ≢ null
    → ((q : Ptr) → q ≢ null → tracked table' q ≡ tracked table q)
    → (NoRoom' ↔ NoRoom)
    → Registers NoRoom' table' key value r
    → Registers NoRoom table key value r
Registers-same table table' key value given same room registers = record {
  valid = registers.valid;
  absent = λ h. sym (same key given) ∙ registers.absent h;
  added = registers.added;
  others = λ h q some away. registers.others h q some away ∙ same q some;
  kept = λ h q some. registers.kept h q some ∙ same q some;
  refuses = λ some none.
      let r = registers.refuses some (same key given ∙ none) in
      (λ h. room.0 (r.0 h), λ why. r.1 (room.1 why));
}

is_full_iff : (s : HashMapState) → (is_full s ≡ true) ↔ (s ≡ full)
unfolding is_full
is_full_iff s = ground arith

module _ (grants : Grants) (key page : Ptr) (table : HashMap) (valid : IsValid address_type table)
    (given : key ≢ null) where
  abbrev first : HashMapState × HashMap
  first = Linear.insert address_type grants.first key page table

  adds : Adds address_type address-IsKeyType grants.first table key page first
  adds = insert-Adds address_type address-IsKeyType grants.first key page table valid

  one : Registers (HasNoRoom grants.first table key) table key page first
  one = insert-Registers grants.first key page table valid given

  abbrev base : HashMapState × HashMap
  base = doubled address_type grants.first table

  -- A first insertion that does not answer FULL has no room if the table could not be doubled.
  not_full-LacksRoom :
      is_full first.0 ≡ false
      → page ≢ null
      → HasNoRoom grants.first table key ↔ LacksRoom grants table key
  not_full-LacksRoom off some = (
    λ why. elim why [
      | inl stuck ↦ inl stuck
      | inr crowded ↦ elim (Bool-cases (is_success base.0)) [
        | inr bad ↦ inl (λ h. false≢true (sym bad ∙ (is_success_iff base.0).1 h))
        | inl good ↦
            let ready : IsReady address_type grants.first table key page =
              (given, some, (is_success_iff base.0).0 good) in
            absurd
              (false≢true (sym off ∙ (is_full_iff first.0).1 (adds.crowded.1 (ready, crowded))))
      ]
    ],
    λ why. elim why [ inl stuck ↦ inl stuck | inr (crowded, _) ↦ inr crowded ],
  )

  -- One that answers FULL leaves the table doubled, if it was heavy.
  full-doubled :
      is_full first.0 ≡ true
      → (base.0 ≡ success) × IsCrowded address_type base.1 key × (first.1 ≡ base.1)
  full-doubled over =
      let state = (is_full_iff first.0).0 over in
      let (ready, crowded) = adds.crowded.0 state in
      let k0 : (key == null) ≡ false = ground (arith, given) in
      let p0 : (page == null) ≡ false = ground (arith, ready.1) in
      (ready.2, crowded, adds.unchanged (λ h. cc (h, state)) ∙ rw (k0, p0) refl)

  abbrev resized : HashMapState × HashMap
  resized = Linear.resize address_type grants.resize ((first.1.size * 2) % word) first.1

  -- The insertion behind the resize.
  again-Registers :
      is_full first.0 ≡ true
      → Registers (LacksRoom grants table key) table key page (
          if is_success resized.0
          then Linear.insert address_type grants.again key page resized.1
          else resized)
  again-Registers over =
      let (done, crowded, table') = full-doubled over in
      let stuck : first.0 ≢ success = λ h. cc (h, (is_full_iff first.0).0 over) in
      let (valid'', same) =
        resize-tracked grants.resize ((first.1.size * 2) % word) first.1 one.valid in
      let all = λ (q : Ptr) (some : q ≢ null). same q some ∙ one.kept stuck q some in
      let two = insert-Registers grants.again key page resized.1 valid'' given in
      let there : LacksAgain grants first.1 key → LacksRoom grants table key =
        λ why. inr (crowded, subst (λ t. LacksAgain grants t key) table' why) in
      let back : LacksRoom grants table key → LacksAgain grants first.1 key = λ why. elim why [
        | inl bad ↦ absurd (bad done)
        | inr (_, why') ↦ subst (λ t. LacksAgain grants t key) (sym table') why'
      ] in
      elim (Bool-cases (is_success resized.0)) [
        | inl good ↦
            let fine = (is_success_iff resized.0).0 good in
            rw good (
              Registers-same table resized.1 key page given all
                (
                  λ why. there (inr why),
                  λ why. elim (back why) [ inl bad ↦ absurd (bad fine) | inr why' ↦ why' ],
                )
                two)
        | inr bad ↦
            let failed : resized.0 ≢ success =
              λ e. false≢true (sym bad ∙ (is_success_iff resized.0).1 e) in
            rw bad (record {
              valid = valid'';
              absent = λ h. absurd (failed h);
              added = λ h. absurd (failed h);
              others = λ h. absurd (failed h);
              kept = λ _. all;
              refuses = λ _ _. (λ _. there (inl failed), λ _. failed);
            })
      ]

  pub insert_entry-Registers :
      Registers (LacksRoom grants table key) table key page (insert_entry grants key page table)
  unfolding insert_entry
  insert_entry-Registers = elim (Bool-cases (is_full first.0)) [
    | inl over ↦ rw over (again-Registers over)
    | inr room ↦ rw room (record {
      valid = one.valid;
      absent = one.absent;
      added = one.added;
      others = one.others;
      kept = one.kept;
      refuses = λ some none.
          let r = one.refuses some none in
          let same = not_full-LacksRoom room some in (λ h. same.0 (r.0 h), λ why. r.1 (same.1 why));
    })
  ]
