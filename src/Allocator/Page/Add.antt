-- ===== src/Allocator/Page/Add.antt =====
-- `page_add` of allocator/page.c.
use mathlib.Core.Bool.{false≢true}
use mathlib.Core.Path.{subst}
use attica.Base.{
  ℕ, ◌≡◌, ◌≢◌, ◌⊎◌, inl, inr, refl, Bool, true, false, arith, Ptr, null, ◌∷◌, Bool-cases, ◌∙◌, sym,
  ap, ◌==◌, Returns, ok, ◌>>=◌,
}
use attica.Memory.{is_live, release}
use attica.Memory.Fresh.{release_first, IsFresh-release}
use attica.Map.Linear.{HashMap, HashMapState, success, is_success}
use attica.Map.Linear.Rehash.{is_success_iff}
use attica.Allocator.Registry.{tracked, Registers}
use attica.Allocator.Registry.Blocks.{IsUnclaimed, live_head, live_tail, not_live-IsUnclaimed}
use attica.Allocator.Page.{Pages, Grants, entry_create, release_at, insert_entry, page_add}
use attica.Allocator.Page.Creating.{Created, entry_create-Created}
use attica.Allocator.Page.Inserting.{LacksRoom, insert_entry-Registers}
use attica.Allocator.Page.Tracking.{
  blocks, IsPages, Unchanged, Tracks, Unchanged-IsPages, new-IsPages, IsNew, release_at-live,
}

-- `page_add` answers false and changes nothing, or the address is tracked.
abbrev pub Adds : (pages : Pages) (ptr size alignment : ℕ) → Bool × Pages → Type 0
Adds pages ptr size alignment (answer, pages') =
    IsPages pages'
    × (((answer ≡ false) × Unchanged pages pages')
        ⊎ ((answer ≡ true)
            × (tracked pages.allocator ptr ≡ null)
            × Tracks pages ptr size alignment pages'
            × (pages'.host.live ≡ tracked pages'.allocator ptr ∷ pages.host.live)))

module _ (grants : Grants) (ptr size alignment : ℕ) (pages : Pages) (is : IsPages pages)
    (some : ptr ≢ null) (live : is_live ptr pages.host.live ≡ true)
    (free : IsUnclaimed blocks pages.allocator ptr) (page : Ptr) (noted : Pages)
    (created : Created size alignment pages (page, noted)) where
  abbrev inserted : HashMapState × HashMap
  inserted = insert_entry grants ptr page noted.allocator

  abbrev kept : Pages
  kept = record noted { allocator = inserted.1 }

  registers : Registers (LacksRoom grants noted.allocator ptr) noted.allocator ptr page inserted
  registers =
      insert_entry-Registers grants ptr page noted.allocator (rw (created.allocator) (is.valid))
        some

  same_before : (q : Ptr) → tracked noted.allocator q ≡ tracked pages.allocator q
  same_before q = ap (λ t. tracked t q) created.allocator

  not_page : (p : Ptr) → is_live p pages.host.live ≡ true → p ≢ page
  not_page p on e =
      false≢true (sym created.off ∙ subst (λ x. is_live x pages.host.live ≡ true) e on)

  on_page : is_live page noted.host.live ≡ true
  on_page = rw (created.live) (live_head page pages.host.live)

  added-Adds : inserted.0 ≡ success → Adds pages ptr size alignment (true, kept)
  added-Adds done =
      let new : IsNew pages ptr page kept = record {
        some_address = some;
        some_page = created.some;
        differ = λ e. not_page ptr live (sym e);
        free_address = free;
        free_page =
            not_live-IsUnclaimed blocks pages.allocator pages.host.live page is.registry
              created.off;
        live_address = rw (created.live) (live_tail page ptr pages.host.live live);
        live_page = on_page;
        fresh = created.fresh;
        grown = λ b h. rw (created.live) (live_tail page b pages.host.live h);
        valid = registers.valid;
        added = registers.added done;
        others = λ q given away. registers.others done q given away ∙ same_before q;
        entries = created.others;
      } in
      let (whole, tracks) =
        new-IsPages pages ptr page size alignment kept is.registry new created.entry in
      (
        whole,
        inr (
          refl,
          sym (same_before ptr) ∙ registers.absent done,
          tracks,
          created.live ∙ ap (λ p. p ∷ pages.host.live) (sym (registers.added done)),
        ),
      )

  dropped-Adds :
      inserted.0 ≢ success
      → Returns {A = Bool × Pages}
          (do pages' ← release_at page kept; ok (false, pages'))
          (Adds pages ptr size alignment)
  dropped-Adds failed =
      let after = record kept {
        host = record noted.host { live = release page noted.host.live };
      } in
      let (whole, same) =
        Unchanged-IsPages pages after is registers.valid
          (IsFresh-release page noted.host created.fresh)
          (λ q given. registers.kept failed q given ∙ same_before q)
          (λ p on. created.others p (not_page p on))
          (rw (created.live) (release_first page pages.host.live)) in
      (
        (false, after),
        rw (release_at-live page kept created.some on_page),
        (whole, inl (refl, same)),
      )

-- `page_add` of a live address that belongs to no tracked block never faults: it answers false and changes nothing, or true, and then
-- the address, which was not tracked, is tracked with this size and alignment, its entry is the only new block, and
-- what was tracked before is tracked as before. An address that is tracked is answered by false.
pub page_add-Adds :
    (grants : Grants) (ptr size alignment : ℕ) (pages : Pages)
    → IsPages pages
    → (ptr ≢ null
        → tracked pages.allocator ptr ≡ null
        → (is_live ptr pages.host.live ≡ true) × IsUnclaimed blocks pages.allocator ptr)
    → Returns (page_add grants ptr size alignment pages) (Adds pages ptr size alignment)
unfolding page_add
page_add-Adds grants ptr size alignment pages is owned =
    let (page, noted) = entry_create size alignment pages in
    let (whole, same) =
      Unchanged-IsPages pages pages is is.valid is.fresh (λ q _. refl) (λ p _. refl) refl in
    elim (Bool-cases (ptr == null)) [
      | inl none ↦ ((false, pages), rw none, (whole, inl (refl, same)))
      | inr given ↦
          let some : ptr ≢ null = ground arith in
          elim (Bool-cases (tracked pages.allocator ptr == null)) [
            | inr known ↦ ((false, pages), rw (given, known), (whole, inl (refl, same)))
            | inl free ↦
                let (live, own) = owned some (ground arith) in
                elim (entry_create-Created size alignment pages is.fresh) [
                  | inl missing ↦
                      let f : (page == null) ≡ true = ground (arith, missing.none) in
                      let (whole', same') =
                        Unchanged-IsPages pages noted is (rw (missing.allocator) (is.valid))
                          missing.fresh (λ q _. ap (λ t. tracked t q) missing.allocator)
                          (λ p _. ap (λ es. es p) missing.entries) missing.live in
                      ((false, noted), rw (given, free, f), (whole', inl (refl, same')))
                  | inr created ↦
                      let f : (page == null) ≡ false = ground (arith, created.some) in
                      let (state, table) = insert_entry grants ptr page noted.allocator in
                      elim (Bool-cases (is_success state)) [
                        | inl good ↦ (
                          (true, record noted { allocator = table }),
                          rw (given, free, f, good),
                          added-Adds grants ptr size alignment pages is some live own page noted
                              created ((is_success_iff state).0 good),
                        )
                        | inr bad ↦
                            rw (given, free, f, bad)
                              (dropped-Adds grants ptr size alignment pages is some live own page
                                noted created
                                (λ h. false≢true (sym bad ∙ (is_success_iff state).1 h)))
                      ]
                ]
          ]
    ]
