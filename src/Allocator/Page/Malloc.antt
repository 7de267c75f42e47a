-- ===== src/Allocator/Page/Malloc.antt =====
-- `page_malloc` of allocator/page.c.
use mathlib.Core.Bool.{false≢true}
use mathlib.Core.Path.{subst}
use attica.Base.{
  ℕ, ◌≡◌, ◌≢◌, ◌⊎◌, inl, inr, refl, true, false, arith, Ptr, null, List, ◌∷◌, Bool-cases, ◌∙◌, sym,
  ap, ◌==◌, Returns, ok, ◌>>=◌,
}
use attica.Memory.{Host, alloc, is_live, release}
use attica.Memory.Fresh.{release_first, IsFresh, Given, alloc-Allocates, IsFresh-release}
use attica.Map.Linear.{HashMap, HashMapState, success, is_success}
use attica.Map.Linear.Rehash.{is_success_iff}
use attica.Allocator.Registry.{tracked, Registers}
use attica.Allocator.Registry.Blocks.{Live, live_head, live_tail, not_live-IsUnclaimed}
use attica.Allocator.Page.{Pages, Grants, entry_create, release_at, insert_entry, page_malloc}
use attica.Allocator.Page.Creating.{NotCreated, Created, entry_create-Created}
use attica.Allocator.Page.Inserting.{LacksRoom, insert_entry-Registers}
use attica.Allocator.Page.Tracking.{
  blocks, IsPages, Unchanged, Tracks, Unchanged-IsPages, new-IsPages, IsNew, release_at-live,
  release_second,
}

not_in_longer :
    (p q : Ptr) (live : List Ptr)
    → is_live p (q ∷ live) ≡ false
    → (is_live p live ≡ false) × (p ≢ q)
unfolding is_live
not_in_longer p q live h = ground (arith, h)

-- `page_malloc` ends without a fault, with an address that is tracked now, or with nothing changed.
abbrev pub Mallocs : (pages : Pages) (size alignment : ℕ) → Ptr × Pages → Type 0
Mallocs pages size alignment (address, pages') =
    IsPages pages'
    × (((address ≡ null) × Unchanged pages pages')
        ⊎ ((address ≢ null)
            × (is_live address pages.host.live ≡ false)
            × Tracks pages address size alignment pages'
            × (pages'.host.live ≡ tracked pages'.allocator address ∷ address ∷ pages.host.live)))

-- A new block and a new entry for it, before the insertion.
record Prepared (pages : Pages) (address page size alignment : ℕ) (noted : Pages) : Type 0 where
  some_address : address ≢ null
  some_page : page ≢ null
  differ : page ≢ address
  off_address : is_live address pages.host.live ≡ false
  off_page : is_live page pages.host.live ≡ false
  live : noted.host.live ≡ page ∷ address ∷ pages.host.live
  fresh : IsFresh noted.host
  allocator : noted.allocator ≡ pages.allocator
  entry : noted.entries page ≡ record { size = size; alignment = alignment }
  others : (q : Ptr) → q ≢ page → noted.entries q ≡ pages.entries q

module _ (grants : Grants) (pages : Pages) (is : IsPages pages) (address page size alignment : ℕ)
    (noted : Pages) (prepared : Prepared pages address page size alignment noted) where
  abbrev inserted : HashMapState × HashMap
  inserted = insert_entry grants address page noted.allocator

  abbrev kept : Pages
  kept = record noted { allocator = inserted.1 }

  registers :
      Registers (LacksRoom grants noted.allocator address) noted.allocator address page inserted
  registers =
      insert_entry-Registers grants address page noted.allocator
        (rw (prepared.allocator) (is.valid)) prepared.some_address

  same_before : (q : Ptr) → tracked noted.allocator q ≡ tracked pages.allocator q
  same_before q = ap (λ t. tracked t q) prepared.allocator

  on_page : is_live page noted.host.live ≡ true
  on_page = rw (prepared.live) (live_head page (address ∷ pages.host.live))

  on_address : is_live address noted.host.live ≡ true
  on_address =
      rw (prepared.live)
        (live_tail page address (address ∷ pages.host.live) (live_head address pages.host.live))

  on_others : Live pages.host.live noted.host.live
  on_others b h =
      rw (prepared.live)
        (live_tail page b (address ∷ pages.host.live) (live_tail address b pages.host.live h))

  kept-IsNew : inserted.0 ≡ success → IsNew pages address page kept
  kept-IsNew done = record {
    some_address = prepared.some_address;
    some_page = prepared.some_page;
    differ = prepared.differ;
    free_address =
        not_live-IsUnclaimed blocks pages.allocator pages.host.live address is.registry
          prepared.off_address;
    free_page =
        not_live-IsUnclaimed blocks pages.allocator pages.host.live page is.registry
          prepared.off_page;
    live_address = on_address;
    live_page = on_page;
    fresh = prepared.fresh;
    grown = on_others;
    valid = registers.valid;
    added = registers.added done;
    others = λ q some away. registers.others done q some away ∙ same_before q;
    entries = prepared.others;
  }

  kept-Mallocs : inserted.0 ≡ success → Mallocs pages size alignment (address, kept)
  kept-Mallocs done =
      let (whole, tracks) =
        new-IsPages pages address page size alignment kept is.registry (kept-IsNew done)
          prepared.entry in
      let page_first = ap (λ p. p ∷ address ∷ pages.host.live) (sym (registers.added done)) in
      (whole, inr (prepared.some_address, prepared.off_address, tracks, prepared.live ∙ page_first))

  -- After a failed insertion the block and the entry are freed again.
  dropped-Mallocs :
      inserted.0 ≢ success
      → Returns
          (do
            pages' ← release_at address kept
            pages'' ← release_at page pages'
            ok (null, pages''))
          (Mallocs pages size alignment)
  dropped-Mallocs failed =
      let once = release address noted.host.live in
      let middle = record kept { host = record noted.host { live = once } } in
      let after = record kept { host = record noted.host { live = release page once } } in
      let shorter : once ≡ page ∷ pages.host.live =
        rw (prepared.live) (release_second page address pages.host.live prepared.differ) in
      let on_page' : is_live page once ≡ true = rw shorter (live_head page pages.host.live) in
      let back : release page once ≡ pages.host.live =
        rw shorter (release_first page pages.host.live) in
      let (whole, same) =
        Unchanged-IsPages pages after is registers.valid
          (IsFresh-release page middle.host (IsFresh-release address noted.host prepared.fresh))
          (λ q some. registers.kept failed q some ∙ same_before q)
          (λ p h. prepared.others p (λ e.
            false≢true (sym prepared.off_page ∙ subst (λ x. is_live x pages.host.live ≡ true) e h)))
          back in
      (
        (null, after),
        rw (
          release_at-live address kept prepared.some_address on_address,
          release_at-live page middle prepared.some_page on_page',
        ),
        (whole, inl (refl, same)),
      )

-- The block is given: what follows from the creation of its entry.
module _ (pages : Pages) (size alignment : ℕ) (is : IsPages pages) (host' : Host) (address : Ptr)
    (given : Given pages.host (address, host')) (page : Ptr) (noted : Pages) where
  -- Without an entry the block is freed again.
  taken_back :
      NotCreated (record pages { host = host' }) (page, noted)
      → Returns
          (do pages' ← release_at address noted; ok (null, pages'))
          (Mallocs pages size alignment)
  taken_back missing =
      let grown : noted.host.live ≡ address ∷ pages.host.live = missing.live ∙ given.live in
      let live : is_live address noted.host.live ≡ true =
        rw grown (live_head address pages.host.live) in
      let after = record noted {
        host = record noted.host { live = release address noted.host.live };
      } in
      let freed : release address noted.host.live ≡ pages.host.live =
        rw grown (release_first address pages.host.live) in
      let (kept, same) =
        Unchanged-IsPages pages after is (rw (missing.allocator) (is.valid))
          (IsFresh-release address noted.host missing.fresh)
          (λ q some. ap (λ t. tracked t q) missing.allocator)
          (λ p h. ap (λ es. es p) missing.entries) freed in
      ((null, after), rw (release_at-live address noted given.some live), (kept, inl (refl, same)))

  given-Prepared :
      Created size alignment (record pages { host = host' }) (page, noted)
      → Prepared pages address page size alignment noted
  given-Prepared created =
      let (off, differ) =
        not_in_longer page address pages.host.live (rw (given.live) at (created.off)) in
      record {
        some_address = given.some;
        some_page = created.some;
        differ = differ;
        off_address = given.off;
        off_page = off;
        live = created.live ∙ ap (λ l. page ∷ l) given.live;
        fresh = created.fresh;
        allocator = created.allocator;
        entry = created.entry;
        others = created.others;
      }

-- `page_malloc` never faults. It gives `NULL` and changes nothing, or an address that was not live and now is
-- tracked with this size and alignment; then its block and its entry are the only new ones, and what was tracked
-- before is tracked as before.
pub page_malloc-Mallocs :
    (grants : Grants) (size alignment : ℕ) (pages : Pages)
    → IsPages pages
    → Returns (page_malloc grants size alignment pages) (Mallocs pages size alignment)
unfolding page_malloc
page_malloc-Mallocs grants size alignment pages is =
    let address = (alloc size alignment pages.host).0 in
    let reserved = record pages { host = (alloc size alignment pages.host).1 } in
    elim (alloc-Allocates size alignment pages.host is.fresh) [
      | inl refused ↦
          let e : (address == null) ≡ true = ground (arith, refused.none) in
          let (kept, same) =
            Unchanged-IsPages pages reserved is is.valid refused.fresh (λ q some. refl)
              (λ p h. refl) refused.live in
          ((null, reserved), rw e, (kept, inl (refl, same)))
      | inr given ↦
          let e : (address == null) ≡ false = ground (arith, given.some) in
          let (page, noted) = entry_create size alignment reserved in
          elim (entry_create-Created size alignment reserved given.fresh) [
            | inl missing ↦
                let f : (page == null) ≡ true = ground (arith, missing.none) in
                rw (e, f)
                  (taken_back pages size alignment is reserved.host address given page noted
                    missing)
            | inr created ↦
                let f : (page == null) ≡ false = ground (arith, created.some) in
                let prepared =
                  given-Prepared pages size alignment is reserved.host address given page noted
                    created in
                let (state, table) = insert_entry grants address page noted.allocator in
                elim (Bool-cases (is_success state)) [
                  | inl good ↦ (
                    (address, record noted { allocator = table }),
                    rw (e, f, good),
                    kept-Mallocs grants pages is address page size alignment noted prepared
                        ((is_success_iff state).0 good),
                  )
                  | inr bad ↦
                      rw (e, f, bad)
                        (dropped-Mallocs grants pages is address page size alignment noted prepared
                          (λ h. false≢true (sym bad ∙ (is_success_iff state).1 h)))
                ]
          ]
    ]
