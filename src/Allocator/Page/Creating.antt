-- ===== src/Allocator/Page/Creating.antt =====
-- `page_entry_create` of allocator/page.c.
use attica.Base.{ℕ, ◌≡◌, ◌≢◌, ◌⊎◌, inl, inr, refl, true, false, arith, Ptr, null, ◌∷◌, ◌==◌}
use attica.Memory.{alloc, is_live}
use attica.Memory.Fresh.{IsFresh, alloc-Allocates}
use attica.Allocator.Page.{Pages, entry_create, write_entry}

-- What `page_entry_create` leads to: nothing, or an entry at an address that was not live.
pub record NotCreated (pages : Pages) (r : Ptr × Pages) : Type 0 where
  pub none : r.0 ≡ null
  pub allocator : r.1.allocator ≡ pages.allocator
  pub entries : r.1.entries ≡ pages.entries
  pub live : r.1.host.live ≡ pages.host.live
  pub fresh : IsFresh r.1.host

pub record Created (size alignment : ℕ) (pages : Pages) (r : Ptr × Pages) : Type 0 where
  pub some : r.0 ≢ null
  pub allocator : r.1.allocator ≡ pages.allocator
  pub entry : r.1.entries r.0 ≡ record { size = size; alignment = alignment }
  pub others : (q : Ptr) → q ≢ r.0 → r.1.entries q ≡ pages.entries q
  pub off : is_live r.0 pages.host.live ≡ false
  pub live : r.1.host.live ≡ r.0 ∷ pages.host.live
  pub fresh : IsFresh r.1.host

-- `page_entry_create` gives `NULL` or an entry with the size and the alignment at an address that was not live.
pub entry_create-Created :
    (size alignment : ℕ) (pages : Pages)
    → IsFresh pages.host
    → NotCreated pages (entry_create size alignment pages)
      ⊎ Created size alignment pages (entry_create size alignment pages)
unfolding entry_create write_entry
entry_create-Created size alignment pages fresh =
    let page = (alloc 16 8 pages.host).0 in
    elim (alloc-Allocates 16 8 pages.host fresh) [
      | inl refused ↦
          let e : (page == null) ≡ true = ground (arith, refused.none) in
          rw e (
            inl (record {
              none = refl;
              allocator = refl;
              entries = refl;
              live = refused.live;
              fresh = refused.fresh;
            }))
      | inr given ↦
          let e : (page == null) ≡ false = ground (arith, given.some) in
          let self : (page == page) ≡ true = ground arith in
          rw e (
            inr (record {
              some = given.some;
              allocator = refl;
              entry = rw self;
              others = λ q away. let off : (q == page) ≡ false = ground arith in rw off;
              off = given.off;
              live = given.live;
              fresh = given.fresh;
            }))
    ]
