-- ===== src/Allocator/Page/Tracking.antt =====
-- What the allocator of allocator/page.c keeps, and the insertion of an entry into it.
use attica.Base.{
  ℕ, ◌≡◌, ◌≢◌, inl, inr, refl, true, arith, Ptr, null, List, [], ◌∷◌, Bool-cases, ◌∙◌, ap, ◌==◌, ok,
}
use mathlib.Core.Path.{subst}
use attica.Memory.{is_live, release}
use attica.Memory.Fresh.{IsFresh, mem_free-live}
use attica.Map.Linear.Hash.{address_type}
use attica.Map.Linear.Search.{IsValid}
use attica.Allocator.Registry.{tracked}
use attica.Allocator.Registry.Blocks.{
  IsRegistry, IsUnclaimed, Live, live_head, live_tail, keep-IsRegistry, add-IsRegistry,
}
use attica.Allocator.Page.{Pages, PageEntry, release_at}

-- Each tracked address stands for its page entry and its block.
abbrev pub blocks : (address page : Ptr) → List Ptr
blocks address page = page ∷ address ∷ []

pub record IsPages (pages : Pages) : Type 0 where
  pub valid : IsValid address_type pages.allocator
  pub fresh : IsFresh pages.host
  pub registry : IsRegistry blocks pages.allocator pages.host.live

-- The entry of an address.
abbrev pub entry_of : Pages → Ptr → PageEntry
entry_of pages q = pages.entries (tracked pages.allocator q)

-- Another address is tracked as before, with the same entry.
pub record Same (pages pages' : Pages) (q : Ptr) : Type 0 where
  pub page : tracked pages'.allocator q ≡ tracked pages.allocator q
  pub entry : tracked pages.allocator q ≢ null → entry_of pages' q ≡ entry_of pages q

-- Nothing changed but what the system may still give.
pub record Unchanged (pages pages' : Pages) : Type 0 where
  pub same : (q : Ptr) → q ≢ null → Same pages pages' q
  pub live : pages'.host.live ≡ pages.host.live

-- `address` is tracked with this size and alignment, and nothing else changed.
pub record Tracks (pages : Pages) (address size alignment : ℕ) (pages' : Pages) : Type 0 where
  pub there : tracked pages'.allocator address ≢ null
  pub entry : entry_of pages' address ≡ record { size = size; alignment = alignment }
  pub same : (q : Ptr) → q ≢ null → q ≢ address → Same pages pages' q

-- The page entry of a tracked address is one of its blocks, and so is the address.
pub page-live :
    (pages : Pages) (q : Ptr)
    → IsPages pages
    → q ≢ null
    → tracked pages.allocator q ≢ null
    → is_live (tracked pages.allocator q) pages.host.live ≡ true
page-live pages q is some there =
    is.registry.all_live q some there (tracked pages.allocator q)
      (live_head (tracked pages.allocator q) (q ∷ []))

pub address-live :
    (pages : Pages) (q : Ptr)
    → IsPages pages
    → q ≢ null
    → tracked pages.allocator q ≢ null
    → is_live q pages.host.live ≡ true
address-live pages q is some there =
    is.registry.all_live q some there q
      (live_tail (tracked pages.allocator q) q (q ∷ []) (live_head q []))

-- A call that leaves all that is tracked.
pub Unchanged-IsPages :
    (pages pages' : Pages)
    → IsPages pages
    → IsValid address_type pages'.allocator
    → IsFresh pages'.host
    → ((q : Ptr) → q ≢ null → tracked pages'.allocator q ≡ tracked pages.allocator q)
    → ((p : Ptr) → is_live p pages.host.live ≡ true → pages'.entries p ≡ pages.entries p)
    → pages'.host.live ≡ pages.host.live
    → IsPages pages' × Unchanged pages pages'
Unchanged-IsPages pages pages' is valid fresh same entries live = (
  record {
    valid = valid;
    fresh = fresh;
    registry =
        keep-IsRegistry blocks pages.allocator pages'.allocator pages.host.live pages'.host.live
          is.registry same (λ b h. rw live h);
  },
  record {
    same = λ q some. record {
      page = same q some;
      entry =
          λ there. ap pages'.entries (same q some) ∙ entries _ (page-live pages q is some there);
    };
    live = live;
  },
)

-- What an address needs to be tracked from now on.
pub record IsNew (pages : Pages) (address page : Ptr) (pages' : Pages) : Type 0 where
  pub some_address : address ≢ null
  pub some_page : page ≢ null
  pub differ : page ≢ address
  pub free_address : IsUnclaimed blocks pages.allocator address
  pub free_page : IsUnclaimed blocks pages.allocator page
  pub live_address : is_live address pages'.host.live ≡ true
  pub live_page : is_live page pages'.host.live ≡ true
  pub fresh : IsFresh pages'.host
  pub grown : Live pages.host.live pages'.host.live
  pub valid : IsValid address_type pages'.allocator
  pub added : tracked pages'.allocator address ≡ page
  pub others :
      (q : Ptr) → q ≢ null → q ≢ address → tracked pages'.allocator q ≡ tracked pages.allocator q
  pub entries : (p : Ptr) → p ≢ page → pages'.entries p ≡ pages.entries p

-- A block that no tracked address has is not the entry of one.
pub IsUnclaimed-apart :
    (pages : Pages) (p q : Ptr)
    → IsUnclaimed blocks pages.allocator p
    → q ≢ null
    → tracked pages.allocator q ≢ null
    → tracked pages.allocator q ≢ p
unfolding is_live
IsUnclaimed-apart pages p q off some there e = ground (arith, off q some there)

pub new-IsPages :
    (pages : Pages) (address page size alignment : ℕ) (pages' : Pages)
    → IsRegistry blocks pages.allocator pages.host.live
    → IsNew pages address page pages'
    → pages'.entries page ≡ record { size = size; alignment = alignment }
    → IsPages pages' × Tracks pages address size alignment pages'
unfolding is_live
new-IsPages pages address page size alignment pages' registry new entry = (
  record {
    valid = new.valid;
    fresh = new.fresh;
    registry =
        add-IsRegistry blocks pages.allocator pages'.allocator pages.host.live pages'.host.live
          address page registry new.added new.others
          (new.some_page, ground (arith, new.differ), (new.some_address, refl, tt))
          (λ b h.
            either b h (λ p. is_live p pages'.host.live ≡ true) new.live_page new.live_address)
          (λ b h. either b h (IsUnclaimed blocks pages.allocator) new.free_page new.free_address)
          new.grown;
  },
  record {
    there = rw (new.added) (new.some_page);
    entry = ap pages'.entries new.added ∙ entry;
    same = λ q some away. record {
      page = new.others q some away;
      entry = λ there.
          ap pages'.entries (new.others q some away)
          ∙ new.entries _ (IsUnclaimed-apart pages page q new.free_page some there);
    };
  },
)
  where
    either :
        (b : Ptr)
        → is_live b (blocks address page) ≡ true
        → (Q : Ptr → Type 0) → Q page
        → Q address
        → Q b
    either b h Q one two = elim (Bool-cases (page == b)) [
      | inl e ↦ subst Q (ground arith) one
      | inr off ↦ subst Q (ground (arith, h)) two
    ]

-- `memory_free` of a live block.
pub release_at-live :
    (p : Ptr) (pages : Pages)
    → p ≢ null
    → is_live p pages.host.live ≡ true
    → release_at p pages
      ≡ ok (record pages { host = record pages.host { live = release p pages.host.live } })
unfolding release_at
release_at-live p pages some live = rw (mem_free-live p pages.host some live)

pub release_second : (p q : Ptr) (live : List Ptr) → p ≢ q → release q (p ∷ q ∷ live) ≡ p ∷ live
unfolding release
release_second p q live away = ground arith
