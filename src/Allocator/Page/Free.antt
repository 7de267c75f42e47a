-- ===== src/Allocator/Page/Free.antt =====
-- `page_free` of allocator/page.c.
use attica.Base.{
  ◌≡◌, ◌≢◌, ◌⊎◌, inl, inr, refl, arith, Ptr, null, Bool-cases, ◌∙◌, sym, ap, ◌==◌, Returns, ok,
}
use attica.Memory.{is_live, release}
use attica.Memory.Fresh.{IsFresh-release, is_live-release_ne}
use attica.Map.Linear.{HashMap, success, is_success}
use attica.Map.Linear as Linear
use attica.Map.Linear.Hash.{address_type}
use attica.Map.Linear.Ring.{IsStraight}
use attica.Map.Linear.Rehash.{is_success_iff}
use attica.Map.Linear.Delete.Deletes.{IsClear}
use attica.Allocator.Registry.{tracked, address-IsKeyType, Unregisters, delete-Unregisters}
use attica.Allocator.Registry.Blocks.{IsRegistry, remove-IsRegistry, released}
use attica.Allocator.Page.{Pages, release_at, page_free}
use attica.Allocator.Page.Tracking.{blocks, IsPages, Same, release_at-live, page-live, address-live}

-- The allocator's table has an empty slot, and the probes for the address do not wrap at 2^64.
pub record IsReady (pages : Pages) (ptr : Ptr) : Type 0 where
  pub clear : IsClear address_type address-IsKeyType pages.allocator
  pub line : IsStraight address_type pages.allocator.size ptr

-- `ptr` is not tracked any more, its block and its entry are not live any more, and nothing else changed.
pub record Frees (pages : Pages) (ptr : Ptr) (pages' : Pages) : Type 0 where
  pub whole : IsPages pages'
  pub gone : tracked pages'.allocator ptr ≡ null
  pub same : (q : Ptr) → q ≢ null → q ≢ ptr → Same pages pages' q
  pub live : pages'.host.live ≡ release ptr (release (tracked pages.allocator ptr) pages.host.live)

module _ (pages : Pages) (ptr : Ptr) (is : IsPages pages) (ready : IsReady pages ptr)
    (some : ptr ≢ null) (there : tracked pages.allocator ptr ≢ null) where
  abbrev page : Ptr
  page = tracked pages.allocator ptr

  abbrev pub table : HashMap
  table = (Linear.delete address_type ptr pages.allocator).1

  pub unregisters : Unregisters pages.allocator ptr (Linear.delete address_type ptr pages.allocator)
  unregisters = delete-Unregisters ptr pages.allocator ready.clear some ready.line

  pub deleted : (Linear.delete address_type ptr pages.allocator).0 ≡ success
  deleted = unregisters.succeeds.1 there

  pub differ : page ≢ ptr
  unfolding is_live
  differ e = let apart = is.registry.apart ptr some there in ground (arith, apart.1)

  pub removed-IsRegistry : IsRegistry blocks table (release ptr (release page pages.host.live))
  unfolding released
  removed-IsRegistry =
      remove-IsRegistry blocks pages.allocator table pages.host.live ptr is.registry some there
        (unregisters.removed deleted) (unregisters.others deleted)

  abbrev pub bare : Pages
  bare = record pages { allocator = table }

  abbrev halfway : Pages
  halfway = record bare { host = record pages.host { live = release page pages.host.live } }

  abbrev pub freed : Pages
  freed = record bare {
    host = record pages.host { live = release ptr (release page pages.host.live) };
  }

  pub freed-Frees : Frees pages ptr freed
  freed-Frees = record {
    whole = record {
      valid = unregisters.clear.valid;
      fresh = IsFresh-release ptr halfway.host (IsFresh-release page pages.host is.fresh);
      registry = removed-IsRegistry;
    };
    gone = unregisters.removed deleted;
    same = λ q some_q away. record {
      page = unregisters.others deleted q some_q away;
      entry = λ _. ap pages.entries (unregisters.others deleted q some_q away);
    };
    live = refl;
  }

  pub page-released : release_at page bare ≡ ok halfway
  page-released = release_at-live page bare there (page-live pages ptr is some there)

  pub ptr-released : release_at ptr halfway ≡ ok freed
  ptr-released = release_at-live ptr halfway some (
      is_live-release_ne page ptr pages.host.live (λ e. differ (sym e))
      ∙ address-live pages ptr is some there)

-- `page_free` never faults: of an address that is not tracked it does nothing; a tracked one is not tracked
-- any more, its block and its entry are freed, and all else stays.
pub page_free-Frees :
    (ptr : Ptr) (pages : Pages)
    → IsPages pages
    → IsReady pages ptr
    → Returns (page_free ptr pages) λ pages'.
      (((ptr ≡ null) ⊎ (tracked pages.allocator ptr ≡ null)) × (pages' ≡ pages))
      ⊎ ((ptr ≢ null)
          × (tracked pages.allocator ptr ≢ null)
          × Frees pages ptr pages'
          × IsClear address_type address-IsKeyType pages'.allocator)
unfolding page_free
page_free-Frees ptr pages is ready = elim (Bool-cases (ptr == null)) [
  | inl none ↦ (pages, rw none, inl (inl (ground arith), refl))
  | inr some ↦ elim (Bool-cases (tracked pages.allocator ptr == null)) [
    | inl none ↦ (pages, rw (some, none), inl (inr (ground arith), refl))
    | inr there ↦
        let given : ptr ≢ null = ground arith in
        let held : tracked pages.allocator ptr ≢ null = ground arith in
        let good = (is_success_iff _).1 (deleted pages ptr is ready given held) in
        (
          freed pages ptr is ready given held,
          rw (some, there, good, page-released pages ptr is ready given held)
              (ptr-released pages ptr is ready given held),
          inr (
            given,
            held,
            freed-Frees pages ptr is ready given held,
            (unregisters pages ptr is ready given held).clear,
          ),
        )
  ]
]
