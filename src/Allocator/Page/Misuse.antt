-- ===== src/Allocator/Page/Misuse.antt =====
-- `page_realloc` of allocator/page.c with an alignment of 0.
use attica.Base.{
  ℕ, ◌<◌, ◌≡◌, ◌≢◌, refl, true, false, arith, Ptr, null, ◌∙◌, ◌==◌, Returns, ok, fault,
}
use attica.Memory.{is_live, release, realloc, free, mem_free}
use attica.Memory.Fresh.{is_live-release_ne, not_live-release}
use attica.Map.Linear.Rehash.{is_success_iff}
use attica.Allocator.Registry.{tracked}
use attica.Allocator.Page.{Pages, Grants, release_at, remap, page_realloc, page_free}
use attica.Allocator.Page.Tracking.{IsPages, page-live, address-live, release_at-live}
use attica.Allocator.Page.Free.{IsReady, deleted, differ, bare}

free-live :
    (p : Ptr) (pages : Pages)
    → is_live p pages.host.live ≡ true
    → free p pages.host ≡ ok (record pages.host { live = release p pages.host.live })
unfolding free
free-live p pages on = rw on

not_live-faults :
    (p : Ptr) (pages : Pages)
    → p ≢ null
    → is_live p pages.host.live ≡ false
    → release_at p pages ≡ fault
unfolding release_at mem_free free
not_live-faults p pages given off = let e : (p == null) ≡ false = ground arith in rw (e, off)

-- `page_realloc` of a tracked address with a positive size and an alignment of 0 answers `NULL`, which is its answer to a
-- failure, but the block has been freed. The address is still tracked, and a `page_free` of it frees it again.
pub page_realloc-dangles :
    (grants : Grants) (ptr size : ℕ) (pages : Pages)
    → IsPages pages
    → IsReady pages ptr
    → ptr ≢ null
    → tracked pages.allocator ptr ≢ null
    → 0 < size
    → is_live ptr (release ptr pages.host.live) ≡ false
    → Returns (page_realloc grants ptr size 0 pages) λ (r : Ptr × Pages).
      (r.0 ≡ null)
      × (r.1.allocator ≡ pages.allocator)
      × (is_live ptr r.1.host.live ≡ false)
      × (page_free ptr r.1 ≡ fault)
unfolding page_realloc remap realloc page_free
page_realloc-dangles grants ptr size pages is ready some there pos once =
    let p0 : (ptr == null) ≡ false = ground arith in
    let t0 : (tracked pages.allocator ptr == null) ≡ false = ground (arith, there) in
    let s0 : (size == 0) ≡ false = ground arith in
    let good = (is_success_iff _).1 (deleted pages ptr is ready some there) in
    let freed = record pages.host { live = release ptr pages.host.live } in
    let first : free ptr pages.host ≡ ok freed =
      free-live ptr pages (address-live pages ptr is some there) in
    let page = tracked pages.allocator ptr in
    let bare' = record (bare pages ptr is ready some there) { host = freed } in
    let page_on : is_live page freed.live ≡ true =
      is_live-release_ne ptr page pages.host.live (differ pages ptr is ready some there)
      ∙ page-live pages ptr is some there in
    let twice =
      not_live-faults ptr (record bare' { host = record freed { live = release page freed.live } })
        some (not_live-release page ptr freed.live once) in
    (
      (null, record pages { host = freed }),
      rw (p0, t0, s0, first),
      (refl, refl, once, rw (p0, t0, good, release_at-live page bare' there page_on) twice),
    )
