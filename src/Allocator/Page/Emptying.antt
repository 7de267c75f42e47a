-- ===== src/Allocator/Page/Emptying.antt =====
-- `page_free_all` of allocator/page.c, which walks through the table with `hash_map_next`.
use attica.Base.{
  ℕ, zero, suc, ◌+◌, ◌<◌, ◌≤◌, ◌≡◌, ◌≢◌, ◌↔◌, Returns, inl, inr, refl, true, false, arith, Ptr,
  null, List, [], ◌∷◌, drop, ◌∙◌, ap, ◌==◌, ok, replicate, get_or-replicate,
}
use attica.Memory.{is_live, release}
use attica.Memory.Fresh.{is_live-release_ne}
use attica.Map.Linear.{HashMap, Entry, slot, blank, clear}
use attica.Map.Linear.Hash.{address_type}
use attica.Map.Linear.Search.{IsValid, search-none}
use attica.Map.Linear.Resize.{blank-IsValid}
use attica.Allocator.Registry.{tracked, address-IsKeyType}
use attica.Allocator.Registry.Blocks.{
  IsApart, Live, released, is_live-released, live_head, live_tail, IsRegistry, IsFresh-released,
}
use attica.Allocator.Registry.Every.{every, every-Covers, IsApart-split, live_rear}
use attica.Allocator.Page.{Pages, free_entry, free_loop, page_free_all}
use attica.Allocator.Page.Tracking.{blocks, IsPages, release_at-live}
use attica.Allocator.Page.Walk.{next-Stops}

alone : (p q : Ptr) → is_live p (q ∷ []) ≡ false → q ≢ p
unfolding is_live
alone p q off = ground (arith, off)

-- The loop of `page_free_all` frees what is left, when it may take a round for each slot and one more.
free_loop-released :
    (fuel index : ℕ) (pages : Pages)
    → IsValid address_type pages.allocator
    → index ≤ pages.allocator.size
    → pages.allocator.size < index + fuel
    → let rest = every blocks (drop index pages.allocator.entries) in
      IsApart rest
      → Live rest pages.host.live
      → free_loop fuel index pages
        ≡ ok (record pages { host = record pages.host { live = released rest pages.host.live } })
unfolding free_loop free_entry released
free_loop-released zero index pages valid inside enough apart live =
    absurd (omega (arith, inside, enough))
free_loop-released (suc n) index pages valid inside enough apart live =
    let table = pages.allocator in
    elim (next-Stops table valid.0.sized valid.0.valued table.size index (omega arith)) [
      | inl (stop, nothing) ↦ rw (stop, nothing) refl
      | inr (k, at) ↦
          let address = (slot table.entries k).key in
          let page = (slot table.entries k).value in
          let rest = every blocks (drop (k + 1) table.entries) in
          let valued = valid.0.valued k at.used in
          let all_live : Live (page ∷ address ∷ rest) pages.host.live =
            rw (at.blocks_left) at live in
          let (front, back, off) =
            IsApart-split (page ∷ address ∷ []) rest (rw (at.blocks_left) at apart) in
          let a : (address == null) ≡ false = ground (arith, at.used) in
          let p : (page == null) ≡ false = ground (arith, valued) in
          let differ = alone page address front.1 in
          let middle = record pages {
            host = record pages.host { live = release page pages.host.live };
          } in
          let first =
            release_at-live page pages valued (all_live page (live_head page (address ∷ rest))) in
          let second = release_at-live address middle at.used (
            is_live-release_ne page address pages.host.live differ
            ∙ all_live address
                (live_tail page address (address ∷ rest) (live_head address rest))) in
          let last =
            free_loop-released n (k + 1)
              (record middle {
                host = record pages.host { live = release address (release page pages.host.live) };
              })
              valid (omega (arith, at.below)) (omega (arith, at.from, enough)) back
              (λ b h.
                is_live-released (page ∷ address ∷ []) b pages.host.live (off b h)
                ∙ all_live b (live_rear b (page ∷ address ∷ []) rest h)) in
          rw (at.result, at.blocks_left, a, p, first, second) last
    ]

-- `page_free_all` leaves no address tracked, and frees the blocks of all that were, each once.
pub record Empties (pages pages' : Pages) : Type 0 where
  pub whole : IsPages pages'
  pub gone : (q : Ptr) → q ≢ null → tracked pages'.allocator q ≡ null
  pub live : pages'.host.live ≡ released (every blocks pages.allocator.entries) pages.host.live
  pub once : IsApart (every blocks pages.allocator.entries)
  pub claimed :
      (b : Ptr)
      → (is_live b (every blocks pages.allocator.entries) ≡ true) ↔ (
          (q : Ptr) × (q ≢ null)
          × (tracked pages.allocator q ≢ null)
          × (is_live b (blocks q (tracked pages.allocator q)) ≡ true))

module _ (size count : ℕ) (pos : 0 < size) where
  abbrev cleared : HashMap
  cleared = record { entries = replicate size blank; count = count; size = size }

  cleared-IsValid : IsValid address_type cleared
  cleared-IsValid = blank-IsValid address_type address-IsKeyType size count pos

  cleared-none : (q : Ptr) → tracked cleared q ≡ null
  cleared-none q =
      search-none address_type address-IsKeyType q cleared cleared-IsValid
        (λ j m. m.used (ap (λ (e : Entry). e.key) (get_or-replicate size j blank)))

  cleared-IsRegistry : (live : List Ptr) → IsRegistry blocks cleared live
  cleared-IsRegistry live = record {
    all_live = λ q some there. absurd (there (cleared-none q));
    apart = λ q some there. absurd (there (cleared-none q));
    separate = λ p q b some_p some_q there_p. absurd (there_p (cleared-none p));
  }

-- `page_free_all` returns, with a round for each slot of the table and one more, and never faults: it
-- frees the block and the entry of every tracked address, each once, and no other, and no address is
-- tracked any more.
pub page_free_all-Empties :
    (fuel : ℕ) (pages : Pages)
    → IsPages pages
    → pages.allocator.size < fuel
    → Returns (page_free_all fuel pages) (Empties pages)
unfolding page_free_all clear
page_free_all-Empties fuel pages is enough =
    let table = pages.allocator in
    let covers = every-Covers blocks table pages.host.live is.valid is.registry in
    let all = every blocks table.entries in
    let s0 : (table.size == 0) ≡ false = ground (arith, is.valid.1) in
    let done =
      free_loop-released fuel 0 pages is.valid (omega arith) (omega (arith, enough)) covers.once
        covers.here in
    (
      record pages {
        allocator = cleared table.size 0 is.valid.1;
        host = record pages.host { live = released all pages.host.live };
      },
      rw (done, s0) refl,
      record {
        whole = record {
          valid = cleared-IsValid table.size 0 is.valid.1;
          fresh = IsFresh-released all pages.host is.fresh;
          registry = cleared-IsRegistry table.size 0 is.valid.1 (released all pages.host.live);
        };
        gone = λ q some. cleared-none table.size 0 is.valid.1 q;
        live = refl;
        once = covers.once;
        claimed = covers.claimed;
      },
    )
