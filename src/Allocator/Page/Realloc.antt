-- ===== src/Allocator/Page/Realloc.antt =====
-- `page_realloc` of allocator/page.c.
use mathlib.Core.Bool.{false≢true}
use mathlib.Core.Path.{subst}
use attica.Base.{
  ℕ, ◌<◌, ◌≡◌, ◌≢◌, ◌↔◌, inl, inr, refl, true, false, arith, Ptr, null, [], ◌∷◌, Bool-cases, ◌∙◌,
  sym, ap, ◌==◌, Returns, ok, ◌>>=◌,
}
use attica.Map.Linear as Linear
use attica.Map.Linear.Hash.{address_type}
use attica.Memory.{alloc, Host, is_live, release}
use attica.Memory.Fresh.{
  release_first, IsFresh-release, is_live-release_ne, not_live-release, release_comm,
  live_before_release, live-more, IsRefused, Moved, realloc-Moved,
}
use attica.Map.Linear.{HashMap, HashMapState, success, is_success}
use attica.Map.Linear.Rehash.{is_success_iff}
use attica.Allocator.Registry.{tracked, Registers}
use attica.Allocator.Registry.Blocks.{
  IsUnclaimed, Live, live_head, not_live-IsUnclaimed, keep-IsRegistry,
}
use attica.Allocator.Page.{
  Pages, Grants, write_entry, release_at, insert_entry, remap, page_realloc,
}
use attica.Allocator.Page.Inserting.{LacksRoom, insert_entry-Registers}
use attica.Allocator.Page.Tracking.{
  blocks, IsPages, entry_of, Same, Unchanged, IsNew, IsUnclaimed-apart, Unchanged-IsPages,
  new-IsPages, release_at-live, page-live, address-live,
}
use attica.Allocator.Page.Free.{
  IsReady, Frees, table, unregisters, deleted, differ, removed-IsRegistry, freed, freed-Frees,
  page-released, ptr-released,
}

-- The block at `ptr` has moved to `address`, with its entry.
pub record Moves (pages : Pages) (ptr size alignment : ℕ) (r : Ptr × Pages) : Type 0 where
  pub whole : IsPages r.1
  pub some : r.0 ≢ null
  pub off : is_live r.0 pages.host.live ≡ false
  pub there : tracked r.1.allocator r.0 ≡ tracked pages.allocator ptr
  pub entry : entry_of r.1 r.0 ≡ record { size = size; alignment = alignment }
  pub gone : tracked r.1.allocator ptr ≡ null
  pub same : (q : Ptr) → q ≢ null → q ≢ ptr → q ≢ r.0 → Same pages r.1 q
  pub live : r.1.host.live ≡ r.0 ∷ release ptr pages.host.live

-- The table without `ptr` has no room for the new address.
abbrev pub IsLost : Grants → Pages → (ptr size alignment : ℕ) → Type 0
IsLost grants pages ptr size alignment =
    LacksRoom grants (Linear.delete address_type ptr pages.allocator).1
      (alloc size alignment pages.host).0

-- What `page_realloc` of an address may lead to, and when.
pub data Reallocs (grants : Grants) (pages : Pages) (ptr size alignment : ℕ) (r : Ptr × Pages)
    : Type 0 where
  unknown :
      tracked pages.allocator ptr ≡ null
      → r ≡ (null, pages)
      → Reallocs grants pages ptr size alignment r
  freed_it :
      tracked pages.allocator ptr ≢ null
      → size ≡ 0
      → r.0 ≡ null
      → Frees pages ptr r.1
      → Reallocs grants pages ptr size alignment r
  refused_it :
      tracked pages.allocator ptr ≢ null
      → size ≢ 0
      → IsRefused size alignment pages.host
      → r.0 ≡ null
      → IsPages r.1
      → Unchanged pages r.1
      → Reallocs grants pages ptr size alignment r
  moved_it :
      tracked pages.allocator ptr ≢ null
      → size ≢ 0
      → ¬ IsRefused size alignment pages.host
      → ¬ IsLost grants pages ptr size alignment
      → Moves pages ptr size alignment r
      → Reallocs grants pages ptr size alignment r
  lost_it :
      tracked pages.allocator ptr ≢ null
      → size ≢ 0
      → ¬ IsRefused size alignment pages.host
      → IsLost grants pages ptr size alignment
      → r.0 ≡ null
      → Frees pages ptr r.1
      → Reallocs grants pages ptr size alignment r

module _ (grants : Grants) (pages : Pages) (ptr : Ptr) (is : IsPages pages)
    (ready : IsReady pages ptr) (some : ptr ≢ null) (there : tracked pages.allocator ptr ≢ null)
    (size alignment : ℕ) (address : Ptr) (host' : Host)
    (moved : Moved ptr pages.host (address, host')) where
  abbrev page : Ptr
  page = tracked pages.allocator ptr

  abbrev updated : Pages
  updated =
      write_entry page (record { size = size; alignment = alignment })
        (record pages { host = host' })

  abbrev rest : HashMap
  rest = table pages ptr is ready some there

  abbrev inserted : HashMapState × HashMap
  inserted = insert_entry grants address page rest

  abbrev kept : Pages
  kept = record updated { allocator = inserted.1 }

  registers : Registers (LacksRoom grants rest address) rest address page inserted
  registers =
      insert_entry-Registers grants address page rest
        (unregisters pages ptr is ready some there).clear.valid moved.some

  gone : tracked rest ptr ≡ null
  gone = (unregisters pages ptr is ready some there).removed (deleted pages ptr is ready some there)

  others : (q : Ptr) → q ≢ null → q ≢ ptr → tracked rest q ≡ tracked pages.allocator q
  others =
      (unregisters pages ptr is ready some there).others (deleted pages ptr is ready some there)

  moved_away : (q : Ptr) → is_live q pages.host.live ≡ true → q ≢ address
  moved_away q on e =
      false≢true (sym moved.off ∙ subst (λ x. is_live x pages.host.live ≡ true) e on)

  base_live : Live (freed pages ptr is ready some there).host.live host'.live
  base_live b h =
      let shorter : is_live b (release page (release ptr pages.host.live)) ≡ true =
        rw (← release_comm ptr page pages.host.live) h in
      rw (moved.live) (
        live-more address b (release ptr pages.host.live)
          (live_before_release page b (release ptr pages.host.live) shorter))

  page-on : is_live page host'.live ≡ true
  page-on = rw (moved.live) (
      live-more address page (release ptr pages.host.live) (
        is_live-release_ne ptr page pages.host.live (differ pages ptr is ready some there)
        ∙ page-live pages ptr is some there))

  page-IsUnclaimed : IsUnclaimed blocks rest page
  page-IsUnclaimed q some_q there_q =
      let away : q ≢ ptr = λ e. there_q (ap (tracked rest) e ∙ gone) in
      let same = others q some_q away in
      rw same (
        is.registry.separate ptr q page some some_q there (rw same at there_q) (λ e. away (sym e))
          (live_head page (ptr ∷ [])))

  -- The new address is not tracked.
  address-untracked : tracked rest address ≡ null
  address-untracked = elim (Bool-cases (tracked rest address == null)) [
    | inl none ↦ ground (arith, none)
    | inr held ↦
        let on : tracked rest address ≢ null = ground (arith, held) in
        let away : address ≢ ptr =
          λ e. moved_away ptr (address-live pages ptr is some there) (sym e) in
        let before : tracked pages.allocator address ≢ null =
          λ e. on (others address moved.some away ∙ e) in
        absurd (false≢true (sym moved.off ∙ address-live pages address is moved.some before))
  ]

  room_iff : (inserted.0 ≢ success) ↔ LacksRoom grants rest address
  room_iff = registers.refuses there address-untracked

  new : inserted.0 ≡ success → IsNew (freed pages ptr is ready some there) address page kept
  unfolding write_entry
  new done = record {
    some_address = moved.some;
    some_page = there;
    differ = moved_away page (page-live pages ptr is some there);
    free_address =
        not_live-IsUnclaimed blocks rest _ address
          (removed-IsRegistry pages ptr is ready some there)
          (not_live-release ptr address (release page pages.host.live)
            (not_live-release page address pages.host.live moved.off));
    free_page = page-IsUnclaimed;
    live_address = rw (moved.live) (live_head address (release ptr pages.host.live));
    live_page = page-on;
    fresh = moved.fresh;
    grown = base_live;
    valid = registers.valid;
    added = registers.added done;
    others = registers.others done;
    entries = λ p away. let off : (p == page) ≡ false = ground arith in rw off;
  }

  moved-Moves : inserted.0 ≡ success → Moves pages ptr size alignment (address, kept)
  unfolding write_entry
  moved-Moves done =
      let self : (page == page) ≡ true = ground arith in
      let (whole, tracks) =
        new-IsPages (freed pages ptr is ready some there) address page size alignment kept
          (removed-IsRegistry pages ptr is ready some there) (new done) (rw self) in
      let before = freed-Frees pages ptr is ready some there in
      record {
        whole = whole;
        some = moved.some;
        off = moved.off;
        there = registers.added done;
        entry = tracks.entry;
        gone =
            registers.others done ptr some (moved_away ptr (address-live pages ptr is some there))
            ∙ gone;
        same = λ q some_q away far.
            let first = before.same q some_q away in
            let second = tracks.same q some_q far in
            record {
              page = second.page ∙ first.page;
              entry = λ h. second.entry (rw (first.page) h) ∙ first.entry h;
            };
        live = moved.live;
      }

  -- After a failed insertion the new block and the entry are freed.
  dropped-Frees :
      inserted.0 ≢ success
      → Returns {A = Ptr × Pages}
          (do
            pages' ← release_at address kept
            pages'' ← release_at page pages'
            ok (null, pages''))
          λ r. (r.0 ≡ null) × Frees pages ptr r.1
  unfolding write_entry
  dropped-Frees failed =
      let once = release address host'.live in
      let middle = record kept { host = record host' { live = once } } in
      let after = record kept { host = record host' { live = release page once } } in
      let shorter : once ≡ release ptr pages.host.live =
        rw (moved.live) (release_first address (release ptr pages.host.live)) in
      let back : release page once ≡ release ptr (release page pages.host.live) =
        ap (release page) shorter ∙ release_comm page ptr pages.host.live in
      let on : is_live page once ≡ true = rw shorter (
        is_live-release_ne ptr page pages.host.live (differ pages ptr is ready some there)
        ∙ page-live pages ptr is some there) in
      let on_address : is_live address host'.live ≡ true =
        rw (moved.live) (live_head address (release ptr pages.host.live)) in
      let result : Frees pages ptr after = record {
        whole = record {
          valid = registers.valid;
          fresh = IsFresh-release page middle.host (IsFresh-release address host' moved.fresh);
          registry =
              keep-IsRegistry blocks rest inserted.1 _ (release page once)
                (removed-IsRegistry pages ptr is ready some there) (registers.kept failed)
                (λ b h. rw back h);
        };
        gone = registers.kept failed ptr some ∙ gone;
        same = λ q some_q away.
            let same : tracked inserted.1 q ≡ tracked pages.allocator q =
              registers.kept failed q some_q ∙ others q some_q away in
            record {
              page = same;
              entry = λ h.
                  let apart =
                    IsUnclaimed-apart (freed pages ptr is ready some there) page q page-IsUnclaimed
                      some_q (rw (others q some_q away) h) in
                  let off : (tracked pages.allocator q == page) ≡ false =
                    ground (arith, apart, others q some_q away) in
                  rw (same, off);
            };
        live = back;
      } in
      (
        (null, after),
        rw (
          release_at-live address kept moved.some on_address,
          release_at-live page middle there on,
        ),
        (refl, result),
      )

  remap-Reallocs :
      size ≢ 0
      → ¬ IsRefused size alignment pages.host
      → address ≡ (alloc size alignment pages.host).0
      → Returns
          (remap grants ptr page address size alignment (record pages { host = host' }))
          (Reallocs grants pages ptr size alignment)
  unfolding remap
  remap-Reallocs some_size granted same =
      let a0 : (address == null) ≡ false = ground (arith, moved.some) in
      let good = (is_success_iff _).1 (deleted pages ptr is ready some there) in
      elim (Bool-cases (is_success inserted.0)) [
        | inl done ↦ (
          (address, kept),
          rw (a0, good, done),
          moved_it there some_size granted
              (λ why.
                room_iff.1 (subst (LacksRoom grants rest) (sym same) why)
                  ((is_success_iff inserted.0).0 done))
              (moved-Moves ((is_success_iff inserted.0).0 done)),
        )
        | inr bad ↦
            let failed : inserted.0 ≢ success =
              λ h. false≢true (sym bad ∙ (is_success_iff inserted.0).1 h) in
            let (r, e, (none, frees)) = dropped-Frees failed in
            rw (a0, good, bad)
              (
                r,
                e,
                lost_it there some_size granted
                    (subst (LacksRoom grants rest) same (room_iff.0 failed)) none frees,
              )
      ]

-- `page_realloc` of an address with a positive alignment never faults. An address that is not tracked gives `NULL` and
-- changes nothing. Size 0 frees the block and its entry. Otherwise, if the new block is refused, since the alignment is no power of
-- two or there is no memory, the answer is `NULL` and nothing changes. If the table has no room for the new address, also when it is
-- resized, the answer is `NULL` and the block and its entry are freed. Otherwise the block moves with its entry.
pub page_realloc-Reallocs :
    (grants : Grants) (ptr size alignment : ℕ) (pages : Pages)
    → IsPages pages
    → IsReady pages ptr
    → ptr ≢ null
    → 0 < alignment
    → Returns
        (page_realloc grants ptr size alignment pages)
        (Reallocs grants pages ptr size alignment)
unfolding page_realloc remap
page_realloc-Reallocs grants ptr size alignment pages is ready some pos =
    let p0 : (ptr == null) ≡ false = ground arith in
    elim (Bool-cases (tracked pages.allocator ptr == null)) [
      | inl none ↦ ((null, pages), rw (p0, none), unknown (ground arith) refl)
      | inr held ↦
          let there : tracked pages.allocator ptr ≢ null = ground arith in
          elim (Bool-cases (size == 0)) [
            | inl zero_size ↦ (
              (null, freed pages ptr is ready some there),
              rw (
                p0,
                held,
                zero_size,
                page-released pages ptr is ready some there,
                ptr-released pages ptr is ready some there,
              ),
              freed_it there (ground arith) refl (freed-Frees pages ptr is ready some there),
            )
            | inr some_size ↦
                let (r, e, outcome) =
                  realloc-Moved ptr size alignment pages.host is.fresh some
                    (address-live pages ptr is some there) (ground arith) pos in
                elim outcome [
                  | inr (granted, same, moved) ↦
                      rw (p0, held, some_size, e)
                        (remap-Reallocs grants pages ptr is ready some there size alignment r.0 r.1
                          moved (ground (arith, some_size)) granted same)
                  | inl (why, refused) ↦
                      let a0 : (r.0 == null) ≡ true = ground (arith, refused.none) in
                      let after = record pages { host = r.1 } in
                      let (whole, same) =
                        Unchanged-IsPages pages after is is.valid refused.fresh (λ q _. refl)
                          (λ p _. refl) refused.live in
                      (
                        (null, after),
                        rw (p0, held, some_size, e, a0),
                        refused_it there (ground (arith, some_size)) why refl whole same,
                      )
                ]
          ]
    ]
