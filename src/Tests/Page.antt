-- ===== src/Tests/Page.antt =====
-- Runs of allocator/page.c, and its theorems at an allocator with a table of four slots.
use attica.Base.{
  ℕ, zero, suc, ◌≡◌, ◌≢◌, ◌⊎◌, inr, refl, true, false, arith, List, [], ◌∷◌, Ptr, null, ok, fault,
  Returns, Returns-ok, ap, sym, ◌==◌, if◌then◌else◌, get_or-replicate,
}
use mathlib.Core.Path.{subst}
use attica.Memory.{
  is_live, release, alloc, mem_free, free, realloc, is_power_of_two, pointer_alignment,
  posix_memalign,
}
use attica.Map.Linear.{
  HashMap, Entry, slot, blank, insert, insert_internal, insert_loop, delete, delete_loop,
  reinsert_loop, search, search_loop, next, clear, resize, resize_internal, rehash, probe,
  is_success,
}
use attica.Map.Linear.Delete.Deletes.{IsClear}
use attica.Map.Linear.Hash.{address_type, hash_address, address_same}
use attica.Map.Linear.Search.{IsValid, search-none}
use attica.Map.Linear.Ring.{IsStraight, hash-IsStraight}
use attica.Map.Linear.Resize.{blank-IsValid}
use attica.Allocator.Registry.{tracked, address-IsKeyType}
use attica.Allocator.Registry.Blocks.{IsRegistry}
use attica.Allocator.Page.{
  Pages, Grants, page_malloc, page_free, page_realloc, page_add, page_free_all, free_loop,
  free_entry, remap, entry_create, write_entry, release_at, insert_entry, is_full,
}
use attica.Allocator.Page.Tracking.{blocks, IsPages}
use attica.Allocator.Page.Malloc.{Mallocs, page_malloc-Mallocs}
use attica.Allocator.Page.Emptying.{Empties, page_free_all-Empties}
use attica.Allocator.Page.Free.{IsReady, Frees, page_free-Frees}
use attica.Allocator.Page.Realloc.{Reallocs, page_realloc-Reallocs}
use attica.Allocator.Page.Misuse.{page_realloc-dangles}

abbrev no_entries : HashMap
no_entries = record { entries = blank ∷ blank ∷ blank ∷ blank ∷ []; count = 0; size = 4 }

no_entries-IsValid : IsValid address_type no_entries
no_entries-IsValid = blank-IsValid address_type address-IsKeyType 4 0 (omega arith)

no_entries-tracked : (q : Ptr) → tracked no_entries q ≡ null
no_entries-tracked q =
    search-none address_type address-IsKeyType q no_entries no_entries-IsValid
      (λ j m. m.used (ap (λ (e : Entry). e.key) (get_or-replicate 4 j blank)))

pub no_entries-IsRegistry :
    (blocks : (key value : Ptr) → List Ptr) → IsRegistry blocks no_entries []
no_entries-IsRegistry blocks = record {
  all_live = λ q some there. absurd (there (no_entries-tracked q));
  apart = λ q some there. absurd (there (no_entries-tracked q));
  separate = λ p q b some_p some_q there_p. absurd (there_p (no_entries-tracked p));
}

abbrev all_granted : Grants
all_granted = record { first = true; resize = true; again = true }

abbrev start : Pages
start = record {
  allocator = no_entries;
  host = record { supply = 100 ∷ 200 ∷ 300 ∷ []; live = [] };
  entries = λ p. record { size = 0; alignment = 0 };
}

start-IsPages : IsPages start
unfolding is_live
start-IsPages = record {
  valid = no_entries-IsValid;
  fresh = (
    inr (refl, (ground arith, (ground arith, tt))),
    (inr (refl, (ground arith, tt)), (inr (refl, tt), tt)),
  );
  registry = no_entries-IsRegistry blocks;
}

-- After `page_malloc` of 64 bytes.
abbrev one : Pages
one = record {
  allocator = record {
    entries = record { key = 100; value = 200 } ∷ blank ∷ blank ∷ blank ∷ [];
    count = 1;
    size = 4;
  };
  host = record { supply = 300 ∷ []; live = 200 ∷ 100 ∷ [] };
  entries = λ q. if q == 200 then record { size = 64; alignment = 16 } else start.entries q;
}

page_program : Unit {0}
unfolding page_malloc page_free page_realloc page_add page_free_all free_loop free_entry remap
    entry_create write_entry release_at insert_entry is_full is_success alloc mem_free free realloc
    is_power_of_two pointer_alignment posix_memalign is_live release insert insert_internal
    insert_loop delete delete_loop reinsert_loop search search_loop next clear resize
    resize_internal rehash probe address_type hash_address address_same
page_program = tt

page_malloc_runs : page_malloc all_granted 64 16 start ≡ ok (100, one)
unfolding page_program
page_malloc_runs = refl

page_free_runs :
    page_free 100 one
    ≡ ok (record start { host = record { supply = 300 ∷ []; live = [] }; entries = one.entries })
unfolding page_program
page_free_runs = refl

-- An address that is not tracked is left alone.
page_free_untracked : page_free 7 one ≡ ok one
unfolding page_program
page_free_untracked = refl

page_free_all_runs : page_free_all 5 one ≡ page_free 100 one
unfolding page_program
page_free_all_runs = refl

one-IsPages : IsPages one
one-IsPages =
    (Returns-ok (page_malloc-Mallocs all_granted 64 16 start start-IsPages) page_malloc_runs).0

line_100 : IsStraight address_type 4 100
unfolding address_type hash_address
line_100 = hash-IsStraight address_type 4 100 (omega arith)

one-IsReady : IsReady one 100
one-IsReady = record {
  clear = record {
    valid = one-IsPages.valid;
    straight = λ j h used. subst (IsStraight address_type 4) (sym (only_key j used)) line_100;
    room = 3;
    room-lt = omega arith;
    room_empty = refl;
  };
  line = line_100;
}
  where
    only_key :
        (j : ℕ)
        → (slot one.allocator.entries j).key ≢ null
        → (slot one.allocator.entries j).key ≡ 100
    only_key zero used = refl
    only_key (suc zero) used = absurd (used refl)
    only_key (suc (suc zero)) used = absurd (used refl)
    only_key (suc (suc (suc zero))) used = absurd (used refl)
    only_key (suc (suc (suc (suc j)))) used = absurd (used refl)

one_tracked : tracked one.allocator 100 ≢ null
unfolding page_program
one_tracked = ground arith

page_malloc-Mallocs_example : Returns (page_malloc all_granted 64 16 start) (Mallocs start 64 16)
page_malloc-Mallocs_example = page_malloc-Mallocs all_granted 64 16 start start-IsPages

page_free-Frees_example : Returns (page_free 100 one) λ pages'.
    (((100 ≡ null) ⊎ (tracked one.allocator 100 ≡ null)) × (pages' ≡ one))
    ⊎ ((100 ≢ null)
        × (tracked one.allocator 100 ≢ null)
        × Frees one 100 pages'
        × IsClear address_type address-IsKeyType pages'.allocator)
page_free-Frees_example = page_free-Frees 100 one one-IsPages one-IsReady

page_realloc-Reallocs_example :
    Returns (page_realloc all_granted 100 128 16 one) (Reallocs all_granted one 100 128 16)
page_realloc-Reallocs_example =
    page_realloc-Reallocs all_granted 100 128 16 one one-IsPages one-IsReady (omega arith)
      (omega arith)

page_realloc-dangles_example : Returns (page_realloc all_granted 100 128 0 one) λ (r : Ptr × Pages).
    (r.0 ≡ null)
    × (r.1.allocator ≡ one.allocator)
    × (is_live 100 r.1.host.live ≡ false)
    × (page_free 100 r.1 ≡ fault)
page_realloc-dangles_example =
    page_realloc-dangles all_granted 100 128 one one-IsPages one-IsReady (omega arith) one_tracked
      (omega arith) (unfold page_program in refl)

page_free_all-Empties_example : Returns (page_free_all 5 one) (Empties one)
page_free_all-Empties_example = page_free_all-Empties 5 one one-IsPages (omega arith)
