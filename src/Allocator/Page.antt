-- ===== src/Allocator/Page.antt =====
-- allocator/page.c: blocks of core/memory.c whose size and alignment are kept in records, found by
-- the block's address in a table of map/linear.c. The allocator is given: `NULL` allocators and the
-- log are not modelled, and neither is what a block holds.
pub mod Tracking
pub mod Inserting
pub mod Creating
pub mod Malloc
pub mod Add
pub mod Misuse
pub mod Free
pub mod Realloc
pub mod Walk
pub mod Emptying
use attica.Base.{
  ℕ, zero, suc, ◌*◌, ◌%◌, Bool, true, false, Ptr, null, word, Run, ok, fault, ◌>>=◌, ◌==◌, ◌||◌,
  ◌&&◌, not, if◌then◌else◌, Option, none, some,
}
use attica.Memory.{Host, alloc, mem_free, realloc}
use attica.Map.Linear.{
  HashMap, HashMapState, success, error, key_exists, key_not_found, full, is_success, Entry,
}
use attica.Map.Linear as Linear
use attica.Map.Linear.Hash.{address_type}

pub record PageEntry : Type 0 where
  pub size : ℕ
  pub alignment : ℕ

-- The `PageAllocator`, which is a `HashMap`, and what it works on: the system allocator, and the
-- page entries by their address.
pub record Pages : Type 0 where
  pub allocator : HashMap
  pub host : Host
  pub entries : Ptr → PageEntry

-- Whether the `calloc` of each resize succeeds: in the first insertion, in the explicit resize, and
-- in the insertion after that.
pub record Grants : Type 0 where
  pub first : Bool
  pub resize : Bool
  pub again : Bool

unfoldable pub write_entry : Ptr → PageEntry → Pages → Pages
write_entry page entry pages = record pages {
  entries = λ q. if q == page then entry else pages.entries q;
}

-- `page_entry_create`
unfoldable pub entry_create : (size alignment : ℕ) → Pages → Ptr × Pages
unfolding write_entry
entry_create size alignment pages =
    let (page, host') = alloc 16 8 pages.host in
    let pages' = record pages { host = host' } in
    if page == null
    then (null, pages')
    else (page, write_entry page (record { size = size; alignment = alignment }) pages')

-- `page_entry_free`, and any other call of `memory_free`
unfoldable pub release_at : Ptr → Pages → Run Pages
release_at page pages = do host' ← mem_free page pages.host; ok (record pages { host = host' })

unfoldable pub is_full : HashMapState → Bool
is_full full = true
is_full success = false
is_full error = false
is_full key_exists = false
is_full key_not_found = false

-- The insertion that `page_malloc`, `page_realloc` and `page_add` share: a full table is resized,
-- and the insertion tried again.
unfoldable pub insert_entry : Grants → (key page : Ptr) → HashMap → HashMapState × HashMap
unfolding is_full is_success
insert_entry grants key page table =
    let (state, table') = Linear.insert address_type grants.first key page table in
    let (grown, table'') =
      Linear.resize address_type grants.resize ((table'.size * 2) % word) table' in
    if is_full state
    then if is_success grown
      then Linear.insert address_type grants.again key page table''
      else (grown, table'')
    else (state, table')

-- `page_malloc`
unfoldable pub page_malloc : Grants → (size alignment : ℕ) → Pages → Run (Ptr × Pages)
unfolding entry_create release_at insert_entry
page_malloc grants size alignment pages =
    let (address, host') = alloc size alignment pages.host in
    let reserved = record pages { host = host' } in
    let (page, noted) = entry_create size alignment reserved in
    let (state, table) = insert_entry grants address page noted.allocator in
    let kept = record noted { allocator = table } in
    if address == null
    then ok (null, reserved)
    else if page == null
    then (do pages' ← release_at address noted; ok (null, pages'))
    else if is_success state
    then ok (address, kept)
    else do pages' ← release_at address kept; pages'' ← release_at page pages'; ok (null, pages'')

-- The end of `page_realloc`: `memory_realloc` gave `address` for the block at `ptr`.
unfoldable pub remap :
    Grants → (ptr page address : Ptr) (size alignment : ℕ) → Pages → Run (Ptr × Pages)
unfolding write_entry insert_entry release_at
remap grants ptr page address size alignment pages =
    let updated = write_entry page (record { size = size; alignment = alignment }) pages in
    let (deleted, table) = Linear.delete address_type ptr updated.allocator in
    let (state, table') = insert_entry grants address page table in
    let kept = record updated { allocator = table' } in
    if address == null
    then ok (null, pages)
    else if not (is_success deleted)
    then ok (null, record updated { allocator = table })
    else if is_success state
    then ok (address, kept)
    else do pages' ← release_at address kept; pages'' ← release_at page pages'; ok (null, pages'')

-- `page_realloc`
unfoldable pub page_realloc : Grants → (ptr : Ptr) (size alignment : ℕ) → Pages → Run (Ptr × Pages)
unfolding page_malloc remap
page_realloc grants ptr size alignment pages =
    let page = Linear.search address_type ptr pages.allocator in
    let (deleted, table) = Linear.delete address_type ptr pages.allocator in
    if ptr == null
    then page_malloc grants size alignment pages
    else if page == null
    then ok (null, pages)
    else if size == 0
    then (do
      pages' ← release_at page (record pages { allocator = table })
      pages'' ← release_at ptr pages'
      ok (null, pages''))
    else do
      (address, host') ← realloc ptr size alignment pages.host
      remap grants ptr page address size alignment (record pages { host = host' })

-- `page_free`
unfoldable pub page_free : Ptr → Pages → Run Pages
page_free ptr pages =
    let page = Linear.search address_type ptr pages.allocator in
    let (deleted, table) = Linear.delete address_type ptr pages.allocator in
    if ptr == null
    then ok pages
    else if page == null
    then ok pages
    else if is_success deleted
    then (do pages' ← release_at page (record pages { allocator = table }); release_at ptr pages')
    else ok (record pages { allocator = table })

-- The body of the loop of `page_free_all`, and `rest` for the rounds that follow.
unfoldable pub free_entry : Option Entry → (rest : Pages → Run Pages) → Pages → Run Pages
free_entry none rest pages = ok pages
free_entry (some entry) rest pages =
    if (entry.key == null) || (entry.value == null) then rest pages else do
      pages' ← release_at entry.value pages
      pages'' ← release_at entry.key pages'
      rest pages''

-- The loop of `page_free_all` over `hash_map_next`, on fuel.
unfoldable pub free_loop : (fuel index : ℕ) → Pages → Run Pages
unfolding free_entry
free_loop zero index pages = fault
free_loop (suc n) index pages =
    let (entry, index') = Linear.next pages.allocator.size index pages.allocator in
    free_entry entry (free_loop n index') pages

-- `page_free_all`
unfoldable pub page_free_all : (fuel : ℕ) → Pages → Run Pages
unfolding free_loop
page_free_all fuel pages = do
  pages' ← free_loop fuel 0 pages
  ok (record pages' { allocator = (Linear.clear address_type pages'.allocator).1 })

-- `page_add`
unfoldable pub page_add : Grants → (ptr : Ptr) (size alignment : ℕ) → Pages → Run (Bool × Pages)
page_add grants ptr size alignment pages =
    let (page, noted) = entry_create size alignment pages in
    let (state, table) = insert_entry grants ptr page noted.allocator in
    let kept = record noted { allocator = table } in
    if ptr == null
    then ok (false, pages)
    else if not (Linear.search address_type ptr pages.allocator == null)
    then ok (false, pages)
    else if page == null
    then ok (false, noted)
    else if is_success state
    then ok (true, kept)
    else do pages' ← release_at page kept; ok (false, pages')

-- `page_allocator_create`
unfoldable pub allocator_create : (granted : Bool) (initial_size : ℕ) → Option HashMap
allocator_create granted initial_size = Linear.create granted initial_size
