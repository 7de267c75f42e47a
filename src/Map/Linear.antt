-- ===== src/Map/Linear.antt =====
-- map/linear.c: a hash table with linear probing. A key and a value are addresses, and 0 is an
-- empty slot. A table is given, with its `entries`: the tests for `NULL` tables are not modelled.
-- A mutex makes each public operation one step, so the operations are functions on the table.
pub mod Search
pub mod Insert
pub mod Occupied
pub mod Filled
pub mod Rehash
pub mod Resize
pub mod Adding
pub mod Hash
pub mod Ring
pub mod Delete
use attica.Base.{
  ℕ, zero, suc, ◌-◌, ◌+◌, ◌*◌, ◌%◌, Bool, true, false, ◌||◌, List, [], ◌∷◌, leb, ltb, if◌then◌else◌,
  ◌==◌, word, Ptr, null, Option, none, some, get_or, set, replicate,
}

-- `HashMapState`
pub data HashMapState : Type 0 where
  success error key_exists key_not_found full : HashMapState

unfoldable pub is_success : HashMapState → Bool
is_success success = true
is_success error = false
is_success key_exists = false
is_success key_not_found = false
is_success full = false

-- `HashMapEntry`
pub record Entry : Type 0 where
  pub key : Ptr
  pub value : Ptr

abbrev pub blank : Entry
blank = record { key = null; value = null }

-- The two function pointers of a `HashMap`: the hash of a key before the probe is added, and
-- whether `compare` returns 0.
pub record KeyType : Type 0 where
  pub hash : Ptr → ℕ
  pub same : Ptr → Ptr → Bool

-- `HashMap`
pub record HashMap : Type 0 where
  pub entries : List Entry
  pub count : ℕ
  pub size : ℕ

abbrev pub slot : List Entry → ℕ → Entry
slot es i = get_or es i blank

module _ (type : KeyType) where
  -- `table->hash(key, table->size, i)`: in all three hash functions the probe is added to a 64-bit
  -- hash, and the sum wraps before the remainder is taken.
  unfoldable pub probe : (key : Ptr) (size i : ℕ) → ℕ
  probe key size i = (type.hash key + i) % word % size

  -- The loop of `hash_map_insert_internal`, with `rounds` probes left.
  unfoldable pub insert_loop : (rounds i : ℕ) (key value : Ptr) → HashMap → HashMapState × HashMap
  unfolding probe
  insert_loop zero i key value table = (full, table)
  insert_loop (suc n) i key value table =
      let rest = insert_loop n (i + 1) key value table in
      let index = probe key table.size i in
      let entry = slot table.entries index in
      if entry.key == null
      then (
        success,
        record table {
          entries = set table.entries index (record { key = key; value = value });
          count = (table.count + 1) % word;
        },
      )
      else if type.same entry.key key
      then (key_exists, table)
      else rest

  -- `hash_map_insert_internal`
  unfoldable pub insert_internal : (key value : Ptr) → HashMap → HashMapState × HashMap
  insert_internal key value table =
      if (table.size == 0) || (key == null) || (value == null)
      then (error, table)
      else insert_loop table.size 0 key value table

  -- "Probe entries": the state of the last insertion, the table and `rehashed_count`.
  unfoldable pub rehash : List Entry → HashMap → ℕ → HashMapState × HashMap × ℕ
  rehash [] table rehashed = (success, table, rehashed)
  rehash (entry ∷ es) table rehashed =
      let skipped = rehash es table rehashed in
      let (state, table') = insert_internal entry.key entry.value table in
      let next = rehash es table' ((rehashed + 1) % word) in
      if entry.key == null
      then skipped
      else if is_success state
      then next
      else (state, table', rehashed)

  -- `hash_map_resize_internal`; `granted` says whether its `calloc` succeeds.
  unfoldable pub resize_internal :
      (granted : Bool) (new_size : ℕ) → HashMap → HashMapState × HashMap
  resize_internal granted new_size table =
      if table.size == 0
      then (error, table)
      else if leb new_size table.size
      then (success, table)
      else if granted
      then (let fresh : HashMap = record table {
        entries = replicate new_size blank;
        size = new_size;
      } in
          let (state, table', rehashed) = rehash table.entries fresh 0 in
          if is_success state
          then (success, record table' { count = rehashed })
          else (state, record table' { entries = table.entries; size = table.size }))
      else (error, table)

  -- `hash_map_resize`
  unfoldable pub resize : (granted : Bool) (new_size : ℕ) → HashMap → HashMapState × HashMap
  resize granted new_size table =
      if table.size == 0 then (error, table) else resize_internal granted new_size table

  -- The loop of `hash_map_delete_internal` that takes out and puts back the entries behind the
  -- deleted one on the key's probe sequence.
  unfoldable pub reinsert_loop : (rounds j : ℕ) (key : Ptr) → HashMap → HashMapState × HashMap
  reinsert_loop zero j key table = (success, table)
  reinsert_loop (suc n) j key table =
      let index = probe key table.size j in
      let entry = slot table.entries index in
      let taken : HashMap = record table {
        entries = set table.entries index blank;
        count = (table.count + word - 1) % word;
      } in
      let (state, table') = insert_internal entry.key entry.value taken in
      let rest = reinsert_loop n (j + 1) key table' in
      if entry.key == null
      then (success, table)
      else if is_success state
      then rest
      else (error, table')

  -- The outer loop of `hash_map_delete_internal`.
  unfoldable pub delete_loop : (rounds i : ℕ) (key : Ptr) → HashMap → HashMapState × HashMap
  unfolding reinsert_loop
  delete_loop zero i key table = (key_not_found, table)
  delete_loop (suc n) i key table =
      let rest = delete_loop n (i + 1) key table in
      let index = probe key table.size i in
      let entry = slot table.entries index in
      let removed : HashMap = record table {
        entries = set table.entries index blank;
        count = (table.count + word - 1) % word;
      } in
      let tidied = reinsert_loop n (i + 1) key removed in
      if entry.key == null
      then (key_not_found, table)
      else if type.same entry.key key
      then tidied
      else rest

  -- `hash_map_delete_internal`, and with the same guards `hash_map_delete`
  unfoldable pub delete : (key : Ptr) → HashMap → HashMapState × HashMap
  unfolding delete_loop
  delete key table =
      if (table.size == 0) || (key == null)
      then (error, table)
      else delete_loop table.size 0 key table

  -- `hash_map_clear_internal`, and with the same guard `hash_map_clear`
  unfoldable pub clear : HashMap → HashMapState × HashMap
  clear table =
      if table.size == 0
      then (error, table)
      else (success, record table { entries = replicate table.size blank; count = 0 })

  -- The loop of `hash_map_search_internal`.
  unfoldable pub search_loop : (rounds i : ℕ) (key : Ptr) → HashMap → Ptr
  search_loop zero i key table = null
  search_loop (suc n) i key table =
      let rest = search_loop n (i + 1) key table in
      let entry = slot table.entries (probe key table.size i) in
      if entry.key == null then null else if type.same entry.key key then entry.value else rest

  -- `hash_map_search_internal`, and with the same guards `hash_map_search`
  unfoldable pub search : (key : Ptr) → HashMap → Ptr
  search key table =
      if (table.size == 0) || (key == null) then null else search_loop table.size 0 key table

  -- `hash_map_insert`. The load `(double) count / size > 0.75` is compared without rounding.
  unfoldable pub insert : (granted : Bool) (key value : Ptr) → HashMap → HashMapState × HashMap
  insert granted key value table =
      if (table.size == 0) || (key == null) || (value == null)
      then (error, table)
      else if ltb (table.size * 3) (table.count * 4)
      then (let (state, table') = resize_internal granted ((table.size * 2) % word) table in
          if is_success state then insert_internal key value table' else (error, table'))
      else insert_internal key value table

-- `hash_map_create` for a valid key type; `granted` says whether its allocations and the
-- initialisation of its mutex succeed.
unfoldable pub create : (granted : Bool) (initial_size : ℕ) → Option HashMap
create granted initial_size =
    let size = if ltb 0 initial_size then initial_size else 10 in
    if granted
    then some (record { entries = replicate size blank; count = 0; size = size })
    else none

-- `hash_map_next` from the iterator's index: the entry, if there is one, and the new index.
unfoldable pub next : (rounds index : ℕ) → HashMap → Option Entry × ℕ
next zero index table = (none, index)
next (suc n) index table =
    let rest = next n (index + 1) table in
    let entry = slot table.entries index in
    if ltb index table.size
    then if entry.key == null then rest else (some entry, index + 1)
    else (none, index)
