-- ===== src/Allocator/Lease.antt =====
-- allocator/lease.c: leases of memory. A tenant joins a policy, which says who frees the memory, and
-- an object, which says where it is. An owner is a table of map/linear.c from addresses to tenants; it is
-- given, as are the strings. What a block holds, the debug output and `NULL` owners are not modelled.
pub mod Tenants
pub mod Creating
pub mod Internal
pub mod Owner
pub mod Enter
pub mod Address
pub mod Owned
pub mod Ending
pub mod Transfer
pub mod Closing
use attica.Base.{
  ℕ, zero, suc, ◌+◌, ◌≢◌, Bool, true, false, Ptr, null, Run, ok, fault, ◌>>=◌, ◌==◌, ◌||◌, not, leb,
  if◌then◌else◌, Option, none, some, List, [], ◌∷◌, length,
}
use attica.Memory.{Host, alloc, mem_free}
use attica.Map.Linear.{
  HashMap, HashMapState, success, error, key_exists, key_not_found, is_success, Entry,
}
use attica.Map.Linear as Linear
use attica.Map.Linear.Hash.{address_type}

-- `LeaseAccess`
pub data LeaseAccess : Type 0 where
  global_access local_access static_access : LeaseAccess

-- `LeaseContract`
pub data LeaseContract : Type 0 where
  owned borrowed static_contract : LeaseContract

pub record LeasePolicy : Type 0 where
  pub access : LeaseAccess
  pub contract : LeaseContract

pub record LeaseObject : Type 0 where
  pub alignment : ℕ
  pub size : ℕ
  pub address : Ptr

pub record LeaseTenant : Type 0 where
  pub policy : Ptr
  pub object : Ptr

-- What the leases work on: the system allocator, and the three kinds of records by their address.
pub record Leases : Type 0 where
  pub host : Host
  pub policies : Ptr → LeasePolicy
  pub objects : Ptr → LeaseObject
  pub tenants : Ptr → LeaseTenant

unfoldable pub is_owned : LeaseContract → Bool
is_owned owned = true
is_owned borrowed = false
is_owned static_contract = false

-- `lease_create_owner`
unfoldable pub create_owner : (granted : Bool) (capacity : ℕ) → Option HashMap
create_owner granted capacity = Linear.create granted capacity

-- `lease_create_policy`
unfoldable pub create_policy : LeaseAccess → LeaseContract → Leases → Ptr × Leases
create_policy access contract leases =
    let (policy, host') = alloc 8 4 leases.host in
    if policy == null then (null, record leases { host = host' }) else (
      policy,
      record leases {
        host = host';
        policies = λ p.
            if p == policy
            then record { access = access; contract = contract }
            else leases.policies p;
      },
    )

-- `lease_create_object`
unfoldable pub create_object : (address size alignment : ℕ) → Leases → Ptr × Leases
create_object address size alignment leases =
    let (object, host') = alloc 24 8 leases.host in
    if (address == null) || (size == 0) || (alignment == 0)
    then (null, leases)
    else if object == null
    then (null, record leases { host = host' })
    else (
      object,
      record leases {
        host = host';
        objects = λ p.
            if p == object
            then record { alignment = alignment; size = size; address = address }
            else leases.objects p;
      },
    )

-- `lease_create_tenant`
unfoldable pub create_tenant : (policy object : Ptr) → Leases → Ptr × Leases
create_tenant policy object leases =
    let (tenant, host') = alloc 16 8 leases.host in
    if (policy == null) || (object == null)
    then (null, leases)
    else if tenant == null
    then (null, record leases { host = host' })
    else (
      tenant,
      record leases {
        host = host';
        tenants = λ p.
            if p == tenant then record { policy = policy; object = object } else leases.tenants p;
      },
    )

-- A call of `memory_free`.
unfoldable pub release_at : Ptr → Leases → Run Leases
release_at p leases = do host' ← mem_free p leases.host; ok (record leases { host = host' })

-- `lease_free_policy`
unfoldable pub free_policy : Ptr → Leases → Run Leases
free_policy policy leases = if policy == null then ok leases else release_at policy leases

-- `lease_free_object`
unfoldable pub free_object : (policy object : Ptr) → Leases → Run Leases
free_object policy object leases =
    let address = (leases.objects object).address in
    if (policy == null) || (object == null)
    then ok leases
    else if (address == null) || not (is_owned (leases.policies policy).contract)
    then release_at object leases
    else do leases' ← release_at address leases; release_at object leases'

-- `lease_free_tenant`
unfoldable pub free_tenant : Ptr → Leases → Run Leases
free_tenant tenant leases =
    let parts = leases.tenants tenant in
    if tenant == null then ok leases else do
      leases' ← free_object parts.policy parts.object leases
      leases'' ← free_policy parts.policy leases'
      release_at tenant leases''

-- `lease_alloc_internal` once there is a policy
unfoldable pub finish_tenant :
    (policy : Ptr) (address size alignment : ℕ) → Leases → Run (Ptr × Leases)
finish_tenant policy address size alignment leases =
    let (object, with_object) = create_object address size alignment leases in
    let (tenant, with_tenant) = create_tenant policy object with_object in
    if object == null
    then if is_owned (with_object.policies policy).contract
      then (do
        leases' ← release_at address with_object
        leases'' ← free_policy policy leases'
        ok (null, leases''))
      else (do leases' ← free_policy policy with_object; ok (null, leases'))
    else if tenant == null
    then (do
      leases' ← free_object policy object with_tenant
      leases'' ← free_policy policy leases'
      ok (null, leases''))
    else ok (tenant, with_tenant)

-- `lease_alloc_internal`
unfoldable pub alloc_internal :
    LeaseAccess → LeaseContract → (address size alignment : ℕ) → Leases → Run (Ptr × Leases)
alloc_internal access contract address size alignment leases =
    let (policy, with_policy) = create_policy access contract leases in
    if policy == null
    then ok (null, with_policy)
    else finish_tenant policy address size alignment with_policy

-- `lease_alloc_owned_tenant`
unfoldable pub alloc_owned_tenant : (size alignment : ℕ) → Leases → Run (Ptr × Leases)
alloc_owned_tenant size alignment leases =
    let (address, host') = alloc size alignment leases.host in
    let reserved = record leases { host = host' } in
    if (size == 0) || (alignment == 0)
    then ok (null, leases)
    else if address == null
    then ok (null, reserved)
    else alloc_internal local_access owned address size alignment reserved

-- `lease_alloc_borrowed_tenant`
unfoldable pub alloc_borrowed_tenant : (address size alignment : ℕ) → Leases → Run (Ptr × Leases)
alloc_borrowed_tenant address size alignment leases =
    if (address == null) || (size == 0) || (alignment == 0)
    then ok (null, leases)
    else alloc_internal local_access borrowed address size alignment leases

-- `lease_alloc_static_tenant`
unfoldable pub alloc_static_tenant : (address size alignment : ℕ) → Leases → Run (Ptr × Leases)
alloc_static_tenant address size alignment leases =
    if (address == null) || (size == 0) || (alignment == 0)
    then ok (null, leases)
    else alloc_internal static_access static_contract address size alignment leases

-- The end that the three address allocations share: the tenant enters the owner's table, or is freed.
-- `granted` says whether the `calloc` of a resize succeeds.
unfoldable pub enter :
    (granted : Bool) (address tenant : Ptr) → HashMap → Leases → Run (Ptr × HashMap × Leases)
enter granted address tenant owner leases =
    let (state, owner') = Linear.insert address_type granted address tenant owner in
    if is_success state
    then ok (address, owner', leases)
    else do leases' ← free_tenant tenant leases; ok (null, owner', leases')

-- `lease_alloc_owned_address`
unfoldable pub alloc_owned_address :
    (granted : Bool) (size alignment : ℕ) → HashMap → Leases → Run (Ptr × HashMap × Leases)
alloc_owned_address granted size alignment owner leases =
    if (size == 0) || (alignment == 0) then ok (null, owner, leases) else do
      (tenant, leases') ← alloc_owned_tenant size alignment leases
      let address = (leases'.objects (leases'.tenants tenant).object).address
      if tenant == null
          then ok (null, owner, leases')
          else if address == null
          then (do leases'' ← free_tenant tenant leases'; ok (null, owner, leases''))
          else enter granted address tenant owner leases'

-- `lease_alloc_borrowed_address`
unfoldable pub alloc_borrowed_address :
    (granted : Bool) (address size alignment : ℕ) → HashMap → Leases → Run (Ptr × HashMap × Leases)
alloc_borrowed_address granted address size alignment owner leases =
    if (address == null) || (size == 0) || (alignment == 0) then ok (null, owner, leases) else do
      (tenant, leases') ← alloc_borrowed_tenant address size alignment leases
      if tenant == null
          then ok (null, owner, leases')
          else enter granted address tenant owner leases'

-- `lease_alloc_static_address`
unfoldable pub alloc_static_address :
    (granted : Bool) (address size alignment : ℕ) → HashMap → Leases → Run (Ptr × HashMap × Leases)
alloc_static_address granted address size alignment owner leases =
    if (address == null) || (size == 0) || (alignment == 0) then ok (null, owner, leases) else do
      (tenant, leases') ← alloc_static_tenant address size alignment leases
      if tenant == null
          then ok (null, owner, leases')
          else enter granted address tenant owner leases'

-- The string allocations, for a string by its address and the bytes before the terminator.
-- `lease_alloc_owned_string`
unfoldable pub alloc_owned_string :
    (granted : Bool) (string : List ℕ) → HashMap → Leases → Run (Ptr × HashMap × Leases)
alloc_owned_string granted string owner leases =
    alloc_owned_address granted (length string + 1) 1 owner leases

-- `lease_alloc_borrowed_string`
unfoldable pub alloc_borrowed_string :
    (granted : Bool) (address : Ptr) (string : List ℕ)
    → HashMap
    → Leases
    → Run (Ptr × HashMap × Leases)
alloc_borrowed_string granted address string owner leases =
    alloc_borrowed_address granted address (length string) 1 owner leases

-- `lease_alloc_static_string`
unfoldable pub alloc_static_string :
    (granted : Bool) (address : Ptr) (string : List ℕ)
    → HashMap
    → Leases
    → Run (Ptr × HashMap × Leases)
alloc_static_string granted address string owner leases =
    alloc_static_address granted address (length string) 1 owner leases

-- `lease_get_tenant`
unfoldable pub get_tenant : HashMap → Ptr → Ptr
get_tenant owner address =
    if address == null then null else Linear.search address_type address owner

-- `lease_get_object`
unfoldable pub get_object : HashMap → Ptr → Leases → Ptr
get_object owner address leases =
    let tenant = get_tenant owner address in
    if tenant == null then null else (leases.tenants tenant).object

-- `lease_get_policy`
unfoldable pub get_policy : HashMap → Ptr → Leases → Ptr
get_policy owner address leases =
    let tenant = get_tenant owner address in
    if tenant == null then null else (leases.tenants tenant).policy

-- `lease_get_access`
unfoldable pub get_access : HashMap → Ptr → Leases → LeaseAccess
get_access owner address leases =
    let policy = get_policy owner address leases in
    if policy == null then local_access else (leases.policies policy).access

-- `lease_get_contract`
unfoldable pub get_contract : HashMap → Ptr → Leases → LeaseContract
get_contract owner address leases =
    let policy = get_policy owner address leases in
    if policy == null then borrowed else (leases.policies policy).contract

-- The end of `lease_realloc`, with the new tenant at hand.
unfoldable pub replace :
    (granted : Bool) (address old_tenant new_tenant : Ptr)
    → HashMap
    → Leases
    → Run (HashMapState × HashMap × Leases)
replace granted address old_tenant new_tenant owner leases =
    let (deleted, owner') = Linear.delete address_type address owner in
    let new_address = (leases.objects (leases.tenants new_tenant).object).address in
    let (state, owner'') = Linear.insert address_type granted new_address new_tenant owner' in
    if not (is_success deleted)
    then (do leases' ← free_tenant new_tenant leases; ok (error, owner', leases'))
    else if not (is_success state)
    then (do leases' ← free_tenant new_tenant leases; ok (error, owner'', leases'))
    else do leases' ← free_tenant old_tenant leases; ok (success, owner'', leases')

-- `lease_realloc`
unfoldable pub lease_realloc :
    (granted : Bool) (address size alignment : ℕ)
    → HashMap
    → Leases
    → Run (HashMapState × HashMap × Leases)
lease_realloc granted address size alignment owner leases =
    let old_tenant = get_tenant owner address in
    let old_policy = (leases.tenants old_tenant).policy in
    let old_object = (leases.tenants old_tenant).object in
    if (address == null) || (size == 0) || (alignment == 0)
    then ok (error, owner, leases)
    else if (old_tenant == null) || (old_policy == null)
    then ok (key_not_found, owner, leases)
    else if not (is_owned (leases.policies old_policy).contract)
    then ok (error, owner, leases)
    else if leb size (leases.objects old_object).size
    then ok (success, owner, leases)
    else do
      (new_tenant, leases') ← alloc_owned_tenant size alignment leases
      if (new_tenant == null) || ((leases'.tenants new_tenant).object == null)
          then ok (error, owner, leases')
          else replace granted address old_tenant new_tenant owner leases'

-- `lease_transfer`, between two owners that are not the same
unfoldable pub transfer :
    (granted : Bool) (address : Ptr) (from to : HashMap) → HashMapState × HashMap × HashMap
transfer granted address from to =
    let tenant = get_tenant from address in
    let (deleted, from') = Linear.delete address_type address from in
    let (state, to') = Linear.insert address_type granted address tenant to in
    if address == null
    then (error, from, to)
    else if tenant == null
    then (key_not_found, from, to)
    else if not (get_tenant to address == null)
    then (key_exists, from, to)
    else if not (is_success deleted)
    then (error, from', to)
    else if not (is_success state)
    then (error, from', to')
    else (success, from', to')

-- `lease_terminate`
unfoldable pub terminate :
    (address : Ptr) → HashMap → Leases → Run (HashMapState × HashMap × Leases)
terminate address owner leases =
    let tenant = get_tenant owner address in
    let (state, owner') = Linear.delete address_type address owner in
    if tenant == null
    then ok (key_not_found, owner, leases)
    else if is_success state
    then (do leases' ← free_tenant tenant leases; ok (state, owner', leases'))
    else ok (state, owner', leases)

-- The loop of `lease_free_owner` over the entries.
unfoldable pub free_tenants : List Entry → Leases → Run Leases
free_tenants [] leases = ok leases
free_tenants (entry ∷ entries) leases =
    if (entry.key == null) || (entry.value == null)
    then free_tenants entries leases
    else do leases' ← free_tenant entry.value leases; free_tenants entries leases'

-- `lease_free_owner`; what `hash_map_free` frees is not part of the model.
unfoldable pub free_owner : HashMap → Leases → Run Leases
free_owner owner leases = free_tenants owner.entries leases
