-- ===== src/Tests/Lease.antt =====
-- Runs of allocator/lease.c, and its theorems at an owner with a table of four slots.
use mathlib.Core.Path.{subst}
use attica.Base.{
  ℕ, zero, suc, ◌≡◌, ◌≢◌, ◌⊎◌, inr, refl, true, arith, [], ◌∷◌, Ptr, null, ok, Returns, Returns-ok,
  ap, sym, ◌==◌, if◌then◌else◌, get_or-replicate,
}
use attica.Memory.{
  is_live, release, alloc, mem_free, free, is_power_of_two, pointer_alignment, posix_memalign,
}
use attica.Memory.Fresh.{IsFresh}
use attica.Map.Linear.{
  HashMap, Entry, slot, blank, success, key_not_found, insert, insert_internal, insert_loop, delete,
  delete_loop, reinsert_loop, search, search_loop, resize_internal, rehash, probe, is_success,
}
use attica.Map.Linear.Hash.{address_type, hash_address, address_same}
use attica.Map.Linear.Search.{IsValid, search-none}
use attica.Map.Linear.Ring.{IsStraight, hash-IsStraight}
use attica.Map.Linear.Resize.{blank-IsValid}
use attica.Allocator.Registry.{tracked, address-IsKeyType}
use attica.Allocator.Lease.{
  Leases, local_access, owned, borrowed, create_policy, create_object, create_tenant, release_at,
  free_policy, free_object, free_tenant, finish_tenant, alloc_internal, alloc_owned_tenant,
  alloc_borrowed_tenant, alloc_static_tenant, enter, alloc_owned_address, alloc_borrowed_address,
  alloc_static_address, alloc_owned_string, get_tenant, get_object, get_policy, get_access,
  get_contract, replace, lease_realloc, transfer, terminate, free_tenants, free_owner, is_owned,
}
use attica.Allocator.Lease.Owner.{IsOwner}
use attica.Allocator.Lease.Owned.{Owns, alloc_owned_address-Owns}
use attica.Allocator.Lease.Ending.{IsClearOwner, Ends, terminate-Ends}
use attica.Allocator.Lease.Closing.{Closes, free_owner-Closes}
use attica.Allocator.Lease.Transfer.{Transfers, transfer-Transfers}

lease_program : Unit {0}
unfolding create_policy create_object create_tenant release_at free_policy free_object free_tenant
    finish_tenant alloc_internal alloc_owned_tenant alloc_borrowed_tenant alloc_static_tenant enter
    alloc_owned_address alloc_borrowed_address alloc_static_address alloc_owned_string get_tenant
    get_object get_policy get_access get_contract replace lease_realloc transfer terminate
    free_tenants free_owner is_owned is_success alloc mem_free free is_power_of_two
    pointer_alignment posix_memalign is_live release insert insert_internal insert_loop delete
    delete_loop reinsert_loop search search_loop resize_internal rehash probe address_type
    hash_address address_same
lease_program = tt

abbrev nobody : HashMap
nobody = record { entries = blank ∷ blank ∷ blank ∷ blank ∷ []; count = 0; size = 4 }

abbrev start : Leases
start = record {
  host = record { supply = 100 ∷ 200 ∷ 300 ∷ 400 ∷ []; live = [] };
  policies = λ p. record { access = local_access; contract = borrowed };
  objects = λ p. record { alignment = 0; size = 0; address = null };
  tenants = λ p. record { policy = null; object = null };
}

-- After `lease_alloc_owned_address` of 64 bytes.
abbrev somebody : HashMap
somebody = record {
  entries = record { key = 100; value = 400 } ∷ blank ∷ blank ∷ blank ∷ [];
  count = 1;
  size = 4;
}

abbrev leased : Leases
leased = record {
  host = record { supply = []; live = 400 ∷ 300 ∷ 200 ∷ 100 ∷ [] };
  policies = λ p.
      if p == 200 then record { access = local_access; contract = owned } else start.policies p;
  objects = λ p.
      if p == 300 then record { alignment = 16; size = 64; address = 100 } else start.objects p;
  tenants = λ p. if p == 400 then record { policy = 200; object = 300 } else start.tenants p;
}

alloc_owned_address_runs : alloc_owned_address true 64 16 nobody start ≡ ok (100, somebody, leased)
unfolding lease_program
alloc_owned_address_runs = refl

-- Without memory for the policy the block stays allocated.
alloc_owned_address_leaks :
    alloc_owned_address true 64 16 nobody
      (record start { host = record { supply = 100 ∷ []; live = [] } })
    ≡ ok (null, nobody, record start { host = record { supply = []; live = 100 ∷ [] } })
unfolding lease_program
alloc_owned_address_leaks = refl

terminate_runs :
    terminate 100 somebody leased
    ≡ ok (success, nobody, record leased { host = record { supply = []; live = [] } })
unfolding lease_program
terminate_runs = refl

get_contract_runs : get_contract somebody 100 leased ≡ owned
unfolding lease_program
get_contract_runs = refl

-- A request that the lease already satisfies changes nothing.
lease_realloc_runs : lease_realloc true 100 32 16 somebody leased ≡ ok (success, somebody, leased)
unfolding lease_program
lease_realloc_runs = refl

free_owner_runs :
    free_owner somebody leased ≡ ok (record leased { host = record { supply = []; live = [] } })
unfolding lease_program
free_owner_runs = refl

nobody-IsValid : IsValid address_type nobody
nobody-IsValid = blank-IsValid address_type address-IsKeyType 4 0 (omega arith)

nobody-tracked : (q : Ptr) → tracked nobody q ≡ null
nobody-tracked q =
    search-none address_type address-IsKeyType q nobody nobody-IsValid
      (λ j m. m.used (ap (λ (e : Entry). e.key) (get_or-replicate 4 j blank)))

nobody-IsOwner : (leases : Leases) → IsFresh leases.host → IsOwner nobody leases
nobody-IsOwner leases fresh = record {
  valid = nobody-IsValid;
  fresh = fresh;
  registry = record {
    all_live = λ q some there. absurd (there (nobody-tracked q));
    apart = λ q some there. absurd (there (nobody-tracked q));
    separate = λ p q b some_p some_q there_p. absurd (there_p (nobody-tracked p));
  };
  whole = λ q some there. absurd (there (nobody-tracked q));
  placed = λ q some there. absurd (there (nobody-tracked q));
}

start-IsFresh : IsFresh start.host
unfolding is_live
start-IsFresh = (
  inr (refl, (ground arith, (ground arith, (ground arith, tt)))),
  (
    inr (refl, (ground arith, (ground arith, tt))),
    (inr (refl, (ground arith, tt)), (inr (refl, tt), tt)),
  ),
)

alloc_owned_address-Owns_example :
    Returns
      (alloc_owned_address true 64 16 nobody start)
      (Owns true (alloc 64 16 start.host).0 64 16 nobody start)
alloc_owned_address-Owns_example =
    alloc_owned_address-Owns true 64 16 nobody start (nobody-IsOwner start start-IsFresh)

somebody-IsOwner : IsOwner somebody leased
somebody-IsOwner =
    (Returns-ok
      (alloc_owned_address-Owns true 64 16 nobody start (nobody-IsOwner start start-IsFresh))
      alloc_owned_address_runs).0

line_100 : IsStraight address_type 4 100
unfolding address_type hash_address
line_100 = hash-IsStraight address_type 4 100 (omega arith)

somebody-IsClearOwner : IsClearOwner somebody
somebody-IsClearOwner = record {
  valid = somebody-IsOwner.valid;
  straight = λ j h used. subst (IsStraight address_type 4) (sym (only_key j used)) line_100;
  room = 3;
  room-lt = omega arith;
  room_empty = refl;
}
  where
    only_key : (j : ℕ) → (slot somebody.entries j).key ≢ null → (slot somebody.entries j).key ≡ 100
    only_key zero used = refl
    only_key (suc zero) used = absurd (used refl)
    only_key (suc (suc zero)) used = absurd (used refl)
    only_key (suc (suc (suc zero))) used = absurd (used refl)
    only_key (suc (suc (suc (suc j)))) used = absurd (used refl)

terminate-Ends_example : Returns (terminate 100 somebody leased) λ r.
    ((tracked somebody 100 ≡ null) × (r ≡ (key_not_found, somebody, leased)))
    ⊎ ((tracked somebody 100 ≢ null) × Ends 100 somebody leased r)
terminate-Ends_example =
    terminate-Ends 100 somebody leased somebody-IsOwner somebody-IsClearOwner line_100 (omega arith)

transfer-Transfers_example :
    Transfers true 100 somebody nobody leased (transfer true 100 somebody nobody)
transfer-Transfers_example =
    transfer-Transfers true 100 somebody nobody leased somebody-IsOwner (nobody-IsOwner leased tt)
      somebody-IsClearOwner line_100 (omega arith)
      (λ b h q some there. absurd (there (nobody-tracked q)))

free_owner-Closes_example : Returns (free_owner somebody leased) (Closes somebody leased)
free_owner-Closes_example = free_owner-Closes somebody leased somebody-IsOwner
