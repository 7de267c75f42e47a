-- ===== src/Allocator/Lease/Ending.antt =====
-- `lease_terminate` and `lease_transfer` of allocator/lease.c.
use attica.Base.{
  ◌≡◌, ◌≢◌, ◌⊎◌, inl, inr, refl, false, arith, Ptr, null, Bool-cases, ◌∙◌, ap, ◌==◌, Returns, ok,
}
use attica.Map.Linear.{HashMap, HashMapState, success, error, key_exists, key_not_found, is_success}
use attica.Map.Linear as Linear
use attica.Map.Linear.Hash.{address_type}
use attica.Map.Linear.Ring.{IsStraight}
use attica.Map.Linear.Rehash.{is_success_iff}
use attica.Map.Linear.Delete.Deletes.{IsClear}
use attica.Allocator.Registry.{tracked, address-IsKeyType, Unregisters, delete-Unregisters}
use attica.Allocator.Registry.Blocks.{
  released, remove-IsRegistry, fewer-IsRegistry, IsFresh-released,
}
use attica.Allocator.Lease.{Leases, get_tenant, free_tenant, terminate}
use attica.Allocator.Lease.Tenants.{parts, free_tenant-released}
use attica.Allocator.Lease.Owner.{blocks, IsOwner}

abbrev pub IsClearOwner : HashMap → Type 0
IsClearOwner owner = IsClear address_type address-IsKeyType owner

module _ (address : Ptr) (owner : HashMap) (leases : Leases) (is : IsOwner owner leases)
    (clear : IsClearOwner owner) (line : IsStraight address_type owner.size address)
    (some : address ≢ null) (there : tracked owner address ≢ null) where
  abbrev tenant : Ptr
  tenant = tracked owner address

  abbrev pub rest : HashMap
  rest = (Linear.delete address_type address owner).1

  pub unregisters : Unregisters owner address (Linear.delete address_type address owner)
  unregisters = delete-Unregisters address owner clear some line

  pub deleted : (Linear.delete address_type address owner).0 ≡ success
  deleted = unregisters.succeeds.1 there

  -- What is tracked without the address was tracked before.
  still : (q : Ptr) → q ≢ null → tracked rest q ≢ null → tracked rest q ≡ tracked owner q
  still q some_q there_q =
      unregisters.others deleted q some_q
        (λ e. there_q (ap (tracked rest) e ∙ unregisters.removed deleted))

  -- The owner without the lease; its blocks are not freed yet.
  pub rest-IsOwner : IsOwner rest leases
  rest-IsOwner = record {
    valid = unregisters.clear.valid;
    fresh = is.fresh;
    registry = fewer-IsRegistry (blocks leases) owner rest leases.host.live is.registry still;
    whole = λ q some_q there_q.
        let e = still q some_q there_q in rw e (is.whole q some_q (rw e at there_q));
    placed = λ q some_q there_q.
        let e = still q some_q there_q in rw e (is.placed q some_q (rw e at there_q));
  }

  abbrev freed : Leases
  freed = record leases {
    host = record leases.host { live = released (parts leases tenant) leases.host.live };
  }

  freed-IsOwner : IsOwner rest freed
  unfolding parts
  freed-IsOwner = record {
    valid = unregisters.clear.valid;
    fresh = IsFresh-released (parts leases tenant) leases.host is.fresh;
    registry =
        remove-IsRegistry (blocks leases) owner rest leases.host.live address is.registry some there
          (unregisters.removed deleted) (unregisters.others deleted);
    whole = λ q some_q there_q.
        let w = rest-IsOwner.whole q some_q there_q in
        record { policy = w.policy; object = w.object; address = w.address; self = w.self };
    placed = rest-IsOwner.placed;
  }

  tenant_freed : free_tenant tenant leases ≡ ok freed
  tenant_freed =
      free_tenant-released leases tenant (is.whole address some there)
        (is.registry.apart address some there) (is.registry.all_live address some there)

-- The lease of the address ends: its blocks are freed, and all else stays.
pub record Ends (address : Ptr) (owner : HashMap) (leases : Leases)
    (r : HashMapState × HashMap × Leases) : Type 0 where
  pub done : r.0 ≡ success
  pub whole : IsOwner r.1 r.2
  pub clear : IsClearOwner r.1
  pub gone : tracked r.1 address ≡ null
  pub others : (q : Ptr) → q ≢ null → q ≢ address → tracked r.1 q ≡ tracked owner q
  pub live : r.2.host.live ≡ released (parts leases (tracked owner address)) leases.host.live

-- `lease_terminate` never faults. Of an address that is not tracked it answers KEY_NOT_FOUND and changes nothing. Otherwise it succeeds:
-- the address is not tracked any more, the blocks of its tenant are freed, the address itself only if the lease is
-- owned, and every other lease stays.
pub terminate-Ends :
    (address : Ptr) (owner : HashMap) (leases : Leases)
    → IsOwner owner leases
    → IsClearOwner owner
    → IsStraight address_type owner.size address
    → address ≢ null
    → Returns (terminate address owner leases) λ r.
      ((tracked owner address ≡ null) × (r ≡ (key_not_found, owner, leases)))
      ⊎ ((tracked owner address ≢ null) × Ends address owner leases r)
unfolding terminate get_tenant
terminate-Ends address owner leases is clear line some =
    let a0 : (address == null) ≡ false = ground arith in
    elim (Bool-cases (tracked owner address == null)) [
      | inl none ↦ ((key_not_found, owner, leases), rw (a0, none), inl (ground arith, refl))
      | inr held ↦
          let there : tracked owner address ≢ null = ground arith in
          let ended = deleted address owner leases is clear line some there in
          let good = (is_success_iff _).1 ended in
          let (state, rest') = Linear.delete address_type address owner in
          let u = unregisters address owner leases is clear line some there in
          (
            (state, rest', freed address owner leases is clear line some there),
            rw (a0, held, good, tenant_freed address owner leases is clear line some there),
            inr (
              there,
              record {
                done = ended;
                whole = freed-IsOwner address owner leases is clear line some there;
                clear = u.clear;
                gone = u.removed ended;
                others = u.others ended;
                live = refl;
              },
            ),
          )
    ]
