-- ===== src/Allocator/Lease/Address.antt =====
-- The address allocations of allocator/lease.c.
use mathlib.Core.Bool.{false≢true}
use mathlib.Core.Path.{subst}
use attica.Base.{
  ℕ, ◌≡◌, ◌≢◌, ◌⊎◌, inl, inr, refl, Bool, true, false, arith, Ptr, null, List, Bool-cases, ◌∙◌, sym,
  ◌==◌, ◌||◌, if◌then◌else◌, Returns, Run, ok, ◌>>=◌,
}
use attica.Memory.Fresh.{IsFresh}
use attica.Map.Linear.{HashMap}
use attica.Map.Linear.Hash.{address_type}
use attica.Map.Linear.Search.{IsValid}
use attica.Allocator.Registry.{tracked}
use attica.Allocator.Registry.Blocks.{Live}
use attica.Allocator.Lease.{
  LeaseAccess, LeaseContract, local_access, static_access, borrowed, static_contract, Leases,
  is_owned, alloc_internal, alloc_borrowed_tenant, alloc_static_tenant, enter,
  alloc_borrowed_address, alloc_static_address,
}
use attica.Allocator.Lease.Creating.{Extends-refl}
use attica.Allocator.Lease.Internal.{NoTenant, IsTenant, alloc_internal-IsTenant}
use attica.Allocator.Lease.Owner.{IsOwner, IsOwner-Extends, IsOwner-same}
use attica.Allocator.Lease.Enter.{Leased, NotLeased, enter-Leased}

-- What the allocation of an address may lead to, over the store `base` with the blocks `left` if it fails.
abbrev pub Answers :
    LeaseAccess
    → LeaseContract
    → (size alignment : ℕ) → HashMap
    → (base : Leases) → (left : List Ptr) → Ptr × HashMap × Leases
    → Type 0
Answers access contract size alignment owner base left (address, owner', leases') =
    IsOwner owner' leases'
    × (((address ≡ null) × NotLeased left owner base owner' leases')
        ⊎ ((address ≢ null)
            × Leased access contract address size alignment owner base (tracked owner' address)
                owner' leases'))

-- An owner outlasts a failure.
pub NotLeased-IsOwner :
    (left : List Ptr) (owner : HashMap) (leases : Leases) (owner' : HashMap) (leases' : Leases)
    → IsOwner owner leases
    → NotLeased left owner leases owner' leases'
    → Live leases.host.live left
    → IsValid address_type owner'
    → IsFresh leases'.host
    → IsOwner owner' leases'
NotLeased-IsOwner left owner leases owner' leases' is failed grown valid fresh =
    IsOwner-same owner owner' leases'
      (IsOwner-Extends owner leases leases' is failed.extends (λ b h. rw (failed.live) (grown b h))
        fresh)
      valid failed.same

NoTenant-Answers :
    (access : LeaseAccess) (contract : LeaseContract) (size alignment : ℕ) (owner : HashMap)
    (leases : Leases) (left : List Ptr) (r : Ptr × Leases)
    → IsOwner owner leases
    → NoTenant left leases r
    → Live leases.host.live left
    → Answers access contract size alignment owner leases left (null, owner, r.1)
NoTenant-Answers access contract size alignment owner leases left r is none grown =
    let failed : NotLeased left owner leases owner r.1 = record {
      live = none.live;
      same = λ q some. refl;
      extends = none.extends;
    } in
    (
      NotLeased-IsOwner left owner leases owner r.1 is failed grown is.valid none.fresh,
      inl (refl, failed),
    )

Leased-Answers :
    (access : LeaseAccess) (contract : LeaseContract) (address size alignment : ℕ) (owner : HashMap)
    (leases : Leases) (left : List Ptr) (tenant : Ptr) (r : Ptr × HashMap × Leases)
    → address ≢ null
    → r.0 ≡ address
    → IsOwner r.1 r.2
    → Leased access contract address size alignment owner leases tenant r.1 r.2
    → Answers access contract size alignment owner leases left r
Leased-Answers access contract address size alignment owner leases left tenant (p, owner', leases')
      a same is leased =
    (
      is,
      inr (
        λ e. a (sym same ∙ e),
        subst
            (λ x.
              Leased access contract x size alignment owner leases (tracked owner' x) owner'
                leases')
            (sym same)
            (subst
              (λ t. Leased access contract address size alignment owner leases t owner' leases')
              (sym leased.there) leased),
      ),
    )

module _ (granted : Bool) (access : LeaseAccess) (contract : LeaseContract)
    (address size alignment : ℕ) (owner : HashMap) (leases : Leases) (is : IsOwner owner leases)
    (a : address ≢ null) (s : size ≢ 0) (l : alignment ≢ 0) (lent : is_owned contract ≡ false) where
  -- The call that `lease_alloc_borrowed_address` and `lease_alloc_static_address` share.
  abbrev lend : Run (Ptr × HashMap × Leases)
  lend = do
    (tenant, leases') ← alloc_internal access contract address size alignment leases
    if tenant == null then ok (null, owner, leases') else enter granted address tenant owner leases'

  lend-Answers : Returns lend (Answers access contract size alignment owner leases leases.host.live)
  lend-Answers =
      let (r, e, outcome) =
        alloc_internal-IsTenant access contract address size alignment leases is.fresh a s l
          (λ own. absurd (false≢true (sym lent ∙ own))) in
      rw e (
        answer r.0 r.1 (elim outcome [
          | inl (_, none) ↦ inl none
          | inr (_, inl (_, none)) ↦ inl (rw lent at none)
          | inr (_, inr terms) ↦ inr terms
        ]))
    where
      answer :
          (tenant : Ptr) (leases' : Leases)
          → NoTenant leases.host.live leases (tenant, leases')
            ⊎ IsTenant access contract address size alignment leases (tenant, leases')
          → Returns {A = Ptr × HashMap × Leases}
              (if tenant == null
                then ok (null, owner, leases')
                else enter granted address tenant owner leases')
              (Answers access contract size alignment owner leases leases.host.live)
      answer tenant leases' (inl none) =
          let t0 : (tenant == null) ≡ true = ground (arith, none.none) in
          (
            (null, owner, leases'),
            rw t0,
            NoTenant-Answers access contract size alignment owner leases leases.host.live
                (tenant, leases') is none (λ b h. h),
          )
      answer tenant leases' (inr terms) =
          let t0 : (tenant == null) ≡ false = ground (arith, terms.whole.self) in
          let (r, e, outcome) =
            enter-Leased access contract address size alignment leases tenant leases' terms a
              (λ own. absurd (false≢true (sym lent ∙ own))) granted owner is
              (λ own. absurd (false≢true (sym lent ∙ own))) in
          (
            r,
            rw (t0, e),
            elim outcome [
              | inl (same, room, is', leased) ↦
                  Leased-Answers access contract address size alignment owner leases
                    leases.host.live tenant r a same is' leased
              | inr (none, why, valid, fresh, failed) ↦
                  let failed' : NotLeased leases.host.live owner leases r.1 r.2 =
                    rw lent at failed in
                  (
                    NotLeased-IsOwner leases.host.live owner leases r.1 r.2 is failed' (λ b h. h)
                        valid fresh,
                    inl (none, failed'),
                  )
            ],
          )

-- A call that changes nothing.
unchanged-Answers :
    (access : LeaseAccess) (contract : LeaseContract) (size alignment : ℕ) (owner : HashMap)
    (leases : Leases)
    → IsOwner owner leases
    → Answers access contract size alignment owner leases leases.host.live (null, owner, leases)
unchanged-Answers access contract size alignment owner leases is = (
  is,
  inl (
    refl,
    record { live = refl; same = λ q some. refl; extends = Extends-refl leases leases.host },
  ),
)

-- `lease_alloc_borrowed_address` and `lease_alloc_static_address` never fault. They answer `NULL` with all blocks and
-- all that is tracked as before, or the address, which was not tracked before, is leased under the terms of a
-- borrowed or a static lease, and the only new blocks are the three records.
pub alloc_lent_address-Answers :
    (granted : Bool) (address size alignment : ℕ) (owner : HashMap) (leases : Leases)
    → IsOwner owner leases
    → Returns
        (alloc_borrowed_address granted address size alignment owner leases)
        (Answers local_access borrowed size alignment owner leases leases.host.live)
      × Returns
          (alloc_static_address granted address size alignment owner leases)
          (Answers static_access static_contract size alignment owner leases leases.host.live)
unfolding alloc_borrowed_address alloc_borrowed_tenant alloc_static_address alloc_static_tenant
    is_owned
alloc_lent_address-Answers granted address size alignment owner leases is =
    elim (Bool-cases ((address == null) || (size == 0) || (alignment == 0))) [
      | inl empty ↦ rw empty (
        (
          (null, owner, leases),
          refl,
          unchanged-Answers local_access borrowed size alignment owner leases is,
        ),
        (
          (null, owner, leases),
          refl,
          unchanged-Answers static_access static_contract size alignment owner leases is,
        ),
      )
      | inr given ↦
          let a : address ≢ null = ground (arith, given) in
          let s : size ≢ 0 = ground (arith, given) in
          let l : alignment ≢ 0 = ground (arith, given) in
          rw given (
            lend-Answers granted local_access borrowed address size alignment owner leases is a s l
                refl,
            lend-Answers granted static_access static_contract address size alignment owner leases
                is a s l refl,
          )
    ]
