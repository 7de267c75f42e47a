-- ===== src/Allocator/Lease/Owned.antt =====
-- `lease_alloc_owned_address` of allocator/lease.c.
use mathlib.Core.Path.{subst}
use attica.Base.{
  ℕ, ◌≡◌, ◌≢◌, ◌⊎◌, inl, inr, refl, Bool, true, false, arith, Ptr, null, List, ◌∷◌, Bool-cases, sym,
  ap, ◌==◌, ◌||◌, if◌then◌else◌, Returns, Run, ok, ◌>>=◌,
}
use attica.Memory.{alloc, is_live, release}
use attica.Memory.Fresh.{IsFresh, Given, alloc-Allocates, live-more, release_first}
use attica.Map.Linear.{HashMap}
use attica.Map.Linear.Hash.{address_type}
use attica.Map.Linear.Search.{IsValid}
use attica.Allocator.Registry.{tracked, HasNoRoom}
use attica.Allocator.Registry.Blocks.{IsUnclaimed, Live, live_head, not_live-IsUnclaimed}
use attica.Allocator.Lease.{
  local_access, owned, Leases, is_owned, create_policy, free_tenant, alloc_internal,
  alloc_owned_tenant, enter, alloc_owned_address,
}
use attica.Allocator.Lease.Tenants.{parts}
use attica.Allocator.Lease.Creating.{Extends-refl, Extends-trans}
use attica.Allocator.Lease.Internal.{LacksParts, NoTenant, IsTenant, alloc_internal-IsTenant}
use attica.Allocator.Lease.Owner.{blocks, IsOwner, IsOwner-Extends}
use attica.Allocator.Lease.Enter.{Leased, NotLeased, enter-Leased}
use attica.Allocator.Lease.Address.{NotLeased-IsOwner}

-- The store once the block of an owned lease is there.
abbrev pub reserved : (size alignment : ℕ) → Leases → Leases
reserved size alignment leases = record leases { host = (alloc size alignment leases.host).1 }

-- There is no memory for the policy, once the block is there.
abbrev pub LacksPolicy : (size alignment : ℕ) → Leases → Type 0
LacksPolicy size alignment leases =
    (create_policy local_access owned (reserved size alignment leases)).0 ≡ null

-- Why no lease is made, other than for want of a policy: what was asked for is empty, or there is no memory for it,
-- for the object or for the tenant, or the address is leased already, or finds no place in the table.
abbrev pub IsRefused : (granted : Bool) (size alignment : ℕ) → HashMap → Leases → Type 0
IsRefused granted size alignment owner leases =
    let address = (alloc size alignment leases.host).0 in
    let (policy, with_policy) = create_policy local_access owned (reserved size alignment leases) in
    (size ≡ 0)
    ⊎ (alignment ≡ 0)
    ⊎ (address ≡ null)
    ⊎ ((policy ≢ null)
        × (LacksParts policy address size alignment with_policy
            ⊎ (tracked owner address ≢ null)
            ⊎ HasNoRoom granted owner address))

-- What `lease_alloc_owned_address` may lead to, with the block that it was given: no lease, no lease and a block
-- that stays allocated, or a lease.
abbrev pub Owns :
    (granted : Bool) (address size alignment : ℕ)
    → HashMap
    → Leases
    → Ptr × HashMap × Leases
    → Type 0
Owns granted address size alignment owner leases (answer, owner', leases') =
    IsOwner owner' leases'
    × (((answer ≡ null)
          × IsRefused granted size alignment owner leases
          × NotLeased leases.host.live owner leases owner' leases')
        ⊎ ((answer ≡ null)
            × (address ≢ null)
            × LacksPolicy size alignment leases
            × NotLeased (address ∷ leases.host.live) owner leases owner' leases')
        ⊎ ((answer ≡ address)
            × (address ≢ null)
            × (¬ HasNoRoom granted owner address)
            × (is_live address leases.host.live ≡ false)
            × ((reserved size alignment leases).host.live ≡ address ∷ leases.host.live)
            × Leased local_access owned address size alignment owner
                (reserved size alignment leases) (tracked owner' address) owner' leases'))

module _ (granted : Bool) (size alignment : ℕ) (owner : HashMap) (leases : Leases)
    (is : IsOwner owner leases) (s : size ≢ 0) (l : alignment ≢ 0)
    (given : Given leases.host (alloc size alignment leases.host)) where
  abbrev address : Ptr
  address = (alloc size alignment leases.host).0

  abbrev base : Leases
  base = reserved size alignment leases

  base-grown : Live leases.host.live base.host.live
  base-grown b h = rw (given.live) (live-more address b leases.host.live h)

  base-IsOwner : IsOwner owner base
  base-IsOwner =
      IsOwner-Extends owner leases base is (Extends-refl leases base.host) base-grown given.fresh

  base-IsUnclaimed : IsUnclaimed (blocks base) owner address
  unfolding parts
  base-IsUnclaimed =
      not_live-IsUnclaimed (blocks leases) owner leases.host.live address is.registry given.off

  -- What extends the store with the block extends the store.
  from_base :
      (left : List Ptr) (owner' : HashMap) (leases' : Leases)
      → NotLeased left owner base owner' leases'
      → NotLeased left owner leases owner' leases'
  from_base left owner' leases' failed = record {
    live = failed.live;
    same = failed.same;
    extends =
        Extends-trans leases base leases' base-grown (Extends-refl leases base.host) failed.extends;
  }

  given_back : release address base.host.live ≡ leases.host.live
  given_back = rw (given.live) (release_first address leases.host.live)

  failed-Owns :
      IsRefused granted size alignment owner leases
      → (owner' : HashMap) (leases' : Leases) → IsValid address_type owner'
      → IsFresh leases'.host
      → NotLeased (release address base.host.live) owner base owner' leases'
      → Owns granted address size alignment owner leases (null, owner', leases')
  failed-Owns why owner' leases' valid fresh failed =
      let failed' : NotLeased leases.host.live owner leases owner' leases' =
        subst (λ x. NotLeased x owner leases owner' leases') given_back
          (from_base (release address base.host.live) owner' leases' failed) in
      (
        NotLeased-IsOwner leases.host.live owner leases owner' leases' is failed' (λ b h. h) valid
            fresh,
        inl (refl, why, failed'),
      )

  leaked-Owns :
      LacksPolicy size alignment leases
      → (leases' : Leases) → IsFresh leases'.host
      → NotLeased base.host.live owner base owner leases'
      → Owns granted address size alignment owner leases (null, owner, leases')
  leaked-Owns why leases' fresh failed =
      let failed' : NotLeased (address ∷ leases.host.live) owner leases owner leases' =
        subst (λ x. NotLeased x owner leases owner leases') given.live
          (from_base base.host.live owner leases' failed) in
      (
        NotLeased-IsOwner (address ∷ leases.host.live) owner leases owner leases' is failed'
            (λ b h. live-more address b leases.host.live h) is.valid fresh,
        inr (inl (refl, given.some, why, failed')),
      )

  NoTenant-NotLeased :
      (left : List Ptr) (tenant : Ptr) (leases' : Leases)
      → NoTenant left base (tenant, leases')
      → NotLeased left owner base owner leases'
  NoTenant-NotLeased left tenant leases' none = record {
    live = none.live;
    same = λ q some. refl;
    extends = none.extends;
  }

  -- The rest of `lease_alloc_owned_address`, with a tenant or without.
  abbrev rest : (tenant : Ptr) → Leases → Run (Ptr × HashMap × Leases)
  rest tenant leases' =
      let p = (leases'.objects (leases'.tenants tenant).object).address in
      if tenant == null
      then ok (null, owner, leases')
      else if p == null
      then (do leases'' ← free_tenant tenant leases'; ok (null, owner, leases''))
      else enter granted p tenant owner leases'

  -- An insertion fails for an address that is leased, or for want of room.
  no_place :
      ((tracked owner address ≡ null) → HasNoRoom granted owner address)
      → (tracked owner address ≢ null) ⊎ HasNoRoom granted owner address
  no_place why = elim (Bool-cases (tracked owner address == null)) [
    | inl none ↦ inr (why (ground (arith, none)))
    | inr some ↦ inl (ground (arith, some))
  ]

  rest-none :
      (tenant : Ptr) (leases' : Leases)
      → tenant ≡ null
      → Owns granted address size alignment owner leases (null, owner, leases')
      → Returns (rest tenant leases') (Owns granted address size alignment owner leases)
  rest-none tenant leases' none owns =
      let t0 : (tenant == null) ≡ true = ground arith in ((null, owner, leases'), rw t0, owns)

  rest-terms :
      (create_policy local_access owned base).0 ≢ null
      → (tenant : Ptr) (leases' : Leases)
      → IsTenant local_access owned address size alignment base (tenant, leases')
      → Returns (rest tenant leases') (Owns granted address size alignment owner leases)
  unfolding is_owned
  rest-terms policy tenant leases' terms =
      let t0 : (tenant == null) ≡ false = ground (arith, terms.whole.self) in
      let a0 : (address == null) ≡ false = ground (arith, given.some) in
      let place : (leases'.objects (leases'.tenants tenant).object).address ≡ address =
        ap (λ o. o.address) terms.object in
      let (r, e, outcome) =
        enter-Leased local_access owned address size alignment base tenant leases' terms given.some
          (λ _. rw (given.live) (live_head address leases.host.live)) granted owner base-IsOwner
          (λ _. base-IsUnclaimed) in
      (
        r,
        rw (t0, place, a0) e,
        elim outcome [
          | inl (same, room, is', leased) ↦ (
            is',
            inr (
                inr (
                  same,
                  given.some,
                  room,
                  given.off,
                  given.live,
                  subst (λ t. Leased local_access owned address size alignment owner base t r.1 r.2)
                      (sym leased.there) leased,
                )),
          )
          | inr (none, why, valid, fresh, failed) ↦
              subst (λ x. Owns granted address size alignment owner leases (x, r.1, r.2)) (sym none)
                (failed-Owns (inr (inr (inr (policy, inr (no_place why))))) r.1 r.2 valid fresh
                  failed)
        ],
      )

  -- The call with its block.
  given-Owns :
      Returns
        (do
          (tenant, leases') ← alloc_internal local_access owned address size alignment base
          rest tenant leases')
        (Owns granted address size alignment owner leases)
  unfolding is_owned
  given-Owns =
      let (r, e, outcome) =
        alloc_internal-IsTenant local_access owned address size alignment base given.fresh
          given.some s l (λ _. rw (given.live) (live_head address leases.host.live)) in
      rw e (elim outcome [
        | inl (policy, none) ↦
            rest-none r.0 r.1 none.none
              (leaked-Owns policy r.1 none.fresh (NoTenant-NotLeased base.host.live r.0 r.1 none))
        | inr (policy, inl (parts, none)) ↦ rest-none r.0 r.1 none.none (
            failed-Owns (inr (inr (inr (policy, inl parts)))) owner r.1 is.valid none.fresh
              (NoTenant-NotLeased (release address base.host.live) r.0 r.1 none))
        | inr (policy, inr terms) ↦ rest-terms policy r.0 r.1 terms
      ])

-- `lease_alloc_owned_address` never faults. It answers `NULL` with all blocks as before if what is asked for is
-- empty, or if there is no memory for it, for the object or for the tenant, or if the address is leased already or finds no
-- place in the table. It answers `NULL` with the new block still allocated if there is no memory for the policy. Otherwise it answers an address that was not live and is leased now under the
-- terms of an owned lease; then its block and the three records are the only new blocks. All else is tracked as before.
pub alloc_owned_address-Owns :
    (granted : Bool) (size alignment : ℕ) (owner : HashMap) (leases : Leases)
    → IsOwner owner leases
    → Returns
        (alloc_owned_address granted size alignment owner leases)
        (Owns granted (alloc size alignment leases.host).0 size alignment owner leases)
unfolding alloc_owned_address alloc_owned_tenant
alloc_owned_address-Owns granted size alignment owner leases is =
    let address = (alloc size alignment leases.host).0 in
    elim (Bool-cases ((size == 0) || (alignment == 0))) [
      | inl empty ↦
          let same : NotLeased leases.host.live owner leases owner leases = record {
            live = refl;
            same = λ q some. refl;
            extends = Extends-refl leases leases.host;
          } in
          let why : IsRefused granted size alignment owner leases = elim (Bool-cases (size == 0)) [
            | inl s ↦ inl (ground (arith, s))
            | inr s ↦ inr (inl (ground (arith, empty, s)))
          ] in
          ((null, owner, leases), rw empty, (is, inl (refl, why, same)))
      | inr full ↦ elim (alloc-Allocates size alignment leases.host is.fresh) [
        | inl refused ↦
            let a0 : (address == null) ≡ true = ground (arith, refused.none) in
            let base = reserved size alignment leases in
            let same : NotLeased leases.host.live owner leases owner base = record {
              live = refused.live;
              same = λ q some. refl;
              extends = Extends-refl leases base.host;
            } in
            (
              (null, owner, base),
              rw (full, a0),
              (
                NotLeased-IsOwner leases.host.live owner leases owner base is same (λ b h. h)
                    is.valid refused.fresh,
                inl (refl, inr (inr (inl refused.none)), same),
              ),
            )
        | inr given ↦
            let a0 : (address == null) ≡ false = ground (arith, given.some) in
            let s : size ≢ 0 = ground (arith, full) in
            let l : alignment ≢ 0 = ground (arith, full) in
            rw (full, a0) (given-Owns granted size alignment owner leases is s l given)
      ]
    ]
