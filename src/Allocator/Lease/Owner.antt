-- ===== src/Allocator/Lease/Owner.antt =====
-- What an owner of allocator/lease.c keeps.
use attica.Base.{◌≡◌, ◌≢◌, inl, inr, refl, true, arith, Ptr, null, List, Bool-cases}
use attica.Memory.{is_live}
use attica.Memory.Fresh.{IsFresh}
use attica.Map.Linear.{HashMap}
use attica.Map.Linear.Hash.{address_type}
use attica.Map.Linear.Search.{IsValid}
use attica.Allocator.Registry.{tracked}
use attica.Allocator.Registry.Blocks.{IsRegistry, Live, keep-IsRegistry}
use attica.Allocator.Lease.{Leases, is_owned}
use attica.Allocator.Lease.Tenants.{Extends, parts, IsWhole}

-- The blocks behind an address are those of its tenant.
abbrev pub blocks : Leases → (address tenant : Ptr) → List Ptr
blocks leases address tenant = parts leases tenant

-- Each tracked address has a tenant of live blocks of its own, whose object says the address.
pub record IsOwner (owner : HashMap) (leases : Leases) : Type 0 where
  pub valid : IsValid address_type owner
  pub fresh : IsFresh leases.host
  pub registry : IsRegistry (blocks leases) owner leases.host.live
  pub whole : (q : Ptr) → q ≢ null → tracked owner q ≢ null → IsWhole leases (tracked owner q)
  pub placed :
      (q : Ptr)
      → q ≢ null
      → tracked owner q ≢ null
      → (leases.objects (leases.tenants (tracked owner q)).object).address ≡ q

-- The object, the policy and the tenant are among the blocks.
pub parts-tenant : (leases : Leases) (t : Ptr) → is_live t (parts leases t) ≡ true
unfolding parts is_live
parts-tenant leases t =
    elim (Bool-cases (is_owned (leases.policies (leases.tenants t).policy).contract)) [
      | inl own ↦ rw own (ground arith)
      | inr other ↦ rw other (ground arith)
    ]

pub parts-object :
    (leases : Leases) (t : Ptr) → is_live (leases.tenants t).object (parts leases t) ≡ true
unfolding parts is_live
parts-object leases t =
    elim (Bool-cases (is_owned (leases.policies (leases.tenants t).policy).contract)) [
      | inl own ↦ rw own (ground arith)
      | inr other ↦ rw other (ground arith)
    ]

pub parts-policy :
    (leases : Leases) (t : Ptr) → is_live (leases.tenants t).policy (parts leases t) ≡ true
unfolding parts is_live
parts-policy leases t =
    elim (Bool-cases (is_owned (leases.policies (leases.tenants t).policy).contract)) [
      | inl own ↦ rw own (ground arith)
      | inr other ↦ rw other (ground arith)
    ]

-- A tenant whose blocks are live is the same in a store that extends this one.
pub record IsKept (leases leases' : Leases) (t : Ptr) : Type 0 where
  pub tenant : leases'.tenants t ≡ leases.tenants t
  pub policy :
      leases'.policies (leases.tenants t).policy ≡ leases.policies (leases.tenants t).policy
  pub object : leases'.objects (leases.tenants t).object ≡ leases.objects (leases.tenants t).object

pub Extends-IsKept :
    (leases leases' : Leases) (t : Ptr)
    → Extends leases leases'
    → Live (parts leases t) leases.host.live
    → IsKept leases leases' t
Extends-IsKept leases leases' t extends live = record {
  tenant = extends.tenants t (live t (parts-tenant leases t));
  policy = extends.policies _ (live _ (parts-policy leases t));
  object = extends.objects _ (live _ (parts-object leases t));
}

pub parts-IsKept :
    (leases leases' : Leases) (t : Ptr) → IsKept leases leases' t → parts leases' t ≡ parts leases t
unfolding parts
parts-IsKept leases leases' t kept = rw (kept.tenant, kept.policy, kept.object)

pub IsWhole-IsKept :
    (leases leases' : Leases) (t : Ptr)
    → IsKept leases leases' t
    → IsWhole leases t
    → IsWhole leases' t
IsWhole-IsKept leases leases' t kept whole = record {
  policy = rw (kept.tenant) (whole.policy);
  object = rw (kept.tenant) (whole.object);
  address = rw (kept.tenant, kept.object) (whole.address);
  self = whole.self;
}

-- A registry of blocks that are the same for all tracked addresses.
blocks-IsRegistry :
    (owner : HashMap) (live : List Ptr) (leases leases' : Leases)
    → ((q : Ptr)
        → q ≢ null
        → tracked owner q ≢ null
        → parts leases' (tracked owner q) ≡ parts leases (tracked owner q))
    → IsRegistry (blocks leases) owner live
    → IsRegistry (blocks leases') owner live
blocks-IsRegistry owner live leases leases' same registry = record {
  all_live = λ q some there. rw (same q some there) (registry.all_live q some there);
  apart = λ q some there. rw (same q some there) (registry.apart q some there);
  separate = λ p q b some_p some_q there_p there_q differ h. rw (same q some_q there_q) (
      registry.separate p q b some_p some_q there_p there_q differ
        (rw (same p some_p there_p) at h));
}

-- An owner outlasts what extends the store.
pub IsOwner-Extends :
    (owner : HashMap) (leases leases' : Leases)
    → IsOwner owner leases
    → Extends leases leases'
    → Live leases.host.live leases'.host.live
    → IsFresh leases'.host
    → IsOwner owner leases'
IsOwner-Extends owner leases leases' is extends grown fresh =
    let kept = λ (q : Ptr) (some : q ≢ null) (there : tracked owner q ≢ null).
      Extends-IsKept leases leases' (tracked owner q) extends (is.registry.all_live q some there) in
    record {
      valid = is.valid;
      fresh = fresh;
      registry =
          keep-IsRegistry (blocks leases') owner owner leases.host.live leases'.host.live
            (blocks-IsRegistry owner leases.host.live leases leases'
              (λ q some there. parts-IsKept leases leases' (tracked owner q) (kept q some there))
              is.registry)
            (λ q some. refl) grown;
      whole = λ q some there.
          IsWhole-IsKept leases leases' (tracked owner q) (kept q some there)
            (is.whole q some there);
      placed = λ q some there.
          let same = kept q some there in rw (same.tenant, same.object) (is.placed q some there);
    }

-- And a table that tracks the same.
pub IsOwner-same :
    (owner owner' : HashMap) (leases : Leases)
    → IsOwner owner leases
    → IsValid address_type owner'
    → ((q : Ptr) → q ≢ null → tracked owner' q ≡ tracked owner q)
    → IsOwner owner' leases
IsOwner-same owner owner' leases is valid same = record {
  valid = valid;
  fresh = is.fresh;
  registry =
      keep-IsRegistry (blocks leases) owner owner' leases.host.live leases.host.live is.registry
        same (λ b h. h);
  whole = λ q some there. let e = same q some in rw e (is.whole q some (rw e at there));
  placed = λ q some there. let e = same q some in rw e (is.placed q some (rw e at there));
}
