-- ===== src/Allocator/Lease/Creating.antt =====
-- `lease_create_policy`, `lease_create_object` and `lease_create_tenant` of allocator/lease.c.
use mathlib.Core.Bool.{false≢true}
use mathlib.Core.Path.{subst}
use attica.Base.{
  ℕ, ◌≡◌, ◌≢◌, ◌⊎◌, inl, inr, refl, true, false, arith, Ptr, null, List, ◌∷◌, Bool-cases, ◌∙◌, sym,
  ◌==◌,
}
use attica.Memory.{Host, alloc, is_live}
use attica.Memory.Fresh.{IsFresh, alloc-Allocates}
use attica.Allocator.Lease.{
  LeaseAccess, LeaseContract, Leases, create_policy, create_object, create_tenant,
}
use attica.Allocator.Lease.Tenants.{Extends}

-- No record was made.
pub record NotMade (leases : Leases) (r : Ptr × Leases) : Type 0 where
  pub none : r.0 ≡ null
  pub live : r.1.host.live ≡ leases.host.live
  pub fresh : IsFresh r.1.host
  pub extends : Extends leases r.1

-- A record was made, at an address that was not live.
pub record Made (leases : Leases) (r : Ptr × Leases) : Type 0 where
  pub some : r.0 ≢ null
  pub off : is_live r.0 leases.host.live ≡ false
  pub live : r.1.host.live ≡ r.0 ∷ leases.host.live
  pub fresh : IsFresh r.1.host
  pub extends : Extends leases r.1

pub Extends-refl :
    (leases : Leases) (host' : Host) → Extends leases (record leases { host = host' })
Extends-refl leases host' = record {
  policies = λ p h. refl;
  objects = λ p h. refl;
  tenants = λ p h. refl;
}

-- The records do not depend on the system allocator.
pub Extends-host :
    (l l' : Leases) (host' : Host) → Extends l l' → Extends l (record l' { host = host' })
Extends-host l l' host' extends = record {
  policies = extends.policies;
  objects = extends.objects;
  tenants = extends.tenants;
}

pub Extends-trans :
    (l l' l'' : Leases)
    → ((p : Ptr) → is_live p l.host.live ≡ true → is_live p l'.host.live ≡ true)
    → Extends l l'
    → Extends l' l''
    → Extends l l''
Extends-trans l l' l'' grown one two = record {
  policies = λ p h. two.policies p (grown p h) ∙ one.policies p h;
  objects = λ p h. two.objects p (grown p h) ∙ one.objects p h;
  tenants = λ p h. two.tenants p (grown p h) ∙ one.tenants p h;
}

off-other :
    (p q : Ptr) (live : List Ptr)
    → is_live q live ≡ false
    → is_live p live ≡ true
    → (p == q) ≡ false
off-other p q live off on = elim (Bool-cases (p == q)) [
  | inr e ↦ e
  | inl e ↦
      let same : p ≡ q = ground arith in
      absurd (false≢true (sym off ∙ subst (λ x. is_live x live ≡ true) same on))
]

pub same_ptr : (p : Ptr) → (p == p) ≡ true
same_ptr p = ground arith

pub create_policy-Made :
    (access : LeaseAccess) (contract : LeaseContract) (leases : Leases)
    → IsFresh leases.host
    → let r = create_policy access contract leases in
      NotMade leases r
      ⊎ (Made leases r × (r.1.policies r.0 ≡ record { access = access; contract = contract }))
unfolding create_policy
create_policy-Made access contract leases fresh =
    let (policy, host') = alloc 8 4 leases.host in
    elim (alloc-Allocates 8 4 leases.host fresh) [
      | inl refused ↦
          let e : (policy == null) ≡ true = ground (arith, refused.none) in
          rw e (
            inl (record {
              none = refl;
              live = refused.live;
              fresh = refused.fresh;
              extends = Extends-refl leases host';
            }))
      | inr given ↦
          let e : (policy == null) ≡ false = ground (arith, given.some) in
          rw e (
            inr (
              record {
                some = given.some;
                off = given.off;
                live = given.live;
                fresh = given.fresh;
                extends = record {
                  policies =
                      λ p h. let off = off-other p policy leases.host.live given.off h in rw off;
                  objects = λ p h. refl;
                  tenants = λ p h. refl;
                };
              },
              rw (same_ptr policy),
            ))
    ]

pub create_object-Made :
    (address size alignment : ℕ) (leases : Leases)
    → IsFresh leases.host
    → address ≢ null
    → size ≢ 0
    → alignment ≢ 0
    → let r = create_object address size alignment leases in
      NotMade leases r
      ⊎ (Made leases r
          × (r.1.objects r.0 ≡ record { alignment = alignment; size = size; address = address }))
unfolding create_object
create_object-Made address size alignment leases fresh a s l =
    let a0 : (address == null) ≡ false = ground arith in
    let s0 : (size == 0) ≡ false = ground arith in
    let l0 : (alignment == 0) ≡ false = ground arith in
    let (object, host') = alloc 24 8 leases.host in
    elim (alloc-Allocates 24 8 leases.host fresh) [
      | inl refused ↦
          let e : (object == null) ≡ true = ground (arith, refused.none) in
          rw (a0, s0, l0, e)
            (inl (record {
              none = refl;
              live = refused.live;
              fresh = refused.fresh;
              extends = Extends-refl leases host';
            }))
      | inr given ↦
          let e : (object == null) ≡ false = ground (arith, given.some) in
          rw (a0, s0, l0, e)
            (inr (
              record {
                some = given.some;
                off = given.off;
                live = given.live;
                fresh = given.fresh;
                extends = record {
                  policies = λ p h. refl;
                  objects =
                      λ p h. let off = off-other p object leases.host.live given.off h in rw off;
                  tenants = λ p h. refl;
                };
              },
              rw (same_ptr object),
            ))
    ]

pub create_tenant-Made :
    (policy object : Ptr) (leases : Leases)
    → IsFresh leases.host
    → policy ≢ null
    → object ≢ null
    → let r = create_tenant policy object leases in
      NotMade leases r
      ⊎ (Made leases r × (r.1.tenants r.0 ≡ record { policy = policy; object = object }))
unfolding create_tenant
create_tenant-Made policy object leases fresh p o =
    let p0 : (policy == null) ≡ false = ground arith in
    let o0 : (object == null) ≡ false = ground arith in
    let (tenant, host') = alloc 16 8 leases.host in
    elim (alloc-Allocates 16 8 leases.host fresh) [
      | inl refused ↦
          let e : (tenant == null) ≡ true = ground (arith, refused.none) in
          rw (p0, o0, e)
            (inl (record {
              none = refl;
              live = refused.live;
              fresh = refused.fresh;
              extends = Extends-refl leases host';
            }))
      | inr given ↦
          let e : (tenant == null) ≡ false = ground (arith, given.some) in
          rw (p0, o0, e)
            (inr (
              record {
                some = given.some;
                off = given.off;
                live = given.live;
                fresh = given.fresh;
                extends = record {
                  policies = λ p h. refl;
                  objects = λ p h. refl;
                  tenants =
                      λ p h. let off = off-other p tenant leases.host.live given.off h in rw off;
                };
              },
              rw (same_ptr tenant),
            ))
    ]
