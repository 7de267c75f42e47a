-- ===== src/Allocator/Lease/Internal.antt =====
-- `lease_alloc_internal` of allocator/lease.c.
use attica.Base.{
  ℕ, ◌≡◌, ◌≢◌, ◌⊎◌, inl, inr, refl, true, false, arith, Ptr, null, List, [], ◌∷◌, Bool-cases, ◌∙◌,
  ap, ◌==◌, if◌then◌else◌, Returns, ok, ◌>>=◌,
}
use attica.Memory.{is_live, release}
use attica.Memory.Fresh.{release_first, IsFresh, IsFresh-release, release_behind}
use attica.Allocator.Registry.Blocks.{IsApart, live_head, live_tail}
use attica.Allocator.Lease.{
  LeaseAccess, LeaseContract, Leases, is_owned, create_policy, create_object, create_tenant,
  release_at, free_policy, free_object, finish_tenant, alloc_internal,
}
use attica.Allocator.Lease.Tenants.{Extends, IsWhole, release_at-live}
use attica.Allocator.Lease.Creating.{
  NotMade, Made, Extends-host, Extends-trans, create_policy-Made, create_object-Made,
  create_tenant-Made,
}

-- What the blocks are once the address of an owned lease is freed.
abbrev pub given_up : LeaseContract → Ptr → List Ptr → List Ptr
given_up contract address live = if is_owned contract then release address live else live

-- There is no memory for the object or for the tenant, once there is a policy.
abbrev pub LacksParts : (policy : Ptr) (address size alignment : ℕ) → Leases → Type 0
LacksParts policy address size alignment leases =
    let (object, with_object) = create_object address size alignment leases in
    (object ≡ null) ⊎ ((create_tenant policy object with_object).0 ≡ null)

-- No tenant: the blocks `left` are live, and the records are those of before.
pub record NoTenant (left : List Ptr) (leases : Leases) (r : Ptr × Leases) : Type 0 where
  pub none : r.0 ≡ null
  pub live : r.1.host.live ≡ left
  pub fresh : IsFresh r.1.host
  pub extends : Extends leases r.1

-- A tenant of three new blocks that say what was asked for.
pub record IsTenant (access : LeaseAccess) (contract : LeaseContract) (address size alignment : ℕ)
    (leases : Leases) (r : Ptr × Leases) : Type 0 where
  pub whole : IsWhole r.1 r.0
  pub policy :
      r.1.policies (r.1.tenants r.0).policy ≡ record { access = access; contract = contract }
  pub object :
      r.1.objects (r.1.tenants r.0).object
      ≡ record { alignment = alignment; size = size; address = address }
  pub live :
      r.1.host.live ≡ r.0 ∷ (r.1.tenants r.0).object ∷ (r.1.tenants r.0).policy ∷ leases.host.live
  pub off_tenant : is_live r.0 leases.host.live ≡ false
  pub off_object : is_live (r.1.tenants r.0).object leases.host.live ≡ false
  pub off_policy : is_live (r.1.tenants r.0).policy leases.host.live ≡ false
  pub apart : IsApart ((r.1.tenants r.0).object ∷ (r.1.tenants r.0).policy ∷ r.0 ∷ [])
  pub fresh : IsFresh r.1.host
  pub extends : Extends leases r.1

module _ (access : LeaseAccess) (contract : LeaseContract) (address size alignment : ℕ)
    (leases : Leases) (fresh : IsFresh leases.host) (a : address ≢ null) (s : size ≢ 0)
    (l : alignment ≢ 0)
    (live : is_owned contract ≡ true → is_live address leases.host.live ≡ true) where
  abbrev Answers : (policy : Ptr) → Leases → Ptr × Leases → Type 0
  Answers policy l₁ r =
      (LacksParts policy address size alignment l₁
        × NoTenant (given_up contract address leases.host.live) leases r)
      ⊎ IsTenant access contract address size alignment leases r

  module _ (policy : Ptr) (l₁ : Leases) (made : Made leases (policy, l₁))
      (says : l₁.policies policy ≡ record { access = access; contract = contract }) where
    -- What is left when the policy is freed.
    freed_policy :
        (left : List Ptr) (l' : Leases)
        → l'.host.live ≡ policy ∷ left
        → IsFresh l'.host
        → Extends leases l'
        → Returns {A = Ptr × Leases}
            (do l'' ← free_policy policy l'; ok (null, l''))
            (λ r. NoTenant left leases r)
    unfolding free_policy
    freed_policy left l' held fresh' extends =
        let p0 : (policy == null) ≡ false = ground (arith, made.some) in
        let on : is_live policy l'.host.live ≡ true = rw held (live_head policy left) in
        let after = record l' { host = record l'.host { live = release policy l'.host.live } } in
        (
          (null, after),
          rw (p0, release_at-live policy l' made.some on),
          record {
            none = refl;
            live = ap (release policy) held ∙ release_first policy left;
            fresh = IsFresh-release policy l'.host fresh';
            extends = Extends-host leases l' after.host extends;
          },
        )

    -- The object was refused.
    without_object :
        (l₂ : Leases)
        → NotMade l₁ (null, l₂)
        → Returns {A = Ptr × Leases}
            (if is_owned (l₂.policies policy).contract
              then (do l' ← release_at address l₂; l'' ← free_policy policy l'; ok (null, l''))
              else (do l'' ← free_policy policy l₂; ok (null, l'')))
            (λ r. NoTenant (given_up contract address leases.host.live) leases r)
    without_object l₂ missing =
        let held : l₂.host.live ≡ policy ∷ leases.host.live = missing.live ∙ made.live in
        let on_policy : is_live policy l₁.host.live ≡ true =
          rw (made.live) (live_head policy leases.host.live) in
        let terms : l₂.policies policy ≡ record { access = access; contract = contract } =
          missing.extends.policies policy on_policy ∙ says in
        let extends : Extends leases l₂ =
          Extends-trans leases l₁ l₂ (λ p h. rw (made.live) (live_tail policy p leases.host.live h))
            made.extends missing.extends in
        elim (Bool-cases (is_owned contract)) [
          | inl own ↦
              let on : is_live address l₂.host.live ≡ true =
                rw held (live_tail policy address leases.host.live (live own)) in
              let after = record l₂ {
                host = record l₂.host { live = release address l₂.host.live };
              } in
              let left : after.host.live ≡ policy ∷ release address leases.host.live =
                rw held (release_behind policy address leases.host.live made.off (live own)) in
              rw (terms, own, release_at-live address l₂ a on)
                (freed_policy (release address leases.host.live) after left
                  (IsFresh-release address l₂.host missing.fresh)
                  (Extends-host leases l₂ after.host extends))
          | inr other ↦
              rw (terms, other) (freed_policy leases.host.live l₂ held missing.fresh extends)
        ]

    module _ (object : Ptr) (l₂ : Leases) (made' : Made l₁ (object, l₂))
        (tells : l₂.objects object
          ≡ record { alignment = alignment; size = size; address = address }) where
      extends₂ : Extends leases l₂
      extends₂ =
          Extends-trans leases l₁ l₂ (λ p h. rw (made.live) (live_tail policy p leases.host.live h))
            made.extends made'.extends

      held₂ : l₂.host.live ≡ object ∷ policy ∷ leases.host.live
      held₂ = made'.live ∙ ap (λ r. object ∷ r) made.live

      on_policy : is_live policy l₁.host.live ≡ true
      on_policy = rw (made.live) (live_head policy leases.host.live)

      off_both : is_live object (policy ∷ leases.host.live) ≡ false
      off_both = rw (made.live) at (made'.off)

      apart_object : (is_live object leases.host.live ≡ false) × (object ≢ policy)
      unfolding is_live
      apart_object = ground (arith, off_both)

      -- The tenant was refused.
      without_tenant :
          (l₃ : Leases)
          → NotMade l₂ (null, l₃)
          → Returns {A = Ptr × Leases}
              (do l' ← free_object policy object l₃; l'' ← free_policy policy l'; ok (null, l''))
              (λ r. NoTenant (given_up contract address leases.host.live) leases r)
      unfolding free_object
      without_tenant l₃ missing =
          let held : l₃.host.live ≡ object ∷ policy ∷ leases.host.live = missing.live ∙ held₂ in
          let on_object : is_live object l₂.host.live ≡ true =
            rw (made'.live) (live_head object l₁.host.live) in
          let terms : l₃.policies policy ≡ record { access = access; contract = contract } =
            missing.extends.policies policy
              (rw (made'.live) (live_tail object policy l₁.host.live on_policy))
            ∙ made'.extends.policies policy on_policy
            ∙ says in
          let place : l₃.objects object
              ≡ record { alignment = alignment; size = size; address = address } =
            missing.extends.objects object on_object ∙ tells in
          let extends : Extends leases l₃ =
            Extends-trans leases l₂ l₃
              (λ p h. rw held₂ (
                live_tail object p (policy ∷ leases.host.live)
                  (live_tail policy p leases.host.live h)))
              extends₂ missing.extends in
          let p0 : (policy == null) ≡ false = ground (arith, made.some) in
          let o0 : (object == null) ≡ false = ground (arith, made'.some) in
          let a0 : (address == null) ≡ false = ground (arith, a) in
          elim (Bool-cases (is_owned contract)) [
            | inl own ↦
                let on : is_live address l₃.host.live ≡ true = rw held (
                  live_tail object address (policy ∷ leases.host.live)
                    (live_tail policy address leases.host.live (live own))) in
                let first = record l₃ {
                  host = record l₃.host { live = release address l₃.host.live };
                } in
                let left : first.host.live ≡ object ∷ policy ∷ release address leases.host.live =
                  rw held (
                    release_behind object address (policy ∷ leases.host.live) off_both
                      (live_tail policy address leases.host.live (live own))
                    ∙ ap (λ r. object ∷ r)
                        (release_behind policy address leases.host.live made.off (live own))) in
                let second = record first {
                  host = record first.host { live = release object first.host.live };
                } in
                let on' : is_live object first.host.live ≡ true = rw left (live_head object _) in
                rw
                  (
                    p0,
                    o0,
                    terms,
                    place,
                    a0,
                    own,
                    release_at-live address l₃ a on,
                    release_at-live object first made'.some on',
                  )
                  (freed_policy (release address leases.host.live) second
                    (ap (release object) left ∙ release_first object _)
                    (IsFresh-release object first.host
                      (IsFresh-release address l₃.host missing.fresh))
                    (Extends-host leases l₃ second.host extends))
            | inr other ↦
                let on : is_live object l₃.host.live ≡ true = rw held (live_head object _) in
                let first = record l₃ {
                  host = record l₃.host { live = release object l₃.host.live };
                } in
                rw (p0, o0, terms, place, a0, other, release_at-live object l₃ made'.some on)
                  (freed_policy leases.host.live first
                    (ap (release object) held ∙ release_first object _)
                    (IsFresh-release object l₃.host missing.fresh)
                    (Extends-host leases l₃ first.host extends))
          ]

      -- The tenant was made.
      module _ (tenant : Ptr) (l₃ : Leases) (made'' : Made l₂ (tenant, l₃))
          (joins : l₃.tenants tenant ≡ record { policy = policy; object = object }) where
        apart_tenant :
            (is_live tenant leases.host.live ≡ false) × (tenant ≢ policy) × (tenant ≢ object)
        unfolding is_live
        apart_tenant =
            let off : is_live tenant (object ∷ policy ∷ leases.host.live) ≡ false =
              rw held₂ at (made''.off) in
            ground (arith, off)

        with_tenant : IsTenant access contract address size alignment leases (tenant, l₃)
        unfolding is_live
        with_tenant =
            let held : l₃.host.live ≡ tenant ∷ object ∷ policy ∷ leases.host.live =
              made''.live ∙ ap (λ r. tenant ∷ r) held₂ in
            let on_object : is_live object l₂.host.live ≡ true =
              rw (made'.live) (live_head object l₁.host.live) in
            let terms : l₃.policies policy ≡ record { access = access; contract = contract } =
              made''.extends.policies policy
                (rw (made'.live) (live_tail object policy l₁.host.live on_policy))
              ∙ made'.extends.policies policy on_policy
              ∙ says in
            let place : l₃.objects object
                ≡ record { alignment = alignment; size = size; address = address } =
              made''.extends.objects object on_object ∙ tells in
            record {
              whole = record {
                policy = rw joins (made.some);
                object = rw joins (made'.some);
                address = rw (joins, place) a;
                self = made''.some;
              };
              policy = rw joins terms;
              object = rw joins place;
              live = rw joins held;
              off_tenant = apart_tenant.0;
              off_object = rw joins (apart_object.0);
              off_policy = rw joins (made.off);
              apart = rw joins (
                made'.some,
                ground (arith, apart_object.1, apart_tenant),
                (made.some, ground (arith, apart_tenant), (made''.some, refl, tt)),
              );
              fresh = made''.fresh;
              extends =
                  Extends-trans leases l₂ l₃
                    (λ p h. rw held₂ (
                      live_tail object p (policy ∷ leases.host.live)
                        (live_tail policy p leases.host.live h)))
                    extends₂ made''.extends;
            }

  finish_tenant-Answers :
      (policy : Ptr) (l₁ : Leases)
      → Made leases (policy, l₁)
      → l₁.policies policy ≡ record { access = access; contract = contract }
      → Returns (finish_tenant policy address size alignment l₁) (Answers policy l₁)
  unfolding finish_tenant
  finish_tenant-Answers policy l₁ made says =
      let (object, l₂) = create_object address size alignment l₁ in
      let (tenant, l₃) = create_tenant policy object l₂ in
      elim (create_object-Made address size alignment l₁ made.fresh a s l) [
        | inl missing ↦
            let o0 : (object == null) ≡ true = ground (arith, missing.none) in
            let (r, e, none) = without_object policy l₁ made says l₂ (record {
              none = refl;
              live = missing.live;
              fresh = missing.fresh;
              extends = missing.extends;
            }) in
            (r, rw o0 e, inl (inl missing.none, none))
        | inr (made', tells) ↦
            let o0 : (object == null) ≡ false = ground (arith, made'.some) in
            elim (create_tenant-Made policy object l₂ made'.fresh made.some made'.some) [
              | inl missing ↦
                  let t0 : (tenant == null) ≡ true = ground (arith, missing.none) in
                  let (r, e, none) =
                    without_tenant policy l₁ made says object l₂ made' tells l₃ (record {
                      none = refl;
                      live = missing.live;
                      fresh = missing.fresh;
                      extends = missing.extends;
                    }) in
                  (r, rw (o0, t0) e, inl (inr missing.none, none))
              | inr (made'', joins) ↦
                  let t0 : (tenant == null) ≡ false = ground (arith, made''.some) in
                  (
                    (tenant, l₃),
                    rw (o0, t0),
                    inr (
                        with_tenant policy l₁ made says object l₂ made' tells tenant l₃ made''
                          joins),
                  )
            ]
      ]

  -- `lease_alloc_internal` never faults. Without a policy nothing changes, and the address of an owned lease stays
  -- allocated. Otherwise all that was allocated is freed again, with the address if the lease is owned, or there
  -- is a tenant of three new blocks that say what was asked for.
  pub alloc_internal-IsTenant :
      Returns (alloc_internal access contract address size alignment leases) λ r.
        let (policy, l₁) = create_policy access contract leases in
        ((policy ≡ null) × NoTenant leases.host.live leases r)
        ⊎ ((policy ≢ null) × Answers policy l₁ r)
  unfolding alloc_internal
  alloc_internal-IsTenant =
      let (policy, l₁) = create_policy access contract leases in
      elim (create_policy-Made access contract leases fresh) [
        | inl missing ↦
            let p0 : (policy == null) ≡ true = ground (arith, missing.none) in
            (
              (null, l₁),
              rw p0,
              inl (
                missing.none,
                record {
                  none = refl;
                  live = missing.live;
                  fresh = missing.fresh;
                  extends = missing.extends;
                },
              ),
            )
        | inr (made, says) ↦
            let p0 : (policy == null) ≡ false = ground (arith, made.some) in
            let (r, e, answers) = finish_tenant-Answers policy l₁ made says in
            (r, rw p0 e, inr (made.some, answers))
      ]
