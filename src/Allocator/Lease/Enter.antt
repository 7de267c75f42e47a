-- ===== src/Allocator/Lease/Enter.antt =====
-- How a new tenant of allocator/lease.c enters the table of an owner.
use mathlib.Core.Bool.{false≢true}
use mathlib.Core.Path.{subst}
use native.Mathlib.Decide.{ℕ_discrete}
use attica.Base.{
  ℕ, ◌≡◌, ◌≢◌, ◌⊎◌, inl, inr, refl, Bool, true, false, arith, Ptr, null, List, [], ◌∷◌, Bool-cases,
  ◌∙◌, sym, ap, ◌==◌, if◌then◌else◌, Returns,
}
use attica.Memory.{is_live, release}
use attica.Memory.Fresh.{IsFresh}
use attica.Map.Linear.{HashMap, HashMapState, success, is_success}
use attica.Map.Linear as Linear
use attica.Map.Linear.Hash.{address_type}
use attica.Map.Linear.Rehash.{is_success_iff}
use attica.Allocator.Registry.{tracked, HasNoRoom, Registers, insert-Registers}
use attica.Allocator.Registry.Blocks.{
  IsApart, IsUnclaimed, Live, live_behind, released, IsFresh-released, not_live-IsUnclaimed,
  add-IsRegistry,
}
use attica.Allocator.Lease.{LeaseAccess, LeaseContract, Leases, is_owned, enter}
use attica.Allocator.Lease.Tenants.{Extends, parts, free_tenant-released}
use attica.Allocator.Lease.Creating.{Extends-host}
use attica.Map.Linear.Search.{IsValid}
use attica.Allocator.Lease.Internal.{IsTenant, given_up}
use attica.Allocator.Lease.Owner.{blocks, IsOwner, IsOwner-Extends, Extends-IsKept, parts-IsKept}

-- The address is leased now, under these terms; everything else is tracked as before.
pub record Leased (access : LeaseAccess) (contract : LeaseContract) (address size alignment : ℕ)
    (owner : HashMap) (leases : Leases) (tenant : Ptr) (owner' : HashMap) (leases' : Leases)
    : Type 0 where
  pub absent : tracked owner address ≡ null
  pub there : tracked owner' address ≡ tenant
  pub terms : IsTenant access contract address size alignment leases (tenant, leases')
  pub others : (q : Ptr) → q ≢ null → q ≢ address → tracked owner' q ≡ tracked owner q

-- No lease was made: the blocks `left` are live, and all is tracked as before.
pub record NotLeased (left : List Ptr) (owner : HashMap) (leases : Leases) (owner' : HashMap)
    (leases' : Leases) : Type 0 where
  pub live : leases'.host.live ≡ left
  pub same : (q : Ptr) → q ≢ null → tracked owner' q ≡ tracked owner q
  pub extends : Extends leases leases'

module _ (access : LeaseAccess) (contract : LeaseContract) (address size alignment : ℕ)
    (leases : Leases) (tenant : Ptr) (leases' : Leases)
    (terms : IsTenant access contract address size alignment leases (tenant, leases')) where
  abbrev object : Ptr
  object = (leases'.tenants tenant).object

  abbrev policy : Ptr
  policy = (leases'.tenants tenant).policy

  abbrev records : List Ptr
  records = object ∷ policy ∷ tenant ∷ []

  -- The blocks of the new tenant.
  parts-terms : parts leases' tenant ≡ (if is_owned contract then address ∷ records else records)
  unfolding parts
  parts-terms = rw (terms.policy, terms.object)

  records-off : (b : Ptr) → is_live b records ≡ true → is_live b leases.host.live ≡ false
  unfolding is_live
  records-off b h = elim (Bool-cases (object == b)) [
    | inl e ↦ subst (λ x. is_live x leases.host.live ≡ false) (ground arith) terms.off_object
    | inr e ↦ elim (Bool-cases (policy == b)) [
      | inl f ↦ subst (λ x. is_live x leases.host.live ≡ false) (ground arith) terms.off_policy
      | inr f ↦ subst (λ x. is_live x leases.host.live ≡ false) (ground (arith, h)) terms.off_tenant
    ]
  ]

  records-on : (b : Ptr) → is_live b records ≡ true → is_live b leases'.host.live ≡ true
  unfolding is_live
  records-on b h = rw (terms.live) (ground (arith, h))

  grown : Live leases.host.live leases'.host.live
  unfolding is_live
  grown b h = rw (terms.live) (ground (arith, h))

  -- Without the new records the blocks are those of before.
  released-records : (live : List Ptr) → released records (tenant ∷ object ∷ policy ∷ live) ≡ live
  unfolding released release is_live
  released-records live = ground (arith, terms.apart)

  past_records :
      is_live address records ≡ false
      → release address (tenant ∷ object ∷ policy ∷ leases.host.live)
        ≡ tenant ∷ object ∷ policy ∷ release address leases.host.live
  unfolding release is_live
  past_records off = ground (arith, off)

  module _ (a : address ≢ null)
      (live : is_owned contract ≡ true → is_live address leases.host.live ≡ true) where
    address-off : is_owned contract ≡ true → is_live address records ≡ false
    address-off own = elim (Bool-cases (is_live address records)) [
      | inr off ↦ off
      | inl on ↦ absurd (false≢true (sym (records-off address on) ∙ live own))
    ]

    parts-IsApart : IsApart (parts leases' tenant)
    parts-IsApart = elim (Bool-cases (is_owned contract)) [
      | inl own ↦ rw (parts-terms, own) (a, address-off own, terms.apart)
      | inr other ↦ rw (parts-terms, other) (terms.apart)
    ]

    parts-Live : Live (parts leases' tenant) leases'.host.live
    parts-Live b = elim (Bool-cases (is_owned contract)) [
      | inl own ↦
          rw (parts-terms, own)
            (λ h. elim (Bool-cases (address == b)) [
              | inl e ↦
                  subst (λ x. is_live x leases'.host.live ≡ true) (ground arith)
                    (grown address (live own))
              | inr e ↦ records-on b (live_behind address b records e h)
            ])
      | inr other ↦ rw (parts-terms, other) (records-on b)
    ]

    -- What is live after the tenant is freed again.
    parts-released :
        released (parts leases' tenant) leases'.host.live
        ≡ given_up contract address leases.host.live
    unfolding released release
    parts-released = elim (Bool-cases (is_owned contract)) [
      | inl own ↦
          rw (parts-terms, own, terms.live)
            (ap (released records) (past_records (address-off own))
              ∙ released-records (release address leases.host.live))
      | inr other ↦ rw (parts-terms, other, terms.live) (released-records leases.host.live)
    ]

    module _ (granted : Bool) (owner : HashMap) (is : IsOwner owner leases)
        (unclaimed : is_owned contract ≡ true → IsUnclaimed (blocks leases) owner address) where
      abbrev inserted : HashMapState × HashMap
      inserted = Linear.insert address_type granted address tenant owner

      registers : Registers (HasNoRoom granted owner address) owner address tenant inserted
      registers = insert-Registers granted address tenant owner is.valid a

      before : IsOwner owner leases'
      before = IsOwner-Extends owner leases leases' is terms.extends grown terms.fresh

      still-IsUnclaimed :
          (b : Ptr) → IsUnclaimed (blocks leases) owner b → IsUnclaimed (blocks leases') owner b
      still-IsUnclaimed b free q some there =
          let kept =
            Extends-IsKept leases leases' (tracked owner q) terms.extends
              (is.registry.all_live q some there) in
          rw (parts-IsKept leases leases' (tracked owner q) kept) (free q some there)

      records-IsUnclaimed :
          (b : Ptr) → is_live b records ≡ true → IsUnclaimed (blocks leases') owner b
      records-IsUnclaimed b h = still-IsUnclaimed b (
          not_live-IsUnclaimed (blocks leases) owner leases.host.live b is.registry
            (records-off b h))

      -- No tracked address has a block of the new tenant.
      parts-IsUnclaimed :
          (b : Ptr) → is_live b (parts leases' tenant) ≡ true → IsUnclaimed (blocks leases') owner b
      parts-IsUnclaimed b = elim (Bool-cases (is_owned contract)) [
        | inl own ↦
            rw (parts-terms, own)
              (λ h. elim (Bool-cases (address == b)) [
                | inl e ↦
                    let same : address ≡ b = ground arith in
                    subst (IsUnclaimed (blocks leases') owner) same
                      (still-IsUnclaimed address (unclaimed own))
                | inr e ↦ records-IsUnclaimed b (live_behind address b records e h)
              ])
        | inr other ↦ rw (parts-terms, other) (records-IsUnclaimed b)
      ]

      entered-IsOwner : inserted.0 ≡ success → IsOwner inserted.1 leases'
      entered-IsOwner done = record {
        valid = registers.valid;
        fresh = terms.fresh;
        registry =
            add-IsRegistry (blocks leases') owner inserted.1 leases'.host.live leases'.host.live
              address tenant before.registry (registers.added done) (registers.others done)
              parts-IsApart parts-Live parts-IsUnclaimed (λ b h. h);
        whole = λ q some there. elim (ℕ_discrete q address) [
          | yes e ↦ rw (e, registers.added done) (terms.whole)
          | no away ↦
              let same = registers.others done q some away in
              rw same (before.whole q some (rw same at there))
        ];
        placed = λ q some there. elim (ℕ_discrete q address) [
          | yes e ↦ rw (e, registers.added done, terms.object)
          | no away ↦
              let same = registers.others done q some away in
              rw same (before.placed q some (rw same at there))
        ];
      }

      entered-Leased :
          inserted.0 ≡ success
          → Leased access contract address size alignment owner leases tenant inserted.1 leases'
      entered-Leased done = record {
        absent = registers.absent done;
        there = registers.added done;
        terms = terms;
        others = registers.others done;
      }

      abbrev freed : Leases
      freed = record leases' {
        host = record leases'.host { live = released (parts leases' tenant) leases'.host.live };
      }

      freed-Extends : Extends leases freed
      freed-Extends = Extends-host leases leases' freed.host terms.extends

      freed-NotLeased :
          inserted.0 ≢ success
          → NotLeased (given_up contract address leases.host.live) owner leases inserted.1 freed
      freed-NotLeased failed = record {
        live = parts-released;
        same = registers.kept failed;
        extends = freed-Extends;
      }

      -- `enter` never faults: the address is leased, or the tenant is freed again with its blocks.
      pub enter-Leased :
          Returns (enter granted address tenant owner leases') λ (r : Ptr × HashMap × Leases).
            ((r.0 ≡ address)
              × (¬ HasNoRoom granted owner address)
              × IsOwner r.1 r.2
              × Leased access contract address size alignment owner leases tenant r.1 r.2)
            ⊎ ((r.0 ≡ null)
                × ((tracked owner address ≡ null) → HasNoRoom granted owner address)
                × IsValid address_type r.1
                × IsFresh r.2.host
                × NotLeased (given_up contract address leases.host.live) owner leases r.1 r.2)
      unfolding enter
      enter-Leased = elim (Bool-cases (is_success inserted.0)) [
        | inl good ↦
            let done = (is_success_iff inserted.0).0 good in
            (
              (address, inserted.1, leases'),
              rw good,
              inl (
                refl,
                λ why. (registers.refuses terms.whole.self (registers.absent done)).1 why done,
                entered-IsOwner done,
                entered-Leased done,
              ),
            )
        | inr bad ↦
            let failed = λ (h : inserted.0 ≡ success).
              false≢true (sym bad ∙ (is_success_iff inserted.0).1 h) in
            (
              (null, inserted.1, freed),
              rw (bad, free_tenant-released leases' tenant terms.whole parts-IsApart parts-Live),
              inr (
                refl,
                λ none. (registers.refuses terms.whole.self none).0 failed,
                registers.valid,
                IsFresh-released (parts leases' tenant) leases'.host terms.fresh,
                freed-NotLeased failed,
              ),
            )
      ]
