-- ===== src/Allocator/Lease/Transfer.antt =====
-- `lease_transfer` of allocator/lease.c.
use mathlib.Core.Bool.{false≢true}
use native.Mathlib.Decide.{ℕ_discrete}
use attica.Base.{
  ◌≡◌, ◌≢◌, inl, inr, refl, Bool, true, false, arith, Ptr, null, Bool-cases, ◌∙◌, sym, ◌==◌,
}
use attica.Memory.{is_live}
use attica.Map.Linear.{HashMap, HashMapState, success, error, key_exists, key_not_found, is_success}
use attica.Map.Linear as Linear
use attica.Map.Linear.Hash.{address_type}
use attica.Map.Linear.Ring.{IsStraight}
use attica.Map.Linear.Rehash.{is_success_iff}
use attica.Allocator.Registry.{tracked, HasNoRoom, Registers, insert-Registers}
use attica.Allocator.Registry.Blocks.{IsUnclaimed, add-IsRegistry}
use attica.Allocator.Lease.{Leases, get_tenant, transfer}
use attica.Allocator.Lease.Tenants.{parts}
use attica.Allocator.Lease.Owner.{blocks, IsOwner, IsOwner-same}
use attica.Allocator.Lease.Ending.{IsClearOwner, rest, unregisters, deleted, rest-IsOwner}

-- What a transfer leaves of the two owners: the address is not tracked by the first one, and everything
-- else is tracked as before.
pub record Leaves (address : Ptr) (from to from' to' : HashMap) (leases : Leases) : Type 0 where
  pub from-IsOwner : IsOwner from' leases
  pub to-IsOwner : IsOwner to' leases
  pub gone : tracked from' address ≡ null
  pub from_others : (q : Ptr) → q ≢ null → q ≢ address → tracked from' q ≡ tracked from q
  pub to_others : (q : Ptr) → q ≢ null → q ≢ address → tracked to' q ≡ tracked to q

-- What `lease_transfer` may lead to.
pub data Transfers (granted : Bool) (address : Ptr) (from to : HashMap) (leases : Leases)
    (r : HashMapState × HashMap × HashMap) : Type 0 where
  unknown :
      tracked from address ≡ null
      → r ≡ (key_not_found, from, to)
      → Transfers granted address from to leases r
  twice :
      tracked from address ≢ null
      → tracked to address ≢ null
      → r ≡ (key_exists, from, to)
      → Transfers granted address from to leases r
  moved :
      r.0 ≡ success
      → tracked from address ≢ null
      → ¬ HasNoRoom granted to address
      → tracked r.2 address ≡ tracked from address
      → Leaves address from to r.1 r.2 leases
      → Transfers granted address from to leases r
  lost :
      r.0 ≡ error
      → tracked from address ≢ null
      → HasNoRoom granted to address
      → tracked r.2 address ≡ null
      → Leaves address from to r.1 r.2 leases
      → Transfers granted address from to leases r

module _ (granted : Bool) (address : Ptr) (from to : HashMap) (leases : Leases)
    (is : IsOwner from leases) (clear : IsClearOwner from)
    (line : IsStraight address_type from.size address) (some : address ≢ null)
    (there : tracked from address ≢ null) (is' : IsOwner to leases)
    (apart : (b : Ptr)
      → is_live b (parts leases (tracked from address)) ≡ true
      → IsUnclaimed (blocks leases) to b) where
  abbrev tenant : Ptr
  tenant = tracked from address

  abbrev from' : HashMap
  from' = rest address from leases is clear line some there

  abbrev inserted : HashMapState × HashMap
  inserted = Linear.insert address_type granted address tenant to

  registers : Registers (HasNoRoom granted to address) to address tenant inserted
  registers = insert-Registers granted address tenant to is'.valid some

  others : (q : Ptr) → q ≢ null → q ≢ address → tracked from' q ≡ tracked from q
  others =
      (unregisters address from leases is clear line some there).others
        (deleted address from leases is clear line some there)

  gone : tracked from' address ≡ null
  gone =
      (unregisters address from leases is clear line some there).removed
        (deleted address from leases is clear line some there)

  -- The second owner with the lease.
  entered-IsOwner : inserted.0 ≡ success → IsOwner inserted.1 leases
  entered-IsOwner done = record {
    valid = registers.valid;
    fresh = is'.fresh;
    registry =
        add-IsRegistry (blocks leases) to inserted.1 leases.host.live leases.host.live address
          tenant is'.registry (registers.added done) (registers.others done)
          (is.registry.apart address some there) (is.registry.all_live address some there) apart
          (λ b h. h);
    whole = λ q some_q there_q. elim (ℕ_discrete q address) [
      | yes e ↦ rw (e, registers.added done) (is.whole address some there)
      | no away ↦
          let same = registers.others done q some_q away in
          rw same (is'.whole q some_q (rw same at there_q))
    ];
    placed = λ q some_q there_q. elim (ℕ_discrete q address) [
      | yes e ↦ rw (e, registers.added done) (is.placed address some there)
      | no away ↦
          let same = registers.others done q some_q away in
          rw same (is'.placed q some_q (rw same at there_q))
    ];
  }

  moved-Leaves : inserted.0 ≡ success → Leaves address from to from' inserted.1 leases
  moved-Leaves done = record {
    from-IsOwner = rest-IsOwner address from leases is clear line some there;
    to-IsOwner = entered-IsOwner done;
    gone = gone;
    from_others = others;
    to_others = registers.others done;
  }

  lost-Leaves : inserted.0 ≢ success → Leaves address from to from' inserted.1 leases
  lost-Leaves failed = record {
    from-IsOwner = rest-IsOwner address from leases is clear line some there;
    to-IsOwner = IsOwner-same to inserted.1 leases is' registers.valid (registers.kept failed);
    gone = gone;
    from_others = others;
    to_others = λ q some_q away. registers.kept failed q some_q;
  }

-- `lease_transfer` between two owners whose leases share no block changes nothing if the address is not tracked by the first owner, or is by the
-- second. Otherwise the first owner does not track it any more, and the second owner tracks the same tenant, or, exactly if its table has no room (it is heavy and cannot be doubled, or no probe meets an empty slot),
-- the answer is ERROR and neither owner tracks the tenant, none of whose blocks is freed. All else stays.
pub transfer-Transfers :
    (granted : Bool) (address : Ptr) (from to : HashMap) (leases : Leases)
    → IsOwner from leases
    → IsOwner to leases
    → IsClearOwner from
    → IsStraight address_type from.size address
    → address ≢ null
    → ((b : Ptr)
        → is_live b (parts leases (tracked from address)) ≡ true
        → IsUnclaimed (blocks leases) to b)
    → Transfers granted address from to leases (transfer granted address from to)
unfolding transfer get_tenant
transfer-Transfers granted address from to leases is is' clear line some apart =
    let a0 : (address == null) ≡ false = ground arith in
    elim (Bool-cases (tracked from address == null)) [
      | inl none ↦ rw (a0, none) (unknown (ground arith) refl)
      | inr held ↦
          let there : tracked from address ≢ null = ground arith in
          elim (Bool-cases (tracked to address == null)) [
            | inr known ↦ rw (a0, held, known) (twice there (ground arith) refl)
            | inl free ↦
                let good =
                  (is_success_iff _).1 (deleted address from leases is clear line some there) in
                let (state, to') =
                  inserted granted address from to leases is clear line some there is' apart in
                let r =
                  registers granted address from to leases is clear line some there is' apart in
                elim (Bool-cases (is_success state)) [
                  | inl done ↦
                      let done' = (is_success_iff state).0 done in
                      rw (a0, held, free, good, done)
                        (moved refl there
                          (λ why. absurd ((r.refuses there (ground arith)).1 why done'))
                          (r.added done')
                          (moved-Leaves granted address from to leases is clear line some there is'
                            apart done'))
                  | inr bad ↦
                      let failed = λ (h : state ≡ success).
                        false≢true (sym bad ∙ (is_success_iff state).1 h) in
                      rw (a0, held, free, good, bad)
                        (lost refl there ((r.refuses there (ground arith)).0 failed)
                          (r.kept failed address some ∙ ground arith)
                          (lost-Leaves granted address from to leases is clear line some there is'
                            apart failed))
                ]
          ]
    ]
