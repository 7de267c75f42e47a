-- ===== src/Allocator/Lease/Tenants.antt =====
-- The tenants of allocator/lease.c: `lease_alloc_internal` and `lease_free_tenant`.
use mathlib.Core.Bool.{false≢true}
use mathlib.Core.Path.{subst}
use attica.Base.{
  ◌≡◌, ◌≢◌, inl, inr, refl, true, false, arith, Ptr, null, List, [], ◌∷◌, Bool-cases, ◌∙◌, sym, ap,
  ◌==◌, if◌then◌else◌, Run, ok, fault, ◌>>=◌,
}
use attica.Memory.{is_live, release}
use attica.Memory.Fresh.{mem_free-live, is_live-release_ne}
use attica.Allocator.Registry.Blocks.{IsApart, Live, live_head, live_tail, released}
use attica.Allocator.Lease.{Leases, is_owned, release_at, free_policy, free_object, free_tenant}

-- The records of what is live are those of before.
pub record Extends (leases leases' : Leases) : Type 0 where
  pub policies :
      (p : Ptr) → is_live p leases.host.live ≡ true → leases'.policies p ≡ leases.policies p
  pub objects : (p : Ptr) → is_live p leases.host.live ≡ true → leases'.objects p ≡ leases.objects p
  pub tenants : (p : Ptr) → is_live p leases.host.live ≡ true → leases'.tenants p ≡ leases.tenants p

-- The blocks of a tenant, in the order in which they are freed.
unfoldable pub parts : Leases → (tenant : Ptr) → List Ptr
parts leases tenant =
    let policy = (leases.tenants tenant).policy in
    let object = (leases.tenants tenant).object in
    let rest = object ∷ policy ∷ tenant ∷ [] in
    if is_owned (leases.policies policy).contract
    then (leases.objects object).address ∷ rest
    else rest

-- A tenant with a policy, an object, and an address in it.
pub record IsWhole (leases : Leases) (tenant : Ptr) : Type 0 where
  pub policy : (leases.tenants tenant).policy ≢ null
  pub object : (leases.tenants tenant).object ≢ null
  pub address : (leases.objects (leases.tenants tenant).object).address ≢ null
  pub self : tenant ≢ null

-- A call after two calls in a row.
>>=_assoc {ℓ} :
    {A B C : Type ℓ} (r : Run A) (f : A → Run B) (g : B → Run C)
    → ((r >>= f) >>= g) ≡ (r >>= λ x. f x >>= g)
>>=_assoc fault f g = refl
>>=_assoc (ok x) f g = refl

>>=-ok {ℓ} : {A : Type ℓ} (r : Run A) → (r >>= λ x. ok x) ≡ r
>>=-ok fault = refl
>>=-ok (ok x) = refl

-- Blocks are freed one by one.
unfoldable pub free_each : List Ptr → Leases → Run Leases
free_each [] leases = ok leases
free_each (p ∷ ps) leases = do leases' ← release_at p leases; free_each ps leases'

-- `lease_free_tenant` frees the blocks of the tenant, in their order.
free_tenant-parts :
    (leases : Leases) (tenant : Ptr)
    → IsWhole leases tenant
    → free_tenant tenant leases ≡ free_each (parts leases tenant) leases
unfolding free_tenant free_object free_policy parts free_each
free_tenant-parts leases tenant whole =
    let policy = (leases.tenants tenant).policy in
    let object = (leases.tenants tenant).object in
    let address = (leases.objects object).address in
    let t : (tenant == null) ≡ false = ground (arith, whole.self) in
    let p : (policy == null) ≡ false = ground (arith, whole.policy) in
    let o : (object == null) ≡ false = ground (arith, whole.object) in
    let a : (address == null) ≡ false = ground (arith, whole.address) in
    let last : (λ (l : Leases). release_at tenant l) ≡ (λ l. release_at tenant l >>= λ x. ok x) =
      λ i l. sym (>>=-ok (release_at tenant l)) i in
    elim (Bool-cases (is_owned (leases.policies policy).contract)) [
      | inl own ↦
          rw (t, p, o, a, own)
            (>>=_assoc (release_at address leases) (λ l. release_at object l)
                (λ l. release_at policy l >>= λ l'. release_at tenant l')
              ∙ ap
                  (λ k. release_at address leases >>= λ l.
                    release_at object l >>= λ l'. release_at policy l' >>= k)
                  last)
      | inr other ↦
          rw (t, p, o, a, other)
            (ap (λ k. release_at object leases >>= λ l'. release_at policy l' >>= k) last)
    ]

-- `memory_free` of a live block.
pub release_at-live :
    (p : Ptr) (leases : Leases)
    → p ≢ null
    → is_live p leases.host.live ≡ true
    → release_at p leases
      ≡ ok (record leases { host = record leases.host { live = release p leases.host.live } })
unfolding release_at
release_at-live p leases some live = rw (mem_free-live p leases.host some live)

free_each-Live :
    (ps : List Ptr) (leases : Leases)
    → IsApart ps
    → Live ps leases.host.live
    → free_each ps leases
      ≡ ok (record leases { host = record leases.host { live = released ps leases.host.live } })
unfolding free_each released
free_each-Live [] leases apart live = refl
free_each-Live (p ∷ ps) leases (some, single, apart) live =
    rw (release_at-live p leases some (live p (live_head p ps))) (
      free_each-Live ps
        (record leases { host = record leases.host { live = release p leases.host.live } }) apart
        (λ b h.
          let away : b ≢ p =
            λ e. false≢true (sym (subst (λ x. is_live x ps ≡ false) (sym e) single) ∙ h) in
          is_live-release_ne p b leases.host.live away ∙ live b (live_tail p b ps h)))

-- `lease_free_tenant` of a whole tenant with live blocks never faults, and frees exactly these blocks.
pub free_tenant-released :
    (leases : Leases) (tenant : Ptr)
    → IsWhole leases tenant
    → IsApart (parts leases tenant)
    → Live (parts leases tenant) leases.host.live
    → free_tenant tenant leases
      ≡ ok (record leases {
        host = record leases.host { live = released (parts leases tenant) leases.host.live };
      })
free_tenant-released leases tenant whole apart live =
    free_tenant-parts leases tenant whole ∙ free_each-Live (parts leases tenant) leases apart live
