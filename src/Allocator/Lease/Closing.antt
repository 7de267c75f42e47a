-- ===== src/Allocator/Lease/Closing.antt =====
-- `lease_free_owner` of allocator/lease.c, up to `hash_map_free`.
use attica.Base.{
  ℕ, suc, ◌≡◌, ◌≢◌, ◌↔◌, Returns, inl, inr, refl, true, arith, Ptr, null, List, [], ◌∷◌, ◌++◌,
  Bool-cases, ◌∙◌, sym, ◌==◌, ◌||◌, ok,
}
use attica.Memory.{is_live}
use attica.Map.Linear.{HashMap, Entry, slot}
use attica.Allocator.Registry.{tracked}
use attica.Allocator.Registry.Blocks.{IsApart, Live, released, is_live-released}
use attica.Allocator.Registry.Every.{
  every, every-Covers, entry-tracked, entry-held, IsApart-split, released-++, live_front, live_rear,
}
use attica.Allocator.Lease.{Leases, free_tenants, free_owner}
use attica.Allocator.Lease.Tenants.{parts, IsWhole, free_tenant-released}
use attica.Allocator.Lease.Owner.{IsOwner, blocks}

-- A store in which only the live blocks differ has the same parts.
every-host :
    (leases : Leases) (live : List Ptr) (entries : List Entry)
    → every (blocks (record leases { host = record leases.host { live = live } })) entries
      ≡ every (blocks leases) entries
unfolding every parts
every-host leases live [] = refl
every-host leases live (entry ∷ entries) = rw (every-host leases live entries) refl

whole_host :
    (leases : Leases) (live : List Ptr) (t : Ptr)
    → IsWhole leases t
    → IsWhole (record leases { host = record leases.host { live = live } }) t
whole_host leases live t w = record {
  policy = w.policy;
  object = w.object;
  address = w.address;
  self = w.self;
}

-- All the entries have whole tenants.
abbrev AllWhole : Leases → List Entry → Type 0
AllWhole leases entries =
    (j : ℕ) → (slot entries j).key ≢ null → IsWhole leases (slot entries j).value

-- The loop of `lease_free_owner` frees these blocks, each once.
free_tenants-released :
    (entries : List Entry) (leases : Leases)
    → AllWhole leases entries
    → IsApart (every (blocks leases) entries)
    → Live (every (blocks leases) entries) leases.host.live
    → free_tenants entries leases
      ≡ ok (record leases {
        host = record leases.host {
          live = released (every (blocks leases) entries) leases.host.live;
        };
      })
unfolding free_tenants every released
free_tenants-released [] leases whole apart live = refl
free_tenants-released (entry ∷ entries) leases whole apart live =
    elim (Bool-cases ((entry.key == null) || (entry.value == null))) [
      | inl skip ↦ rw skip (
          free_tenants-released entries leases (λ j. whole (suc j)) (rw skip at apart)
            (rw skip at live))
      | inr held ↦
          let mine = parts leases entry.value in
          let rest = every (blocks leases) entries in
          let (front, back, off) = IsApart-split mine rest (rw held at apart) in
          let both : Live (mine ++ rest) leases.host.live = rw held at live in
          let after = released mine leases.host.live in
          let some : entry.key ≢ null = ground (arith, held) in
          let freed =
            free_tenant-released leases entry.value (whole 0 some) front
              (λ b h. both b (live_front b mine rest h)) in
          let next =
            free_tenants-released entries
              (record leases { host = record leases.host { live = after } })
              (λ j used. whole_host leases after (slot entries j).value (whole (suc j) used))
              (rw (every-host leases after entries) back)
              (rw (every-host leases after entries) λ b h.
                is_live-released mine b leases.host.live (off b h)
                ∙ both b (live_rear b mine rest h)) in
          let next' = rw (every-host leases after entries) at next in
          rw (held, freed, released-++ mine rest leases.host.live) next'
    ]

-- The blocks of all the tenants are freed, each once: those of the tracked addresses.
pub record Closes (owner : HashMap) (leases leases' : Leases) : Type 0 where
  pub live : leases'.host.live ≡ released (every (blocks leases) owner.entries) leases.host.live
  pub once : IsApart (every (blocks leases) owner.entries)
  pub claimed :
      (b : Ptr)
      → (is_live b (every (blocks leases) owner.entries) ≡ true) ↔ (
          (q : Ptr) × (q ≢ null)
          × (tracked owner q ≢ null)
          × (is_live b (parts leases (tracked owner q)) ≡ true))

-- `lease_free_owner` never faults: it frees the blocks of the tenants of all tracked addresses, each
-- block once, and no other.
pub free_owner-Closes :
    (owner : HashMap) (leases : Leases)
    → IsOwner owner leases
    → Returns (free_owner owner leases) (Closes owner leases)
unfolding free_owner
free_owner-Closes owner leases is =
    let entries = owner.entries in
    let covers = every-Covers (blocks leases) owner leases.host.live is.valid is.registry in
    let found = λ (j : ℕ) (used : (slot entries j).key ≢ null).
      entry-tracked (blocks leases) owner leases.host.live is.valid is.registry j used in
    let held = λ (j : ℕ) (used : (slot entries j).key ≢ null).
      entry-held (blocks leases) owner leases.host.live is.valid is.registry j used in
    let whole : AllWhole leases entries =
      λ j used. rw (sym (found j used)) (is.whole _ used (held j used)) in
    (
      _,
      free_tenants-released entries leases whole covers.once covers.here,
      record { live = refl; once = covers.once; claimed = covers.claimed },
    )
