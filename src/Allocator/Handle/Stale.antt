-- ===== src/Allocator/Handle/Stale.antt =====
-- allocator/handle.c: what `handle_free` does to handles, and to the objects that all of them share.
use attica.Base.{
  ℕ, ◌+◌, ◌-◌, ◌^◌, ◌%◌, ◌<◌, ◌≡◌, ◌≢◌, ◌∙◌, refl, sym, ap, true, false, arith, leb, ◌==◌, get_or,
  set, get_or-set_self, get_or-set_ne, ok, fault, Returns, null,
}
use attica.Memory.{Host, mem_free, free, is_live, release}
use attica.Allocator.Handle.{
  max_objects, Handle, HandleAllocator, handle_alloc, is_valid, handle_free,
}
use attica.Allocator.Handle.Slots.{slot, Slots, handle_alloc-step}

abbrev version : HandleAllocator → ℕ → ℕ
version a i = get_or a.generations i 0

-- The allocator after a slot is given back.
abbrev pub returned : HandleAllocator → Handle → HandleAllocator
returned a h = record a {
  generations = set a.generations h.index ((get_or a.generations h.index 0 + 1) % 2 ^ 32);
  freelist = set a.freelist a.freelist_count h.index;
  freelist_count = a.freelist_count + 1;
}

valid_index : (a : HandleAllocator) (h : Handle) → is_valid a h ≡ true → h.index < max_objects
unfolding is_valid
valid_index a h v = ground arith

valid_generation :
    (a : HandleAllocator) (h : Handle) → is_valid a h ≡ true → h.generation ≡ version a h.index
unfolding is_valid
valid_generation a h v = ground arith

handle_free-step :
    (a : HandleAllocator) (h : Handle) (host host' : Host)
    → is_valid a h ≡ true
    → a.freelist_count < max_objects
    → mem_free a.objects host ≡ ok host'
    → handle_free a h host ≡ ok (returned a h, host')
unfolding handle_free
handle_free-step a h host host' v room freed =
    let fits : leb max_objects a.freelist_count ≡ false = ground arith in
    rw (handle_free, v, fits, freed) refl

-- What becomes of the handles when `h` is freed.
pub record Freed (a a' : HandleAllocator) (h : Handle) : Type 0 where
  pub stale : is_valid a' h ≡ false
  pub others : (g : Handle) → g.index ≢ h.index → is_valid a' g ≡ is_valid a g
  pub again : (handle_alloc a').0.index ≡ h.index
  pub newer : is_valid a' (handle_alloc a').0 ≡ true

returned-Freed :
    (a : HandleAllocator) (h : Handle)
    → Slots a
    → is_valid a h ≡ true
    → a.freelist_count < max_objects
    → version a h.index < 2 ^ 32
    → Freed a (returned a h) h
unfolding is_valid
returned-Freed a h slots v room narrow =
    let low = valid_index a h v in
    let now = valid_generation a h v in
    let n = a.freelist_count in
    let next = (version a h.index + 1) % 2 ^ 32 in
    let fresh : version (returned a h) h.index ≡ next =
      get_or-set_self a.generations h.index next 0 (omega (arith, slots.versioned)) in
    let back : n + 1 - 1 ≡ n = omega arith in
    let top : slot (returned a h) (n + 1 - 1) ≡ h.index =
      rw back (get_or-set_self a.freelist n h.index 0 (omega (arith, slots.listed))) in
    let step = handle_alloc-step (returned a h) (omega arith) in
    let same : (handle_alloc (returned a h)).0.index ≡ h.index = ap (λ r. r.0.index) step ∙ top in
    record {
      stale = ground arith;
      others =
          λ g e. rw (get_or-set_ne a.generations h.index g.index next 0 (λ e'. e (sym e'))) refl;
      again = same;
      newer = rw step (ground arith);
    }

-- Freeing a valid handle makes it invalid, and no other handle: of its slot the next handle has a newer generation, and
-- that one is valid. The generation is a 32-bit word, and the array of slots is not full.
pub handle_free-Freed :
    (a : HandleAllocator) (h : Handle) (host host' : Host)
    → Slots a
    → is_valid a h ≡ true
    → a.freelist_count < max_objects
    → get_or a.generations h.index 0 < 2 ^ 32
    → mem_free a.objects host ≡ ok host'
    → Returns (handle_free a h host) (λ r. Freed a r.0 h × (r.1 ≡ host'))
handle_free-Freed a h host host' slots v room narrow freed = (
  (returned a h, host'),
  handle_free-step a h host host' v room freed,
  (returned-Freed a h slots v room narrow, refl),
)

-- Every call of `handle_free` frees the block of all the objects: after one handle, the block is no longer live, and
-- freeing another valid handle is a second release of it.
pub handle_free-twice :
    (a : HandleAllocator) (g h : Handle) (host : Host)
    → is_valid a h ≡ true
    → is_valid a g ≡ true
    → g.index ≢ h.index
    → a.freelist_count + 1 < max_objects
    → a.objects ≢ null
    → is_live a.objects host.live ≡ true
    → is_live a.objects (release a.objects host.live) ≡ false
    → Returns
        (handle_free a h host)
        λ r. (is_live a.objects r.1.live ≡ false) × (handle_free r.0 g r.1 ≡ fault)
unfolding handle_free is_valid mem_free free
handle_free-twice a g h host v w apart room used live once =
    let given : (a.objects == null) ≡ false = ground arith in
    let after = record host { live = release a.objects host.live } in
    let freed : mem_free a.objects host ≡ ok after = rw (given, live) refl in
    let again : mem_free a.objects after ≡ fault = rw (given, once) refl in
    let still : is_valid (returned a h) g ≡ true =
      rw
        (get_or-set_ne a.generations h.index g.index ((get_or a.generations h.index 0 + 1) % 2 ^ 32)
          0 (λ e. apart (sym e)))
        w in
    let fits : leb max_objects (a.freelist_count + 1) ≡ false = ground arith in
    (
      (returned a h, after),
      handle_free-step a h host after v (omega arith) freed,
      (once, rw (handle_free, still, fits, again) refl),
    )
