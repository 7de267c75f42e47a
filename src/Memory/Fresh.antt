-- ===== src/Memory/Fresh.antt =====
-- The system allocator below core/memory.c when it never gives out an address that is still
-- allocated: what `memory_alloc` and `memory_free` do to the addresses that are live.
use attica.Base.{
  ℕ, ◌<◌, Returns, ◌≡◌, ◌≢◌, ◌⊎◌, inl, inr, refl, arith, true, false, Bool-cases, Ptr, null, List,
  [], ◌∷◌, ◌==◌, ok, ◌∙◌, ap, sym,
}
use attica.Memory.Alloc.{alloc-IsRequest}
use attica.Memory.{
  Host, alloc, posix_memalign, is_live, release, free, mem_free, is_power_of_two, realloc,
}
use mathlib.Core.Bool.{false≢true}

abbrev NotAgain : Ptr → List Ptr → Type 0
NotAgain p [] = Unit
NotAgain p (q ∷ qs) = (p ≢ q) × NotAgain p qs

-- No address of the supply is live, and none comes twice.
abbrev AllFresh : (supply live : List Ptr) → Type 0
AllFresh [] live = Unit
AllFresh (p ∷ ps) live =
    ((p ≡ null) ⊎ ((is_live p live ≡ false) × NotAgain p ps)) × AllFresh ps live

abbrev pub IsFresh : Host → Type 0
IsFresh host = AllFresh host.supply host.live

fresh_more :
    (p : Ptr) (ps live : List Ptr) → NotAgain p ps → AllFresh ps live → AllFresh ps (p ∷ live)
unfolding is_live
fresh_more p [] live off all = tt
fresh_more p (q ∷ ps) live off all = (
  elim (all.0) [
    | inl none ↦ inl none
    | inr (apart, again) ↦
        let e : (p == q) ≡ false = ground (arith, off.0) in inr (rw (e, apart), again)
  ],
  fresh_more p ps live off.1 all.1,
)

-- What is live once an address is released.
pub is_live-release_ne :
    (p q : Ptr) (live : List Ptr) → q ≢ p → is_live q (release p live) ≡ is_live q live
unfolding is_live release
is_live-release_ne p q [] off = refl
is_live-release_ne p q (r ∷ live) off = ground (arith, is_live-release_ne p q live off)

pub not_live-release :
    (p q : Ptr) (live : List Ptr) → is_live q live ≡ false → is_live q (release p live) ≡ false
unfolding is_live release
not_live-release p q [] h = refl
not_live-release p q (r ∷ live) h = ground (arith, not_live-release p q live)

pub release_comm :
    (p q : Ptr) (live : List Ptr) → release p (release q live) ≡ release q (release p live)
unfolding release
release_comm p q [] = refl
release_comm p q (r ∷ live) = ground (arith, release_comm p q live)

pub live_before_release :
    (p q : Ptr) (live : List Ptr) → is_live q (release p live) ≡ true → is_live q live ≡ true
live_before_release p q live h = elim (Bool-cases (is_live q live)) [
  | inl on ↦ on
  | inr off ↦ absurd (false≢true (sym (not_live-release p q live off) ∙ h))
]

fresh-release : (p : Ptr) (ps live : List Ptr) → AllFresh ps live → AllFresh ps (release p live)
fresh-release p [] live all = tt
fresh-release p (q ∷ ps) live all = (
  elim (all.0) [
    | inl none ↦ inl none
    | inr (apart, again) ↦ inr (not_live-release p q live apart, again)
  ],
  fresh-release p ps live all.1,
)

-- What an allocation leads to: nothing, or an address that was not live and now is.
pub record Refused (host : Host) (r : Ptr × Host) : Type 0 where
  pub none : r.0 ≡ null
  pub live : r.1.live ≡ host.live
  pub fresh : IsFresh r.1

pub record Given (host : Host) (r : Ptr × Host) : Type 0 where
  pub some : r.0 ≢ null
  pub off : is_live r.0 host.live ≡ false
  pub live : r.1.live ≡ r.0 ∷ host.live
  pub fresh : IsFresh r.1

abbrev pub Allocates : Host → Ptr × Host → Type 0
Allocates host r = Refused host r ⊎ Given host r

posix_memalign-Allocates : (host : Host) → IsFresh host → Allocates host (posix_memalign host)
unfolding posix_memalign
posix_memalign-Allocates host fresh = go host.supply host.live fresh
  where
    go :
        (supply live : List Ptr)
        → AllFresh supply live
        → Allocates
            (record { supply = supply; live = live })
            (posix_memalign (record { supply = supply; live = live }))
    go [] live all = inl (record { none = refl; live = refl; fresh = tt })
    go (p ∷ ps) live all = elim (Bool-cases (p == null)) [
      | inl none ↦ rw none (inl (record { none = ground arith; live = refl; fresh = all.1 }))
      | inr some ↦ elim (all.0) [
        | inl none ↦ absurd (ground arith)
        | inr (apart, again) ↦ rw some (
            inr (record {
              some = ground arith;
              off = apart;
              live = refl;
              fresh = fresh_more p ps live again all.1;
            }))
      ]
    ]

pub alloc-Allocates :
    (size alignment : ℕ) (host : Host) → IsFresh host → Allocates host (alloc size alignment host)
alloc-Allocates size alignment host fresh = elim (alloc-IsRequest size alignment host) [
  | inl (_, reaches) ↦ rw reaches (posix_memalign-Allocates host fresh)
  | inr (_, none) ↦ rw none (inl (record { none = refl; live = refl; fresh = fresh }))
]

-- `memory_free` of a live address.
pub mem_free-live :
    (p : Ptr) (host : Host)
    → p ≢ null
    → is_live p host.live ≡ true
    → mem_free p host ≡ ok (record host { live = release p host.live })
unfolding mem_free free
mem_free-live p host some live = let e : (p == null) ≡ false = ground arith in rw (e, live)

pub IsFresh-release :
    (p : Ptr) (host : Host) → IsFresh host → IsFresh (record host { live = release p host.live })
IsFresh-release p host fresh = fresh-release p host.supply host.live fresh

-- A block is moved: it is freed, and the new address was not live.
pub record Moved (ptr : Ptr) (host : Host) (r : Ptr × Host) : Type 0 where
  pub some : r.0 ≢ null
  pub off : is_live r.0 host.live ≡ false
  pub live : r.1.live ≡ r.0 ∷ release ptr host.live
  pub fresh : IsFresh r.1

pub live-more : (p q : Ptr) (live : List Ptr) → is_live q live ≡ true → is_live q (p ∷ live) ≡ true
unfolding is_live
live-more p q live h = ground (arith, h)

pub release_first : (p : Ptr) (live : List Ptr) → release p (p ∷ live) ≡ live
unfolding release
release_first p live = ground arith

pub release_behind :
    (p q : Ptr) (live : List Ptr)
    → is_live p live ≡ false
    → is_live q live ≡ true
    → release q (p ∷ live) ≡ p ∷ release q live
unfolding is_live release
release_behind p q live off on = elim (Bool-cases (p == q)) [
  | inl e ↦ let same : p ≡ q = ground arith in absurd (false≢true (sym off ∙ rw same on))
  | inr e ↦ rw e
]

-- The new block is refused: the alignment is no power of two, or there is no memory.
abbrev pub IsRefused : (new_size alignment : ℕ) → Host → Type 0
IsRefused new_size alignment host =
    (is_power_of_two alignment ≡ false) ⊎ ((alloc new_size alignment host).0 ≡ null)

-- `memory_realloc` of a live block to a positive size.
pub realloc-Moved :
    (ptr : Ptr) (new_size alignment : ℕ) (host : Host)
    → IsFresh host
    → ptr ≢ null
    → is_live ptr host.live ≡ true
    → 0 < new_size
    → 0 < alignment
    → Returns (realloc ptr new_size alignment host) λ r.
      (IsRefused new_size alignment host × Refused host r)
      ⊎ ((¬ IsRefused new_size alignment host)
          × (r.0 ≡ (alloc new_size alignment host).0)
          × Moved ptr host r)
unfolding realloc free
realloc-Moved ptr new_size alignment host fresh some live size_pos align_pos =
    let p0 : (ptr == null) ≡ false = ground arith in
    let n0 : (new_size == 0) ≡ false = ground arith in
    let a0 : (alignment == 0) ≡ false = ground arith in
    elim (Bool-cases (is_power_of_two alignment)) [
      | inr e ↦ (
        (null, host),
        rw (e, p0, n0, a0),
        inl (inl e, record { none = refl; live = refl; fresh = fresh }),
      )
      | inl e ↦
          let (new_ptr, after) = alloc new_size alignment host in
          elim (alloc-Allocates new_size alignment host fresh) [
            | inl refused ↦
                let bad : (new_ptr == null) ≡ true = ground (arith, refused.none) in
                (
                  (null, after),
                  rw (e, p0, n0, a0, bad),
                  inl (
                    inr refused.none,
                    record { none = refl; live = refused.live; fresh = refused.fresh },
                  ),
                )
            | inr given ↦
                let good : (new_ptr == null) ≡ false = ground (arith, given.some) in
                let found : is_live ptr after.live ≡ true =
                  rw (given.live) (live-more new_ptr ptr host.live live) in
                (
                  (new_ptr, record after { live = release ptr after.live }),
                  rw (e, p0, n0, a0, good, found),
                  inr (
                    accepted e given.some,
                    refl,
                    record {
                      some = given.some;
                      off = given.off;
                      live =
                          ap (release ptr) given.live
                          ∙ release_behind new_ptr ptr host.live given.off live;
                      fresh = IsFresh-release ptr after given.fresh;
                    },
                  ),
                )
          ]
    ]
  where
    accepted :
        is_power_of_two alignment ≡ true
        → (alloc new_size alignment host).0 ≢ null
        → ¬ IsRefused new_size alignment host
    accepted e given why = elim why [ inl bad ↦ false≢true (sym bad ∙ e) | inr none ↦ given none ]
