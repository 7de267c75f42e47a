-- ===== src/Allocator/Registry/Blocks.antt =====
-- The blocks that stand behind the tracked addresses of allocator/page.c and allocator/lease.c.
use attica.Base.{
  ◌≡◌, ◌≢◌, inl, inr, refl, true, false, arith, Ptr, null, List, [], ◌∷◌, Bool-cases, ◌∙◌, sym, ap,
  ◌==◌,
}
use native.Mathlib.Decide.{ℕ_discrete}
use mathlib.Core.Bool.{false≢true}
use attica.Map.Linear.{HashMap}
use attica.Allocator.Registry.{tracked}
use attica.Memory.{Host, is_live, release}
use attica.Memory.Fresh.{IsFresh, IsFresh-release, is_live-release_ne}

-- No block is `NULL` and none comes twice.
abbrev pub IsApart : List Ptr → Type 0
IsApart [] = Unit
IsApart (p ∷ ps) = (p ≢ null) × (is_live p ps ≡ false) × IsApart ps

pub live_behind :
    (p b : Ptr) (ps : List Ptr) → (p == b) ≡ false → is_live b (p ∷ ps) ≡ true → is_live b ps ≡ true
unfolding is_live
live_behind p b ps e h = ground (arith, h)

-- What is live after the blocks are freed one by one.
unfoldable pub released : List Ptr → List Ptr → List Ptr
released [] live = live
released (p ∷ ps) live = released ps (release p live)

-- Every block of the list is live.
abbrev pub Live : List Ptr → List Ptr → Type 0
Live ps live = (b : Ptr) → is_live b ps ≡ true → is_live b live ≡ true

pub live_head : (p : Ptr) (ps : List Ptr) → is_live p (p ∷ ps) ≡ true
unfolding is_live
live_head p ps = ground arith

pub live_tail : (p b : Ptr) (ps : List Ptr) → is_live b ps ≡ true → is_live b (p ∷ ps) ≡ true
unfolding is_live
live_tail p b ps h = ground (arith, h)

-- It keeps all other blocks.
pub is_live-released :
    (ps : List Ptr) (b : Ptr) (live : List Ptr)
    → is_live b ps ≡ false
    → is_live b (released ps live) ≡ is_live b live
unfolding released is_live
is_live-released [] b live off = refl
is_live-released (p ∷ ps) b live off =
    let away : b ≢ p = ground arith in
    is_live-released ps b (release p live) (ground arith) ∙ is_live-release_ne p b live away

module _ (blocks : (key value : Ptr) → List Ptr) where
  -- Each tracked address has live blocks of its own.
  pub record IsRegistry (table : HashMap) (live : List Ptr) : Type 0 where
    pub all_live :
        (q : Ptr) → q ≢ null → tracked table q ≢ null → Live (blocks q (tracked table q)) live
    pub apart : (q : Ptr) → q ≢ null → tracked table q ≢ null → IsApart (blocks q (tracked table q))
    pub separate :
        (p q b : Ptr)
        → p ≢ null
        → q ≢ null
        → tracked table p ≢ null
        → tracked table q ≢ null
        → p ≢ q
        → is_live b (blocks p (tracked table p)) ≡ true
        → is_live b (blocks q (tracked table q)) ≡ false

  -- No tracked address has the block.
  abbrev pub IsUnclaimed : (table : HashMap) → Ptr → Type 0
  IsUnclaimed table b =
      (q : Ptr) → q ≢ null → tracked table q ≢ null → is_live b (blocks q (tracked table q)) ≡ false

  pub not_live-IsUnclaimed :
      (table : HashMap) (live : List Ptr) (b : Ptr)
      → IsRegistry table live
      → is_live b live ≡ false
      → IsUnclaimed table b
  not_live-IsUnclaimed table live b registry off q some there =
      elim (Bool-cases (is_live b (blocks q (tracked table q)))) [
        | inr out ↦ out
        | inl on ↦ absurd (false≢true (sym off ∙ registry.all_live q some there b on))
      ]

  -- A new address with blocks that no other has.
  pub add-IsRegistry :
      (table table' : HashMap) (live live' : List Ptr) (key value : Ptr)
      → IsRegistry table live
      → tracked table' key ≡ value
      → ((q : Ptr) → q ≢ null → q ≢ key → tracked table' q ≡ tracked table q)
      → IsApart (blocks key value)
      → Live (blocks key value) live'
      → ((b : Ptr) → is_live b (blocks key value) ≡ true → IsUnclaimed table b)
      → Live live live'
      → IsRegistry table' live'
  add-IsRegistry table table' live live' key value registry added others apart here fresh grown =
      record {
        all_live = λ q some there. elim (ℕ_discrete q key) [
          | yes e ↦ rw (e, added) here
          | no away ↦
              let same = others q some away in
              rw same (λ b h. grown b (registry.all_live q some (rw same at there) b h))
        ];
        apart = λ q some there. elim (ℕ_discrete q key) [
          | yes e ↦ rw (e, added) apart
          | no away ↦
              let same = others q some away in rw same (registry.apart q some (rw same at there))
        ];
        separate = λ p q b some_p some_q there_p there_q differ h. elim (ℕ_discrete p key) [
          | yes e ↦
              let same = others q some_q (λ f. differ (e ∙ sym f)) in
              rw same (fresh b (rw (e, added) at h) q some_q (rw same at there_q))
          | no away ↦
              let same_p = others p some_p away in
              let there_p' = rw same_p at there_p in
              let h' = rw same_p at h in
              elim (ℕ_discrete q key) [
                | yes e ↦
                    rw (e, added)
                      (elim (Bool-cases (is_live b (blocks key value))) [
                        | inr off ↦ off
                        | inl on ↦ absurd (false≢true (sym (fresh b on p some_p there_p') ∙ h'))
                      ])
                | no away' ↦
                    let same_q = others q some_q away' in
                    rw same_q (
                      registry.separate p q b some_p some_q (rw same_p at there_p)
                        (rw same_q at there_q) differ (rw same_p at h))
              ]
        ];
      }

  -- An address that is not tracked any more, and whose blocks are released.
  pub remove-IsRegistry :
      (table table' : HashMap) (live : List Ptr) (key : Ptr)
      → IsRegistry table live
      → key ≢ null
      → tracked table key ≢ null
      → tracked table' key ≡ null
      → ((q : Ptr) → q ≢ null → q ≢ key → tracked table' q ≡ tracked table q)
      → IsRegistry table' (released (blocks key (tracked table key)) live)
  remove-IsRegistry table table' live key registry some there gone others =
      let old : (q : Ptr) → q ≢ null → tracked table' q ≢ null → q ≢ key =
        λ q some_q there_q e. there_q (ap (tracked table') e ∙ gone) in
      record {
        all_live = λ q some_q there_q.
            let away = old q some_q there_q in
            let same = others q some_q away in
            rw same (λ b h.
              is_live-released (blocks key (tracked table key)) b live
                (registry.separate q key b some_q some (rw same at there_q) there away h)
              ∙ registry.all_live q some_q (rw same at there_q) b h);
        apart = λ q some_q there_q.
            let same = others q some_q (old q some_q there_q) in
            rw same (registry.apart q some_q (rw same at there_q));
        separate = λ p q b some_p some_q there_p there_q differ h.
            let same_p = others p some_p (old p some_p there_p) in
            let same_q = others q some_q (old q some_q there_q) in
            rw same_q (
              registry.separate p q b some_p some_q (rw same_p at there_p) (rw same_q at there_q)
                differ (rw same_p at h));
      }

  -- A table that tracks the same, with more blocks live.
  pub keep-IsRegistry :
      (table table' : HashMap) (live live' : List Ptr)
      → IsRegistry table live
      → ((q : Ptr) → q ≢ null → tracked table' q ≡ tracked table q)
      → Live live live'
      → IsRegistry table' live'
  keep-IsRegistry table table' live live' registry same grown = record {
    all_live = λ q some there.
        let e = same q some in rw e (λ b h. grown b (registry.all_live q some (rw e at there) b h));
    apart = λ q some there. let e = same q some in rw e (registry.apart q some (rw e at there));
    separate = λ p q b some_p some_q there_p there_q differ h.
        let e = same p some_p in
        let f = same q some_q in
        rw f (
          registry.separate p q b some_p some_q (rw e at there_p) (rw f at there_q) differ
            (rw e at h));
  }

pub IsFresh-released :
    (ps : List Ptr) (host : Host)
    → IsFresh host
    → IsFresh (record host { live = released ps host.live })
unfolding released
IsFresh-released [] host fresh = fresh
IsFresh-released (p ∷ ps) host fresh =
    IsFresh-released ps (record host { live = release p host.live }) (IsFresh-release p host fresh)

-- A table that tracks less.
pub fewer-IsRegistry :
    (blocks : (key value : Ptr) → List Ptr) (table table' : HashMap) (live : List Ptr)
    → IsRegistry blocks table live
    → ((q : Ptr) → q ≢ null → tracked table' q ≢ null → tracked table' q ≡ tracked table q)
    → IsRegistry blocks table' live
fewer-IsRegistry blocks table table' live registry same = record {
  all_live =
      λ q some there. let e = same q some there in rw e (registry.all_live q some (rw e at there));
  apart = λ q some there. let e = same q some there in rw e (registry.apart q some (rw e at there));
  separate = λ p q b some_p some_q there_p there_q differ h.
      let e = same p some_p there_p in
      let f = same q some_q there_q in
      rw f (
        registry.separate p q b some_p some_q (rw e at there_p) (rw f at there_q) differ
          (rw e at h));
}
