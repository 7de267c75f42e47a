-- ===== src/Map/Linear/Delete/Step.antt =====
-- One entry behind a deleted one is taken out and put back: the loop in `hash_map_delete_internal`
-- of map/linear.c.
use native.Mathlib.Decide.{ℕ_discrete}
use attica.Base.{
  ℕ, ◌+◌, ◌≤◌, ◌<◌, ◌≡◌, ◌≢◌, ◌⊎◌, inl, inr, ◌∙◌, sym, ap, true, false, arith, List, Ptr, null, set,
  Bool-cases, ◌==◌, if◌then◌else◌, ◌↔◌,
}
use attica.Map.Linear.{Entry, KeyType, blank}
use attica.Map.Linear.Ring.{passes, between, landing}
use attica.Map.Linear.Delete.{at, place, home, IsReached, Stands}
use attica.Map.Linear.Delete.Mending.{
  IsRun, IsMending, moved, length-moved, taken_self, taken_ne, moved_target, moved_other,
  moved-Moved, target, source, other,
}

module _ (type : KeyType) (n s : ℕ) (hs : s < n) (old : List Entry) (e : ℕ)
    (run : IsRun type n s hs old e) (t : ℕ) (es : List Entry)
    (mending : IsMending type n s hs old e t es) (ht : t < e) where
  abbrev entry_at : List Entry → ℕ → Entry
  entry_at = place type n s hs

  abbrev taken : List Entry
  taken = set es (at type n s hs t) blank

  t-lt : t < n
  t-lt = omega (arith, run.inside)

  pub unmoved : entry_at es t ≡ entry_at old t
  unmoved = mending.ahead t (omega arith) t-lt

  pub source-used : (entry_at es t).key ≢ null
  source-used = rw unmoved (run.full t mending.behind ht)

  still_gap : (entry_at es e).key ≡ null
  still_gap = ap (λ (x : Entry). x.key) (mending.ahead e (omega arith) run.inside) ∙ run.gap

  -- An entry that is put back where a search for its key meets the first empty slot.
  module _ (u : ℕ) (hu : u < n) (free : (entry_at taken u).key ≡ null)
      (path : (x : ℕ)
        → x < n
        → between (home type n s hs (entry_at es t).key) x u ≡ true
        → (entry_at taken x).key ≢ null) where
    abbrev start : ℕ
    start = home type n s hs (entry_at es t).key

    misses_gap : between start e t ≡ false
    misses_gap = elim (Bool-cases (between start e t)) [
      | inr clear ↦ clear
      | inl hit ↦
          let b : between (home type n s hs (entry_at old t).key) e t ≡ true = rw unmoved at hit in
          absurd (run.reached t t-lt (run.full t mending.behind ht) e run.inside b run.gap)
    ]

    misses_source : between start t u ≡ false
    misses_source = elim (Bool-cases (between start t u)) [
      | inr clear ↦ clear
      | inl hit ↦ absurd (
          path t t-lt hit
            (ap (λ (x : Entry). x.key) (taken_self type n s hs es mending.sized t u t-lt hu)))
    ]

    -- What stands behind `t` was not touched.
    ahead-free : t < u → (entry_at old u).key ≡ null
    ahead-free h =
        ap (λ (x : Entry). x.key)
          (sym (mending.ahead u (omega arith) hu)
            ∙ sym (
                taken_ne type n s hs es mending.sized t u t-lt hu u hu (λ k. absurd (omega arith))))
        ∙ free

    lands_before : u ≤ t
    lands_before =
        landing n start t e u ht misses_gap misses_source
          (λ h k. run.full u (omega arith) k (ahead-free h))
          (λ h b.
            let b' : between (home type n s hs (entry_at old t).key) u t ≡ true = rw unmoved at b in
            run.reached t t-lt (run.full t mending.behind ht) u hu b' (ahead-free (omega arith)))

    abbrev after : List Entry
    after = moved type n s hs t u es

    after-used : (x : ℕ) → x < n → (entry_at taken x).key ≢ null → (entry_at after x).key ≢ null
    after-used x hx used = elim (ℕ_discrete u x) [
      | yes here ↦ rw (← here, moved_target type n s hs es mending.sized t u t-lt hu) source-used
      | no away ↦ elim (ℕ_discrete t x) [
        | yes there ↦ absurd (
            used (
              ap (λ x. (entry_at taken x).key) (sym there)
              ∙ ap (λ (x : Entry). x.key) (taken_self type n s hs es mending.sized t u t-lt hu)))
        | no far ↦
            rw (moved_other type n s hs es mending.sized t u t-lt hu x hx away far)
              (rw (taken_ne type n s hs es mending.sized t u t-lt hu x hx far) at used)
      ]
    ]

    after-IsReached :
        (c : ℕ)
        → c < n
        → ((c < t + 1) ⊎ (e < c))
        → (entry_at after c).key ≢ null
        → IsReached type n s hs after c
    after-IsReached c hc side used x hx b =
        elim (moved-Moved type n s hs t u c es mending.sized t-lt hu hc) [
          | source empty ↦ absurd (used empty)
          | target here same ↦ after-used x hx (path x hx (rw (here, ← same) b))
          | other away far same ↦
              let side' : (c < t) ⊎ (e < c) = ground arith in
              let b' : between (home type n s hs (entry_at es c).key) x c ≡ true = rw same at b in
              let reached = mending.reached c hc side' (rw same at used) in
              elim (ℕ_discrete t x) [
                | no clear ↦ after-used x hx (
                    rw (taken_ne type n s hs es mending.sized t u t-lt hu x hx clear)
                      (reached x hx b'))
                | yes there ↦
                    let through =
                      passes n (home type n s hs (entry_at es c).key) t e c ht run.inside side'
                        (rw there b') in
                    absurd (reached e run.inside through still_gap)
              ]
        ]

    -- Where the entry at a coordinate came from.
    origin :
        (c : ℕ)
        → c < n
        → (entry_at after c).key ≢ null
        → (d : ℕ) × (d < n) × (entry_at after c ≡ entry_at es d) × (c ≡ (if d == t then u else d))
    origin c hc used = elim (moved-Moved type n s hs t u c es mending.sized t-lt hu hc) [
      | source empty ↦ absurd (used empty)
      | target here same ↦ (t, t-lt, same, ground arith)
      | other away far same ↦ (c, hc, same, ground arith)
    ]

    -- And where it goes.
    image :
        (d : ℕ)
        → d < n
        → (entry_at es d).key ≢ null
        → (c : ℕ) × (c < n) × (entry_at after c ≡ entry_at es d)
    image d hd used = elim (ℕ_discrete t d) [
      | yes here ↦
          (u, hu, moved_target type n s hs es mending.sized t u t-lt hu ∙ ap (entry_at es) here)
      | no far ↦
          let stays = taken_ne type n s hs es mending.sized t u t-lt hu d hd far in
          let away : u ≢ d = λ h. used (
            ap (λ (x : Entry). x.key) (sym stays)
            ∙ ap (λ x. (entry_at taken x).key) (sym h)
            ∙ free) in
          (d, hd, moved_other type n s hs es mending.sized t u t-lt hu d hd away far)
    ]

    after_unique :
        (c d : ℕ)
        → c < n
        → d < n
        → (entry_at after c).key ≢ null
        → (entry_at after d).key ≢ null
        → type.same (entry_at after c).key (entry_at after d).key ≡ true
        → c ≡ d
    after_unique c d hc hd used used' same =
        let (c₀, hc₀, ec, wc) = origin c hc used in
        let (d₀, hd₀, ed, wd) = origin d hd used' in
        let one =
          mending.unique c₀ d₀ hc₀ hd₀ (rw ec at used) (rw ed at used') (rw (ec, ed) at same) in
        wc ∙ ap (λ x. if x == t then u else x) one ∙ sym wd

    pub step-IsMending : IsMending type n s hs old e (t + 1) after
    step-IsMending = record {
      sized = length-moved type n s hs t u es ∙ mending.sized;
      behind = omega arith;
      ahead = λ c h hc.
          moved_other type n s hs es mending.sized t u t-lt hu c hc
            (λ k. absurd (omega (arith, lands_before))) (λ k. absurd (omega arith))
          ∙ mending.ahead c (omega arith) hc;
      reached = after-IsReached;
      unique = after_unique;
      valued = λ c hc used.
          let (d, hd, same, _) = origin c hc used in
          rw same (mending.valued d hd (rw same at used));
      straight = λ c hc used.
          let (d, hd, same, _) = origin c hc used in
          rw same (mending.straight d hd (rw same at used));
    }

    -- The keys have the values of before.
    pub step-Stands : (q v : Ptr) → Stands type n s hs after q v ↔ Stands type n s hs es q v
    step-Stands q v = (
      λ there.
          let (d, hd, same, _) = origin there.spot there.bound there.used in
          record {
            spot = d;
            bound = hd;
            used = rw same at (there.used);
            same = rw same at (there.same);
            holds = rw same at (there.holds);
          },
      λ there.
          let (c, hc, same) = image there.spot there.bound there.used in
          record {
            spot = c;
            bound = hc;
            used = rw same (there.used);
            same = rw same (there.same);
            holds = rw same (there.holds);
          },
    )
