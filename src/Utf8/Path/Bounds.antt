-- ===== src/Utf8/Path/Bounds.antt =====
-- `path_normalize` of utf8/path.c: the block that it asks for and what it writes.
use attica.Base.{
  ℕ, suc, ◌+◌, ◌-◌, ◌%◌, ◌≤◌, ◌<◌, ◌≡◌, ◌≢◌, ◌⊎◌, inl, inr, refl, Bool, true, false, not, ◌&&◌,
  arith, List, [], ◌∷◌, ◌++◌, some, ok, fault, leb, ◌==◌, if◌then◌else◌, word, length,
  length-append, length-take, take, drop, get_or, Bool-cases, ◌∙◌, ap,
}
use attica.Utf8.Path.{
  slash, Flags, is_valid, has_leading_slash, has_trailing_slash, new_length, normalized, normalize,
}

-- The path `"/"` with both slashes to be removed.
abbrev pub IsEmptied : Flags → List ℕ → Type 0
IsEmptied flags path =
    (path ≡ slash ∷ []) × (flags.remove_leading ≡ true) × (flags.remove_trailing ≡ true)

-- The length of what is written, from the tests of the code.
abbrev written : (al rl at rt lead trail : Bool) (rest : ℕ) (strail : Bool) → ℕ
written al rl at rt lead trail rest strail =
    let start = if rl && lead then rest else rest + 1 in
    (if al && not lead then 1 else 0)
    + (if rt && strail then start - 1 else start)
    + (if at && not trail then 1 else 0)

abbrev asked : (al rl at rt lead trail : Bool) (rest : ℕ) → ℕ
asked al rl at rt lead trail rest =
    let n₁ = if al && not lead then suc rest + 1 else suc rest in
    let n₂ = if rl && lead then (n₁ + word - 1) % word else n₁ in
    let n₃ = if at && not trail then n₂ + 1 else n₂ in
    if rt && trail then (n₃ + word - 1) % word else n₃

asked-written :
    (al rl at rt lead trail : Bool) (rest : ℕ)
    → rest + 3 < word
    → 0 < rest
    → written al rl at rt lead trail rest trail ≡ asked al rl at rt lead trail rest
asked-written false false at rt lead trail rest room pos = ground arith
asked-written false true at rt lead trail rest room pos = ground arith
asked-written true false at rt lead trail rest room pos = ground arith
asked-written true true at rt lead trail rest room pos = ground arith

-- What is copied is no longer than where it comes from.
length-text :
    (front back start : List ℕ) (n : ℕ)
    → n ≤ length start
    → length (front ++ take n start ++ back) ≡ length front + n + length back
length-text front back start n le = rw (length-append, length-append, length-take) (ground arith)

-- The same with the tests of the code as arguments.
length-parts :
    (al rl at rt lead trail : Bool) (c : ℕ) (cs : List ℕ)
    → let start = if rl && lead then cs else c ∷ cs in
      length (if al && not lead then slash ∷ [] else [])
        + (if rt && has_trailing_slash start then length start - 1 else length start)
        + length (if at && not trail then slash ∷ [] else [])
      ≡ written al rl at rt lead trail (length cs) (has_trailing_slash start)
length-parts al true at rt true trail c cs = ground arith
length-parts al true at rt false trail c cs = ground arith
length-parts al false at rt lead trail c cs = ground arith

length-normalized :
    (flags : Flags) (c : ℕ) (cs : List ℕ)
    → let start = if flags.remove_leading && (c == slash) then cs else c ∷ cs in
      length (normalized flags (c ∷ cs))
      ≡ written flags.add_leading flags.remove_leading flags.add_trailing flags.remove_trailing
          (c == slash)
          (has_trailing_slash (c ∷ cs))
          (length cs)
          (has_trailing_slash start)
unfolding normalized has_leading_slash
length-normalized flags c cs =
    let trail = has_trailing_slash (c ∷ cs) in
    let front = if flags.add_leading && not (c == slash) then slash ∷ [] else [] in
    let back = if flags.add_trailing && not trail then slash ∷ [] else [] in
    let start = if flags.remove_leading && (c == slash) then drop 1 (c ∷ cs) else c ∷ cs in
    let n =
      if flags.remove_trailing && has_trailing_slash start
      then length start - 1
      else length start in
    let le : n ≤ length start = ground arith in
    length-text front back start n le
    ∙ length-parts flags.add_leading flags.remove_leading flags.add_trailing flags.remove_trailing
        (c == slash) trail c cs

-- A path ends as its rest does.
same_end :
    (b : Bool) (c d : ℕ) (ds : List ℕ)
    → has_trailing_slash (if b then d ∷ ds else c ∷ d ∷ ds) ≡ has_trailing_slash (d ∷ ds)
unfolding has_trailing_slash
same_end true c d ds = refl
same_end false c d ds = refl

-- Unless the path is emptied, the block is as long as what is written.
new_length-normalized :
    (flags : Flags) (path : List ℕ)
    → path ≢ []
    → length path + 3 < word
    → ¬ IsEmptied flags path
    → length (normalized flags path) ≡ new_length flags path
unfolding new_length has_leading_slash has_trailing_slash
new_length-normalized flags [] given room kept = absurd (given refl)
new_length-normalized flags (c ∷ []) given room kept =
    length-normalized flags c [] ∙ elim (Bool-cases (c == slash)) [
      | inr off ↦ rw off (ground arith)
      | inl on ↦ rw on (elim (Bool-cases flags.remove_leading) [
        | inr stays ↦ rw stays (ground arith)
        | inl goes ↦ elim (Bool-cases flags.remove_trailing) [
          | inr stays ↦ rw (goes, stays) (ground arith)
          | inl both ↦
              let e : c ≡ slash = ground arith in absurd (kept (ap (λ x. x ∷ []) e, goes, both))
        ]
      ])
    ]
new_length-normalized flags (c ∷ d ∷ ds) given room kept =
    length-normalized flags c (d ∷ ds)
    ∙ ap
        (written flags.add_leading flags.remove_leading flags.add_trailing flags.remove_trailing
          (c == slash) (has_trailing_slash (d ∷ ds)) (length (d ∷ ds)))
        (same_end (flags.remove_leading && (c == slash)) c d ds)
    ∙ asked-written flags.add_leading flags.remove_leading flags.add_trailing flags.remove_trailing
        (c == slash) (has_trailing_slash (d ∷ ds)) (length (d ∷ ds)) (omega arith) (omega arith)

pub valid-true : (path : List ℕ) → path ≢ [] → is_valid path ≡ true
unfolding is_valid
valid-true [] given = absurd (given refl)
valid-true (c ∷ cs) given = refl

IsEmptied-cases : (flags : Flags) (path : List ℕ) → IsEmptied flags path ⊎ (¬ IsEmptied flags path)
IsEmptied-cases flags [] = inr (λ (e, _, _). cc e)
IsEmptied-cases flags (c ∷ d ∷ ds) = inr (λ (e, _, _). cc e)
IsEmptied-cases flags (c ∷ []) =
    elim (Bool-cases ((c == slash) && flags.remove_leading && flags.remove_trailing)) [
      | inl all ↦
          let e : c ≡ slash = ground arith in
          inl (ap (λ x. x ∷ []) e, ground (arith, all), ground (arith, all))
      | inr off ↦ inr (λ (e, lead, trail).
          let f : c ≡ slash = ap (λ l. get_or l 0 0) e in ground (arith, off, f, lead, trail))
    ]

emptied-faults :
    (flags : Flags)
    → flags.remove_leading ≡ true
    → flags.remove_trailing ≡ true
    → normalize true flags (slash ∷ []) ≡ fault
unfolding normalize is_valid normalized new_length has_leading_slash has_trailing_slash
emptied-faults flags lead trail = elim (Bool-cases flags.add_leading) [
  | inl al ↦ elim (Bool-cases flags.add_trailing) [
    | inl at ↦ rw (lead, trail, al, at)
    | inr at ↦ rw (lead, trail, al, at)
  ]
  | inr al ↦ elim (Bool-cases flags.add_trailing) [
    | inl at ↦ rw (lead, trail, al, at)
    | inr at ↦ rw (lead, trail, al, at)
  ]
]

written-short :
    (al rl at rt lead trail : Bool) (rest : ℕ) (strail : Bool)
    → written al rl at rt lead trail rest strail ≤ rest + 3
written-short al rl at rt lead trail rest strail = ground arith

normalized-short :
    (flags : Flags) (path : List ℕ) → path ≢ [] → length (normalized flags path) ≤ length path + 2
normalized-short flags [] given = absurd (given refl)
normalized-short flags (c ∷ cs) given = omega (
  arith,
  length-normalized flags c cs,
  written-short flags.add_leading flags.remove_leading flags.add_trailing flags.remove_trailing
      (c == slash) (has_trailing_slash (c ∷ cs)) (length cs)
      (has_trailing_slash (if flags.remove_leading && (c == slash) then cs else c ∷ cs)),
)

-- `path_normalize` of a path that is not empty writes behind the end of its block exactly for the path "/" with both slashes to
-- be removed, where the length of the block wraps to 0. Otherwise it gives the path, which fills its block.
pub normalize-bounds :
    (flags : Flags) (path : List ℕ)
    → path ≢ []
    → length path + 3 < word
    → ((normalize true flags path ≡ fault) × IsEmptied flags path)
      ⊎ ((normalize true flags path ≡ ok (some (normalized flags path)))
          × (length (normalized flags path) ≡ new_length flags path)
          × ¬ IsEmptied flags path)
unfolding normalize is_valid
normalize-bounds flags path given room = elim (IsEmptied-cases flags path) [
  | inl (e, lead, trail) ↦ inl (rw e (emptied-faults flags lead trail), (e, lead, trail))
  | inr kept ↦
      let valid : is_valid path ≡ true = valid-true path given in
      let fills = new_length-normalized flags path given room kept in
      let short = normalized-short flags path given in
      let fits : leb (length (normalized flags path) + 1) ((new_length flags path + 1) % word)
          ≡ true =
        ground (arith, fills, short) in
      inr (rw (valid, fits), fills, kept)
]
