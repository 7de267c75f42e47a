-- ===== src/Utf8/Path/Parts.antt =====
-- `path_join`, `path_split` and `path_basename` of utf8/path.c together.
use mathlib.Core.Bool.{false≢true}
use attica.Base.{
  ℕ, suc, ◌+◌, ◌≤◌, ◌<◌, ◌≡◌, ◌≢◌, ◌⊎◌, inl, inr, refl, true, false, arith, List, [], ◌∷◌, ◌++◌,
  not, none, some, ok, Returns, ◌==◌, if◌then◌else◌, word, length, take, drop, Bool-cases,
  Option-cases, append_assoc, length-append, leb, ◌%◌, ◌∙◌, sym, ap,
}
use attica.Utf8.Path.{
  slash, flags_of, Flags, is_valid, has_leading_slash, has_trailing_slash, normalized, normalize,
  joined, join, last_slash, basename, whole, tokens,
}
use attica.Utf8.Path.Bounds.{normalize-bounds, valid-true}

take_all : (xs : List ℕ) → take (length xs) xs ≡ xs
take_all [] = refl
take_all (x ∷ xs) = ap (λ r. x ∷ r) (take_all xs)

append_nil : (xs : List ℕ) → xs ++ [] ≡ xs
append_nil [] = refl
append_nil (x ∷ xs) = ap (λ r. x ∷ r) (append_nil xs)

parts_nil : (xs : List (List ℕ)) → xs ++ [] ≡ xs
parts_nil [] = refl
parts_nil (x ∷ xs) = ap (λ r. x ∷ r) (parts_nil xs)

-- A slash ends a token and begins the next.
tokens-append :
    (token zs ys : List ℕ) → tokens token (zs ++ (slash ∷ ys)) ≡ tokens token zs ++ tokens [] ys
unfolding tokens
tokens-append token [] ys = refl
tokens-append token (c ∷ zs) ys = elim (Bool-cases (c == slash)) [
  | inl end ↦ rw end (
      ap (λ r. whole token ++ r) (tokens-append [] zs ys)
      ∙ sym (parts_assoc (whole token) (tokens [] zs) (tokens [] ys)))
  | inr inside ↦ rw inside (tokens-append (token ++ (c ∷ [])) zs ys)
]
  where
    parts_assoc : (xs ys zs : List (List ℕ)) → (xs ++ ys) ++ zs ≡ xs ++ (ys ++ zs)
    parts_assoc [] ys zs = refl
    parts_assoc (x ∷ xs) ys zs = ap (λ r. x ∷ r) (parts_assoc xs ys zs)

last_slash-append :
    (zs ys : List ℕ)
    → ((last_slash ys ≡ none) × (last_slash (zs ++ (slash ∷ ys)) ≡ some (length zs)))
      ⊎ ((j : ℕ) × (last_slash ys ≡ some j)
          × (last_slash (zs ++ (slash ∷ ys)) ≡ some (length zs + (j + 1))))
unfolding last_slash
last_slash-append [] ys = elim (Option-cases (last_slash ys)) [
  | inl none' ↦ inl (none', rw none')
  | inr (j, there) ↦ inr (j, there, rw there (ap some (omega arith)))
]
last_slash-append (c ∷ zs) ys = elim (last_slash-append zs ys) [
  | inl (none', there) ↦ inl (none', rw there (ap some (omega arith)))
  | inr (j, here, there) ↦ inr (j, here, rw there (ap some (omega arith)))
]

drop-past :
    (zs ys : List ℕ) (k m : ℕ) → k ≡ suc (length zs + m) → drop k (zs ++ (slash ∷ ys)) ≡ drop m ys
drop-past [] ys k m e = let f : k ≡ suc m = omega arith in rw f
drop-past (c ∷ zs) ys k m e =
    let f : k ≡ suc (suc (length zs + m)) = omega arith in
    rw f (drop-past zs ys (suc (length zs + m)) m refl)

not_empty : (zs ys : List ℕ) → zs ++ (slash ∷ ys) ≢ []
not_empty [] ys e = cc e
not_empty (c ∷ zs) ys e = cc e

valid_else : (ys xs : List ℕ) → (ys ≡ [] → xs ≡ []) → xs ≡ (if not (is_valid ys) then [] else xs)
unfolding is_valid
valid_else [] xs h = h refl
valid_else (y ∷ ys) xs h = refl

some_slash : (ys : List ℕ) (j : ℕ) → last_slash ys ≡ some j → ¬ (ys ≡ [])
unfolding last_slash
some_slash [] j h e = cc h
some_slash (y ∷ ys) j h e = cc e

-- What stands behind a slash has the same last part.
basename-append : (zs ys : List ℕ) → basename (zs ++ (slash ∷ ys)) ≡ basename ys
unfolding basename
basename-append zs ys =
    let whole_valid = valid-true (zs ++ (slash ∷ ys)) (not_empty zs ys) in
    elim (last_slash-append zs ys) [
      | inl (none', there) ↦
          rw (whole_valid, there, none')
            (drop-past zs ys (length zs + 1) 0 (omega arith) ∙ valid_else ys ys (λ e. e))
      | inr (j, here, there) ↦
          rw (whole_valid, there, here)
            (drop-past zs ys (length zs + (j + 1) + 1) (j + 1) (omega arith)
              ∙ valid_else ys (drop (j + 1) ys) (λ e. absurd (some_slash ys j here e)))
    ]

ends_in_slash :
    (path : List ℕ)
    → has_trailing_slash path ≡ true
    → (front : List ℕ) × (path ≡ front ++ (slash ∷ []))
unfolding has_trailing_slash
ends_in_slash [] h = cc h
ends_in_slash (c ∷ []) h = let e : c ≡ slash = ground arith in ([], ap (λ x. x ∷ []) e)
ends_in_slash (c ∷ d ∷ ds) h =
    let (front, e) = ends_in_slash (d ∷ ds) h in (c ∷ front, ap (λ r. c ∷ r) e)

-- A path less a slash at its end, if there is one, and less a slash at its front.
abbrev pub IsFront : (path front : List ℕ) → Type 0
IsFront path front =
    (path ≡ front ++ (slash ∷ [])) ⊎ ((path ≡ front) × (has_trailing_slash path ≡ false))

abbrev pub IsBack : (path back : List ℕ) → Type 0
IsBack path back = (path ≡ slash ∷ back) ⊎ ((path ≡ back) × (has_leading_slash path ≡ false))

front-le : (path front : List ℕ) → IsFront path front → length front ≤ length path
front-le path front is = elim is [
  | inl e ↦ rw e (omega (arith, length-append front (slash ∷ [])))
  | inr (e, _) ↦ rw e (omega arith)
]

back-le : (path back : List ℕ) → IsBack path back → length back ≤ length path
back-le path back is = elim is [ inl e ↦ rw e (omega arith) | inr (e, _) ↦ rw e (omega arith) ]

-- The root gets a slash at its end.
root_half :
    (root : List ℕ)
    → (front : List ℕ) × (normalized (flags_of 4) root ≡ front ++ (slash ∷ []))
      × (tokens [] root ≡ tokens [] front)
      × IsFront root front
unfolding normalized flags_of tokens whole
root_half root = elim (Bool-cases (has_trailing_slash root)) [
  | inl trail ↦
      let (front, e) = ends_in_slash root trail in
      (
        front,
        rw trail (append_nil (take (length root) root) ∙ take_all root ∙ e),
        rw e (tokens-append [] front [] ∙ parts_nil (tokens [] front)),
        inl e,
      )
  | inr open_end ↦
      (root, rw open_end (ap (λ r. r ++ (slash ∷ [])) (take_all root)), refl, inr (refl, open_end))
]

-- The other path loses the slash at its front.
sub_half :
    (sub : List ℕ)
    → (back : List ℕ) × (normalized (flags_of 2) sub ≡ back)
      × (tokens [] sub ≡ tokens [] back)
      × (basename sub ≡ basename back)
      × IsBack sub back
unfolding normalized flags_of has_leading_slash tokens whole
sub_half [] = ([], refl, refl, refl, inr (refl, refl))
sub_half (c ∷ cs) = elim (Bool-cases (c == slash)) [
  | inl lead ↦
      let e : c ≡ slash = ground arith in
      (
        cs,
        rw lead (append_nil (take (length cs) cs) ∙ take_all cs),
        rw lead,
        rw e (basename-append [] cs),
        inl (ap (λ x. x ∷ cs) e),
      )
  | inr plain ↦ (
    c ∷ cs,
    rw plain (append_nil (take (length (c ∷ cs)) (c ∷ cs)) ∙ take_all (c ∷ cs)),
    refl,
    refl,
    inr (refl, plain),
  )
]

-- The block of a join is long enough.
joined-fits :
    (root sub : List ℕ)
    → length root + length sub + 1 < word
    → joined root sub ≡ ok (some (root ++ sub))
unfolding joined
joined-fits root sub room =
    let fits : leb (length (root ++ sub) + 1) ((length root + length sub + 1) % word) ≡ true =
      ground (arith, length-append root sub, room) in
    rw fits refl

normalize-kept :
    (flags : Flags) (path : List ℕ)
    → path ≢ []
    → length path + 3 < word
    → flags.remove_trailing ≡ false
    → normalize true flags path ≡ ok (some (normalized flags path))
normalize-kept flags path given room stays = elim (normalize-bounds flags path given room) [
  | inl (_, emptied) ↦ absurd (false≢true (sym stays ∙ emptied.2))
  | inr fine ↦ fine.0
]

-- `path_join` of two paths that are not empty and whose lengths leave room below 2^64, where its allocations succeed, never writes
-- behind a block. It gives the first path less a slash at its end, if there is one, then a slash, and then the second path less a slash
-- at its front, if there is one. Its parts are those of the first path and then those of the second, and its last part is that of
-- the second.
pub join-tokens :
    (root sub : List ℕ)
    → root ≢ []
    → sub ≢ []
    → length root + length sub + 4 < word
    → Returns (join true true true root sub) λ answer.
      (path : List ℕ) × (answer ≡ some path)
      × ((front : List ℕ) × (back : List ℕ) × (path ≡ front ++ (slash ∷ back))
          × IsFront root front
          × IsBack sub back)
      × (tokens [] path ≡ tokens [] root ++ tokens [] sub)
      × (basename path ≡ basename sub)
unfolding join flags_of
join-tokens root sub given_root given_sub room =
    let (front, front_text, front_parts, is_front) = root_half root in
    let (back, back_text, back_parts, back_last, is_back) = sub_half sub in
    let path = (front ++ (slash ∷ [])) ++ back in
    let fits : length (front ++ (slash ∷ [])) + length back + 1 < word = omega (
      arith,
      room,
      length-append front (slash ∷ []),
      front-le root front is_front,
      back-le sub back is_back,
    ) in
    let flat : path ≡ front ++ (slash ∷ back) = append_assoc front (slash ∷ []) back in
    (
      some path,
      rw (
        valid-true root given_root,
        valid-true sub given_sub,
        normalize-kept (flags_of 4) root given_root (omega (arith, room)) refl,
        normalize-kept (flags_of 2) sub given_sub (omega (arith, room)) refl,
        front_text,
        back_text,
        joined-fits (front ++ (slash ∷ [])) back fits,
      ),
      (
        path,
        refl,
        (front, back, flat, is_front, is_back),
        rw flat (tokens-append [] front back ∙ sym (rw (front_parts, back_parts))),
        rw flat (basename-append front back ∙ sym back_last),
      ),
    )
