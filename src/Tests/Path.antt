-- ===== src/Tests/Path.antt =====
-- Runs of utf8/path.c, and its theorems at short paths.
use attica.Base.{
  ℕ, ◌≡◌, ◌⊎◌, refl, true, arith, List, [], ◌∷◌, ◌++◌, some, ok, fault, Returns, length,
}
use attica.Utf8.Path.{
  flags_of, is_valid, has_leading_slash, has_trailing_slash, new_length, normalized, normalize,
  last_slash, dirname, basename, joined, join, whole, tokens, split,
}
use attica.Utf8.Path.Bounds.{IsEmptied, normalize-bounds}
use attica.Utf8.Path.Parts.{IsFront, IsBack, join-tokens}

path_program : Unit {0}
unfolding flags_of is_valid has_leading_slash has_trailing_slash new_length normalized normalize
    last_slash dirname basename joined join whole tokens split
path_program = tt

-- "/a/b" and "a"
abbrev a_b : List ℕ
a_b = 47 ∷ 97 ∷ 47 ∷ 98 ∷ []

abbrev a : List ℕ
a = 97 ∷ []

dirname_runs : dirname true a_b ≡ 47 ∷ 97 ∷ []
unfolding path_program
dirname_runs = refl

basename_runs : basename a_b ≡ 98 ∷ []
unfolding path_program
basename_runs = refl

split_runs : split true a_b ≡ some ((97 ∷ []) ∷ (98 ∷ []) ∷ [])
unfolding path_program
split_runs = refl

join_runs : join true true true a a_b ≡ ok (some (97 ∷ a_b))
unfolding path_program
join_runs = refl

-- "/" without its leading and its trailing slash
normalize_faults : normalize true (flags_of 10) (47 ∷ []) ≡ fault
unfolding path_program
normalize_faults = refl

normalize-bounds_example :
    ((normalize true (flags_of 8) a_b ≡ fault) × IsEmptied (flags_of 8) a_b)
    ⊎ ((normalize true (flags_of 8) a_b ≡ ok (some (normalized (flags_of 8) a_b)))
        × (length (normalized (flags_of 8) a_b) ≡ new_length (flags_of 8) a_b)
        × ¬ IsEmptied (flags_of 8) a_b)
normalize-bounds_example = normalize-bounds (flags_of 8) a_b (λ e. cc e) (omega arith)

join-tokens_example : Returns (join true true true a a_b) λ answer.
    (path : List ℕ) × (answer ≡ some path)
    × ((front : List ℕ) × (back : List ℕ) × (path ≡ front ++ (47 ∷ back))
        × IsFront a front
        × IsBack a_b back)
    × (tokens [] path ≡ tokens [] a ++ tokens [] a_b)
    × (basename path ≡ basename a_b)
join-tokens_example = join-tokens a a_b (λ e. cc e) (λ e. cc e) (omega arith)
