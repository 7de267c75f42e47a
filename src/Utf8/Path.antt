-- ===== src/Utf8/Path.antt =====
-- utf8/path.c: paths as the bytes before the terminator. What the system says of files is not
-- modelled; `strdup` and the `realloc` of the parts are taken to succeed, and a write behind the
-- end of a `malloc`ed block is a fault.
pub mod Bounds
pub mod Parts
use attica.Base.{
  ℕ, zero, suc, ◌+◌, ◌-◌, ◌%◌, Bool, true, false, not, ◌&&◌, List, [], ◌∷◌, ◌++◌, Option, none,
  some, Run, ok, fault, ◌>>=◌, leb, ◌==◌, if◌then◌else◌, bit_and, word, length, take, drop,
}

-- `'/'`, and `"."`
abbrev pub slash : ℕ
slash = 47

abbrev pub dot : List ℕ
dot = 46 ∷ []

-- `path_is_valid`
unfoldable pub is_valid : List ℕ → Bool
is_valid [] = false
is_valid (c ∷ cs) = true

-- `path_has_leading_slash`
unfoldable pub has_leading_slash : List ℕ → Bool
has_leading_slash [] = false
has_leading_slash (c ∷ cs) = c == slash

-- `path_has_trailing_slash`
unfoldable pub has_trailing_slash : List ℕ → Bool
has_trailing_slash [] = false
has_trailing_slash (c ∷ []) = c == slash
has_trailing_slash (c ∷ d ∷ cs) = has_trailing_slash (d ∷ cs)

-- The four bits of `PathNormalize`.
pub record Flags : Type 0 where
  pub add_leading : Bool
  pub remove_leading : Bool
  pub add_trailing : Bool
  pub remove_trailing : Bool

unfoldable pub flags_of : ℕ → Flags
flags_of bits = record {
  add_leading = not (bit_and bits 1 == 0);
  remove_leading = not (bit_and bits 2 == 0);
  add_trailing = not (bit_and bits 4 == 0);
  remove_trailing = not (bit_and bits 8 == 0);
}

-- `new_length` of `path_normalize`, a 64-bit word
unfoldable pub new_length : Flags → List ℕ → ℕ
new_length flags path =
    let lead = has_leading_slash path in
    let trail = has_trailing_slash path in
    let n₁ = if flags.add_leading && not lead then length path + 1 else length path in
    let n₂ = if flags.remove_leading && lead then (n₁ + word - 1) % word else n₁ in
    let n₃ = if flags.add_trailing && not trail then n₂ + 1 else n₂ in
    if flags.remove_trailing && trail then (n₃ + word - 1) % word else n₃

-- What `path_normalize` writes before the terminator.
unfoldable pub normalized : Flags → List ℕ → List ℕ
normalized flags path =
    let lead = has_leading_slash path in
    let trail = has_trailing_slash path in
    let front = if flags.add_leading && not lead then slash ∷ [] else [] in
    let start = if flags.remove_leading && lead then drop 1 path else path in
    let copy_length =
      if flags.remove_trailing && has_trailing_slash start
      then length start - 1
      else length start in
    let back = if flags.add_trailing && not trail then slash ∷ [] else [] in
    front ++ take copy_length start ++ back

-- `path_normalize`; `granted` says whether its `malloc` succeeds.
unfoldable pub normalize : (granted : Bool) → Flags → List ℕ → Run (Option (List ℕ))
normalize granted flags path =
    if not (is_valid path)
    then ok none
    else if not granted
    then ok none
    else if leb (length (normalized flags path) + 1) ((new_length flags path + 1) % word)
    then ok (some (normalized flags path))
    else fault

-- `strrchr` for a slash: its index
unfoldable pub last_slash : List ℕ → Option ℕ
last_slash [] = none
last_slash (c ∷ cs) = later (last_slash cs)
  where
    later : Option ℕ → Option ℕ
    later (some i) = some (i + 1)
    later none = if c == slash then some 0 else none

-- `path_dirname`; `granted` says whether its `malloc` succeeds.
unfoldable pub dirname : (granted : Bool) → List ℕ → List ℕ
dirname granted path = if not (is_valid path) then [] else before (last_slash path)
  where
    before : Option ℕ → List ℕ
    before none = dot
    before (some zero) = slash ∷ []
    before (some (suc i)) = if granted then take (suc i) path else []

-- `path_basename`
unfoldable pub basename : List ℕ → List ℕ
basename path = if not (is_valid path) then [] else behind (last_slash path)
  where
    behind : Option ℕ → List ℕ
    behind none = path
    behind (some i) = drop (i + 1) path

-- The block of `path_join`, whose length is a 64-bit word, and what is copied into it.
unfoldable pub joined : (root sub : List ℕ) → Run (Option (List ℕ))
joined root sub =
    if leb (length (root ++ sub) + 1) ((length root + length sub + 1) % word)
    then ok (some (root ++ sub))
    else fault

-- `path_join`; the three Booleans say whether the `malloc`s of its normalizations and its own succeed.
unfoldable pub join :
    (granted_root granted_sub granted : Bool) (root sub : List ℕ) → Run (Option (List ℕ))
join granted_root granted_sub granted root sub =
    if not (is_valid root && is_valid sub)
    then ok none
    else normalize granted_root (flags_of 4) root >>= with_root
  where
    with_both : List ℕ → Option (List ℕ) → Run (Option (List ℕ))
    with_both root' none = ok none
    with_both root' (some sub') = if granted then joined root' sub' else ok none

    with_root : Option (List ℕ) → Run (Option (List ℕ))
    with_root none = ok none
    with_root (some root') = normalize granted_sub (flags_of 2) sub >>= with_both root'

-- A token that ends, if it has begun.
unfoldable pub whole : List ℕ → List (List ℕ)
whole [] = []
whole (t ∷ ts) = (t ∷ ts) ∷ []

-- The tokens that `strtok` gives for slashes, with the token that has begun.
unfoldable pub tokens : (token path : List ℕ) → List (List ℕ)
tokens token [] = whole token
tokens token (c ∷ cs) =
    let ended = whole token ++ tokens [] cs in
    let longer = tokens (token ++ (c ∷ [])) cs in if c == slash then ended else longer

-- The parts of `path_split`, if its `malloc` succeeds.
unfoldable pub split : (granted : Bool) → List ℕ → Option (List (List ℕ))
split granted path = if is_valid path && granted then some (tokens [] path) else none
