-- ===== src/Numeric/Lehmer.antt =====
-- numeric/lehmer.c: the Lehmer generator on its integer state; the floating-point outputs are not
-- modelled. A step that would leave a negative state, which takes a seed above 2^34, is `none`.
pub mod Period
use attica.Base.{ℕ, ◌+◌, ◌-◌, ◌*◌, ◌/◌, ◌%◌, ◌^◌, Option, none, some, ltb, leb, if◌then◌else◌}

-- `LEHMER_MODULUS`
abbrev pub lehmer_modulus : ℕ
lehmer_modulus = 2147483647

-- `LEHMER_MULTIPLIER`
abbrev pub lehmer_multiplier : ℕ
lehmer_multiplier = 48271

-- `LEHMER_SEED`
abbrev pub lehmer_seed : ℕ
lehmer_seed = 123456789

-- `lehmer_modulo`: `t > 0` is a comparison of the two products.
unfoldable pub modulo : ℕ → Option ℕ
modulo i =
    let q = lehmer_modulus / lehmer_multiplier in
    let r = lehmer_modulus % lehmer_multiplier in
    let hi = i / q in
    let lo = i % q in
    if ltb (r * hi) (lehmer_multiplier * lo)
    then some (lehmer_multiplier * lo - r * hi)
    else if leb (r * hi) (lehmer_multiplier * lo + lehmer_modulus)
    then some (lehmer_multiplier * lo + lehmer_modulus - r * hi)
    else none

-- `lehmer_initialize`; seeds below 1 are 0 here.
unfoldable pub initialize : ℕ → ℕ
initialize seed = if ltb 0 seed then seed else lehmer_seed

-- `lehmer_generate_int64`: the result and the state.
unfoldable pub generate_int64 : ℕ → Option (ℕ × ℕ)
generate_int64 i = elim (modulo i) [ none ↦ none | some next ↦ some (next, next) ]

-- `lehmer_generate_int32`: the low 32 bits.
unfoldable pub generate_int32 : ℕ → Option (ℕ × ℕ)
generate_int32 i = elim (generate_int64 i) [
  | none ↦ none
  | some (value, state) ↦ some (value % 2 ^ 32, state)
]
