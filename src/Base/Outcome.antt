-- ===== src/Base/Outcome.antt =====
-- What a call can end in: a result, or a fault. A fault is a failed `assert`, or an access or a
-- release that C leaves undefined.
use mathlib.Core.Bool.{Bool, true, false}
use mathlib.Core.Path.{◌≡◌, ◌∙◌, ap, subst, sym}

pub data Run {ℓ} (A : Type ℓ) : Type ℓ where
  fault : Run A
  ok : A → Run A

abbrev pub assert : Bool → Run (Unit {0})
assert false = fault
assert true = ok tt

infixl 5 ◌>>=◌ ◌>>◌
abbrev pub ◌>>=◌ {ℓ κ} : {A : Type ℓ} {B : Type κ} → Run A → (A → Run B) → Run B
fault >>= next = fault
ok value >>= next = next value

-- The call ends normally, and its value has the property `Q`.
abbrev pub Returns {ℓ κ} : {A : Type ℓ} → Run A → (A → Type κ) → Type (ℓ ⊔ κ)
Returns {A} call Q = (value : A) × (call ≡ ok value) × Q value

abbrev pub ◌>>◌ {ℓ} : {B : Type ℓ} → Run (Unit {0}) → Run B → Run B
first >> second = first >>= λ _. second

abbrev value_of {ℓ} : {A : Type ℓ} → A → Run A → A
value_of a fault = a
value_of a (ok b) = b

-- The value that a call gives has the property.
pub Returns-ok {ℓ κ} :
    {A : Type ℓ} {Q : A → Type κ} {call : Run A} {a : A} → Returns call Q → call ≡ ok a → Q a
Returns-ok {A} {Q} {call} {a} (b, e, q) f = subst Q (ap (value_of a) (sym e ∙ f)) q
