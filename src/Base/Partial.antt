-- ===== src/Base/Partial.antt =====
-- Optional results, where `none` is an error whose text the program only logs.
use mathlib.Core.Path.{◌≡◌, refl}
use mathlib.Core.Bool.{Bool, true, false}
use mathlib.Core.Option.{Option, none, some}

infixl 5 ◌>>=◌ ◌>>◌
-- `if err != nil { return nil, err }`, and then the rest of the body.
abbrev pub ◌>>=◌ : {A B : Type 0} (first : Option A) (rest : A → Option B) → Option B
none >>= rest = none
some a >>= rest = rest a

abbrev pub ◌>>◌ : {B : Type 0} (first : Option (Unit {0})) (rest : Option B) → Option B
first >> rest = first >>= λ nothing. rest

-- `if test { return nil, errors.New(…) }`
abbrev pub refuse_if : Bool → Option (Unit {0})
refuse_if true = none
refuse_if false = some tt

-- Where a sequence of two calls has a result, both calls have one.
pub >>=-eq-some :
    {A B : Type 0} (first : Option A) (rest : A → Option B) {b : B}
    → (first >>= rest) ≡ some b
    → (a : A) × (first ≡ some a) × (rest a ≡ some b)
>>=-eq-some none rest h = cc
>>=-eq-some (some a) rest h = (a, refl, h)

pub refuse_if-eq-some : (test : Bool) {u : Unit {0}} → refuse_if test ≡ some u → test ≡ false
refuse_if-eq-some true h = cc
refuse_if-eq-some false h = refl

pub eq-some : {A : Type 0} {a b : A} → some a ≡ some b → a ≡ b
eq-some h = cc h
