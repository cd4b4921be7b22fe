-- ===== src/Errors.antt =====
-- The errors that the services return, and functions that may fail. An error that `fmt.Errorf` wraps
-- with `%w` is the error itself: `errors.Is` sees through the wrapping, and the text is only logged.
use one_time_note.Base.{ℕ, ◌⊎◌, inl, inr, ◌≡◌, refl, Bool, true, false, Option, none, some}

-- An error of bbolt: `ErrMaxSizeReached`, or any other.
pub data BoltError : Type 0 where
  max_size_reached : BoltError
  other : ℕ → BoltError

pub data Error : Type 0 where
  note_open_failed payload_empty payload_too_large storage_full ticket_expired ticket_invalid
        ticket_unusable lifetime_invalid :
      Error
  root_key_not_found root_key_unreadable root_key_invalid root_key_record_invalid : Error
  derive_failed marshal_failed unsupported_schema : Error
  bolt : BoltError → Error

pub data Result {ℓ} (A : Type ℓ) : Type ℓ where
  ok : A → Result A
  err : Error → Result A

-- `if test { return …, e }`
abbrev pub fail_if : Bool → Error → Result (Unit {0})
fail_if true e = err e
fail_if false e = ok tt

abbrev pub from_option {ℓ} : {A : Type ℓ} → Option A → Error → Result A
from_option none e = err e
from_option (some a) e = ok a

-- The call of a bbolt function that fails with `fault`, if there is one.
abbrev pub check_fault : Option BoltError → Result (Unit {0})
check_fault none = ok tt
check_fault (some e) = err (bolt e)

infixl 5 ◌>>=◌ ◌>>◌
-- `if err != nil { return …, err }`, and then the rest of the body.
abbrev pub ◌>>=◌ {ℓ κ} :
    {From : Type ℓ} {To : Type κ} (first : Result From) (rest : From → Result To) → Result To
err e >>= rest = err e
ok value >>= rest = rest value

-- The same where the call returns nothing but its error.
abbrev pub ◌>>◌ {ℓ} : {To : Type ℓ} (first : Result (Unit {0})) (rest : Result To) → Result To
first >> rest = first >>= λ nothing. rest

-- Where both calls have succeeded, the first returned a value with which the second did.
pub >>=-eq-ok {ℓ κ} :
    {From : Type ℓ} {To : Type κ} (first : Result From) (rest : From → Result To) {result : To}
    → (first >>= rest) ≡ ok result
    → (value : From) × (first ≡ ok value) × (rest value ≡ ok result)
>>=-eq-ok (err e) rest both = cc
>>=-eq-ok (ok value) rest both = (value, refl, both)

pub fail_if-eq-ok : (b : Bool) (e : Error) {u : Unit {0}} → fail_if b e ≡ ok u → b ≡ false
fail_if-eq-ok true e h = cc
fail_if-eq-ok false e h = refl

pub from_option-eq-ok {ℓ} :
    {A : Type ℓ} (o : Option A) (e : Error) {a : A} → from_option o e ≡ ok a → o ≡ some a
from_option-eq-ok none e h = cc
from_option-eq-ok (some a) e h = cc

pub Result-cases {ℓ} :
    {A : Type ℓ} (r : Result A) → ((a : A) × (r ≡ ok a)) ⊎ ((e : Error) × (r ≡ err e))
Result-cases (err e) = inr (e, refl)
Result-cases (ok a) = inl (a, refl)
