-- ===== src/Base/Errors.antt =====
-- Fallible code: the error classes of src/errors that the modelled code throws, as values.
use mathlib.Core.Path.{◌≡◌, refl}
use mathlib.Core.Logic.{◌⊎◌, inl, inr}
use mathlib.Core.Bool.{Bool, true, false}

-- `plain_error` is `new Error(…)`, and `type_error` the exception of the language itself, as when a
-- field of undefined is read.
pub data Error : Type 0 where
  bad_request not_authenticated forbidden not_found not_acceptable not_implemented : Error
  method_not_allowed conflict too_many_requests brute_force_prevention : Error
  general_error assertion_error plain_error type_error : Error

-- What a function returns, or throws.
pub data Result {ℓ} (Answer : Type ℓ) : Type ℓ where
  err : Error → Result Answer
  ok : Answer → Result Answer

infixl 5 ◌>>=◌ ◌>>◌
-- Promises that are chained: the first one that is rejected ends the chain.
abbrev pub ◌>>=◌ {ℓ κ} :
    {Before : Type ℓ} → {After : Type κ} → Result Before → (Before → Result After) → Result After
err problem >>= next = err problem
ok value >>= next = next value

-- A chain that is fulfilled is so at each of its two parts.
pub >>=-eq-ok {ℓ κ} :
    {Before : Type ℓ}
    → {After : Type κ} → (first : Result Before) (next : Before → Result After) {last : After}
    → (first >>= next) ≡ ok last
    → (value : Before) × (first ≡ ok value) × (next value ≡ ok last)
>>=-eq-ok (err problem) next fulfilled = cc
>>=-eq-ok (ok value) next fulfilled = (value, refl, fulfilled)

abbrev pub ◌>>◌ {ℓ} : {After : Type ℓ} → Result (Unit {0}) → Result After → Result After
first >> second = first >>= λ nothing. second

-- `if (test) throw e;`
abbrev pub throw_if : Bool → Error → Result (Unit {0})
throw_if true e = err e
throw_if false e = ok tt

abbrev pub is_ok {ℓ} : {A : Type ℓ} → Result A → Bool
is_ok (ok _) = true
is_ok (err _) = false

pub Result-cases {ℓ} :
    {A : Type ℓ} (r : Result A) → ((a : A) × (r ≡ ok a)) ⊎ ((e : Error) × (r ≡ err e))
Result-cases (ok a) = inl (a, refl)
Result-cases (err e) = inr (e, refl)

-- A value that passes a check is the value itself.
pub checked-eq-ok {ℓ} :
    {Value : Type ℓ} (first : Result Value) (check : Value → Result (Unit {0})) {last : Value}
    → (first >>= λ value. check value >> ok value) ≡ ok last
    → (first ≡ ok last) × (check last ≡ ok tt)
checked-eq-ok (err problem) check fulfilled = cc
checked-eq-ok (ok value) check {last} fulfilled = elim (Result-cases (check value)) [
  | inr (problem, e) ↦ let refused = rw e at fulfilled in cc
  | inl (done, e) ↦
      let same : value ≡ last = cc (rw e at fulfilled) in (rw same refl, rw (← same) e)
]

-- A value with one that is made from it.
abbrev pub paired {ℓ κ} :
    {First : Type ℓ}
    → {Second : Type κ} → Result First
    → (First → Result Second)
    → Result (First × Second)
paired first next = first >>= λ x. next x >>= λ y. ok (x, y)

pub paired-eq-ok {ℓ κ} :
    {First : Type ℓ} {Second : Type κ} (first : Result First) (next : First → Result Second)
    {a : First} {b : Second}
    → paired first next ≡ ok (a, b)
    → (first ≡ ok a) × (next a ≡ ok b)
paired-eq-ok (err problem) next fulfilled = cc
paired-eq-ok (ok x) next {a} {b} fulfilled = elim (Result-cases (next x)) [
  | inr (problem, e) ↦ let refused = rw e at fulfilled in cc
  | inl (y, e) ↦
      let found = rw e at fulfilled in
      let left : x ≡ a = cc in
      let right : y ≡ b = cc in (rw left refl, rw (← left) (rw (← right) e))
]
