-- ===== src/UserHooks/Unique/Laws.antt =====
-- The addresses of users stay unique, and the name of an account follows the address.
use schulcloud.Base.{
  ℕ, String, ◌≡◌, ◌≢◌, ◌⊎◌, inl, inr, Option, none, some, List, [], ◌∷◌, map, filter, length, Bool,
  true, false, not, ◌&&◌, ◌||◌, ◌==◌, eq_iff, if◌then◌else◌, nat_eq, truthy, to_string, Result, ok,
  err, All, All-map, arith, Bool-cases, Result-cases, bad_request, leb, is_some,
}
use schulcloud.UserHooks.Unique.{
  Person, Login, is_other, check_unique, check_unique_email, is_of, account_of, set_username,
  update_account_username,
}

-- No two users have an id or an address in common.
abbrev pub Unique : List Person → Type 0
Unique [] = Unit
Unique (u ∷ us) = All (λ v. (u.id ≢ v.id) × (u.email ≢ v.email)) us × Unique us

abbrev with_email : String → String → Person → Person
with_email id email u = if u.id == id then record u { email = email } else u

-- The change of a user's address in the database.
abbrev pub set_email : String → String → List Person → List Person
set_email id email users = map (with_email id email) users

none_left {ℓ} :
    {A : Type ℓ} (p : A → Bool) (xs : List A)
    → nat_eq (length (filter p xs)) 0 ≡ true
    → All (λ x. p x ≡ false) xs
none_left p [] h = tt
none_left p (x ∷ xs) h = elim (Bool-cases (p x)) [
  | inl e ↦ absurd (ground arith)
  | inr e ↦ (e, none_left p xs (rw e at h))
]

-- One pair of users, of which one or none gets the address.
pair_set :
    (id email : String) (u v : Person)
    → (u.id ≢ v.id) × (u.email ≢ v.email)
    → (u.email ≡ email → u.id ≡ id)
    → (v.email ≡ email → v.id ≡ id)
    → ((with_email id email u).id ≢ (with_email id email v).id)
      × ((with_email id email u).email ≢ (with_email id email v).email)
pair_set id email u v d f g = ground (arith, eq_iff u.id id, eq_iff v.id id)

pairs_set :
    (id email : String) (u : Person) (us : List Person)
    → All (λ v. (u.id ≢ v.id) × (u.email ≢ v.email)) us
    → (u.email ≡ email → u.id ≡ id)
    → All (λ v. v.email ≡ email → v.id ≡ id) us
    → All
        (λ v. ((with_email id email u).id ≢ v.id) × ((with_email id email u).email ≢ v.email))
        (set_email id email us)
pairs_set id email u [] d f g = tt
pairs_set id email u (v ∷ vs) (d, ds) f (g, gs) =
    (pair_set id email u v d f g, pairs_set id email u vs ds f gs)

set_email-Unique :
    (id email : String) (users : List Person)
    → Unique users
    → All (λ u. u.email ≡ email → u.id ≡ id) users
    → Unique (set_email id email users)
set_email-Unique id email [] u f = tt
set_email-Unique id email (x ∷ xs) (u, us) (f, fs) =
    (pairs_set id email x xs u f fs, set_email-Unique id email xs us fs)

-- A change of an address that is let through keeps the ids and the addresses of the users unique.
pub check_unique_email-Unique :
    (to_lower_case : String → String) (users : List Person) (accounts : List Login)
    (id email : String)
    → Unique users
    → truthy (some id) ≡ true
    → truthy (some email) ≡ true
    → check_unique_email to_lower_case users accounts (some id) (some email) ≡ ok tt
    → Unique (set_email id (to_lower_case email) users)
unfolding check_unique_email
check_unique_email-Unique to_lower_case users accounts id email u i e h =
    set_email-Unique id (to_lower_case email) users u (
      All-map _ _ (λ v free. ground (arith, eq_iff v.email (to_lower_case email), eq_iff id v.id))
        users
        (none_left (λ v. v.email == to_lower_case email && is_other (some id) v.id) users
          (ground arith)))

fresh_free :
    (name id : String) (users : List Person)
    → All (λ v. id ≢ v.id) users
    → All (λ u. (u.email == name) ≡ false) users
    → All (λ v. (id ≢ v.id) × (name ≢ v.email)) users
fresh_free name id [] i f = tt
fresh_free name id (v ∷ vs) (i, is) (f, fs) =
    ((i, λ e. ground (arith, eq_iff v.email name)), fresh_free name id vs is fs)

none_found :
    (found : ℕ) (logged_in : Bool) (as_task : Option String)
    → (as_task ≡ none) ⊎ (as_task ≡ some "student") ⊎ (logged_in ≡ true)
    → (if leb 2 found
        then err bad_request
        else if nat_eq found 0
        then ok tt
        else if logged_in || not (is_some as_task) || to_string as_task == "student"
        then err bad_request
        else ok tt)
      ≡ ok (tt {0})
    → nat_eq found 0 ≡ true
none_found found logged_in none t h = ground arith
none_found found logged_in (some task) t h = ground (arith, eq_iff task "student")

-- A new user whose address is let through keeps the addresses unique, where the request is no
-- registration of somebody else than a student, and the new id is no one else's.
pub check_unique-UniquePersons :
    (to_lower_case : String → String) (users : List Person) (logged_in : Bool)
    (as_task : Option String) (id email : String)
    → Unique users
    → All (λ v. id ≢ v.id) users
    → (as_task ≡ none) ⊎ (as_task ≡ some "student") ⊎ (logged_in ≡ true)
    → check_unique to_lower_case users logged_in as_task (some email) ≡ ok tt
    → Unique (record { id = id; email = to_lower_case email } ∷ users)
unfolding check_unique
check_unique-UniquePersons to_lower_case users logged_in as_task id email u i t h = (
  fresh_free (to_lower_case email) id users i (
      none_left (λ v. v.email == to_lower_case email) users
        (none_found (length (filter (λ v. v.email == to_lower_case email) users)) logged_in as_task
          t h)),
  u,
)

set_username-All :
    (id user name : String) (accounts : List Login)
    → All (λ b. is_of (some user) b ≡ true → b.id ≡ id) accounts
    → All (λ b. is_of (some user) b ≡ true → b.username ≡ name) (set_username id name accounts)
set_username-All id user name [] h = tt
set_username-All id user name (b ∷ rest) (h, hs) =
    (ground (arith, eq_iff b.id id), set_username-All id user name rest hs)

module _ (stored : String → Result String) (current : Option Login) (accounts : List Login)
    (id email : String) where
  -- Where the user has one account, a change of the address that is let through changes the name of
  -- the account with it; or the account belongs to a system, and both are left as they are.
  pub update_account_username-both :
      (a : Login) (sent : Option String) (after : List Login)
      → truthy (some email) ≡ true
      → truthy (some id) ≡ true
      → account_of current accounts (some id) ≡ some a
      → All (λ b. is_of (some id) b ≡ true → b.id ≡ a.id) accounts
      → update_account_username stored current accounts (some id) (some email) ≡ ok (sent, after)
      → (truthy a.system_id ≡ true) × (sent ≡ none) × (after ≡ accounts)
        ⊎ ((name : String) × (stored email ≡ ok name)
            × (sent ≡ some email)
            × All (λ b. is_of (some id) b ≡ true → b.username ≡ name) after)
  unfolding update_account_username
  update_account_username-both a sent after e i found one h =
      elim (Bool-cases (truthy a.system_id)) [
        | inl s ↦ let kept = rw (e, i, found, s) at h in inl (s, ground arith, ground arith)
        | inr s ↦ elim (Result-cases (stored email)) [
          | inl (name, n) ↦
              let renamed = rw (e, i, found, s, n) at h in
              let same : set_username a.id name accounts ≡ after = ground arith in
              inr (name, n, ground arith, rw (← same) (set_username-All a.id id name accounts one))
          | inr (problem, n) ↦ let refused = rw (e, i, found, s, n) at h in absurd (ground arith)
        ]
      ]
