-- ===== src/Account.antt =====
-- src/services/account/hooks/index.js: the accounts, whose names have to be unique, and who may read
-- and change them.
mod Laws
mod Unique
mod Tests
use schulcloud.Base.{
  ℕ, String, Option, none, some, List, [], ◌∷◌, filter, any, length, Bool, true, false, not, ◌&&◌,
  ◌||◌, ◌==◌, if◌then◌else◌, ltb, truthy, is_some, to_string, Result, ok, err, bad_request,
  forbidden, not_found, ◌>>=◌, ◌>>◌, throw_if,
}
use schulcloud.ObjectId.{equal}

pub record Account : Type 0 where
  pub id : String
  pub username : String
  pub user_id : Option String
  pub system_id : Option String

-- `a === b` of two ids that may be undefined: two ids are objects of their own, or one is a text,
-- and so they are never the same; undefined is the same as undefined.
abbrev pub identical : Option String → Option String → Bool
identical none none = true
identical _ _ = false

-- The answer of the accounts service to the query for a name and a system. `same_system` stands for
-- the database's comparison with the system that is queried, which may be undefined.
abbrev pub named :
    (Option String → Option String → Bool) → List Account → String → Option String → List Account
named same_system accounts username system =
    filter (λ a. a.username == username && same_system a.system_id system) accounts

abbrev pub of_system : Option String → List Account → List Account
of_system system accounts = filter (λ a. identical a.system_id system) accounts

-- `hook.id`, which is undefined on create, against the id of the one account that was found.
abbrev pub is_own : Option String → List Account → Bool
is_own id [] = false
is_own id (a ∷ []) = equal (to_string id) a.id
is_own id (a ∷ b ∷ rest) = false

unfoldable pub check_unique :
    (Option String → Option String → Bool)
    → List Account
    → Option String
    → Option String
    → Option String
    → Result (Unit {0})
check_unique same_system accounts id username system =
    if not (truthy username)
    then ok tt
    else let found = of_system system (named same_system accounts (to_string username) system) in
      if is_own id found then ok tt else if ltb 0 (length found) then err bad_request else ok tt

-- The accounts of a user, in the answer to a query for the user's id, which may be undefined.
unfoldable pub check_existence :
    (Option String → List Account) → Option String → Option String → Result (Unit {0})
check_existence accounts_of user system =
    if not (truthy user) && truthy system
    then ok tt
    else if ltb 0 (length (of_system system (accounts_of user)))
    then err bad_request
    else ok tt

-- The answers to the questions that `securePatching` asks about the user and the target.
pub record Editor : Type 0 where
  pub is_superhero : Bool
  pub is_admin : Bool
  pub is_teacher : Bool
  pub is_demo_student : Bool
  pub is_demo_teacher : Bool
  pub target_is_student : Bool
  pub edits_own_account : Bool
  pub same_id : Bool  -- hook.params.account._id === hook.id

unfoldable pub secure_patching : Editor → Result (Unit {0})
secure_patching e =
    if e.same_id
    then ok tt
    else if e.is_demo_student || e.is_demo_teacher
    then err forbidden
    else if not
        (e.is_superhero || e.is_admin || e.is_teacher && e.target_is_student || e.edits_own_account)
    then err bad_request
    else ok tt

-- A value of the query: `other` is a nested object or a list, which is neither undefined nor an id.
pub data Field : Type 0 where
  missing other : Field
  text : String → Field

pub record Query : Type 0 where
  pub id : Option String
  pub user_id : Field
  pub username : Field

abbrev pub is_given : Field → Bool
is_given Field.missing = false
is_given Field.other = true
is_given (Field.text s) = truthy (some s)

abbrev pub is_text : Field → Bool
is_text (Field.text s) = true
is_text _ = false

abbrev pub kept : Field → Field
kept f = if is_given f then f else Field.missing

-- `restrictAccess`, for the names of the current user's roles, and the id of the account. What the
-- query holds else is dropped. `is_object_id` is mongoose's `ObjectId.isValid`.
unfoldable pub restrict_access : (Field → Bool) → List String → String → Query → Result Query
restrict_access is_object_id roles account query =
    if any (λ r. r == "superhero") roles
    then ok query
    else if not (is_given query.user_id) && not (is_given query.username)
    then err bad_request
    else if is_given query.user_id && not (is_object_id query.user_id)
    then err bad_request
    else if is_given query.username && not (is_text query.username)
    then err bad_request
    else ok (record {
      id = if any (λ r. r == "student") roles then some account else none;
      user_id = kept query.user_id;
      username = kept query.username;
    })

-- `restrictToUsersSchool`: the schools of the current user and of the target account's user.
unfoldable pub restrict_to_users_school : Bool → Result String → Result String → Result (Unit {0})
restrict_to_users_school superhero own target =
    if superhero then ok tt else own >>= λ a. target >>= λ b. throw_if (not (equal a b)) not_found

unfoldable pub restrict_to_same_school :
    Bool → Option String → Result String → (String → Result String) → Result (Unit {0})
restrict_to_same_school superhero user own school_of = if superhero then ok tt else elim user [
  | none ↦ err bad_request
  | some id ↦
      if not (truthy (some id))
      then err bad_request
      else (own >>= λ a. school_of id >>= λ b. throw_if (not (equal a b)) forbidden)
]

-- What `validatePassword` reads of the request and learns from the services. `strong` is the test of
-- the password's pattern, and `matches` the comparison of the old password with the stored one.
pub record PasswordChange : Type 0 where
  pub password : Option String
  pub verification : Option String
  pub strong : Bool
  pub user_id : Option String
  pub edits_own_account : Bool
  pub did_first_login : Bool
  pub forced : Bool
  pub has_student_edit : Bool
  pub has_admin_view : Bool
  pub is_student : Bool
  pub is_teacher : Bool
  pub is_superhero : Bool
  pub matches : Bool

-- The cases in which the old password is not asked for.
abbrev pub is_free : PasswordChange → Bool
is_free c =
    not c.did_first_login && c.edits_own_account
    || not c.edits_own_account
      && (c.has_student_edit && c.is_student
          || c.has_admin_view && (c.is_student || c.is_teacher)
          || c.is_superhero)
    || c.forced

unfoldable pub validate_password : PasswordChange → Result (Unit {0})
validate_password c =
    if not c.strong && truthy c.password
    then err bad_request
    else if not (truthy c.user_id)
    then ok tt
    else if is_free c
    then ok tt
    else if truthy c.password && not (truthy c.verification)
    then err forbidden
    else if truthy c.verification
    then if c.matches then ok tt else err bad_request
    else ok tt
