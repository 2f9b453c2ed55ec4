-- ===== src/Hook/Roles.antt =====
-- src/hooks/index.js: the functions that ask for the roles, the permissions and the school of a user.
pub mod Laws
use schulcloud.Base.{
  String, Option, none, some, List, [], ◌∷◌, any, filter, length, includes, Bool, true, false, not,
  ◌==◌, if◌then◌else◌, ltb, truthy, to_string, Result, ok, err, bad_request, forbidden, type_error,
  ◌>>=◌, ◌>>◌, throw_if,
}
use schulcloud.Hook.{Account, Role, User, Context}

abbrev pub is_named : String → Role → Bool
is_named name role = elim (role.name) [ none ↦ false | some n ↦ n == name ]

-- `userId || ''`
abbrev pub or_blank : Option String → String
or_blank none = ""
or_blank (some id) = if truthy (some id) then id else ""

-- What the services of users and accounts answer: `get` of an id, and `find` of the users with it.
pub record Services : Type 0 where
  pub get_user : String → Result User
  pub find_users : String → Result (List User)
  pub get_account : String → Result Account

module _ (services : Services) where
  unfoldable pub has_role : Option String → String → Result Bool
  has_role user_id role_name =
      services.get_user (or_blank user_id) >>= λ user. ok (any (is_named role_name) user.roles)

  unfoldable pub has_permission_no_hook : Option String → String → Result Bool
  has_permission_no_hook user_id permission =
      services.get_user (or_blank user_id) >>= λ user. ok (includes user.permissions permission)

  -- The roles of `user.data[0]`, which throws where nobody was found.
  abbrev pub first_has_role : String → List User → Result Bool
  first_has_role role_name [] = err type_error
  first_has_role role_name (user ∷ rest) =
      ok (ltb 0 (length (filter (is_named role_name) user.roles)))

  unfoldable pub has_role_no_hook : Option String → String → Bool → Result Bool
  has_role_no_hook user_id role_name false =
      services.find_users (or_blank user_id) >>= first_has_role role_name
  has_role_no_hook user_id role_name true = services.get_account (to_string user_id) >>= λ account.
      services.find_users (or_blank account.user_id) >>= first_has_role role_name

-- `isSuperHero()`, for the users that the query for the current user's id finds.
unfoldable pub is_super_hero : Services → Context → Result Context
is_super_hero services context = elim (context.account) [
  | none ↦ err type_error
  | some account ↦ services.find_users (or_blank account.user_id) >>= λ users. elim users [
    | [] ↦ err type_error
    | user ∷ rest ↦
        if not (ltb 0 (length (filter (is_named "superhero") user.roles)))
        then err forbidden
        else ok context
  ]
]

unfoldable pub permit_group_operation : Context → Result Context
permit_group_operation context = if not (truthy context.id) then err forbidden else ok context

-- `checkSchoolOwnership`: the argument answers the school of the requested object.
unfoldable pub check_school_ownership :
    Services → (Option String → Result String) → Context → Result Context
check_school_ownership services school_of context = elim (context.account) [
  | none ↦ err type_error
  | some account ↦ services.get_user (to_string account.user_id) >>= λ user.
      school_of context.id >>= λ school.
      (if user.school_id == school then ok context else err forbidden)
]

-- `lookupSchool`: the school that is stored with the account of the request.
unfoldable pub lookup_school : Services → Context → Result String
lookup_school services context = elim (context.account) [
  | none ↦ err bad_request
  | some account ↦
      if truthy account.user_id
      then (services.get_user (to_string account.user_id) >>= λ user. ok user.school_id)
      else err bad_request
]

-- `populateCurrentSchool`, where `schools` is the service of schools.
unfoldable pub populate_current_school {ℓ} :
    {School : Type ℓ} → Services → (String → Result School) → Context → Result School
populate_current_school services schools context = lookup_school services context >>= schools

-- `blockDisposableEmail(property, optional)`: the value of the property, whether the domains are
-- blocked, and the test of `isDisposableEmail`.
unfoldable pub block_disposable_email :
    Bool → Bool → (String → Bool) → Option String → Result (Unit {0})
block_disposable_email optional blocking is_disposable none = throw_if (not optional) bad_request
block_disposable_email optional blocking is_disposable (some email) =
    if blocking then throw_if (is_disposable email) bad_request else ok tt

-- A value of `resolveToIds` is an id, or the key of a record, whose id is looked up.
unfoldable pub resolve_to_id : (String → List String) → String → Result String
resolve_to_id find key = elim (find key) [ [] ↦ err type_error | id ∷ rest ↦ ok id ]

unfoldable pub resolve_to_ids :
    (String → Bool) → (String → List String) → List String → Result (List String)
resolve_to_ids is_id find [] = ok []
resolve_to_ids is_id find (value ∷ values) =
    (if is_id value then ok value else resolve_to_id find value) >>= λ id.
    resolve_to_ids is_id find values >>= λ ids. ok (id ∷ ids)
