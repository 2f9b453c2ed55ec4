-- ===== src/Hook/Permission.antt =====
-- src/hooks/index.js: the hooks that test the permissions and roles of the current user.
pub mod Laws
pub mod BySchool
use schulcloud.Base.{
  String, Option, none, some, List, [], ◌∷◌, map, Bool, true, false, not, ◌&&◌, ◌||◌, ◌==◌,
  if◌then◌else◌, truthy, get_or, is_some, any, includes, Result, ok, err, Error, forbidden,
  not_found, plain_error, type_error, general_error, is_ok, ◌>>=◌, ◌>>◌, throw_if,
}
use schulcloud.Hook.{Account, Role, User, Context, Names, one, many, names_list}

-- `app.service('users').get(id)`; the service rejects where there is no such user.
abbrev pub UserService : Type 0
UserService = Option String → Result User

-- The callback of `then` in `hasPermission`.
unfoldable pub has_any_permission : List String → User → Context → Result Context
has_any_permission names user context =
    if any (includes user.permissions) names then ok context else err forbidden

-- `!account && !account.userId` reads a field of undefined where the account is missing, and is
-- false where it is there.
unfoldable pub account_user_id : Option Account → Result (Option String)
account_user_id none = err type_error
account_user_id (some account) = ok account.user_id

unfoldable pub has_permission : Names → UserService → Context → Result Context
has_permission input users context = if not (truthy context.provider) then ok context else (do
  user_id ← account_user_id context.account
  user ← users user_id
  has_any_permission (names_list input) user context)

-- `school.permissions`: for a role's name the permissions that are set or taken away.
abbrev pub SchoolPermissions : Type 0
SchoolPermissions = List (String × List (String × Bool))

unfoldable pub lookup {ℓ} : {V : Type ℓ} → String → List (String × V) → Option V
lookup key [] = none
lookup key ((k, v) ∷ rest) = if k == key then some v else lookup key rest

-- `permissions[role.name]` and then the own property `inputPermission` of it.
unfoldable pub school_entry : SchoolPermissions → Option String → String → Option Bool
school_entry permissions none permission = none
school_entry permissions (some role_name) permission = elim (lookup role_name permissions) [
  | none ↦ none
  | some entries ↦ lookup permission entries
]

-- The function that `user.roles.map` gets in `hasSchoolPermission`.
unfoldable pub test_role :
    String → SchoolPermissions → UserService → Context → Role → Result Context
test_role permission permissions users context role =
    elim (school_entry permissions role.name permission) [
      | none ↦ has_permission (one permission) users context
      | some true ↦ ok context
      | some false ↦ err forbidden
    ]

-- The populated user of `usersModel` with the special permissions of the user's school. A
-- rejection carries the code of the error: 500 and more becomes a general error.
pub data Fetched : Type 0 where
  populated : User → SchoolPermissions → Fetched
  rejected : (server_error : Bool) → Fetched

unfoldable pub has_school_permission :
    String → (Option String → Fetched) → UserService → Context → Result Context
has_school_permission permission users_model users context = elim (context.account) [
  | none ↦ err forbidden
  | some account ↦
      if not (truthy account.user_id) then err forbidden else elim (users_model account.user_id) [
        | rejected true ↦ err general_error
        | rejected false ↦ err forbidden
        | populated user permissions ↦
            if any (λ role. is_ok (test_role permission permissions users context role)) user.roles
            then ok context
            else err forbidden
      ]
]

-- `getUser`: every failure of the fetch, null included, becomes `NotFound`; reading the account
-- is outside the promise.
unfoldable pub get_user : (Option String → Result (Option User)) → Context → Result User
get_user users context = elim (context.account) [
  | none ↦ err type_error
  | some account ↦ elim (users account.user_id) [
    | ok (some user) ↦ ok user
    | ok none ↦ err not_found
    | err _ ↦ err not_found
  ]
]

-- `(user.roles[0] || {}).name === undefined`
abbrev pub roles_populated : List Role → Bool
roles_populated [] = false
roles_populated (role ∷ _) = is_some role.name

-- `roleNames.includes(name)`
abbrev pub role_named : List String → Role → Bool
role_named names role = elim (role.name) [ none ↦ false | some name ↦ includes names name ]

unfoldable pub test_if_role_name_exist : User → Names → Result Bool
test_if_role_name_exist user names =
    if not (roles_populated user.roles)
    then err plain_error
    else ok (any (role_named (names_list names)) user.roles)

-- `arrayIncludes`: every text of the first list is there, and none of the second.
unfoldable pub array_includes : List String → List String → List String → Bool
array_includes array [] [] = true
array_includes array [] (excluded ∷ rest) =
    if includes array excluded then false else array_includes array [] rest
array_includes array (included ∷ rest) excludes =
    if not (includes array included) then false else array_includes array rest excludes
