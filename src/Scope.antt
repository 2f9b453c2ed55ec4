-- ===== src/Scope.antt =====
-- src/services/helpers/scopePermissions and src/services/user-group/services/coursePermission.js: the
-- permissions that a user has within a scope, and those within a course.
mod Laws
mod Tests
use schulcloud.Base.{
  String, Option, none, some, List, [], ◌∷◌, any, all, includes, Bool, true, false, not, ◌&&◌, ◌||◌,
  ◌==◌, if◌then◌else◌, truthy, to_string, Result, ok, err, bad_request, forbidden, ◌>>=◌,
}
use schulcloud.ObjectId.{equal}

-- The handler that a scope gives to its permission service: the names of the permissions, or
-- undefined.
abbrev pub Handler {ℓ} : Type ℓ → Type ℓ
Handler Scope = Option String → Scope → Result (Option (List String))

-- `permissions || []`
abbrev pub or_empty : Option (List String) → List String
or_empty none = []
or_empty (some permissions) = permissions

unfoldable pub get_user_permissions {ℓ} :
    {Scope : Type ℓ} → Handler Scope → Option String → Scope → Result (List String)
get_user_permissions handler user scope =
    handler user scope >>= λ permissions. ok (or_empty permissions)

-- The user or the users that a query asks for: nobody, `userId: id`, or `userId: { $in: ids }`.
pub data UserQuery : Type 0 where
  nobody : UserQuery
  single : String → UserQuery
  within : List String → UserQuery

-- `userIds`: what `concat` returns is dropped, so that a query for several users asks for none.
abbrev pub queried : UserQuery → List String
queried UserQuery.nobody = []
queried (UserQuery.single id) = if truthy (some id) then id ∷ [] else []
queried (UserQuery.within ids) = []

abbrev pub collect {ℓ} :
    {Scope : Type ℓ} → Handler Scope → Scope → List String → Result (List (String × List String))
collect handler scope [] = ok []
collect handler scope (id ∷ ids) = get_user_permissions handler (some id) scope >>= λ permissions.
    collect handler scope ids >>= λ rest. ok ((id, permissions) ∷ rest)

-- `find`: the permissions of each user that is queried.
unfoldable pub find_permissions {ℓ} :
    {Scope : Type ℓ} → Handler Scope → Scope → UserQuery → Result (List (String × List String))
find_permissions handler scope query = collect handler scope (queried query)

-- What `resolveScope` finds in the path and the route of a request.
pub record Scope : Type 0 where
  pub scope_name : Option String
  pub scope_id : Option String

-- `app.service('/<name>/:scopeId/userPermissions').get(userId, { route: { scopeId } })`
abbrev pub PermissionService : Type 0
PermissionService = Option String → String → Result (List String)

unfoldable pub get_scope_permissions :
    (String → Option PermissionService) → Option String → String → String → Result (List String)
get_scope_permissions services user name id = elim (services name) [
  | none ↦ err bad_request
  | some service ↦ service user id
]

unfoldable pub check_scope_permissions :
    (String → Option PermissionService) → List String → Scope → Option String → Result (Unit {0})
check_scope_permissions services required scope user = elim scope.scope_name [
  | none ↦ err bad_request
  | some name ↦ elim scope.scope_id [
    | none ↦ err bad_request
    | some id ↦ get_scope_permissions services user name id >>= λ permissions.
        (if all (λ p. includes permissions p) required then ok tt else err forbidden)
  ]
]

pub record Course : Type 0 where
  pub school_id : String
  pub teacher_ids : List String
  pub substitution_ids : List String
  pub user_ids : List String

pub record User : Type 0 where
  pub school_id : String
  pub role_names : List String

abbrev pub belongs_to_same_school : User → Course → Bool
belongs_to_same_school user course = equal user.school_id course.school_id

abbrev pub user_is_admin : User → Bool
user_is_admin user = any (λ r. r == "administrator") user.role_names

abbrev pub user_is_superhero : User → Bool
user_is_superhero user = any (λ r. r == "superhero") user.role_names

abbrev pub is_in : List String → String → Bool
is_in ids user = any (λ id. equal user id) ids

-- `courseRoles` of the one who is `id`; who has none is refused.
unfoldable pub course_role : String → User → Course → Result String
course_role id user course =
    if user_is_superhero user
    then ok "courseAdministrator"
    else if user_is_admin user && belongs_to_same_school user course
    then ok "courseAdministrator"
    else if is_in course.teacher_ids id
    then ok "courseTeacher"
    else if is_in course.substitution_ids id
    then ok "courseSubstitutionTeacher"
    else if is_in course.user_ids id
    then ok "courseStudent"
    else err forbidden

-- `get_user` and `get_permissions` stand for the services of users and of the permissions of roles.
unfoldable pub determine_course_permissions :
    (String → Result User) → (String → Result (List String)) → Handler (Option Course)
determine_course_permissions get_user get_permissions user none = ok (some [])
determine_course_permissions get_user get_permissions user (some course) =
    if not (truthy user)
    then ok (some [])
    else (get_user (to_string user) >>= λ u. course_role (to_string user) u course >>= λ role.
        get_permissions role >>= λ permissions. ok (some permissions))

-- The service at `/courses/:scopeId/userPermissions`, whose hooks look up the course.
unfoldable pub course_permissions :
    (String → Result Course)
    → (String → Result User)
    → (String → Result (List String))
    → PermissionService
course_permissions get_course get_user get_permissions user id = get_course id >>= λ course.
    get_user_permissions (determine_course_permissions get_user get_permissions) user (some course)
